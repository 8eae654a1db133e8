-- ===== src/Workspace/Changes.antt =====
-- What each operation on the strip changes: which panes go and come, and that the workspace stays
-- valid.
use termherd.Prelude.{
  ℕ, ◌≡◌, refl, ◌∙◌, inl, inr, ◌⊎◌, Bool, true, false, some, arith, ◌==◌, ◌||◌, leb, Option-cases,
  Bool-cases, get_elem?, length, get_elem?-eq-some,
}
use termherd.Text.{Text}
use termherd.Pane.{SessionId, navigate}
use termherd.Pane.Edits.{pane_count}
use termherd.Tab.{Tab, new_tab}
use termherd.Workspace.{
  Workspace, new, relocate, first_parked, insert_tab, append, open_tab, park, unpark, toggle_park,
  activate, move_tab, close_tab,
}
use termherd.Workspace.Tabs.{TabOk, one}
use termherd.Workspace.Strip.{new-IsStrip, insert_tab-IsStrip}
use termherd.Workspace.Strip.Kept.{
  open_tab-IsStrip, park-IsStrip, unpark-IsStrip, toggle_park-IsStrip, activate-IsStrip,
  move_tab-IsStrip, close_tab-IsStrip,
}
use termherd.Workspace.Relocate.{tabs-relocate}
use termherd.Workspace.Valid.{
  IsValid, Change, Keeps, Moved, stays, moved, Moved-Keeps, insert-Change, erase-Change, nobody,
}

pub new-IsValid : IsValid new
new-IsValid = record { strip = new-IsStrip; tabs_ok = tt }

new_tab-TabOk : (session : SessionId) (title : Text) → TabOk (new_tab session title)
unfolding new_tab
new_tab-TabOk session title = record { focused = (session, unfold navigate in refl); ratios = tt }

module _ (w : Workspace) (v : IsValid w) where
  -- A tab opened in the background adds one pane, of its session.
  pub append-Change :
      (session : SessionId) (title : Text)
      → Change w (append w session title).0 nobody (one session)
  unfolding append new_tab pane_count
  append-Change session title =
      insert-Change w (insert_tab w (new_tab session title)).0 (first_parked w.tabs)
        (new_tab session title) v refl (insert_tab-IsStrip w v.strip (new_tab session title) refl)
        (new_tab-TabOk session title)

  -- An activated tab that was in the background keeps its panes too.
  relocate-Moved :
      (from to : ℕ) (parked : Bool) (t : Tab)
      → get_elem? w.tabs from ≡ some t
      → Moved w (relocate w from to parked)
  relocate-Moved from to parked t h = moved from to parked t h (tabs-relocate w from to parked t h)

  park-Moved : (index : ℕ) → Moved w (park w index).0
  unfolding park
  park-Moved index = elim (Option-cases (get_elem? w.tabs index)) [
    | inl e ↦ rw (e, park) (stays refl)
    | inr (t, e) ↦ elim (Bool-cases t.parked) [
      | inl p ↦ rw (e, park) (rw p (stays refl))
      | inr p ↦ rw (e, park) (rw p (relocate-Moved index _ true t e))
    ]
  ]

  unpark-Moved : (index : ℕ) → Moved w (unpark w index).0
  unfolding unpark
  unpark-Moved index = elim (Option-cases (get_elem? w.tabs index)) [
    | inl e ↦ rw (e, unpark) (stays refl)
    | inr (t, e) ↦ elim (Bool-cases t.parked) [
      | inl p ↦ rw (e, unpark) (rw p (relocate-Moved index _ false t e))
      | inr p ↦ rw (e, unpark) (rw p (stays refl))
    ]
  ]

  toggle_park-Moved : (index : ℕ) → Moved w (toggle_park w index).0
  unfolding toggle_park
  toggle_park-Moved index = elim (Option-cases (get_elem? w.tabs index)) [
    | inl e ↦ rw (e, toggle_park) (stays refl)
    | inr (t, e) ↦ elim (Bool-cases t.parked) [
      | inl p ↦ rw (e, toggle_park) (rw p (unpark-Moved index))
      | inr p ↦ rw (e, toggle_park) (rw p (park-Moved index))
    ]
  ]

  -- Only the tabs count.
  Moved-tabs : (w' w'' : Workspace) → Moved w w' → w''.tabs ≡ w'.tabs → Moved w w''
  Moved-tabs w' w'' (stays e) h = stays (h ∙ e)
  Moved-tabs w' w'' (moved from to parked t g e) h = moved from to parked t g (h ∙ e)

  tabs-activate :
      (index : ℕ)
      → ((activate w index).0.tabs ≡ w.tabs) ⊎ ((activate w index).0.tabs ≡ (unpark w index).0.tabs)
  unfolding activate
  tabs-activate index = elim (Option-cases (get_elem? w.tabs index)) [
    | inl e ↦ inl (rw (e, activate))
    | inr (t, e) ↦ elim (Bool-cases t.parked) [
      | inl p ↦ inr (elim (Option-cases (unpark w index).1) [
        | inl a ↦ rw (e, activate) (rw p (rw a))
        | inr (at, a) ↦ rw (e, activate) (rw p (rw a))
      ])
      | inr p ↦ inl (rw (e, activate) (rw p))
    ]
  ]

  activate-Moved : (index : ℕ) → Moved w (activate w index).0
  activate-Moved index = elim (tabs-activate index) [
    | inl e ↦ stays e
    | inr e ↦ Moved-tabs _ _ (unpark-Moved index) e
  ]

  move_tab-Moved : (from to : ℕ) → Moved w (move_tab w from to).0
  unfolding move_tab
  move_tab-Moved from to = elim (Bool-cases (leb (length w.tabs) from || leb (length w.tabs) to)) [
    | inl out ↦ rw (out, move_tab) (stays refl)
    | inr within ↦ elim (Bool-cases (from == to)) [
      | inl same ↦ rw (within, same, move_tab) (stays refl)
      | inr other ↦
          let (t, e) = get_elem?-eq-some w.tabs from (ground arith) in
          rw (within, other, move_tab) (relocate-Moved from to _ t e)
    ]
  ]

  -- In a valid workspace, parking the tab at any index leaves a valid workspace with the same
  -- panes.
  pub park-Keeps : (index : ℕ) → Keeps w (park w index).0
  park-Keeps index = Moved-Keeps v (park-IsStrip w v.strip index) (park-Moved index)

  pub unpark-Keeps : (index : ℕ) → Keeps w (unpark w index).0
  unpark-Keeps index = Moved-Keeps v (unpark-IsStrip w v.strip index) (unpark-Moved index)

  pub toggle_park-Keeps : (index : ℕ) → Keeps w (toggle_park w index).0
  toggle_park-Keeps index =
      Moved-Keeps v (toggle_park-IsStrip w v.strip index) (toggle_park-Moved index)

  -- In a valid workspace, activating the tab at any index, parked or not, leaves a valid
  -- workspace with the same panes.
  pub activate-Keeps : (index : ℕ) → Keeps w (activate w index).0
  activate-Keeps index = Moved-Keeps v (activate-IsStrip w v.strip index) (activate-Moved index)

  -- In a valid workspace, dragging a tab from any index to any other leaves a valid workspace
  -- with the same panes.
  pub move_tab-Keeps : (from to : ℕ) → Keeps w (move_tab w from to).0
  move_tab-Keeps from to =
      Moved-Keeps v (move_tab-IsStrip w v.strip from to) (move_tab-Moved from to)

  -- A tab opened in front: it is shown.
  pub open_tab-Change :
      (session : SessionId) (title : Text)
      → Change w (open_tab w session title) nobody (one session)
  unfolding open_tab new_tab pane_count
  open_tab-Change session title =
      insert-Change w (open_tab w session title) (first_parked w.tabs) (new_tab session title) v
        (unfold insert_tab in refl) (open_tab-IsStrip w v.strip session title)
        (new_tab-TabOk session title)

  -- In a valid workspace, closing the tab at an index that holds one leaves a valid workspace
  -- from which exactly the panes of that tab are gone.
  pub close_tab-Change :
      (index : ℕ) (t : Tab)
      → get_elem? w.tabs index ≡ some t
      → Change w (close_tab w index).0 (pane_count t.root) nobody
  close_tab-Change index t h =
      erase-Change w (close_tab w index).0 index t v h (unfold close_tab in rw (h, close_tab))
        (close_tab-IsStrip w v.strip index)
