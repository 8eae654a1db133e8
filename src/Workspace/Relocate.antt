-- ===== src/Workspace/Relocate.antt =====
-- What `Workspace::relocate` does to the tabs and to the active index.
use termherd.Prelude.{
  ℕ, ◌<◌, ◌≡◌, inl, inr, Bool, List, some, arith, ◌&&◌, ltb, ◌==◌, if◌then◌else◌, length, get_elem?,
  erase_idx, insert_idx, get_elem?-insert_idx, length-erase_idx, lt-length_of_get_elem?, Bool-cases,
}
use termherd.Indices.{shift_index, get_elem?-shift_index}
use termherd.Tab.{Tab}
use termherd.Workspace.{Workspace, first_parked, parked_at, relocate, unparked_fallback}

module _ (w : Workspace) (from to : ℕ) (parked : Bool) (tab : Tab) where
  -- The strip with the tab moved and its state set.
  abbrev pub relocated : List Tab
  relocated = insert_idx (erase_idx w.tabs from) to (record tab { parked = parked })

  pub tabs-relocate :
      get_elem? w.tabs from ≡ some tab → (relocate w from to parked).tabs ≡ relocated
  unfolding relocate
  tabs-relocate h =
      elim (Bool-cases
        (parked_at relocated (shift_index w.active from to) && ltb 0 (first_parked relocated))) [
          | inl c ↦ rw (h, relocate) (rw c)
          | inr c ↦ rw (h, relocate) (rw c)
        ]

  -- Where a tab is moved from an index that holds it to an index in range, the moved tab stands
  -- at the new index with its new parked state, and every other tab stands, as it was, at the
  -- index that shift_index gives.
  pub get_elem?-relocate :
      (i : ℕ)
      → get_elem? w.tabs from ≡ some tab
      → to < length w.tabs
      → get_elem? (relocate w from to parked).tabs (shift_index i from to)
        ≡ (if i == from then some (record tab { parked = parked }) else get_elem? w.tabs i)
  get_elem?-relocate i h bound = rw (tabs-relocate h) (elim (Bool-cases (i == from)) [
    | inl same ↦ rw same (
        unfold shift_index in
        ground (
          arith,
          length-erase_idx w.tabs from (lt-length_of_get_elem? w.tabs from h),
          get_elem?-insert_idx (erase_idx w.tabs from) to to (record tab { parked = parked }),
        ))
    | inr other ↦ rw other (
        get_elem?-shift_index w.tabs i from to _ (lt-length_of_get_elem? w.tabs from h) bound
          (λ e. ground arith))
  ])

  -- The active tab stays the same tab, unless it is now parked while an unparked one remains: then
  -- the tab in the slot left, or the last unparked one before it, takes over.
  pub active-relocate :
      get_elem? w.tabs from ≡ some tab
      → (relocate w from to parked).active ≡ (
          if parked_at (relocate w from to parked).tabs (shift_index w.active from to)
            && ltb 0 (first_parked (relocate w from to parked).tabs)
          then unparked_fallback (relocate w from to parked).tabs from
          else shift_index w.active from to)
  active-relocate h =
      rw (tabs-relocate h)
        (elim (Bool-cases
          (parked_at relocated (shift_index w.active from to) && ltb 0 (first_parked relocated))) [
            | inl c ↦ unfold relocate in rw (h, relocate) (rw c)
            | inr c ↦ unfold relocate in rw (h, relocate) (rw c)
          ])
