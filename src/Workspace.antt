-- ===== src/Workspace.antt =====
-- crates/core/src/workspace.rs: the strip of tabs and the operations on it. An operation that
-- answers `Option<R>` returns the workspace as it leaves it beside its answer.
pub mod Panes
pub mod Tabs
pub mod Focus
pub mod Valid
pub mod Changes
pub mod PaneChanges
pub mod Titles
pub mod Relocate
pub mod Zones
pub mod Strip
use termherd.Prelude.{
  ℕ, ◌-◌, Bool, true, false, ◌&&◌, ◌||◌, List, [], ◌∷◌, Option, none, some, leb, ltb, ◌==◌,
  if◌then◌else◌, min, length, get_elem?, set, erase_idx, insert_idx, find_idx, find?, any,
  unwrap_or,
}
use termherd.Text.{Text, trim, is_empty, text_eq}
use termherd.Indices.{Step, index_after, index_after_removal, shift_index}
use termherd.Pane.{SessionId}
use termherd.Tab
use termherd.Tab.{Tab, new_tab}

pub record Workspace : Type 0 where
  pub tabs : List Tab
  pub active : ℕ

abbrev pub new : Workspace
new = record { tabs = []; active = 0 }

unfoldable pub first_parked : List Tab → ℕ
first_parked tabs = unwrap_or (find_idx (λ tab. tab.parked) tabs) (length tabs)

-- `self.tabs[i].parked`, which panics past the end; here the answer is then `false`.
abbrev pub parked_at : List Tab → ℕ → Bool
parked_at tabs i = elim (get_elem? tabs i) [ none ↦ false | some tab ↦ tab.parked ]

unfoldable pub insert_tab : Workspace → Tab → Workspace × ℕ
insert_tab w tab =
    let at = first_parked w.tabs in
    (
      record { tabs = insert_idx w.tabs at tab; active = if leb at w.active then at else w.active },
      at,
    )

unfoldable pub append : Workspace → SessionId → Text → Workspace × ℕ
unfolding insert_tab
append w session title = insert_tab w (new_tab session title)

unfoldable pub open_tab : Workspace → SessionId → Text → Workspace
unfolding append
open_tab w session title = let (w', at) = append w session title in record w' { active = at }

unfoldable pub tab_of : Workspace → SessionId → Option ℕ
tab_of w session = find_idx (λ tab. Tab.hosts tab session) w.tabs

unfoldable pub unparked_fallback : List Tab → ℕ → ℕ
unparked_fallback tabs slot =
    let unparked = if first_parked tabs == 0 then length tabs else first_parked tabs in
    min slot (unparked - 1)

-- Where `from` is past the end the source panics; the workspace is then left as it was.
unfoldable pub relocate : Workspace → ℕ → ℕ → Bool → Workspace
relocate w from to parked = elim (get_elem? w.tabs from) [
  | none ↦ w
  | some tab ↦
      let tabs' = insert_idx (erase_idx w.tabs from) to (record tab { parked = parked }) in
      let active' = shift_index w.active from to in
      if parked_at tabs' active' && ltb 0 (first_parked tabs')
      then record { tabs = tabs'; active = unparked_fallback tabs' from }
      else record { tabs = tabs'; active = active' }
]

unfoldable pub park : Workspace → ℕ → Workspace × Option (Unit {0})
park w index = elim (get_elem? w.tabs index) [
  | none ↦ (w, none)
  | some tab ↦
      if tab.parked then (w, none) else (relocate w index (first_parked w.tabs - 1) true, some tt)
]

unfoldable pub unpark : Workspace → ℕ → Workspace × Option ℕ
unpark w index = elim (get_elem? w.tabs index) [
  | none ↦ (w, none)
  | some tab ↦
      if tab.parked
      then (relocate w index (first_parked w.tabs) false, some (first_parked w.tabs))
      else (w, none)
]

unfoldable pub toggle_park : Workspace → ℕ → Workspace × Option (Unit {0})
toggle_park w index = elim (get_elem? w.tabs index) [
  | none ↦ (w, none)
  | some tab ↦
      if tab.parked
      then ((unpark w index).0, elim (unpark w index).1 [ none ↦ none | some _ ↦ some tt ])
      else park w index
]

unfoldable pub activate : Workspace → ℕ → Workspace × Option (Unit {0})
activate w index = elim (get_elem? w.tabs index) [
  | none ↦ (w, none)
  | some tab ↦
      let (w', answer) = unpark w index in
      if tab.parked
      then elim answer [ none ↦ (w', none) | some at ↦ (record w' { active = at }, some tt) ]
      else (record w { active = index }, some tt)
]

-- The zone that a tab lands in at index `to`, over so many other unparked tabs.
unfoldable pub lands_parked : Bool → ℕ → ℕ → Bool
lands_parked was_parked to unparked_besides =
    if ltb to unparked_besides then false else if to == unparked_besides then was_parked else true

unfoldable pub move_tab : Workspace → ℕ → ℕ → Workspace × Option (Unit {0})
unfolding lands_parked
move_tab w from to =
    let was_parked = parked_at w.tabs from in
    let unparked_besides = first_parked w.tabs - (if was_parked then 0 else 1) in
    if leb (length w.tabs) from || leb (length w.tabs) to
    then (w, none)
    else if from == to
    then (w, some tt)
    else (relocate w from to (lands_parked was_parked to unparked_besides), some tt)

unfoldable pub active_after_removing : ℕ → List Tab → ℕ → ℕ
active_after_removing active tabs removed =
    unwrap_or (index_after_removal active removed) (unparked_fallback tabs removed)

unfoldable pub close_tab : Workspace → ℕ → Workspace × List SessionId
unfolding active_after_removing
close_tab w index = elim (get_elem? w.tabs index) [
  | none ↦ (w, [])
  | some tab ↦
      let tabs' = erase_idx w.tabs index in
      (
        record { tabs = tabs'; active = active_after_removing w.active tabs' index },
        Tab.sessions tab,
      )
]

unfoldable pub cycled_tab : Workspace → Step → Option ℕ
cycled_tab w step = index_after step w.active (first_parked w.tabs)

unfoldable pub shown_session : Workspace → Option SessionId
shown_session w = elim (get_elem? w.tabs w.active) [
  | none ↦ none
  | some tab ↦ some (Tab.first_session tab)
]

unfoldable pub shows : Workspace → SessionId → Bool
shows w session = elim (get_elem? w.tabs w.active) [
  | none ↦ false
  | some tab ↦ Tab.hosts tab session
]

-- `slice.contains`.
unfoldable pub contains : List SessionId → SessionId → Bool
contains sessions session = any (λ s. s == session) sessions

-- The first tab that lists `session`, rewritten; `none` where no tab does.
unfoldable pub update_first : (Tab → Bool) → (Tab → Tab) → List Tab → Option (List Tab)
update_first test f [] = none
update_first test f (tab ∷ tabs) = elim (test tab) [
  | true ↦ some (f tab ∷ tabs)
  | false ↦ elim (update_first test f tabs) [ none ↦ none | some tabs' ↦ some (tab ∷ tabs') ]
]

unfoldable pub set_live_title : Workspace → SessionId → Text → Workspace × Option (Unit {0})
set_live_title w session title =
    elim (update_first (λ tab. contains (Tab.sessions tab) session)
      (λ tab. if Tab.first_session tab == session then Tab.set_live_title tab title else tab)
      w.tabs) [ none ↦ (w, none) | some tabs' ↦ (record w { tabs = tabs' }, some tt) ]

unfoldable pub session_title : Workspace → SessionId → Option Text
session_title w session = elim (find? (λ tab. contains (Tab.sessions tab) session) w.tabs) [
  | none ↦ none
  | some tab ↦ some (Tab.display_title tab)
]

unfoldable pub rename_tab : Workspace → ℕ → Text → Workspace × Option (Unit {0})
rename_tab w index name = elim (get_elem? w.tabs index) [
  | none ↦ (w, none)
  | some tab ↦
      let custom =
        if is_empty (trim name) || text_eq (trim name) (trim tab.title)
        then none
        else some (trim name) in
      (record w { tabs = set w.tabs index (record tab { custom_title = custom }) }, some tt)
]
