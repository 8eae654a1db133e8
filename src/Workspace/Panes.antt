-- ===== src/Workspace/Panes.antt =====
-- crates/core/src/workspace.rs: the operations of `Workspace` on the panes of a tab.
use termherd.Prelude.{
  ℕ, Bool, false, List, [], ◌∷◌, ◌++◌, Option, none, some, ◌==◌, if◌then◌else◌, get_elem?, set,
  find_idx, find?, unwrap_or, not, length,
}
use termherd.F32.{F32, finite, half, tenth, nine_tenths, is_finite, clamp}
use termherd.Indices.{Step, next, prev, index_after}
use termherd.Pane.{
  SessionId, SplitDir, Direction, Branch, a, b, Pane, leaf, split, axis_toward, path_eq, navigate,
  write_at, focus_first_leaf, leaf_path_of, leaf_paths, step_across, wrap_around,
}
use termherd.Tab
use termherd.Tab.{Tab}
use termherd.Workspace.{Workspace, tab_of, activate, close_tab}

-- The tab at `index` replaced by `tab`, with the answer `Some(())`.
abbrev pub with_tab : Workspace → ℕ → Tab → Workspace × Option (Unit {0})
with_tab w index tab = (record w { tabs = set w.tabs index tab }, some tt)

-- The tab once its focused leaf is split; `none` where the focus path ends on no leaf.
unfoldable pub split_tab : Tab → SplitDir → SessionId → Option Tab
split_tab tab dir session = elim (navigate tab.root tab.focus) [
  | none ↦ none
  | some (split _ _ _ _) ↦ none
  | some (leaf s) ↦
      elim (write_at tab.root tab.focus (split dir (finite false half) (leaf s) (leaf session))) [
        | none ↦ none
        | some root' ↦ some (record tab { root = root'; focus = tab.focus ++ b ∷ [] })
      ]
]

unfoldable pub split_focused : Workspace → SplitDir → SessionId → Workspace × Option (Unit {0})
split_focused w dir session = elim (get_elem? w.tabs w.active) [
  | none ↦ (w, none)
  | some tab ↦ elim (split_tab tab dir session) [
    | none ↦ (w, none)
    | some tab' ↦ with_tab w w.active tab'
  ]
]

-- The tree once the ratio of the split at `path` is set.
unfoldable pub set_ratio_at : Pane → List Branch → F32 → Option Pane
set_ratio_at root path ratio = elim (navigate root path) [
  | none ↦ none
  | some (leaf _) ↦ none
  | some (split dir _ x y) ↦ write_at root path (split dir (clamp tenth nine_tenths ratio) x y)
]

unfoldable pub set_split_ratio : Workspace → ℕ → List Branch → F32 → Workspace × Option (Unit {0})
set_split_ratio w tab_index path ratio =
    if not (is_finite ratio) then (w, none) else elim (get_elem? w.tabs tab_index) [
      | none ↦ (w, none)
      | some tab ↦ elim (set_ratio_at tab.root path ratio) [
        | none ↦ (w, none)
        | some root' ↦ with_tab w tab_index (record tab { root = root' })
      ]
    ]

unfoldable pub focused_session : Workspace → Option SessionId
focused_session w = elim (get_elem? w.tabs w.active) [
  | none ↦ none
  | some tab ↦ Tab.focused_session tab
]

-- `path.pop()`: the last step, and the path before it.
unfoldable pub pop : List Branch → Option (List Branch × Branch)
pop [] = none
pop (x ∷ xs) = elim (pop xs) [ none ↦ some ([], x) | some (init, last) ↦ some (x ∷ init, last) ]

-- The tree once the split at `parent` gives way to its side other than `branch`.
unfoldable pub collapse : Pane → List Branch → Branch → SessionId → Option Pane
collapse root parent branch removed = elim (navigate root parent) [
  | none ↦ none
  | some (leaf _) ↦ write_at root parent (leaf removed)
  | some (split _ _ x y) ↦ write_at root parent (elim branch [ a ↦ y | b ↦ x ])
]

-- The focus once the leaf of `removed` has gone, whose parent split was at `parent`: the leaf that
-- had it, where that is another, else the first leaf of what stands at `parent` now.
unfoldable pub refocus : Pane → Option SessionId → SessionId → List Branch → List Branch
refocus root focused removed parent =
    let kept : Option (List Branch) = elim focused [
      | none ↦ none
      | some f ↦ if f == removed then none else leaf_path_of root f
    ] in
    unwrap_or kept (focus_first_leaf root parent)

unfoldable pub close_leaf : Workspace → ℕ → List Branch → Workspace × Option SessionId
unfolding collapse refocus
close_leaf w index path = elim (get_elem? w.tabs index) [
  | none ↦ (w, none)
  | some tab ↦ elim (navigate tab.root path) [
    | none ↦ (w, none)
    | some (split _ _ _ _) ↦ (w, none)
    | some (leaf removed) ↦ elim (pop path) [
      | none ↦ ((close_tab w index).0, some removed)
      | some (parent, branch) ↦ elim (collapse tab.root parent branch removed) [
        | none ↦ (w, none)
        | some root' ↦ (
          record w {
            tabs = set w.tabs index (record tab {
              root = root';
              focus = refocus root' (Tab.focused_session tab) removed parent;
            });
          },
          some removed,
        )
      ]
    ]
  ]
]

unfoldable pub close_focused : Workspace → Workspace × Option SessionId
close_focused w = elim (get_elem? w.tabs w.active) [
  | none ↦ (w, none)
  | some tab ↦ close_leaf w w.active tab.focus
]

unfoldable pub close_pane_of : Workspace → SessionId → Workspace × Option SessionId
close_pane_of w session = elim (tab_of w session) [
  | none ↦ (w, none)
  | some index ↦ elim (get_elem? w.tabs index) [
    | none ↦ (w, none)
    | some tab ↦ elim (leaf_path_of tab.root session) [
      | none ↦ (w, none)
      | some path ↦ close_leaf w index path
    ]
  ]
]

-- The leaf path one step from the focus.
unfoldable pub cycled_path : Pane → List Branch → Step → Option (List Branch)
cycled_path root focus step =
    let paths = leaf_paths root in
    let current = unwrap_or (find_idx (λ p. path_eq p focus) paths) 0 in
    elim (index_after step current (length paths)) [ none ↦ none | some i ↦ get_elem? paths i ]

-- The active tab with a new focus path, where there is one.
abbrev pub refocus_active : Workspace → (Tab → Option (List Branch)) → Workspace × Option (Unit {0})
refocus_active w focus = elim (get_elem? w.tabs w.active) [
  | none ↦ (w, none)
  | some tab ↦ elim (focus tab) [
    | none ↦ (w, none)
    | some path ↦ with_tab w w.active (record tab { focus = path })
  ]
]

unfoldable pub cycle_focus : Workspace → Step → Workspace × Option (Unit {0})
cycle_focus w step = refocus_active w (λ tab. cycled_path tab.root tab.focus step)

unfoldable pub focus_next : Workspace → Workspace × Option (Unit {0})
unfolding cycle_focus
focus_next w = cycle_focus w next

unfoldable pub focus_prev : Workspace → Workspace × Option (Unit {0})
unfolding cycle_focus
focus_prev w = cycle_focus w prev

-- The test of `focus_pane_of`: the path ends on the leaf of `session`.
unfoldable pub ends_on : Pane → SessionId → List Branch → Bool
ends_on root session path = elim (navigate root path) [
  | none ↦ false
  | some (leaf s) ↦ s == session
  | some (split _ _ _ _) ↦ false
]

unfoldable pub focus_pane_of : Workspace → SessionId → Workspace × Option (Unit {0})
focus_pane_of w session =
    refocus_active w (λ tab. find? (ends_on tab.root session) (leaf_paths tab.root))

unfoldable pub reveal_pane_of : Workspace → SessionId → Workspace × Option (Unit {0})
reveal_pane_of w session = elim (tab_of w session) [
  | none ↦ (w, none)
  | some index ↦
      let (w', answer) = activate w index in
      elim answer [ none ↦ (w', none) | some _ ↦ focus_pane_of w' session ]
]

unfoldable pub directed_path : Pane → List Branch → Direction → Option (List Branch)
directed_path root focus dir =
    let (axis, toward) = axis_toward dir in
    elim (step_across root focus axis toward) [
      | some path ↦ some path
      | none ↦ wrap_around root focus axis toward
    ]

unfoldable pub focus_dir : Workspace → Direction → Workspace × Option (Unit {0})
focus_dir w dir = refocus_active w (λ tab. directed_path tab.root tab.focus dir)
