-- ===== src/Pane.antt =====
-- crates/core/src/workspace.rs: the pane tree, and the paths that address its nodes.
pub mod Paths
pub mod Cycle
pub mod Moves
pub mod Edits
pub mod Splices
use termherd.Prelude.{
  ℕ, zero, suc, Bool, true, false, ◌||◌, List, [], ◌∷◌, ◌++◌, Option, none, some, ◌==◌,
  if◌then◌else◌, max, get_elem?, length, take, ◌&&◌,
}
use termherd.F32.{F32}

-- `SessionId`, a non-zero 64-bit number: nothing here computes with it.
abbrev pub SessionId : Type 0
SessionId = ℕ

pub data SplitDir : Type 0 where
  horizontal vertical : SplitDir

pub data Direction : Type 0 where
  left right up down : Direction

pub data Branch : Type 0 where
  a b : Branch

unfoldable pub axis_toward : Direction → SplitDir × Branch
axis_toward right = (vertical, b)
axis_toward left = (vertical, a)
axis_toward down = (horizontal, b)
axis_toward up = (horizontal, a)

unfoldable pub opposite : Branch → Branch
opposite a = b
opposite b = a

pub data Pane : Type 0 where
  leaf : SessionId → Pane
  split : SplitDir → F32 → Pane → Pane → Pane

-- The derived equalities of `SplitDir`, `Branch` and of paths.
abbrev pub dir_eq : SplitDir → SplitDir → Bool
dir_eq horizontal horizontal = true
dir_eq vertical vertical = true
dir_eq _ _ = false

abbrev pub branch_eq : Branch → Branch → Bool
branch_eq a a = true
branch_eq b b = true
branch_eq _ _ = false

unfoldable pub path_eq : List Branch → List Branch → Bool
path_eq [] [] = true
path_eq (x ∷ xs) (y ∷ ys) = branch_eq x y && path_eq xs ys
path_eq _ _ = false

unfoldable pub pane_hosts : Pane → SessionId → Bool
pane_hosts (leaf s) session = s == session
pane_hosts (split _ _ x y) session = pane_hosts x session || pane_hosts y session

-- `out` is the vector that is pushed to.
unfoldable pub collect_leaves : Pane → List SessionId → List SessionId
collect_leaves (leaf s) out = out ++ s ∷ []
collect_leaves (split _ _ x y) out = collect_leaves y (collect_leaves x out)

unfoldable pub first_session : Pane → SessionId
first_session (leaf s) = s
first_session (split _ _ x y) = first_session x

unfoldable pub navigate : Pane → List Branch → Option Pane
navigate pane [] = some pane
navigate (leaf _) (_ ∷ _) = none
navigate (split _ _ x y) (a ∷ path) = navigate x path
navigate (split _ _ x y) (b ∷ path) = navigate y path

-- The tree once `new` is written through the reference that `navigate_mut` returns; `none` where
-- there is no such node.
unfoldable pub write_at : Pane → List Branch → Pane → Option Pane
write_at pane [] new = some new
write_at (leaf _) (_ ∷ _) new = none
write_at (split d r x y) (a ∷ path) new = elim (write_at x path new) [
  | none ↦ none
  | some x' ↦ some (split d r x' y)
]
write_at (split d r x y) (b ∷ path) new = elim (write_at y path new) [
  | none ↦ none
  | some y' ↦ some (split d r x y')
]

unfoldable pub is_split : Option Pane → Bool
is_split (some (split _ _ _ _)) = true
is_split _ = false

-- How deep the tree is: no `while` loop below takes more rounds.
unfoldable pub height : Pane → ℕ
height (leaf _) = 0
height (split _ _ x y) = suc (max (height x) (height y))

-- `while let Some(Split) = navigate(root, path) { path.push(branch) }`, on fuel.
unfoldable pub descend : ℕ → Pane → List Branch → Branch → List Branch
descend zero root path branch = path
descend (suc fuel) root path branch =
    let rest = descend fuel root (path ++ branch ∷ []) branch in
    if is_split (navigate root path) then rest else path

unfoldable pub focus_first_leaf : Pane → List Branch → List Branch
focus_first_leaf root focus = descend (height root) root focus a

unfoldable pub descend_edge : Pane → List Branch → Branch → List Branch
descend_edge root path toward = descend (height root) root path (opposite toward)

unfoldable pub leaf_path_of : Pane → SessionId → Option (List Branch)
leaf_path_of (leaf s) session = if s == session then some [] else none
leaf_path_of (split _ _ x y) session = elim (leaf_path_of x session) [
  | some path ↦ some (a ∷ path)
  | none ↦ elim (leaf_path_of y session) [ some path ↦ some (b ∷ path) | none ↦ none ]
]

unfoldable pub ancestor_is : Pane → List Branch → SplitDir → Bool
ancestor_is root path axis = elim (navigate root path) [
  | some (split dir _ _ _) ↦ dir_eq dir axis
  | some (leaf _) ↦ false
  | none ↦ false
]

unfoldable pub edge_leaf : Pane → List Branch → Branch → Branch → List Branch
edge_leaf root parent branch toward = descend_edge root (parent ++ branch ∷ []) toward

-- The test of `step_across` at index `i` of the focus path.
unfoldable pub crosses : Pane → List Branch → SplitDir → Branch → ℕ → Bool
crosses root focus axis toward i = elim (get_elem? focus i) [
  | none ↦ false
  | some branch ↦ branch_eq branch (opposite toward) && ancestor_is root (take i focus) axis
]

-- `(0..n).rev().find_map(…)`.
unfoldable pub step_across_below : ℕ → Pane → List Branch → SplitDir → Branch → Option (List Branch)
step_across_below zero root focus axis toward = none
step_across_below (suc i) root focus axis toward =
    let rest = step_across_below i root focus axis toward in
    if crosses root focus axis toward i
    then some (edge_leaf root (take i focus) toward toward)
    else rest

unfoldable pub step_across : Pane → List Branch → SplitDir → Branch → Option (List Branch)
step_across root focus axis toward = step_across_below (length focus) root focus axis toward

-- `(i..i + n).find_map(…)`.
unfoldable pub wrap_around_from :
    ℕ → ℕ → Pane → List Branch → SplitDir → Branch → Option (List Branch)
wrap_around_from zero i root focus axis toward = none
wrap_around_from (suc n) i root focus axis toward =
    let rest = wrap_around_from n (suc i) root focus axis toward in
    if ancestor_is root (take i focus) axis
    then some (edge_leaf root (take i focus) (opposite toward) toward)
    else rest

unfoldable pub wrap_around : Pane → List Branch → SplitDir → Branch → Option (List Branch)
wrap_around root focus axis toward = wrap_around_from (length focus) 0 root focus axis toward

unfoldable pub collect_paths : Pane → List Branch → List (List Branch) → List (List Branch)
collect_paths (leaf _) path out = out ++ path ∷ []
collect_paths (split _ _ x y) path out =
    collect_paths y (path ++ b ∷ []) (collect_paths x (path ++ a ∷ []) out)

unfoldable pub leaf_paths : Pane → List (List Branch)
leaf_paths root = collect_paths root [] []
