-- ===== src/Workspace/Focus.antt =====
-- Where the focus moves inside a tab end.
use termherd.Prelude.{
  ℕ, suc, ◌<◌, ◌≡◌, ap, ◌∙◌, inl, inr, ◌⊎◌, take, get_elem?-eq-some, false, List, none, some, arith,
  ◌==◌, if◌then◌else◌, Option-cases, unwrap_or, find_idx, get_elem?, length, find?, find?_holds,
  lt-length_of_get_elem?,
}
use termherd.Indices.{
  Step, next, index_after, index_after-lt, index_after-next, index_after-back, back,
}
use termherd.Pane.{
  SessionId, Direction, Branch, Pane, leaf, split, navigate, leaf_paths, axis_toward, ancestor_is,
  step_across, path_eq,
}
use termherd.Pane.Paths.{OnLeaf, paths, leaf_paths-paths}
use termherd.Pane.Cycle.{paths_complete, paths-OnLeaf, find_idx-paths}
use termherd.Pane.Moves.{Across, Wrapped, step_across-Across, wrap_around-Wrapped, wrap_around-none}
use termherd.Workspace.Panes.{cycled_path, ends_on, directed_path}

-- The moves of the focus inside a tab end on a leaf.
pub cycled_path-OnLeaf :
    (root : Pane) (focus : List Branch) (step : Step) (path : List Branch)
    → cycled_path root focus step ≡ some path
    → OnLeaf root path
unfolding cycled_path
cycled_path-OnLeaf root focus step path h =
    elim (Option-cases (
      index_after step (unwrap_or (find_idx (λ p. path_eq p focus) (leaf_paths root)) 0)
        (length (leaf_paths root)))) [
          | inl e ↦ absurd (ground arith)
          | inr (i, e) ↦ paths-OnLeaf root i path (
              rw leaf_paths-paths at
                (let r : get_elem? (leaf_paths root) i ≡ some path = ground arith in r))
        ]

-- The place of a leaf path in the cycle.
module _ (root : Pane) (focus : List Branch) (i : ℕ)
    (h : get_elem? (paths root) i ≡ some focus) where
  cycled_path-index :
      (step : Step) (j : ℕ)
      → index_after step i (length (paths root)) ≡ some j
      → cycled_path root focus step ≡ get_elem? (paths root) j
  unfolding cycled_path
  cycled_path-index step j e =
      rw (cycled_path, leaf_paths-paths root)
        (rw (find_idx-paths root i focus h)
          (rw e (ap (λ l. get_elem? l j) (leaf_paths-paths root))))

-- From a focus path that ends on a leaf, the cycle of the panes goes on to a path that ends on a
-- leaf, and one step the other way returns to the focus path.
pub cycled_path-back :
    (root : Pane) (focus : List Branch) (step : Step)
    → OnLeaf root focus
    → (path : List Branch) × (cycled_path root focus step ≡ some path)
      × OnLeaf root path
      × (cycled_path root path (back step) ≡ some focus)
cycled_path-back root focus step ok =
    let (i, h) = paths_complete root focus ok in
    let lt = lt-length_of_get_elem? (paths root) i h in
    let (j, e, bound) = index_after-lt step i (length (paths root)) (omega arith) in
    let (path, at) = get_elem?-eq-some (paths root) j bound in
    let moved : cycled_path root focus step ≡ some path =
      cycled_path-index root focus i h step j e ∙ at in
    (
      path,
      moved,
      cycled_path-OnLeaf root focus step path moved,
      cycled_path-index root path j at (back step) i
            (index_after-back step i (length (paths root)) j lt e)
          ∙ h,
    )

-- From the leaf at an index of the panes from left to right, the next pane in the cycle is the
-- leaf at the next index, or the first from the last.
pub cycled_path-next :
    (root : Pane) (focus : List Branch) (i : ℕ)
    → get_elem? (paths root) i ≡ some focus
    → cycled_path root focus next
      ≡ get_elem? (paths root) (if suc i == length (paths root) then 0 else suc i)
cycled_path-next root focus i h =
    cycled_path-index root focus i h next _
      (index_after-next i (length (paths root)) (lt-length_of_get_elem? (paths root) i h))

-- Where a directional focus move finds a path, it either crosses the deepest split of the axis
-- that the focus lies on the far side of, to the nearest edge of its other side, or, when no such
-- split is there, goes past the far edge to the far leaf of the outermost split of the axis.
pub directed_path-Across :
    (root : Pane) (focus : List Branch) (dir : Direction) (path : List Branch)
    → directed_path root focus dir ≡ some path
    → Across root focus (axis_toward dir).0 (axis_toward dir).1 path
      ⊎ Wrapped root focus (axis_toward dir).0 (axis_toward dir).1 path
unfolding directed_path
directed_path-Across root focus dir path h =
    elim (Option-cases (step_across root focus (axis_toward dir).0 (axis_toward dir).1)) [
      | inr (q, e) ↦ inl (step_across-Across root focus _ _ path (ground arith))
      | inl e ↦ inr (wrap_around-Wrapped root focus _ _ path e (ground arith))
    ]

-- Where a directional focus move finds no path, no split of the axis is on the way to the focus.
pub directed_path-none :
    (root : Pane) (focus : List Branch) (dir : Direction)
    → directed_path root focus dir ≡ none
    → (j : ℕ) → j < length focus
    → ancestor_is root (take j focus) (axis_toward dir).0 ≡ false
unfolding directed_path
directed_path-none root focus dir h =
    elim (Option-cases (step_across root focus (axis_toward dir).0 (axis_toward dir).1)) [
      | inr (q, e) ↦ absurd (ground arith)
      | inl e ↦ wrap_around-none root focus (axis_toward dir).0 (axis_toward dir).1 (ground arith)
    ]

pub directed_path-OnLeaf :
    (root : Pane) (focus : List Branch) (dir : Direction) (path : List Branch)
    → directed_path root focus dir ≡ some path
    → OnLeaf root path
directed_path-OnLeaf root focus dir path h = elim (directed_path-Across root focus dir path h) [
  | inl across ↦ across.on_leaf
  | inr wrapped ↦ wrapped.on_leaf
]

-- Click-to-focus: the path found ends on the session.
pub find-ends_on :
    (root : Pane) (session : SessionId) (path : List Branch)
    → find? (ends_on root session) (leaf_paths root) ≡ some path
    → navigate root path ≡ some (leaf session)
unfolding ends_on
find-ends_on root session path h =
    let test = find?_holds (ends_on root session) (leaf_paths root) path h in
    elim (Option-cases (navigate root path)) [
      | inl e ↦ absurd (ground arith)
      | inr (leaf s, e) ↦ ground arith
      | inr (split _ _ _ _, e) ↦ absurd (ground arith)
    ]
