-- ===== src/Pane/Cycle.antt =====
-- The cycle through the leaves of the pane tree: each leaf path has one place in it.
use mathlib.Core.Path.{ap₂}
use mathlib.Core.List.{map-append, map-map}
use termherd.F32.{F32}
use termherd.Prelude.{
  ℕ, zero, suc, ◌+◌, ◌-◌, ◌≡◌, ◌↔◌, refl, ap, ◌⊎◌, inl, inr, true, List, [], ◌∷◌, ◌++◌, map, some,
  arith, length, find_idx, get_elem?, get_elem?-append, get_elem?-map, find_idx-append,
  find_idx-map, find_idx_never, length-map, Option-cases, lt-length_of_get_elem?,
  length-le_of_get_elem?,
}
use termherd.Pane.{SplitDir, Branch, a, b, path_eq, Pane, leaf, split, navigate}
use termherd.Pane.Paths.{leaves, paths, OnLeaf}

pub path_eq_iff : (p q : List Branch) → (path_eq p q ≡ true) ↔ (p ≡ q)
unfolding path_eq
path_eq_iff [] [] = ground arith
path_eq_iff [] (y ∷ q) = ground arith
path_eq_iff (x ∷ p) [] = ground arith
path_eq_iff (x ∷ p) (y ∷ q) = ground (arith, path_eq_iff p q)

-- The leaf paths, followed, give the leaves, both from left to right.
pub navigate-paths : (r : Pane) → map (navigate r) (paths r) ≡ map (λ s. some (leaf s)) (leaves r)
unfolding paths leaves navigate
navigate-paths (leaf s) = refl
navigate-paths (split d k x y) =
    rw (map-append, map-append, map-map, map-map) (ap₂ ◌++◌ (navigate-paths x) (navigate-paths y))

-- A path that ends on a leaf is one of the leaf paths.
pub paths_complete :
    (r : Pane) (q : List Branch) → OnLeaf r q → (i : ℕ) × (get_elem? (paths r) i ≡ some q)
unfolding paths navigate
paths_complete (leaf s) [] (t, h) = (0, refl)
paths_complete (leaf s) (_ ∷ _) (t, h) = absurd (ground arith)
paths_complete (split d k x y) [] (t, h) = absurd (ground arith)
paths_complete (split d k x y) (a ∷ q) (t, h) =
    let (i, e) = paths_complete x q (t, h) in
    (
      i,
      ground (
        arith,
        get_elem?-append (map (λ p. a ∷ p) (paths x)) (map (λ p. b ∷ p) (paths y)) i,
        get_elem?-map (λ p. a ∷ p) (paths x) i,
        length-map (λ p. a ∷ p) (paths x),
        lt-length_of_get_elem? (paths x) i e,
      ),
    )
paths_complete (split d k x y) (b ∷ q) (t, h) =
    let (i, e) = paths_complete y q (t, h) in
    (
      length (paths x) + i,
      ground (
        arith,
        get_elem?-append (map (λ p. a ∷ p) (paths x)) (map (λ p. b ∷ p) (paths y))
            (length (paths x) + i),
        get_elem?-map (λ p. b ∷ p) (paths y) i,
        length-map (λ p. a ∷ p) (paths x),
      ),
    )

-- Each leaf path ends on a leaf.
pub paths-OnLeaf :
    (r : Pane) (i : ℕ) (q : List Branch) → get_elem? (paths r) i ≡ some q → OnLeaf r q
paths-OnLeaf r i q h = elim (Option-cases (get_elem? (leaves r) i)) [
  | inl e ↦ absurd (
      ground (
        arith,
        get_elem?-map (navigate r) (paths r) i,
        get_elem?-map (λ s. some (leaf s)) (leaves r) i,
        ap (λ l. get_elem? l i) (navigate-paths r),
      ))
  | inr (s, e) ↦ (
    s,
    ground (
      arith,
      get_elem?-map (navigate r) (paths r) i,
      get_elem?-map (λ s. some (leaf s)) (leaves r) i,
      ap (λ l. get_elem? l i) (navigate-paths r),
    ),
  )
]

module _ (d : SplitDir) (k : F32) (x y : Pane) where
  -- A leaf path of a split is one of a side.
  paths-split :
      (i : ℕ) (q : List Branch)
      → get_elem? (paths (split d k x y)) i ≡ some q
      → ((q' : List Branch) × (q ≡ a ∷ q') × (get_elem? (paths x) i ≡ some q'))
        ⊎ ((q' : List Branch) × (j : ℕ) × (q ≡ b ∷ q')
            × (i ≡ length (paths x) + j)
            × (get_elem? (paths y) j ≡ some q'))
  unfolding paths
  paths-split i q h = elim (Option-cases (get_elem? (paths x) i)) [
    | inr (q', e) ↦ inl (
      q',
      ground (
        arith,
        get_elem?-append (map (λ p. a ∷ p) (paths x)) (map (λ p. b ∷ p) (paths y)) i,
        get_elem?-map (λ p. a ∷ p) (paths x) i,
        length-map (λ p. a ∷ p) (paths x),
        lt-length_of_get_elem? (paths x) i e,
      ),
      e,
    )
    | inl e ↦ elim (Option-cases (get_elem? (paths y) (i - length (paths x)))) [
      | inr (q', e') ↦ inr (
        q',
        i - length (paths x),
        ground (
          arith,
          get_elem?-append (map (λ p. a ∷ p) (paths x)) (map (λ p. b ∷ p) (paths y)) i,
          get_elem?-map (λ p. b ∷ p) (paths y) (i - length (paths x)),
          length-map (λ p. a ∷ p) (paths x),
          length-le_of_get_elem? (paths x) i e,
        ),
        omega (arith, length-le_of_get_elem? (paths x) i e),
        e',
      )
      | inl e' ↦ absurd (
          ground (
            arith,
            get_elem?-append (map (λ p. a ∷ p) (paths x)) (map (λ p. b ∷ p) (paths y)) i,
            get_elem?-map (λ p. b ∷ p) (paths y) (i - length (paths x)),
            length-map (λ p. a ∷ p) (paths x),
            length-le_of_get_elem? (paths x) i e,
          ))
    ]
  ]

  find_idx-paths_a :
      (i : ℕ) (q : List Branch)
      → find_idx (λ p. path_eq p q) (paths x) ≡ some i
      → find_idx (λ p. path_eq p (a ∷ q)) (paths (split d k x y)) ≡ some i
  unfolding paths path_eq
  find_idx-paths_a i q h = ground (
    arith,
    find_idx-append (λ p. path_eq p (a ∷ q)) (map (λ p. a ∷ p) (paths x))
        (map (λ p. b ∷ p) (paths y)),
    find_idx-map (λ p. path_eq p (a ∷ q)) (λ p. a ∷ p) (paths x),
  )

  find_idx-paths_b :
      (i : ℕ) (q : List Branch)
      → find_idx (λ p. path_eq p q) (paths y) ≡ some i
      → find_idx (λ p. path_eq p (b ∷ q)) (paths (split d k x y)) ≡ some (length (paths x) + i)
  unfolding paths path_eq
  find_idx-paths_b i q h = ground (
    arith,
    find_idx-append (λ p. path_eq p (b ∷ q)) (map (λ p. a ∷ p) (paths x))
        (map (λ p. b ∷ p) (paths y)),
    find_idx-map (λ p. path_eq p (b ∷ q)) (λ p. a ∷ p) (paths x),
    find_idx-map (λ p. path_eq p (b ∷ q)) (λ p. b ∷ p) (paths y),
    find_idx_never (paths x),
    length-map (λ p. a ∷ p) (paths x),
  )

-- Each leaf path stands once in the list, so that its position is where the search finds it.
pub find_idx-paths :
    (r : Pane) (i : ℕ) (q : List Branch)
    → get_elem? (paths r) i ≡ some q
    → find_idx (λ p. path_eq p q) (paths r) ≡ some i
find_idx-paths (leaf s) zero q h = unfold paths path_eq in ground arith
find_idx-paths (leaf s) (suc i) q h = unfold paths in absurd (ground arith)
find_idx-paths (split d k x y) i q h = elim (paths-split d k x y i q h) [
  | inl (q', e, g) ↦ rw e (find_idx-paths_a d k x y i q' (find_idx-paths x i q' g))
  | inr (q', j, e, n, g) ↦ rw (e, n) (find_idx-paths_b d k x y j q' (find_idx-paths y j q' g))
]
