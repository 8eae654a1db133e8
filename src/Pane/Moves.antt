-- ===== src/Pane/Moves.antt =====
-- Where a directional focus move over the pane tree lands.
use native.Mathlib.Decide.{dec_lt}
use termherd.F32.{F32}
use termherd.Prelude.{
  ℕ, zero, suc, ◌+◌, ◌≤◌, ◌<◌, ◌≡◌, refl, ◌∙◌, sym, inl, inr, true, false, List, [], ◌∷◌, ◌++◌,
  none, some, arith, length, take, replicate, subst, get_elem?, Bool-cases, Option-cases,
}
use termherd.Pane.{
  SplitDir, Branch, a, b, branch_eq, opposite, Pane, leaf, split, navigate, ancestor_is, edge_leaf,
  crosses, step_across_below, step_across, wrap_around_from, wrap_around, descend_edge, height,
}
use termherd.Pane.Paths.{OnLeaf, navigate-append, descend_edge-OnLeaf, descend-replicate}

-- How far a focus path stays a path of the tree when it is cut.
navigate-take :
    (r : Pane) (q : List Branch) (i : ℕ) {p : Pane}
    → navigate r q ≡ some p
    → (p' : Pane) × (navigate r (take i q) ≡ some p')
unfolding navigate
navigate-take r q zero h = (r, refl)
navigate-take r [] (suc i) h = (r, refl)
navigate-take (leaf s) (_ ∷ _) (suc i) h = absurd (ground arith)
navigate-take (split _ _ x y) (a ∷ q) (suc i) h = navigate-take x q i h
navigate-take (split _ _ x y) (b ∷ q) (suc i) h = navigate-take y q i h

branch_eq_sound : (x y : Branch) → branch_eq x y ≡ true → x ≡ y
branch_eq_sound a a h = refl
branch_eq_sound a b h = cc
branch_eq_sound b a h = cc
branch_eq_sound b b h = refl

-- Below a split there is a subtree on each side.
ancestor_is-sides :
    (r : Pane) (q : List Branch) (axis : SplitDir) (side : Branch)
    → ancestor_is r q axis ≡ true
    → (p : Pane) × (navigate r (q ++ side ∷ []) ≡ some p)
unfolding ancestor_is
ancestor_is-sides r q axis side h = elim (Option-cases (navigate r q)) [
  | inl e ↦ absurd (ground arith)
  | inr (leaf s, e) ↦ absurd (ground arith)
  | inr (split d k x y, e) ↦ split_side side d k x y e
]
  where
    split_side :
        (side : Branch) (d : SplitDir) (k : F32) (x y : Pane)
        → navigate r q ≡ some (split d k x y)
        → (p : Pane) × (navigate r (q ++ side ∷ []) ≡ some p)
    split_side a d k x y e = (x, navigate-append r q (a ∷ []) e ∙ unfold navigate in refl)
    split_side b d k x y e = (y, navigate-append r q (b ∷ []) e ∙ unfold navigate in refl)

pub edge_leaf-OnLeaf :
    (r : Pane) (q : List Branch) (axis : SplitDir) (side toward : Branch)
    → ancestor_is r q axis ≡ true
    → OnLeaf r (edge_leaf r q side toward)
unfolding edge_leaf
edge_leaf-OnLeaf r q axis side toward h =
    let (p, e) = ancestor_is-sides r q axis side h in
    descend_edge-OnLeaf r (q ++ side ∷ []) toward e

edge_leaf-replicate :
    (r : Pane) (q : List Branch) (side toward : Branch)
    → (n : ℕ) × (edge_leaf r q side toward ≡ (q ++ side ∷ []) ++ replicate n (opposite toward))
unfolding edge_leaf descend_edge
edge_leaf-replicate r q side toward =
    descend-replicate (height r) r (q ++ side ∷ []) (opposite toward)

-- The move from focus `f` toward a side, out of the subtree that `f` enters at depth `cut`: over
-- the split there of the axis, which the subtree is on the other side of, to the nearest leaf.
pub record Across (r : Pane) (f : List Branch) (axis : SplitDir) (toward : Branch) (q : List Branch)
    : Type 0 where
  pub cut : ℕ
  pub leaves_side : get_elem? f cut ≡ some (opposite toward)
  pub crosses_axis : ancestor_is r (take cut f) axis ≡ true
  -- No split deeper down could have been crossed.
  pub nearest : (j : ℕ) → cut < j → j < length f → crosses r f axis toward j ≡ false
  pub below : ℕ
  pub lands : q ≡ (take cut f ++ toward ∷ []) ++ replicate below (opposite toward)
  pub on_leaf : OnLeaf r q

module _ (r : Pane) (f : List Branch) (axis : SplitDir) (toward : Branch) where
  crosses-inv :
      (i : ℕ)
      → crosses r f axis toward i ≡ true
      → (get_elem? f i ≡ some (opposite toward)) × (ancestor_is r (take i f) axis ≡ true)
  unfolding crosses
  crosses-inv i h = elim (Option-cases (get_elem? f i)) [
    | inl e ↦ absurd (ground arith)
    | inr (x, e) ↦ ground (arith, branch_eq_sound x (opposite toward))
  ]

  below_or_at :
      (n : ℕ)
      → ((j : ℕ) → suc n ≤ j → j < length f → crosses r f axis toward j ≡ false)
      → crosses r f axis toward n ≡ false
      → (j : ℕ) → n ≤ j
      → j < length f
      → crosses r f axis toward j ≡ false
  below_or_at n above at j le bound = elim (dec_lt n j) [
    | yes p ↦ above j p bound
    | no p ↦ let e : j ≡ n = omega arith in rw e at
  ]

  -- The walk from index `n` down, when no index from `n` on crosses.
  step_across_below-Across :
      (n : ℕ) (q : List Branch)
      → ((j : ℕ) → n ≤ j → j < length f → crosses r f axis toward j ≡ false)
      → step_across_below n r f axis toward ≡ some q
      → Across r f axis toward q
  unfolding step_across_below
  step_across_below-Across zero q none_above h = absurd (ground arith)
  step_across_below-Across (suc n) q none_above h = elim (Bool-cases (crosses r f axis toward n)) [
    | inl hit ↦
        let (side, over) = crosses-inv n hit in
        let (m, e) = edge_leaf-replicate r (take n f) toward toward in
        let here : edge_leaf r (take n f) toward toward ≡ q = ground arith in
        record {
          cut = n;
          leaves_side = side;
          crosses_axis = over;
          nearest = λ j lt bound. none_above j lt bound;
          below = m;
          lands = sym here ∙ e;
          on_leaf = subst (OnLeaf r) here (edge_leaf-OnLeaf r (take n f) axis toward toward over);
        }
    | inr miss ↦ step_across_below-Across n q (below_or_at n none_above miss) (ground arith)
  ]

  step_across_below-none :
      (n : ℕ)
      → step_across_below n r f axis toward ≡ none
      → (j : ℕ) → j < n
      → crosses r f axis toward j ≡ false
  unfolding step_across_below
  step_across_below-none zero h j lt = absurd (omega arith)
  step_across_below-none (suc n) h j lt = elim (dec_lt j n) [
    | yes p ↦ step_across_below-none n (ground arith) j p
    | no p ↦ let e : j ≡ n = omega arith in rw e (ground arith)
  ]

  pub step_across-Across :
      (q : List Branch) → step_across r f axis toward ≡ some q → Across r f axis toward q
  unfolding step_across
  step_across-Across q h =
      step_across_below-Across (length f) q (λ j le bound. absurd (omega arith)) h

  -- The move past the far edge: into the outermost split of the axis on the way to the focus, to
  -- its far leaf.
  pub record Wrapped (q : List Branch) : Type 0 where
    pub cut : ℕ
    pub within : cut < length f
    pub splits_axis : ancestor_is r (take cut f) axis ≡ true
    pub outermost : (j : ℕ) → j < cut → ancestor_is r (take j f) axis ≡ false
    pub stuck : (j : ℕ) → j < length f → crosses r f axis toward j ≡ false
    pub below : ℕ
    pub lands : q ≡ (take cut f ++ opposite toward ∷ []) ++ replicate below (opposite toward)
    pub on_leaf : OnLeaf r q

  earlier_or_at :
      (n : ℕ)
      → ((j : ℕ) → j < n → ancestor_is r (take j f) axis ≡ false)
      → ancestor_is r (take n f) axis ≡ false
      → (j : ℕ) → j < suc n
      → ancestor_is r (take j f) axis ≡ false
  earlier_or_at n earlier at j lt = elim (dec_lt j n) [
    | yes p ↦ earlier j p
    | no p ↦ let e : j ≡ n = omega arith in rw e at
  ]

  wrap_around_from-Wrapped :
      (n i : ℕ) (q : List Branch)
      → i + n ≡ length f
      → ((j : ℕ) → j < i → ancestor_is r (take j f) axis ≡ false)
      → step_across r f axis toward ≡ none
      → wrap_around_from n i r f axis toward ≡ some q
      → Wrapped q
  unfolding wrap_around_from
  wrap_around_from-Wrapped zero i q len earlier stay h = absurd (ground arith)
  wrap_around_from-Wrapped (suc n) i q len earlier stay h =
      elim (Bool-cases (ancestor_is r (take i f) axis)) [
        | inl hit ↦
            let (m, e) = edge_leaf-replicate r (take i f) (opposite toward) toward in
            let here : edge_leaf r (take i f) (opposite toward) toward ≡ q = ground arith in
            record {
              cut = i;
              within = omega arith;
              splits_axis = hit;
              outermost = earlier;
              stuck = step_across_below-none (length f) (unfold step_across in stay);
              below = m;
              lands = sym here ∙ e;
              on_leaf =
                  subst (OnLeaf r) here
                    (edge_leaf-OnLeaf r (take i f) axis (opposite toward) toward hit);
            }
        | inr miss ↦
            wrap_around_from-Wrapped n (suc i) q (omega arith) (earlier_or_at i earlier miss) stay
              (ground arith)
      ]

  pub wrap_around-Wrapped :
      (q : List Branch)
      → step_across r f axis toward ≡ none
      → wrap_around r f axis toward ≡ some q
      → Wrapped q
  unfolding wrap_around
  wrap_around-Wrapped q stay h =
      wrap_around_from-Wrapped (length f) 0 q (omega arith) (λ j lt. absurd (omega arith)) stay h

  -- Where neither walk finds a pane, no split of the axis is on the way to the focus.
  wrap_around_from-none :
      (n i : ℕ)
      → wrap_around_from n i r f axis toward ≡ none
      → (j : ℕ) → i ≤ j
      → j < i + n
      → ancestor_is r (take j f) axis ≡ false
  unfolding wrap_around_from
  wrap_around_from-none zero i h j le lt = absurd (omega arith)
  wrap_around_from-none (suc n) i h j le lt = elim (dec_lt i j) [
    | yes p ↦ wrap_around_from-none n (suc i) (ground arith) j p (omega arith)
    | no p ↦ let e : j ≡ i = omega arith in rw e (ground arith)
  ]

  pub wrap_around-none :
      wrap_around r f axis toward ≡ none
      → (j : ℕ) → j < length f
      → ancestor_is r (take j f) axis ≡ false
  unfolding wrap_around
  wrap_around-none h j lt = wrap_around_from-none (length f) 0 h j (omega arith) (omega arith)
