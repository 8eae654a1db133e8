-- ===== src/Pane/Paths.antt =====
-- What the walks over the pane tree return: leaves in order, and paths that end on a leaf.
use mathlib.Core.Path.{ap₂}
use mathlib.Core.List.{append-nil, append_assoc, map-append}
use termherd.Prelude.{
  ℕ, zero, suc, ◌+◌, ◌≤◌, ◌≡◌, refl, sym, ap, ◌∙◌, replicate, inl, inr, Bool, true, false, ◌||◌,
  List, [], ◌∷◌, ◌++◌, map, none, some, arith, ◌==◌, length, any, Bool-cases, Option-cases,
}
use termherd.Pane.{
  SessionId, Branch, a, b, opposite, Pane, leaf, split, pane_hosts, collect_leaves, navigate,
  is_split, height, descend, focus_first_leaf, descend_edge, leaf_path_of, collect_paths,
  leaf_paths,
}

-- The sessions of a tree, left to right.
unfoldable pub leaves : Pane → List SessionId
leaves (leaf s) = s ∷ []
leaves (split _ _ x y) = leaves x ++ leaves y

-- The paths to them, left to right.
unfoldable pub paths : Pane → List (List Branch)
paths (leaf s) = [] ∷ []
paths (split _ _ x y) = map (λ p. a ∷ p) (paths x) ++ map (λ p. b ∷ p) (paths y)

-- The path ends on a leaf of the tree.
abbrev pub OnLeaf : Pane → List Branch → Type 0
OnLeaf root path = (s : SessionId) × (navigate root path ≡ some (leaf s))

pub collect_leaves-leaves :
    (p : Pane) (out : List SessionId) → collect_leaves p out ≡ out ++ leaves p
unfolding collect_leaves leaves
collect_leaves-leaves (leaf s) out = refl
collect_leaves-leaves (split _ _ x y) out =
    rw (collect_leaves-leaves x out, collect_leaves-leaves y, append_assoc)

map-prefix :
    (path : List Branch) (d : Branch) (ps : List (List Branch))
    → map (λ q. (path ++ d ∷ []) ++ q) ps ≡ map (λ q. path ++ q) (map (λ p. d ∷ p) ps)
map-prefix path d [] = refl
map-prefix path d (p ∷ ps) = ap₂ ◌∷◌ (append_assoc path (d ∷ []) p) (map-prefix path d ps)

map-nil-append : (ps : List (List Branch)) → map (λ (q : List Branch). [] ++ q) ps ≡ ps
map-nil-append [] = refl
map-nil-append (p ∷ ps) = ap (p ∷◌) (map-nil-append ps)

collect_paths-paths :
    (p : Pane) (path : List Branch) (out : List (List Branch))
    → collect_paths p path out ≡ out ++ map (λ q. path ++ q) (paths p)
unfolding collect_paths paths
collect_paths-paths (leaf s) path out = rw append-nil
collect_paths-paths (split _ _ x y) path out = rw (
  collect_paths-paths x (path ++ a ∷ []) out,
  collect_paths-paths y (path ++ b ∷ []),
  map-append,
  append_assoc,
  map-prefix path a (paths x),
  map-prefix path b (paths y),
)

pub leaf_paths-paths : (p : Pane) → leaf_paths p ≡ paths p
unfolding leaf_paths
leaf_paths-paths p = collect_paths-paths p [] [] ∙ map-nil-append (paths p)

pub any-append {ℓ} :
    {A : Type ℓ} (f : A → Bool) (xs ys : List A) → any f (xs ++ ys) ≡ (any f xs || any f ys)
any-append f [] ys = refl
any-append f (x ∷ xs) ys = ground (arith, any-append f xs ys)

-- A pane tree hosts a session exactly when it is among its leaves.
pub pane_hosts-leaves : (p : Pane) (s : SessionId) → pane_hosts p s ≡ any (λ l. l == s) (leaves p)
unfolding pane_hosts leaves
pane_hosts-leaves (leaf l) s = ground arith
pane_hosts-leaves (split _ _ x y) s =
    rw
      (any-append (λ l. l == s) (leaves x) (leaves y), pane_hosts-leaves x s, pane_hosts-leaves y s)

pub navigate-append :
    (p : Pane) (xs ys : List Branch) {q : Pane}
    → navigate p xs ≡ some q
    → navigate p (xs ++ ys) ≡ navigate q ys
unfolding navigate
navigate-append p [] ys {q} h = cc
navigate-append (leaf _) (_ ∷ _) ys h = cc
navigate-append (split _ _ x y) (a ∷ xs) ys h = navigate-append x xs ys h
navigate-append (split _ _ x y) (b ∷ xs) ys h = navigate-append y xs ys h

pub height-navigate :
    (p : Pane) (xs : List Branch) {q : Pane}
    → navigate p xs ≡ some q
    → length xs + height q ≤ height p
unfolding navigate height
height-navigate p [] h = ground arith
height-navigate (leaf _) (_ ∷ _) h = cc
height-navigate (split _ _ x y) (a ∷ xs) h = omega (arith, height-navigate x xs h)
height-navigate (split _ _ x y) (b ∷ xs) h = omega (arith, height-navigate y xs h)

-- The subtree on one side of a split.
abbrev side : Branch → Pane → Pane → Pane
side a x y = x
side b x y = y

-- With as much fuel as the subtree is high, the descent ends on a leaf below where it began.
pub descend-OnLeaf :
    (fuel : ℕ) (q root : Pane) (path : List Branch) (dir : Branch)
    → navigate root path ≡ some q
    → height q ≤ fuel
    → OnLeaf root (descend fuel root path dir)
unfolding descend is_split height navigate
descend-OnLeaf zero (leaf s) root path dir h f = (s, h)
descend-OnLeaf zero (split _ _ x y) root path dir h f = absurd (omega arith)
descend-OnLeaf (suc fuel) (leaf s) root path dir h f = rw h (s, h)
descend-OnLeaf (suc fuel) (split _ _ x y) root path a h f = rw h (
    descend-OnLeaf fuel x root (path ++ a ∷ []) a (navigate-append root path (a ∷ []) h)
      (omega arith))
descend-OnLeaf (suc fuel) (split _ _ x y) root path b h f = rw h (
    descend-OnLeaf fuel y root (path ++ b ∷ []) b (navigate-append root path (b ∷ []) h)
      (omega arith))

-- The descent goes on along one side only.
pub descend-replicate :
    (fuel : ℕ) (root : Pane) (path : List Branch) (dir : Branch)
    → (n : ℕ) × (descend fuel root path dir ≡ path ++ replicate n dir)
unfolding descend
descend-replicate zero root path dir = (0, sym (append-nil path))
descend-replicate (suc fuel) root path dir = elim (Bool-cases (is_split (navigate root path))) [
  | inl e ↦
      let (n, h) = descend-replicate fuel root (path ++ dir ∷ []) dir in
      (suc n, rw e (h ∙ append_assoc path (dir ∷ []) (replicate n dir)))
  | inr e ↦ (0, rw e (sym (append-nil path)))
]

pub focus_first_leaf-OnLeaf :
    (root : Pane) (path : List Branch) {q : Pane}
    → navigate root path ≡ some q
    → OnLeaf root (focus_first_leaf root path)
unfolding focus_first_leaf
focus_first_leaf-OnLeaf root path {q} h =
    descend-OnLeaf (height root) q root path a h (omega (arith, height-navigate root path h))

pub descend_edge-OnLeaf :
    (root : Pane) (path : List Branch) (toward : Branch) {q : Pane}
    → navigate root path ≡ some q
    → OnLeaf root (descend_edge root path toward)
unfolding descend_edge
descend_edge-OnLeaf root path toward {q} h =
    descend-OnLeaf (height root) q root path (opposite toward) h
      (omega (arith, height-navigate root path h))

-- The path found leads to a leaf that hosts the session.
pub navigate-leaf_path_of :
    (p : Pane) (s : SessionId) {path : List Branch}
    → leaf_path_of p s ≡ some path
    → navigate p path ≡ some (leaf s)
unfolding leaf_path_of navigate
navigate-leaf_path_of (leaf l) s {path} h = ground (arith)
navigate-leaf_path_of (split d r x y) s {path} h = elim (Option-cases (leaf_path_of x s)) [
  | inl none_x ↦ elim (Option-cases (leaf_path_of y s)) [
    | inl none_y ↦ ground arith
    | inr (py, ey) ↦ ground (arith, navigate-leaf_path_of y s ey)
  ]
  | inr (px, ex) ↦ ground (arith, navigate-leaf_path_of x s ex)
]

-- A path is found exactly when the tree hosts the session.
pub leaf_path_of-hosted :
    (p : Pane) (s : SessionId)
    → pane_hosts p s ≡ true
    → (path : List Branch) × (leaf_path_of p s ≡ some path)
unfolding leaf_path_of pane_hosts
leaf_path_of-hosted (leaf l) s h = ([], ground arith)
leaf_path_of-hosted (split d r x y) s h = elim (Option-cases (leaf_path_of x s)) [
  | inr (px, ex) ↦ (a ∷ px, ground arith)
  | inl none_x ↦ elim (Bool-cases (pane_hosts x s)) [
    | inl in_x ↦ absurd (ground (arith, (leaf_path_of-hosted x s in_x).1))
    | inr not_x ↦ let (py, ey) = leaf_path_of-hosted y s (ground arith) in (b ∷ py, ground arith)
  ]
]

pub leaf_path_of-absent :
    (p : Pane) (s : SessionId) → pane_hosts p s ≡ false → leaf_path_of p s ≡ none
unfolding leaf_path_of pane_hosts
leaf_path_of-absent (leaf l) s h = ground arith
leaf_path_of-absent (split d r x y) s h =
    ground (arith, leaf_path_of-absent x s, leaf_path_of-absent y s)
