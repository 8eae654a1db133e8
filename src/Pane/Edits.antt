-- ===== src/Pane/Edits.antt =====
-- What a write into the pane tree changes: how often each session is hosted, the ratios of the
-- splits, and the paths.
use mathlib.Core.Option.{some-injective}
use termherd.Prelude.{
  subst, ℕ, ◌+◌, ◌<◌, ◌≡◌, refl, List, [], ◌∷◌, ◌++◌, some, arith, ◌==◌, if◌then◌else◌, leb,
}
use termherd.F32.{F32, tenth, nine_tenths, Within}
use termherd.Pane.{
  SessionId, SplitDir, Branch, a, b, Pane, leaf, split, pane_hosts, navigate, write_at,
  leaf_path_of,
}
use termherd.Pane.Paths.{leaf_path_of-hosted, navigate-leaf_path_of}

-- How many panes host the session.
unfoldable pub pane_count : Pane → SessionId → ℕ
pane_count (leaf l) s = if l == s then 1 else 0
pane_count (split _ _ x y) s = pane_count x s + pane_count y s

pub pane_hosts-pane_count : (p : Pane) (s : SessionId) → pane_hosts p s ≡ leb 1 (pane_count p s)
unfolding pane_hosts pane_count
pane_hosts-pane_count (leaf l) s = ground arith
pane_hosts-pane_count (split _ _ x y) s =
    ground (arith, pane_hosts-pane_count x s, pane_hosts-pane_count y s)

-- Every split leaves each side at least a tenth.
abbrev pub RatiosWithin : Pane → Type 0
RatiosWithin (leaf _) = Unit
RatiosWithin (split _ r x y) = Within tenth nine_tenths r × RatiosWithin x × RatiosWithin y

-- What the write of `new` over the node `q` leaves behind.
pub record Written (p : Pane) (path : List Branch) (q new p' : Pane) : Type 0 where
  pub counts :
      (s : SessionId) → pane_count p' s + pane_count q s ≡ pane_count p s + pane_count new s
  pub below : (rest : List Branch) → navigate p' (path ++ rest) ≡ navigate new rest
  pub ratios : RatiosWithin p → RatiosWithin new → RatiosWithin p'

-- A write at a node that is there succeeds, and changes that node alone.
pub write_at-Written :
    (p : Pane) (path : List Branch) (q new : Pane)
    → navigate p path ≡ some q
    → (p' : Pane) × (write_at p path new ≡ some p') × Written p path q new p'
unfolding navigate write_at pane_count
write_at-Written p [] q new h =
    (new, refl, record { counts = λ s. ground arith; below = λ rest. refl; ratios = λ _ ok. ok })
write_at-Written (leaf _) (_ ∷ _) q new h = absurd (ground arith)
write_at-Written (split d r x y) (a ∷ path) q new h =
    let (x', e, w) = write_at-Written x path q new h in
    (
      split d r x' y,
      rw e,
      record {
        counts = λ s. omega (arith, w.counts s);
        below = w.below;
        ratios = λ (k, ok_x, ok_y) ok. (k, w.ratios ok_x ok, ok_y);
      },
    )
write_at-Written (split d r x y) (b ∷ path) q new h =
    let (y', e, w) = write_at-Written y path q new h in
    (
      split d r x y',
      rw e,
      record {
        counts = λ s. omega (arith, w.counts s);
        below = w.below;
        ratios = λ (k, ok_x, ok_y) ok. (k, ok_x, w.ratios ok_y ok);
      },
    )

pub navigate-RatiosWithin :
    (p : Pane) (path : List Branch) (q : Pane)
    → navigate p path ≡ some q
    → RatiosWithin p
    → RatiosWithin q
unfolding navigate
navigate-RatiosWithin p [] q h ok = subst RatiosWithin (some-injective p q h) ok
navigate-RatiosWithin (leaf _) (_ ∷ _) q h ok = absurd (ground arith)
navigate-RatiosWithin (split d r x y) (a ∷ path) q h ok = navigate-RatiosWithin x path q h ok.1
navigate-RatiosWithin (split d r x y) (b ∷ path) q h ok = navigate-RatiosWithin y path q h ok.2

-- A split written anew over the same sides leaves every leaf where it was.
pub navigate-write_at-split :
    (p : Pane) (path q : List Branch) (d d' : SplitDir) (r r' : F32) (x y p' : Pane) (s : SessionId)
    → navigate p path ≡ some (split d r x y)
    → write_at p path (split d' r' x y) ≡ some p'
    → navigate p q ≡ some (leaf s)
    → navigate p' q ≡ some (leaf s)
unfolding navigate write_at
navigate-write_at-split p [] [] d d' r r' x y p' s h e l = absurd (ground arith)
navigate-write_at-split (leaf _) [] (_ ∷ _) d d' r r' x y p' s h e l = absurd (ground arith)
navigate-write_at-split (split _ _ _ _) [] (a ∷ q) d d' r r' x y p' s h e l = ground arith
navigate-write_at-split (split _ _ _ _) [] (b ∷ q) d d' r r' x y p' s h e l = ground arith
navigate-write_at-split (leaf _) (_ ∷ _) q d d' r r' x y p' s h e l = absurd (ground arith)
navigate-write_at-split (split _ _ _ _) (_ ∷ _) [] d d' r r' x y p' s h e l = absurd (ground arith)
navigate-write_at-split (split k t u v) (a ∷ path) (a ∷ q) d d' r r' x y p' s h e l =
    let (u', eu, w) = write_at-Written u path (split d r x y) (split d' r' x y) h in
    ground (arith, navigate-write_at-split u path q d d' r r' x y u' s h eu l)
navigate-write_at-split (split k t u v) (a ∷ path) (b ∷ q) d d' r r' x y p' s h e l =
    let (u', eu, w) = write_at-Written u path (split d r x y) (split d' r' x y) h in ground arith
navigate-write_at-split (split k t u v) (b ∷ path) (a ∷ q) d d' r r' x y p' s h e l =
    let (v', ev, w) = write_at-Written v path (split d r x y) (split d' r' x y) h in ground arith
navigate-write_at-split (split k t u v) (b ∷ path) (b ∷ q) d d' r r' x y p' s h e l =
    let (v', ev, w) = write_at-Written v path (split d r x y) (split d' r' x y) h in
    ground (arith, navigate-write_at-split v path q d d' r r' x y v' s h ev l)

-- A session with a pane has a path to it.
pub leaf_path_of-counted :
    (p : Pane) (s : SessionId)
    → 0 < pane_count p s
    → (path : List Branch) × (leaf_path_of p s ≡ some path) × (navigate p path ≡ some (leaf s))
leaf_path_of-counted p s h =
    let (path, e) = leaf_path_of-hosted p s (ground (arith, pane_hosts-pane_count p s)) in
    (path, e, navigate-leaf_path_of p s e)

pub pane_count_pos :
    (p : Pane) (path : List Branch) (s : SessionId)
    → navigate p path ≡ some (leaf s)
    → 0 < pane_count p s
unfolding navigate pane_count
pane_count_pos (leaf l) [] s h = ground arith
pane_count_pos (split _ _ _ _) [] s h = absurd (ground arith)
pane_count_pos (leaf _) (_ ∷ _) s h = absurd (ground arith)
pane_count_pos (split _ _ x y) (a ∷ path) s h = omega (arith, pane_count_pos x path s h)
pane_count_pos (split _ _ x y) (b ∷ path) s h = omega (arith, pane_count_pos y path s h)
