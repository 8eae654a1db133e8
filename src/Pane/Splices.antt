-- ===== src/Pane/Splices.antt =====
-- A split replaced by one of its sides (crates/core/src/workspace.rs).
use mathlib.Core.Option.{some-injective}
use termherd.Prelude.{◌≡◌, sym, subst, inl, inr, List, [], ◌∷◌, some, arith, Option-cases}
use termherd.F32.{F32}
use termherd.Pane.{SessionId, SplitDir, Branch, a, b, Pane, leaf, split, navigate, write_at}

-- A tree in which the split at a path has the leaf of a session as one of its sides, and the tree
-- with that split replaced by its other side, the rest as it was.
pub data Spliced : Pane → List Branch → Branch → SessionId → Pane → Type 0 where
  first_gone :
      (d : SplitDir) (r : F32) (s : SessionId) (sibling : Pane)
      → Spliced (split d r (leaf s) sibling) [] a s sibling
  second_gone :
      (d : SplitDir) (r : F32) (s : SessionId) (sibling : Pane)
      → Spliced (split d r sibling (leaf s)) [] b s sibling
  inside_first :
      (d : SplitDir) (r : F32) {x x' y : Pane} {path : List Branch} {last : Branch} {s : SessionId}
      → Spliced x path last s x'
      → Spliced (split d r x y) (a ∷ path) last s (split d r x' y)
  inside_second :
      (d : SplitDir) (r : F32) {x y y' : Pane} {path : List Branch} {last : Branch} {s : SessionId}
      → Spliced y path last s y'
      → Spliced (split d r x y) (b ∷ path) last s (split d r x y')

abbrev pub above_leaf : Branch → SplitDir → F32 → SessionId → Pane → Pane
above_leaf a d r removed sibling = split d r (leaf removed) sibling
above_leaf b d r removed sibling = split d r sibling (leaf removed)

Spliced-nil :
    (last : Branch) (d : SplitDir) (r : F32) (removed : SessionId) (sibling : Pane)
    → Spliced (above_leaf last d r removed sibling) [] last removed sibling
Spliced-nil a d r removed sibling = first_gone d r removed sibling
Spliced-nil b d r removed sibling = second_gone d r removed sibling

pub write_at-Spliced :
    (root : Pane) (parent : List Branch) (last : Branch) (d : SplitDir) (r : F32)
    (removed : SessionId) (sibling root' : Pane)
    → navigate root parent ≡ some (above_leaf last d r removed sibling)
    → write_at root parent sibling ≡ some root'
    → Spliced root parent last removed root'
unfolding navigate write_at
write_at-Spliced root [] last d r removed sibling root' h e =
    subst (λ q. Spliced q [] last removed root')
      (sym (some-injective root (above_leaf last d r removed sibling) h))
      (subst (λ q. Spliced (above_leaf last d r removed sibling) [] last removed q)
        (some-injective sibling root' e) (Spliced-nil last d r removed sibling))
write_at-Spliced (leaf _) (_ ∷ _) last d r removed sibling root' h e = absurd (ground arith)
write_at-Spliced (split k t x y) (a ∷ parent) last d r removed sibling root' h e =
    elim (Option-cases (write_at x parent sibling)) [
      | inl n ↦ absurd (ground (arith, e, n))
      | inr (x', n) ↦
          let same : split k t x' y ≡ root' = ground (arith, e, n) in
          subst (Spliced (split k t x y) (a ∷ parent) last removed) same
            (inside_first k t (write_at-Spliced x parent last d r removed sibling x' h n))
    ]
write_at-Spliced (split k t x y) (b ∷ parent) last d r removed sibling root' h e =
    elim (Option-cases (write_at y parent sibling)) [
      | inl n ↦ absurd (ground (arith, e, n))
      | inr (y', n) ↦
          let same : split k t x y' ≡ root' = ground (arith, e, n) in
          subst (Spliced (split k t x y) (b ∷ parent) last removed) same
            (inside_second k t (write_at-Spliced y parent last d r removed sibling y' h n))
    ]
