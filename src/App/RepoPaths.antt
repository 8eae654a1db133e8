-- ===== src/App/RepoPaths.antt =====
-- A path lies within a directory by whole components.
use termherd.Prelude.{
  ◌≡◌, refl, ap, ◌∙◌, inl, inr, ◌↔◌, Bool, true, false, [], ◌∷◌, ◌++◌, Option, none, some, arith,
  Option-cases,
}
use mathlib.Core.Option.{some-injective}
use termherd.Text.{Text}
use termherd.App.RepoLink.{strip_prefix, trim_separators, lies_within, is_separator}

strip_prefix-some : (path dir rest : Text) → strip_prefix path dir ≡ some rest → path ≡ dir ++ rest
unfolding strip_prefix
strip_prefix-some path [] rest h = some-injective path rest h
strip_prefix-some [] (d ∷ ds) rest h = absurd (ground arith)
strip_prefix-some (c ∷ cs) (d ∷ ds) rest h = ground (arith, strip_prefix-some cs ds rest)

strip_prefix-append : (dir rest : Text) → strip_prefix (dir ++ rest) dir ≡ some rest
unfolding strip_prefix
strip_prefix-append [] rest = refl
strip_prefix-append (d ∷ ds) rest = ground (arith, strip_prefix-append ds rest)

-- What may follow a directory in a path below it.
abbrev pub Below : Text → Type 0
Below [] = Unit
Below (c ∷ _) = is_separator c ≡ true

Below-is_separator :
    (rest : Text)
    → Below rest
    → (elim (some rest) as (λ (o : Option Text). Bool) [
      | none ↦ false
      | some [] ↦ true
      | some (c ∷ _) ↦ is_separator c
    ])
      ≡ true
Below-is_separator [] h = refl
Below-is_separator (c ∷ cs) h = h

-- A path lies within a directory exactly where, both without their trailing separators, it is the
-- directory followed by nothing or by a separator and more.
pub lies_within_iff :
    (path dir : Text)
    → (lies_within path dir ≡ true)
      ↔ ((rest : Text) × (trim_separators path ≡ trim_separators dir ++ rest) × Below rest)
unfolding lies_within
lies_within_iff path dir = (
  λ h. elim (Option-cases (strip_prefix (trim_separators path) (trim_separators dir))) [
    | inl e ↦ absurd (ground arith)
    | inr ([], e) ↦ ([], strip_prefix-some _ _ _ e, tt)
    | inr (c ∷ cs, e) ↦ (c ∷ cs, strip_prefix-some _ _ _ e, ground arith)
  ],
  λ (rest, e, below).
      let found : strip_prefix (trim_separators path) (trim_separators dir) ≡ some rest =
        ap (λ p. strip_prefix p (trim_separators dir)) e
        ∙ strip_prefix-append (trim_separators dir) rest in
      rw (found, lies_within) (Below-is_separator rest below),
)
