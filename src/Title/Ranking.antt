-- ===== src/Title/Ranking.antt =====
-- Which of its sources a title comes from.
use termherd.Prelude.{
  ◌≡◌, refl, inl, inr, ◌⊎◌, true, false, not, List, [], ◌∷◌, Option, none, some, find?, unwrap_or,
  Bool-cases,
}
use termherd.Text.{Text}
use termherd.Title.{TitleSources, is_blank, flatten, resolve}

-- The source is absent or blank.
abbrev pub Passed : Option Text → Type 0
Passed none = Unit
Passed (some t) = is_blank t ≡ true

-- The source shows.
abbrev pub Shows : Option Text → Text → Type 0
Shows o t = (o ≡ some t) × (is_blank t ≡ false)

from_next :
    (o : Option Text) (rest : List (Option Text)) (launch : Text)
    → Shows o (unwrap_or (find? (λ t. not (is_blank t)) (flatten (o ∷ rest))) launch)
      ⊎ (Passed o
          × (unwrap_or (find? (λ t. not (is_blank t)) (flatten (o ∷ rest))) launch
              ≡ unwrap_or (find? (λ t. not (is_blank t)) (flatten rest)) launch))
from_next none rest launch = inr (tt, refl)
from_next (some t) rest launch = elim (Bool-cases (is_blank t)) [
  | inl e ↦ inr (e, rw e refl)
  | inr e ↦ inl (rw e (refl, e))
]

-- The resolved title is the first of the given name, the live title and the description that is
-- present and not blank, every source before it being absent or blank, and the launch label where
-- all three are absent or blank.
pub resolve-Shows :
    (s : TitleSources)
    → Shows s.named (resolve s)
      ⊎ (Passed s.named
          × (Shows s.live (resolve s)
              ⊎ (Passed s.live
                  × (Shows s.described (resolve s)
                      ⊎ (Passed s.described × (resolve s ≡ s.launch))))))
unfolding resolve
resolve-Shows s = elim (from_next s.named (s.live ∷ s.described ∷ []) s.launch) [
  | inl shown ↦ inl shown
  | inr (passed, e) ↦ inr (
    passed,
    rw e (elim (from_next s.live (s.described ∷ []) s.launch) [
      | inl shown ↦ inl shown
      | inr (passed', e') ↦ inr (passed', rw e' (from_next s.described [] s.launch))
    ]),
  )
]
