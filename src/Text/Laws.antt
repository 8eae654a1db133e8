-- ===== src/Text/Laws.antt =====
-- How splitting, trimming and lowering of `str` fit together.
use termherd.Prelude.{
  ℕ, ◌≡◌, ◌⊎◌, refl, false, List, [], ◌∷◌, ◌++◌, map, arith, ◌==◌, inl, inr, Bool-cases,
}
use termherd.Text.{Text, is_whitespace, trim, trim_start, trim_end}
use termherd.Text.Ascii.{
  lower, lower_idem, lower-eqb, is_whitespace-lower, split, join, to_ascii_lowercase,
}

-- No character of `s` is `sep`.
unfoldable pub Free : ℕ → Text → Type 0
Free sep [] = Unit
Free sep (c ∷ cs) = ((c == sep) ≡ false) × Free sep cs

unfoldable pub AllFree : ℕ → List Text → Type 0
AllFree sep [] = Unit
AllFree sep (s ∷ ss) = Free sep s × AllFree sep ss

split-cons :
    (sep : ℕ) (s : Text) → (part : Text) × ((parts : List Text) × (split sep s ≡ part ∷ parts))
unfolding split
split-cons sep [] = ([], ([], refl))
split-cons sep (c ∷ cs) =
    let (part, (parts, e)) = split-cons sep cs in
    elim (Bool-cases (c == sep)) [
      | inl h ↦ ([], (part ∷ parts, rw (e, h) refl))
      | inr h ↦ (c ∷ part, (parts, rw (e, h) refl))
    ]

split-append :
    (sep : ℕ) (s rest : Text) → Free sep s → split sep (s ++ (sep ∷ rest)) ≡ s ∷ split sep rest
unfolding split Free
split-append sep [] rest h = let (part, (parts, e)) = split-cons sep rest in ground (arith, e)
split-append sep (c ∷ cs) rest h = rw (split-append sep cs rest h.1, h.0) refl

split-Free : (sep : ℕ) (s : Text) → Free sep s → split sep s ≡ s ∷ []
unfolding split Free
split-Free sep [] h = refl
split-Free sep (c ∷ cs) h = rw (split-Free sep cs h.1) (rw h.0 refl)

-- Parts that hold no separator come back from their joined text.
pub split-join :
    (sep : ℕ) (part : Text) (parts : List Text)
    → AllFree sep (part ∷ parts)
    → split sep (join sep (part ∷ parts)) ≡ part ∷ parts
unfolding join AllFree
split-join sep part [] h = split-Free sep part h.0
split-join sep part (next ∷ parts) h =
    rw (split-append sep part (join sep (next ∷ parts)) h.0, split-join sep next parts h.1) refl

pub split-lower : (s : Text) → split 43 (to_ascii_lowercase s) ≡ map to_ascii_lowercase (split 43 s)
unfolding split lower
split-lower [] = refl
split-lower (c ∷ cs) =
    let (part, (parts, e)) = split-cons 43 cs in
    let low = lower-eqb 43 c refl (inl (omega arith)) in
    elim (Bool-cases (c == 43)) [
      | inl h ↦ rw (split-lower cs, e, low, h) refl
      | inr h ↦ rw (split-lower cs, e, low, h) refl
    ]

trim_start-lower :
    (s : Text) → trim_start (to_ascii_lowercase s) ≡ to_ascii_lowercase (trim_start s)
unfolding trim_start
trim_start-lower [] = refl
trim_start-lower (c ∷ cs) = elim (Bool-cases (is_whitespace c)) [
  | inl h ↦ rw (is_whitespace-lower c, h) (trim_start-lower cs)
  | inr h ↦ rw (is_whitespace-lower c, h) refl
]

trim_end_case :
    (cs : Text) → (trim_end cs ≡ []) ⊎ ((d : ℕ) × ((ds : Text) × (trim_end cs ≡ d ∷ ds)))
trim_end_case cs =
    elim (trim_end cs) as (λ t. (t ≡ []) ⊎ ((d : ℕ) × ((ds : Text) × (t ≡ d ∷ ds)))) [
      | [] ↦ inl refl
      | d ∷ ds ↦ inr (d, (ds, refl))
    ]

trim_end-lower : (s : Text) → trim_end (to_ascii_lowercase s) ≡ to_ascii_lowercase (trim_end s)
unfolding trim_end
trim_end-lower [] = refl
trim_end-lower (c ∷ cs) = elim (trim_end_case cs) [
  | inl e ↦ ground (arith, e, trim_end-lower cs, is_whitespace-lower c)
  | inr (d, (ds, e)) ↦ rw (trim_end-lower cs, e) refl
]

pub trim-lower : (s : Text) → trim (to_ascii_lowercase s) ≡ to_ascii_lowercase (trim s)
unfolding trim
trim-lower s = rw (trim_start-lower s, trim_end-lower (trim_start s)) refl

pub lowercase_idem : (s : Text) → to_ascii_lowercase (to_ascii_lowercase s) ≡ to_ascii_lowercase s
lowercase_idem [] = refl
lowercase_idem (c ∷ cs) = cc (lower_idem c, lowercase_idem cs)
