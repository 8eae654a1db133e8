-- ===== src/Text/Numbers.antt =====
-- Numbers as text, and the searching and replacing of `str`.
use termherd.Prelude.{
  ℕ, zero, suc, ◌+◌, ◌-◌, ◌*◌, ◌/◌, ◌%◌, ◌^◌, ◌&&◌, [], ◌∷◌, ◌++◌, Option, none, some, leb, ltb,
  ◌==◌, if◌then◌else◌, length,
}
use termherd.Text.{Text}
use termherd.Text.Ascii.{strip_prefix}

-- The decimal digits of `n`, the last one and those above it; a digit for each unit of fuel.
abbrev pub decimal_steps : ℕ → ℕ → Text
decimal_steps zero n = []
decimal_steps (suc fuel) n =
    let above = decimal_steps fuel (n / 10) in
    if ltb n 10 then (48 + n) ∷ [] else above ++ ((48 + n % 10) ∷ [])

-- `n.to_string()` of a `usize`, which has at most twenty digits.
unfoldable pub decimal : ℕ → Text
decimal n = decimal_steps 20 n

-- A digit onto a number, if there is one and the result is a `usize`.
abbrev pub push_digit : Option ℕ → ℕ → Option ℕ
push_digit none c = none
push_digit (some n) c =
    if leb 48 c && leb c 57 && ltb (n * 10 + (c - 48)) (2 ^ 64)
    then some (n * 10 + (c - 48))
    else none

abbrev pub push_digits : Option ℕ → Text → Option ℕ
push_digits n [] = n
push_digits n (c ∷ cs) = push_digits (push_digit n c) cs

abbrev pub digits_value : Text → Option ℕ
digits_value [] = none
digits_value (c ∷ cs) = push_digits (some 0) (c ∷ cs)

-- `str::parse::<usize>`: digits, a `+` allowed before them.
unfoldable pub parse_usize : Text → Option ℕ
parse_usize [] = none
parse_usize (c ∷ cs) = if c == 43 then digits_value cs else digits_value (c ∷ cs)

-- `str::replace`, with the characters of a match still to skip.
abbrev replace_from : ℕ → Text → Text → Text → Text
replace_from skip pattern new [] = []
replace_from (suc skip) pattern new (c ∷ cs) = replace_from skip pattern new cs
replace_from zero pattern new (c ∷ cs) = elim (strip_prefix pattern (c ∷ cs)) [
  | none ↦ c ∷ replace_from zero pattern new cs
  | some _ ↦ new ++ replace_from (length pattern - 1) pattern new cs
]

unfoldable pub replace : Text → Text → Text → Text
replace s pattern new = replace_from zero pattern new s
