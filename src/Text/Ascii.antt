-- ===== src/Text/Ascii.antt =====
-- ASCII case and the splitting, joining and number operations of `str` that the program calls.
use Prim.Native.Char.{code}
use Prim.Native.String.{String}
use termherd.Prelude.{
  ℕ, ◌+◌, ◌≡◌, ◌<◌, ◌⊎◌, ◌&&◌, List, [], ◌∷◌, ◌++◌, map, Option, none, some, arith, leb, ◌==◌,
  if◌then◌else◌,
}
use termherd.Text.{Text, is_whitespace}

-- The code points of a literal.
abbrev pub codes : String → Text
codes String.[] = []
codes (String.◌∷◌ c s) = code c ∷ codes s

-- `char::to_ascii_lowercase`.
unfoldable pub lower : ℕ → ℕ
lower c = if leb 65 c && leb c 90 then c + 32 else c

-- `str::to_ascii_lowercase`.
abbrev pub to_ascii_lowercase : Text → Text
to_ascii_lowercase s = map lower s

-- `str::split(sep)`: one part more than there are separators, so at least one.
abbrev pub split_step : ℕ → ℕ → List Text → List Text
split_step sep c [] = (c ∷ []) ∷ []
split_step sep c (part ∷ parts) = if c == sep then [] ∷ part ∷ parts else (c ∷ part) ∷ parts

unfoldable pub split : ℕ → Text → List Text
split sep [] = [] ∷ []
split sep (c ∷ cs) = split_step sep c (split sep cs)

-- `parts.join(sep)` for a one-character separator.
unfoldable pub join : ℕ → List Text → Text
join sep [] = []
join sep (part ∷ []) = part
join sep (part ∷ next ∷ parts) = part ++ (sep ∷ join sep (next ∷ parts))

-- `str::strip_prefix`.
unfoldable pub strip_prefix : Text → Text → Option Text
strip_prefix [] s = some s
strip_prefix (p ∷ ps) [] = none
strip_prefix (p ∷ ps) (c ∷ cs) = if p == c then strip_prefix ps cs else none

pub lower_idem : (c : ℕ) → lower (lower c) ≡ lower c
unfolding lower
lower_idem c = ground arith

pub is_whitespace-lower : (c : ℕ) → is_whitespace (lower c) ≡ is_whitespace c
unfolding lower is_whitespace
is_whitespace-lower c = ground arith

pub lower-eqb :
    (sep c : ℕ) → lower sep ≡ sep → (sep < 65 ⊎ 122 < sep) → (lower c == sep) ≡ (c == sep)
unfolding lower
lower-eqb sep c h b = ground arith
