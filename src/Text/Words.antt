-- ===== src/Text/Words.antt =====
-- The words and lines of a text, and its bytes.
use termherd.Prelude.{
  ℕ, ◌+◌, ◌/◌, ◌%◌, Bool, true, false, ◌&&◌, ◌||◌, not, List, [], ◌∷◌, ◌++◌, Option, none, some,
  leb, ltb, ◌==◌, if◌then◌else◌,
}
use termherd.Text.{Text, is_whitespace, is_empty}
use termherd.Text.Ascii.{split}

-- `char::is_control`: the general category Cc.
unfoldable pub is_control : ℕ → Bool
is_control c = leb c 31 || leb 127 c && leb c 159

abbrev pub filter : {A : Type 0} → (A → Bool) → List A → List A
filter p [] = []
filter p (x ∷ xs) = let rest = filter p xs in if p x then x ∷ rest else rest

abbrev pub all : {A : Type 0} → (A → Bool) → List A → Bool
all p [] = true
all p (x ∷ xs) = p x && all p xs

abbrev pub concat : List Text → Text
concat [] = []
concat (s ∷ ss) = s ++ concat ss

-- A character of a word, or the end of one.
abbrev pub word_step : Bool → ℕ → List Text → List Text
word_step space c [] = []
word_step true c (word ∷ words) = [] ∷ word ∷ words
word_step false c (word ∷ words) = (c ∷ word) ∷ words

abbrev pub spaced_words : Text → List Text
spaced_words [] = [] ∷ []
spaced_words (c ∷ cs) = word_step (is_whitespace c) c (spaced_words cs)

-- `str::split_whitespace`.
unfoldable pub split_whitespace : Text → List Text
split_whitespace s = filter (λ word. not (is_empty word)) (spaced_words s)

-- `str::trim_end_matches` of a predicate.
abbrev pub keep_end : (ℕ → Bool) → ℕ → Text → Text
keep_end p c [] = if p c then [] else c ∷ []
keep_end p c (d ∷ ds) = c ∷ d ∷ ds

abbrev pub trim_end_matches : (ℕ → Bool) → Text → Text
trim_end_matches p [] = []
trim_end_matches p (c ∷ cs) = keep_end p c (trim_end_matches p cs)

abbrev pub last : Text → Option ℕ
last [] = none
last (c ∷ []) = some c
last (_ ∷ d ∷ ds) = last (d ∷ ds)

-- The UTF-8 bytes of a character.
unfoldable pub utf8 : ℕ → List ℕ
utf8 c =
    if ltb c 0x80
    then c ∷ []
    else if ltb c 0x800
    then (0xc0 + c / 64) ∷ (0x80 + c % 64) ∷ []
    else if ltb c 0x10000
    then (0xe0 + c / 4096) ∷ (0x80 + c / 64 % 64) ∷ (0x80 + c % 64) ∷ []
    else (0xf0 + c / 262144) ∷ (0x80 + c / 4096 % 64) ∷ (0x80 + c / 64 % 64) ∷ (0x80 + c % 64) ∷ []

-- `str::as_bytes`.
abbrev pub as_bytes : Text → List ℕ
as_bytes [] = []
as_bytes (c ∷ cs) = utf8 c ++ as_bytes cs

-- A line without the carriage return that ends it.
abbrev pub chomp : Text → Text
chomp [] = []
chomp (c ∷ []) = if c == 13 then [] else c ∷ []
chomp (c ∷ d ∷ ds) = c ∷ chomp (d ∷ ds)

-- The parts between line feeds: each but the last ended with one, and an empty last is no line.
abbrev pub ended_lines : List Text → List Text
ended_lines [] = []
ended_lines (part ∷ []) = if is_empty part then [] else part ∷ []
ended_lines (part ∷ next ∷ parts) = chomp part ∷ ended_lines (next ∷ parts)

-- `str::lines`.
unfoldable pub lines : Text → List Text
lines s = ended_lines (split 10 s)
