-- ===== src/Claude/Prompt.antt =====
-- crates/claude/src/prompt.rs: Claude's input prompt, read off the visible screen.
use termherd.Prelude.{
  ℕ, zero, suc, ◌+◌, ◌-◌, Bool, true, false, ◌&&◌, ◌||◌, not, List, [], ◌∷◌, map, Option, none,
  some, ltb, ◌==◌, if◌then◌else◌, take, length, get_elem?, find_idx, any,
}
use termherd.Text.{Text, is_whitespace, is_empty, trim}
use termherd.Text.Ascii.{codes, join, strip_prefix}
use termherd.Text.Words.{filter, last, as_bytes, lines}

pub data PromptInput : Type 0 where
  empty not_visible : PromptInput
  draft : Text → PromptInput

-- U+276F, U+2500.
abbrev pub marker : ℕ
marker = 0x276f

abbrev pub dash : ℕ
dash = 0x2500

abbrev pub opening_run : ℕ
opening_run = 3

abbrev pub starts_with_space : Text → Bool
starts_with_space [] = false
starts_with_space (c ∷ _) = is_whitespace c

abbrev pub ends_with : ℕ → Text → Bool
ends_with c text = elim (last text) [ none ↦ false | some d ↦ d == c ]

abbrev pub starts_with : Text → Text → Bool
starts_with prefix text = elim (strip_prefix prefix text) [ none ↦ false | some _ ↦ true ]

abbrev pub after_marker : Text → Option Text
after_marker rest = if is_empty rest || starts_with_space rest then some (trim rest) else none

-- The text after the prompt's marker.
unfoldable pub prompt_text : Text → Option Text
prompt_text [] = none
prompt_text (c ∷ rest) = if c == marker || c == 62 then after_marker rest else none

unfoldable pub is_rule : Text → Bool
is_rule row =
    let trimmed = trim row in
    length (filter (λ c. c == dash) (take opening_run trimmed)) == opening_run
    && ends_with dash trimmed

unfoldable pub is_placeholder : Text → Bool
is_placeholder text =
    not (any (λ c. c == 10) text)
    && starts_with (codes "Try \"") text
    && ends_with 34 text
    && ltb 5 (length (as_bytes text))

-- The last row that is a prompt's first, with its index and text.
unfoldable pub find_prompt : List Text → ℕ → Option (ℕ × Text)
find_prompt [] index = none
find_prompt (row ∷ rows) index = elim (find_prompt rows (index + 1)) [
  | some found ↦ some found
  | none ↦ elim (prompt_text row) [ none ↦ none | some text ↦ some (index, text) ]
]

-- What the trimmed text of the prompt's rows says.
unfoldable pub draft_of : Text → PromptInput
draft_of text = if is_empty text || is_placeholder text then empty else draft text

-- `rows[i..]`.
abbrev pub drop : {A : Type 0} → ℕ → List A → List A
drop zero xs = xs
drop (suc n) [] = []
drop (suc n) (x ∷ xs) = drop n xs

-- `is_rule(rows[i])`, with the index in range.
abbrev pub rule_at : List Text → ℕ → Bool
rule_at rows i = elim (get_elem? rows i) [ none ↦ false | some row ↦ is_rule row ]

-- The prompt whose first row is at `start`, framed by a rule above it and one below.
unfoldable pub framed : List Text → ℕ → Text → PromptInput
framed rows start first =
    if start == 0 || not (rule_at rows (start - 1))
    then not_visible
    else elim (find_idx is_rule (drop (start + 1) rows)) [
      | none ↦ not_visible
      | some len ↦ draft_of (trim (join 10 (first ∷ map trim (take len (drop (start + 1) rows)))))
    ]

-- `read_prompt`.
unfoldable pub read_prompt : Text → PromptInput
read_prompt screen =
    let rows = lines screen in
    elim (find_prompt rows 0) [ none ↦ not_visible | some (start, first) ↦ framed rows start first ]
