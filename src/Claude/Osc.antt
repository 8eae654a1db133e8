-- ===== src/Claude/Osc.antt =====
-- crates/claude/src/osc.rs: the status signals decoded from a chunk of a terminal's output. The
-- chunk is its characters: the scan compares bytes with ASCII ones only, which no other character
-- holds.
pub mod Scan
use termherd.Prelude.{
  ℕ, zero, suc, ◌+◌, ◌-◌, ◌*◌, ◌^◌, ◌≡◌, refl, Bool, true, false, ◌&&◌, ◌||◌, not, List, [], ◌∷◌,
  ◌++◌, Option, none, some, arith, leb, ltb, ◌==◌, if◌then◌else◌, length,
}
use termherd.Text.{Text, text_eq, trim, is_empty}
use termherd.Text.Ascii.{codes, strip_prefix, split}

pub data OscSignal : Type 0 where
  busy_signal idle_signal bell : OscSignal
  title notification : Text → OscSignal
  alt_screen : Bool → OscSignal

abbrev pub esc : ℕ
esc = 0x1b

abbrev pub bel : ℕ
bel = 7

unfoldable pub is_digit : ℕ → Bool
is_digit c = leb 48 c && leb c 57

-- The characters before the first that fails `p`, and the others.
unfoldable pub span : (ℕ → Bool) → Text → Text × Text
span p [] = ([], [])
span p (c ∷ cs) = let (taken, rest) = span p cs in if p c then (c ∷ taken, rest) else ([], c ∷ cs)

abbrev pub push_u32 : Option ℕ → ℕ → Option ℕ
push_u32 none c = none
push_u32 (some n) c = if ltb (n * 10 + (c - 48)) (2 ^ 32) then some (n * 10 + (c - 48)) else none

-- `str::parse::<u32>` of digits.
abbrev pub parse_u32 : Option ℕ → Text → Option ℕ
parse_u32 n [] = n
parse_u32 n (c ∷ cs) = parse_u32 (push_u32 n c) cs

-- What stands after a payload's end, if it is ended.
unfoldable pub after_end : Text → Option Text
after_end [] = none
after_end (c ∷ cs) =
    if c == bel then some cs else if c == esc then strip_prefix (92 ∷ []) cs else none

unfoldable pub is_payload : ℕ → Bool
is_payload c = not (c == bel) && not (c == esc)

abbrev pub ended_payload : Text → Text × Text → Option ((Text × Text) × Text)
ended_payload digits (payload, rest) = elim (after_end rest) [
  | none ↦ none
  | some after ↦ some ((digits, payload), after)
]

-- The payload after the digits and their `;`, with the text after its end.
abbrev pub payload_at : Text × Text → Option ((Text × Text) × Text)
payload_at ([], rest) = none
payload_at (d ∷ digits, rest) = elim (strip_prefix (59 ∷ []) rest) [
  | none ↦ none
  | some body ↦ ended_payload (d ∷ digits) (span is_payload body)
]

-- A sequence that starts here, digits unparsed, and the text after it.
unfoldable pub sequence_at : Text → Option ((Text × Text) × Text)
sequence_at s = elim (strip_prefix (esc ∷ 93 ∷ []) s) [
  | none ↦ none
  | some body ↦ payload_at (span is_digit body)
]

-- A sequence whose code is no `u32` is dropped.
abbrev pub push_sequence : Text × Text → List (ℕ × Text) → List (ℕ × Text)
push_sequence (digits, payload) out = elim (parse_u32 (some 0) digits) [
  | none ↦ out
  | some code ↦ (code, payload) ∷ out
]

-- The scan from here, on fuel; each round goes past a character at least.
unfoldable pub scan : ℕ → Text → List (ℕ × Text)
scan zero s = []
scan (suc fuel) [] = []
scan (suc fuel) (c ∷ cs) = elim (sequence_at (c ∷ cs)) [
  | none ↦ scan fuel cs
  | some (found, after) ↦ push_sequence found (scan fuel after)
]

unfoldable pub osc_sequences : Text → List (ℕ × Text)
osc_sequences chunk = scan (length chunk) chunk

unfoldable pub is_busy_glyph : ℕ → Bool
is_busy_glyph c = leb 0x2800 c && leb c 0x28ff || c == 0x25d0 || c == 0x25d1

abbrev pub product_name : Text
product_name = codes "Claude Code"

unfoldable pub title_after_glyph : Text → Option Text
title_after_glyph [] = none
title_after_glyph (_ ∷ payload) =
    let rest = trim payload in
    if not (is_empty rest) && not (text_eq rest product_name) then some rest else none

abbrev pub with_title : OscSignal → Text → List OscSignal
with_title status payload = elim (title_after_glyph payload) [
  | none ↦ status ∷ []
  | some text ↦ status ∷ title text ∷ []
]

unfoldable pub title_signals : Text → List OscSignal
title_signals [] = []
title_signals (c ∷ cs) =
    if is_busy_glyph c
    then with_title busy_signal (c ∷ cs)
    else if c == 0x2733
    then with_title idle_signal (c ∷ cs)
    else []

-- The first of the parts between `;`.
abbrev pub first_part : Text → Text
first_part s = elim (split 59 s) [ [] ↦ [] | part ∷ _ ↦ part ]

unfoldable pub progress_signals : Text → List OscSignal
progress_signals progress =
    let level = first_part progress in
    if text_eq level (codes "1") || text_eq level (codes "2") || text_eq level (codes "3")
    then busy_signal ∷ []
    else []

unfoldable pub notice_signals : Text → List OscSignal
notice_signals payload = elim (strip_prefix (codes "4;") payload) [
  | some progress ↦ progress_signals progress
  | none ↦ notification payload ∷ []
]

-- The two passes over the sequences.
unfoldable pub titles_of : List (ℕ × Text) → List OscSignal
titles_of [] = []
titles_of ((code, payload) ∷ rest) =
    (if code == 0 then title_signals payload else []) ++ titles_of rest

unfoldable pub notices_of : List (ℕ × Text) → List OscSignal
notices_of [] = []
notices_of ((code, payload) ∷ rest) =
    (if code == 9 then notice_signals payload else []) ++ notices_of rest

-- `str::contains`.
unfoldable pub contains : Text → Text → Bool
contains pattern [] = is_empty pattern
contains pattern (c ∷ cs) = elim (strip_prefix pattern (c ∷ cs)) [
  | some _ ↦ true
  | none ↦ contains pattern cs
]

unfoldable pub alt_screen_signals : Text → List OscSignal
alt_screen_signals chunk =
    (if contains (esc ∷ codes "[?1049h") chunk || contains (esc ∷ codes "[?47h") chunk
      then alt_screen true ∷ []
      else [])
    ++ (if contains (esc ∷ codes "[?1049l") chunk || contains (esc ∷ codes "[?47l") chunk
        then alt_screen false ∷ []
        else [])

unfoldable pub status_signals : Text → List OscSignal
status_signals chunk =
    if contains (esc ∷ 93 ∷ []) chunk
    then (let sequences = osc_sequences chunk in titles_of sequences ++ notices_of sequences)
    else if contains (bel ∷ []) chunk
    then bell ∷ []
    else []

-- `decode_chunk`.
unfoldable pub decode_chunk : Text → List OscSignal
decode_chunk chunk =
    status_signals chunk
    ++ (if contains (esc ∷ codes "[?") chunk then alt_screen_signals chunk else [])
