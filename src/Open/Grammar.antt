-- ===== src/Open/Grammar.antt =====
-- Which words of an open command parse, to what, and how the others fail (crates/core/src/open.rs).
use termherd.Prelude.{
  ℕ, ◌≡◌, ◌∙◌, ap, refl, Bool, true, false, not, List, [], ◌∷◌, ◌++◌, none, some, arith, ◌==◌,
  Result, ok, err,
}
use termherd.Text.{Text, text_eq}
use termherd.Text.Words.{all}
use termherd.Open.{
  Slot, path_slot, line_slot, col_slot, named, literal, slot, Word, OpenCommandError,
  unknown_placeholder, unterminated_placeholder, cut_at, with_literal, prepend, parse_round,
  parse_rest, parse_word,
}
use termherd.Open.Words.{slot_name, parse_rest-parse_round}

abbrev pub is_free : ℕ → Text → Bool
is_free c s = all (λ d. not (d == c)) s

-- How a word ends after its last placeholder: with text alone, with a placeholder of another name, or
-- with one that is not closed.
pub data Ending : Type 0 where
  text_alone : Text → Ending
  other_name : (text name tail : Text) → Ending
  unclosed : (text after : Text) → Ending

abbrev pub ending_text : Ending → Text
ending_text (text_alone text) = text
ending_text (other_name text name tail) = text ++ (123 ∷ (name ++ (125 ∷ tail)))
ending_text (unclosed text after) = text ++ (123 ∷ after)

-- A word: its placeholders, each with the text before it, and its ending.
abbrev pub word_of : List (Text × Slot) → Ending → Text
word_of [] end = ending_text end
word_of ((text, s) ∷ places) end = text ++ (123 ∷ (slot_name s ++ (125 ∷ word_of places end)))

-- No text holds a brace that opens, and no name one that closes.
abbrev pub IsEnding : Ending → Type 0
IsEnding (text_alone text) = is_free 123 text ≡ true
IsEnding (other_name text name tail) =
    (is_free 123 text ≡ true)
    × ((is_free 125 name ≡ true) × ((s : Slot) → text_eq name (slot_name s) ≡ false))
IsEnding (unclosed text after) = (is_free 123 text ≡ true) × (is_free 125 after ≡ true)

abbrev pub AllPlaces : List (Text × Slot) → Type 0
AllPlaces [] = Unit
AllPlaces ((text, s) ∷ places) = (is_free 123 text ≡ true) × AllPlaces places

-- A text is one literal, or none if it is empty.
abbrev pub literals : Text → Word
literals [] = []
literals (c ∷ cs) = literal (c ∷ cs) ∷ []

abbrev pub after_place : Text → Slot → Result OpenCommandError Word → Result OpenCommandError Word
after_place text s (ok segments) = ok (literals text ++ (slot s ∷ segments))
after_place text s (err e) = err e

-- What a word, or the rest of the word `whole`, reads as.
abbrev pub reading : Text → List (Text × Slot) → Ending → Result OpenCommandError Word
reading whole [] (text_alone text) = ok (literals text)
reading whole [] (other_name text name tail) = err (unknown_placeholder name)
reading whole [] (unclosed text after) = err (unterminated_placeholder whole)
reading whole ((text, s) ∷ places) end = after_place text s (reading whole places end)

cut_at-append :
    (c : ℕ) (before after : Text)
    → is_free c before ≡ true
    → cut_at c (before ++ (c ∷ after)) ≡ some (before, after)
unfolding cut_at
cut_at-append c [] after h = let e : (c == c) ≡ true = ground arith in rw e refl
cut_at-append c (d ∷ before) after h =
    let e : (d == c) ≡ false = ground (arith, h) in
    rw (e, cut_at-append c before after (ground (arith, h))) refl

cut_at-free : (c : ℕ) (s : Text) → is_free c s ≡ true → cut_at c s ≡ none
unfolding cut_at
cut_at-free c [] h = refl
cut_at-free c (d ∷ s) h =
    let e : (d == c) ≡ false = ground (arith, h) in rw (e, cut_at-free c s (ground (arith, h))) refl

named-slot_name : (s : Slot) → named (slot_name s) ≡ some s
unfolding named text_eq
named-slot_name path_slot = refl
named-slot_name line_slot = refl
named-slot_name col_slot = refl

slot_name_free : (s : Slot) → is_free 125 (slot_name s) ≡ true
slot_name_free path_slot = refl
slot_name_free line_slot = refl
slot_name_free col_slot = refl

named_other : (name : Text) → ((s : Slot) → text_eq name (slot_name s) ≡ false) → named name ≡ none
unfolding named
named_other name h = rw (h path_slot, h line_slot, h col_slot) refl

with_literal-literals : (text : Text) (word : Word) → with_literal text word ≡ literals text ++ word
with_literal-literals [] word = refl
with_literal-literals (c ∷ cs) word = refl

prepend-after_place :
    (text : Text) (s : Slot) (r : Result OpenCommandError Word)
    → prepend text s r ≡ after_place text s r
prepend-after_place text s (err e) = refl
prepend-after_place text s (ok segments) = ap ok (with_literal-literals text (slot s ∷ segments))

last_literals : (text : Text) → with_literal text [] ≡ literals text
last_literals [] = refl
last_literals (c ∷ cs) = refl

-- A round at the end of a word.
parse_round-ending :
    (whole : Text) (end : Ending) (next : Text → Result OpenCommandError Word)
    → IsEnding end
    → parse_round whole (ending_text end) next ≡ reading whole [] end
unfolding parse_round
parse_round-ending whole (text_alone text) next h =
    rw (cut_at-free 123 text h, parse_round) (ap ok (last_literals text))
parse_round-ending whole (other_name text name tail) next (h, (k, other)) =
    rw (cut_at-append 123 text (name ++ (125 ∷ tail)) h, parse_round)
      (rw (cut_at-append 125 name tail k) (rw (named_other name other) refl))
parse_round-ending whole (unclosed text after) next (h, k) =
    rw (cut_at-append 123 text after h, parse_round) (rw (cut_at-free 125 after k) refl)

-- A round at a placeholder.
parse_round-place :
    (whole text tail : Text) (s : Slot) (next : Text → Result OpenCommandError Word)
    → is_free 123 text ≡ true
    → parse_round whole (text ++ (123 ∷ (slot_name s ++ (125 ∷ tail)))) next
      ≡ after_place text s (next tail)
unfolding parse_round
parse_round-place whole text tail s next h =
    rw (cut_at-append 123 text (slot_name s ++ (125 ∷ tail)) h, parse_round)
      (rw (cut_at-append 125 (slot_name s) tail (slot_name_free s))
        (rw (named-slot_name s) (prepend-after_place text s (next tail))))

parse_rest-word_of :
    (whole : Text) (places : List (Text × Slot)) (end : Ending)
    → AllPlaces places
    → IsEnding end
    → parse_rest whole (word_of places end) ≡ reading whole places end
parse_rest-word_of whole [] end h k =
    parse_rest-parse_round whole (ending_text end)
    ∙ parse_round-ending whole end (parse_rest whole) k
parse_rest-word_of whole ((text, s) ∷ places) end (h, hs) k =
    parse_rest-parse_round whole (word_of ((text, s) ∷ places) end)
    ∙ (parse_round-place whole text (word_of places end) s (parse_rest whole) h
        ∙ ap (after_place text s) (parse_rest-word_of whole places end hs k))

-- A word made of placeholders, each after a text without an opening brace, and of an ending reads
-- as its texts, the empty ones left out, and its slots in order, where it ends with such a text;
-- as the error that a placeholder is unknown, with its name, where the ending has one of another
-- name; and as the error that a placeholder is not closed, with the whole word, where the ending
-- has one.
pub parse_word-word_of :
    (places : List (Text × Slot)) (end : Ending)
    → AllPlaces places
    → IsEnding end
    → parse_word (word_of places end) ≡ reading (word_of places end) places end
parse_word-word_of places end h k = parse_rest-word_of (word_of places end) places end h k
