-- ===== src/Open.antt =====
-- crates/core/src/open.rs: the command that opens a file in an editor, parsed once into words of
-- literals and slots. A path is its text.
pub mod Words
pub mod Grammar
pub mod Safety
use termherd.Prelude.{
  ℕ, zero, suc, ◌+◌, ◌≡◌, refl, Bool, true, false, ◌&&◌, ◌||◌, not, List, [], ◌∷◌, ◌++◌, map,
  Option, none, some, ◌==◌, if◌then◌else◌, length, unwrap_or, any, Result, ok, err,
}
use termherd.Text.{Text, text_eq, trim, is_empty}
use termherd.Text.Ascii.{codes}
use termherd.Text.Numbers.{decimal}
use termherd.Text.Words.{all, concat, split_whitespace}

abbrev pub no_position : ℕ
no_position = 1

pub data Slot : Type 0 where
  path_slot line_slot col_slot : Slot

-- `Slot::named`.
unfoldable pub named : Text → Option Slot
named name =
    if text_eq name (codes "path")
    then some path_slot
    else if text_eq name (codes "line")
    then some line_slot
    else if text_eq name (codes "col")
    then some col_slot
    else none

pub data Segment : Type 0 where
  literal : Text → Segment
  slot : Slot → Segment

abbrev pub Word : Type 0
Word = List Segment

pub data OpenCommandError : Type 0 where
  empty_command no_path : OpenCommandError
  placeholder_in_program unknown_placeholder unterminated_placeholder : Text → OpenCommandError

abbrev pub cut_step : Bool → ℕ → Text → Option (Text × Text) → Option (Text × Text)
cut_step true d ds later = some ([], ds)
cut_step false d ds none = none
cut_step false d ds (some (before, after)) = some (d ∷ before, after)

-- `rest.find(c)`, with the text before `c` and the text after it.
unfoldable pub cut_at : ℕ → Text → Option (Text × Text)
cut_at c [] = none
cut_at c (d ∷ ds) = cut_step (d == c) d ds (cut_at c ds)

-- A literal, unless it is empty.
abbrev pub with_literal : Text → Word → Word
with_literal [] segments = segments
with_literal (c ∷ cs) segments = literal (c ∷ cs) ∷ segments

abbrev pub prepend : Text → Slot → Result OpenCommandError Word → Result OpenCommandError Word
prepend before s (ok segments) = ok (with_literal before (slot s ∷ segments))
prepend before s (err e) = err e

-- One round of the loop of `Word::parse` on what is left of the word; `next` is the rest of the
-- loop.
unfoldable pub parse_round :
    Text → Text → (Text → Result OpenCommandError Word) → Result OpenCommandError Word
parse_round word rest next = elim (cut_at 123 rest) [
  | none ↦ ok (with_literal rest [])
  | some (before, after) ↦ elim (cut_at 125 after) [
    | none ↦ err (unterminated_placeholder word)
    | some (name, tail) ↦ elim (named name) [
      | none ↦ err (unknown_placeholder name)
      | some s ↦ prepend before s (next tail)
    ]
  ]
]

-- The loop on fuel; a round takes two characters at least, so the length of `rest` is enough.
abbrev pub parse_rounds : ℕ → Text → Text → Result OpenCommandError Word
parse_rounds zero word rest = ok []
parse_rounds (suc fuel) word rest = parse_round word rest (parse_rounds fuel word)

unfoldable pub parse_rest : Text → Text → Result OpenCommandError Word
parse_rest word rest = parse_rounds (suc (length rest)) word rest

-- `Word::parse`.
abbrev pub parse_word : Text → Result OpenCommandError Word
parse_word word = parse_rest word word

abbrev pub is_path_slot : Segment → Bool
is_path_slot (slot path_slot) = true
is_path_slot _ = false

abbrev pub takes_the_path : Word → Bool
takes_the_path word = any is_path_slot word

-- `Word::render`.
abbrev pub render_segment : Text → ℕ → ℕ → Segment → Text
render_segment path line col (literal text) = text
render_segment path line col (slot path_slot) = path
render_segment path line col (slot line_slot) = decimal line
render_segment path line col (slot col_slot) = decimal col

unfoldable pub render : Word → Text → ℕ → ℕ → Text
render word path line col = concat (map (render_segment path line col) word)

pub record OpenCommand : Type 0 where
  pub program : Text
  pub args : List Word

pub data OpenTarget : Type 0 where
  editor : (program : Text) (args : List Text) → OpenTarget
  system_handler : (path : Text) → OpenTarget

abbrev pub is_literal : Segment → Bool
is_literal (literal _) = true
is_literal (slot _) = false

-- `.map(Word::parse).collect::<Result<Vec<_>, _>>()`: the first error is the one reported.
abbrev pub cons_word :
    Result OpenCommandError Word
    → Result OpenCommandError (List Word)
    → Result OpenCommandError (List Word)
cons_word (err e) rest = err e
cons_word (ok word) (err e) = err e
cons_word (ok word) (ok rest) = ok (word ∷ rest)

abbrev pub parse_words : List Text → Result OpenCommandError (List Word)
parse_words [] = ok []
parse_words (word ∷ words) = cons_word (parse_word word) (parse_words words)

abbrev pub check_args :
    Text → Result OpenCommandError (List Word) → Result OpenCommandError OpenCommand
check_args program (err e) = err e
check_args program (ok args) =
    if any takes_the_path args then ok (record { program = program; args = args }) else err no_path

abbrev pub check_program :
    Text → List Text → Result OpenCommandError Word → Result OpenCommandError OpenCommand
check_program program words (err e) = err e
check_program program words (ok segments) =
    if all is_literal segments
    then check_args program (parse_words words)
    else err (placeholder_in_program program)

-- `OpenCommand::from_words`.
unfoldable pub from_words : List Text → Result OpenCommandError OpenCommand
from_words [] = err empty_command
from_words (program ∷ words) =
    if is_empty (trim program)
    then err empty_command
    else check_program program words (parse_word program)

-- `OpenCommand::parse`.
unfoldable pub parse_command : Text → Result OpenCommandError OpenCommand
parse_command line = from_words (split_whitespace line)

-- `OpenCommand::resolve`.
unfoldable pub resolve : OpenCommand → Text → Option ℕ → Option ℕ → OpenTarget
resolve command path line col = editor command.program (
    map (λ word. render word path (unwrap_or line no_position) (unwrap_or col no_position))
      command.args)
