-- ===== src/Claude/Command.antt =====
-- crates/core/src/claude_command.rs: the commands typed, and their argument made safe. The cut into
-- grapheme clusters is a third-party crate's, and a parameter.
use termherd.Prelude.{
  ℕ, Bool, ◌||◌, ◌&&◌, not, List, [], ◌∷◌, ◌++◌, map, leb, ◌==◌, if◌then◌else◌, take, Result, ok,
  err,
}
use termherd.Text.{Text, is_whitespace, is_empty}
use termherd.Text.Ascii.{codes, join}
use termherd.Text.Words.{is_control, filter, concat, split_whitespace, trim_end_matches, as_bytes}
use termherd.Tab.{ClaudeColor}
use termherd.Claude.Color.{color_name}

abbrev pub max_argument_graphemes : ℕ
max_argument_graphemes = 80

abbrev pub clear_draft : List ℕ
clear_draft = 0x15 ∷ []

abbrev pub submit : List ℕ
submit = 13 ∷ []

pub data CommandError : Type 0 where
  empty_argument : CommandError

pub record CommandArgument : Type 0 where
  pub text : Text

pub data ClaudeCommand : Type 0 where
  rename_to : CommandArgument → ClaudeCommand
  color_to : ClaudeColor → ClaudeCommand
  desktop : ClaudeCommand

unfoldable pub breaks_line : ℕ → Bool
breaks_line c = is_control c || c == 0x2028 || c == 0x2029

unfoldable pub is_invisible_format : ℕ → Bool
is_invisible_format c =
    c == 0xad
    || c == 0x61c
    || c == 0x180e
    || c == 0x200b
    || c == 0x200e
    || c == 0x200f
    || leb 0x202a c && leb c 0x202e
    || leb 0x2060 c && leb c 0x2069
    || c == 0xfeff
    || leb 0xe0000 c && leb c 0xe007f

unfoldable pub space_breaks : ℕ → ℕ
space_breaks c = if breaks_line c then 32 else c

unfoldable pub is_tail : ℕ → Bool
is_tail c = c == 92 || is_whitespace c

unfoldable pub collapsed : Text → Text
collapsed raw =
    let spaced = map space_breaks (filter (λ c. not (is_invisible_format c)) raw) in
    join 32 (split_whitespace spaced)

-- `CommandArgument::new`.
unfoldable pub new_argument : (Text → List Text) → Text → Result CommandError CommandArgument
new_argument graphemes raw =
    let cut = concat (take max_argument_graphemes (graphemes (collapsed raw))) in
    let clean = trim_end_matches is_tail cut in
    if is_empty clean then err empty_argument else ok (record { text = clean })

-- `ClaudeCommand::rename`.
unfoldable pub rename : (Text → List Text) → Text → Result CommandError ClaudeCommand
rename graphemes name = elim (new_argument graphemes name) [
  | err e ↦ err e
  | ok argument ↦ ok (rename_to argument)
]

-- `ClaudeCommand::line`.
unfoldable pub line : ClaudeCommand → Text
line (rename_to name) = codes "/rename " ++ name.text
line (color_to color) = codes "/color " ++ color_name color
line desktop = codes "/desktop"

-- `ClaudeCommand::keystrokes`: the two writes.
unfoldable pub keystrokes : ClaudeCommand → List (List ℕ)
keystrokes command = (clear_draft ++ as_bytes (line command)) ∷ submit ∷ []
