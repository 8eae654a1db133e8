-- ===== src/Keymap/Chord.antt =====
-- A key and its modifiers, and how the text of one is read (crates/core/src/keymap.rs).
pub mod Masks
pub mod Order
pub mod Reading
use termherd.Prelude.{
  ℕ, ◌+◌, ◌/◌, ◌%◌, ◌≡◌, refl, Bool, true, false, ◌||◌, List, [], ◌∷◌, map, Option, none, some,
  arith, ◌==◌, if◌then◌else◌, Result, ok, err,
}
use termherd.Text.{Text, is_empty, text_eq, trim}
use termherd.TextMap.{member}
use termherd.Text.Ascii.{codes, split, to_ascii_lowercase}

abbrev pub mod_ctrl : ℕ
mod_ctrl = 1

abbrev pub mod_alt : ℕ
mod_alt = 2

abbrev pub mod_shift : ℕ
mod_shift = 4

abbrev pub mod_cmd : ℕ
mod_cmd = 8

pub record KeyChord : Type 0 where
  pub key : Text
  pub mods : ℕ

pub data ChordError : Type 0 where
  no_key multiple_keys : ChordError

-- `KeyChord::new`.
abbrev pub chord : Text → ℕ → KeyChord
chord key mods = record { key = to_ascii_lowercase key; mods = mods }

-- `mods |= bit` for a mask of one bit.
unfoldable pub set_bit : ℕ → ℕ → ℕ
set_bit mods bit = if (mods / bit) % 2 == 1 then mods else mods + bit

-- What one part of the text between two `+` says.
pub data Token : Type 0 where
  blank : Token
  modifier : ℕ → Token
  key_token : Text → Token

-- The names that each modifier answers to.
abbrev pub ctrl_names : List Text
ctrl_names = codes "ctrl" ∷ codes "control" ∷ []

abbrev pub alt_names : List Text
alt_names = codes "alt" ∷ codes "option" ∷ []

abbrev pub shift_names : List Text
shift_names = codes "shift" ∷ []

abbrev pub cmd_names : List Text
cmd_names = codes "cmd" ∷ codes "super" ∷ codes "logo" ∷ codes "win" ∷ codes "meta" ∷ []

-- The `match token.as_str()` of `parse`.
unfoldable pub read_token : Text → Token
read_token t =
    if member ctrl_names t
    then modifier mod_ctrl
    else if member alt_names t
    then modifier mod_alt
    else if member shift_names t
    then modifier mod_shift
    else if member cmd_names t
    then modifier mod_cmd
    else key_token t

unfoldable pub token_of : Text → Token
token_of part =
    let token = to_ascii_lowercase (trim part) in
    if is_empty token
    then blank
    else read_token (if text_eq token (codes "plus") then codes "+" else token)

-- The loop of `parse`, with its two accumulators.
unfoldable pub parse_tokens : ℕ → Option Text → List Token → Result ChordError KeyChord
parse_tokens mods none [] = err no_key
parse_tokens mods (some key) [] = ok (record { key = key; mods = mods })
parse_tokens mods key (blank ∷ tokens) = parse_tokens mods key tokens
parse_tokens mods key (modifier bit ∷ tokens) = parse_tokens (set_bit mods bit) key tokens
parse_tokens mods none (key_token token ∷ tokens) = parse_tokens mods (some token) tokens
parse_tokens mods (some key) (key_token token ∷ tokens) = err multiple_keys

-- `KeyChord::parse`.
unfoldable pub parse : Text → Result ChordError KeyChord
parse s = parse_tokens 0 none (map token_of (split 43 s))
