-- ===== src/Keymap/Chord/Reading.antt =====
-- What `KeyChord::parse` makes of a text: the keys and modifiers it names, in any order and case.
use termherd.Prelude.{ℕ, ◌≡◌, refl, List, [], ◌∷◌, map, none, some, Result, ok, err}
use termherd.Text.{Text, trim}
use termherd.Text.Ascii.{split, to_ascii_lowercase}
use termherd.Text.Laws.{split-lower, trim-lower, lowercase_idem}
use termherd.Keymap.Chord.{
  KeyChord, ChordError, no_key, multiple_keys, set_bit, Token, blank, modifier, key_token, token_of,
  parse_tokens, parse,
}

-- The keys that the tokens name.
unfoldable pub keys : List Token → List Text
keys [] = []
keys (key_token k ∷ tokens) = k ∷ keys tokens
keys (_ ∷ tokens) = keys tokens

-- The modifiers that the tokens name, over those of `mods`.
unfoldable pub all_mods : ℕ → List Token → ℕ
all_mods mods [] = mods
all_mods mods (modifier bit ∷ tokens) = all_mods (set_bit mods bit) tokens
all_mods mods (_ ∷ tokens) = all_mods mods tokens

-- One key makes a chord; none and several are the two errors.
abbrev pub verdict : List Text → ℕ → Result ChordError KeyChord
verdict [] mods = err no_key
verdict (key ∷ []) mods = ok (record { key = key; mods = mods })
verdict (_ ∷ _ ∷ _) mods = err multiple_keys

parse_tokens-some :
    (mods : ℕ) (k : Text) (tokens : List Token)
    → parse_tokens mods (some k) tokens ≡ verdict (k ∷ keys tokens) (all_mods mods tokens)
unfolding parse_tokens keys all_mods
parse_tokens-some mods k [] = refl
parse_tokens-some mods k (blank ∷ tokens) = parse_tokens-some mods k tokens
parse_tokens-some mods k (modifier bit ∷ tokens) = parse_tokens-some (set_bit mods bit) k tokens
parse_tokens-some mods k (key_token token ∷ tokens) = refl

parse_tokens-none :
    (mods : ℕ) (tokens : List Token)
    → parse_tokens mods none tokens ≡ verdict (keys tokens) (all_mods mods tokens)
unfolding parse_tokens keys all_mods
parse_tokens-none mods [] = refl
parse_tokens-none mods (blank ∷ tokens) = parse_tokens-none mods tokens
parse_tokens-none mods (modifier bit ∷ tokens) = parse_tokens-none (set_bit mods bit) tokens
parse_tokens-none mods (key_token token ∷ tokens) = parse_tokens-some mods token tokens

unfoldable pub tokens_of : Text → List Token
tokens_of s = map token_of (split 43 s)

-- Parsing a text answers the error that there is no key where its parts name none, the error of
-- several keys where they name more than one, and else the chord of the one key with all the
-- modifiers that the parts name.
pub parse-verdict : (s : Text) → parse s ≡ verdict (keys (tokens_of s)) (all_mods 0 (tokens_of s))
unfolding parse tokens_of
parse-verdict s = parse_tokens-none 0 (map token_of (split 43 s))

token_of-lower : (part : Text) → token_of (to_ascii_lowercase part) ≡ token_of part
unfolding token_of
token_of-lower part = rw (trim-lower part, lowercase_idem (trim part)) refl

map-token_of-lower :
    (parts : List Text) → map token_of (map to_ascii_lowercase parts) ≡ map token_of parts
map-token_of-lower [] = refl
map-token_of-lower (p ∷ parts) = rw (token_of-lower p, map-token_of-lower parts) refl

pub parse-lower : (s : Text) → parse (to_ascii_lowercase s) ≡ parse s
unfolding parse
parse-lower s = rw (split-lower s, map-token_of-lower (split 43 s)) refl
