-- ===== src/Keymap/DefaultLaws.antt =====
-- The default chords of each platform (crates/core/src/keymap.rs).
use termherd.Prelude.{ℕ, ◌+◌, ◌≡◌, refl, true, List, [], ◌∷◌, arith, length}
use termherd.Text.{text_eq, is_whitespace, trim, trim_start, trim_end}
use termherd.Text.Ascii.{lower, split, strip_prefix}
use termherd.Text.Numbers.{decimal, replace}
use termherd.Keymap.Chord.{KeyChord, set_bit, read_token, token_of, parse_tokens, parse}
use termherd.Keymap.Actions.{ActionDef, actions, chords_for, Platform, mac_os, windows, linux}
use termherd.Keymap.Names.{resolve_spec, number_row_tabs}
use termherd.Keymap.Bindings.{chord_eq, default_chord, default_bindings, get, defaults_for, lookup}
use termherd.Keymap.BindingLaws.{is_distinct, get_unbound, get-collect}

-- The chords that the table lists for a platform.
abbrev pub spec_count : Platform → List ActionDef → ℕ
spec_count platform [] = 0
spec_count platform (d ∷ defs) = length (chords_for d platform) + spec_count platform defs

pub default_bindings-distinct :
    (platform : Platform) → is_distinct (default_bindings platform) ≡ true
unfolding default_bindings default_chord parse parse_tokens token_of read_token split trim
    trim_start trim_end is_whitespace lower text_eq set_bit replace resolve_spec strip_prefix
    decimal chord_eq
default_bindings-distinct mac_os = refl
default_bindings-distinct windows = refl
default_bindings-distinct linux = refl

length-default_bindings :
    (platform : Platform)
    → length (default_bindings platform) ≡ spec_count platform actions + number_row_tabs
unfolding default_bindings default_chord parse parse_tokens token_of read_token split trim
    trim_start trim_end is_whitespace lower text_eq set_bit replace resolve_spec strip_prefix
    decimal chord_eq
length-default_bindings mac_os = refl
length-default_bindings windows = refl
length-default_bindings linux = refl

-- On every platform no chord stands twice among the default bindings, each chord of the table
-- parses and is one of them, as is each of the number row's, and the default keymap gives every
-- chord the action that they list, or none.
pub lookup-defaults_for :
    (platform : Platform)
    → (is_distinct (default_bindings platform) ≡ true)
      × ((length (default_bindings platform) ≡ spec_count platform actions + number_row_tabs)
          × ((c : KeyChord) → lookup (defaults_for platform) c ≡ get (default_bindings platform) c))
unfolding lookup defaults_for
lookup-defaults_for platform =
    let once = default_bindings-distinct platform in
    (
      once,
      (
        length-default_bindings platform,
        λ c. ground (
          arith,
          get-collect [] (default_bindings platform) c once,
          get_unbound (default_bindings platform) c,
        ),
      ),
    )
