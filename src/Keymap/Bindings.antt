-- ===== src/Keymap/Bindings.antt =====
-- The default bindings, and the keymap that looks chords up (crates/core/src/keymap.rs).
use termherd.Prelude.{
  ℕ, ◌-◌, ◌≡◌, Bool, true, ◌&&◌, List, [], ◌∷◌, ◌++◌, Option, none, some, arith, ◌==◌,
  if◌then◌else◌, ok, err, Result,
}
use termherd.Text.{Text, text_eq, text_eq_sound, text_eq_refl}
use termherd.Text.Numbers.{decimal}
use termherd.Keymap.Chord.{KeyChord, chord, ChordError, parse}
use termherd.Keymap.Actions.{
  Action, activate_tab, action_eq, ActionDef, actions, chords_for, Platform,
}
use termherd.Keymap.Names.{resolve_spec, primary_mod}

-- `KeyChord: PartialEq`.
unfoldable pub chord_eq : KeyChord → KeyChord → Bool
chord_eq c d = text_eq c.key d.key && c.mods == d.mods

pub chord_eq_sound : (c d : KeyChord) → chord_eq c d ≡ true → c ≡ d
unfolding chord_eq
chord_eq_sound c d h = ground (arith, text_eq_sound c.key d.key)

pub chord_eq_refl : (c : KeyChord) → chord_eq c c ≡ true
unfolding chord_eq
chord_eq_refl c = ground (arith, text_eq_refl c.key)

-- `Result::ok`.
abbrev chord_of : Result ChordError KeyChord → Option KeyChord
chord_of (ok c) = some c
chord_of (err _) = none

unfoldable pub default_chord : Text → Platform → Option KeyChord
default_chord spec platform = chord_of (parse (resolve_spec spec platform))

abbrev pub Binding : Type 0
Binding = KeyChord × Action

-- The chords of one row, those that parse.
abbrev pub row_bindings : Platform → Action → List Text → List Binding
row_bindings platform action [] = []
row_bindings platform action (spec ∷ specs) =
    let rest = row_bindings platform action specs in
    elim (default_chord spec platform) [ none ↦ rest | some c ↦ (c, action) ∷ rest ]

abbrev pub table_bindings : Platform → List ActionDef → List Binding
table_bindings platform [] = []
table_bindings platform (d ∷ defs) =
    row_bindings platform d.action (chords_for d platform) ++ table_bindings platform defs

-- The number row: the digit from one, the tab's index from zero.
abbrev pub number_row : Platform → List ℕ → List Binding
number_row platform [] = []
number_row platform (n ∷ ns) =
    (chord (decimal n) (primary_mod platform), activate_tab (n - 1)) ∷ number_row platform ns

unfoldable pub default_bindings : Platform → List Binding
default_bindings platform =
    table_bindings platform actions ++ number_row platform (1 ∷ 2 ∷ 3 ∷ 4 ∷ 5 ∷ 6 ∷ 7 ∷ 8 ∷ 9 ∷ [])

pub record Keymap : Type 0 where
  pub bindings : List Binding

abbrev pub get : List Binding → KeyChord → Option Action
get [] c = none
get ((d, action) ∷ rest) c = if chord_eq d c then some action else get rest c

abbrev pub remove : List Binding → KeyChord → List Binding
remove [] c = []
remove ((d, action) ∷ rest) c =
    let kept = remove rest c in if chord_eq d c then kept else (d, action) ∷ kept

-- `HashMap::insert`: a chord has one action.
unfoldable pub insert : List Binding → KeyChord → Action → List Binding
insert bindings c action = (c, action) ∷ remove bindings c

-- `pairs.into_iter().collect()`: the last pair of a chord is the one kept.
abbrev pub collect : List Binding → List Binding → List Binding
collect bindings [] = bindings
collect bindings ((c, action) ∷ pairs) = collect (insert bindings c action) pairs

unfoldable pub defaults_for : Platform → Keymap
defaults_for platform = record { bindings = collect [] (default_bindings platform) }

-- `bindings.retain(|_, bound| *bound != action)`.
abbrev pub retain : List Binding → Action → List Binding
retain [] action = []
retain ((c, bound) ∷ rest) action =
    let kept = retain rest action in if action_eq bound action then kept else (c, bound) ∷ kept

abbrev pub insert_all : List Binding → Action → List KeyChord → List Binding
insert_all bindings action [] = bindings
insert_all bindings action (c ∷ chords) = insert_all (insert bindings c action) action chords

-- `Keymap::set`.
unfoldable pub set : Keymap → Action → List KeyChord → Keymap
set keymap action chords = record {
  bindings = insert_all (retain keymap.bindings action) action chords;
}

-- `Keymap::lookup`.
unfoldable pub lookup : Keymap → KeyChord → Option Action
lookup keymap c = get keymap.bindings c
