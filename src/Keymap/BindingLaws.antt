-- ===== src/Keymap/BindingLaws.antt =====
-- Looking chords up in a keymap that is set, and in the default one (crates/core/src/keymap.rs).
use termherd.Prelude.{
  ◌≡◌, ◌∙◌, refl, Bool, true, false, ◌&&◌, ◌||◌, not, List, [], ◌∷◌, Option, none, some, arith,
  if◌then◌else◌,
}
use termherd.Keymap.Chord.{KeyChord}
use termherd.Keymap.Actions.{Action, action_eq, Platform}
use termherd.Keymap.Bindings.{
  chord_eq, chord_eq_sound, chord_eq_refl, Binding, default_bindings, Keymap, get, remove, insert,
  collect, defaults_for, retain, insert_all, set, lookup,
}

-- A keymap as a function of the chord.
abbrev pub Meaning : Type 0
Meaning = KeyChord → Option Action

abbrev pub is_among : List KeyChord → KeyChord → Bool
is_among [] c = false
is_among (d ∷ chords) c = chord_eq d c || is_among chords c

-- An action takes exactly the chords given, and loses the others it had.
abbrev pub rebound : Meaning → Action → List KeyChord → Meaning
rebound f action chords c = if is_among chords c then some action else elim (f c) [
  | none ↦ none
  | some bound ↦ if action_eq bound action then none else some bound
]

-- No chord stands twice.
abbrev pub is_bound : List Binding → KeyChord → Bool
is_bound [] c = false
is_bound ((d, action) ∷ rest) c = chord_eq d c || is_bound rest c

abbrev pub is_distinct : List Binding → Bool
is_distinct [] = true
is_distinct ((c, action) ∷ rest) = not (is_bound rest c) && is_distinct rest

get-remove :
    (bs : List Binding) (gone c : KeyChord)
    → get (remove bs gone) c ≡ (if chord_eq gone c then none else get bs c)
get-remove [] gone c = ground arith
get-remove ((d, a) ∷ bs) gone c = ground (
  arith,
  get-remove bs gone c,
  chord_eq_sound d gone,
  chord_eq_sound gone c,
  chord_eq_sound d c,
  chord_eq_refl c,
  chord_eq_refl gone,
)

get-insert :
    (bs : List Binding) (d c : KeyChord) (action : Action)
    → get (insert bs d action) c ≡ (if chord_eq d c then some action else get bs c)
unfolding insert
get-insert bs d c action = ground (arith, get-remove bs d c)

get-insert_all :
    (bs : List Binding) (action : Action) (chords : List KeyChord) (c : KeyChord)
    → get (insert_all bs action chords) c ≡ (if is_among chords c then some action else get bs c)
get-insert_all bs action [] c = refl
get-insert_all bs action (d ∷ chords) c =
    ground (arith, get-insert_all (insert bs d action) action chords c, get-insert bs d c action)

pub get_unbound : (bs : List Binding) (c : KeyChord) → is_bound bs c ≡ false → get bs c ≡ none
get_unbound [] c h = refl
get_unbound ((d, a) ∷ bs) c h = ground (arith, get_unbound bs c)

is_bound-retain :
    (bs : List Binding) (action : Action) (c : KeyChord)
    → is_bound bs c ≡ false
    → is_bound (retain bs action) c ≡ false
is_bound-retain [] action c h = refl
is_bound-retain ((d, a) ∷ bs) action c h = ground (arith, is_bound-retain bs action c)

get-retain :
    (bs : List Binding) (action : Action) (c : KeyChord)
    → is_distinct bs ≡ true
    → get (retain bs action) c ≡ rebound (get bs) action [] c
get-retain [] action c h = refl
get-retain ((d, a) ∷ bs) action c h =
    ground (arith, get-retain bs action c, chord_eq_sound d c, get_unbound bs d)

is_bound-remove :
    (bs : List Binding) (gone c : KeyChord)
    → is_bound (remove bs gone) c ≡ (not (chord_eq gone c) && is_bound bs c)
is_bound-remove [] gone c = ground arith
is_bound-remove ((d, a) ∷ bs) gone c = ground (
  arith,
  is_bound-remove bs gone c,
  chord_eq_sound d gone,
  chord_eq_sound gone c,
  chord_eq_sound d c,
  chord_eq_refl c,
  chord_eq_refl gone,
)

is_distinct-remove :
    (bs : List Binding) (gone : KeyChord)
    → is_distinct bs ≡ true
    → is_distinct (remove bs gone) ≡ true
is_distinct-remove [] gone h = refl
is_distinct-remove ((d, a) ∷ bs) gone h =
    ground (arith, is_distinct-remove bs gone, is_bound-remove bs gone d)

is_distinct-insert :
    (bs : List Binding) (c : KeyChord) (action : Action)
    → is_distinct bs ≡ true
    → is_distinct (insert bs c action) ≡ true
unfolding insert
is_distinct-insert bs c action h =
    ground (arith, is_distinct-remove bs c h, is_bound-remove bs c c, chord_eq_refl c)

is_distinct-insert_all :
    (bs : List Binding) (action : Action) (chords : List KeyChord)
    → is_distinct bs ≡ true
    → is_distinct (insert_all bs action chords) ≡ true
is_distinct-insert_all bs action [] h = h
is_distinct-insert_all bs action (c ∷ chords) h =
    is_distinct-insert_all (insert bs c action) action chords (is_distinct-insert bs c action h)

is_distinct-retain :
    (bs : List Binding) (action : Action)
    → is_distinct bs ≡ true
    → is_distinct (retain bs action) ≡ true
is_distinct-retain [] action h = refl
is_distinct-retain ((d, a) ∷ bs) action h =
    ground (arith, is_distinct-retain bs action, is_bound-retain bs action d)

is_distinct-collect :
    (bs pairs : List Binding) → is_distinct bs ≡ true → is_distinct (collect bs pairs) ≡ true
is_distinct-collect bs [] h = h
is_distinct-collect bs ((c, a) ∷ pairs) h =
    is_distinct-collect (insert bs c a) pairs (is_distinct-insert bs c a h)

abbrev pub IsMap : Keymap → Type 0
IsMap keymap = is_distinct keymap.bindings ≡ true

lookup-set :
    (keymap : Keymap) (action : Action) (chords : List KeyChord) (c : KeyChord)
    → IsMap keymap
    → lookup (set keymap action chords) c ≡ rebound (lookup keymap) action chords c
unfolding lookup set
lookup-set keymap action chords c h = ground (
  arith,
  get-insert_all (retain keymap.bindings action) action chords c,
  get-retain keymap.bindings action c h,
)

set-IsMap :
    (keymap : Keymap) (action : Action) (chords : List KeyChord)
    → IsMap keymap
    → IsMap (set keymap action chords)
unfolding set
set-IsMap keymap action chords h =
    is_distinct-insert_all (retain keymap.bindings action) action chords
      (is_distinct-retain keymap.bindings action h)

-- The overrides of `settings.json`, applied in turn, and what they do to the meaning.
abbrev pub Override : Type 0
Override = Action × List KeyChord

abbrev pub set_all : Keymap → List Override → Keymap
set_all keymap [] = keymap
set_all keymap ((action, chords) ∷ overrides) = set_all (set keymap action chords) overrides

abbrev pub rebound_all : Meaning → List Override → Meaning
rebound_all f [] = f
rebound_all f ((action, chords) ∷ overrides) = rebound_all (rebound f action chords) overrides

rebound_all-ext :
    (f g : Meaning) (overrides : List Override)
    → ((c : KeyChord) → f c ≡ g c)
    → (c : KeyChord) → rebound_all f overrides c ≡ rebound_all g overrides c
rebound_all-ext f g [] h c = h c
rebound_all-ext f g ((action, chords) ∷ overrides) h c =
    rebound_all-ext (rebound f action chords) (rebound g action chords) overrides
      (λ d. rw (h d) refl) c

-- In a keymap where no chord stands twice, after any list of overrides, looking a chord up gives
-- what replaying the overrides on the keymap as a function gives, where an override gives its
-- action exactly its chords and takes the action's other chords away.
pub lookup-set_all :
    (keymap : Keymap) (overrides : List Override) (c : KeyChord)
    → IsMap keymap
    → lookup (set_all keymap overrides) c ≡ rebound_all (lookup keymap) overrides c
lookup-set_all keymap [] c h = refl
lookup-set_all keymap ((action, chords) ∷ overrides) c h =
    lookup-set_all (set keymap action chords) overrides c (set-IsMap keymap action chords h)
    ∙ rebound_all-ext (lookup (set keymap action chords)) (rebound (lookup keymap) action chords)
        overrides (λ d. lookup-set keymap action chords d h) c

pub defaults_for-IsMap : (platform : Platform) → IsMap (defaults_for platform)
unfolding defaults_for
defaults_for-IsMap platform = is_distinct-collect [] (default_bindings platform) refl

pub get-collect :
    (bs pairs : List Binding) (c : KeyChord)
    → is_distinct pairs ≡ true
    → get (collect bs pairs) c ≡ (if is_bound pairs c then get pairs c else get bs c)
get-collect bs [] c h = refl
get-collect bs ((d, a) ∷ pairs) c h =
    ground (arith, get-collect (insert bs d a) pairs c, get-insert bs d c a, chord_eq_sound d c)
