-- ===== src/Claude/Typed.antt =====
-- What reaches Claude's prompt: one line of typeable characters, then Enter
-- (crates/core/src/claude_command.rs).
use termherd.Prelude.{
  ℕ, ◌≡◌, subst, ◌≢◌, refl, Bool, true, false, ◌||◌, ◌&&◌, not, List, [], ◌∷◌, map, some, arith,
  leb, ◌==◌, if◌then◌else◌, take, Result, ok, err, Bool-cases, inl, inr,
}
use termherd.Text.{Text, is_whitespace, is_empty}
use termherd.Text.Ascii.{codes}
use termherd.Text.Words.{
  is_control, filter, all, concat, spaced_words, split_whitespace, trim_end_matches, last, utf8,
  as_bytes,
}
use termherd.Text.WordLaws.{
  all-append, all-concat-take, all-trim_end_matches, all-join, all-spaced_words, all-filter,
  all_weaken, last-trim_end_matches,
}
use termherd.Tab.{ClaudeColor, red, blue, green, yellow, purple, orange, pink, cyan, default}
use termherd.Claude.Color.{color_name}
use termherd.Claude.Command.{
  max_argument_graphemes, empty_argument, CommandError, CommandArgument, ClaudeCommand, rename_to,
  color_to, desktop, breaks_line, is_invisible_format, space_breaks, is_tail, collapsed,
  new_argument, rename, line, keystrokes,
}

-- A character that an argument may hold: of the whitespace, only the space.
unfoldable pub is_typeable : ℕ → Bool
is_typeable c =
    not (breaks_line c) && not (is_invisible_format c) && (not (is_whitespace c) || c == 32)

-- The characters of a word.
unfoldable is_word : ℕ → Bool
is_word c = not (breaks_line c) && not (is_invisible_format c) && not (is_whitespace c)

unfoldable is_safe : ℕ → Bool
is_safe c = not (breaks_line c) && not (is_invisible_format c)

is_safe-space_breaks : (c : ℕ) → is_invisible_format c ≡ false → is_safe (space_breaks c) ≡ true
unfolding is_safe space_breaks
is_safe-space_breaks c h = elim (Bool-cases (breaks_line c)) [
  | inl e ↦ rw e (unfold breaks_line is_invisible_format is_control in refl)
  | inr e ↦ rw e (rw (e, h) refl)
]

all-space_breaks :
    (raw : Text)
    → all is_safe (map space_breaks (filter (λ c. not (is_invisible_format c)) raw)) ≡ true
all-space_breaks [] = refl
all-space_breaks (c ∷ raw) = elim (Bool-cases (is_invisible_format c)) [
  | inl e ↦ rw e (all-space_breaks raw)
  | inr e ↦ rw e (ground (arith, is_safe-space_breaks c e, all-space_breaks raw))
]

is_typeable_of_is_safe : (c : ℕ) → is_safe c ≡ true → is_whitespace c ≡ false → is_typeable c ≡ true
unfolding is_typeable is_safe
is_typeable_of_is_safe c h k = ground arith

all-collapsed : (raw : Text) → all is_typeable (collapsed raw) ≡ true
unfolding collapsed split_whitespace
all-collapsed raw =
    let spaced = map space_breaks (filter (λ c. not (is_invisible_format c)) raw) in
    all-join is_typeable (filter (λ w. not (is_empty w)) (spaced_words spaced))
      (unfold is_typeable breaks_line is_invisible_format is_control is_whitespace in refl)
      (all-filter is_typeable (all is_typeable) (λ w. not (is_empty w)) (spaced_words spaced)
        (all-spaced_words is_typeable is_safe spaced is_typeable_of_is_safe (all-space_breaks raw)))

-- The clusters of a text are its characters, cut.
abbrev pub Cuts : (Text → List Text) → Type 0
Cuts graphemes = (s : Text) → concat (graphemes s) ≡ s

abbrev pub IsTypeable : CommandArgument → Type 0
IsTypeable argument =
    (argument.text ≢ [])
    × ((all is_typeable argument.text ≡ true)
        × ((c : ℕ) → last argument.text ≡ some c → is_tail c ≡ false))

pub new_argument-IsTypeable :
    (graphemes : Text → List Text) (raw : Text) (argument : CommandArgument)
    → Cuts graphemes
    → new_argument graphemes raw ≡ ok argument
    → IsTypeable argument
unfolding new_argument
new_argument-IsTypeable graphemes raw argument cuts h =
    let cut = concat (take max_argument_graphemes (graphemes (collapsed raw))) in
    let safe : all is_typeable cut ≡ true =
      all-concat-take is_typeable max_argument_graphemes (graphemes (collapsed raw))
        (rw (cuts (collapsed raw)) (all-collapsed raw)) in
    checked (trim_end_matches is_tail cut) h (all-trim_end_matches is_typeable is_tail cut safe)
      (last-trim_end_matches is_tail cut)
  where
    checked :
        (clean : Text)
        → (if is_empty clean then err empty_argument else ok (record { text = clean }))
          ≡ ok argument
        → all is_typeable clean ≡ true
        → ((c : ℕ) → last clean ≡ some c → is_tail c ≡ false)
        → IsTypeable argument
    checked [] h a l = absurd (ground arith)
    checked (c ∷ cs) h a l =
        let e : record { text = c ∷ cs } ≡ argument = ground arith in
        subst IsTypeable e ((λ k. absurd (ground arith)), (a, l))

-- A command as the application builds it: an argument comes from `CommandArgument::new`.
abbrev pub IsBuilt : ClaudeCommand → Type 0
IsBuilt (rename_to argument) = IsTypeable argument
IsBuilt _ = Unit

pub rename-IsBuilt :
    (graphemes : Text → List Text) (name : Text) (command : ClaudeCommand)
    → Cuts graphemes
    → rename graphemes name ≡ ok command
    → IsBuilt command
unfolding rename
rename-IsBuilt graphemes name command cuts h =
    built (new_argument graphemes name) (λ a e. new_argument-IsTypeable graphemes name a cuts e) h
  where
    built :
        (r : Result CommandError CommandArgument)
        → ((a : CommandArgument) → r ≡ ok a → IsTypeable a)
        → (elim r as (λ x. Result CommandError ClaudeCommand) [
          | err e ↦ err e
          | ok argument ↦ ok (rename_to argument)
        ])
          ≡ ok command
        → IsBuilt command
    built (err e) f k = absurd (ground arith)
    built (ok a) f k = let e : rename_to a ≡ command = ground arith in subst IsBuilt e (f a refl)

-- A byte that a terminal prompt takes as text.
abbrev pub is_typed : ℕ → Bool
is_typed b = leb 32 b && not (b == 127)

is_typed-utf8 : (c : ℕ) → is_control c ≡ false → all is_typed (utf8 c) ≡ true
unfolding is_control utf8
is_typed-utf8 c h = ground arith

is_typed-as_bytes :
    (s : Text) → all (λ c. not (is_control c)) s ≡ true → all is_typed (as_bytes s) ≡ true
is_typed-as_bytes [] h = refl
is_typed-as_bytes (c ∷ s) h =
    all-append is_typed (utf8 c) (as_bytes s) (is_typed-utf8 c (ground arith))
      (is_typed-as_bytes s (ground arith))

is_typeable_no_control : (c : ℕ) → is_typeable c ≡ true → not (is_control c) ≡ true
unfolding is_typeable breaks_line
is_typeable_no_control c h = ground arith

color_name_no_control :
    (color : ClaudeColor) → all (λ c. not (is_control c)) (color_name color) ≡ true
unfolding is_control
color_name_no_control red = refl
color_name_no_control blue = refl
color_name_no_control green = refl
color_name_no_control yellow = refl
color_name_no_control purple = refl
color_name_no_control orange = refl
color_name_no_control pink = refl
color_name_no_control cyan = refl
color_name_no_control default = refl

line_no_control :
    (command : ClaudeCommand)
    → IsBuilt command
    → all (λ c. not (is_control c)) (line command) ≡ true
unfolding line is_control
line_no_control (rename_to argument) h =
    all-append (λ c. not (is_control c)) (codes "/rename ") argument.text refl
      (all_weaken is_typeable (λ c. not (is_control c)) argument.text is_typeable_no_control h.1.0)
line_no_control (color_to color) h =
    all-append (λ c. not (is_control c)) (codes "/color ") (color_name color) refl
      (color_name_no_control color)
line_no_control desktop h = refl

pub keystrokes_typed :
    (command : ClaudeCommand)
    → IsBuilt command
    → (body : List ℕ) × ((keystrokes command ≡ (0x15 ∷ body) ∷ (13 ∷ []) ∷ [])
        × (all is_typed body ≡ true))
unfolding keystrokes
keystrokes_typed command h =
    (as_bytes (line command), (refl, is_typed-as_bytes (line command) (line_no_control command h)))

-- Where the clusters of a text are its characters, and a rename command is built of a name, its
-- argument is not empty, holds no control, line-breaking or invisible formatting character and no
-- whitespace but the space, and ends on neither a backslash nor whitespace; its keystrokes are
-- Ctrl+U with bytes that are all printable, then Enter alone.
pub keystrokes-rename :
    (graphemes : Text → List Text) (name : Text) (command : ClaudeCommand)
    → Cuts graphemes
    → rename graphemes name ≡ ok command
    → IsBuilt command
      × ((body : List ℕ) × ((keystrokes command ≡ (0x15 ∷ body) ∷ (13 ∷ []) ∷ [])
            × (all is_typed body ≡ true)))
keystrokes-rename graphemes name command cuts h =
    let built = rename-IsBuilt graphemes name command cuts h in
    (built, keystrokes_typed command built)
