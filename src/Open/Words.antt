-- ===== src/Open/Words.antt =====
-- How a word of the open command is parsed (crates/core/src/open.rs).
use termherd.Prelude.{
  ℕ, zero, suc, ◌≡◌, sym, subst, ◌<◌, inl, inr, refl, Bool, true, false, [], ◌∷◌, ◌++◌, map, Option,
  none, some, ◌==◌, length, arith, Result, ok, err, Option-cases, length-append,
}
use termherd.Text.{Text, text_eq_sound}
use termherd.Text.Ascii.{codes}
use termherd.Text.Words.{concat}
use termherd.Open.{
  Slot, path_slot, line_slot, col_slot, named, Segment, literal, slot, Word, OpenCommandError,
  cut_at, cut_step, with_literal, prepend, parse_round, parse_rounds, parse_rest, parse_word,
}

cut_step_parts :
    (here : Bool) (c d : ℕ) (ds before after : Text) (later : Option (Text × Text))
    → (here ≡ true → d ≡ c)
    → ((b a : Text) → later ≡ some (b, a) → ds ≡ b ++ (c ∷ a))
    → cut_step here d ds later ≡ some (before, after)
    → d ∷ ds ≡ before ++ (c ∷ after)
cut_step_parts true c d ds before after later same ih h = ground (arith, same refl, h)
cut_step_parts false c d ds before after none same ih h = absurd (ground arith)
cut_step_parts false c d ds before after (some (b, a)) same ih h = ground (arith, ih b a refl, h)

pub cut_at_parts :
    (c : ℕ) (s before after : Text) → cut_at c s ≡ some (before, after) → s ≡ before ++ (c ∷ after)
unfolding cut_at
cut_at_parts c [] before after h = absurd (ground arith)
cut_at_parts c (d ∷ ds) before after h =
    cut_step_parts (d == c) c d ds before after (cut_at c ds) (λ e. ground (arith, e))
      (cut_at_parts c ds) h

tail_shorter :
    (rest before after name tail : Text)
    → cut_at 123 rest ≡ some (before, after)
    → cut_at 125 after ≡ some (name, tail)
    → length tail < length rest
tail_shorter rest before after name tail h k =
    let e = cut_at_parts 123 rest before after h in
    let f = cut_at_parts 125 after name tail k in
    rw (e, f)
      (omega (
        arith,
        length-append before (123 ∷ (name ++ (125 ∷ tail))),
        length-append name (125 ∷ tail),
      ))

-- A round asks the rest of the loop only about shorter text.
parse_round-ext :
    (word rest : Text) (f g : Text → Result OpenCommandError Word)
    → ((tail : Text) → length tail < length rest → f tail ≡ g tail)
    → parse_round word rest f ≡ parse_round word rest g
unfolding parse_round
parse_round-ext word rest f g h = elim (Option-cases (cut_at 123 rest)) [
  | inl e ↦ rw (e, parse_round) refl
  | inr ((before, after), e) ↦ elim (Option-cases (cut_at 125 after)) [
    | inl k ↦ rw (e, parse_round) (rw k refl)
    | inr ((name, tail), k) ↦
        let shorter = tail_shorter rest before after name tail e k in
        elim (Option-cases (named name)) [
          | inl n ↦ rw (e, parse_round) (rw k (rw n refl))
          | inr (s, n) ↦ rw (e, parse_round) (rw k (rw n (rw (h tail shorter) refl)))
        ]
  ]
]

parse_rounds-enough :
    (f g : ℕ) (word rest : Text)
    → length rest < f
    → length rest < g
    → parse_rounds f word rest ≡ parse_rounds g word rest
parse_rounds-enough zero g word rest h k = absurd (omega arith)
parse_rounds-enough (suc f) zero word rest h k = absurd (omega arith)
parse_rounds-enough (suc f) (suc g) word rest h k =
    parse_round-ext word rest (parse_rounds f word) (parse_rounds g word)
      (λ tail l. parse_rounds-enough f g word tail (omega arith) (omega arith))

-- The loop that parses a word, run on as much fuel as what is left has characters and one, is one
-- round followed by the loop itself, run likewise, on what the round leaves.
pub parse_rest-parse_round :
    (word rest : Text) → parse_rest word rest ≡ parse_round word rest (parse_rest word)
unfolding parse_rest
parse_rest-parse_round word rest =
    parse_round-ext word rest (parse_rounds (length rest) word) (parse_rest word)
      (λ tail l. parse_rounds-enough (length rest) (suc (length tail)) word tail l (omega arith))

abbrev pub slot_name : Slot → Text
slot_name path_slot = codes "path"
slot_name line_slot = codes "line"
slot_name col_slot = codes "col"

-- The text that a segment is read from.
abbrev pub source : Segment → Text
source (literal text) = text
source (slot s) = 123 ∷ (slot_name s ++ (125 ∷ []))

slot_name-named : (name : Text) (s : Slot) → named name ≡ some s → slot_name s ≡ name
unfolding named
slot_name-named name s h = ground (
  arith,
  text_eq_sound name (codes "path"),
  text_eq_sound name (codes "line"),
  text_eq_sound name (codes "col"),
)

concat-with_literal :
    (text : Text) (segments : Word)
    → concat (map source (with_literal text segments)) ≡ text ++ concat (map source segments)
concat-with_literal [] segments = refl
concat-with_literal (c ∷ cs) segments = refl

abbrev pub Spells : Text → Result OpenCommandError Word → Type 0
Spells rest (ok segments) = concat (map source segments) ≡ rest
Spells rest (err _) = Unit

pub append_assoc : (s t u : Text) → (s ++ t) ++ u ≡ s ++ (t ++ u)
append_assoc [] t u = refl
append_assoc (c ∷ s) t u = rw (append_assoc s t u) refl

append_nil : (s : Text) → s ++ [] ≡ s
append_nil [] = refl
append_nil (c ∷ s) = rw (append_nil s) refl

last_literal : (rest : Text) → Spells rest (ok (with_literal rest []))
last_literal rest = rw (concat-with_literal rest []) (append_nil rest)

prepend-Spells :
    (before name tail : Text) (s : Slot) (r : Result OpenCommandError Word)
    → slot_name s ≡ name
    → Spells tail r
    → Spells (before ++ (123 ∷ (name ++ (125 ∷ tail)))) (prepend before s r)
prepend-Spells before name tail s (err e) n h = tt
prepend-Spells before name tail s (ok segments) n h =
    rw
      (
        concat-with_literal before (slot s ∷ segments),
        n,
        append_assoc name (125 ∷ []) (concat (map source segments)),
        h,
      )
      refl

parse_rounds-Spells :
    (fuel : ℕ) (word rest : Text) → length rest < fuel → Spells rest (parse_rounds fuel word rest)
unfolding parse_round
parse_rounds-Spells zero word rest h = absurd (omega arith)
parse_rounds-Spells (suc fuel) word rest h = elim (Option-cases (cut_at 123 rest)) [
  | inl e ↦ rw (e, parse_round) (last_literal rest)
  | inr ((before, after), e) ↦ elim (Option-cases (cut_at 125 after)) [
    | inl k ↦ rw (e, parse_round) (rw k tt)
    | inr ((name, tail), k) ↦ elim (Option-cases (named name)) [
      | inl n ↦ rw (e, parse_round) (rw k (rw n tt))
      | inr (s, n) ↦
          let shorter = tail_shorter rest before after name tail e k in
          let whole =
            subst (λ a. rest ≡ before ++ (123 ∷ a)) (cut_at_parts 125 after name tail k)
              (cut_at_parts 123 rest before after e) in
          let spelt =
            prepend-Spells before name tail s (parse_rounds fuel word tail)
              (slot_name-named name s n) (parse_rounds-Spells fuel word tail (omega arith)) in
          rw (e, parse_round)
            (rw k (
              rw n (
                subst (λ r. Spells r (prepend before s (parse_rounds fuel word tail))) (sym whole)
                  spelt)))
    ]
  ]
]

-- A word that parses is spelt by its segments, in their order.
pub parse_word-source :
    (word : Text) (segments : Word)
    → parse_word word ≡ ok segments
    → concat (map source segments) ≡ word
unfolding parse_rest
parse_word-source word segments h =
    subst (Spells word) h (parse_rounds-Spells (suc (length word)) word word (omega arith))
