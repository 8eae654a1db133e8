-- ===== src/Open/Safety.antt =====
-- What a file that is opened can and cannot change of the command (crates/core/src/open.rs).
use termherd.Prelude.{
  ℕ, take, suc, ◌≡◌, ◌∙◌, sym, ap, subst, ◌⊎◌, inl, inr, refl, true, false, List, [], ◌∷◌, ◌++◌,
  map, Option, length, arith, any, Result, ok, err, Bool-cases, unwrap_or,
}
use termherd.Text.{Text, trim, is_empty}
use termherd.Text.Words.{all, concat}
use termherd.Open.{
  path_slot, line_slot, col_slot, literal, slot, Word, OpenCommandError, parse_word, is_literal,
  takes_the_path, render, OpenCommand, OpenTarget, editor, parse_words, cons_word, check_args,
  check_program, from_words, resolve, no_position,
}
use termherd.Text.Numbers.{decimal}
use termherd.Open.Words.{append_assoc, source, parse_word-source}

abbrev pub word_sources : List Word → List Text
word_sources args = map (λ word. concat (map source word)) args

parse_words-sources :
    (words : List Text) (args : List Word) → parse_words words ≡ ok args → word_sources args ≡ words
parse_words-sources [] args h =
    let e : [] ≡ args = ground (arith, h) in subst (λ x. word_sources x ≡ []) e refl
parse_words-sources (word ∷ words) args h =
    joined (parse_word word) (parse_words words) (parse_word-source word)
      (parse_words-sources words) h
  where
    joined :
        (r : Result OpenCommandError Word) (rs : Result OpenCommandError (List Word))
        → ((segments : Word) → r ≡ ok segments → concat (map source segments) ≡ word)
        → ((rest : List Word) → rs ≡ ok rest → word_sources rest ≡ words)
        → cons_word r rs ≡ ok args
        → word_sources args ≡ word ∷ words
    joined (err e) rs f g k = absurd (ground arith)
    joined (ok w) (err e) f g k = absurd (ground arith)
    joined (ok w) (ok ws) f g k =
        let e : w ∷ ws ≡ args = ground arith in
        subst (λ x. word_sources x ≡ word ∷ words) e (rw (f w refl, g ws refl) refl)

-- What a command that is accepted satisfies, of the words it was made of.
pub record IsCommand (words : List Text) (command : OpenCommand) : Type 0 where
  -- The program and the arguments are the words, one for one.
  pub spelt : command.program ∷ word_sources command.args ≡ words
  pub named_program : is_empty (trim command.program) ≡ false
  -- The program holds no placeholder.
  pub plain_program :
      (segments : Word) × ((parse_word command.program ≡ ok segments)
        × (all is_literal segments ≡ true))
  pub takes_path : any takes_the_path command.args ≡ true

check_program-IsCommand :
    (program : Text) (words : List Text) (r : Result OpenCommandError Word) (command : OpenCommand)
    → parse_word program ≡ r
    → is_empty (trim program) ≡ false
    → check_program program words r ≡ ok command
    → IsCommand (program ∷ words) command
check_program-IsCommand program words (err e) command p n h = absurd (ground arith)
check_program-IsCommand program words (ok segments) command p n h =
    elim (Bool-cases (all is_literal segments)) [
      | inr e ↦ absurd (ground (arith, e, h))
      | inl e ↦
          let k : check_args program (parse_words words) ≡ ok command = ground (arith, e, h) in
          checked e (parse_words words) (parse_words-sources words) k
    ]
  where
    checked :
        (all is_literal segments ≡ true)
        → (rs : Result OpenCommandError (List Word))
        → ((args : List Word) → rs ≡ ok args → word_sources args ≡ words)
        → check_args program rs ≡ ok command
        → IsCommand (program ∷ words) command
    checked plain (err e) f k = absurd (ground arith)
    checked plain (ok args) f k = elim (Bool-cases (any takes_the_path args)) [
      | inr t ↦ absurd (ground (arith, t, k))
      | inl t ↦
          let e : record { program = program; args = args } ≡ command = ground (arith, t, k) in
          subst (IsCommand (program ∷ words)) e (record {
            spelt = rw (f args refl) refl;
            named_program = n;
            plain_program = (segments, (p, plain));
            takes_path = t;
          })
    ]

pub from_words-IsCommand :
    (words : List Text) (command : OpenCommand)
    → from_words words ≡ ok command
    → IsCommand words command
unfolding from_words
from_words-IsCommand [] command h = absurd (ground arith)
from_words-IsCommand (program ∷ words) command h = elim (Bool-cases (is_empty (trim program))) [
  | inl e ↦ absurd (ground (arith, e, h))
  | inr e ↦
      check_program-IsCommand program words (parse_word program) command refl e
        (ground (arith, e, h))
]

abbrev pub target_program : OpenTarget → Text
target_program (editor program args) = program
target_program _ = []

abbrev pub target_args : OpenTarget → List Text
target_args (editor program args) = args
target_args _ = []

-- `t` stands whole somewhere in `s`.
abbrev pub Holds : Text → Text → Type 0
Holds s t = (before : Text) × ((after : Text) × (s ≡ before ++ (t ++ after)))

Holds-append : (u s t : Text) → Holds s t → Holds (u ++ s) t
Holds-append u s t (before, (after, e)) =
    (u ++ before, (after, rw e (sym (append_assoc u before (t ++ after)))))

render-path :
    (word : Word) (path : Text) (line col : ℕ)
    → takes_the_path word ≡ true
    → Holds (render word path line col) path
unfolding render
render-path [] path line col h = absurd (ground arith)
render-path (slot path_slot ∷ word) path line col h = ([], (render word path line col, refl))
render-path (slot line_slot ∷ word) path line col h =
    Holds-append (decimal line) (render word path line col) path (render-path word path line col h)
render-path (slot col_slot ∷ word) path line col h =
    Holds-append (decimal col) (render word path line col) path (render-path word path line col h)
render-path (literal text ∷ word) path line col h =
    Holds-append text (render word path line col) path (render-path word path line col h)

-- One of the texts holds `t`.
abbrev pub AnyHolds : List Text → Text → Type 0
AnyHolds [] t = ⊥
AnyHolds (s ∷ ss) t = Holds s t ⊎ AnyHolds ss t

render-AnyHolds :
    (args : List Word) (path : Text) (line col : ℕ)
    → any takes_the_path args ≡ true
    → AnyHolds (map (λ word. render word path line col) args) path
render-AnyHolds [] path line col h = absurd (ground arith)
render-AnyHolds (word ∷ args) path line col h = elim (Bool-cases (takes_the_path word)) [
  | inl e ↦ inl (render-path word path line col e)
  | inr e ↦ inr (render-AnyHolds args path line col (ground (arith, e, h)))
]

length-map : {A B : Type 0} → (f : A → B) (xs : List A) → length (map f xs) ≡ length xs
length-map f [] = refl
length-map f (x ∷ xs) = ap suc (length-map f xs)

-- Where an open command is accepted, and whatever file, line and column it is resolved for, the
-- program is its first word, its arguments are as many as its other words, and one of them holds
-- the path whole.
pub resolve-from_words :
    (words : List Text) (command : OpenCommand) (path : Text) (line col : Option ℕ)
    → from_words words ≡ ok command
    → (target_program (resolve command path line col) ∷ [] ≡ take 1 words)
      × ((suc (length (target_args (resolve command path line col))) ≡ length words)
          × AnyHolds (target_args (resolve command path line col)) path)
unfolding resolve
resolve-from_words words command path line col h =
    let ok_command = from_words-IsCommand words command h in
    let line = unwrap_or line no_position in
    let col = unwrap_or col no_position in
    (
      subst (λ ws. command.program ∷ [] ≡ take 1 ws) ok_command.spelt refl,
      (
        subst
            (λ ws. suc (length (map (λ word. render word path line col) command.args)) ≡ length ws)
            ok_command.spelt
            (ap suc (
              length-map (λ word. render word path line col) command.args
              ∙ sym (length-map (λ word. concat (map source word)) command.args))),
        render-AnyHolds command.args path line col ok_command.takes_path,
      ),
    )
