-- ===== src/Keymap/Chord/Order.antt =====
-- The order in which a chord names its key and modifiers does not matter.
use mathlib.Core.List.{Permᴰ}
use termherd.Prelude.{
  ℕ, ◌≡◌, ◌∙◌, sym, inl, inr, refl, List, [], ◌∷◌, map, Bool, true, false, if◌then◌else◌, Result,
  ok, err,
}
use termherd.Text.{Text, is_empty, text_eq, trim}
use termherd.Text.Ascii.{codes, join, to_ascii_lowercase}
use termherd.Text.Laws.{AllFree, split-join}
use termherd.TextMap.{member}
use termherd.Keymap.Chord.{
  ctrl_names, alt_names, shift_names, cmd_names, KeyChord, ChordError, no_key, multiple_keys,
  set_bit, Token, blank, modifier, key_token, read_token, token_of, parse,
}
use termherd.Keymap.Chord.Masks.{IsMask, set_bit_comm}
use termherd.Keymap.Chord.Reading.{keys, all_mods, verdict, tokens_of, parse-verdict}

-- How many keys a list of tokens names, and which if it is one.
data Keys : Type 0 where
  nothing : Keys
  one : Text → Keys
  several : Keys

abbrev add_key : Text → Keys → Keys
add_key k nothing = one k
add_key k (one _) = several
add_key k several = several

abbrev add_token : Token → Keys → Keys
add_token blank s = s
add_token (modifier bit) s = s
add_token (key_token k) s = add_key k s

abbrev count : List Token → Keys
count [] = nothing
count (t ∷ tokens) = add_token t (count tokens)

abbrev settle : Keys → ℕ → Result ChordError KeyChord
settle nothing mods = err no_key
settle (one key) mods = ok (record { key = key; mods = mods })
settle several mods = err multiple_keys

abbrev count_keys : List Text → Keys
count_keys [] = nothing
count_keys (k ∷ ks) = add_key k (count_keys ks)

add_token_comm :
    (t u : Token) (s : Keys) → add_token t (add_token u s) ≡ add_token u (add_token t s)
add_token_comm blank u s = refl
add_token_comm (modifier bit) u s = refl
add_token_comm (key_token k) blank s = refl
add_token_comm (key_token k) (modifier bit) s = refl
add_token_comm (key_token k) (key_token l) nothing = refl
add_token_comm (key_token k) (key_token l) (one _) = refl
add_token_comm (key_token k) (key_token l) several = refl

count-keys : (tokens : List Token) → count_keys (keys tokens) ≡ count tokens
unfolding keys
count-keys [] = refl
count-keys (blank ∷ tokens) = count-keys tokens
count-keys (modifier bit ∷ tokens) = count-keys tokens
count-keys (key_token k ∷ tokens) = rw (count-keys tokens) refl

settle-verdict : (ks : List Text) (mods : ℕ) → verdict ks mods ≡ settle (count_keys ks) mods
settle-verdict [] mods = refl
settle-verdict (k ∷ []) mods = refl
settle-verdict (k ∷ l ∷ ks) mods =
    elim (count_keys ks) as (λ s. err multiple_keys ≡ settle (add_key k (add_key l s)) mods) [
      | nothing ↦ refl
      | one _ ↦ refl
      | several ↦ refl
    ]

-- The tokens of a text set only the four masks.
abbrev Masked : Token → Type 0
Masked (modifier bit) = IsMask bit
Masked _ = Unit

choice-Masked :
    (a b c d : Bool) (t : Text)
    → Masked (
        if a
        then modifier 1
        else if b
        then modifier 2
        else if c
        then modifier 4
        else if d
        then modifier 8
        else key_token t)
unfolding IsMask
choice-Masked true b c d t = inl refl
choice-Masked false true c d t = inr (inl refl)
choice-Masked false false true d t = inr (inr (inl refl))
choice-Masked false false false true t = inr (inr (inr refl))
choice-Masked false false false false t = tt

read_token-Masked : (t : Text) → Masked (read_token t)
unfolding read_token
read_token-Masked t =
    choice-Masked (member ctrl_names t) (member alt_names t) (member shift_names t)
      (member cmd_names t) t

if-Masked : (b : Bool) (t : Token) → Masked t → Masked (if b then blank else t)
if-Masked true t h = tt
if-Masked false t h = h

token_of-Masked : (part : Text) → Masked (token_of part)
unfolding token_of
token_of-Masked part =
    let token = to_ascii_lowercase (trim part) in
    let named = if text_eq token (codes "plus") then codes "+" else token in
    if-Masked (is_empty token) (read_token named) (read_token-Masked named)

all_mods_comm :
    (m : ℕ) (t u : Token) (tokens : List Token)
    → Masked t
    → Masked u
    → all_mods m (t ∷ u ∷ tokens) ≡ all_mods m (u ∷ t ∷ tokens)
unfolding all_mods
all_mods_comm m (modifier a) (modifier b) tokens h k = rw (set_bit_comm m a b h k) refl
all_mods_comm m (modifier a) blank tokens h k = refl
all_mods_comm m (modifier a) (key_token _) tokens h k = refl
all_mods_comm m blank (modifier b) tokens h k = refl
all_mods_comm m blank blank tokens h k = refl
all_mods_comm m blank (key_token _) tokens h k = refl
all_mods_comm m (key_token _) (modifier b) tokens h k = refl
all_mods_comm m (key_token _) blank tokens h k = refl
all_mods_comm m (key_token _) (key_token _) tokens h k = refl

all_mods-cons :
    (t : Token) (ts us : List Token)
    → ((m : ℕ) → all_mods m ts ≡ all_mods m us)
    → (m : ℕ) → all_mods m (t ∷ ts) ≡ all_mods m (t ∷ us)
unfolding all_mods
all_mods-cons blank ts us h m = h m
all_mods-cons (modifier a) ts us h m = h (set_bit m a)
all_mods-cons (key_token _) ts us h m = h m

Same : List Text → List Text → Type 0
Same l r =
    (count (map token_of l) ≡ count (map token_of r))
    × ((m : ℕ) → all_mods m (map token_of l) ≡ all_mods m (map token_of r))

Permᴰ-Same : {l r : List Text} → Permᴰ l r → Same l r
unfolding Same
Permᴰ-Same Permᴰ.nil = (refl, λ m. refl)
Permᴰ-Same (Permᴰ.cons {a} {b} {l₁ = l} {l₂ = r} e d) = rw e (
    let (c, h) = Permᴰ-Same d in
    (rw c refl, all_mods-cons (token_of b) (map token_of l) (map token_of r) h))
Permᴰ-Same (Permᴰ.swap {a} {b} {l = l} e f) =
    rw (sym e, sym f)
      (
        add_token_comm (token_of a) (token_of b) (count (map token_of l)),
        λ m.
            all_mods_comm m (token_of a) (token_of b) (map token_of l) (token_of-Masked a)
              (token_of-Masked b),
      )
Permᴰ-Same (Permᴰ.trans d e) =
    let (c, h) = Permᴰ-Same d in let (c2, h2) = Permᴰ-Same e in (c ∙ c2, λ m. h m ∙ h2 m)

parse-settle : (s : Text) → parse s ≡ settle (count (tokens_of s)) (all_mods 0 (tokens_of s))
parse-settle s =
    rw
      (
        parse-verdict s,
        settle-verdict (keys (tokens_of s)) (all_mods 0 (tokens_of s)),
        count-keys (tokens_of s),
      )
      refl

-- Two texts whose parts, free of the separator, are a permutation of each other parse to the same
-- chord or the same error.
pub parse-join_perm :
    (p q : Text) (ps qs : List Text)
    → Permᴰ (p ∷ ps) (q ∷ qs)
    → AllFree 43 (p ∷ ps)
    → AllFree 43 (q ∷ qs)
    → parse (join 43 (p ∷ ps)) ≡ parse (join 43 (q ∷ qs))
unfolding tokens_of Same
parse-join_perm p q ps qs d f g =
    let (c, h) = Permᴰ-Same d in
    rw
      (
        parse-settle (join 43 (p ∷ ps)),
        parse-settle (join 43 (q ∷ qs)),
        split-join 43 p ps f,
        split-join 43 q qs g,
        c,
        h 0,
      )
      refl
