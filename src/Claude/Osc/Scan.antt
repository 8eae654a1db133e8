-- ===== src/Claude/Osc/Scan.antt =====
-- The sequences written in a chunk are the ones that the scan finds (crates/claude/src/osc.rs).
use termherd.Prelude.{
  ℕ, zero, suc, ◌+◌, ◌*◌, ◌-◌, ◌^◌, ◌<◌, ◌≤◌, ◌≡◌, subst, refl, ltb, if◌then◌else◌, Bool-cases, inl,
  inr, Bool, true, false, not, List, [], ◌∷◌, ◌++◌, none, some, arith, ◌==◌, length, length-append,
}
use termherd.Text.{Text, is_empty}
use termherd.Text.Ascii.{strip_prefix}
use termherd.Text.Words.{all}
use termherd.Open.Words.{append_assoc}
use termherd.Claude.Osc.{
  esc, bel, is_digit, span, after_end, is_payload, payload_at, sequence_at, push_sequence, scan,
  parse_u32, osc_sequences,
}

-- A piece of a chunk: plain text, or a sequence ended by BEL or by ST.
pub data Piece : Type 0 where
  plain : Text → Piece
  sequence : (digits payload : Text) (by_bel : Bool) → Piece

abbrev pub terminator : Bool → Text
terminator true = bel ∷ []
terminator false = esc ∷ 92 ∷ []

abbrev pub written : Piece → Text
written (plain text) = text
written (sequence digits payload by_bel) =
    esc ∷ 93 ∷ (digits ++ (59 ∷ (payload ++ terminator by_bel)))

abbrev pub chunk_of : List Piece → Text
chunk_of [] = []
chunk_of (piece ∷ pieces) = written piece ++ chunk_of pieces

-- Plain text holds no escape; a code has a digit, and a payload holds neither BEL nor escape.
abbrev pub IsPiece : Piece → Type 0
IsPiece (plain text) = all (λ c. not (c == esc)) text ≡ true
IsPiece (sequence digits payload by_bel) =
    (is_empty digits ≡ false) × ((all is_digit digits ≡ true) × (all is_payload payload ≡ true))

abbrev pub AllPieces : List Piece → Type 0
AllPieces [] = Unit
AllPieces (piece ∷ pieces) = IsPiece piece × AllPieces pieces

-- The number that digits write after the number `n`, with no bound.
abbrev pub number : ℕ → Text → ℕ
number n [] = n
number n (c ∷ cs) = number (n * 10 + (c - 48)) cs

-- The code and the payload of each sequence whose code is less than 2^32.
abbrev pub sequences_of : List Piece → List (ℕ × Text)
sequences_of [] = []
sequences_of (plain text ∷ pieces) = sequences_of pieces
sequences_of (sequence digits payload by_bel ∷ pieces) =
    let rest = sequences_of pieces in
    if ltb (number 0 digits) (2 ^ 32) then (number 0 digits, payload) ∷ rest else rest

number-le : (n : ℕ) (s : Text) → n ≤ number n s
number-le n [] = omega arith
number-le n (c ∷ cs) = omega (arith, number-le (n * 10 + (c - 48)) cs)

parse_u32-none : (s : Text) → parse_u32 none s ≡ none
parse_u32-none [] = refl
parse_u32-none (c ∷ cs) = parse_u32-none cs

-- Digits parse as the number they write, where it fits.
parse_u32-number :
    (n : ℕ) (s : Text)
    → n < 2 ^ 32
    → parse_u32 (some n) s ≡ (if ltb (number n s) (2 ^ 32) then some (number n s) else none)
parse_u32-number n [] h = let e : ltb n (2 ^ 32) ≡ true = ground (arith, h) in rw e refl
parse_u32-number n (c ∷ cs) h = elim (Bool-cases (ltb (n * 10 + (c - 48)) (2 ^ 32))) [
  | inl e ↦ rw e (parse_u32-number (n * 10 + (c - 48)) cs (ground (arith, e)))
  | inr e ↦
      let high : ltb (number (n * 10 + (c - 48)) cs) (2 ^ 32) ≡ false =
        ground (arith, e, number-le (n * 10 + (c - 48)) cs) in
      rw e (rw high (parse_u32-none cs))
]

push_sequence-number :
    (digits payload : Text) (out : List (ℕ × Text))
    → push_sequence (digits, payload) out
      ≡ (if ltb (number 0 digits) (2 ^ 32) then (number 0 digits, payload) ∷ out else out)
push_sequence-number digits payload out =
    let parsed = parse_u32-number 0 digits (omega arith) in
    elim (Bool-cases (ltb (number 0 digits) (2 ^ 32))) [
      | inl e ↦ rw (parsed, push_sequence) (rw e refl)
      | inr e ↦ rw (parsed, push_sequence) (rw e refl)
    ]

span-append :
    (p : ℕ → Bool) (s : Text) (c : ℕ) (rest : Text)
    → all p s ≡ true
    → p c ≡ false
    → span p (s ++ (c ∷ rest)) ≡ (s, c ∷ rest)
unfolding span
span-append p [] c rest h k = rw k refl
span-append p (d ∷ s) c rest h k =
    rw (span-append p s c rest (ground arith) k) (let e : p d ≡ true = ground arith in rw e refl)

payload_at-written :
    (digits payload rest : Text) (by_bel : Bool)
    → is_empty digits ≡ false
    → all is_payload payload ≡ true
    → payload_at (digits, 59 ∷ (payload ++ (terminator by_bel ++ rest)))
      ≡ some ((digits, payload), rest)
unfolding after_end is_payload strip_prefix
payload_at-written [] payload rest by_bel n h = absurd (ground arith)
payload_at-written (d ∷ digits) payload rest true n h =
    rw (span-append is_payload payload bel rest h refl) refl
payload_at-written (d ∷ digits) payload rest false n h =
    rw (span-append is_payload payload esc (92 ∷ rest) h refl) refl

sequence_at-written :
    (digits payload rest : Text) (by_bel : Bool)
    → IsPiece (sequence digits payload by_bel)
    → sequence_at (written (sequence digits payload by_bel) ++ rest)
      ≡ some ((digits, payload), rest)
unfolding sequence_at is_digit strip_prefix
sequence_at-written digits payload rest by_bel (n, (d, p)) =
    rw
      (
        append_assoc digits (59 ∷ (payload ++ terminator by_bel)) rest,
        append_assoc payload (terminator by_bel) rest,
        span-append is_digit digits 59 (payload ++ (terminator by_bel ++ rest)) d refl,
      )
      (payload_at-written digits payload rest by_bel n p)

sequence_at_plain : (c : ℕ) (s : Text) → not (c == esc) ≡ true → sequence_at (c ∷ s) ≡ none
unfolding sequence_at strip_prefix
sequence_at_plain c s h = let e : (esc == c) ≡ false = ground arith in rw (e, sequence_at) refl

-- What the scan makes of a text, for all the fuel that is enough.
unfoldable Scans : Text → List (ℕ × Text) → Type 0
Scans s out = (fuel : ℕ) → length s ≤ fuel → scan fuel s ≡ out

Scans-plain :
    (s rest : Text) (out : List (ℕ × Text))
    → all (λ c. not (c == esc)) s ≡ true
    → Scans rest out
    → Scans (s ++ rest) out
unfolding Scans scan
Scans-plain [] rest out h k fuel l = k fuel l
Scans-plain (c ∷ s) rest out h k zero l = absurd (omega arith)
Scans-plain (c ∷ s) rest out h k (suc fuel) l =
    rw (sequence_at_plain c (s ++ rest) (ground arith), scan)
      (Scans-plain s rest out (ground arith) k fuel (omega arith))

Scans-sequence :
    (digits payload rest : Text) (by_bel : Bool) (out : List (ℕ × Text))
    → IsPiece (sequence digits payload by_bel)
    → Scans rest out
    → Scans (written (sequence digits payload by_bel) ++ rest) (push_sequence (digits, payload) out)
unfolding Scans scan
Scans-sequence digits payload rest by_bel out h k zero l = absurd (omega arith)
Scans-sequence digits payload rest by_bel out h k (suc fuel) l =
    let shorter : length rest ≤ fuel =
      omega (arith, length-append (93 ∷ (digits ++ (59 ∷ (payload ++ terminator by_bel)))) rest) in
    rw (sequence_at-written digits payload rest by_bel h, scan) (rw (k fuel shorter) refl)

Scans-nil : Scans [] []
unfolding Scans scan
Scans-nil zero l = refl
Scans-nil (suc fuel) l = refl

Scans-chunk_of :
    (pieces : List Piece) → AllPieces pieces → Scans (chunk_of pieces) (sequences_of pieces)
Scans-chunk_of [] h = Scans-nil
Scans-chunk_of (plain text ∷ pieces) h =
    Scans-plain text (chunk_of pieces) (sequences_of pieces) h.0 (Scans-chunk_of pieces h.1)
Scans-chunk_of (sequence digits payload by_bel ∷ pieces) h =
    subst (Scans (written (sequence digits payload by_bel) ++ chunk_of pieces))
      (push_sequence-number digits payload (sequences_of pieces))
      (Scans-sequence digits payload (chunk_of pieces) by_bel (sequences_of pieces) h.0
        (Scans-chunk_of pieces h.1))

-- In a chunk written as plain text without escapes and sequences of some digits and a payload
-- without escape or bell, ended by a bell or a string terminator, the scan finds exactly the
-- sequences whose code, as the number that its digits write, is less than 2^32, in order, each
-- with that number and its payload.
pub osc_sequences-chunk_of :
    (pieces : List Piece) → AllPieces pieces → osc_sequences (chunk_of pieces) ≡ sequences_of pieces
unfolding osc_sequences Scans
osc_sequences-chunk_of pieces h = Scans-chunk_of pieces h (length (chunk_of pieces)) (omega arith)
