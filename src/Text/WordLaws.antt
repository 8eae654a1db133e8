-- ===== src/Text/WordLaws.antt =====
-- What cutting, trimming, splitting and joining keep of the characters of a text.
use termherd.Prelude.{
  ℕ, zero, suc, ◌≡◌, refl, Bool, true, false, List, [], ◌∷◌, ◌++◌, some, arith, take, Bool-cases,
  inl, inr,
}
use termherd.Text.{Text, is_whitespace}
use termherd.Text.Ascii.{join}
use termherd.Text.Words.{
  filter, keep_end, all, concat, spaced_words, word_step, trim_end_matches, last,
}

module _ (p : ℕ → Bool) where
  pub all-append : (s t : Text) → all p s ≡ true → all p t ≡ true → all p (s ++ t) ≡ true
  all-append [] t h k = k
  all-append (c ∷ s) t h k = ground (arith, all-append s t)

  all_parts : (s t : Text) → all p (s ++ t) ≡ true → (all p s ≡ true) × (all p t ≡ true)
  all_parts [] t h = (refl, h)
  all_parts (c ∷ s) t h = ground (arith, all_parts s t)

  pub all-concat-take :
      (n : ℕ) (ss : List Text) → all p (concat ss) ≡ true → all p (concat (take n ss)) ≡ true
  all-concat-take zero ss h = refl
  all-concat-take (suc n) [] h = refl
  all-concat-take (suc n) (s ∷ ss) h =
      let (first, rest) = all_parts s (concat ss) h in
      all-append s (concat (take n ss)) first (all-concat-take n ss rest)

  all-keep_end :
      (q : ℕ → Bool) (c : ℕ) (s : Text)
      → p c ≡ true
      → all p s ≡ true
      → all p (keep_end q c s) ≡ true
  all-keep_end q c [] h k = elim (Bool-cases (q c)) [
    | inl e ↦ rw e refl
    | inr e ↦ rw e (ground arith)
  ]
  all-keep_end q c (d ∷ ds) h k = ground arith

  pub all-trim_end_matches :
      (q : ℕ → Bool) (s : Text) → all p s ≡ true → all p (trim_end_matches q s) ≡ true
  all-trim_end_matches q [] h = refl
  all-trim_end_matches q (c ∷ s) h =
      all-keep_end q c (trim_end_matches q s) (ground arith)
        (all-trim_end_matches q s (ground arith))

  pub all-join :
      (words : List Text) → p 32 ≡ true → all (all p) words ≡ true → all p (join 32 words) ≡ true
  unfolding join
  all-join [] h k = refl
  all-join (w ∷ []) h k = ground arith
  all-join (w ∷ v ∷ words) h k =
      let rest = all-join (v ∷ words) h (ground arith) in
      all-append w (32 ∷ join 32 (v ∷ words)) (ground arith) (ground arith)

  -- The words of a text hold its characters, those that are no whitespace.
  pub all-spaced_words :
      (q : ℕ → Bool) (s : Text)
      → ((c : ℕ) → q c ≡ true → is_whitespace c ≡ false → p c ≡ true)
      → all q s ≡ true
      → all (all p) (spaced_words s) ≡ true
  all-spaced_words q [] h k = refl
  all-spaced_words q (c ∷ s) h k =
      all-word_step c (spaced_words s) (λ e. h c (ground arith) e)
        (all-spaced_words q s h (ground arith))
    where
      all-word_step :
          (c : ℕ) (words : List Text)
          → (is_whitespace c ≡ false → p c ≡ true)
          → all (all p) words ≡ true
          → all (all p) (word_step (is_whitespace c) c words) ≡ true
      all-word_step c [] h k = refl
      all-word_step c (w ∷ words) h k = elim (Bool-cases (is_whitespace c)) [
        | inl e ↦ rw e (ground arith)
        | inr e ↦ rw e (ground (arith, h e))
      ]

  pub all-filter :
      {A : Type 0} (q r : A → Bool) (xs : List A) → all q xs ≡ true → all q (filter r xs) ≡ true
  all-filter q r [] h = refl
  all-filter q r (x ∷ xs) h = ground (arith, all-filter q r xs)

pub last-trim_end_matches :
    (q : ℕ → Bool) (s : Text) (c : ℕ) → last (trim_end_matches q s) ≡ some c → q c ≡ false
last-trim_end_matches q [] c h = absurd (ground arith)
last-trim_end_matches q (d ∷ s) c h =
    last-keep_end d (trim_end_matches q s) (last-trim_end_matches q s c) h
  where
    last-keep_end :
        (d : ℕ) (s : Text)
        → (last s ≡ some c → q c ≡ false)
        → last (keep_end q d s) ≡ some c
        → q c ≡ false
    last-keep_end d [] h k = ground arith
    last-keep_end d (e ∷ s) h k = h k

pub all_weaken :
    (p q : ℕ → Bool) (s : Text)
    → ((c : ℕ) → p c ≡ true → q c ≡ true)
    → all p s ≡ true
    → all q s ≡ true
all_weaken p q [] h k = refl
all_weaken p q (c ∷ s) h k = ground (arith, h c, all_weaken p q s h)
