-- ===== src/Links/Spans.antt =====
-- The spans found in a row are links of the row, in order and apart (crates/core/src/links.rs).
use termherd.Prelude.{
  ℕ, zero, suc, ◌+◌, ◌-◌, ◌<◌, ◌≤◌, ◌≡◌, sym, inl, inr, refl, Bool, true, false, List, [], ◌∷◌,
  some, arith, ltb, length, take, max, Bool-cases, Option-cases,
}
use termherd.Text.{Text}
use termherd.Text.Words.{all}
use termherd.Claude.Prompt.{drop}
use termherd.Links.{
  scheme_at, is_url_char, url_run, trim_trailing, Span, at_boundary, push_link, detect_from, detect,
}

length-drop : (n : ℕ) (s : Text) → length (drop n s) ≡ length s - n
length-drop zero s = omega arith
length-drop (suc n) [] = omega arith
length-drop (suc n) (c ∷ s) = omega (arith, length-drop n s)

url_run-le-length : (s : Text) → url_run s ≤ length s
unfolding url_run
url_run-le-length [] = omega arith
url_run-le-length (c ∷ s) = ground (arith, url_run-le-length s)

all-take-url_run : (n : ℕ) (s : Text) → n ≤ url_run s → all is_url_char (take n s) ≡ true
unfolding url_run
all-take-url_run zero s h = refl
all-take-url_run (suc n) [] h = refl
all-take-url_run (suc n) (c ∷ s) h = ground (arith, all-take-url_run n s)

trim_trailing-le : (link : Text) (scheme body : ℕ) → trim_trailing link scheme body ≤ body
unfolding trim_trailing
trim_trailing-le link scheme zero = omega arith
trim_trailing-le link scheme (suc body) = ground (arith, trim_trailing-le link scheme body)

-- A span from a scheme at a word boundary over characters of a URL, one of them at least after the
-- scheme.
abbrev pub IsLink : (ℕ → Bool) → Text → ℕ → ℕ → Type 0
IsLink is_alphanumeric chars start end =
    (scheme : ℕ) × ((scheme_at (drop start chars) ≡ some scheme)
      × ((at_boundary is_alphanumeric chars start ≡ true)
          × ((start + scheme < end)
              × ((end ≤ length chars)
                  × (all is_url_char (take (end - (start + scheme)) (drop (start + scheme) chars))
                      ≡ true)))))

-- Links in order, the first of them at `low` or after.
abbrev pub AllLinks : (ℕ → Bool) → Text → ℕ → List Span → Type 0
AllLinks is_alphanumeric chars low [] = Unit
AllLinks is_alphanumeric chars low ((start, end) ∷ spans) =
    (low ≤ start)
    × (IsLink is_alphanumeric chars start end × AllLinks is_alphanumeric chars end spans)

module _ (is_alphanumeric : ℕ → Bool) (chars : Text) where
  AllLinks-lower :
      (low high : ℕ) (spans : List Span)
      → low ≤ high
      → AllLinks is_alphanumeric chars high spans
      → AllLinks is_alphanumeric chars low spans
  AllLinks-lower low high [] h k = tt
  AllLinks-lower low high ((start, end) ∷ spans) h (l, k) = (omega arith, k)

  push_link-AllLinks :
      (low i scheme run body : ℕ) (spans : List Span)
      → low ≤ i
      → scheme_at (drop i chars) ≡ some scheme
      → at_boundary is_alphanumeric chars i ≡ true
      → run ≡ url_run (drop (i + scheme) chars)
      → body ≤ run
      → AllLinks is_alphanumeric chars (i + scheme + run) spans
      → AllLinks is_alphanumeric chars low (push_link i scheme body spans)
  push_link-AllLinks low i scheme run zero spans h k b r le rest =
      AllLinks-lower low (i + scheme + run) spans (omega arith) rest
  push_link-AllLinks low i scheme run (suc body) spans h k b r le rest =
      let shorter = url_run-le-length (drop (i + scheme) chars) in
      let size = length-drop (i + scheme) chars in
      let taken : suc body ≤ url_run (drop (i + scheme) chars) = ground (arith, r) in
      (
        h,
        (
          (
            scheme,
            (
              k,
              (
                b,
                (
                  omega arith,
                  (
                    ground (arith, shorter, size, taken),
                    all-take-url_run (i + scheme + suc body - (i + scheme))
                        (drop (i + scheme) chars) (omega arith),
                  ),
                ),
              ),
            ),
          ),
          AllLinks-lower (i + scheme + suc body) (i + scheme + run) spans (omega arith) rest,
        ),
      )

  detect_from-AllLinks :
      (fuel low i : ℕ)
      → low ≤ i
      → AllLinks is_alphanumeric chars low (detect_from is_alphanumeric fuel chars i)
  unfolding detect_from
  detect_from-AllLinks zero low i h = tt
  detect_from-AllLinks (suc fuel) low i h = elim (Bool-cases (ltb i (length chars))) [
    | inr e ↦ rw (e, detect_from) tt
    | inl e ↦ elim (Bool-cases (at_boundary is_alphanumeric chars i)) [
      | inr b ↦ rw (e, detect_from) (rw b (detect_from-AllLinks fuel low (i + 1) (omega arith)))
      | inl b ↦ elim (Option-cases (scheme_at (drop i chars))) [
        | inl k ↦
            rw (e, detect_from) (rw b (rw k (detect_from-AllLinks fuel low (i + 1) (omega arith))))
        | inr (scheme, k) ↦
            let run = url_run (drop (i + scheme) chars) in
            let next = max (i + scheme + run) (i + 1) in
            let rest =
              AllLinks-lower (i + scheme + run) next (detect_from is_alphanumeric fuel chars next)
                (omega arith) (detect_from-AllLinks fuel next next (omega arith)) in
            rw (e, detect_from)
              (rw b (
                rw k (
                  push_link-AllLinks low i scheme run (trim_trailing (drop i chars) scheme run)
                    (detect_from is_alphanumeric fuel chars next) h k b refl
                    (trim_trailing-le (drop i chars) scheme run) rest)))
      ]
    ]
  ]

  past_end : (fuel i : ℕ) → length chars ≤ i → detect_from is_alphanumeric fuel chars i ≡ []
  unfolding detect_from
  past_end zero i h = refl
  past_end (suc fuel) i h =
      let e : ltb i (length chars) ≡ false = ground arith in rw (e, detect_from) refl

  -- Fuel beyond the characters that are left changes nothing.
  detect_from_enough :
      (f g i : ℕ)
      → length chars ≤ i + f
      → length chars ≤ i + g
      → detect_from is_alphanumeric f chars i ≡ detect_from is_alphanumeric g chars i
  unfolding detect_from
  detect_from_enough zero g i h k = sym (past_end g i (omega arith))
  detect_from_enough (suc f) zero i h k = past_end (suc f) i (omega arith)
  detect_from_enough (suc f) (suc g) i h k = elim (Bool-cases (ltb i (length chars))) [
    | inr e ↦ rw (e, detect_from) refl
    | inl e ↦
        let after = detect_from_enough f g (i + 1) (omega arith) (omega arith) in
        elim (Bool-cases (at_boundary is_alphanumeric chars i)) [
          | inr b ↦ rw (e, detect_from) (rw b after)
          | inl b ↦ elim (Option-cases (scheme_at (drop i chars))) [
            | inl absent ↦ rw (e, detect_from) (rw b (rw absent after))
            | inr (scheme, found) ↦
                let next = max (i + scheme + url_run (drop (i + scheme) chars)) (i + 1) in
                rw (e, detect_from)
                  (rw b
                    (rw found (rw (detect_from_enough f g next (omega arith) (omega arith)) refl)))
          ]
        ]
  ]

-- The spans detected in a row stand in order and apart within the row, and each is a known
-- scheme, not after a letter or digit, followed by at least one character, all of them characters
-- of a URL; any more fuel than the row's length gives the same spans.
pub detect-AllLinks :
    (is_alphanumeric : ℕ → Bool) (line : Text)
    → AllLinks is_alphanumeric line 0 (detect is_alphanumeric line)
      × ((more : ℕ)
          → detect_from is_alphanumeric (length line + more) line 0 ≡ detect is_alphanumeric line)
unfolding detect
detect-AllLinks is_alphanumeric line = (
  detect_from-AllLinks is_alphanumeric line (length line) 0 0 (omega arith),
  λ more.
      detect_from_enough is_alphanumeric line (length line + more) (length line) 0 (omega arith)
        (omega arith),
)
