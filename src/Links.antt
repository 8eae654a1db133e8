-- ===== src/Links.antt =====
-- crates/core/src/links.rs: the URLs in a row of terminal text, as ranges of its characters.
-- `char::is_alphanumeric` follows the Unicode tables and is a parameter.
pub mod Spans
use termherd.Prelude.{
  ℕ, zero, suc, ◌+◌, ◌-◌, ◌≡◌, refl, Bool, true, false, ◌&&◌, ◌||◌, not, List, [], ◌∷◌, Option,
  none, some, leb, ltb, ◌==◌, if◌then◌else◌, length, take, get_elem?, any, max,
}
use termherd.Text.{Text, is_whitespace}
use termherd.Text.Ascii.{codes, lower}
use termherd.Text.Words.{is_control}
use termherd.Claude.Prompt.{drop}

abbrev pub schemes : List Text
schemes =
    codes "https://" ∷ codes "http://" ∷ codes "file://" ∷ codes "ftp://" ∷ codes "termherd://" ∷ []

-- The positions where the two agree but for the ASCII case.
abbrev pub agreements : Text → Text → ℕ
agreements [] scheme = 0
agreements (c ∷ cs) [] = 0
agreements (c ∷ cs) (d ∷ ds) =
    let rest = agreements cs ds in if lower c == lower d then suc rest else rest

abbrev pub first_scheme : List Text → Text → Option ℕ
first_scheme [] s = none
first_scheme (scheme ∷ more) s =
    if agreements s scheme == length scheme then some (length scheme) else first_scheme more s

-- `scheme_at`, at the start of `s`.
unfoldable pub scheme_at : Text → Option ℕ
scheme_at s = first_scheme schemes s

abbrev url_marks : Text
url_marks = codes "-._~:/?#[]@!$&'()*+,;=%"

unfoldable pub is_url_char : ℕ → Bool
is_url_char c =
    not (is_whitespace c || is_control c)
    && (leb 97 c && leb c 122
        || leb 65 c && leb c 90
        || leb 48 c && leb c 57
        || any (λ mark. mark == c) url_marks)

-- How many characters from the start may stand in a URL.
unfoldable pub url_run : Text → ℕ
url_run [] = 0
url_run (c ∷ cs) = let run = url_run cs in if is_url_char c then suc run else 0

abbrev pub occurrences : ℕ → Text → ℕ
occurrences c [] = 0
occurrences c (d ∷ ds) = let rest = occurrences c ds in if d == c then suc rest else rest

unfoldable pub unbalanced : Text → ℕ → ℕ → Bool
unbalanced slice opening closing = ltb (occurrences opening slice) (occurrences closing slice)

-- Whether the last character `c` of a link is dropped; `slice` is the link up to it.
unfoldable pub is_dropped : Text → ℕ → Bool
is_dropped slice c =
    if any (λ mark. mark == c) (codes ".,;:!?'")
    then true
    else if c == 41
    then unbalanced slice 40 41
    else if c == 93
    then unbalanced slice 91 93
    else false

abbrev last_dropped : Text → ℕ → Bool
last_dropped link size = elim (get_elem? link (size - 1)) [
  | none ↦ false
  | some c ↦ is_dropped (take size link) c
]

-- `trim_trailing` on the text from the scheme: the characters of the body that are left, of `body`.
unfoldable pub trim_trailing : Text → ℕ → ℕ → ℕ
trim_trailing link scheme zero = 0
trim_trailing link scheme (suc body) =
    let shorter = trim_trailing link scheme body in
    if last_dropped link (scheme + suc body) then shorter else suc body

abbrev pub Span : Type 0
Span = ℕ × ℕ

abbrev pub bounded_scheme : Text → ℕ → Bool → Option ℕ
bounded_scheme chars i true = scheme_at (drop i chars)
bounded_scheme chars i false = none

abbrev pub push_link : ℕ → ℕ → ℕ → List Span → List Span
push_link i scheme zero spans = spans
push_link i scheme (suc body) spans = (i, i + scheme + suc body) ∷ spans

module _ (is_alphanumeric : ℕ → Bool) where
  -- No letter or digit stands before.
  unfoldable pub at_boundary : Text → ℕ → Bool
  at_boundary chars i = elim (get_elem? chars (i - 1)) [
    | none ↦ true
    | some c ↦ i == 0 || not (is_alphanumeric c)
  ]

  -- The loop from index `i`, on fuel: `i` grows in every round.
  unfoldable pub detect_from : ℕ → Text → ℕ → List Span
  detect_from zero chars i = []
  detect_from (suc fuel) chars i = elim (ltb i (length chars)) [
    | false ↦ []
    | true ↦ elim (bounded_scheme chars i (at_boundary chars i)) [
      | none ↦ detect_from fuel chars (i + 1)
      | some scheme ↦
          let run = url_run (drop (i + scheme) chars) in
          push_link i scheme (trim_trailing (drop i chars) scheme run)
            (detect_from fuel chars (max (i + scheme + run) (i + 1)))
    ]
  ]

  unfoldable pub detect : Text → List Span
  detect line = detect_from (length line) line 0
