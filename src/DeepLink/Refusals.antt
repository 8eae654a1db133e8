-- ===== src/DeepLink/Refusals.antt =====
-- What a link that is accepted can ask for (crates/core/src/deeplink.rs).
use termherd.Prelude.{
  ℕ, ◌≡◌, refl, sym, subst, Bool, true, false, ◌&&◌, [], ◌∷◌, some, arith, ◌==◌, any, ok, err,
  Result, Bool-cases, Option-cases, inl, inr,
}
use termherd.Text.{Text}
use termherd.Text.Words.{is_control, keep_end, trim_end_matches}
use termherd.DeepLink.{
  open_repo, LinkError, strip_scheme, is_link, root_length, drive_length,
  without_trailing_separator, is_separator, is_letter, ends_path, is_network, checked, and_then,
  is_open, read_request, repo_parameter, percent_decode, parse,
}

trim-keep_end :
    (q : ℕ → Bool) (c : ℕ) (t : Text)
    → trim_end_matches q t ≡ t
    → trim_end_matches q (keep_end q c t) ≡ keep_end q c t
trim-keep_end q c [] h = elim (Bool-cases (q c)) [ inl e ↦ rw e refl | inr e ↦ rw e (rw e refl) ]
trim-keep_end q c (d ∷ ds) h = rw h refl

trim_idem :
    (q : ℕ → Bool) (s : Text) → trim_end_matches q (trim_end_matches q s) ≡ trim_end_matches q s
trim_idem q [] = refl
trim_idem q (c ∷ cs) = trim-keep_end q c (trim_end_matches q cs) (trim_idem q cs)

any-keep_end :
    (p q : ℕ → Bool) (c : ℕ) (t : Text)
    → p c ≡ false
    → any p t ≡ false
    → any p (keep_end q c t) ≡ false
any-keep_end p q c [] h k = ground arith
any-keep_end p q c (d ∷ ds) h k = ground arith

any-trim : (p q : ℕ → Bool) (s : Text) → any p s ≡ false → any p (trim_end_matches q s) ≡ false
any-trim p q [] h = refl
any-trim p q (c ∷ cs) h =
    any-keep_end p q c (trim_end_matches q cs) (ground arith) (any-trim p q cs (ground arith))

network-keep_end :
    (q : ℕ → Bool) (c d : ℕ) (t : Text)
    → is_network (c ∷ d ∷ []) ≡ false
    → is_network (c ∷ keep_end q d t) ≡ false
network-keep_end q c d [] h = ground (arith, h)
network-keep_end q c d (e ∷ t) h = h

network-trim :
    (q : ℕ → Bool) (c : ℕ) (s : Text)
    → is_network (c ∷ s) ≡ false
    → is_network (c ∷ trim_end_matches q s) ≡ false
network-trim q c [] h = refl
network-trim q c (d ∷ s) h = network-keep_end q c d (trim_end_matches q s) h

-- A path without control characters that is no network share, is absolute, and ends on no separator
-- after its root.
abbrev pub IsSafe : Text → Type 0
IsSafe path =
    (root : ℕ) × ((root_length path ≡ some root)
      × ((without_trailing_separator path root ≡ path)
          × ((any is_control path ≡ false) × (is_network path ≡ false))))

slash-IsSafe :
    (c : ℕ) (cs : Text)
    → (c == 47) ≡ true
    → any is_control (c ∷ cs) ≡ false
    → is_network (c ∷ cs) ≡ false
    → IsSafe (without_trailing_separator (c ∷ cs) 1)
unfolding root_length without_trailing_separator
slash-IsSafe c cs e h k =
    let rest : any is_control cs ≡ false = ground (arith, h) in
    let plain : is_control c ≡ false = ground (arith, h) in
    (
      1,
      (
        rw e refl,
        (
          rw (trim_idem (ends_path 1) cs) refl,
          (
            rw (plain, any-trim is_control (ends_path 1) cs rest) refl,
            network-trim (ends_path 1) c cs k,
          ),
        ),
      ),
    )

drive-IsSafe :
    (c d s : ℕ) (cs : Text)
    → (c == 47) ≡ false
    → drive_length (c ∷ d ∷ s ∷ cs) ≡ some 3
    → any is_control (c ∷ d ∷ s ∷ cs) ≡ false
    → is_network (c ∷ d ∷ s ∷ cs) ≡ false
    → IsSafe (without_trailing_separator (c ∷ d ∷ s ∷ cs) 3)
unfolding root_length without_trailing_separator
drive-IsSafe c d s cs e len h k =
    let rest : any is_control cs ≡ false = ground (arith, h) in
    let first : is_control c ≡ false = ground (arith, h) in
    let second : is_control d ≡ false = ground (arith, h) in
    let third : is_control s ≡ false = ground (arith, h) in
    (
      3,
      (
        rw e len,
        (
          rw (trim_idem (ends_path 3) cs) refl,
          (rw (first, second, third, any-trim is_control (ends_path 3) cs rest) refl, k),
        ),
      ),
    )

-- The root of a path that does not start with a slash is that of a drive.
drive_length-three :
    (c d s : ℕ) (cs : Text) (root : ℕ) → drive_length (c ∷ d ∷ s ∷ cs) ≡ some root → root ≡ 3
drive_length-three c d s cs root h =
    elim (Bool-cases (is_letter c && (d == 58 && is_separator s))) [
      | inl e ↦ ground (arith, h, e)
      | inr e ↦ absurd (ground (arith, h, e))
    ]

without-IsSafe :
    (repo : Text) (root : ℕ)
    → root_length repo ≡ some root
    → any is_control repo ≡ false
    → is_network repo ≡ false
    → IsSafe (without_trailing_separator repo root)
unfolding root_length
without-IsSafe [] root len h k = absurd (ground arith)
without-IsSafe (c ∷ cs) root len h k = elim (Bool-cases (c == 47)) [
  | inl e ↦
      let one : 1 ≡ root = ground (arith, e, len) in
      subst (λ r. IsSafe (without_trailing_separator (c ∷ cs) r)) one (slash-IsSafe c cs e h k)
  | inr e ↦ drive c cs root e (rw e at len) h k
]
  where
    drive :
        (c : ℕ) (cs : Text) (root : ℕ)
        → (c == 47) ≡ false
        → drive_length (c ∷ cs) ≡ some root
        → any is_control (c ∷ cs) ≡ false
        → is_network (c ∷ cs) ≡ false
        → IsSafe (without_trailing_separator (c ∷ cs) root)
    drive c [] root e len h k = absurd (ground arith)
    drive c (d ∷ []) root e len h k = absurd (ground arith)
    drive c (d ∷ s ∷ cs) root e len h k =
        let three = drive_length-three c d s cs root len in
        subst (λ r. IsSafe (without_trailing_separator (c ∷ d ∷ s ∷ cs) r)) (sym three)
          (drive-IsSafe c d s cs e (rw three at len) h k)

checked-IsSafe : (repo path : Text) → checked repo ≡ ok (open_repo path) → IsSafe path
checked-IsSafe repo path h = elim (Bool-cases (any is_control repo)) [
  | inl e ↦ absurd (ground (arith, h, e))
  | inr e ↦ elim (Bool-cases (is_network repo)) [
    | inl d ↦ absurd (ground (arith, h, e, d))
    | inr d ↦ elim (Option-cases (root_length repo)) [
      | inl r ↦ absurd (ground (arith, h, e, d, r))
      | inr (root, r) ↦
          let same : without_trailing_separator repo root ≡ path = ground (arith, h, e, d, r) in
          subst IsSafe same (without-IsSafe repo root r e d)
    ]
  ]
]

decoded-IsSafe :
    (repo : Result LinkError Text) (path : Text)
    → and_then repo checked ≡ ok (open_repo path)
    → IsSafe path
decoded-IsSafe (ok repo) path h = checked-IsSafe repo path h
decoded-IsSafe (err e) path h = absurd (ground arith)

request-IsSafe :
    (action query path : Text)
    → read_request (action, query) ≡ ok (open_repo path)
    → (is_open action ≡ true) × IsSafe path
request-IsSafe action query path h = elim (Bool-cases (is_open action)) [
  | inr e ↦ absurd (ground (arith, h, e))
  | inl e ↦ (e, decoded-IsSafe (and_then (repo_parameter query) percent_decode) path (rw e at h))
]

-- Where a text is read as a request to open a repo, the text is addressed to termherd, and the
-- repo's path is absolute, holds no control character, is no network share and ends on no
-- separator after its root.
pub parse-IsSafe :
    (url path : Text) → parse url ≡ ok (open_repo path) → (is_link url ≡ true) × IsSafe path
unfolding parse is_link
parse-IsSafe url path h = elim (Option-cases (strip_scheme url)) [
  | inl e ↦ absurd (ground (arith, h, e))
  | inr (rest, e) ↦ (rw (e, is_link) refl, (request-IsSafe _ _ path (rw (e, parse) at h)).1)
]
