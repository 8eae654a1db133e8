-- ===== src/App/Apart.antt =====
-- What tells sessions of one title apart (crates/core/src/app/sidebar.rs, session_disambiguators).
use termherd.Prelude.{
  ℕ, zero, suc, ◌<◌, ◌≤◌, ◌≡◌, ◌⊎◌, sym, refl, Bool, true, false, ◌&&◌, ◌||◌, List, [], ◌∷◌, map,
  Option, some, arith, ltb, ◌==◌, any, get_elem?, Bool-cases, Option-cases, inl, inr,
}
use termherd.Text.{Text, text_eq, text_eq_sound, text_eq_refl, is_empty}
use termherd.TextMap.{find}
use termherd.Session.{is_some}
use termherd.Browser.{ProjectGroup}
use termherd.App.{App}
use termherd.App.Visible.{
  TitledRow, titled_row, title_count, pair_count, separator, put_first, colliding,
  session_disambiguators,
}

abbrev pub is_shared : List TitledRow → Text → TitledRow → Bool
is_shared all id (row, title, summary) = text_eq row id && ltb 1 (title_count all title)

is_some-put_first :
    (row id : Text) (value : Option Text) (entries : List (Text × Option Text))
    → is_some (find (put_first row value entries) id)
      ≡ (text_eq row id || is_some (find entries id))
is_some-put_first row id value entries = elim (Option-cases (find entries row)) [
  | inl e ↦ ground (arith, e)
  | inr (later, e) ↦ elim (Bool-cases (text_eq row id)) [
    | inl same ↦
        let found : find entries id ≡ some later = rw (text_eq_sound row id same) at e in
        rw (e, put_first, find) (rw (same, found) refl)
    | inr other ↦ rw (e, put_first, find) (rw other refl)
  ]
]

is_some-colliding :
    (all rows : List TitledRow) (id : Text)
    → is_some (find (colliding all rows) id) ≡ any (is_shared all id) rows
is_some-colliding all [] id = refl
is_some-colliding all ((row, title, summary) ∷ rows) id = ground (
  arith,
  is_some-colliding all rows id,
  is_some-put_first row id (separator all title summary) (colliding all rows),
)

-- A row of the id whose title is shared, with the value of its entry.
abbrev pub Entry : List TitledRow → List TitledRow → Text → Option Text → Type 0
Entry all rows id value =
    (i : ℕ) × (title : Text) × (summary : Text) × ((get_elem? rows i ≡ some (id, title, summary))
      × ((ltb 1 (title_count all title) ≡ true) × (value ≡ separator all title summary)))

find-put_first :
    (row id : Text) (value found : Option Text) (entries : List (Text × Option Text))
    → find (put_first row value entries) id ≡ some found
    → (find entries id ≡ some found) ⊎ ((row ≡ id) × (value ≡ found))
find-put_first row id value found entries h = elim (Option-cases (find entries row)) [
  | inr (later, e) ↦ inl (rw (e, put_first, find) at h)
  | inl e ↦ elim (Bool-cases (text_eq row id)) [
    | inl same ↦ inr (text_eq_sound row id same, ground (arith, h, e, same))
    | inr other ↦ inl (ground (arith, h, e, other))
  ]
]

Entry-suc :
    (all rows : List TitledRow) (row : TitledRow) (id : Text) (value : Option Text)
    → Entry all rows id value
    → Entry all (row ∷ rows) id value
Entry-suc all rows row id value (i, title, summary, held) = (suc i, title, summary, held)

find-colliding :
    (all rows : List TitledRow) (id : Text) (value : Option Text)
    → find (colliding all rows) id ≡ some value
    → Entry all rows id value
find-colliding all [] id value h = absurd (ground arith)
find-colliding all ((row, title, summary) ∷ rows) id value h =
    let later : find (colliding all rows) id ≡ some value
        → Entry all ((row, title, summary) ∷ rows) id value =
      λ k. Entry-suc all rows (row, title, summary) id value (find-colliding all rows id value k) in
    elim (Bool-cases (ltb 1 (title_count all title))) [
      | inr e ↦ later (rw e at h)
      | inl e ↦
          elim (find-put_first row id (separator all title summary) value (colliding all rows)
            (rw e at h)) [
              | inl k ↦ later k
              | inr (same, v) ↦ (0, title, summary, (rw same refl, (e, sym v)))
            ]
    ]

pair_count-positive :
    (rows : List TitledRow) (i : ℕ) (id title summary : Text)
    → get_elem? rows i ≡ some (id, title, summary)
    → 1 ≤ pair_count rows title summary
pair_count-positive [] i id title summary h = absurd (ground arith)
pair_count-positive ((row, t, s) ∷ rows) zero id title summary h =
    ground (arith, h, text_eq_refl title, text_eq_refl summary)
pair_count-positive ((row, t, s) ∷ rows) (suc i) id title summary h =
    ground (arith, pair_count-positive rows i id title summary h)

pair_count-two :
    (rows : List TitledRow) (i j : ℕ) (id other title summary : Text)
    → get_elem? rows i ≡ some (id, title, summary)
    → get_elem? rows j ≡ some (other, title, summary)
    → i < j
    → 2 ≤ pair_count rows title summary
pair_count-two [] i j id other title summary h k l = absurd (ground arith)
pair_count-two ((row, t, s) ∷ rows) i zero id other title summary h k l = absurd (omega arith)
pair_count-two ((row, t, s) ∷ rows) zero (suc j) id other title summary h k l = ground (
  arith,
  h,
  text_eq_refl title,
  text_eq_refl summary,
  pair_count-positive rows j other title summary k,
)
pair_count-two ((row, t, s) ∷ rows) (suc i) (suc j) id other title summary h k l =
    ground (arith, pair_count-two rows i j id other title summary h k (omega arith))

pair_count_once :
    (rows : List TitledRow) (i j : ℕ) (id other title summary : Text)
    → pair_count rows title summary ≡ 1
    → get_elem? rows i ≡ some (id, title, summary)
    → get_elem? rows j ≡ some (other, title, summary)
    → j ≡ i
pair_count_once rows i j id other title summary once h k = elim (Bool-cases (ltb i j)) [
  | inl e ↦ absurd (
      ground
        (arith, e, once, pair_count-two rows i j id other title summary h k (ground (arith, e))))
  | inr e ↦ elim (Bool-cases (ltb j i)) [
    | inl d ↦ absurd (
        ground
          (arith, d, once, pair_count-two rows j i other id title summary k h (ground (arith, d))))
    | inr d ↦ ground (arith, d, e)
  ]
]

separator-some :
    (rows : List TitledRow) (title summary found : Text)
    → some found ≡ separator rows title summary
    → (found ≡ summary) × ((is_empty found ≡ false) × (pair_count rows title summary ≡ 1))
separator-some rows title summary found h = elim (Bool-cases (is_empty summary)) [
  | inl e ↦ absurd (ground (arith, h, e))
  | inr e ↦ elim (Bool-cases (text_eq summary title)) [
    | inl d ↦ absurd (ground (arith, h, e, d))
    | inr d ↦ elim (Bool-cases (pair_count rows title summary == 1)) [
      | inr c ↦ absurd (ground (arith, h, e, d, c))
      | inl c ↦
          let same : found ≡ summary = ground (arith, h, e, d, c) in
          (same, (rw same e, ground (arith, c)))
    ]
  ]
]

-- A row of the id shares its title with another and shows a summary that is not empty and that no other
-- row of the title has.
abbrev pub IsApart : List TitledRow → Text → Text → Type 0
IsApart rows id summary =
    (i : ℕ) × (title : Text) × ((get_elem? rows i ≡ some (id, title, summary))
      × ((ltb 1 (title_count rows title) ≡ true)
          × ((is_empty summary ≡ false)
              × ((j : ℕ) (other : Text)
                  → get_elem? rows j ≡ some (other, title, summary)
                  → j ≡ i))))

colliding-IsApart :
    (rows : List TitledRow) (id summary : Text)
    → find (colliding rows rows) id ≡ some (some summary)
    → IsApart rows id summary
colliding-IsApart rows id summary h =
    let (i, title, s, (at, (shared, value))) = find-colliding rows rows id (some summary) h in
    let (same, (full, once)) = separator-some rows title s summary value in
    (
      i,
      title,
      (
        rw same at,
        (
          shared,
          (full, λ j other k. pair_count_once rows i j id other title s once at (rw same at k)),
        ),
      ),
    )

-- The disambiguators of a group have an entry for an id exactly where a session of the id shares
-- its title with another session of the group; and an entry that gives a summary gives that of
-- such a session, not empty, and no other session of the group has both the title and the
-- summary.
pub session_disambiguators_lem :
    (app : App) (group : ProjectGroup) (id : Text)
    → (is_some (find (session_disambiguators app group) id)
        ≡ any
            (is_shared (map (titled_row app) group.sessions) id)
            (map (titled_row app) group.sessions))
      × ((summary : Text)
          → find (session_disambiguators app group) id ≡ some (some summary)
          → IsApart (map (titled_row app) group.sessions) id summary)
unfolding session_disambiguators
session_disambiguators_lem app group id =
    let rows = map (titled_row app) group.sessions in
    (is_some-colliding rows rows id, colliding-IsApart rows id)
