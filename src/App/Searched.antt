-- ===== src/App/Searched.antt =====
-- The sessions and the projects that the search keeps (crates/core/src/browser.rs, filter_rows).
use termherd.Prelude.{
  ◌≡◌, ◌∙◌, refl, Bool, true, false, ◌&&◌, ◌||◌, not, List, [], ◌∷◌, ◌++◌, Option, none, some,
  arith, if◌then◌else◌, any, Bool-cases, Option-cases, inl, inr,
}
use termherd.Text.{Text, is_empty}
use termherd.Text.Words.{filter, lines}
use termherd.Session.{is_some}
use termherd.Browser.{SessionDigest, SessionRecord, ProjectGroup}
use termherd.Browser.Search.{
  MatchSnippet, display_title, find_text, contains_text, content_of, locate, first_hit,
  content_snippet, session_matches, push_matching, filter_needle,
}
use termherd.App.SidebarRows.{Row}
use termherd.App.Ranks.{is_bare}

if_or : (b c : Bool) → (if b then true else c) ≡ (b || c)
if_or true c = refl
if_or false c = refl

if_same : {b b' c c' : Bool} → b ≡ b' → c ≡ c' → (if b then true else c) ≡ (if b' then true else c')
if_same h k = rw (h, k) refl

any-if_true :
    {A : Type 0} (b : Bool) (p : A → Bool) (x : A) (xs ys : List A)
    → b ≡ true
    → any p (if b then x ∷ xs else ys) ≡ (if p x then true else any p xs)
any-if_true b p x xs ys h = rw h refl

any-if_false :
    {A : Type 0} (b : Bool) (p : A → Bool) (x : A) (xs ys : List A)
    → b ≡ false
    → any p (if b then x ∷ xs else ys) ≡ any p ys
any-if_false b p x xs ys h = rw h refl

any_filled :
    (p : SessionRecord → Bool) (xs : List SessionRecord) → (not (is_bare xs) && any p xs) ≡ any p xs
any_filled p [] = refl
any_filled p (x ∷ xs) = refl

hit_or : {b : Bool} (c : Bool) → b ≡ true → (b || c) ≡ true
hit_or c h = rw h refl

-- Where a path holds the words, all its sessions are kept.
all_kept :
    (b c : Bool) {x x' m : Bool} → x ≡ x' → m ≡ true → (b && (x || c)) ≡ (b && (x' || c && m))
all_kept b c h k = rw (h, k) (ground arith)

-- Where it does not, those that do are kept, if there are any.
some_kept :
    (b c : Bool) {filled x x' hit m : Bool}
    → x ≡ x'
    → m ≡ filled
    → hit ≡ false
    → (filled && x) ≡ x
    → (filled && (b && (x || c))) ≡ (b && (x' || c && (hit || m)))
some_kept b c h k n l = ground arith

pub any-append :
    {A : Type 0} (p : A → Bool) (xs ys : List A) → any p (xs ++ ys) ≡ (any p xs || any p ys)
any-append p [] ys = refl
any-append p (x ∷ xs) ys = ground (arith, any-append p xs ys)

matched :
    (b c : Bool) (o : Option MatchSnippet)
    → (if b then true else (if c then false else elim o [ none ↦ false | some snippet ↦ true ]))
      ≡ (b || (not c && is_some o))
matched true c o = refl
matched false true o = refl
matched false false none = refl
matched false false (some snippet) = refl

module _ (to_lowercase : Text → Text) where
  -- A text holds the words searched for, in any case.
  abbrev pub holds : Text → Text → Bool
  holds needle text = contains_text (to_lowercase text) needle

  -- The summary, a line of the text or the slug holds them.
  abbrev pub content_holds : Text → SessionDigest → Bool
  content_holds needle digest =
      holds needle digest.summary
      || (any (holds needle) (lines digest.text_content)
          || elim digest.slug [ none ↦ false | some slug ↦ holds needle slug ])

  -- The title holds them, or the content does and it is searched too.
  abbrev pub is_match : Text → Bool → SessionRecord → Bool
  is_match needle titles_only s =
      holds needle (display_title s.digest none) || not titles_only && content_holds needle s.digest

  -- There is nothing to search for, or the path holds it.
  abbrev pub is_path_match : Text → Text → Bool
  is_path_match needle path = is_empty needle || holds needle path

  first_hit-any :
      (texts : List Text) (needle : Text)
      → is_some (first_hit to_lowercase texts needle) ≡ any (holds needle) texts
  unfolding locate
  first_hit-any [] needle = refl
  first_hit-any (line ∷ texts) needle = elim (Option-cases (find_text (to_lowercase line) needle)) [
    | inl e ↦
        let absent : holds needle line ≡ false = rw (e, contains_text) refl in
        rw (e, is_some, first_hit, locate) (first_hit-any texts needle ∙ rw absent refl)
    | inr (at, e) ↦
        let present : holds needle line ≡ true = rw (e, contains_text) refl in
        rw (e, is_some, first_hit, locate) (rw present refl)
  ]

  slug_holds :
      (slug : Option Text) (needle : Text)
      → any (holds needle) (elim slug [ none ↦ [] | some text ↦ text ∷ [] ])
        ≡ elim slug [ none ↦ false | some text ↦ holds needle text ]
  slug_holds none needle = refl
  slug_holds (some text) needle = ground arith

  is_some-snippet :
      (needle : Text) (digest : SessionDigest)
      → is_empty needle ≡ false
      → is_some (content_snippet to_lowercase digest needle) ≡ content_holds needle digest
  unfolding content_snippet
  is_some-snippet needle digest h = rw h (
      first_hit-any (content_of digest) needle
      ∙ (if_or (holds needle digest.summary) _
          ∙ rw
              (
                any-append (holds needle) (lines digest.text_content)
                    (elim digest.slug [ none ↦ [] | some text ↦ text ∷ [] ]),
                slug_holds digest.slug needle,
              )
              refl))

  session_matches-is_match :
      (s : SessionRecord) (needle : Text) (titles_only : Bool)
      → is_empty needle ≡ false
      → session_matches to_lowercase s needle titles_only ≡ is_match needle titles_only s
  unfolding session_matches content_snippet
  session_matches-is_match s needle titles_only h =
      matched (holds needle (display_title s.digest none)) titles_only
        (content_snippet to_lowercase s.digest needle)
      ∙ rw (is_some-snippet needle s.digest h) refl

  -- A session of a path is kept by the search.
  abbrev pub is_wanted : Text → Bool → Text → SessionRecord → Bool
  is_wanted needle titles_only path s = is_path_match needle path || is_match needle titles_only s

  any-push_matching :
      (q : ProjectGroup → Bool) (path : Text) (sessions : List SessionRecord)
      (rest : List ProjectGroup)
      → any q (push_matching to_lowercase path sessions rest) ≡ (
          if not (is_bare sessions) && q (record { path = path; sessions = sessions })
          then true
          else any q rest)
  any-push_matching q path [] rest = refl
  any-push_matching q path (s ∷ sessions) rest = refl

  -- Where the path does not hold the words, the sessions kept are those that do.
  any-session_matches :
      (q : SessionRecord → Bool) (needle : Text) (titles_only : Bool) (path : Text)
      (sessions : List SessionRecord)
      → is_path_match needle path ≡ false
      → any q (filter (λ s. session_matches to_lowercase s needle titles_only) sessions)
        ≡ any (λ s. q s && is_wanted needle titles_only path s) sessions
  any-session_matches q needle titles_only path [] h = refl
  any-session_matches q needle titles_only path (s ∷ sessions) h =
      let named : is_empty needle ≡ false = ground (arith, h) in
      let same = session_matches-is_match s needle titles_only named in
      let rest = any-session_matches q needle titles_only path sessions h in
      elim (Bool-cases (is_match needle titles_only s)) [
        | inl e ↦
            let kept : session_matches to_lowercase s needle titles_only ≡ true = same ∙ e in
            rw (kept, h, e) (rw rest (ground arith))
        | inr e ↦
            let gone : session_matches to_lowercase s needle titles_only ≡ false = same ∙ e in
            rw (gone, h, e) (rw rest (ground arith))
      ]

  any-is_match :
      (needle : Text) (titles_only : Bool) (path : Text) (sessions : List SessionRecord)
      → is_path_match needle path ≡ false
      → any (is_match needle titles_only) sessions
        ≡ not (is_bare (filter (λ s. session_matches to_lowercase s needle titles_only) sessions))
  any-is_match needle titles_only path [] h = refl
  any-is_match needle titles_only path (s ∷ sessions) h =
      let named : is_empty needle ≡ false = ground (arith, h) in
      let same = session_matches-is_match s needle titles_only named in
      elim (Bool-cases (is_match needle titles_only s)) [
        | inl e ↦
            let kept : session_matches to_lowercase s needle titles_only ≡ true = same ∙ e in
            rw (kept, e) refl
        | inr e ↦
            let gone : session_matches to_lowercase s needle titles_only ≡ false = same ∙ e in
            rw (gone, e) (any-is_match needle titles_only path sessions h)
      ]

  any_all_wanted :
      (q : SessionRecord → Bool) (needle : Text) (titles_only : Bool) (path : Text)
      (sessions : List SessionRecord)
      → is_path_match needle path ≡ true
      → any q sessions ≡ any (λ s. q s && is_wanted needle titles_only path s) sessions
  any_all_wanted q needle titles_only path [] h = refl
  any_all_wanted q needle titles_only path (s ∷ sessions) h =
      let here : q s ≡ (q s && is_wanted needle titles_only path s) = rw h (ground arith) in
      if_same here (any_all_wanted q needle titles_only path sessions h)

  -- The sessions of the groups that the search leaves.
  pub sessions-filter_needle :
      (q : Text → SessionRecord → Bool) (needle : Text) (titles_only : Bool) (rows : List Row)
      → any
          (λ group. any (q group.path) group.sessions)
          (filter_needle to_lowercase rows needle titles_only)
        ≡ any (λ row. any (λ s. q row.0 s && is_wanted needle titles_only row.0 s) row.1) rows
  sessions-filter_needle q needle titles_only [] = refl
  sessions-filter_needle q needle titles_only ((path, sessions) ∷ rows) =
      let rest = sessions-filter_needle q needle titles_only rows in
      let found : ProjectGroup → Bool = λ group. any (q group.path) group.sessions in
      let others = filter_needle to_lowercase rows needle titles_only in
      let kept = filter (λ s. session_matches to_lowercase s needle titles_only) sessions in
      elim (Bool-cases (is_path_match needle path)) [
        | inl e ↦
            any-if_true (is_path_match needle path) found _ others _ e
            ∙ if_same (any_all_wanted (q path) needle titles_only path sessions e) rest
        | inr e ↦
            any-if_false (is_path_match needle path) found _ others _ e
            ∙ (any-push_matching found path kept others
                ∙ if_same
                    (any_filled (q path) kept
                      ∙ any-session_matches (q path) needle titles_only path sessions e)
                    rest)
      ]

  -- The paths of the groups that the search leaves, by what is asked of their sessions.
  pub paths-filter_needle :
      (p : Text → Bool) (f : Text → SessionRecord → Bool) (g : Text → Bool) (needle : Text)
      (titles_only : Bool) (rows : List Row)
      → any
          (λ group. p group.path && (any (f group.path) group.sessions || g group.path))
          (filter_needle to_lowercase rows needle titles_only)
        ≡ any
            (λ row.
              p row.0
              && (any (λ s. f row.0 s && is_wanted needle titles_only row.0 s) row.1
                  || g row.0
                    && (is_path_match needle row.0 || any (is_match needle titles_only) row.1)))
            rows
  paths-filter_needle p f g needle titles_only [] = refl
  paths-filter_needle p f g needle titles_only ((path, sessions) ∷ rows) =
      let rest = paths-filter_needle p f g needle titles_only rows in
      let found : ProjectGroup → Bool =
        λ group. p group.path && (any (f group.path) group.sessions || g group.path) in
      let others = filter_needle to_lowercase rows needle titles_only in
      let kept = filter (λ s. session_matches to_lowercase s needle titles_only) sessions in
      elim (Bool-cases (is_path_match needle path)) [
        | inl e ↦
            any-if_true (is_path_match needle path) found _ others _ e
            ∙ if_same
                (all_kept (p path) (g path)
                  (any_all_wanted (f path) needle titles_only path sessions e)
                  (hit_or (any (is_match needle titles_only) sessions) e))
                rest
        | inr e ↦
            any-if_false (is_path_match needle path) found _ others _ e
            ∙ (any-push_matching found path kept others
                ∙ if_same
                    (some_kept (p path) (g path)
                      (any-session_matches (f path) needle titles_only path sessions e)
                      (any-is_match needle titles_only path sessions e) e
                      (any_filled (f path) kept))
                    rest)
      ]
