-- ===== src/App/Marks.antt =====
-- What is read of the overlay, and what an edit of one entry changes of it
-- (crates/core/src/app/metadata.rs).
use termherd.Prelude.{
  ℕ, zero, suc, length, get_elem?, ap, sym, ◌∙◌, ◌≡◌, refl, Bool, true, false, not, List, Option,
  none, some, arith, if◌then◌else◌, unwrap_or, Bool-cases, Option-cases, inl, inr,
}
use termherd.Text.{Text, text_eq, text_eq_sound}
use termherd.TextMap.{find}
use termherd.Session.{is_some}
use termherd.Metadata.{
  SessionMeta, RepoMeta, edited, default_session, is_default_session, default_repo, is_default_repo,
}
use termherd.Metadata.Edits.{find-edited}
use termherd.App.{App, overlay}
use termherd.App.Retitle.{retitle_tabs, retitle_tab, retitle_from}
use termherd.App.Overlays.{
  update_meta, update_repo_meta, is_starred, is_archived, is_repo_starred, is_repo_declared,
}

-- The name that the user gave a session.
abbrev pub given_title : App → Text → Option Text
given_title app s = elim (find app.metadata s) [ none ↦ none | some m ↦ m.title ]

-- What is read of a session: its star, whether it is archived, and its name.
abbrev pub session_marks : App → Text → Bool × Bool × Option Text
session_marks app s = (is_starred app s, is_archived app s, given_title app s)

-- What is read of a repo: its star, and whether it is declared.
abbrev pub repo_marks : App → Text → Bool × Bool
repo_marks app path = (is_repo_starred app path, is_repo_declared app path)

-- What an entry says of a session; an absent one says what the default does.
abbrev pub marks_of : Option SessionMeta → Bool × Bool × Option Text
marks_of none = (false, false, none)
marks_of (some m) = (m.starred, m.archived, m.title)

abbrev pub repo_marks_of : Option RepoMeta → Bool × Bool
repo_marks_of none = (false, false)
repo_marks_of (some m) = (m.starred, m.declared)

marks_of-unwrap_or :
    (o : Option SessionMeta) → marks_of (some (unwrap_or o default_session)) ≡ marks_of o
marks_of-unwrap_or none = refl
marks_of-unwrap_or (some m) = refl

repo_marks_of-unwrap_or :
    (o : Option RepoMeta) → repo_marks_of (some (unwrap_or o default_repo)) ≡ repo_marks_of o
repo_marks_of-unwrap_or none = refl
repo_marks_of-unwrap_or (some m) = refl

is_some-none : (o : Option Text) → not (is_some o) ≡ true → o ≡ none
is_some-none none h = refl
is_some-none (some t) h = absurd (ground arith)

-- An entry that is the default is not missed.
marks_of_default :
    (m : SessionMeta) → is_default_session m ≡ true → marks_of none ≡ marks_of (some m)
unfolding is_default_session
marks_of_default m h =
    let unstarred : m.starred ≡ false = ground (arith, h) in
    let kept : m.archived ≡ false = ground (arith, h) in
    let unnamed : m.title ≡ none = is_some-none m.title (ground (arith, h)) in
    rw (unstarred, kept, unnamed) refl

repo_marks_of_default :
    (m : RepoMeta) → is_default_repo m ≡ true → repo_marks_of none ≡ repo_marks_of (some m)
unfolding is_default_repo
repo_marks_of_default m h =
    let unstarred : m.starred ≡ false = ground (arith, h) in
    let undeclared : m.declared ≡ false = ground (arith, h) in rw (unstarred, undeclared) refl

session_marks-marks_of :
    (app : App) (k : Text) → session_marks app k ≡ marks_of (find app.metadata k)
unfolding is_starred is_archived
session_marks-marks_of app k = elim (Option-cases (find app.metadata k)) [
  | inl e ↦ rw (e, is_starred, is_archived, given_title) refl
  | inr (m, e) ↦ rw (e, is_starred, is_archived, given_title) refl
]

repo_marks-marks_of : (app : App) (k : Text) → repo_marks app k ≡ repo_marks_of (find app.repos k)
unfolding is_repo_starred is_repo_declared
repo_marks-marks_of app k = elim (Option-cases (find app.repos k)) [
  | inl e ↦ rw (e, is_repo_starred, is_repo_declared) refl
  | inr (m, e) ↦ rw (e, is_repo_starred, is_repo_declared) refl
]

-- What an edited entry says, and every other one.
marks_of-edited :
    (entries : List (Text × SessionMeta)) (key k : Text) (edit : SessionMeta → SessionMeta)
    → marks_of (find (edited default_session is_default_session entries key edit) k) ≡ (
        if text_eq key k
        then marks_of (some (edit (unwrap_or (find entries key) default_session)))
        else marks_of (find entries k))
marks_of-edited entries key k edit =
    let found = find-edited default_session is_default_session entries key k edit in
    let m = edit (unwrap_or (find entries key) default_session) in
    elim (Bool-cases (text_eq key k)) [
      | inr e ↦ rw (found, e) refl
      | inl e ↦ elim (Bool-cases (is_default_session m)) [
        | inl d ↦ rw (found, e) (rw d (marks_of_default m d))
        | inr d ↦ rw (found, e) (rw d refl)
      ]
    ]

repo_marks_of-edited :
    (entries : List (Text × RepoMeta)) (key k : Text) (edit : RepoMeta → RepoMeta)
    → repo_marks_of (find (edited default_repo is_default_repo entries key edit) k) ≡ (
        if text_eq key k
        then repo_marks_of (some (edit (unwrap_or (find entries key) default_repo)))
        else repo_marks_of (find entries k))
repo_marks_of-edited entries key k edit =
    let found = find-edited default_repo is_default_repo entries key k edit in
    let m = edit (unwrap_or (find entries key) default_repo) in
    elim (Bool-cases (text_eq key k)) [
      | inr e ↦ rw (found, e) refl
      | inl e ↦ elim (Bool-cases (is_default_repo m)) [
        | inl d ↦ rw (found, e) (rw d (repo_marks_of_default m d))
        | inr d ↦ rw (found, e) (rw d refl)
      ]
    ]

-- An edit of an entry that changes its marks by `after` changes the marks of that session so, and no
-- others.
pub update_meta-session_marks :
    (app : App) (key k : Text) (edit : SessionMeta → SessionMeta)
    (after : Bool × Bool × Option Text → Bool × Bool × Option Text)
    → ((m : SessionMeta) → marks_of (some (edit m)) ≡ after (marks_of (some m)))
    → session_marks (update_meta app key edit).0 k
      ≡ (if text_eq key k then after (session_marks app k) else session_marks app k)
unfolding update_meta
update_meta-session_marks app key k edit after h =
    let app' = (update_meta app key edit).0 in
    session_marks-marks_of app' k
    ∙ (marks_of-edited app.metadata key k edit ∙ elim (Bool-cases (text_eq key k)) [
      | inr e ↦ rw e (sym (session_marks-marks_of app k))
      | inl e ↦
          let old = find app.metadata key in
          let same : marks_of old ≡ session_marks app k =
            rw (text_eq_sound key k e) (sym (session_marks-marks_of app k)) in
          rw e (h (unwrap_or old default_session) ∙ ap after (marks_of-unwrap_or old ∙ same))
    ])

pub update_repo_meta-repo_marks :
    (app : App) (key k : Text) (edit : RepoMeta → RepoMeta) (after : Bool × Bool → Bool × Bool)
    → ((m : RepoMeta) → repo_marks_of (some (edit m)) ≡ after (repo_marks_of (some m)))
    → repo_marks (update_repo_meta app key edit).0 k
      ≡ (if text_eq key k then after (repo_marks app k) else repo_marks app k)
unfolding update_repo_meta
update_repo_meta-repo_marks app key k edit after h =
    let app' = (update_repo_meta app key edit).0 in
    repo_marks-marks_of app' k
    ∙ (repo_marks_of-edited app.repos key k edit ∙ elim (Bool-cases (text_eq key k)) [
      | inr e ↦ rw e (sym (repo_marks-marks_of app k))
      | inl e ↦
          let old = find app.repos key in
          let same : repo_marks_of old ≡ repo_marks app k =
            rw (text_eq_sound key k e) (sym (repo_marks-marks_of app k)) in
          rw e (h (unwrap_or old default_repo) ∙ ap after (repo_marks_of-unwrap_or old ∙ same))
    ])

abbrev pub SameOverlay : App → App → Type 0
SameOverlay app app' = (app'.metadata ≡ app.metadata) × (app'.repos ≡ app.repos)

retitle_tab-SameOverlay : (app : App) (index : ℕ) → SameOverlay app (retitle_tab app index)
unfolding retitle_tab
retitle_tab-SameOverlay app index = elim (Option-cases (get_elem? app.workspace.tabs index)) [
  | inl e ↦ rw (e, retitle_tab) (refl, refl)
  | inr (tab, e) ↦ rw (e, retitle_tab) (refl, refl)
]

retitle_from-SameOverlay : (n index : ℕ) (app : App) → SameOverlay app (retitle_from n index app)
unfolding retitle_from
retitle_from-SameOverlay zero index app = (refl, refl)
retitle_from-SameOverlay (suc n) index app =
    let (m, r) = retitle_tab-SameOverlay app index in
    let (m', r') = retitle_from-SameOverlay n (suc index) (retitle_tab app index) in
    (m' ∙ m, r' ∙ r)

pub retitle_tabs-SameOverlay : (app : App) → SameOverlay app (retitle_tabs app)
unfolding retitle_tabs
retitle_tabs-SameOverlay app = retitle_from-SameOverlay (length app.workspace.tabs) 0 app

-- A change that keeps the overlay keeps what is read of it, and what is saved of it.
pub marks-SameOverlay :
    (app app' : App) (k : Text)
    → SameOverlay app app'
    → (session_marks app' k ≡ session_marks app k)
      × ((repo_marks app' k ≡ repo_marks app k) × (overlay app' ≡ overlay app))
unfolding overlay
marks-SameOverlay app app' k (m, r) = (
  session_marks-marks_of app' k ∙ rw m (sym (session_marks-marks_of app k)),
  (repo_marks-marks_of app' k ∙ rw r (sym (repo_marks-marks_of app k)), rw (m, r) refl),
)
