-- ===== src/App/Ranks.antt =====
-- The order of the rows in the sidebar (crates/core/src/app/sidebar.rs, sidebar_row_order).
use termherd.Prelude.{
  ℕ, ◌≡◌, ◌∙◌, sym, ap, refl, Bool, true, false, ◌&&◌, ◌||◌, not, List, [], ◌∷◌, ◌++◌, map, Option,
  none, some, arith, ltb, ◌==◌, if◌then◌else◌, any, length, Bool-cases, inl, inr,
}
use termherd.Text.{Text, text_eq, text_eq_sound}
use termherd.Text.Words.{all}
use termherd.TextMap.{member}
use termherd.Browser.{SessionRecord, ProjectGroup, time_lt, later, last_activity}
use termherd.Metadata.{RepoMeta}
use termherd.App.{App}
use termherd.App.Overlays.{is_repo_starred, is_repo_declared}
use termherd.App.SidebarRows.{
  is_scanned, undiscovered, sort_paths, scanned_row, declared_row, merged_rows, Row,
}
use termherd.App.Rows.{member-sort_paths}
use termherd.App.Visible.{last_row, order_of, order_before, sidebar_row_order}

-- The sessions that the scan reports of a path, by the last group of it.
abbrev pub sessions_of : List ProjectGroup → Text → List SessionRecord
sessions_of [] path = []
sessions_of (group ∷ groups) path =
    if is_scanned groups path
    then sessions_of groups path
    else if text_eq group.path path
    then group.sessions
    else []

-- Whether a session was last written before an instant, or at no known one.
abbrev pub is_older : ℕ → SessionRecord → Bool
is_older t r = elim r.modified [ none ↦ true | some u ↦ ltb u t ]

-- Some session of the first was written after all of the second.
abbrev pub is_newer : List SessionRecord → List SessionRecord → Bool
is_newer sessions others =
    any (λ s. elim s.modified [ none ↦ false | some t ↦ all (is_older t) others ]) sessions

abbrev pub is_bare : List SessionRecord → Bool
is_bare [] = true
is_bare (_ ∷ _) = false

-- The one comes first by its mark, or they are alike in it and the one comes first by what follows.
abbrev pub first_by : Bool → Bool → Bool → Bool
first_by true false after = true
first_by false true after = false
first_by true true after = after
first_by false false after = after

abbrev pub is_fresh : App → Text → Bool
is_fresh app path = is_repo_declared app path && is_bare (sessions_of app.sidebar.projects path)

-- A project stands before another by its star; else by being declared with no session in the scan;
-- else by its newest session.
abbrev pub outranks : App → ProjectGroup → ProjectGroup → Bool
outranks app g h = first_by (is_repo_starred app g.path) (is_repo_starred app h.path) (
    first_by (is_fresh app g.path) (is_fresh app h.path) (
      is_newer (sessions_of app.sidebar.projects g.path) (sessions_of app.sidebar.projects h.path)))

abbrev dated_before : Option ℕ → ℕ → Bool
dated_before none t = true
dated_before (some u) t = ltb u t

dated_before-later :
    (o m : Option ℕ) (t : ℕ) → dated_before (later o m) t ≡ (dated_before o t && dated_before m t)
dated_before-later none none t = refl
dated_before-later (some u) none t = ground arith
dated_before-later none (some v) t = refl
dated_before-later (some u) (some v) t = ground arith

is_older-dated_before :
    (m : Option ℕ) (t : ℕ) → elim m [ none ↦ true | some u ↦ ltb u t ] ≡ dated_before m t
is_older-dated_before none t = refl
is_older-dated_before (some u) t = refl

all-is_older :
    (t : ℕ) (sessions : List SessionRecord)
    → all (is_older t) sessions ≡ dated_before (last_activity sessions) t
unfolding last_activity
all-is_older t [] = refl
all-is_older t (s ∷ sessions) =
    rw
      (
        all-is_older t sessions,
        dated_before-later (last_activity sessions) s.modified t,
        is_older-dated_before s.modified t,
      )
      (ground arith)

time_lt-later : (l o m : Option ℕ) → time_lt l (later o m) ≡ (time_lt l m || time_lt l o)
unfolding time_lt
time_lt-later l o none = refl
time_lt-later l none (some v) = ground arith
time_lt-later none (some u) (some v) = refl
time_lt-later (some t) (some u) (some v) = ground arith

dated_before-time_lt : (o : Option ℕ) (t : ℕ) → dated_before o t ≡ time_lt o (some t)
unfolding time_lt
dated_before-time_lt none t = refl
dated_before-time_lt (some u) t = refl

newest-time_lt :
    (m : Option ℕ) (others : List SessionRecord)
    → elim m [ none ↦ false | some t ↦ all (is_older t) others ] ≡ time_lt (last_activity others) m
unfolding time_lt
newest-time_lt none others = refl
newest-time_lt (some t) others =
    all-is_older t others ∙ dated_before-time_lt (last_activity others) t

if_or : (b c : Bool) → (if b then true else c) ≡ (b || c)
if_or true c = refl
if_or false c = refl

is_newer-time_lt :
    (sessions others : List SessionRecord)
    → is_newer sessions others ≡ time_lt (last_activity others) (last_activity sessions)
unfolding last_activity time_lt
is_newer-time_lt [] others = refl
is_newer-time_lt (s ∷ sessions) others =
    let o = last_activity others in
    if_or _ (is_newer sessions others)
    ∙ (rw (newest-time_lt s.modified others, is_newer-time_lt sessions others) refl
        ∙ sym (time_lt-later o (last_activity sessions) s.modified))

is_bare-length : (sessions : List SessionRecord) → (length sessions == 0) ≡ is_bare sessions
is_bare-length [] = refl
is_bare-length (s ∷ sessions) = ground arith

last_of :
    (b c : Bool) (rest here found : List SessionRecord)
    → (if b then rest else (if c then here else found))
      ≡ (if (if c then true else b) then (if b then rest else (if c then here else [])) else found)
last_of true true rest here found = refl
last_of true false rest here found = refl
last_of false true rest here found = refl
last_of false false rest here found = refl

last_row-scanned :
    (found : List SessionRecord) (groups : List ProjectGroup) (rows : List Row) (path : Text)
    → last_row found (map scanned_row groups ++ rows) path
      ≡ last_row (if is_scanned groups path then sessions_of groups path else found) rows path
last_row-scanned found [] rows path = refl
last_row-scanned found (group ∷ groups) rows path =
    last_row-scanned (if text_eq group.path path then group.sessions else found) groups rows path
    ∙ ap (λ sessions. last_row sessions rows path)
        (last_of (is_scanned groups path) (text_eq group.path path) (sessions_of groups path)
          group.sessions found)

none_of :
    (b c : Bool) (found : List SessionRecord)
    → (if b then [] else (if c then [] else found)) ≡ (if c || b then [] else found)
none_of true true found = refl
none_of true false found = refl
none_of false true found = refl
none_of false false found = refl

last_row-declared :
    (found : List SessionRecord) (paths : List Text) (path : Text)
    → last_row found (map declared_row paths) path ≡ (if member paths path then [] else found)
last_row-declared found [] path = refl
last_row-declared found (p ∷ paths) path =
    last_row-declared (if text_eq p path then [] else found) paths path
    ∙ none_of (member paths path) (text_eq p path) found

member-undiscovered-scanned :
    (groups : List ProjectGroup) (repos : List (Text × RepoMeta)) (path : Text)
    → is_scanned groups path ≡ true
    → member (undiscovered groups repos) path ≡ false
unfolding undiscovered
member-undiscovered-scanned groups [] path h = refl
member-undiscovered-scanned groups ((p, m) ∷ repos) path h = elim (Bool-cases (text_eq p path)) [
  | inr e ↦ ground (arith, e, member-undiscovered-scanned groups repos path h)
  | inl e ↦
      let scanned : is_scanned groups p ≡ true = rw (text_eq_sound p path e) h in
      ground (arith, e, scanned, member-undiscovered-scanned groups repos path h)
]

sessions_of-unscanned :
    (groups : List ProjectGroup) (path : Text)
    → is_scanned groups path ≡ false
    → sessions_of groups path ≡ []
sessions_of-unscanned [] path h = refl
sessions_of-unscanned (group ∷ groups) path h =
    let here : text_eq group.path path ≡ false = ground (arith, h) in
    let rest : is_scanned groups path ≡ false = ground (arith, h) in rw (rest, here) refl

abbrev nothing : List SessionRecord
nothing = []

nothing_or : (b : Bool) → (if b then nothing else nothing) ≡ nothing
nothing_or true = refl
nothing_or false = refl

pub last_row-sessions_of :
    (app : App) (path : Text)
    → last_row [] (merged_rows app) path ≡ sessions_of app.sidebar.projects path
unfolding merged_rows
last_row-sessions_of app path =
    let groups = app.sidebar.projects in
    let paths = sort_paths (undiscovered groups app.repos) in
    last_row-scanned [] groups (map declared_row paths) path
    ∙ (last_row-declared _ paths path ∙ elim (Bool-cases (is_scanned groups path)) [
      | inl e ↦
          let absent =
            member-sort_paths (undiscovered groups app.repos) path
            ∙ member-undiscovered-scanned groups app.repos path e in
          rw (absent, e) refl
      | inr e ↦ rw (e, sessions_of-unscanned groups path e) (nothing_or (member paths path))
    ])

flags_first :
    (a b c d k : Bool)
    → ((a && not b)
        || ((if a then b else not b) && ((c && not d) || ((if c then d else not d) && k))))
      ≡ first_by a b (first_by c d k)
flags_first true true true true k = refl
flags_first true true true false k = refl
flags_first true true false true k = refl
flags_first true true false false k = refl
flags_first true false c d k = refl
flags_first false true c d k = refl
flags_first false false true true k = refl
flags_first false false true false k = refl
flags_first false false false true k = refl
flags_first false false false false k = refl

is_fresh-length :
    (app : App) (path : Text)
    → (length (sessions_of app.sidebar.projects path) == 0 && is_repo_declared app path)
      ≡ is_fresh app path
is_fresh-length app path =
    rw (is_bare-length (sessions_of app.sidebar.projects path)) (ground arith)

pub order_before-outranks :
    (app : App) (g h : ProjectGroup)
    → order_before (order_of app g) (order_of app h) ≡ outranks app g h
unfolding sidebar_row_order
order_before-outranks app g h =
    let ours = sessions_of app.sidebar.projects g.path in
    let theirs = sessions_of app.sidebar.projects h.path in
    rw (last_row-sessions_of app g.path, last_row-sessions_of app h.path)
      (flags_first (is_repo_starred app g.path) (is_repo_starred app h.path)
          (length ours == 0 && is_repo_declared app g.path)
          (length theirs == 0 && is_repo_declared app h.path)
          (time_lt (last_activity theirs) (last_activity ours))
        ∙ rw (is_fresh-length app g.path, is_fresh-length app h.path, is_newer-time_lt ours theirs)
            refl)
