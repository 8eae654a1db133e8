-- ===== src/App/Rows.antt =====
-- Which repos have a row in the sidebar, and how a row is cut (crates/core/src/app/sidebar.rs).
use termherd.Prelude.{
  ℕ, ◌≡◌, ◌∙◌, sym, refl, Bool, true, false, ◌||◌, List, [], ◌∷◌, ◌++◌, map, Option, none, some,
  arith, ltb, if◌then◌else◌, length, Bool-cases, Option-cases, inl, inr,
}
use termherd.Text.{Text, text_eq, text_eq_sound}
use termherd.TextMap.{member, find}
use termherd.Browser.{SessionRecord, ProjectGroup}
use termherd.Metadata.{RepoMeta}
use termherd.App.{App}
use termherd.App.Overlays.{is_repo_declared}
use termherd.App.SidebarRows.{
  Row, is_scanned, undiscovered, insert_path, sort_paths, scanned_row, declared_row, merged_rows,
  sidebar_row_shown, row_of, sidebar_row,
}

-- The sessions of the first group of a path.
abbrev pub group_sessions : List ProjectGroup → Text → Option (List SessionRecord)
group_sessions [] path = none
group_sessions (group ∷ groups) path =
    if text_eq group.path path then some group.sessions else group_sessions groups path

-- What the sidebar holds of a path: the sessions that the scan reports, or none for a repo that is
-- declared; a repo with neither has no row.
abbrev pub row_count : Option (List SessionRecord) → Bool → Option ℕ
row_count none declared = if declared then some 0 else none
row_count (some sessions) declared =
    if ltb 0 (length sessions) || declared then some (length sessions) else none

row_of-append :
    (rows more : List Row) (path : Text)
    → row_of (rows ++ more) path
      ≡ elim (row_of rows path) [ none ↦ row_of more path | some sessions ↦ some sessions ]
row_of-append [] more path = refl
row_of-append ((row, sessions) ∷ rows) more path = elim (Bool-cases (text_eq row path)) [
  | inl e ↦ rw e refl
  | inr e ↦ rw e (row_of-append rows more path)
]

row_of_scanned :
    (groups : List ProjectGroup) (path : Text)
    → row_of (map scanned_row groups) path ≡ group_sessions groups path
row_of_scanned [] path = refl
row_of_scanned (group ∷ groups) path = rw (row_of_scanned groups path) refl

row_of_declared :
    (paths : List Text) (path : Text)
    → row_of (map declared_row paths) path ≡ (if member paths path then some [] else none)
row_of_declared [] path = refl
row_of_declared (p ∷ paths) path = ground (arith, row_of_declared paths path)

member-insert_path :
    (p : Text) (paths : List Text) (path : Text)
    → member (insert_path p paths) path ≡ (text_eq p path || member paths path)
member-insert_path p [] path = refl
member-insert_path p (q ∷ paths) path = ground (arith, member-insert_path p paths path)

pub member-sort_paths :
    (paths : List Text) (path : Text) → member (sort_paths paths) path ≡ member paths path
unfolding sort_paths
member-sort_paths [] path = refl
member-sort_paths (p ∷ paths) path =
    ground (arith, member-insert_path p (sort_paths paths) path, member-sort_paths paths path)

-- A declared repo that no group is of is among those appended.
member-undiscovered :
    (groups : List ProjectGroup) (repos : List (Text × RepoMeta)) (path : Text) (meta : RepoMeta)
    → find repos path ≡ some meta
    → meta.declared ≡ true
    → is_scanned groups path ≡ false
    → member (undiscovered groups repos) path ≡ true
unfolding undiscovered
member-undiscovered groups [] path meta h d n = absurd (ground arith)
member-undiscovered groups ((p, m) ∷ repos) path meta h d n = elim (Bool-cases (text_eq p path)) [
  | inl e ↦
      let same : m ≡ meta = ground (arith, h, e) in
      let declared : m.declared ≡ true = rw same d in
      let unscanned : is_scanned groups p ≡ false = rw (text_eq_sound p path e) n in
      ground (arith, e, declared, unscanned)
  | inr e ↦ ground (arith, e, member-undiscovered groups repos path meta (ground (arith, h, e)) d n)
]

group_sessions-none :
    (groups : List ProjectGroup) (path : Text)
    → group_sessions groups path ≡ none
    → is_scanned groups path ≡ false
group_sessions-none [] path h = refl
group_sessions-none (group ∷ groups) path h = ground (arith, group_sessions-none groups path)

-- The row of a path, before its sessions are counted, where no group is of it.
undiscovered_row :
    (app : App) (path : Text)
    → group_sessions app.sidebar.projects path ≡ none
    → is_repo_declared app path ≡ true
    → row_of (merged_rows app) path ≡ some []
unfolding is_repo_declared merged_rows
undiscovered_row app path g d = elim (Option-cases (find app.repos path)) [
  | inl e ↦ absurd (ground (arith, d, e))
  | inr (meta, e) ↦
      let declared : meta.declared ≡ true = ground (arith, d, e) in
      let groups = app.sidebar.projects in
      let paths = sort_paths (undiscovered groups app.repos) in
      let among =
        member-sort_paths (undiscovered groups app.repos) path
        ∙ member-undiscovered groups app.repos path meta e declared
            (group_sessions-none groups path g) in
      row_of-append (map scanned_row groups) (map declared_row paths) path
      ∙ rw (row_of_scanned groups path, g) (rw (row_of_declared paths path, among) refl)
]

-- A path whose row holds no session of a group has a row of none.
row_of_empty :
    (paths : List Text) (path : Text) (sessions : List SessionRecord)
    → row_of (map declared_row paths) path ≡ some sessions
    → sessions ≡ []
row_of_empty [] path sessions h = absurd (ground arith)
row_of_empty (p ∷ paths) path sessions h = elim (Bool-cases (text_eq p path)) [
  | inl e ↦ ground (arith, h, e)
  | inr e ↦ row_of_empty paths path sessions (ground (arith, h, e))
]

scanned_has_row :
    (app : App) (path : Text) (sessions : List SessionRecord)
    → group_sessions app.sidebar.projects path ≡ some sessions
    → row_of (merged_rows app) path ≡ some sessions
unfolding merged_rows
scanned_has_row app path sessions g =
    let groups = app.sidebar.projects in
    row_of-append (map scanned_row groups)
      (map declared_row (sort_paths (undiscovered groups app.repos))) path
    ∙ rw (row_of_scanned groups path, g) refl

unscanned_empty :
    (app : App) (path : Text) (sessions : List SessionRecord)
    → group_sessions app.sidebar.projects path ≡ none
    → row_of (merged_rows app) path ≡ some sessions
    → sessions ≡ []
unfolding merged_rows
unscanned_empty app path sessions g r =
    let groups = app.sidebar.projects in
    let paths = sort_paths (undiscovered groups app.repos) in
    let split = row_of-append (map scanned_row groups) (map declared_row paths) path in
    let appended : row_of (map declared_row paths) path ≡ some sessions =
      sym (rw (row_of_scanned groups path, g) at split) ∙ r in
    row_of_empty paths path sessions appended

-- The sidebar has a row for a path exactly where the scan's group of the path holds sessions or
-- the path is declared, and answers the number of the sessions of its first group, or zero where
-- there is no group.
pub sidebar_row_lem :
    (app : App) (path : Text)
    → sidebar_row app path
      ≡ row_count (group_sessions app.sidebar.projects path) (is_repo_declared app path)
unfolding sidebar_row sidebar_row_shown
sidebar_row_lem app path = elim (Option-cases (group_sessions app.sidebar.projects path)) [
  | inr (sessions, g) ↦
      let row = scanned_has_row app path sessions g in
      rw (row, g, sidebar_row, sidebar_row_shown) refl
  | inl g ↦ elim (Bool-cases (is_repo_declared app path)) [
    | inl d ↦ rw (undiscovered_row app path g d, g, sidebar_row) (rw (d, sidebar_row_shown) refl)
    | inr d ↦ elim (Option-cases (row_of (merged_rows app) path)) [
      | inl r ↦ rw (r, g, d, sidebar_row) refl
      | inr (sessions, r) ↦
          let none_there = unscanned_empty app path sessions g r in
          rw (r, g, none_there, sidebar_row) (rw (d, sidebar_row_shown) refl)
    ]
  ]
]
