-- ===== src/App/Visible.antt =====
-- crates/core/src/app/sidebar.rs: the projects that the sidebar shows, in their order, and what tells
-- sessions of one title apart.
use termherd.Prelude.{
  ℕ, suc, Bool, ◌&&◌, ◌||◌, not, List, [], ◌∷◌, map, Option, none, some, ltb, ◌==◌, if◌then◌else◌,
  length,
}
use termherd.Text.{Text, text_eq, is_empty, trim}
use termherd.Text.Words.{filter}
use termherd.TextMap.{find}
use termherd.Browser.{SessionRecord, ProjectGroup, time_lt, last_activity}
use termherd.Browser.Search.{MatchSnippet, content_snippet, filter_rows}
use termherd.App.{App, record_title}
use termherd.App.Overlays.{is_starred, is_archived, is_repo_starred, is_repo_declared}
use termherd.App.SidebarRows.{Row, merged_rows, sidebar_row_shown}

-- A stable sort, where `before` says that the first comes strictly before the second.
abbrev pub insert_by : {A : Type 0} → (A → A → Bool) → A → List A → List A
insert_by before x [] = x ∷ []
insert_by before x (y ∷ ys) =
    let rest = insert_by before x ys in if before y x then y ∷ rest else x ∷ y ∷ ys

abbrev pub sort_by : {A : Type 0} → (A → A → Bool) → List A → List A
sort_by before [] = []
sort_by before (x ∷ xs) = insert_by before x (sort_by before xs)

abbrev pub is_true_first : {A : Type 0} → (A → Bool) → A → A → Bool
is_true_first holds x y = holds x && not (holds y)

abbrev pub is_kept : App → SessionRecord → Bool
is_kept app session = app.sidebar.show_archived || not (is_archived app session.session_id)

-- A group with its archived sessions hidden and its starred ones first.
abbrev pub arranged : App → ProjectGroup → ProjectGroup
arranged app group = record group {
  sessions =
      sort_by (is_true_first (λ (s : SessionRecord). is_starred app s.session_id))
        (filter (is_kept app) group.sessions);
}

-- The key of a row, its flags turned so that the true one comes first.
abbrev pub RowOrder : Type 0
RowOrder = Bool × Bool × Option ℕ

unfoldable pub sidebar_row_order : App → Text → List SessionRecord → RowOrder
sidebar_row_order app path sessions = (
  is_repo_starred app path,
  length sessions == 0 && is_repo_declared app path,
  last_activity sessions,
)

abbrev pub same : Bool → Bool → Bool
same b c = if b then c else not c

abbrev pub order_before : RowOrder → RowOrder → Bool
order_before (starred, fresh, active) (starred', fresh', active') =
    starred && not starred'
    || same starred starred' && (fresh && not fresh' || same fresh fresh' && time_lt active' active)

-- The map of the rows by path, where the last row of a path stands.
abbrev pub last_row : List SessionRecord → List Row → Text → List SessionRecord
last_row found [] path = found
last_row found ((row, sessions) ∷ rows) path =
    last_row (if text_eq row path then sessions else found) rows path

abbrev pub order_of : App → ProjectGroup → RowOrder
order_of app group = sidebar_row_order app group.path (last_row [] (merged_rows app) group.path)

abbrev pub is_shown : App → ProjectGroup → Bool
is_shown app group = sidebar_row_shown app group.path (length group.sessions)

unfoldable pub visible_projects : (Text → Text) → App → List ProjectGroup
visible_projects to_lowercase app =
    sort_by (λ group other. order_before (order_of app group) (order_of app other))
      (filter (is_shown app) (
        map (arranged app) (
          filter_rows to_lowercase (merged_rows app) app.sidebar.search
            app.sidebar.search_titles_only)))

unfoldable pub search_snippet : (Text → Text) → App → SessionRecord → Option MatchSnippet
search_snippet to_lowercase app r =
    if app.sidebar.search_titles_only
    then none
    else content_snippet to_lowercase r.digest (to_lowercase (trim app.sidebar.search))

-- A session by its id, title and summary.
abbrev pub TitledRow : Type 0
TitledRow = Text × Text × Text

abbrev pub titled_row : App → SessionRecord → TitledRow
titled_row app s = (s.session_id, record_title app s, s.digest.summary)

abbrev pub title_count : List TitledRow → Text → ℕ
title_count [] title = 0
title_count ((id, t, summary) ∷ rows) title =
    let rest = title_count rows title in if text_eq t title then suc rest else rest

abbrev pub pair_count : List TitledRow → Text → Text → ℕ
pair_count [] title summary = 0
pair_count ((id, t, s) ∷ rows) title summary =
    let rest = pair_count rows title summary in
    if text_eq t title && text_eq s summary then suc rest else rest

abbrev pub separator : List TitledRow → Text → Text → Option Text
separator rows title summary =
    if not (is_empty summary) && (not (text_eq summary title) && pair_count rows title summary == 1)
    then some summary
    else none

-- The entries of the map; of one id the last stands.
abbrev pub put_first : Text → Option Text → List (Text × Option Text) → List (Text × Option Text)
put_first id value entries = elim (find entries id) [
  | none ↦ (id, value) ∷ entries
  | some later ↦ entries
]

abbrev pub colliding : List TitledRow → List TitledRow → List (Text × Option Text)
colliding all [] = []
colliding all ((id, title, summary) ∷ rows) =
    let rest = colliding all rows in
    if ltb 1 (title_count all title) then put_first id (separator all title summary) rest else rest

unfoldable pub session_disambiguators : App → ProjectGroup → List (Text × Option Text)
session_disambiguators app group =
    let rows = map (titled_row app) group.sessions in colliding rows rows
