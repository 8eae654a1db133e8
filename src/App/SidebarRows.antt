-- ===== src/App/SidebarRows.antt =====
-- crates/core/src/app/sidebar.rs: the rows of the sidebar, and what each of them lists.
use termherd.Prelude.{
  ℕ, ◌-◌, Bool, ◌&&◌, ◌||◌, not, List, [], ◌∷◌, ◌++◌, map, Option, none, some, any, leb, ltb, ◌==◌,
  if◌then◌else◌, length, take,
}
use termherd.Text.{Text, text_eq, trim, is_empty}
use termherd.TextMap.{member}
use termherd.Browser.{SessionRecord, ProjectGroup, path_lt, sort_latest}
use termherd.Metadata.{RepoMeta}
use termherd.App.{App}
use termherd.App.Overlays.{is_repo_declared, is_starred}

abbrev pub Row : Type 0
Row = Text × List SessionRecord

abbrev pub is_scanned : List ProjectGroup → Text → Bool
is_scanned groups path = any (λ group. text_eq group.path path) groups

-- The declared repos that the scan does not report.
unfoldable pub undiscovered : List ProjectGroup → List (Text × RepoMeta) → List Text
undiscovered groups [] = []
undiscovered groups ((path, meta) ∷ repos) =
    let rest = undiscovered groups repos in
    if meta.declared && not (is_scanned groups path) then path ∷ rest else rest

abbrev pub insert_path : Text → List Text → List Text
insert_path path [] = path ∷ []
insert_path path (p ∷ paths) =
    let rest = insert_path path paths in if path_lt p path then p ∷ rest else path ∷ p ∷ paths

-- `sort_unstable` of paths.
unfoldable pub sort_paths : List Text → List Text
sort_paths [] = []
sort_paths (path ∷ paths) = insert_path path (sort_paths paths)

abbrev pub scanned_row : ProjectGroup → Row
scanned_row group = (group.path, group.sessions)

abbrev pub declared_row : Text → Row
declared_row path = (path, [])

unfoldable pub merged_rows : App → List Row
merged_rows app =
    map scanned_row app.sidebar.projects
    ++ map declared_row (sort_paths (undiscovered app.sidebar.projects app.repos))

unfoldable pub sidebar_row_shown : App → Text → ℕ → Bool
sidebar_row_shown app path shown_sessions = ltb 0 shown_sessions || is_repo_declared app path

unfoldable pub repo_has_sessions : App → Text → Bool
repo_has_sessions app path =
    any (λ group. text_eq group.path path && ltb 0 (length group.sessions)) app.sidebar.projects

unfoldable pub sidebar_row_empty : App → Text → ℕ → Bool
sidebar_row_empty app path shown_sessions = shown_sessions == 0 && not (repo_has_sessions app path)

unfoldable pub is_collapsed : App → Text → Bool
is_collapsed app path = member app.sidebar.collapsed path

unfoldable pub sidebar_row_collapsed : App → Text → ℕ → Bool
sidebar_row_collapsed app path shown_sessions =
    is_collapsed app path && not (sidebar_row_empty app path shown_sessions)

abbrev pub row_of : List Row → Text → Option (List SessionRecord)
row_of [] path = none
row_of ((row, sessions) ∷ rows) path = if text_eq row path then some sessions else row_of rows path

-- `App::sidebar_row`.
unfoldable pub sidebar_row : App → Text → Option ℕ
sidebar_row app path = elim (row_of (merged_rows app) path) [
  | none ↦ none
  | some sessions ↦
      if sidebar_row_shown app path (length sessions) then some (length sessions) else none
]

pub data SidebarFold : Type 0 where
  truncated : ℕ → SidebarFold
  expanded : SidebarFold

unfoldable pub sidebar_sessions : App → ProjectGroup → List SessionRecord × Option SidebarFold
sidebar_sessions app group =
    let limit = app.sidebar.session_limit in
    if not (is_empty (trim app.sidebar.search)) || limit == 0 || leb (length group.sessions) limit
    then (group.sessions, none)
    else if member app.sidebar.expanded group.path
    then (group.sessions, some expanded)
    else (take limit group.sessions, some (truncated (length group.sessions - limit)))

abbrev pub Favorite : Type 0
Favorite = Text × SessionRecord

abbrev pub starred_of : App → Text → List SessionRecord → List Favorite
starred_of app path [] = []
starred_of app path (session ∷ sessions) =
    let rest = starred_of app path sessions in
    if is_starred app session.session_id then (path, session) ∷ rest else rest

abbrev pub all_starred : App → List ProjectGroup → List Favorite
all_starred app [] = []
all_starred app (group ∷ groups) =
    starred_of app group.path group.sessions ++ all_starred app groups

abbrev modified_of : Favorite → Option ℕ
modified_of (path, session) = session.modified

unfoldable pub favorite_sessions : App → List ProjectGroup → List Favorite
favorite_sessions app groups = sort_latest modified_of (all_starred app groups)
