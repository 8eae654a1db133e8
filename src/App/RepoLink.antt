-- ===== src/App/RepoLink.antt =====
-- crates/core/src/app/repo_link.rs: a link shows the tab that works in a repository, or opens a
-- shell there.
use termherd.Prelude.{
  ℕ, Bool, true, false, ◌||◌, List, [], ◌∷◌, ◌++◌, Option, none, some, ◌==◌, if◌then◌else◌, find?,
}
use termherd.Text.{Text}
use termherd.Pane.{SessionId}
use termherd.Tab
use termherd.Tab.{Tab}
use termherd.Workspace.Panes
use termherd.Session.{shell, foreground, or_else}
use termherd.Registry.{get}
use termherd.Effect.{Effect}
use termherd.App.{App}
use termherd.App.Lifecycle.{launch}
use termherd.App.TabViews.{tab_title}

abbrev pub is_separator : ℕ → Bool
is_separator c = c == 47 || c == 92

-- `trim_end_matches(['/', '\\'])`.
unfoldable pub trim_separators : Text → Text
trim_separators [] = []
trim_separators (c ∷ cs) = elim (trim_separators cs) [
  | [] ↦ if is_separator c then [] else c ∷ []
  | d ∷ ds ↦ c ∷ d ∷ ds
]

unfoldable pub strip_prefix : Text → Text → Option Text
strip_prefix path [] = some path
strip_prefix [] (d ∷ ds) = none
strip_prefix (c ∷ cs) (d ∷ ds) = if c == d then strip_prefix cs ds else none

unfoldable pub lies_within : Text → Text → Bool
lies_within path dir = elim (strip_prefix (trim_separators path) (trim_separators dir)) [
  | none ↦ false
  | some [] ↦ true
  | some (c ∷ _) ↦ is_separator c
]

unfoldable pub works_in : App → Text → SessionId → Bool
works_in app repo session = elim (get app.sessions session) [
  | none ↦ false
  | some live ↦ elim live.cwd [ none ↦ false | some cwd ↦ lies_within cwd repo ]
]

-- `tabs.iter().flat_map(Tab::sessions)`.
unfoldable pub all_sessions : List Tab → List SessionId
all_sessions [] = []
all_sessions (tab ∷ tabs) = Tab.sessions tab ++ all_sessions tabs

unfoldable pub session_working_in : App → Text → Option SessionId
unfolding works_in all_sessions
session_working_in app repo =
    let first = find? (works_in app repo) (all_sessions app.workspace.tabs) in
    elim (Panes.focused_session app.workspace) [
      | none ↦ first
      | some focused ↦ if works_in app repo focused then some focused else first
    ]

-- The session that works in the repository, under either spelling.
unfoldable pub working_in_either : App → Text → Option Text → Option SessionId
working_in_either app repo resolved =
    or_else (session_working_in app repo)
      (elim resolved [ none ↦ none | some real ↦ session_working_in app real ])

unfoldable pub open_repo : App → Text → Option Text → App × List Effect
unfolding working_in_either
open_repo app repo resolved = elim (working_in_either app repo resolved) [
  | some session ↦ (record app { workspace = (Panes.reveal_pane_of app.workspace session).0 }, [])
  | none ↦ launch app (record {
    cwd = some repo;
    launch = shell;
    title = tab_title app repo shell;
    placement = foreground;
  })
]
