-- ===== src/App/Closing.antt =====
-- crates/core/src/app/tabs.rs, crates/core/src/app/session.rs: tabs and panes closed, by the user or
-- with their PTY, and tabs reopened.
use termherd.Prelude.{
  ℕ, Bool, false, ◌&&◌, List, [], ◌∷◌, ◌++◌, Option, none, some, ◌==◌, ltb, map, if◌then◌else◌,
  get_elem?, length, erase_idx,
}
use termherd.Text.{Text}
use termherd.Pane.{SessionId}
use termherd.Tab
use termherd.Tab.{Tab}
use termherd.Workspace
use termherd.Workspace.{Workspace}
use termherd.Workspace.Panes
use termherd.Session.{
  Launch, claude, resume, foreground, exited, LiveSession, is_some, is_claude_launch,
  claude_session_id, with_fresh_id,
}
use termherd.Registry
use termherd.Registry.{get, contains_key, update_session, remove_all}
use termherd.Effect.{Effect, kill}
use termherd.App.{App, ClosedTab, record_for}
use termherd.App.Lifecycle.{launch}

unfoldable pub release_closed_pane : App → SessionId → App × List Effect
release_closed_pane app id =
    (record app { sessions = Registry.remove app.sessions id }, kill id ∷ [])

unfoldable pub reopen_launch : App → LiveSession → Launch
reopen_launch app session = elim (claude_session_id session) [
  | none ↦ session.launch
  | some id ↦
      if is_claude_launch session && is_some (record_for app id)
      then claude (resume id)
      else session.launch
]

abbrev pub max_closed_tabs : ℕ
max_closed_tabs = 16

-- `push`, then `remove(0)` past the cap.
unfoldable pub push_closed : List ClosedTab → ClosedTab → List ClosedTab
push_closed stack closed =
    let pushed = stack ++ closed ∷ [] in
    if ltb max_closed_tabs (length pushed) then erase_idx pushed 0 else pushed

unfoldable pub remember_closed_tab : App → ℕ → App
unfolding push_closed
remember_closed_tab app index = elim (get_elem? app.workspace.tabs index) [
  | none ↦ app
  | some tab ↦ elim (get app.sessions (Tab.first_session tab)) [
    | none ↦ app
    | some session ↦ record app {
      closed_tabs = push_closed app.closed_tabs (record {
        title = tab.title;
        custom_title = tab.custom_title;
        cwd = session.cwd;
        launch = reopen_launch app session;
      });
    }
  ]
]

unfoldable pub close_tab : App → ℕ → App × List Effect
unfolding remember_closed_tab
close_tab app index =
    let remembered = remember_closed_tab app index in
    let (w', sessions) = Workspace.close_tab app.workspace index in
    (
      record remembered { workspace = w'; sessions = remove_all app.sessions sessions },
      map kill sessions,
    )

-- `Vec::pop`: the last entry and the others.
unfoldable pub pop_closed : List ClosedTab → Option (List ClosedTab × ClosedTab)
pop_closed [] = none
pop_closed (t ∷ ts) = elim (pop_closed ts) [
  | none ↦ some ([], t)
  | some (rest, last) ↦ some (t ∷ rest, last)
]

-- The manual name restored on the tab that the launch opened.
unfoldable pub restore_name : App × List Effect → Option Text → App × List Effect
restore_name (app, []) name = (app, [])
restore_name (app, effect ∷ effects) none = (app, effect ∷ effects)
restore_name (app, effect ∷ effects) (some name) = (
  record app { workspace = (Workspace.rename_tab app.workspace app.workspace.active name).0 },
  effect ∷ effects,
)

unfoldable pub reopen_closed_tab : App → Text → App × List Effect
unfolding restore_name
reopen_closed_tab app fresh_claude_id = elim (pop_closed app.closed_tabs) [
  | none ↦ (app, [])
  | some (rest, closed) ↦
      restore_name
        (launch (record app { closed_tabs = rest })
          (record {
            cwd = closed.cwd;
            launch = with_fresh_id closed.launch fresh_claude_id;
            title = closed.title;
            placement = foreground;
          }))
        closed.custom_title
]

-- `tab.sessions() == [session]`.
abbrev pub is_only : List SessionId → SessionId → Bool
is_only (s ∷ []) session = s == session
is_only _ session = false

-- Whether the session's pane is the only one of the tab at `index`.
unfoldable pub only_pane_at : App → ℕ → SessionId → Bool
only_pane_at app index session = elim (get_elem? app.workspace.tabs index) [
  | none ↦ false
  | some tab ↦ is_only (Tab.sessions tab) session
]

-- The end of `close_pane_of`, for a tab of several panes.
unfoldable pub close_one_pane : App → SessionId → Option (App × List Effect)
unfolding release_closed_pane
close_one_pane app session =
    let (w', answer) = Panes.close_pane_of app.workspace session in
    elim answer [
      | none ↦ none
      | some closed ↦ some (release_closed_pane (record app { workspace = w' }) closed)
    ]

unfoldable pub close_pane_of : App → SessionId → Option (App × List Effect)
unfolding only_pane_at close_one_pane
close_pane_of app session = elim (Workspace.tab_of app.workspace session) [
  | none ↦ none
  | some index ↦
      if only_pane_at app index session
      then some (close_tab app index)
      else close_one_pane app session
]

-- `CloseFocusedPane`.
unfoldable pub close_focused_pane : App → App × List Effect
unfolding release_closed_pane
close_focused_pane app =
    let (w', closed) = Panes.close_focused app.workspace in
    elim closed [
      | none ↦ (record app { workspace = w' }, [])
      | some id ↦ release_closed_pane (record app { workspace = w' }) id
    ]

abbrev pub ended : LiveSession → LiveSession
ended live = record live { status = exited; foreground = none }

-- What a PTY that ended leaves where its pane stays open.
unfoldable pub mark_exited : App → SessionId → App
mark_exited app session = record app { sessions = update_session app.sessions session ended }

unfoldable pub pty_exited : App → SessionId → Bool → App × List Effect
unfolding mark_exited
pty_exited app session clean =
    if clean && contains_key app.sessions session
    then elim (close_pane_of app session) [
      | none ↦ (mark_exited app session, [])
      | some closed ↦ closed
    ]
    else (mark_exited app session, [])
