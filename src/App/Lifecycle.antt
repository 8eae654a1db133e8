-- ===== src/App/Lifecycle.antt =====
-- crates/core/src/app/session.rs, crates/core/src/app/tabs.rs: sessions launched and reported on,
-- with their panes and tabs. A handler returns the application and its effects.
use termherd.Prelude.{ℕ, ◌||◌, List, [], ◌∷◌, Option, none, some, if◌then◌else◌}
use termherd.Text.{Text}
use termherd.Pane.{SessionId, SplitDir}
use termherd.Workspace
use termherd.Workspace.{Workspace}
use termherd.Workspace.Panes
use termherd.Session.{
  Launch, LaunchSpec, Placement, foreground, background, SpawnSpec, ForegroundJob, SessionFile,
  SessionStatus, is_exited, is_attention, LiveSession, new_session, is_some, shell,
  remember_proven_id,
}
use termherd.Registry.{get, allocate, insert, update_session}
use termherd.Effect.{Effect, spawn}
use termherd.App.{App, is_live}
use termherd.App.Retitle.{retitle_tabs}

abbrev default_cols : ℕ
default_cols = 80

abbrev default_rows : ℕ
default_rows = 24

unfoldable pub if_live : App → SessionId → Effect → List Effect
if_live app session effect = if is_live app session then effect ∷ [] else []

abbrev pub spawn_spec : SessionId → Option Text → Launch → SpawnSpec
spawn_spec id cwd launch = record {
  session = id;
  cwd = cwd;
  launch = launch;
  cols = default_cols;
  rows = default_rows;
  mcp = none;
}

-- The tab of a launch, in front or not.
unfoldable pub placed : Workspace → Placement → SessionId → Text → Workspace
placed w foreground id title = Workspace.open_tab w id title
placed w background id title = (Workspace.append w id title).0

unfoldable pub launch : App → LaunchSpec → App × List Effect
unfolding placed
launch app spec =
    let (sessions', minted) = allocate app.sessions in
    elim minted [
      | none ↦ (record app { sessions = sessions' }, [])
      | some id ↦ (
        retitle_tabs (record app {
          sessions = insert sessions' (new_session id spec.cwd spec.launch);
          workspace = placed app.workspace spec.placement id spec.title;
        }),
        spawn (spawn_spec id spec.cwd spec.launch) ∷ [],
      )
    ]

-- The directory of the focused pane.
unfoldable pub focused_cwd : App → Option Text
focused_cwd app = elim (Panes.focused_session app.workspace) [
  | none ↦ none
  | some focused ↦ elim (get app.sessions focused) [ none ↦ none | some live ↦ live.cwd ]
]

unfoldable pub split_focused : App → SplitDir → App × List Effect
unfolding focused_cwd
split_focused app dir =
    let (sessions', minted) = allocate app.sessions in
    elim minted [
      | none ↦ (record app { sessions = sessions' }, [])
      | some id ↦
          let cwd = focused_cwd app in
          let (w', answer) = Panes.split_focused app.workspace dir id in
          elim answer [
            | none ↦ (record app { sessions = sessions'; workspace = w' }, [])
            | some _ ↦ (
              record app { sessions = insert sessions' (new_session id cwd shell); workspace = w' },
              spawn (spawn_spec id cwd shell) ∷ [],
            )
          ]
    ]

abbrev pub unpark_hosting : Workspace → SessionId → Workspace
unpark_hosting w session = elim (Workspace.tab_of w session) [
  | none ↦ w
  | some index ↦ (Workspace.unpark w index).0
]

abbrev pub with_status : SessionStatus → LiveSession → LiveSession
with_status status live = record live { status = status }

unfoldable pub status_changed : App → SessionId → SessionStatus → App
status_changed app session status = elim (get app.sessions session) [
  | none ↦ app
  | some live ↦ if is_exited live.status then app else record app {
    sessions = update_session app.sessions session (with_status status);
    workspace = if is_attention status then unpark_hosting app.workspace session else app.workspace;
  }
]

abbrev pub with_job : Option ForegroundJob → LiveSession → LiveSession
with_job job live = remember_proven_id (record live {
  foreground_reported = live.foreground_reported || is_some job;
  foreground = job;
})

unfoldable pub foreground_job_changed : App → SessionId → Option ForegroundJob → App
foreground_job_changed app session job =
    retitle_tabs (record app { sessions = update_session app.sessions session (with_job job) })

abbrev pub with_file : Option SessionFile → LiveSession → LiveSession
with_file file live = remember_proven_id (record live { session_file = file })

unfoldable pub session_file_read : App → SessionId → Option SessionFile → App
session_file_read app session file =
    retitle_tabs (record app { sessions = update_session app.sessions session (with_file file) })

abbrev pub spawned_since : ℕ → LiveSession → LiveSession
spawned_since at live = record live { spawned_at = some at }

unfoldable pub session_spawned : App → SessionId → ℕ → App
session_spawned app session at = record app {
  sessions = update_session app.sessions session (spawned_since at);
}

abbrev pub with_cwd : Text → LiveSession → LiveSession
with_cwd cwd live = record live { cwd = some cwd }

-- The arm of `SessionCwdChanged`.
unfoldable pub session_cwd_changed : App → SessionId → Text → App
session_cwd_changed app session cwd = record app {
  sessions = update_session app.sessions session (with_cwd cwd);
}

unfoldable pub running_since : App → SessionId → Option ℕ
running_since app session = elim (get app.sessions session) [
  | none ↦ none
  | some live ↦ if is_exited live.status then none else live.spawned_at
]
