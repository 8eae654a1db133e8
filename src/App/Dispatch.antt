-- ===== src/App/Dispatch.antt =====
-- crates/core/src/app.rs, crates/core/src/app/events.rs: the events and `App::apply`, but for those of
-- the font and the capture.
use termherd.Prelude.{
  ℕ, Bool, true, false, ◌||◌, not, List, [], ◌∷◌, ◌++◌, Option, none, some, if◌then◌else◌,
}
use termherd.Text.{Text}
use termherd.F32.{F32}
use termherd.Pane.{SessionId, SplitDir, Direction, Branch}
use termherd.Tab.{ClaudeColor}
use termherd.Workspace
use termherd.Workspace.{Workspace}
use termherd.Workspace.Panes
use termherd.Session.{LaunchSpec, SessionStatus, ForegroundJob, SessionFile}
use termherd.Browser.{SessionRecord, group_projects}
use termherd.Metadata.{Overlay, SessionMeta, RepoMeta}
use termherd.Effect.{
  Effect, ScrollTarget, SelectOp, write, resize, scroll, select, copy_terminal_selection, tab_shown,
  PointerEvent, terminal_pointer,
}
use termherd.App.{App}
use termherd.App.Retitle.{retitle_tabs, rename_tab}
use termherd.App.Overlays.{
  update_meta, update_repo_meta, rename_session, toggle_collapsed, toggle_expanded,
}
use termherd.App.Recorder.{toggle_record, record_tick, notify_session}
use termherd.App.Lifecycle.{
  if_live, launch, split_focused, status_changed, foreground_job_changed, session_file_read,
  session_spawned, session_cwd_changed,
}
use termherd.App.Closing.{
  close_tab, reopen_closed_tab, close_pane_of, close_focused_pane, pty_exited,
}
use termherd.App.RepoLink.{open_repo}
use termherd.App.TabViews.{set_tab_color}
use termherd.Open.{OpenCommand}
use termherd.Hover.{TargetProbe, PathRequest, ResolvedPath}
use termherd.App.Hovering.{load_open_command, set_term_target, path_resolved, activate_target}
use termherd.App.Command.{send_claude_command}
use termherd.Claude.Command.{ClaudeCommand}
use termherd.Claude.Prompt.{PromptInput}

pub data Event : Type 0 where
  scan_completed : List SessionRecord → Event
  search_changed : Text → Event
  search_titles_only_toggled : Bool → Event
  launch_session : LaunchSpec → Event
  terminal_input : (session : SessionId) (bytes : List ℕ) → Event
  terminal_resized : (session : SessionId) (cols rows : ℕ) → Event
  select_event : (session : SessionId) (op : SelectOp) → Event
  copy_terminal_selection_event : (session : SessionId) → Event
  scroll_viewport : (session : SessionId) (target : ScrollTarget) → Event
  status_changed_event : (session : SessionId) (status : SessionStatus) → Event
  pty_exited_event : (session : SessionId) (clean : Bool) → Event
  session_title_changed : (session : SessionId) (title : Text) → Event
  session_cwd_changed_event : (session : SessionId) (cwd : Text) → Event
  foreground_job_changed_event : (session : SessionId) (job : Option ForegroundJob) → Event
  session_file_read_event : (session : SessionId) (file : Option SessionFile) → Event
  session_spawned_event : (session : SessionId) (at : ℕ) → Event
  activate_tab close_tab_event toggle_park_tab : (index : ℕ) → Event
  close_pane : (session : SessionId) → Event
  move_tab : (from to : ℕ) → Event
  reopen_closed_tab_event : (fresh_claude_id : Text) → Event
  rename_tab_event : (index : ℕ) (title : Text) → Event
  set_tab_color_event : (index : ℕ) (color : ClaudeColor) → Event
  split_focused_event : SplitDir → Event
  set_split_ratio : (tab : ℕ) (path : List Branch) (ratio : F32) → Event
  close_focused_pane_event focus_next_pane focus_prev_pane : Event
  focus_pane reveal_pane : (session : SessionId) → Event
  focus_dir : Direction → Event
  metadata_loaded : Overlay → Event
  toggle_star toggle_repo_star declare_repo forget_repo toggle_archive : Text → Event
  open_repo_event : (path : Text) (resolved : Option Text) → Event
  rename_session_event : (session title : Text) → Event
  show_archived_toggled : Bool → Event
  toggle_sidebar : Event
  collapsed_loaded : List Text → Event
  toggle_collapsed_event : Text → Event
  session_limit_loaded : ℕ → Event
  toggle_expanded_event : Text → Event
  session_notified : (session : SessionId) (body : Text) → Event
  toggle_record_event : (max_frames : ℕ) → Event
  record_tick_event : Event
  send_claude_command_event :
      (session : SessionId) (command : ClaudeCommand) (prompt : PromptInput) → Event
  terminal_pointer_event : (session : SessionId) (pointer : PointerEvent) → Event
  term_target : (session : SessionId) (probe : Option TargetProbe) → Event
  activate_target_event : (session : SessionId) (probe : TargetProbe) → Event
  path_resolved_event : (request : PathRequest) (resolved : Option ResolvedPath) → Event
  open_command_loaded : Option OpenCommand → Event
  window_focus_changed : Bool → Event

-- The application with its workspace replaced, and no effect.
abbrev pub moved_to : App → Workspace → App × List Effect
moved_to app w = (record app { workspace = w }, [])

abbrev pub silent : App → App × List Effect
silent app = (app, [])

abbrev starred_toggled : SessionMeta → SessionMeta
starred_toggled meta = record meta { starred = not meta.starred }

abbrev archived_toggled : SessionMeta → SessionMeta
archived_toggled meta = record meta { archived = not meta.archived }

abbrev repo_starred_toggled : RepoMeta → RepoMeta
repo_starred_toggled meta = record meta { starred = not meta.starred }

abbrev declared_as : Bool → RepoMeta → RepoMeta
declared_as b meta = record meta { declared = b }

unfoldable pub dispatch : App → Event → App × List Effect
dispatch app (scan_completed records) = silent (
    retitle_tabs
      (record app { sidebar = record (app.sidebar) { projects = group_projects records } }))
dispatch app (search_changed query) =
    silent (record app { sidebar = record (app.sidebar) { search = query } })
dispatch app (search_titles_only_toggled titles_only) =
    silent (record app { sidebar = record (app.sidebar) { search_titles_only = titles_only } })
dispatch app (launch_session spec) = launch app spec
dispatch app (terminal_input s bytes) = (app, if_live app s (write s bytes))
dispatch app (terminal_resized s cols rows) = (app, if_live app s (resize s cols rows))
dispatch app (select_event s op) = (app, if_live app s (select s op))
dispatch app (copy_terminal_selection_event s) = (app, if_live app s (copy_terminal_selection s))
dispatch app (scroll_viewport s target) = (app, if_live app s (scroll s target))
dispatch app (status_changed_event s status) = silent (status_changed app s status)
dispatch app (pty_exited_event s clean) = pty_exited app s clean
dispatch app (session_title_changed s title) =
    moved_to app (Workspace.set_live_title app.workspace s title).0
dispatch app (session_cwd_changed_event s cwd) = silent (session_cwd_changed app s cwd)
dispatch app (foreground_job_changed_event s job) = silent (foreground_job_changed app s job)
dispatch app (session_file_read_event s file) = silent (session_file_read app s file)
dispatch app (session_spawned_event s at) = silent (session_spawned app s at)
dispatch app (activate_tab index) = moved_to app (Workspace.activate app.workspace index).0
dispatch app (close_tab_event index) = close_tab app index
dispatch app (toggle_park_tab index) = moved_to app (Workspace.toggle_park app.workspace index).0
dispatch app (close_pane s) = elim (close_pane_of app s) [ none ↦ (app, []) | some closed ↦ closed ]
dispatch app (move_tab from to) = moved_to app (Workspace.move_tab app.workspace from to).0
dispatch app (reopen_closed_tab_event fresh) = reopen_closed_tab app fresh
dispatch app (rename_tab_event index title) = silent (rename_tab app index title)
dispatch app (set_tab_color_event index color) = silent (set_tab_color app index color)
dispatch app (split_focused_event dir) = split_focused app dir
dispatch app (set_split_ratio tab path ratio) =
    moved_to app (Panes.set_split_ratio app.workspace tab path ratio).0
dispatch app close_focused_pane_event = close_focused_pane app
dispatch app focus_next_pane = moved_to app (Panes.focus_next app.workspace).0
dispatch app focus_prev_pane = moved_to app (Panes.focus_prev app.workspace).0
dispatch app (focus_pane s) = moved_to app (Panes.focus_pane_of app.workspace s).0
dispatch app (reveal_pane s) = moved_to app (Panes.reveal_pane_of app.workspace s).0
dispatch app (focus_dir dir) = moved_to app (Panes.focus_dir app.workspace dir).0
dispatch app (metadata_loaded loaded) =
    silent (retitle_tabs (record app { metadata = loaded.sessions; repos = loaded.repos }))
dispatch app (toggle_star s) = update_meta app s starred_toggled
dispatch app (toggle_repo_star path) = update_repo_meta app path repo_starred_toggled
dispatch app (declare_repo path) = update_repo_meta app path (declared_as true)
dispatch app (forget_repo path) = update_repo_meta app path (declared_as false)
dispatch app (toggle_archive s) = update_meta app s archived_toggled
dispatch app (open_repo_event path resolved) = open_repo app path resolved
dispatch app (rename_session_event s title) = rename_session app s title
dispatch app (show_archived_toggled show) =
    silent (record app { sidebar = record (app.sidebar) { show_archived = show } })
dispatch app toggle_sidebar =
    silent (record app { sidebar = record (app.sidebar) { hidden = not app.sidebar.hidden } })
dispatch app (collapsed_loaded paths) =
    silent (record app { sidebar = record (app.sidebar) { collapsed = paths } })
dispatch app (toggle_collapsed_event path) = toggle_collapsed app path
dispatch app (session_limit_loaded limit) =
    silent (record app { sidebar = record (app.sidebar) { session_limit = limit } })
dispatch app (toggle_expanded_event path) = toggle_expanded app path
dispatch app (session_notified s body) = (app, notify_session app s body)
dispatch app (toggle_record_event max_frames) = toggle_record app max_frames
dispatch app record_tick_event = record_tick app
dispatch app (send_claude_command_event s command prompt) =
    (app, send_claude_command app s command prompt)
dispatch app (terminal_pointer_event s pointer) = (app, if_live app s (terminal_pointer s pointer))
dispatch app (term_target s probe) = set_term_target app s probe
dispatch app (activate_target_event s probe) = activate_target app s probe
dispatch app (path_resolved_event request resolved) = path_resolved app request resolved
dispatch app (open_command_loaded command) = silent (load_open_command app command)
dispatch app (window_focus_changed focused) = silent (record app { window_focused = focused })

-- `matches!(event, ActivateTab(_) | ToggleParkTab(_) | OpenRepo { .. })`.
unfoldable pub is_gesture : Event → Bool
is_gesture (activate_tab _) = true
is_gesture (toggle_park_tab _) = true
is_gesture (open_repo_event _ _) = true
is_gesture _ = false

-- Whether the tab shown before the event, by its first session, is shown no more.
unfoldable pub left : Workspace → Workspace → Bool
left before after = elim (Workspace.shown_session before) [
  | none ↦ false
  | some session ↦ not (Workspace.shows after session)
]

unfoldable pub apply : App → Event → App × List Effect
unfolding is_gesture left
apply app event =
    let (app', effects) = dispatch app event in
    if is_gesture event || left app.workspace app'.workspace
    then (app', effects ++ tab_shown ∷ [])
    else (app', effects)
