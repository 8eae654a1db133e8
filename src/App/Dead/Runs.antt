-- ===== src/App/Dead/Runs.antt =====
-- Each event, and so each run, leaves the ended sessions ended.
use termherd.Prelude.{◌≤◌, ◌≡◌, refl, false, not, List, [], ◌∷◌, arith}
use termherd.Pane.{SessionId}
use termherd.Registry.{get}
use termherd.App.{App, is_live}
use termherd.App.Lifecycle.{session_spawned, session_cwd_changed}
use termherd.App.Closing.{close_tab}
use termherd.App.Overlays.{
  update_meta, update_repo_meta, rename_session, toggle_collapsed, toggle_expanded,
}
use termherd.App.Targets.{
  set_term_target-IsPointed, activate_target-IsPointed, path_resolved-IsPointed, IsPointed,
}
use termherd.App.Dispatch
use termherd.App.Dispatch.{Event, dispatch, apply}
use termherd.App.Reachable.{state-apply}
use termherd.App.Dead.{
  Onward, ended_in, Onward-refl, Onward-same, Onward-trans, remove_all-Onward,
  update_session-Onward,
}
use termherd.App.Reachable.{run}
use termherd.App.Dead.Handlers.{
  retitled-Onward, launch-Onward, split_focused-Onward, status_changed-Onward,
  foreground_job_changed-Onward, session_file_read-Onward, pty_exited-Onward, close_pane-Onward,
  close_focused_pane-Onward, reopen_closed_tab-Onward, open_repo-Onward, sessions-rename_tab,
  sessions-set_tab_color, sessions-toggle_record, sessions-record_tick,
}

pointed-Onward : (app app' : App) → IsPointed app app' → Onward app.sessions app'.sessions
pointed-Onward app app' (hover, (pending, e)) = rw e (Onward-refl app.sessions)

dispatch-Onward : (app : App) (event : Event) → Onward app.sessions (dispatch app event).0.sessions
unfolding dispatch update_meta update_repo_meta toggle_collapsed toggle_expanded rename_session
    close_tab session_cwd_changed session_spawned
dispatch-Onward app (Dispatch.scan_completed records) =
    retitled-Onward app.sessions _ (Onward-refl _)
dispatch-Onward app (Dispatch.metadata_loaded loaded) =
    retitled-Onward app.sessions _ (Onward-refl _)
dispatch-Onward app (Dispatch.rename_session_event s title) =
    retitled-Onward app.sessions _ (Onward-refl _)
dispatch-Onward app (Dispatch.launch_session spec) = launch-Onward app spec
dispatch-Onward app (Dispatch.status_changed_event s status) = status_changed-Onward app s status
dispatch-Onward app (Dispatch.pty_exited_event s clean) = pty_exited-Onward app s clean
dispatch-Onward app (Dispatch.session_cwd_changed_event s cwd) =
    update_session-Onward app.sessions s _ (λ live. refl) (λ live h. h)
dispatch-Onward app (Dispatch.session_spawned_event s at) =
    update_session-Onward app.sessions s _ (λ live. refl) (λ live h. h)
dispatch-Onward app (Dispatch.foreground_job_changed_event s job) =
    foreground_job_changed-Onward app s job
dispatch-Onward app (Dispatch.session_file_read_event s file) = session_file_read-Onward app s file
dispatch-Onward app (Dispatch.close_tab_event index) = remove_all-Onward app.sessions _
dispatch-Onward app (Dispatch.close_pane s) = close_pane-Onward app s
dispatch-Onward app (Dispatch.reopen_closed_tab_event fresh) = reopen_closed_tab-Onward app fresh
dispatch-Onward app (Dispatch.rename_tab_event index title) =
    Onward-same _ _ (sessions-rename_tab app index title)
dispatch-Onward app (Dispatch.set_tab_color_event index color) =
    Onward-same _ _ (sessions-set_tab_color app index color)
dispatch-Onward app (Dispatch.split_focused_event dir) = split_focused-Onward app dir
dispatch-Onward app Dispatch.close_focused_pane_event = close_focused_pane-Onward app
dispatch-Onward app (Dispatch.open_repo_event path resolved) = open_repo-Onward app path resolved
dispatch-Onward app (Dispatch.toggle_record_event n) =
    Onward-same _ _ (sessions-toggle_record app n)
dispatch-Onward app Dispatch.record_tick_event = Onward-same _ _ (sessions-record_tick app)
dispatch-Onward app (Dispatch.term_target s probe) =
    pointed-Onward app _ (set_term_target-IsPointed app s probe)
dispatch-Onward app (Dispatch.activate_target_event s probe) =
    pointed-Onward app _ (activate_target-IsPointed app s probe)
dispatch-Onward app (Dispatch.path_resolved_event request resolved) =
    pointed-Onward app _ (path_resolved-IsPointed app request resolved)
dispatch-Onward app _ = Onward-refl app.sessions

run-Onward : (events : List Event) (app : App) → Onward app.sessions (run app events).sessions
unfolding run
run-Onward [] app = Onward-refl app.sessions
run-Onward (event ∷ events) app =
    Onward-trans app.sessions (apply app event).0.sessions _
      (rw (state-apply app event) (dispatch-Onward app event))
      (run-Onward events (apply app event).0)

is_live-ended_in : (app : App) (s : SessionId) → is_live app s ≡ not (ended_in (get app.sessions s))
unfolding is_live
is_live-ended_in app s = ground arith

-- A session whose id is already minted and that is not live, being unregistered or exited, is not
-- live after any sequence of the modelled events.
pub is_live-run :
    (app : App) (events : List Event) (s : SessionId)
    → s ≤ app.sessions.next_id
    → is_live app s ≡ false
    → is_live (run app events) s ≡ false
is_live-run app events s minted h = ground (
  arith,
  is_live-ended_in app s,
  is_live-ended_in (run app events) s,
  (run-Onward events app).dead s minted,
)
