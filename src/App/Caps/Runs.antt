-- ===== src/App/Caps/Runs.antt =====
-- Each event, and so each run, keeps within the caps.
use termherd.Prelude.{ℕ, refl, List, [], ◌∷◌, Option, arith}
use termherd.Text.{Text}
use termherd.Pane.{SessionId}
use termherd.Tab.{ClaudeColor}
use termherd.Session.{ForegroundJob, SessionFile}
use termherd.App.{App, new_app}
use termherd.App.Retitle.{rename_tab}
use termherd.App.Lifecycle.{
  foreground_job_changed, session_file_read, session_spawned, session_cwd_changed,
}
use termherd.App.Overlays.{
  update_meta, update_repo_meta, rename_session, toggle_collapsed, toggle_expanded,
}
use termherd.App.TabViews.{set_tab_color}
use termherd.App.Targets.{
  set_term_target-IsPointed, activate_target-IsPointed, path_resolved-IsPointed, IsPointed,
}
use termherd.App.Dispatch
use termherd.App.Dispatch.{Event, dispatch, apply}
use termherd.App.Reachable.{state-apply, run}
use termherd.App.Caps.{
  IsCapped, SameCaps, same-IsCapped, retitle_tabs-SameCaps, launch-SameCaps, split_focused-SameCaps,
  status_changed-SameCaps, close_tab-IsCapped, pty_exited-IsCapped, close_pane-IsCapped,
  close_focused_pane-SameCaps, reopen_closed_tab-IsCapped, open_repo-SameCaps,
  toggle_record-IsCapped, record_tick-IsCapped,
}

new-IsCapped : IsCapped new_app
new-IsCapped = record { stack = omega arith; frames = λ r h. absurd (ground arith) }

rename_tab-SameCaps :
    (app : App) (index : ℕ) (title : Text) → SameCaps app (rename_tab app index title)
unfolding rename_tab
rename_tab-SameCaps app index title = ground arith

set_tab_color-SameCaps :
    (app : App) (index : ℕ) (color : ClaudeColor) → SameCaps app (set_tab_color app index color)
unfolding set_tab_color
set_tab_color-SameCaps app index color = ground arith

foreground_job_changed-SameCaps :
    (app : App) (s : SessionId) (job : Option ForegroundJob)
    → SameCaps app (foreground_job_changed app s job)
unfolding foreground_job_changed
foreground_job_changed-SameCaps app s job = retitle_tabs-SameCaps _

session_file_read-SameCaps :
    (app : App) (s : SessionId) (file : Option SessionFile)
    → SameCaps app (session_file_read app s file)
unfolding session_file_read
session_file_read-SameCaps app s file = retitle_tabs-SameCaps _

pointed-IsCapped : (app app' : App) → IsPointed app app' → IsCapped app → IsCapped app'
pointed-IsCapped app app' (hover, (pending, e)) ok =
    rw e (same-IsCapped app (record app { hover = hover; pending_path = pending }) ok (refl, refl))

dispatch-IsCapped : (app : App) (event : Event) → IsCapped app → IsCapped (dispatch app event).0
unfolding dispatch update_meta update_repo_meta toggle_collapsed toggle_expanded rename_session
    session_cwd_changed session_spawned
dispatch-IsCapped app (Dispatch.scan_completed records) ok =
    same-IsCapped app _ ok (retitle_tabs-SameCaps _)
dispatch-IsCapped app (Dispatch.metadata_loaded loaded) ok =
    same-IsCapped app _ ok (retitle_tabs-SameCaps _)
dispatch-IsCapped app (Dispatch.rename_session_event s title) ok =
    same-IsCapped app _ ok (retitle_tabs-SameCaps _)
dispatch-IsCapped app (Dispatch.launch_session spec) ok =
    same-IsCapped app _ ok (launch-SameCaps app spec)
dispatch-IsCapped app (Dispatch.status_changed_event s status) ok =
    same-IsCapped app _ ok (status_changed-SameCaps app s status)
dispatch-IsCapped app (Dispatch.pty_exited_event s clean) ok = pty_exited-IsCapped app s clean ok
dispatch-IsCapped app (Dispatch.foreground_job_changed_event s job) ok =
    same-IsCapped app _ ok (foreground_job_changed-SameCaps app s job)
dispatch-IsCapped app (Dispatch.session_file_read_event s file) ok =
    same-IsCapped app _ ok (session_file_read-SameCaps app s file)
dispatch-IsCapped app (Dispatch.close_tab_event index) ok = close_tab-IsCapped app index ok
dispatch-IsCapped app (Dispatch.close_pane s) ok = close_pane-IsCapped app s ok
dispatch-IsCapped app (Dispatch.reopen_closed_tab_event fresh) ok =
    reopen_closed_tab-IsCapped app fresh ok
dispatch-IsCapped app (Dispatch.rename_tab_event index title) ok =
    same-IsCapped app _ ok (rename_tab-SameCaps app index title)
dispatch-IsCapped app (Dispatch.set_tab_color_event index color) ok =
    same-IsCapped app _ ok (set_tab_color-SameCaps app index color)
dispatch-IsCapped app (Dispatch.split_focused_event dir) ok =
    same-IsCapped app _ ok (split_focused-SameCaps app dir)
dispatch-IsCapped app Dispatch.close_focused_pane_event ok =
    same-IsCapped app _ ok (close_focused_pane-SameCaps app)
dispatch-IsCapped app (Dispatch.open_repo_event path resolved) ok =
    same-IsCapped app _ ok (open_repo-SameCaps app path resolved)
dispatch-IsCapped app (Dispatch.toggle_record_event n) ok = toggle_record-IsCapped app n ok
dispatch-IsCapped app Dispatch.record_tick_event ok = record_tick-IsCapped app ok
dispatch-IsCapped app (Dispatch.term_target s probe) ok =
    pointed-IsCapped app _ (set_term_target-IsPointed app s probe) ok
dispatch-IsCapped app (Dispatch.activate_target_event s probe) ok =
    pointed-IsCapped app _ (activate_target-IsPointed app s probe) ok
dispatch-IsCapped app (Dispatch.path_resolved_event request resolved) ok =
    pointed-IsCapped app _ (path_resolved-IsPointed app request resolved) ok
dispatch-IsCapped app _ ok = same-IsCapped app _ ok (refl, refl)

run_from-IsCapped : (events : List Event) (app : App) → IsCapped app → IsCapped (run app events)
unfolding run
run_from-IsCapped [] app ok = ok
run_from-IsCapped (event ∷ events) app ok =
    run_from-IsCapped events (apply app event).0
      (rw (state-apply app event) (dispatch-IsCapped app event ok))

-- After any sequence of the modelled events from the empty application, the reopen stack holds no
-- more than 16 tabs, and a running screencast has captured fewer frames than its cap.
pub run-IsCapped : (events : List Event) → IsCapped (run new_app events)
run-IsCapped events = run_from-IsCapped events new_app new-IsCapped
