-- ===== src/App/Reachable.antt =====
-- Every event, and so every run of the application, keeps the registry in step with the panes.
use termherd.Prelude.{
  ℕ, ◌≡◌, refl, get_elem?, arith, inl, inr, ◌||◌, List, [], ◌∷◌, Option, some, Option-cases,
  Bool-cases,
}
use termherd.Text.{Text}
use termherd.Pane.{SessionId}
use termherd.Workspace.{Workspace}
use termherd.Workspace.Panes
use termherd.Tab.{ClaudeColor}
use termherd.Indices.{next, prev}
use termherd.Workspace.Valid.{Keeps, unchanged}
use termherd.Workspace.Changes.{activate-Keeps, toggle_park-Keeps, move_tab-Keeps}
use termherd.Workspace.PaneChanges.{
  set_split_ratio-Keeps, cycle_focus-Keeps, focus_pane_of-Keeps, focus_dir-Keeps,
  reveal_pane_of-Keeps,
}
use termherd.Workspace.Titles.{set_live_title-Keeps, rename_tab-Keeps, set_same-Keeps}
use termherd.App.{App, new_app}
use termherd.App.Retitle.{rename_tab, tab_names_through_claude}
use termherd.App.Overlays.{
  update_meta, update_repo_meta, rename_session, toggle_collapsed, toggle_expanded,
}
use termherd.App.Recorder.{toggle_record, record_tick}
use termherd.App.Lifecycle.{session_spawned, session_cwd_changed, spawned_since, with_cwd}
use termherd.App.Closing.{close_pane_of}
use termherd.App.RepoLink.{open_repo, working_in_either}
use termherd.App.TabViews.{set_tab_color, tab_keeper, by_claude, by_termherd}
use termherd.App.Targets.{
  set_term_target-IsPointed, activate_target-IsPointed, path_resolved-IsPointed, IsPointed,
}
use termherd.App.Dispatch
use termherd.App.Dispatch.{Event, dispatch, apply, is_gesture, left}
use termherd.App.Registered.{
  IsRegistered, new-IsRegistered, Keeps-IsRegistered, retitle_tabs-IsRegistered,
}
use termherd.App.Handlers.{
  launch-IsRegistered, split_focused-IsRegistered, status_changed-IsRegistered,
  foreground_job_changed-IsRegistered, session_file_read-IsRegistered, entry-IsRegistered,
}
use termherd.App.Closed.{
  close_tab-IsRegistered, close_pane_of-IsRegistered, close_focused_pane-IsRegistered,
  pty_exited-IsRegistered, reopen_closed_tab-IsRegistered,
}

-- The panes moved about, and nothing else.
moved-IsRegistered :
    (app : App) (w : Workspace)
    → IsRegistered app
    → Keeps app.workspace w
    → IsRegistered (record app { workspace = w })
moved-IsRegistered app w ok keeps = Keeps-IsRegistered ok keeps (λ s. refl) refl

-- The panes and the registry are not touched.
beside-IsRegistered :
    (app app' : App)
    → IsRegistered app
    → app'.workspace ≡ app.workspace
    → app'.sessions ≡ app.sessions
    → IsRegistered app'
beside-IsRegistered app app' ok w s =
    Keeps-IsRegistered ok (rw w (unchanged app.workspace ok.valid)) (λ t. rw s refl) (rw s refl)

close_pane-IsRegistered :
    (app : App) (s : SessionId)
    → IsRegistered app
    → IsRegistered (dispatch app (Dispatch.close_pane s)).0
unfolding dispatch
close_pane-IsRegistered app s ok = elim (Option-cases (close_pane_of app s)) [
  | inl e ↦ rw (e, dispatch) ok
  | inr (answer, e) ↦ rw (e, dispatch) (close_pane_of-IsRegistered app s answer e ok)
]

renamed_tab-IsRegistered :
    (app : App) (index : ℕ) (title : Text)
    → IsRegistered app
    → IsRegistered (rename_tab app index title)
unfolding rename_tab
renamed_tab-IsRegistered app index title ok =
    elim (Bool-cases (tab_names_through_claude app index)) [
      | inl e ↦ rw (e, rename_tab) ok
      | inr e ↦
          rw (e, rename_tab)
            (moved-IsRegistered app _ ok (rename_tab-Keeps app.workspace index title ok.valid))
    ]

open_repo-IsRegistered :
    (app : App) (path : Text) (resolved : Option Text)
    → IsRegistered app
    → IsRegistered (open_repo app path resolved).0
unfolding open_repo
open_repo-IsRegistered app path resolved ok =
    elim (Option-cases (working_in_either app path resolved)) [
      | inl e ↦ rw (e, open_repo) (launch-IsRegistered app _ ok)
      | inr (session, e) ↦
          rw (e, open_repo)
            (moved-IsRegistered app _ ok (reveal_pane_of-Keeps app.workspace ok.valid session))
    ]

set_tab_color-IsRegistered :
    (app : App) (index : ℕ) (color : ClaudeColor)
    → IsRegistered app
    → IsRegistered (set_tab_color app index color)
unfolding set_tab_color
set_tab_color-IsRegistered app index color ok = elim (Option-cases (tab_keeper app index)) [
  | inl e ↦ rw (e, set_tab_color) ok
  | inr (by_claude, e) ↦ rw (e, set_tab_color) ok
  | inr (by_termherd, e) ↦ elim (Option-cases (get_elem? app.workspace.tabs index)) [
    | inl n ↦ rw (e, set_tab_color) (rw n ok)
    | inr (tab, n) ↦
        rw (e, set_tab_color)
          (rw n (
            moved-IsRegistered app _ ok (
              set_same-Keeps app.workspace index tab (record tab { color = some color }) ok.valid n
                (record { root = refl; focus = refl; parked = refl }))))
  ]
]

toggle_record_beside :
    (app : App) (max_frames : ℕ)
    → ((toggle_record app max_frames).0.workspace ≡ app.workspace)
      × ((toggle_record app max_frames).0.sessions ≡ app.sessions)
unfolding toggle_record
toggle_record_beside app max_frames = ground arith

record_tick_beside :
    (app : App)
    → ((record_tick app).0.workspace ≡ app.workspace)
      × ((record_tick app).0.sessions ≡ app.sessions)
unfolding record_tick
record_tick_beside app = ground arith

pointed-IsRegistered : (app app' : App) → IsPointed app app' → IsRegistered app → IsRegistered app'
pointed-IsRegistered app app' (hover, (pending, e)) ok =
    rw e
      (beside-IsRegistered app (record app { hover = hover; pending_path = pending }) ok refl refl)

pub dispatch-IsRegistered :
    (app : App) (event : Event) → IsRegistered app → IsRegistered (dispatch app event).0
unfolding dispatch update_meta update_repo_meta toggle_collapsed toggle_expanded rename_session
    session_spawned session_cwd_changed Panes.focus_next Panes.focus_prev
dispatch-IsRegistered app (Dispatch.scan_completed records) ok =
    retitle_tabs-IsRegistered _ (beside-IsRegistered app _ ok refl refl)
dispatch-IsRegistered app (Dispatch.launch_session spec) ok = launch-IsRegistered app spec ok
dispatch-IsRegistered app (Dispatch.status_changed_event s status) ok =
    status_changed-IsRegistered app s status ok
dispatch-IsRegistered app (Dispatch.pty_exited_event s clean) ok =
    pty_exited-IsRegistered app s clean ok
dispatch-IsRegistered app (Dispatch.session_title_changed s title) ok =
    moved-IsRegistered app _ ok (set_live_title-Keeps app.workspace s title ok.valid)
dispatch-IsRegistered app (Dispatch.session_cwd_changed_event s cwd) ok =
    entry-IsRegistered app s (with_cwd cwd) (λ live. refl) ok
dispatch-IsRegistered app (Dispatch.foreground_job_changed_event s job) ok =
    foreground_job_changed-IsRegistered app s job ok
dispatch-IsRegistered app (Dispatch.session_file_read_event s file) ok =
    session_file_read-IsRegistered app s file ok
dispatch-IsRegistered app (Dispatch.session_spawned_event s at) ok =
    entry-IsRegistered app s (spawned_since at) (λ live. refl) ok
dispatch-IsRegistered app (Dispatch.activate_tab index) ok =
    moved-IsRegistered app _ ok (activate-Keeps app.workspace ok.valid index)
dispatch-IsRegistered app (Dispatch.close_tab_event index) ok = close_tab-IsRegistered app index ok
dispatch-IsRegistered app (Dispatch.toggle_park_tab index) ok =
    moved-IsRegistered app _ ok (toggle_park-Keeps app.workspace ok.valid index)
dispatch-IsRegistered app (Dispatch.close_pane s) ok = close_pane-IsRegistered app s ok
dispatch-IsRegistered app (Dispatch.move_tab from to) ok =
    moved-IsRegistered app _ ok (move_tab-Keeps app.workspace ok.valid from to)
dispatch-IsRegistered app (Dispatch.reopen_closed_tab_event fresh) ok =
    reopen_closed_tab-IsRegistered app fresh ok
dispatch-IsRegistered app (Dispatch.rename_tab_event index title) ok =
    renamed_tab-IsRegistered app index title ok
dispatch-IsRegistered app (Dispatch.set_tab_color_event index color) ok =
    set_tab_color-IsRegistered app index color ok
dispatch-IsRegistered app (Dispatch.split_focused_event dir) ok =
    split_focused-IsRegistered app dir ok
dispatch-IsRegistered app (Dispatch.set_split_ratio tab path ratio) ok =
    moved-IsRegistered app _ ok (set_split_ratio-Keeps app.workspace ok.valid tab path ratio)
dispatch-IsRegistered app Dispatch.close_focused_pane_event ok =
    close_focused_pane-IsRegistered app ok
dispatch-IsRegistered app Dispatch.focus_next_pane ok =
    moved-IsRegistered app _ ok (cycle_focus-Keeps app.workspace ok.valid next)
dispatch-IsRegistered app Dispatch.focus_prev_pane ok =
    moved-IsRegistered app _ ok (cycle_focus-Keeps app.workspace ok.valid prev)
dispatch-IsRegistered app (Dispatch.focus_pane s) ok =
    moved-IsRegistered app _ ok (focus_pane_of-Keeps app.workspace ok.valid s)
dispatch-IsRegistered app (Dispatch.reveal_pane s) ok =
    moved-IsRegistered app _ ok (reveal_pane_of-Keeps app.workspace ok.valid s)
dispatch-IsRegistered app (Dispatch.focus_dir dir) ok =
    moved-IsRegistered app _ ok (focus_dir-Keeps app.workspace ok.valid dir)
dispatch-IsRegistered app (Dispatch.metadata_loaded loaded) ok =
    retitle_tabs-IsRegistered _ (beside-IsRegistered app _ ok refl refl)
dispatch-IsRegistered app (Dispatch.open_repo_event path resolved) ok =
    open_repo-IsRegistered app path resolved ok
dispatch-IsRegistered app (Dispatch.rename_session_event s title) ok =
    retitle_tabs-IsRegistered _ (beside-IsRegistered app _ ok refl refl)
dispatch-IsRegistered app (Dispatch.toggle_record_event max_frames) ok =
    let (w, t) = toggle_record_beside app max_frames in beside-IsRegistered app _ ok w t
dispatch-IsRegistered app Dispatch.record_tick_event ok =
    let (w, t) = record_tick_beside app in beside-IsRegistered app _ ok w t
dispatch-IsRegistered app (Dispatch.term_target s probe) ok =
    pointed-IsRegistered app _ (set_term_target-IsPointed app s probe) ok
dispatch-IsRegistered app (Dispatch.activate_target_event s probe) ok =
    pointed-IsRegistered app _ (activate_target-IsPointed app s probe) ok
dispatch-IsRegistered app (Dispatch.path_resolved_event request resolved) ok =
    pointed-IsRegistered app _ (path_resolved-IsPointed app request resolved) ok
dispatch-IsRegistered app _ ok = beside-IsRegistered app _ ok refl refl

pub state-apply : (app : App) (event : Event) → (apply app event).0 ≡ (dispatch app event).0
unfolding apply
state-apply app event =
    elim (Bool-cases (is_gesture event || left app.workspace (dispatch app event).0.workspace)) [
      | inl e ↦ rw (e, apply) refl
      | inr e ↦ rw (e, apply) refl
    ]

pub apply-IsRegistered :
    (app : App) (event : Event) → IsRegistered app → IsRegistered (apply app event).0
apply-IsRegistered app event ok = rw (state-apply app event) (dispatch-IsRegistered app event ok)

-- The application after a sequence of events.
unfoldable pub run : App → List Event → App
run app [] = app
run app (event ∷ events) = run (apply app event).0 events

run_from-IsRegistered :
    (events : List Event) (app : App) → IsRegistered app → IsRegistered (run app events)
unfolding run
run_from-IsRegistered [] app ok = ok
run_from-IsRegistered (event ∷ events) app ok =
    run_from-IsRegistered events (apply app event).0 (apply-IsRegistered app event ok)

-- After any sequence of the modelled events from the empty application: the workspace is valid,
-- every session id is hosted by exactly one pane where it is registered and by none where it is
-- not, every registered id is positive and no greater than the id counter, and the counter fits a
-- u64.
pub run-IsRegistered : (events : List Event) → IsRegistered (run new_app events)
run-IsRegistered events = run_from-IsRegistered events new_app new-IsRegistered
