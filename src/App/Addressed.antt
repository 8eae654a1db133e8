-- ===== src/App/Addressed.antt =====
-- No effect reaches the terminal of a session that is gone or has exited.
use termherd.Prelude.{
  ℕ, ◌+◌, ◌≡◌, refl, sym, ◌∙◌, subst, inl, inr, Bool, ◌&&◌, ◌||◌, List, [], ◌∷◌, Option, none, some,
  arith, Option-cases, Bool-cases, leb, ltb, ◌==◌, map,
}
use mathlib.Core.Option.{some-injective}
use termherd.Text.{Text}
use termherd.Pane.{SessionId, SplitDir}
use termherd.Workspace
use termherd.Workspace.Panes
use termherd.Session.{LaunchSpec}
use termherd.Registry.{u64_max, contains_key}
use termherd.Effect.{Effect, kill, tab_shown}
use termherd.App.{App, is_live}
use termherd.App.Lifecycle.{launch, split_focused}
use termherd.App.Closing.{
  close_tab, release_closed_pane, close_one_pane, only_pane_at, close_pane_of, close_focused_pane,
  pty_exited, pop_closed, restore_name, reopen_closed_tab,
}
use termherd.App.Overlays.{
  update_meta, update_repo_meta, rename_session, toggle_collapsed, toggle_expanded,
}
use termherd.App.Recorder.{toggle_record, record_tick, notify_session, is_focused}
use termherd.App.RepoLink.{open_repo, working_in_either}
use termherd.App.Alive.{
  addressed, AllLive, AllLive-append, if_live-AllLive, send_claude_command-AllLive,
  set_term_target-AllLive, activate_target-AllLive, path_resolved-AllLive,
}
use termherd.App.Dispatch
use termherd.App.Dispatch.{Event, dispatch, apply, is_gesture, left}
use termherd.App.Handlers.{allocated, exhausted}

notify_session-AllLive :
    (app : App) (session : SessionId) (body : Text) → AllLive app (notify_session app session body)
unfolding notify_session addressed
notify_session-AllLive app session body = elim (Bool-cases (is_live app session)) [
  | inr dead ↦ rw (dead, notify_session) tt
  | inl live ↦ elim (Bool-cases (app.window_focused && is_focused app.workspace session)) [
    | inl seen ↦ rw (live, notify_session) (rw seen tt)
    | inr unseen ↦ rw (live, notify_session) (rw unseen ((λ s k. ground arith), tt))
  ]
]

kills-AllLive : (app : App) (ss : List SessionId) → AllLive app (map kill ss)
unfolding addressed
kills-AllLive app [] = tt
kills-AllLive app (s ∷ ss) = ((λ t k. absurd (ground arith)), kills-AllLive app ss)

-- The application is that before the event, the handler's may have launched in a state beside it.
launch-AllLive : (app at : App) (spec : LaunchSpec) → AllLive app (launch at spec).1
unfolding launch addressed
launch-AllLive app at spec = elim (Bool-cases (leb u64_max at.sessions.next_id)) [
  | inl full ↦ rw (exhausted at.sessions full, launch) tt
  | inr room ↦ rw (allocated at.sessions room, launch) ((λ s k. absurd (ground arith)), tt)
]

split_focused-AllLive : (app : App) (dir : SplitDir) → AllLive app (split_focused app dir).1
unfolding split_focused addressed
split_focused-AllLive app dir = elim (Bool-cases (leb u64_max app.sessions.next_id)) [
  | inl full ↦ rw (exhausted app.sessions full, split_focused) tt
  | inr room ↦
      elim (Option-cases (Panes.split_focused app.workspace dir (app.sessions.next_id + 1)).1) [
        | inl e ↦ rw (allocated app.sessions room, split_focused) (rw e tt)
        | inr (_, e) ↦
            rw (allocated app.sessions room, split_focused)
              (rw e ((λ s k. absurd (ground arith)), tt))
      ]
]

close_one_pane-AllLive :
    (app : App) (session : SessionId) (answer : App × List Effect)
    → close_one_pane app session ≡ some answer
    → AllLive app answer.1
unfolding close_one_pane release_closed_pane addressed
close_one_pane-AllLive app session answer h =
    elim (Option-cases (Panes.close_pane_of app.workspace session).1) [
      | inl e ↦
          let stuck : close_one_pane app session ≡ none = rw (e, close_one_pane) refl in
          absurd (ground arith)
      | inr (closed, e) ↦
          let done : close_one_pane app session
              ≡ some (
                  release_closed_pane
                    (record app { workspace = (Panes.close_pane_of app.workspace session).0 })
                    closed) =
            rw (e, close_one_pane) refl in
          subst (λ (r : App × List Effect). AllLive app r.1) (some-injective _ _ (sym done ∙ h))
            ((λ s k. absurd (ground arith)), tt)
    ]

close_pane_of-AllLive :
    (app : App) (session : SessionId) (answer : App × List Effect)
    → close_pane_of app session ≡ some answer
    → AllLive app answer.1
unfolding close_pane_of close_tab
close_pane_of-AllLive app session answer h =
    elim (Option-cases (Workspace.tab_of app.workspace session)) [
      | inl e ↦ absurd (ground arith)
      | inr (index, e) ↦ elim (Bool-cases (only_pane_at app index session)) [
        | inl only ↦
            let done : close_pane_of app session ≡ some (close_tab app index) =
              rw (e, close_pane_of) (rw only refl) in
            subst (λ (r : App × List Effect). AllLive app r.1) (some-injective _ _ (sym done ∙ h))
              (kills-AllLive app _)
        | inr several ↦
            let done : close_pane_of app session ≡ close_one_pane app session =
              rw (e, close_pane_of) (rw several refl) in
            close_one_pane-AllLive app session answer (sym done ∙ h)
      ]
    ]

pty_exited-AllLive :
    (app : App) (session : SessionId) (clean : Bool) → AllLive app (pty_exited app session clean).1
unfolding pty_exited
pty_exited-AllLive app session clean =
    elim (Bool-cases (clean && contains_key app.sessions session)) [
      | inr stays ↦ rw (stays, pty_exited) tt
      | inl leaves ↦ elim (Option-cases (close_pane_of app session)) [
        | inl e ↦ rw (leaves, pty_exited) (rw e tt)
        | inr (answer, e) ↦
            rw (leaves, pty_exited) (rw e (close_pane_of-AllLive app session answer e))
      ]
    ]

close_pane-AllLive :
    (app : App) (s : SessionId) → AllLive app (dispatch app (Dispatch.close_pane s)).1
unfolding dispatch
close_pane-AllLive app s = elim (Option-cases (close_pane_of app s)) [
  | inl e ↦ rw (e, dispatch) tt
  | inr (answer, e) ↦ rw (e, dispatch) (close_pane_of-AllLive app s answer e)
]

close_focused_pane-AllLive : (app : App) → AllLive app (close_focused_pane app).1
unfolding close_focused_pane release_closed_pane addressed
close_focused_pane-AllLive app = elim (Option-cases (Panes.close_focused app.workspace).1) [
  | inl e ↦ rw (e, close_focused_pane) tt
  | inr (id, e) ↦ rw (e, close_focused_pane) ((λ s k. absurd (ground arith)), tt)
]

restore_name-AllLive :
    (app : App) (opened : App × List Effect) (name : Option Text)
    → AllLive app opened.1
    → AllLive app (restore_name opened name).1
unfolding restore_name
restore_name-AllLive app (_, []) name h = tt
restore_name-AllLive app (_, _ ∷ _) none h = h
restore_name-AllLive app (_, _ ∷ _) (some _) h = h

reopen_closed_tab-AllLive : (app : App) (fresh : Text) → AllLive app (reopen_closed_tab app fresh).1
unfolding reopen_closed_tab
reopen_closed_tab-AllLive app fresh = elim (Option-cases (pop_closed app.closed_tabs)) [
  | inl e ↦ rw (e, reopen_closed_tab) tt
  | inr ((rest, closed), e) ↦
      rw (e, reopen_closed_tab)
        (restore_name-AllLive app _ closed.custom_title (launch-AllLive app _ _))
]

open_repo-AllLive :
    (app : App) (path : Text) (resolved : Option Text) → AllLive app (open_repo app path resolved).1
unfolding open_repo
open_repo-AllLive app path resolved = elim (Option-cases (working_in_either app path resolved)) [
  | inl e ↦ rw (e, open_repo) (launch-AllLive app app _)
  | inr (_, e) ↦ rw (e, open_repo) tt
]

toggle_record-AllLive : (app : App) (max_frames : ℕ) → AllLive app (toggle_record app max_frames).1
unfolding toggle_record addressed
toggle_record-AllLive app max_frames = elim (Option-cases app.recording) [
  | inl e ↦ elim (Bool-cases (max_frames == 0)) [
    | inl z ↦ rw (e, toggle_record) (rw z tt)
    | inr z ↦ rw (e, toggle_record) (rw z ((λ s k. absurd (ground arith)), tt))
  ]
  | inr (r, e) ↦ elim (Bool-cases (ltb 0 r.frames)) [
    | inl some_frames ↦ rw (e, toggle_record) (rw some_frames ((λ s k. absurd (ground arith)), tt))
    | inr no_frame ↦ rw (e, toggle_record) (rw no_frame ((λ s k. absurd (ground arith)), tt))
  ]
]

record_tick-AllLive : (app : App) → AllLive app (record_tick app).1
unfolding record_tick addressed
record_tick-AllLive app = elim (Option-cases app.recording) [
  | inl e ↦ rw (e, record_tick) tt
  | inr (r, e) ↦ elim (Bool-cases (leb r.max_frames (r.frames + 1))) [
    | inl full ↦
        rw (e, record_tick)
          (rw full ((λ s k. absurd (ground arith)), ((λ s k. absurd (ground arith)), tt)))
    | inr more ↦ rw (e, record_tick) (rw more ((λ s k. absurd (ground arith)), tt))
  ]
]

dispatch-AllLive : (app : App) (event : Event) → AllLive app (dispatch app event).1
unfolding dispatch update_meta update_repo_meta toggle_collapsed toggle_expanded rename_session
    close_tab addressed
dispatch-AllLive app (Dispatch.launch_session spec) = launch-AllLive app app spec
dispatch-AllLive app (Dispatch.terminal_input s bytes) = if_live-AllLive app s _ refl
dispatch-AllLive app (Dispatch.terminal_resized s cols rows) = if_live-AllLive app s _ refl
dispatch-AllLive app (Dispatch.select_event s op) = if_live-AllLive app s _ refl
dispatch-AllLive app (Dispatch.copy_terminal_selection_event s) = if_live-AllLive app s _ refl
dispatch-AllLive app (Dispatch.scroll_viewport s target) = if_live-AllLive app s _ refl
dispatch-AllLive app (Dispatch.pty_exited_event s clean) = pty_exited-AllLive app s clean
dispatch-AllLive app (Dispatch.close_tab_event index) = kills-AllLive app _
dispatch-AllLive app (Dispatch.close_pane s) = close_pane-AllLive app s
dispatch-AllLive app (Dispatch.reopen_closed_tab_event fresh) = reopen_closed_tab-AllLive app fresh
dispatch-AllLive app (Dispatch.split_focused_event dir) = split_focused-AllLive app dir
dispatch-AllLive app Dispatch.close_focused_pane_event = close_focused_pane-AllLive app
dispatch-AllLive app (Dispatch.open_repo_event path resolved) = open_repo-AllLive app path resolved
dispatch-AllLive app (Dispatch.session_notified s body) = notify_session-AllLive app s body
dispatch-AllLive app (Dispatch.toggle_record_event max_frames) =
    toggle_record-AllLive app max_frames
dispatch-AllLive app Dispatch.record_tick_event = record_tick-AllLive app
dispatch-AllLive app (Dispatch.send_claude_command_event s command prompt) =
    send_claude_command-AllLive app s command prompt
dispatch-AllLive app (Dispatch.terminal_pointer_event s pointer) = if_live-AllLive app s _ refl
dispatch-AllLive app (Dispatch.term_target s probe) = set_term_target-AllLive app s probe
dispatch-AllLive app (Dispatch.activate_target_event s probe) = activate_target-AllLive app s probe
dispatch-AllLive app (Dispatch.path_resolved_event request resolved) =
    path_resolved-AllLive app request resolved
dispatch-AllLive app (Dispatch.toggle_star s) = ((λ t k. absurd (ground arith)), tt)
dispatch-AllLive app (Dispatch.toggle_repo_star path) = ((λ t k. absurd (ground arith)), tt)
dispatch-AllLive app (Dispatch.declare_repo path) = ((λ t k. absurd (ground arith)), tt)
dispatch-AllLive app (Dispatch.forget_repo path) = ((λ t k. absurd (ground arith)), tt)
dispatch-AllLive app (Dispatch.toggle_archive s) = ((λ t k. absurd (ground arith)), tt)
dispatch-AllLive app (Dispatch.rename_session_event s title) = ((λ t k. absurd (ground arith)), tt)
dispatch-AllLive app (Dispatch.toggle_collapsed_event path) = ((λ t k. absurd (ground arith)), tt)
dispatch-AllLive app _ = tt

-- For every modelled event, each write, resize, scroll, selection, copy and notification among
-- the effects that apply answers is about a session that was live before the event.
pub apply-AllLive : (app : App) (event : Event) → AllLive app (apply app event).1
unfolding apply addressed
apply-AllLive app event =
    elim (Bool-cases (is_gesture event || left app.workspace (dispatch app event).0.workspace)) [
      | inl e ↦
          rw (e, apply)
            (AllLive-append app _ (tab_shown ∷ []) (dispatch-AllLive app event)
              ((λ s k. absurd (ground arith)), tt))
      | inr e ↦ rw (e, apply) (dispatch-AllLive app event)
    ]
