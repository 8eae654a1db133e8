-- ===== src/App/Dead/Handlers.antt =====
-- Each handler leaves the ended sessions ended.
use termherd.Prelude.{
  ℕ, zero, suc, ◌+◌, ◌≡◌, refl, ap, sym, ◌∙◌, subst, inl, inr, Bool, ◌&&◌, List, [], ◌∷◌, Option,
  none, some, arith, Option-cases, Bool-cases, leb, length,
}
use mathlib.Core.Option.{some-injective}
use termherd.Text.{Text}
use termherd.Pane.{SessionId, SplitDir}
use termherd.Tab.{ClaudeColor}
use termherd.Workspace
use termherd.Workspace.Panes
use termherd.Session.{
  LiveSession, LaunchSpec, SessionStatus, ForegroundJob, SessionFile, is_exited, new_session, shell,
  remember_proven_id,
}
use termherd.Registry.{Sessions, get, u64_max, contains_key}
use termherd.Effect.{Effect}
use termherd.App.{App}
use termherd.App.Retitle.{retitle_tab, retitle_from, retitle_tabs, rename_tab}
use termherd.App.Lifecycle.{
  launch, split_focused, focused_cwd, status_changed, with_status, with_job, with_file,
  foreground_job_changed, session_file_read,
}
use termherd.App.Closing.{
  close_tab, release_closed_pane, close_one_pane, only_pane_at, close_pane_of, close_focused_pane,
  mark_exited, pty_exited, pop_closed, restore_name, reopen_closed_tab,
}
use termherd.App.Recorder.{toggle_record, record_tick}
use termherd.App.RepoLink.{open_repo, working_in_either}
use termherd.App.TabViews.{set_tab_color}
use termherd.App.Dispatch
use termherd.App.Dispatch.{Event, dispatch, apply}
use termherd.App.Handlers.{allocated, exhausted}
use termherd.App.Dead.{
  Onward, Onward-refl, remove-Onward, remove_all-Onward, insert-Onward, update_session-Onward,
  update_live-Onward,
}

sessions-retitle_tab : (app : App) (index : ℕ) → (retitle_tab app index).sessions ≡ app.sessions
unfolding retitle_tab
sessions-retitle_tab app index = ground arith

sessions-retitle_from :
    (n index : ℕ) (app : App) → (retitle_from n index app).sessions ≡ app.sessions
unfolding retitle_from
sessions-retitle_from zero index app = refl
sessions-retitle_from (suc n) index app =
    sessions-retitle_from n (suc index) (retitle_tab app index) ∙ sessions-retitle_tab app index

sessions-retitle_tabs : (app : App) → (retitle_tabs app).sessions ≡ app.sessions
unfolding retitle_tabs
sessions-retitle_tabs app = sessions-retitle_from (length app.workspace.tabs) 0 app

pub retitled-Onward :
    (before : Sessions) (app : App)
    → Onward before app.sessions
    → Onward before (retitle_tabs app).sessions
retitled-Onward before app h = rw (sessions-retitle_tabs app) h

spent-Onward :
    (sessions : Sessions) → Onward sessions (record sessions { next_id = sessions.next_id + 1 })
unfolding get
spent-Onward sessions = record { ids = omega arith; dead = λ s le h. h }

pub launch-Onward :
    (app : App) (spec : LaunchSpec) → Onward app.sessions (launch app spec).0.sessions
unfolding launch new_session
launch-Onward app spec = elim (Bool-cases (leb u64_max app.sessions.next_id)) [
  | inl full ↦
      rw (exhausted app.sessions full, launch)
        (rw (exhausted app.sessions full) (Onward-refl app.sessions))
  | inr room ↦
      rw (allocated app.sessions room, launch)
        (rw (allocated app.sessions room) (
          retitled-Onward app.sessions _ (
            insert-Onward app.sessions (new_session (app.sessions.next_id + 1) spec.cwd spec.launch)
              refl)))
]

pub split_focused-Onward :
    (app : App) (dir : SplitDir) → Onward app.sessions (split_focused app dir).0.sessions
unfolding split_focused new_session
split_focused-Onward app dir = elim (Bool-cases (leb u64_max app.sessions.next_id)) [
  | inl full ↦
      rw (exhausted app.sessions full, split_focused)
        (rw (exhausted app.sessions full) (Onward-refl app.sessions))
  | inr room ↦
      elim (Option-cases (Panes.split_focused app.workspace dir (app.sessions.next_id + 1)).1) [
        | inl e ↦
            rw (allocated app.sessions room, split_focused)
              (rw e (rw (allocated app.sessions room) (spent-Onward app.sessions)))
        | inr (_, e) ↦
            rw (allocated app.sessions room, split_focused)
              (rw e (
                rw (allocated app.sessions room) (
                  insert-Onward app.sessions
                    (new_session (app.sessions.next_id + 1) (focused_cwd app) shell) refl)))
      ]
]

pub status_changed-Onward :
    (app : App) (session : SessionId) (status : SessionStatus)
    → Onward app.sessions (status_changed app session status).sessions
unfolding status_changed
status_changed-Onward app session status = elim (Option-cases (get app.sessions session)) [
  | inl e ↦ rw (e, status_changed) (Onward-refl app.sessions)
  | inr (live, e) ↦ elim (Bool-cases (is_exited live.status)) [
    | inl dead ↦ rw (e, status_changed) (rw dead (Onward-refl app.sessions))
    | inr alive ↦
        rw (e, status_changed)
          (rw alive
            (update_live-Onward app.sessions session live (with_status status) (λ l. refl) e alive))
  ]
]

id-remembered : (live : LiveSession) → (remember_proven_id live).id ≡ live.id
unfolding remember_proven_id
id-remembered live = ground arith

status-remembered : (live : LiveSession) → (remember_proven_id live).status ≡ live.status
unfolding remember_proven_id
status-remembered live = ground arith

pub foreground_job_changed-Onward :
    (app : App) (session : SessionId) (job : Option ForegroundJob)
    → Onward app.sessions (foreground_job_changed app session job).sessions
unfolding foreground_job_changed
foreground_job_changed-Onward app session job = retitled-Onward app.sessions _ (
    update_session-Onward app.sessions session (with_job job) (λ live. id-remembered _)
      (λ live h. ap is_exited (status-remembered _) ∙ h))

pub session_file_read-Onward :
    (app : App) (session : SessionId) (file : Option SessionFile)
    → Onward app.sessions (session_file_read app session file).sessions
unfolding session_file_read
session_file_read-Onward app session file = retitled-Onward app.sessions _ (
    update_session-Onward app.sessions session (with_file file) (λ live. id-remembered _)
      (λ live h. ap is_exited (status-remembered _) ∙ h))

close_one_pane-Onward :
    (app : App) (session : SessionId) (answer : App × List Effect)
    → close_one_pane app session ≡ some answer
    → Onward app.sessions answer.0.sessions
unfolding close_one_pane release_closed_pane
close_one_pane-Onward app session answer h =
    elim (Option-cases (Panes.close_pane_of app.workspace session).1) [
      | inl e ↦
          let stuck : close_one_pane app session ≡ none = rw (e, close_one_pane) refl in
          absurd (ground arith)
      | inr (closed, e) ↦
          let done : close_one_pane app session
              ≡ some (
                  release_closed_pane
                    (record app { workspace = (Panes.close_pane_of app.workspace session).0 })
                    closed) =
            rw (e, close_one_pane) refl in
          subst (λ (r : App × List Effect). Onward app.sessions r.0.sessions)
            (some-injective _ _ (sym done ∙ h)) (remove-Onward app.sessions closed)
    ]

close_pane_of-Onward :
    (app : App) (session : SessionId) (answer : App × List Effect)
    → close_pane_of app session ≡ some answer
    → Onward app.sessions answer.0.sessions
unfolding close_pane_of close_tab
close_pane_of-Onward app session answer h =
    elim (Option-cases (Workspace.tab_of app.workspace session)) [
      | inl e ↦ absurd (ground arith)
      | inr (index, e) ↦ elim (Bool-cases (only_pane_at app index session)) [
        | inl only ↦
            let done : close_pane_of app session ≡ some (close_tab app index) =
              rw (e, close_pane_of) (rw only refl) in
            subst (λ (r : App × List Effect). Onward app.sessions r.0.sessions)
              (some-injective _ _ (sym done ∙ h)) (remove_all-Onward app.sessions _)
        | inr several ↦
            let done : close_pane_of app session ≡ close_one_pane app session =
              rw (e, close_pane_of) (rw several refl) in
            close_one_pane-Onward app session answer (sym done ∙ h)
      ]
    ]

mark_exited-Onward :
    (app : App) (session : SessionId) → Onward app.sessions (mark_exited app session).sessions
unfolding mark_exited
mark_exited-Onward app session =
    update_session-Onward app.sessions session _ (λ live. refl) (λ live h. refl)

pub pty_exited-Onward :
    (app : App) (session : SessionId) (clean : Bool)
    → Onward app.sessions (pty_exited app session clean).0.sessions
unfolding pty_exited
pty_exited-Onward app session clean =
    elim (Bool-cases (clean && contains_key app.sessions session)) [
      | inr stays ↦ rw (stays, pty_exited) (mark_exited-Onward app session)
      | inl leaves ↦ elim (Option-cases (close_pane_of app session)) [
        | inl e ↦ rw (leaves, pty_exited) (rw e (mark_exited-Onward app session))
        | inr (answer, e) ↦
            rw (leaves, pty_exited) (rw e (close_pane_of-Onward app session answer e))
      ]
    ]

pub close_pane-Onward :
    (app : App) (s : SessionId)
    → Onward app.sessions (dispatch app (Dispatch.close_pane s)).0.sessions
unfolding dispatch
close_pane-Onward app s = elim (Option-cases (close_pane_of app s)) [
  | inl e ↦ rw (e, dispatch) (Onward-refl app.sessions)
  | inr (answer, e) ↦ rw (e, dispatch) (close_pane_of-Onward app s answer e)
]

pub close_focused_pane-Onward :
    (app : App) → Onward app.sessions (close_focused_pane app).0.sessions
unfolding close_focused_pane release_closed_pane
close_focused_pane-Onward app = elim (Option-cases (Panes.close_focused app.workspace).1) [
  | inl e ↦ rw (e, close_focused_pane) (Onward-refl app.sessions)
  | inr (id, e) ↦ rw (e, close_focused_pane) (remove-Onward app.sessions id)
]

sessions-restore_name :
    (opened : App × List Effect) (name : Option Text)
    → (restore_name opened name).0.sessions ≡ opened.0.sessions
unfolding restore_name
sessions-restore_name (_, []) name = refl
sessions-restore_name (_, _ ∷ _) none = refl
sessions-restore_name (_, _ ∷ _) (some _) = refl

pub reopen_closed_tab-Onward :
    (app : App) (fresh : Text) → Onward app.sessions (reopen_closed_tab app fresh).0.sessions
unfolding reopen_closed_tab
reopen_closed_tab-Onward app fresh = elim (Option-cases (pop_closed app.closed_tabs)) [
  | inl e ↦ rw (e, reopen_closed_tab) (Onward-refl app.sessions)
  | inr ((rest, closed), e) ↦
      rw (e, reopen_closed_tab)
        (rw (sessions-restore_name _ closed.custom_title)
          (launch-Onward (record app { closed_tabs = rest }) _))
]

pub open_repo-Onward :
    (app : App) (path : Text) (resolved : Option Text)
    → Onward app.sessions (open_repo app path resolved).0.sessions
unfolding open_repo
open_repo-Onward app path resolved = elim (Option-cases (working_in_either app path resolved)) [
  | inl e ↦ rw (e, open_repo) (launch-Onward app _)
  | inr (_, e) ↦ rw (e, open_repo) (Onward-refl app.sessions)
]

pub sessions-rename_tab :
    (app : App) (index : ℕ) (title : Text) → (rename_tab app index title).sessions ≡ app.sessions
unfolding rename_tab
sessions-rename_tab app index title = ground arith

pub sessions-set_tab_color :
    (app : App) (index : ℕ) (color : ClaudeColor)
    → (set_tab_color app index color).sessions ≡ app.sessions
unfolding set_tab_color
sessions-set_tab_color app index color = ground arith

pub sessions-toggle_record : (app : App) (n : ℕ) → (toggle_record app n).0.sessions ≡ app.sessions
unfolding toggle_record
sessions-toggle_record app n = ground arith

pub sessions-record_tick : (app : App) → (record_tick app).0.sessions ≡ app.sessions
unfolding record_tick
sessions-record_tick app = ground arith
