-- ===== src/App/Caps.antt =====
-- The reopen stack and the screencast stay within their caps.
pub mod Runs
use mathlib.Core.Option.{some-injective}
use termherd.Prelude.{
  ℕ, zero, suc, ◌+◌, ◌≤◌, ◌<◌, ◌≡◌, refl, ap, sym, ◌∙◌, subst, inl, inr, Bool, true, false, ◌&&◌,
  ◌||◌, List, [], ◌∷◌, Option, none, some, arith, ◌==◌, ltb, leb, if◌then◌else◌, Option-cases,
  Bool-cases, get_elem?, length,
}
use termherd.Text.{Text}
use termherd.Pane.{SessionId, SplitDir}
use termherd.Tab
use termherd.Tab.{ClaudeColor}
use termherd.Workspace
use termherd.Workspace.Panes
use termherd.Session.{LaunchSpec, SessionStatus}
use termherd.Registry.{get, u64_max, contains_key}
use termherd.Effect.{Effect}
use termherd.App.{App, ClosedTab, Recording, new_app}
use termherd.App.Retitle.{retitle_tab, retitle_from, retitle_tabs, rename_tab}
use termherd.App.Lifecycle.{
  launch, split_focused, status_changed, foreground_job_changed, session_file_read, session_spawned,
  session_cwd_changed,
}
use termherd.App.Closing.{
  remember_closed_tab, push_closed, max_closed_tabs, close_tab, release_closed_pane, close_one_pane,
  only_pane_at, close_pane_of, close_focused_pane, mark_exited, pty_exited, pop_closed,
  restore_name, reopen_closed_tab,
}
use termherd.App.Overlays.{
  update_meta, update_repo_meta, rename_session, toggle_collapsed, toggle_expanded,
}
use termherd.App.Recorder.{toggle_record, record_tick}
use termherd.App.RepoLink.{open_repo, working_in_either}
use termherd.App.TabViews.{set_tab_color}
use termherd.App.Dispatch
use termherd.App.Dispatch.{Event, dispatch, apply}
use termherd.App.Handlers.{allocated, exhausted}
use termherd.App.Reachable.{state-apply, run}
use termherd.App.Reopen.{pop_closed-push_closed}

pub record IsCapped (app : App) : Type 0 where
  pub stack : length app.closed_tabs ≤ max_closed_tabs
  pub frames : (r : Recording) → app.recording ≡ some r → r.frames < r.max_frames

abbrev pub SameCaps : App → App → Type 0
SameCaps app app' = (app'.closed_tabs ≡ app.closed_tabs) × (app'.recording ≡ app.recording)

pub same-IsCapped : (app app' : App) → IsCapped app → SameCaps app app' → IsCapped app'
same-IsCapped app app' ok (c, r) = record { stack = rw c ok.stack; frames = rw r ok.frames }

retitle_tab-SameCaps : (app : App) (index : ℕ) → SameCaps app (retitle_tab app index)
unfolding retitle_tab
retitle_tab-SameCaps app index = ground arith

retitle_from-SameCaps : (n index : ℕ) (app : App) → SameCaps app (retitle_from n index app)
unfolding retitle_from
retitle_from-SameCaps zero index app = (refl, refl)
retitle_from-SameCaps (suc n) index app =
    let (c, r) = retitle_tab-SameCaps app index in
    let (d, s) = retitle_from-SameCaps n (suc index) (retitle_tab app index) in (d ∙ c, s ∙ r)

pub retitle_tabs-SameCaps : (app : App) → SameCaps app (retitle_tabs app)
unfolding retitle_tabs
retitle_tabs-SameCaps app = retitle_from-SameCaps (length app.workspace.tabs) 0 app

pub launch-SameCaps : (app : App) (spec : LaunchSpec) → SameCaps app (launch app spec).0
unfolding launch
launch-SameCaps app spec = elim (Bool-cases (leb u64_max app.sessions.next_id)) [
  | inl full ↦ rw (exhausted app.sessions full, launch) (refl, refl)
  | inr room ↦ rw (allocated app.sessions room, launch) (retitle_tabs-SameCaps _)
]

pub split_focused-SameCaps : (app : App) (dir : SplitDir) → SameCaps app (split_focused app dir).0
unfolding split_focused
split_focused-SameCaps app dir = elim (Bool-cases (leb u64_max app.sessions.next_id)) [
  | inl full ↦ rw (exhausted app.sessions full, split_focused) (refl, refl)
  | inr room ↦
      elim (Option-cases (Panes.split_focused app.workspace dir (app.sessions.next_id + 1)).1) [
        | inl e ↦ rw (allocated app.sessions room, split_focused) (rw e (refl, refl))
        | inr (_, e) ↦ rw (allocated app.sessions room, split_focused) (rw e (refl, refl))
      ]
]

pub status_changed-SameCaps :
    (app : App) (session : SessionId) (status : SessionStatus)
    → SameCaps app (status_changed app session status)
unfolding status_changed
status_changed-SameCaps app session status = elim (Option-cases (get app.sessions session)) [
  | inl e ↦ rw (e, status_changed) (refl, refl)
  | inr (live, e) ↦ ground arith
]

-- Remembering a tab keeps the stack within its cap.
remember_closed_tab-IsCapped :
    (app : App) (index : ℕ) → IsCapped app → IsCapped (remember_closed_tab app index)
unfolding remember_closed_tab
remember_closed_tab-IsCapped app index ok =
    elim (Option-cases (get_elem? app.workspace.tabs index)) [
      | inl e ↦ rw (e, remember_closed_tab) ok
      | inr (tab, e) ↦ elim (Option-cases (get app.sessions (Tab.first_session tab))) [
        | inl n ↦ rw (e, remember_closed_tab) (rw n ok)
        | inr (live, n) ↦
            rw (e, remember_closed_tab)
              (rw n (record {
                stack = (pop_closed-push_closed app.closed_tabs _ ok.stack).0;
                frames = ok.frames;
              }))
      ]
    ]

pub close_tab-IsCapped : (app : App) (index : ℕ) → IsCapped app → IsCapped (close_tab app index).0
unfolding close_tab
close_tab-IsCapped app index ok =
    same-IsCapped (remember_closed_tab app index) _ (remember_closed_tab-IsCapped app index ok)
      (refl, refl)

close_one_pane-SameCaps :
    (app : App) (session : SessionId) (answer : App × List Effect)
    → close_one_pane app session ≡ some answer
    → SameCaps app answer.0
unfolding close_one_pane release_closed_pane
close_one_pane-SameCaps app session answer h =
    elim (Option-cases (Panes.close_pane_of app.workspace session).1) [
      | inl e ↦
          let stuck : close_one_pane app session ≡ none = rw (e, close_one_pane) refl in
          absurd (ground arith)
      | inr (closed, e) ↦
          let done : close_one_pane app session
              ≡ some (
                  release_closed_pane
                    (record app { workspace = (Panes.close_pane_of app.workspace session).0 })
                    closed) =
            rw (e, close_one_pane) refl in
          subst (λ (r : App × List Effect). SameCaps app r.0) (some-injective _ _ (sym done ∙ h))
            (refl, refl)
    ]

close_pane_of-IsCapped :
    (app : App) (session : SessionId) (answer : App × List Effect)
    → close_pane_of app session ≡ some answer
    → IsCapped app
    → IsCapped answer.0
unfolding close_pane_of
close_pane_of-IsCapped app session answer h ok =
    elim (Option-cases (Workspace.tab_of app.workspace session)) [
      | inl e ↦ absurd (ground arith)
      | inr (index, e) ↦ elim (Bool-cases (only_pane_at app index session)) [
        | inl only ↦
            let done : close_pane_of app session ≡ some (close_tab app index) =
              rw (e, close_pane_of) (rw only refl) in
            subst (λ (r : App × List Effect). IsCapped r.0) (some-injective _ _ (sym done ∙ h))
              (close_tab-IsCapped app index ok)
        | inr several ↦
            let done : close_pane_of app session ≡ close_one_pane app session =
              rw (e, close_pane_of) (rw several refl) in
            same-IsCapped app _ ok (close_one_pane-SameCaps app session answer (sym done ∙ h))
      ]
    ]

pub pty_exited-IsCapped :
    (app : App) (session : SessionId) (clean : Bool)
    → IsCapped app
    → IsCapped (pty_exited app session clean).0
unfolding pty_exited mark_exited
pty_exited-IsCapped app session clean ok =
    elim (Bool-cases (clean && contains_key app.sessions session)) [
      | inr stays ↦ rw (stays, pty_exited) (same-IsCapped app _ ok (refl, refl))
      | inl leaves ↦ elim (Option-cases (close_pane_of app session)) [
        | inl e ↦ rw (leaves, pty_exited) (rw e (same-IsCapped app _ ok (refl, refl)))
        | inr (answer, e) ↦
            rw (leaves, pty_exited) (rw e (close_pane_of-IsCapped app session answer e ok))
      ]
    ]

pub close_pane-IsCapped :
    (app : App) (s : SessionId) → IsCapped app → IsCapped (dispatch app (Dispatch.close_pane s)).0
unfolding dispatch
close_pane-IsCapped app s ok = elim (Option-cases (close_pane_of app s)) [
  | inl e ↦ rw (e, dispatch) ok
  | inr (answer, e) ↦ rw (e, dispatch) (close_pane_of-IsCapped app s answer e ok)
]

pub close_focused_pane-SameCaps : (app : App) → SameCaps app (close_focused_pane app).0
unfolding close_focused_pane release_closed_pane
close_focused_pane-SameCaps app = elim (Option-cases (Panes.close_focused app.workspace).1) [
  | inl e ↦ rw (e, close_focused_pane) (refl, refl)
  | inr (id, e) ↦ rw (e, close_focused_pane) (refl, refl)
]

restore_name-SameCaps :
    (opened : App × List Effect) (name : Option Text)
    → SameCaps opened.0 (restore_name opened name).0
unfolding restore_name
restore_name-SameCaps (_, []) name = (refl, refl)
restore_name-SameCaps (_, _ ∷ _) none = (refl, refl)
restore_name-SameCaps (_, _ ∷ _) (some _) = (refl, refl)

restore_name-IsCapped :
    (opened : App × List Effect) (name : Option Text)
    → IsCapped opened.0
    → IsCapped (restore_name opened name).0
restore_name-IsCapped opened name ok =
    same-IsCapped opened.0 (restore_name opened name).0 ok (restore_name-SameCaps opened name)

launch-IsCapped : (app : App) (spec : LaunchSpec) → IsCapped app → IsCapped (launch app spec).0
launch-IsCapped app spec ok = same-IsCapped app (launch app spec).0 ok (launch-SameCaps app spec)

length-pop_closed :
    (stack rest : List ClosedTab) (t : ClosedTab)
    → pop_closed stack ≡ some (rest, t)
    → length rest ≤ length stack
unfolding pop_closed
length-pop_closed [] rest t h = absurd (ground arith)
length-pop_closed (s ∷ ss) rest t h = elim (Option-cases (pop_closed ss)) [
  | inl e ↦ ground arith
  | inr ((more, u), e) ↦ ground (arith, length-pop_closed ss more u e)
]

pub reopen_closed_tab-IsCapped :
    (app : App) (fresh : Text) → IsCapped app → IsCapped (reopen_closed_tab app fresh).0
unfolding reopen_closed_tab
reopen_closed_tab-IsCapped app fresh ok = elim (Option-cases (pop_closed app.closed_tabs)) [
  | inl e ↦ rw (e, reopen_closed_tab) ok
  | inr ((rest, closed), e) ↦
      let popped : IsCapped (record app { closed_tabs = rest }) = record {
        stack = omega (arith, ok.stack, length-pop_closed app.closed_tabs rest closed e);
        frames = ok.frames;
      } in
      rw (e, reopen_closed_tab)
        (restore_name-IsCapped _ closed.custom_title
          (launch-IsCapped (record app { closed_tabs = rest }) _ popped))
]

pub open_repo-SameCaps :
    (app : App) (path : Text) (resolved : Option Text)
    → SameCaps app (open_repo app path resolved).0
unfolding open_repo
open_repo-SameCaps app path resolved = elim (Option-cases (working_in_either app path resolved)) [
  | inl e ↦ rw (e, open_repo) (launch-SameCaps app _)
  | inr (_, e) ↦ rw (e, open_repo) (refl, refl)
]

pub toggle_record-IsCapped :
    (app : App) (max_frames : ℕ) → IsCapped app → IsCapped (toggle_record app max_frames).0
unfolding toggle_record
toggle_record-IsCapped app max_frames ok = elim (Option-cases app.recording) [
  | inl e ↦ elim (Bool-cases (max_frames == 0)) [
    | inl z ↦ rw (e, toggle_record) (rw z ok)
    | inr z ↦
        rw (e, toggle_record) (rw z (record { stack = ok.stack; frames = λ r h. ground arith }))
  ]
  | inr (r, e) ↦ elim (Bool-cases (ltb 0 r.frames)) [
    | inl c ↦
        rw (e, toggle_record)
          (rw c (record { stack = ok.stack; frames = λ t h. absurd (ground arith) }))
    | inr c ↦
        rw (e, toggle_record)
          (rw c (record { stack = ok.stack; frames = λ t h. absurd (ground arith) }))
  ]
]

pub record_tick-IsCapped : (app : App) → IsCapped app → IsCapped (record_tick app).0
unfolding record_tick
record_tick-IsCapped app ok = elim (Option-cases app.recording) [
  | inl e ↦ rw (e, record_tick) ok
  | inr (r, e) ↦ elim (Bool-cases (leb r.max_frames (r.frames + 1))) [
    | inl c ↦
        rw (e, record_tick)
          (rw c (record { stack = ok.stack; frames = λ t h. absurd (ground arith) }))
    | inr c ↦ rw (e, record_tick) (rw c (record { stack = ok.stack; frames = λ t h. ground arith }))
  ]
]
