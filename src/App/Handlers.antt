-- ===== src/App/Handlers.antt =====
-- Each handler that changes panes or sessions keeps the registry in step with the panes.
use termherd.Prelude.{
  ◌+◌, ◌<◌, ◌≡◌, refl, ◌∙◌, ap, inl, inr, true, false, Option, none, some, arith, ◌==◌,
  if◌then◌else◌, Option-cases, Bool-cases, get_elem?, leb, ltb,
}
use termherd.Text.{Text}
use termherd.Pane.{SessionId, SplitDir}
use termherd.Workspace
use termherd.Workspace.{Workspace}
use termherd.Workspace.Panes
use termherd.Workspace.Tabs.{one}
use termherd.Workspace.Valid.{IsValid, Change, Keeps, nobody, unchanged}
use termherd.Workspace.Changes.{append-Change, open_tab-Change, unpark-Keeps}
use termherd.Workspace.PaneChanges.{split_focused-Change}
use termherd.Session.{
  LaunchSpec, Placement, foreground, background, LiveSession, new_session, SessionStatus,
  ForegroundJob, SessionFile, is_attention, is_exited, remember_proven_id, shell,
}
use termherd.Registry.{
  Sessions, registered, contains_key, get, u64_max, allocate, insert, registered-insert,
  update_session, registered-update_session,
}
use termherd.App.{App}
use termherd.App.Lifecycle.{
  placed, launch, split_focused, focused_cwd, unpark_hosting, with_status, with_job, with_file,
  status_changed, foreground_job_changed, session_file_read,
}
use termherd.App.Registered.{
  IsRegistered, Change-IsRegistered, Keeps-IsRegistered, retitle_tabs-IsRegistered,
}

-- The next id is fresh: no session has it, and so no pane hosts it.
fresh_id : (app : App) → IsRegistered app → registered app.sessions (app.sessions.next_id + 1) ≡ 0
fresh_id app ok = elim (Bool-cases (ltb 0 (registered app.sessions (app.sessions.next_id + 1)))) [
  | inl h ↦ absurd (ground (arith, ok.minted (app.sessions.next_id + 1)))
  | inr h ↦ ground arith
]

placed-Change :
    (w : Workspace) (placement : Placement) (id : SessionId) (title : Text)
    → IsValid w
    → Change w (placed w placement id title) nobody (one id)
unfolding placed
placed-Change w foreground id title v = open_tab-Change w v id title
placed-Change w background id title v = append-Change w v id title

registered_grown :
    (sessions sessions' : Sessions) (live : LiveSession) (s : SessionId)
    → live.id ≡ sessions.next_id + 1
    → sessions' ≡ insert (record sessions { next_id = sessions.next_id + 1 }) live
    → registered sessions' s ≡ (if sessions.next_id + 1 == s then 1 else registered sessions s)
unfolding registered contains_key
registered_grown sessions sessions' live s id same = rw same (
    registered-insert (record sessions { next_id = sessions.next_id + 1 }) live s
    ∙ ap (λ t. if t == s then 1 else registered sessions s) id)

-- A session registered under the next id, with a pane.
grown-IsRegistered :
    (app app' : App) (live : LiveSession)
    → IsRegistered app
    → app.sessions.next_id < u64_max
    → live.id ≡ app.sessions.next_id + 1
    → app'.sessions ≡ insert (record (app.sessions) { next_id = app.sessions.next_id + 1 }) live
    → Change app.workspace app'.workspace nobody (one (app.sessions.next_id + 1))
    → IsRegistered app'
grown-IsRegistered app app' live ok room id same change =
    let next : app'.sessions.next_id ≡ app.sessions.next_id + 1 =
      unfold insert in ap (λ (t : Sessions). t.next_id) same in
    let counts = λ (s : SessionId). registered_grown app.sessions app'.sessions live s id same in
    Change-IsRegistered ok nobody (one (app.sessions.next_id + 1)) change
      (λ s. ground (arith, counts s, fresh_id app ok))
      (λ s h. ground (arith, counts s, ok.minted s)) (omega arith)

pub allocated :
    (sessions : Sessions)
    → leb u64_max sessions.next_id ≡ false
    → allocate sessions
      ≡ (record sessions { next_id = sessions.next_id + 1 }, some (sessions.next_id + 1))
unfolding allocate
allocated sessions room = rw (room, allocate) refl

pub exhausted :
    (sessions : Sessions)
    → leb u64_max sessions.next_id ≡ true
    → allocate sessions ≡ (sessions, none)
unfolding allocate
exhausted sessions full = rw (full, allocate) refl

pub launch-IsRegistered :
    (app : App) (spec : LaunchSpec) → IsRegistered app → IsRegistered (launch app spec).0
unfolding launch new_session
launch-IsRegistered app spec ok = elim (Bool-cases (leb u64_max app.sessions.next_id)) [
  | inl full ↦ rw (exhausted app.sessions full, launch) (rw (exhausted app.sessions full) ok)
  | inr room ↦
      rw (allocated app.sessions room, launch)
        (rw (allocated app.sessions room) (
          retitle_tabs-IsRegistered _ (
            grown-IsRegistered app _ (new_session (app.sessions.next_id + 1) spec.cwd spec.launch)
              ok (ground arith) refl refl
              (placed-Change app.workspace spec.placement _ spec.title ok.valid))))
]

-- An id minted for a pane that could not be placed is spent.
spent-IsRegistered :
    (app app' : App)
    → IsRegistered app
    → app.sessions.next_id < u64_max
    → app'.workspace ≡ app.workspace
    → app'.sessions ≡ record (app.sessions) { next_id = app.sessions.next_id + 1 }
    → IsRegistered app'
unfolding registered contains_key
spent-IsRegistered app app' ok room here same =
    let next : app'.sessions.next_id ≡ app.sessions.next_id + 1 =
      ap (λ (t : Sessions). t.next_id) same in
    let counts : (s : SessionId) → registered app'.sessions s ≡ registered app.sessions s =
      λ s. ap (λ (t : Sessions). registered t s) same in
    Change-IsRegistered ok nobody nobody (rw here (unchanged app.workspace ok.valid))
      (λ s. omega (arith, counts s)) (λ s h. ground (arith, counts s, ok.minted s)) (omega arith)

split_none :
    (w : Workspace) (dir : SplitDir) (id : SessionId)
    → get_elem? w.tabs w.active ≡ none
    → Panes.split_focused w dir id ≡ (w, none)
unfolding Panes.split_focused
split_none w dir id e = rw (e, Panes.split_focused)

pub split_focused-IsRegistered :
    (app : App) (dir : SplitDir) → IsRegistered app → IsRegistered (split_focused app dir).0
unfolding split_focused new_session
split_focused-IsRegistered app dir ok = elim (Bool-cases (leb u64_max app.sessions.next_id)) [
  | inl full ↦ rw (exhausted app.sessions full, split_focused) (rw (exhausted app.sessions full) ok)
  | inr room ↦ elim (Option-cases (get_elem? app.workspace.tabs app.workspace.active)) [
    | inl e ↦
        let stuck = split_none app.workspace dir (app.sessions.next_id + 1) e in
        rw (allocated app.sessions room, split_focused)
          (rw stuck (
            rw (stuck, allocated app.sessions room)
              (spent-IsRegistered app _ ok (ground arith) refl refl)))
    | inr (tab, e) ↦
        let (done, change, _) =
          split_focused-Change app.workspace ok.valid dir (app.sessions.next_id + 1) tab e in
        rw (allocated app.sessions room, split_focused)
          (rw done (
            rw (allocated app.sessions room) (
              grown-IsRegistered app _
                (new_session (app.sessions.next_id + 1) (focused_cwd app) shell) ok (ground arith)
                refl refl change)))
  ]
]

-- A change of one entry, and no other.
updated-IsRegistered :
    (app app' : App) (session : SessionId) (f : LiveSession → LiveSession)
    → IsRegistered app
    → ((live : LiveSession) → (f live).id ≡ live.id)
    → app'.sessions ≡ update_session app.sessions session f
    → Keeps app.workspace app'.workspace
    → IsRegistered app'
unfolding update_session
updated-IsRegistered app app' session f ok id same keeps =
    Keeps-IsRegistered ok keeps
      (λ s. rw same (registered-update_session app.sessions session s f id))
      (ap (λ (t : Sessions). t.next_id) same)

unpark_hosting-Keeps :
    (w : Workspace) (session : SessionId) → IsValid w → Keeps w (unpark_hosting w session)
unpark_hosting-Keeps w session v = elim (Option-cases (Workspace.tab_of w session)) [
  | inl e ↦ rw (e, unpark_hosting) (unchanged w v)
  | inr (index, e) ↦ rw (e, unpark_hosting) (unpark-Keeps w v index)
]

pub status_changed-IsRegistered :
    (app : App) (session : SessionId) (status : SessionStatus)
    → IsRegistered app
    → IsRegistered (status_changed app session status)
unfolding status_changed
status_changed-IsRegistered app session status ok = elim (Option-cases (get app.sessions session)) [
  | inl e ↦ rw (e, status_changed) ok
  | inr (live, e) ↦ elim (Bool-cases (is_exited live.status)) [
    | inl dead ↦ rw (e, status_changed) (rw dead ok)
    | inr alive ↦ elim (Bool-cases (is_attention status)) [
      | inl a ↦
          rw (e, status_changed)
            (rw alive (
              updated-IsRegistered app _ session (with_status status) ok (λ live. refl) refl
                (rw a (unpark_hosting-Keeps app.workspace session ok.valid))))
      | inr a ↦
          rw (e, status_changed)
            (rw alive (
              updated-IsRegistered app _ session (with_status status) ok (λ live. refl) refl
                (rw a (unchanged app.workspace ok.valid))))
    ]
  ]
]

id-remember_proven_id : (live : LiveSession) → (remember_proven_id live).id ≡ live.id
unfolding remember_proven_id
id-remember_proven_id live = ground arith

pub foreground_job_changed-IsRegistered :
    (app : App) (session : SessionId) (job : Option ForegroundJob)
    → IsRegistered app
    → IsRegistered (foreground_job_changed app session job)
unfolding foreground_job_changed
foreground_job_changed-IsRegistered app session job ok = retitle_tabs-IsRegistered _ (
    updated-IsRegistered app _ session (with_job job) ok (λ live. id-remember_proven_id _) refl
      (unchanged app.workspace ok.valid))

pub session_file_read-IsRegistered :
    (app : App) (session : SessionId) (file : Option SessionFile)
    → IsRegistered app
    → IsRegistered (session_file_read app session file)
unfolding session_file_read
session_file_read-IsRegistered app session file ok = retitle_tabs-IsRegistered _ (
    updated-IsRegistered app _ session (with_file file) ok (λ live. id-remember_proven_id _) refl
      (unchanged app.workspace ok.valid))

-- The reports that change one entry alone.
pub entry-IsRegistered :
    (app : App) (session : SessionId) (f : LiveSession → LiveSession)
    → ((live : LiveSession) → (f live).id ≡ live.id)
    → IsRegistered app
    → IsRegistered (record app { sessions = update_session app.sessions session f })
entry-IsRegistered app session f id ok =
    updated-IsRegistered app _ session f ok id refl (unchanged app.workspace ok.valid)
