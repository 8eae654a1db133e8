-- ===== src/App/Closed.antt =====
-- Closing keeps the registry in step with the panes: it kills and forgets exactly the sessions whose
-- panes go.
use mathlib.Core.Option.{some-injective}
use termherd.Prelude.{
  ap, map, if◌then◌else◌, ℕ, ◌≤◌, ◌≡◌, refl, sym, ◌∙◌, subst, inl, inr, Bool, ◌&&◌, any, List, [],
  ◌∷◌, Option, none, some, arith, ◌==◌, Option-cases, Bool-cases, get_elem?, leb, ltb,
}
use termherd.Text.{Text}
use termherd.Pane.{SessionId}
use termherd.Pane.Paths.{pane_hosts-leaves, collect_leaves-leaves}
use termherd.Pane.Edits.{pane_count, pane_hosts-pane_count}
use termherd.Tab
use termherd.Tab.{Tab}
use termherd.Workspace
use termherd.Workspace.{Workspace}
use termherd.Workspace.Panes
use termherd.Workspace.Tabs.{one}
use termherd.Workspace.Valid.{Change, total, nobody, unchanged}
use termherd.Workspace.Changes.{close_tab-Change}
use termherd.Workspace.PaneChanges.{close_pane_of-Change, close_pane_of-none, close_focused-Change}
use termherd.Workspace.Titles.{rename_tab-Keeps}
use termherd.Registry.{
  Sessions, registered, contains_key, remove, remove_all, registered-remove, registered-remove_all,
  next_id-remove_all,
}
use termherd.Effect.{Effect, kill}
use termherd.App.{App, ClosedTab}
use termherd.App.Closing.{
  remember_closed_tab, close_tab, release_closed_pane, close_one_pane, only_pane_at, close_pane_of,
  close_focused_pane, mark_exited, ended, pty_exited, pop_closed, restore_name, reopen_closed_tab,
}
use termherd.App.Registered.{IsRegistered, Keeps-IsRegistered, fewer-IsRegistered}
use termherd.App.Handlers.{launch-IsRegistered, entry-IsRegistered}

registered_once : (sessions : Sessions) (s : SessionId) → registered sessions s ≤ 1
unfolding registered
registered_once sessions s = ground arith

sessions_hosted :
    (tab : Tab) (s : SessionId)
    → any (λ g. g == s) (Tab.sessions tab) ≡ leb 1 (pane_count tab.root s)
unfolding Tab.sessions
sessions_hosted tab s =
    rw (collect_leaves-leaves tab.root [])
      (sym (pane_hosts-leaves tab.root s) ∙ pane_hosts-pane_count tab.root s)

remembered_tabs :
    (app : App) (index : ℕ)
    → ((remember_closed_tab app index).workspace ≡ app.workspace)
      × ((remember_closed_tab app index).sessions ≡ app.sessions)
unfolding remember_closed_tab
remembered_tabs app index = ground arith

close_tab-none :
    (w : Workspace) (index : ℕ)
    → get_elem? w.tabs index ≡ none
    → Workspace.close_tab w index ≡ (w, [])
unfolding Workspace.close_tab
close_tab-none w index e = rw (e, Workspace.close_tab)

close_tab_sessions :
    (w : Workspace) (index : ℕ) (tab : Tab)
    → get_elem? w.tabs index ≡ some tab
    → (Workspace.close_tab w index).1 ≡ Tab.sessions tab
unfolding Workspace.close_tab
close_tab_sessions w index tab e = rw (e, Workspace.close_tab)

pub close_tab-IsRegistered :
    (app : App) (index : ℕ) → IsRegistered app → IsRegistered (close_tab app index).0
unfolding close_tab
close_tab-IsRegistered app index ok = elim (Option-cases (get_elem? app.workspace.tabs index)) [
  | inl e ↦
      Keeps-IsRegistered ok
        (rw (close_tab-none app.workspace index e) (unchanged app.workspace ok.valid))
        (λ s. unfold remove_all in rw (close_tab-none app.workspace index e) refl)
        (next_id-remove_all app.sessions _)
  | inr (tab, e) ↦
      fewer-IsRegistered ok (pane_count tab.root)
        (close_tab-Change app.workspace ok.valid index tab e)
        (λ s. rw (close_tab_sessions app.workspace index tab e) (
          registered-remove_all app.sessions (Tab.sessions tab) s
          ∙ ground (arith, sessions_hosted tab s)))
        (registered_once app.sessions) (next_id-remove_all app.sessions _)
]

-- Closing the tab at an index that holds one answers one kill for each session of the tab, in the
-- order of its panes, and unregisters exactly the sessions that the tab hosts.
pub close_tab-kills :
    (app : App) (index : ℕ) (tab : Tab)
    → get_elem? app.workspace.tabs index ≡ some tab
    → ((close_tab app index).1 ≡ map kill (Tab.sessions tab))
      × ((s : SessionId)
          → registered (close_tab app index).0.sessions s
            ≡ (if Tab.hosts tab s then 0 else registered app.sessions s))
unfolding close_tab Tab.hosts
close_tab-kills app index tab e = (
  ap (map kill) (close_tab_sessions app.workspace index tab e),
  λ s. rw (close_tab_sessions app.workspace index tab e) (
      registered-remove_all app.sessions (Tab.sessions tab) s
      ∙ ground (arith, sessions_hosted tab s, pane_hosts-pane_count tab.root s)),
)

released-IsRegistered :
    (app : App) (w : Workspace) (closed : SessionId)
    → IsRegistered app
    → Change app.workspace w (one closed) nobody
    → IsRegistered (release_closed_pane (record app { workspace = w }) closed).0
unfolding release_closed_pane remove
released-IsRegistered app w closed ok change =
    fewer-IsRegistered ok (one closed) change
      (λ s. ground (arith, registered-remove app.sessions closed s)) (registered_once app.sessions)
      refl

close_one_pane-IsRegistered :
    (app : App) (session : SessionId) (answer : App × List Effect)
    → close_one_pane app session ≡ some answer
    → IsRegistered app
    → IsRegistered answer.0
unfolding close_one_pane
close_one_pane-IsRegistered app session answer h ok =
    elim (Bool-cases (ltb 0 (total app.workspace.tabs session))) [
      | inl here ↦
          let (closed, change) =
            close_pane_of-Change app.workspace ok.valid session (ground arith) in
          let w' : Workspace = (Panes.close_pane_of app.workspace session).0 in
          let done : close_one_pane app session
              ≡ some (release_closed_pane (record app { workspace = w' }) session) =
            rw (closed, close_one_pane) refl in
          subst (λ (r : App × List Effect). IsRegistered r.0) (some-injective _ _ (sym done ∙ h))
            (released-IsRegistered app _ session ok change)
      | inr gone ↦
          let stuck = close_pane_of-none app.workspace ok.valid session (ground arith) in
          let none_left : close_one_pane app session ≡ none = rw (stuck, close_one_pane) in
          absurd (ground arith)
    ]

pub close_pane_of-IsRegistered :
    (app : App) (session : SessionId) (answer : App × List Effect)
    → close_pane_of app session ≡ some answer
    → IsRegistered app
    → IsRegistered answer.0
unfolding close_pane_of
close_pane_of-IsRegistered app session answer h ok =
    elim (Option-cases (Workspace.tab_of app.workspace session)) [
      | inl e ↦ absurd (ground arith)
      | inr (index, e) ↦ elim (Bool-cases (only_pane_at app index session)) [
        | inl only ↦
            let done : close_pane_of app session ≡ some (close_tab app index) =
              rw (e, close_pane_of) (rw only refl) in
            subst (λ (r : App × List Effect). IsRegistered r.0) (some-injective _ _ (sym done ∙ h))
              (close_tab-IsRegistered app index ok)
        | inr several ↦
            let done : close_pane_of app session ≡ close_one_pane app session =
              rw (e, close_pane_of) (rw several refl) in
            close_one_pane-IsRegistered app session answer (sym done ∙ h) ok
      ]
    ]

close_focused-none :
    (w : Workspace) → get_elem? w.tabs w.active ≡ none → Panes.close_focused w ≡ (w, none)
unfolding Panes.close_focused
close_focused-none w e = rw (e, Panes.close_focused)

pub close_focused_pane-IsRegistered :
    (app : App) → IsRegistered app → IsRegistered (close_focused_pane app).0
unfolding close_focused_pane
close_focused_pane-IsRegistered app ok =
    elim (Option-cases (get_elem? app.workspace.tabs app.workspace.active)) [
      | inl e ↦
          rw (close_focused-none app.workspace e, close_focused_pane)
            (rw (close_focused-none app.workspace e) ok)
      | inr (tab, e) ↦
          let (removed, _, closed, change) = close_focused-Change app.workspace ok.valid tab e in
          rw (closed, close_focused_pane) (released-IsRegistered app _ removed ok change)
    ]

mark_exited-IsRegistered :
    (app : App) (session : SessionId) → IsRegistered app → IsRegistered (mark_exited app session)
unfolding mark_exited
mark_exited-IsRegistered app session ok = entry-IsRegistered app session ended (λ live. refl) ok

pub pty_exited-IsRegistered :
    (app : App) (session : SessionId) (clean : Bool)
    → IsRegistered app
    → IsRegistered (pty_exited app session clean).0
unfolding pty_exited
pty_exited-IsRegistered app session clean ok =
    elim (Bool-cases (clean && contains_key app.sessions session)) [
      | inr stays ↦ rw (stays, pty_exited) (mark_exited-IsRegistered app session ok)
      | inl leaves ↦ elim (Option-cases (close_pane_of app session)) [
        | inl e ↦ rw (leaves, pty_exited) (rw e (mark_exited-IsRegistered app session ok))
        | inr (answer, e) ↦
            rw (leaves, pty_exited) (rw e (close_pane_of-IsRegistered app session answer e ok))
      ]
    ]

restore_name-IsRegistered :
    (opened : App × List Effect) (name : Option Text)
    → IsRegistered opened.0
    → IsRegistered (restore_name opened name).0
unfolding restore_name
restore_name-IsRegistered (app, []) name ok = ok
restore_name-IsRegistered (app, _ ∷ _) none ok = ok
restore_name-IsRegistered (app, _ ∷ _) (some name) ok =
    Keeps-IsRegistered ok (rename_tab-Keeps app.workspace app.workspace.active name ok.valid)
      (λ s. refl) refl

-- What the reopen stack holds is no matter here.
stack-IsRegistered :
    (app : App) (stack : List ClosedTab)
    → IsRegistered app
    → IsRegistered (record app { closed_tabs = stack })
stack-IsRegistered app stack ok =
    Keeps-IsRegistered ok (unchanged app.workspace ok.valid) (λ s. refl) refl

pub reopen_closed_tab-IsRegistered :
    (app : App) (fresh_claude_id : Text)
    → IsRegistered app
    → IsRegistered (reopen_closed_tab app fresh_claude_id).0
unfolding reopen_closed_tab
reopen_closed_tab-IsRegistered app fresh_claude_id ok =
    elim (Option-cases (pop_closed app.closed_tabs)) [
      | inl e ↦ rw (e, reopen_closed_tab) ok
      | inr ((rest, closed), e) ↦
          rw (e, reopen_closed_tab)
            (restore_name-IsRegistered _ closed.custom_title
              (launch-IsRegistered _ _ (stack-IsRegistered app rest ok)))
    ]
