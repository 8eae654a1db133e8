-- ===== src/App/Alive.antt =====
-- What an effect is about, and that the effects of a handler are about live sessions.
use termherd.Prelude.{
  ℕ, ◌≡◌, refl, subst, inl, inr, true, List, [], ◌∷◌, ◌++◌, Option, none, some, arith, Bool-cases,
  map,
}
use termherd.Text.{Text, trim, is_empty}
use termherd.Pane.{SessionId}
use termherd.Session.{LiveSession, idle}
use termherd.Registry.{get}
use termherd.Effect.{
  Effect, write, resize, scroll, select, copy_terminal_selection, terminal_pointer, notify,
}
use termherd.App.{App, is_live}
use termherd.App.Lifecycle.{if_live}
use termherd.App.Command.{send_claude_command, send_claude_command_lem}
use termherd.Claude.Command.{ClaudeCommand, keystrokes}
use termherd.Claude.Prompt.{PromptInput}
use termherd.Hover.{
  ProbeKind, PathPurpose, TargetProbe, url_probe, path_probe, PathRequest, to_hover, to_open,
  ResolvedPath, is_pending,
}
use termherd.App.Hovering.{
  probed, clicked, answered, set_term_target, probe_path, activate_target, path_resolved,
  opened_url, admitted,
}

-- The session whose terminal or whose alert the effect is about.
unfoldable pub addressed : Effect → Option SessionId
addressed (write s _) = some s
addressed (resize s _ _) = some s
addressed (scroll s _) = some s
addressed (select s _) = some s
addressed (copy_terminal_selection s) = some s
addressed (terminal_pointer s _) = some s
addressed (notify s _ _) = some s
addressed _ = none

-- Every effect about a session is about a live one.
abbrev pub AllLive : App → List Effect → Type 0
AllLive app [] = Unit
AllLive app (e ∷ es) =
    ((s : SessionId) → addressed e ≡ some s → is_live app s ≡ true) × AllLive app es

pub AllLive-append :
    (app : App) (es fs : List Effect) → AllLive app es → AllLive app fs → AllLive app (es ++ fs)
AllLive-append app [] fs h k = k
AllLive-append app (e ∷ es) fs h k = (h.0, AllLive-append app es fs h.1 k)

pub if_live-AllLive :
    (app : App) (session : SessionId) (e : Effect)
    → addressed e ≡ some session
    → AllLive app (if_live app session e)
unfolding if_live
if_live-AllLive app session e h = elim (Bool-cases (is_live app session)) [
  | inl live ↦ rw (live, if_live) ((λ s k. ground arith), tt)
  | inr dead ↦ rw (dead, if_live) tt
]

writes-AllLive :
    (app : App) (s : SessionId) (writes : List (List ℕ))
    → is_live app s ≡ true
    → AllLive app (map (write s) writes)
unfolding addressed
writes-AllLive app s [] h = tt
writes-AllLive app s (w ∷ writes) h =
    (λ t k. same_live t (ground (arith, k)), writes-AllLive app s writes h)
  where
    same_live : (t : SessionId) → s ≡ t → is_live app t ≡ true
    same_live t e = subst (λ u. is_live app u ≡ true) e h

is_live_idle :
    (app : App) (s : SessionId) (live : LiveSession)
    → get app.sessions s ≡ some live
    → live.status ≡ idle
    → is_live app s ≡ true
unfolding is_live
is_live_idle app s live e i = rw (e, is_live) (rw i refl)

pub send_claude_command-AllLive :
    (app : App) (s : SessionId) (command : ClaudeCommand) (prompt : PromptInput)
    → AllLive app (send_claude_command app s command prompt)
send_claude_command-AllLive app s command prompt =
    elim (send_claude_command_lem app s command prompt) [
      | inl ((live, (e, (f, (i, p)))), w) ↦
          rw w (writes-AllLive app s (keystrokes command) (is_live_idle app s live e i))
      | inr (never, w) ↦ rw w tt
    ]

-- No effect is about a session.
abbrev Unaddressed : List Effect → Type 0
Unaddressed [] = Unit
Unaddressed (e ∷ es) = (addressed e ≡ none) × Unaddressed es

Unaddressed-AllLive : (app : App) (es : List Effect) → Unaddressed es → AllLive app es
Unaddressed-AllLive app [] h = tt
Unaddressed-AllLive app (e ∷ es) h =
    (λ s k. absurd (ground (arith, h.0, k)), Unaddressed-AllLive app es h.1)

probe_path-Unaddressed :
    (app : App) (request : PathRequest) → Unaddressed (probe_path app request).1
unfolding probe_path addressed
probe_path-Unaddressed app request = elim (Bool-cases (is_pending app.pending_path request)) [
  | inl e ↦ rw (e, probe_path) tt
  | inr e ↦ rw (e, probe_path) (refl, tt)
]

probed-Unaddressed :
    (app : App) (s : SessionId) (probe : TargetProbe) (kind : ProbeKind)
    → Unaddressed (probed app s probe kind).1
probed-Unaddressed app s probe (url_probe url) = tt
probed-Unaddressed app s probe (path_probe candidate line col) = probe_path-Unaddressed app _

pub set_term_target-AllLive :
    (app : App) (s : SessionId) (probe : Option TargetProbe)
    → AllLive app (set_term_target app s probe).1
unfolding set_term_target
set_term_target-AllLive app s none = tt
set_term_target-AllLive app s (some probe) =
    Unaddressed-AllLive app _ (probed-Unaddressed app s probe probe.kind)

opened_url-Unaddressed : (url : Text) → Unaddressed (opened_url url)
unfolding addressed
opened_url-Unaddressed url = elim (Bool-cases (is_empty (trim url))) [
  | inl e ↦ rw e tt
  | inr e ↦ rw e (refl, tt)
]

clicked-Unaddressed :
    (app : App) (s : SessionId) (probe : TargetProbe) (kind : ProbeKind)
    → Unaddressed (clicked app s probe kind)
unfolding addressed
clicked-Unaddressed app s probe (url_probe url) = opened_url-Unaddressed url
clicked-Unaddressed app s probe (path_probe candidate line col) = (refl, tt)

pub activate_target-AllLive :
    (app : App) (s : SessionId) (probe : TargetProbe) → AllLive app (activate_target app s probe).1
unfolding activate_target
activate_target-AllLive app s probe =
    Unaddressed-AllLive app _ (clicked-Unaddressed _ s probe probe.kind)

answered-Unaddressed :
    (app : App) (request : PathRequest) (path : Option Text) (purpose : PathPurpose)
    → Unaddressed (answered app request path purpose).1
unfolding addressed
answered-Unaddressed app request path to_hover =
    elim (Bool-cases (is_pending app.pending_path request)) [ inl e ↦ rw e tt | inr e ↦ rw e tt ]
answered-Unaddressed app request none to_open = tt
answered-Unaddressed app request (some path) to_open = (refl, tt)

pub path_resolved-AllLive :
    (app : App) (request : PathRequest) (resolved : Option ResolvedPath)
    → AllLive app (path_resolved app request resolved).1
unfolding path_resolved
path_resolved-AllLive app request resolved =
    Unaddressed-AllLive app _
      (answered-Unaddressed app request (admitted app resolved) request.purpose)
