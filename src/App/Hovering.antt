-- ===== src/App/Hovering.antt =====
-- crates/core/src/app/hover.rs, crates/core/src/app/open.rs: what the pointer rests on, the paths
-- asked about, and where a file opens.
use termherd.Prelude.{
  ℕ, Bool, false, ◌&&◌, not, List, [], ◌∷◌, Option, none, some, ◌==◌, if◌then◌else◌,
}
use termherd.Text.{Text, trim, is_empty}
use termherd.Pane.{SessionId}
use termherd.Registry.{get}
use termherd.Session.{is_some}
use termherd.Open.{OpenCommand, OpenTarget, system_handler, resolve}
use termherd.Paths.{runs_on_open}
use termherd.Hover.{
  url_target, path_target, TermHover, ProbeKind, url_probe, path_probe, TargetProbe, PathPurpose,
  to_hover, to_open, PathRequest, ResolvedPath, PathRoots, is_pending,
}
use termherd.Effect.{Effect, resolve_path, open_path, open_url}
use termherd.App.{App}

abbrev pub load_open_command : App → Option OpenCommand → App
load_open_command app command = record app { open_command = command }

unfoldable pub open_target : App → Text → Option ℕ → Option ℕ → OpenTarget
open_target app path line col = elim app.open_command [
  | some command ↦ resolve command path line col
  | none ↦ system_handler path
]

unfoldable pub refuses_to_open : App → Text → Bool
refuses_to_open app real = not (is_some app.open_command) && runs_on_open real

abbrev pub owned : Option TermHover → SessionId → Bool
owned none session = false
owned (some hover) session = hover.session == session

-- `App::hovers`.
unfoldable pub hovers : App → SessionId → Bool
hovers app session = owned app.hover session

abbrev pub asked_by : Option PathRequest → SessionId → Bool
asked_by none session = false
asked_by (some pending) session = pending.session == session

unfoldable pub clear_pending_for : App → SessionId → App
clear_pending_for app session =
    if asked_by app.pending_path session then record app { pending_path = none } else app

-- `if self.hovers(session) { self.hover = None; }`.
unfoldable pub clear_hover_of : App → SessionId → App
clear_hover_of app session = if hovers app session then record app { hover = none } else app

unfoldable pub path_roots : App → SessionId → PathRoots
path_roots app session = elim (get app.sessions session) [
  | none ↦ record { cwd = none; launch_cwd = none }
  | some live ↦ record { cwd = live.cwd; launch_cwd = live.launch_cwd }
]

abbrev pub request_of :
    SessionId → PathPurpose → TargetProbe → Text → Option ℕ → Option ℕ → PathRequest
request_of session purpose probe candidate line col = record {
  session = session;
  purpose = purpose;
  row = probe.row;
  start = probe.start;
  end = probe.end;
  candidate = candidate;
  line = line;
  col = col;
}

unfoldable pub probe_path : App → PathRequest → App × List Effect
probe_path app request = if is_pending app.pending_path request then (app, []) else (
  record app { hover = none; pending_path = some request },
  resolve_path (path_roots app request.session) request ∷ [],
)

abbrev pub url_hover : SessionId → TargetProbe → Text → TermHover
url_hover session probe url = record {
  session = session;
  row = probe.row;
  start = probe.start;
  end = probe.end;
  target = url_target url;
}

-- The `match probe.kind` of `set_term_target`.
abbrev pub probed : App → SessionId → TargetProbe → ProbeKind → App × List Effect
probed app session probe (url_probe url) =
    (record (clear_pending_for app session) { hover = some (url_hover session probe url) }, [])
probed app session probe (path_probe candidate line col) =
    probe_path app (request_of session to_hover probe candidate line col)

-- `App::set_term_target`.
unfoldable pub set_term_target : App → SessionId → Option TargetProbe → App × List Effect
set_term_target app session none = (clear_pending_for (clear_hover_of app session) session, [])
set_term_target app session (some probe) = probed app session probe probe.kind

-- The path that may be shown and opened, if there is one.
unfoldable pub admitted : App → Option ResolvedPath → Option Text
admitted app none = none
admitted app (some resolved) =
    if refuses_to_open app resolved.real then none else some resolved.path

abbrev pub path_hover : PathRequest → Option Text → Option TermHover
path_hover request none = none
path_hover request (some path) = some (record {
  session = request.session;
  row = request.row;
  start = request.start;
  end = request.end;
  target = path_target path request.line request.col;
})

abbrev pub opened : App → PathRequest → Option Text → List Effect
opened app request none = []
opened app request (some path) = open_path (open_target app path request.line request.col) ∷ []

-- The `match request.purpose` of `path_resolved`.
abbrev pub answered : App → PathRequest → Option Text → PathPurpose → App × List Effect
answered app request path to_hover =
    if is_pending app.pending_path request
    then (record app { pending_path = none; hover = path_hover request path }, [])
    else (app, [])
answered app request path to_open = (app, opened app request path)

-- `App::path_resolved`.
unfoldable pub path_resolved : App → PathRequest → Option ResolvedPath → App × List Effect
path_resolved app request resolved = answered app request (admitted app resolved) request.purpose

abbrev pub opened_url : Text → List Effect
opened_url url = if is_empty (trim url) then [] else open_url (trim url) ∷ []

-- The effects of a click on a probe.
abbrev pub clicked : App → SessionId → TargetProbe → ProbeKind → List Effect
clicked app session probe (url_probe url) = opened_url url
clicked app session probe (path_probe candidate line col) =
    resolve_path (path_roots app session) (request_of session to_open probe candidate line col) ∷ []

-- `App::activate_target`.
unfoldable pub activate_target : App → SessionId → TargetProbe → App × List Effect
activate_target app session probe =
    let app' = clear_pending_for (clear_hover_of app session) session in
    (app', clicked app' session probe probe.kind)
