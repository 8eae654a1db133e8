-- ===== src/App/Targets.antt =====
-- The handlers of targets change the hover and the pending path alone.
use termherd.Prelude.{◌≡◌, refl, inl, inr, Option, none, some, Bool-cases}
use termherd.Text.{Text}
use termherd.Pane.{SessionId}
use termherd.Hover.{
  TermHover, TargetProbe, ProbeKind, url_probe, path_probe, PathPurpose, to_hover, to_open,
  PathRequest, ResolvedPath, is_pending,
}
use termherd.App.{App}
use termherd.App.Hovering.{
  url_hover, path_hover, hovers, asked_by, clear_hover_of, clear_pending_for, probe_path, probed,
  set_term_target, admitted, answered, path_resolved, activate_target,
}

abbrev pub pointed : App → Option TermHover → Option PathRequest → App
pointed app hover pending = record app { hover = hover; pending_path = pending }

abbrev pub IsPointed : App → App → Type 0
IsPointed app app' =
    (hover : Option TermHover) × ((pending : Option PathRequest) × (app'
        ≡ pointed app hover pending))

cleared-IsPointed :
    (app : App) (s : SessionId) → IsPointed app (clear_pending_for (clear_hover_of app s) s)
unfolding clear_pending_for clear_hover_of
cleared-IsPointed app s = elim (Bool-cases (hovers app s)) [
  | inl e ↦ elim (Bool-cases (asked_by app.pending_path s)) [
    | inl f ↦ (none, (none, rw (e, clear_hover_of, clear_pending_for) (rw f refl)))
    | inr f ↦ (none, (app.pending_path, rw (e, clear_hover_of, clear_pending_for) (rw f refl)))
  ]
  | inr e ↦ elim (Bool-cases (asked_by app.pending_path s)) [
    | inl f ↦ (app.hover, (none, rw (e, clear_hover_of, clear_pending_for) (rw f refl)))
    | inr f ↦ (app.hover, (app.pending_path, rw (e, clear_hover_of, clear_pending_for) (rw f refl)))
  ]
]

probed-IsPointed :
    (app : App) (s : SessionId) (probe : TargetProbe) (kind : ProbeKind)
    → IsPointed app (probed app s probe kind).0
unfolding clear_pending_for probe_path
probed-IsPointed app s probe (url_probe url) = elim (Bool-cases (asked_by app.pending_path s)) [
  | inl f ↦ (some (url_hover s probe url), (none, rw (f, clear_pending_for) refl))
  | inr f ↦ (some (url_hover s probe url), (app.pending_path, rw (f, clear_pending_for) refl))
]
probed-IsPointed app s probe (path_probe candidate line col) = asked _
  where
    asked : (request : PathRequest) → IsPointed app (probe_path app request).0
    asked request = elim (Bool-cases (is_pending app.pending_path request)) [
      | inl e ↦ (app.hover, (app.pending_path, rw (e, probe_path) refl))
      | inr e ↦ (none, (some request, rw (e, probe_path) refl))
    ]

pub set_term_target-IsPointed :
    (app : App) (s : SessionId) (probe : Option TargetProbe)
    → IsPointed app (set_term_target app s probe).0
unfolding set_term_target
set_term_target-IsPointed app s none = cleared-IsPointed app s
set_term_target-IsPointed app s (some probe) = probed-IsPointed app s probe probe.kind

pub activate_target-IsPointed :
    (app : App) (s : SessionId) (probe : TargetProbe)
    → IsPointed app (activate_target app s probe).0
unfolding activate_target
activate_target-IsPointed app s probe = cleared-IsPointed app s

answered-IsPointed :
    (app : App) (request : PathRequest) (path : Option Text) (purpose : PathPurpose)
    → IsPointed app (answered app request path purpose).0
answered-IsPointed app request path to_hover =
    elim (Bool-cases (is_pending app.pending_path request)) [
      | inl e ↦ (path_hover request path, (none, rw e refl))
      | inr e ↦ (app.hover, (app.pending_path, rw e refl))
    ]
answered-IsPointed app request path to_open = (app.hover, (app.pending_path, refl))

pub path_resolved-IsPointed :
    (app : App) (request : PathRequest) (resolved : Option ResolvedPath)
    → IsPointed app (path_resolved app request resolved).0
unfolding path_resolved
path_resolved-IsPointed app request resolved =
    answered-IsPointed app request (admitted app resolved) request.purpose
