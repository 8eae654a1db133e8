-- ===== src/App/Answers.antt =====
-- What comes of a path that the pointer rests on or clicks (crates/core/src/app/hover.rs).
use termherd.Prelude.{
  Option-cases, ℕ, ◌≡◌, ◌⊎◌, refl, sym, subst, inl, inr, true, false, [], ◌∷◌, Option, none, some,
  arith, Bool-cases,
}
use termherd.Text.{Text, text_eq_refl}
use termherd.Pane.{SessionId}
use termherd.Paths.{runs_on_open}
use termherd.Effect.{resolve_path}
use termherd.Hover.{
  path_target, TargetProbe, path_probe, PathPurpose, purpose_eq, to_hover, to_open, PathRequest,
  option_nat_eq, request_eq, ResolvedPath, is_pending,
}
use termherd.App.{App}
use termherd.App.Hovering.{
  refuses_to_open, request_of, path_roots, probe_path, set_term_target, admitted, path_hover,
  answered, path_resolved,
}

option_nat_eq_refl : (n : Option ℕ) → option_nat_eq n n ≡ true
option_nat_eq_refl none = refl
option_nat_eq_refl (some n) = ground arith

purpose_eq_refl : (p : PathPurpose) → purpose_eq p p ≡ true
purpose_eq_refl to_hover = refl
purpose_eq_refl to_open = refl

request_eq_refl : (r : PathRequest) → request_eq r r ≡ true
unfolding request_eq
request_eq_refl r = ground (
  arith,
  purpose_eq_refl r.purpose,
  text_eq_refl r.candidate,
  option_nat_eq_refl r.line,
  option_nat_eq_refl r.col,
)

-- No answer, or one that the system's handler would run where no editor is configured.
abbrev pub IsBarred : App → Option ResolvedPath → Type 0
IsBarred app none = Unit
IsBarred app (some resolved) = (app.open_command ≡ none) × (runs_on_open resolved.real ≡ true)

admitted_barred :
    (app : App) (resolved : Option ResolvedPath)
    → IsBarred app resolved
    → admitted app resolved ≡ none
unfolding admitted refuses_to_open
admitted_barred app none h = refl
admitted_barred app (some resolved) (c, r) = rw (c, r, admitted, refuses_to_open) refl

answered-none :
    (app : App) (request : PathRequest) (purpose : PathPurpose)
    → ((answered app request none purpose).1 ≡ [])
      × (((answered app request none purpose).0.hover ≡ none)
          ⊎ ((answered app request none purpose).0.hover ≡ app.hover))
answered-none app request to_hover = elim (Bool-cases (is_pending app.pending_path request)) [
  | inl e ↦ rw e (refl, inl refl)
  | inr e ↦ rw e (refl, inr refl)
]
answered-none app request to_open = (refl, inr refl)

-- Where no file was found for a path, or no editor command is configured and the file behind the
-- path's links is one that the system's handler would run, the answer opens nothing and leaves
-- the pointer's hover as it was or clears it.
pub path_resolved_barred :
    (app : App) (request : PathRequest) (resolved : Option ResolvedPath)
    → IsBarred app resolved
    → ((path_resolved app request resolved).1 ≡ [])
      × (((path_resolved app request resolved).0.hover ≡ none)
          ⊎ ((path_resolved app request resolved).0.hover ≡ app.hover))
unfolding path_resolved
path_resolved_barred app request resolved h =
    rw (admitted_barred app resolved h) (answered-none app request request.purpose)

-- The state after a hover's question was put.
abbrev asking : App → PathRequest → App
asking app request = record app { hover = none; pending_path = some request }

set_term_target_asks :
    (app : App) (session : SessionId) (probe : TargetProbe) (candidate : Text) (line col : Option ℕ)
    → probe.kind ≡ path_probe candidate line col
    → is_pending app.pending_path (request_of session to_hover probe candidate line col) ≡ false
    → set_term_target app session (some probe) ≡ (
      asking app (request_of session to_hover probe candidate line col),
      resolve_path (path_roots app session) (request_of session to_hover probe candidate line col)
          ∷ [],
    )
unfolding set_term_target probe_path
set_term_target_asks app session probe candidate line col k fresh =
    rw (k, set_term_target) (rw (fresh, probe_path) refl)

admitted_safe :
    (app : App) (resolved : ResolvedPath)
    → ((app.open_command ≡ none) → runs_on_open resolved.real ≡ false)
    → admitted app (some resolved) ≡ some resolved.path
unfolding admitted refuses_to_open
admitted_safe app resolved safe = elim (Option-cases app.open_command) [
  | inl e ↦ rw (e, safe e, admitted, refuses_to_open) refl
  | inr (command, e) ↦ rw (e, admitted, refuses_to_open) refl
]

answered_asked :
    (app : App) (request : PathRequest) (path : Option Text)
    → (answered (asking app request) request path to_hover).0.hover ≡ path_hover request path
answered_asked app request path = rw (request_eq_refl request) refl

path_resolved_asked :
    (app : App) (request : PathRequest) (resolved : ResolvedPath)
    → request.purpose ≡ to_hover
    → ((app.open_command ≡ none) → runs_on_open resolved.real ≡ false)
    → (path_resolved (asking app request) request (some resolved)).0.hover
      ≡ path_hover request (some resolved.path)
unfolding path_resolved
path_resolved_asked app request resolved p safe =
    let answer = admitted (asking app request) (some resolved) in
    let shown =
      subst
        (λ path.
          (answered (asking app request) request answer to_hover).0.hover ≡ path_hover request path)
        (admitted_safe (asking app request) resolved safe) (answered_asked app request answer) in
    subst
      (λ q.
        (answered (asking app request) request answer q).0.hover
        ≡ path_hover request (some resolved.path))
      (sym p) shown

-- Where the pointer rests on a path that is not already asked about, one question with the
-- session's directories is asked, and once it is answered by a file that an editor command is
-- configured for or that the system's handler would not run, the hover is that file at the probed
-- cells and position.
pub path_resolved-set_term_target :
    (app : App) (session : SessionId) (probe : TargetProbe) (candidate : Text) (line col : Option ℕ)
    (resolved : ResolvedPath)
    → probe.kind ≡ path_probe candidate line col
    → is_pending app.pending_path (request_of session to_hover probe candidate line col) ≡ false
    → ((app.open_command ≡ none) → runs_on_open resolved.real ≡ false)
    → ((set_term_target app session (some probe)).1
        ≡ resolve_path
            (path_roots app session)
            (request_of session to_hover probe candidate line col)
          ∷ [])
      × ((path_resolved
            (set_term_target app session (some probe)).0
            (request_of session to_hover probe candidate line col)
            (some resolved)).0.hover
          ≡ some (record {
            session = session;
            row = probe.row;
            start = probe.start;
            end = probe.end;
            target = path_target resolved.path line col;
          }))
path_resolved-set_term_target app session probe candidate line col resolved k fresh safe =
    rw (set_term_target_asks app session probe candidate line col k fresh) (
      refl,
      path_resolved_asked app (request_of session to_hover probe candidate line col) resolved refl
          safe,
    )
