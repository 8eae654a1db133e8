-- ===== src/Hover.antt =====
-- crates/core/src/app/hover.rs: what the pointer can rest on in a terminal, and the questions asked
-- about it. A path is its text, and a cell's coordinates are `u16`s.
use termherd.Prelude.{ℕ, Bool, true, false, ◌&&◌, Option, none, some, ◌==◌}
use termherd.Text.{Text, text_eq}
use termherd.Pane.{SessionId}

pub data HoverTarget : Type 0 where
  url_target : Text → HoverTarget
  path_target : (path : Text) (line col : Option ℕ) → HoverTarget

pub record TermHover : Type 0 where
  pub session : SessionId
  pub row : ℕ
  pub start : ℕ
  pub end : ℕ
  pub target : HoverTarget

pub data ProbeKind : Type 0 where
  url_probe : Text → ProbeKind
  path_probe : (candidate : Text) (line col : Option ℕ) → ProbeKind

pub record TargetProbe : Type 0 where
  pub row : ℕ
  pub start : ℕ
  pub end : ℕ
  pub kind : ProbeKind

pub data PathPurpose : Type 0 where
  to_hover to_open : PathPurpose

pub record PathRequest : Type 0 where
  pub session : SessionId
  pub purpose : PathPurpose
  pub row : ℕ
  pub start : ℕ
  pub end : ℕ
  pub candidate : Text
  pub line : Option ℕ
  pub col : Option ℕ

pub record ResolvedPath : Type 0 where
  pub path : Text
  pub real : Text

pub record PathRoots : Type 0 where
  pub cwd : Option Text
  pub launch_cwd : Option Text

abbrev pub option_nat_eq : Option ℕ → Option ℕ → Bool
option_nat_eq none none = true
option_nat_eq (some m) (some n) = m == n
option_nat_eq _ _ = false

abbrev pub purpose_eq : PathPurpose → PathPurpose → Bool
purpose_eq to_hover to_hover = true
purpose_eq to_open to_open = true
purpose_eq _ _ = false

-- `PathRequest: PartialEq`.
unfoldable pub request_eq : PathRequest → PathRequest → Bool
request_eq q r =
    q.session == r.session
    && purpose_eq q.purpose r.purpose
    && q.row == r.row
    && q.start == r.start
    && q.end == r.end
    && text_eq q.candidate r.candidate
    && option_nat_eq q.line r.line
    && option_nat_eq q.col r.col

-- `self.pending_path.as_ref() == Some(request)`.
abbrev pub is_pending : Option PathRequest → PathRequest → Bool
is_pending none request = false
is_pending (some pending) request = request_eq pending request
