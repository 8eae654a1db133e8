-- ===== src/Effect.antt =====
-- crates/core/src/app/effects.rs, crates/core/src/app.rs: what the runtime is asked to do.
use termherd.Prelude.{ℕ, Bool, List}
use termherd.Text.{Text}
use termherd.Pane.{SessionId}
use termherd.Session.{SpawnSpec}
use termherd.Metadata.{Overlay}
use termherd.Open.{OpenTarget}
use termherd.Hover.{PathRoots, PathRequest}

-- An `i32`: `pos n` is n, and `negsuc n` is -(n + 1).
pub data I32 : Type 0 where
  pos negsuc : ℕ → I32

pub data ScrollTarget : Type 0 where
  top bottom : ScrollTarget
  wheel : (col row : ℕ) (lines : I32) → ScrollTarget

pub data SelectSide : Type 0 where
  left right : SelectSide

pub data SelectOp : Type 0 where
  start update : (line : I32) (col : ℕ) (side : SelectSide) → SelectOp
  range : (line0 : I32) (col0 : ℕ) (line1 : I32) (col1 : ℕ) → SelectOp
  clear : SelectOp

-- crates/core/src/app/pointer.rs.
pub data PointerKind : Type 0 where
  press release click drag motion : PointerKind

pub data PointerButton : Type 0 where
  left_button middle_button right_button : PointerButton

pub record PointerEvent : Type 0 where
  pub kind : PointerKind
  pub col : ℕ
  pub row : ℕ
  pub button : PointerButton

-- The effects of the handlers that are modelled.
pub data Effect : Type 0 where
  spawn : SpawnSpec → Effect
  write : (session : SessionId) (bytes : List ℕ) → Effect
  resize : (session : SessionId) (cols rows : ℕ) → Effect
  scroll : (session : SessionId) (target : ScrollTarget) → Effect
  select : (session : SessionId) (op : SelectOp) → Effect
  copy_terminal_selection : (session : SessionId) → Effect
  terminal_pointer : (session : SessionId) (pointer : PointerEvent) → Effect
  kill : (session : SessionId) → Effect
  save_metadata : Overlay → Effect
  save_collapsed : List Text → Effect
  notify : (session : SessionId) (title body : Text) → Effect
  start_recording capture_frame : Effect
  finish_recording : (capped : Bool) → Effect
  cancel_recording tab_shown : Effect
  resolve_path : (roots : PathRoots) (request : PathRequest) → Effect
  open_path : OpenTarget → Effect
  open_url : Text → Effect
