-- ===== src/Pointer.antt =====
-- crates/core/src/app/pointer.rs: where a pointer event goes, and what it does to the selection.
pub mod Routes
use termherd.Prelude.{
  ℕ, suc, ◌+◌, ◌-◌, ◌%◌, ◌^◌, ◌≡◌, Bool, true, false, ◌&&◌, not, Option, none, some, ltb,
  if◌then◌else◌,
}
use termherd.Effect.{
  PointerKind, press, release, click, drag, motion, PointerButton, left_button, middle_button,
  right_button, PointerEvent, I32, pos, negsuc, SelectOp, start, update, clear, left, right,
}

pub data MouseReporting : Type 0 where
  click_reporting drag_reporting motion_reporting : MouseReporting

pub data PointerRoute : Type 0 where
  forward select_locally nothing : PointerRoute

pub data LocalGesture : Type 0 where
  start_gesture extend_gesture clear_gesture : LocalGesture

abbrev pub kind_gesture : PointerKind → Option LocalGesture
kind_gesture press = some start_gesture
kind_gesture drag = some extend_gesture
kind_gesture click = some clear_gesture
kind_gesture release = none
kind_gesture motion = none

-- `PointerEvent::local_gesture`.
unfoldable pub local_gesture : PointerEvent → Option LocalGesture
local_gesture pointer = elim pointer.button [
  | left_button ↦ kind_gesture pointer.kind
  | middle_button ↦ none
  | right_button ↦ none
]

abbrev pub covered : PointerKind → MouseReporting → Bool
covered press reporting = true
covered release reporting = true
covered click reporting = true
covered drag click_reporting = false
covered drag drag_reporting = true
covered drag motion_reporting = true
covered motion click_reporting = false
covered motion drag_reporting = false
covered motion motion_reporting = true

abbrev pub local_route : Option LocalGesture → PointerRoute
local_route none = nothing
local_route (some _) = select_locally

-- `PointerEvent::route`.
unfoldable pub route : PointerEvent → Option MouseReporting → PointerRoute
route pointer none = local_route (local_gesture pointer)
route pointer (some reporting) = if covered pointer.kind reporting then forward else nothing

-- The `i32` of the low 32 bits.
abbrev pub wrap_i32 : ℕ → I32
wrap_i32 n = let low = n % 2 ^ 32 in if ltb low (2 ^ 31) then pos low else negsuc (2 ^ 32 - 1 - low)

-- `i32::from(row) - display_offset as i32`, wrapping, for a row that is a `u16`.
unfoldable pub grid_line : ℕ → ℕ → I32
grid_line row display_offset = wrap_i32 (row + (2 ^ 32 - display_offset % 2 ^ 32))

-- What a gesture does at a cell: a `left` endpoint stands before it, a `right` one after it.
abbrev pub gesture_op : I32 → ℕ → Option LocalGesture → Option SelectOp
gesture_op line col none = none
gesture_op line col (some start_gesture) = some (start line col left)
gesture_op line col (some extend_gesture) = some (update line col right)
gesture_op line col (some clear_gesture) = some clear

unfoldable pub pointer_select : PointerEvent → ℕ → Option SelectOp
pointer_select pointer display_offset =
    gesture_op (grid_line pointer.row display_offset) pointer.col (local_gesture pointer)
