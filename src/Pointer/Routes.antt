-- ===== src/Pointer/Routes.antt =====
-- Where pointer events go, and the grid lines they name (crates/core/src/app/pointer.rs).
use termherd.Prelude.{
  ℕ, ◌+◌, ◌-◌, ◌%◌, ◌^◌, ◌<◌, ◌≤◌, ◌≡◌, ◌⊎◌, inl, inr, refl, Bool, true, false, Option, none, some,
  arith, leb, if◌then◌else◌, Bool-cases,
}
use termherd.Effect.{
  I32, pos, negsuc, PointerKind, press, release, click, drag, motion, PointerEvent, SelectOp,
}
use termherd.Pointer.{
  MouseReporting, click_reporting, drag_reporting, motion_reporting, PointerRoute, forward,
  select_locally, nothing, LocalGesture, start_gesture, extend_gesture, clear_gesture, local_route,
  gesture_op, local_gesture, covered, route, grid_line, pointer_select,
}

-- The difference of a row and an offset.
abbrev pub difference : ℕ → ℕ → I32
difference row offset = if leb offset row then pos (row - offset) else negsuc (offset - row - 1)

pub grid_line_lem :
    (row display_offset : ℕ)
    → row < 2 ^ 16
    → display_offset ≤ 2 ^ 31
    → grid_line row display_offset ≡ difference row display_offset
unfolding grid_line
grid_line_lem row display_offset r d = elim (Bool-cases (leb display_offset row)) [
  | inl e ↦
      let low : (row + (2 ^ 32 - display_offset % 2 ^ 32)) % 2 ^ 32 ≡ row - display_offset =
        ground (arith, e) in
      ground (arith, e, low)
  | inr e ↦
      let low : (row + (2 ^ 32 - display_offset % 2 ^ 32)) % 2 ^ 32
          ≡ 2 ^ 32 - (display_offset - row) =
        ground (arith, e) in
      ground (arith, e, low)
]

abbrev pub selects : Option SelectOp → PointerRoute
selects none = nothing
selects (some _) = select_locally

-- The kind of reporting that a wider one includes.
abbrev pub includes : MouseReporting → MouseReporting → Bool
includes motion_reporting _ = true
includes drag_reporting motion_reporting = false
includes drag_reporting _ = true
includes click_reporting click_reporting = true
includes click_reporting _ = false

gesture_selects :
    (gesture : Option LocalGesture) (line : I32) (col : ℕ)
    → local_route gesture ≡ selects (gesture_op line col gesture)
gesture_selects none line col = refl
gesture_selects (some start_gesture) line col = refl
gesture_selects (some extend_gesture) line col = refl
gesture_selects (some clear_gesture) line col = refl

covered_wider :
    (kind : PointerKind) (narrow wide : MouseReporting)
    → includes wide narrow ≡ true
    → covered kind narrow ≡ true
    → covered kind wide ≡ true
covered_wider press narrow wide h k = refl
covered_wider release narrow wide h k = refl
covered_wider click narrow wide h k = refl
covered_wider drag click_reporting wide h k = absurd (ground arith)
covered_wider drag drag_reporting click_reporting h k = absurd (ground arith)
covered_wider drag drag_reporting drag_reporting h k = refl
covered_wider drag drag_reporting motion_reporting h k = refl
covered_wider drag motion_reporting click_reporting h k = absurd (ground arith)
covered_wider drag motion_reporting drag_reporting h k = refl
covered_wider drag motion_reporting motion_reporting h k = refl
covered_wider motion click_reporting wide h k = absurd (ground arith)
covered_wider motion drag_reporting wide h k = absurd (ground arith)
covered_wider motion motion_reporting click_reporting h k = absurd (ground arith)
covered_wider motion motion_reporting drag_reporting h k = absurd (ground arith)
covered_wider motion motion_reporting motion_reporting h k = refl

route_forward :
    (pointer : PointerEvent) (narrow wide : MouseReporting)
    → includes wide narrow ≡ true
    → route pointer (some narrow) ≡ forward
    → route pointer (some wide) ≡ forward
unfolding route
route_forward pointer narrow wide h k = elim (Bool-cases (covered pointer.kind narrow)) [
  | inl e ↦ rw (covered_wider pointer.kind narrow wide h e, route) refl
  | inr e ↦ absurd (ground (arith, e, k))
]

route_reported_cases :
    (pointer : PointerEvent) (reporting : MouseReporting)
    → (route pointer (some reporting) ≡ forward) ⊎ (route pointer (some reporting) ≡ nothing)
unfolding route
route_reported_cases pointer reporting = elim (Bool-cases (covered pointer.kind reporting)) [
  | inl e ↦ inl (rw (e, route) refl)
  | inr e ↦ inr (rw (e, route) refl)
]

-- Where nothing reads the mouse, a pointer event goes to the selection exactly where it changes
-- it, and nowhere else; where something does, it is forwarded or dropped, and a wider reporting
-- forwards whatever a narrower one does.
pub route-pointer_select :
    (pointer : PointerEvent) (display_offset : ℕ)
    → (route pointer none ≡ selects (pointer_select pointer display_offset))
      × (((reporting : MouseReporting)
            → (route pointer (some reporting) ≡ forward)
              ⊎ (route pointer (some reporting) ≡ nothing))
          × ((narrow wide : MouseReporting)
              → includes wide narrow ≡ true
              → route pointer (some narrow) ≡ forward
              → route pointer (some wide) ≡ forward))
unfolding pointer_select
route-pointer_select pointer display_offset = (
  unfold route in
      gesture_selects (local_gesture pointer) (grid_line pointer.row display_offset) pointer.col,
  (route_reported_cases pointer, route_forward pointer),
)
