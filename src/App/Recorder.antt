-- ===== src/App/Recorder.antt =====
-- crates/core/src/app/record.rs, crates/core/src/app/notify.rs: the screencast's frame count, and
-- which alerts reach the desktop.
use termherd.Prelude.{
  ℕ, ◌+◌, Bool, true, false, ◌&&◌, List, [], ◌∷◌, Option, none, some, ◌==◌, leb, ltb, if◌then◌else◌,
  unwrap_or,
}
use termherd.Text.{Text, trim, is_empty}
use termherd.Pane.{SessionId}
use termherd.Workspace
use termherd.Workspace.{Workspace}
use termherd.Workspace.Panes.{focused_session}
use termherd.Effect.{
  Effect, start_recording, capture_frame, finish_recording, cancel_recording, notify,
}
use termherd.App.{App, is_live}

unfoldable pub toggle_record : App → ℕ → App × List Effect
toggle_record app max_frames = elim app.recording [
  | none ↦ if max_frames == 0 then (app, []) else (
    record app { recording = some (record { frames = 0; max_frames = max_frames }) },
    start_recording ∷ [],
  )
  | some r ↦
      if ltb 0 r.frames
      then (record app { recording = none }, finish_recording false ∷ [])
      else (record app { recording = none }, cancel_recording ∷ [])
]

-- The count is a `u32`, under the cap while a recording runs, so that it cannot overflow.
unfoldable pub record_tick : App → App × List Effect
record_tick app = elim app.recording [
  | none ↦ (app, [])
  | some r ↦
      if leb r.max_frames (r.frames + 1)
      then (record app { recording = none }, capture_frame ∷ finish_recording true ∷ [])
      else (
        record app {
          recording = some (record { frames = r.frames + 1; max_frames = r.max_frames });
        },
        capture_frame ∷ [],
      )
]

unfoldable pub recording_progress : App → Option (ℕ × ℕ)
recording_progress app = elim app.recording [ none ↦ none | some r ↦ some (r.frames, r.max_frames) ]

abbrev default_notification_body : Text
default_notification_body =
    67 ∷ 108 ∷ 97 ∷ 117 ∷ 100 ∷ 101 ∷ 32 ∷ 110 ∷ 101 ∷ 101 ∷ 100 ∷ 115 ∷ 32 ∷ 121 ∷ 111 ∷ 117 ∷ 114
    ∷ 32 ∷ 97 ∷ 116 ∷ 116 ∷ 101 ∷ 110 ∷ 116 ∷ 105 ∷ 111 ∷ 110 ∷ []

abbrev app_name : Text
app_name = 84 ∷ 101 ∷ 114 ∷ 109 ∷ 72 ∷ 101 ∷ 114 ∷ 100 ∷ []

-- Whether the pane is the focused one of the tab shown.
abbrev pub is_focused : Workspace → SessionId → Bool
is_focused w session = elim (focused_session w) [ none ↦ false | some f ↦ f == session ]

unfoldable pub notify_session : App → SessionId → Text → List Effect
notify_session app session body =
    if is_live app session
    then if app.window_focused && is_focused app.workspace session
      then []
      else notify session (unwrap_or (Workspace.session_title app.workspace session) app_name)
          (if is_empty (trim body) then default_notification_body else body)
        ∷ []
    else []
