-- ===== src/App/Screencast.antt =====
-- How many frames a screencast captures.
use termherd.Prelude.{
  ℕ, zero, suc, ◌+◌, ◌≤◌, ◌<◌, ◌≡◌, refl, ◌∙◌, ap, true, false, List, [], ◌∷◌, ◌++◌, none, some,
  arith, ◌==◌, leb, replicate,
}
use termherd.Effect.{Effect, start_recording, capture_frame, finish_recording}
use termherd.App.{App}
use termherd.App.Recorder.{toggle_record, record_tick}

-- So many beats of the frame timer, and all their effects.
unfoldable pub ticks : ℕ → App → App × List Effect
ticks zero app = (app, [])
ticks (suc n) app =
    let (app', first) = record_tick app in
    let (app'', rest) = ticks n app' in (app'', first ++ rest)

abbrev recording_at : App → ℕ → ℕ → App
recording_at app frames max_frames = record app {
  recording = some (record { frames = frames; max_frames = max_frames });
}

ticks-step :
    (app app' : App) (effects : List Effect) (n : ℕ)
    → record_tick app ≡ (app', effects)
    → ticks (suc n) app ≡ ((ticks n app').0, effects ++ (ticks n app').1)
unfolding ticks
ticks-step app app' effects n h =
    ap (λ (r : App × List Effect). ((ticks n r.0).0, r.1 ++ (ticks n r.0).1)) h

tick_counts :
    (app : App) (frames max_frames : ℕ)
    → frames + 1 < max_frames
    → record_tick (recording_at app frames max_frames)
      ≡ (recording_at app (frames + 1) max_frames, capture_frame ∷ [])
unfolding record_tick
tick_counts app frames max_frames h =
    let more : leb max_frames (frames + 1) ≡ false = ground arith in rw more refl

tick_stops :
    (app : App) (frames max_frames : ℕ)
    → max_frames ≤ frames + 1
    → record_tick (recording_at app frames max_frames)
      ≡ (record app { recording = none }, capture_frame ∷ finish_recording true ∷ [])
unfolding record_tick
tick_stops app frames max_frames h =
    let full : leb max_frames (frames + 1) ≡ true = ground arith in rw full refl

ticks_from :
    (app : App) (n frames max_frames : ℕ)
    → max_frames ≡ frames + suc n
    → ticks (suc n) (recording_at app frames max_frames) ≡ (
      record app { recording = none },
      replicate (suc n) capture_frame ++ finish_recording true ∷ [],
    )
ticks_from app zero frames max_frames h =
    ticks-step _ _ _ zero (tick_stops app frames max_frames (omega arith)) ∙ (unfold ticks in refl)
ticks_from app (suc n) frames max_frames h =
    ticks-step _ _ _ (suc n) (tick_counts app frames max_frames (omega arith))
    ∙ ap (λ (r : App × List Effect). (r.0, capture_frame ∷ r.1))
        (ticks_from app n (frames + 1) max_frames (omega arith))

started :
    (app : App) (n : ℕ)
    → app.recording ≡ none
    → toggle_record app (suc n) ≡ (recording_at app 0 (suc n), start_recording ∷ [])
unfolding toggle_record
started app n idle =
    let some_frames : (suc n == 0) ≡ false = ground arith in
    rw (idle, toggle_record) (rw some_frames refl)

-- From no screencast, starting one with a cap of n + 1 frames answers that it starts, and n + 1
-- beats of its timer then answer n + 1 captures and one capped finish, in that order, and leave
-- no screencast and the rest of the state as it was.
pub ticks-toggle_record :
    (app : App) (n : ℕ)
    → app.recording ≡ none
    → ((toggle_record app (suc n)).1 ≡ start_recording ∷ [])
      × (ticks (suc n) (toggle_record app (suc n)).0 ≡ (
        record app { recording = none },
        replicate (suc n) capture_frame ++ finish_recording true ∷ [],
      ))
ticks-toggle_record app n idle =
    rw (started app n idle) (refl, ticks_from app n 0 (suc n) (omega arith))
