-- ===== src/Pty/Reports.antt =====
-- A held idle is published, whatever quiet reports come between (crates/pty/src/status.rs).
use termherd.Prelude.{
  ℕ, ◌≤◌, ◌<◌, ◌≡◌, refl, Bool, true, false, List, [], ◌∷◌, Option, none, some, ltb, any, arith,
}
use termherd.Session.{SessionStatus, busy, idle}
use termherd.Claude.Osc.{OscSignal, busy_signal, idle_signal, bell, title, notification, alt_screen}
use termherd.Pty.Marks.{PromptMark}
use termherd.Pty.Activity.{
  Activity, starting_activity, is_work, fold_marks, fold_status, no_marks, observe, settle, poll,
}
use termherd.Pty.Settling.{IsHeld, observe-IsHeld, settle-IsHeld, poll-IsHeld}

-- What the session's threads report of it, in the order it reaches the state.
pub data Report : Type 0 where
  chunk : (signals : List OscSignal) (marks : List PromptMark) (now : ℕ) → Report
  timer : (now : ℕ) → Report
  reading : (foreground : Option SessionStatus) → Report

abbrev pub report : Activity → Report → Activity
report a (chunk signals marks now) = observe a signals marks now
report a (timer now) = (settle a now).0
report a (reading foreground) = (poll a foreground).0

abbrev pub report_all : Activity → List Report → Activity
report_all a [] = a
report_all a (r ∷ rs) = report_all (report a r) rs

report-IsHeld : (a : Activity) (r : Report) → IsHeld a → IsHeld (report a r)
report-IsHeld a (chunk signals marks now) ok = observe-IsHeld a signals marks now ok
report-IsHeld a (timer now) ok = settle-IsHeld a now ok
report-IsHeld a (reading foreground) ok = poll-IsHeld a foreground ok

report_all-IsHeld : (a : Activity) (rs : List Report) → IsHeld a → IsHeld (report_all a rs)
report_all-IsHeld a [] ok = ok
report_all-IsHeld a (r ∷ rs) ok = report_all-IsHeld (report a r) rs (report-IsHeld a r ok)

-- A signal of work, or one that asks for the user.
abbrev pub disturbs : OscSignal → Bool
disturbs busy_signal = true
disturbs (notification _) = true
disturbs _ = false

-- No work, no mark and no request, and no timer at `due` or past it.
abbrev pub IsQuiet : ℕ → Report → Type 0
IsQuiet due (chunk signals marks now) = (any disturbs signals ≡ false) × (no_marks marks ≡ true)
IsQuiet due (timer now) = now < due
IsQuiet due (reading foreground) = Unit

abbrev pub AllQuiet : ℕ → List Report → Type 0
AllQuiet due [] = Unit
AllQuiet due (r ∷ rs) = IsQuiet due r × AllQuiet due rs

-- A busy session that reported itself and holds an idle back until `due`.
unfoldable Holding : ℕ → Activity → Type 0
Holding due a = (a.status ≡ busy) × ((a.self_reported ≡ true) × (a.idle_due ≡ some due))

fold_status_idle :
    (signals : List OscSignal)
    → any disturbs signals ≡ false
    → (fold_status idle signals ≡ idle) × (any is_work signals ≡ false)
unfolding fold_status
fold_status_idle [] h = (refl, refl)
fold_status_idle (busy_signal ∷ signals) h = absurd (ground arith)
fold_status_idle (notification _ ∷ signals) h = absurd (ground arith)
fold_status_idle (idle_signal ∷ signals) h = fold_status_idle signals h
fold_status_idle (title _ ∷ signals) h = fold_status_idle signals h
fold_status_idle (alt_screen _ ∷ signals) h = fold_status_idle signals h
fold_status_idle (bell ∷ signals) h = fold_status_idle signals h

observe-Holding :
    (due : ℕ) (a : Activity) (signals : List OscSignal) (now : ℕ)
    → any disturbs signals ≡ false
    → Holding due a
    → Holding due (observe a signals [] now)
unfolding Holding observe fold_marks
observe-Holding due a signals now q (b, (r, d)) =
    let (f, w) = fold_status_idle signals q in
    rw (d, b, r, observe) (rw (f, w) (refl, (refl, refl)))

settle-Holding :
    (due : ℕ) (a : Activity) (now : ℕ) → now < due → Holding due a → Holding due (settle a now).0
unfolding Holding settle
settle-Holding due a now l (b, (r, d)) =
    let early : ltb now due ≡ true = ground arith in rw (d, settle) (rw early (b, (r, d)))

poll-Holding :
    (due : ℕ) (a : Activity) (s : SessionStatus) → Holding due a → Holding due (poll a (some s)).0
unfolding Holding poll
poll-Holding due a s (b, (r, d)) = rw (r, poll) (b, (refl, d))

report-Holding :
    (due : ℕ) (a : Activity) (r : Report) → IsQuiet due r → Holding due a → Holding due (report a r)
unfolding Holding
report-Holding due a (chunk signals [] now) q h = observe-Holding due a signals now q.0 h
report-Holding due a (chunk signals (m ∷ ms) now) q h = absurd (ground arith)
report-Holding due a (timer now) q (b, (r, d)) = settle-Holding due a now q (b, (r, d))
report-Holding due a (reading none) q h = unfold poll in h
report-Holding due a (reading (some s)) q (b, (r, d)) = poll-Holding due a s (b, (r, d))

report_all-Holding :
    (due : ℕ) (a : Activity) (rs : List Report)
    → AllQuiet due rs
    → Holding due a
    → Holding due (report_all a rs)
report_all-Holding due a [] q h = h
report_all-Holding due a (r ∷ rs) q h =
    report_all-Holding due (report a r) rs q.1 (report-Holding due a r q.0 h)

-- Where reports from the start have led a session to hold an idle until an instant, and any
-- chunks without marks, work or notifications, earlier timers and process readings follow,
-- settling at that instant or later publishes the idle.
pub settle-report_all :
    (before quiet : List Report) (due now : ℕ)
    → (report_all starting_activity before).idle_due ≡ some due
    → AllQuiet due quiet
    → due ≤ now
    → settle (report_all (report_all starting_activity before) quiet) now
      ≡ (record { status = idle; self_reported = true; idle_due = none }, true)
unfolding settle Holding
settle-report_all before quiet due now h q l =
    let ok = report_all-IsHeld starting_activity before (λ d k. absurd (ground arith)) in
    let (b, r) = ok due h in
    let (b', (r', d')) =
      report_all-Holding due (report_all starting_activity before) quiet q (b, (r, h)) in
    let late : ltb now due ≡ false = ground arith in rw (d', settle) (rw late (rw r' refl))
