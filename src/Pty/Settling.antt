-- ===== src/Pty/Settling.antt =====
-- A held idle is published (crates/pty/src/status.rs).
use termherd.Prelude.{
  ℕ, ◌≡◌, inl, inr, refl, Bool, true, false, ◌&&◌, ◌||◌, not, List, [], ◌∷◌, Option, none, some,
  ltb, any, arith, Option-cases, Bool-cases,
}
use termherd.Session.{SessionStatus, starting, busy, idle, attention, exited}
use termherd.Claude.Osc.{OscSignal, busy_signal, idle_signal, bell, title, notification, alt_screen}
use termherd.Pty.Marks.{PromptMark}
use termherd.Pty.Activity.{
  Activity, is_busy, is_idle, classifies, is_work, fold_marks, fold_status, underlying, no_marks,
  next_due, observed, observe, settle, poll,
}

-- Only a session that reported itself, and reads as busy, holds an idle back.
abbrev pub IsHeld : Activity → Type 0
IsHeld a = (due : ℕ) → a.idle_due ≡ some due → (a.status ≡ busy) × (a.self_reported ≡ true)

fold_status_quiet :
    (current : SessionStatus) (signals : List OscSignal)
    → any classifies signals ≡ false
    → fold_status current signals ≡ current
unfolding fold_status classifies
fold_status_quiet current [] h = refl
fold_status_quiet current (busy_signal ∷ signals) h = absurd (ground arith)
fold_status_quiet current (idle_signal ∷ signals) h = absurd (ground arith)
fold_status_quiet current (notification _ ∷ signals) h = absurd (ground arith)
fold_status_quiet current (title _ ∷ signals) h = fold_status_quiet current signals h
fold_status_quiet current (alt_screen _ ∷ signals) h = fold_status_quiet current signals h
fold_status_quiet current (bell ∷ signals) h = fold_status_quiet current signals h

is_busy_sound : (s : SessionStatus) → is_busy s ≡ true → s ≡ busy
is_busy_sound busy h = refl
is_busy_sound starting h = absurd (ground arith)
is_busy_sound idle h = absurd (ground arith)
is_busy_sound attention h = absurd (ground arith)
is_busy_sound exited h = absurd (ground arith)

observed-IsHeld :
    (a : Activity) (folded : SessionStatus) (held worked reported : Bool) (now : ℕ) (due : Option ℕ)
    → (held ≡ true → (a.status ≡ busy) × ((a.self_reported || reported) ≡ true))
    → IsHeld (observed a folded (next_due held worked now due) reported)
observed-IsHeld a folded false worked reported now due h d k = absurd (ground arith)
observed-IsHeld a folded true worked reported now none h d k = h refl
observed-IsHeld a folded true false reported now (some due) h d k = h refl
observed-IsHeld a folded true true reported now (some due) h d k = h refl

reported_of_idle :
    (a : Activity) (signals : List OscSignal)
    → IsHeld a
    → a.status ≡ busy
    → is_idle (fold_status (underlying a) signals) ≡ true
    → (a.self_reported || any classifies signals) ≡ true
reported_of_idle a signals ok b i = elim (Option-cases a.idle_due) [
  | inr (due, e) ↦ ground (arith, (ok due e).1)
  | inl e ↦ elim (Bool-cases (any classifies signals)) [
    | inl c ↦ ground (arith, c)
    | inr c ↦ absurd (ground (arith, e, b, i, fold_status_quiet (underlying a) signals c))
  ]
]

held_reported :
    (a : Activity) (signals : List OscSignal) (marks : List PromptMark)
    → IsHeld a
    → (no_marks marks
        && is_busy a.status
        && is_idle (fold_status (fold_marks (underlying a) marks) signals))
      ≡ true
    → (a.status ≡ busy)
      × ((a.self_reported || (not (no_marks marks) || any classifies signals)) ≡ true)
unfolding fold_marks
held_reported a signals (m ∷ marks) ok h = absurd (ground arith)
held_reported a signals [] ok h =
    let b = is_busy_sound a.status (ground (arith, h)) in
    (b, reported_of_idle a signals ok b (ground (arith, h)))

pub observe-IsHeld :
    (a : Activity) (signals : List OscSignal) (marks : List PromptMark) (now : ℕ)
    → IsHeld a
    → IsHeld (observe a signals marks now)
unfolding observe
observe-IsHeld a signals marks now ok =
    let folded = fold_status (fold_marks (underlying a) marks) signals in
    observed-IsHeld a folded (no_marks marks && is_busy a.status && is_idle folded)
      (any is_work signals) (not (no_marks marks) || any classifies signals) now a.idle_due
      (held_reported a signals marks ok)

pub settle-IsHeld : (a : Activity) (now : ℕ) → IsHeld a → IsHeld (settle a now).0
unfolding settle
settle-IsHeld a now ok = elim (Option-cases a.idle_due) [
  | inl e ↦ rw (e, settle) ok
  | inr (due, e) ↦ elim (Bool-cases (ltb now due)) [
    | inl l ↦ rw (e, settle) (rw l ok)
    | inr l ↦ rw (e, settle) (rw l (λ d k. absurd (ground arith)))
  ]
]

pub poll-IsHeld :
    (a : Activity) (reading : Option SessionStatus) → IsHeld a → IsHeld (poll a reading).0
unfolding poll
poll-IsHeld a none ok = ok
poll-IsHeld a (some status) ok = elim (Bool-cases a.self_reported) [
  | inl e ↦ rw e (λ d k. ((ok d k).0, refl))
  | inr e ↦ λ d k.
      let k' : a.idle_due ≡ some d = ground (arith, e, k) in absurd (ground (arith, e, (ok d k').1))
]
