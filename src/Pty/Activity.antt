-- ===== src/Pty/Activity.antt =====
-- crates/pty/src/status.rs: a session's activity, folded from its signals, its marks and the
-- foreground process. An instant is a number of nanoseconds, the same clock's throughout.
use termherd.Prelude.{
  ℕ, ◌+◌, ◌^◌, Bool, true, false, ◌&&◌, ◌||◌, not, List, [], ◌∷◌, Option, none, some, ltb, ◌==◌,
  if◌then◌else◌, any,
}
use termherd.Session.{SessionStatus, starting, busy, idle, attention, exited}
use termherd.Effect.{I32, pos, negsuc}
use termherd.Claude.Osc.{OscSignal, busy_signal, idle_signal, bell, title, notification, alt_screen}
use termherd.Pty.Marks.{PromptMark, ready, running, finished}

-- 150 milliseconds.
abbrev pub idle_hold : ℕ
idle_hold = 150000000

pub record Activity : Type 0 where
  pub status : SessionStatus
  pub self_reported : Bool
  pub idle_due : Option ℕ

-- `Activity::starting`.
abbrev pub starting_activity : Activity
starting_activity = record { status = starting; self_reported = false; idle_due = none }

abbrev pub is_busy : SessionStatus → Bool
is_busy busy = true
is_busy _ = false

abbrev pub is_idle : SessionStatus → Bool
is_idle idle = true
is_idle _ = false

unfoldable pub classifies : OscSignal → Bool
classifies busy_signal = true
classifies idle_signal = true
classifies (notification _) = true
classifies _ = false

abbrev pub is_work : OscSignal → Bool
is_work busy_signal = true
is_work _ = false

abbrev pub mark_status : SessionStatus → PromptMark → SessionStatus
mark_status status running = busy
mark_status attention ready = attention
mark_status status ready = idle
mark_status attention finished = attention
mark_status status finished = idle

unfoldable pub fold_marks : SessionStatus → List PromptMark → SessionStatus
fold_marks current [] = current
fold_marks current (mark ∷ marks) = fold_marks (mark_status current mark) marks

abbrev pub signal_status : SessionStatus → OscSignal → SessionStatus
signal_status status busy_signal = busy
signal_status attention idle_signal = attention
signal_status status idle_signal = idle
signal_status status (notification _) = attention
signal_status status (title _) = status
signal_status status (alt_screen _) = status
signal_status status bell = status

unfoldable pub fold_status : SessionStatus → List OscSignal → SessionStatus
fold_status current [] = current
fold_status current (signal ∷ signals) = fold_status (signal_status current signal) signals

-- `Activity::underlying`.
abbrev pub underlying : Activity → SessionStatus
underlying a = elim a.idle_due [ none ↦ a.status | some _ ↦ idle ]

abbrev pub no_marks : List PromptMark → Bool
no_marks [] = true
no_marks (_ ∷ _) = false

-- The `match self.idle_due` of `observe`.
abbrev pub next_due : Bool → Bool → ℕ → Option ℕ → Option ℕ
next_due false worked now due = none
next_due true false now (some due) = some due
next_due true true now (some due) = some (now + idle_hold)
next_due true worked now none = some (now + idle_hold)

abbrev pub observed : Activity → SessionStatus → Option ℕ → Bool → Activity
observed a folded none reported = record {
  status = folded;
  self_reported = a.self_reported || reported;
  idle_due = none;
}
observed a folded (some due) reported = record {
  status = a.status;
  self_reported = a.self_reported || reported;
  idle_due = some due;
}

-- `Activity::observe`.
unfoldable pub observe : Activity → List OscSignal → List PromptMark → ℕ → Activity
observe a signals marks now =
    let folded = fold_status (fold_marks (underlying a) marks) signals in
    let held = no_marks marks && is_busy a.status && is_idle folded in
    observed a folded (next_due held (any is_work signals) now a.idle_due)
      (not (no_marks marks) || any classifies signals)

-- `Activity::settle`: the state after, and whether it moved.
unfoldable pub settle : Activity → ℕ → Activity × Bool
settle a now = elim a.idle_due [
  | none ↦ (a, false)
  | some due ↦
      if ltb now due
      then (a, false)
      else (record { status = idle; self_reported = a.self_reported; idle_due = none }, true)
]

abbrev pub status_eq : SessionStatus → SessionStatus → Bool
status_eq starting starting = true
status_eq busy busy = true
status_eq idle idle = true
status_eq attention attention = true
status_eq exited exited = true
status_eq _ _ = false

-- `Activity::poll`.
unfoldable pub poll : Activity → Option SessionStatus → Activity × Bool
poll a none = (a, false)
poll a (some status) = if a.self_reported then (a, false) else (
  record { status = status; self_reported = a.self_reported; idle_due = a.idle_due },
  not (status_eq status a.status),
)

-- The foreground process group is an `i32`, and the shell's process id a `u32`.
unfoldable pub foreground_status : Option I32 → Option ℕ → Option SessionStatus
foreground_status none shell = none
foreground_status (some leader) none = none
foreground_status (some (pos leader)) (some shell) =
    if ltb shell (2 ^ 31) then some (if leader == shell then idle else busy) else none
foreground_status (some (negsuc _)) (some shell) = if ltb shell (2 ^ 31) then some busy else none

unfoldable pub foreground_job : Option I32 → Option ℕ → Option ℕ
foreground_job none shell = none
foreground_job (some leader) none = none
foreground_job (some (pos leader)) (some shell) = if leader == shell then none else some leader
foreground_job (some (negsuc _)) (some shell) = none
