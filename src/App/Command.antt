-- ===== src/App/Command.antt =====
-- crates/core/src/app/command.rs: whether a session can take a Claude command now, and the writes
-- that type it.
use termherd.Prelude.{
  ◌≡◌, ◌⊎◌, inl, inr, refl, true, not, List, [], map, none, some, arith, if◌then◌else◌, Result, ok,
  err, Option-cases, Bool-cases,
}
use termherd.Text.{Text}
use termherd.Pane.{SessionId}
use termherd.Session.{
  SessionStatus, idle, starting, busy, attention, exited, LiveSession, runs_claude,
}
use termherd.Registry.{get}
use termherd.Effect.{Effect, write}
use termherd.App.{App}
use termherd.Claude.Command.{ClaudeCommand, keystrokes}
use termherd.Claude.Prompt.{PromptInput, empty, draft, not_visible}

pub data CommandRefusal : Type 0 where
  unknown_session not_claude prompt_not_visible : CommandRefusal
  not_idle : SessionStatus → CommandRefusal
  draft_present : Text → CommandRefusal

abbrev pub prompt_check : PromptInput → Result CommandRefusal (Unit {0})
prompt_check empty = ok tt
prompt_check (draft text) = err (draft_present text)
prompt_check not_visible = err prompt_not_visible

abbrev pub status_check : SessionStatus → PromptInput → Result CommandRefusal (Unit {0})
status_check idle prompt = prompt_check prompt
status_check status prompt = err (not_idle status)

-- `App::claude_command_check`.
unfoldable pub claude_command_check :
    App → SessionId → PromptInput → Result CommandRefusal (Unit {0})
claude_command_check app session prompt = elim (get app.sessions session) [
  | none ↦ err unknown_session
  | some live ↦ if not (runs_claude live) then err not_claude else status_check live.status prompt
]

-- `App::send_claude_command`.
unfoldable pub send_claude_command : App → SessionId → ClaudeCommand → PromptInput → List Effect
send_claude_command app session command prompt = elim (claude_command_check app session prompt) [
  | err _ ↦ []
  | ok _ ↦ map (write session) (keystrokes command)
]

-- A live Claude, idle, whose prompt shows empty.
abbrev pub IsReady : App → SessionId → PromptInput → Type 0
IsReady app session prompt =
    (live : LiveSession) × ((get app.sessions session ≡ some live)
      × ((runs_claude live ≡ true) × ((live.status ≡ idle) × (prompt ≡ empty))))

status_check_cases :
    (status : SessionStatus) (prompt : PromptInput)
    → ((status ≡ idle) × ((prompt ≡ empty) × (status_check status prompt ≡ ok tt)))
      ⊎ ((refusal : CommandRefusal) × ((status_check status prompt ≡ err refusal)
            × ((status ≡ idle) → (prompt ≡ empty) → ⊥)))
status_check_cases idle empty = inl (refl, (refl, refl))
status_check_cases idle (draft text) =
    inr (draft_present text, (refl, λ h k. absurd (ground arith)))
status_check_cases idle not_visible = inr (prompt_not_visible, (refl, λ h k. absurd (ground arith)))
status_check_cases starting prompt = inr (not_idle starting, (refl, λ h k. absurd (ground arith)))
status_check_cases busy prompt = inr (not_idle busy, (refl, λ h k. absurd (ground arith)))
status_check_cases attention prompt = inr (not_idle attention, (refl, λ h k. absurd (ground arith)))
status_check_cases exited prompt = inr (not_idle exited, (refl, λ h k. absurd (ground arith)))

-- The check passes just where the session is ready.
pub claude_command_check_cases :
    (app : App) (session : SessionId) (prompt : PromptInput)
    → (IsReady app session prompt × (claude_command_check app session prompt ≡ ok tt))
      ⊎ ((refusal : CommandRefusal) × ((claude_command_check app session prompt ≡ err refusal)
            × (IsReady app session prompt → ⊥)))
unfolding claude_command_check
claude_command_check_cases app session prompt = elim (Option-cases (get app.sessions session)) [
  | inl e ↦ inr (
    unknown_session,
    (rw (e, claude_command_check) refl, λ (l, (g, r)). absurd (ground (arith, e, g))),
  )
  | inr (live, e) ↦ elim (Bool-cases (runs_claude live)) [
    | inr f ↦ inr (
      not_claude,
      (
        rw (e, claude_command_check) (rw f refl),
        λ (l, (g, (c, r))).
            let same : live ≡ l = ground (arith, e, g) in absurd (ground (arith, same, f, c)),
      ),
    )
    | inl f ↦ elim (status_check_cases live.status prompt) [
      | inl (i, (p, k)) ↦ inl ((live, (e, (f, (i, p)))), rw (e, claude_command_check) (rw f k))
      | inr (refusal, (k, never)) ↦ inr (
        refusal,
        (
          rw (e, claude_command_check) (rw f k),
          λ (l, (g, (c, (i, p)))).
              let same : live ≡ l = ground (arith, e, g) in never (ground (arith, same, i)) p,
        ),
      )
    ]
  ]
]

-- Either the session is a registered one that runs Claude, is idle and shows an empty prompt, and
-- sending a command answers exactly the writes of its keystrokes, or it is not, and sending
-- answers nothing.
pub send_claude_command_lem :
    (app : App) (session : SessionId) (command : ClaudeCommand) (prompt : PromptInput)
    → (IsReady app session prompt
        × (send_claude_command app session command prompt
            ≡ map (write session) (keystrokes command)))
      ⊎ ((IsReady app session prompt → ⊥) × (send_claude_command app session command prompt ≡ []))
unfolding send_claude_command
send_claude_command_lem app session command prompt =
    elim (claude_command_check_cases app session prompt) [
      | inl (r, e) ↦ inl (r, rw (e, send_claude_command) refl)
      | inr (refusal, (e, never)) ↦ inr (never, rw (e, send_claude_command) refl)
    ]
