-- ===== src/Session.antt =====
-- crates/core/src/app/session.rs: a live session, what it runs, and what is known of it.
-- crates/claude/src/session_file.rs: Claude's session file.
use termherd.Prelude.{
  ℕ, Bool, true, false, ◌&&◌, ◌||◌, not, Option, none, some, ◌==◌, if◌then◌else◌,
}
use termherd.Text.{Text}
use termherd.Pane.{SessionId}
use termherd.Tab.{option_text_eq}

pub data SessionStatus : Type 0 where
  starting busy idle attention exited : SessionStatus

unfoldable pub urgency : SessionStatus → ℕ
urgency attention = 4
urgency busy = 3
urgency idle = 2
urgency starting = 1
urgency exited = 0

-- `status == SessionStatus::Exited` and `status == SessionStatus::Attention`.
abbrev pub is_exited : SessionStatus → Bool
is_exited exited = true
is_exited _ = false

abbrev pub is_attention : SessionStatus → Bool
is_attention attention = true
is_attention _ = false

pub data ClaudeLaunch : Type 0 where
  fresh : Option Text → ClaudeLaunch
  resume : Text → ClaudeLaunch

pub data Launch : Type 0 where
  shell : Launch
  claude : ClaudeLaunch → Launch

unfoldable pub resume_id : Launch → Option Text
resume_id (claude (resume id)) = some id
resume_id _ = none

unfoldable pub claude_id : Launch → Option Text
claude_id (claude (resume id)) = some id
claude_id (claude (fresh (some id))) = some id
claude_id _ = none

-- `with_fresh_id`: `mint` is the id that the closure answers.
unfoldable pub with_fresh_id : Launch → Text → Launch
with_fresh_id (claude (fresh _)) mint = claude (fresh (some mint))
with_fresh_id other mint = other

pub data SessionKind : Type 0 where
  shell_kind claude_kind : SessionKind

unfoldable pub kind : Launch → SessionKind
kind shell = shell_kind
kind (claude _) = claude_kind

pub data Placement : Type 0 where
  foreground background : Placement

pub record LaunchSpec : Type 0 where
  pub cwd : Option Text
  pub launch : Launch
  pub title : Text
  pub placement : Placement

pub record McpConfig : Type 0 where
  pub url : Text
  pub token : Text

pub record SpawnSpec : Type 0 where
  pub session : SessionId
  pub cwd : Option Text
  pub launch : Launch
  pub cols : ℕ
  pub rows : ℕ
  pub mcp : Option McpConfig

pub record ForegroundJob : Type 0 where
  pub pid : ℕ
  pub started : Option Text

pub record SessionFile : Type 0 where
  pub pid : ℕ
  pub name : Option Text
  pub session_id : Option Text
  pub proc_start : Option Text
  pub version : Option Text

-- `SystemTime` is a count from the epoch, whose unit nothing here depends on.
pub record LiveSession : Type 0 where
  pub id : SessionId
  pub cwd : Option Text
  pub launch_cwd : Option Text
  pub launch : Launch
  pub status : SessionStatus
  pub foreground : Option ForegroundJob
  pub session_file : Option SessionFile
  pub proven_session_id : Option Text
  pub spawned_at : Option ℕ
  pub foreground_reported : Bool

abbrev pub is_some {ℓ} : {A : Type ℓ} → Option A → Bool
is_some none = false
is_some (some _) = true

-- `Option::or`.
abbrev pub or_else {ℓ} : {A : Type ℓ} → Option A → Option A → Option A
or_else none o = o
or_else (some a) o = some a

-- crates/core/src/app/snapshot.rs: the session file, where it was written by the job in front.
unfoldable pub proven : Option ForegroundJob → Option SessionFile → Option SessionFile
proven none file = none
proven (some job) none = none
proven (some job) (some file) =
    if file.pid == job.pid && is_some job.started && option_text_eq job.started file.proc_start
    then some file
    else none

-- The session that `launch` and `split_focused` register.
unfoldable pub new_session : SessionId → Option Text → Launch → LiveSession
new_session id cwd launch = record {
  id = id;
  cwd = cwd;
  launch_cwd = cwd;
  launch = launch;
  status = starting;
  foreground = none;
  session_file = none;
  proven_session_id = none;
  spawned_at = none;
  foreground_reported = false;
}

unfoldable pub claude_session_id : LiveSession → Option Text
claude_session_id live = or_else live.proven_session_id (claude_id live.launch)

abbrev pub proven_session_file : LiveSession → Option SessionFile
proven_session_file live = proven live.foreground live.session_file

unfoldable pub remember_proven_id : LiveSession → LiveSession
remember_proven_id live = elim (proven_session_file live) [
  | none ↦ live
  | some file ↦ elim file.session_id [
    | none ↦ live
    | some id ↦
        if not (option_text_eq live.proven_session_id (some id))
        then record live { proven_session_id = some id }
        else live
  ]
]

unfoldable pub live_version : LiveSession → Option Text
live_version live = elim (proven_session_file live) [ none ↦ none | some file ↦ file.version ]

unfoldable pub is_claude_launch : LiveSession → Bool
is_claude_launch live = elim live.launch [ shell ↦ false | claude _ ↦ true ]

unfoldable pub runs_claude : LiveSession → Bool
runs_claude live =
    is_claude_launch live && (is_some live.foreground || not live.foreground_reported)

unfoldable pub has_running_process : LiveSession → Bool
has_running_process live = elim live.status [
  | exited ↦ false
  | busy ↦ true
  | attention ↦ true
  | starting ↦ is_claude_launch live
  | idle ↦ is_claude_launch live
]
