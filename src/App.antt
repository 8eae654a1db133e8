-- ===== src/App.antt =====
-- crates/core/src/app.rs: the state of the headless application, and the lookups in it that its
-- operations share.
pub mod Retitle
pub mod Lifecycle
pub mod Closing
pub mod RepoLink
pub mod TabViews
pub mod Overlays
pub mod Recorder
pub mod Dispatch
pub mod Registered
pub mod Handlers
pub mod Closed
pub mod Reachable
pub mod Badge
pub mod Addressed
pub mod Alive
pub mod Answers
pub mod Dead
pub mod Caps
pub mod Reopen
pub mod Command
pub mod Hovering
pub mod Rows
pub mod SidebarRows
pub mod Visible
pub mod Shown
pub mod Ordered
pub mod Apart
pub mod Marks
pub mod Edits
pub mod Ranks
pub mod Searched
pub mod Contents
pub mod Targets
pub mod RepoPaths
pub mod Screencast
use termherd.Prelude.{
  ℕ, Bool, false, not, List, [], ◌∷◌, Option, none, some, if◌then◌else◌, get_elem?,
}
use termherd.Text.{Text}
use termherd.Title.{first_present, resolve}
use termherd.Pane.{SessionId}
use termherd.Tab
use termherd.Tab.{option_text_eq}
use termherd.Workspace
use termherd.Workspace.{Workspace}
use termherd.Session.{Launch, claude_session_id, is_exited}
use termherd.Registry
use termherd.Registry.{Sessions, get}
use termherd.Browser.{SessionDigest, SessionRecord, ProjectGroup, find_record}
use termherd.TextMap.{find}
use termherd.Open.{OpenCommand}
use termherd.Hover.{TermHover, PathRequest}
use termherd.Metadata.{SessionMeta, RepoMeta, Overlay}

-- crates/core/src/app/sidebar.rs.
pub record Sidebar : Type 0 where
  pub projects : List ProjectGroup
  pub search : Text
  pub search_titles_only : Bool
  pub show_archived : Bool
  pub hidden : Bool
  pub collapsed : List Text
  pub session_limit : ℕ
  pub expanded : List Text

-- crates/core/src/app/tabs.rs.
pub record ClosedTab : Type 0 where
  pub title : Text
  pub custom_title : Option Text
  pub cwd : Option Text
  pub launch : Launch

-- crates/core/src/record.rs.
pub record Recording : Type 0 where
  pub frames : ℕ
  pub max_frames : ℕ

-- The font is left out.
pub record App : Type 0 where
  pub workspace : Workspace
  pub sidebar : Sidebar
  pub sessions : Sessions
  pub metadata : List (Text × SessionMeta)
  pub repos : List (Text × RepoMeta)
  pub closed_tabs : List ClosedTab
  pub recording : Option Recording
  pub window_focused : Bool
  pub open_command : Option OpenCommand
  pub hover : Option TermHover
  pub pending_path : Option PathRequest

abbrev pub new_app : App
new_app = record {
  workspace = Workspace.new;
  sidebar = record {
    projects = [];
    search = [];
    search_titles_only = false;
    show_archived = false;
    hidden = false;
    collapsed = [];
    session_limit = 0;
    expanded = [];
  };
  sessions = Registry.empty;
  metadata = [];
  repos = [];
  closed_tabs = [];
  recording = none;
  window_focused = false;
  open_command = none;
  hover = none;
  pending_path = none;
}

unfoldable pub is_live : App → SessionId → Bool
is_live app session = elim (get app.sessions session) [
  | none ↦ false
  | some live ↦ not (is_exited live.status)
]

unfoldable pub record_for : App → Text → Option SessionRecord
record_for app claude_id = find_record claude_id app.sidebar.projects

-- The Claude conversation of a pane: `App::claude_session_id`.
unfoldable pub conversation : App → SessionId → Option Text
conversation app session = elim (get app.sessions session) [
  | none ↦ none
  | some live ↦ claude_session_id live
]

unfoldable pub session_record : App → SessionId → Option SessionRecord
session_record app session = elim (conversation app session) [
  | none ↦ none
  | some id ↦ record_for app id
]

unfoldable pub tab_claude_session_id : App → ℕ → Option Text
tab_claude_session_id app index = elim (get_elem? app.workspace.tabs index) [
  | none ↦ none
  | some tab ↦ conversation app (Tab.first_session tab)
]

-- `described`: what a transcript says its conversation is about.
unfoldable pub described : SessionDigest → Option Text
described digest = first_present (digest.ai_title ∷ some digest.summary ∷ [])

unfoldable pub recorded_titles : App → Text → Option SessionRecord → Option Text × Option Text
recorded_titles app claude_id scanned =
    let meta = find app.metadata claude_id in
    let claudes : Option Text = elim scanned [ none ↦ none | some r ↦ r.digest.custom_title ] in
    let titled : Option Text = elim meta [ none ↦ none | some m ↦ m.title ] in
    let titled_is_later : Bool = elim meta [
      | none ↦ false
      | some m ↦ option_text_eq m.title_over claudes
    ] in
    (
      if titled_is_later
          then first_present (titled ∷ claudes ∷ [])
          else first_present (claudes ∷ titled ∷ []),
      elim scanned [ none ↦ none | some r ↦ described r.digest ],
    )

unfoldable pub recorded_title : Option Text → Option Text → Text
recorded_title named described =
    resolve (record { named = named; live = none; described = described; launch = [] })

-- `App::session_title`, of a scanned record.
unfoldable pub record_title : App → SessionRecord → Text
record_title app r =
    let (named, described) = recorded_titles app r.session_id (some r) in
    recorded_title named described

unfoldable pub overlay : App → Overlay
overlay app = record { sessions = app.metadata; repos = app.repos }
