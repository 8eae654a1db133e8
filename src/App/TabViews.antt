-- ===== src/App/TabViews.antt =====
-- crates/core/src/app/tabs.rs, crates/core/src/app/session.rs: what is read off a tab or a pane,
-- and the colour of a tab.
use termherd.Prelude.{
  ℕ, Bool, false, not, List, [], ◌∷◌, Option, none, some, leb, if◌then◌else◌, any, get_elem?, set,
}
use termherd.Text.{Text}
use termherd.Title.{is_blank}
use termherd.Pane.{SessionId}
use termherd.Tab
use termherd.Tab.{Tab, ClaudeColor, default}
use termherd.Workspace
use termherd.Session.{
  Launch, SessionStatus, SessionKind, claude_id, kind, urgency, has_running_process, runs_claude,
  or_else,
}
use termherd.Registry.{Sessions, get, count_running}
use termherd.Browser.{project_label}
use termherd.App.{App, record_for, record_title, session_record}

unfoldable pub tab_title : App → Text → Launch → Text
tab_title app cwd launch =
    let name : Option Text = elim (claude_id launch) [
      | none ↦ none
      | some id ↦ elim (record_for app id) [ none ↦ none | some r ↦ some (record_title app r) ]
    ] in
    elim name [
      | none ↦ project_label cwd
      | some t ↦ if not (is_blank t) then t else project_label cwd
    ]

-- `filter_map(|id| self.sessions.get(&id).map(|s| s.status))`.
unfoldable pub statuses : Sessions → List SessionId → List SessionStatus
statuses sessions [] = []
statuses sessions (s ∷ ss) =
    let rest = statuses sessions ss in
    elim (get sessions s) [ none ↦ rest | some live ↦ live.status ∷ rest ]

-- `max_by_key(urgency)`: of the greatest, the last.
unfoldable pub most_urgent : List SessionStatus → Option SessionStatus
most_urgent [] = none
most_urgent (s ∷ ss) = elim (most_urgent ss) [
  | none ↦ some s
  | some t ↦ if leb (urgency s) (urgency t) then some t else some s
]

unfoldable pub tab_status : App → ℕ → Option SessionStatus
unfolding statuses most_urgent
tab_status app index = elim (get_elem? app.workspace.tabs index) [
  | none ↦ none
  | some tab ↦ most_urgent (statuses app.sessions (Tab.sessions tab))
]

unfoldable pub tab_focused_session : App → ℕ → Option SessionId
tab_focused_session app index = elim (get_elem? app.workspace.tabs index) [
  | none ↦ none
  | some tab ↦ Tab.focused_session tab
]

unfoldable pub tab_kind : App → ℕ → Option SessionKind
tab_kind app index = elim (tab_focused_session app index) [
  | none ↦ none
  | some focused ↦ elim (get app.sessions focused) [
    | none ↦ none
    | some live ↦ some (kind live.launch)
  ]
]

unfoldable pub tab_has_running_process : App → ℕ → Bool
tab_has_running_process app index = elim (get_elem? app.workspace.tabs index) [
  | none ↦ false
  | some tab ↦
      any (λ id. elim (get app.sessions id) [ none ↦ false | some live ↦ has_running_process live ])
        (Tab.sessions tab)
]

unfoldable pub any_running_process : App → Bool
any_running_process app = any has_running_process app.sessions.map

unfoldable pub live_session_count : App → ℕ
live_session_count app = count_running app.sessions

pub data ColorKeeper : Type 0 where
  by_claude by_termherd : ColorKeeper

unfoldable pub color_keeper : App → SessionId → Option ColorKeeper
color_keeper app session = elim (get app.sessions session) [
  | none ↦ none
  | some live ↦ if runs_claude live then some by_claude else some by_termherd
]

-- `color.filter(|color| *color != ClaudeColor::Default)`.
abbrev undefaulted : Option ClaudeColor → Option ClaudeColor
undefaulted (some default) = none
undefaulted color = color

unfoldable pub transcript_color : App → SessionId → Option ClaudeColor
transcript_color app session = elim (session_record app session) [
  | none ↦ none
  | some r ↦ r.digest.agent_color
]

unfoldable pub pane_color : App → SessionId → Option ClaudeColor → Option ClaudeColor
unfolding transcript_color
pane_color app session picked = elim (color_keeper app session) [
  | none ↦ none
  | some by_claude ↦ undefaulted (transcript_color app session)
  | some by_termherd ↦ undefaulted (or_else picked (transcript_color app session))
]

unfoldable pub session_color : App → SessionId → Option ClaudeColor
session_color app session = pane_color app session (elim (Workspace.tab_of app.workspace session) [
  | none ↦ none
  | some index ↦ elim (get_elem? app.workspace.tabs index) [ none ↦ none | some tab ↦ tab.color ]
])

unfoldable pub tab_color : App → ℕ → Option ClaudeColor
tab_color app index = elim (get_elem? app.workspace.tabs index) [
  | none ↦ none
  | some tab ↦ elim (Tab.focused_session tab) [
    | none ↦ none
    | some focused ↦ pane_color app focused tab.color
  ]
]

-- The keeper of the focused pane's colour.
unfoldable pub tab_keeper : App → ℕ → Option ColorKeeper
tab_keeper app index = elim (tab_focused_session app index) [
  | none ↦ none
  | some focused ↦ color_keeper app focused
]

unfoldable pub set_tab_color : App → ℕ → ClaudeColor → App
unfolding tab_keeper
set_tab_color app index color = elim (tab_keeper app index) [
  | none ↦ app
  | some by_claude ↦ app
  | some by_termherd ↦ elim (get_elem? app.workspace.tabs index) [
    | none ↦ app
    | some tab ↦ record app {
      workspace = record (app.workspace) {
        tabs = set app.workspace.tabs index (record tab { color = some color });
      };
    }
  ]
]
