-- ===== src/App/Retitle.antt =====
-- crates/core/src/app/retitle.rs: open tabs are named after what Claude calls their session.
use termherd.Prelude.{ℕ, zero, suc, Bool, Option, none, some, if◌then◌else◌, get_elem?, set, length}
use termherd.Text.{Text}
use termherd.Pane.{SessionId}
use termherd.Tab
use termherd.Tab.{Tab}
use termherd.Workspace
use termherd.Session.{runs_claude, is_some}
use termherd.Registry.{get}
use termherd.App.{App, tab_claude_session_id, recorded_titles, record_for}

unfoldable pub tab_recorded_titles : App → ℕ → Option Text × Option Text
tab_recorded_titles app index = elim (tab_claude_session_id app index) [
  | none ↦ (none, none)
  | some id ↦ recorded_titles app id (record_for app id)
]

-- The body of the loop of `retitle_tabs`.
unfoldable pub retitle_tab : App → ℕ → App
retitle_tab app index = elim (get_elem? app.workspace.tabs index) [
  | none ↦ app
  | some tab ↦
      let (named, described) = tab_recorded_titles app index in
      record app {
        workspace = record (app.workspace) {
          tabs = set app.workspace.tabs index (Tab.set_recorded_titles tab named described);
        };
      }
]

-- The turns of the loop from `index` on, `n` of them.
unfoldable pub retitle_from : ℕ → ℕ → App → App
retitle_from zero index app = app
retitle_from (suc n) index app = retitle_from n (suc index) (retitle_tab app index)

unfoldable pub retitle_tabs : App → App
retitle_tabs app = retitle_from (length app.workspace.tabs) 0 app

unfoldable pub tab_claude_namer : App → ℕ → Option SessionId
tab_claude_namer app index = elim (get_elem? app.workspace.tabs index) [
  | none ↦ none
  | some tab ↦ elim (get app.sessions (Tab.first_session tab)) [
    | none ↦ none
    | some live ↦ if runs_claude live then some (Tab.first_session tab) else none
  ]
]

unfoldable pub tab_names_through_claude : App → ℕ → Bool
tab_names_through_claude app index = is_some (tab_claude_namer app index)

unfoldable pub rename_tab : App → ℕ → Text → App
rename_tab app index title =
    if tab_names_through_claude app index
    then app
    else record app { workspace = (Workspace.rename_tab app.workspace index title).0 }
