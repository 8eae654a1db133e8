-- ===== src/SidebarExamples.antt =====
-- The theorems on the sidebar and the overlay applied to small states.
use termherd.Prelude.{ℕ, any, ◌≡◌, refl, true, [], ◌∷◌, none, some, map}
use termherd.Text.{Text, text_eq}
use termherd.Browser.{SessionRecord}
use termherd.Title.{resolve}
use termherd.TextMap.{find}
use termherd.Metadata.{default_repo}
use termherd.App.{App, new_app}
use termherd.App.Dispatch
use termherd.App.Dispatch.{Event, apply}
use termherd.Text.Ascii.{codes}
use termherd.App.Overlays.{is_repo_declared}
use termherd.App.SidebarRows.{sidebar_row, merged_rows, sidebar_row_shown, undiscovered, sort_paths}
use termherd.Browser.{SessionDigest, ProjectGroup, last_activity, time_lt}
use termherd.Browser.Search.{filter_rows}
use termherd.Text.{trim, trim_start, trim_end}
use termherd.App.Overlays.{is_starred, is_archived, is_repo_starred}
use termherd.App.Visible.{sidebar_row_order}
use termherd.Metadata.{default_session}
use termherd.App.{overlay}
use termherd.Effect.{save_metadata}
use termherd.App.Edits.{IsEdited, event_of, star, dispatch-IsEdited}
use termherd.App.Visible.{visible_projects}
use termherd.Session.{is_some}
use termherd.App.{record_title, recorded_title, recorded_titles}
use termherd.Title.{first_present, is_blank}
use termherd.Text.{is_whitespace}
use termherd.App.Visible.{session_disambiguators, titled_row}
use termherd.App.Apart.{is_shared, IsApart, session_disambiguators_lem}
use termherd.App.Rows.{row_count, group_sessions, sidebar_row_lem}

abbrev a_sidebar : App
a_sidebar = record new_app { repos = (codes "/w", record default_repo { declared = true }) ∷ [] }

sidebar_row_lem_example :
    sidebar_row a_sidebar (codes "/w")
    ≡ row_count
        (group_sessions a_sidebar.sidebar.projects (codes "/w"))
        (is_repo_declared a_sidebar (codes "/w"))
sidebar_row_lem_example = sidebar_row_lem a_sidebar (codes "/w")

declared_row_shown : sidebar_row a_sidebar (codes "/w") ≡ some 0
unfolding sidebar_row merged_rows sidebar_row_shown undiscovered sort_paths is_repo_declared text_eq
declared_row_shown = refl

abbrev a_digest : SessionDigest
a_digest = record {
  summary = codes "fix the parser";
  message_count = 1;
  text_content = [];
  slug = none;
  custom_title = none;
  ai_title = none;
  tail = [];
  version = none;
  model = none;
  effort = none;
  agent_color = none;
}

abbrev dated : Text → ℕ → SessionRecord
dated id at = record {
  session_id = id;
  project_path = codes "/a";
  digest = a_digest;
  modified = some at;
}

-- A group of two sessions, the older of them starred, and a starred repo that is only declared.
abbrev two_rows : App
two_rows = record new_app {
  sidebar = record new_app.sidebar {
    projects =
        record { path = codes "/a"; sessions = dated (codes "s") 9 ∷ dated (codes "t") 4 ∷ [] }
        ∷ [];
  };
  metadata = (codes "t", record default_session { starred = true }) ∷ [];
  repos = (codes "/w", record { starred = true; declared = true }) ∷ [];
}

abbrev same_case : Text → Text
same_case s = s

starred_repo_first :
    visible_projects same_case two_rows
    ≡ record { path = codes "/w"; sessions = [] }
      ∷ record { path = codes "/a"; sessions = dated (codes "t") 4 ∷ dated (codes "s") 9 ∷ [] }
      ∷ []
unfolding visible_projects filter_rows merged_rows sidebar_row_order sidebar_row_shown last_activity
    is_starred is_archived is_repo_starred is_repo_declared undiscovered sort_paths text_eq trim
    time_lt trim_start trim_end
starred_repo_first = refl

-- Two sessions that Claude named alike, over two conversations.
abbrev named_alike : ProjectGroup
named_alike = record {
  path = codes "/a";
  sessions =
      record (dated (codes "s") 9) {
        digest = record a_digest { custom_title = some (codes "work") };
      }
      ∷ record (dated (codes "t") 4) {
        digest = record a_digest { custom_title = some (codes "work"); summary = codes "a test" };
      }
      ∷ [];
}

session_disambiguators_lem_example :
    (is_some (find (session_disambiguators new_app named_alike) (codes "t"))
      ≡ any
          (is_shared (map (titled_row new_app) named_alike.sessions) (codes "t"))
          (map (titled_row new_app) named_alike.sessions))
    × ((summary : Text)
        → find (session_disambiguators new_app named_alike) (codes "t") ≡ some (some summary)
        → IsApart (map (titled_row new_app) named_alike.sessions) (codes "t") summary)
session_disambiguators_lem_example = session_disambiguators_lem new_app named_alike (codes "t")

told_apart :
    find (session_disambiguators new_app named_alike) (codes "t") ≡ some (some (codes "a test"))
unfolding session_disambiguators record_title text_eq recorded_title resolve recorded_titles
    first_present is_blank trim trim_end trim_start is_whitespace
told_apart = refl

dispatch-IsEdited_example :
    IsEdited (star (codes "s")) new_app (Dispatch.dispatch new_app (event_of (star (codes "s")))).0
    × ((Dispatch.dispatch new_app (event_of (star (codes "s")))).1
        ≡ save_metadata (overlay (Dispatch.dispatch new_app (event_of (star (codes "s")))).0) ∷ [])
dispatch-IsEdited_example = dispatch-IsEdited (star (codes "s")) new_app
