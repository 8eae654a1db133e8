-- ===== src/App/Overlays.antt =====
-- crates/core/src/app/metadata.rs, crates/core/src/app/sidebar.rs: the user's overlay and the
-- sidebar's folds. A handler returns the application and its effects.
use termherd.Prelude.{Bool, false, List, [], ◌∷◌, Option, none, some, if◌then◌else◌}
use termherd.Text.{Text, trim, is_empty}
use termherd.TextMap.{find, toggle}
use termherd.Metadata.{
  SessionMeta, RepoMeta, edited, default_session, is_default_session, default_repo, is_default_repo,
}
use termherd.Effect.{Effect, save_metadata, save_collapsed}
use termherd.App.{App, overlay, record_for}
use termherd.App.Retitle.{retitle_tabs}

unfoldable pub update_meta : App → Text → (SessionMeta → SessionMeta) → App × List Effect
unfolding edited
update_meta app session edit =
    let app' : App = record app {
      metadata = edited default_session is_default_session app.metadata session edit;
    } in
    (app', save_metadata (overlay app') ∷ [])

unfoldable pub update_repo_meta : App → Text → (RepoMeta → RepoMeta) → App × List Effect
unfolding edited
update_repo_meta app path edit =
    let app' : App = record app {
      repos = edited default_repo is_default_repo app.repos path edit;
    } in
    (app', save_metadata (overlay app') ∷ [])

-- The entry that `rename_session` leaves: the name, and Claude's name it was given over.
unfoldable pub renamed : Text → Option Text → SessionMeta → SessionMeta
renamed trimmed claudes meta =
    if is_empty trimmed
    then record meta { title = none; title_over = none }
    else record meta { title = some trimmed; title_over = claudes }

unfoldable pub rename_session : App → Text → Text → App × List Effect
unfolding renamed
rename_session app session title =
    let claudes : Option Text = elim (record_for app session) [
      | none ↦ none
      | some r ↦ r.digest.custom_title
    ] in
    let (app', effects) = update_meta app session (renamed (trim title) claudes) in
    (retitle_tabs app', effects)

unfoldable pub is_starred : App → Text → Bool
is_starred app session_id = elim (find app.metadata session_id) [
  | none ↦ false
  | some m ↦ m.starred
]

unfoldable pub is_archived : App → Text → Bool
is_archived app session_id = elim (find app.metadata session_id) [
  | none ↦ false
  | some m ↦ m.archived
]

unfoldable pub is_repo_starred : App → Text → Bool
is_repo_starred app path = elim (find app.repos path) [ none ↦ false | some m ↦ m.starred ]

unfoldable pub is_repo_declared : App → Text → Bool
is_repo_declared app path = elim (find app.repos path) [ none ↦ false | some m ↦ m.declared ]

unfoldable pub toggle_collapsed : App → Text → App × List Effect
toggle_collapsed app path =
    let app' : App = record app {
      sidebar = record (app.sidebar) { collapsed = toggle app.sidebar.collapsed path };
    } in
    (app', save_collapsed app'.sidebar.collapsed ∷ [])

unfoldable pub toggle_expanded : App → Text → App × List Effect
toggle_expanded app path = (
  record app { sidebar = record (app.sidebar) { expanded = toggle app.sidebar.expanded path } },
  [],
)
