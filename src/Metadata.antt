-- ===== src/Metadata.antt =====
-- crates/core/src/metadata.rs: what the user says of a session or of a repository.
pub mod Edits
use termherd.Prelude.{Bool, false, ◌&&◌, not, List, Option, none, if◌then◌else◌, unwrap_or}
use termherd.Text.{Text}
use termherd.TextMap.{find, erase, put}
use termherd.Session.{is_some}

pub record SessionMeta : Type 0 where
  pub starred : Bool
  pub archived : Bool
  pub title : Option Text
  pub title_over : Option Text

abbrev pub default_session : SessionMeta
default_session = record { starred = false; archived = false; title = none; title_over = none }

unfoldable pub is_default_session : SessionMeta → Bool
is_default_session meta = not meta.starred && not meta.archived && not (is_some meta.title)

pub record RepoMeta : Type 0 where
  pub starred : Bool
  pub declared : Bool

abbrev pub default_repo : RepoMeta
default_repo = record { starred = false; declared = false }

unfoldable pub is_default_repo : RepoMeta → Bool
is_default_repo meta = not meta.starred && not meta.declared

pub record Overlay : Type 0 where
  pub sessions : List (Text × SessionMeta)
  pub repos : List (Text × RepoMeta)

-- The map after an edit of one entry, which is kept only where it is not the default: the body that
-- `update_meta` and `update_repo_meta` share.
unfoldable pub edited :
    {A : Type 0} → A → (A → Bool) → List (Text × A) → Text → (A → A) → List (Text × A)
edited initial is_default entries key edit =
    let meta = edit (unwrap_or (find entries key) initial) in
    if is_default meta then erase entries key else put entries key meta
