-- ===== src/Browser.antt =====
-- crates/core/src/browser.rs: the scanned sessions, grouped into the sidebar's projects.
pub mod Ages
pub mod Groups
pub mod Search
use termherd.Prelude.{
  ℕ, Bool, true, false, ◌&&◌, ◌||◌, not, List, [], ◌∷◌, ◌++◌, Option, none, some, ◌==◌, ltb, max,
  map, if◌then◌else◌, find?, unwrap_or,
}
use termherd.Text.{Text, text_eq, is_empty}
use termherd.Tab.{ClaudeColor}

-- crates/claude/src/digest.rs.
pub record SessionDigest : Type 0 where
  pub summary : Text
  pub message_count : ℕ
  pub text_content : Text
  pub slug : Option Text
  pub custom_title : Option Text
  pub ai_title : Option Text
  pub tail : List Text
  pub version : Option Text
  pub model : Option Text
  pub effort : Option Text
  pub agent_color : Option ClaudeColor

pub record SessionRecord : Type 0 where
  pub session_id : Text
  pub project_path : Text
  pub digest : SessionDigest
  pub modified : Option ℕ

pub record ProjectGroup : Type 0 where
  pub path : Text
  pub sessions : List SessionRecord

-- The order of `Option<SystemTime>`, `none` first.
unfoldable pub time_lt : Option ℕ → Option ℕ → Bool
time_lt _ none = false
time_lt none (some _) = true
time_lt (some s) (some t) = ltb s t

abbrev pub later : Option ℕ → Option ℕ → Option ℕ
later o none = o
later none (some t) = some t
later (some s) (some t) = some (max s t)

-- `sessions.iter().filter_map(|s| s.modified).max()`.
unfoldable pub last_activity : List SessionRecord → Option ℕ
last_activity [] = none
last_activity (s ∷ ss) = later (last_activity ss) s.modified

-- The byte order of paths: that of their code points.
unfoldable pub path_lt : Text → Text → Bool
path_lt _ [] = false
path_lt [] (_ ∷ _) = true
path_lt (c ∷ cs) (d ∷ ds) = ltb c d || c == d && path_lt cs ds

-- `by_path.entry(record.project_path).or_default().push(record)`, the map as the list of its
-- entries in the order of the keys.
unfoldable pub push_record : SessionRecord → List ProjectGroup → List ProjectGroup
push_record r [] = record { path = r.project_path; sessions = r ∷ [] } ∷ []
push_record r (g ∷ gs) =
    let rest = push_record r gs in
    if text_eq r.project_path g.path
    then record { path = g.path; sessions = g.sessions ++ r ∷ [] } ∷ gs
    else if path_lt r.project_path g.path
    then record { path = r.project_path; sessions = r ∷ [] } ∷ g ∷ gs
    else g ∷ rest

unfoldable pub by_path : List SessionRecord → List ProjectGroup → List ProjectGroup
by_path [] groups = groups
by_path (r ∷ rs) groups = by_path rs (push_record r groups)

-- `sort_by_key(|x| Reverse(key(x)))`: the stable sort, the greatest key first.
unfoldable pub insert_latest : {A : Type 0} → (A → Option ℕ) → A → List A → List A
insert_latest key x [] = x ∷ []
insert_latest key x (y ∷ ys) =
    let rest = insert_latest key x ys in if time_lt (key x) (key y) then y ∷ rest else x ∷ y ∷ ys

unfoldable pub sort_latest : {A : Type 0} → (A → Option ℕ) → List A → List A
sort_latest key [] = []
sort_latest key (x ∷ xs) = insert_latest key x (sort_latest key xs)

-- A group with its sessions sorted.
abbrev pub recent_first : ProjectGroup → ProjectGroup
recent_first g = record g { sessions = sort_latest (λ (s : SessionRecord). s.modified) g.sessions }

unfoldable pub group_projects : List SessionRecord → List ProjectGroup
group_projects records =
    sort_latest (λ g. last_activity g.sessions) (map recent_first (by_path records []))

-- `path.rsplit(['/', '\\'])`, each part in order, the last first.
unfoldable pub rsplit : Text → Text → List Text → List Text
rsplit [] part parts = part ∷ parts
rsplit (c ∷ cs) part parts =
    if c == 47 || c == 92 then rsplit cs [] (part ∷ parts) else rsplit cs (part ++ c ∷ []) parts

unfoldable pub project_label : Text → Text
project_label path = unwrap_or (find? (λ part. not (is_empty part)) (rsplit path [] [])) path

-- `projects.iter().flat_map(|group| &group.sessions).find(..)`.
unfoldable pub find_record : Text → List ProjectGroup → Option SessionRecord
find_record claude_id [] = none
find_record claude_id (g ∷ gs) = elim (find? (λ r. text_eq r.session_id claude_id) g.sessions) [
  | none ↦ find_record claude_id gs
  | some r ↦ some r
]
