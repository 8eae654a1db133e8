-- ===== src/Tab.antt =====
-- crates/core/src/workspace.rs: one tab, its pane tree, its focus and its titles.
use termherd.Prelude.{
  Bool, true, false, List, [], Option, none, some, if◌then◌else◌, ◌&&◌, unwrap_or,
}
use termherd.Text.{Text, text_eq}
use termherd.Title.{resolve}
use termherd.Pane
use termherd.Pane.{Pane, SessionId, Branch}

-- crates/claude/src/color.rs: `/color`'s palette.
pub data ClaudeColor : Type 0 where
  red blue green yellow purple orange pink cyan default : ClaudeColor

pub record TabTitles : Type 0 where
  pub named : Option Text
  pub live : Option Text
  pub described : Option Text
  pub launch : Text

pub record Tab : Type 0 where
  pub root : Pane
  pub focus : List Branch
  pub title : Text
  pub custom_title : Option Text
  pub color : Option ClaudeColor
  pub titles : TabTitles
  pub parked : Bool

unfoldable pub new_tab : SessionId → Text → Tab
new_tab session title = record {
  root = Pane.leaf session;
  focus = [];
  title = title;
  custom_title = none;
  color = none;
  titles = record { named = none; live = none; described = none; launch = title };
  parked = false;
}

-- `Tab::sessions`.
unfoldable pub sessions : Tab → List SessionId
sessions tab = Pane.collect_leaves tab.root []

unfoldable pub hosts : Tab → SessionId → Bool
hosts tab session = Pane.pane_hosts tab.root session

unfoldable pub first_session : Tab → SessionId
first_session tab = Pane.first_session tab.root

unfoldable pub focused_session : Tab → Option SessionId
focused_session tab = elim (Pane.navigate tab.root tab.focus) [
  | none ↦ none
  | some (Pane.leaf s) ↦ some s
  | some (Pane.split _ _ _ _) ↦ none
]

unfoldable pub resolve_title : Tab → Tab
resolve_title tab = record tab {
  title = resolve (record {
    named = tab.titles.named;
    live = tab.titles.live;
    described = tab.titles.described;
    launch = tab.titles.launch;
  });
}

unfoldable pub set_live_title : Tab → Text → Tab
unfolding resolve_title
set_live_title tab title =
    resolve_title (record tab { titles = record (tab.titles) { live = some title } })

-- Equality of `Option<&str>`.
abbrev pub option_text_eq : Option Text → Option Text → Bool
option_text_eq none none = true
option_text_eq (some s) (some t) = text_eq s t
option_text_eq _ _ = false

unfoldable pub set_recorded_titles : Tab → Option Text → Option Text → Tab
unfolding resolve_title
set_recorded_titles tab named described =
    if option_text_eq tab.titles.named named && option_text_eq tab.titles.described described
    then tab
    else resolve_title
        (record tab { titles = record (tab.titles) { named = named; described = described } })

unfoldable pub display_title : Tab → Text
display_title tab = unwrap_or tab.custom_title tab.title
