-- ===== src/Keymap/Names.antt =====
-- The names that `settings.json` gives to actions (crates/core/src/keymap.rs).
use termherd.Prelude.{
  ℕ, ◌+◌, ◌-◌, ◌&&◌, List, ◌++◌, Option, none, some, leb, if◌then◌else◌, find?, map,
}
use termherd.Text.{Text, text_eq}
use termherd.Text.Ascii.{codes, strip_prefix}
use termherd.Text.Numbers.{decimal, parse_usize, replace}
use termherd.Keymap.Actions.{
  Action, activate_tab, action_eq, ActionDef, actions, chords_for, Platform, mac_os, windows, linux,
  open_new_session, close_focused, split_horizontal, split_vertical, focus_next, focus_prev,
  focus_left, focus_right, focus_up, focus_down, next_tab, prev_tab, focus_search, toggle_sidebar,
  open_settings, copy, paste, copy_agent_name, rename_tab, open_tab_menu, send_to_desktop,
  pick_tab_color, toggle_park, scroll_top, scroll_bottom, new_shell_here, new_claude_session_here,
  reopen_closed_tab, capture, toggle_record, zoom_in, zoom_out, zoom_reset,
}

abbrev pub number_row_tabs : ℕ
number_row_tabs = 9

unfoldable pub activate_tab_from_config_name : Text → Option Action
activate_tab_from_config_name name = elim (strip_prefix (codes "activate-tab-") name) [
  | none ↦ none
  | some digit ↦ elim (parse_usize digit) [
    | none ↦ none
    | some n ↦ if leb 1 n && leb n number_row_tabs then some (activate_tab (n - 1)) else none
  ]
]

unfoldable pub find_name : Text → Option ActionDef
find_name name = find? (λ d. text_eq d.name name) actions

-- `Action::from_config_name`.
unfoldable pub from_config_name : Text → Option Action
from_config_name name = elim (find_name name) [
  | none ↦ activate_tab_from_config_name name
  | some d ↦ some d.action
]

-- `Action::config_name`.
unfoldable pub config_name : Action → Option Text
config_name action = elim (find? (λ d. action_eq d.action action) actions) [
  | none ↦ none
  | some d ↦ some d.name
]

-- The `match self` of `Action::name`, whose second arm is the `Debug` name.
unfoldable pub unlisted_name : Action → Text
unlisted_name open_new_session = codes "OpenNewSession"
unlisted_name close_focused = codes "CloseFocused"
unlisted_name split_horizontal = codes "SplitHorizontal"
unlisted_name split_vertical = codes "SplitVertical"
unlisted_name focus_next = codes "FocusNext"
unlisted_name focus_prev = codes "FocusPrev"
unlisted_name focus_left = codes "FocusLeft"
unlisted_name focus_right = codes "FocusRight"
unlisted_name focus_up = codes "FocusUp"
unlisted_name focus_down = codes "FocusDown"
unlisted_name next_tab = codes "NextTab"
unlisted_name prev_tab = codes "PrevTab"
unlisted_name focus_search = codes "FocusSearch"
unlisted_name toggle_sidebar = codes "ToggleSidebar"
unlisted_name open_settings = codes "OpenSettings"
unlisted_name copy = codes "Copy"
unlisted_name paste = codes "Paste"
unlisted_name copy_agent_name = codes "CopyAgentName"
unlisted_name rename_tab = codes "RenameTab"
unlisted_name open_tab_menu = codes "OpenTabMenu"
unlisted_name send_to_desktop = codes "SendToDesktop"
unlisted_name pick_tab_color = codes "PickTabColor"
unlisted_name toggle_park = codes "TogglePark"
unlisted_name scroll_top = codes "ScrollTop"
unlisted_name scroll_bottom = codes "ScrollBottom"
unlisted_name new_shell_here = codes "NewShellHere"
unlisted_name new_claude_session_here = codes "NewClaudeSessionHere"
unlisted_name reopen_closed_tab = codes "ReopenClosedTab"
unlisted_name capture = codes "Capture"
unlisted_name toggle_record = codes "ToggleRecord"
unlisted_name zoom_in = codes "ZoomIn"
unlisted_name zoom_out = codes "ZoomOut"
unlisted_name zoom_reset = codes "ZoomReset"
unlisted_name (activate_tab index) = codes "activate-tab-" ++ decimal (index + 1)

-- `Action: Debug`.
unfoldable pub debug_name : Action → Text
debug_name open_new_session = codes "OpenNewSession"
debug_name close_focused = codes "CloseFocused"
debug_name split_horizontal = codes "SplitHorizontal"
debug_name split_vertical = codes "SplitVertical"
debug_name focus_next = codes "FocusNext"
debug_name focus_prev = codes "FocusPrev"
debug_name focus_left = codes "FocusLeft"
debug_name focus_right = codes "FocusRight"
debug_name focus_up = codes "FocusUp"
debug_name focus_down = codes "FocusDown"
debug_name next_tab = codes "NextTab"
debug_name prev_tab = codes "PrevTab"
debug_name focus_search = codes "FocusSearch"
debug_name toggle_sidebar = codes "ToggleSidebar"
debug_name open_settings = codes "OpenSettings"
debug_name copy = codes "Copy"
debug_name paste = codes "Paste"
debug_name copy_agent_name = codes "CopyAgentName"
debug_name rename_tab = codes "RenameTab"
debug_name open_tab_menu = codes "OpenTabMenu"
debug_name send_to_desktop = codes "SendToDesktop"
debug_name pick_tab_color = codes "PickTabColor"
debug_name toggle_park = codes "TogglePark"
debug_name scroll_top = codes "ScrollTop"
debug_name scroll_bottom = codes "ScrollBottom"
debug_name new_shell_here = codes "NewShellHere"
debug_name new_claude_session_here = codes "NewClaudeSessionHere"
debug_name reopen_closed_tab = codes "ReopenClosedTab"
debug_name capture = codes "Capture"
debug_name toggle_record = codes "ToggleRecord"
debug_name zoom_in = codes "ZoomIn"
debug_name zoom_out = codes "ZoomOut"
debug_name zoom_reset = codes "ZoomReset"
debug_name (activate_tab index) = codes "ActivateTab(" ++ decimal index ++ codes ")"

-- `Action::name`.
unfoldable pub name : Action → Text
name action = elim (config_name action) [ some text ↦ text | none ↦ unlisted_name action ]

-- `Platform::primary_mod` and `primary_name`.
abbrev pub primary_mod : Platform → ℕ
primary_mod mac_os = 8
primary_mod windows = 1
primary_mod linux = 1

abbrev pub primary_name : Platform → Text
primary_name mac_os = codes "cmd"
primary_name windows = codes "ctrl"
primary_name linux = codes "ctrl"

unfoldable pub resolve_spec : Text → Platform → Text
resolve_spec spec platform = replace spec (codes "mod") (primary_name platform)

pub record ActionBinding : Type 0 where
  pub name : Text
  pub default_chords : List Text

abbrev catalog_row : Platform → ActionDef → ActionBinding
catalog_row platform d = record {
  name = d.name;
  default_chords = map (λ spec. resolve_spec spec platform) (chords_for d platform);
}

unfoldable pub action_catalog : Platform → List ActionBinding
action_catalog platform = map (catalog_row platform) actions
