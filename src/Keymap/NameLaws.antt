-- ===== src/Keymap/NameLaws.antt =====
-- Names of actions read back (crates/core/src/keymap.rs).
use termherd.Prelude.{
  ℕ, ◌+◌, ◌-◌, ◌^◌, ◌≡◌, ◌<◌, refl, Bool, true, ◌&&◌, ◌++◌, none, some, arith, leb, ltb,
  if◌then◌else◌,
}
use termherd.Text.{Text, text_eq}
use termherd.Text.Ascii.{codes, strip_prefix}
use termherd.Text.Numbers.{decimal, parse_usize}
use termherd.Text.NumberLaws.{parse_usize-decimal}
use termherd.Keymap.Actions.{
  Action, activate_tab, action_eq, open_new_session, close_focused, split_horizontal,
  split_vertical, focus_next, focus_prev, focus_left, focus_right, focus_up, focus_down, next_tab,
  prev_tab, focus_search, toggle_sidebar, open_settings, copy, paste, copy_agent_name, rename_tab,
  open_tab_menu, send_to_desktop, pick_tab_color, toggle_park, scroll_top, scroll_bottom,
  new_shell_here, new_claude_session_here, reopen_closed_tab, capture, toggle_record, zoom_in,
  zoom_out, zoom_reset,
}
use termherd.Keymap.Names.{
  number_row_tabs, activate_tab_from_config_name, find_name, from_config_name, config_name,
  unlisted_name, name,
}

-- One more than the index of a tab is a `usize`.
abbrev pub IndexFits : Action → Type 0
IndexFits (activate_tab index) = index + 1 < 2 ^ 64
IndexFits _ = Unit

-- The number row reaches the tab, or the action has no index.
abbrev pub is_reachable : Action → Bool
is_reachable (activate_tab index) = ltb index number_row_tabs
is_reachable _ = true

tab_name : (index : ℕ) → name (activate_tab index) ≡ codes "activate-tab-" ++ decimal (index + 1)
unfolding name config_name unlisted_name action_eq
tab_name index = refl

from_config_name-tab :
    (digits : Text)
    → from_config_name (codes "activate-tab-" ++ digits)
      ≡ activate_tab_from_config_name (codes "activate-tab-" ++ digits)
unfolding from_config_name find_name text_eq
from_config_name-tab digits = refl

activate_tab-digits :
    (digits : Text) (n : ℕ)
    → parse_usize digits ≡ some n
    → activate_tab_from_config_name (codes "activate-tab-" ++ digits)
      ≡ (if leb 1 n && leb n number_row_tabs then some (activate_tab (n - 1)) else none)
unfolding activate_tab_from_config_name strip_prefix
activate_tab-digits digits n h = rw (h, activate_tab_from_config_name) refl

from_config_name-name_tab :
    (index : ℕ)
    → index + 1 < 2 ^ 64
    → from_config_name (name (activate_tab index))
      ≡ (if ltb index number_row_tabs then some (activate_tab index) else none)
from_config_name-name_tab index h =
    rw (tab_name index, from_config_name-tab (decimal (index + 1)))
      (rw
        (activate_tab-digits (decimal (index + 1)) (index + 1) (parse_usize-decimal (index + 1) h))
        (ground arith))

-- The name of an action whose tab index, if it has one, is less than the largest usize reads back
-- as the action, but for the tabs that the number row does not reach, whose name reads as
-- nothing.
pub from_config_name-name :
    (a : Action)
    → IndexFits a
    → from_config_name (name a) ≡ (if is_reachable a then some a else none)
unfolding from_config_name name find_name config_name action_eq text_eq
from_config_name-name open_new_session h = refl
from_config_name-name close_focused h = refl
from_config_name-name split_horizontal h = refl
from_config_name-name split_vertical h = refl
from_config_name-name focus_next h = refl
from_config_name-name focus_prev h = refl
from_config_name-name focus_left h = refl
from_config_name-name focus_right h = refl
from_config_name-name focus_up h = refl
from_config_name-name focus_down h = refl
from_config_name-name next_tab h = refl
from_config_name-name prev_tab h = refl
from_config_name-name focus_search h = refl
from_config_name-name toggle_sidebar h = refl
from_config_name-name open_settings h = refl
from_config_name-name copy h = refl
from_config_name-name paste h = refl
from_config_name-name copy_agent_name h = refl
from_config_name-name rename_tab h = refl
from_config_name-name open_tab_menu h = refl
from_config_name-name send_to_desktop h = refl
from_config_name-name pick_tab_color h = refl
from_config_name-name toggle_park h = refl
from_config_name-name scroll_top h = refl
from_config_name-name scroll_bottom h = refl
from_config_name-name new_shell_here h = refl
from_config_name-name new_claude_session_here h = refl
from_config_name-name reopen_closed_tab h = refl
from_config_name-name capture h = refl
from_config_name-name toggle_record h = refl
from_config_name-name zoom_in h = refl
from_config_name-name zoom_out h = refl
from_config_name-name zoom_reset h = refl
from_config_name-name (activate_tab index) h = from_config_name-name_tab index h
