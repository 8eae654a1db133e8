-- ===== src/AppExamples.antt =====
-- The theorems on the application applied to small states.
use mathlib.Core.Logic.{◌↔◌}
use termherd.Prelude.{
  ◌≤◌, ◌≡◌, refl, true, false, List, [], ◌∷◌, ◌++◌, none, some, arith, length, erase_idx, ◌==◌,
  if◌then◌else◌, replicate, ◌⊎◌, map,
}
use termherd.Text.{Text}
use termherd.Pane.{SessionId}
use termherd.Session.{shell, claude, fresh, foreground, idle, exited, new_session}
use termherd.Browser.{SessionRecord, group_projects}
use termherd.Browser.Groups.{groups_at, has_path, groups_at-group_projects}
use termherd.Title.{TitleSources, resolve}
use termherd.Title.Ranking.{Shows, Passed, resolve-Shows}
use termherd.Tab
use termherd.Tab.{new_tab}
use termherd.Registry.{registered}
use termherd.App.Closed.{close_tab-kills}
use termherd.Effect.{write, kill, start_recording, capture_frame, finish_recording}
use termherd.App.{App, new_app, ClosedTab, is_live}
use termherd.App.Recorder.{toggle_record}
use termherd.App.RepoLink.{lies_within, trim_separators}
use termherd.App.Closing.{close_tab, push_closed, pop_closed, max_closed_tabs}
use termherd.App.Dispatch
use termherd.App.Dispatch.{Event, apply}
use termherd.App.Reachable.{run}
use termherd.App.Caps
use termherd.App.Caps.{IsCapped}
use termherd.App.Dead
use termherd.Registry
use termherd.App.Alive.{AllLive}
use termherd.App.Addressed.{apply-AllLive}
use termherd.App.Screencast
use termherd.App.Screencast.{ticks}
use termherd.App.RepoPaths.{Below, lies_within_iff}
use termherd.App.Reopen.{pop_closed-push_closed}
use termherd.Claude.Command.{desktop, keystrokes}
use termherd.Claude.Prompt.{empty}
use termherd.App.Command.{IsReady, send_claude_command, send_claude_command_lem}

abbrev shell_tab : Event
shell_tab =
    Dispatch.launch_session
      (record { cwd = none; launch = shell; title = 97 ∷ []; placement = foreground })

abbrev a_session : List Event
a_session =
    shell_tab
    ∷ Dispatch.toggle_record_event 2
    ∷ Dispatch.record_tick_event
    ∷ Dispatch.close_tab_event 0
    ∷ []

run-IsCapped_example : IsCapped (run new_app a_session)
run-IsCapped_example = Caps.Runs.run-IsCapped a_session

apply-AllLive_example : AllLive new_app (apply new_app (Dispatch.terminal_input 1 (13 ∷ []))).1
apply-AllLive_example = apply-AllLive new_app (Dispatch.terminal_input 1 (13 ∷ []))

-- One session, which has exited.
abbrev app_exited : App
app_exited = record new_app {
  sessions = record {
    map = record (new_session 1 none shell) { status = exited } ∷ [];
    next_id = 1;
  };
}

exited_is_dead : is_live app_exited 1 ≡ false
unfolding is_live Registry.get new_session
exited_is_dead = refl

is_live-run_example :
    is_live (run app_exited (Dispatch.status_changed_event 1 idle ∷ shell_tab ∷ [])) 1 ≡ false
is_live-run_example =
    Dead.Runs.is_live-run app_exited (Dispatch.status_changed_event 1 idle ∷ shell_tab ∷ []) 1
      (omega arith) exited_is_dead

ticks-toggle_record_example :
    ((toggle_record new_app 3).1 ≡ start_recording ∷ [])
    × (ticks 3 (toggle_record new_app 3).0 ≡ (
      record new_app { recording = none },
      replicate 3 capture_frame ++ finish_recording true ∷ [],
    ))
ticks-toggle_record_example = Screencast.ticks-toggle_record new_app 2 refl

lies_within_iff_example : (lies_within (47 ∷ 97 ∷ 47 ∷ 98 ∷ []) (47 ∷ 97 ∷ 47 ∷ []) ≡ true) ↔ (
    (rest : Text) × (trim_separators (47 ∷ 97 ∷ 47 ∷ 98 ∷ [])
      ≡ trim_separators (47 ∷ 97 ∷ 47 ∷ []) ++ rest)
    × Below rest)
lies_within_iff_example = lies_within_iff (47 ∷ 97 ∷ 47 ∷ 98 ∷ []) (47 ∷ 97 ∷ 47 ∷ [])

abbrev closed_shell : ClosedTab
closed_shell = record { title = 97 ∷ []; custom_title = none; cwd = none; launch = shell }

abbrev full_stack : List ClosedTab
full_stack = replicate 16 closed_shell

pop_closed-push_closed_example :
    (length (push_closed full_stack closed_shell) ≤ max_closed_tabs)
    × (pop_closed (push_closed full_stack closed_shell)
        ≡ some (
          if length full_stack == max_closed_tabs then erase_idx full_stack 0 else full_stack,
          closed_shell,
        ))
pop_closed-push_closed_example = pop_closed-push_closed full_stack closed_shell (omega arith)

abbrev scanned_in : Text → SessionRecord
scanned_in path = record {
  session_id = 120 ∷ [];
  project_path = path;
  digest = record {
    summary = [];
    message_count = 0;
    text_content = [];
    slug = none;
    custom_title = none;
    ai_title = none;
    tail = [];
    version = none;
    model = none;
    effort = none;
    agent_color = none;
  };
  modified = none;
}

abbrev scanned : List SessionRecord
scanned = scanned_in (98 ∷ []) ∷ scanned_in (97 ∷ []) ∷ scanned_in (98 ∷ []) ∷ []

groups_at-group_projects_example :
    groups_at (98 ∷ []) (group_projects scanned) ≡ has_path (98 ∷ []) scanned
groups_at-group_projects_example = groups_at-group_projects (98 ∷ []) scanned

-- One tab, and its session.
abbrev app_of_one : App
app_of_one = record new_app {
  workspace = record { tabs = new_tab 1 (97 ∷ []) ∷ []; active = 0 };
  sessions = record { map = new_session 1 none shell ∷ []; next_id = 1 };
}

close_tab-kills_example :
    ((close_tab app_of_one 0).1 ≡ map kill (Tab.sessions (new_tab 1 (97 ∷ []))))
    × ((s : SessionId)
        → registered (close_tab app_of_one 0).0.sessions s
          ≡ (if Tab.hosts (new_tab 1 (97 ∷ [])) s then 0 else registered app_of_one.sessions s))
close_tab-kills_example = close_tab-kills app_of_one 0 (new_tab 1 (97 ∷ [])) refl

abbrev a_title : TitleSources
a_title = record {
  named = some (32 ∷ []);
  live = none;
  described = some (98 ∷ []);
  launch = 97 ∷ [];
}

resolve-Shows_example :
    Shows a_title.named (resolve a_title)
    ⊎ (Passed a_title.named
        × (Shows a_title.live (resolve a_title)
            ⊎ (Passed a_title.live
                × (Shows a_title.described (resolve a_title)
                    ⊎ (Passed a_title.described × (resolve a_title ≡ a_title.launch))))))
resolve-Shows_example = resolve-Shows a_title

-- One Claude session, idle.
abbrev app_idle : App
app_idle = record new_app {
  sessions = record {
    map = record (new_session 1 none (claude (fresh none))) { status = idle } ∷ [];
    next_id = 1;
  };
}

send_claude_command_lem_example :
    (IsReady app_idle 1 empty
      × (send_claude_command app_idle 1 desktop empty ≡ map (write 1) (keystrokes desktop)))
    ⊎ ((IsReady app_idle 1 empty → ⊥) × (send_claude_command app_idle 1 desktop empty ≡ []))
send_claude_command_lem_example = send_claude_command_lem app_idle 1 desktop empty
