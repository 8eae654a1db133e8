-- ===== src/ClaudeExamples.antt =====
-- Runs of the theorems on chords, names, typed commands, opened files and reported activity.
use mathlib.Core.List.{Permᴰ}
use termherd.Prelude.{
  ◌++◌, ◌⊎◌, ℕ, suc, ◌≡◌, refl, Bool, ◌&&◌, leb, true, false, List, [], ◌∷◌, ◌+◌, none, some, arith,
  length, take, ok,
}
use termherd.Text.{Text, text_eq, trim, trim_start, trim_end, is_whitespace}
use termherd.Text.Ascii.{codes, join}
use termherd.Text.Laws.{Free, AllFree}
use termherd.Text.Words.{all, split_whitespace}
use termherd.Keymap.Chord.{KeyChord, parse}
use termherd.Keymap.Chord.Reading.{keys, all_mods, verdict, tokens_of, parse-verdict}
use termherd.Keymap.Chord.Order.{parse-join_perm}
use termherd.Keymap.Actions.{copy, activate_tab, windows}
use termherd.Keymap.Names.{name, from_config_name, number_row_tabs}
use termherd.Keymap.NameLaws.{from_config_name-name}
use termherd.Keymap.Actions.{actions}
use termherd.Keymap.Bindings.{defaults_for, default_bindings, lookup, get}
use termherd.Keymap.BindingLaws.{
  set_all, rebound_all, defaults_for-IsMap, lookup-set_all, is_distinct,
}
use termherd.Keymap.DefaultLaws.{spec_count, lookup-defaults_for}
use termherd.Text.Words.{is_control}
use termherd.Claude.Command.{
  ClaudeCommand, rename_to, keystrokes, rename, new_argument, collapsed, space_breaks, breaks_line,
  is_invisible_format, is_tail,
}
use termherd.Claude.Typed.{Cuts, IsBuilt, is_typed, keystrokes-rename}
use termherd.Open.{
  OpenCommand, literal, slot, path_slot, line_slot, from_words, resolve, parse_word, parse_rest,
  parse_round, cut_at, named,
}
use termherd.Open.Grammar.{word_of, text_alone, reading, parse_word-word_of}
use termherd.Open.Safety.{target_program, target_args, AnyHolds, resolve-from_words}
use termherd.Session.{idle}
use termherd.Claude.Osc.{busy_signal, idle_signal, bell, is_digit, is_payload, osc_sequences}
use termherd.Claude.Osc.Scan.{plain, sequence, chunk_of, sequences_of, osc_sequences-chunk_of}
use termherd.Pty.Activity.{starting_activity, observe, fold_marks, fold_status, classifies, settle}
use termherd.Pty.Reports.{report_all, chunk, timer, settle-report_all}
use termherd.Text.Ascii.{lower, split}
use termherd.Claude.Color.{eq_ignore_ascii_case}
use termherd.Paths.{runs_on_open, extension, file_name}
use termherd.Hover.{
  TargetProbe, path_probe, ResolvedPath, PathRequest, to_hover, to_open, path_target,
}
use termherd.Effect.{resolve_path, PointerEvent, drag, left_button}
use termherd.App.{new_app}
use termherd.App.Hovering.{request_of, path_roots, set_term_target, path_resolved}
use termherd.App.Answers.{path_resolved_barred, path_resolved-set_term_target}
use termherd.Pointer.{MouseReporting, forward, nothing, route, pointer_select}
use termherd.Pointer.Routes.{selects, includes, route-pointer_select}
use termherd.DeepLink
use termherd.Text.Words.{utf8}
use termherd.DeepLink.{open_repo, is_link, strip_scheme}
use termherd.DeepLink.Refusals.{IsSafe, parse-IsSafe}
use termherd.Links.{
  is_dropped, detect, detect_from, at_boundary, scheme_at, is_url_char, trim_trailing, unbalanced,
  url_run,
}
use termherd.Links.Spans.{AllLinks, detect-AllLinks}

parse-verdict_example :
    parse (codes "ctrl+a+b")
    ≡ verdict (keys (tokens_of (codes "ctrl+a+b"))) (all_mods 0 (tokens_of (codes "ctrl+a+b")))
parse-verdict_example = parse-verdict (codes "ctrl+a+b")

parse-join_perm_example :
    parse (join 43 (codes "ctrl" ∷ codes "c" ∷ []))
    ≡ parse (join 43 (codes "c" ∷ codes "ctrl" ∷ []))
unfolding Free AllFree
parse-join_perm_example =
    parse-join_perm (codes "ctrl") (codes "c") (codes "c" ∷ []) (codes "ctrl" ∷ [])
      (Permᴰ.swap refl refl) ((refl, (refl, (refl, (refl, tt)))), ((refl, tt), tt))
      ((refl, tt), ((refl, (refl, (refl, (refl, tt)))), tt))

from_config_name-name_example : from_config_name (name (activate_tab 8)) ≡ some (activate_tab 8)
from_config_name-name_example = from_config_name-name (activate_tab 8) (omega arith)

abbrev ctrl_k : KeyChord
ctrl_k = record { key = codes "k"; mods = 1 }

lookup-set_all_example :
    lookup (set_all (defaults_for windows) ((copy, ctrl_k ∷ []) ∷ [])) ctrl_k
    ≡ rebound_all (lookup (defaults_for windows)) ((copy, ctrl_k ∷ []) ∷ []) ctrl_k
lookup-set_all_example =
    lookup-set_all (defaults_for windows) ((copy, ctrl_k ∷ []) ∷ []) ctrl_k
      (defaults_for-IsMap windows)

lookup-defaults_for_example :
    (is_distinct (default_bindings windows) ≡ true)
    × ((length (default_bindings windows) ≡ spec_count windows actions + number_row_tabs)
        × ((c : KeyChord) → lookup (defaults_for windows) c ≡ get (default_bindings windows) c))
lookup-defaults_for_example = lookup-defaults_for windows

-- Clusters of one character each.
singles : Text → List Text
singles [] = []
singles (c ∷ cs) = (c ∷ []) ∷ singles cs

singles-Cuts : Cuts singles
unfolding singles
singles-Cuts [] = refl
singles-Cuts (c ∷ cs) = rw (singles-Cuts cs) refl

abbrev renamed : ClaudeCommand
renamed = rename_to (record { text = codes "a b" })

keystrokes-rename_example :
    IsBuilt renamed
    × ((body : List ℕ) × ((keystrokes renamed ≡ (0x15 ∷ body) ∷ (13 ∷ []) ∷ [])
          × (all is_typed body ≡ true)))
unfolding singles rename new_argument collapsed split_whitespace space_breaks breaks_line
    is_invisible_format is_control is_tail is_whitespace join
keystrokes-rename_example = keystrokes-rename singles (codes " a\nb\\") renamed singles-Cuts refl

abbrev code_words : List Text
code_words = codes "code" ∷ codes "-g" ∷ codes "{path}:{line}" ∷ []

abbrev code_command : OpenCommand
code_command = record {
  program = codes "code";
  args =
      (literal (codes "-g") ∷ [])
      ∷ (slot path_slot ∷ literal (codes ":") ∷ slot line_slot ∷ [])
      ∷ [];
}

code_command_parsed : from_words code_words ≡ ok code_command
unfolding from_words parse_rest parse_round cut_at named text_eq trim trim_start trim_end
    is_whitespace
code_command_parsed = refl

resolve-from_words_example :
    (target_program (resolve code_command (codes "a b.rs") none none) ∷ [] ≡ take 1 code_words)
    × ((suc (length (target_args (resolve code_command (codes "a b.rs") none none)))
          ≡ length code_words)
        × AnyHolds (target_args (resolve code_command (codes "a b.rs") none none)) (codes "a b.rs"))
resolve-from_words_example =
    resolve-from_words code_words code_command (codes "a b.rs") none none code_command_parsed

parse_word-word_of_example :
    parse_word (word_of ((codes "+", line_slot) ∷ []) (text_alone (codes ":")))
    ≡ reading
        (word_of ((codes "+", line_slot) ∷ []) (text_alone (codes ":")))
        ((codes "+", line_slot) ∷ [])
        (text_alone (codes ":"))
parse_word-word_of_example =
    parse_word-word_of ((codes "+", line_slot) ∷ []) (text_alone (codes ":")) (refl, tt) refl

settle-report_all_example :
    settle
      (report_all
        (report_all starting_activity
          (chunk (busy_signal ∷ []) [] 1 ∷ chunk (idle_signal ∷ []) [] 2 ∷ []))
        (chunk (bell ∷ []) [] 3 ∷ timer 9 ∷ []))
      150000002
    ≡ (record { status = idle; self_reported = true; idle_due = none }, true)
unfolding observe fold_marks fold_status classifies
settle-report_all_example =
    settle-report_all (chunk (busy_signal ∷ []) [] 1 ∷ chunk (idle_signal ∷ []) [] 2 ∷ [])
      (chunk (bell ∷ []) [] 3 ∷ timer 9 ∷ []) 150000002 150000002 refl
      ((refl, refl), (omega arith, tt)) (omega arith)

osc_sequences-chunk_of_example :
    osc_sequences (
      chunk_of (
        plain (codes "hi")
        ∷ sequence (codes "133") (codes "A") false
        ∷ sequence (codes "9") (codes "done") true
        ∷ []))
    ≡ sequences_of (
        plain (codes "hi")
        ∷ sequence (codes "133") (codes "A") false
        ∷ sequence (codes "9") (codes "done") true
        ∷ [])
unfolding is_digit is_payload
osc_sequences-chunk_of_example =
    osc_sequences-chunk_of
      (plain (codes "hi")
        ∷ sequence (codes "133") (codes "A") false
        ∷ sequence (codes "9") (codes "done") true
        ∷ [])
      (refl, ((refl, (refl, refl)), ((refl, (refl, refl)), tt)))

abbrev a_probe : TargetProbe
a_probe = record { row = 3; start = 2; end = 9; kind = path_probe (codes "src/a.rs") (some 4) none }

abbrev a_file : ResolvedPath
a_file = record { path = codes "/w/src/a.rs"; real = codes "/w/src/a.rs" }

abbrev a_program : ResolvedPath
a_program = record { path = codes "/w/notes.md"; real = codes "/w/payload.App" }

abbrev to_open_it : PathRequest
to_open_it = request_of 1 to_open a_probe (codes "notes.md") none none

path_resolved_barred_example :
    ((path_resolved new_app to_open_it (some a_program)).1 ≡ [])
    × (((path_resolved new_app to_open_it (some a_program)).0.hover ≡ none)
        ⊎ ((path_resolved new_app to_open_it (some a_program)).0.hover ≡ none))
unfolding runs_on_open extension file_name split text_eq lower eq_ignore_ascii_case
path_resolved_barred_example = path_resolved_barred new_app to_open_it (some a_program) (refl, refl)

path_resolved-set_term_target_example :
    ((set_term_target new_app 1 (some a_probe)).1
      ≡ resolve_path
          (path_roots new_app 1)
          (request_of 1 to_hover a_probe (codes "src/a.rs") (some 4) none)
        ∷ [])
    × ((path_resolved
          (set_term_target new_app 1 (some a_probe)).0
          (request_of 1 to_hover a_probe (codes "src/a.rs") (some 4) none)
          (some a_file)).0.hover
        ≡ some (record {
          session = 1;
          row = 3;
          start = 2;
          end = 9;
          target = path_target (codes "/w/src/a.rs") (some 4) none;
        }))
unfolding runs_on_open extension file_name split text_eq lower eq_ignore_ascii_case
path_resolved-set_term_target_example =
    path_resolved-set_term_target new_app 1 a_probe (codes "src/a.rs") (some 4) none a_file refl
      refl (λ e. refl)

abbrev a_drag : PointerEvent
a_drag = record { kind = drag; col = 4; row = 2; button = left_button }

route-pointer_select_example :
    (route a_drag none ≡ selects (pointer_select a_drag 7))
    × (((reporting : MouseReporting)
          → (route a_drag (some reporting) ≡ forward) ⊎ (route a_drag (some reporting) ≡ nothing))
        × ((narrow wide : MouseReporting)
            → includes wide narrow ≡ true
            → route a_drag (some narrow) ≡ forward
            → route a_drag (some wide) ≡ forward))
route-pointer_select_example = route-pointer_select a_drag 7

abbrev is_letter : ℕ → Bool
is_letter c = leb 97 c && leb c 122

abbrev a_row : Text
a_row = codes "see (http://a.b/c), ok"

detect-AllLinks_example :
    AllLinks is_letter a_row 0 (detect is_letter a_row)
    × ((more : ℕ) → detect_from is_letter (length a_row + more) a_row 0 ≡ detect is_letter a_row)
detect-AllLinks_example = detect-AllLinks is_letter a_row

one_link : detect is_letter a_row ≡ (5, 17) ∷ []
unfolding detect detect_from at_boundary scheme_at lower is_url_char trim_trailing unbalanced
    url_run is_whitespace is_control is_dropped
one_link = refl

abbrev a_link : Text
a_link = codes "TermHerd://open/?repo=/tmp/caf%C3%A9/#top"

link_reads : DeepLink.parse a_link ≡ ok (open_repo (47 ∷ codes "tmp/caf" ++ 0xe9 ∷ []))
unfolding DeepLink.parse strip_scheme eq_ignore_ascii_case text_eq lower DeepLink.split_once
    DeepLink.repo_parameter split DeepLink.percent_decode utf8 DeepLink.hex_value DeepLink.lead_of
    is_control DeepLink.root_length DeepLink.without_trailing_separator
link_reads = refl

parse-IsSafe_example : (is_link a_link ≡ true) × IsSafe (47 ∷ codes "tmp/caf" ++ 0xe9 ∷ [])
parse-IsSafe_example = parse-IsSafe a_link (47 ∷ codes "tmp/caf" ++ 0xe9 ∷ []) link_reads
