-- ===== src/Pty/Marks.antt =====
-- crates/pty/src/prompt.rs: the marks by which a shell reports its prompt and its commands.
use termherd.Prelude.{ℕ, List, [], ◌∷◌, Option, none, some, ◌==◌, if◌then◌else◌}
use termherd.Text.{Text}
use termherd.Claude.Osc.{contains, osc_sequences, esc}

pub data PromptMark : Type 0 where
  ready running finished : PromptMark

abbrev pub semantic_prompt : ℕ
semantic_prompt = 133

unfoldable pub mark_of : Text → Option PromptMark
mark_of [] = none
mark_of (c ∷ _) =
    if c == 65
    then some ready
    else if c == 67
    then some running
    else if c == 68
    then some finished
    else none

abbrev pub push_mark : Option PromptMark → List PromptMark → List PromptMark
push_mark none marks = marks
push_mark (some mark) marks = mark ∷ marks

abbrev pub marks_of : List (ℕ × Text) → List PromptMark
marks_of [] = []
marks_of ((code, payload) ∷ rest) =
    let marks = marks_of rest in
    if code == semantic_prompt then push_mark (mark_of payload) marks else marks

unfoldable pub decode_marks : Text → List PromptMark
decode_marks chunk = if contains (esc ∷ 93 ∷ []) chunk then marks_of (osc_sequences chunk) else []
