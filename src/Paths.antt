-- ===== src/Paths.antt =====
-- crates/core/src/paths.rs: the files that the system's handler would run.
use termherd.Prelude.{
  Bool, false, ◌&&◌, not, List, [], ◌∷◌, Option, none, some, any, ◌==◌, if◌then◌else◌,
}
use termherd.Text.{Text, text_eq, is_empty}
use termherd.Text.Ascii.{codes, split}
use termherd.Text.Words.{filter}
use termherd.Claude.Color.{eq_ignore_ascii_case}

abbrev last_of : List Text → Option Text
last_of [] = none
last_of (part ∷ []) = some part
last_of (_ ∷ next ∷ parts) = last_of (next ∷ parts)

-- `Path::file_name` on Unix: the last component, if it names an entry.
unfoldable pub file_name : Text → Option Text
file_name path =
    elim (last_of
      (filter (λ part. not (is_empty part) && not (text_eq part (codes "."))) (split 47 path))) [
        | none ↦ none
        | some part ↦ if text_eq part (codes "..") then none else some part
      ]

-- What stands before the last dot, and after it.
abbrev pub rsplit_dot : Text → Option (Text × Text)
rsplit_dot [] = none
rsplit_dot (c ∷ cs) = elim (rsplit_dot cs) [
  | some (before, after) ↦ some (c ∷ before, after)
  | none ↦ if c == 46 then some ([], cs) else none
]

-- `Path::extension`: a name whose only dot leads it has none.
unfoldable pub extension : Text → Option Text
extension path = elim (file_name path) [
  | none ↦ none
  | some name ↦ elim (rsplit_dot name) [
    | none ↦ none
    | some (before, after) ↦ if is_empty before then none else some after
  ]
]

abbrev pub executed_by_association : List Text
executed_by_association =
    codes "app"
    ∷ codes "command"
    ∷ codes "terminal"
    ∷ codes "workflow"
    ∷ codes "pkg"
    ∷ codes "mpkg"
    ∷ codes "desktop"
    ∷ codes "exe"
    ∷ codes "com"
    ∷ codes "bat"
    ∷ codes "cmd"
    ∷ codes "scr"
    ∷ codes "pif"
    ∷ codes "msi"
    ∷ codes "msp"
    ∷ codes "cpl"
    ∷ codes "msc"
    ∷ codes "lnk"
    ∷ codes "url"
    ∷ codes "scf"
    ∷ codes "inf"
    ∷ codes "hta"
    ∷ codes "vb"
    ∷ codes "vbs"
    ∷ codes "vbe"
    ∷ codes "ws"
    ∷ codes "wsf"
    ∷ codes "wsh"
    ∷ codes "ps1"
    ∷ codes "reg"
    ∷ codes "jar"
    ∷ []

unfoldable pub runs_on_open : Text → Bool
runs_on_open path = elim (extension path) [
  | none ↦ false
  | some ext ↦ any (λ banned. eq_ignore_ascii_case ext banned) executed_by_association
]
