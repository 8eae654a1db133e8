-- ===== src/Metadata/Edits.antt =====
-- An edit of one entry of the overlay, and of no other.
use termherd.Prelude.{
  ◌≡◌, inl, inr, Bool, List, none, some, arith, if◌then◌else◌, unwrap_or, Bool-cases,
}
use termherd.Text.{Text, text_eq}
use termherd.TextMap.{find, find-erase}
use termherd.Metadata.{edited}

-- After an edit of one entry of the overlay, the entry is the edited one, made from the default
-- where there was none, or absent where the edited one is the default, and every other entry is
-- as it was.
pub find-edited :
    {A : Type 0} (initial : A) (is_default : A → Bool) (entries : List (Text × A))
    (key other : Text) (edit : A → A)
    → find (edited initial is_default entries key edit) other ≡ (
        if text_eq key other
        then (if is_default (edit (unwrap_or (find entries key) initial))
            then none
            else some (edit (unwrap_or (find entries key) initial)))
        else find entries other)
unfolding edited
find-edited initial is_default entries key other edit =
    elim (Bool-cases (is_default (edit (unwrap_or (find entries key) initial)))) [
      | inl e ↦ rw (e, edited) (ground (arith, find-erase entries key other))
      | inr e ↦ rw (e, edited) (ground (arith, find-erase entries key other))
    ]
