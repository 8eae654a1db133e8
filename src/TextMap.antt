-- ===== src/TextMap.antt =====
-- Maps and sets keyed by texts (`HashMap<String, _>` and `HashSet<String>`), as lists of entries.
use termherd.Prelude.{
  ◌≡◌, Bool, false, ◌||◌, List, [], ◌∷◌, Option, none, some, arith, if◌then◌else◌,
}
use termherd.Text.{Text, text_eq, text_eq_sound, text_eq_refl}

module _ {A : Type 0} where
  abbrev pub find : List (Text × A) → Text → Option A
  find [] key = none
  find ((k, value) ∷ rest) key = if text_eq k key then some value else find rest key

  abbrev pub erase : List (Text × A) → Text → List (Text × A)
  erase [] key = []
  erase ((k, value) ∷ rest) key =
      let kept = erase rest key in if text_eq k key then kept else (k, value) ∷ kept

  abbrev pub put : List (Text × A) → Text → A → List (Text × A)
  put entries key value = (key, value) ∷ erase entries key

  pub find-erase :
      (entries : List (Text × A)) (gone key : Text)
      → find (erase entries gone) key ≡ (if text_eq gone key then none else find entries key)
  find-erase [] gone key = ground arith
  find-erase ((k, value) ∷ rest) gone key = ground (
    arith,
    find-erase rest gone key,
    text_eq_sound k gone,
    text_eq_sound k key,
    text_eq_sound gone key,
    text_eq_refl key,
    text_eq_refl gone,
  )

abbrev pub member : List Text → Text → Bool
member [] t = false
member (u ∷ us) t = text_eq u t || member us t

abbrev pub discard : List Text → Text → List Text
discard [] t = []
discard (u ∷ us) t = let kept = discard us t in if text_eq u t then kept else u ∷ kept

-- `if !set.remove(&t) { set.insert(t) }`.
unfoldable pub toggle : List Text → Text → List Text
toggle set t = if member set t then discard set t else t ∷ set
