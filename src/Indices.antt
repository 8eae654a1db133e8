-- ===== src/Indices.antt =====
-- crates/core/src/workspace.rs: positions in a strip of tabs or panes, as it is cycled through or
-- as one of its elements moves.
use native.Mathlib.Nat.{mod-eq_of_lt, mod-eq-sub-mod}
use native.Mathlib.Decide.{dec_lt}
use termherd.Prelude.{
  ℕ, suc, ◌+◌, ◌-◌, ◌%◌, ◌≤◌, ◌<◌, ◌≡◌, ◌≢◌, refl, List, Option, none, some, arith, ltb, leb, ◌==◌,
  if◌then◌else◌, length, get_elem?, erase_idx, insert_idx, get_elem?-erase_idx,
  get_elem?-insert_idx, length-erase_idx, unwrap_or,
}

pub data Step : Type 0 where
  next prev : Step

-- `usize::checked_sub` and `usize::checked_rem`.
abbrev checked_sub : ℕ → ℕ → Option ℕ
checked_sub m n = if ltb m n then none else some (m - n)

abbrev checked_rem : ℕ → ℕ → Option ℕ
checked_rem m n = if n == 0 then none else some (m % n)

unfoldable pub index_after : Step → ℕ → ℕ → Option ℕ
index_after next current len = checked_rem (current + 1) len
index_after prev current len = elim (checked_sub len 1) [
  | none ↦ none
  | some offset ↦ checked_rem (current + offset) len
]

pub back : Step → Step
back next = prev
back prev = next

unfoldable pub index_after_removal : ℕ → ℕ → Option ℕ
index_after_removal index removed =
    if ltb index removed then some index else if index == removed then none else some (index - 1)

unfoldable pub shift_index : ℕ → ℕ → ℕ → ℕ
shift_index i from to =
    if i == from
    then to
    else let after_remove = unwrap_or (index_after_removal i from) i in
      if leb to after_remove then after_remove + 1 else after_remove

-- There is no step in an empty cycle, and one in any other.
pub index_after-empty : (step : Step) (current : ℕ) → index_after step current 0 ≡ none
unfolding index_after
index_after-empty next current = refl
index_after-empty prev current = refl

pub index_after-lt :
    (step : Step) (current len : ℕ)
    → 0 < len
    → (i : ℕ) × (index_after step current len ≡ some i) × (i < len)
unfolding index_after
index_after-lt next current len h = ((current + 1) % len, ground arith, omega arith)
index_after-lt prev current len h = ((current + (len - 1)) % len, ground arith, omega arith)

mod_wrap : (m n : ℕ) → n ≤ m → m < n + n → m % n ≡ m - n
mod_wrap m n h k = rw (mod-eq-sub-mod h) (mod-eq_of_lt (omega arith))

-- From an index in range, a step around the cycle and the step back end at the index.
pub index_after-back :
    (step : Step) (current len i : ℕ)
    → current < len
    → index_after step current len ≡ some i
    → index_after (back step) i len ≡ some current
unfolding index_after back
index_after-back next current len i h e = elim (dec_lt (current + 1) len) [
  | yes p ↦
      ground
        (arith, mod-eq_of_lt p, mod_wrap (current + 1 + (len - 1)) len (omega arith) (omega arith))
  | no p ↦ ground (
    arith,
    mod_wrap (current + 1) len (omega arith) (omega arith),
    mod-eq_of_lt {n = 0 + (len - 1)} {m = len} (omega arith),
  )
]
index_after-back prev current len i h e = elim (dec_lt 0 current) [
  | yes p ↦ ground (
    arith,
    mod_wrap (current + (len - 1)) len (omega arith) (omega arith),
    mod-eq_of_lt {n = current - 1 + 1} {m = len} (omega arith),
  )
  | no p ↦ ground (
    arith,
    mod-eq_of_lt {n = current + (len - 1)} {m = len} (omega arith),
    mod_wrap (len - 1 + 1) len (omega arith) (omega arith),
  )
]

pub index_after-next :
    (current len : ℕ)
    → current < len
    → index_after next current len ≡ some (if suc current == len then 0 else suc current)
unfolding index_after
index_after-next current len h = elim (dec_lt (current + 1) len) [
  | yes p ↦ ground (arith, mod-eq_of_lt p)
  | no p ↦ ground (arith, mod_wrap (current + 1) len (omega arith) (omega arith))
]

-- Moving an element back undoes the shift of every index.
pub shift_index-shift_index : (i from to : ℕ) → shift_index (shift_index i from to) to from ≡ i
unfolding shift_index index_after_removal
shift_index-shift_index i from to = ground arith

pub shift_index-lt : (i from to n : ℕ) → i < n → from < n → to < n → shift_index i from to < n
unfolding shift_index index_after_removal
shift_index-lt i from to n hi hf ht = ground arith

-- Once the element at an index in range is taken out of a list and another put in at an index in
-- range, every element that stood elsewhere stands at the index that shift_index gives.
pub get_elem?-shift_index :
    {A : Type 0} (xs : List A) (i from to : ℕ) (x : A)
    → from < length xs
    → to < length xs
    → i ≢ from
    → get_elem? (insert_idx (erase_idx xs from) to x) (shift_index i from to) ≡ get_elem? xs i
unfolding shift_index index_after_removal
get_elem?-shift_index xs i from to x hf ht ne = ground (
  arith,
  length-erase_idx xs from,
  get_elem?-insert_idx (erase_idx xs from) to (shift_index i from to) x,
  get_elem?-erase_idx xs from (shift_index i from to),
  get_elem?-erase_idx xs from (shift_index i from to - 1),
)
