-- ===== src/Workspace/Zones.antt =====
-- The two zones of the strip: every parked tab stands after every unparked one.
use termherd.Prelude.{
  ℕ, zero, suc, ◌-◌, ◌≤◌, ◌<◌, ◌≡◌, true, false, List, [], ◌∷◌, some, arith, leb, ltb, ◌==◌,
  if◌then◌else◌, length, get_elem?, set, erase_idx, insert_idx, get_elem?-erase_idx,
  get_elem?-insert_idx, get_elem?-set, length-erase_idx, length-insert_idx, length-set,
  lt-length_of_get_elem?,
}
use termherd.Tab.{Tab}
use termherd.Workspace.{first_parked, parked_at}

-- The tabs before `k`, and no others, are unparked.
pub record Zoned (k : ℕ) (tabs : List Tab) : Type 0 where
  pub within : k ≤ length tabs
  pub parked_from : (i : ℕ) → i < length tabs → parked_at tabs i ≡ leb k i

first_parked_le : (tabs : List Tab) → first_parked tabs ≤ length tabs
unfolding first_parked
first_parked_le [] = omega arith
first_parked_le (t ∷ ts) = ground (arith, first_parked_le ts)

first_parked_unparked : (tabs : List Tab) (i : ℕ) → i < first_parked tabs → parked_at tabs i ≡ false
unfolding first_parked
first_parked_unparked [] i h = absurd (omega arith)
first_parked_unparked (t ∷ ts) zero h = ground arith
first_parked_unparked (t ∷ ts) (suc i) h = ground (arith, first_parked_unparked ts i)

first_parked_parked :
    (tabs : List Tab) → first_parked tabs < length tabs → parked_at tabs (first_parked tabs) ≡ true
unfolding first_parked
first_parked_parked [] h = absurd (omega arith)
first_parked_parked (t ∷ ts) h = ground (arith, first_parked_parked ts)

-- There is one such border, and `first_parked` finds it.
pub first_parked-Zoned : (k : ℕ) (tabs : List Tab) → Zoned k tabs → first_parked tabs ≡ k
first_parked-Zoned k tabs z = ground (
  arith,
  z.within,
  first_parked_le tabs,
  first_parked_unparked tabs k,
  first_parked_parked tabs,
  z.parked_from k,
  z.parked_from (first_parked tabs),
)

pub parked_at-erase_idx :
    (tabs : List Tab) (i j : ℕ)
    → parked_at (erase_idx tabs i) j
      ≡ (if ltb j i then parked_at tabs j else parked_at tabs (suc j))
parked_at-erase_idx tabs i j = ground (arith, get_elem?-erase_idx tabs i j)

pub parked_at-insert_idx :
    (tabs : List Tab) (i j : ℕ) (t : Tab)
    → i ≤ length tabs
    → parked_at (insert_idx tabs i t) j
      ≡ (if ltb j i then parked_at tabs j else if j == i then t.parked else parked_at tabs (j - 1))
parked_at-insert_idx tabs i j t h = ground (arith, get_elem?-insert_idx tabs i j t)

pub Zoned-erase_idx :
    (k : ℕ) (tabs : List Tab) (i : ℕ)
    → Zoned k tabs
    → i < length tabs
    → Zoned (if ltb i k then k - 1 else k) (erase_idx tabs i)
Zoned-erase_idx k tabs i z h = record {
  within = ground (arith, length-erase_idx tabs i h, z.within);
  parked_from = λ j lt. ground (
    arith,
    length-erase_idx tabs i h,
    parked_at-erase_idx tabs i j,
    z.parked_from j,
    z.parked_from (suc j),
  );
}

-- A new tab in its own zone.
pub Zoned-insert_unparked :
    (k : ℕ) (tabs : List Tab) (i : ℕ) (t : Tab)
    → Zoned k tabs
    → t.parked ≡ false
    → i ≤ k
    → Zoned (suc k) (insert_idx tabs i t)
Zoned-insert_unparked k tabs i t z fresh h = record {
  within = ground (arith, length-insert_idx tabs i t, z.within);
  parked_from = λ j lt. ground (
    arith,
    z.within,
    length-insert_idx tabs i t,
    parked_at-insert_idx tabs i j t,
    z.parked_from j,
    z.parked_from (j - 1),
  );
}

pub Zoned-insert_parked :
    (k : ℕ) (tabs : List Tab) (i : ℕ) (t : Tab)
    → Zoned k tabs
    → t.parked ≡ true
    → k ≤ i
    → i ≤ length tabs
    → Zoned k (insert_idx tabs i t)
Zoned-insert_parked k tabs i t z fresh h h' = record {
  within = ground (arith, length-insert_idx tabs i t, z.within);
  parked_from = λ j lt. ground (
    arith,
    z.within,
    length-insert_idx tabs i t,
    parked_at-insert_idx tabs i j t,
    z.parked_from j,
    z.parked_from (j - 1),
  );
}

-- A rewrite of one tab that leaves its zone alone.
pub Zoned-set :
    (k : ℕ) (tabs : List Tab) (i : ℕ) (t t' : Tab)
    → Zoned k tabs
    → get_elem? tabs i ≡ some t
    → t'.parked ≡ t.parked
    → Zoned k (set tabs i t')
Zoned-set k tabs i t t' z h same = record {
  within = ground (arith, length-set tabs i t', z.within);
  parked_from = λ j lt. ground (
    arith,
    length-set tabs i t',
    get_elem?-set tabs i j t' (lt-length_of_get_elem? tabs i h),
    z.parked_from j,
  );
}
