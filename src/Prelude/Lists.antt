-- ===== src/Prelude/Lists.antt =====
-- Lists measured and indexed by native numbers, under the library's names, and the operations of
-- `Vec` that the program uses.
use Prim.Native.Nat.{ℕ, zero, suc, ◌+◌, ◌-◌, ◌≤◌, ◌<◌}
use mathlib.Core.Path.{◌≡◌, refl, ap}
use mathlib.Core.Bool.{Bool, true, false}
use mathlib.Core.List.{List, [], ◌∷◌, ◌++◌, map}
use mathlib.Core.Option
use mathlib.Core.Option.{Option, none, some}
use native.Mathlib.Omega.{arith}
use mathlib.Core.Logic.{inl, inr}
use termherd.Prelude.Tests.{Bool-cases, ltb, ◌==◌, if◌then◌else◌}

module _ {ℓ} {A : Type ℓ} where
  -- `Option::unwrap_or`.
  abbrev pub unwrap_or : Option A → A → A
  unwrap_or none d = d
  unwrap_or (some x) d = x

  abbrev pub length : List A → ℕ
  length [] = 0
  length (x ∷ xs) = suc (length xs)

  abbrev pub get_elem? : List A → ℕ → Option A
  get_elem? [] i = none
  get_elem? (x ∷ xs) zero = some x
  get_elem? (x ∷ xs) (suc i) = get_elem? xs i

  -- A write out of bounds changes nothing.
  abbrev pub set : List A → ℕ → A → List A
  set [] i v = []
  set (x ∷ xs) zero v = v ∷ xs
  set (x ∷ xs) (suc i) v = x ∷ set xs i v

  abbrev pub take : ℕ → List A → List A
  take zero xs = []
  take (suc n) [] = []
  take (suc n) (x ∷ xs) = x ∷ take n xs

  abbrev pub replicate : ℕ → A → List A
  replicate zero a = []
  replicate (suc n) a = a ∷ replicate n a

  -- `Vec::remove`, which panics past the end; here it then changes nothing.
  abbrev pub erase_idx : List A → ℕ → List A
  erase_idx [] i = []
  erase_idx (x ∷ xs) zero = xs
  erase_idx (x ∷ xs) (suc i) = x ∷ erase_idx xs i

  -- `Vec::insert`, which panics past the end; here it then appends.
  abbrev pub insert_idx : List A → ℕ → A → List A
  insert_idx xs zero v = v ∷ xs
  insert_idx [] (suc i) v = v ∷ []
  insert_idx (x ∷ xs) (suc i) v = x ∷ insert_idx xs i v

  -- `Iterator::position`.
  abbrev pub find_idx : (A → Bool) → List A → Option ℕ
  find_idx p [] = none
  find_idx p (x ∷ xs) =
      if p x then some 0 else elim (find_idx p xs) [ none ↦ none | some i ↦ some (suc i) ]

  -- `Iterator::find`.
  abbrev pub find? : (A → Bool) → List A → Option A
  find? p [] = none
  find? p (x ∷ xs) = if p x then some x else find? p xs

  abbrev pub any : (A → Bool) → List A → Bool
  any p [] = false
  any p (x ∷ xs) = if p x then true else any p xs

  pub length-append : (xs ys : List A) → length (xs ++ ys) ≡ length xs + length ys
  length-append [] ys = omega arith
  length-append (x ∷ xs) ys = omega (arith, length-append xs ys)

  pub length-erase_idx :
      (xs : List A) (i : ℕ) → i < length xs → suc (length (erase_idx xs i)) ≡ length xs
  length-erase_idx [] i h = absurd (omega arith)
  length-erase_idx (x ∷ xs) zero h = refl
  length-erase_idx (x ∷ xs) (suc i) h = ap suc (length-erase_idx xs i (omega arith))

  pub length-insert_idx :
      (xs : List A) (i : ℕ) (v : A) → length (insert_idx xs i v) ≡ suc (length xs)
  length-insert_idx xs zero v = refl
  length-insert_idx [] (suc i) v = refl
  length-insert_idx (x ∷ xs) (suc i) v = ap suc (length-insert_idx xs i v)

  pub length-set : (xs : List A) (i : ℕ) (v : A) → length (set xs i v) ≡ length xs
  length-set [] i v = refl
  length-set (x ∷ xs) zero v = refl
  length-set (x ∷ xs) (suc i) v = ap suc (length-set xs i v)

  pub get_elem?-erase_idx :
      (xs : List A) (i j : ℕ)
      → get_elem? (erase_idx xs i) j ≡ (if ltb j i then get_elem? xs j else get_elem? xs (suc j))
  get_elem?-erase_idx [] i j = ground arith
  get_elem?-erase_idx (x ∷ xs) zero j = ground arith
  get_elem?-erase_idx (x ∷ xs) (suc i) zero = ground arith
  get_elem?-erase_idx (x ∷ xs) (suc i) (suc j) = ground (arith, get_elem?-erase_idx xs i j)

  pub get_elem?-insert_idx :
      (xs : List A) (i j : ℕ) (v : A)
      → i ≤ length xs
      → get_elem? (insert_idx xs i v) j
        ≡ (if ltb j i then get_elem? xs j else if j == i then some v else get_elem? xs (j - 1))
  get_elem?-insert_idx xs zero zero v h = refl
  get_elem?-insert_idx xs zero (suc j) v h = ground arith
  get_elem?-insert_idx [] (suc i) j v h = absurd (omega arith)
  get_elem?-insert_idx (x ∷ xs) (suc i) zero v h = ground arith
  get_elem?-insert_idx (x ∷ xs) (suc i) (suc zero) v h =
      ground (arith, get_elem?-insert_idx xs i zero v)
  get_elem?-insert_idx (x ∷ xs) (suc i) (suc (suc j)) v h =
      ground (arith, get_elem?-insert_idx xs i (suc j) v)

  pub get_elem?-set :
      (xs : List A) (i j : ℕ) (v : A)
      → i < length xs
      → get_elem? (set xs i v) j ≡ (if i == j then some v else get_elem? xs j)
  get_elem?-set [] i j v h = absurd (omega arith)
  get_elem?-set (x ∷ xs) zero zero v h = ground arith
  get_elem?-set (x ∷ xs) zero (suc j) v h = ground arith
  get_elem?-set (x ∷ xs) (suc i) zero v h = ground arith
  get_elem?-set (x ∷ xs) (suc i) (suc j) v h = ground (arith, get_elem?-set xs i j v)

  pub lt-length_of_get_elem? :
      (xs : List A) (i : ℕ) {x : A} → get_elem? xs i ≡ some x → i < length xs
  lt-length_of_get_elem? [] i h = cc
  lt-length_of_get_elem? (x ∷ xs) zero h = omega arith
  lt-length_of_get_elem? (x ∷ xs) (suc i) h = omega (arith, lt-length_of_get_elem? xs i h)

  pub get_elem?-eq-some :
      (xs : List A) (i : ℕ) → i < length xs → (x : A) × (get_elem? xs i ≡ some x)
  get_elem?-eq-some [] i h = absurd (omega arith)
  get_elem?-eq-some (x ∷ xs) zero h = (x, refl)
  get_elem?-eq-some (x ∷ xs) (suc i) h = get_elem?-eq-some xs i (omega arith)

  pub length-le_of_get_elem? : (xs : List A) (i : ℕ) → get_elem? xs i ≡ none → length xs ≤ i
  length-le_of_get_elem? [] i h = omega arith
  length-le_of_get_elem? (x ∷ xs) zero h = absurd (ground arith)
  length-le_of_get_elem? (x ∷ xs) (suc i) h = omega (arith, length-le_of_get_elem? xs i h)

  pub get_elem?-eq-none : (xs : List A) (i : ℕ) → length xs ≤ i → get_elem? xs i ≡ none
  get_elem?-eq-none [] i h = refl
  get_elem?-eq-none (x ∷ xs) zero h = absurd (omega arith)
  get_elem?-eq-none (x ∷ xs) (suc i) h = get_elem?-eq-none xs i (omega arith)

  pub find?_holds : (f : A → Bool) (xs : List A) (x : A) → find? f xs ≡ some x → f x ≡ true
  find?_holds f [] x h = absurd (ground arith)
  find?_holds f (y ∷ xs) x h = elim (Bool-cases (f y)) [
    | inl e ↦ ground arith
    | inr e ↦ find?_holds f xs x (ground arith)
  ]

  pub get_elem?-append :
      (xs ys : List A) (i : ℕ)
      → get_elem? (xs ++ ys) i
        ≡ (if ltb i (length xs) then get_elem? xs i else get_elem? ys (i - length xs))
  get_elem?-append [] ys i = ground arith
  get_elem?-append (x ∷ xs) ys zero = ground arith
  get_elem?-append (x ∷ xs) ys (suc i) = ground (arith, get_elem?-append xs ys i)

  pub find_idx-append :
      (f : A → Bool) (xs ys : List A)
      → find_idx f (xs ++ ys) ≡ elim (find_idx f xs) as (λ _. Option ℕ) [
        | some i ↦ some i
        | none ↦ elim (find_idx f ys) [ none ↦ none | some i ↦ some (length xs + i) ]
      ]
  find_idx-append f [] ys = ground arith
  find_idx-append f (x ∷ xs) ys = ground (arith, find_idx-append f xs ys)

  pub find_idx_holds :
      (f : A → Bool) (xs : List A) (i : ℕ)
      → find_idx f xs ≡ some i
      → (x : A) × (get_elem? xs i ≡ some x) × (f x ≡ true)
  find_idx_holds f [] i h = absurd (ground arith)
  find_idx_holds f (x ∷ xs) zero h = (x, refl, ground arith)
  find_idx_holds f (x ∷ xs) (suc i) h = find_idx_holds f xs i (ground arith)

  pub find_idx_never : (xs : List A) → find_idx (λ _. false) xs ≡ none
  find_idx_never [] = refl
  find_idx_never (x ∷ xs) = ground (arith, find_idx_never xs)

module _ {ℓ κ} {A : Type ℓ} {B : Type κ} where
  pub get_elem?-map :
      (f : A → B) (xs : List A) (i : ℕ) → get_elem? (map f xs) i ≡ Option.map f (get_elem? xs i)
  get_elem?-map f [] i = refl
  get_elem?-map f (x ∷ xs) zero = refl
  get_elem?-map f (x ∷ xs) (suc i) = get_elem?-map f xs i

  pub length-map : (f : A → B) (xs : List A) → length (map f xs) ≡ length xs
  length-map f [] = refl
  length-map f (x ∷ xs) = ap suc (length-map f xs)

  pub find_idx-map :
      (f : B → Bool) (g : A → B) (xs : List A) → find_idx f (map g xs) ≡ find_idx (λ x. f (g x)) xs
  find_idx-map f g [] = refl
  find_idx-map f g (x ∷ xs) = ground (arith, find_idx-map f g xs)
