-- ===== src/Text/NumberLaws.antt =====
-- A `usize` written in decimal is read back.
use termherd.Prelude.{
  ℕ, zero, suc, ◌+◌, ◌*◌, ◌/◌, ◌%◌, ◌^◌, ◌<◌, ◌≤◌, ◌≡◌, inl, inr, refl, [], ◌∷◌, ◌++◌, Option, some,
  arith, ltb, Bool-cases,
}
use termherd.Text.{Text}
use termherd.Text.Numbers.{decimal_steps, decimal, push_digit, push_digits, parse_usize}

push_digits-append :
    (n : Option ℕ) (s : Text) (c : ℕ)
    → push_digits n (s ++ (c ∷ [])) ≡ push_digit (push_digits n s) c
push_digits-append n [] c = refl
push_digits-append n (d ∷ s) c = push_digits-append (push_digit n d) s c

power_step : (f : ℕ) → 10 ^ suc f ≡ 10 * 10 ^ f
power_step f = omega arith

push_digits-decimal :
    (f n : ℕ) → n < 10 ^ f → n < 2 ^ 64 → push_digits (some 0) (decimal_steps f n) ≡ some n
push_digits-decimal zero n h b = ground arith
push_digits-decimal (suc f) n h b = elim (Bool-cases (ltb n 10)) [
  | inl e ↦ rw e (ground arith)
  | inr e ↦ rw e (
      rw (push_digits-append (some 0) (decimal_steps f (n / 10)) (48 + n % 10)) (
        rw (push_digits-decimal f (n / 10) (omega (arith, power_step f)) (omega arith))
          (ground arith)))
]

decimal_steps-cons :
    (f n : ℕ) → (c : ℕ) × ((cs : Text) × ((decimal_steps (suc f) n ≡ c ∷ cs) × (48 ≤ c)))
decimal_steps-cons zero n = elim (Bool-cases (ltb n 10)) [
  | inl e ↦ (48 + n, ([], (rw e refl, omega arith)))
  | inr e ↦ (48 + n % 10, ([], (rw e refl, omega arith)))
]
decimal_steps-cons (suc f) n = elim (Bool-cases (ltb n 10)) [
  | inl e ↦ (48 + n, ([], (rw e refl, omega arith)))
  | inr e ↦
      let (c, (cs, (above, low))) = decimal_steps-cons f (n / 10) in
      (c, (cs ++ ((48 + n % 10) ∷ []), (rw e (rw above refl), low)))
]

pub parse_usize-decimal : (n : ℕ) → n < 2 ^ 64 → parse_usize (decimal n) ≡ some n
unfolding parse_usize decimal
parse_usize-decimal n h =
    let (c, (cs, (e, low))) = decimal_steps-cons 19 n in
    let value = push_digits-decimal 20 n (omega arith) h in rw e (ground (arith, value, e, low))
