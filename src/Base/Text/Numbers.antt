-- ===== src/Base/Text/Numbers.antt =====
-- What a decimal number is read from, and its characters.
use Prim.Native.Nat.{ℕ, zero, suc, ◌+◌, ◌*◌, ◌-◌, ◌/◌, ◌%◌, ◌^◌, ◌<◌, ◌≤◌}
use mathlib.Core.Path.{◌≡◌, ap, ◌∙◌}
use mathlib.Core.Bool.{true, false}
use mathlib.Core.Logic.{inl, inr}
use mathlib.Core.List.{[], ◌∷◌}
use native.Mathlib.Omega.{arith}
use telematica_telemetria.Base.Lists.{All, length}
use telematica_telemetria.Base.Tests.{leb, Bool-cases}
use telematica_telemetria.Base.Text.{Text, digits, show_nat, more_digits, is_digit}

more_digits-digit :
    (k d : ℕ) (out : Text) → d ≤ 9 → more_digits k ((b'0' + d) ∷ out) ≡ more_digits (k * 10 + d) out
unfolding more_digits
more_digits-digit k d out h =
    let back : b'0' + d - b'0' ≡ d = omega arith in
    ground (arith, ap (λ t. more_digits (k * 10 + t) out) back)

more_digits-digits :
    (fuel n : ℕ) (out : Text) → n < fuel → more_digits 0 (digits fuel n out) ≡ more_digits n out
unfolding digits
more_digits-digits zero n out h = absurd (omega arith)
more_digits-digits (suc fuel) n out h =
    let digit = λ (k : ℕ). more_digits-digit k (n % 10) out (omega arith) in
    elim (Bool-cases (leb n 9)) [
      | inl e ↦
          let small : 0 * 10 + n % 10 ≡ n = ground arith in
          rw (digits, e) (digit 0 ∙ ap (λ t. more_digits t out) small)
      | inr e ↦
          let large : n / 10 * 10 + n % 10 ≡ n = omega arith in
          rw (digits, e)
            (more_digits-digits fuel (n / 10) ((b'0' + n % 10) ∷ out) (ground arith)
              ∙ digit (n / 10)
              ∙ ap (λ t. more_digits t out) large)
    ]

-- a number reads back
pub more_digits-show_nat : (n : ℕ) → more_digits 0 (show_nat n) ≡ (n, [])
unfolding show_nat more_digits
more_digits-show_nat n = more_digits-digits (suc n) n [] (omega arith)

-- the characters of a number
All-digits :
    (fuel n : ℕ) (out : Text)
    → All (λ c. is_digit c ≡ true) out
    → All (λ c. is_digit c ≡ true) (digits fuel n out)
unfolding digits
All-digits zero n out h = h
All-digits (suc fuel) n out h =
    let digit : is_digit (b'0' + n % 10) ≡ true = ground arith in
    elim (Bool-cases (leb n 9)) [
      | inl e ↦ rw (digits, e) (digit, h)
      | inr e ↦ rw (digits, e) (All-digits fuel (n / 10) ((b'0' + n % 10) ∷ out) (digit, h))
    ]

pub All-show_nat : (n : ℕ) → All (λ c. is_digit c ≡ true) (show_nat n)
unfolding show_nat
All-show_nat n = All-digits (suc n) n [] tt

-- ten to the power of the digits
power : ℕ → ℕ
power zero = 1
power (suc k) = power k * 10

length-digits :
    (fuel n k : ℕ) (out : Text)
    → n < power (suc k)
    → length (digits fuel n out) ≤ suc k + length out
unfolding digits power
length-digits zero n k out h = omega arith
length-digits (suc fuel) n k out h = elim (Bool-cases (leb n 9)) [
  | inl e ↦ rw (digits, e) (omega arith)
  | inr e ↦ rw (digits, e) (go k h e (λ j. length-digits fuel (n / 10) j ((b'0' + n % 10) ∷ out)))
]
  where
    go :
        (k : ℕ)
        → n < power (suc k)
        → leb n 9 ≡ false
        → ((j : ℕ)
            → n / 10 < power (suc j)
            → length (digits fuel (n / 10) ((b'0' + n % 10) ∷ out))
              ≤ suc j + length ((b'0' + n % 10) ∷ out))
        → length (digits fuel (n / 10) ((b'0' + n % 10) ∷ out)) ≤ suc k + length out
    go zero h e rec = absurd (ground arith)
    go (suc k) h e rec = omega (arith, rec k (omega arith))

-- a number of 63 bits has nineteen digits at most
pub length-show_nat : (n : ℕ) → n < 2 ^ 63 → length (show_nat n) ≤ 19
unfolding show_nat power
length-show_nat n h = omega (arith, length-digits (suc n) n 18 [] (omega arith))

length-digits-ge : (fuel n : ℕ) (out : Text) → length out ≤ length (digits fuel n out)
unfolding digits
length-digits-ge zero n out = omega arith
length-digits-ge (suc fuel) n out = elim (Bool-cases (leb n 9)) [
  | inl e ↦ rw (digits, e) (omega arith)
  | inr e ↦ rw (digits, e) (omega (arith, length-digits-ge fuel (n / 10) ((b'0' + n % 10) ∷ out)))
]

-- a number has a digit
pub length-show_nat_pos : (n : ℕ) → 0 < length (show_nat n)
unfolding show_nat digits
length-show_nat_pos n = elim (Bool-cases (leb n 9)) [
  | inl e ↦ rw (digits, e) (omega arith)
  | inr e ↦ rw (digits, e) (omega (arith, length-digits-ge n (n / 10) ((b'0' + n % 10) ∷ [])))
]
