-- ===== src/Base/Bits.antt =====
-- The bitwise operations at variables: how they act on the lowest digit, and masks of adjacent ones.
use Prim.Native.Nat.{
  ℕ, zero, suc, ◌+◌, ◌-◌, ◌*◌, ◌/◌, ◌%◌, ◌^◌, ◌≤◌, ◌<◌, min, max, bit_and, bit_or, digits,
  bit_and-bitwise, bit_or-bitwise,
}
use mathlib.Core.Path.{◌≡◌, refl, sym, ap, ◌∙◌}
use native.Mathlib.Nat.{
  pow-suc, div-div-eq-div-mul, mul_comm, mul_assoc, mod-eq-sub-div-mul, div-mul-le_self,
}
use native.Mathlib.Omega.{arith}

-- An operation `f` on digits, where `z` is what is left once the first number has run out.
module _ (z : ℕ → ℕ) (f : ℕ → ℕ → ℕ) (out : (b : ℕ) → z b ≡ z (b / 2) * 2 + f 0 (b % 2)) where
  digits_count : (n m a b : ℕ) → a ≤ n → a ≤ m → digits z f n a b ≡ digits z f m a b
  digits_count zero zero a b p q = refl
  digits_count zero (suc m) zero b p q = refl
  digits_count zero (suc m) (suc a) b p q = absurd (omega arith)
  digits_count (suc n) zero zero b p q = refl
  digits_count (suc n) zero (suc a) b p q = absurd (omega arith)
  digits_count (suc n) (suc m) zero b p q = refl
  digits_count (suc n) (suc m) (suc a) b p q =
      ap (λ k. k * 2 + f (suc a % 2) (b % 2))
        (digits_count n m (suc a / 2) (b / 2) (omega arith) (omega arith))

  digits_step :
      (a b : ℕ) → digits z f a a b ≡ digits z f (a / 2) (a / 2) (b / 2) * 2 + f (a % 2) (b % 2)
  digits_step zero b = out b
  digits_step (suc a) b =
      ap (λ k. k * 2 + f (suc a % 2) (b % 2))
        (digits_count a (suc a / 2) (suc a / 2) (b / 2) (omega arith) (omega arith))

pub bit_and_digit : (a b : ℕ) → bit_and a b ≡ bit_and (a / 2) (b / 2) * 2 + min (a % 2) (b % 2)
bit_and_digit a b =
    bit_and-bitwise a b
    ∙ digits_step (λ _. 0) min (λ k. omega arith) a b
    ∙ ap (λ k. k * 2 + min (a % 2) (b % 2)) (sym (bit_and-bitwise (a / 2) (b / 2)))

pub bit_or_digit : (a b : ℕ) → bit_or a b ≡ bit_or (a / 2) (b / 2) * 2 + max (a % 2) (b % 2)
bit_or_digit a b =
    bit_or-bitwise a b
    ∙ digits_step (λ k. k) max (λ k. omega arith) a b
    ∙ ap (λ k. k * 2 + max (a % 2) (b % 2)) (sym (bit_or-bitwise (a / 2) (b / 2)))

zero-bit_and : (b : ℕ) → bit_and 0 b ≡ 0
zero-bit_and b = bit_and-bitwise 0 b

zero-bit_or : (b : ℕ) → bit_or 0 b ≡ b
zero-bit_or b = bit_or-bitwise 0 b

-- Every digit counts as often on the left as on the right.
or_and_fuel : (n a b : ℕ) → a ≤ n → bit_or a b + bit_and a b ≡ a + b
or_and_fuel n zero b h = omega (arith, zero-bit_and b, zero-bit_or b)
or_and_fuel zero (suc a) b h = absurd (omega arith)
or_and_fuel (suc n) (suc a) b h = omega (
  arith,
  bit_and_digit (suc a) b,
  bit_or_digit (suc a) b,
  or_and_fuel n (suc a / 2) (b / 2) (omega arith),
)

pub bit_or-bit_and : (a b : ℕ) → bit_or a b + bit_and a b ≡ a + b
bit_or-bit_and a b = or_and_fuel a a b (omega arith)

bit_and-zero_fuel : (n a : ℕ) → a ≤ n → bit_and a 0 ≡ 0
bit_and-zero_fuel n zero h = zero-bit_and 0
bit_and-zero_fuel zero (suc a) h = absurd (omega arith)
bit_and-zero_fuel (suc n) (suc a) h =
    omega (arith, bit_and_digit (suc a) 0, bit_and-zero_fuel n (suc a / 2) (omega arith))

pub bit_and-zero : (a : ℕ) → bit_and a 0 ≡ 0
bit_and-zero a = bit_and-zero_fuel a a (omega arith)

-- The remainder by twice P, digit by digit.
mod_double : (a P : ℕ) → a % (P * 2) ≡ a / 2 % P * 2 + a % 2
mod_double a P =
    let e : a / 2 / P ≡ a / (P * 2) = div-div-eq-div-mul a 2 P ∙ ap (λ k. a / k) (mul_comm 2 P) in
    omega (
      arith,
      mod-eq-sub-div-mul a (P * 2),
      mod-eq-sub-div-mul (a / 2) P,
      e,
      div-mul-le_self a (P * 2),
      div-mul-le_self (a / 2) P,
      ap (λ k. k * P) e,
    )

pow_pos : (k : ℕ) → 0 < 2 ^ k
pow_pos zero = omega arith
pow_pos (suc k) = omega (arith, pow-suc 2 k, pow_pos k)

-- A mask of the k lowest digits takes the remainder.
pub bit_and_ones : (k a : ℕ) → bit_and a (2 ^ k - 1) ≡ a % 2 ^ k
bit_and_ones zero a = omega (arith, bit_and-zero a)
bit_and_ones (suc k) a =
    let half : (2 ^ k * 2 - 1) / 2 ≡ 2 ^ k - 1 = omega (arith, pow_pos k) in
    rw
      (
        pow-suc 2 k,
        mod_double a (2 ^ k),
        bit_and_digit a (2 ^ k * 2 - 1),
        half,
        bit_and_ones k (a / 2),
      )
      (omega (arith, pow_pos k))

bit_and_double : (a x : ℕ) → bit_and a (x * 2) ≡ bit_and (a / 2) x * 2
bit_and_double a x =
    let half : x * 2 / 2 ≡ x = omega arith in bit_and_digit a (x * 2) ∙ rw half (omega arith)

-- A mask shifted up by l digits.
pub bit_and_shifted : (l a m : ℕ) → bit_and a (m * 2 ^ l) ≡ bit_and (a / 2 ^ l) m * 2 ^ l
bit_and_shifted zero a m =
    let e : m * 2 ^ 0 ≡ m = omega arith in
    let f : a / 2 ^ 0 ≡ a = omega arith in rw (e, f) (omega arith)
bit_and_shifted (suc l) a m =
    let e : m * (2 ^ l * 2) ≡ m * 2 ^ l * 2 = sym (mul_assoc m (2 ^ l) 2) in
    let f : a / 2 / 2 ^ l ≡ a / (2 ^ l * 2) =
      div-div-eq-div-mul a 2 (2 ^ l) ∙ ap (λ k. a / k) (mul_comm 2 (2 ^ l)) in
    rw (pow-suc 2 l, e, bit_and_double a (m * 2 ^ l), bit_and_shifted l (a / 2) m, f)
      (mul_assoc (bit_and (a / (2 ^ l * 2)) m) (2 ^ l) 2)

-- A mask and its complement in k digits.
pub bit_and_complement :
    (k a m : ℕ) → m < 2 ^ k → bit_and a m + bit_and a (2 ^ k - 1 - m) ≡ a % 2 ^ k
bit_and_complement zero a m h = let e : m ≡ 0 = omega arith in rw e (omega (arith, bit_and-zero a))
bit_and_complement (suc k) a m h =
    let low : m < 2 ^ k * 2 = omega (arith, pow-suc 2 k) in
    let half : (2 ^ k * 2 - 1 - m) / 2 ≡ 2 ^ k - 1 - m / 2 = omega arith in
    rw
      (
        pow-suc 2 k,
        mod_double a (2 ^ k),
        bit_and_digit a (2 ^ k * 2 - 1 - m),
        half,
        bit_and_digit a m,
      )
      (omega (arith, bit_and_complement k (a / 2) (m / 2) (omega arith)))

half-bit_and : (a b : ℕ) → bit_and a b / 2 ≡ bit_and (a / 2) (b / 2)
half-bit_and a b = omega (arith, bit_and_digit a b)

digit-bit_and : (a b : ℕ) → bit_and a b % 2 ≡ min (a % 2) (b % 2)
digit-bit_and a b = omega (arith, bit_and_digit a b)

-- What stands under a mask and what stands under its complement meet nowhere.
pub bit_and_disjoint : (k a b c m : ℕ) → c + m + 1 ≡ 2 ^ k → bit_and (bit_and a c) (bit_and b m) ≡ 0
bit_and_disjoint zero a b c m h =
    let e : m ≡ 0 = omega arith in rw (e, bit_and-zero b, bit_and-zero (bit_and a c))
bit_and_disjoint (suc k) a b c m h =
    let p : c + m + 1 ≡ 2 ^ k * 2 = h ∙ pow-suc 2 k in
    let ih = bit_and_disjoint k (a / 2) (b / 2) (c / 2) (m / 2) (omega arith) in
    rw (bit_and_digit (bit_and a c) (bit_and b m), half-bit_and a c, half-bit_and b m, ih)
      (omega (arith, digit-bit_and a c, digit-bit_and b m))
