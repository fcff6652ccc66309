-- ===== src/Base/Sums.antt =====
-- Sums of the first values of a function.
use Prim.Native.Nat.{ℕ, zero, suc, ◌+◌, ◌*◌, ◌≤◌, ◌<◌}
use native.Mathlib.Decide.{ℕ_discrete, dec_lt}
use native.Mathlib.Omega.{arith}
use mathlib.Core.Path.{◌≡◌, refl, ap, subst}
use mathlib.Core.Logic.{◌≢◌}

unfoldable pub total : (ℕ → ℕ) → ℕ → ℕ
total f zero = 0
total f (suc n) = total f n + f n

pub total_mono : (f g : ℕ → ℕ) (n : ℕ) → ((i : ℕ) → i < n → f i ≤ g i) → total f n ≤ total g n
unfolding total
total_mono f g zero h = omega arith
total_mono f g (suc n) h =
    omega (arith, total_mono f g n (λ i l. h i (omega arith)), h n (omega arith))

pub total_same : (f g : ℕ → ℕ) (n : ℕ) → ((i : ℕ) → i < n → f i ≡ g i) → total f n ≡ total g n
unfolding total
total_same f g zero h = refl
total_same f g (suc n) h =
    omega (arith, total_same f g n (λ i l. h i (omega arith)), h n (omega arith))

-- A sum falls if one of its terms does and no other grows.
pub total_drop :
    (f g : ℕ → ℕ) (n j : ℕ)
    → j < n
    → f j < g j
    → ((i : ℕ) → i < n → f i ≤ g i)
    → total f n < total g n
unfolding total
total_drop f g zero j l d h = absurd (omega arith)
total_drop f g (suc n) j l d h = elim (dec_lt j n) [
  | yes b ↦ omega (arith, total_drop f g n j b d (λ i k. h i (omega arith)), h n (omega arith))
  | no b ↦
      let e : j ≡ n = omega arith in
      let last : f n < g n = subst (λ k. f k < g k) e d in
      omega (arith, total_mono f g n (λ i k. h i (omega arith)), last)
]

pub total_bound : (f : ℕ → ℕ) (n b : ℕ) → ((i : ℕ) → i < n → f i ≤ b) → total f n ≤ n * b
unfolding total
total_bound f zero b h = omega arith
total_bound f (suc n) b h =
    omega (arith, total_bound f n b (λ i l. h i (omega arith)), h n (omega arith))

-- A term is no more than the sum.
pub total_term : (f : ℕ → ℕ) (n i : ℕ) → i < n → f i ≤ total f n
unfolding total
total_term f zero i h = absurd (omega arith)
total_term f (suc n) i h = elim (dec_lt i n) [
  | yes b ↦ omega (arith, total_term f n i b)
  | no b ↦
      let e : i ≡ n = omega arith in
      let last : f i ≤ f n = subst (λ k. f i ≤ f k) e (omega arith) in omega (arith, last)
]

-- A positive sum has a positive term.
pub total_find : (f : ℕ → ℕ) (n : ℕ) → 0 < total f n → (i : ℕ) × (i < n) × (0 < f i)
unfolding total
total_find f zero h = absurd (omega arith)
total_find f (suc n) h = elim (dec_lt 0 (f n)) [
  | yes b ↦ (n, omega arith, b)
  | no b ↦ let (i, l, p) = total_find f n (omega arith) in (i, omega (arith, l), p)
]

-- At most one term is positive, and it is at most 1.
pub total_one :
    (f : ℕ → ℕ) (n : ℕ)
    → ((i : ℕ) → f i ≤ 1)
    → ((i j : ℕ) → 0 < f i → 0 < f j → i ≡ j)
    → total f n ≤ 1
unfolding total
total_one f zero one alone = omega arith
total_one f (suc n) one alone = elim (dec_lt 0 (total f n)) [
  | yes b ↦
      let (i, l, p) = total_find f n b in
      elim (dec_lt 0 (f n)) [
        | yes d ↦ absurd (omega (arith, alone i n p d, l))
        | no d ↦ omega (arith, total_one f n one alone)
      ]
  | no b ↦ omega (arith, one n)
]

-- A change of one term.
pub total_change :
    (f g : ℕ → ℕ) (n j : ℕ)
    → j < n
    → ((i : ℕ) → i ≢ j → f i ≡ g i)
    → total f n + g j ≡ total g n + f j
unfolding total
total_change f g zero j l same = absurd (omega arith)
total_change f g (suc n) j l same = elim (ℕ_discrete n j) [
  | yes e ↦
      let below = total_same f g n (λ i h. same i (λ z. absurd (omega arith))) in
      let at_f : f n ≡ f j = ap f e in
      let at_g : g n ≡ g j = ap g e in omega (arith, below, at_f, at_g)
  | no ne ↦ omega (arith, total_change f g n j (omega arith) same, same n ne)
]

-- Two terms are no more than the sum.
pub total_two : (f : ℕ → ℕ) (n i j : ℕ) → i < n → j < n → i ≢ j → f i + f j ≤ total f n
unfolding total
total_two f zero i j h k ne = absurd (omega arith)
total_two f (suc n) i j h k ne = elim (ℕ_discrete i n) [
  | yes e ↦
      let last : f i ≡ f n = ap f e in omega (arith, last, total_term f n j (omega (arith, e, ne)))
  | no nei ↦ elim (ℕ_discrete j n) [
    | yes e ↦
        let last : f j ≡ f n = ap f e in omega (arith, last, total_term f n i (omega (arith, nei)))
    | no nej ↦ omega (arith, total_two f n i j (omega (arith, nei)) (omega (arith, nej)) ne)
  ]
]
