-- ===== src/Queue/Slice.antt =====
-- src/queue.c: the entries of the array as a list, and what the shifting loop does to it.
use mathlib.Core.Path.{ap₂}
use ossim_os.Base.{
  ℕ, zero, suc, ◌+◌, ◌≤◌, ◌<◌, ◌≡◌, refl, ap, ◌∙◌, List, [], ◌∷◌, ◌++◌, ◌⊎◌, inl, inr, arith,
}
use ossim_os.Base.Lists.{length, update}
use ossim_os.Queue.{Queue, shift_from}

-- The `n` entries of the array from index `i` on.
abbrev pub slice : (ℕ → ℕ) → ℕ → ℕ → List ℕ
slice arr i zero = []
slice arr i (suc n) = arr i ∷ slice arr (i + 1) n

-- The processes of the queue, the oldest first.
abbrev pub contents : Queue → List ℕ
contents q = slice q.proc 0 q.size

pub length-slice : (arr : ℕ → ℕ) (i n : ℕ) → length (slice arr i n) ≡ n
length-slice arr i zero = refl
length-slice arr i (suc n) = ap suc (length-slice arr (i + 1) n)

pub slice-update_out :
    (arr : ℕ → ℕ) (j v i n : ℕ) → (j < i) ⊎ (i + n ≤ j) → slice (update arr j v) i n ≡ slice arr i n
slice-update_out arr j v i zero h = refl
slice-update_out arr j v i (suc n) h = ground (arith, slice-update_out arr j v (i + 1) n (out h))
  where
    out : (j < i) ⊎ (i + suc n ≤ j) → (j < i + 1) ⊎ (i + 1 + n ≤ j)
    out (inl k) = inl (omega arith)
    out (inr k) = inr (omega arith)

pub slice_snoc : (arr : ℕ → ℕ) (i n : ℕ) → slice arr i (suc n) ≡ slice arr i n ++ arr (i + n) ∷ []
slice_snoc arr i zero = ap (λ k. arr k ∷ []) (omega arith)
slice_snoc arr i (suc n) =
    ap (λ l. arr i ∷ l)
      (slice_snoc arr (i + 1) n ∙ ap (λ k. slice arr (i + 1) n ++ arr k ∷ []) (omega arith))

pub slice_split :
    (arr : ℕ → ℕ) (i m n : ℕ) → slice arr i (m + n) ≡ slice arr i m ++ slice arr (i + m) n
slice_split arr i zero n =
    let e : 0 + n ≡ n = omega arith in let f : i + 0 ≡ i = omega arith in rw (e, f)
slice_split arr i (suc m) n =
    let e : suc m + n ≡ suc (m + n) = omega arith in
    let f : i + 1 + m ≡ i + suc m = omega arith in
    ap (slice arr i) e
    ∙ ap (λ l. arr i ∷ l)
        (slice_split arr (i + 1) m n ∙ ap (λ k. slice arr (i + 1) m ++ slice arr k n) f)

shift_from_below : (rounds i : ℕ) (arr : ℕ → ℕ) (j : ℕ) → j < i → shift_from rounds i arr j ≡ arr j
unfolding shift_from
shift_from_below zero i arr j h = refl
shift_from_below (suc rounds) i arr j h =
    ground (arith, shift_from_below rounds (i + 1) (update arr i (arr (i + 1))) j)

-- The loop leaves the entries below `i` alone.
pub slice-shift_from_below :
    (rounds i : ℕ) (arr : ℕ → ℕ) (k n : ℕ)
    → k + n ≤ i
    → slice (shift_from rounds i arr) k n ≡ slice arr k n
unfolding shift_from
slice-shift_from_below zero i arr k n h = refl
slice-shift_from_below (suc rounds) i arr k n h =
    slice-shift_from_below rounds (i + 1) (update arr i (arr (i + 1))) k n (omega arith)
    ∙ slice-update_out arr i (arr (i + 1)) k n (inr h)

-- The loop moves the entries above `i` down by one.
pub slice-shift_from :
    (rounds i : ℕ) (arr : ℕ → ℕ)
    → slice (shift_from rounds i arr) i rounds ≡ slice arr (i + 1) rounds
unfolding shift_from
slice-shift_from zero i arr = refl
slice-shift_from (suc rounds) i arr =
    let arr' = update arr i (arr (i + 1)) in
    ap₂ ◌∷◌ (shift_from_below rounds (i + 1) arr' i (omega arith) ∙ ground arith) (
      slice-shift_from rounds (i + 1) arr'
      ∙ slice-update_out arr i (arr (i + 1)) (i + 1 + 1) rounds (inl (omega arith)))

-- Writing just past the entries appends one.
pub slice-update_end :
    (arr : ℕ → ℕ) (n p : ℕ) → slice (update arr n p) 0 (n + 1) ≡ slice arr 0 n ++ p ∷ []
slice-update_end arr n p =
    let e : n + 1 ≡ suc n = omega arith in
    let f : 0 + n ≡ n = omega arith in
    ap (slice (update arr n p) 0) e
    ∙ slice_snoc (update arr n p) 0 n
    ∙ ap₂ (λ l x. l ++ x ∷ []) (slice-update_out arr n p 0 n (inr (omega arith)))
        (ap (update arr n p) f ∙ ground arith)
