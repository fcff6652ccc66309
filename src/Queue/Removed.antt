-- ===== src/Queue/Removed.antt =====
-- src/queue.c, `remove_from_queue`, entry by entry.
use native.Mathlib.Decide.{ℕ_discrete, dec_lt}
use ossim_os.Base.{
  ℕ, zero, suc, ◌+◌, ◌-◌, ◌≤◌, ◌<◌, ◌≡◌, ◌≢◌, refl, sym, ap, ◌∙◌, inl, inr, ◌&&◌, arith,
}
use ossim_os.Base.Tests.{Bool-cases, ◌==◌, ltb, leb, if◌then◌else◌}
use ossim_os.Base.Lists.{update}
use ossim_os.Queue.{Queue, shift_from, remove_at, remove_from_queue}

shift_from_at :
    (rounds i : ℕ) (arr : ℕ → ℕ) (j : ℕ)
    → shift_from rounds i arr j ≡ (if leb i j && ltb j (i + rounds) then arr (j + 1) else arr j)
unfolding shift_from
shift_from_at zero i arr j = ground arith
shift_from_at (suc rounds) i arr j =
    ground (arith, shift_from_at rounds (i + 1) (update arr i (arr (i + 1))) j)

-- The first entry for `p`, at `e`, is out of the queue; those behind it have moved up.
pub record Removed (q : Queue) (p : ℕ) (q' : Queue) : Type 0 where
  pub e : ℕ
  pub first : (j : ℕ) → q.proc j ≡ p → e ≤ j
  pub moved : (j : ℕ) → e ≤ j → j + 1 < q.size → q'.proc j ≡ q.proc (j + 1)
  pub size : q'.size ≡ q.size - 1

remove_at-Removed :
    (left i : ℕ) (q : Queue) (p k : ℕ)
    → i + left ≡ q.size
    → i ≤ k
    → k < q.size
    → q.proc k ≡ p
    → ((j : ℕ) → j < i → q.proc j ≢ p)
    → Removed q p (remove_at left i q p).1
unfolding remove_at
remove_at-Removed zero i q p k s lo hi e before = absurd (omega arith)
remove_at-Removed (suc left) i q p k s lo hi e before = elim (Bool-cases (q.proc i == p)) [
  | inl hit ↦
      rw (hit, remove_at)
        (record {
          e = i;
          first = λ j h. elim (dec_lt j i) [ yes l ↦ absurd (before j l h) | no n ↦ omega arith ];
          moved = λ j l h. ground (arith, shift_from_at left i q.proc j);
          size = refl;
        })
  | inr miss ↦
      let apart : q.proc i ≢ p = λ h. absurd (ground (arith, miss, h)) in
      let below : (j : ℕ) → j < i + 1 → q.proc j ≢ p = λ j l h. elim (ℕ_discrete j i) [
        | yes z ↦ apart (ap q.proc (sym z) ∙ h)
        | no n ↦ before j (omega arith) h
      ] in
      let further : i ≢ k = λ z. apart (ap q.proc z ∙ e) in
      rw (miss, remove_at)
        (remove_at-Removed left (i + 1) q p k (omega arith) (omega (arith, further)) hi e below)
]

pub remove_from_queue-Removed :
    (q : Queue) (p k : ℕ) → k < q.size → q.proc k ≡ p → Removed q p (remove_from_queue q p).1
unfolding remove_from_queue
remove_from_queue-Removed q p k hi e =
    remove_at-Removed q.size 0 q p k (omega arith) (omega arith) hi e (λ j l. absurd (omega arith))
