-- ===== src/Queue/Bounds.antt =====
-- src/queue.c: no call reaches past the 100 entries of the array.
use ossim_os.Base.{ℕ, zero, suc, ◌+◌, ◌-◌, ◌≤◌, ◌≡◌, refl, ◌∙◌, inl, inr, arith}
use ossim_os.Base.Tests.{leb, ◌==◌, Bool-cases}
use ossim_os.Base.Lists.{update, update_other}
use ossim_os.Queue.{Queue, enqueue, dequeue, shift_from, remove_at, remove_from_queue}

-- The queue after a call: it fits the array, and the memory behind the array is what it was.
pub record Within (q q' : Queue) : Type 0 where
  pub fits : q'.size ≤ 100
  pub beyond : (i : ℕ) → 100 ≤ i → q'.proc i ≡ q.proc i

shift_from_beyond :
    (rounds i : ℕ) (arr : ℕ → ℕ) (j : ℕ) → i + rounds ≤ j → shift_from rounds i arr j ≡ arr j
unfolding shift_from
shift_from_beyond zero i arr j h = refl
shift_from_beyond (suc rounds) i arr j h =
    shift_from_beyond rounds (i + 1) (update arr i (arr (i + 1))) j (omega (arith, h))
    ∙ update_other arr i (arr (i + 1)) j (λ z. absurd (omega (arith, h, z)))

enqueue-Within : (q : Queue) (p : ℕ) → q.size ≤ 100 → Within q (enqueue q p)
unfolding enqueue
enqueue-Within q p h = elim (Bool-cases (leb 100 q.size)) [
  | inl full ↦ rw full (record { fits = h; beyond = λ i l. refl })
  | inr room ↦ rw room (record {
    fits = ground (arith, room);
    beyond = λ i l. update_other q.proc q.size p i (λ z. absurd (ground (arith, room, l, z)));
  })
]

dequeue-Within : (q : Queue) → q.size ≤ 100 → Within q (dequeue q).1
unfolding dequeue
dequeue-Within q h = elim (Bool-cases (q.size == 0)) [
  | inl e ↦ rw e (record { fits = h; beyond = λ i l. refl })
  | inr e ↦ rw e (record {
    fits = omega (arith, h);
    beyond = λ i l. shift_from_beyond (q.size - 1) 0 q.proc i (omega (arith, h, l));
  })
]

remove_at-Within :
    (left i : ℕ) (q : Queue) (p : ℕ)
    → q.size ≡ i + left
    → q.size ≤ 100
    → Within q (remove_at left i q p).1
unfolding remove_at
remove_at-Within zero i q p e h = record { fits = h; beyond = λ j l. refl }
remove_at-Within (suc left) i q p e h = elim (Bool-cases (q.proc i == p)) [
  | inl hit ↦
      rw (hit, remove_at)
        (record {
          fits = omega (arith, h);
          beyond = λ j l. shift_from_beyond left i q.proc j (omega (arith, e, h, l));
        })
  | inr miss ↦ rw (miss, remove_at) (remove_at-Within left (i + 1) q p (omega (arith, e)) h)
]

-- From a queue of at most MAX_QUEUE_SIZE processes, `enqueue`, `dequeue` and `remove_from_queue` each
-- leave such a queue, and write no memory behind the array of 100 entries.
pub queue-Within :
    (q : Queue) (p : ℕ)
    → q.size ≤ 100
    → Within q (enqueue q p) × Within q (dequeue q).1 × Within q (remove_from_queue q p).1
unfolding remove_from_queue
queue-Within q p h =
    (enqueue-Within q p h, dequeue-Within q h, remove_at-Within q.size 0 q p (omega arith) h)
