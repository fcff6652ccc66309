-- ===== src/Sched/Invariant.antt =====
-- src/sched.c: the budget of dispatches that each level has in a round.
use native.Mathlib.Decide.{dec_lt}
use ossim_os.Base.{ℕ, zero, suc, ◌+◌, ◌-◌, ◌≤◌, ◌<◌, ◌≡◌, refl, ap, ◌∙◌, true, Option, arith}
use ossim_os.Sched.{
  Sched, can_dispatch, dispatch, new_round, get_mlq_proc, init_levels, init_scheduler, put_mlq_proc,
  add_mlq_proc, add_proc, finish_proc,
}
use ossim_os.Sched.Mlq.{Got, now, later, never, get_mlq_proc-Got, slot_used-new_round}

-- Level `i` may dispatch 140 - i times in a round, and has not dispatched more often.
pub record InBudget (s : Sched) (i : ℕ) : Type 0 where
  pub slots : s.slot i ≡ 140 - i
  pub within : s.slot_used i ≤ s.slot i

abbrev pub IsValid : Sched → Type 0
IsValid s = (i : ℕ) → i < 140 → InBudget s i

init_levels_above :
    (left i : ℕ) (s : Sched) (j : ℕ) → j < i → InBudget s j → InBudget (init_levels left i s) j
unfolding init_levels
init_levels_above zero i s j h b = b
init_levels_above (suc left) i s j h b =
    init_levels_above left (i + 1) _ j (omega arith)
      (record { slots = ground (arith, b.slots); within = ground (arith, b.within) })

init_levels_within :
    (left i : ℕ) (s : Sched) (j : ℕ) → i ≤ j → j < i + left → InBudget (init_levels left i s) j
unfolding init_levels
init_levels_within zero i s j lo hi = absurd (omega arith)
init_levels_within (suc left) i s j lo hi = elim (dec_lt i j) [
  | yes h ↦ init_levels_within left (i + 1) _ j (omega arith) (omega arith)
  | no h ↦
      let e : i ≡ j = omega arith in
      init_levels_above left (i + 1) _ j (omega arith)
        (record { slots = ground arith; within = ground arith })
]

-- After `init_scheduler` each level i has 140 - i slots, and has used no more than it has.
pub init_scheduler-IsValid : (s : Sched) → IsValid (init_scheduler s)
unfolding init_scheduler
init_scheduler-IsValid s i h =
    let b = init_levels_within 140 0 s i (omega arith) (omega arith) in
    record { slots = b.slots; within = b.within }

-- The calls that put processes in or drop them leave the budget alone.
pub put_mlq_proc-IsValid : (s : Sched) (p : ℕ) → IsValid s → IsValid (put_mlq_proc s p)
unfolding put_mlq_proc
put_mlq_proc-IsValid s p v i h = record { slots = (v i h).slots; within = (v i h).within }

pub add_proc-IsValid : (s : Sched) (p : ℕ) → IsValid s → IsValid (add_proc s p)
unfolding add_proc add_mlq_proc
add_proc-IsValid s p v =
    put_mlq_proc-IsValid _ p (λ i h. record { slots = (v i h).slots; within = (v i h).within })

pub finish_proc-IsValid : (s : Sched) (p : ℕ) → IsValid s → IsValid (finish_proc s p)
unfolding finish_proc
finish_proc-IsValid s p v i h = record { slots = (v i h).slots; within = (v i h).within }

slot-new_round : (s : Sched) → (new_round s).slot ≡ s.slot
unfolding new_round
slot-new_round s = refl

pub mlq-new_round : (s : Sched) → (new_round s).mlq_ready_queue ≡ s.mlq_ready_queue
unfolding new_round
mlq-new_round s = refl

pub new_round-IsValid : (s : Sched) → IsValid s → IsValid (new_round s)
new_round-IsValid s v i h = record {
  slots = ap (λ (f : ℕ → ℕ). f i) (slot-new_round s) ∙ (v i h).slots;
  within = omega (arith, slot_used-new_round s i h);
}

dispatch-IsValid :
    (s : Sched) (j : ℕ) → can_dispatch s j ≡ true → IsValid s → IsValid (dispatch s j).1
unfolding can_dispatch dispatch
dispatch-IsValid s j c v i h = record {
  slots = (v i h).slots;
  within = ground (arith, (v i h).within);
}

-- `get_mlq_proc` keeps the budgets: no level has more than its 140 - i slots, or has dispatched more
-- often than that in the round.
pub get_mlq_proc-IsValid : (s : Sched) → IsValid s → IsValid (get_mlq_proc s).1
get_mlq_proc-IsValid s v = go (get_mlq_proc-Got s)
  where
    go : {r : Option ℕ × Sched} → Got s r → IsValid r.1
    go (now j f) = dispatch-IsValid s j f.2 v
    go (later j idle f) = dispatch-IsValid (new_round s) j f.2 (new_round-IsValid s v)
    go (never idle idle') = new_round-IsValid (new_round s) (new_round-IsValid s v)
