-- ===== src/Sched/Liveness.antt =====
-- src/sched.c: no level starves. The CPUs call `get_proc`; between two calls any number of
-- processes is put back, added or finished.
use mathlib.Core.List.{Mem, mem-cons_self, mem-cons_of_mem}
use ossim_os.Base.{
  ℕ, suc, ◌+◌, ◌≤◌, ◌<◌, ◌≡◌, refl, ap, ◌∙◌, inl, inr, Option, some, List, [], ◌∷◌, ◌++◌, arith,
}
use ossim_os.Base.Tests.{Bool-cases, ◌==◌, leb, ==_iff, if◌then◌else◌}
use ossim_os.Base.Lists.{length}
use ossim_os.Base.Sums.{total_bound}
use ossim_os.Queue.{Queue}
use ossim_os.Queue.Slice.{contents}
use ossim_os.Queue.Fifo.{push, contents-enqueue}
use ossim_os.Sched.{
  Sched, get_mlq_proc, get_proc, put_mlq_proc, put_proc, add_mlq_proc, add_proc, finish_proc,
}
use ossim_os.Sched.Invariant.{
  IsValid, get_mlq_proc-IsValid, put_mlq_proc-IsValid, add_proc-IsValid, finish_proc-IsValid,
}
use ossim_os.Sched.Starvation.{waiting, left_over, get_mlq_proc-Progress}

pub data Event : Type 0 where
  get : Event
  put : ℕ → Event
  add : ℕ → Event
  finish : ℕ → Event

-- The processes that the calls of `get_proc` among the events return.
unfoldable pub dispatched : Sched → List Event → List (Option ℕ)
dispatched s [] = []
dispatched s (get ∷ es) = let (proc, t) = get_proc s in proc ∷ dispatched t es
dispatched s (put p ∷ es) = dispatched (put_proc s p) es
dispatched s (add p ∷ es) = dispatched (add_proc s p) es
dispatched s (finish p ∷ es) = dispatched (finish_proc s p) es

unfoldable pub gets : List Event → ℕ
gets [] = 0
gets (get ∷ es) = suc (gets es)
gets (put p ∷ es) = gets es
gets (add p ∷ es) = gets es
gets (finish p ∷ es) = gets es

-- What is left behind `x` when a process is put at the end of its level.
abbrev behind : ℕ → List ℕ → ℕ → List ℕ
behind x rest q = if leb 100 (length (x ∷ rest)) then rest else rest ++ q ∷ []

push_head : (x : ℕ) (rest : List ℕ) (q : ℕ) → push (x ∷ rest) q ≡ x ∷ behind x rest q
unfolding push
push_head x rest q = elim (Bool-cases (leb 100 (length (x ∷ rest)))) [ inl e ↦ rw e | inr e ↦ rw e ]

-- A put leaves the head of every level where it is.
put_mlq_proc_head :
    (s : Sched) (q p x : ℕ) (rest : List ℕ)
    → contents (s.mlq_ready_queue p) ≡ x ∷ rest
    → (rest' : List ℕ) × (contents ((put_mlq_proc s q).mlq_ready_queue p) ≡ x ∷ rest')
unfolding put_mlq_proc
put_mlq_proc_head s q p x rest h = elim (Bool-cases ((s.table q).prio == p)) [
  | inl e ↦
      let at : (s.table q).prio ≡ p = (==_iff (s.table q).prio p).0 e in
      (
        behind x rest q,
        rw e (
            contents-enqueue (s.mlq_ready_queue (s.table q).prio) q
            ∙ ap (λ l. push l q) (ap (λ k. contents (s.mlq_ready_queue k)) at ∙ h)
            ∙ push_head x rest q),
      )
  | inr e ↦ (rest, rw e h)
]

waiting-put_mlq_proc : (s : Sched) (q p : ℕ) → waiting (put_mlq_proc s q) p ≡ waiting s p
unfolding waiting put_mlq_proc
waiting-put_mlq_proc s q p = refl

-- The other calls do not touch the ready queues of the levels.
waiting-finish_proc : (s : Sched) (q p : ℕ) → waiting (finish_proc s q) p ≡ waiting s p
unfolding waiting finish_proc
waiting-finish_proc s q p = refl

mlq-finish_proc : (s : Sched) (q : ℕ) → (finish_proc s q).mlq_ready_queue ≡ s.mlq_ready_queue
unfolding finish_proc
mlq-finish_proc s q = refl

waiting-add_proc : (s : Sched) (q p : ℕ) → waiting (add_proc s q) p ≡ waiting s p
unfolding waiting add_proc add_mlq_proc put_mlq_proc
waiting-add_proc s q p = refl

add_proc_head :
    (s : Sched) (q p x : ℕ) (rest : List ℕ)
    → contents (s.mlq_ready_queue p) ≡ x ∷ rest
    → (rest' : List ℕ) × (contents ((add_proc s q).mlq_ready_queue p) ≡ x ∷ rest')
unfolding add_proc add_mlq_proc
add_proc_head s q p x rest h = put_mlq_proc_head _ q p x rest h

-- In a scheduler within its budgets, the process at the head of level `p` is among those dispatched by
-- the calls of `get_proc` once there are more of them than `waiting s p`, whatever is put back, added
-- or finished in between.
pub dispatched-head :
    (s : Sched) (es : List Event) (p x : ℕ) (rest : List ℕ)
    → IsValid s
    → p < 140
    → contents (s.mlq_ready_queue p) ≡ x ∷ rest
    → waiting s p < gets es
    → Mem (some x) (dispatched s es)
unfolding dispatched gets put_proc get_proc
dispatched-head s [] p x rest v lt h n = absurd (omega arith)
dispatched-head s (get ∷ es) p x rest v lt h n = elim (get_mlq_proc-Progress s p x rest v lt h) [
  | inl e ↦ rw e mem-cons_self
  | inr m ↦ mem-cons_of_mem _ (
      dispatched-head (get_mlq_proc s).1 es p x rest (get_mlq_proc-IsValid s v) lt m.0
        (omega (arith, m.1)))
]
dispatched-head s (put q ∷ es) p x rest v lt h n =
    let (rest', h') = put_mlq_proc_head s q p x rest h in
    dispatched-head (put_mlq_proc s q) es p x rest' (put_mlq_proc-IsValid s q v) lt h'
      (omega (arith, waiting-put_mlq_proc s q p))
dispatched-head s (add q ∷ es) p x rest v lt h n =
    let (rest', h') = add_proc_head s q p x rest h in
    dispatched-head (add_proc s q) es p x rest' (add_proc-IsValid s q v) lt h'
      (omega (arith, waiting-add_proc s q p))
dispatched-head s (finish q ∷ es) p x rest v lt h n =
    dispatched-head (finish_proc s q) es p x rest (finish_proc-IsValid s q v) lt
      (ap (λ (f : ℕ → Queue). contents (f p)) (mlq-finish_proc s q) ∙ h)
      (omega (arith, waiting-finish_proc s q p))

waiting-le : (s : Sched) (p : ℕ) → IsValid s → p < 140 → waiting s p ≤ 39200 + 1
unfolding waiting
waiting-le s p v lt = ground (
  arith,
  total_bound (left_over s) 140 140 (λ i h. omega (arith, (v i h).slots)),
  total_bound s.slot p 140 (λ i h. omega (arith, (v i (omega arith)).slots)),
  total_bound (left_over s) p 140 (λ i h. omega (arith, (v i (omega arith)).slots)),
)

-- So no level starves: in a scheduler within its budgets, the head of any level is among the processes
-- that 39202 calls of `get_proc` dispatch, whatever is put back, added or finished in between.
pub no_starvation :
    (s : Sched) (es : List Event) (p x : ℕ) (rest : List ℕ)
    → IsValid s
    → p < 140
    → contents (s.mlq_ready_queue p) ≡ x ∷ rest
    → 39202 ≤ gets es
    → Mem (some x) (dispatched s es)
no_starvation s es p x rest v lt h n =
    dispatched-head s es p x rest v lt h (omega (arith, waiting-le s p v lt))
