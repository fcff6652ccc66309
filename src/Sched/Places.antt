-- ===== src/Sched/Places.antt =====
-- src/sched.c: how often a process waits in the ready queues, through each call.
use native.Mathlib.Decide.{ℕ_discrete}
use ossim_os.Base.{
  ℕ, zero, suc, ◌+◌, ◌≤◌, ◌<◌, ◌≡◌, ◌≢◌, refl, sym, ap, ◌∙◌, subst, inl, inr, Option, none, some,
  List, [], ◌∷◌, ◌++◌, arith,
}
use ossim_os.Base.Tests.{◌==◌, leb, if◌then◌else◌, Bool-cases}
use ossim_os.Base.Lists.{count, contains, erase, update, update_same, update_other, length}
use ossim_os.Base.Sums.{total, total_change, total_bound}
use ossim_os.Queue.{Queue, enqueue, dequeue, remove_from_queue}
use ossim_os.Queue.Slice.{contents, slice}
use ossim_os.Queue.Fifo.{push, pop, contents-enqueue, contents-dequeue, contents-remove_from_queue}
use ossim_os.Types.{Pcb}
use ossim_os.Sched.{
  Sched, dispatch, new_round, get_proc, put_mlq_proc, put_proc, add_mlq_proc, add_proc, clamp_prio,
  finish_proc, init_levels, init_scheduler,
}
use ossim_os.Sched.Mlq.{Got, now, later, never, get_mlq_proc-Got}

-- How often process `p` stands in a queue, and in the ready queues together.
abbrev pub stands_in : Queue → ℕ → ℕ
stands_in q p = count p (contents q)

abbrev pub queued : Sched → ℕ → ℕ
queued s p =
    stands_in s.ready_queue p
    + stands_in s.run_queue p
    + total (λ i. stands_in (s.mlq_ready_queue i) p) 140

-- How often the process that a call returns is `p`.
abbrev pub handed : Option ℕ → ℕ → ℕ
handed none p = 0
handed (some q) p = if q == p then 1 else 0

count-append : (p : ℕ) (xs ys : List ℕ) → count p (xs ++ ys) ≡ count p xs + count p ys
count-append p [] ys = omega arith
count-append p (x ∷ xs) ys = omega (arith, count-append p xs ys)

stands_in-enqueue :
    (q : Queue) (x p : ℕ) → stands_in (enqueue q x) p ≤ stands_in q p + (if x == p then 1 else 0)
unfolding push
stands_in-enqueue q x p =
    rw (contents-enqueue q x) (elim (Bool-cases (leb 100 (length (contents q)))) [
      | inl e ↦ rw e (omega arith)
      | inr e ↦ rw e (omega (arith, count-append p (contents q) (x ∷ [])))
    ])

pop-count : (l : List ℕ) (p : ℕ) → count p l ≡ count p (pop l).1 + handed (pop l).0 p
unfolding pop
pop-count [] p = refl
pop-count (x ∷ l) p = omega arith

stands_in-dequeue :
    (q : Queue) (p : ℕ) → stands_in q p ≡ stands_in (dequeue q).1 p + handed (dequeue q).0 p
stands_in-dequeue q p =
    pop-count (contents q) p
    ∙ ap (λ (r : Option ℕ × List ℕ). count p r.1 + handed r.0 p) (sym (contents-dequeue q))

erase-count :
    (l : List ℕ) (x p : ℕ)
    → count p l ≡ count p (erase l x) + (if contains l x then (if x == p then 1 else 0) else 0)
erase-count [] x p = refl
erase-count (y ∷ l) x p = elim (ℕ_discrete y x) [
  | yes e ↦ ground (arith, e)
  | no ne ↦ ground (arith, ne, erase-count l x p)
]

-- `remove_from_queue` takes the process out once, if it is there, and no other.
pub stands_in-remove_from_queue :
    (q : Queue) (x p : ℕ)
    → stands_in q p
      ≡ stands_in (remove_from_queue q x).1 p
        + (if (remove_from_queue q x).0 then (if x == p then 1 else 0) else 0)
stands_in-remove_from_queue q x p =
    let (found, out) = contents-remove_from_queue q x in
    rw (found, out) (erase-count (contents q) x p)

-- A change of one level.
pub queued-level :
    (s : Sched) (i : ℕ) (q : Queue) (p : ℕ)
    → i < 140
    → queued (record s { mlq_ready_queue = update s.mlq_ready_queue i q }) p
        + stands_in (s.mlq_ready_queue i) p
      ≡ queued s p + stands_in q p
queued-level s i q p h =
    let f : ℕ → ℕ = λ j. stands_in (update s.mlq_ready_queue i q j) p in
    let g : ℕ → ℕ = λ j. stands_in (s.mlq_ready_queue j) p in
    let here : f i ≡ stands_in q p = ap (λ r. stands_in r p) (update_same s.mlq_ready_queue i q) in
    let z =
      total_change f g 140 i h
        (λ j ne. ap (λ r. stands_in r p) (update_other s.mlq_ready_queue i q j ne)) in
    omega (arith, z, here)

queued-dispatch :
    (s : Sched) (j p : ℕ)
    → j < 140
    → queued s p ≡ queued (dispatch s j).1 p + handed (dispatch s j).0 p
unfolding dispatch
queued-dispatch s j p h =
    let q = dequeue (s.mlq_ready_queue j) in
    omega (arith, queued-level s j q.1 p h, stands_in-dequeue (s.mlq_ready_queue j) p)

queued-new_round : (s : Sched) (p : ℕ) → queued (new_round s) p ≡ queued s p
unfolding new_round
queued-new_round s p = refl

-- `get_proc` takes the process that it returns out of the ready queues once, and no other.
pub queued-get_proc :
    (s : Sched) (p : ℕ) → queued s p ≡ queued (get_proc s).1 p + handed (get_proc s).0 p
unfolding get_proc
queued-get_proc s p = go (get_mlq_proc-Got s)
  where
    go : {r : Option ℕ × Sched} → Got s r → queued s p ≡ queued r.1 p + handed r.0 p
    go (now j f) = queued-dispatch s j p f.1
    go (later j idle f) = sym (queued-new_round s p) ∙ queued-dispatch (new_round s) j p f.1
    go (never idle idle') = omega (arith, queued-new_round s p, queued-new_round (new_round s) p)

put_mlq_proc-le :
    (s : Sched) (x p : ℕ)
    → (s.table x).prio < 140
    → queued (put_mlq_proc s x) p ≤ queued s p + (if x == p then 1 else 0)
unfolding put_mlq_proc
put_mlq_proc-le s x p h =
    let i = (s.table x).prio in
    omega (
      arith,
      queued-level s i (enqueue (s.mlq_ready_queue i) x) p h,
      stands_in-enqueue (s.mlq_ready_queue i) x p,
    )

-- `put_proc` puts the process in at most once, and no other.
pub put_proc-le :
    (s : Sched) (x p : ℕ)
    → (s.table x).prio < 140
    → queued (put_proc s x) p ≤ queued s p + (if x == p then 1 else 0)
unfolding put_proc
put_proc-le s x p h = put_mlq_proc-le s x p h

clamp_prio-lt : (p : Pcb) → (clamp_prio p).prio < 140
unfolding clamp_prio
clamp_prio-lt p = ground arith

-- So does `add_proc`, for any priority.
pub add_proc-le :
    (s : Sched) (x p : ℕ) → queued (add_proc s x) p ≤ queued s p + (if x == p then 1 else 0)
unfolding add_proc add_mlq_proc
add_proc-le s x p =
    let prio : (update s.table x (clamp_prio (s.table x)) x).prio < 140 =
      subst (λ (q : Pcb). q.prio < 140) (sym (update_same s.table x (clamp_prio (s.table x))))
        (clamp_prio-lt (s.table x)) in
    put_mlq_proc-le _ x p prio

pub queued-finish_proc : (s : Sched) (x p : ℕ) → queued (finish_proc s x) p ≡ queued s p
unfolding finish_proc
queued-finish_proc s x p = refl

dispatch_rest :
    (s : Sched) (j : ℕ)
    → ((dispatch s j).1.running_list ≡ s.running_list) × ((dispatch s j).1.table ≡ s.table)
unfolding dispatch
dispatch_rest s j = (refl, refl)

new_round_rest :
    (s : Sched) → ((new_round s).running_list ≡ s.running_list) × ((new_round s).table ≡ s.table)
unfolding new_round
new_round_rest s = (refl, refl)

-- `get_proc` touches neither the list of those that run nor the processes.
pub get_proc_rest :
    (s : Sched) → ((get_proc s).1.running_list ≡ s.running_list) × ((get_proc s).1.table ≡ s.table)
unfolding get_proc
get_proc_rest s = go (get_mlq_proc-Got s)
  where
    go :
        {r : Option ℕ × Sched}
        → Got s r
        → (r.1.running_list ≡ s.running_list) × (r.1.table ≡ s.table)
    go (now j f) = dispatch_rest s j
    go (later j idle f) =
        let (a, b) = dispatch_rest (new_round s) j in
        let (d, e) = new_round_rest s in (a ∙ d, b ∙ e)
    go (never idle idle') =
        let (a, b) = new_round_rest (new_round s) in let (d, e) = new_round_rest s in (a ∙ d, b ∙ e)

pub put_proc_rest :
    (s : Sched) (x : ℕ)
    → ((put_proc s x).running_list ≡ s.running_list) × ((put_proc s x).table ≡ s.table)
unfolding put_proc put_mlq_proc
put_proc_rest s x = (refl, refl)

-- `add_proc` lists the process at most once more, gives it a valid priority, and changes no other.
pub add_proc_rest :
    (s : Sched) (x : ℕ)
    → ((p : ℕ)
        → stands_in (add_proc s x).running_list p
          ≤ stands_in s.running_list p + (if x == p then 1 else 0))
      × (((add_proc s x).table x).prio < 140)
      × ((p : ℕ) → p ≢ x → (add_proc s x).table p ≡ s.table p)
unfolding add_proc add_mlq_proc put_mlq_proc
add_proc_rest s x = (
  λ p. stands_in-enqueue s.running_list x p,
  subst (λ (q : Pcb). q.prio < 140) (sym (update_same s.table x (clamp_prio (s.table x))))
      (clamp_prio-lt (s.table x)),
  λ p ne. update_other s.table x (clamp_prio (s.table x)) p ne,
)

init_levels_empty :
    (left i : ℕ) (s : Sched) (j : ℕ)
    → j < i + left
    → (j < i → (s.mlq_ready_queue j).size ≡ 0)
    → ((init_levels left i s).mlq_ready_queue j).size ≡ 0
unfolding init_levels
init_levels_empty zero i s j h before = before (omega arith)
init_levels_empty (suc left) i s j h before =
    init_levels_empty left (i + 1) _ j (omega arith) (λ lt. elim (ℕ_discrete i j) [
      | yes e ↦ ground (arith, e)
      | no ne ↦ ground (arith, ne, before (omega (arith, ne)))
    ])

pub init_scheduler_sizes :
    (s : Sched) (i : ℕ) → i < 140 → ((init_scheduler s).mlq_ready_queue i).size ≡ 0
unfolding init_scheduler
init_scheduler_sizes s i h = init_levels_empty 140 0 s i (omega arith) (λ z. absurd (omega arith))

empty-stands_in : (q : Queue) (p : ℕ) → q.size ≡ 0 → stands_in q p ≡ 0
empty-stands_in q p e = ap (λ n. count p (slice q.proc 0 n)) e

total_zero : (f : ℕ → ℕ) (n : ℕ) → ((i : ℕ) → i < n → f i ≡ 0) → total f n ≡ 0
total_zero f n h = omega (arith, total_bound f n 0 (λ i l. omega (arith, h i l)))

-- After `init_scheduler` nothing waits, and nothing runs.
pub init_scheduler_empty :
    (s : Sched) (p : ℕ)
    → (queued (init_scheduler s) p ≡ 0) × (stands_in (init_scheduler s).running_list p ≡ 0)
unfolding init_scheduler
init_scheduler_empty s p =
    let level : total (λ i. stands_in ((init_levels 140 0 s).mlq_ready_queue i) p) 140 ≡ 0 =
      total_zero _ 140 (λ i h.
        empty-stands_in ((init_levels 140 0 s).mlq_ready_queue i) p
          (init_levels_empty 140 0 s i (omega arith) (λ z. absurd (omega arith)))) in
    (omega (arith, level), refl)
