-- ===== src/Tests/Scheduled.antt =====
-- The process queues and the scheduler.
use mathlib.Core.List.{Mem}
use ossim_os.Base.{
  ℕ, zero, suc, ◌+◌, ◌-◌, ◌*◌, ◌%◌, ◌≤◌, ◌<◌, ◌≡◌, refl, ap, ◌⊎◌, false, none, some, List, [], ◌∷◌,
  arith, true,
}
use ossim_os.Base.Tests.{◌==◌, if◌then◌else◌}
use ossim_os.Base.Sums.{total}
use ossim_os.Types.{Pcb}
use ossim_os.Queue.{Queue, enqueue, dequeue, remove_from_queue}
use ossim_os.Queue.Slice.{contents}
use ossim_os.Queue.Fifo.{add, take, drop, run, run_list, run_refines}
use ossim_os.Queue.Bounds.{Within, queue-Within}
use ossim_os.Sched.Killed.{Target, kill_proc_by_name-Kills}
use ossim_os.Sched.Places.{stands_in}
use ossim_os.Sched.Turn.{killed_pcb}
use ossim_os.Sched.{kill_proc_by_name, Sched, get_mlq_proc}
use ossim_os.Sched.Invariant.{IsValid}
use ossim_os.Sched.Serve.{Serves, get_mlq_proc-Serves}
use ossim_os.Sched.Starvation.{waiting}
use ossim_os.Sched.Liveness.{Event, dispatched, gets, dispatched-head, no_starvation}
use ossim_os.Tests.Memory.{mm}

abbrev queue : Queue
queue = record { proc = λ i. i + 10; size = 3 }

run_refines_example :
    run queue (take ∷ add 7 ∷ drop 12 ∷ take ∷ [])
    ≡ run_list (contents queue) (take ∷ add 7 ∷ drop 12 ∷ take ∷ [])
run_refines_example = run_refines (take ∷ add 7 ∷ drop 12 ∷ take ∷ []) queue

queue-Within_example :
    let full : Queue = record { proc = λ i. i; size = 99 } in
    Within full (enqueue full 7)
    × Within full (dequeue full).1
    × Within full (remove_from_queue full 7).1
queue-Within_example = queue-Within (record { proc = λ i. i; size = 99 }) 7 (omega arith)

abbrev pub process : ℕ → Pcb
process p = record {
  pid = p;
  priority = 1;
  path = [];
  code = [];
  regs = λ _. 0;
  pc = 0;
  prio = p % 4;
  mm = mm;
  bp = 0;
  killed = false;
}

-- Level 0 has two dispatches left and two processes, and level 1 one process, number 5.
abbrev pub sched : Sched
sched = record {
  ready_queue = record { proc = λ i. i; size = 0 };
  run_queue = record { proc = λ i. i; size = 0 };
  running_list = record { proc = λ i. i; size = 0 };
  mlq_ready_queue = λ i. record {
    proc = λ k. 4 * k + 4 + i;
    size = if i == 0 then 2 else (if i == 1 then 1 else 0);
  };
  slot = λ i. 140 - i;
  slot_used = λ i. if i == 0 then 138 else 0;
  table = process;
}

valid : IsValid sched
valid i h = record { slots = refl; within = ground arith }

get_mlq_proc-Serves_example :
    (((get_mlq_proc sched).0 ≡ none)
      × ((i : ℕ) → i < 140 → contents (sched.mlq_ready_queue i) ≡ []))
    ⊎ ((j : ℕ) × (x : ℕ) × (rest : List ℕ) × Serves sched j x rest (get_mlq_proc sched))
get_mlq_proc-Serves_example = get_mlq_proc-Serves sched valid

abbrev events : List Event
events = Event.get ∷ Event.put 9 ∷ Event.get ∷ Event.add 6 ∷ Event.get ∷ []

few : waiting sched 1 < gets events
unfolding waiting gets total
few = omega arith

dispatched-head_example : Mem (some 5) (dispatched sched events)
dispatched-head_example = dispatched-head sched events 1 5 [] valid (omega arith) refl few

abbrev calls_of_get : ℕ → List Event
calls_of_get zero = []
calls_of_get (suc n) = Event.get ∷ calls_of_get n

gets-calls_of_get : (n : ℕ) → gets (calls_of_get n) ≡ n
unfolding gets
gets-calls_of_get zero = refl
gets-calls_of_get (suc n) = ap suc (gets-calls_of_get n)

enough : 39202 ≤ gets (calls_of_get 39202)
enough = omega (arith, gets-calls_of_get 39202)

no_starvation_example : Mem (some 5) (dispatched sched (calls_of_get 39202))
no_starvation_example =
    no_starvation sched (calls_of_get 39202) 1 5 [] valid (omega arith) refl enough

-- Two of three processes on the list have the name, and one of them is the caller.
abbrev crowd : Sched
crowd = record sched {
  running_list = record { proc = λ i. i + 4; size = 3 };
  table = λ p. record (process p) { path = if p == 5 then b'a' ∷ [] else b'/' ∷ b'k' ∷ [] };
}

abbrev survivors : Sched
survivors = (kill_proc_by_name crowd (b'k' ∷ []) 4).sched

kill_proc_by_name-Kills_example :
    ((j : ℕ)
      → j < 3
      → Target (b'k' ∷ []) 4 crowd (crowd.running_list.proc j)
      → (survivors.table (crowd.running_list.proc j)).killed ≡ true)
    × ((q : ℕ)
        → (survivors.table q ≡ crowd.table q)
          ⊎ (Target (b'k' ∷ []) 4 crowd q × (survivors.table q ≡ killed_pcb (crowd.table q))))
    × ((q : ℕ) → stands_in crowd.running_list q ≡ 0 → survivors.table q ≡ crowd.table q)
kill_proc_by_name-Kills_example = kill_proc_by_name-Kills crowd (b'k' ∷ []) 4
