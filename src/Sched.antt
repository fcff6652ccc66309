-- ===== src/Sched.antt =====
-- src/sched.c: the multi-level queue scheduler. Every function holds the one lock `queue_lock` for
-- its whole body, so a call is one step on the state. The build defines MLQ_SCHED.
pub mod Mlq
pub mod Invariant
pub mod Serve
pub mod Starvation
pub mod Liveness
pub mod Turn
pub mod Kill
pub mod Victims
pub mod Places
pub mod Reaped
pub mod Killed
use mathlib.Core.Bool.{not}
use ossim_os.Base.{
  ℕ, zero, suc, ◌+◌, ◌-◌, Bool, true, false, ◌&&◌, Option, none, some, List, [], ◌∷◌,
}
use ossim_os.Base.Tests.{leb, ltb, ◌==◌, if◌then◌else◌}
use ossim_os.Base.Lists.{update}
use ossim_os.Types.{Pcb}
use ossim_os.Queue.{Queue, empty, enqueue, dequeue, remove_from_queue}

abbrev pub max_prio : ℕ
max_prio = 140

-- The static variables of the file, and the store of the processes that the queues point to.
pub record Sched : Type 0 where
  pub ready_queue : Queue
  pub run_queue : Queue
  pub running_list : Queue
  pub mlq_ready_queue : ℕ → Queue
  pub slot : ℕ → ℕ
  pub slot_used : ℕ → ℕ
  pub table : ℕ → Pcb

-- The loop of `queue_empty` over the priorities, with the rounds that are left.
unfoldable pub all_empty : ℕ → ℕ → (ℕ → Queue) → Bool
all_empty zero prio qs = true
all_empty (suc left) prio qs = empty (qs prio) && all_empty left (prio + 1) qs

unfoldable pub queue_empty : Sched → Bool
queue_empty s = all_empty max_prio 0 s.mlq_ready_queue && (empty s.ready_queue && empty s.run_queue)

-- The loop of `init_scheduler`.
unfoldable pub init_levels : ℕ → ℕ → Sched → Sched
init_levels zero i s = s
init_levels (suc left) i s = init_levels left (i + 1) (record s {
  mlq_ready_queue =
      update s.mlq_ready_queue i (record { proc = (s.mlq_ready_queue i).proc; size = 0 });
  slot = update s.slot i (max_prio - i);
  slot_used = update s.slot_used i 0;
})

unfoldable pub init_scheduler : Sched → Sched
init_scheduler s =
    let t = init_levels max_prio 0 s in
    record t {
      ready_queue = record { proc = t.ready_queue.proc; size = 0 };
      run_queue = record { proc = t.run_queue.proc; size = 0 };
      running_list = record { proc = t.running_list.proc; size = 0 };
    }

-- Whether level `i` may dispatch now.
unfoldable pub can_dispatch : Sched → ℕ → Bool
can_dispatch s i = not (empty (s.mlq_ready_queue i)) && ltb (s.slot_used i) (s.slot i)

-- The body of the test in `get_mlq_proc`: the head of level `i` is taken.
unfoldable pub dispatch : Sched → ℕ → Option ℕ × Sched
dispatch s i =
    let (proc, q) = dequeue (s.mlq_ready_queue i) in
    (
      proc,
      record s {
        mlq_ready_queue = update s.mlq_ready_queue i q;
        slot_used = update s.slot_used i (s.slot_used i + 1);
      },
    )

-- The inner loop of `get_mlq_proc`, from level `i` down, with the levels that are left.
unfoldable pub pass : ℕ → ℕ → Sched → Option ℕ × Sched
pass zero i s = (none, s)
pass (suc left) i s = elim (can_dispatch s i) [ true ↦ dispatch s i | false ↦ pass left (i + 1) s ]

-- The loop that starts a new round.
unfoldable pub reset_used : ℕ → ℕ → (ℕ → ℕ) → ℕ → ℕ
reset_used zero i used = used
reset_used (suc left) i used = reset_used left (i + 1) (update used i 0)

unfoldable pub new_round : Sched → Sched
new_round s = record s { slot_used = reset_used max_prio 0 s.slot_used }

-- The outer loop: `round < 2 && proc == NULL`.
unfoldable pub rounds : ℕ → Sched → Option ℕ × Sched
rounds zero s = (none, s)
rounds (suc left) s =
    let (proc, t) = pass max_prio 0 s in
    elim proc [ none ↦ rounds left (new_round t) | some p ↦ (some p, t) ]

unfoldable pub get_mlq_proc : Sched → Option ℕ × Sched
get_mlq_proc s = rounds 2 s

unfoldable pub put_mlq_proc : Sched → ℕ → Sched
put_mlq_proc s proc =
    let prio = (s.table proc).prio in
    record s {
      mlq_ready_queue = update s.mlq_ready_queue prio (enqueue (s.mlq_ready_queue prio) proc);
    }

unfoldable pub add_mlq_proc : Sched → ℕ → Sched
add_mlq_proc s proc = put_mlq_proc (record s { running_list = enqueue s.running_list proc }) proc

unfoldable pub get_proc : Sched → Option ℕ × Sched
get_proc s = get_mlq_proc s

unfoldable pub put_proc : Sched → ℕ → Sched
put_proc s proc = put_mlq_proc s proc

-- A priority past the last level is lowered to it.
unfoldable pub clamp_prio : Pcb → Pcb
clamp_prio p = if leb max_prio p.prio then record p { prio = max_prio - 1 } else p

unfoldable pub add_proc : Sched → ℕ → Sched
add_proc s proc =
    add_mlq_proc (record s { table = update s.table proc (clamp_prio (s.table proc)) }) proc

unfoldable pub finish_proc : Sched → ℕ → Sched
finish_proc s proc = record s { running_list = (remove_from_queue s.running_list proc).1 }

-- `strrchr(path, '/') + 1`
unfoldable pub after_last_slash : List ℕ → Option (List ℕ)
after_last_slash [] = none
after_last_slash (c ∷ cs) = elim (after_last_slash cs) [
  | none ↦ if c == b'/' then some cs else none
  | some name ↦ some name
]

unfoldable pub proc_name : Pcb → List ℕ
proc_name p = elim (after_last_slash p.path) [ none ↦ p.path | some name ↦ name ]

-- `strcmp(a, b) == 0`, of texts with no terminator.
unfoldable pub same_text : List ℕ → List ℕ → Bool
same_text [] [] = true
same_text [] (d ∷ ds) = false
same_text (c ∷ cs) [] = false
same_text (c ∷ cs) (d ∷ ds) = (c == d) && same_text cs ds

-- A process that `kill_proc_by_name` is after.
unfoldable pub is_target : List ℕ → ℕ → Sched → ℕ → Bool
is_target name caller s proc = not (proc == caller) && same_text (proc_name (s.table proc)) name

-- `remove_from_queue` on the ready queues in turn, `||` and `if` as short-circuits.
unfoldable pub leave_ready : Sched → ℕ → Bool × Sched
leave_ready s proc =
    let (in_ready, ready) = remove_from_queue s.ready_queue proc in
    let (in_run, run) = remove_from_queue s.run_queue proc in
    let prio = (s.table proc).prio in
    let (in_level, level) = remove_from_queue (s.mlq_ready_queue prio) proc in
    if in_ready
    then (true, record s { ready_queue = ready })
    else (if in_run
        then (true, record s { ready_queue = ready; run_queue = run })
        else (if ltb prio max_prio
            then (
              in_level,
              record s {
                ready_queue = ready;
                run_queue = run;
                mlq_ready_queue = update s.mlq_ready_queue prio level;
              },
            )
            else (false, record s { ready_queue = ready; run_queue = run })))

unfoldable pub mark_killed : Sched → ℕ → Sched
mark_killed s proc = record s {
  table = update s.table proc (record (s.table proc) { killed = true });
}

-- `victims` is newest first here; the array of the source is its reverse.
pub record Killing : Type 0 where
  pub sched : Sched
  pub count : ℕ
  pub victims : List ℕ

-- One target of the loop: it is marked, and taken out at once if no CPU owns it. The Boolean says
-- whether it was taken out, and then the index stays.
unfoldable pub kill_one : Killing → ℕ → Bool × Killing
kill_one k proc =
    let (in_ready, s) = leave_ready (mark_killed k.sched proc) proc in
    if in_ready
    then (
      true,
      record {
        sched = record s { running_list = (remove_from_queue s.running_list proc).1 };
        count = k.count + 1;
        victims = proc ∷ k.victims;
      },
    )
    else (false, record { sched = s; count = k.count + 1; victims = k.victims })

-- The loop of `kill_proc_by_name` at index `i`. Each round moves `i` up or shortens the list, so
-- its size is fuel enough.
unfoldable pub kill_from : ℕ → List ℕ → ℕ → ℕ → Killing → Killing
kill_from zero name caller i k = k
kill_from (suc fuel) name caller i k = elim (ltb i k.sched.running_list.size) [
  | false ↦ k
  | true ↦
      let proc = k.sched.running_list.proc i in
      elim (is_target name caller k.sched proc) [
        | false ↦ kill_from fuel name caller (i + 1) k
        | true ↦
            let (left, k') = kill_one k proc in
            kill_from fuel name caller (if left then i else i + 1) k'
      ]
]

unfoldable pub kill_proc_by_name : Sched → List ℕ → ℕ → Killing
kill_proc_by_name s name caller =
    kill_from s.running_list.size name caller 0 (record { sched = s; count = 0; victims = [] })
