-- ===== src/Simulator.antt =====
-- src/os.c: the threads of the CPUs and of the loader, each as a machine that goes from one call that
-- takes a lock, or test of `killed`, to the next; the other tests between two such points are part of the
-- step.
pub mod World
pub mod Change
pub mod Exclusion
pub mod Reached
pub mod Safety
pub mod Idle
pub mod Settings
pub mod Memory
pub mod Sound
pub mod Civil
pub mod Main
use ossim_os.Base.{
  ℕ, zero, suc, ◌+◌, ◌-◌, ◌%◌, ◌^◌, Bool, true, false, ◌||◌, Option, none, some, List, [], ◌∷◌,
}
use ossim_os.Base.Tests.{leb, ltb, ◌==◌, if◌then◌else◌}
use ossim_os.Base.Lists.{length, update}
use ossim_os.Types.{Inst, Pcb}
use ossim_os.Memphy.{Memphy, init_memphy}
use ossim_os.Sched.{Sched, get_proc, put_proc, add_proc, finish_proc, init_scheduler}
use ossim_os.Libmem.{init_mm}
use ossim_os.Loader.{load}
use ossim_os.Machine.{Machine, Step, with_pcb}
use ossim_os.Syscall.{free_pcb}
use ossim_os.Cpu.{run}

-- Where a CPU stands in `cpu_routine`: at the top of the loop; before `finish_proc`; between that and
-- `free_pcb`; before `put_proc`; before the call of `get_proc` that follows a process it gave away; at
-- the second check; before `run`; in `next_slot`; past the loop.
pub data CpuPhase : Type 0 where
  checking finishing reaping putting fetching rechecking running resting stopped : CpuPhase

-- The local variables of `cpu_routine`.
pub record Cpu : Type 0 where
  pub phase : CpuPhase
  pub proc : Option ℕ
  pub time_left : ℕ

abbrev pub new_cpu : Cpu
new_cpu = record { phase = checking; proc = none; time_left = 0 }

abbrev pub with_sched : Machine → Sched → Machine
with_sched s sched = record s { sched = sched }

-- A CPU that has just called `get_proc`, and goes on in phase `then` if it got a process.
abbrev pub fetched : CpuPhase → CpuPhase → ℕ → Option ℕ × Sched → Machine → Cpu × Machine
fetched empty busy time_left (none, sched) s =
    (record { phase = empty; proc = none; time_left = time_left }, with_sched s sched)
fetched empty busy time_left (some p, sched) s =
    (record { phase = busy; proc = some p; time_left = time_left }, with_sched s sched)

-- The first check of the loop: no process, one that was killed, one that is finished, or one that has
-- used its time up. `killed` is read without a lock, so what follows of it is a step of its own.
unfoldable pub check : ℕ → Option ℕ → Machine → Cpu × Machine
check time_left none s = fetched resting rechecking time_left (get_proc s.sched) s
check time_left (some p) s =
    let pcb = s.sched.table p in
    if pcb.killed || pcb.pc == length pcb.code
    then (record { phase = finishing; proc = some p; time_left = time_left }, s)
    else (if time_left == 0
        then (record { phase = putting; proc = some p; time_left = time_left }, s)
        else (record { phase = rechecking; proc = some p; time_left = time_left }, s))

-- The second check: stop, wait for the next slot, or run, with a new time slot if there is none left.
unfoldable pub recheck : ℕ → Bool → ℕ → Option ℕ → Cpu
recheck time_slot done time_left none = record {
  phase = if done then stopped else resting;
  proc = none;
  time_left = time_left;
}
recheck time_slot done time_left (some p) = record {
  phase = running;
  proc = some p;
  time_left = if time_left == 0 then time_slot else time_left;
}

abbrev pub enter : {A : Type 0} → Cpu → Option (A × Machine) → Option (Cpu × Machine)
enter k none = none
enter k (some (a, s)) = some (k, s)

-- One step of `cpu_routine` on CPU `k`; `done` is the flag of the loader. A CPU in `next_slot` goes on
-- when the timer lets it. The phases that need a process have one.
unfoldable pub cpu_step : ℕ → Bool → Cpu → Machine → Option (Cpu × Machine)
cpu_step time_slot done k s = elim k.phase [
  | checking ↦ some (check k.time_left k.proc s)
  | finishing ↦ elim k.proc [
    | none ↦ none
    | some p ↦ some (record k { phase = reaping }, with_sched s (finish_proc s.sched p))
  ]
  | reaping ↦ elim k.proc [
    | none ↦ none
    | some p ↦ enter (record { phase = fetching; proc = none; time_left = 0 }) (free_pcb p s)
  ]
  | putting ↦ elim k.proc [
    | none ↦ none
    | some p ↦ some (record k { phase = fetching; proc = none }, with_sched s (put_proc s.sched p))
  ]
  | fetching ↦ some (fetched rechecking rechecking k.time_left (get_proc s.sched) s)
  | rechecking ↦ some (recheck time_slot done k.time_left k.proc, s)
  | running ↦ elim k.proc [
    | none ↦ none
    | some p ↦
        enter (record { phase = resting; proc = some p; time_left = k.time_left - 1 }) (run p s)
  ]
  | resting ↦ some (record k { phase = checking }, s)
  | stopped ↦ none
]

-- A line of the configuration: what `ld_processes` holds for one process.
pub record LdArgs : Type 0 where
  pub path : List ℕ
  pub start_time : ℕ
  pub prio : ℕ

-- Where the loader stands in `ld_routine`: before `load`, waiting for the time of a process that it
-- has loaded, in `next_slot` after one has been added, or past the loop.
pub data LdPhase : Type 0 where
  loading : LdPhase
  early : ℕ → Pcb → LdPhase
  added : LdPhase
  finished : LdPhase

-- `avail_pid` is the number of the next process, and stands for its address too.
pub record Loader : Type 0 where
  pub phase : LdPhase
  pub left : List LdArgs
  pub avail_pid : ℕ
  pub done : Bool

-- The process, with its memory and its priority, is added to the scheduler.
unfoldable pub admit : ℕ → Pcb → Machine → Machine
admit p pcb s =
    let t = with_pcb s p (record pcb { mm = init_mm }) in with_sched t (add_proc t.sched p)

abbrev pub loaded : Loader → ℕ → Option Pcb → Option Loader
loaded l prio none = none
loaded l prio (some pcb) = some (record l {
  phase = early l.avail_pid (record pcb { prio = prio % 2 ^ 32 });
  avail_pid = l.avail_pid + 1;
})

-- One step of `ld_routine`, at time `now`. The content of the files is `files`, and `blank` what stands
-- in fresh memory; `none` where the loader exits the simulator, or has ended.
unfoldable pub ld_step :
    (List ℕ → Option (List ℕ)) → Inst → ℕ → Loader → Machine → Option (Loader × Machine)
ld_step files blank now l s = elim l.phase [
  | loading ↦ elim l.left [
    | [] ↦ some (record l { phase = finished; done = true }, s)
    | args ∷ rest ↦
        elim (loaded l args.prio (load (l.avail_pid % 2 ^ 32) blank args.path (files args.path))) [
          | none ↦ none
          | some l' ↦ some (l', s)
        ]
  ]
  | early p pcb ↦ elim l.left [
    | [] ↦ none
    | args ∷ rest ↦
        if ltb now args.start_time
        then some (l, s)
        else some (record l { phase = added; left = rest }, admit p pcb s)
  ]
  | added ↦ some (record l { phase = loading }, s)
  | finished ↦ none
]

-- The devices that `main` makes, all of them random access, and the scheduler before any thread starts.
unfoldable pub boot : ℕ → (ℕ → ℕ) → Sched → Machine
boot memramsz memswpsz sched = record {
  sched = init_scheduler sched;
  mram = init_memphy memramsz true;
  mswp = λ sit. init_memphy (memswpsz sit) true;
  active_mswp_id = 0;
}
