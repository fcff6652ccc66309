-- ===== src/Machine.antt =====
-- The whole simulator as one state: the scheduler of src/sched.c with the table of its processes, and
-- the memory devices that src/os.c makes and hands to every process.
pub mod Owns
pub mod Isolation
pub mod Calls
pub mod Exit
pub mod Run
pub mod Killall
pub mod Quiet
use ossim_os.Base.{ℕ, Option, none, some}
use ossim_os.Base.Lists.{update}
use ossim_os.Types.{Pcb}
use ossim_os.Memphy.{Memphy}
use ossim_os.Sched.{Sched}
use ossim_os.Paging.{Vm, M}

pub record Machine : Type 0 where
  pub sched : Sched
  pub mram : Memphy
  pub mswp : ℕ → Memphy
  pub active_mswp_id : ℕ

-- What a memory call of a process works on: `caller->mm`, `caller->mram` and `caller->mswp`.
abbrev pub vm_of : Machine → ℕ → Vm
vm_of s proc = record {
  mm = (s.sched.table proc).mm;
  mram = s.mram;
  mswp = s.mswp;
  active_mswp_id = s.active_mswp_id;
}

abbrev pub with_pcb : Machine → ℕ → Pcb → Machine
with_pcb s proc pcb = record s {
  sched = record (s.sched) { table = update s.sched.table proc pcb };
}

abbrev pub with_vm : Machine → ℕ → Vm → Machine
with_vm s proc vm = record {
  sched = record (s.sched) {
    table = update s.sched.table proc (record (s.sched.table proc) { mm = vm.mm });
  };
  mram = vm.mram;
  mswp = vm.mswp;
  active_mswp_id = vm.active_mswp_id;
}

-- A step of the simulator; as in `Paging`, `none` is undefined behaviour.
abbrev pub Step : Type 0 → Type 0
Step A = Machine → Option (A × Machine)

abbrev pub leave : {A : Type 0} → Machine → ℕ → Option (A × Vm) → Option (A × Machine)
leave s proc none = none
leave s proc (some (a, vm)) = some (a, with_vm s proc vm)

-- A call of the memory library by process `proc`.
abbrev pub call : {A : Type 0} → ℕ → M A → Step A
call proc f s = leave s proc (f (vm_of s proc))

abbrev pub proceed : {A B : Type 0} → (A → Step B) → Option (A × Machine) → Option (B × Machine)
proceed f none = none
proceed f (some (a, s)) = f a s

-- One step after another.
abbrev pub next : {A B : Type 0} → Step A → (A → Step B) → Step B
next m f s = proceed f (m s)
