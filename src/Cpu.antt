-- ===== src/Cpu.antt =====
-- src/cpu.c, built with MM_PAGING: one instruction of a process.
use ossim_os.Base.{
  ℕ, zero, suc, ◌+◌, ◌-◌, ◌%◌, ◌^◌, Bool, true, false, Option, none, some, List, [], ◌∷◌,
}
use ossim_os.Base.Tests.{ltb, if◌then◌else◌}
use ossim_os.Base.Lists.{update}
use ossim_os.Types.{calc, alloc, free, read, write, syscall, Inst}
use ossim_os.Libmem.{liballoc, libfree, libread, libwrite}
use ossim_os.Machine.{Machine, Step, call, next, with_pcb}
use ossim_os.Syscall.{libsyscall}

-- `code->text[pc]`, if `pc` is below the size of the segment.
unfoldable pub fetch : List Inst → ℕ → Option Inst
fetch [] pc = none
fetch (ins ∷ rest) zero = some ins
fetch (ins ∷ rest) (suc pc) = fetch rest pc

-- The status of a call that returns 0 or -1.
abbrev pub status : Bool → ℕ
status true = 0
status false = 2 ^ 32 - 1

abbrev pub found : Option ℕ → ℕ
found none = 2 ^ 32 - 1
found (some value) = 0

-- `proc->regs[reg] = data`, for one of the 10 registers.
abbrev pub set_reg : ℕ → ℕ → Option ℕ → Step ℕ
set_reg proc reg none s = some (2 ^ 32 - 1, s)
set_reg proc reg (some value) s =
    let pcb = s.sched.table proc in
    if ltb reg 10
    then some (0, with_pcb s proc (record pcb { regs = update pcb.regs reg value }))
    else some (0, s)

-- The `switch` of `run`.
unfoldable pub execute : ℕ → Inst → Step ℕ
execute proc ins s = elim ins.opcode [
  | calc ↦ some (0, s)
  | alloc ↦
      next (call proc (liballoc ins.arg_0 ins.arg_1)) (λ (got : Option ℕ) t. some (found got, t)) s
  | free ↦ next (call proc (libfree ins.arg_0)) (λ (ok : Bool) t. some (status ok, t)) s
  | read ↦ next (call proc (libread ins.arg_0 ins.arg_1)) (set_reg proc ins.arg_2) s
  | write ↦
      next (call proc (libwrite (ins.arg_0 % 256) ins.arg_1 ins.arg_2))
        (λ (ok : Bool) t. some (status ok, t)) s
  | syscall ↦ libsyscall proc ins.arg_0 ins.arg_1 ins.arg_2 ins.arg_3 s
]

abbrev pub with_pc : Machine → ℕ → ℕ → Machine
with_pc s proc pc = with_pcb s proc (record (s.sched.table proc) { pc = pc })

-- `run`; the result is its status, which is 1 where there is no instruction.
unfoldable pub run : ℕ → Step ℕ
run proc s =
    let pcb = s.sched.table proc in
    elim (fetch pcb.code pcb.pc) [
      | none ↦ some (1, s)
      | some ins ↦ execute proc ins (with_pc s proc ((pcb.pc + 1) % 2 ^ 32))
    ]
