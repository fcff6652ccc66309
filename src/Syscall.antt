-- ===== src/Syscall.antt =====
-- src/libstd.c, src/syscall.c and the calls of src/syscalltbl.lst: src/sys_listsyscall.c, which only
-- prints, src/sys_mem.c and src/sys_killall.c; and `free_pcb` of src/libmem.c.
use ossim_os.Base.{ℕ, zero, suc, ◌+◌, Bool, true, false, ◌||◌, none, some, List, [], ◌∷◌}
use ossim_os.Base.Tests.{◌==◌, if◌then◌else◌}
use ossim_os.Sched.{kill_proc_by_name}
use ossim_os.Paging.{M, pure, ◌>>=◌, ◌>>◌}
use ossim_os.Area.{sys_memmap}
use ossim_os.Libmem.{read, free_pcb_memph}
use ossim_os.Machine.{Step, call, next}

-- The loops of `free_pcb` that release the list of pages and the areas.
unfoldable pub drop_areas : M (Unit {0})
drop_areas s = some (tt, record s { mm = record (s.mm) { mmap = []; fifo_pgn = [] } })

-- `free_pcb` of a process that has its `mm`; the memory of the host that it frees is not modelled.
unfoldable pub free_pcb : ℕ → Step (Unit {0})
free_pcb proc = call proc (free_pcb_memph >> drop_areas)

-- A byte that ends the name, 0 or -1.
unfoldable pub ends_name : ℕ → Bool
ends_name byte = byte == 0 || byte == 255

-- The loop of `__sys_killall` that reads the name, from byte `i` on with `left` bytes of room.
unfoldable pub read_name : ℕ → ℕ → ℕ → M (List ℕ)
read_name zero i memrg = pure []
read_name (suc left) i memrg = read 0 memrg i >>= λ got. elim got [
  | none ↦ pure []
  | some byte ↦ elim (ends_name byte) [
    | true ↦ pure []
    | false ↦ read_name left (i + 1) memrg >>= λ rest. pure (byte ∷ rest)
  ]
]

-- The loop that releases the victims, newest first here, in the order of their deaths.
unfoldable pub free_victims : List ℕ → Step (Unit {0})
free_victims [] s = some (tt, s)
free_victims (proc ∷ older) s = next (free_victims older) (λ _. free_pcb proc) s

-- `kill_proc_by_name` on the whole state.
unfoldable pub kill_named : ℕ → List ℕ → Step ℕ
kill_named caller name s =
    let killing = kill_proc_by_name s.sched name caller in
    next (free_victims killing.victims) (λ _ t. some (killing.count, t))
      (record s { sched = killing.sched })

-- `__sys_killall`; the result is the number of processes terminated.
unfoldable pub sys_killall : ℕ → ℕ → Step ℕ
sys_killall caller memrg = next (call caller (read_name 99 0 memrg)) (kill_named caller)

-- `syscall`, over the table of calls; the registers are not read afterwards.
unfoldable pub syscall : ℕ → ℕ → ℕ → ℕ → ℕ → Step ℕ
syscall caller nr a1 a2 a3 s =
    if nr == 17
    then next (call caller (sys_memmap a1 a2 a3)) (λ _ t. some (0, t)) s
    else (if nr == 101 then sys_killall caller a1 s else some (0, s))

unfoldable pub libsyscall : ℕ → ℕ → ℕ → ℕ → ℕ → Step ℕ
libsyscall caller syscall_idx a1 a2 a3 = syscall caller syscall_idx a1 a2 a3
