-- ===== src/Types.antt =====
-- include/common.h and include/os-mm.h: the structs that the parts of the simulator share.
-- Pointers to the scheduler's own queues and to the memory devices are the same for every process
-- and are not fields here; the devices stand in the state of the memory modules.
use ossim_os.Base.{ℕ, Bool, List}

-- `enum ins_opcode_t`
pub data Opcode : Type 0 where
  calc alloc free read write syscall : Opcode

-- `struct inst_t`; its arguments are uint32_t.
pub record Inst : Type 0 where
  pub opcode : Opcode
  pub arg_0 : ℕ
  pub arg_1 : ℕ
  pub arg_2 : ℕ
  pub arg_3 : ℕ

-- `struct vm_rg_struct`, the half-open range of addresses from `rg_start` to `rg_end`.
pub record Region : Type 0 where
  pub rg_start : ℕ
  pub rg_end : ℕ

-- `struct vm_area_struct`
pub record Vma : Type 0 where
  pub vm_id : ℕ
  pub vm_start : ℕ
  pub vm_end : ℕ
  pub sbrk : ℕ
  pub vm_freerg_list : List Region

-- `struct mm_struct`: the page table, the areas, the symbol table, and the pages in RAM with the
-- newest first.
pub record Mm : Type 0 where
  pub pgd : ℕ → ℕ
  pub mmap : List Vma
  pub symrgtbl : ℕ → Region
  pub fifo_pgn : List ℕ

-- `struct pcb_t`; `code` is the text of the code segment, whose length is the segment's size.
pub record Pcb : Type 0 where
  pub pid : ℕ
  pub priority : ℕ
  pub path : List ℕ
  pub code : List Inst
  pub regs : ℕ → ℕ
  pub pc : ℕ
  pub prio : ℕ
  pub mm : Mm
  pub bp : ℕ
  pub killed : Bool
