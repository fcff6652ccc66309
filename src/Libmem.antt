-- ===== src/Libmem.antt =====
-- src/libmem.c: the memory calls of a process, each under the lock `mmvm_lock`, so that a call is one
-- step. An `int` or `uint32_t` is its 32-bit pattern. The calls pass area 0, and print the page table
-- and RAM after they succeed, which changes nothing.
pub mod Access
pub mod Bytes
pub mod Flat
pub mod Run
pub mod Init
pub mod Layout
pub mod Alloc
pub mod Free
pub mod Release
pub mod Exit
use ossim_os.Base.{
  ℕ, zero, suc, ◌+◌, ◌*◌, ◌%◌, ◌^◌, Bool, true, false, ◌||◌, Option, none, some, List, [], ◌∷◌,
}
use mathlib.Core.Bool.{not}
use ossim_os.Base.Tests.{ltb, leb, ◌==◌, if◌then◌else◌}
use ossim_os.Base.Lists.{update}
use ossim_os.Types.{Region, Vma, Mm}
use ossim_os.Memphy.{Memphy, is_negative, put_freefp}
use ossim_os.Pte.{page_present, page_swapped, paging_fpn, swap_type, paging_swp}
use ossim_os.Region.{init_vm_rg, enlist_vm_rg_node, enlist_vm_freerg_list}
use ossim_os.Paging.{
  Vm, M, pure, fault, ◌>>=◌, ◌>>◌, with_mswp, with_pgd, with_fifo, pg_getpage, load_pte, store_pte,
  paging_max_mmswp,
}
use ossim_os.Area.{
  to_int, to_ulong, paging_pgn, paging_offst, get_vma_by_num, change_vma, with_mmap,
  get_free_vmrg_area, sys_memmap, widen,
}

abbrev pub paging_max_symtbl_sz : ℕ
paging_max_symtbl_sz = 30

-- `init_mm`: no page, one empty area with one empty free region, and no symbol.
unfoldable pub init_mm : Mm
init_mm = record {
  pgd = λ _. 0;
  mmap =
      record {
        vm_id = 0;
        vm_start = 0;
        vm_end = 0;
        sbrk = 0;
        vm_freerg_list = enlist_vm_rg_node [] (init_vm_rg 0 0);
      }
      ∷ [];
  symrgtbl = λ _. record { rg_start = 0; rg_end = 0 };
  fifo_pgn = [];
}

-- `get_symrg_byid`
unfoldable pub get_symrg_byid : Mm → ℕ → Option Region
get_symrg_byid mm rgid = if leb paging_max_symtbl_sz rgid then none else some (mm.symrgtbl rgid)

abbrev pub with_symrg : Vm → ℕ → Region → Vm
with_symrg s rgid rg = record s { mm = record (s.mm) { symrgtbl = update s.mm.symrgtbl rgid rg } }

-- The physical address of `off` in frame `fpn`
abbrev pub phyaddr : ℕ → ℕ → ℕ
phyaddr fpn off = fpn * 2 ^ 8 + off

abbrev pub getval_at : ℕ → Option ℕ → M (Option ℕ)
getval_at off none = pure none
getval_at off (some fpn) = do a3 ← sys_memmap 4 (phyaddr fpn off) 0; pure (some (a3 % 256))

-- The byte read, or `none` where the C function returns -1.
unfoldable pub pg_getval : ℕ → M (Option ℕ)
pg_getval addr = pg_getpage (paging_pgn addr) >>= getval_at (paging_offst addr)

abbrev pub setval_at : ℕ → ℕ → Option ℕ → M Bool
setval_at off value none = pure false
setval_at off value (some fpn) = do _ ← sys_memmap 5 (phyaddr fpn off) value; pure true

-- Whether the C function returns 0.
unfoldable pub pg_setval : ℕ → ℕ → M Bool
pg_setval addr value = pg_getpage (paging_pgn addr) >>= setval_at (paging_offst addr) value

-- The guards of `__read` and `__write`: the address of the byte, or `none` where they return -1.
unfoldable pub byte_address : Mm → ℕ → ℕ → ℕ → Option ℕ
byte_address mm vmaid rgid offset = elim (get_symrg_byid mm rgid) [
  | none ↦ none
  | some currg ↦ elim (get_vma_by_num mm.mmap vmaid) [
    | none ↦ none
    | some cur_vma ↦
        if is_negative offset || leb currg.rg_end (currg.rg_start + offset)
        then none
        else some (to_int (currg.rg_start + offset))
  ]
]

unfoldable pub read : ℕ → ℕ → ℕ → M (Option ℕ)
read vmaid rgid offset s = elim (byte_address s.mm vmaid rgid offset) [
  | none ↦ some (none, s)
  | some addr ↦ pg_getval addr s
]

unfoldable pub write : ℕ → ℕ → ℕ → ℕ → M Bool
write vmaid rgid offset value s = elim (byte_address s.mm vmaid rgid offset) [
  | none ↦ some (false, s)
  | some addr ↦ pg_setval addr value s
]

-- The value that `libread` stores: the byte, as a signed `char`, becomes an `uint32_t`.
abbrev pub destination_of : Option ℕ → Option ℕ
destination_of none = none
destination_of (some value) = some (widen value)

-- `libread` and `libwrite`
unfoldable pub libread : ℕ → ℕ → M (Option ℕ)
libread source offset = read 0 source offset >>= λ got. pure (destination_of got)

unfoldable pub libwrite : ℕ → ℕ → ℕ → M Bool
libwrite value destination offset = write 0 destination offset value

-- The region becomes the symbol's, and its address is the result.
abbrev pub commit : ℕ → Option Region → M (Option ℕ)
commit rgid none s = some (none, s)
commit rgid (some rgnode) s = some (some (to_int rgnode.rg_start), with_symrg s rgid rgnode)

-- `__alloc` after the first search has failed: the area is grown and searched again.
unfoldable pub alloc_more : ℕ → ℕ → ℕ → M (Option ℕ)
alloc_more vmaid rgid size s = elim (get_vma_by_num s.mm.mmap vmaid) [
  | none ↦ some (none, s)
  | some cur_vma ↦
      (sys_memmap 2 vmaid size >>= λ _. get_free_vmrg_area vmaid size >>= commit rgid) s
]

abbrev pub alloc_from : ℕ → ℕ → ℕ → Option Region → M (Option ℕ)
alloc_from vmaid rgid size none = alloc_more vmaid rgid size
alloc_from vmaid rgid size (some rgnode) = commit rgid (some rgnode)

unfoldable pub alloc : ℕ → ℕ → ℕ → M (Option ℕ)
alloc vmaid rgid size =
    if leb paging_max_symtbl_sz rgid || is_negative size || size == 0
    then pure none
    else (get_free_vmrg_area vmaid size >>= alloc_from vmaid rgid size)

unfoldable pub free : ℕ → ℕ → M Bool
free vmaid rgid s =
    let rg = s.mm.symrgtbl rgid in
    if leb paging_max_symtbl_sz rgid
    then some (false, s)
    else (elim (get_vma_by_num s.mm.mmap vmaid) [
      | none ↦ some (false, s)
      | some cur_vma ↦
          if leb rg.rg_end rg.rg_start
          then some (false, s)
          else some (
            true,
            with_mmap (with_symrg s rgid (record { rg_start = 0; rg_end = 0 })) (
                change_vma s.mm.mmap vmaid (λ v. record v {
                  vm_freerg_list =
                      enlist_vm_freerg_list v.vm_freerg_list
                        (init_vm_rg (to_ulong (to_int rg.rg_start)) (to_ulong (to_int rg.rg_end)));
                })),
          )
    ])

unfoldable pub liballoc : ℕ → ℕ → M (Option ℕ)
liballoc size reg_index = alloc 0 reg_index size

unfoldable pub libfree : ℕ → M Bool
libfree reg_index = free 0 reg_index

-- `caller->mswp[swptyp]` takes the frame back.
unfoldable pub give_back : ℕ → ℕ → M (Unit {0})
give_back pgn pte s =
    if page_swapped pte
    then (if ltb (swap_type pte) paging_max_mmswp
        then some
            (tt, with_mswp s (swap_type pte) (put_freefp (s.mswp (swap_type pte)) (paging_swp pte)))
        else none)
    else some (tt, record s { mram = put_freefp s.mram (paging_fpn pte) })

-- One turn of the loop of `free_pcb_memph`.
unfoldable pub free_page : ℕ → M (Unit {0})
free_page pgn = load_pte pgn >>= λ pte.
    if page_present pte then (give_back pgn pte >> store_pte pgn 0) else pure tt

unfoldable pub free_pages : ℕ → ℕ → M (Unit {0})
free_pages zero pagenum = pure tt
free_pages (suc left) pagenum = free_page pagenum >> free_pages left (pagenum + 1)

unfoldable pub free_pcb_memph : M (Unit {0})
free_pcb_memph = free_pages 16384 0
