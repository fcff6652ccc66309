-- ===== src/Area.antt =====
-- The growth of a memory area: src/mm-vm.c, and `alloc_pages_range`, `vmap_page_range` and
-- `vm_map_ram` of src/mm.c; and src/sys_mem.c, the system call through which src/libmem.c reaches
-- them. An `int` or `uint32_t` is its 32-bit pattern, an `unsigned long` its 64-bit one.
pub mod Collect
pub mod Mapping
pub mod Grow
pub mod Limit
use ossim_os.Base.{
  ℕ, zero, suc, ◌+◌, ◌-◌, ◌*◌, ◌/◌, ◌%◌, ◌^◌, Bool, true, false, ◌&&◌, ◌||◌, Option, none, some,
  List, [], ◌∷◌,
}
use mathlib.Core.Bool.{not}
use ossim_os.Base.Tests.{ltb, leb, ◌==◌, if◌then◌else◌}
use ossim_os.Types.{Region, Vma}
use ossim_os.Memphy.{Memphy, is_negative, read, write, put_freefp}
use ossim_os.Pte.{genmask, getval, pte_set_fpn}
use ossim_os.Region.{enlist_vm_freerg_list, first_fit}
use ossim_os.Paging.{
  Vm, M, pure, fault, ◌>>=◌, ◌>>◌, load_pte, store_pte, enlist_pgn_node, take_frame, mm_swap_page,
}

-- The conversions between `int` and `unsigned long`.
abbrev pub to_int : ℕ → ℕ
to_int n = n % 2 ^ 32

abbrev pub to_ulong : ℕ → ℕ
to_ulong n = if is_negative n then n + (2 ^ 64 - 2 ^ 32) else n

-- The order of `int`.
abbrev pub int_ltb : ℕ → ℕ → Bool
int_ltb a b = ltb ((a + 2 ^ 31) % 2 ^ 32) ((b + 2 ^ 31) % 2 ^ 32)

-- `PAGING_PGN` and `PAGING_OFFST` of an address
unfoldable pub paging_pgn : ℕ → ℕ
paging_pgn addr = getval addr (genmask 21 8) 8

unfoldable pub paging_offst : ℕ → ℕ
paging_offst addr = getval addr (genmask 7 0) 0

unfoldable pub get_vma_by_num : List Vma → ℕ → Option Vma
get_vma_by_num [] vmaid = none
get_vma_by_num (pvma ∷ rest) vmaid =
    let found = get_vma_by_num rest vmaid in if pvma.vm_id == vmaid then some pvma else found

-- A change through the pointer that `get_vma_by_num` returns.
unfoldable pub change_vma : List Vma → ℕ → (Vma → Vma) → List Vma
change_vma [] vmaid f = []
change_vma (pvma ∷ rest) vmaid f =
    let changed = change_vma rest vmaid f in
    if pvma.vm_id == vmaid then f pvma ∷ rest else pvma ∷ changed

abbrev pub with_mmap : Vm → List Vma → Vm
with_mmap s mmap = record s { mm = record (s.mm) { mmap = mmap } }

-- The region handed out, or `none` where the C function returns -1.
unfoldable pub get_free_vmrg_area : ℕ → ℕ → M (Option Region)
get_free_vmrg_area vmaid size s = elim (get_vma_by_num s.mm.mmap vmaid) [
  | none ↦ some (none, s)
  | some vma ↦ elim (first_fit vma.vm_freerg_list size) [
    | none ↦ some (none, s)
    | some (newrg, left) ↦ some (
      some newrg,
      with_mmap s (change_vma s.mm.mmap vmaid (λ v. record v { vm_freerg_list = left })),
    )
  ]
]

unfoldable pub get_vm_area_node_at_brk : Vma → ℕ → Region
get_vm_area_node_at_brk cur_vma alignedsz = record {
  rg_start = cur_vma.sbrk;
  rg_end = cur_vma.sbrk + alignedsz;
}

-- The loop of `validate_overlap_vm_area`; the planned area overlaps none of the others.
unfoldable pub no_overlap : List Vma → ℕ → ℕ → ℕ → Bool
no_overlap [] vmaid vmastart vmaend = true
no_overlap (vma ∷ rest) vmaid vmastart vmaend =
    let others = no_overlap rest vmaid vmastart vmaend in
    if not (vma.vm_id == vmaid)
      && ltb vma.vm_start vma.vm_end
      && ltb (to_ulong vmastart) vma.vm_end
      && ltb vma.vm_start (to_ulong vmaend)
    then false
    else others

unfoldable pub validate_overlap_vm_area : List Vma → ℕ → ℕ → ℕ → Bool
validate_overlap_vm_area mmap vmaid vmastart vmaend =
    if not (int_ltb vmastart vmaend) then false else no_overlap mmap vmaid vmastart vmaend

-- The release of the frames that `alloc_pages_range` has collected so far.
unfoldable pub put_frames : List ℕ → Memphy → Memphy
put_frames [] mp = mp
put_frames (fpn ∷ rest) mp = put_frames rest (put_freefp mp fpn)

-- The loop of `alloc_pages_range`; `none` where it returns -3000.
unfoldable pub collect_frames : ℕ → List ℕ → M (Option (List ℕ))
collect_frames zero fp_head s = some (some fp_head, s)
collect_frames (suc left) fp_head s = elim (take_frame s) [
  | none ↦ none
  | some (none, t) ↦ some (none, record t { mram = put_frames fp_head t.mram })
  | some (some fpn, t) ↦ collect_frames left (fpn ∷ fp_head) t
]

unfoldable pub alloc_pages_range : ℕ → M (Option (List ℕ))
alloc_pages_range req_pgnum = collect_frames req_pgnum []

-- One turn of the loop of `vmap_page_range`.
unfoldable pub map_page : ℕ → ℕ → M (Unit {0})
map_page pgn fpn = do pte ← load_pte pgn; store_pte pgn (pte_set_fpn pte fpn); enlist_pgn_node pgn

-- The loop, from page `pgn` on with `left` pages to go.
unfoldable pub map_pages : List ℕ → ℕ → ℕ → M (Unit {0})
map_pages [] left pgn = pure tt
map_pages (fpn ∷ rest) zero pgn = pure tt
map_pages (fpn ∷ rest) (suc left) pgn = map_page pgn fpn >> map_pages rest left (pgn + 1)

-- The mapped region.
unfoldable pub vmap_page_range : ℕ → ℕ → List ℕ → M Region
vmap_page_range addr pgnum frames =
    if not (is_negative addr) && leb (2 ^ 31) (addr + pgnum * 256)
    then fault
    else (map_pages frames pgnum (paging_pgn addr)
        >> pure
            (record { rg_start = to_ulong addr; rg_end = to_ulong (to_int (addr + pgnum * 256)) }))

abbrev pub map_found : ℕ → ℕ → Option (List ℕ) → M (Option Region)
map_found mapstart incpgnum none = pure none
map_found mapstart incpgnum (some frm_lst) = do
  rg ← vmap_page_range mapstart incpgnum frm_lst
  pure (some rg)

unfoldable pub vm_map_ram : ℕ → ℕ → M (Option Region)
vm_map_ram mapstart incpgnum = alloc_pages_range incpgnum >>= map_found mapstart incpgnum

-- The end of `inc_vma_limit`: the area has grown, and its new space is free.
unfoldable pub grow_vma : ℕ → Region → Vma → Vma
grow_vma inc_amt area vma = record vma {
  vm_end = (vma.vm_end + inc_amt) % 2 ^ 64;
  sbrk = (vma.sbrk + inc_amt) % 2 ^ 64;
  vm_freerg_list = enlist_vm_freerg_list vma.vm_freerg_list area;
}

-- Whether the mapped region, if there is one, makes the call return 0.
abbrev pub grow_found : ℕ → ℕ → Option Region → M Bool
grow_found vmaid inc_amt none s = some (false, s)
grow_found vmaid inc_amt (some area) s =
    some (true, with_mmap s (change_vma s.mm.mmap vmaid (grow_vma inc_amt area)))

-- `PAGING_PAGE_ALIGNSZ` of a size that is no negative `int`
abbrev pub paging_page_alignsz : ℕ → ℕ
paging_page_alignsz sz = (sz + 256 - 1) / 256 * 256

-- `inc_vma_limit` for a size that is no negative `int`, in an area that has been found.
unfoldable pub inc_vma : Vma → ℕ → ℕ → M Bool
inc_vma cur_vma vmaid inc_amt s =
    let area = get_vm_area_node_at_brk cur_vma inc_amt in
    if inc_amt == 0
      || not (validate_overlap_vm_area s.mm.mmap vmaid (to_int area.rg_start) (to_int area.rg_end))
    then some (false, s)
    else (vm_map_ram (to_int cur_vma.vm_end) (inc_amt / 256) >>= grow_found vmaid inc_amt) s

-- A negative size is aligned to zero or less, and refused; the alignment of a large one overflows.
unfoldable pub inc_vma_limit : ℕ → ℕ → M Bool
inc_vma_limit vmaid inc_sz s =
    if is_negative inc_sz
    then some (false, s)
    else (if leb (2 ^ 31) (inc_sz + 256) then none else (elim (get_vma_by_num s.mm.mmap vmaid) [
      | none ↦ some (false, s)
      | some cur_vma ↦ inc_vma cur_vma vmaid (paging_page_alignsz inc_sz) s
    ]))

-- A byte is a `char`, signed, when it becomes an `uint32_t`.
abbrev pub widen : ℕ → ℕ
widen value = if leb 128 value then value + (2 ^ 32 - 256) else value

-- The operations of `__sys_memmap` that take a device to its next state; the product of a frame
-- number and the page size overflows from 2 ^ 23 on, for a negative `int` too.
unfoldable pub swap_op : ℕ → ℕ → M (Unit {0})
swap_op a2 a3 = if leb (2 ^ 23) a3 && ltb a3 (2 ^ 32 - 2 ^ 23) then fault else mm_swap_page a2 a3

unfoldable pub io_read : ℕ → M ℕ
io_read a2 s =
    let (got, mram) = read s.mram a2 in
    some (elim got [ none ↦ 0 | some value ↦ widen value ], record s { mram = mram })

unfoldable pub io_write : ℕ → ℕ → M (Unit {0})
io_write a2 a3 s = some (tt, record s { mram = (write s.mram a2 (a3 % 256)).1 })

-- `__sys_memmap` with the registers a1, a2 and a3; the result is a3.
unfoldable pub sys_memmap : ℕ → ℕ → ℕ → M ℕ
sys_memmap a1 a2 a3 =
    if a1 == 2
    then (inc_vma_limit a2 a3 >>= λ _. pure a3)
    else (if a1 == 3
        then (swap_op a2 a3 >>= λ _. pure a3)
        else (if a1 == 4
            then io_read a2
            else (if a1 == 5 then (io_write a2 a3 >>= λ _. pure a3) else pure a3)))
