-- ===== src/Area/Grow.antt =====
-- src/mm-vm.c, `inc_vma_limit`: the area of a process, and the path through the guards.
use ossim_os.Base.{
  ℕ, ◌+◌, ◌*◌, ◌/◌, ◌%◌, ◌^◌, ◌<◌, ◌≤◌, ◌≡◌, ◌≢◌, refl, ap, ◌∙◌, true, false, ◌&&◌, Option, none,
  some, List, [], ◌∷◌, arith,
}
use mathlib.Core.Bool.{not}
use ossim_os.Base.Tests.{◌==◌, leb}
use ossim_os.Types.{Region, Vma}
use ossim_os.Memphy.{is_negative}
use ossim_os.Pte.{genmask, getval}
use ossim_os.Pte.Masks.{bit_and_mask}
use ossim_os.Paging.{Vm, ◌>>=◌}
use ossim_os.Paging.Monad.{bind_some}
use ossim_os.Paging.Owner.{Place}
use ossim_os.Paging.View.{Sizes, SizesOk, Wf, Keeps, where_is, peek-some, peek-none}
use ossim_os.Area.{
  paging_pgn, to_int, to_ulong, get_vma_by_num, validate_overlap_vm_area, no_overlap,
  get_vm_area_node_at_brk, map_pages, vmap_page_range, vm_map_ram, grow_found, inc_vma,
  inc_vma_limit, paging_page_alignsz,
}

-- The process has one area, which starts at 0, ends at a page boundary of the 22-bit address space,
-- and covers exactly the mapped pages.
pub record HasArea (s : Vm) (vma : Vma) : Type 0 where
  pub only : s.mm.mmap ≡ vma ∷ []
  pub id : vma.vm_id ≡ 0
  pub brk : vma.sbrk ≡ vma.vm_end
  pub aligned : vma.vm_end % 256 ≡ 0
  pub small : vma.vm_end ≤ 2 ^ 22
  pub within : (p : ℕ) → p < vma.vm_end / 256 → where_is s p ≢ none
  pub beyond : (p : ℕ) → vma.vm_end / 256 ≤ p → where_is s p ≡ none

paging_pgn_small : (addr : ℕ) → addr < 2 ^ 22 → paging_pgn addr ≡ addr / 256
unfolding paging_pgn getval genmask
paging_pgn_small addr h = omega (arith, bit_and_mask addr 14 8)

-- The new region at the end of the area.
abbrev pub tail : Vma → ℕ → Region
tail vma inc_amt = record { rg_start = vma.vm_end; rg_end = vma.vm_end + inc_amt }

pub vmap_page_range_eq :
    (s t : Vm) (addr n : ℕ) (l : List ℕ)
    → addr + n * 256 ≤ 2 ^ 22
    → addr < 2 ^ 22
    → map_pages l n (addr / 256) s ≡ some (tt, t)
    → vmap_page_range addr n l s ≡ some (record { rg_start = addr; rg_end = addr + n * 256 }, t)
unfolding vmap_page_range
vmap_page_range_eq s t addr n l h k e =
    let fits : (not (is_negative addr) && leb (2 ^ 31) (addr + n * 256)) ≡ false = ground arith in
    let lo : to_ulong addr ≡ addr = ground arith in
    let hi : to_ulong (to_int (addr + n * 256)) ≡ addr + n * 256 = ground arith in
    rw fits (
      bind_some (map_pages l n (paging_pgn addr)) _
        (ap (λ q. map_pages l n q s) (paging_pgn_small addr k) ∙ e)
      ∙ ap (λ q. some (record { rg_start = q; rg_end = to_ulong (to_int (addr + n * 256)) }, t)) lo
      ∙ ap (λ q. some (record { rg_start = addr; rg_end = q }, t)) hi)

-- Mapped pages stay mapped where their bytes stay.
pub Keeps-mapped :
    (held : Place → ℕ) (s t : Vm) (p : ℕ)
    → Keeps held s t
    → where_is s p ≢ none
    → where_is t p ≢ none
Keeps-mapped held s t p k m e = go (where_is s p) refl
  where
    go : (o : Option Place) → where_is s p ≡ o → ⊥
    go none f = m f
    go (some x) f = absurd (cc (peek-none t p 0 e, k.pages p 0 (omega arith), peek-some s p 0 x f))

module _ {c : Sizes} (ok : SizesOk c) (held : Place → ℕ) (s : Vm) (vma : Vma) (w : Wf c held s)
    (a : HasArea s vma) (inc_sz : ℕ) (pos : 0 < inc_sz)
    (room : vma.vm_end + paging_page_alignsz inc_sz ≤ 2 ^ 22) where
  amount :
      (0 < paging_page_alignsz inc_sz)
      × (paging_page_alignsz inc_sz % 256 ≡ 0)
      × (inc_sz ≤ paging_page_alignsz inc_sz)
  amount = (omega arith, omega arith, omega arith)

  found : get_vma_by_num s.mm.mmap 0 ≡ some vma
  unfolding get_vma_by_num
  found = ap (λ l. get_vma_by_num l 0) a.only ∙ ground (arith, a.id)

  no_other :
      validate_overlap_vm_area s.mm.mmap 0
        (to_int vma.sbrk)
        (to_int (vma.sbrk + paging_page_alignsz inc_sz))
      ≡ true
  unfolding validate_overlap_vm_area no_overlap
  no_other =
      ap
        (λ l.
          validate_overlap_vm_area l 0 (to_int vma.sbrk)
            (to_int (vma.sbrk + paging_page_alignsz inc_sz)))
        a.only
      ∙ ground (arith, a.id, a.brk, amount)

  inc_vma_eq :
      inc_vma vma 0 (paging_page_alignsz inc_sz) s
      ≡ (vm_map_ram vma.vm_end (paging_page_alignsz inc_sz / 256)
            >>= grow_found 0 (paging_page_alignsz inc_sz))
          s
  unfolding inc_vma get_vm_area_node_at_brk
  inc_vma_eq =
      let e : to_int vma.vm_end ≡ vma.vm_end = omega (arith, a.small) in
      let z : (paging_page_alignsz inc_sz == 0) ≡ false = ground (arith, amount) in
      rw (z, no_other, e)

  pub inc_vma_limit_eq :
      inc_vma_limit 0 inc_sz s
      ≡ (vm_map_ram vma.vm_end (paging_page_alignsz inc_sz / 256)
            >>= grow_found 0 (paging_page_alignsz inc_sz))
          s
  unfolding inc_vma_limit
  inc_vma_limit_eq =
      let n : is_negative inc_sz ≡ false = ground (arith, amount) in
      let o : leb (2 ^ 31) (inc_sz + 256) ≡ false = ground (arith, amount) in
      rw (n, o, found) inc_vma_eq
