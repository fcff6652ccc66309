-- ===== src/Pte/Fields.antt =====
-- src/mm.c: what the setters of a page table entry store, read back by the macros of include/mm.h.
use mathlib.Core.Bool.{not}
use ossim_os.Base.{ℕ, ◌+◌, ◌*◌, ◌/◌, ◌%◌, ◌^◌, ◌<◌, ◌≡◌, true, false, arith}
use ossim_os.Base.Tests.{◌==◌, leb}
use ossim_os.Pte.{
  u32, present_mask, swapped_mask, fpn_mask, swptyp_mask, swpoff_mask, setbit, clrbit, setval,
  getval, page_present, page_swapped, paging_fpn, swap_type, paging_swp, pte_set_fpn, pte_set_swap,
}
use ossim_os.Pte.Masks.{bit_and_mask, clrbit_lem, setbit_lem, setval_lem}

set_present : (v : ℕ) → v < 2 ^ 32 → setbit v present_mask ≡ v % 2 ^ 31 + 2 ^ 31
set_present v h = omega (arith, setbit_lem v present_mask, bit_and_mask v 1 31)

set_swapped : (v : ℕ) → setbit v swapped_mask ≡ v / 2 ^ 31 * 2 ^ 31 + v % 2 ^ 30 + 2 ^ 30
set_swapped v = omega (arith, setbit_lem v swapped_mask, bit_and_mask v 1 30)

clear_swapped : (v : ℕ) → v < 2 ^ 32 → clrbit v swapped_mask ≡ v / 2 ^ 31 * 2 ^ 31 + v % 2 ^ 30
clear_swapped v h = omega (arith, clrbit_lem v swapped_mask h (omega arith), bit_and_mask v 1 30)

clear_swpoff : (v : ℕ) → v < 2 ^ 32 → clrbit v swpoff_mask ≡ v / 2 ^ 26 * 2 ^ 26 + v % 2 ^ 5
unfolding swpoff_mask
clear_swpoff v h = omega (arith, clrbit_lem v swpoff_mask h (omega arith), bit_and_mask v 21 5)

set_fpn : (v fpn : ℕ) → v < 2 ^ 32 → setval v fpn fpn_mask 0 ≡ v / 2 ^ 13 * 2 ^ 13 + fpn % 2 ^ 13
unfolding fpn_mask
set_fpn v fpn h = omega (
  arith,
  setval_lem v fpn fpn_mask 0 h (omega arith),
  bit_and_mask v 13 0,
  bit_and_mask (u32 (fpn * 2 ^ 0)) 13 0,
)

set_swptyp : (v typ : ℕ) → v < 2 ^ 32 → setval v typ swptyp_mask 0 ≡ v / 2 ^ 5 * 2 ^ 5 + typ % 2 ^ 5
unfolding swptyp_mask
set_swptyp v typ h = omega (
  arith,
  setval_lem v typ swptyp_mask 0 h (omega arith),
  bit_and_mask v 5 0,
  bit_and_mask (u32 (typ * 2 ^ 0)) 5 0,
)

set_swpoff :
    (v off : ℕ)
    → v < 2 ^ 32
    → setval v off swpoff_mask 5 ≡ v / 2 ^ 26 * 2 ^ 26 + off % 2 ^ 21 * 2 ^ 5 + v % 2 ^ 5
unfolding swpoff_mask
set_swpoff v off h = omega (
  arith,
  setval_lem v off swpoff_mask 5 h (omega arith),
  bit_and_mask v 21 5,
  bit_and_mask (u32 (off * 2 ^ 5)) 21 5,
)

-- The macros that read an entry, as arithmetic.
pub page_present_lem : (v : ℕ) → v < 2 ^ 32 → page_present v ≡ leb (2 ^ 31) v
unfolding page_present
page_present_lem v h = ground (arith, bit_and_mask v 1 31)

pub page_swapped_lem : (v : ℕ) → page_swapped v ≡ not (v / 2 ^ 30 % 2 == 0)
unfolding page_swapped
page_swapped_lem v = ground (arith, bit_and_mask v 1 30)

pub paging_fpn_lem : (v : ℕ) → paging_fpn v ≡ v % 2 ^ 13
unfolding paging_fpn getval fpn_mask
paging_fpn_lem v = omega (arith, bit_and_mask v 13 0)

pub swap_type_lem : (v : ℕ) → swap_type v ≡ v % 2 ^ 5
unfolding swap_type getval swptyp_mask
swap_type_lem v = omega (arith, bit_and_mask v 5 0)

pub paging_swp_lem : (v : ℕ) → paging_swp v ≡ v / 2 ^ 5 % 2 ^ 21
unfolding paging_swp getval swpoff_mask
paging_swp_lem v = omega (arith, bit_and_mask v 21 5)

pte_set_fpn_lem :
    (v fpn : ℕ)
    → v < 2 ^ 32
    → pte_set_fpn v fpn ≡ 2 ^ 31 + v / 2 ^ 26 % 2 ^ 4 * 2 ^ 26 + fpn % 2 ^ 13
unfolding pte_set_fpn
pte_set_fpn_lem v fpn h =
    let a = set_present v h in
    let b = clear_swapped (setbit v present_mask) (omega (arith, a)) in
    let c = clear_swpoff (clrbit (setbit v present_mask) swapped_mask) (omega (arith, a, b)) in
    omega (
      arith,
      a,
      b,
      c,
      set_fpn (clrbit (clrbit (setbit v present_mask) swapped_mask) swpoff_mask) fpn
          (omega (arith, a, b, c)),
    )

pte_set_swap_lem :
    (v typ off : ℕ)
    → v < 2 ^ 32
    → pte_set_swap v typ off
      ≡ 2 ^ 31 + 2 ^ 30 + v / 2 ^ 26 % 2 ^ 4 * 2 ^ 26 + off % 2 ^ 21 * 2 ^ 5 + typ % 2 ^ 5
unfolding pte_set_swap
pte_set_swap_lem v typ off h =
    let a = set_present v h in
    let b = set_swapped (setbit v present_mask) in
    let c = set_swptyp (setbit (setbit v present_mask) swapped_mask) typ (omega (arith, a, b)) in
    omega (
      arith,
      a,
      b,
      c,
      set_swpoff (setval (setbit (setbit v present_mask) swapped_mask) typ swptyp_mask 0) off
          (omega (arith, a, b, c)),
    )

-- What a page that is mapped to a frame reads as.
pub record Online (v fpn : ℕ) : Type 0 where
  pub word : v < 2 ^ 32
  pub present : page_present v ≡ true
  pub swapped : page_swapped v ≡ false
  pub frame : paging_fpn v ≡ fpn

-- What a page that stands on a swap device reads as.
pub record Offline (v typ off : ℕ) : Type 0 where
  pub word : v < 2 ^ 32
  pub present : page_present v ≡ true
  pub swapped : page_swapped v ≡ true
  pub device : swap_type v ≡ typ
  pub offset : paging_swp v ≡ off

-- `pte_set_fpn` makes any 32-bit entry that of an online page with the frame given, cut to 13 bits.
pub pte_set_fpn-Online : (v fpn : ℕ) → v < 2 ^ 32 → Online (pte_set_fpn v fpn) (fpn % 2 ^ 13)
pte_set_fpn-Online v fpn h =
    let e = pte_set_fpn_lem v fpn h in
    let w : pte_set_fpn v fpn < 2 ^ 32 = omega (arith, e) in
    record {
      word = w;
      present = ground (arith, e, page_present_lem (pte_set_fpn v fpn) w);
      swapped = ground (arith, e, page_swapped_lem (pte_set_fpn v fpn));
      frame = omega (arith, e, paging_fpn_lem (pte_set_fpn v fpn));
    }

-- `pte_set_swap` makes any 32-bit entry that of a page on the swap device given, cut to 5 bits, at the
-- swap frame given, cut to 21 bits.
pub pte_set_swap-Offline :
    (v typ off : ℕ) → v < 2 ^ 32 → Offline (pte_set_swap v typ off) (typ % 2 ^ 5) (off % 2 ^ 21)
pte_set_swap-Offline v typ off h =
    let e = pte_set_swap_lem v typ off h in
    let w : pte_set_swap v typ off < 2 ^ 32 = omega (arith, e) in
    record {
      word = w;
      present = ground (arith, e, page_present_lem (pte_set_swap v typ off) w);
      swapped = ground (arith, e, page_swapped_lem (pte_set_swap v typ off));
      device = omega (arith, e, swap_type_lem (pte_set_swap v typ off));
      offset = omega (arith, e, paging_swp_lem (pte_set_swap v typ off));
    }
