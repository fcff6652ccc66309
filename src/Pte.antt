-- ===== src/Pte.antt =====
-- include/bitops.h, the PTE macros of include/mm.h, and the functions of src/mm.c that set a page
-- table entry. An entry is a uint32_t, a number below 2 ^ 32.
pub mod Masks
pub mod Fields
use Prim.Native.Nat.{bit_and, bit_or}
use ossim_os.Base.{ℕ, ◌+◌, ◌-◌, ◌*◌, ◌/◌, ◌%◌, ◌^◌, Bool, true, false, Option, none, some}
use mathlib.Core.Bool.{not}
use ossim_os.Base.Tests.{◌==◌, if◌then◌else◌}

abbrev pub u32 : ℕ → ℕ
u32 n = n % 2 ^ 32

-- `BIT(nr)`
abbrev pub bit : ℕ → ℕ
bit nr = u32 (2 ^ nr)

-- `GENMASK(h, l)` with BITS_PER_LONG 32: `(~0U << l) & (~0U >> (32 - h - 1))`
unfoldable pub genmask : ℕ → ℕ → ℕ
genmask h l = bit_and (u32 ((2 ^ 32 - 1) * 2 ^ l)) ((2 ^ 32 - 1) / 2 ^ (32 - h - 1))

abbrev pub present_mask : ℕ
present_mask = bit 31

abbrev pub swapped_mask : ℕ
swapped_mask = bit 30

abbrev pub dirty_mask : ℕ
dirty_mask = bit 28

unfoldable pub fpn_mask : ℕ
unfolding genmask
fpn_mask = genmask 12 0

unfoldable pub swptyp_mask : ℕ
unfolding genmask
swptyp_mask = genmask 4 0

unfoldable pub swpoff_mask : ℕ
unfolding genmask
swpoff_mask = genmask 25 5

-- `SETBIT`, `CLRBIT`, `SETVAL` and `GETVAL`; `~mask` is `2 ^ 32 - 1 - mask`.
unfoldable pub setbit : ℕ → ℕ → ℕ
setbit v mask = bit_or v mask

unfoldable pub clrbit : ℕ → ℕ → ℕ
clrbit v mask = bit_and v (2 ^ 32 - 1 - mask)

unfoldable pub setval : ℕ → ℕ → ℕ → ℕ → ℕ
setval v value mask offst = bit_or (clrbit v mask) (bit_and (u32 (value * 2 ^ offst)) mask)

unfoldable pub getval : ℕ → ℕ → ℕ → ℕ
getval v mask offst = bit_and v mask / 2 ^ offst

-- `PAGING_PAGE_PRESENT(pte)` and `pte & PAGING_PTE_SWAPPED_MASK`, as tests.
unfoldable pub page_present : ℕ → Bool
page_present pte = not (bit_and pte present_mask == 0)

unfoldable pub page_swapped : ℕ → Bool
page_swapped pte = not (bit_and pte swapped_mask == 0)

-- `PAGING_FPN`, the swap type of `pg_getpage`, and `PAGING_PTE_SWP`
unfoldable pub paging_fpn : ℕ → ℕ
paging_fpn pte = getval pte fpn_mask 0

unfoldable pub swap_type : ℕ → ℕ
swap_type pte = getval pte swptyp_mask 0

unfoldable pub paging_swp : ℕ → ℕ
paging_swp pte = getval pte swpoff_mask 5

unfoldable pub pte_set_swap : ℕ → ℕ → ℕ → ℕ
pte_set_swap pte swptyp swpoff =
    setval (setval (setbit (setbit pte present_mask) swapped_mask) swptyp swptyp_mask 0) swpoff
      swpoff_mask 5

unfoldable pub pte_set_fpn : ℕ → ℕ → ℕ
pte_set_fpn pte fpn =
    setval (clrbit (clrbit (setbit pte present_mask) swapped_mask) swpoff_mask) fpn fpn_mask 0

-- `init_pte`: the new entry, or `none` for the invalid setting that returns -1.
unfoldable pub init_pte : ℕ → ℕ → ℕ → ℕ → ℕ → ℕ → ℕ → Option ℕ
init_pte pte pre fpn drt swp swptyp swpoff =
    if pre == 0
    then some pte
    else (if swp == 0
        then (if fpn == 0
            then none
            else some (
                setval (clrbit (clrbit (setbit pte present_mask) swapped_mask) dirty_mask) fpn
                  fpn_mask 0))
        else some (
            setval
              (setval (clrbit (setbit (setbit pte present_mask) swapped_mask) dirty_mask) swptyp
                swptyp_mask 0)
              swpoff swpoff_mask 5))
