-- ===== src/Pte/Masks.antt =====
-- include/mm.h: what `SETBIT`, `CLRBIT`, `SETVAL` and `GETVAL` do to the fields of an entry, as
-- arithmetic. A mask of w ones from digit lo is `(2 ^ w - 1) * 2 ^ lo`.
use Prim.Native.Nat.{bit_and}
use ossim_os.Base.{ℕ, ◌+◌, ◌-◌, ◌*◌, ◌/◌, ◌%◌, ◌^◌, ◌<◌, ◌≡◌, refl, ap, ◌∙◌, arith}
use ossim_os.Base.Bits.{
  bit_or-bit_and, bit_and_ones, bit_and_shifted, bit_and_complement, bit_and_disjoint,
}
use ossim_os.Pte.{
  u32, present_mask, swapped_mask, dirty_mask, fpn_mask, swptyp_mask, swpoff_mask, setbit, clrbit,
  setval,
}

-- The masks of the fields, as the macros compute them.
pub masks_lem :
    (fpn_mask ≡ (2 ^ 13 - 1) * 2 ^ 0)
    × (swptyp_mask ≡ (2 ^ 5 - 1) * 2 ^ 0)
    × (swpoff_mask ≡ (2 ^ 21 - 1) * 2 ^ 5)
    × (present_mask ≡ (2 ^ 1 - 1) * 2 ^ 31)
    × (swapped_mask ≡ (2 ^ 1 - 1) * 2 ^ 30)
    × (dirty_mask ≡ (2 ^ 1 - 1) * 2 ^ 28)
unfolding fpn_mask swptyp_mask swpoff_mask
masks_lem = (refl, refl, refl, refl, refl, refl)

-- The field of `w` digits from digit `lo` on.
abbrev pub field_of : ℕ → ℕ → ℕ → ℕ
field_of v w lo = v / 2 ^ lo % 2 ^ w

pub bit_and_mask : (v w lo : ℕ) → bit_and v ((2 ^ w - 1) * 2 ^ lo) ≡ field_of v w lo * 2 ^ lo
bit_and_mask v w lo =
    bit_and_shifted lo v (2 ^ w - 1) ∙ ap (λ k. k * 2 ^ lo) (bit_and_ones w (v / 2 ^ lo))

pub clrbit_lem : (v mask : ℕ) → v < 2 ^ 32 → mask < 2 ^ 32 → clrbit v mask + bit_and v mask ≡ v
unfolding clrbit
clrbit_lem v mask h k = omega (arith, bit_and_complement 32 v mask k)

pub setbit_lem : (v mask : ℕ) → setbit v mask + bit_and v mask ≡ v + mask
unfolding setbit
setbit_lem v mask = bit_or-bit_and v mask

pub setval_lem :
    (v value mask offst : ℕ)
    → v < 2 ^ 32
    → mask < 2 ^ 32
    → setval v value mask offst + bit_and v mask ≡ v + bit_and (u32 (value * 2 ^ offst)) mask
unfolding setval clrbit
setval_lem v value mask offst h k = omega (
  arith,
  bit_and_complement 32 v mask k,
  bit_or-bit_and (bit_and v (2 ^ 32 - 1 - mask)) (bit_and (u32 (value * 2 ^ offst)) mask),
  bit_and_disjoint 32 v (u32 (value * 2 ^ offst)) (2 ^ 32 - 1 - mask) mask (omega arith),
)
