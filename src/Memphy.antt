-- ===== src/Memphy.antt =====
-- src/mm-memphy.c: a physical memory device, RAM or swap. A device pointer is never NULL in the
-- program. An `int` argument is its 32-bit pattern, negative from 2 ^ 31 on; a byte is below 256.
-- `used_fp_list` is set to NULL and never read, and is not a field here.
pub mod Bytes
pub mod Frames
use ossim_os.Base.{
  ℕ, zero, suc, ◌+◌, ◌-◌, ◌*◌, ◌/◌, ◌%◌, ◌^◌, Bool, true, false, ◌&&◌, ◌||◌, Option, none, some,
  List, [], ◌∷◌,
}
use mathlib.Core.Bool.{not}
use ossim_os.Base.Tests.{ltb, leb, ◌==◌, if◌then◌else◌}
use ossim_os.Base.Lists.{update}

abbrev pub page_size : ℕ
page_size = 256

-- `struct memphy_struct`
pub record Memphy : Type 0 where
  pub storage : ℕ → ℕ
  pub maxsz : ℕ
  pub rdmflg : Bool
  pub cursor : ℕ
  pub free_fp_list : List ℕ

abbrev pub is_negative : ℕ → Bool
is_negative n = leb (2 ^ 31) n

-- The loop of `MEMPHY_mv_csr`, which makes no more than `maxsz` steps.
unfoldable pub mv_csr_from : ℕ → ℕ → ℕ → Memphy → Memphy
mv_csr_from zero numstep offset mp = mp
mv_csr_from (suc fuel) numstep offset mp = elim (ltb numstep offset && ltb numstep mp.maxsz) [
  | true ↦ mv_csr_from fuel (numstep + 1) offset (record mp { cursor = (mp.cursor + 1) % mp.maxsz })
  | false ↦ mp
]

unfoldable pub mv_csr : Memphy → ℕ → Memphy
mv_csr mp offset = mv_csr_from mp.maxsz 0 offset (record mp { cursor = 0 })

-- Reads return the byte, or `none` where the C function returns -1.
unfoldable pub seq_read : Memphy → ℕ → Option ℕ × Memphy
seq_read mp addr =
    if mp.rdmflg then (none, mp) else (let mp' = mv_csr mp addr in (some (mp'.storage addr), mp'))

unfoldable pub read : Memphy → ℕ → Option ℕ × Memphy
read mp addr =
    if is_negative addr || leb mp.maxsz addr
    then (none, mp)
    else (if mp.rdmflg then (some (mp.storage addr), mp) else seq_read mp addr)

-- Writes return whether the C function returns 0.
unfoldable pub seq_write : Memphy → ℕ → ℕ → Bool × Memphy
seq_write mp addr value =
    if mp.rdmflg
    then (false, mp)
    else (let mp' = mv_csr mp addr in
        (true, record mp' { storage = update mp'.storage addr value }))

unfoldable pub write : Memphy → ℕ → ℕ → Bool × Memphy
write mp addr value =
    if is_negative addr || leb mp.maxsz addr
    then (false, mp)
    else (if mp.rdmflg
        then (true, record mp { storage = update mp.storage addr value })
        else seq_write mp addr value)

-- The list that the loop of `MEMPHY_format` builds from `iter` on.
unfoldable pub frames_from : ℕ → ℕ → List ℕ
frames_from zero iter = []
frames_from (suc left) iter = iter ∷ frames_from left (iter + 1)

unfoldable pub format : Memphy → ℕ → Memphy
format mp pagesz =
    let numfp = mp.maxsz / pagesz in
    if numfp == 0 then mp else record mp { free_fp_list = frames_from numfp 0 }

unfoldable pub get_freefp : Memphy → Option ℕ × Memphy
get_freefp mp = elim mp.free_fp_list [
  | [] ↦ (none, mp)
  | fpn ∷ rest ↦ (some fpn, record mp { free_fp_list = rest })
]

unfoldable pub put_freefp : Memphy → ℕ → Memphy
put_freefp mp fpn = record mp { free_fp_list = fpn ∷ mp.free_fp_list }

-- The cursor of a random access device is not set, and never read.
unfoldable pub init_memphy : ℕ → Bool → Memphy
init_memphy max_size randomflg =
    let mp =
      format
        (record {
          storage = λ _. 0;
          maxsz = max_size;
          rdmflg = randomflg;
          cursor = 0;
          free_fp_list = [];
        })
        page_size in
    record mp { rdmflg = randomflg }
