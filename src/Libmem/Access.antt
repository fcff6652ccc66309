-- ===== src/Libmem/Access.antt =====
-- src/libmem.c, `pg_getval` and `pg_setval`: the memory of a process is an array of bytes, wherever
-- its pages stand.
use ossim_os.Base.{
  ℕ, ◌+◌, ◌/◌, ◌%◌, ◌^◌, ◌<◌, ◌≡◌, refl, ap, ◌∙◌, Option, none, some, true, false, arith,
}
use ossim_os.Base.Lists.{update, count}
use ossim_os.Pte.{getval, genmask}
use ossim_os.Pte.Masks.{bit_and_mask}
use ossim_os.Memphy.{Memphy, read, write}
use ossim_os.Memphy.Bytes.{SameBytes, read_lem, write_lem, outside}
use ossim_os.Paging.{Vm}
use ossim_os.Paging.Owner.{Place, ram, swap, Owned-stock}
use ossim_os.Paging.View.{Sizes, SizesOk, Wf, where_is, peek, stock}
use ossim_os.Area.{paging_pgn, paging_offst, sys_memmap, io_read, io_write}
use ossim_os.Libmem.{getval_at, setval_at, phyaddr}

pub paging_pgn_lem : (addr : ℕ) → paging_pgn addr ≡ addr / 256 % 16384
unfolding paging_pgn getval genmask
paging_pgn_lem addr = omega (arith, bit_and_mask addr 14 8)

pub paging_offst_lem : (addr : ℕ) → paging_offst addr ≡ addr % 256
unfolding paging_offst getval genmask
paging_offst_lem addr = omega (arith, bit_and_mask addr 8 0)

abbrev pub as_byte : Option ℕ → Option ℕ
as_byte none = none
as_byte (some value) = some (value % 256)

-- The byte of the process at an address of 22 bits.
abbrev pub at_addr : Vm → ℕ → Option ℕ
at_addr s addr = as_byte (peek s (addr / 256 % 16384) (addr % 256))

abbrev pub with_mram : Vm → Memphy → Vm
with_mram t mram = record t { mram = mram }

pub inside_ram : (mp : Memphy) (a : ℕ) → a < mp.maxsz → a < 2 ^ 31 → outside mp a ≡ false
inside_ram mp a h l = ground arith

-- The read of a byte in a frame of RAM, as `pg_getval` asks for it.
pub getval_at_lem :
    (t : Vm) (f off : ℕ)
    → phyaddr f off < t.mram.maxsz
    → phyaddr f off < 2 ^ 31
    → (mram : Memphy) × (getval_at off (some f) t
        ≡ some (some (t.mram.storage (phyaddr f off) % 256), with_mram t mram))
      × SameBytes t.mram mram
unfolding sys_memmap io_read
getval_at_lem t f off h l =
    let a = phyaddr f off in
    let (got, same) = read_lem t.mram a in
    let e : (read t.mram a).0 ≡ some (t.mram.storage a) = got ∙ rw (inside_ram t.mram a h l) in
    ((read t.mram a).1, ground (arith, e), same)

-- The write of a byte in a frame of RAM, as `pg_setval` asks for it.
pub setval_at_lem :
    (t : Vm) (f off value : ℕ)
    → phyaddr f off < t.mram.maxsz
    → phyaddr f off < 2 ^ 31
    → (mram : Memphy) × (setval_at off value (some f) t ≡ some (true, with_mram t mram))
      × (mram.storage ≡ update t.mram.storage (phyaddr f off) (value % 256))
      × (mram.maxsz ≡ t.mram.maxsz)
      × (mram.free_fp_list ≡ t.mram.free_fp_list)
unfolding sys_memmap io_write
setval_at_lem t f off value h l =
    let a = phyaddr f off in
    let (_, w) = write_lem t.mram a (value % 256) in
    let i = inside_ram t.mram a h l in
    ((write t.mram a (value % 256)).1, refl, w.storage ∙ rw i refl, w.maxsz, w.free)

-- The invariant does not look at the bytes of RAM.
pub Wf-with_mram :
    {c : Sizes} {held : Place → ℕ} {t : Vm} (mram : Memphy)
    → mram.maxsz ≡ t.mram.maxsz
    → mram.free_fp_list ≡ t.mram.free_fp_list
    → Wf c held t
    → Wf c held (with_mram t mram)
Wf-with_mram {held} {t} mram e g w = record {
  ram_size = e ∙ w.ram_size;
  swp_size = w.swp_size;
  active = w.active;
  words = w.words;
  owned = Owned-stock w.owned stocks;
  fifo = w.fifo;
}
  where
    stocks : (x : Place) → stock held (with_mram t mram) x ≡ stock held t x
    stocks (ram k) = ap (λ l. count k l + held (ram k)) g
    stocks (swap i k) = refl

-- The physical address of a byte of a page in RAM is on the device.
module _ {c : Sizes} (ok : SizesOk c) {held : Place → ℕ} {t : Vm} (w : Wf c held t) (p f off : ℕ)
    (here : where_is t p ≡ some (ram f)) (small : off < 256) where
  pub on_ram : phyaddr f off < t.mram.maxsz
  on_ram = omega (arith, w.owned.room p (ram f) here, w.ram_size)

  pub below_int : phyaddr f off < 2 ^ 31
  below_int = omega (arith, w.owned.room p (ram f) here, ok.ram_small)
