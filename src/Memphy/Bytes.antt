-- ===== src/Memphy/Bytes.antt =====
-- src/mm-memphy.c: reads and writes of a device, sequential or not.
use ossim_os.Base.{
  ℕ, zero, suc, ◌+◌, ◌%◌, ◌^◌, ◌≤◌, ◌<◌, ◌≡◌, refl, ap, ◌∙◌, Bool, false, ◌&&◌, ◌||◌, none, some,
  arith, inl, inr,
}
use mathlib.Core.Bool.{not}
use native.Mathlib.Nat.{mod-eq_of_lt}
use ossim_os.Base.Tests.{Bool-cases, ◌==◌, ltb, leb, if◌then◌else◌}
use ossim_os.Base.Lists.{update}
use ossim_os.Memphy.{Memphy, mv_csr_from, mv_csr, seq_read, read, seq_write, write, is_negative}

-- Moving the cursor changes nothing else.
pub record SameBytes (mp mp' : Memphy) : Type 0 where
  pub storage : mp'.storage ≡ mp.storage
  pub maxsz : mp'.maxsz ≡ mp.maxsz
  pub rdmflg : mp'.rdmflg ≡ mp.rdmflg
  pub free : mp'.free_fp_list ≡ mp.free_fp_list

mv_csr_from-SameBytes :
    (fuel numstep offset : ℕ) (mp : Memphy) → SameBytes mp (mv_csr_from fuel numstep offset mp)
unfolding mv_csr_from
mv_csr_from-SameBytes zero numstep offset mp = record {
  storage = refl;
  maxsz = refl;
  rdmflg = refl;
  free = refl;
}
mv_csr_from-SameBytes (suc fuel) numstep offset mp =
    elim (Bool-cases (ltb numstep offset && ltb numstep mp.maxsz)) [
      | inl e ↦
          let b =
            mv_csr_from-SameBytes fuel (numstep + 1) offset
              (record mp { cursor = (mp.cursor + 1) % mp.maxsz }) in
          rw (e, mv_csr_from)
            (record { storage = b.storage; maxsz = b.maxsz; rdmflg = b.rdmflg; free = b.free })
      | inr e ↦
          rw (e, mv_csr_from) (record { storage = refl; maxsz = refl; rdmflg = refl; free = refl })
    ]

-- Where the cursor stands after the loop, for an address on the device.
cursor-mv_csr_from :
    (fuel numstep offset : ℕ) (mp : Memphy)
    → mp.cursor ≡ numstep
    → numstep ≤ offset
    → offset < mp.maxsz
    → offset ≤ numstep + fuel
    → (mv_csr_from fuel numstep offset mp).cursor ≡ offset
unfolding mv_csr_from
cursor-mv_csr_from zero numstep offset mp c h k f = omega arith
cursor-mv_csr_from (suc fuel) numstep offset mp c h k f =
    elim (Bool-cases (ltb numstep offset && ltb numstep mp.maxsz)) [
      | inl e ↦
          rw (e, mv_csr_from)
            (cursor-mv_csr_from fuel (numstep + 1) offset
              (record mp { cursor = (mp.cursor + 1) % mp.maxsz })
              (mod-eq_of_lt (ground arith) ∙ ap (λ n. n + 1) c) (ground arith) k (omega arith))
      | inr e ↦ rw (e, mv_csr_from) (ground arith)
    ]

-- `MEMPHY_mv_csr` leaves the cursor at exactly the address asked for, if it is on the device.
pub cursor-mv_csr : (mp : Memphy) (addr : ℕ) → addr < mp.maxsz → (mv_csr mp addr).cursor ≡ addr
unfolding mv_csr
cursor-mv_csr mp addr h =
    cursor-mv_csr_from mp.maxsz 0 addr (record mp { cursor = 0 }) refl (omega arith) h (omega arith)

mv_csr-SameBytes : (mp : Memphy) (offset : ℕ) → SameBytes mp (mv_csr mp offset)
unfolding mv_csr
mv_csr-SameBytes mp offset =
    let b = mv_csr_from-SameBytes mp.maxsz 0 offset (record mp { cursor = 0 }) in
    record { storage = b.storage; maxsz = b.maxsz; rdmflg = b.rdmflg; free = b.free }

-- Whether an access at the address is refused.
abbrev pub outside : Memphy → ℕ → Bool
outside mp addr = is_negative addr || leb mp.maxsz addr

-- A read returns the byte at the address, on either kind of device, or -1 outside the device; and
-- it moves at most the cursor.
pub read_lem :
    (mp : Memphy) (addr : ℕ)
    → ((read mp addr).0 ≡ (if outside mp addr then none else some (mp.storage addr)))
      × SameBytes mp (read mp addr).1
unfolding read seq_read
read_lem mp addr = elim (Bool-cases (outside mp addr)) [
  | inl o ↦ rw o (refl, record { storage = refl; maxsz = refl; rdmflg = refl; free = refl })
  | inr i ↦ elim (Bool-cases mp.rdmflg) [
    | inl r ↦ rw (i, r) (refl, record { storage = refl; maxsz = refl; rdmflg = refl; free = refl })
    | inr q ↦
        let b = mv_csr-SameBytes (record mp { rdmflg = false }) addr in
        rw (i, q)
          (
            ap (λ (f : ℕ → ℕ). some (f addr)) b.storage,
            record { storage = b.storage; maxsz = b.maxsz; rdmflg = b.rdmflg; free = b.free },
          )
  ]
]

-- What a write does to the device.
pub record Written (mp : Memphy) (addr value : ℕ) (mp' : Memphy) : Type 0 where
  pub storage : mp'.storage ≡ (if outside mp addr then mp.storage else update mp.storage addr value)
  pub maxsz : mp'.maxsz ≡ mp.maxsz
  pub rdmflg : mp'.rdmflg ≡ mp.rdmflg
  pub free : mp'.free_fp_list ≡ mp.free_fp_list

-- A write stores the byte at the address and nowhere else, on either kind of device, or returns -1
-- outside the device and stores nothing.
pub write_lem :
    (mp : Memphy) (addr value : ℕ)
    → ((write mp addr value).0 ≡ not (outside mp addr))
      × Written mp addr value (write mp addr value).1
unfolding write seq_write
write_lem mp addr value = elim (Bool-cases (outside mp addr)) [
  | inl o ↦ rw o (refl, record { storage = rw o; maxsz = refl; rdmflg = refl; free = refl })
  | inr i ↦ elim (Bool-cases mp.rdmflg) [
    | inl r ↦ rw (i, r) (refl, record { storage = rw i; maxsz = refl; rdmflg = refl; free = refl })
    | inr q ↦
        let b = mv_csr-SameBytes (record mp { rdmflg = false }) addr in
        rw (i, q)
          (
            refl,
            record {
              storage = rw i (ap (λ (f : ℕ → ℕ). update f addr value) b.storage);
              maxsz = b.maxsz;
              rdmflg = b.rdmflg;
              free = b.free;
            },
          )
  ]
]

-- A write is accepted exactly at the addresses of the device, which are not negative, and a read
-- returns the stored byte there and -1 elsewhere. A read after a write returns the byte written at the
-- address of an accepted write, and at any other what it would have returned before.
pub read-write :
    (mp : Memphy) (a value b : ℕ)
    → ((write mp a value).0 ≡ (ltb a (2 ^ 31) && ltb a mp.maxsz))
      × ((read mp b).0 ≡ (if ltb b (2 ^ 31) && ltb b mp.maxsz then some (mp.storage b) else none))
      × ((read (write mp a value).1 b).0
          ≡ (if (ltb a (2 ^ 31) && ltb a mp.maxsz) && (a == b) then some value else (read mp b).0))
read-write mp a value b =
    let w = write_lem mp a value in
    (
      ground (arith, w.0),
      ground (arith, (read_lem mp b).0),
      ground (
        arith,
        (read_lem (write mp a value).1 b).0,
        (read_lem mp b).0,
        w.0,
        w.1.storage,
        w.1.maxsz,
      ),
    )
