-- ===== src/Libmem/Bytes.antt =====
-- src/libmem.c, `pg_getval` and `pg_setval`: the memory of a process is an array of bytes, wherever
-- its pages stand.
use ossim_os.Base.{
  subst, ℕ, ◌+◌, ◌*◌, ◌/◌, ◌%◌, ◌<◌, ◌≡◌, ◌≢◌, refl, sym, ap, ◌∙◌, ◌⊎◌, inl, inr, Bool, Option,
  none, some, true, false, arith,
}
use ossim_os.Base.Lists.{update}
use ossim_os.Memphy.{Memphy}
use ossim_os.Paging.{Vm, pg_getpage}
use ossim_os.Paging.Monad.{bind_some}
use ossim_os.Paging.Owner.{Place, ram, swap}
use ossim_os.Paging.View.{
  Sizes, SizesOk, Wf, Keeps, Keeps-trans, where_is, byte_of, peek, peek-some, peek_same,
}
use ossim_os.Paging.GetPage.{SameProcess, Unavailable, pg_getpage-GotPage}
use ossim_os.Area.{paging_pgn, paging_offst}
use ossim_os.Libmem.{pg_getval, pg_setval, getval_at, setval_at, phyaddr}
use ossim_os.Libmem.Access.{
  paging_pgn_lem, paging_offst_lem, as_byte, at_addr, with_mram, getval_at_lem, setval_at_lem,
  Wf-with_mram, on_ram, below_int,
}

-- A read gives the byte at the address, or fails; either way every byte is what it was.
abbrev pub ReadByte : Sizes → (Place → ℕ) → Vm → ℕ → Option (Option ℕ × Vm) → Type 0
ReadByte c held s addr r =
    (t : Vm) × (Wf c held t × Keeps held s t × SameProcess s t)
    × (((r ≡ some (none, t)) × Unavailable s (addr / 256 % 16384))
        ⊎ ((value : ℕ) × (r ≡ some (some value, t)) × (at_addr s addr ≡ some value)))

with_cursor-Keeps :
    (held : Place → ℕ) (t : Vm) (mram : Memphy)
    → mram.storage ≡ t.mram.storage
    → Keeps held t (with_mram t mram)
with_cursor-Keeps held t mram e = record {
  pages = λ p off h. peek_same t (with_mram t mram) p off refl (λ x _. bytes x off);
  others = λ x off k h. bytes x off;
}
  where
    bytes : (x : Place) (off : ℕ) → byte_of (with_mram t mram) x off ≡ byte_of t x off
    bytes (ram k) off = ap (λ (m : ℕ → ℕ). m (k * 256 + off)) e
    bytes (swap i k) off = refl

-- From a state with the invariant, `pg_getval` never faults, and keeps the invariant and every byte of
-- every process. It returns the byte at the address; or -1, and then its page was never mapped, or is
-- on a swap device and there was no frame for it.
pub pg_getval-ReadByte :
    {c : Sizes} (ok : SizesOk c) (held : Place → ℕ) (s : Vm) (addr : ℕ)
    → Wf c held s
    → ReadByte c held s addr (pg_getval addr s)
unfolding pg_getval
pg_getval-ReadByte ok held s addr w =
    let p = paging_pgn addr in
    let off = paging_offst addr in
    let small : off < 256 = omega (arith, paging_offst_lem addr) in
    elim (pg_getpage-GotPage ok held s p w) [
      | inl (t, e, wt, kept, same, _, why) ↦ (
        t,
        (wt, kept, same),
        inl (
          bind_some (pg_getpage p) (getval_at off) e,
          subst (Unavailable s) (paging_pgn_lem addr) why,
        ),
      )
      | inr (f, t, e, wt, kept, same, here) ↦
          let (mram, g, b) =
            getval_at_lem t f off (on_ram ok wt p f off here small)
              (below_int ok wt p f off here small) in
          let byte : peek s p off ≡ some (t.mram.storage (f * 256 + off)) =
            sym (kept.pages p off small) ∙ peek-some t p off (ram f) here in
          (
            with_mram t mram,
            (
              Wf-with_mram mram b.maxsz b.free wt,
              Keeps-trans held kept (with_cursor-Keeps held t mram b.storage),
              record { areas = same.areas; symbols = same.symbols },
            ),
            inr (
              t.mram.storage (phyaddr f off) % 256,
              bind_some (pg_getpage p) (getval_at off) e ∙ g,
              ap (λ n. as_byte (peek s n (addr % 256))) (sym (paging_pgn_lem addr))
                  ∙ ap (λ n. as_byte (peek s p n)) (sym (paging_offst_lem addr))
                  ∙ ap as_byte byte,
            ),
          )
    ]

-- Every byte but the one at offset `off` of page `p` is what it was, and every byte of the frames
-- that others hold.
pub record KeepsBut (held : Place → ℕ) (s : Vm) (p off : ℕ) (t : Vm) : Type 0 where
  pub pages : (q k : ℕ) → k < 256 → ¬ ((q ≡ p) × (k ≡ off)) → peek t q k ≡ peek s q k
  pub others : (x : Place) (k : ℕ) → 0 < held x → k < 256 → byte_of t x k ≡ byte_of s x k

-- A write leaves the byte at the address and every other byte alone, or fails and changes no byte.
abbrev pub WroteByte : Sizes → (Place → ℕ) → Vm → ℕ → ℕ → Option (Bool × Vm) → Type 0
WroteByte c held s addr value r =
    (t : Vm) × (Wf c held t × SameProcess s t)
    × (((r ≡ some (false, t)) × Keeps held s t × Unavailable s (addr / 256 % 16384))
        ⊎ ((r ≡ some (true, t))
            × (at_addr t addr ≡ some (value % 256))
            × KeepsBut held s (addr / 256 % 16384) (addr % 256) t))

module _ {c : Sizes} (held : Place → ℕ) {t : Vm} (w : Wf c held t) (p f off value : ℕ)
    (here : where_is t p ≡ some (ram f)) (small : off < 256) (mram : Memphy)
    (e : mram.storage ≡ update t.mram.storage (phyaddr f off) (value % 256)) where
  stored_elsewhere :
      (x : Place) (k : ℕ)
      → k < 256
      → ¬ ((x ≡ ram f) × (k ≡ off))
      → byte_of (with_mram t mram) x k ≡ byte_of t x k
  stored_elsewhere (swap i g) k l ne = refl
  stored_elsewhere (ram g) k l ne =
      let apart : g * 256 + k ≢ f * 256 + off =
        λ h. ne (ap ram (omega (arith, small)), omega (arith, small)) in
      ap (λ (m : ℕ → ℕ). m (g * 256 + k)) e ∙ ground arith

  store-peek : peek (with_mram t mram) p off ≡ some (value % 256)
  store-peek =
      peek-some (with_mram t mram) p off (ram f) here
      ∙ ap (λ (m : ℕ → ℕ). some (m (f * 256 + off))) e
      ∙ ground arith

  store-KeepsBut : KeepsBut held t p off (with_mram t mram)
  store-KeepsBut = record {
    pages = λ q k l ne. peek_same t (with_mram t mram) q k refl (λ x g.
        stored_elsewhere x k l (λ (z, h). ne (w.owned.alone q p (ram f) (g ∙ ap some z) here, h)));
    others = λ x k pos l.
        stored_elsewhere x k l
          (λ (z, _). absurd (omega (arith, w.owned.own p (ram f) here, ap held z)));
  }

-- From a state with the invariant, `pg_setval` never faults, and keeps the invariant. It stores the
-- byte at the address and changes no other byte of any process; or it returns -1 and changes no byte,
-- and then its page was never mapped, or is on a swap device and there was no frame for it.
pub pg_setval-WroteByte :
    {c : Sizes} (ok : SizesOk c) (held : Place → ℕ) (s : Vm) (addr value : ℕ)
    → Wf c held s
    → WroteByte c held s addr value (pg_setval addr value s)
unfolding pg_setval
pg_setval-WroteByte ok held s addr value w =
    let p = paging_pgn addr in
    let off = paging_offst addr in
    let small : off < 256 = omega (arith, paging_offst_lem addr) in
    elim (pg_getpage-GotPage ok held s p w) [
      | inl (t, e, wt, kept, same, _, why) ↦ (
        t,
        (wt, same),
        inl (
          bind_some (pg_getpage p) (setval_at off value) e,
          kept,
          subst (Unavailable s) (paging_pgn_lem addr) why,
        ),
      )
      | inr (f, t, e, wt, kept, same, here) ↦
          let (mram, g, b, size, free) =
            setval_at_lem t f off value (on_ram ok wt p f off here small)
              (below_int ok wt p f off here small) in
          let but = store-KeepsBut held wt p f off value here small mram b in
          let stored = store-peek held wt p f off value here small mram b in
          (
            with_mram t mram,
            (Wf-with_mram mram size free wt, record { areas = same.areas; symbols = same.symbols }),
            inr (
              bind_some (pg_getpage p) (setval_at off value) e ∙ g,
              ap (λ n. as_byte (peek (with_mram t mram) n (addr % 256))) (sym (paging_pgn_lem addr))
                  ∙ ap (λ n. as_byte (peek (with_mram t mram) p n)) (sym (paging_offst_lem addr))
                  ∙ ap as_byte stored
                  ∙ ap some (omega arith),
              record {
                pages = λ q k l ne.
                    but.pages q k l
                      (λ (a, d). ne (a ∙ paging_pgn_lem addr, d ∙ paging_offst_lem addr))
                    ∙ kept.pages q k l;
                others = λ x k pos l. but.others x k pos l ∙ kept.others x k pos l;
              },
            ),
          )
    ]
