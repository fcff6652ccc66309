-- ===== src/Paging/SwapIn.antt =====
-- src/libmem.c, the branch of `pg_getpage` for a page on a swap device: the page is brought to RAM
-- with its bytes, and its swap frame is free.
use native.Mathlib.Decide.{ℕ_discrete}
use ossim_os.Base.{ℕ, ◌+◌, ◌*◌, ◌^◌, ◌<◌, ◌≡◌, ◌≢◌, sym, ap, ◌∙◌, subst, some, ◌∷◌, arith}
use ossim_os.Base.Lists.{count}
use ossim_os.Pte.{paging_fpn}
use ossim_os.Pte.Fields.{pte_set_fpn-Online}
use ossim_os.Paging.{Vm}
use ossim_os.Paging.Copy.{PageOn}
use ossim_os.Paging.Owner.{Place, ram, swap, Owned, Moved, Owned-move}
use ossim_os.Paging.View.{
  Sizes, SizesOk, Fits, Wf, Keeps, where_is, in_ram, stock, free_count, hold, hold_self, hold_ne,
  byte_of, peek, peek-some, peek_same, where_of-pte_set_fpn, where_of-ram, where_is-lt,
  where_is_pte,
}
use ossim_os.Paging.Load.{Loaded}

-- Page `p` stands in frame `k` of device `i`, and the caller holds frame `f` of RAM for it.
module _ {c : Sizes} (ok : SizesOk c) (held : Place → ℕ) {t : Vm} (p i k f : ℕ)
    (w : Wf c (hold (ram f) held) t) (away : where_is t p ≡ some (swap i k)) where
  p_lt : p < 16384
  p_lt = where_is-lt t p (swap i k) away

  frame_stock : stock (hold (ram f) held) t (ram f) ≡ 1
  frame_stock = omega (arith, w.owned.once (ram f), hold_self (ram f) held)

  frame_free : free_count t (ram f) + held (ram f) ≡ 0
  frame_free = omega (arith, w.owned.once (ram f), hold_self (ram f) held)

  frame-Fits : Fits c (ram f)
  frame-Fits = w.owned.stock_fits (ram f) (omega (arith, frame_stock))

  slot-Fits : Fits c (swap i k)
  slot-Fits = w.owned.room p (swap i k) away

  slot_stock : free_count t (swap i k) + held (swap i k) ≡ 0
  slot_stock =
      omega (arith, w.owned.own p (swap i k) away, hold_ne (ram f) (swap i k) held (λ e. cc e))

  pub load_from : PageOn (t.mswp i) k
  load_from = ground (arith, slot-Fits, w.swp_size i slot-Fits.0, ok.swp_small i slot-Fits.0)

  pub load_to : PageOn t.mram f
  load_to = omega (arith, frame-Fits, w.ram_size, ok.ram_small)

  module _ {z : Vm} (d : Loaded t i p k f z) where
    p-Moved : Moved (where_is t) (where_is z) p (ram f)
    p-Moved = record {
      there =
          let here =
            where_of-pte_set_fpn (t.mm.pgd p) f (w.words p p_lt)
              (omega (arith, frame-Fits, ok.ram_small)) in
          ground (arith, d.entry, p_lt, here);
      rest = λ q ne. ground (arith, d.entries q ne);
    }

    free_count-loaded : (x : Place) → x ≢ swap i k → free_count z x ≡ free_count t x
    free_count-loaded (ram h) ne = ap (count h) d.ram_free
    free_count-loaded (swap j h) ne = elim (ℕ_discrete j i) [
      | yes e ↦
          let other : k ≢ h = λ b. ne (cc (e, b)) in
          let here : (z.mswp j).free_fp_list ≡ k ∷ (t.mswp i).free_fp_list =
            ap (λ n. (z.mswp n).free_fp_list) e ∙ d.slots in
          let there : (t.mswp j).free_fp_list ≡ (t.mswp i).free_fp_list =
            ap (λ n. (t.mswp n).free_fp_list) e in
          ground (arith, ap (count h) here, ap (count h) there)
      | no n ↦
          let same : (z.mswp j).free_fp_list ≡ (t.mswp j).free_fp_list =
            ap (λ m. m.free_fp_list) (d.devices j n) in
          ground (arith, ap (count h) same)
    ]

    slot_given : stock held z (swap i k) ≡ 1
    slot_given = ground (arith, slot_stock, slot-Fits.0, ap (count k) d.slots)

    frame_used : stock held z (ram f) ≡ 0
    frame_used = omega (arith, free_count-loaded (ram f) (λ e. cc e), frame_free)

    Owned-loaded : Owned (Fits c) (where_is z) (stock held z)
    Owned-loaded =
        Owned-move w.owned p (ram f) p-Moved frame_stock (swap i k) away frame_used slot_given
          (λ x ne nf. omega (arith, free_count-loaded x nf, hold_ne (ram f) x held ne))

    fifo_loaded : (q : ℕ) → count q z.mm.fifo_pgn ≡ in_ram (where_is z q)
    fifo_loaded q = elim (ℕ_discrete q p) [
      | yes e ↦
          let now : in_ram (where_is z q) ≡ 1 =
            ap (λ n. in_ram (where_is z n)) e ∙ ap in_ram p-Moved.there in
          let was : in_ram (where_is t q) ≡ 0 =
            ap (λ n. in_ram (where_is t n)) e ∙ ap in_ram away in
          ground (arith, ap (count q) d.list, w.fifo q)
      | no ne ↦ ground (arith, ap (count q) d.list, w.fifo q, ap in_ram (p-Moved.rest q ne))
    ]

    word_loaded : z.mm.pgd p < 2 ^ 32
    word_loaded = omega (arith, d.entry, (pte_set_fpn-Online (t.mm.pgd p) f (w.words p p_lt)).word)

    pub Wf-loaded : Wf c held z
    Wf-loaded = record {
      ram_size = d.ram_size ∙ w.ram_size;
      swp_size = λ j h. elim (ℕ_discrete j i) [
        | yes e ↦
            subst (λ n. (z.mswp n).maxsz ≡ c.swp_size n) (sym e) (d.size ∙ w.swp_size i slot-Fits.0)
        | no ne ↦ ap (λ m. m.maxsz) (d.devices j ne) ∙ w.swp_size j h
      ];
      active = omega (arith, d.active, w.active);
      words = λ q h. elim (ℕ_discrete q p) [
        | yes e ↦ subst (λ n. z.mm.pgd n < 2 ^ 32) (sym e) word_loaded
        | no ne ↦ omega (arith, d.entries q ne, w.words q h)
      ];
      owned = Owned-loaded;
      fifo = fifo_loaded;
    }

    bytes_loaded : (x : Place) (off : ℕ) → x ≢ ram f → off < 256 → byte_of z x off ≡ byte_of t x off
    bytes_loaded (ram h) off ne l = d.cells h off (λ e. ne (ap ram e)) l
    bytes_loaded (swap j h) off ne l = elim (ℕ_discrete j i) [
      | yes e ↦
          ap (λ n. (z.mswp n).storage (h * 256 + off)) e
          ∙ ap (λ (m : ℕ → ℕ). m (h * 256 + off)) d.bytes
          ∙ ap (λ n. (t.mswp n).storage (h * 256 + off)) (sym e)
      | no n ↦ ap (λ m. m.storage (h * 256 + off)) (d.devices j n)
    ]

    p_bytes : (off : ℕ) → off < 256 → peek z p off ≡ peek t p off
    p_bytes off h =
        peek-some z p off (ram f) p-Moved.there
        ∙ ap some (d.copy off h)
        ∙ sym (peek-some t p off (swap i k) away)

    pub Keeps-loaded : Keeps held t z
    Keeps-loaded = record {
      pages = λ q off h. elim (ℕ_discrete q p) [
        | yes e ↦ subst (λ n. peek z n off ≡ peek t n off) (sym e) (p_bytes off h)
        | no ne ↦ peek_same t z q off (p-Moved.rest q ne) (λ x e.
            bytes_loaded x off
              (λ b.
                absurd (
                  omega
                    (arith, w.owned.own q x e, ap (stock (hold (ram f) held) t) b, frame_stock)))
              h)
      ];
      others =
          λ x off l h. bytes_loaded x off (λ b. absurd (omega (arith, ap held b, frame_free))) h;
    }

    pub frame_loaded : (where_is z p ≡ some (ram f)) × (paging_fpn (z.mm.pgd p) ≡ f)
    frame_loaded =
        let pte = where_is_pte z p p_lt in
        let (_, _, e) = where_of-ram (z.mm.pgd p) f (sym pte ∙ p-Moved.there) in (p-Moved.there, e)
