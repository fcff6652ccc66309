-- ===== src/Paging/SwapOut.antt =====
-- src/libmem.c, `__swap_out_page`: a page goes to the swap device with its bytes, and its frame is
-- in the hands of the caller.
use native.Mathlib.Decide.{ℕ_discrete}
use ossim_os.Base.{
  ℕ, ◌+◌, ◌*◌, ◌^◌, ◌<◌, ◌≡◌, ◌≢◌, refl, sym, ap, ◌∙◌, subst, Option, none, some, List, ◌∷◌, arith,
}
use ossim_os.Base.Tests.{◌==◌, if◌then◌else◌}
use ossim_os.Base.Lists.{count}
use ossim_os.Pte.{paging_fpn}
use ossim_os.Pte.Fields.{pte_set_swap-Offline}
use ossim_os.Paging.{Vm, with_fifo, with_mswp}
use ossim_os.Paging.Copy.{PageOn}
use ossim_os.Paging.Owner.{Place, ram, swap, Owned, Moved, Owned-move}
use ossim_os.Paging.View.{
  Sizes, SizesOk, Fits, Wf, Keeps, Stays, where_is, in_ram, stock, free_count, hold, hold_self,
  hold_ne, byte_of, peek, peek-some, peek_same, where_of-pte_set_swap, where_of-ram, where_is-lt,
}
use ossim_os.Paging.Evict.{Evicted}

in_ram-pos : (o : Option Place) → 0 < in_ram o → (f : ℕ) × (o ≡ some (ram f))
in_ram-pos none h = absurd (omega arith)
in_ram-pos (some (ram f)) h = (f, refl)
in_ram-pos (some (swap t f)) h = absurd (omega arith)

-- The list for the replacement may be reordered.
pub Wf-with_fifo :
    {c : Sizes} {held : Place → ℕ} {s : Vm} (l : List ℕ)
    → ((p : ℕ) → count p l ≡ count p s.mm.fifo_pgn)
    → Wf c held s
    → Wf c held (with_fifo s l)
Wf-with_fifo l e w = record {
  ram_size = w.ram_size;
  swp_size = w.swp_size;
  active = w.active;
  words = w.words;
  owned = w.owned;
  fifo = λ p. e p ∙ w.fifo p;
}

pub Keeps-with_fifo : (held : Place → ℕ) (s : Vm) (l : List ℕ) → Keeps held s (with_fifo s l)
Keeps-with_fifo held s l = record { pages = λ p off h. refl; others = λ x off h k. refl }

-- Page `v` has been chosen, and swap frame `g` taken for it.
module _ {c : Sizes} (ok : SizesOk c) {held : Place → ℕ} {s : Vm} (w : Wf c held s) (v g : ℕ)
    (rest rest_g : List ℕ)
    (victim : (p : ℕ) → count p s.mm.fifo_pgn ≡ count p rest + (if v == p then 1 else 0))
    (slot : (s.mswp s.active_mswp_id).free_fp_list ≡ g ∷ rest_g) where
  abbrev pub a : ℕ
  a = s.active_mswp_id

  abbrev pub f : ℕ
  f = paging_fpn (s.mm.pgd v)

  -- The state that `evict` starts from.
  abbrev pub mid : Vm
  mid = with_mswp (with_fifo s rest) a (record (s.mswp a) { free_fp_list = rest_g })

  v_in_ram : where_is s v ≡ some (ram f)
  v_in_ram =
      let (k, e) = in_ram-pos (where_is s v) (ground (arith, w.fifo v, victim v)) in
      let lt = where_is-lt s v (ram k) e in
      let (_, _, fpn) = where_of-ram (s.mm.pgd v) k (ground arith) in
      e ∙ ap (λ n. some (ram n)) (sym fpn)

  pub v_lt : v < 16384
  v_lt = where_is-lt s v (ram f) v_in_ram

  g_stock : stock held s (swap a g) ≡ 1
  g_stock = ground (arith, w.owned.once (swap a g), w.active)

  g-Fits : Fits c (swap a g)
  g-Fits = w.owned.stock_fits (swap a g) (omega (arith, g_stock))

  pub ram_on : PageOn mid.mram f
  ram_on = omega (arith, w.owned.room v (ram f) v_in_ram, w.ram_size, ok.ram_small)

  pub swap_on : PageOn (mid.mswp a) g
  swap_on = ground (arith, g-Fits, w.swp_size a w.active, ok.swp_small a w.active)

  module _ {t : Vm} (d : Evicted mid a v f g t) where
    v-Moved : Moved (where_is s) (where_is t) v (swap a g)
    v-Moved = record {
      there =
          let here =
            where_of-pte_set_swap (s.mm.pgd v) a g (w.words v v_lt) w.active
              (ground (arith, g-Fits, ok.swp_small a w.active)) in
          ground (arith, d.entry, v_lt, here);
      rest = λ p ne. ground (arith, d.entries p ne);
    }

    left_slots : (t.mswp a).free_fp_list ≡ rest_g
    left_slots = d.slots ∙ ground arith

    -- As far as the free lists go, only `g` has left one.
    free_count-evicted : (x : Place) → x ≢ swap a g → free_count t x ≡ free_count s x
    free_count-evicted (ram k) ne = ap (count k) d.source.free
    free_count-evicted (swap i k) ne = elim (ℕ_discrete i a) [
      | yes e ↦
          let other : g ≢ k = λ h. ne (cc (e, h)) in
          let here : (t.mswp i).free_fp_list ≡ rest_g =
            ap (λ n. (t.mswp n).free_fp_list) e ∙ left_slots in
          let there : (s.mswp i).free_fp_list ≡ g ∷ rest_g =
            ap (λ n. (s.mswp n).free_fp_list) e ∙ slot in
          ground (arith, ap (count k) here, ap (count k) there)
      | no n ↦
          let same : (t.mswp i).free_fp_list ≡ (s.mswp i).free_fp_list =
            ground (arith, d.devices i n) in
          ground (arith, ap (count k) same)
    ]

    g_gone : free_count t (swap a g) ≡ 0
    g_gone = ground (arith, w.owned.once (swap a g), w.active, ap (count g) left_slots)

    f_given : stock (hold (ram f) held) t (ram f) ≡ 1
    f_given = omega (
      arith,
      hold_self (ram f) held,
      free_count-evicted (ram f) (λ e. cc e),
      w.owned.own v (ram f) v_in_ram,
    )

    g_not_held : held (swap a g) ≡ 0
    g_not_held = ground (arith, w.owned.once (swap a g), w.active)

    g_used : stock (hold (ram f) held) t (swap a g) ≡ 0
    g_used = omega (arith, hold_ne (ram f) (swap a g) held (λ e. cc e), g_gone, g_not_held)

    Owned-after : Owned (Fits c) (where_is t) (stock (hold (ram f) held) t)
    Owned-after =
        Owned-move w.owned v (swap a g) v-Moved g_stock (ram f) v_in_ram g_used f_given
          (λ x ne nf. omega (arith, free_count-evicted x ne, hold_ne (ram f) x held nf))

    fifo_after : (p : ℕ) → count p t.mm.fifo_pgn ≡ in_ram (where_is t p)
    fifo_after p = elim (ℕ_discrete p v) [
      | yes e ↦
          let gone : in_ram (where_is t p) ≡ 0 =
            ap (λ n. in_ram (where_is t n)) e ∙ ap in_ram v-Moved.there in
          let was : in_ram (where_is s p) ≡ 1 =
            ap (λ n. in_ram (where_is s n)) e ∙ ap in_ram v_in_ram in
          ground (arith, d.list, ap (count p) d.list, victim p, w.fifo p)
      | no ne ↦
          ground (arith, ap (count p) d.list, victim p, w.fifo p, ap in_ram (v-Moved.rest p ne))
    ]

    size_after : (t.mswp a).maxsz ≡ c.swp_size a
    size_after = ground (arith, d.size, w.swp_size a w.active)

    word_after : t.mm.pgd v < 2 ^ 32
    word_after =
        omega (arith, d.entry, (pte_set_swap-Offline (s.mm.pgd v) a g (w.words v v_lt)).word)

    pub Wf-after : Wf c (hold (ram f) held) t
    Wf-after = record {
      ram_size = d.source.maxsz ∙ w.ram_size;
      swp_size = λ i h. elim (ℕ_discrete i a) [
        | yes e ↦ subst (λ n. (t.mswp n).maxsz ≡ c.swp_size n) (sym e) size_after
        | no ne ↦ ground (arith, d.devices i ne, w.swp_size i h)
      ];
      active = ground (arith, d.active, w.active);
      words = λ p h. elim (ℕ_discrete p v) [
        | yes e ↦ subst (λ n. t.mm.pgd n < 2 ^ 32) (sym e) word_after
        | no ne ↦ ground (arith, d.entries p ne, w.words p h)
      ];
      owned = Owned-after;
      fifo = fifo_after;
    }

    bytes_after :
        (x : Place) (off : ℕ) → x ≢ swap a g → off < 256 → byte_of t x off ≡ byte_of s x off
    bytes_after (ram k) off ne h = ap (λ (m : ℕ → ℕ). m (k * 256 + off)) d.source.storage
    bytes_after (swap i k) off ne h = elim (ℕ_discrete i a) [
      | yes e ↦
          let other : k ≢ g = λ z. ne (cc (e, z)) in
          let here : (t.mswp a).storage (k * 256 + off) ≡ (s.mswp a).storage (k * 256 + off) =
            ground (arith, d.cells k off other h) in
          ap (λ n. (t.mswp n).storage (k * 256 + off)) e
          ∙ here
          ∙ ap (λ n. (s.mswp n).storage (k * 256 + off)) (sym e)
      | no n ↦ ground (arith, d.devices i n)
    ]

    v_bytes : (off : ℕ) → off < 256 → peek t v off ≡ peek s v off
    v_bytes off h =
        peek-some t v off (swap a g) v-Moved.there
        ∙ ap some (d.copy off h)
        ∙ sym (peek-some s v off (ram f) v_in_ram)

    pub Keeps-after : Keeps held s t
    Keeps-after = record {
      pages = λ p off h. elim (ℕ_discrete p v) [
        | yes e ↦ subst (λ n. peek t n off ≡ peek s n off) (sym e) (v_bytes off h)
        | no ne ↦ peek_same s t p off (v-Moved.rest p ne) (λ x e.
            bytes_after x off
              (λ z. absurd (omega (arith, w.owned.own p x e, ap (stock held s) z, g_stock))) h)
      ];
      others =
          λ x off k h. bytes_after x off (λ z. absurd (omega (arith, ap held z, g_not_held))) h;
    }

    pub Stays-after : Stays s t
    Stays-after = record {
      away = λ p out.
          v-Moved.rest p
            (λ e. absurd (omega (arith, ap (λ n. in_ram (where_is s n)) e, ap in_ram v_in_ram)));
      areas = d.areas;
      symbols = d.symbols;
    }
