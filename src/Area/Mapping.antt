-- ===== src/Area/Mapping.antt =====
-- src/mm.c, `vmap_page_range`: the frames in hand become those of the pages from a page on.
use native.Mathlib.Decide.{ℕ_discrete}
use ossim_os.Base.{ℕ, suc, ◌+◌, ◌^◌, ◌<◌, ◌≤◌, ◌≡◌, refl, ap, ◌∙◌, none, some, List, [], ◌∷◌, arith}
use ossim_os.Base.Lists.{count, length, update}
use ossim_os.Pte.{pte_set_fpn}
use ossim_os.Pte.Fields.{pte_set_fpn-Online}
use ossim_os.Paging.{Vm, with_pgd, with_fifo, load_pte, store_pte, enlist_pgn_node}
use ossim_os.Paging.Monad.{bind_some, load_pte_eq, store_pte_eq}
use ossim_os.Paging.Owner.{Place, ram, swap, Owned, Moved, Owned-map}
use ossim_os.Paging.View.{
  Sizes, SizesOk, Fits, Wf, where_is, in_ram, hold, hold_self, hold_ne, stock, free_count, byte_of,
  where_of-pte_set_fpn,
}
use ossim_os.Area.{map_page, map_pages}
use ossim_os.Area.Collect.{hold_all}

-- The state after frame `f` has been mapped to page `p`.
abbrev pub mapped : Vm → ℕ → ℕ → Vm
mapped s p f =
    with_fifo (with_pgd s (update s.mm.pgd p (pte_set_fpn (s.mm.pgd p) f))) (p ∷ s.mm.fifo_pgn)

map_page_eq : (s : Vm) (p f : ℕ) → p < 16384 → map_page p f s ≡ some (tt, mapped s p f)
unfolding map_page enlist_pgn_node
map_page_eq s p f h =
    bind_some (load_pte p) _ (load_pte_eq s p h)
    ∙ bind_some (store_pte p (pte_set_fpn (s.mm.pgd p) f)) _
        (store_pte_eq s p (pte_set_fpn (s.mm.pgd p) f) h)

bytes-mapped :
    (s : Vm) (p f : ℕ) (x : Place) (off : ℕ) → byte_of (mapped s p f) x off ≡ byte_of s x off
bytes-mapped s p f (ram k) off = refl
bytes-mapped s p f (swap i k) off = refl

-- Frame `f` is in hand, and page `p` has none.
module _ {c : Sizes} (ok : SizesOk c) (held : Place → ℕ) (s : Vm) (p f : ℕ)
    (w : Wf c (hold (ram f) held) s) (lt : p < 16384) (absent : where_is s p ≡ none) where
  in_hand : stock (hold (ram f) held) s (ram f) ≡ 1
  in_hand = omega (arith, w.owned.once (ram f), hold_self (ram f) held)

  hand-Fits : Fits c (ram f)
  hand-Fits = w.owned.stock_fits (ram f) (omega (arith, in_hand))

  pub mapped-Moved : Moved (where_is s) (where_is (mapped s p f)) p (ram f)
  mapped-Moved = record {
    there =
        let here =
          where_of-pte_set_fpn (s.mm.pgd p) f (w.words p lt)
            (omega (arith, hand-Fits, ok.ram_small)) in
        ground (arith, here);
    rest = λ q ne. ground arith;
  }

  stock-mapped : (x : Place) → stock held (mapped s p f) x ≡ free_count s x + held x
  stock-mapped (ram k) = refl
  stock-mapped (swap i k) = refl

  Owned-mapped : Owned (Fits c) (where_is (mapped s p f)) (stock held (mapped s p f))
  Owned-mapped =
      Owned-map w.owned p (ram f) mapped-Moved in_hand absent
        (omega (arith, w.owned.once (ram f), hold_self (ram f) held))
        (λ x ne. omega (arith, stock-mapped x, hold_ne (ram f) x held ne))

  fifo-mapped : (q : ℕ) → count q (p ∷ s.mm.fifo_pgn) ≡ in_ram (where_is (mapped s p f) q)
  fifo-mapped q = elim (ℕ_discrete q p) [
    | yes e ↦
        let now : in_ram (where_is (mapped s p f) q) ≡ 1 =
          ap (λ n. in_ram (where_is (mapped s p f) n)) e ∙ ap in_ram mapped-Moved.there in
        let was : in_ram (where_is s q) ≡ 0 =
          ap (λ n. in_ram (where_is s n)) e ∙ ap in_ram absent in
        ground (arith, w.fifo q)
    | no ne ↦ ground (arith, w.fifo q, ap in_ram (mapped-Moved.rest q ne))
  ]

  word-mapped : pte_set_fpn (s.mm.pgd p) f < 2 ^ 32
  word-mapped = (pte_set_fpn-Online (s.mm.pgd p) f (w.words p lt)).word

  pub mapped-Wf : Wf c held (mapped s p f)
  mapped-Wf = record {
    ram_size = w.ram_size;
    swp_size = w.swp_size;
    active = w.active;
    words = λ q h. ground (arith, word-mapped, w.words q h);
    owned = Owned-mapped;
    fifo = fifo-mapped;
  }

-- Pages `p` up to `p + n` have been mapped: each stands in RAM, the others are as they were, and so
-- are the bytes of all other pages and of the frames that others hold.
pub record Mapped (s : Vm) (p n : ℕ) (t : Vm) : Type 0 where
  pub inside : (q : ℕ) → p ≤ q → q < p + n → (f : ℕ) × (where_is t q ≡ some (ram f))
  pub below : (q : ℕ) → q < p → where_is t q ≡ where_is s q
  pub above : (q : ℕ) → p + n ≤ q → where_is t q ≡ where_is s q
  pub bytes : (x : Place) (off : ℕ) → byte_of t x off ≡ byte_of s x off
  pub areas : t.mm.mmap ≡ s.mm.mmap
  pub symbols : t.mm.symrgtbl ≡ s.mm.symrgtbl

map_pages_step :
    (s : Vm) (f : ℕ) (rest : List ℕ) (left p : ℕ)
    → p < 16384
    → map_pages (f ∷ rest) (suc left) p s ≡ map_pages rest left (p + 1) (mapped s p f)
unfolding map_pages
map_pages_step s f rest left p h = bind_some (map_page p f) _ (map_page_eq s p f h)

-- The loop of `vmap_page_range` never faults on unmapped pages below PAGING_MAX_PGN: each gets one of
-- the frames in hand, no byte changes, and the invariant holds with nothing left in hand.
pub map_pages-Mapped :
    {c : Sizes} (ok : SizesOk c) (held : Place → ℕ) (l : List ℕ) (s : Vm) (p : ℕ)
    → Wf c (hold_all l held) s
    → p + length l ≤ 16384
    → ((q : ℕ) → p ≤ q → q < p + length l → where_is s q ≡ none)
    → (t : Vm) × (map_pages l (length l) p s ≡ some (tt, t)) × Wf c held t × Mapped s p (length l) t
map_pages-Mapped ok held [] s p w lt absent = (
  s,
  unfold map_pages in refl,
  w,
  record {
    inside = λ q lo hi. absurd (omega arith);
    below = λ q h. refl;
    above = λ q h. refl;
    bytes = λ x off. refl;
    areas = refl;
    symbols = refl;
  },
)
map_pages-Mapped ok held (f ∷ rest) s p w lt absent =
    let here = absent p (omega arith) (omega arith) in
    let low : p < 16384 = omega arith in
    let m = mapped-Moved ok (hold_all rest held) s p f w low here in
    let wm = mapped-Wf ok (hold_all rest held) s p f w low here in
    let (t, e, wt, d) =
      map_pages-Mapped ok held rest (mapped s p f) (p + 1) wm (omega arith)
        (λ q lo hi. m.rest q (omega arith) ∙ absent q (omega arith) (omega arith)) in
    (
      t,
      map_pages_step s f rest (length rest) p low ∙ e,
      wt,
      record {
        inside = λ q lo hi. elim (ℕ_discrete q p) [
          | yes z ↦ (f, d.below q (omega arith) ∙ ap (where_is (mapped s p f)) z ∙ m.there)
          | no ne ↦ d.inside q (omega arith) (omega arith)
        ];
        below = λ q h. d.below q (omega arith) ∙ m.rest q (omega arith);
        above = λ q h. d.above q (omega arith) ∙ m.rest q (omega arith);
        bytes = λ x off. d.bytes x off ∙ bytes-mapped s p f x off;
        areas = d.areas;
        symbols = d.symbols;
      },
    )
