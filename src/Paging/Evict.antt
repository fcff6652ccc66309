-- ===== src/Paging/Evict.antt =====
-- src/libmem.c, `__swap_out_page`, and src/mm-vm.c, `__mm_swap_page`: what they do to the state.
use ossim_os.Base.{
  ℕ, ◌+◌, ◌*◌, ◌<◌, ◌≡◌, ◌≢◌, refl, ◌∙◌, ◌⊎◌, inl, inr, none, some, List, [], ◌∷◌, arith,
}
use ossim_os.Base.Tests.{◌==◌, if◌then◌else◌}
use ossim_os.Base.Lists.{count, update}
use ossim_os.Memphy.{Memphy}
use ossim_os.Memphy.Bytes.{SameBytes}
use ossim_os.Pte.{paging_fpn, pte_set_swap}
use ossim_os.Paging.{
  Vm, with_pgd, with_mswp, load_pte, store_pte, mm_swap_page, find_victim_page, evict, swap_cp_page,
}
use ossim_os.Paging.Monad.{bind_some, load_pte_eq, store_pte_eq}
use ossim_os.Paging.Copy.{PageOn, swap_cp_page_lem, Copied-page, Copied-other}

-- `find_victim_page` fails exactly on the empty list, and otherwise takes one page off it.
pub find_victim_page-count :
    (l : List ℕ)
    → ((l ≡ []) × (find_victim_page l ≡ none))
      ⊎ ((v : ℕ) × (rest : List ℕ) × (find_victim_page l ≡ some (v, rest))
          × ((p : ℕ) → count p l ≡ count p rest + (if v == p then 1 else 0)))
unfolding find_victim_page
find_victim_page-count [] = inl (refl, refl)
find_victim_page-count (x ∷ []) = inr (x, [], refl, λ p. omega arith)
find_victim_page-count (x ∷ y ∷ l) = elim (find_victim_page-count (y ∷ l)) [
  | inl (e, _) ↦ absurd (cc e)
  | inr (v, rest, e, c) ↦ inr (v, x ∷ rest, rw (e, find_victim_page), λ p. omega (arith, c p))
]

-- The state `t` after page `v` has moved from frame `f` of RAM to frame `g` of device `a`.
pub record Evicted (s : Vm) (a v f g : ℕ) (t : Vm) : Type 0 where
  pub entry : t.mm.pgd v ≡ pte_set_swap (s.mm.pgd v) a g
  pub entries : (p : ℕ) → p ≢ v → t.mm.pgd p ≡ s.mm.pgd p
  pub list : t.mm.fifo_pgn ≡ s.mm.fifo_pgn
  pub source : SameBytes s.mram t.mram
  pub devices : (i : ℕ) → i ≢ a → t.mswp i ≡ s.mswp i
  pub copy :
      (off : ℕ) → off < 256 → (t.mswp a).storage (g * 256 + off) ≡ s.mram.storage (f * 256 + off)
  pub cells :
      (h off : ℕ)
      → h ≢ g
      → off < 256
      → (t.mswp a).storage (h * 256 + off) ≡ (s.mswp a).storage (h * 256 + off)
  pub size : (t.mswp a).maxsz ≡ (s.mswp a).maxsz
  pub slots : (t.mswp a).free_fp_list ≡ (s.mswp a).free_fp_list
  pub active : t.active_mswp_id ≡ s.active_mswp_id
  pub areas : t.mm.mmap ≡ s.mm.mmap
  pub symbols : t.mm.symrgtbl ≡ s.mm.symrgtbl

mm_swap_page_eq :
    (s : Vm) (f g : ℕ) (mram mswp : Memphy)
    → swap_cp_page s.mram f (s.mswp s.active_mswp_id) g ≡ some (mram, mswp)
    → mm_swap_page f g s ≡ some (tt, record (with_mswp s s.active_mswp_id mswp) { mram = mram })
unfolding mm_swap_page
mm_swap_page_eq s f g mram mswp e = rw (e, mm_swap_page)

evict_eq :
    (s : Vm) (v g : ℕ) (mram mswp : Memphy)
    → v < 16384
    → swap_cp_page s.mram (paging_fpn (s.mm.pgd v)) (s.mswp s.active_mswp_id) g ≡ some (mram, mswp)
    → evict v g s
      ≡ some (
        paging_fpn (s.mm.pgd v),
        with_pgd
            (record (with_mswp s s.active_mswp_id mswp) { mram = mram })
            (update s.mm.pgd v (pte_set_swap (s.mm.pgd v) s.active_mswp_id g)),
      )
unfolding evict
evict_eq s v g mram mswp h e =
    let t = record (with_mswp s s.active_mswp_id mswp) { mram = mram } in
    bind_some (load_pte v) _ (load_pte_eq s v h)
    ∙ bind_some (mm_swap_page (paging_fpn (s.mm.pgd v)) g) _
        (mm_swap_page_eq s (paging_fpn (s.mm.pgd v)) g mram mswp e)
    ∙ bind_some (load_pte v) _ (load_pte_eq t v h)
    ∙ bind_some (store_pte v (pte_set_swap (s.mm.pgd v) s.active_mswp_id g)) _
        (store_pte_eq t v (pte_set_swap (s.mm.pgd v) s.active_mswp_id g) h)

-- Where both frames are on their devices, the move succeeds.
pub evict-Evicted :
    (s : Vm) (v g : ℕ)
    → v < 16384
    → PageOn s.mram (paging_fpn (s.mm.pgd v))
    → PageOn (s.mswp s.active_mswp_id) g
    → (t : Vm) × (evict v g s ≡ some (paging_fpn (s.mm.pgd v), t))
      × Evicted s s.active_mswp_id v (paging_fpn (s.mm.pgd v)) g t
evict-Evicted s v g h hs hd =
    let (mram, mswp, e, c) =
      swap_cp_page_lem s.mram (paging_fpn (s.mm.pgd v)) (s.mswp s.active_mswp_id) g hs hd in
    (
      with_pgd (record (with_mswp s s.active_mswp_id mswp) { mram = mram })
          (update s.mm.pgd v (pte_set_swap (s.mm.pgd v) s.active_mswp_id g)),
      evict_eq s v g mram mswp h e,
      record {
        entry = ground arith;
        entries = λ p ne. ground arith;
        list = refl;
        source = c.source;
        devices = λ i ne. ground arith;
        copy = λ off lt. ground (arith, Copied-page c off);
        cells = λ k off ne lt. ground (arith, Copied-other c k off);
        size = ground (arith, c.maxsz);
        slots = ground (arith, c.free);
        active = refl;
        areas = refl;
        symbols = refl;
      },
    )
