-- ===== src/Paging/Load.antt =====
-- src/libmem.c, `pg_getpage`: what bringing a page back from a swap device does to the state.
use ossim_os.Base.{ℕ, ◌+◌, ◌*◌, ◌<◌, ◌≡◌, ◌≢◌, refl, ◌∙◌, some, ◌∷◌, arith}
use ossim_os.Base.Lists.{update}
use ossim_os.Memphy.{Memphy, put_freefp}
use ossim_os.Pte.{paging_fpn, pte_set_fpn}
use ossim_os.Paging.{
  Vm, with_pgd, with_fifo, with_mswp, load_pte, store_pte, enlist_pgn_node, swap_cp_page, copy_in,
  place_page,
}
use ossim_os.Paging.Monad.{bind_some, load_pte_eq, store_pte_eq}
use ossim_os.Paging.Copy.{PageOn, swap_cp_page_lem, Copied-page, Copied-other}

-- The state `z` after page `p` has come from frame `k` of device `i` to frame `f` of RAM.
pub record Loaded (t : Vm) (i p k f : ℕ) (z : Vm) : Type 0 where
  pub entry : z.mm.pgd p ≡ pte_set_fpn (t.mm.pgd p) f
  pub entries : (q : ℕ) → q ≢ p → z.mm.pgd q ≡ t.mm.pgd q
  pub list : z.mm.fifo_pgn ≡ p ∷ t.mm.fifo_pgn
  pub bytes : (z.mswp i).storage ≡ (t.mswp i).storage
  pub size : (z.mswp i).maxsz ≡ (t.mswp i).maxsz
  pub slots : (z.mswp i).free_fp_list ≡ k ∷ (t.mswp i).free_fp_list
  pub devices : (j : ℕ) → j ≢ i → z.mswp j ≡ t.mswp j
  pub copy :
      (off : ℕ) → off < 256 → z.mram.storage (f * 256 + off) ≡ (t.mswp i).storage (k * 256 + off)
  pub cells :
      (h off : ℕ)
      → h ≢ f
      → off < 256
      → z.mram.storage (h * 256 + off) ≡ t.mram.storage (h * 256 + off)
  pub ram_size : z.mram.maxsz ≡ t.mram.maxsz
  pub ram_free : z.mram.free_fp_list ≡ t.mram.free_fp_list
  pub active : z.active_mswp_id ≡ t.active_mswp_id
  pub areas : z.mm.mmap ≡ t.mm.mmap
  pub symbols : z.mm.symrgtbl ≡ t.mm.symrgtbl

copy_in_eq :
    (t : Vm) (i k f : ℕ) (swp mram : Memphy)
    → swap_cp_page (t.mswp i) k t.mram f ≡ some (swp, mram)
    → copy_in i k f t ≡ some (tt, record (with_mswp t i (put_freefp swp k)) { mram = mram })
unfolding copy_in
copy_in_eq t i k f swp mram e = rw (e, copy_in)

-- The state that the branch ends in.
abbrev loaded : Vm → ℕ → ℕ → ℕ → ℕ → Memphy → Memphy → Vm
loaded t i p k f swp mram =
    let u = record (with_mswp t i (put_freefp swp k)) { mram = mram } in
    with_fifo (with_pgd u (update t.mm.pgd p (pte_set_fpn (t.mm.pgd p) f))) (p ∷ t.mm.fifo_pgn)

place_page_eq :
    (t : Vm) (i p k f : ℕ) (swp mram : Memphy)
    → p < 16384
    → swap_cp_page (t.mswp i) k t.mram f ≡ some (swp, mram)
    → place_page p i k f t
      ≡ some (some (paging_fpn ((loaded t i p k f swp mram).mm.pgd p)), loaded t i p k f swp mram)
unfolding place_page enlist_pgn_node
place_page_eq t i p k f swp mram lt e =
    let u = record (with_mswp t i (put_freefp swp k)) { mram = mram } in
    bind_some (copy_in i k f) _ (copy_in_eq t i k f swp mram e)
    ∙ bind_some (load_pte p) _ (load_pte_eq u p lt)
    ∙ bind_some (store_pte p (pte_set_fpn (t.mm.pgd p) f)) _
        (store_pte_eq u p (pte_set_fpn (t.mm.pgd p) f) lt)
    ∙ bind_some (load_pte p) _ (load_pte_eq (loaded t i p k f swp mram) p lt)

-- Where both frames are on their devices, the page is brought in.
pub place_page-Loaded :
    (t : Vm) (i p k f : ℕ)
    → p < 16384
    → PageOn (t.mswp i) k
    → PageOn t.mram f
    → (z : Vm) × (place_page p i k f t ≡ some (some (paging_fpn (z.mm.pgd p)), z))
      × Loaded t i p k f z
unfolding put_freefp
place_page-Loaded t i p k f lt hs hd =
    let (swp, mram, e, c) = swap_cp_page_lem (t.mswp i) k t.mram f hs hd in
    (
      loaded t i p k f swp mram,
      place_page_eq t i p k f swp mram lt e,
      record {
        entry = ground arith;
        entries = λ q ne. ground arith;
        list = refl;
        bytes = ground (arith, c.source.storage);
        size = ground (arith, c.source.maxsz);
        slots = ground (arith, c.source.free);
        devices = λ j ne. ground arith;
        copy = λ off h. Copied-page c off h;
        cells = λ h off ne l. Copied-other c h off ne l;
        ram_size = c.maxsz;
        ram_free = c.free;
        active = refl;
        areas = refl;
        symbols = refl;
      },
    )
