-- ===== src/Paging.antt =====
-- The page tables and the swapping of src/mm.c, src/mm-vm.c and src/libmem.c, for one process: its
-- `struct mm_struct`, the RAM and the swap devices. `active_mswp` is `&mswp[active_mswp_id]`, as
-- src/os.c sets it. The lock `mmvm_lock` is held by the callers, so these are single steps.
pub mod Monad
pub mod Copy
pub mod Owner
pub mod View
pub mod Evict
pub mod SwapOut
pub mod Frame
pub mod Load
pub mod SwapIn
pub mod GetPage
pub mod Release
use ossim_os.Base.{
  ℕ, zero, suc, ◌+◌, ◌-◌, ◌*◌, ◌^◌, Bool, true, false, ◌||◌, Option, none, some, List, [], ◌∷◌,
}
use ossim_os.Base.Tests.{ltb, leb, ◌==◌, if◌then◌else◌}
use ossim_os.Base.Lists.{update}
use ossim_os.Types.{Mm}
use ossim_os.Memphy.{Memphy, read, write, get_freefp, put_freefp}
use ossim_os.Pte.{
  page_present, page_swapped, paging_fpn, swap_type, paging_swp, pte_set_fpn, pte_set_swap,
}

abbrev pub paging_max_pgn : ℕ
paging_max_pgn = 16384

abbrev pub paging_max_mmswp : ℕ
paging_max_mmswp = 4

pub record Vm : Type 0 where
  pub mm : Mm
  pub mram : Memphy
  pub mswp : ℕ → Memphy
  pub active_mswp_id : ℕ

-- A call returns its value and the new state; `none` is undefined behaviour: an access past the end
-- of an array, the use of a byte that was never set, or the overflow of an `int`.
abbrev pub M : Type 0 → Type 0
M A = Vm → Option (A × Vm)

abbrev pub pure : {A : Type 0} → A → M A
pure a s = some (a, s)

abbrev pub fault : {A : Type 0} → M A
fault s = none

abbrev pub resume : {A B : Type 0} → (A → M B) → Option (A × Vm) → Option (B × Vm)
resume f none = none
resume f (some (a, t)) = f a t

infixl 5 ◌>>=◌ ◌>>◌
abbrev pub ◌>>=◌ : {A B : Type 0} → M A → (A → M B) → M B
◌>>=◌ m f s = resume f (m s)

abbrev pub ◌>>◌ : {B : Type 0} → M (Unit {0}) → M B → M B
m >> k = m >>= λ _. k

-- `mm->pgd[pgn]`, read and written.
unfoldable pub load_pte : ℕ → M ℕ
load_pte pgn s = if ltb pgn paging_max_pgn then some (s.mm.pgd pgn, s) else none

abbrev pub with_pgd : Vm → (ℕ → ℕ) → Vm
with_pgd s pgd = record s { mm = record (s.mm) { pgd = pgd } }

unfoldable pub store_pte : ℕ → ℕ → M (Unit {0})
store_pte pgn pte s =
    if ltb pgn paging_max_pgn then some (tt, with_pgd s (update s.mm.pgd pgn pte)) else none

abbrev pub with_fifo : Vm → List ℕ → Vm
with_fifo s fifo = record s { mm = record (s.mm) { fifo_pgn = fifo } }

unfoldable pub enlist_pgn_node : ℕ → M (Unit {0})
enlist_pgn_node pgn s = some (tt, with_fifo s (pgn ∷ s.mm.fifo_pgn))

-- The loop of `__swap_cp_page` from cell `cellidx` on, with the cells that are left.
unfoldable pub copy_cells : ℕ → ℕ → Memphy → ℕ → Memphy → ℕ → Option (Memphy × Memphy)
copy_cells zero cellidx mpsrc srcfpn mpdst dstfpn = some (mpsrc, mpdst)
copy_cells (suc left) cellidx mpsrc srcfpn mpdst dstfpn =
    let (got, mpsrc') = read mpsrc (srcfpn * 256 + cellidx) in
    elim got [
      | none ↦ none
      | some byte ↦
          copy_cells left (cellidx + 1) mpsrc' srcfpn (write mpdst (dstfpn * 256 + cellidx) byte).1
            dstfpn
    ]

unfoldable pub swap_cp_page : Memphy → ℕ → Memphy → ℕ → Option (Memphy × Memphy)
swap_cp_page mpsrc srcfpn mpdst dstfpn = copy_cells 256 0 mpsrc srcfpn mpdst dstfpn

abbrev pub with_mswp : Vm → ℕ → Memphy → Vm
with_mswp s i mp = record s { mswp = update s.mswp i mp }

-- `__mm_swap_page`, from RAM to the active swap device.
unfoldable pub mm_swap_page : ℕ → ℕ → M (Unit {0})
mm_swap_page vicfpn swpfpn s = elim (swap_cp_page s.mram vicfpn (s.mswp s.active_mswp_id) swpfpn) [
  | none ↦ none
  | some (mram, mswp) ↦ some (tt, record (with_mswp s s.active_mswp_id mswp) { mram = mram })
]

-- The last page of the list, and the list without it.
unfoldable pub find_victim_page : List ℕ → Option (ℕ × List ℕ)
find_victim_page [] = none
find_victim_page (pgn ∷ []) = some (pgn, [])
find_victim_page (pgn ∷ next ∷ rest) = elim (find_victim_page (next ∷ rest)) [
  | none ↦ none
  | some (victim, kept) ↦ some (victim, pgn ∷ kept)
]

-- The part of `__swap_out_page` from the copy on, with both frames known.
unfoldable pub evict : ℕ → ℕ → M ℕ
evict vicpgn swpfpn = do
  pte ← load_pte vicpgn
  let vicfpn = paging_fpn pte
  mm_swap_page vicfpn swpfpn
  old ← load_pte vicpgn
  id ← (λ s. some (s.active_mswp_id, s))
  store_pte vicpgn (pte_set_swap old id swpfpn)
  pure vicfpn

-- The frame released in RAM, or `none` where the C function returns -1.
unfoldable pub swap_out_page : M (Option ℕ)
swap_out_page s = elim (find_victim_page s.mm.fifo_pgn) [
  | none ↦ some (none, s)
  | some (vicpgn, rest) ↦
      let t = with_fifo s rest in
      let (got, swp) = get_freefp (s.mswp s.active_mswp_id) in
      elim got [
        | none ↦ some (none, with_fifo s (vicpgn ∷ rest))
        | some swpfpn ↦
            (evict vicpgn swpfpn >>= λ fpn. pure (some fpn)) (with_mswp t s.active_mswp_id swp)
      ]
]

-- `MEMPHY_get_freefp(mram, &fpn) == 0 || __swap_out_page(caller, &fpn) == 0`
unfoldable pub take_frame : M (Option ℕ)
take_frame s =
    let (got, mram) = get_freefp s.mram in
    elim got [ none ↦ swap_out_page s | some fpn ↦ some (some fpn, record s { mram = mram }) ]

-- `caller->mswp[swptyp]`
unfoldable pub swap_device : ℕ → M Memphy
swap_device swptyp s = if ltb swptyp paging_max_mmswp then some (s.mswp swptyp, s) else none

-- The copy back to RAM and the release of the swap frame in `pg_getpage`.
unfoldable pub copy_in : ℕ → ℕ → ℕ → M (Unit {0})
copy_in swptyp tgtswpfpn tgtfpn s = elim (swap_cp_page (s.mswp swptyp) tgtswpfpn s.mram tgtfpn) [
  | none ↦ none
  | some (swp, mram) ↦
      some (tt, record (with_mswp s swptyp (put_freefp swp tgtswpfpn)) { mram = mram })
]

-- The rest of `pg_getpage` for a page on a swap device, once a frame of RAM has been found.
unfoldable pub place_page : ℕ → ℕ → ℕ → ℕ → M (Option ℕ)
place_page pgn swptyp tgtswpfpn tgtfpn = do
  copy_in swptyp tgtswpfpn tgtfpn
  old ← load_pte pgn
  store_pte pgn (pte_set_fpn old tgtfpn)
  enlist_pgn_node pgn
  new ← load_pte pgn
  pure (some (paging_fpn new))

abbrev pub place_found : ℕ → ℕ → Option ℕ → M (Option ℕ)
place_found pgn pte none = pure none
place_found pgn pte (some tgtfpn) = place_page pgn (swap_type pte) (paging_swp pte) tgtfpn

-- The branch of `pg_getpage` for a page that stands on a swap device.
unfoldable pub swap_in : ℕ → ℕ → M (Option ℕ)
swap_in pgn pte = do _ ← swap_device (swap_type pte); got ← take_frame; place_found pgn pte got

-- The frame of a page whose entry is known.
unfoldable pub page_frame : ℕ → ℕ → M (Option ℕ)
page_frame pgn pte =
    if page_present pte
    then (if page_swapped pte then swap_in pgn pte else pure (some (paging_fpn pte)))
    else pure none

-- The frame of the page, or `none` where the C function returns -1.
unfoldable pub pg_getpage : ℕ → M (Option ℕ)
pg_getpage pgn = if leb paging_max_pgn pgn then pure none else (load_pte pgn >>= page_frame pgn)
