-- ===== src/Area/Limit.antt =====
-- src/mm-vm.c, `inc_vma_limit`, on each of its branches.
use ossim_os.Base.{
  ℕ, ◌+◌, ◌-◌, ◌*◌, ◌/◌, ◌^◌, ◌<◌, ◌≤◌, ◌≡◌, refl, sym, ap, ◌∙◌, subst, ◌⊎◌, inl, inr, Bool, true,
  false, Option, none, some, List, [], ◌∷◌, arith,
}
use native.Mathlib.Decide.{dec_lt}
use ossim_os.Types.{Vma}
use ossim_os.Paging.{Vm, ◌>>=◌}
use ossim_os.Paging.Monad.{bind_some}
use ossim_os.Paging.Owner.{Place}
use ossim_os.Paging.View.{Sizes, SizesOk, Wf, Keeps, byte_of, peek, peek_same, Stays, in_ram}
use ossim_os.Area.{
  change_vma, with_mmap, alloc_pages_range, map_pages, vmap_page_range, vm_map_ram, map_found,
  grow_vma, grow_found, inc_vma_limit, paging_page_alignsz,
}
use ossim_os.Area.Collect.{alloc_pages_range-GotFrames}
use ossim_os.Area.Mapping.{Mapped, map_pages-Mapped}
use ossim_os.Area.Grow.{HasArea, tail, vmap_page_range_eq, Keeps-mapped, inc_vma_limit_eq}

-- The area after it has grown.
abbrev pub grown : Vma → ℕ → Vma
grown vma inc_amt = grow_vma inc_amt (tail vma inc_amt) vma

-- What `inc_vma_limit` does to an area: nothing, or it grows by the size, rounded up to whole pages.
-- The bytes that the area had before stay, and so do those of the frames that others hold.
abbrev pub Grown : Sizes → (Place → ℕ) → Vm → Vma → ℕ → Option (Bool × Vm) → Type 0
Grown c held s vma inc_amt r =
    ((t : Vm) × (r ≡ some (false, t))
      × Wf c held t
      × HasArea t vma
      × (t.mm.symrgtbl ≡ s.mm.symrgtbl)
      × Keeps held s t)
    ⊎ ((t : Vm) × (r ≡ some (true, t))
        × Wf c held t
        × HasArea t (grown vma inc_amt)
        × (t.mm.symrgtbl ≡ s.mm.symrgtbl)
        × ((p off : ℕ) → p < vma.vm_end / 256 → off < 256 → peek t p off ≡ peek s p off)
        × ((x : Place) (off : ℕ) → 0 < held x → off < 256 → byte_of t x off ≡ byte_of s x off))

Wf-with_mmap :
    {c : Sizes} {held : Place → ℕ} {t : Vm} (l : List Vma) → Wf c held t → Wf c held (with_mmap t l)
Wf-with_mmap l w = record {
  ram_size = w.ram_size;
  swp_size = w.swp_size;
  active = w.active;
  words = w.words;
  owned = w.owned;
  fifo = w.fifo;
}

-- The area keeps its pages while frames are collected.
HasArea-kept :
    (held : Place → ℕ) (s t : Vm) (vma : Vma)
    → Keeps held s t
    → Stays s t
    → HasArea s vma
    → HasArea t vma
HasArea-kept held s t vma k e a = record {
  only = e.areas ∙ a.only;
  id = a.id;
  brk = a.brk;
  aligned = a.aligned;
  small = a.small;
  within = λ p h. Keeps-mapped held s t p k (a.within p h);
  beyond = λ p h. e.away p (ap in_ram (a.beyond p h)) ∙ a.beyond p h;
}

pub grown_end :
    (vma : Vma) (amt : ℕ)
    → vma.vm_end + amt ≤ 2 ^ 22
    → vma.sbrk ≡ vma.vm_end
    → ((grown vma amt).vm_end ≡ vma.vm_end + amt)
      × ((grown vma amt).sbrk ≡ vma.vm_end + amt)
      × ((grown vma amt).vm_id ≡ vma.vm_id)
unfolding grow_vma
grown_end vma amt h e = (omega arith, omega (arith, e), refl)

HasArea-grown :
    (t u : Vm) (vma : Vma) (n : ℕ)
    → vma.vm_end + n * 256 ≤ 2 ^ 22
    → HasArea u vma
    → Mapped u (vma.vm_end / 256) n t
    → HasArea (with_mmap t (grown vma (n * 256) ∷ [])) (grown vma (n * 256))
HasArea-grown t u vma n h a d =
    let (e, b, i) = grown_end vma (n * 256) h a.brk in
    let pages : (grown vma (n * 256)).vm_end / 256 ≡ vma.vm_end / 256 + n =
      omega (arith, e, a.aligned) in
    record {
      only = refl;
      id = i ∙ a.id;
      brk = b ∙ sym e;
      aligned = omega (arith, e, a.aligned);
      small = omega (arith, e);
      within = λ p l. elim (dec_lt p (vma.vm_end / 256)) [
        | yes lo ↦ λ z. a.within p lo (sym (d.below p lo) ∙ z)
        | no hi ↦
            let (f, z) = d.inside p (omega arith) (omega (arith, pages)) in λ y. absurd (cc (z, y))
      ];
      beyond = λ p l. d.above p (omega (arith, pages)) ∙ a.beyond p (omega (arith, pages));
    }

pub change_vma_only :
    (l : List Vma) (vma : Vma) (f : Vma → Vma)
    → l ≡ vma ∷ []
    → vma.vm_id ≡ 0
    → change_vma l 0 f ≡ f vma ∷ []
unfolding change_vma
change_vma_only l vma f e i = ap (λ l. change_vma l 0 f) e ∙ ground (arith, i)

grow_found_eq :
    (t : Vm) (vma : Vma) (n : ℕ)
    → t.mm.mmap ≡ vma ∷ []
    → vma.vm_id ≡ 0
    → grow_found 0 (n * 256) (some (tail vma (n * 256))) t
      ≡ some (true, with_mmap t (grown vma (n * 256) ∷ []))
grow_found_eq t vma n e i =
    ap (λ l. some (true, with_mmap t l))
      (change_vma_only t.mm.mmap vma (grow_vma (n * 256) (tail vma (n * 256))) e i)

vm_map_ram_eq :
    (s u t : Vm) (l : List ℕ) (addr n : ℕ)
    → alloc_pages_range n s ≡ some (some l, u)
    → addr + n * 256 ≤ 2 ^ 22
    → addr < 2 ^ 22
    → map_pages l n (addr / 256) u ≡ some (tt, t)
    → vm_map_ram addr n s ≡ some (some (record { rg_start = addr; rg_end = addr + n * 256 }), t)
unfolding vm_map_ram
vm_map_ram_eq s u t l addr n e h k g =
    bind_some (alloc_pages_range n) (map_found addr n) e
    ∙ bind_some (vmap_page_range addr n l) _ (vmap_page_range_eq u t addr n l h k g)

vm_map_ram-none :
    (s u : Vm) (addr n : ℕ)
    → alloc_pages_range n s ≡ some (none, u)
    → vm_map_ram addr n s ≡ some (none, u)
unfolding vm_map_ram
vm_map_ram-none s u addr n e = bind_some (alloc_pages_range n) (map_found addr n) e

-- The growth by `n` pages, once the guards of `inc_vma_limit` are passed.
grow_area :
    {c : Sizes} (ok : SizesOk c) (held : Place → ℕ) (s : Vm) (vma : Vma) (n : ℕ)
    → Wf c held s
    → HasArea s vma
    → 0 < n
    → vma.vm_end + n * 256 ≤ 2 ^ 22
    → Grown c held s vma (n * 256) ((vm_map_ram vma.vm_end n >>= grow_found 0 (n * 256)) s)
grow_area ok held s vma n w a pos room = elim (alloc_pages_range-GotFrames ok held n s w) [
  | inl (u, e, wu, ku, su, _) ↦ inl (
    u,
    bind_some (vm_map_ram vma.vm_end n) _ (vm_map_ram-none s u vma.vm_end n e),
    wu,
    HasArea-kept held s u vma ku su a,
    su.symbols,
    ku,
  )
  | inr (l, u, e, len, wu, ku, su, _) ↦
      let au = HasArea-kept held s u vma ku su a in
      let (t, g, wt, d) =
        map_pages-Mapped ok held l u (vma.vm_end / 256) wu (omega (arith, len))
          (λ q lo hi. au.beyond q lo) in
      let d' = subst (λ k. Mapped u (vma.vm_end / 256) k t) len d in
      inr (
        with_mmap t (grown vma (n * 256) ∷ []),
        bind_some (vm_map_ram vma.vm_end n) _ (
              vm_map_ram_eq s u t l vma.vm_end n e room (omega arith)
                (ap (λ k. map_pages l k (vma.vm_end / 256) u) (sym len) ∙ g))
            ∙ grow_found_eq t vma n (d.areas ∙ au.only) a.id,
        Wf-with_mmap (grown vma (n * 256) ∷ []) wt,
        HasArea-grown t u vma n room au d',
        d.symbols ∙ su.symbols,
        (λ p off lo h.
            peek_same u t p off (d.below p lo) (λ x _. d.bytes x off) ∙ ku.pages p off h),
        (λ x off k h. d.bytes x off ∙ ku.others x off k h),
      )
]

-- From a state with the invariant, in which the process has its one area, `inc_vma_limit` with a
-- positive size that fits the 22-bit address space never faults. It fails and changes neither the area
-- nor any byte; or the area grows by the size, rounded up to whole pages, all of which are mapped, and
-- its old bytes stay. The invariant and the bytes of all other processes are kept.
pub inc_vma_limit-Grown :
    {c : Sizes} (ok : SizesOk c) (held : Place → ℕ) (s : Vm) (vma : Vma) (inc_sz : ℕ)
    → Wf c held s
    → HasArea s vma
    → 0 < inc_sz
    → vma.vm_end + paging_page_alignsz inc_sz ≤ 2 ^ 22
    → Grown c held s vma (paging_page_alignsz inc_sz) (inc_vma_limit 0 inc_sz s)
inc_vma_limit-Grown {c} ok held s vma inc_sz w a pos room =
    let e : paging_page_alignsz inc_sz / 256 ≡ (inc_sz + 256 - 1) / 256 = omega arith in
    subst (Grown c held s vma (paging_page_alignsz inc_sz))
      (ap (λ n. (vm_map_ram vma.vm_end n >>= grow_found 0 (paging_page_alignsz inc_sz)) s) (sym e)
        ∙ sym (inc_vma_limit_eq ok held s vma w a inc_sz pos room))
      (grow_area ok held s vma ((inc_sz + 256 - 1) / 256) w a (omega arith) room)
