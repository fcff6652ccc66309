-- ===== src/Libmem/Alloc.antt =====
-- src/libmem.c, `__alloc` and `__free`: they keep the layout of the area, the invariant of its pages,
-- and the bytes that are there.
use ossim_os.Base.{
  ℕ, ◌+◌, ◌/◌, ◌^◌, ◌≤◌, ◌<◌, ◌≡◌, refl, ap, ◌∙◌, subst, ◌⊎◌, inl, inr, Option, none, some, List,
  [], ◌∷◌, arith, Bool, true, false, ◌||◌,
}
use ossim_os.Base.Tests.{◌==◌, leb, Option-cases}
use ossim_os.Base.Lists.{update}
use ossim_os.Types.{Region, Vma}
use ossim_os.Memphy.{is_negative}
use ossim_os.Region.{first_fit}
use ossim_os.Region.Cover.{
  Fit, first_fit-Fit, cover-enlist_vm_freerg_list, enlist_vm_freerg_list-Ordered,
}
use ossim_os.Paging.{Vm, ◌>>=◌}
use ossim_os.Paging.Monad.{bind_some}
use ossim_os.Paging.Owner.{Place}
use ossim_os.Paging.View.{Sizes, SizesOk, Wf, peek, byte_of}
use ossim_os.Area.{
  to_int, get_vma_by_num, with_mmap, get_free_vmrg_area, inc_vma_limit, sys_memmap,
  paging_page_alignsz, grow_vma,
}
use ossim_os.Area.Grow.{HasArea, tail}
use ossim_os.Area.Limit.{grown, inc_vma_limit-Grown, change_vma_only, grown_end}
use ossim_os.Libmem.{alloc, alloc_more, alloc_from, commit}
use ossim_os.Libmem.Layout.{
  owners, Layout, with_free, relaid, Layout-relaid, Wf-relaid, Keeps-relaid,
}

-- The process in state `t` with area `vma'` still has all that it had in state `s` with area `vma`.
pub record Alike (c : Sizes) (held : Place → ℕ) (s : Vm) (vma : Vma) (t : Vm) (vma' : Vma)
    : Type 0 where
  pub wf : Wf c held t
  pub layout : Layout t vma'
  pub grows : vma.vm_end ≤ vma'.vm_end
  pub pages : (p off : ℕ) → p < vma.vm_end / 256 → off < 256 → peek t p off ≡ peek s p off
  pub others : (x : Place) (off : ℕ) → 0 < held x → off < 256 → byte_of t x off ≡ byte_of s x off

pub Alike-refl :
    {c : Sizes} {held : Place → ℕ} {s : Vm} {vma : Vma}
    → Wf c held s
    → Layout s vma
    → Alike c held s vma s vma
Alike-refl w y = record {
  wf = w;
  layout = y;
  grows = omega arith;
  pages = λ p off h k. refl;
  others = λ x off h k. refl;
}

Alike-trans :
    {c : Sizes} (held : Place → ℕ) {s t u : Vm} {vma vma' vma'' : Vma}
    → Alike c held s vma t vma'
    → Alike c held t vma' u vma''
    → Alike c held s vma u vma''
Alike-trans held a b = record {
  wf = b.wf;
  layout = b.layout;
  grows = omega (arith, a.grows, b.grows);
  pages = λ p off h k. b.pages p off (omega (arith, a.grows)) k ∙ a.pages p off h k;
  others = λ x off h k. b.others x off h k ∙ a.others x off h k;
}

-- A call of `__alloc` fails and leaves the symbols alone, or makes a region of the size asked for that
-- of the symbol, and returns its address.
abbrev pub Alloced : Sizes → (Place → ℕ) → Vm → Vma → ℕ → ℕ → Option (Option ℕ × Vm) → Type 0
Alloced c held s vma rgid size r =
    (t : Vm) × (vma' : Vma) × Alike c held s vma t vma'
    × (((r ≡ some (none, t)) × (t.mm.symrgtbl ≡ s.mm.symrgtbl))
        ⊎ ((addr : ℕ) × (r ≡ some (some addr, t))
            × (t.mm.symrgtbl
                ≡ update s.mm.symrgtbl rgid (record { rg_start = addr; rg_end = addr + size }))))

pub get_vma_only : (s : Vm) (vma : Vma) → HasArea s vma → get_vma_by_num s.mm.mmap 0 ≡ some vma
unfolding get_vma_by_num
get_vma_only s vma a = ap (λ l. get_vma_by_num l 0) a.only ∙ ground (arith, a.id)

search_none :
    (s : Vm) (vma : Vma) (size : ℕ)
    → HasArea s vma
    → first_fit vma.vm_freerg_list size ≡ none
    → get_free_vmrg_area 0 size s ≡ some (none, s)
unfolding get_free_vmrg_area
search_none s vma size a e = rw (get_vma_only s vma a, e, get_free_vmrg_area)

search_some :
    (s : Vm) (vma : Vma) (size : ℕ) (rg : Region) (left : List Region)
    → HasArea s vma
    → first_fit vma.vm_freerg_list size ≡ some (rg, left)
    → get_free_vmrg_area 0 size s ≡ some (some rg, with_mmap s (with_free vma left ∷ []))
unfolding get_free_vmrg_area
search_some s vma size rg left a e =
    rw (get_vma_only s vma a, e, get_free_vmrg_area)
      (ap (λ l. some (some rg, with_mmap s l))
        (change_vma_only s.mm.mmap vma (λ v. record v { vm_freerg_list = left }) a.only a.id))

-- A region that the search has found becomes the symbol's.
take_region :
    {c : Sizes} (held : Place → ℕ) (s : Vm) (vma : Vma) (rgid size : ℕ) (rg : Region)
    (left : List Region)
    → Wf c held s
    → Layout s vma
    → rgid < 30
    → 0 < size
    → Fit vma.vm_freerg_list size (some (rg, left))
    → Alike c held s vma (relaid s vma left rgid rg) (with_free vma left)
      × (to_int rg.rg_start ≡ rg.rg_start)
take_region held s vma rgid size rg left w y lt pos (e, o, cov, _) =
    let k = Keeps-relaid held s vma left rgid rg in
    (
      record {
        wf = Wf-relaid vma left rgid rg w;
        layout = Layout-relaid s vma left rgid rg lt y o (λ a. omega (arith, cov a));
        grows = omega arith;
        pages = λ p off _ h. k.pages p off h;
        others = k.others;
      },
      ground (arith, y.apart rg.rg_start, cov rg.rg_start, y.area.small),
    )

search-Alloced :
    {c : Sizes} (held : Place → ℕ) (s : Vm) (vma : Vma) (rgid size : ℕ)
    → Wf c held s
    → Layout s vma
    → rgid < 30
    → 0 < size
    → Alloced c held s vma rgid size ((get_free_vmrg_area 0 size >>= commit rgid) s)
search-Alloced {c} held s vma rgid size w y lt pos =
    elim (Option-cases (first_fit vma.vm_freerg_list size)) [
      | inl e ↦ (
        s,
        vma,
        Alike-refl w y,
        inl (bind_some (get_free_vmrg_area 0 size) _ (search_none s vma size y.area e), refl),
      )
      | inr ((rg, left), e) ↦
          let fit =
            subst (Fit vma.vm_freerg_list size) e
              (first_fit-Fit vma.vm_freerg_list size y.ordered pos) in
          let (same, start) = take_region held s vma rgid size rg left w y lt pos fit in
          (
            relaid s vma left rgid rg,
            with_free vma left,
            same,
            inr (
              rg.rg_start,
              bind_some (get_free_vmrg_area 0 size) _ (search_some s vma size rg left y.area e)
                  ∙ ap (λ n. some (some n, relaid s vma left rgid rg)) start,
              ap (λ n. update s.mm.symrgtbl rgid (record { rg_start = rg.rg_start; rg_end = n }))
                  fit.0,
            ),
          )
    ]

-- The area that has grown is laid out as before, with free space at its end.
Layout-grown :
    (s t : Vm) (vma : Vma) (amt : ℕ)
    → vma.vm_end + amt ≤ 2 ^ 22
    → Layout s vma
    → t.mm.symrgtbl ≡ s.mm.symrgtbl
    → HasArea t (grown vma amt)
    → Layout t (grown vma amt)
unfolding grow_vma
Layout-grown s t vma amt h y e a = record {
  area = a;
  ordered = enlist_vm_freerg_list-Ordered vma.vm_freerg_list (tail vma amt) y.ordered;
  apart = λ k.
      let sym_same : owners t.mm.symrgtbl k ≡ owners s.mm.symrgtbl k =
        ap (λ table. owners table k) e in
      let here = grown_end vma amt h y.area.brk in
      ground (
        arith,
        sym_same,
        y.apart k,
        cover-enlist_vm_freerg_list vma.vm_freerg_list (tail vma amt) k y.ordered,
        here.0,
      );
}

sys_memmap_inc :
    (s t : Vm) (size : ℕ) (b : Bool)
    → inc_vma_limit 0 size s ≡ some (b, t)
    → sys_memmap 2 0 size s ≡ some (size, t)
unfolding sys_memmap
sys_memmap_inc s t size b e = bind_some (inc_vma_limit 0 size) _ e

alloc_more_eq :
    (s t : Vm) (vma : Vma) (rgid size : ℕ) (b : Bool)
    → HasArea s vma
    → inc_vma_limit 0 size s ≡ some (b, t)
    → alloc_more 0 rgid size s ≡ (get_free_vmrg_area 0 size >>= commit rgid) t
unfolding alloc_more
alloc_more_eq s t vma rgid size b a e =
    rw (get_vma_only s vma a, alloc_more)
      (bind_some (sys_memmap 2 0 size) _ (sys_memmap_inc s t size b e))

-- The growth of the area, as the calls of the library see it.
grow-Alike :
    {c : Sizes} (ok : SizesOk c) (held : Place → ℕ) (s : Vm) (vma : Vma) (size : ℕ)
    → Wf c held s
    → Layout s vma
    → 0 < size
    → vma.vm_end + paging_page_alignsz size ≤ 2 ^ 22
    → (b : Bool) × (t : Vm) × (vma' : Vma) × (inc_vma_limit 0 size s ≡ some (b, t))
      × Alike c held s vma t vma'
      × (t.mm.symrgtbl ≡ s.mm.symrgtbl)
grow-Alike ok held s vma size w y pos room =
    let amt = paging_page_alignsz size in
    let here = grown_end vma amt room y.area.brk in
    elim (inc_vma_limit-Grown ok held s vma size w y.area pos room) [
      | inl (t, e, wt, at, st, kept) ↦ (
        false,
        t,
        vma,
        e,
        record {
          wf = wt;
          layout = record {
            area = at;
            ordered = y.ordered;
            apart = λ k. omega (arith, ap (λ table. owners table k) st, y.apart k);
          };
          grows = omega arith;
          pages = λ p off _ h. kept.pages p off h;
          others = kept.others;
        },
        st,
      )
      | inr (t, e, wt, at, st, pages, others) ↦ (
        true,
        t,
        grown vma amt,
        e,
        record {
          wf = wt;
          layout = Layout-grown s t vma amt room y st at;
          grows = omega (arith, here.0);
          pages = pages;
          others = others;
        },
        st,
      )
    ]

alloc_eq :
    (s : Vm) (rgid size : ℕ)
    → rgid < 30
    → 0 < size
    → size < 2 ^ 31
    → alloc 0 rgid size s ≡ (get_free_vmrg_area 0 size >>= alloc_from 0 rgid size) s
unfolding alloc
alloc_eq s rgid size lt pos small =
    let e : (leb 30 rgid || is_negative size || size == 0) ≡ false = ground arith in rw e

-- From a state with the invariant and the layout, `__alloc` of a valid symbol with a positive size that
-- the 22-bit address space has room for never faults. It fails and leaves the symbols alone, or makes
-- a region of exactly that size the symbol's, which no other symbol and no free region shares. The
-- invariant, the layout, and every byte of the pages that the area had, and of other processes, are kept.
pub alloc-Alloced :
    {c : Sizes} (ok : SizesOk c) (held : Place → ℕ) (s : Vm) (vma : Vma) (rgid size : ℕ)
    → Wf c held s
    → Layout s vma
    → rgid < 30
    → 0 < size
    → vma.vm_end + paging_page_alignsz size ≤ 2 ^ 22
    → Alloced c held s vma rgid size (alloc 0 rgid size s)
alloc-Alloced {c} ok held s vma rgid size w y lt pos room =
    let z = alloc_eq s rgid size lt pos (omega arith) in
    elim (Option-cases (first_fit vma.vm_freerg_list size)) [
      | inl e ↦
          let found =
            bind_some (get_free_vmrg_area 0 size) (alloc_from 0 rgid size)
              (search_none s vma size y.area e) in
          let (b, t, vma', i, same, table) = grow-Alike ok held s vma size w y pos room in
          let (u, vma'', same', out) =
            search-Alloced held t vma' rgid size same.wf same.layout lt pos in
          let path = z ∙ found ∙ alloc_more_eq s t vma rgid size b y.area i in
          (
            u,
            vma'',
            Alike-trans held same same',
            elim out [
              | inl (r, f) ↦ inl (path ∙ r, f ∙ table)
              | inr (addr, r, f) ↦ inr (
                addr,
                path ∙ r,
                f
                    ∙ ap
                        (λ (m : ℕ → Region).
                          update m rgid (record { rg_start = addr; rg_end = addr + size }))
                        table,
              )
            ],
          )
      | inr ((rg, left), e) ↦
          let fit =
            subst (Fit vma.vm_freerg_list size) e
              (first_fit-Fit vma.vm_freerg_list size y.ordered pos) in
          let (same, start) = take_region held s vma rgid size rg left w y lt pos fit in
          (
            relaid s vma left rgid rg,
            with_free vma left,
            same,
            inr (
              rg.rg_start,
              z
                  ∙ bind_some (get_free_vmrg_area 0 size) (alloc_from 0 rgid size)
                      (search_some s vma size rg left y.area e)
                  ∙ ap (λ n. some (some n, relaid s vma left rgid rg)) start,
              ap (λ n. update s.mm.symrgtbl rgid (record { rg_start = rg.rg_start; rg_end = n }))
                  fit.0,
            ),
          )
    ]
