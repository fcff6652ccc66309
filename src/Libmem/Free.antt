-- ===== src/Libmem/Free.antt =====
-- src/libmem.c, `__free`: the region of a symbol is free again.
use ossim_os.Base.{ℕ, ◌+◌, ◌-◌, ◌≤◌, ◌<◌, ◌≡◌, ◌^◌, refl, ap, some, List, arith, true, false}
use ossim_os.Base.Tests.{ltb, leb, if◌then◌else◌}
use ossim_os.Base.Lists.{update}
use ossim_os.Types.{Region, Vma}
use ossim_os.Region.{enlist_vm_freerg_list, init_vm_rg}
use ossim_os.Region.Cover.{
  inside, cover, cover-enlist_vm_freerg_list, enlist_vm_freerg_list-Ordered,
}
use ossim_os.Paging.{Vm}
use ossim_os.Paging.Owner.{Place}
use ossim_os.Paging.View.{Sizes, Wf, Keeps}
use ossim_os.Area.{to_int, to_ulong, with_mmap}
use ossim_os.Area.Limit.{change_vma_only}
use ossim_os.Libmem.{free, with_symrg}
use ossim_os.Libmem.Layout.{
  owners-update, Layout, with_free, relaid, Layout-relaid, Wf-relaid, Keeps-relaid,
}
use ossim_os.Libmem.Alloc.{get_vma_only}

abbrev nowhere : Region
nowhere = record { rg_start = 0; rg_end = 0 }

-- The addresses of a symbol are in the area.
inside-le :
    (s : Vm) (vma : Vma) (rgid a : ℕ)
    → rgid < 30
    → Layout s vma
    → inside (s.mm.symrgtbl rgid) a ≤ (if ltb a vma.vm_end then 1 else 0)
inside-le s vma rgid a lt y =
    let z = owners-update s.mm.symrgtbl rgid nowhere a lt in
    let none_inside : inside nowhere a ≡ 0 = ground arith in
    omega (arith, z, none_inside, y.apart a)

region_end :
    (s : Vm) (vma : Vma) (rgid : ℕ)
    → rgid < 30
    → Layout s vma
    → (s.mm.symrgtbl rgid).rg_start < (s.mm.symrgtbl rgid).rg_end
    → (s.mm.symrgtbl rgid).rg_end ≤ vma.vm_end
region_end s vma rgid lt y h =
    ground (arith, inside-le s vma rgid ((s.mm.symrgtbl rgid).rg_end - 1) lt y)

-- The free regions after the region of a symbol has been given back.
abbrev pub freed_list : Vm → Vma → ℕ → List Region
freed_list s vma rgid = enlist_vm_freerg_list vma.vm_freerg_list (s.mm.symrgtbl rgid)

to_ulong_small : (addr : ℕ) → addr < 2 ^ 31 → to_ulong (to_int addr) ≡ addr
to_ulong_small addr lt = ground arith

free_eq :
    (s : Vm) (vma : Vma) (rgid : ℕ)
    → rgid < 30
    → Layout s vma
    → (s.mm.symrgtbl rgid).rg_start < (s.mm.symrgtbl rgid).rg_end
    → free 0 rgid s ≡ some (true, relaid s vma (freed_list s vma rgid) rgid nowhere)
unfolding free init_vm_rg
free_eq s vma rgid lt y h =
    let rg = s.mm.symrgtbl rgid in
    let hi = region_end s vma rgid lt y h in
    let e : to_ulong (to_int rg.rg_start) ≡ rg.rg_start =
      to_ulong_small rg.rg_start (omega (arith, y.area.small)) in
    let f : to_ulong (to_int rg.rg_end) ≡ rg.rg_end =
      to_ulong_small rg.rg_end (omega (arith, y.area.small)) in
    let guard : leb 30 rgid ≡ false = ground arith in
    let nonempty : leb rg.rg_end rg.rg_start ≡ false = ground arith in
    rw (guard, get_vma_only s vma y.area, nonempty, e, f)
      (ap (λ l. some (true, with_mmap (with_symrg s rgid nowhere) l))
        (change_vma_only s.mm.mmap vma
          (λ v. record v { vm_freerg_list = enlist_vm_freerg_list v.vm_freerg_list rg }) y.area.only
          y.area.id))

-- From a state with the invariant and the layout, `__free` of a symbol that has a region returns 0: the
-- symbol has none afterwards, and the list covers the addresses of the region besides those that it
-- did. The invariant, the layout and every byte of every process are kept.
pub free-Layout :
    {c : Sizes} (held : Place → ℕ) (s : Vm) (vma : Vma) (rgid : ℕ)
    → Wf c held s
    → Layout s vma
    → rgid < 30
    → (s.mm.symrgtbl rgid).rg_start < (s.mm.symrgtbl rgid).rg_end
    → (t : Vm) × (vma' : Vma) × (free 0 rgid s ≡ some (true, t))
      × Wf c held t
      × Layout t vma'
      × Keeps held s t
      × (t.mm.symrgtbl ≡ update s.mm.symrgtbl rgid (record { rg_start = 0; rg_end = 0 }))
      × ((a : ℕ)
          → cover vma'.vm_freerg_list a
            ≡ inside (s.mm.symrgtbl rgid) a + cover vma.vm_freerg_list a)
free-Layout held s vma rgid w y lt h =
    let l = freed_list s vma rgid in
    let c =
      λ (a : ℕ). cover-enlist_vm_freerg_list vma.vm_freerg_list (s.mm.symrgtbl rgid) a y.ordered in
    (
      relaid s vma l rgid nowhere,
      with_free vma l,
      free_eq s vma rgid lt y h,
      Wf-relaid vma l rgid nowhere w,
      Layout-relaid s vma l rgid nowhere lt y
          (enlist_vm_freerg_list-Ordered vma.vm_freerg_list (s.mm.symrgtbl rgid) y.ordered)
          (λ a.
            let none_inside : inside nowhere a ≡ 0 = ground arith in
            omega (arith, c a, none_inside)),
      Keeps-relaid held s vma l rgid nowhere,
      refl,
      c,
    )
