-- ===== src/Machine/Isolation.antt =====
-- The memory calls of one process leave the others alone.
use native.Mathlib.Decide.{ℕ_discrete}
use ossim_os.Base.{ℕ, ◌<◌, ◌≡◌, ◌≢◌, refl, sym, ap, ◌∙◌, subst, Option, none, some, arith}
use ossim_os.Base.Lists.{update}
use ossim_os.Types.{Vma, Pcb}
use ossim_os.Sched.{Sched}
use ossim_os.Paging.{Vm, M}
use ossim_os.Paging.Owner.{Place, ram, swap}
use ossim_os.Paging.View.{Sizes, Wf, byte_of, peek, peek_same}
use ossim_os.Libmem.Layout.{Layout}
use ossim_os.Libmem.Run.{Apart}
use ossim_os.Libmem.Exit.{owns}
use ossim_os.Machine.{Machine, vm_of, with_vm}
use ossim_os.Machine.Owns.{owns-some, on_devices, Wf-other, Wf-third}

-- A change of one process and the devices that respects whatever frames the others hold.
pub record Local (c : Sizes) (s t : Vm) : Type 0 where
  pub step : (held : Place → ℕ) → Wf c held s → Wf c held t × Apart held s t

pub Local-refl : (c : Sizes) (s : Vm) → Local c s s
Local-refl c s = record { step = λ held w. (w, λ x off h k. refl) }

pub Local-trans : {c : Sizes} {s t u : Vm} → Local c s t → Local c t u → Local c s u
Local-trans f g = record {
  step = λ held w.
      let (wt, a) = f.step held w in
      let (wu, b) = g.step held wt in (wu, λ x off h k. b x off h k ∙ a x off h k);
}

-- What a call does to a process that it returns to: its value, and the state that it leaves.
pub record Runs {A : Type 0} (c : Sizes) (held : Place → ℕ) (s : Vm) (f : M A) (a : A) (t : Vm)
    : Type 0 where
  pub eq : f s ≡ some (a, t)
  pub wf : Wf c held t
  pub apart : Apart held s t

abbrev result : {A : Type 0} → A → Vm → Option (A × Vm) → A × Vm
result a t none = (a, t)
result a t (some r) = r

-- The call returns the same whoever holds the other frames.
pub Runs-Local :
    {A : Type 0} {c : Sizes} {held : Place → ℕ} {s : Vm} {f : M A} {a : A} {t : Vm}
    → Runs c held s f a t
    → ((other : Place → ℕ) → Wf c other s → (b : A) × (u : Vm) × Runs c other s f b u)
    → Local c s t
Runs-Local {A} {c} {held} {s} {f} {a} {t} r all = record {
  step = λ other w.
      let (b, u, z) = all other w in
      let e : u ≡ t = ap (λ o. (result a t o).1) (sym z.eq ∙ r.eq) in
      (subst (Wf c other) e z.wf, subst (Apart other s) e z.apart);
}

-- The processes that are loaded and have not ended, with their areas.
abbrev pub Areas : Type 0
Areas = ℕ → Option Vma

-- Each process has the invariant while each other one holds its frames, and the live ones have the
-- layout of their areas.
pub record Safe (c : Sizes) (areas : Areas) (s : Machine) : Type 0 where
  pub pairs : (p q : ℕ) → p ≢ q → Wf c (owns (vm_of s q)) (vm_of s p)
  pub laid : (p : ℕ) (vma : Vma) → areas p ≡ some vma → Layout (vm_of s p) vma

-- Every byte of every other process is what it was, and so are its page table, areas and symbols.
pub record Spares (s : Machine) (p : ℕ) (t : Machine) : Type 0 where
  pub mms : (q : ℕ) → q ≢ p → (t.sched.table q).mm ≡ (s.sched.table q).mm
  pub bytes :
      (q page off : ℕ) → q ≢ p → off < 256 → peek (vm_of t q) page off ≡ peek (vm_of s q) page off

pub Spares-trans : {s t u : Machine} {p : ℕ} → Spares s p t → Spares t p u → Spares s p u
Spares-trans f g = record {
  mms = λ q ne. g.mms q ne ∙ f.mms q ne;
  bytes = λ q page off ne h. g.bytes q page off ne h ∙ f.bytes q page off ne h;
}

Layout-devices : (s t : Vm) (vma : Vma) → t.mm ≡ s.mm → Layout s vma → Layout t vma
Layout-devices s t vma e y =
    subst (λ mm. Layout (record t { mm = mm }) vma) (sym e)
      (record {
        area = record {
          only = y.area.only;
          id = y.area.id;
          brk = y.area.brk;
          aligned = y.area.aligned;
          small = y.area.small;
          within = y.area.within;
          beyond = y.area.beyond;
        };
        ordered = y.ordered;
        apart = y.apart;
      })

pub vm_of-with_vm : (s : Machine) (p : ℕ) (v : Vm) → vm_of (with_vm s p v) p ≡ v
vm_of-with_vm s p v =
    let mm_here : ((with_vm s p v).sched.table p).mm ≡ v.mm = ground arith in
    ap (λ m. record v { mm = m }) mm_here

module _ {c : Sizes} {areas : Areas} (s : Machine) (p : ℕ) (safe : Safe c areas s) (v : Vm)
    (d : Local c (vm_of s p) v) where
  abbrev after : Machine
  after = with_vm s p v

  here : vm_of after p ≡ v
  here = vm_of-with_vm s p v

  pcb_there : (q : ℕ) → q ≢ p → after.sched.table q ≡ s.sched.table q
  pcb_there q ne = ground arith

  there : (q : ℕ) → q ≢ p → on_devices v (vm_of s q) ≡ vm_of after q
  there q ne = ap (λ (pcb : Pcb). record v { mm = pcb.mm }) (sym (pcb_there q ne))

  others_hold : (q : ℕ) → q ≢ p → Wf c (owns (vm_of s q)) v
  others_hold q ne = (d.step (owns (vm_of s q)) (safe.pairs p q (λ e. ne (sym e)))).0

  owns_there : (q : ℕ) → q ≢ p → owns (vm_of after q) ≡ owns (vm_of s q)
  owns_there q ne = ap (λ (pcb : Pcb). owns (record v { mm = pcb.mm })) (pcb_there q ne)

  owns_here : owns (vm_of after p) ≡ owns v
  owns_here = ap owns here

  after_pairs : (a b : ℕ) → a ≢ b → Wf c (owns (vm_of after b)) (vm_of after a)
  after_pairs a b ne = elim (ℕ_discrete a p) [
    | yes e ↦
        let nb : b ≢ p = λ f. ne (e ∙ sym f) in
        subst (λ h. Wf c h (vm_of after a)) (sym (owns_there b nb))
          (subst (Wf c (owns (vm_of s b))) (sym (ap (vm_of after) e ∙ here)) (others_hold b nb))
    | no na ↦ elim (ℕ_discrete b p) [
      | yes f ↦
          subst (λ h. Wf c h (vm_of after a)) (sym (ap (λ n. owns (vm_of after n)) f ∙ owns_here))
            (subst (Wf c (owns v)) (there a na) (Wf-other (safe.pairs a b ne) (others_hold a na)))
      | no nb ↦
          subst (λ h. Wf c h (vm_of after a)) (sym (owns_there b nb))
            (subst (Wf c (owns (vm_of s b))) (there a na)
              (Wf-third (safe.pairs a b ne) (others_hold a na) (others_hold b nb)))
    ]
  ]

  same_bytes :
      (q page off : ℕ)
      → q ≢ p
      → off < 256
      → peek (vm_of after q) page off ≡ peek (vm_of s q) page off
  same_bytes q page off ne h =
      ap (λ (u : Vm). peek u page off) (sym (there q ne))
      ∙ peek_same (vm_of s q) (on_devices v (vm_of s q)) page off refl (λ x e.
        let apart = (d.step (owns (vm_of s q)) (safe.pairs p q (λ f. ne (sym f)))).1 in
        bytes x (apart x off (owns-some (vm_of s q) page x e) h))
    where
      bytes :
          (x : Place)
          → byte_of v x off ≡ byte_of (vm_of s p) x off
          → byte_of (on_devices v (vm_of s q)) x off ≡ byte_of (vm_of s q) x off
      bytes (ram f) e = e
      bytes (swap i f) e = e

  -- A local change of process `p` keeps the invariant of all, and spares the others.
  pub Local-Safe :
      (area : Option Vma)
      → ((vma : Vma) → area ≡ some vma → Layout v vma)
      → Safe c (update areas p area) after × Spares s p after
  Local-Safe area y = (
    record {
      pairs = after_pairs;
      laid = λ q vma e. elim (ℕ_discrete q p) [
        | yes f ↦
            subst (λ u. Layout u vma) (sym (ap (vm_of after) f ∙ here))
              (y vma (ground (arith, e, f)))
        | no ne ↦
            Layout-devices (vm_of s q) (vm_of after q) vma
              (ap (λ (pcb : Pcb). pcb.mm) (pcb_there q ne))
              (safe.laid q vma (ground (arith, e, ne)))
      ];
    },
    record { mms = λ q ne. ap (λ (pcb : Pcb). pcb.mm) (pcb_there q ne); bytes = same_bytes },
  )

-- A change of the scheduler and of the PCBs that leaves the memory of every process alone.
pub sched-Safe :
    {c : Sizes} {areas : Areas} (s : Machine) (sched : Sched)
    → ((q : ℕ) → (sched.table q).mm ≡ (s.sched.table q).mm)
    → Safe c areas s
    → Safe c areas (record s { sched = sched })
      × ((q : ℕ) → vm_of (record s { sched = sched }) q ≡ vm_of s q)
sched-Safe {c} {areas} s sched mms safe =
    let t : Machine = record s { sched = sched } in
    let same : (q : ℕ) → vm_of t q ≡ vm_of s q =
      λ q. ap (λ m. record (vm_of s q) { mm = m }) (mms q) in
    (
      record {
        pairs = λ a b ne.
            subst (λ v. Wf c (owns v) (vm_of t a)) (sym (same b))
              (subst (Wf c (owns (vm_of s b))) (sym (same a)) (safe.pairs a b ne));
        laid = λ q vma h. subst (λ v. Layout v vma) (sym (same q)) (safe.laid q vma h);
      },
      same,
    )
