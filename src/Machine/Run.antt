-- ===== src/Machine/Run.antt =====
-- src/cpu.c, `run`: an instruction of a process leaves the memory of the others alone.
use native.Mathlib.Decide.{ℕ_discrete}
use ossim_os.Base.{
  ℕ, ◌+◌, ◌-◌, ◌%◌, ◌^◌, ◌≤◌, ◌≡◌, ◌≢◌, refl, sym, ap, ◌∙◌, subst, inl, inr, none, some, arith,
}
use ossim_os.Base.Tests.{ltb, Bool-cases, Option-cases}
use ossim_os.Base.Lists.{update}
use ossim_os.Types.{Vma, Pcb, Inst, Opcode, calc, alloc, free, read, write, syscall}
use ossim_os.Paging.{M}
use ossim_os.Paging.Owner.{Place}
use ossim_os.Paging.View.{Sizes, SizesOk, Wf, peek}
use ossim_os.Area.{paging_page_alignsz}
use ossim_os.Libmem.Layout.{Layout}
use ossim_os.Libmem.Exit.{owns}
use ossim_os.Machine.{Machine, Step, vm_of, with_vm, with_pcb, call, leave, proceed, next}
use ossim_os.Machine.Isolation.{
  Runs-Local, Areas, Safe, Spares, Spares-trans, Local-Safe, sched-Safe,
}
use ossim_os.Machine.Calls.{Ran, libread-Ran, libwrite-Ran, liballoc-Ran, libfree-Ran}
use ossim_os.Libmem.{liballoc, libfree, libread, libwrite}
use ossim_os.Syscall
use ossim_os.Syscall.{libsyscall}
use ossim_os.Cpu.{run, execute, fetch, with_pc, set_reg, found, status}

-- The step returns, with the invariant of all processes kept, the others spared, and the process laid
-- out as before or anew.
abbrev pub Kept : {A : Type 0} → Sizes → Areas → Machine → ℕ → Step A → Type 0
Kept {A} c areas s p f =
    (a : A) × (t : Machine) × (vma : Vma) × (f s ≡ some (a, t))
    × Safe c (update areas p (some vma)) t
    × Spares s p t

pub call-Kept :
    {A : Type 0} {c : Sizes} {areas : Areas} (s : Machine) (p : ℕ) (f : M A)
    → Safe c areas s
    → ((held : Place → ℕ) → Wf c held (vm_of s p) → Ran c held (vm_of s p) f)
    → Kept c areas s p (call p f)
call-Kept s p f safe all =
    let (a, u, vma, r, laid) =
      all (owns (vm_of s (p + 1))) (safe.pairs p (p + 1) (λ e. absurd (omega arith))) in
    let d = Runs-Local r (λ other w. let (b, v, _, z, _) = all other w in (b, v, z)) in
    let (safe', spares) =
      Local-Safe s p safe u d (some vma) (λ vma' e. subst (Layout u) (cc e) laid) in
    (a, with_vm s p u, vma, ap (leave s p) r.eq, safe', spares)

-- A change of the rest of the PCB.
with_pcb-Safe :
    {c : Sizes} {areas : Areas} (s : Machine) (p : ℕ) (pcb : Pcb)
    → pcb.mm ≡ (s.sched.table p).mm
    → Safe c areas s
    → Safe c areas (with_pcb s p pcb) × Spares s p (with_pcb s p pcb)
with_pcb-Safe s p pcb e safe =
    let (safe', same) = sched-Safe s ((with_pcb s p pcb).sched) mms safe in
    (
      safe',
      record { mms = λ q ne. mms q; bytes = λ q page off ne h. ap (λ v. peek v page off) (same q) },
    )
  where
    mms : (q : ℕ) → ((with_pcb s p pcb).sched.table q).mm ≡ (s.sched.table q).mm
    mms q = elim (ℕ_discrete p q) [ yes f ↦ ground (arith, f, e) | no ne ↦ ground arith ]

-- An instruction with room for what it asks for, which is neither the system call `memmap` nor `killall`.
pub record Tame (vma : Vma) (ins : Inst) : Type 0 where
  pub room : ins.opcode ≡ alloc → vma.vm_end + paging_page_alignsz ins.arg_0 ≤ 2 ^ 22
  pub mild : ins.opcode ≡ syscall → (ins.arg_0 ≢ 17) × (ins.arg_0 ≢ 101)

module _ {c : Sizes} (ok : SizesOk c) {areas : Areas} (s : Machine) (p : ℕ) (vma : Vma)
    (safe : Safe c areas s) (live : areas p ≡ some vma) where
  -- A step that changes nothing.
  stay-Kept : {A : Type 0} (f : Step A) (a : A) → f s ≡ some (a, s) → Kept c areas s p f
  stay-Kept f a e = (
    a,
    s,
    vma,
    e,
    record {
      pairs = safe.pairs;
      laid = λ q vma' h. elim (ℕ_discrete p q) [
        | yes z ↦ safe.laid q vma' (sym (ap areas z) ∙ ground (arith, live, h, z))
        | no ne ↦ safe.laid q vma' (ground (arith, h, ne))
      ];
    },
    record { mms = λ q ne. refl; bytes = λ q page off ne h. refl },
  )

  -- A call whose value becomes the status.
  then-Kept :
      {A : Type 0} (f : M A) (g : A → ℕ)
      → Kept c areas s p (call p f)
      → Kept c areas s p (next (call p f) (λ a t. some (g a, t)))
  then-Kept f g (a, t, vma', e, safe', spares) =
      (g a, t, vma', ap (proceed (λ a t. some (g a, t))) e, safe', spares)

  read-Kept :
      (rgid offset reg : ℕ) → Kept c areas s p (next (call p (libread rgid offset)) (set_reg p reg))
  read-Kept rgid offset reg = go (
      call-Kept s p (libread rgid offset) safe
        (λ held w. libread-Ran ok (vm_of s p) vma (safe.laid p vma live) held w rgid offset))
    where
      go :
          Kept c areas s p (call p (libread rgid offset))
          → Kept c areas s p (next (call p (libread rgid offset)) (set_reg p reg))
      go (none, t, vma', e, safe', spares) =
          (2 ^ 32 - 1, t, vma', ap (proceed (set_reg p reg)) e, safe', spares)
      go (some value, t, vma', e, safe', spares) =
          let pcb = t.sched.table p in
          let (safe'', spares') =
            with_pcb-Safe t p (record pcb { regs = update pcb.regs reg value }) refl safe' in
          elim (Bool-cases (ltb reg 10)) [
            | inl h ↦ (
              0,
              with_pcb t p (record pcb { regs = update pcb.regs reg value }),
              vma',
              ap (proceed (set_reg p reg)) e ∙ rw h refl,
              safe'',
              Spares-trans spares spares',
            )
            | inr h ↦ (0, t, vma', ap (proceed (set_reg p reg)) e ∙ rw h refl, safe', spares)
          ]

  mild-Kept : (nr a1 a2 a3 : ℕ) → nr ≢ 17 → nr ≢ 101 → Kept c areas s p (libsyscall p nr a1 a2 a3)
  unfolding libsyscall Syscall.syscall
  mild-Kept nr a1 a2 a3 n17 n101 = stay-Kept (Syscall.syscall p nr a1 a2 a3) 0 (ground arith)

  execute-Kept : (ins : Inst) → Tame vma ins → Kept c areas s p (execute p ins)
  unfolding execute
  execute-Kept ins tame = go ins.opcode refl
    where
      y : Layout (vm_of s p) vma
      y = safe.laid p vma live

      go : (op : Opcode) → ins.opcode ≡ op → Kept c areas s p (execute p ins)
      go calc e = rw e (stay-Kept (λ (t : Machine). some (0, t)) 0 refl)
      go alloc e = rw e (
          then-Kept (liballoc ins.arg_0 ins.arg_1) found (
            call-Kept s p (liballoc ins.arg_0 ins.arg_1) safe (λ held w.
              liballoc-Ran ok (vm_of s p) vma y held w ins.arg_0 ins.arg_1 (tame.room e))))
      go free e = rw e (
          then-Kept (libfree ins.arg_0) status (
            call-Kept s p (libfree ins.arg_0) safe
              (λ held w. libfree-Ran ok (vm_of s p) vma y held w ins.arg_0)))
      go read e = rw e (read-Kept ins.arg_0 ins.arg_1 ins.arg_2)
      go write e = rw e (
          then-Kept (libwrite (ins.arg_0 % 256) ins.arg_1 ins.arg_2) status (
            call-Kept s p (libwrite (ins.arg_0 % 256) ins.arg_1 ins.arg_2) safe (λ held w.
              libwrite-Ran ok (vm_of s p) vma y held w (ins.arg_0 % 256) ins.arg_1 ins.arg_2)))
      go syscall e =
          let (n17, n101) = tame.mild e in
          rw e (mild-Kept ins.arg_0 ins.arg_1 ins.arg_2 ins.arg_3 n17 n101)

-- In a state where every process has the invariant, an instruction of a live process that is tame never
-- faults. Afterwards every process has the invariant, the process has the layout of its area, and every
-- byte, the page table, the areas and the symbols of every other process are what they were.
pub run-Kept :
    {c : Sizes} (ok : SizesOk c) {areas : Areas} (s : Machine) (p : ℕ) (vma : Vma)
    → Safe c areas s
    → areas p ≡ some vma
    → ((ins : Inst) → fetch (s.sched.table p).code (s.sched.table p).pc ≡ some ins → Tame vma ins)
    → Kept c areas s p (run p)
unfolding run
run-Kept ok s p vma safe live tame =
    elim (Option-cases (fetch (s.sched.table p).code (s.sched.table p).pc)) [
      | inl e ↦ stay-Kept ok s p vma safe live (run p) 1 (rw (e, run) refl)
      | inr (ins, e) ↦
          let pcb = s.sched.table p in
          let (safe', spares) =
            with_pcb-Safe s p (record pcb { pc = (pcb.pc + 1) % 2 ^ 32 }) refl safe in
          let (a, t, vma', r, safe'', spares') =
            execute-Kept ok (with_pc s p ((pcb.pc + 1) % 2 ^ 32)) p vma safe' live ins
              (tame ins e) in
          (a, t, vma', rw (e, run) r, safe'', Spares-trans spares spares')
    ]
