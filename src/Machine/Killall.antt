-- ===== src/Machine/Killall.antt =====
-- src/sys_killall.c: what the end of its victims does to the processes.
use native.Mathlib.Decide.{ℕ_discrete}
use ossim_os.Base.{
  ℕ, zero, suc, ◌+◌, ◌<◌, ◌≡◌, ◌≢◌, refl, sym, ap, ◌∙◌, subst, inl, inr, none, some, true, false,
  List, [], ◌∷◌, arith,
}
use ossim_os.Base.Tests.{Bool-cases}
use ossim_os.Base.Lists.{update, contains}
use ossim_os.Types.{Vma, Pcb}
use ossim_os.Paging.{Vm, pure}
use ossim_os.Paging.Monad.{bind_some}
use ossim_os.Paging.Owner.{Place}
use ossim_os.Paging.View.{Sizes, SizesOk, Wf, where_is, peek}
use ossim_os.Sched.{kill_proc_by_name}
use ossim_os.Sched.Kill.{kill_proc_by_name-Marked}
use ossim_os.Sched.Victims.{kill_proc_by_name-Spared}
use ossim_os.Sched.Places.{queued}
use ossim_os.Sched.Killed.{kill_proc_by_name-Rest}
use ossim_os.Libmem.{read}
use ossim_os.Libmem.Layout.{Layout}
use ossim_os.Syscall.{ends_name, read_name, free_pcb, free_victims, kill_named, sys_killall}
use ossim_os.Machine.{Machine, vm_of, call, proceed}
use ossim_os.Machine.Isolation.{Areas, Safe, sched-Safe}
use ossim_os.Machine.Calls.{Ran, read-Ran}
use ossim_os.Machine.Exit.{free_pcb-Safe}
use ossim_os.Machine.Run.{call-Kept}

-- The areas of the processes that are left.
abbrev pub without : List ℕ → Areas → Areas
without [] areas = areas
without (p ∷ older) areas = update (without older areas) p none

-- The memory of process `q` is what it was.
pub record Same (s : Machine) (q : ℕ) (t : Machine) : Type 0 where
  pub mm : (t.sched.table q).mm ≡ (s.sched.table q).mm
  pub bytes : (page off : ℕ) → off < 256 → peek (vm_of t q) page off ≡ peek (vm_of s q) page off

Same-trans : {s t u : Machine} {q : ℕ} → Same s q t → Same t q u → Same s q u
Same-trans f g = record {
  mm = g.mm ∙ f.mm;
  bytes = λ page off h. g.bytes page off h ∙ f.bytes page off h;
}

-- No page of the process is mapped.
abbrev pub Gone : Machine → ℕ → Type 0
Gone s q = (page : ℕ) → where_is (vm_of s q) page ≡ none

Gone-same :
    (s t : Machine) (q : ℕ) → (t.sched.table q).mm ≡ (s.sched.table q).mm → Gone s q → Gone t q
Gone-same s t q e g page = ap (λ m. where_is (record (vm_of t q) { mm = m }) page) e ∙ g page

-- The release of the victims, one after another.
free_victims-Safe :
    {c : Sizes} {areas : Areas} (victims : List ℕ) (s : Machine)
    → Safe c areas s
    → (t : Machine) × (free_victims victims s ≡ some (tt, t))
      × Safe c (without victims areas) t
      × ((q : ℕ) → contains victims q ≡ false → Same s q t)
      × ((q : ℕ) → contains victims q ≡ true → Gone t q)
unfolding free_victims
free_victims-Safe [] s safe =
    (s, refl, safe, λ q h. record { mm = refl; bytes = λ page off k. refl }, λ q h. absurd (cc h))
free_victims-Safe (p ∷ older) s safe =
    let (t, e, st, same, gone) = free_victims-Safe older s safe in
    let (u, f, su, spares, ended) = free_pcb-Safe t p st in
    (
      u,
      ap (proceed (λ _. free_pcb p)) e ∙ f,
      su,
      λ q h.
          let ne : q ≢ p = λ z. absurd (ground (arith, h, z)) in
          Same-trans (same q (ground (arith, h)))
            (record { mm = spares.mms q ne; bytes = λ page off k. spares.bytes q page off ne k }),
      λ q h. elim (ℕ_discrete q p) [
        | yes z ↦ subst (Gone u) (sym z) ended.gone
        | no ne ↦ Gone-same t u q (spares.mms q ne) (gone q (ground (arith, h, ne)))
      ],
    )

-- The loop that reads the name only reads.
read_name-Ran :
    {c : Sizes} (ok : SizesOk c) (held : Place → ℕ) (left i memrg : ℕ) (s : Vm) (vma : Vma)
    → Layout s vma
    → Wf c held s
    → Ran c held s (read_name left i memrg)
unfolding read_name
read_name-Ran ok held zero i memrg s vma y w =
    ([], s, vma, record { eq = refl; wf = w; apart = λ x off h k. refl }, y)
read_name-Ran {c} ok held (suc left) i memrg s vma y w =
    go (λ t vma' yt wt. read_name-Ran ok held left (i + 1) memrg t vma' yt wt)
      (read-Ran ok s vma y held w memrg i)
  where
    go :
        ((t : Vm) (vma' : Vma)
          → Layout t vma'
          → Wf c held t
          → Ran c held t (read_name left (i + 1) memrg))
        → Ran c held s (read 0 memrg i)
        → Ran c held s (read_name (suc left) i memrg)
    go later (none, t, vma', r, yt) = (
      [],
      t,
      vma',
      record { eq = bind_some (read 0 memrg i) _ r.eq; wf = r.wf; apart = r.apart },
      yt,
    )
    go later (some byte, t, vma', r, yt) = elim (Bool-cases (ends_name byte)) [
      | inl e ↦ (
        [],
        t,
        vma',
        record { eq = bind_some (read 0 memrg i) _ r.eq ∙ rw e refl; wf = r.wf; apart = r.apart },
        yt,
      )
      | inr e ↦
          let (rest, u, vma'', z, yu) = later t vma' yt r.wf in
          (
            byte ∷ rest,
            u,
            vma'',
            record {
              eq =
                  bind_some (read 0 memrg i) _ r.eq
                  ∙ rw e
                      (bind_some (read_name left (i + 1) memrg) (λ rest. pure (byte ∷ rest)) z.eq);
              wf = z.wf;
              apart = λ x off h k. z.apart x off h k ∙ r.apart x off h k;
            },
            yu,
          )
    ]

-- What `kill_proc_by_name` and the release of the victims do.
kill_named-Safe :
    {c : Sizes} {areas : Areas} (caller : ℕ) (name : List ℕ) (s : Machine)
    → Safe c areas s
    → (t : Machine) × (kill_named caller name s
        ≡ some ((kill_proc_by_name s.sched name caller).count, t))
      × Safe c (without (kill_proc_by_name s.sched name caller).victims areas) t
      × ((q : ℕ) → contains (kill_proc_by_name s.sched name caller).victims q ≡ false → Same s q t)
      × ((q : ℕ) → contains (kill_proc_by_name s.sched name caller).victims q ≡ true → Gone t q)
unfolding kill_named
kill_named-Safe caller name s safe =
    let k = kill_proc_by_name s.sched name caller in
    let (marked, _) = kill_proc_by_name-Marked s.sched name caller in
    let mms : (q : ℕ) → (k.sched.table q).mm ≡ (s.sched.table q).mm = λ q. elim (marked.each q) [
      | inl e ↦ ap (λ (p : Pcb). p.mm) e
      | inr (_, e) ↦ ap (λ (p : Pcb). p.mm) e
    ] in
    let (safe', vms) = sched-Safe s k.sched mms safe in
    let (t, e, st, same, gone) = free_victims-Safe k.victims (record s { sched = k.sched }) safe' in
    (
      t,
      ap (proceed (λ _ t. some (k.count, t))) e,
      st,
      λ q h.
          Same-trans
            (record { mm = mms q; bytes = λ page off l. ap (λ v. peek v page off) (vms q) })
            (same q h),
      gone,
    )

-- What `killall` has done by state `t`, where `m` is the state after it has read the name; `vma'` is the
-- area of the caller.
pub record Killed (c : Sizes) (areas : Areas) (s : Machine) (caller memrg : ℕ) (name : List ℕ)
    (m t : Machine) (vma' : Vma) : Type 0 where
  pub reads : call caller (read_name 99 0 memrg) s ≡ some (name, m)
  pub returns : sys_killall caller memrg s ≡ some ((kill_proc_by_name m.sched name caller).count, t)
  pub safe :
      Safe c
        (without (kill_proc_by_name m.sched name caller).victims (update areas caller (some vma')))
        t
  pub spared : contains (kill_proc_by_name m.sched name caller).victims caller ≡ false
  pub taken :
      (q : ℕ)
      → queued (kill_proc_by_name m.sched name caller).sched q ≢ queued m.sched q
      → contains (kill_proc_by_name m.sched name caller).victims q ≡ true
  pub gone : (q : ℕ) → contains (kill_proc_by_name m.sched name caller).victims q ≡ true → Gone t q
  pub same :
      (q : ℕ)
      → q ≢ caller
      → contains (kill_proc_by_name m.sched name caller).victims q ≡ false
      → Same s q t

-- In a state where every process has the invariant, `killall` by a live process never faults: it reads
-- the name, calls `kill_proc_by_name` with it, and returns the count that this gives.
-- Every process has the invariant afterwards. Each process that `kill_proc_by_name` took out of a ready
-- queue is one of those that it handed over, and each of these has no page left and no longer counts
-- as live; the caller is none of them, and is laid out as before; and every other process has its page
-- table and every byte that it had.
pub sys_killall-Safe :
    {c : Sizes} (ok : SizesOk c) {areas : Areas} (s : Machine) (caller memrg : ℕ) (vma : Vma)
    → Safe c areas s
    → areas caller ≡ some vma
    → (name : List ℕ) × (m : Machine) × (t : Machine) × (vma' : Vma) × Killed c areas s caller memrg
        name m t vma'
unfolding sys_killall
sys_killall-Safe ok s caller memrg vma safe live =
    let (name, m, vma', e, sm, spares) = call-Kept s caller (read_name 99 0 memrg) safe (λ held w.
      read_name-Ran ok held 99 0 memrg (vm_of s caller) vma (safe.laid caller vma live) w) in
    let (t, f, st, same, gone) = kill_named-Safe caller name m sm in
    let k = kill_proc_by_name m.sched name caller in
    (
      name,
      m,
      t,
      vma',
      record {
        reads = e;
        returns = ap (proceed (kill_named caller)) e ∙ f;
        safe = st;
        spared = kill_proc_by_name-Spared m.sched name caller;
        taken = λ q ne. elim (Bool-cases (contains k.victims q)) [
          | inl h ↦ h
          | inr h ↦ absurd (ne ((kill_proc_by_name-Rest m.sched name caller).waiting q h))
        ];
        gone = gone;
        same = λ q ne h.
            Same-trans
              (record { mm = spares.mms q ne; bytes = λ page off l. spares.bytes q page off ne l })
              (same q h);
      },
    )
