-- ===== src/Simulator/Memory.antt =====
-- src/os.c, `cpu_routine`: what a step of a CPU does to the memory of the processes.
use native.Mathlib.Decide.{ℕ_discrete}
use ossim_os.Base.{
  ℕ, ◌-◌, ◌≤◌, ◌<◌, ◌≡◌, ◌≢◌, refl, sym, ap, ◌∙◌, inl, inr, Bool, ◌||◌, Option, none, some, [], ◌∷◌,
}
use ossim_os.Base.Tests.{◌==◌, if◌then◌else◌, Bool-cases}
use ossim_os.Base.Lists.{length, update, update_same, update_other}
use ossim_os.Types.{Vma, Pcb, Inst}
use ossim_os.Paging.View.{Sizes, SizesOk, peek}
use ossim_os.Sched.{Sched, get_proc, put_proc, finish_proc}
use ossim_os.Sched.Places.{queued, get_proc_rest, put_proc_rest}
use ossim_os.Machine.{Machine, vm_of}
use ossim_os.Machine.Isolation.{Areas, Safe, sched-Safe}
use ossim_os.Machine.Exit.{free_pcb-Safe}
use ossim_os.Machine.Run.{Tame, run-Kept}
use ossim_os.Machine.Quiet.{Calm-Quiet, free_pcb-Calm}
use ossim_os.Syscall.{free_pcb}
use ossim_os.Cpu.{run, fetch}
use ossim_os.Simulator.{
  CpuPhase, checking, finishing, reaping, putting, fetching, rechecking, running, resting, stopped,
  Cpu, with_sched, fetched, check, recheck, enter, cpu_step,
}

-- A process that is loaded and has not ended.
abbrev pub Alive : Option Vma → Type 0
Alive area = (vma : Vma) × (area ≡ some vma)

-- The next instruction of the process is tame.
abbrev pub Mild : Machine → ℕ → Type 0
Mild s p =
    (vma : Vma) (ins : Inst)
    → (s.sched.table p).mm.mmap ≡ vma ∷ []
    → fetch (s.sched.table p).code (s.sched.table p).pc ≡ some ins
    → Tame vma ins

-- A CPU has a process where it needs one.
abbrev pub Busy : CpuPhase → Option ℕ → Type 0
Busy reaping proc = proc ≢ none
Busy finishing proc = proc ≢ none
Busy putting proc = proc ≢ none
Busy running proc = proc ≢ none
Busy checking proc = Unit {0}
Busy fetching proc = Unit {0}
Busy rechecking proc = Unit {0}
Busy resting proc = Unit {0}
Busy stopped proc = Unit {0}

-- The invariant of the memory after a step, the processes that are alive, and those that the step
-- has nothing to do with.
pub record Went (c : Sizes) (areas : Areas) (k : Cpu) (s : Machine) (k' : Cpu) (t : Machine)
    (areas' : Areas) : Type 0 where
  pub safe : Safe c areas' t
  pub busy : Busy k'.phase k'.proc
  pub keeps : (q : ℕ) → Alive (areas q) → (k.phase ≡ reaping → k.proc ≢ some q) → Alive (areas' q)
  pub others :
      (q : ℕ)
      → k.proc ≢ some q
      → (areas' q ≡ areas q)
        × ((t.sched.table q).mm ≡ (s.sched.table q).mm)
        × ((page off : ℕ) → off < 256 → peek (vm_of t q) page off ≡ peek (vm_of s q) page off)
  pub drops :
      (q : ℕ)
      → k.phase ≡ reaping
      → k.proc ≡ some q
      → (queued t.sched q ≤ queued s.sched q) × (k'.proc ≡ none)

-- The step is defined, and leaves the memory so.
abbrev pub Goes : Sizes → Areas → Cpu → Machine → Option (Cpu × Machine) → Type 0
Goes c areas k s r =
    (k' : Cpu) × (t : Machine) × (areas' : Areas) × (r ≡ some (k', t))
    × Went c areas k s k' t areas'

module _ {c : Sizes} {areas : Areas} (s : Machine) (safe : Safe c areas s) where
  -- A step that changes no memory.
  sched-Went :
      (k k' : Cpu) (sched : Sched)
      → ((q : ℕ) → (sched.table q).mm ≡ (s.sched.table q).mm)
      → k.phase ≢ reaping
      → Busy k'.phase k'.proc
      → Went c areas k s k' (with_sched s sched) areas
  sched-Went k k' sched mms ne busy = record {
    safe = (sched-Safe s sched mms safe).0;
    busy = busy;
    keeps = λ q a _. a;
    others = λ q _.
        (refl, mms q, λ page off _. ap (λ v. peek v page off) ((sched-Safe s sched mms safe).1 q));
    drops = λ q e. absurd (ne e);
  }

  fetched-Goes :
      (k : Cpu) (empty busy : CpuPhase) (time_left : ℕ)
      → k.phase ≢ reaping
      → Busy empty none
      → ((p : ℕ) → Busy busy (some p))
      → Goes c areas k s (some (fetched empty busy time_left (get_proc s.sched) s))
  fetched-Goes k empty busy time_left ne b0 b1 = go (get_proc s.sched) (get_proc_rest s.sched).1
    where
      go :
          (r : Option ℕ × Sched)
          → r.1.table ≡ s.sched.table
          → Goes c areas k s (some (fetched empty busy time_left r s))
      go (none, sched) e =
          (_, _, areas, refl, sched-Went k _ sched (λ q. ap (λ (m : ℕ → Pcb). (m q).mm) e) ne b0)
      go (some p, sched) e = (
        _,
        _,
        areas,
        refl,
        sched-Went k _ sched (λ q. ap (λ (m : ℕ → Pcb). (m q).mm) e) ne (b1 p),
      )

  check-Goes :
      (time_left : ℕ) (proc : Option ℕ)
      → Goes c areas
          (record { phase = checking; proc = proc; time_left = time_left })
          s
          (some (check time_left proc s))
  unfolding check
  check-Goes time_left none =
      fetched-Goes (record { phase = checking; proc = none; time_left = time_left }) resting
        rechecking time_left (λ e. absurd (cc e)) tt (λ p. tt)
  check-Goes time_left (some p) =
      let pcb = s.sched.table p in
      let k : Cpu = record { phase = checking; proc = some p; time_left = time_left } in
      elim (Bool-cases (pcb.killed || pcb.pc == length pcb.code)) [
        | inl e ↦ rw e (
          _,
          _,
          areas,
          refl,
          sched-Went k (record { phase = finishing; proc = some p; time_left = time_left }) s.sched
              (λ q. refl) (λ z. absurd (cc z)) (λ z. absurd (cc z)),
        )
        | inr e ↦ elim (Bool-cases (time_left == 0)) [
          | inl f ↦
              rw (e, f)
                (
                  _,
                  _,
                  areas,
                  refl,
                  sched-Went k (record { phase = putting; proc = some p; time_left = time_left })
                      s.sched (λ q. refl) (λ z. absurd (cc z)) (λ z. absurd (cc z)),
                )
          | inr f ↦
              rw (e, f)
                (
                  _,
                  _,
                  areas,
                  refl,
                  sched-Went k (record { phase = rechecking; proc = some p; time_left = time_left })
                      s.sched (λ q. refl) (λ z. absurd (cc z)) tt,
                )
        ]
      ]

  finish-Goes :
      (p time_left : ℕ)
      → Goes c areas
          (record { phase = finishing; proc = some p; time_left = time_left })
          s
          (some (
            record { phase = reaping; proc = some p; time_left = time_left },
            with_sched s (finish_proc s.sched p),
          ))
  unfolding finish_proc
  finish-Goes p time_left = (
    _,
    _,
    areas,
    refl,
    sched-Went (record { phase = finishing; proc = some p; time_left = time_left })
        (record { phase = reaping; proc = some p; time_left = time_left }) (finish_proc s.sched p)
        (λ q. refl) (λ z. absurd (cc z)) (λ z. absurd (cc z)),
  )

  put-Goes :
      (p time_left : ℕ)
      → Goes c areas
          (record { phase = putting; proc = some p; time_left = time_left })
          s
          (some (
            record { phase = fetching; proc = none; time_left = time_left },
            with_sched s (put_proc s.sched p),
          ))
  put-Goes p time_left = (
    _,
    _,
    areas,
    refl,
    sched-Went (record { phase = putting; proc = some p; time_left = time_left })
        (record { phase = fetching; proc = none; time_left = time_left }) (put_proc s.sched p)
        (λ q. ap (λ (m : ℕ → Pcb). (m q).mm) (put_proc_rest s.sched p).1) (λ z. absurd (cc z)) tt,
  )

  -- The end of a process.
  reap-Goes :
      (p time_left : ℕ)
      → Goes c areas
          (record { phase = reaping; proc = some p; time_left = time_left })
          s
          (enter (record { phase = fetching; proc = none; time_left = 0 }) (free_pcb p s))
  reap-Goes p time_left =
      let k' : Cpu = record { phase = fetching; proc = none; time_left = 0 } in
      let (t, e, safe', spares, _) = free_pcb-Safe s p safe in
      (
        k',
        t,
        update areas p none,
        ap (enter k') e,
        record {
          safe = safe';
          busy = tt;
          keeps = λ q a ne.
              let other : q ≢ p = λ (z : q ≡ p). ne refl (ap (λ n. some n) (sym z)) in
              (a.0, update_other areas p none q other ∙ a.1);
          others = λ q ne.
              let other : q ≢ p = λ (z : q ≡ p). ne (ap (λ n. some n) (sym z)) in
              (
                update_other areas p none q other,
                spares.mms q other,
                λ page off lt. spares.bytes q page off other lt,
              );
          drops = λ q _ _. ((Calm-Quiet s tt t (free_pcb-Calm s p) e).fewer q, refl);
        },
      )

  -- An instruction.
  run-Goes :
      (p time_left : ℕ)
      → SizesOk c
      → Alive (areas p)
      → Mild s p
      → Goes c areas
          (record { phase = running; proc = some p; time_left = time_left })
          s
          (enter (record { phase = resting; proc = some p; time_left = time_left - 1 }) (run p s))
  run-Goes p time_left ok (vma, live) mild =
      let k' : Cpu = record { phase = resting; proc = some p; time_left = time_left - 1 } in
      let (a, t, vma', e, safe', spares) =
        run-Kept ok s p vma safe live (λ ins f. mild vma ins (safe.laid p vma live).area.only f) in
      (
        k',
        t,
        update areas p (some vma'),
        ap (enter k') e,
        record {
          safe = safe';
          busy = tt;
          keeps = λ q b ne. elim (ℕ_discrete q p) [
            | yes z ↦ (vma', ap (update areas p (some vma')) z ∙ update_same areas p (some vma'))
            | no other ↦ (b.0, update_other areas p (some vma') q other ∙ b.1)
          ];
          others = λ q ne.
              let other : q ≢ p = λ (z : q ≡ p). ne (ap (λ n. some n) (sym z)) in
              (
                update_other areas p (some vma') q other,
                spares.mms q other,
                λ page off lt. spares.bytes q page off other lt,
              );
          drops = λ q z. absurd (cc z);
        },
      )

-- Each step of a CPU that has not stopped.
pub cpu_step-Goes :
    {c : Sizes} {areas : Areas} (time_slot : ℕ) (done : Bool) (k : Cpu) (s : Machine)
    → Safe c areas s
    → SizesOk c
    → Busy k.phase k.proc
    → ((p : ℕ) → k.proc ≡ some p → Alive (areas p))
    → (k.phase ≡ running → (p : ℕ) → k.proc ≡ some p → Mild s p)
    → k.phase ≢ stopped
    → Goes c areas k s (cpu_step time_slot done k s)
unfolding cpu_step recheck
cpu_step-Goes {c} {areas} time_slot done k s safe ok b a m ne =
    go k.phase k.proc k.time_left b a m ne
  where
    go :
        (phase : CpuPhase) (proc : Option ℕ) (left : ℕ)
        → Busy phase proc
        → ((p : ℕ) → proc ≡ some p → Alive (areas p))
        → (phase ≡ running → (p : ℕ) → proc ≡ some p → Mild s p)
        → phase ≢ stopped
        → Goes c areas
            (record { phase = phase; proc = proc; time_left = left })
            s
            (cpu_step time_slot done (record { phase = phase; proc = proc; time_left = left }) s)
    go checking proc left b a m ne = check-Goes s safe left proc
    go finishing none left b a m ne = absurd (b refl)
    go finishing (some p) left b a m ne = finish-Goes s safe p left
    go putting none left b a m ne = absurd (b refl)
    go putting (some p) left b a m ne = put-Goes s safe p left
    go reaping none left b a m ne = absurd (b refl)
    go reaping (some p) left b a m ne = reap-Goes s safe p left
    go fetching proc left b a m ne =
        fetched-Goes s safe (record { phase = fetching; proc = proc; time_left = left }) rechecking
          rechecking left (λ e. absurd (cc e)) tt (λ p. tt)
    go rechecking none left b a m ne = elim (Bool-cases done) [
      | inl e ↦ rw e (
        _,
        _,
        areas,
        refl,
        sched-Went s safe (record { phase = rechecking; proc = none; time_left = left })
            (record { phase = stopped; proc = none; time_left = left }) s.sched (λ q. refl)
            (λ z. absurd (cc z)) tt,
      )
      | inr e ↦ rw e (
        _,
        _,
        areas,
        refl,
        sched-Went s safe (record { phase = rechecking; proc = none; time_left = left })
            (record { phase = resting; proc = none; time_left = left }) s.sched (λ q. refl)
            (λ z. absurd (cc z)) tt,
      )
    ]
    go rechecking (some p) left b a m ne = (
      _,
      _,
      areas,
      refl,
      sched-Went s safe (record { phase = rechecking; proc = some p; time_left = left })
          (record {
            phase = running;
            proc = some p;
            time_left = if left == 0 then time_slot else left;
          })
          s.sched (λ q. refl) (λ z. absurd (cc z)) (λ z. absurd (cc z)),
    )
    go running none left b a m ne = absurd (b refl)
    go running (some p) left b a m ne = run-Goes s safe p left ok (a p refl) (m refl p refl)
    go resting proc left b a m ne = (
      _,
      _,
      areas,
      refl,
      sched-Went s safe (record { phase = resting; proc = proc; time_left = left })
          (record { phase = checking; proc = proc; time_left = left }) s.sched (λ q. refl)
          (λ z. absurd (cc z)) tt,
    )
    go stopped proc left b a m ne = absurd (ne refl)
