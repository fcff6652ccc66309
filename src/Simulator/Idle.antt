-- ===== src/Simulator/Idle.antt =====
-- src/os.c, `cpu_routine`: a CPU that has no process.
use ossim_os.Base.{
  ℕ, zero, suc, ◌≡◌, ◌≢◌, ◌<◌, refl, ap, ◌∙◌, ◌⊎◌, inl, inr, Bool, true, Option, none, some, arith,
}
use ossim_os.Queue.{empty}
use ossim_os.Sched.{Sched, can_dispatch, new_round, get_proc}
use ossim_os.Sched.Mlq.{Got, now, later, never, get_mlq_proc-Got}
use ossim_os.Sched.Invariant.{mlq-new_round}
use ossim_os.Sched.Places.{init_scheduler_sizes}
use ossim_os.Machine.{Machine}
use ossim_os.Simulator.{
  CpuPhase, checking, rechecking, resting, stopped, Cpu, new_cpu, fetched, check, cpu_step, boot,
}

-- Steps of one CPU, with no other thread between them.
unfoldable pub cpu_run : ℕ → ℕ → Bool → Cpu → Machine → Option (Cpu × Machine)
cpu_run zero time_slot done k s = some (k, s)
cpu_run (suc n) time_slot done k s = elim (cpu_step time_slot done k s) [
  | none ↦ none
  | some (k', t) ↦ cpu_run n time_slot done k' t
]

-- Nothing waits at any level.
abbrev pub NoneWaits : Sched → Type 0
NoneWaits s = (i : ℕ) → i < 140 → (s.mlq_ready_queue i).size ≡ 0

never_dispatches :
    (s : Sched) (i : ℕ) → (s.mlq_ready_queue i).size ≡ 0 → can_dispatch s i ≡ true → ⊥
unfolding can_dispatch empty
never_dispatches s i e h = absurd (ground (arith, e, h))

get_proc_idle : (s : Sched) → NoneWaits s → ((get_proc s).0 ≡ none) × NoneWaits (get_proc s).1
unfolding get_proc
get_proc_idle s z = go (get_mlq_proc-Got s)
  where
    again : (t : Sched) → NoneWaits t → NoneWaits (new_round t)
    again t z i h = ap (λ q. (q i).size) (mlq-new_round t) ∙ z i h

    go : {r : Option ℕ × Sched} → Got s r → (r.0 ≡ none) × NoneWaits r.1
    go (now j f) = absurd (never_dispatches s j (z j f.1) f.2)
    go (later j idle f) = absurd (never_dispatches (new_round s) j (again s z j f.1) f.2)
    go (never idle idle') = (refl, again (new_round s) (again s z))

-- A CPU that waits for a process.
pub record Waits (k : Cpu) (s : Machine) : Type 0 where
  pub phase : (k.phase ≡ checking) ⊎ (k.phase ≡ resting)
  pub proc : k.proc ≡ none
  pub empty : NoneWaits s.sched

checking-Waits :
    (time_slot left : ℕ) (done : Bool) (s : Machine)
    → NoneWaits s.sched
    → (k : Cpu) × (t : Machine) × (cpu_step time_slot done
          (record { phase = checking; proc = none; time_left = left })
          s
        ≡ some (k, t))
      × Waits k t
unfolding cpu_step check
checking-Waits time_slot left done s z = go (get_proc s.sched) (get_proc_idle s.sched z)
  where
    go :
        (r : Option ℕ × Sched)
        → (r.0 ≡ none) × NoneWaits r.1
        → (k : Cpu) × (t : Machine) × (some (fetched resting rechecking left r s) ≡ some (k, t))
          × Waits k t
    go (none, sched) (e, z) = (_, _, refl, record { phase = inr refl; proc = refl; empty = z })
    go (some p, sched) (e, z) = absurd (cc e)

step-Waits :
    (time_slot : ℕ) (done : Bool) (k : Cpu) (s : Machine)
    → Waits k s
    → (k' : Cpu) × (t : Machine) × (cpu_step time_slot done k s ≡ some (k', t)) × Waits k' t
unfolding cpu_step
step-Waits time_slot done k s w = go k.phase k.proc w.phase w.proc
  where
    go :
        (phase : CpuPhase) (proc : Option ℕ)
        → (phase ≡ checking) ⊎ (phase ≡ resting)
        → proc ≡ none
        → (k' : Cpu) × (t : Machine) × (cpu_step time_slot done
              (record { phase = phase; proc = proc; time_left = k.time_left })
              s
            ≡ some (k', t))
          × Waits k' t
    go phase proc (inl e) f = rw (e, f) (checking-Waits time_slot k.time_left done s w.empty)
    go phase proc (inr e) f =
        rw (e, f)
          (
            record { phase = checking; proc = none; time_left = k.time_left },
            s,
            refl,
            record { phase = inl refl; proc = refl; empty = w.empty },
          )

-- A CPU that waits for a process never stops, however many steps it takes, as long as no process is put
-- into a ready queue: not even once the loader is done.
pub cpu_run-Waits :
    (n time_slot : ℕ) (done : Bool) (k : Cpu) (s : Machine)
    → Waits k s
    → (k' : Cpu) × (t : Machine) × (cpu_run n time_slot done k s ≡ some (k', t))
      × Waits k' t
      × (k'.phase ≢ stopped)
unfolding cpu_run
cpu_run-Waits zero time_slot done k s w =
    (k, s, refl, w, λ e. elim w.phase [ inl f ↦ absurd (cc (e, f)) | inr f ↦ absurd (cc (e, f)) ])
cpu_run-Waits (suc n) time_slot done k s w =
    let (k', t, e, w') = step-Waits time_slot done k s w in
    let (k'', u, f, w'', ne) = cpu_run-Waits n time_slot done k' t w' in
    (k'', u, rw (e, cpu_run) f, w'', ne)

-- When `main` starts the CPUs, each of them waits.
pub begin-Waits :
    (memramsz : ℕ) (memswpsz : ℕ → ℕ) (sched : Sched) → Waits new_cpu (boot memramsz memswpsz sched)
unfolding boot
begin-Waits memramsz memswpsz sched = record {
  phase = inl refl;
  proc = refl;
  empty = init_scheduler_sizes sched;
}
