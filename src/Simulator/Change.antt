-- ===== src/Simulator/Change.antt =====
-- src/os.c, `cpu_routine`: what a step of a CPU does to the places of the processes.
use ossim_os.Base.{
  ℕ, ◌+◌, ◌≤◌, ◌<◌, ◌≡◌, ◌≢◌, refl, sym, ap, ◌∙◌, inl, inr, Bool, ◌||◌, Option, none, some, arith,
}
use ossim_os.Base.Tests.{◌==◌, if◌then◌else◌, Bool-cases}
use ossim_os.Base.Lists.{length}
use ossim_os.Types.{Pcb}
use ossim_os.Queue.{remove_from_queue}
use ossim_os.Sched.{Sched, get_proc, put_proc, finish_proc}
use ossim_os.Sched.Places.{
  stands_in, queued, handed, queued-get_proc, put_proc-le, put_proc_rest, get_proc_rest,
  stands_in-remove_from_queue,
}
use ossim_os.Sched.Reaped.{Once, remove_once}
use ossim_os.Machine.{Machine}
use ossim_os.Machine.Quiet.{Calm, Calm-Quiet, free_pcb-Calm, run-Calm}
use ossim_os.Syscall.{free_pcb}
use ossim_os.Cpu.{run}
use ossim_os.Simulator.{
  CpuPhase, checking, finishing, reaping, putting, fetching, rechecking, running, resting, stopped,
  Cpu, with_sched, fetched, check, recheck, enter, cpu_step,
}

-- From CPU `k` and state `s` to CPU `k'` and state `t`, no process gains a place, and one that the
-- CPU is about to release is on no list.
pub record Change (k : Cpu) (s : Machine) (k' : Cpu) (t : Machine) : Type 0 where
  pub moves : (p : ℕ) → queued t.sched p + handed k'.proc p ≤ queued s.sched p + handed k.proc p
  pub listed : (p : ℕ) → stands_in t.sched.running_list p ≤ stands_in s.sched.running_list p
  pub prio : (p : ℕ) → (t.sched.table p).prio ≡ (s.sched.table p).prio
  pub reaped :
      (p : ℕ) → k'.phase ≡ reaping → k'.proc ≡ some p → stands_in t.sched.running_list p ≡ 0

pub data Moved (k : Cpu) (s : Machine) : Option (Cpu × Machine) → Type 0 where
  stuck : Moved k s none
  moved : (k' : Cpu) (t : Machine) → Change k s k' t → Moved k s (some (k', t))

fetched-Change :
    (k : Cpu) (s : Machine) (empty busy : CpuPhase) (time_left : ℕ)
    → empty ≢ reaping
    → busy ≢ reaping
    → let (k', t) = fetched empty busy time_left (get_proc s.sched) s in Change k s k' t
fetched-Change k s empty busy time_left ne nb =
    go (get_proc s.sched) (queued-get_proc s.sched) (get_proc_rest s.sched)
  where
    go :
        (r : Option ℕ × Sched)
        → ((p : ℕ) → queued s.sched p ≡ queued r.1 p + handed r.0 p)
        → (r.1.running_list ≡ s.sched.running_list) × (r.1.table ≡ s.sched.table)
        → let (k', t) = fetched empty busy time_left r s in Change k s k' t
    go (none, sched) f (g, h) = record {
      moves = λ p. omega (arith, f p);
      listed = λ p. omega (arith, ap (λ q. stands_in q p) g);
      prio = λ p. ap (λ (m : ℕ → Pcb). (m p).prio) h;
      reaped = λ p z. absurd (ne z);
    }
    go (some q, sched) f (g, h) = record {
      moves = λ p. omega (arith, f p);
      listed = λ p. omega (arith, ap (λ q. stands_in q p) g);
      prio = λ p. ap (λ (m : ℕ → Pcb). (m p).prio) h;
      reaped = λ p z. absurd (nb z);
    }

-- What a step relies on: no process waits twice, and that of the CPU has a valid priority.
pub record Proper (k : Cpu) (s : Machine) : Type 0 where
  pub once : Once s.sched
  pub prio : (p : ℕ) → k.proc ≡ some p → (s.sched.table p).prio < 140

module _ (s : Machine) (time_left : ℕ) where
  finish-Change :
      (phase : CpuPhase) (p : ℕ)
      → Once s.sched
      → Change
          (record { phase = phase; proc = some p; time_left = time_left })
          s
          (record { phase = reaping; proc = some p; time_left = time_left })
          (with_sched s (finish_proc s.sched p))
  unfolding finish_proc
  finish-Change phase p o = record {
    moves = λ q. omega arith;
    listed = λ q. omega (arith, stands_in-remove_from_queue s.sched.running_list p q);
    prio = λ q. refl;
    reaped = λ q _ z.
        let e : p ≡ q = cc z in
        ap (stands_in (remove_from_queue s.sched.running_list p).1) (sym e)
        ∙ remove_once s.sched.running_list p (o.listed p);
  }

  put-Change :
      (phase : CpuPhase) (p : ℕ)
      → (s.sched.table p).prio < 140
      → Change
          (record { phase = phase; proc = some p; time_left = time_left })
          s
          (record { phase = fetching; proc = none; time_left = time_left })
          (with_sched s (put_proc s.sched p))
  put-Change phase p h = record {
    moves = λ q. omega (arith, put_proc-le s.sched p q h);
    listed = λ q. omega (arith, ap (λ r. stands_in r q) (put_proc_rest s.sched p).0);
    prio = λ q. ap (λ (m : ℕ → Pcb). (m q).prio) (put_proc_rest s.sched p).1;
    reaped = λ q z. absurd (cc z);
  }

  -- A step that changes no more than the phase.
  phase-Change :
      (from to : CpuPhase) (left : ℕ) (proc : Option ℕ)
      → to ≢ reaping
      → Change
          (record { phase = from; proc = proc; time_left = time_left })
          s
          (record { phase = to; proc = proc; time_left = left })
          s
  phase-Change from to left proc ne = record {
    moves = λ q. omega arith;
    listed = λ q. omega arith;
    prio = λ q. refl;
    reaped = λ q z. absurd (ne z);
  }

  check-Moved :
      (proc : Option ℕ)
      → Proper (record { phase = checking; proc = proc; time_left = time_left }) s
      → Moved
          (record { phase = checking; proc = proc; time_left = time_left })
          s
          (some (check time_left proc s))
  unfolding check
  check-Moved none h = moved _ _ (
      fetched-Change (record { phase = checking; proc = none; time_left = time_left }) s resting
        rechecking time_left (λ e. absurd (cc e)) (λ e. absurd (cc e)))
  check-Moved (some p) h =
      let pcb = s.sched.table p in
      elim (Bool-cases (pcb.killed || pcb.pc == length pcb.code)) [
        | inl e ↦
            rw e
              (moved _ _ (phase-Change checking finishing time_left (some p) (λ z. absurd (cc z))))
        | inr e ↦ elim (Bool-cases (time_left == 0)) [
          | inl f ↦
              rw (e, f)
                (moved _ _ (phase-Change checking putting time_left (some p) (λ z. absurd (cc z))))
          | inr f ↦
              rw (e, f)
                (moved _ _
                  (phase-Change checking rechecking time_left (some p) (λ z. absurd (cc z))))
        ]
      ]

  -- A step that runs `f` and moves on to CPU `k'`, which keeps the process or drops it.
  enter-Moved :
      {A : Type 0} (k k' : Cpu) (r : Option (A × Machine))
      → ((p : ℕ) → handed k'.proc p ≤ handed k.proc p)
      → k'.phase ≢ reaping
      → Calm s r
      → Moved k s (enter k' r)
  enter-Moved k k' none h ne c = stuck
  enter-Moved k k' (some (a, t)) h ne c =
      let q = Calm-Quiet s a t c refl in
      moved k' t (record {
        moves = λ p. omega (arith, h p, q.fewer p);
        listed = q.listed;
        prio = q.prio;
        reaped = λ p z. absurd (ne z);
      })

-- Each step of a CPU.
pub cpu_step-Moved :
    (time_slot : ℕ) (done : Bool) (k : Cpu) (s : Machine)
    → Proper k s
    → Moved k s (cpu_step time_slot done k s)
unfolding cpu_step recheck
cpu_step-Moved time_slot done k s h = go k.phase k.proc k.time_left h
  where
    go :
        (phase : CpuPhase) (proc : Option ℕ) (left : ℕ)
        → Proper (record { phase = phase; proc = proc; time_left = left }) s
        → Moved
            (record { phase = phase; proc = proc; time_left = left })
            s
            (cpu_step time_slot done (record { phase = phase; proc = proc; time_left = left }) s)
    go checking proc left h = check-Moved s left proc h
    go finishing none left h = stuck
    go finishing (some p) left h = moved _ _ (finish-Change s left finishing p h.once)
    go putting none left h = stuck
    go putting (some p) left h = moved _ _ (put-Change s left putting p (h.prio p refl))
    go reaping none left h = stuck
    go reaping (some p) left h =
        enter-Moved s left _ _ (free_pcb p s) (λ q. omega arith) (λ e. absurd (cc e))
          (free_pcb-Calm s p)
    go fetching proc left h = moved _ _ (
        fetched-Change (record { phase = fetching; proc = proc; time_left = left }) s rechecking
          rechecking left (λ e. absurd (cc e)) (λ e. absurd (cc e)))
    go rechecking none left h = elim (Bool-cases done) [
      | inl e ↦
          rw e (moved _ _ (phase-Change s left rechecking stopped left none (λ z. absurd (cc z))))
      | inr e ↦
          rw e (moved _ _ (phase-Change s left rechecking resting left none (λ z. absurd (cc z))))
    ]
    go rechecking (some p) left h = moved _ _ (
        phase-Change s left rechecking running (if left == 0 then time_slot else left) (some p)
          (λ e. absurd (cc e)))
    go running none left h = stuck
    go running (some p) left h =
        enter-Moved s left _ _ (run p s) (λ q. omega arith) (λ e. absurd (cc e))
          (run-Calm p s h.once)
    go resting proc left h =
        moved _ _ (phase-Change s left resting checking left proc (λ e. absurd (cc e)))
    go stopped proc left h = stuck
