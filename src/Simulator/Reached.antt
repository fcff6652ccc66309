-- ===== src/Simulator/Reached.antt =====
-- src/os.c: what holds in every state that the simulator can reach.
use native.Mathlib.Decide.{ℕ_discrete}
use ossim_os.Base.{
  ℕ, ◌%◌, ◌^◌, ◌≤◌, ◌<◌, ◌≡◌, refl, sym, ap, ◌∙◌, subst, inl, inr, Bool, Option, none, some, List,
  [], ◌∷◌, arith,
}
use ossim_os.Base.Tests.{ltb, Bool-cases}
use ossim_os.Base.Lists.{update_other}
use ossim_os.Base.Sums.{total, total_bound}
use ossim_os.Types.{Pcb, Inst}
use ossim_os.Sched.{Sched, add_proc}
use ossim_os.Sched.Places.{handed, add_proc-le, add_proc_rest, init_scheduler_empty}
use ossim_os.Libmem.{init_mm}
use ossim_os.Loader.{load}
use ossim_os.Machine.{Machine, with_pcb}
use ossim_os.Simulator.{
  Cpu, LdArgs, LdPhase, loading, early, added, finished, Loader, ld_step, admit, boot, loaded,
}
use ossim_os.Simulator.World.{Os, Config, on_cpu, on_loader, begin, Reach, start, step, born_at}
use ossim_os.Simulator.Exclusion.{Exclusive, Numbered, cpu_step-Exclusive, handed-le, handed_self}

-- The loader moves on without touching the scheduler.
loader-Exclusive :
    (n : ℕ) (o : Os) (l : Loader)
    → Exclusive n o
    → born_at o.loader.phase o.loader.avail_pid ≤ born_at l.phase l.avail_pid
    → Numbered l.phase l.avail_pid
    → Exclusive n (record { machine = o.machine; cpu = o.cpu; loader = l })
loader-Exclusive n o l x h e = record {
  once = x.once;
  listed = x.listed;
  fresh = λ p b. x.fresh p (omega (arith, h, b));
  prio = x.prio;
  reaped = x.reaped;
  numbered = e;
}

module _ (n : ℕ) (o : Os) (x : Exclusive n o) (p : ℕ) (pcb : Pcb)
    (new : born_at o.loader.phase o.loader.avail_pid ≡ p) where
  abbrev before : Sched
  before = (with_pcb o.machine p (record pcb { mm = init_mm })).sched

  -- A process that is new is admitted.
  admit-Exclusive :
      (l : Loader)
      → p < born_at l.phase l.avail_pid
      → Numbered l.phase l.avail_pid
      → Exclusive n (record { machine = admit p pcb o.machine; cpu = o.cpu; loader = l })
  unfolding admit
  admit-Exclusive l lt e =
      let (list, prio, others) = add_proc_rest before p in
      record {
        once = λ q. elim (ℕ_discrete p q) [
          | yes z ↦ ground (arith, add_proc-le before p q, (x.fresh q (omega (arith, new, z))).0)
          | no ne ↦ ground (arith, add_proc-le before p q, x.once q, ne)
        ];
        listed = λ q. elim (ℕ_discrete p q) [
          | yes z ↦ ground (arith, list q, (x.fresh q (omega (arith, new, z))).1)
          | no ne ↦ ground (arith, list q, x.listed q, ne)
        ];
        fresh = λ q b.
            let (a, d) = x.fresh q (omega (arith, new, lt, b)) in
            (ground (arith, add_proc-le before p q, a, lt, b), ground (arith, list q, d, lt, b));
        prio = λ q pos. elim (ℕ_discrete q p) [
          | yes z ↦ subst (λ k. ((add_proc before p).table k).prio < 140) (sym z) prio
          | no ne ↦
              let same : ((add_proc before p).table q).prio ≡ (o.machine.sched.table q).prio =
                ap (λ (a : Pcb). a.prio)
                  (others q ne
                    ∙ update_other o.machine.sched.table p (record pcb { mm = init_mm }) q ne) in
              omega (
                arith,
                same,
                x.prio q (ground (arith, add_proc-le before p q, pos, λ (z : p ≡ q). ne (sym z))),
              )
        ];
        reaped = λ i q h ph pr. elim (ℕ_discrete q p) [
          | yes z ↦ absurd (
              omega (
                arith,
                (x.fresh q (omega (arith, new, z))).0,
                handed-le n o i q h,
                ap (λ r. handed r q) pr,
                handed_self q,
              ))
          | no ne ↦ ground (arith, list q, x.reaped i q h ph pr, λ (z : p ≡ q). ne (sym z))
        ];
        numbered = e;
      }

-- The results of a step of the loader: it exits, moves on, or admits a new process.
pub data Loads (o : Os) : Option (Loader × Machine) → Type 0 where
  exits : Loads o none
  passes :
      (l : Loader)
      → born_at o.loader.phase o.loader.avail_pid ≤ born_at l.phase l.avail_pid
      → Numbered l.phase l.avail_pid
      → Loads o (some (l, o.machine))
  admits :
      (l : Loader) (p : ℕ) (pcb : Pcb)
      → born_at o.loader.phase o.loader.avail_pid ≡ p
      → p < born_at l.phase l.avail_pid
      → Numbered l.phase l.avail_pid
      → Loads o (some (l, admit p pcb o.machine))

module _ (s : Machine) (cpu : ℕ → Cpu) (files : List ℕ → Option (List ℕ)) (blank : Inst)
    (now : ℕ) where
  abbrev os : LdPhase → List LdArgs → ℕ → Bool → Os
  os phase left avail_pid done = record {
    machine = s;
    cpu = cpu;
    loader = record { phase = phase; left = left; avail_pid = avail_pid; done = done };
  }

  load-Loads :
      (left : List LdArgs) (avail_pid : ℕ) (done : Bool) (prio : ℕ) (r : Option Pcb)
      → Loads
          (os loading left avail_pid done)
          (elim (loaded (os loading left avail_pid done).loader prio r) [
            | none ↦ none
            | some l ↦ some (l, s)
          ])
  load-Loads left avail_pid done prio none = exits
  load-Loads left avail_pid done prio (some pcb) = passes _ (omega arith) (omega arith)

  ld_step-Loads :
      (phase : LdPhase) (left : List LdArgs) (avail_pid : ℕ) (done : Bool)
      → Numbered phase avail_pid
      → Loads
          (os phase left avail_pid done)
          (ld_step files blank now (os phase left avail_pid done).loader s)
  unfolding ld_step
  ld_step-Loads loading [] avail_pid done e = passes _ (omega arith) tt
  ld_step-Loads loading (args ∷ rest) avail_pid done e =
      load-Loads (args ∷ rest) avail_pid done args.prio
        (load (avail_pid % 2 ^ 32) blank args.path (files args.path))
  ld_step-Loads (early p pcb) [] avail_pid done e = exits
  ld_step-Loads (early p pcb) (args ∷ rest) avail_pid done e =
      elim (Bool-cases (ltb now args.start_time)) [
        | inl g ↦ rw g (passes _ (omega arith) e)
        | inr g ↦ rw g (admits _ p pcb refl e tt)
      ]
  ld_step-Loads added left avail_pid done e = passes _ (omega arith) tt
  ld_step-Loads finished left avail_pid done e = exits

-- What holds of a state after a step of the loader that is defined.
pub Loads-after :
    (o : Os) (P : Loader → Machine → Type 0)
    → ((l : Loader)
        → born_at o.loader.phase o.loader.avail_pid ≤ born_at l.phase l.avail_pid
        → Numbered l.phase l.avail_pid
        → P l o.machine)
    → ((l : Loader) (p : ℕ) (pcb : Pcb)
        → born_at o.loader.phase o.loader.avail_pid ≡ p
        → p < born_at l.phase l.avail_pid
        → Numbered l.phase l.avail_pid
        → P l (admit p pcb o.machine))
    → (files : List ℕ → Option (List ℕ)) (blank : Inst) (now : ℕ)
    → Numbered o.loader.phase o.loader.avail_pid
    → (l : Loader) (s : Machine) → ld_step files blank now o.loader o.machine ≡ some (l, s)
    → P l s
Loads-after o P pass new files blank now n l s e =
    go
      (ld_step-Loads o.machine o.cpu files blank now o.loader.phase o.loader.left o.loader.avail_pid
        o.loader.done n)
      e
  where
    go : {r : Option (Loader × Machine)} → Loads o r → r ≡ some (l, s) → P l s
    go exits e = absurd (cc e)
    go (passes l' b m) e =
        let same : (l', o.machine) ≡ (l, s) = cc e in
        subst (λ (r : Loader × Machine). P r.0 r.1) same (pass l' b m)
    go (admits l' p pcb b lt m) e =
        let same : (l', admit p pcb o.machine) ≡ (l, s) = cc e in
        subst (λ (r : Loader × Machine). P r.0 r.1) same (new l' p pcb b lt m)

ld_step-Exclusive :
    (n now : ℕ) (files : List ℕ → Option (List ℕ)) (blank : Inst) (o : Os) (l : Loader)
    (s : Machine)
    → Exclusive n o
    → ld_step files blank now o.loader o.machine ≡ some (l, s)
    → Exclusive n (record { machine = s; cpu = o.cpu; loader = l })
ld_step-Exclusive n now files blank o l s x e =
    Loads-after o (λ l s. Exclusive n (record { machine = s; cpu = o.cpu; loader = l }))
      (λ l b m. loader-Exclusive n o l x b m)
      (λ l p pcb b lt m. admit-Exclusive n o x p pcb b l lt m) files blank now x.numbered l s e

begin-Exclusive : (c : Config) (sched : Sched) → Exclusive c.num_cpus (begin c sched)
unfolding boot
begin-Exclusive c sched =
    let idle : total (λ i. 0) c.num_cpus ≡ 0 =
      omega (arith, total_bound (λ i. 0) c.num_cpus 0 (λ i h. omega arith)) in
    record {
      once = λ p. omega (arith, (init_scheduler_empty sched p).0, idle);
      listed = λ p. omega (arith, (init_scheduler_empty sched p).1);
      fresh = λ p h. let (a, b) = init_scheduler_empty sched p in (omega (arith, a, idle), b);
      prio = λ p h. absurd (omega (arith, (init_scheduler_empty sched p).0, idle, h));
      reaped = λ i p h e f. absurd (cc e);
      numbered = tt;
    }

pub Reach-Exclusive : (c : Config) {o : Os} → Reach c o → Exclusive c.num_cpus o
Reach-Exclusive c (start sched) = begin-Exclusive c sched
Reach-Exclusive c (step r (on_cpu o i k s h e)) =
    cpu_step-Exclusive c.num_cpus c.time_slot i o k s (Reach-Exclusive c r) h e
Reach-Exclusive c (step r (on_loader o now l s e)) =
    ld_step-Exclusive c.num_cpus now c.files c.blank o l s (Reach-Exclusive c r) e
