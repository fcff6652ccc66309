-- ===== src/Simulator/Exclusion.antt =====
-- src/os.c: no process is in two places at once.
use native.Mathlib.Decide.{ℕ_discrete}
use ossim_os.Base.{ℕ, ◌≤◌, ◌<◌, ◌≡◌, sym, ap, ◌∙◌, subst, Option, some, arith}
use ossim_os.Base.Lists.{update, update_same, update_other}
use ossim_os.Base.Sums.{total, total_change, total_term}
use ossim_os.Sched.Places.{stands_in, handed}
use ossim_os.Machine.{Machine}
use ossim_os.Simulator.{reaping, Cpu, cpu_step, LdPhase, loading, early, added, finished}
use ossim_os.Simulator.Change.{Change, Moved, stuck, moved, Proper, cpu_step-Moved}
use ossim_os.Simulator.World.{Os, places, born_at}

-- A process that is loaded has a number below that of the next.
abbrev pub Numbered : LdPhase → ℕ → Type 0
Numbered loading avail = Unit {0}
Numbered (early p pcb) avail = p < avail
Numbered added avail = Unit {0}
Numbered finished avail = Unit {0}

-- The invariant of `n` CPUs, the scheduler and the loader.
pub record Exclusive (n : ℕ) (o : Os) : Type 0 where
  pub once : (p : ℕ) → places n o p ≤ 1
  pub listed : (p : ℕ) → stands_in o.machine.sched.running_list p ≤ 1
  pub fresh :
      (p : ℕ)
      → born_at o.loader.phase o.loader.avail_pid ≤ p
      → (places n o p ≡ 0) × (stands_in o.machine.sched.running_list p ≡ 0)
  pub prio : (p : ℕ) → 0 < places n o p → (o.machine.sched.table p).prio < 140
  pub reaped :
      (i p : ℕ)
      → i < n
      → (o.cpu i).phase ≡ reaping
      → (o.cpu i).proc ≡ some p
      → stands_in o.machine.sched.running_list p ≡ 0
  pub numbered : Numbered o.loader.phase o.loader.avail_pid

-- The place that a CPU is.
pub handed-le :
    (n : ℕ) (o : Os) (i p : ℕ)
    → i < n
    → handed (o.cpu i).proc p ≤ total (λ j. handed (o.cpu j).proc p) n
handed-le n o i p h = total_term (λ j. handed (o.cpu j).proc p) n i h

pub handed_self : (p : ℕ) → handed (some p) p ≡ 1
handed_self p = ground arith

module _ (n : ℕ) (o : Os) (x : Exclusive n o) (i : ℕ) (h : i < n) where
  cpu-Proper : Proper (o.cpu i) o.machine
  cpu-Proper = record {
    once = record { waits = λ p. omega (arith, x.once p); listed = x.listed };
    prio =
        λ p e. x.prio p (omega (arith, handed-le n o i p h, ap (λ r. handed r p) e, handed_self p));
  }

  module _ (k : Cpu) (s : Machine) (d : Change (o.cpu i) o.machine k s) where
    abbrev after : Os
    after = record { machine = s; cpu = update o.cpu i k; loader = o.loader }

    places-le : (p : ℕ) → places n after p ≤ places n o p
    places-le p =
        let z =
          total_change (λ j. handed (after.cpu j).proc p) (λ j. handed (o.cpu j).proc p) n i h
            (λ j ne. ap (λ (c : Cpu). handed c.proc p) (update_other o.cpu i k j ne)) in
        let here : handed (after.cpu i).proc p ≡ handed k.proc p =
          ap (λ (c : Cpu). handed c.proc p) (update_same o.cpu i k) in
        omega (arith, z, here, d.moves p)

    -- A step of a CPU keeps the invariant.
    Change-Exclusive : Exclusive n after
    Change-Exclusive = record {
      once = λ p. omega (arith, places-le p, x.once p);
      listed = λ p. omega (arith, d.listed p, x.listed p);
      fresh = λ p b.
          let (a, l) = x.fresh p b in (omega (arith, places-le p, a), omega (arith, d.listed p, l));
      prio = λ p pos. omega (arith, d.prio p, x.prio p (omega (arith, places-le p, pos)));
      reaped = λ j p lt ph pr. elim (ℕ_discrete j i) [
        | yes e ↦
            let here : after.cpu j ≡ k = ap after.cpu e ∙ update_same o.cpu i k in
            d.reaped p (sym (ap (λ (c : Cpu). c.phase) here) ∙ ph)
              (sym (ap (λ (c : Cpu). c.proc) here) ∙ pr)
        | no ne ↦
            let there : after.cpu j ≡ o.cpu j = update_other o.cpu i k j ne in
            let l =
              x.reaped j p lt (sym (ap (λ (c : Cpu). c.phase) there) ∙ ph)
                (sym (ap (λ (c : Cpu). c.proc) there) ∙ pr) in
            omega (arith, d.listed p, l)
      ];
      numbered = x.numbered;
    }

-- A step of a CPU that is defined changes the places as `Change` says.
cpu_step-Change :
    (n time_slot i : ℕ) (o : Os) (k : Cpu) (s : Machine)
    → Exclusive n o
    → i < n
    → cpu_step time_slot o.loader.done (o.cpu i) o.machine ≡ some (k, s)
    → Change (o.cpu i) o.machine k s
cpu_step-Change n time_slot i o k s x h e =
    go (cpu_step-Moved time_slot o.loader.done (o.cpu i) o.machine (cpu-Proper n o x i h)) e
  where
    go :
        {r : Option (Cpu × Machine)}
        → Moved (o.cpu i) o.machine r
        → r ≡ some (k, s)
        → Change (o.cpu i) o.machine k s
    go stuck e = absurd (cc e)
    go (moved k' t d) e =
        let same : (k', t) ≡ (k, s) = cc e in
        subst (λ (r : Cpu × Machine). Change (o.cpu i) o.machine r.0 r.1) same d

pub cpu_step-places :
    (n time_slot i : ℕ) (o : Os) (k : Cpu) (s : Machine)
    → Exclusive n o
    → i < n
    → cpu_step time_slot o.loader.done (o.cpu i) o.machine ≡ some (k, s)
    → (p : ℕ)
    → places n (record { machine = s; cpu = update o.cpu i k; loader = o.loader }) p ≤ places n o p
cpu_step-places n time_slot i o k s x h e =
    places-le n o x i h k s (cpu_step-Change n time_slot i o k s x h e)

pub cpu_step-Exclusive :
    (n time_slot i : ℕ) (o : Os) (k : Cpu) (s : Machine)
    → Exclusive n o
    → i < n
    → cpu_step time_slot o.loader.done (o.cpu i) o.machine ≡ some (k, s)
    → Exclusive n (record { machine = s; cpu = update o.cpu i k; loader = o.loader })
cpu_step-Exclusive n time_slot i o k s x h e =
    Change-Exclusive n o x i h k s (cpu_step-Change n time_slot i o k s x h e)
