-- ===== src/Simulator/Civil.antt =====
-- src/os.c: no process of a civil simulation runs into undefined behaviour.
use ossim_os.Base.{ℕ, ◌≤◌, ◌<◌, ◌≡◌, ◌≢◌, refl, sym, ap, subst, Bool, none, some, arith}
use ossim_os.Base.Lists.{update}
use ossim_os.Base.Sums.{total_bound}
use ossim_os.Types.{Vma}
use ossim_os.Paging.{Vm}
use ossim_os.Paging.Owner.{Place}
use ossim_os.Paging.View.{Sizes, SizesOk, Wf, where_is, peek}
use ossim_os.Sched.{Sched, init_scheduler, init_levels}
use ossim_os.Libmem.{init_mm}
use ossim_os.Libmem.Init.{fresh, fresh-Wf, fresh-Layout, first_area, unmapped}
use ossim_os.Libmem.Layout.{Layout}
use ossim_os.Libmem.Release.{stands_at}
use ossim_os.Libmem.Exit.{owns}
use ossim_os.Machine.{Machine, vm_of}
use ossim_os.Machine.Owns.{Wf-less}
use ossim_os.Machine.Isolation.{Areas, Safe}
use ossim_os.Simulator.{running, stopped, Cpu, cpu_step, Loader, ld_step, boot}
use ossim_os.Simulator.World.{Os, Config, on_cpu, on_loader, begin, Reach, start, step, places}
use ossim_os.Simulator.Reached.{Reach-Exclusive}
use ossim_os.Simulator.Memory.{Mild, Went}
use ossim_os.Simulator.Sound.{sizes_of, Sound, cpu_go, cpu-Sound, ld_step-Sound}

-- The CPU, if it is about to run an instruction, runs a tame one.
abbrev pub MildCpu : Cpu → Machine → Type 0
MildCpu k s = k.phase ≡ running → (p : ℕ) → k.proc ≡ some p → Mild s p

-- The states that the simulator can reach with tame instructions; a process that is not yet made has no
-- memory.
pub data Civil (c : Config) : Os → Type 0 where
  boots : (sched : Sched) → ((p : ℕ) → (sched.table p).mm ≡ init_mm) → Civil c (begin c sched)
  cpu_turn :
      {o : Os} (i : ℕ) (k : Cpu) (s : Machine)
      → Civil c o
      → i < c.num_cpus
      → MildCpu (o.cpu i) o.machine
      → cpu_step c.time_slot o.loader.done (o.cpu i) o.machine ≡ some (k, s)
      → Civil c (record { machine = s; cpu = update o.cpu i k; loader = o.loader })
  loader_turn :
      {o : Os} (now : ℕ) (l : Loader) (s : Machine)
      → Civil c o
      → ld_step c.files c.blank now o.loader o.machine ≡ some (l, s)
      → Civil c (record { machine = s; cpu = o.cpu; loader = l })

pub Civil-Reach : (c : Config) {o : Os} → Civil c o → Reach c o
Civil-Reach c (boots sched h) = start sched
Civil-Reach c (cpu_turn {o} i k s r h m e) = step (Civil-Reach c r) (on_cpu o i k s h e)
Civil-Reach c (loader_turn {o} now l s r e) = step (Civil-Reach c r) (on_loader o now l s e)

owns-fresh : (c : Sizes) (x : Place) → owns (fresh c) x ≤ 0
owns-fresh c x =
    total_bound (λ p. stands_at (where_is (fresh c) p) x) 16384 0
      (λ p h. omega (arith, ap (λ o. stands_at o x) (unmapped c p)))

module _ (c : Config) (sched : Sched) (h : (p : ℕ) → (sched.table p).mm ≡ init_mm) where
  begin_vm : (p : ℕ) → vm_of (begin c sched).machine p ≡ fresh (sizes_of c)
  unfolding boot init_scheduler init_levels
  begin_vm p = ap (λ m. record (fresh (sizes_of c)) { mm = m }) (h p)

  begin-Sound : Sound c (begin c sched) (λ _. some first_area)
  begin-Sound = record {
    safe = record {
      pairs = λ p q ne.
          subst (λ v. Wf (sizes_of c) (owns v) (vm_of (begin c sched).machine p)) (sym (begin_vm q))
            (subst (Wf (sizes_of c) (owns (fresh (sizes_of c)))) (sym (begin_vm p))
              (Wf-less (λ x. owns-fresh (sizes_of c) x) (fresh-Wf (sizes_of c))));
      laid = λ p vma e.
          let same : first_area ≡ vma = cc e in
          subst (λ v. Layout v vma) (sym (begin_vm p))
            (subst (Layout (fresh (sizes_of c))) same (fresh-Layout (sizes_of c)));
    };
    alive = λ p _. (first_area, refl);
    unborn = λ p _. (refl, ap (λ (v : Vm). v.mm) (begin_vm p));
    busy = λ i _. tt;
  }

stops :
    (time_slot : ℕ) (done : Bool) (k : Cpu) (s : Machine)
    → k.phase ≡ stopped
    → cpu_step time_slot done k s ≡ none
unfolding cpu_step
stops time_slot done k s e = rw (e, cpu_step) refl

pub Civil-Sound :
    (c : Config) {o : Os} → SizesOk (sizes_of c) → Civil c o → (areas : Areas) × Sound c o areas
Civil-Sound c ok (boots sched h) = ((λ _. some first_area), begin-Sound c sched h)
Civil-Sound c ok (loader_turn {o} now l s r e) =
    let (areas, x) = Civil-Sound c ok r in
    (areas, ld_step-Sound c now o l s areas (Reach-Exclusive c (Civil-Reach c r)) x e)
Civil-Sound c ok (cpu_turn {o} i k s r h m e) =
    let (areas, x) = Civil-Sound c ok r in
    let reach = Civil-Reach c r in
    let up : (o.cpu i).phase ≢ stopped =
      λ z. absurd (cc (stops c.time_slot o.loader.done (o.cpu i) o.machine z, e)) in
    let (k', t, areas', f, w) = cpu_go c ok o reach areas x i h m up in
    let same : (k', t) ≡ (k, s) = cc (f, e) in
    let w' =
      subst (λ (z : Cpu × Machine). Went (sizes_of c) areas (o.cpu i) o.machine z.0 z.1 areas') same
        w in
    (areas', cpu-Sound c ok o reach areas x i h k s areas' w' e)

-- In every state that the simulator can reach with tame instructions, with devices of the sizes that
-- the page table entries are made for, each step of a CPU that has not stopped and is about to run a tame
-- instruction if any is defined: it does not fault. It leads to such a state again, and changes no byte
-- and no page table of a process that is not the one on this CPU.
pub Civil-cpu_step :
    (c : Config) {o : Os} (i : ℕ)
    → SizesOk (sizes_of c)
    → Civil c o
    → i < c.num_cpus
    → MildCpu (o.cpu i) o.machine
    → (o.cpu i).phase ≢ stopped
    → (k : Cpu) × (s : Machine) × (cpu_step c.time_slot o.loader.done (o.cpu i) o.machine
        ≡ some (k, s))
      × Civil c (record { machine = s; cpu = update o.cpu i k; loader = o.loader })
      × ((q : ℕ)
          → (o.cpu i).proc ≢ some q
          → ((s.sched.table q).mm ≡ (o.machine.sched.table q).mm)
            × ((page off : ℕ)
                → off < 256
                → peek (vm_of s q) page off ≡ peek (vm_of o.machine q) page off))
Civil-cpu_step c {o} i ok r h m up =
    let (areas, x) = Civil-Sound c ok r in
    let (k, s, _, e, w) = cpu_go c ok o (Civil-Reach c r) areas x i h m up in
    (k, s, e, cpu_turn i k s r h m e, λ q ne. let (_, a, b) = w.others q ne in (a, b))

-- In every state that the simulator can reach with tame instructions, with devices of the sizes that
-- the page table entries are made for, each process has the invariant of its page table against the
-- frames of any other, and every process in a ready queue or on a CPU has its one area laid out.
pub Civil-Safe :
    (c : Config) {o : Os}
    → SizesOk (sizes_of c)
    → Civil c o
    → (areas : Areas) × Safe (sizes_of c) areas o.machine
      × ((p : ℕ) → 0 < places c.num_cpus o p → (vma : Vma) × Layout (vm_of o.machine p) vma)
Civil-Safe c ok r =
    let (areas, x) = Civil-Sound c ok r in
    (areas, x.safe, λ p h. let (vma, e) = x.alive p h in (vma, x.safe.laid p vma e))
