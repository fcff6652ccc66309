-- ===== src/Simulator/World.antt =====
-- src/os.c: all the threads of the simulator, one step of one of them at a time.
use ossim_os.Base.{ℕ, ◌+◌, ◌<◌, ◌≡◌, false, Option, some, List}
use ossim_os.Base.Lists.{update}
use ossim_os.Base.Sums.{total}
use ossim_os.Types.{Inst}
use ossim_os.Sched.{Sched}
use ossim_os.Sched.Places.{queued, handed}
use ossim_os.Machine.{Machine}
use ossim_os.Simulator.{
  Cpu, new_cpu, cpu_step, LdArgs, LdPhase, loading, early, added, finished, Loader, ld_step, boot,
}

pub record Os : Type 0 where
  pub machine : Machine
  pub cpu : ℕ → Cpu
  pub loader : Loader

-- The configuration, and what stands in the files and in fresh memory.
pub record Config : Type 0 where
  pub num_cpus : ℕ
  pub time_slot : ℕ
  pub memramsz : ℕ
  pub memswpsz : ℕ → ℕ
  pub ld_processes : List LdArgs
  pub files : List ℕ → Option (List ℕ)
  pub blank : Inst

-- A CPU takes a step, or the loader does, at any time.
pub data Steps (c : Config) : Os → Os → Type 0 where
  on_cpu :
      (o : Os) (i : ℕ) (k : Cpu) (s : Machine)
      → i < c.num_cpus
      → cpu_step c.time_slot o.loader.done (o.cpu i) o.machine ≡ some (k, s)
      → Steps c o (record { machine = s; cpu = update o.cpu i k; loader = o.loader })
  on_loader :
      (o : Os) (now : ℕ) (l : Loader) (s : Machine)
      → ld_step c.files c.blank now o.loader o.machine ≡ some (l, s)
      → Steps c o (record { machine = s; cpu = o.cpu; loader = l })

-- What `main` starts the threads with.
abbrev pub begin : Config → Sched → Os
begin c sched = record {
  machine = boot c.memramsz c.memswpsz sched;
  cpu = λ _. new_cpu;
  loader = record { phase = loading; left = c.ld_processes; avail_pid = 1; done = false };
}

-- The states that the simulator can reach.
pub data Reach (c : Config) : Os → Type 0 where
  start : (sched : Sched) → Reach c (begin c sched)
  step : {o u : Os} → Reach c o → Steps c o u → Reach c u

-- The places of a process: in a ready queue, or on a CPU.
abbrev pub places : ℕ → Os → ℕ → ℕ
places n o p = queued o.machine.sched p + total (λ i. handed (o.cpu i).proc p) n

-- Processes with this number or more have not been added yet.
abbrev pub born_at : LdPhase → ℕ → ℕ
born_at loading avail = avail
born_at (early p pcb) avail = p
born_at added avail = avail
born_at finished avail = avail
