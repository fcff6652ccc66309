-- ===== src/Simulator/Main.antt =====
-- src/os.c, `main`: what it comes to for a file of configuration.
use native.Mathlib.Decide.{ℕ_discrete}
use ossim_os.Base.{
  ℕ, zero, suc, ◌+◌, ◌^◌, ◌≤◌, ◌<◌, ◌≡◌, refl, ap, ◌∙◌, subst, inl, inr, true, false, ◌&&◌, Option,
  none, some, List, arith,
}
use ossim_os.Base.Tests.{Bool-cases, Option-cases}
use ossim_os.Base.Lists.{length, All}
use ossim_os.Types.{Inst}
use ossim_os.Sched.{Sched}
use ossim_os.Libmem.{init_mm}
use ossim_os.Memphy.{init_memphy}
use ossim_os.Sched.Places.{queued, stands_in, init_scheduler_empty}
use ossim_os.Simulator.{LdArgs, checking, loading, boot}
use ossim_os.Simulator.World.{Os, Config, begin}
use ossim_os.Simulator.Settings.{
  natural, swap_sizes, read_config, Outcome, exits, faults, starts, init_defined, config_path,
  os_main,
}
use ossim_os.Simulator.Settings.Bounds.{Holds, Ready, read_config-Ready}
use ossim_os.Simulator.Settings.Printed.{Line, Readable}
use ossim_os.Simulator.Settings.Roundtrip.{print_config, args_of_lines, read_config-print_config}
use ossim_os.Simulator.Civil.{Civil, boots}

-- The outcome that the file allows.
abbrev pub Booted : Inst → (List ℕ → Option (List ℕ)) → Sched → List ℕ → Outcome → Type 0
Booted blank files sched arg exits = read_config blank files (files (config_path arg)) ≡ none
Booted blank files sched arg faults =
    (c : Config) × (t : ℕ) × (read_config blank files (files (config_path arg)) ≡ some c)
    × (t < 4)
    × (2 ^ 31 ≤ c.memswpsz t)
Booted blank files sched arg (starts c o) =
    (read_config blank files (files (config_path arg)) ≡ some c)
    × Ready c
    × ((t : ℕ) → t < 4 → c.memswpsz t < 2 ^ 31)
    × (o ≡ begin c sched)
    × Civil c o

init_defined-true :
    (left sit : ℕ) (sizes : ℕ → ℕ)
    → init_defined left sit sizes ≡ true
    → (t : ℕ) → sit ≤ t
    → t < sit + left
    → sizes t < 2 ^ 31
unfolding init_defined
init_defined-true zero sit sizes e t lo hi = absurd (omega (arith, lo, hi))
init_defined-true (suc left) sit sizes e t lo hi = elim (ℕ_discrete sit t) [
  | yes z ↦ ground (arith, e, ap sizes z)
  | no ne ↦
      init_defined-true left (sit + 1) sizes (ground (arith, e)) t (omega (arith, lo, ne))
        (omega (arith, hi))
]

init_defined-false :
    (left sit : ℕ) (sizes : ℕ → ℕ)
    → init_defined left sit sizes ≡ false
    → (t : ℕ) × (t < sit + left) × (2 ^ 31 ≤ sizes t)
unfolding init_defined
init_defined-false zero sit sizes e = absurd (cc e)
init_defined-false (suc left) sit sizes e = elim (Bool-cases (natural (sizes sit))) [
  | inr f ↦ (sit, omega arith, ground (arith, f))
  | inl f ↦
      let (t, lt, h) = init_defined-false left (sit + 1) sizes (ground (arith, e, f)) in
      (t, omega (arith, lt), h)
]

-- `main` exits if and only if its file is missing or is no configuration. Otherwise it runs into undefined
-- behaviour, and then a swap device has a negative size; or it starts the threads in the first state of
-- the configuration that it has read, and no device has a negative size. In that configuration the time
-- slot and the number of CPUs are positive, RAM and the first swap device have a page at least, there is
-- a process, and no path is longer than 99 characters; the state is one of those that are reached with
-- tame instructions, provided that the processes that are not yet made have no memory.
pub os_main-Booted :
    (blank : Inst) (files : List ℕ → Option (List ℕ)) (sched : Sched) (arg : List ℕ)
    → ((p : ℕ) → (sched.table p).mm ≡ init_mm)
    → Booted blank files sched arg (os_main blank files sched arg)
unfolding os_main
os_main-Booted blank files sched arg h =
    let file = files (config_path arg) in
    elim (Option-cases (read_config blank files file)) [
      | inl e ↦ rw (e, os_main) e
      | inr (c, e) ↦
          let ready : Ready c = subst (Holds Ready) e (read_config-Ready blank files file) in
          let ram : natural c.memramsz ≡ true = ground (arith, ready.ram) in
          elim (Bool-cases (init_defined 4 0 c.memswpsz)) [
            | inr f ↦
                let (t, lt, z) = init_defined-false 4 0 c.memswpsz f in
                rw (e, ram, f, os_main) (c, t, e, lt, z)
            | inl f ↦
                rw (e, ram, f, os_main)
                  (
                    e,
                    ready,
                    λ t lt. init_defined-true 4 0 c.memswpsz f t (omega arith) lt,
                    refl,
                    boots sched h,
                  )
          ]
    ]

-- The state in which the threads start: RAM and the swap devices are new and of the sizes given, no
-- process is in a queue, on the list of those that run or on a CPU, and the loader has all of them to
-- load.
pub record Started (ram : ℕ) (swp : ℕ → ℕ) (left : List LdArgs) (o : Os) : Type 0 where
  pub mram : o.machine.mram ≡ init_memphy ram true
  pub mswp : (t : ℕ) → o.machine.mswp t ≡ init_memphy (swp t) true
  pub active : o.machine.active_mswp_id ≡ 0
  pub queues : (p : ℕ) → queued o.machine.sched p ≡ 0
  pub running_list : (p : ℕ) → stands_in o.machine.sched.running_list p ≡ 0
  pub cpus : (i : ℕ) → o.cpu i ≡ record { phase = checking; proc = none; time_left = 0 }
  pub loader : o.loader ≡ record { phase = loading; left = left; avail_pid = 1; done = false }

begin-Started :
    (c : Config) (sched : Sched) → Started c.memramsz c.memswpsz c.ld_processes (begin c sched)
unfolding boot
begin-Started c sched = record {
  mram = refl;
  mswp = λ t. refl;
  active = refl;
  queues = λ p. (init_scheduler_empty sched p).0;
  running_list = λ p. (init_scheduler_empty sched p).1;
  cpus = λ i. refl;
  loader = refl;
}

-- Where the file of `main` holds a printed configuration, with a positive time slot, number of CPUs and
-- number of processes, RAM and a first swap device of a page at least, all of them of type `int` and
-- not negative, and processes whose names are of 1 to 63 characters without white space and whose times
-- and priorities are of type `unsigned long`, `main` starts the threads with those settings: the devices
-- are new and of those sizes, every queue is empty, and those processes are what the loader has to load.
pub os_main-print_config :
    (blank : Inst) (files : List ℕ → Option (List ℕ)) (sched : Sched) (arg : List ℕ)
    (time_slot num_cpus ram swp0 swp1 swp2 swp3 : ℕ) (lines : List Line)
    → files (config_path arg) ≡ some (print_config time_slot num_cpus ram swp0 swp1 swp2 swp3 lines)
    → (0 < time_slot) × (time_slot < 2 ^ 31)
    → (0 < num_cpus) × (num_cpus < 2 ^ 31)
    → (0 < length lines) × (length lines < 2 ^ 31)
    → (256 ≤ ram) × (ram < 2 ^ 31)
    → (256 ≤ swp0) × (swp0 < 2 ^ 31)
    → (swp1 < 2 ^ 31) × (swp2 < 2 ^ 31) × (swp3 < 2 ^ 31)
    → All Readable lines
    → (o : Os) × (os_main blank files sched arg
        ≡ starts
            (record {
              num_cpus = num_cpus;
              time_slot = time_slot;
              memramsz = ram;
              memswpsz = swap_sizes swp0 swp1 swp2 swp3;
              ld_processes = args_of_lines lines;
              files = files;
              blank = blank;
            })
            o)
      × Started ram (swap_sizes swp0 swp1 swp2 swp3) (args_of_lines lines) o
unfolding os_main init_defined
os_main-print_config blank files sched arg ts nc ram swp0 swp1 swp2 swp3 lines file slot cpus n r0
      s0 (s1, s2, s3) readable =
    let read =
      ap (read_config blank files) file
      ∙ read_config-print_config blank files ts nc ram swp0 swp1 swp2 swp3 lines slot cpus n r0 s0
          (s1, s2, s3) readable in
    let ok : (natural ram && init_defined 4 0 (swap_sizes swp0 swp1 swp2 swp3)) ≡ true =
      ground (arith, r0, s0, s1, s2, s3) in
    let c : Config = record {
      num_cpus = nc;
      time_slot = ts;
      memramsz = ram;
      memswpsz = swap_sizes swp0 swp1 swp2 swp3;
      ld_processes = args_of_lines lines;
      files = files;
      blank = blank;
    } in
    (begin c sched, rw (read, os_main) (rw ok refl), begin-Started c sched)
