-- ===== src/Simulator/Safety.antt =====
-- src/os.c: who refers to a process when it runs, and when it is released.
use native.Mathlib.Decide.{ℕ_discrete}
use ossim_os.Base.{ℕ, ◌<◌, ◌≡◌, ◌≢◌, ap, ◌∙◌, true, some, List, arith}
use ossim_os.Base.Lists.{contains}
use ossim_os.Base.Sums.{total_term, total_two}
use ossim_os.Sched.{kill_proc_by_name}
use ossim_os.Sched.Places.{stands_in, queued, handed}
use ossim_os.Sched.Reaped.{Once, kill_proc_by_name-Reaped}
use ossim_os.Simulator.{reaping}
use ossim_os.Simulator.World.{Os, Config, Reach}
use ossim_os.Simulator.Exclusion.{Exclusive, handed_self}
use ossim_os.Simulator.Reached.{Reach-Exclusive}

-- A process that CPU `i` has is on no other CPU, and in no ready queue.
alone_on :
    (n : ℕ) (o : Os) (i p : ℕ)
    → Exclusive n o
    → i < n
    → (o.cpu i).proc ≡ some p
    → (queued o.machine.sched p ≡ 0) × ((j : ℕ) → j < n → (o.cpu j).proc ≡ some p → i ≡ j)
alone_on n o i p x h e =
    let f : ℕ → ℕ = λ k. handed (o.cpu k).proc p in
    let mine : f i ≡ 1 = ap (λ r. handed r p) e ∙ handed_self p in
    (
      omega (arith, x.once p, mine, total_term f n i h),
      λ j k g. elim (ℕ_discrete i j) [
        | yes z ↦ z
        | no ne ↦
            let too : f j ≡ 1 = ap (λ r. handed r p) g ∙ handed_self p in
            absurd (omega (arith, x.once p, mine, too, total_two f n i j h k ne))
      ],
    )

-- In every state that the simulator can reach, a process that a CPU has taken is on no other CPU and in
-- no ready queue. So no two CPUs ever run the same process.
pub Reach-alone :
    (c : Config) {o : Os} (i p : ℕ)
    → Reach c o
    → i < c.num_cpus
    → (o.cpu i).proc ≡ some p
    → (queued o.machine.sched p ≡ 0) × ((j : ℕ) → j < c.num_cpus → (o.cpu j).proc ≡ some p → i ≡ j)
Reach-alone c {o} i p r h e = alone_on c.num_cpus o i p (Reach-Exclusive c r) h e

-- In every state that the simulator can reach in which a CPU is about to call `free_pcb`, no ready
-- queue, no other CPU and no entry of the list of those that run refers to the process.
pub Reach-reaping :
    (c : Config) {o : Os} (i p : ℕ)
    → Reach c o
    → i < c.num_cpus
    → (o.cpu i).phase ≡ reaping
    → (o.cpu i).proc ≡ some p
    → (queued o.machine.sched p ≡ 0)
      × (stands_in o.machine.sched.running_list p ≡ 0)
      × ((j : ℕ) → j < c.num_cpus → (o.cpu j).proc ≡ some p → i ≡ j)
Reach-reaping c {o} i p r h e f =
    let x = Reach-Exclusive c r in
    let (a, b) = alone_on c.num_cpus o i p x h f in (a, x.reaped i p h e f, b)

-- In every state that the simulator can reach, a call of `kill_proc_by_name` hands over for release only
-- processes that no CPU has, and that stand in no ready queue and not on the list of those that run
-- afterwards.
pub Reach-Reaped :
    (c : Config) {o : Os} (name : List ℕ) (caller p : ℕ)
    → Reach c o
    → contains (kill_proc_by_name o.machine.sched name caller).victims p ≡ true
    → (queued (kill_proc_by_name o.machine.sched name caller).sched p ≡ 0)
      × (stands_in (kill_proc_by_name o.machine.sched name caller).sched.running_list p ≡ 0)
      × ((j : ℕ) → j < c.num_cpus → (o.cpu j).proc ≢ some p)
Reach-Reaped c {o} name caller p r v =
    let x = Reach-Exclusive c r in
    let once : Once o.machine.sched = record {
      waits = λ q. omega (arith, x.once q);
      listed = x.listed;
    } in
    let (a, b, d) = (kill_proc_by_name-Reaped o.machine.sched name caller once).out p v in
    (a, b, λ j h e. absurd (omega (arith, d, (alone_on c.num_cpus o j p x h e).0)))
