-- ===== src/Simulator/Sound.antt =====
-- src/os.c: the memory of all processes in every state that the simulator can reach.
use native.Mathlib.Decide.{ℕ_discrete}
use ossim_os.Base.{ℕ, ◌≤◌, ◌<◌, ◌≡◌, ◌≢◌, refl, sym, ap, ◌∙◌, subst, inl, inr, some, arith}
use ossim_os.Base.Tests.{leb, Bool-cases}
use ossim_os.Base.Lists.{update, update_same, update_other}
use ossim_os.Base.Sums.{total_change}
use ossim_os.Types.{Pcb}
use ossim_os.Paging.View.{Sizes, SizesOk}
use ossim_os.Sched.{Sched, add_proc, add_mlq_proc, put_mlq_proc, clamp_prio}
use ossim_os.Sched.Places.{handed, add_proc-le, add_proc_rest}
use ossim_os.Libmem.{init_mm}
use ossim_os.Libmem.Init.{first_area}
use ossim_os.Machine.{Machine, with_pcb}
use ossim_os.Machine.Isolation.{Areas, Safe, sched-Safe}
use ossim_os.Simulator.{reaping, running, stopped, Cpu, cpu_step, Loader, ld_step, admit}
use ossim_os.Simulator.World.{Os, Config, Reach, places, born_at}
use ossim_os.Simulator.Exclusion.{Exclusive, handed-le, handed_self, cpu_step-places}
use ossim_os.Simulator.Reached.{Reach-Exclusive, Loads-after}
use ossim_os.Simulator.Safety.{Reach-reaping}
use ossim_os.Simulator.Memory.{Alive, Mild, Busy, Went, Goes, cpu_step-Goes}

-- The devices of a configuration.
abbrev pub sizes_of : Config → Sizes
sizes_of c = record { ram_size = c.memramsz; swp_size = c.memswpsz }

-- The invariant: the memory is safe, every process in a queue or on a CPU is alive, and those that are
-- still to come have no memory.
pub record Sound (c : Config) (o : Os) (areas : Areas) : Type 0 where
  pub safe : Safe (sizes_of c) areas o.machine
  pub alive : (p : ℕ) → 0 < places c.num_cpus o p → Alive (areas p)
  pub unborn :
      (p : ℕ)
      → born_at o.loader.phase o.loader.avail_pid ≤ p
      → (areas p ≡ some first_area) × ((o.machine.sched.table p).mm ≡ init_mm)
  pub busy : (i : ℕ) → i < c.num_cpus → Busy (o.cpu i).phase (o.cpu i).proc

module _ (c : Config) (ok : SizesOk (sizes_of c)) (o : Os) (r : Reach c o) (areas : Areas)
    (x : Sound c o areas) (i : ℕ) (h : i < c.num_cpus) where
  on_cpu-Alive : (p : ℕ) → (o.cpu i).proc ≡ some p → Alive (areas p)
  on_cpu-Alive p e =
      x.alive p (omega (arith, handed-le c.num_cpus o i p h, ap (λ n. handed n p) e, handed_self p))

  -- A step of a CPU is defined.
  pub cpu_go :
      ((o.cpu i).phase ≡ running → (p : ℕ) → (o.cpu i).proc ≡ some p → Mild o.machine p)
      → (o.cpu i).phase ≢ stopped
      → Goes
          (sizes_of c)
          areas
          (o.cpu i)
          o.machine
          (cpu_step c.time_slot o.loader.done (o.cpu i) o.machine)
  cpu_go mild ne =
      cpu_step-Goes c.time_slot o.loader.done (o.cpu i) o.machine x.safe ok (x.busy i h)
        on_cpu-Alive mild ne

  module _ (k : Cpu) (s : Machine) (areas' : Areas)
      (w : Went (sizes_of c) areas (o.cpu i) o.machine k s areas')
      (e : cpu_step c.time_slot o.loader.done (o.cpu i) o.machine ≡ some (k, s)) where
    abbrev after : Os
    after = record { machine = s; cpu = update o.cpu i k; loader = o.loader }

    -- A process that the CPU has just released has no place.
    dropped :
        (p : ℕ)
        → (o.cpu i).phase ≡ reaping
        → (o.cpu i).proc ≡ some p
        → places c.num_cpus after p ≡ 0
    dropped p f g =
        let z =
          total_change (λ j. handed (after.cpu j).proc p) (λ j. handed (o.cpu j).proc p) c.num_cpus
            i h (λ j ne. ap (λ (d : Cpu). handed d.proc p) (update_other o.cpu i k j ne)) in
        let here : handed (after.cpu i).proc p ≡ 0 =
          ap (λ (d : Cpu). handed d.proc p) (update_same o.cpu i k)
          ∙ ap (λ n. handed n p) (w.drops p f g).1 in
        let mine : handed (o.cpu i).proc p ≡ 1 = ap (λ n. handed n p) g ∙ handed_self p in
        omega (
          arith,
          z,
          here,
          mine,
          (w.drops p f g).0,
          (Reach-reaping c i p r h f g).0,
          (Reach-Exclusive c r).once p,
        )

    no_more : (p : ℕ) → places c.num_cpus after p ≤ places c.num_cpus o p
    no_more = cpu_step-places c.num_cpus c.time_slot i o k s (Reach-Exclusive c r) h e

    -- A process that is still to come is on no CPU.
    not_here : (p : ℕ) → born_at o.loader.phase o.loader.avail_pid ≤ p → (o.cpu i).proc ≢ some p
    not_here p b f = absurd (
        omega (
          arith,
          ((Reach-Exclusive c r).fresh p b).0,
          handed-le c.num_cpus o i p h,
          ap (λ n. handed n p) f,
          handed_self p,
        ))

    pub cpu-Sound : Sound c after areas'
    cpu-Sound = record {
      safe = w.safe;
      alive = λ p pos.
          w.keeps p (x.alive p (omega (arith, no_more p, pos)))
            (λ f g. absurd (omega (arith, dropped p f g, pos)));
      unborn = λ p b.
          let (a, m, _) = w.others p (not_here p b) in let (z, n) = x.unborn p b in (a ∙ z, m ∙ n);
      busy = λ j lt. elim (ℕ_discrete j i) [
        | yes z ↦
            subst (λ (d : Cpu). Busy d.phase d.proc) (sym (ap after.cpu z ∙ update_same o.cpu i k))
              w.busy
        | no ne ↦
            subst (λ (d : Cpu). Busy d.phase d.proc) (sym (update_other o.cpu i k j ne))
              (x.busy j lt)
      ];
    }

-- A step of the loader that touches neither the queues nor the memory.
loader-Sound :
    (c : Config) (o : Os) (l : Loader) (areas : Areas)
    → Sound c o areas
    → born_at o.loader.phase o.loader.avail_pid ≤ born_at l.phase l.avail_pid
    → Sound c (record { machine = o.machine; cpu = o.cpu; loader = l }) areas
loader-Sound c o l areas x h = record {
  safe = x.safe;
  alive = x.alive;
  unborn = λ p b. x.unborn p (omega (arith, h, b));
  busy = x.busy;
}

clamp_prio-mm : (pcb : Pcb) → (clamp_prio pcb).mm ≡ pcb.mm
unfolding clamp_prio
clamp_prio-mm pcb = elim (Bool-cases (leb 140 pcb.prio)) [ inl e ↦ rw e refl | inr e ↦ rw e refl ]

add_proc-mm : (s : Sched) (p : ℕ) → ((add_proc s p).table p).mm ≡ (s.table p).mm
unfolding add_proc add_mlq_proc put_mlq_proc
add_proc-mm s p =
    ap (λ (pcb : Pcb). pcb.mm) (update_same s.table p (clamp_prio (s.table p)))
    ∙ clamp_prio-mm (s.table p)

module _ (c : Config) (o : Os) (e : Exclusive c.num_cpus o) (areas : Areas) (x : Sound c o areas)
    (p : ℕ) (pcb : Pcb) (new : born_at o.loader.phase o.loader.avail_pid ≡ p) where
  abbrev made : Sched
  made = (with_pcb o.machine p (record pcb { mm = init_mm })).sched

  -- No process has other memory than before: the new one had none.
  admit_mm : (q : ℕ) → ((add_proc made p).table q).mm ≡ (o.machine.sched.table q).mm
  admit_mm q = elim (ℕ_discrete q p) [
    | yes z ↦
        ap (λ n. ((add_proc made p).table n).mm) z
        ∙ add_proc-mm made p
        ∙ ap (λ (a : Pcb). a.mm) (update_same o.machine.sched.table p (record pcb { mm = init_mm }))
        ∙ sym (x.unborn q (omega (arith, new, z))).1
    | no ne ↦
        ap (λ (a : Pcb). a.mm)
          ((add_proc_rest made p).2 q ne
            ∙ update_other o.machine.sched.table p (record pcb { mm = init_mm }) q ne)
  ]

  admit-Sound :
      (l : Loader)
      → p < born_at l.phase l.avail_pid
      → Sound c (record { machine = admit p pcb o.machine; cpu = o.cpu; loader = l }) areas
  unfolding admit
  admit-Sound l lt = record {
    safe = (sched-Safe o.machine (add_proc made p) admit_mm x.safe).0;
    alive = λ q pos. elim (ℕ_discrete p q) [
      | yes z ↦ (first_area, (x.unborn q (omega (arith, new, z))).0)
      | no ne ↦ x.alive q (ground (arith, add_proc-le made p q, pos, ne))
    ];
    unborn = λ q b. let (a, m) = x.unborn q (omega (arith, new, lt, b)) in (a, admit_mm q ∙ m);
    busy = x.busy;
  }

pub ld_step-Sound :
    (c : Config) (now : ℕ) (o : Os) (l : Loader) (s : Machine) (areas : Areas)
    → Exclusive c.num_cpus o
    → Sound c o areas
    → ld_step c.files c.blank now o.loader o.machine ≡ some (l, s)
    → Sound c (record { machine = s; cpu = o.cpu; loader = l }) areas
ld_step-Sound c now o l s areas e x f =
    Loads-after o (λ l s. Sound c (record { machine = s; cpu = o.cpu; loader = l }) areas)
      (λ l b m. loader-Sound c o l areas x b)
      (λ l p pcb b lt m. admit-Sound c o e areas x p pcb b l lt) c.files c.blank now e.numbered l s
      f
