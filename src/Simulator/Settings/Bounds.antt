-- ===== src/Simulator/Settings/Bounds.antt =====
-- src/os.c, `read_config`: what it has checked when it returns.
use ossim_os.Base.{
  ℕ, zero, suc, ◌^◌, ◌≤◌, ◌<◌, ◌≡◌, refl, subst, inl, inr, ◌&&◌, Option, none, some, List, [], ◌∷◌,
  arith,
}
use ossim_os.Base.Tests.{leb, Bool-cases, Option-cases}
use ossim_os.Base.Lists.{length, All}
use ossim_os.Types.{Inst}
use ossim_os.Loader.{scan_as, take}
use ossim_os.Simulator.{LdArgs}
use ossim_os.Simulator.World.{Config}
use ossim_os.Simulator.Settings.{
  to_long, scan_name, natural, positive, scan_counts, read_sizes, scan_process, read_processes,
  read_rest, read_body, read_config,
}

-- A statement on the result, where there is one.
abbrev pub Holds : {A : Type 0} → (A → Type 0) → Option A → Type 0
Holds P none = Unit {0}
Holds P (some a) = P a

-- The settings with which the threads may start.
pub record Ready (c : Config) : Type 0 where
  pub slot : (0 < c.time_slot) × (c.time_slot < 2 ^ 31)
  pub cpus : (0 < c.num_cpus) × (c.num_cpus < 2 ^ 31)
  pub ram : (256 ≤ c.memramsz) × (c.memramsz < 2 ^ 31)
  pub swap : (256 ≤ c.memswpsz 0) × (c.memswpsz 0 < 2 ^ 31)
  pub processes : (0 < length c.ld_processes) × (length c.ld_processes < 2 ^ 31)
  pub paths : All (λ (args : LdArgs). length args.path ≤ 99) c.ld_processes

length-take : (n : ℕ) (text : List ℕ) → length (take n text) ≤ n
unfolding take
length-take zero text = omega arith
length-take (suc n) [] = omega arith
length-take (suc n) (c ∷ cs) = omega (arith, length-take n cs)

scan_process-path :
    (text : List ℕ) → Holds (λ (r : LdArgs × List ℕ). length r.0.path ≤ 99) (scan_process text)
unfolding scan_process
scan_process-path text = elim (Option-cases (scan_as to_long text).0) [
  | inl e ↦ rw (e, scan_process) tt
  | inr (start_time, e) ↦ elim (Option-cases (scan_name (scan_as to_long text).1).0) [
    | inl f ↦ rw (e, f, scan_process) tt
    | inr (name, f) ↦
        elim (Option-cases (scan_as to_long (scan_name (scan_as to_long text).1).1).0) [
          | inl g ↦ rw (e, f, g, scan_process) tt
          | inr (prio, g) ↦ rw (e, f, g, scan_process) (length-take 99 _)
        ]
  ]
]

read_processes-length :
    (n : ℕ) (text : List ℕ)
    → Holds
        (λ l. (length l ≡ n) × All (λ (args : LdArgs). length args.path ≤ 99) l)
        (read_processes n text)
unfolding read_processes
read_processes-length zero text = (refl, tt)
read_processes-length (suc left) text = elim (Option-cases (scan_process text)) [
  | inl e ↦ rw (e, read_processes) tt
  | inr ((args, rest), e) ↦
      let p : length args.path ≤ 99 =
        subst (Holds (λ (r : LdArgs × List ℕ). length r.0.path ≤ 99)) e (scan_process-path text) in
      elim (Option-cases (read_processes left rest)) [
        | inl f ↦ rw (e, f, read_processes) tt
        | inr (others, f) ↦
            let q =
              subst
                (Holds (λ l. (length l ≡ left) × All (λ (args : LdArgs). length args.path ≤ 99) l))
                f (read_processes-length left rest) in
            rw (e, f, read_processes) (omega (arith, q.0), (p, q.1))
      ]
]

read_rest-Ready :
    (blank : Inst) (files : List ℕ → Option (List ℕ)) (time_slot num_cpus num_processes : ℕ)
    (sizes : ℕ × (ℕ → ℕ) × List ℕ)
    → (0 < time_slot) × (time_slot < 2 ^ 31)
    → (0 < num_cpus) × (num_cpus < 2 ^ 31)
    → (0 < num_processes) × (num_processes < 2 ^ 31)
    → Holds Ready (read_rest blank files time_slot num_cpus num_processes sizes)
unfolding read_rest
read_rest-Ready blank files time_slot num_cpus num_processes (ram, swp, rest) slot cpus processes =
    elim (Bool-cases ((leb 256 ram && natural ram) && (leb 256 (swp 0) && natural (swp 0)))) [
      | inr e ↦ rw (e, read_rest) tt
      | inl e ↦ elim (Option-cases (read_processes num_processes rest)) [
        | inl f ↦ rw (e, f, read_rest) tt
        | inr (l, f) ↦
            let (n, paths) =
              subst
                (Holds (λ k.
                  (length k ≡ num_processes) × All (λ (args : LdArgs). length args.path ≤ 99) k))
                f (read_processes-length num_processes rest) in
            rw (e, f, read_rest)
              (record {
                slot = slot;
                cpus = cpus;
                ram = ground (arith, e);
                swap = ground (arith, e);
                processes = (omega (arith, n, processes), omega (arith, n, processes));
                paths = paths;
              })
      ]
    ]

-- When `read_config` returns, the time slot and the number of CPUs are positive, RAM and the first swap
-- device have a page at least, there is a process, and no path is longer than 99 characters.
pub read_config-Ready :
    (blank : Inst) (files : List ℕ → Option (List ℕ)) (file : Option (List ℕ))
    → Holds Ready (read_config blank files file)
unfolding read_config read_body
read_config-Ready blank files none = tt
read_config-Ready blank files (some text) = elim (Option-cases (scan_counts text)) [
  | inl e ↦ rw (e, read_config) tt
  | inr (((time_slot, num_cpus, num_processes), rest), e) ↦
      elim (Bool-cases (positive time_slot && positive num_cpus && positive num_processes)) [
        | inr f ↦ rw (e, f, read_config) tt
        | inl f ↦
            rw (e, f, read_config, read_body)
              (read_rest-Ready blank files time_slot num_cpus num_processes (read_sizes rest)
                (ground (arith, f)) (ground (arith, f)) (ground (arith, f)))
      ]
]
