-- ===== src/Timer/Kept.antt =====
-- src/timer.c: each step of a thread keeps the invariant of the barrier.
use native.Mathlib.Decide.{ℕ_discrete}
use ossim_os.Base.{
  ℕ, ◌+◌, ◌≡◌, ◌≢◌, refl, subst, inl, inr, Bool, true, false, ◌&&◌, some, List, [], ◌∷◌, arith,
}
use mathlib.Core.Bool.{not}
use ossim_os.Base.Tests.{◌==◌, if◌then◌else◌, Bool-cases}
use ossim_os.Base.Lists.{update, count}
use ossim_os.Timer.{
  Timer, TimerId, Phase, idle, testing, collecting, releasing, exited, timer_step, collect,
}
use ossim_os.Timer.World.{Thread, working, waiting, gone, tick_of}
use ossim_os.Timer.Barrier.{InStep, Counts, Inv, testing-Inv, collected-Inv, collecting-Inv}

-- Devices stay finished.
pub Counts-mono :
    (phase : Phase) (l : List ℕ) (device device' : ℕ → TimerId) (halted : Bool)
    → ((d : ℕ) → (device d).fsh ≡ true → (device' d).fsh ≡ true)
    → Counts phase l device halted
    → Counts phase l device' halted
Counts-mono idle l device device' halted f c = c
Counts-mono testing l device device' halted f c = c
Counts-mono (collecting rest fsh event) l device device' halted f c =
    (c.0, λ z d h k. f d (c.1 z d h k))
Counts-mono (releasing rest fsh event) l device device' halted f c = λ z d h. f d (c z d h)
Counts-mono exited l device device' halted f (inl e) = inl e
Counts-mono exited l device device' halted f (inr c) = inr (λ d h. f d (c d h))

module _ (l : List ℕ) (device : ℕ → TimerId) (thread : ℕ → Thread) (arrived : ℕ → ℕ) (n : ℕ)
    (halted : Bool) where
  -- The timer lets a device go.
  releasing-Inv :
      (c : ℕ) (rest : List ℕ) (fsh event : ℕ)
      → Inv l device thread arrived n (releasing (c ∷ rest) fsh event) halted
      → Inv l
          (update device c (record (device c) { done = false }))
          thread
          arrived
          n
          (releasing rest fsh event)
          halted
  releasing-Inv c rest fsh event v = record {
    distinct = v.distinct;
    sub = λ d. ground (arith, v.sub d);
    each = λ d h. elim (ℕ_discrete c d) [
      | yes z ↦ here d z (thread d) (v.each d h)
      | no ne ↦ there d ne (thread d) (v.each d h)
    ];
    counts = λ z d h. stays d (v.counts z d h);
  }
    where
      after : ℕ → TimerId
      after = update device c (record (device c) { done = false })

      stays : (d : ℕ) → (device d).fsh ≡ true → (after d).fsh ≡ true
      stays d e = elim (ℕ_discrete c d) [
        | yes z ↦ ground (arith, e, z)
        | no ne ↦ ground (arith, e, ne)
      ]

      here :
          (d : ℕ)
          → c ≡ d
          → (th : Thread) → InStep th (device d) (arrived d) n (count d (c ∷ rest)) 1
          → InStep th (after d) (arrived d) n (count d rest) 1
      here d z working (a, b, k, f, g) = absurd (ground (arith, f, z))
      here d z waiting (a, b, k, f) =
          let done : (device d).done ≡ true = k (ground (arith, z)) in
          let none_left : count d rest ≡ 0 = ground (arith, v.sub d, v.distinct d, z) in
          (
            ground (arith, a, z),
            ground (arith, b, done, none_left, z),
            λ y. absurd (omega (arith, y, none_left)),
            λ y. absurd (omega (arith, y)),
          )
      here d z gone a = ground (arith, a, z)

      there :
          (d : ℕ)
          → c ≢ d
          → (th : Thread) → InStep th (device d) (arrived d) n (count d (c ∷ rest)) 1
          → InStep th (after d) (arrived d) n (count d rest) 1
      there d ne th i =
          let same : device d ≡ after d = ground (arith, ne) in
          let less : count d (c ∷ rest) ≡ count d rest = ground (arith, ne) in
          subst (λ m. InStep th (after d) (arrived d) n m 1) less
            (subst (λ id. InStep th id (arrived d) n (count d (c ∷ rest)) 1) same i)

  released-Inv :
      (fsh event : ℕ)
      → Inv l device thread arrived n (releasing [] fsh event) halted
      → Inv l device thread arrived n (if fsh == event then exited else testing) halted
  released-Inv fsh event v = elim (Bool-cases (fsh == event)) [
    | inl e ↦ rw e (record {
      distinct = v.distinct;
      sub = λ d. omega arith;
      each = v.each;
      counts = inr (v.counts (ground (arith, e)));
    })
    | inr e ↦
        rw e (record { distinct = v.distinct; sub = λ d. omega arith; each = v.each; counts = tt })
  ]

  abbrev At : ℕ → Timer → Type 0
  At m t = Inv t.dev_list t.device thread arrived m t.phase t.timer_stop

  settle : (m k : ℕ) (x t : Timer) → m ≡ k → some x ≡ some t → At m x → At k t
  settle m k x t e f a = let same : x ≡ t = cc f in subst (λ i. At i t) e (subst (At m) same a)

  -- A step of the thread of the timer.
  pub tick-Inv :
      (time : ℕ) (started : Bool) (phase : Phase) (t : Timer)
      → Inv l device thread arrived n phase halted
      → timer_step (record {
        dev_list = l;
        device = device;
        time = time;
        timer_started = started;
        timer_stop = halted;
        phase = phase;
      })
        ≡ some t
      → Inv t.dev_list t.device thread arrived (n + tick_of phase) t.phase t.timer_stop
  unfolding timer_step collect
  tick-Inv time started idle t v e = absurd (cc e)
  tick-Inv time started testing t v e =
      settle n (n + 0) _ t (omega arith) e (testing-Inv l device thread arrived n halted v)
  tick-Inv time started (collecting [] fsh event) t v e =
      settle (n + 1) (n + 1) _ t refl e (collected-Inv l device thread arrived n halted fsh event v)
  tick-Inv time started (collecting (d ∷ rest) fsh event) t v e =
      elim (Bool-cases (not (device d).done && not (device d).fsh)) [
        | inl f ↦ absurd (cc (rw f at e))
        | inr f ↦
            settle n (n + 0) _ t (omega arith) (rw f at e)
              (collecting-Inv l device thread arrived n halted d rest fsh event f v)
      ]
  tick-Inv time started (releasing [] fsh event) t v e =
      settle n (n + 0) _ t (omega arith) e (released-Inv fsh event v)
  tick-Inv time started (releasing (d ∷ rest) fsh event) t v e =
      settle n (n + 0) _ t (omega arith) e (releasing-Inv d rest fsh event v)
  tick-Inv time started exited t v e = absurd (cc e)
