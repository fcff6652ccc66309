-- ===== src/Timer/Barrier.antt =====
-- src/timer.c: the invariant of the barrier, and that each step keeps it.
use native.Mathlib.Decide.{ℕ_discrete}
use ossim_os.Base.{
  ℕ, ◌+◌, ◌≤◌, ◌<◌, ◌≡◌, refl, sym, ap, ◌∙◌, subst, ◌⊎◌, inl, inr, Bool, true, false, ◌&&◌, List,
  [], ◌∷◌, arith,
}
use mathlib.Core.Bool.{not}
use ossim_os.Base.Tests.{if◌then◌else◌, Bool-cases}
use ossim_os.Base.Lists.{count}
use ossim_os.Timer.{TimerId, Phase, idle, testing, collecting, releasing, exited}
use ossim_os.Timer.World.{World, Thread, working, waiting, gone}

-- A device that the timer has still to let go, and one that it has still to see.
abbrev pub pending : Phase → ℕ → ℕ
pending idle d = 0
pending testing d = 0
pending (collecting rest fsh event) d = 0
pending (releasing rest fsh event) d = count d rest
pending exited d = 0

abbrev pub unseen : Phase → ℕ → ℕ
unseen idle d = 1
unseen testing d = 1
unseen (collecting rest fsh event) d = count d rest
unseen (releasing rest fsh event) d = 1
unseen exited d = 1

abbrev pub left : Phase → List ℕ
left idle = []
left testing = []
left (collecting rest fsh event) = rest
left (releasing rest fsh event) = rest
left exited = []

-- A device that works has arrived once in each slot that is over. One that waits has arrived once
-- more, unless the timer has let it go.
abbrev pub InStep : Thread → TimerId → ℕ → ℕ → ℕ → ℕ → Type 0
InStep working id a n pend new =
    (id.done ≡ false) × (id.fsh ≡ false) × (a ≡ n) × (pend ≡ 0) × (0 < new)
InStep waiting id a n pend new =
    (id.fsh ≡ false)
    × (a + pend ≡ n + (if id.done then 1 else 0))
    × (0 < pend → id.done ≡ true)
    × (new ≡ 0 → id.done ≡ true)
InStep gone id a n pend new = id.fsh ≡ true

-- Where the counters are equal, every device that has been seen has detached.
abbrev pub Counts : Phase → List ℕ → (ℕ → TimerId) → Bool → Type 0
Counts idle l device halted = ⊥
Counts testing l device halted = Unit {0}
Counts (collecting rest fsh event) l device halted =
    (fsh ≤ event)
    × (fsh ≡ event → (d : ℕ) → 0 < count d l → count d rest ≡ 0 → (device d).fsh ≡ true)
Counts (releasing rest fsh event) l device halted =
    fsh ≡ event → (d : ℕ) → 0 < count d l → (device d).fsh ≡ true
Counts exited l device halted = (halted ≡ true) ⊎ ((d : ℕ) → 0 < count d l → (device d).fsh ≡ true)

pub record Inv (l : List ℕ) (device : ℕ → TimerId) (thread : ℕ → Thread) (arrived : ℕ → ℕ) (n : ℕ)
    (phase : Phase) (halted : Bool) : Type 0 where
  pub distinct : (d : ℕ) → count d l ≤ 1
  pub sub : (d : ℕ) → count d (left phase) ≤ count d l
  pub each :
      (d : ℕ)
      → 0 < count d l
      → InStep (thread d) (device d) (arrived d) n (pending phase d) (unseen phase d)
  pub counts : Counts phase l device halted

abbrev pub Barrier : World → Type 0
Barrier w =
    Inv w.timer.dev_list w.timer.device w.thread w.arrived w.ticks w.timer.phase w.timer.timer_stop

module _ (l : List ℕ) (device : ℕ → TimerId) (thread : ℕ → Thread) (arrived : ℕ → ℕ) (n : ℕ)
    (halted : Bool) where
  pub testing-Inv :
      Inv l device thread arrived n testing halted
      → Inv l device thread arrived n (if halted then exited else collecting l 0 0) halted
  testing-Inv v = elim (Bool-cases halted) [
    | inl e ↦
        rw e (record {
          distinct = v.distinct;
          sub = λ d. omega arith;
          each = v.each;
          counts = inl refl;
        })
    | inr e ↦ rw e (record {
      distinct = v.distinct;
      sub = λ d. omega arith;
      each = λ d h. seen d h (thread d) (v.each d h);
      counts = (omega arith, λ z d h k. absurd (omega (arith, h, k)));
    })
  ]
    where
      seen :
          (d : ℕ)
          → 0 < count d l
          → (th : Thread) → InStep th (device d) (arrived d) n 0 1
          → InStep th (device d) (arrived d) n 0 (count d l)
      seen d h working (a, b, e, f, g) = (a, b, e, f, h)
      seen d h waiting (a, b, e, f) = (a, b, e, λ z. absurd (omega (arith, h, z)))
      seen d h gone a = a

  -- The last device has been seen: the time increases.
  pub collected-Inv :
      (fsh event : ℕ)
      → Inv l device thread arrived n (collecting [] fsh event) halted
      → Inv l device thread arrived (n + 1) (releasing l fsh event) halted
  collected-Inv fsh event v = record {
    distinct = v.distinct;
    sub = λ d. omega arith;
    each = λ d h. over d h (thread d) (v.each d h);
    counts = λ e d h. v.counts.1 e d h refl;
  }
    where
      over :
          (d : ℕ)
          → 0 < count d l
          → (th : Thread) → InStep th (device d) (arrived d) n 0 0
          → InStep th (device d) (arrived d) (n + 1) (count d l) 1
      over d h working (a, b, e, f, g) = absurd (omega (arith, g))
      over d h waiting (a, b, e, f) = (
        a,
        ground (arith, b, f refl, h, v.distinct d),
        λ z. f refl,
        λ z. absurd (omega (arith, z)),
      )
      over d h gone a = a

  pub collecting-Inv :
      (c : ℕ) (rest : List ℕ) (fsh event : ℕ)
      → (not (device c).done && not (device c).fsh) ≡ false
      → Inv l device thread arrived n (collecting (c ∷ rest) fsh event) halted
      → Inv l device thread arrived n
          (collecting rest (if (device c).fsh then fsh + 1 else fsh) (event + 1))
          halted
  collecting-Inv c rest fsh event e v = record {
    distinct = v.distinct;
    sub = λ d. ground (arith, v.sub d);
    each = λ d h. elim (ℕ_discrete c d) [
      | yes z ↦ here d z (thread d) (v.each d h)
      | no ne ↦
          subst (InStep (thread d) (device d) (arrived d) n 0) (ground (arith, ne)) (v.each d h)
    ];
    counts = (
      ground (arith, v.counts.0),
      λ z d h k.
          let finished : (device c).fsh ≡ true = ground (arith, z, v.counts.0) in
          let all : fsh ≡ event = ground (arith, z, finished) in
          elim (ℕ_discrete c d) [
            | yes y ↦ ap (λ q. (device q).fsh) (sym y) ∙ finished
            | no ne ↦ v.counts.1 all d h (ground (arith, ne, k))
          ],
    );
  }
    where
      here :
          (d : ℕ)
          → c ≡ d
          → (th : Thread) → InStep th (device d) (arrived d) n 0 (count d (c ∷ rest))
          → InStep th (device d) (arrived d) n 0 (count d rest)
      here d z working (a, b, k, f, g) = absurd (ground (arith, e, a, b, z))
      here d z waiting (a, b, k, f) = (a, b, k, λ y. ground (arith, e, a, z))
      here d z gone a = a
