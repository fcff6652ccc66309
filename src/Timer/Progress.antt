-- ===== src/Timer/Progress.antt =====
-- src/timer.c: a time slot ends once every device has done its job in it, and the timer ends once every
-- device has detached.
use ossim_os.Base.{
  ℕ, ◌+◌, ◌≤◌, ◌≡◌, ◌≢◌, refl, sym, subst, ◌⊎◌, inl, inr, true, false, ◌&&◌, some, List, [], ◌∷◌,
  arith,
}
use mathlib.Core.Bool.{not}
use ossim_os.Base.Tests.{if◌then◌else◌, Bool-cases}
use ossim_os.Base.Lists.{count}
use ossim_os.Timer.{
  Timer, Phase, idle, testing, collecting, releasing, exited, timer_step, collect, may_leave,
  with_phase,
}
use ossim_os.Timer.World.{World, Thread, working, waiting, gone, Attached, Reach}
use ossim_os.Timer.Barrier.{left, Counts, Barrier}
use ossim_os.Timer.Reached.{Reach-Barrier, at_thread}

-- The timer can go on, or a device can that has to do so first.
abbrev pub CanMove : World → Type 0
CanMove w =
    ((t : Timer) × (timer_step w.timer ≡ some t))
    ⊎ ((d : ℕ) × Attached w d
        × ((w.thread d ≡ working) ⊎ ((w.thread d ≡ waiting) × (may_leave d w.timer ≡ true))))

-- A device that has neither done its job nor detached can move.
unready-CanMove :
    (w : World) (d : ℕ)
    → Barrier w
    → Attached w d
    → (w.timer.device d).done ≡ false
    → (w.timer.device d).fsh ≡ false
    → CanMove w
unfolding may_leave
unready-CanMove w d b h e f = by_thread (w.thread d) refl
  where
    by_thread : (th : Thread) → w.thread d ≡ th → CanMove w
    by_thread working z = inr (d, h, inl z)
    by_thread waiting z = inr (d, h, inr (z, ground (arith, e)))
    by_thread gone z =
        let fin : (w.timer.device d).fsh ≡ true = at_thread w d gone b h z in absurd (cc (fin, f))

abbrev CanStep : Timer → Phase → Type 0
CanStep t p = (u : Timer) × (timer_step (with_phase t p) ≡ some u)

-- The timer steps over a device that has done its job or detached.
pub collect_ready :
    (t : Timer) (d : ℕ) (rest : List ℕ) (fsh event : ℕ)
    → (not (t.device d).done && not (t.device d).fsh) ≡ false
    → timer_step (with_phase t (collecting (d ∷ rest) fsh event))
      ≡ some
          (with_phase t (collecting rest (if (t.device d).fsh then fsh + 1 else fsh) (event + 1)))
unfolding timer_step collect
collect_ready t d rest fsh event e = rw e refl

phase-CanMove : (w : World) (p : Phase) → Barrier w → w.timer.phase ≡ p → p ≢ exited → CanMove w
unfolding timer_step
phase-CanMove w p b e ne = go p e ne
  where
    moves : (q : Phase) → w.timer.phase ≡ q → CanStep w.timer q → CanMove w
    moves q z s = inl (subst (CanStep w.timer) (sym z) s)

    go : (q : Phase) → w.timer.phase ≡ q → q ≢ exited → CanMove w
    go idle z ne =
        absurd (subst (λ k. Counts k w.timer.dev_list w.timer.device w.timer.timer_stop) z b.counts)
    go testing z ne = moves testing z (
      with_phase w.timer (if w.timer.timer_stop then exited else collecting w.timer.dev_list 0 0),
      refl,
    )
    go (collecting [] fsh event) z ne = moves (collecting [] fsh event) z (_, refl)
    go (releasing [] fsh event) z ne = moves (releasing [] fsh event) z (_, refl)
    go (releasing (d ∷ rest) fsh event) z ne = moves (releasing (d ∷ rest) fsh event) z (_, refl)
    go exited z ne = absurd (ne refl)
    go (collecting (d ∷ rest) fsh event) z ne =
        elim (Bool-cases (not (w.timer.device d).done && not (w.timer.device d).fsh)) [
          | inr f ↦
              moves (collecting (d ∷ rest) fsh event) z
                (_, collect_ready w.timer d rest fsh event f)
          | inl f ↦
              let s : count d (d ∷ rest) ≤ count d w.timer.dev_list =
                subst (λ k. count d (left k) ≤ count d w.timer.dev_list) z (b.sub d) in
              unready-CanMove w d b (ground (arith, s)) (ground (arith, f)) (ground (arith, f))
        ]

-- In every state that the timer with any number of devices can reach, unless its thread has ended, that
-- thread can take a step, or some attached device can go on to do what it waits for: the device's thread
-- works, or may leave `next_slot`. When the thread has ended without a call of `stop_timer`, every
-- device has detached.
pub Reach-CanMove :
    {n : ℕ} {w : World}
    → Reach n w
    → (w.timer.phase ≢ exited → CanMove w)
      × (w.timer.phase ≡ exited
          → w.timer.timer_stop ≡ false
          → (d : ℕ) → Attached w d
          → w.thread d ≡ gone)
Reach-CanMove {n} {w} r =
    let b = Reach-Barrier r in
    (
      phase-CanMove w w.timer.phase b refl,
      λ e f d h.
          let over : (w.timer.device d).fsh ≡ true =
            elim (subst (λ k. Counts k w.timer.dev_list w.timer.device w.timer.timer_stop) e
              b.counts) [ inl g ↦ absurd (cc (f, g)) | inr g ↦ g d h ] in
          detached w d b h over (w.thread d) refl,
    )
  where
    detached :
        (v : World) (d : ℕ)
        → Barrier v
        → Attached v d
        → (v.timer.device d).fsh ≡ true
        → (th : Thread) → v.thread d ≡ th
        → v.thread d ≡ gone
    detached v d b h f working e =
        let (_, g, _, _, _) = at_thread v d working b h e in absurd (cc (f, g))
    detached v d b h f waiting e =
        let (g, _, _, _) = at_thread v d waiting b h e in absurd (cc (f, g))
    detached v d b h f gone e = e
