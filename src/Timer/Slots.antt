-- ===== src/Timer/Slots.antt =====
-- src/timer.c: the time slots of the devices, and that the timer never blocks for good.
use native.Mathlib.Decide.{dec_lt}
use ossim_os.Base.{
  ℕ, zero, suc, ◌+◌, ◌%◌, ◌^◌, ◌≤◌, ◌<◌, ◌≡◌, ◌≢◌, refl, sym, ap, ◌∙◌, inl, inr, Bool, ◌&&◌, some,
  List, [], ◌∷◌, arith,
}
use mathlib.Core.Bool.{not}
use ossim_os.Base.Tests.{Bool-cases}
use ossim_os.Base.Lists.{count}
use ossim_os.Timer.{
  Timer, TimerId, Phase, idle, testing, collecting, releasing, exited, timer_step, collect, arrive,
  detach_event, stop_timer, start_timer, attach_event, no_timer, current_time,
}
use ossim_os.Timer.World.{
  World, Thread, working, waiting, gone, Attached, tick_of, tick, come, go, detach, stop,
  attach_all, Reach, start, step,
}
use ossim_os.Timer.Barrier.{pending, left, Barrier}
use ossim_os.Timer.Reached.{Reach-Barrier, at_thread}

time_of : (a b : Timer) → some a ≡ some b → b.time ≡ a.time
time_of a b e = let z : a ≡ b = cc e in ap (λ (x : Timer). x.time) (sym z)

-- `_time` after a step of the timer.
tick_time :
    (l : List ℕ) (device : ℕ → TimerId) (time : ℕ) (started halted : Bool) (phase : Phase)
    (t : Timer)
    → timer_step (record {
      dev_list = l;
      device = device;
      time = time;
      timer_started = started;
      timer_stop = halted;
      phase = phase;
    })
      ≡ some t
    → time < 2 ^ 64
    → t.time ≡ (time + tick_of phase) % 2 ^ 64
unfolding timer_step collect
tick_time l device time started halted idle t e h = absurd (cc e)
tick_time l device time started halted testing t e h = omega (arith, time_of _ t e)
tick_time l device time started halted (collecting [] fsh event) t e h = time_of _ t e
tick_time l device time started halted (collecting (d ∷ rest) fsh event) t e h =
    elim (Bool-cases (not (device d).done && not (device d).fsh)) [
      | inl f ↦ absurd (cc (rw f at e))
      | inr f ↦ omega (arith, time_of _ t (rw f at e))
    ]
tick_time l device time started halted (releasing [] fsh event) t e h = omega (arith, time_of _ t e)
tick_time l device time started halted (releasing (d ∷ rest) fsh event) t e h =
    omega (arith, time_of _ t e)
tick_time l device time started halted exited t e h = absurd (cc e)

attach_all_time : (n : ℕ) (t : Timer) → (attach_all n t).time ≡ t.time
unfolding attach_all attach_event
attach_all_time zero t = refl
attach_all_time (suc n) t =
    attach_all_time n (attach_event t).1
    ∙ elim (Bool-cases t.timer_started) [ inl e ↦ rw e refl | inr e ↦ rw e refl ]

-- `_time` is the number of the time slots that are over, as a `uint64_t`.
Reach-time : {n : ℕ} {w : World} → Reach n w → w.timer.time ≡ w.ticks % 2 ^ 64
unfolding start_timer arrive detach_event stop_timer
Reach-time {n} start = omega (arith, attach_all_time n no_timer)
Reach-time (step r (tick w t e)) =
    let before = Reach-time r in
    let after =
      tick_time w.timer.dev_list w.timer.device w.timer.time w.timer.timer_started
        w.timer.timer_stop w.timer.phase t e (omega (arith, before)) in
    omega (arith, before, after)
Reach-time (step r (come w d h e)) = Reach-time r
Reach-time (step r (go w d h e may)) = Reach-time r
Reach-time (step r (detach w d h e)) = Reach-time r
Reach-time (step r (stop w)) = Reach-time r

pending-le : (w : World) (d : ℕ) → Barrier w → pending w.timer.phase d ≤ 1
pending-le w d b = by_phase w.timer.phase (omega (arith, b.sub d, b.distinct d))
  where
    by_phase : (p : Phase) → count d (left p) ≤ 1 → pending p d ≤ 1
    by_phase idle h = omega arith
    by_phase testing h = omega arith
    by_phase (collecting rest fsh event) h = omega arith
    by_phase (releasing rest fsh event) h = h
    by_phase exited h = omega arith

-- A device that has not detached has arrived in every slot that is over, and at most once more.
arrived_range :
    (w : World) (d : ℕ)
    → Barrier w
    → Attached w d
    → w.thread d ≢ gone
    → (w.ticks ≤ w.arrived d) × (w.arrived d ≤ w.ticks + 1)
arrived_range w d b h ne = by_thread (w.thread d) refl
  where
    by_thread :
        (th : Thread) → w.thread d ≡ th → (w.ticks ≤ w.arrived d) × (w.arrived d ≤ w.ticks + 1)
    by_thread working e =
        let (_, _, a, _, _) = at_thread w d working b h e in (omega (arith, a), omega (arith, a))
    by_thread waiting e =
        let (_, a, held, _) = at_thread w d waiting b h e in
        elim (dec_lt 0 (pending w.timer.phase d)) [
          | yes k ↦
              let once : pending w.timer.phase d ≤ 1 = pending-le w d b in
              (ground (arith, a, held k, once), ground (arith, a))
          | no k ↦ (ground (arith, a), ground (arith, a))
        ]
    by_thread gone e = absurd (ne e)

-- In every state that the timer with any number of devices can reach, while the thread of a device
-- works, the device has arrived exactly as often as time slots are over, which `current_time` tells modulo
-- 2 ^ 64; and every other device that has not detached has arrived in each of those slots, and at most
-- once more. So no device works in a slot before all have done their job in the one before.
pub Reach-Slots :
    {n : ℕ} {w : World} (d : ℕ)
    → Reach n w
    → Attached w d
    → w.thread d ≡ working
    → (w.arrived d ≡ w.ticks)
      × (current_time w.timer ≡ w.ticks % 2 ^ 64)
      × ((e : ℕ)
          → Attached w e
          → w.thread e ≢ gone
          → (w.arrived d ≤ w.arrived e) × (w.arrived e ≤ w.arrived d + 1))
unfolding current_time
Reach-Slots {n} {w} d r h e =
    let b = Reach-Barrier r in
    let (_, _, a, _, _) = at_thread w d working b h e in
    (
      a,
      Reach-time r,
      λ q k ne.
          let (lo, hi) = arrived_range w q b k ne in (omega (arith, lo, a), omega (arith, hi, a)),
    )
