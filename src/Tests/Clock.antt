-- ===== src/Tests/Clock.antt =====
-- The timer with two devices.
use ossim_os.Base.{
  ℕ, ◌+◌, ◌%◌, ◌^◌, ◌≤◌, ◌<◌, ◌≡◌, ◌≢◌, ◌⊎◌, refl, true, false, ◌||◌, some, [], ◌∷◌, arith,
}
use ossim_os.Base.Tests.{◌==◌}
use ossim_os.Base.Lists.{count}
use ossim_os.Timer.{
  Timer, testing, exited, current_time, may_leave, attach_event, start_timer, arrive,
}
use ossim_os.Timer.World.{
  World, gone, Attached, arriving, come, attach_all, begin, Reach, start, step,
}
use ossim_os.Timer.Slots.{Reach-Slots}
use ossim_os.Timer.Progress.{CanMove, Reach-CanMove}
use ossim_os.Timer.Turn.{timer_run, timer_run_lem}

-- Device 0 has done its job in the first slot, and device 1 works.
abbrev world : World
world = arriving (begin 2) 0

Attached-0 : Attached (begin 2) 0
unfolding attach_all attach_event start_timer
Attached-0 = omega arith

Attached-1 : Attached world 1
unfolding attach_all attach_event start_timer arrive
Attached-1 = omega arith

reached : Reach 2 world
reached = step start (come (begin 2) 0 Attached-0 refl)

Reach-Slots_example :
    (world.arrived 1 ≡ world.ticks)
    × (current_time world.timer ≡ world.ticks % 2 ^ 64)
    × ((e : ℕ)
        → Attached world e
        → world.thread e ≢ gone
        → (world.arrived 1 ≤ world.arrived e) × (world.arrived e ≤ world.arrived 1 + 1))
Reach-Slots_example = Reach-Slots 1 reached Attached-1 refl

Reach-CanMove_example :
    (world.timer.phase ≢ exited → CanMove world)
    × (world.timer.phase ≡ exited
        → world.timer.timer_stop ≡ false
        → (d : ℕ) → Attached world d
        → world.thread d ≡ gone)
Reach-CanMove_example = Reach-CanMove reached

-- One device has done its job, and the other has detached.
abbrev ready : Timer
ready = record {
  dev_list = 1 ∷ 0 ∷ [];
  device = λ d. record { done = d == 0; fsh = d == 1 };
  time = 4;
  timer_started = true;
  timer_stop = false;
  phase = testing;
}

all_ready :
    (d : ℕ) → 0 < count d ready.dev_list → ((ready.device d).done || (ready.device d).fsh) ≡ true
all_ready d h = ground (arith, h)

timer_run_lem_example :
    (u : Timer) × (timer_run 7 ready ≡ some u)
    × (u.time ≡ 5)
    × ((u.phase ≡ testing) ⊎ (u.phase ≡ exited))
    × ((d : ℕ) → 0 < count d ready.dev_list → may_leave d u ≡ true)
    × ((d : ℕ) → (u.device d).fsh ≡ (ready.device d).fsh)
timer_run_lem_example = timer_run_lem ready refl refl all_ready
