-- ===== src/Timer/World.antt =====
-- src/timer.c: the threads that use the timer, and what may happen next.
use ossim_os.Base.{ℕ, zero, suc, ◌+◌, ◌<◌, ◌≡◌, true, some, [], ◌∷◌}
use ossim_os.Base.Lists.{update, count}
use ossim_os.Timer.{
  Timer, Phase, idle, testing, collecting, releasing, exited, timer_step, arrive, may_leave,
  detach_event, attach_event, start_timer, stop_timer, no_timer,
}

-- A thread of a device works, or is in the second half of `next_slot`, or has detached.
pub data Thread : Type 0 where
  working waiting gone : Thread

-- `arrived` counts the calls of `next_slot` of a device, and `ticks` the time slots that are over.
pub record World : Type 0 where
  pub timer : Timer
  pub thread : ℕ → Thread
  pub arrived : ℕ → ℕ
  pub ticks : ℕ

-- The step that increases the time.
abbrev pub tick_of : Phase → ℕ
tick_of idle = 0
tick_of testing = 0
tick_of (collecting [] fsh event) = 1
tick_of (collecting (d ∷ rest) fsh event) = 0
tick_of (releasing rest fsh event) = 0
tick_of exited = 0

-- A device that is attached.
abbrev pub Attached : World → ℕ → Type 0
Attached w d = 0 < count d w.timer.dev_list

abbrev pub ticked : World → Timer → World
ticked w t = record w { timer = t; ticks = w.ticks + tick_of w.timer.phase }

abbrev pub arriving : World → ℕ → World
arriving w d = record w {
  timer = arrive d w.timer;
  thread = update w.thread d waiting;
  arrived = update w.arrived d (w.arrived d + 1);
}

abbrev pub leaving : World → ℕ → World
leaving w d = record w { thread = update w.thread d working }

abbrev pub detaching : World → ℕ → World
detaching w d = record w { timer = detach_event d w.timer; thread = update w.thread d gone }

-- One step of one thread: the timer's, a device's, or the main thread's that stops the timer.
pub data Steps : World → World → Type 0 where
  tick : (w : World) (t : Timer) → timer_step w.timer ≡ some t → Steps w (ticked w t)
  come : (w : World) (d : ℕ) → Attached w d → w.thread d ≡ working → Steps w (arriving w d)
  go :
      (w : World) (d : ℕ)
      → Attached w d
      → w.thread d ≡ waiting
      → may_leave d w.timer ≡ true
      → Steps w (leaving w d)
  detach : (w : World) (d : ℕ) → Attached w d → w.thread d ≡ working → Steps w (detaching w d)
  stop : (w : World) → Steps w (record w { timer = stop_timer w.timer })

-- The timer with `n` devices.
unfoldable pub attach_all : ℕ → Timer → Timer
attach_all zero t = t
attach_all (suc n) t = attach_all n (attach_event t).1

abbrev pub begin : ℕ → World
begin n = record {
  timer = start_timer (attach_all n no_timer);
  thread = λ _. working;
  arrived = λ _. 0;
  ticks = 0;
}

-- The states that the timer with `n` devices can reach.
pub data Reach (n : ℕ) : World → Type 0 where
  start : Reach n (begin n)
  step : {w v : World} → Reach n w → Steps w v → Reach n v
