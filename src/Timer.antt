-- ===== src/Timer.antt =====
-- src/timer.c: the barrier between the time slots. A condition variable only tells a thread that waits
-- to look again, so what is modelled is the test that it waits for.
pub mod World
pub mod Barrier
pub mod Kept
pub mod Reached
pub mod Slots
pub mod Progress
pub mod Turn
use mathlib.Core.Bool.{not}
use ossim_os.Base.{ℕ, ◌+◌, ◌%◌, ◌^◌, Bool, true, false, ◌&&◌, Option, none, some, List, [], ◌∷◌}
use ossim_os.Base.Tests.{◌==◌, if◌then◌else◌}
use ossim_os.Base.Lists.{update, length}

-- `struct timer_id_t`
pub record TimerId : Type 0 where
  pub done : Bool
  pub fsh : Bool

-- Where the thread of the timer stands in `timer_routine`: not started, at the test of the loop, in its
-- first loop with the devices that are left and the two counters, in its second loop, or past the end.
pub data Phase : Type 0 where
  idle : Phase
  testing : Phase
  collecting : List ℕ → ℕ → ℕ → Phase
  releasing : List ℕ → ℕ → ℕ → Phase
  exited : Phase

-- The static variables of the file; a device is known by its number, the order of its attachment.
pub record Timer : Type 0 where
  pub dev_list : List ℕ
  pub device : ℕ → TimerId
  pub time : ℕ
  pub timer_started : Bool
  pub timer_stop : Bool
  pub phase : Phase

abbrev pub with_device : Timer → ℕ → TimerId → Timer
with_device t d id = record t { device = update t.device d id }

abbrev pub with_phase : Timer → Phase → Timer
with_phase t p = record t { phase = p }

-- One turn of the first loop of `timer_routine`; `none` while the device has not done its job.
unfoldable pub collect : ℕ → List ℕ → ℕ → ℕ → Timer → Option Timer
collect d rest fsh event t =
    if not (t.device d).done && not (t.device d).fsh
    then none
    else some
        (with_phase t (collecting rest (if (t.device d).fsh then fsh + 1 else fsh) (event + 1)))

-- One step of the thread of the timer; `none` where it waits, or has not started, or has ended.
unfoldable pub timer_step : Timer → Option Timer
timer_step t = elim t.phase [
  | idle ↦ none
  | testing ↦ some (with_phase t (if t.timer_stop then exited else collecting t.dev_list 0 0))
  | collecting [] fsh event ↦
      some (record t { time = (t.time + 1) % 2 ^ 64; phase = releasing t.dev_list fsh event })
  | collecting (d ∷ rest) fsh event ↦ collect d rest fsh event t
  | releasing [] fsh event ↦ some (with_phase t (if fsh == event then exited else testing))
  | releasing (d ∷ rest) fsh event ↦ some (
      with_phase (with_device t d (record (t.device d) { done = false }))
        (releasing rest fsh event))
  | exited ↦ none
]

-- The first half of `next_slot`, and the test of the loop in the second.
unfoldable pub arrive : ℕ → Timer → Timer
arrive d t = with_device t d (record (t.device d) { done = true })

unfoldable pub may_leave : ℕ → Timer → Bool
may_leave d t = not (t.device d).done

unfoldable pub current_time : Timer → ℕ
current_time t = t.time

unfoldable pub start_timer : Timer → Timer
start_timer t = record t { timer_started = true; phase = testing }

unfoldable pub detach_event : ℕ → Timer → Timer
detach_event d t = with_device t d (record (t.device d) { fsh = true })

unfoldable pub attach_event : Timer → Option ℕ × Timer
attach_event t =
    let d = length t.dev_list in
    if t.timer_started then (none, t) else (
      some d,
      record t {
        dev_list = d ∷ t.dev_list;
        device = update t.device d (record { done = false; fsh = false });
      },
    )

-- `stop_timer` before and after the join.
unfoldable pub stop_timer : Timer → Timer
stop_timer t = record t { timer_stop = true }

unfoldable pub drop_devices : Timer → Timer
drop_devices t = record t { dev_list = [] }

-- The static variables before anything runs.
abbrev pub no_timer : Timer
no_timer = record {
  dev_list = [];
  device = λ _. record { done = false; fsh = false };
  time = 0;
  timer_started = false;
  timer_stop = false;
  phase = idle;
}
