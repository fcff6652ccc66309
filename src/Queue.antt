-- ===== src/Queue.antt =====
-- src/queue.c and include/queue.h: the process queue, an array of at most MAX_QUEUE_SIZE pointers.
-- A pointer to a `struct pcb_t` is the address of the process, a number; NULL is `none`.
pub mod Slice
pub mod Fifo
pub mod Removed
pub mod Bounds
use ossim_os.Base.{ℕ, zero, suc, ◌+◌, ◌-◌, Bool, true, false, Option, none, some}
use ossim_os.Base.Tests.{leb, ◌==◌, if◌then◌else◌}
use ossim_os.Base.Lists.{update}

abbrev pub max_queue_size : ℕ
max_queue_size = 100

-- `struct queue_t`
pub record Queue : Type 0 where
  pub proc : ℕ → ℕ
  pub size : ℕ

unfoldable pub empty : Queue → Bool
empty q = q.size == 0

-- A full queue drops the process.
unfoldable pub enqueue : Queue → ℕ → Queue
enqueue q p =
    if leb max_queue_size q.size
    then q
    else record { proc = update q.proc q.size p; size = q.size + 1 }

-- `for (; i < size - 1; i++) proc[i] = proc[i + 1]`, with the rounds that are left.
unfoldable pub shift_from : ℕ → ℕ → (ℕ → ℕ) → ℕ → ℕ
shift_from zero i arr = arr
shift_from (suc rounds) i arr = shift_from rounds (i + 1) (update arr i (arr (i + 1)))

unfoldable pub dequeue : Queue → Option ℕ × Queue
dequeue q =
    if q.size == 0
    then (none, q)
    else (some (q.proc 0), record { proc = shift_from (q.size - 1) 0 q.proc; size = q.size - 1 })

-- The search of `remove_from_queue`, at index `i` with `left` entries still to look at.
unfoldable pub remove_at : ℕ → ℕ → Queue → ℕ → Bool × Queue
remove_at zero i q p = (false, q)
remove_at (suc left) i q p = elim (q.proc i == p) [
  | true ↦ (true, record { proc = shift_from left i q.proc; size = q.size - 1 })
  | false ↦ remove_at left (i + 1) q p
]

unfoldable pub remove_from_queue : Queue → ℕ → Bool × Queue
remove_from_queue q p = remove_at q.size 0 q p
