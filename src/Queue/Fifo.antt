-- ===== src/Queue/Fifo.antt =====
-- src/queue.c against a bounded first-in first-out list.
use mathlib.Core.Path.{ap₂}
use mathlib.Core.List.{append-nil, append_assoc}
use ossim_os.Base.{
  ℕ, zero, suc, ◌+◌, ◌-◌, ◌≡◌, refl, sym, ap, ◌∙◌, Bool, Option, none, some, List, [], ◌∷◌, ◌++◌,
  inl, inr, arith,
}
use ossim_os.Base.Tests.{leb, ◌==◌, if◌then◌else◌, Bool-cases}
use ossim_os.Base.Lists.{length, contains, erase}
use ossim_os.Queue.{
  Queue, max_queue_size, enqueue, dequeue, remove_at, remove_from_queue, shift_from,
}
use ossim_os.Queue.Slice.{
  slice, contents, length-slice, slice_snoc, slice_split, slice-shift_from, slice-shift_from_below,
  slice-update_end,
}

-- The abstract queue: the list of its processes, the oldest first.
unfoldable pub push : List ℕ → ℕ → List ℕ
push l p = if leb max_queue_size (length l) then l else l ++ p ∷ []

unfoldable pub pop : List ℕ → Option ℕ × List ℕ
pop [] = (none, [])
pop (x ∷ l) = (some x, l)

pub length-contents : (q : Queue) → length (contents q) ≡ q.size
length-contents q = length-slice q.proc 0 q.size

-- `enqueue` appends to the list, unless MAX_QUEUE_SIZE processes wait already.
pub contents-enqueue : (q : Queue) (p : ℕ) → contents (enqueue q p) ≡ push (contents q) p
unfolding enqueue push
contents-enqueue q p = rw (length-contents q) (elim (Bool-cases (leb 100 q.size)) [
  | inl full ↦ rw full
  | inr room ↦ rw room (slice-update_end q.proc q.size p)
])

dequeue_lem :
    (n : ℕ) (arr : ℕ → ℕ)
    → let (r, q') = dequeue (record { proc = arr; size = n }) in
      (r, contents q') ≡ pop (slice arr 0 n)
unfolding dequeue pop
dequeue_lem zero arr = refl
dequeue_lem (suc n) arr =
    let e : suc n - 1 ≡ n = omega arith in rw e (ground (arith, slice-shift_from n 0 arr))

-- `dequeue` takes the head off the list, and returns NULL on the empty one.
pub contents-dequeue : (q : Queue) → let (r, q') = dequeue q in (r, contents q') ≡ pop (contents q)
contents-dequeue q = dequeue_lem q.size q.proc

-- The slice up to the match, the rest behind it, and the end that the loop drops.
contents-shift :
    (arr : ℕ → ℕ) (i left : ℕ)
    → slice (shift_from left i arr) 0 (i + left) ≡ slice arr 0 i ++ slice arr (i + 1) left
contents-shift arr i left =
    let f : 0 + i ≡ i = omega arith in
    slice_split (shift_from left i arr) 0 i left
    ∙ ap₂ ◌++◌ (slice-shift_from_below left i arr 0 i (omega arith))
        (rw f (slice-shift_from left i arr))

remove_at_lem :
    (left i : ℕ) (q : Queue) (p : ℕ)
    → q.size ≡ i + left
    → let (r, q') = remove_at left i q p in
      (r ≡ contains (slice q.proc i left) p)
      × (contents q' ≡ slice q.proc 0 i ++ erase (slice q.proc i left) p)
unfolding remove_at
remove_at_lem zero i q p h =
    let e : q.size ≡ i = omega arith in (refl, ap (slice q.proc 0) e ∙ sym (append-nil _))
remove_at_lem (suc left) i q p h = elim (Bool-cases (q.proc i == p)) [
  | inl hit ↦
      let e : q.size - 1 ≡ i + left = omega arith in
      rw (hit, remove_at)
        (refl, ap (slice (shift_from left i q.proc) 0) e ∙ contents-shift q.proc i left)
  | inr miss ↦
      let (found, rest) = remove_at_lem left (i + 1) q p (omega arith) in
      rw (miss, remove_at)
        (
          found,
          rest
              ∙ ap (λ l. l ++ erase (slice q.proc (i + 1) left) p) (prefix q.proc i)
              ∙ append_assoc (slice q.proc 0 i) (q.proc i ∷ [])
                  (erase (slice q.proc (i + 1) left) p),
        )
]
  where
    prefix : (arr : ℕ → ℕ) (i : ℕ) → slice arr 0 (i + 1) ≡ slice arr 0 i ++ arr i ∷ []
    prefix arr i =
        let e : i + 1 ≡ suc i = omega arith in
        let f : 0 + i ≡ i = omega arith in
        ap (slice arr 0) e ∙ slice_snoc arr 0 i ∙ ap (λ k. slice arr 0 i ++ arr k ∷ []) f

-- `remove_from_queue` tells whether the process waits, and takes its first entry out of the list
-- without disturbing the order of the others.
pub contents-remove_from_queue :
    (q : Queue) (p : ℕ)
    → let (r, q') = remove_from_queue q p in
      (r ≡ contains (contents q) p) × (contents q' ≡ erase (contents q) p)
unfolding remove_from_queue
contents-remove_from_queue q p = remove_at_lem q.size 0 q p (omega arith)

-- The calls of a client.
pub data Op : Type 0 where
  add : ℕ → Op
  take : Op
  drop : ℕ → Op

pub data Reply : Type 0 where
  done : Reply
  taken : Option ℕ → Reply
  dropped : Bool → Reply

unfoldable pub run : Queue → List Op → List Reply × List ℕ
run q [] = ([], contents q)
run q (add p ∷ ops) = let (rs, l) = run (enqueue q p) ops in (done ∷ rs, l)
run q (take ∷ ops) = let (r, q') = dequeue q in let (rs, l) = run q' ops in (taken r ∷ rs, l)
run q (drop p ∷ ops) =
    let (r, q') = remove_from_queue q p in let (rs, l) = run q' ops in (dropped r ∷ rs, l)

unfoldable pub run_list : List ℕ → List Op → List Reply × List ℕ
run_list l [] = ([], l)
run_list l (add p ∷ ops) = let (rs, l') = run_list (push l p) ops in (done ∷ rs, l')
run_list l (take ∷ ops) =
    let (r, l') = pop l in let (rs, l'') = run_list l' ops in (taken r ∷ rs, l'')
run_list l (drop p ∷ ops) =
    let (rs, l') = run_list (erase l p) ops in (dropped (contains l p) ∷ rs, l')

-- No sequence of calls tells the array from the bounded list of its contents: the replies are the
-- same, and so are the contents at the end.
pub run_refines : (ops : List Op) (q : Queue) → run q ops ≡ run_list (contents q) ops
unfolding run run_list
run_refines [] q = refl
run_refines (add p ∷ ops) q = rw (run_refines ops (enqueue q p), contents-enqueue)
run_refines (take ∷ ops) q = rw (run_refines ops (dequeue q).1, ← contents-dequeue q)
run_refines (drop p ∷ ops) q = rw (
  run_refines ops (remove_from_queue q p).1,
  (contents-remove_from_queue q p).0,
  (contents-remove_from_queue q p).1,
)
