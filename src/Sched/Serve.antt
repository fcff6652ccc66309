-- ===== src/Sched/Serve.antt =====
-- src/sched.c, `get_mlq_proc`: what a call takes from the queues, and when it finds nothing.
use ossim_os.Base.{
  ℕ, suc, ◌-◌, ◌≤◌, ◌<◌, ◌≡◌, ◌≢◌, refl, ap, ◌⊎◌, ◌↔◌, inl, inr, true, false, Option, none, some,
  List, [], ◌∷◌, arith,
}
use ossim_os.Queue.{Queue, empty}
use ossim_os.Queue.Slice.{slice, contents}
use ossim_os.Queue.Fifo.{pop, contents-dequeue}
use ossim_os.Sched.{Sched, can_dispatch, dispatch, new_round, get_mlq_proc}
use ossim_os.Sched.Mlq.{First, Got, now, later, never, get_mlq_proc-Got, slot_used-new_round}
use ossim_os.Sched.Invariant.{IsValid}

-- What it means that a call served level `j` of `s`: the oldest process `x` of the level is
-- returned and leaves its queue, the other levels keep theirs, and each higher level is empty or
-- has used up its slots.
pub record Serves (s : Sched) (j : ℕ) (x : ℕ) (rest : List ℕ) (r : Option ℕ × Sched) : Type 0 where
  pub level : j < 140
  pub before : contents (s.mlq_ready_queue j) ≡ x ∷ rest
  pub result : r.0 ≡ some x
  pub after : contents (r.1.mlq_ready_queue j) ≡ rest
  pub others : (i : ℕ) → i ≢ j → r.1.mlq_ready_queue i ≡ s.mlq_ready_queue i
  pub higher : (i : ℕ) → i < j → ((s.mlq_ready_queue i).size ≡ 0) ⊎ (s.slot i ≤ s.slot_used i)

pub contents_nonempty :
    (q : Queue) → 0 < q.size → (x : ℕ) × (rest : List ℕ) × (contents q ≡ x ∷ rest)
contents_nonempty q h = (q.proc 0, slice q.proc 1 (q.size - 1), e)
  where
    e : contents q ≡ q.proc 0 ∷ slice q.proc 1 (q.size - 1)
    e = let f : q.size ≡ suc (q.size - 1) = omega arith in ap (slice q.proc 0) f

pub dispatch-Serves :
    (s : Sched) (j x : ℕ) (rest : List ℕ)
    → j < 140
    → contents (s.mlq_ready_queue j) ≡ x ∷ rest
    → ((i : ℕ) → i < j → ((s.mlq_ready_queue i).size ≡ 0) ⊎ (s.slot i ≤ s.slot_used i))
    → Serves s j x rest (dispatch s j)
unfolding dispatch pop
dispatch-Serves s j x rest lt e above = record {
  level = lt;
  before = e;
  result = ground (arith, contents-dequeue (s.mlq_ready_queue j));
  after = ground (arith, contents-dequeue (s.mlq_ready_queue j));
  others = λ i ne. ground arith;
  higher = above;
}

pub can_dispatch-size :
    (s : Sched) (j : ℕ) → can_dispatch s j ≡ true → 0 < (s.mlq_ready_queue j).size
unfolding can_dispatch empty
can_dispatch-size s j h = ground arith

pub not-can_dispatch :
    (s : Sched) (j : ℕ)
    → can_dispatch s j ≡ false
    → ((s.mlq_ready_queue j).size ≡ 0) ⊎ (s.slot j ≤ s.slot_used j)
unfolding can_dispatch empty
not-can_dispatch s j h = ground arith

-- In a new round every level has slots, so only an empty one may not dispatch.
pub new_round-empty :
    (s : Sched) (j : ℕ)
    → IsValid s
    → j < 140
    → can_dispatch (new_round s) j ≡ false
    → (s.mlq_ready_queue j).size ≡ 0
unfolding new_round
new_round-empty s j v h e = elim (not-can_dispatch (new_round s) j e) [
  | inl z ↦ z
  | inr l ↦ absurd (omega (arith, l, slot_used-new_round s j h, (v j h).slots))
]

size-zero_contents : (q : Queue) → q.size ≡ 0 → contents q ≡ []
size-zero_contents q e = ap (slice q.proc 0) e

now-Serves :
    (s : Sched) (j : ℕ)
    → First s 0 140 j
    → (x : ℕ) × (rest : List ℕ) × Serves s j x rest (dispatch s j)
now-Serves s j f =
    let (x, rest, e) = contents_nonempty (s.mlq_ready_queue j) (can_dispatch-size s j f.2) in
    (
      x,
      rest,
      dispatch-Serves s j x rest f.1 e (λ i h. not-can_dispatch s i (f.3 i (omega arith) h)),
    )

later-Serves :
    (s : Sched) (j : ℕ)
    → IsValid s
    → First (new_round s) 0 140 j
    → (x : ℕ) × (rest : List ℕ) × Serves s j x rest (dispatch (new_round s) j)
unfolding new_round
later-Serves s j v f =
    let (x, rest, serves) = now-Serves (new_round s) j f in
    (
      x,
      rest,
      record {
        level = serves.level;
        before = serves.before;
        result = serves.result;
        after = serves.after;
        others = serves.others;
        higher = λ i h. inl (new_round-empty s i v (omega (arith, f.1)) (f.3 i (omega arith) h));
      },
    )

-- In a scheduler within its budgets, a call of `get_mlq_proc` returns the oldest process of some level
-- and takes it off, leaving the other levels alone, where every higher level was empty or had used up
-- its slots; or it returns NULL, and then every level is empty.
pub get_mlq_proc-Serves :
    (s : Sched)
    → IsValid s
    → (((get_mlq_proc s).0 ≡ none) × ((i : ℕ) → i < 140 → contents (s.mlq_ready_queue i) ≡ []))
      ⊎ ((j : ℕ) × (x : ℕ) × (rest : List ℕ) × Serves s j x rest (get_mlq_proc s))
get_mlq_proc-Serves s v = go (get_mlq_proc-Got s)
  where
    go :
        {r : Option ℕ × Sched}
        → Got s r
        → ((r.0 ≡ none) × ((i : ℕ) → i < 140 → contents (s.mlq_ready_queue i) ≡ []))
          ⊎ ((j : ℕ) × (x : ℕ) × (rest : List ℕ) × Serves s j x rest r)
    go (now j f) = let (x, rest, w) = now-Serves s j f in inr (j, x, rest, w)
    go (later j idle f) = let (x, rest, w) = later-Serves s j v f in inr (j, x, rest, w)
    go (never idle idle') = inl (
      refl,
      λ i h.
          size-zero_contents (s.mlq_ready_queue i)
            (new_round-empty s i v h (idle' i (omega arith) h)),
    )

-- A waiting process is never overlooked: in a scheduler within its budgets, `get_mlq_proc` returns NULL
-- exactly when every level is empty.
pub get_mlq_proc-none :
    (s : Sched)
    → IsValid s
    → ((get_mlq_proc s).0 ≡ none) ↔ ((i : ℕ) → i < 140 → contents (s.mlq_ready_queue i) ≡ [])
get_mlq_proc-none s v = elim (get_mlq_proc-Serves s v) [
  | inl (none_got, all) ↦ ((λ _. all), (λ _. none_got))
  | inr (j, x, rest, serves) ↦ (
    (λ e. absurd (cc (serves.result, e))),
    (λ all. absurd (cc (serves.before, all j serves.level))),
  )
]
