-- ===== src/Sched/Starvation.antt =====
-- src/sched.c: how long the head of a level waits for its turn, whatever arrives meanwhile.
use native.Mathlib.Decide.{dec_lt, ℕ_discrete}
use ossim_os.Base.{
  ℕ, ◌+◌, ◌-◌, ◌≤◌, ◌<◌, ◌≡◌, ◌≢◌, sym, ap, ◌∙◌, ◌⊎◌, inl, inr, true, Option, some, List, ◌∷◌,
  arith,
}
use ossim_os.Base.Tests.{Bool-cases, ltb, if◌then◌else◌}
use ossim_os.Base.Sums.{total, total_mono, total_drop}
use ossim_os.Queue.{Queue}
use ossim_os.Queue.Slice.{contents}
use ossim_os.Sched.{Sched, can_dispatch, dispatch, new_round, get_mlq_proc}
use ossim_os.Sched.Mlq.{Idle, First, Got, now, later, never, get_mlq_proc-Got, slot_used-new_round}
use ossim_os.Sched.Invariant.{IsValid, mlq-new_round, new_round-IsValid}
use ossim_os.Sched.Serve.{dispatch-Serves, not-can_dispatch, new_round-empty}

-- The dispatches that level `i` has left in the round.
abbrev pub left_over : Sched → ℕ → ℕ
left_over s i = s.slot i - s.slot_used i

-- A bound on the calls that go to other levels before level `p` is served: those left to the
-- higher levels, or, where `p` has used up its slots, the rest of the round and the next.
unfoldable pub waiting : Sched → ℕ → ℕ
waiting s p =
    if ltb (s.slot_used p) (s.slot p)
    then total (left_over s) p
    else total (left_over s) 140 + total s.slot p + 1

-- What a call does for the process `x` at the head of level `p`: it returns `x`, or leaves it at the
-- head and nearer to its turn.
abbrev pub Progress : Sched → ℕ → ℕ → List ℕ → Option ℕ × Sched → Type 0
Progress s p x rest r =
    (r.0 ≡ some x) ⊎ ((contents (r.1.mlq_ready_queue p) ≡ x ∷ rest) × (waiting r.1 p < waiting s p))

mlq-dispatch_ne :
    (s : Sched) (j p : ℕ) → j ≢ p → (dispatch s j).1.mlq_ready_queue p ≡ s.mlq_ready_queue p
unfolding dispatch
mlq-dispatch_ne s j p ne = ground arith

module _ (s : Sched) (p x : ℕ) (rest : List ℕ) (v : IsValid s) (lt : p < 140)
    (head : contents (s.mlq_ready_queue p) ≡ x ∷ rest) where
  head_ready : s.slot_used p < s.slot p → can_dispatch s p ≡ true
  head_ready l = elim (Bool-cases (can_dispatch s p)) [
    | inl e ↦ e
    | inr e ↦ elim (not-can_dispatch s p e) [
      | inl z ↦ absurd (cc (sym head, z))
      | inr k ↦ absurd (omega arith)
    ]
  ]

  dispatch_left :
      (j n : ℕ)
      → can_dispatch s j ≡ true
      → j < n
      → total (left_over (dispatch s j).1) n < total (left_over s) n
  unfolding dispatch can_dispatch
  dispatch_left j n c l = total_drop _ _ n j l (ground arith) (λ i h. ground arith)

  -- A turn that goes to another level in this round.
  dispatch_nearer : (j : ℕ) → First s 0 140 j → j ≢ p → waiting (dispatch s j).1 p < waiting s p
  unfolding waiting dispatch
  dispatch_nearer j f ne = elim (dec_lt (s.slot_used p) (s.slot p)) [
    | yes l ↦ elim (dec_lt p j) [
      | yes past ↦ absurd (cc (head_ready l, f.3 p (omega arith) past))
      | no h ↦ ground (arith, dispatch_left j p f.2 (omega arith))
    ]
    | no l ↦ ground (arith, dispatch_left j 140 f.2 f.1)
  ]

  -- A level whose head waits and that may not dispatch has used up its slots.
  exhausted : Idle s 0 140 → s.slot p ≤ s.slot_used p
  exhausted idle = elim (dec_lt (s.slot_used p) (s.slot p)) [
    | yes l ↦ absurd (cc (head_ready l, idle p (omega arith) lt))
    | no l ↦ omega arith
  ]

  -- A new round brings the level nearer: the higher levels have their slots before it, no more.
  waiting-new_round : Idle s 0 140 → waiting (new_round s) p < waiting s p
  unfolding waiting new_round
  waiting-new_round idle = ground (
    arith,
    exhausted idle,
    slot_used-new_round s p lt,
    (v p lt).slots,
    total_mono (left_over (new_round s)) s.slot p (λ i h. omega arith),
  )

dispatch-Progress :
    (s : Sched) (p x : ℕ) (rest : List ℕ) (j : ℕ)
    → IsValid s
    → p < 140
    → contents (s.mlq_ready_queue p) ≡ x ∷ rest
    → First s 0 140 j
    → Progress s p x rest (dispatch s j)
dispatch-Progress s p x rest j v lt h f = elim (ℕ_discrete j p) [
  | yes e ↦
      inl
        (dispatch-Serves s j x rest f.1 (ap (λ k. contents (s.mlq_ready_queue k)) e ∙ h)
          (λ i l. not-can_dispatch s i (f.3 i (omega arith) l))).result
  | no ne ↦
      inr (ap contents (mlq-dispatch_ne s j p ne) ∙ h, dispatch_nearer s p x rest v lt h j f ne)
]

-- In a scheduler within its budgets, each call of `get_mlq_proc` returns the head `x` of level `p`, or
-- leaves the level as it is and lowers the bound `waiting` on the calls that go to others first.
pub get_mlq_proc-Progress :
    (s : Sched) (p x : ℕ) (rest : List ℕ)
    → IsValid s
    → p < 140
    → contents (s.mlq_ready_queue p) ≡ x ∷ rest
    → Progress s p x rest (get_mlq_proc s)
get_mlq_proc-Progress s p x rest v lt head = go (get_mlq_proc-Got s)
  where
    go : {r : Option ℕ × Sched} → Got s r → Progress s p x rest r
    go (now j f) = dispatch-Progress s p x rest j v lt head f
    go (later j idle f) =
        elim (dispatch-Progress (new_round s) p x rest j (new_round-IsValid s v) lt
          (ap (λ (q : ℕ → Queue). contents (q p)) (mlq-new_round s) ∙ head) f) [
            | inl e ↦ inl e
            | inr m ↦ inr (m.0, omega (arith, m.1, waiting-new_round s p x rest v lt head idle))
          ]
    go (never idle idle') = absurd (cc (head, new_round-empty s p v lt (idle' p (omega arith) lt)))
