-- ===== src/Sched/Mlq.antt =====
-- src/sched.c, `get_mlq_proc`: which level a call serves.
use native.Mathlib.Decide.{dec_lt}
use ossim_os.Base.{
  ℕ, zero, suc, ◌+◌, ◌≤◌, ◌<◌, ◌≡◌, refl, ap, ◌∙◌, ◌⊎◌, inl, inr, true, false, Option, none, some,
  arith,
}
use ossim_os.Base.Tests.{Bool-cases}
use ossim_os.Base.Lists.{update}
use ossim_os.Queue.{empty, dequeue}
use ossim_os.Sched.{
  Sched, can_dispatch, dispatch, pass, reset_used, new_round, rounds, get_mlq_proc,
}

-- No level from `i` up to `n` may dispatch.
abbrev pub Idle : Sched → ℕ → ℕ → Type 0
Idle s i n = (j : ℕ) → i ≤ j → j < n → can_dispatch s j ≡ false

-- Level `j` is the first from `i` up to `n` that may dispatch.
abbrev pub First : Sched → ℕ → ℕ → ℕ → Type 0
First s i n j = (i ≤ j) × (j < n) × (can_dispatch s j ≡ true) × Idle s i j

pub data Passed (s : Sched) (i n : ℕ) : Option ℕ × Sched → Type 0 where
  served : (j : ℕ) → First s i n j → Passed s i n (dispatch s j)
  skipped : Idle s i n → Passed s i n (none, s)

Passed-below :
    (s : Sched) (i n : ℕ) {r : Option ℕ × Sched}
    → can_dispatch s i ≡ false
    → Passed s (i + 1) n r
    → Passed s i n r
Passed-below s i n e (served j f) = served j (omega arith, f.1, f.2, λ k lo hi. below k lo hi)
  where
    below : Idle s i j
    below k lo hi = elim (dec_lt i k) [
      | yes h ↦ f.3 k (omega arith) hi
      | no h ↦ let q : k ≡ i = omega arith in ap (can_dispatch s) q ∙ e
    ]
Passed-below s i n e (skipped f) = skipped (λ k lo hi. below k lo hi)
  where
    below : Idle s i n
    below k lo hi = elim (dec_lt i k) [
      | yes h ↦ f k (omega arith) hi
      | no h ↦ let q : k ≡ i = omega arith in ap (can_dispatch s) q ∙ e
    ]

pub pass-Passed : (left i : ℕ) (s : Sched) → Passed s i (i + left) (pass left i s)
unfolding pass
pass-Passed zero i s = skipped (λ k lo hi. absurd (omega arith))
pass-Passed (suc left) i s = elim (Bool-cases (can_dispatch s i)) [
  | inl e ↦ rw (e, pass) (served i (omega arith, omega arith, e, λ k lo hi. absurd (omega arith)))
  | inr e ↦
      let q : i + suc left ≡ i + 1 + left = omega arith in
      rw (e, pass, q) (Passed-below s i (i + 1 + left) e (pass-Passed left (i + 1) s))
]

-- A level that may dispatch hands out its oldest process.
pub dispatch-some :
    (s : Sched) (j : ℕ)
    → can_dispatch s j ≡ true
    → (dispatch s j).0 ≡ some ((s.mlq_ready_queue j).proc 0)
unfolding can_dispatch dispatch empty dequeue
dispatch-some s j h = ground arith

pub data Got (s : Sched) : Option ℕ × Sched → Type 0 where
  now : (j : ℕ) → First s 0 140 j → Got s (dispatch s j)
  later : (j : ℕ) → Idle s 0 140 → First (new_round s) 0 140 j → Got s (dispatch (new_round s) j)
  never : Idle s 0 140 → Idle (new_round s) 0 140 → Got s (none, new_round (new_round s))

-- A case analysis of `rounds` by what the pass finds.
rounds_served :
    (left : ℕ) (s : Sched) (j : ℕ)
    → pass 140 0 s ≡ dispatch s j
    → can_dispatch s j ≡ true
    → rounds (suc left) s ≡ dispatch s j
unfolding rounds
rounds_served left s j e h = rw (e, rounds) (ground (arith, dispatch-some s j h))

rounds_skipped :
    (left : ℕ) (s : Sched)
    → pass 140 0 s ≡ (none, s)
    → rounds (suc left) s ≡ rounds left (new_round s)
unfolding rounds
rounds_skipped left s e =
    rw (e, rounds) (ap (λ (r : Option ℕ × Sched). rounds left (new_round r.1)) e)

-- The same facts about `pass` as equations.
pass_cases :
    (s : Sched)
    → ((j : ℕ) × First s 0 140 j × (pass 140 0 s ≡ dispatch s j))
      ⊎ (Idle s 0 140 × (pass 140 0 s ≡ (none, s)))
pass_cases s = go (pass-Passed 140 0 s) refl
  where
    go :
        {r : Option ℕ × Sched}
        → Passed s 0 140 r
        → pass 140 0 s ≡ r
        → ((j : ℕ) × First s 0 140 j × (pass 140 0 s ≡ dispatch s j))
          ⊎ (Idle s 0 140 × (pass 140 0 s ≡ (none, s)))
    go (served j f) e = inl (j, f, e)
    go (skipped f) e = inr (f, e)

-- Which level `get_mlq_proc` serves: the first that has slots left; after a new round, the first
-- that is not empty.
pub get_mlq_proc-Got : (s : Sched) → Got s (get_mlq_proc s)
unfolding get_mlq_proc
get_mlq_proc-Got s = elim (pass_cases s) [
  | inl (j, f, e) ↦ rw (rounds_served 1 s j e f.2) (now j f)
  | inr (idle, e) ↦ elim (pass_cases (new_round s)) [
    | inl (j, f, e') ↦
        rw (rounds_skipped 1 s e, rounds_served 0 (new_round s) j e' f.2) (later j idle f)
    | inr (idle', e') ↦
        rw (rounds_skipped 1 s e, rounds_skipped 0 (new_round s) e')
          (unfold rounds in never idle idle')
  ]
]

pub reset_used_below :
    (left i : ℕ) (used : ℕ → ℕ) (j : ℕ) → j < i → reset_used left i used j ≡ used j
unfolding reset_used
reset_used_below zero i used j h = refl
reset_used_below (suc left) i used j h =
    ground (arith, reset_used_below left (i + 1) (update used i 0) j)

pub reset_used_within :
    (left i : ℕ) (used : ℕ → ℕ) (j : ℕ) → i ≤ j → j < i + left → reset_used left i used j ≡ 0
unfolding reset_used
reset_used_within zero i used j lo hi = absurd (omega arith)
reset_used_within (suc left) i used j lo hi = elim (dec_lt i j) [
  | yes h ↦ reset_used_within left (i + 1) (update used i 0) j (omega arith) (omega arith)
  | no h ↦
      let e : i ≡ j = omega arith in
      reset_used_below left (i + 1) (update used i 0) j (omega arith) ∙ ground arith
]

pub slot_used-new_round : (s : Sched) (j : ℕ) → j < 140 → (new_round s).slot_used j ≡ 0
unfolding new_round
slot_used-new_round s j h = reset_used_within 140 0 s.slot_used j (omega arith) (omega arith)
