-- ===== src/Timer/Turn.antt =====
-- src/timer.c, `timer_routine`: one turn of its loop, once every device is ready.
use native.Mathlib.Decide.{ℕ_discrete}
use ossim_os.Base.{
  ℕ, zero, suc, ◌+◌, ◌*◌, ◌%◌, ◌^◌, ◌<◌, ◌≡◌, ◌⊎◌, refl, ap, ◌∙◌, inl, inr, true, false, ◌||◌,
  Option, none, some, List, [], ◌∷◌, arith,
}
use mathlib.Core.Bool.{not}
use ossim_os.Base.Tests.{◌==◌, if◌then◌else◌, Bool-cases, Option-cases}
use ossim_os.Base.Lists.{count, update, length}
use ossim_os.Timer.{
  Timer, TimerId, Phase, testing, collecting, releasing, exited, timer_step, may_leave, with_phase,
}
use ossim_os.Timer.Progress.{collect_ready}

-- Steps of the thread of the timer, with no other thread between them.
unfoldable pub timer_run : ℕ → Timer → Option Timer
timer_run zero t = some t
timer_run (suc n) t = elim (timer_step t) [ none ↦ none | some u ↦ timer_run n u ]

timer_run_add :
    (m n : ℕ) (t u : Timer) → timer_run m t ≡ some u → timer_run (m + n) t ≡ timer_run n u
unfolding timer_run
timer_run_add zero n t u e =
    let same : t ≡ u = cc e in let z : 0 + n ≡ n = omega arith in rw z (ap (timer_run n) same)
timer_run_add (suc m) n t u e =
    let z : suc m + n ≡ suc (m + n) = omega arith in
    elim (Option-cases (timer_step t)) [
      | inl f ↦ absurd (cc (rw (f, timer_run) at e))
      | inr (v, f) ↦ rw (z, f, timer_run) (timer_run_add m n v u (rw (f, timer_run) at e))
    ]

-- The devices after the second loop.
abbrev pub let_go : List ℕ → (ℕ → TimerId) → ℕ → TimerId
let_go [] device = device
let_go (d ∷ rest) device = let_go rest (update device d (record (device d) { done = false }))

let_go_done :
    (l : List ℕ) (device : ℕ → TimerId) (d : ℕ)
    → (device d).done ≡ false
    → (let_go l device d).done ≡ false
let_go_done [] device d e = e
let_go_done (c ∷ rest) device d e = let_go_done rest _ d (ground (arith, e))

let_go-mem :
    (l : List ℕ) (device : ℕ → TimerId) (d : ℕ) → 0 < count d l → (let_go l device d).done ≡ false
let_go-mem [] device d h = absurd (omega (arith, h))
let_go-mem (c ∷ rest) device d h = elim (ℕ_discrete c d) [
  | yes e ↦ let_go_done rest _ d (ground (arith, e))
  | no ne ↦ let_go-mem rest _ d (ground (arith, ne, h))
]

let_go_fsh : (l : List ℕ) (device : ℕ → TimerId) (d : ℕ) → (let_go l device d).fsh ≡ (device d).fsh
let_go_fsh [] device d = refl
let_go_fsh (c ∷ rest) device d =
    let_go_fsh rest _ d
    ∙ elim (ℕ_discrete c d) [ yes e ↦ ground (arith, e) | no ne ↦ ground (arith, ne) ]

collect_run :
    (l : List ℕ) (t : Timer) (fsh event : ℕ)
    → ((d : ℕ) → 0 < count d l → ((t.device d).done || (t.device d).fsh) ≡ true)
    → (f : ℕ) × (e : ℕ) × (timer_run (length l) (with_phase t (collecting l fsh event))
        ≡ some (with_phase t (collecting [] f e)))
unfolding timer_run
collect_run [] t fsh event ready = (fsh, event, refl)
collect_run (d ∷ rest) t fsh event ready =
    let (f, e, r) =
      collect_run rest t (if (t.device d).fsh then fsh + 1 else fsh) (event + 1)
        (λ q h. ready q (omega (arith, h))) in
    let now = collect_ready t d rest fsh event (ground (arith, ready d (ground arith))) in
    (f, e, rw (now, timer_run) r)

release_run :
    (l : List ℕ) (t : Timer) (fsh event : ℕ)
    → timer_run (length l) (with_phase t (releasing l fsh event))
      ≡ some (record t { device = let_go l t.device; phase = releasing [] fsh event })
unfolding timer_run timer_step
release_run [] t fsh event = refl
release_run (d ∷ rest) t fsh event =
    release_run rest
      (record t { device = update t.device d (record (t.device d) { done = false }) }) fsh event

-- Once the thread of the timer is at the test of its loop, was not asked to stop, and every attached device
-- has done its job or detached, it takes exactly 2 n + 3 steps of its own, for n devices, to the end of
-- the turn, with no other thread between: the time is one slot later, every attached device may leave
-- `next_slot`, and none has come back that had detached.
pub timer_run_lem :
    (t : Timer)
    → t.phase ≡ testing
    → t.timer_stop ≡ false
    → ((d : ℕ) → 0 < count d t.dev_list → ((t.device d).done || (t.device d).fsh) ≡ true)
    → (u : Timer) × (timer_run (2 * length t.dev_list + 3) t ≡ some u)
      × (u.time ≡ (t.time + 1) % 2 ^ 64)
      × ((u.phase ≡ testing) ⊎ (u.phase ≡ exited))
      × ((d : ℕ) → 0 < count d t.dev_list → may_leave d u ≡ true)
      × ((d : ℕ) → (u.device d).fsh ≡ (t.device d).fsh)
unfolding may_leave timer_run timer_step
timer_run_lem t p halted ready =
    let l = t.dev_list in
    let (f, e, first) = collect_run l t 0 0 ready in
    let u : Timer = record t { time = (t.time + 1) % 2 ^ 64 } in
    let v : Timer = record u { device = let_go l t.device } in
    let end : Phase = if f == e then exited else testing in
    let count_steps : 2 * length l + 3 ≡ 1 + (length l + (1 + (length l + 1))) = omega arith in
    let path : timer_run (1 + (length l + (1 + (length l + 1)))) t ≡ some (with_phase v end) =
      timer_run_add 1 _ t (with_phase t (collecting l 0 0)) (start t p halted)
      ∙ timer_run_add (length l) _ _ (with_phase t (collecting [] f e)) first
      ∙ timer_run_add 1 _ _ (with_phase u (releasing l f e)) (middle t f e)
      ∙ timer_run_add (length l) 1 _ (with_phase v (releasing [] f e)) (release_run l u f e)
      ∙ finish v f e in
    (
      with_phase v end,
      ap (λ n. timer_run n t) count_steps ∙ path,
      refl,
      elim (Bool-cases (f == e)) [ inl z ↦ inr (rw z refl) | inr z ↦ inl (rw z refl) ],
      λ d h. ap not (let_go-mem l t.device d h),
      λ d. let_go_fsh l t.device d,
    )
  where
    start :
        (t : Timer)
        → t.phase ≡ testing
        → t.timer_stop ≡ false
        → timer_run 1 t ≡ some (with_phase t (collecting t.dev_list 0 0))
    start t p halted = rw (p, halted) refl

    middle :
        (t : Timer) (f e : ℕ)
        → timer_run 1 (with_phase t (collecting [] f e))
          ≡ some (with_phase (record t { time = (t.time + 1) % 2 ^ 64 }) (releasing t.dev_list f e))
    middle t f e = refl

    finish :
        (v : Timer) (f e : ℕ)
        → timer_run 1 (with_phase v (releasing [] f e))
          ≡ some (with_phase v (if f == e then exited else testing))
    finish v f e = refl
