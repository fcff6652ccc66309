-- ===== src/Timer/Reached.antt =====
-- src/timer.c: what holds in every state that the timer and its devices can reach.
use native.Mathlib.Decide.{ℕ_discrete, dec_lt}
use ossim_os.Base.{
  ℕ, zero, suc, ◌+◌, ◌≤◌, ◌<◌, ◌≡◌, ◌≢◌, refl, sym, subst, inl, Bool, true, false, List, arith,
}
use ossim_os.Base.Lists.{update_same, count, length}
use ossim_os.Timer.{
  Timer, TimerId, Phase, idle, testing, collecting, releasing, exited, arrive, may_leave,
  detach_event, stop_timer, attach_event, start_timer, no_timer,
}
use ossim_os.Timer.World.{
  World, Thread, working, waiting, gone, Attached, arriving, leaving, detaching, Steps, tick, come,
  go, detach, stop, attach_all, begin, Reach, start, step,
}
use ossim_os.Timer.Barrier.{pending, unseen, InStep, Counts, Barrier}
use ossim_os.Timer.Kept.{Counts-mono, tick-Inv}

-- A change of one device.
change-Inv :
    (w v : World) (d : ℕ)
    → Barrier w
    → v.timer.dev_list ≡ w.timer.dev_list
    → v.timer.phase ≡ w.timer.phase
    → v.timer.timer_stop ≡ w.timer.timer_stop
    → v.ticks ≡ w.ticks
    → ((q : ℕ)
        → q ≢ d
        → (v.timer.device q ≡ w.timer.device q)
          × (v.thread q ≡ w.thread q)
          × (v.arrived q ≡ w.arrived q))
    → ((q : ℕ) → (w.timer.device q).fsh ≡ true → (v.timer.device q).fsh ≡ true)
    → InStep
        (v.thread d)
        (v.timer.device d)
        (v.arrived d)
        w.ticks
        (pending w.timer.phase d)
        (unseen w.timer.phase d)
    → Barrier v
change-Inv w v d b el ep es en rest mono here =
    rw (el, ep, es, en)
      (record {
        distinct = b.distinct;
        sub = b.sub;
        each = λ q h. elim (ℕ_discrete q d) [
          | yes z ↦
              subst
                (λ k.
                  InStep (v.thread k) (v.timer.device k) (v.arrived k) w.ticks
                    (pending w.timer.phase k) (unseen w.timer.phase k))
                (sym z) here
          | no ne ↦ let (a, t, r) = rest q ne in rw (a, t, r) (b.each q h)
        ];
        counts =
            Counts-mono w.timer.phase w.timer.dev_list w.timer.device v.timer.device
              w.timer.timer_stop mono b.counts;
      })

-- What the invariant says of a device whose thread is known.
pub at_thread :
    (w : World) (d : ℕ) (th : Thread)
    → Barrier w
    → Attached w d
    → w.thread d ≡ th
    → InStep th
        (w.timer.device d)
        (w.arrived d)
        w.ticks
        (pending w.timer.phase d)
        (unseen w.timer.phase d)
at_thread w d th b h e =
    subst
      (λ k.
        InStep k (w.timer.device d) (w.arrived d) w.ticks (pending w.timer.phase d)
          (unseen w.timer.phase d))
      e (b.each d h)

come-Barrier :
    (w : World) (d : ℕ) → Attached w d → w.thread d ≡ working → Barrier w → Barrier (arriving w d)
unfolding arrive
come-Barrier w d h e b =
    let (done, fsh, a, pend, new) = at_thread w d working b h e in
    change-Inv w (arriving w d) d b refl refl refl refl
      (λ q ne. (ground (arith, ne), ground (arith, ne), ground (arith, ne)))
      (λ q f. ground (arith, f))
      (rw
        (
          update_same w.thread d waiting,
          update_same w.timer.device d (record (w.timer.device d) { done = true }),
          update_same w.arrived d (w.arrived d + 1),
        )
        (fsh, ground (arith, a, pend), λ z. refl, λ z. refl))

go-Barrier :
    (w : World) (d : ℕ)
    → Attached w d
    → w.thread d ≡ waiting
    → may_leave d w.timer ≡ true
    → Barrier w
    → Barrier (leaving w d)
unfolding may_leave
go-Barrier w d h e may b =
    let (fsh, a, held, seen) = at_thread w d waiting b h e in
    let free : (w.timer.device d).done ≡ false = ground (arith, may) in
    let let_go : pending w.timer.phase d ≡ 0 = elim (dec_lt 0 (pending w.timer.phase d)) [
      | yes k ↦ absurd (cc (held k, free))
      | no k ↦ omega arith
    ] in
    change-Inv w (leaving w d) d b refl refl refl refl (λ q ne. (refl, ground (arith, ne), refl))
      (λ q f. f)
      (rw (update_same w.thread d working) (
        free,
        fsh,
        ground (arith, a, free, let_go),
        let_go,
        elim (dec_lt 0 (unseen w.timer.phase d)) [
          | yes k ↦ k
          | no k ↦ absurd (cc (seen (omega arith), free))
        ],
      ))

detach-Barrier :
    (w : World) (d : ℕ) → Attached w d → w.thread d ≡ working → Barrier w → Barrier (detaching w d)
unfolding detach_event
detach-Barrier w d h e b =
    change-Inv w (detaching w d) d b refl refl refl refl
      (λ q ne. (ground (arith, ne), ground (arith, ne), refl)) (λ q f. ground (arith, f))
      (rw
        (
          update_same w.thread d gone,
          update_same w.timer.device d (record (w.timer.device d) { fsh = true }),
        )
        refl)

-- The request to stop changes nothing that the barrier rests on.
Counts-stop :
    (phase : Phase) (l : List ℕ) (device : ℕ → TimerId) (halted : Bool)
    → Counts phase l device halted
    → Counts phase l device true
Counts-stop idle l device halted c = c
Counts-stop testing l device halted c = c
Counts-stop (collecting rest fsh event) l device halted c = c
Counts-stop (releasing rest fsh event) l device halted c = c
Counts-stop exited l device halted c = inl refl

pub step-Barrier : {w v : World} → Steps w v → Barrier w → Barrier v
unfolding stop_timer
step-Barrier (tick w t e) b =
    tick-Inv w.timer.dev_list w.timer.device w.thread w.arrived w.ticks w.timer.timer_stop
      w.timer.time w.timer.timer_started w.timer.phase t b e
step-Barrier (come w d h e) b = come-Barrier w d h e b
step-Barrier (go w d h e may) b = go-Barrier w d h e may b
step-Barrier (detach w d h e) b = detach-Barrier w d h e b
step-Barrier (stop w) b = record {
  distinct = b.distinct;
  sub = b.sub;
  each = b.each;
  counts = Counts-stop w.timer.phase w.timer.dev_list w.timer.device w.timer.timer_stop b.counts;
}

-- The devices of a timer that has not started.
record Attaching (t : Timer) : Type 0 where
  pub unstarted : t.timer_started ≡ false
  pub new : (d : ℕ) → length t.dev_list ≤ d → count d t.dev_list ≡ 0
  pub once : (d : ℕ) → count d t.dev_list ≤ 1
  pub fresh :
      (d : ℕ) → 0 < count d t.dev_list → ((t.device d).done ≡ false) × ((t.device d).fsh ≡ false)

attach-Attaching : (t : Timer) → Attaching t → Attaching (attach_event t).1
unfolding attach_event
attach-Attaching t a = rw a.unstarted (record {
  unstarted = refl;
  new = λ d h. ground (arith, a.new d (omega (arith, h)));
  once = λ d. elim (ℕ_discrete (length t.dev_list) d) [
    | yes e ↦ ground (arith, e, a.new d (omega (arith, e)))
    | no ne ↦ ground (arith, ne, a.once d)
  ];
  fresh = λ d h. elim (ℕ_discrete (length t.dev_list) d) [
    | yes e ↦ (ground (arith, e), ground (arith, e))
    | no ne ↦
        let (x, y) = a.fresh d (ground (arith, ne, h)) in
        (ground (arith, x, ne), ground (arith, y, ne))
  ];
})

attach_all-Attaching : (n : ℕ) (t : Timer) → Attaching t → Attaching (attach_all n t)
unfolding attach_all
attach_all-Attaching zero t a = a
attach_all-Attaching (suc n) t a = attach_all-Attaching n (attach_event t).1 (attach-Attaching t a)

begin-Barrier : (n : ℕ) → Barrier (begin n)
unfolding start_timer
begin-Barrier n =
    let a = attach_all-Attaching n no_timer (record {
      unstarted = refl;
      new = λ d h. refl;
      once = λ d. omega arith;
      fresh = λ d h. (refl, refl);
    }) in
    record {
      distinct = a.once;
      sub = λ d. omega arith;
      each = λ d h. let (x, y) = a.fresh d h in (x, y, refl, refl, omega arith);
      counts = tt;
    }

pub Reach-Barrier : {n : ℕ} {w : World} → Reach n w → Barrier w
Reach-Barrier {n} start = begin-Barrier n
Reach-Barrier (step r s) = step-Barrier s (Reach-Barrier r)
