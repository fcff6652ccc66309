-- ===== src/Sched/Reaped.antt =====
-- src/sched.c, `kill_proc_by_name`: no queue refers to the processes that it hands over for release.
use native.Mathlib.Decide.{ℕ_discrete}
use ossim_os.Base.{
  ℕ, zero, suc, ◌+◌, ◌≤◌, ◌≡◌, refl, sym, ap, ◌∙◌, inl, inr, true, List, [], ◌∷◌, arith,
}
use ossim_os.Base.Tests.{◌==◌, ltb, if◌then◌else◌, Bool-cases}
use ossim_os.Base.Lists.{contains, count, erase}
use ossim_os.Queue.Slice.{contents}
use ossim_os.Queue.Fifo.{contents-remove_from_queue}
use ossim_os.Queue.{Queue, remove_from_queue}
use ossim_os.Sched.{
  Sched, Killing, is_target, leave_ready, mark_killed, kill_one, kill_from, kill_proc_by_name,
}
use ossim_os.Sched.Turn.{leave_ready_running}
use ossim_os.Sched.Places.{stands_in, queued, queued-level, stands_in-remove_from_queue}

-- `leave_ready` takes the process out once, if it says so, and no other.
pub queued-leave_ready :
    (s : Sched) (x p : ℕ)
    → queued s p
      ≡ queued (leave_ready s x).1 p
        + (if (leave_ready s x).0 then (if x == p then 1 else 0) else 0)
unfolding leave_ready
queued-leave_ready s x p =
    let ready = stands_in-remove_from_queue s.ready_queue x p in
    let runs = stands_in-remove_from_queue s.run_queue x p in
    let level = stands_in-remove_from_queue (s.mlq_ready_queue (s.table x).prio) x p in
    elim (Bool-cases (remove_from_queue s.ready_queue x).0) [
      | inl e ↦ rw (e, leave_ready) (ground (arith, ready, e))
      | inr e ↦ elim (Bool-cases (remove_from_queue s.run_queue x).0) [
        | inl f ↦ rw (e, f, leave_ready) (ground (arith, ready, runs, e, f))
        | inr f ↦ elim (Bool-cases (ltb (s.table x).prio 140)) [
          | inl g ↦
              let z =
                queued-level s (s.table x).prio
                  (remove_from_queue (s.mlq_ready_queue (s.table x).prio) x).1 p
                  (ground (arith, g)) in
              rw (e, f, g, leave_ready) (ground (arith, ready, runs, level, z, e, f))
          | inr g ↦ rw (e, f, g, leave_ready) (ground (arith, ready, runs, e, f))
        ]
      ]
    ]

-- No process waits twice, or is on the list of those that run twice.
pub record Once (s : Sched) : Type 0 where
  pub waits : (p : ℕ) → queued s p ≤ 1
  pub listed : (p : ℕ) → stands_in s.running_list p ≤ 1

-- What the loop has done by state `k`, from state `s`.
pub record Reaped (s : Sched) (k : Killing) : Type 0 where
  pub fewer : (p : ℕ) → queued k.sched p ≤ queued s p
  pub listed : (p : ℕ) → stands_in k.sched.running_list p ≤ stands_in s.running_list p
  pub out :
      (p : ℕ)
      → contains k.victims p ≡ true
      → (queued k.sched p ≡ 0) × (stands_in k.sched.running_list p ≡ 0) × (queued s p ≡ 1)

pub queued-mark_killed : (s : Sched) (x p : ℕ) → queued (mark_killed s x) p ≡ queued s p
unfolding mark_killed
queued-mark_killed s x p = refl

running-mark_killed : (s : Sched) (x : ℕ) → (mark_killed s x).running_list ≡ s.running_list
unfolding mark_killed
running-mark_killed s x = refl

erase_once : (l : List ℕ) (x : ℕ) → count x l ≤ 1 → count x (erase l x) ≡ 0
erase_once [] x h = refl
erase_once (y ∷ l) x h = elim (ℕ_discrete y x) [
  | yes e ↦ ground (arith, e, h)
  | no ne ↦ ground (arith, ne, h, erase_once l x (ground (arith, ne, h)))
]

-- The list of those that run, without a process that stood on it at most once.
pub remove_once :
    (q : Queue) (x : ℕ) → stands_in q x ≤ 1 → stands_in (remove_from_queue q x).1 x ≡ 0
remove_once q x h = ap (count x) (contents-remove_from_queue q x).1 ∙ erase_once (contents q) x h

kill_one-Reaped :
    (s : Sched) (k : Killing) (x : ℕ) → Once s → Reaped s k → Reaped s (kill_one k x).1
unfolding kill_one
kill_one-Reaped s k x o r =
    let m = mark_killed k.sched x in
    let l : (p : ℕ)
        → queued k.sched p
          ≡ queued (leave_ready m x).1 p
            + (if (leave_ready m x).0 then (if x == p then 1 else 0) else 0) =
      λ p. sym (queued-mark_killed k.sched x p) ∙ queued-leave_ready m x p in
    let same : (leave_ready m x).1.running_list ≡ k.sched.running_list =
      leave_ready_running m x ∙ running-mark_killed k.sched x in
    elim (Bool-cases (leave_ready m x).0) [
      | inl e ↦
          let shorter : (p : ℕ)
              → stands_in (remove_from_queue (leave_ready m x).1.running_list x).1 p
                ≤ stands_in k.sched.running_list p =
            λ p. omega (
              arith,
              ap (λ q. stands_in q p) same,
              stands_in-remove_from_queue (leave_ready m x).1.running_list x p,
            ) in
          rw (e, kill_one)
            (record {
              fewer = λ p. omega (arith, l p, r.fewer p);
              listed = λ p. omega (arith, shorter p, r.listed p);
              out = λ p h. elim (ℕ_discrete x p) [
                | yes z ↦
                    let here = l p in
                    let fewer = r.fewer p in
                    let once = o.waits p in
                    let left_list : stands_in
                          (remove_from_queue (leave_ready m x).1.running_list x).1 x
                        ≡ 0 =
                      remove_once (leave_ready m x).1.running_list x
                        (omega (arith, ap (λ q. stands_in q x) same, r.listed x, o.listed x)) in
                    (
                      ground (arith, here, fewer, once, e, z),
                      ap (stands_in (remove_from_queue (leave_ready m x).1.running_list x).1)
                            (sym z)
                          ∙ left_list,
                      ground (arith, here, fewer, once, e, z),
                    )
                | no ne ↦
                    let (a, b, d) = r.out p (ground (arith, h, ne)) in
                    (omega (arith, a, l p), omega (arith, b, shorter p), d)
              ];
            })
      | inr e ↦
          rw (e, kill_one)
            (record {
              fewer = λ p. omega (arith, l p, r.fewer p);
              listed = λ p. omega (arith, ap (λ q. stands_in q p) same, r.listed p);
              out = λ p h.
                  let (a, b, d) = r.out p h in
                  (omega (arith, a, l p), omega (arith, b, ap (λ q. stands_in q p) same), d);
            })
    ]

kill_from-Reaped :
    (fuel : ℕ) (name : List ℕ) (caller i : ℕ) (s : Sched) (k : Killing)
    → Once s
    → Reaped s k
    → Reaped s (kill_from fuel name caller i k)
unfolding kill_from
kill_from-Reaped zero name caller i s k o r = r
kill_from-Reaped (suc fuel) name caller i s k o r =
    elim (Bool-cases (ltb i k.sched.running_list.size)) [
      | inr e ↦ rw (e, kill_from) r
      | inl e ↦ elim (Bool-cases (is_target name caller k.sched (k.sched.running_list.proc i))) [
        | inr f ↦ rw (e, f, kill_from) (kill_from-Reaped fuel name caller (i + 1) s k o r)
        | inl f ↦
            let p = k.sched.running_list.proc i in
            rw (e, f, kill_from)
              (kill_from-Reaped fuel name caller _ s (kill_one k p).1 o (kill_one-Reaped s k p o r))
      ]
    ]

-- Where no process waits twice or is twice on the list of those that run, each process that
-- `kill_proc_by_name` hands over for release waited in a ready queue before, and stands in no ready queue
-- and not on that list afterwards; and the call puts no process into any of them.
pub kill_proc_by_name-Reaped :
    (s : Sched) (name : List ℕ) (caller : ℕ) → Once s → Reaped s (kill_proc_by_name s name caller)
unfolding kill_proc_by_name
kill_proc_by_name-Reaped s name caller o =
    kill_from-Reaped s.running_list.size name caller 0 s
      (record { sched = s; count = 0; victims = [] }) o
      (record { fewer = λ p. omega arith; listed = λ p. omega arith; out = λ p h. absurd (cc h) })
