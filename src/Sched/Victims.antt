-- ===== src/Sched/Victims.antt =====
-- src/sched.c, `kill_proc_by_name`: the processes that it takes out.
use ossim_os.Base.{ℕ, zero, suc, ◌+◌, ◌≡◌, refl, inl, inr, true, false, List, [], arith}
use ossim_os.Base.Tests.{Bool-cases, ltb, ◌==◌}
use ossim_os.Base.Lists.{contains}
use ossim_os.Sched.{
  Sched, Killing, is_target, leave_ready, mark_killed, kill_one, kill_from, kill_proc_by_name,
}

-- None of the processes taken out so far is the caller.
abbrev Spared : ℕ → Killing → Type 0
Spared caller k = contains k.victims caller ≡ false

is_target-ne :
    (name : List ℕ) (caller : ℕ) (s : Sched) (p : ℕ)
    → is_target name caller s p ≡ true
    → (p == caller) ≡ false
unfolding is_target
is_target-ne name caller s p e = ground (arith, e)

kill_one-Spared :
    (caller : ℕ) (k : Killing) (p : ℕ)
    → (p == caller) ≡ false
    → Spared caller k
    → Spared caller (kill_one k p).1
unfolding kill_one
kill_one-Spared caller k p ne h = elim (Bool-cases (leave_ready (mark_killed k.sched p) p).0) [
  | inl e ↦ rw (e, kill_one) (rw (ne, h) refl)
  | inr e ↦ rw (e, kill_one) h
]

kill_from-Spared :
    (fuel : ℕ) (name : List ℕ) (caller i : ℕ) (k : Killing)
    → Spared caller k
    → Spared caller (kill_from fuel name caller i k)
unfolding kill_from
kill_from-Spared zero name caller i k h = h
kill_from-Spared (suc fuel) name caller i k h =
    elim (Bool-cases (ltb i k.sched.running_list.size)) [
      | inr e ↦ rw (e, kill_from) h
      | inl e ↦ elim (Bool-cases (is_target name caller k.sched (k.sched.running_list.proc i))) [
        | inr f ↦ rw (e, f, kill_from) (kill_from-Spared fuel name caller (i + 1) k h)
        | inl f ↦
            let p = k.sched.running_list.proc i in
            rw (e, f, kill_from)
              (kill_from-Spared fuel name caller _ (kill_one k p).1
                (kill_one-Spared caller k p (is_target-ne name caller k.sched p f) h))
      ]
    ]

pub kill_proc_by_name-Spared :
    (s : Sched) (name : List ℕ) (caller : ℕ)
    → contains (kill_proc_by_name s name caller).victims caller ≡ false
unfolding kill_proc_by_name
kill_proc_by_name-Spared s name caller =
    kill_from-Spared s.running_list.size name caller 0
      (record { sched = s; count = 0; victims = [] }) refl
