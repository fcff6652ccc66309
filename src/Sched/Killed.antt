-- ===== src/Sched/Killed.antt =====
-- src/sched.c, `kill_proc_by_name`: what it does, told without its own tests.
use native.Mathlib.Decide.{ℕ_discrete}
use ossim_os.Base.{
  ℕ, zero, suc, ◌+◌, ◌≤◌, ◌<◌, ◌≡◌, ◌≢◌, refl, sym, ap, ◌∙◌, ◌⊎◌, inl, inr, true, false, List, [],
  ◌∷◌, arith,
}
use ossim_os.Base.Tests.{◌==◌, ltb, ltb→lt, Bool-cases}
use ossim_os.Base.Lists.{contains, count, update_other}
use ossim_os.Types.{Pcb}
use ossim_os.Queue.Slice.{slice}
use ossim_os.Sched.{
  Sched, Killing, proc_name, same_text, is_target, leave_ready, mark_killed, kill_one, kill_from,
  kill_proc_by_name,
}
use ossim_os.Sched.Turn.{kill_one-Turn, killed_pcb}
use ossim_os.Sched.Kill.{kill_proc_by_name-Marked}
use ossim_os.Sched.Places.{stands_in, queued, stands_in-remove_from_queue}
use ossim_os.Sched.Reaped.{queued-leave_ready, queued-mark_killed}

-- A process other than the caller, with the name.
abbrev pub Target : List ℕ → ℕ → Sched → ℕ → Type 0
Target name caller s q = (q ≢ caller) × (proc_name (s.table q) ≡ name)

same_text-true : (a b : List ℕ) → same_text a b ≡ true → a ≡ b
unfolding same_text
same_text-true [] [] e = refl
same_text-true [] (d ∷ ds) e = absurd (cc e)
same_text-true (c ∷ cs) [] e = absurd (cc e)
same_text-true (c ∷ cs) (d ∷ ds) e =
    let head : c ≡ d = ground (arith, e) in
    let tail : cs ≡ ds = same_text-true cs ds (ground (arith, e)) in cc (head, tail)

same_text_refl : (a : List ℕ) → same_text a a ≡ true
unfolding same_text
same_text_refl [] = refl
same_text_refl (c ∷ cs) = ground (arith, same_text_refl cs)

is_target-Target :
    (name : List ℕ) (caller : ℕ) (s : Sched) (q : ℕ)
    → is_target name caller s q ≡ true
    → Target name caller s q
unfolding is_target
is_target-Target name caller s q e = (
  λ z. absurd (ground (arith, e, z)),
  same_text-true (proc_name (s.table q)) name (ground (arith, e)),
)

Target-is_target :
    (name : List ℕ) (caller : ℕ) (s : Sched) (q : ℕ)
    → Target name caller s q
    → is_target name caller s q ≡ true
unfolding is_target
Target-is_target name caller s q (ne, e) =
    let same : same_text (proc_name (s.table q)) name ≡ true =
      ap (same_text (proc_name (s.table q))) (sym e) ∙ same_text_refl (proc_name (s.table q)) in
    ground (arith, ne, same)

count-slice : (arr : ℕ → ℕ) (i n j : ℕ) → i ≤ j → j < i + n → 0 < count (arr j) (slice arr i n)
count-slice arr i zero j lo hi = absurd (omega (arith, lo, hi))
count-slice arr i (suc n) j lo hi = elim (ℕ_discrete i j) [
  | yes e ↦ ground (arith, ap arr e)
  | no ne ↦ ground (arith, count-slice arr (i + 1) n j (omega (arith, lo, ne)) (omega (arith, hi)))
]

-- What the loop has left alone by state `k`, from state `s`: the processes that are not on the list of
-- those that run, and the places of those that it has not taken out.
pub record Rest (s : Sched) (k : Killing) : Type 0 where
  pub unlisted :
      (q : ℕ)
      → stands_in s.running_list q ≡ 0
      → (stands_in k.sched.running_list q ≡ 0) × (k.sched.table q ≡ s.table q)
  pub waiting : (q : ℕ) → contains k.victims q ≡ false → queued k.sched q ≡ queued s q

kill_one-queued :
    (k : Killing) (x q : ℕ)
    → contains (kill_one k x).1.victims q ≡ false
    → (queued (kill_one k x).1.sched q ≡ queued k.sched q) × (contains k.victims q ≡ false)
unfolding kill_one
kill_one-queued k x q =
    let m = mark_killed k.sched x in
    let l = queued-leave_ready m x q in
    let e = queued-mark_killed k.sched x q in
    elim (Bool-cases (leave_ready m x).0) [
      | inl f ↦
          rw (f, kill_one)
            (λ h.
              let ne : (x == q) ≡ false = ground (arith, h) in
              (ground (arith, l, e, f, ne), ground (arith, h)))
      | inr f ↦ rw (f, kill_one) (λ h. (ground (arith, l, e, f), h))
    ]

kill_one-Rest :
    (s : Sched) (k : Killing) (x : ℕ)
    → 0 < stands_in k.sched.running_list x
    → Rest s k
    → Rest s (kill_one k x).1
kill_one-Rest s k x on r =
    let d = kill_one-Turn k x in
    let fewer : (q : ℕ)
        → stands_in (kill_one k x).1.sched.running_list q ≤ stands_in k.sched.running_list q =
      λ q. elim d.list [
        | inl (_, e) ↦ omega (arith, ap (λ l. stands_in l q) e)
        | inr (_, e) ↦
            omega (
              arith,
              ap (λ l. stands_in l q) e,
              stands_in-remove_from_queue k.sched.running_list x q,
            )
      ] in
    record {
      unlisted = λ q z.
          let (gone, same) = r.unlisted q z in
          let ne : q ≢ x = λ (e : q ≡ x).
            absurd (omega (arith, on, gone, ap (stands_in k.sched.running_list) e)) in
          (
            omega (arith, fewer q, gone),
            ap (λ (f : ℕ → Pcb). f q) d.tables
                ∙ update_other k.sched.table x (killed_pcb (k.sched.table x)) q ne
                ∙ same,
          );
      waiting = λ q h. let (e, h') = kill_one-queued k x q h in e ∙ r.waiting q h';
    }

kill_from-Rest :
    (fuel : ℕ) (name : List ℕ) (caller i : ℕ) (s : Sched) (k : Killing)
    → Rest s k
    → Rest s (kill_from fuel name caller i k)
unfolding kill_from
kill_from-Rest zero name caller i s k r = r
kill_from-Rest (suc fuel) name caller i s k r =
    elim (Bool-cases (ltb i k.sched.running_list.size)) [
      | inr e ↦ rw (e, kill_from) r
      | inl e ↦ elim (Bool-cases (is_target name caller k.sched (k.sched.running_list.proc i))) [
        | inr f ↦ rw (e, f, kill_from) (kill_from-Rest fuel name caller (i + 1) s k r)
        | inl f ↦
            let l = k.sched.running_list in
            let on : 0 < stands_in l (l.proc i) =
              count-slice l.proc 0 l.size i (omega arith) (omega (arith, ltb→lt i l.size e)) in
            rw (e, f, kill_from)
              (kill_from-Rest fuel name caller _ s (kill_one k (l.proc i)).1
                (kill_one-Rest s k (l.proc i) on r))
      ]
    ]

pub kill_proc_by_name-Rest :
    (s : Sched) (name : List ℕ) (caller : ℕ) → Rest s (kill_proc_by_name s name caller)
unfolding kill_proc_by_name
kill_proc_by_name-Rest s name caller =
    kill_from-Rest s.running_list.size name caller 0 s
      (record { sched = s; count = 0; victims = [] })
      (record { unlisted = λ q z. (z, refl); waiting = λ q h. refl })

-- `kill_proc_by_name` marks every process on the list of those that run whose name, the part of its path
-- after the last slash, is the one given, except for the caller. It changes nothing else of such a
-- process, and no other process: not the caller, none with another name, and none that is not on the list.
pub kill_proc_by_name-Kills :
    (s : Sched) (name : List ℕ) (caller : ℕ)
    → let t = (kill_proc_by_name s name caller).sched in
      ((j : ℕ)
        → j < s.running_list.size
        → Target name caller s (s.running_list.proc j)
        → (t.table (s.running_list.proc j)).killed ≡ true)
      × ((q : ℕ)
          → (t.table q ≡ s.table q)
            ⊎ (Target name caller s q × (t.table q ≡ killed_pcb (s.table q))))
      × ((q : ℕ) → stands_in s.running_list q ≡ 0 → t.table q ≡ s.table q)
kill_proc_by_name-Kills s name caller =
    let (marked, all) = kill_proc_by_name-Marked s name caller in
    (
      λ j lt target. all j lt (Target-is_target name caller s (s.running_list.proc j) target),
      λ q. elim (marked.each q) [
        | inl e ↦ inl e
        | inr (is, e) ↦ inr (is_target-Target name caller s q is, e)
      ],
      λ q z. ((kill_proc_by_name-Rest s name caller).unlisted q z).1,
    )
