-- ===== src/Sched/Turn.antt =====
-- src/sched.c, one turn of the loop of `kill_proc_by_name`.
use native.Mathlib.Decide.{ℕ_discrete}
use ossim_os.Base.{ℕ, ◌≡◌, refl, sym, ap, ◌∙◌, ◌⊎◌, inl, inr, Bool, true, false, List, arith}
use ossim_os.Base.Tests.{Bool-cases, ltb}
use ossim_os.Base.Lists.{update}
use ossim_os.Types.{Pcb}
use ossim_os.Queue.{remove_from_queue}
use ossim_os.Sched.{Sched, Killing, leave_ready, mark_killed, proc_name, is_target, kill_one}

-- `leave_ready` touches neither the processes nor the list of those that run.
leave_ready_table : (s : Sched) (p : ℕ) → (leave_ready s p).1.table ≡ s.table
unfolding leave_ready
leave_ready_table s p = elim (Bool-cases (remove_from_queue s.ready_queue p).0) [
  | inl e ↦ rw (e, leave_ready)
  | inr e ↦ elim (Bool-cases (remove_from_queue s.run_queue p).0) [
    | inl f ↦ rw (e, f, leave_ready)
    | inr f ↦ elim (Bool-cases (ltb (s.table p).prio 140)) [
      | inl g ↦ rw (e, f, g, leave_ready)
      | inr g ↦ rw (e, f, g, leave_ready)
    ]
  ]
]

pub leave_ready_running : (s : Sched) (p : ℕ) → (leave_ready s p).1.running_list ≡ s.running_list
unfolding leave_ready
leave_ready_running s p = elim (Bool-cases (remove_from_queue s.ready_queue p).0) [
  | inl e ↦ rw (e, leave_ready)
  | inr e ↦ elim (Bool-cases (remove_from_queue s.run_queue p).0) [
    | inl f ↦ rw (e, f, leave_ready)
    | inr f ↦ elim (Bool-cases (ltb (s.table p).prio 140)) [
      | inl g ↦ rw (e, f, g, leave_ready)
      | inr g ↦ rw (e, f, g, leave_ready)
    ]
  ]
]

-- The process with its mark.
abbrev pub killed_pcb : Pcb → Pcb
killed_pcb p = record p { killed = true }

-- One turn of the loop on a process: it is marked, and taken off the list, or left on it.
pub record Turn (k : Killing) (p : ℕ) (left : Bool) (k' : Killing) : Type 0 where
  pub tables : k'.sched.table ≡ update k.sched.table p (killed_pcb (k.sched.table p))
  pub list :
      ((left ≡ false) × (k'.sched.running_list ≡ k.sched.running_list))
      ⊎ ((left ≡ true) × (k'.sched.running_list ≡ (remove_from_queue k.sched.running_list p).1))

pub kill_one-Turn : (k : Killing) (p : ℕ) → Turn k p (kill_one k p).0 (kill_one k p).1
unfolding kill_one mark_killed
kill_one-Turn k p = elim (Bool-cases (leave_ready (mark_killed k.sched p) p).0) [
  | inl e ↦
      rw (e, kill_one)
        (record {
          tables = leave_ready_table (mark_killed k.sched p) p;
          list = inr (
            refl,
            ap (λ q. (remove_from_queue q p).1) (leave_ready_running (mark_killed k.sched p) p),
          );
        })
  | inr e ↦
      rw (e, kill_one)
        (record {
          tables = leave_ready_table (mark_killed k.sched p) p;
          list = inl (refl, leave_ready_running (mark_killed k.sched p) p);
        })
]

-- What the loop may do to the processes: it marks some of those with the name, and never the caller.
pub record Marked (name : List ℕ) (caller : ℕ) (s t : Sched) : Type 0 where
  pub each :
      (q : ℕ)
      → (t.table q ≡ s.table q)
        ⊎ ((is_target name caller s q ≡ true) × (t.table q ≡ killed_pcb (s.table q)))

pub is_target_same :
    (name : List ℕ) (caller : ℕ) (s t : Sched) (q : ℕ)
    → (t.table q ≡ s.table q) ⊎ (t.table q ≡ killed_pcb (s.table q))
    → is_target name caller t q ≡ is_target name caller s q
unfolding is_target proc_name
is_target_same name caller s t q (inl e) = rw e
is_target_same name caller s t q (inr e) = rw e

pub Marked-refl : (name : List ℕ) (caller : ℕ) (s : Sched) → Marked name caller s s
Marked-refl name caller s = record { each = λ q. inl refl }

pub Marked-trans :
    (name : List ℕ) (caller : ℕ) (s t u : Sched)
    → Marked name caller s t
    → Marked name caller t u
    → Marked name caller s u
Marked-trans name caller s t u a b = record {
  each = λ q. elim (a.each q) [
    | inl e ↦ elim (b.each q) [
      | inl f ↦ inl (f ∙ e)
      | inr (is, f) ↦ inr (sym (is_target_same name caller s t q (inl e)) ∙ is, f ∙ ap killed_pcb e)
    ]
    | inr (is, e) ↦ elim (b.each q) [
      | inl f ↦ inr (is, f ∙ e)
      | inr (_, f) ↦ inr (is, f ∙ ap killed_pcb e)
    ]
  ];
}

pub Turn-Marked :
    (name : List ℕ) (caller : ℕ) (k : Killing) (p : ℕ) (left : Bool) (k' : Killing)
    → is_target name caller k.sched p ≡ true
    → Turn k p left k'
    → Marked name caller k.sched k'.sched
Turn-Marked name caller k p left k' is d = record {
  each = λ q. elim (ℕ_discrete p q) [
    | yes e ↦ inr (
      ap (is_target name caller k.sched) (sym e) ∙ is,
      ap (λ (f : ℕ → Pcb). f q) d.tables
          ∙ ap (λ n. update k.sched.table p (killed_pcb (k.sched.table p)) n) (sym e)
          ∙ ground arith
          ∙ ap (λ n. killed_pcb (k.sched.table n)) e,
    )
    | no ne ↦ inl (ap (λ (f : ℕ → Pcb). f q) d.tables ∙ ground arith)
  ];
}
