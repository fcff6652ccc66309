-- ===== src/Sched/Kill.antt =====
-- src/sched.c, `kill_proc_by_name`: which processes it marks.
use native.Mathlib.Decide.{ℕ_discrete}
use ossim_os.Base.{
  ℕ, zero, suc, ◌+◌, ◌-◌, ◌≤◌, ◌<◌, ◌≡◌, ◌≢◌, refl, sym, ap, ◌∙◌, inl, inr, Bool, true, false, List,
  [], arith,
}
use ossim_os.Base.Tests.{Bool-cases, ltb, ltb→lt, if◌then◌else◌}
use ossim_os.Types.{Pcb}
use ossim_os.Queue.{remove_from_queue}
use ossim_os.Sched.{Sched, Killing, is_target, kill_one, kill_from, kill_proc_by_name}
use ossim_os.Queue.Removed.{remove_from_queue-Removed}
use ossim_os.Sched.Turn.{
  Turn, kill_one-Turn, Marked, Marked-refl, Marked-trans, Turn-Marked, is_target_same,
}

-- What the loop does from index `i` on: every process there with the name is marked.
record Kills (name : List ℕ) (caller i : ℕ) (k k' : Killing) : Type 0 where
  pub marked : Marked name caller k.sched k'.sched
  pub all :
      (j : ℕ)
      → i ≤ j
      → j < k.sched.running_list.size
      → is_target name caller k.sched (k.sched.running_list.proc j) ≡ true
      → (k'.sched.table (k.sched.running_list.proc j)).killed ≡ true

-- A mark stays.
killed_stays :
    (name : List ℕ) (caller : ℕ) (s t : Sched) (q : ℕ)
    → Marked name caller s t
    → (s.table q).killed ≡ true
    → (t.table q).killed ≡ true
killed_stays name caller s t q m e = elim (m.each q) [
  | inl f ↦ ap (λ p. p.killed) f ∙ e
  | inr (_, f) ↦ ap (λ p. p.killed) f
]

target_later :
    (name : List ℕ) (caller : ℕ) (s t : Sched) (q : ℕ)
    → Marked name caller s t
    → is_target name caller s q ≡ true
    → is_target name caller t q ≡ true
target_later name caller s t q m is = elim (m.each q) [
  | inl f ↦ is_target_same name caller s t q (inl f) ∙ is
  | inr (_, f) ↦ is_target_same name caller s t q (inr f) ∙ is
]

module _ (name : List ℕ) (caller i : ℕ) (k : Killing) (left : Bool) (k' k'' : Killing) where
  -- A later entry, where the list stays as it is.
  later_stays :
      Marked name caller k.sched k'.sched
      → Kills name caller (if left then i else i + 1) k' k''
      → left ≡ false
      → k'.sched.running_list ≡ k.sched.running_list
      → (j : ℕ) → i ≤ j
      → j < k.sched.running_list.size
      → j ≢ i
      → is_target name caller k.sched (k.sched.running_list.proc j) ≡ true
      → (k''.sched.table (k.sched.running_list.proc j)).killed ≡ true
  later_stays m r stay same j lo lt ne target =
      let size : k'.sched.running_list.size ≡ k.sched.running_list.size = ap (λ q. q.size) same in
      let next : (if left then i else i + 1) ≤ j = ground (arith, stay) in
      ap (λ q. (k''.sched.table (q.proc j)).killed) (sym same)
      ∙ r.all j next (omega (arith, size)) (
          ap (λ q. is_target name caller k'.sched (q.proc j)) same
          ∙ target_later name caller k.sched k'.sched (k.sched.running_list.proc j) m target)

  -- A later entry, where it moves up.
  later_gone :
      i < k.sched.running_list.size
      → Marked name caller k.sched k'.sched
      → Kills name caller (if left then i else i + 1) k' k''
      → left ≡ true
      → k'.sched.running_list
        ≡ (remove_from_queue k.sched.running_list (k.sched.running_list.proc i)).1
      → (j : ℕ) → i ≤ j
      → j < k.sched.running_list.size
      → j ≢ i
      → is_target name caller k.sched (k.sched.running_list.proc j) ≡ true
      → (k''.sched.table (k.sched.running_list.proc j)).killed ≡ true
  later_gone hi m r gone removed j lo lt ne target =
      let l = k.sched.running_list in
      let out = remove_from_queue-Removed l (l.proc i) i hi refl in
      let e = out.first i refl in
      let back : j - 1 + 1 ≡ j = omega (arith, ne) in
      let at : k'.sched.running_list.proc (j - 1) ≡ l.proc j =
        ap (λ q. q.proc (j - 1)) removed
        ∙ out.moved (j - 1) (omega (arith, ne)) (omega arith)
        ∙ ap l.proc back in
      let size : k'.sched.running_list.size ≡ l.size - 1 = ap (λ q. q.size) removed ∙ out.size in
      let next : (if left then i else i + 1) ≤ j - 1 = ground (arith, gone, ne) in
      ap (λ n. (k''.sched.table n).killed) (sym at)
      ∙ r.all (j - 1) next (omega (arith, size, ne)) (
          ap (is_target name caller k'.sched) at
          ∙ target_later name caller k.sched k'.sched (l.proc j) m target)

Kills-target :
    (name : List ℕ) (caller i : ℕ) (k : Killing) (left : Bool) (k' k'' : Killing)
    → i < k.sched.running_list.size
    → is_target name caller k.sched (k.sched.running_list.proc i) ≡ true
    → Turn k (k.sched.running_list.proc i) left k'
    → Kills name caller (if left then i else i + 1) k' k''
    → Kills name caller i k k''
Kills-target name caller i k left k' k'' hi is d r =
    let p = k.sched.running_list.proc i in
    let m = Turn-Marked name caller k p left k' is d in
    record {
      marked = Marked-trans name caller k.sched k'.sched k''.sched m r.marked;
      all = λ j lo lt target. elim (ℕ_discrete j i) [
        | yes e ↦
            let at : (k'.sched.table p).killed ≡ true =
              ap (λ (f : ℕ → Pcb). (f p).killed) d.tables ∙ ground arith in
            killed_stays name caller k'.sched k''.sched (k.sched.running_list.proc j) r.marked
              (ap (λ n. (k'.sched.table (k.sched.running_list.proc n)).killed) e ∙ at)
        | no ne ↦ elim d.list [
          | inl (stay, same) ↦
              later_stays name caller i k left k' k'' m r stay same j lo lt ne target
          | inr (gone, removed) ↦
              later_gone name caller i k left k' k'' hi m r gone removed j lo lt ne target
        ]
      ];
    }

-- Each turn moves the index or shortens the list.
fuel_left :
    (fuel i : ℕ) (k : Killing) (p : ℕ) {left : Bool} {k' : Killing}
    → i < k.sched.running_list.size
    → p ≡ k.sched.running_list.proc i
    → Turn k p left k'
    → k.sched.running_list.size ≤ i + suc fuel
    → k'.sched.running_list.size ≤ (if left then i else i + 1) + fuel
fuel_left fuel i k p hi at d h = elim d.list [
  | inl (stay, same) ↦ ground (arith, stay, ap (λ q. q.size) same)
  | inr (gone, removed) ↦ ground (
    arith,
    gone,
    ap (λ q. q.size) removed,
    (remove_from_queue-Removed k.sched.running_list p i hi (sym at)).size,
  )
]

kill_from_done :
    (fuel : ℕ) (name : List ℕ) (caller i : ℕ) (k : Killing)
    → ltb i k.sched.running_list.size ≡ false
    → kill_from (suc fuel) name caller i k ≡ k
unfolding kill_from
kill_from_done fuel name caller i k e = rw (e, kill_from)

kill_from_skip :
    (fuel : ℕ) (name : List ℕ) (caller i : ℕ) (k : Killing)
    → ltb i k.sched.running_list.size ≡ true
    → is_target name caller k.sched (k.sched.running_list.proc i) ≡ false
    → kill_from (suc fuel) name caller i k ≡ kill_from fuel name caller (i + 1) k
unfolding kill_from
kill_from_skip fuel name caller i k e f = rw (e, f, kill_from)

kill_from_hit :
    (fuel : ℕ) (name : List ℕ) (caller i : ℕ) (k : Killing)
    → ltb i k.sched.running_list.size ≡ true
    → is_target name caller k.sched (k.sched.running_list.proc i) ≡ true
    → kill_from (suc fuel) name caller i k
      ≡ kill_from fuel name caller
          (if (kill_one k (k.sched.running_list.proc i)).0 then i else i + 1)
          (kill_one k (k.sched.running_list.proc i)).1
unfolding kill_from
kill_from_hit fuel name caller i k e f = rw (e, f, kill_from)

kill_from-Kills :
    (fuel : ℕ) (name : List ℕ) (caller i : ℕ) (k : Killing)
    → k.sched.running_list.size ≤ i + fuel
    → Kills name caller i k (kill_from fuel name caller i k)
kill_from-Kills zero name caller i k h =
    unfold kill_from in
    record {
      marked = Marked-refl name caller k.sched;
      all = λ j lo lt target. absurd (omega arith);
    }
kill_from-Kills (suc fuel) name caller i k h = elim (Bool-cases (ltb i k.sched.running_list.size)) [
  | inr e ↦ rw (kill_from_done fuel name caller i k e) (record {
    marked = Marked-refl name caller k.sched;
    all = λ j lo lt target. absurd (ground (arith, e));
  })
  | inl e ↦ elim (Bool-cases (is_target name caller k.sched (k.sched.running_list.proc i))) [
    | inr f ↦
        let r = kill_from-Kills fuel name caller (i + 1) k (omega arith) in
        rw (kill_from_skip fuel name caller i k e f) (record {
          marked = r.marked;
          all = λ j lo lt target. elim (ℕ_discrete j i) [
            | yes z ↦ absurd (
                cc (
                  f,
                  target,
                  ap (λ n. is_target name caller k.sched (k.sched.running_list.proc n)) z,
                ))
            | no ne ↦ r.all j (omega (arith, ne)) lt target
          ];
        })
    | inl f ↦
        let p = k.sched.running_list.proc i in
        let d = kill_one-Turn k p in
        let hi : i < k.sched.running_list.size = ltb→lt i k.sched.running_list.size e in
        rw (kill_from_hit fuel name caller i k e f) (
          Kills-target name caller i k (kill_one k p).0 (kill_one k p).1 _ hi f d (
            kill_from-Kills fuel name caller _ (kill_one k p).1 (fuel_left fuel i k p hi refl d h)))
  ]
]

-- The marks of the whole call, by the test of the code.
pub kill_proc_by_name-Marked :
    (s : Sched) (name : List ℕ) (caller : ℕ)
    → let t = (kill_proc_by_name s name caller).sched in
      Marked name caller s t
      × ((j : ℕ)
          → j < s.running_list.size
          → is_target name caller s (s.running_list.proc j) ≡ true
          → (t.table (s.running_list.proc j)).killed ≡ true)
unfolding kill_proc_by_name
kill_proc_by_name-Marked s name caller =
    let k : Killing = record { sched = s; count = 0; victims = [] } in
    let r = kill_from-Kills s.running_list.size name caller 0 k (omega arith) in
    (r.marked, λ j lt target. r.all j (omega arith) lt target)
