-- ===== src/Machine/Quiet.antt =====
-- src/cpu.c and the calls below it: what an instruction does to the queues of the scheduler.
use native.Mathlib.Decide.{ℕ_discrete}
use ossim_os.Base.{
  ℕ, ◌+◌, ◌-◌, ◌%◌, ◌^◌, ◌≤◌, ◌≡◌, refl, ap, ◌∙◌, subst, inl, inr, Option, none, some, List, [],
  ◌∷◌, arith,
}
use ossim_os.Base.Tests.{◌==◌, ltb, Bool-cases, Option-cases}
use ossim_os.Base.Lists.{update}
use ossim_os.Types.{Pcb, Inst, Opcode, calc, alloc, free, read, write, syscall}
use ossim_os.Paging.{M, Vm, ◌>>◌}
use ossim_os.Sched.{Sched, kill_proc_by_name}
use ossim_os.Sched.Kill.{kill_proc_by_name-Marked}
use ossim_os.Sched.Places.{stands_in, queued}
use ossim_os.Sched.Reaped.{Once, kill_proc_by_name-Reaped}
use ossim_os.Area.{sys_memmap}
use ossim_os.Libmem.{free_pcb_memph, liballoc, libfree, libread, libwrite}
use ossim_os.Machine.{Machine, Step, vm_of, with_vm, with_pcb, call, leave, next, proceed}
use ossim_os.Syscall
use ossim_os.Syscall.{
  drop_areas, free_pcb, free_victims, kill_named, sys_killall, read_name, libsyscall,
}
use ossim_os.Cpu.{run, execute, fetch, with_pc, set_reg, found, status}

-- The process waits in no queue more, is on the list of those that run no more often, and has the
-- same priority.
pub record Quiet (s t : Sched) : Type 0 where
  pub fewer : (p : ℕ) → queued t p ≤ queued s p
  pub listed : (p : ℕ) → stands_in t.running_list p ≤ stands_in s.running_list p
  pub prio : (p : ℕ) → (t.table p).prio ≡ (s.table p).prio

pub Quiet-refl : (s : Sched) → Quiet s s
Quiet-refl s = record { fewer = λ p. omega arith; listed = λ p. omega arith; prio = λ p. refl }

pub Quiet-trans : (s t u : Sched) → Quiet s t → Quiet t u → Quiet s u
Quiet-trans s t u a b = record {
  fewer = λ p. omega (arith, a.fewer p, b.fewer p);
  listed = λ p. omega (arith, a.listed p, b.listed p);
  prio = λ p. b.prio p ∙ a.prio p;
}

pub Quiet-Once : (s t : Sched) → Quiet s t → Once s → Once t
Quiet-Once s t a o = record {
  waits = λ p. omega (arith, a.fewer p, o.waits p);
  listed = λ p. omega (arith, a.listed p, o.listed p);
}

-- Only the table changes, and no priority in it.
table-Quiet :
    (s : Sched) (table : ℕ → Pcb)
    → ((p : ℕ) → (table p).prio ≡ (s.table p).prio)
    → Quiet s (record s { table = table })
table-Quiet s table h = record { fewer = λ p. omega arith; listed = λ p. omega arith; prio = h }

with_pcb-Quiet :
    (s : Machine) (p : ℕ) (pcb : Pcb)
    → pcb.prio ≡ (s.sched.table p).prio
    → Quiet s.sched (with_pcb s p pcb).sched
with_pcb-Quiet s p pcb e =
    table-Quiet s.sched (update s.sched.table p pcb)
      (λ q. elim (ℕ_discrete p q) [ yes z ↦ ground (arith, z, e) | no ne ↦ ground (arith, ne) ])

-- A step that returns ends in a quiet state.
pub data Calm {A : Type 0} (s : Machine) : Option (A × Machine) → Type 0 where
  faulted : Calm s none
  calm : (a : A) (t : Machine) → Quiet s.sched t.sched → Calm s (some (a, t))

abbrev last : {A : Type 0} → Machine → Option (A × Machine) → Machine
last s none = s
last s (some (a, t)) = t

pub Calm-Quiet :
    {A : Type 0} (s : Machine) {r : Option (A × Machine)} (a : A) (t : Machine)
    → Calm s r
    → r ≡ some (a, t)
    → Quiet s.sched t.sched
Calm-Quiet s a t faulted e = absurd (cc e)
Calm-Quiet s a t (calm b u q) e =
    let z : u ≡ t = ap (last s) e in subst (λ (v : Machine). Quiet s.sched v.sched) z q

Calm-before :
    {A : Type 0} (s t : Machine) {r : Option (A × Machine)}
    → Quiet s.sched t.sched
    → Calm t r
    → Calm s r
Calm-before s t q faulted = faulted
Calm-before s t q (calm a u z) = calm a u (Quiet-trans s.sched t.sched u.sched q z)

next-Calm :
    {A B : Type 0} (s : Machine) (m : Step A) (f : A → Step B)
    → Calm s (m s)
    → ((a : A) (t : Machine) → Quiet s.sched t.sched → Calm t (f a t))
    → Calm s (next m f s)
next-Calm {A} {B} s m f c k = go c
  where
    go : {r : Option (A × Machine)} → Calm s r → Calm s (proceed f r)
    go faulted = faulted
    go (calm a t q) = Calm-before s t q (k a t q)

pub call-Calm : {A : Type 0} (s : Machine) (p : ℕ) (f : M A) → Calm s (call p f s)
call-Calm {A} s p f = go (f (vm_of s p))
  where
    go : (r : Option (A × Vm)) → Calm s (leave s p r)
    go none = faulted
    go (some (a, v)) = calm a (with_vm s p v) (
        table-Quiet s.sched _
          (λ q. elim (ℕ_discrete p q) [ yes z ↦ ground (arith, z) | no ne ↦ ground (arith, ne) ]))

then-Calm :
    {A : Type 0} (s : Machine) (p : ℕ) (f : M A) (g : A → ℕ)
    → Calm s (next (call p f) (λ a t. some (g a, t)) s)
then-Calm s p f g =
    next-Calm s (call p f) _ (call-Calm s p f) (λ a t q. calm (g a) t (Quiet-refl t.sched))

pub free_pcb-Calm : (s : Machine) (p : ℕ) → Calm s (free_pcb p s)
unfolding free_pcb
free_pcb-Calm s p = call-Calm s p (free_pcb_memph >> drop_areas)

free_victims-Calm : (victims : List ℕ) (s : Machine) → Calm s (free_victims victims s)
unfolding free_victims
free_victims-Calm [] s = calm tt s (Quiet-refl s.sched)
free_victims-Calm (p ∷ older) s =
    next-Calm s (free_victims older) (λ _. free_pcb p) (free_victims-Calm older s)
      (λ a t q. free_pcb-Calm t p)

kill-Quiet :
    (s : Sched) (name : List ℕ) (caller : ℕ)
    → Once s
    → Quiet s (kill_proc_by_name s name caller).sched
kill-Quiet s name caller o =
    let r = kill_proc_by_name-Reaped s name caller o in
    let (marked, _) = kill_proc_by_name-Marked s name caller in
    record {
      fewer = r.fewer;
      listed = r.listed;
      prio = λ p. elim (marked.each p) [
        | inl e ↦ ap (λ (q : Pcb). q.prio) e
        | inr (_, e) ↦ ap (λ (q : Pcb). q.prio) e
      ];
    }

kill_named-Calm :
    (caller : ℕ) (name : List ℕ) (s : Machine) → Once s.sched → Calm s (kill_named caller name s)
unfolding kill_named
kill_named-Calm caller name s o =
    let k = kill_proc_by_name s.sched name caller in
    Calm-before s (record s { sched = k.sched }) (kill-Quiet s.sched name caller o)
      (next-Calm (record s { sched = k.sched }) (free_victims k.victims) _
        (free_victims-Calm k.victims (record s { sched = k.sched }))
        (λ a t q. calm k.count t (Quiet-refl t.sched)))

libsyscall-Calm :
    (p nr a1 a2 a3 : ℕ) (s : Machine) → Once s.sched → Calm s (libsyscall p nr a1 a2 a3 s)
unfolding libsyscall Syscall.syscall sys_killall
libsyscall-Calm p nr a1 a2 a3 s o = elim (Bool-cases (nr == 17)) [
  | inl e ↦ rw e (then-Calm s p (sys_memmap a1 a2 a3) (λ _. 0))
  | inr e ↦ elim (Bool-cases (nr == 101)) [
    | inl f ↦
        rw (e, f)
          (next-Calm s (call p (read_name 99 0 a1)) (kill_named p)
            (call-Calm s p (read_name 99 0 a1))
            (λ name t q. kill_named-Calm p name t (Quiet-Once s.sched t.sched q o)))
    | inr f ↦ rw (e, f) (calm 0 s (Quiet-refl s.sched))
  ]
]

set_reg-Calm : (p reg : ℕ) (got : Option ℕ) (s : Machine) → Calm s (set_reg p reg got s)
set_reg-Calm p reg none s = calm (2 ^ 32 - 1) s (Quiet-refl s.sched)
set_reg-Calm p reg (some value) s = elim (Bool-cases (ltb reg 10)) [
  | inl e ↦
      let pcb = s.sched.table p in
      let pcb' : Pcb = record pcb { regs = update pcb.regs reg value } in
      rw e (calm 0 (with_pcb s p pcb') (with_pcb-Quiet s p pcb' refl))
  | inr e ↦ rw e (calm 0 s (Quiet-refl s.sched))
]

execute-Calm : (p : ℕ) (ins : Inst) (s : Machine) → Once s.sched → Calm s (execute p ins s)
unfolding execute
execute-Calm p ins s o = go ins.opcode refl
  where
    go : (op : Opcode) → ins.opcode ≡ op → Calm s (execute p ins s)
    go calc e = rw e (calm 0 s (Quiet-refl s.sched))
    go alloc e = rw e (then-Calm s p (liballoc ins.arg_0 ins.arg_1) found)
    go free e = rw e (then-Calm s p (libfree ins.arg_0) status)
    go read e = rw e (
        next-Calm s (call p (libread ins.arg_0 ins.arg_1)) (set_reg p ins.arg_2)
          (call-Calm s p (libread ins.arg_0 ins.arg_1)) (λ got t q. set_reg-Calm p ins.arg_2 got t))
    go write e = rw e (then-Calm s p (libwrite (ins.arg_0 % 256) ins.arg_1 ins.arg_2) status)
    go syscall e = rw e (libsyscall-Calm p ins.arg_0 ins.arg_1 ins.arg_2 ins.arg_3 s o)

-- Where no process waits twice or is twice on the list of those that run, an instruction puts no process
-- into a ready queue or on that list, and changes no priority.
pub run-Calm : (p : ℕ) (s : Machine) → Once s.sched → Calm s (run p s)
unfolding run
run-Calm p s o = elim (Option-cases (fetch (s.sched.table p).code (s.sched.table p).pc)) [
  | inl e ↦ rw (e, run) (calm 1 s (Quiet-refl s.sched))
  | inr (ins, e) ↦
      let pcb = s.sched.table p in
      let t = with_pc s p ((pcb.pc + 1) % 2 ^ 32) in
      let q = with_pcb-Quiet s p (record pcb { pc = (pcb.pc + 1) % 2 ^ 32 }) refl in
      rw (e, run) (Calm-before s t q (execute-Calm p ins t (Quiet-Once s.sched t.sched q o)))
]
