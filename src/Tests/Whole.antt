-- ===== src/Tests/Whole.antt =====
-- Processes that share the devices: their instructions, the end of one, and `killall`.
use ossim_os.Base.{ℕ, ◌≤◌, ◌≡◌, refl, ap, subst, none, some, List, [], ◌∷◌, arith}
use ossim_os.Base.Lists.{update}
use ossim_os.Base.Sums.{total_bound}
use ossim_os.Types.{alloc, Inst, Vma}
use ossim_os.Paging.{Vm}
use ossim_os.Paging.Owner.{Place}
use ossim_os.Paging.View.{Sizes, SizesOk, where_is}
use ossim_os.Libmem.Layout.{Layout}
use ossim_os.Libmem.{init_mm, free_pcb_memph}
use ossim_os.Libmem.Init.{fresh, fresh-Wf, fresh-Layout, first_area, unmapped}
use ossim_os.Libmem.Release.{stands_at}
use ossim_os.Libmem.Exit.{owns, Freed, free_pcb_memph-Freed}
use ossim_os.Machine.{Machine, vm_of}
use ossim_os.Machine.Owns.{Wf-less}
use ossim_os.Machine.Isolation.{Areas, Safe, Spares}
use ossim_os.Machine.Exit.{Ended, free_pcb-Safe}
use ossim_os.Machine.Run.{Kept, Tame, run-Kept}
use ossim_os.Machine.Killall.{Killed, sys_killall-Safe}
use ossim_os.Cpu.{run, fetch}
use ossim_os.Syscall.{free_pcb}
use ossim_os.Tests.Memory
use ossim_os.Tests.Scheduled

abbrev sizes : Sizes
sizes = record { ram_size = 1024; swp_size = λ _. 4096 }

ok : SizesOk sizes
ok = record { ram_small = omega arith; swp_small = λ t h. omega arith }

-- Every process is new; process 1 is about to allocate 300 bytes for symbol 0.
abbrev machine : Machine
machine = record {
  sched = record Scheduled.sched {
    table = λ p. record (Scheduled.sched.table p) {
      mm = init_mm;
      code = (record { opcode = alloc; arg_0 = 300; arg_1 = 0; arg_2 = 0; arg_3 = 0 }) ∷ [];
      pc = 0;
    };
  };
  mram = (fresh sizes).mram;
  mswp = (fresh sizes).mswp;
  active_mswp_id = 0;
}

abbrev areas : Areas
areas p = some first_area

none_owned : (x : Place) → owns (fresh sizes) x ≤ 0
none_owned x =
    total_bound (λ p. stands_at (where_is (fresh sizes) p) x) 16384 0
      (λ p h. omega (arith, ap (λ o. stands_at o x) (unmapped sizes p)))

safe : Safe sizes areas machine
safe = record {
  pairs = λ p q ne. Wf-less (λ x. none_owned x) (fresh-Wf sizes);
  laid = λ p vma e. subst (Layout (fresh sizes)) (cc e) (fresh-Layout sizes);
}

tame :
    (ins : Inst)
    → fetch (machine.sched.table 1).code (machine.sched.table 1).pc ≡ some ins
    → Tame first_area ins
unfolding fetch
tame ins e =
    let same : record { opcode = alloc; arg_0 = 300; arg_1 = 0; arg_2 = 0; arg_3 = 0 } ≡ ins =
      cc e in
    subst (Tame first_area) same (record { room = λ z. omega arith; mild = λ z. absurd (cc z) })

run-Kept_example : Kept sizes areas machine 1 (run 1)
run-Kept_example = run-Kept ok machine 1 first_area safe refl tame

free_pcb-Safe_example :
    (t : Machine) × (free_pcb 1 machine ≡ some (tt, t))
    × Safe sizes (update areas 1 none) t
    × Spares machine 1 t
    × Ended (vm_of machine 1) (vm_of t 1)
free_pcb-Safe_example = free_pcb-Safe machine 1 safe

sys_killall-Safe_example :
    (name : List ℕ) × (m : Machine) × (t : Machine) × (vma' : Vma) × Killed sizes areas machine 1 0
      name m t vma'
sys_killall-Safe_example = sys_killall-Safe ok machine 1 0 first_area safe refl

-- One page of the process is in RAM and one on a swap device.
free_pcb_memph-Freed_example :
    (t : Vm) × (free_pcb_memph Memory.state ≡ some (tt, t))
    × Freed Memory.sizes Memory.nobody Memory.state 16384 t
free_pcb_memph-Freed_example = free_pcb_memph-Freed Memory.nobody Memory.state Memory.wf
