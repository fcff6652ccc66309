-- ===== src/Tests/Booted.antt =====
-- The simulator with one CPU and one process without instructions, from the start.
use ossim_os.Base.{ℕ, ◌<◌, ◌≡◌, ◌≢◌, refl, none, some, false, true, Option, List, [], ◌∷◌, arith}
use ossim_os.Base.Lists.{update, contains}
use ossim_os.Types.{Opcode, calc, alloc, free, read, write, syscall, Inst}
use ossim_os.Machine.{Machine}
use ossim_os.Cpu.{run, fetch}
use ossim_os.Queue.{empty, dequeue, shift_from, enqueue, remove_from_queue, remove_at}
use ossim_os.Sched.{
  kill_proc_by_name, get_proc, get_mlq_proc, rounds, pass, can_dispatch, dispatch, add_proc,
  add_mlq_proc, put_mlq_proc, clamp_prio, init_scheduler, init_levels, finish_proc, kill_from,
  kill_one, is_target, proc_name, after_last_slash, same_text, leave_ready, mark_killed,
}
use ossim_os.Sched.Places.{stands_in, queued}
use ossim_os.Loader.{
  load, take, no_mm, page_size, scan_header, scan_u, scan_as, skip_space, scan_digits, scan_number,
  to_unsigned, load_text,
}
use ossim_os.Loader.Printed.{print, Small}
use ossim_os.Loader.Roundtrip.{read_code, load-print}
use ossim_os.Simulator.{
  Cpu, new_cpu, stopped, reaping, cpu_step, Loader, ld_step, boot, check, recheck, admit,
}
use ossim_os.Simulator.World.{Os, Config, on_cpu, on_loader, begin, Reach, start, step}
use ossim_os.Simulator.Safety.{Reach-alone, Reach-reaping, Reach-Reaped}
use ossim_os.Simulator.Idle.{Waits, cpu_run, cpu_run-Waits, begin-Waits}
use ossim_os.Tests.Scheduled.{sched}

-- A program with each kind of instruction.
abbrev blank : Inst
blank = record { opcode = calc; arg_0 = 7; arg_1 = 7; arg_2 = 7; arg_3 = 7 }

abbrev ins : Opcode → Inst
ins op = record { opcode = op; arg_0 = 300; arg_1 = 0; arg_2 = 12; arg_3 = 5 }

abbrev code : List Inst
code = ins calc ∷ ins alloc ∷ ins free ∷ ins read ∷ ins write ∷ ins syscall ∷ []

small : (op : Opcode) → Small (ins op)
small op = record {
  arg_0 = omega arith;
  arg_1 = omega arith;
  arg_2 = omega arith;
  arg_3 = omega arith;
}

load-print_example :
    load 3 blank (b'p' ∷ []) (some (print 20 code))
    ≡ some (record {
      pid = 3;
      priority = 20;
      path = take 99 (b'p' ∷ []);
      code = read_code blank code;
      regs = λ _. 0;
      pc = 0;
      prio = 0;
      mm = no_mm;
      bp = page_size;
      killed = false;
    })
load-print_example =
    load-print 3 20 blank (b'p' ∷ []) code (omega arith) (omega arith)
      (small calc, (small alloc, (small free, (small read, (small write, (small syscall, tt))))))

cpu_run-Waits_example :
    (k' : Cpu) × (t : Machine) × (cpu_run 9 2 true new_cpu (boot 1024 (λ _. 4096) sched)
      ≡ some (k', t))
    × Waits k' t
    × (k'.phase ≢ stopped)
cpu_run-Waits_example =
    cpu_run-Waits 9 2 true new_cpu (boot 1024 (λ _. 4096) sched)
      (begin-Waits 1024 (λ _. 4096) sched)

-- The description of a process with priority 1 and no instruction is in every file.
abbrev config : Config
config = record {
  num_cpus = 1;
  time_slot = 2;
  memramsz = 1024;
  memswpsz = λ _. 4096;
  ld_processes = (record { path = b'p' ∷ []; start_time = 0; prio = 0 }) ∷ [];
  files = λ path. some (b'1' ∷ 32 ∷ b'0' ∷ 10 ∷ []);
  blank = blank;
}

-- The next step of the CPU, or of the loader, if there is one.
abbrev cpu_next : Os → Option (Cpu × Machine) → Os
cpu_next o none = o
cpu_next o (some (k, s)) = record { machine = s; cpu = update o.cpu 0 k; loader = o.loader }

abbrev cpu_go : Os → Os
cpu_go o = cpu_next o (cpu_step 2 o.loader.done (o.cpu 0) o.machine)

abbrev ld_next : Os → Option (Loader × Machine) → Os
ld_next o none = o
ld_next o (some (l, s)) = record { machine = s; cpu = o.cpu; loader = l }

abbrev ld_go : Os → Os
ld_go o = ld_next o (ld_step config.files blank 0 o.loader o.machine)

Reach-cpu_go : (o : Os) → Reach config o → Reach config (cpu_go o)
Reach-cpu_go o r = go (cpu_step 2 o.loader.done (o.cpu 0) o.machine) refl
  where
    go :
        (z : Option (Cpu × Machine))
        → cpu_step 2 o.loader.done (o.cpu 0) o.machine ≡ z
        → Reach config (cpu_next o z)
    go none e = r
    go (some (k, s)) e = step r (on_cpu o 0 k s (omega arith) e)

Reach-ld_go : (o : Os) → Reach config o → Reach config (ld_go o)
Reach-ld_go o r = go (ld_step config.files blank 0 o.loader o.machine) refl
  where
    go :
        (z : Option (Loader × Machine))
        → ld_step config.files blank 0 o.loader o.machine ≡ z
        → Reach config (ld_next o z)
    go none e = r
    go (some (l, s)) e = step r (on_loader o 0 l s e)

-- The process has been loaded and added.
abbrev added_os : Os
added_os = ld_go (ld_go (begin config sched))

abbrev fetched_os : Os
fetched_os = cpu_go added_os

reached_added : Reach config added_os
reached_added = Reach-ld_go _ (Reach-ld_go _ (start sched))

reached_fetched : Reach config fetched_os
reached_fetched = Reach-cpu_go _ reached_added

has_process : (fetched_os.cpu 0).proc ≡ some 1
unfolding cpu_step check get_proc get_mlq_proc rounds pass can_dispatch empty dispatch dequeue
    shift_from ld_step load scan_header scan_u scan_as skip_space scan_digits scan_number
    to_unsigned load_text take admit add_proc add_mlq_proc put_mlq_proc enqueue clamp_prio
    init_scheduler init_levels boot
has_process = refl

Reach-alone_example :
    (queued fetched_os.machine.sched 1 ≡ 0)
    × ((j : ℕ) → j < 1 → (fetched_os.cpu j).proc ≡ some 1 → 0 ≡ j)
Reach-alone_example = Reach-alone config 0 1 reached_fetched (omega arith) has_process

-- It runs, has no instruction left, and is about to be released.
abbrev reaped_os : Os
reaped_os = cpu_go (cpu_go (cpu_go (cpu_go (cpu_go fetched_os))))

reached_reaped : Reach config reaped_os
reached_reaped =
    Reach-cpu_go _
      (Reach-cpu_go _ (Reach-cpu_go _ (Reach-cpu_go _ (Reach-cpu_go _ reached_fetched))))

is_reaped : ((reaped_os.cpu 0).phase ≡ reaping) × ((reaped_os.cpu 0).proc ≡ some 1)
unfolding cpu_step check recheck run fetch get_proc get_mlq_proc rounds pass can_dispatch empty
    dispatch dequeue shift_from ld_step load scan_header scan_u scan_as skip_space scan_digits
    scan_number to_unsigned load_text take admit add_proc add_mlq_proc put_mlq_proc enqueue
    clamp_prio init_scheduler init_levels boot finish_proc
is_reaped = (refl, refl)

Reach-reaping_example :
    (queued reaped_os.machine.sched 1 ≡ 0)
    × (stands_in reaped_os.machine.sched.running_list 1 ≡ 0)
    × ((j : ℕ) → j < 1 → (reaped_os.cpu j).proc ≡ some 1 → 0 ≡ j)
Reach-reaping_example =
    Reach-reaping config 0 1 reached_reaped (omega arith) is_reaped.0 is_reaped.1

-- Process 0 kills the process while it waits.
is_victim : contains (kill_proc_by_name added_os.machine.sched (b'p' ∷ []) 0).victims 1 ≡ true
unfolding kill_proc_by_name kill_from kill_one is_target proc_name after_last_slash same_text
    leave_ready mark_killed remove_from_queue remove_at ld_step load scan_header scan_u scan_as
    skip_space scan_digits scan_number to_unsigned load_text take admit add_proc add_mlq_proc
    put_mlq_proc enqueue clamp_prio init_scheduler init_levels boot
is_victim = refl

Reach-Reaped_example :
    let killing = kill_proc_by_name added_os.machine.sched (b'p' ∷ []) 0 in
    (queued killing.sched 1 ≡ 0)
    × (stands_in killing.sched.running_list 1 ≡ 0)
    × ((j : ℕ) → j < 1 → (added_os.cpu j).proc ≢ some 1)
Reach-Reaped_example = Reach-Reaped config (b'p' ∷ []) 0 1 reached_added is_victim
