-- ===== src/Tests/Lived.antt =====
-- The simulator from its configuration on: one CPU, and a process that allocates 300 bytes.
use ossim_os.Base.{ℕ, ◌<◌, ◌≡◌, ◌≢◌, refl, none, some, Option, List, [], ◌∷◌, arith, subst}
use ossim_os.Base.Lists.{All, update}
use ossim_os.Types.{calc, alloc, Inst, Vma, Pcb}
use ossim_os.Machine.{Machine, vm_of}
use ossim_os.Machine.Isolation.{Areas, Safe}
use ossim_os.Machine.Run.{Tame}
use ossim_os.Cpu.{fetch}
use ossim_os.Queue.{empty, dequeue, shift_from, enqueue}
use ossim_os.Sched.{
  Sched, get_proc, get_mlq_proc, rounds, pass, can_dispatch, dispatch, add_proc, add_mlq_proc,
  put_mlq_proc, clamp_prio, init_scheduler, init_levels, same_text,
}
use ossim_os.Paging.View.{SizesOk, peek}
use ossim_os.Libmem.{init_mm}
use ossim_os.Region.{enlist_vm_rg_node, init_vm_rg}
use ossim_os.Libmem.Init.{first_area}
use ossim_os.Libmem.Layout.{Layout}
use ossim_os.Loader.{
  load, take, scan_header, scan_u, scan_as, skip_space, scan_digits, scan_number, to_unsigned,
  load_text, scan_s, scan_word, c_string, get_opcode, scan_args, scan_2, scan_next, scan_end,
}
use ossim_os.Simulator.{
  Cpu, running, stopped, cpu_step, Loader, ld_step, boot, check, recheck, admit,
}
use ossim_os.Simulator.World.{Os, Config, begin, places}
use ossim_os.Simulator.Memory.{Mild}
use ossim_os.Simulator.Sound.{sizes_of}
use ossim_os.Simulator.Civil.{
  MildCpu, Civil, boots, cpu_turn, loader_turn, Civil-cpu_step, Civil-Safe,
}
use ossim_os.Simulator.Main.{Booted, Started, os_main-Booted, os_main-print_config}
use ossim_os.Simulator.Settings.{read_config, swap_sizes, os_main, starts}
use ossim_os.Simulator.Settings.Printed.{Line, Readable}
use ossim_os.Simulator.Settings.Roundtrip.{print_config, args_of_lines, read_config-print_config}
use ossim_os.Tests.Scheduled.{sched}

abbrev blank : Inst
blank = record { opcode = calc; arg_0 = 7; arg_1 = 7; arg_2 = 7; arg_3 = 7 }

-- "1 1\nalloc 300 0\n"
abbrev program : List ℕ
program =
    b'1' ∷ 32 ∷ b'1' ∷ 10 ∷ b'a' ∷ b'l' ∷ b'l' ∷ b'o' ∷ b'c' ∷ 32 ∷ b'3' ∷ b'0' ∷ b'0' ∷ 32 ∷ b'0'
    ∷ 10 ∷ []

abbrev files : List ℕ → Option (List ℕ)
files path = some program

abbrev config : Config
config = record {
  num_cpus = 1;
  time_slot = 2;
  memramsz = 1024;
  memswpsz = λ _. 4096;
  ld_processes = (record { path = b'p' ∷ []; start_time = 0; prio = 0 }) ∷ [];
  files = files;
  blank = blank;
}

abbrev unmade : Sched
unmade = record sched { table = λ p. record (sched.table p) { mm = init_mm } }

abbrev cpu_next : Os → Option (Cpu × Machine) → Os
cpu_next o none = o
cpu_next o (some (k, s)) = record { machine = s; cpu = update o.cpu 0 k; loader = o.loader }

abbrev cpu_go : Os → Os
cpu_go o = cpu_next o (cpu_step 2 o.loader.done (o.cpu 0) o.machine)

abbrev ld_next : Os → Option (Loader × Machine) → Os
ld_next o none = o
ld_next o (some (l, s)) = record { machine = s; cpu = o.cpu; loader = l }

abbrev ld_go : Os → Os
ld_go o = ld_next o (ld_step files blank 0 o.loader o.machine)

Civil-cpu_go : (o : Os) → MildCpu (o.cpu 0) o.machine → Civil config o → Civil config (cpu_go o)
Civil-cpu_go o m r = go (cpu_step 2 o.loader.done (o.cpu 0) o.machine) refl
  where
    go :
        (z : Option (Cpu × Machine))
        → cpu_step 2 o.loader.done (o.cpu 0) o.machine ≡ z
        → Civil config (cpu_next o z)
    go none e = r
    go (some (k, s)) e = cpu_turn 0 k s r (omega arith) m e

Civil-ld_go : (o : Os) → Civil config o → Civil config (ld_go o)
Civil-ld_go o r = go (ld_step files blank 0 o.loader o.machine) refl
  where
    go :
        (z : Option (Loader × Machine))
        → ld_step files blank 0 o.loader o.machine ≡ z
        → Civil config (ld_next o z)
    go none e = r
    go (some (l, s)) e = loader_turn 0 l s r e

-- The process has been loaded and added, and is on the CPU, which is about to run it.
abbrev added_os : Os
added_os = ld_go (ld_go (begin config unmade))

abbrev running_os : Os
running_os = cpu_go (cpu_go added_os)

Civil-added : Civil config added_os
Civil-added = Civil-ld_go _ (Civil-ld_go _ (boots unmade (λ p. refl)))

phases : ((added_os.cpu 0).phase ≢ running) × (((cpu_go added_os).cpu 0).phase ≢ running)
unfolding cpu_step check get_proc get_mlq_proc rounds pass can_dispatch empty dispatch dequeue
    shift_from ld_step load scan_header scan_u scan_as skip_space scan_digits scan_number
    to_unsigned load_text scan_s scan_word c_string get_opcode same_text scan_args scan_2 scan_next
    scan_end take admit add_proc add_mlq_proc put_mlq_proc enqueue clamp_prio init_scheduler
    init_levels boot
phases = (λ e. absurd (cc e), λ e. absurd (cc e))

Civil-running : Civil config running_os
Civil-running =
    Civil-cpu_go _ (λ e. absurd (phases.1 e))
      (Civil-cpu_go _ (λ e. absurd (phases.0 e)) Civil-added)

on_cpu_1 : (running_os.cpu 0).proc ≡ some 1
unfolding cpu_step check recheck get_proc get_mlq_proc rounds pass can_dispatch empty dispatch
    dequeue shift_from ld_step load scan_header scan_u scan_as skip_space scan_digits scan_number
    to_unsigned load_text scan_s scan_word c_string get_opcode same_text scan_args scan_2 scan_next
    scan_end take admit add_proc add_mlq_proc put_mlq_proc enqueue clamp_prio init_scheduler
    init_levels boot
on_cpu_1 = refl

abbrev next_ins : Inst
next_ins = record { opcode = alloc; arg_0 = 300; arg_1 = 0; arg_2 = 7; arg_3 = 7 }

abbrev pcb_1 : Pcb
pcb_1 = running_os.machine.sched.table 1

fetched : (fetch pcb_1.code pcb_1.pc ≡ some next_ins) × (pcb_1.mm.mmap ≡ first_area ∷ [])
unfolding cpu_step check recheck get_proc get_mlq_proc rounds pass can_dispatch empty dispatch
    dequeue shift_from ld_step load scan_header scan_u scan_as skip_space scan_digits scan_number
    to_unsigned load_text scan_s scan_word c_string get_opcode same_text scan_args scan_2 scan_next
    scan_end take admit add_proc add_mlq_proc put_mlq_proc enqueue clamp_prio init_scheduler
    init_levels boot fetch init_mm enlist_vm_rg_node init_vm_rg
fetched = (refl, refl)

up : (running_os.cpu 0).phase ≢ stopped
unfolding cpu_step check recheck get_proc get_mlq_proc rounds pass can_dispatch empty dispatch
    dequeue shift_from ld_step load scan_header scan_u scan_as skip_space scan_digits scan_number
    to_unsigned load_text scan_s scan_word c_string get_opcode same_text scan_args scan_2 scan_next
    scan_end take admit add_proc add_mlq_proc put_mlq_proc enqueue clamp_prio init_scheduler
    init_levels boot
up e = absurd (cc e)

tame : Tame first_area next_ins
tame = record { room = λ e. omega arith; mild = λ e. absurd (cc e) }

mild : MildCpu (running_os.cpu 0) running_os.machine
mild _ p e = subst (Mild running_os.machine) (cc (on_cpu_1, e)) here
  where
    here : Mild running_os.machine 1
    here vma ins f g =
        let same : first_area ≡ vma = cc (fetched.1, f) in
        let is : next_ins ≡ ins = cc (fetched.0, g) in
        subst (λ v. Tame v ins) same (subst (Tame first_area) is tame)

ok : SizesOk (sizes_of config)
ok = record { ram_small = omega arith; swp_small = λ t h. omega arith }

Civil-cpu_step_example :
    (k : Cpu) × (s : Machine) × (cpu_step 2 running_os.loader.done
        (running_os.cpu 0)
        running_os.machine
      ≡ some (k, s))
    × Civil config
        (record { machine = s; cpu = update running_os.cpu 0 k; loader = running_os.loader })
    × ((q : ℕ)
        → (running_os.cpu 0).proc ≢ some q
        → ((s.sched.table q).mm ≡ (running_os.machine.sched.table q).mm)
          × ((page off : ℕ)
              → off < 256
              → peek (vm_of s q) page off ≡ peek (vm_of running_os.machine q) page off))
Civil-cpu_step_example = Civil-cpu_step config 0 ok Civil-running (omega arith) mild up

Civil-Safe_example :
    (areas : Areas) × Safe (sizes_of config) areas running_os.machine
    × ((p : ℕ) → 0 < places 1 running_os p → (vma : Vma) × Layout (vm_of running_os.machine p) vma)
Civil-Safe_example = Civil-Safe config ok Civil-running

-- Two processes.
abbrev lines : List Line
lines =
    (record { name = b'p' ∷ b'0' ∷ []; start_time = 0; prio = 130 })
    ∷ (record { name = b's' ∷ []; start_time = 12; prio = 7 })
    ∷ []

lines-Readable : All Readable lines
lines-Readable = (
  record {
    letters = ((refl, refl), ((refl, refl), tt));
    some_name = omega arith;
    short_name = omega arith;
    start_time = omega arith;
    prio = omega arith;
  },
  (
    record {
      letters = ((refl, refl), tt);
      some_name = omega arith;
      short_name = omega arith;
      start_time = omega arith;
      prio = omega arith;
    },
    tt,
  ),
)

read_config-print_config_example :
    read_config blank files (some (print_config 6 2 1048576 16777216 0 0 4096 lines))
    ≡ some (record {
      num_cpus = 2;
      time_slot = 6;
      memramsz = 1048576;
      memswpsz = swap_sizes 16777216 0 0 4096;
      ld_processes = args_of_lines lines;
      files = files;
      blank = blank;
    })
read_config-print_config_example =
    read_config-print_config blank files 6 2 1048576 16777216 0 0 4096 lines
      (omega arith, omega arith) (omega arith, omega arith) (omega arith, omega arith)
      (omega arith, omega arith) (omega arith, omega arith) (omega arith, omega arith, omega arith)
      lines-Readable

-- Every file holds the configuration.
abbrev same_file : List ℕ → Option (List ℕ)
same_file path = some (print_config 6 2 1048576 16777216 0 0 4096 lines)

os_main-Booted_example :
    Booted blank same_file unmade (b'c' ∷ []) (os_main blank same_file unmade (b'c' ∷ []))
os_main-Booted_example = os_main-Booted blank same_file unmade (b'c' ∷ []) (λ p. refl)

os_main-print_config_example :
    (o : Os) × (os_main blank same_file unmade (b'c' ∷ [])
      ≡ starts
          (record {
            num_cpus = 2;
            time_slot = 6;
            memramsz = 1048576;
            memswpsz = swap_sizes 16777216 0 0 4096;
            ld_processes = args_of_lines lines;
            files = same_file;
            blank = blank;
          })
          o)
    × Started 1048576 (swap_sizes 16777216 0 0 4096) (args_of_lines lines) o
os_main-print_config_example =
    os_main-print_config blank same_file unmade (b'c' ∷ []) 6 2 1048576 16777216 0 0 4096 lines refl
      (omega arith, omega arith) (omega arith, omega arith) (omega arith, omega arith)
      (omega arith, omega arith) (omega arith, omega arith) (omega arith, omega arith, omega arith)
      lines-Readable
