-- ===== src/Lib.antt =====
-- The operating system simulator of this repository: processes with priorities that CPUs take from a
-- multi-level queue, and a paged memory with swapping that their instructions use.
--
-- The parts, and how they act on each other. The loader (src/loader.c) makes a process and hands it
-- to the scheduler (src/sched.c), which keeps it in one of 140 queues (src/queue.c). A CPU
-- (src/os.c, src/cpu.c) takes a process with `get_proc`, runs it for a time slice of the timer
-- (src/timer.c), and puts it back or finishes it. Its instructions call the memory library
-- (src/libmem.c), which finds or makes room in the areas of the process (src/mm-vm.c, src/mm.c), and
-- reads and writes bytes through the page table and the devices (src/mm-memphy.c), swapping pages
-- out when RAM is full; part of this goes through the system call 17 (src/sys_mem.c).
--
-- What stands where:
--   Base      the names passed on from the libraries, Boolean tests, lists, sums and binary digits;
--   Types     the structs of include/common.h and include/os-mm.h;
--   Queue     src/queue.c: `enqueue`, `dequeue`, `remove_from_queue`, `empty`;
--   Sched     src/sched.c as built with MLQ_SCHED: the static queues and counters are one record, and
--             each function, which holds `queue_lock` throughout, is one step on it;
--   Pte       the macros of include/mm.h and include/bitops.h, and the setters of src/mm.c, on
--             32-bit words;
--   Memphy    src/mm-memphy.c: random and sequential devices and their free frames;
--   Region    the free regions of an area: `enlist_vm_freerg_list` and the loop of
--             `get_free_vmrg_area` of src/libmem.c;
--   Paging    `pg_getpage`, `__swap_out_page` and `find_victim_page` of src/libmem.c, with
--             `__swap_cp_page` and `enlist_pgn_node` of src/mm.c and `__mm_swap_page` of src/mm-vm.c;
--   Area      `inc_vma_limit` of src/mm-vm.c down to `alloc_pages_range` and `vmap_page_range` of
--             src/mm.c, and `__sys_memmap` of src/sys_mem.c;
--   Libmem    the calls of src/libmem.c: `__alloc`, `__free`, `__read`, `__write` (here `alloc`,
--             `free`, `read`, `write`), `pg_getval`, `pg_setval` and `free_pcb_memph`;
--   Machine   the scheduler with the table of all processes, and the devices that they share: the state
--             on which instructions, system calls and the threads work;
--   Syscall   `libsyscall` of src/libstd.c, `syscall` of src/syscall.c, `__sys_killall` of
--             src/sys_killall.c, and `free_pcb` of src/libmem.c;
--   Cpu       `run` of src/cpu.c;
--   Loader    src/loader.c, from the bytes of a file to a process;
--   Timer     src/timer.c, its thread and the calls of the devices;
--   Simulator src/os.c: `cpu_routine`, `ld_routine` and what `main` sets up; `read_config` and `main` are
--             in Simulator.Settings, and what `main` comes to is in Simulator.Main;
--   Tests     small states, and the theorems at work on them.
--
-- The state of the memory modules is the `Vm` of Paging: one process with RAM and the swap devices.
-- Frames that other processes own, or that a call has in hand, are counted by `held`. The invariant
-- `Wf` of Paging.View says that each frame has one owner at most, that every frame number fits its
-- device, and that the list for the replacement holds exactly the pages in RAM. `HasArea` of Area.Grow
-- says that the one area of the process covers exactly its mapped pages, and `Layout` of Libmem.Layout
-- that its symbols and free regions share no address. A call is a function to `Option`, in which
-- `none` is undefined behaviour of C: an access past the end of the page table or of `mswp`, the use of
-- a byte that was never set, the overflow of an `int`. Errors that the C functions report are ordinary
-- results. `mmvm_lock` makes each call one step.
--
-- `vm_of` of Machine is what a call of one process works on, and `call` puts the result back. `Safe` of
-- Machine.Isolation says of all processes at once that each has the invariant against the frames of
-- any other, and that the live ones are laid out; for an instruction, the other processes are what `held`
-- counts.
--
-- The threads are step relations. In Timer.World a step is one test, signal or flag of one thread,
-- with the counts of the calls of `next_slot` beside it. In Simulator.World a step of a CPU goes from one
-- call that takes a lock, or test of `killed`, to the next; a CPU in `next_slot` may go on at any time, and the loader may see
-- any time, so that every order that the timer allows is among those considered, whatever the
-- number of CPUs. `run` is one step there, also for `killall`, which takes more than one lock. A wait on
-- a condition variable is the test that it waits for, and a signal is the flag that it announces.
-- `Exclusive` is its invariant for the places of the processes, and `Sound` that for their memory, in the
-- states of `Civil`: those that are reached with tame instructions only, which ask for no more than the
-- address space and are neither `killall` nor the system call 17 itself.
--
-- Bounds. RAM has at most 2 ^ 21 bytes and a swap device at most 2 ^ 29 (`SizesOk`), as
-- include/mm.h means them to, so that frame numbers fit the 13 and 21 bits of an entry. An area ends at
-- 2 ^ 22 at most, the address space of the simulated CPU, which the code does not check. A process in the
-- scheduler has a priority below 140, which `add_proc` sees to, so that `put_mlq_proc` has a queue for it.
-- The loops are
-- recursion on the number of rounds that are left: 140 levels, 256 cells of a page, the frames of a
-- device. `MEMPHY_mv_csr` makes at most `maxsz` steps; `kill_proc_by_name` moves its index up or
-- shortens the list in every round, so the size of the list is fuel enough. Pointers to processes are
-- numbers, in the order in which the loader makes them, and a table holds what they point to. `malloc`
-- always succeeds; what stands in the memory that it returns is the parameter `blank`, and what stands in
-- the files is the parameter `files`. The timer counts time slots modulo 2 ^ 64.
--
-- Not modelled: the creation and the join of the threads of src/os.c; src/mem.c, which is
-- linked but serves only the build without paging; src/paging.c, a small driver; functions that only
-- print, src/sys_listsyscall.c among them; the memory of the host that `free_pcb` releases.
pub mod Base
pub mod Types
pub mod Queue
pub mod Sched
pub mod Pte
pub mod Memphy
pub mod Region
pub mod Paging
pub mod Area
pub mod Libmem
pub mod Machine
pub mod Syscall
pub mod Cpu
pub mod Loader
pub mod Timer
pub mod Simulator
pub mod Tests
