-- ===== src/Simulator/Settings.antt =====
-- src/os.c: `read_config` and `main` up to the start of the threads. The conversions of `fscanf` are
-- those of src/loader.c, with what `%d` and `%lu` store.
pub mod Bounds
pub mod Printed
pub mod Roundtrip
use ossim_os.Base.{
  ℕ, zero, suc, ◌+◌, ◌-◌, ◌*◌, ◌%◌, ◌^◌, Bool, true, false, ◌&&◌, ◌||◌, Option, none, some, List,
  [], ◌∷◌, ◌++◌,
}
use ossim_os.Base.Tests.{leb, ltb, ◌==◌, if◌then◌else◌}
use ossim_os.Types.{Inst}
use ossim_os.Sched.{Sched}
use ossim_os.Loader.{skip_space, scan_as, scan_word, c_string, scan_line, take}
use ossim_os.Simulator.{LdArgs}
use ossim_os.Simulator.World.{Config, Os, begin}

-- What `%d` stores in an `int`, as its 32 bits: `strtol` of 64 bits, cut to 32.
unfoldable pub to_int : Bool → ℕ → ℕ
to_int true value = if ltb (2 ^ 63) value then 0 else (2 ^ 32 - value % 2 ^ 32) % 2 ^ 32
to_int false value = if leb (2 ^ 63) value then 2 ^ 32 - 1 else value % 2 ^ 32

-- What `%lu` stores in an `unsigned long`: `strtoul` of 64 bits.
unfoldable pub to_long : Bool → ℕ → ℕ
to_long minus value =
    if leb (2 ^ 64) value then 2 ^ 64 - 1 else (if minus then (2 ^ 64 - value) % 2 ^ 64 else value)

-- An `int` that is not negative, and one that is positive.
abbrev pub natural : ℕ → Bool
natural word = ltb word (2 ^ 31)

abbrev pub positive : ℕ → Bool
positive word = ltb 0 word && natural word

-- A conversion that must succeed, and what comes after it.
abbrev pub and_then : {A B : Type 0} → Option A × List ℕ → (A → List ℕ → Option B) → Option B
and_then (none, rest) f = none
and_then (some a, rest) f = f a rest

-- `"%d %d %d\n"`: the first line.
unfoldable pub scan_counts : List ℕ → Option ((ℕ × ℕ × ℕ) × List ℕ)
scan_counts text = and_then (scan_as to_int text) λ time_slot t.
    and_then (scan_as to_int t) λ num_cpus u.
      and_then (scan_as to_int u)
        λ num_processes v. some ((time_slot, num_cpus, num_processes), skip_space v)

-- `"%d %d %d %d %d"`: the sizes on a line of their own, RAM first.
unfoldable pub scan_sizes : List ℕ → Option (ℕ × ℕ × ℕ × ℕ × ℕ)
scan_sizes line = and_then (scan_as to_int line) λ ram t. and_then (scan_as to_int t) λ swp0 u.
    and_then (scan_as to_int u) λ swp1 v.
      and_then (scan_as to_int v)
        λ swp2 w. and_then (scan_as to_int w) λ swp3 x. some (ram, swp0, swp1, swp2, swp3)

-- `memswpsz`
abbrev pub swap_sizes : ℕ → ℕ → ℕ → ℕ → ℕ → ℕ
swap_sizes swp0 swp1 swp2 swp3 sit =
    if sit == 0
    then swp0
    else (if sit == 1 then swp1 else (if sit == 2 then swp2 else (if sit == 3 then swp3 else 0)))

-- `memramsz`, `memswpsz` and the text after them: the line is given back if it has no sizes.
unfoldable pub read_sizes : List ℕ → ℕ × (ℕ → ℕ) × List ℕ
read_sizes text =
    let (line, rest) = scan_line 255 text in
    elim (scan_sizes (c_string line)) [
      | none ↦ (1048576, swap_sizes 16777216 0 0 0, text)
      | some (ram, swp0, swp1, swp2, swp3) ↦ (ram, swap_sizes swp0 swp1 swp2 swp3, rest)
    ]

-- `%63s`; the conversion fails at the end of the file.
unfoldable pub scan_name : List ℕ → Option (List ℕ) × List ℕ
scan_name text =
    let (word, rest) = scan_word 63 (skip_space text) in
    elim word [ [] ↦ (none, rest) | c ∷ cs ↦ (some (c ∷ cs), rest) ]

-- `snprintf` of `"input/proc/%s"`
abbrev pub proc_path : List ℕ → List ℕ
proc_path name =
    take 99
      (b'i' ∷ b'n' ∷ b'p' ∷ b'u' ∷ b't' ∷ b'/' ∷ b'p' ∷ b'r' ∷ b'o' ∷ b'c' ∷ b'/' ∷ c_string name)

-- `"%lu %63s %lu\n"`: a line of a process.
unfoldable pub scan_process : List ℕ → Option (LdArgs × List ℕ)
scan_process text = and_then (scan_as to_long text) λ start_time t. and_then (scan_name t) λ name u.
    and_then (scan_as to_long u) λ prio v.
      some (record { path = proc_path name; start_time = start_time; prio = prio }, skip_space v)

-- The loop over the processes, with those that are left; `none` where it exits.
unfoldable pub read_processes : ℕ → List ℕ → Option (List LdArgs)
read_processes zero text = some []
read_processes (suc left) text = elim (scan_process text) [
  | none ↦ none
  | some (args, rest) ↦ elim (read_processes left rest) [
    | none ↦ none
    | some others ↦ some (args ∷ others)
  ]
]

-- The rest of `read_config` after the sizes.
unfoldable pub read_rest :
    Inst → (List ℕ → Option (List ℕ)) → ℕ → ℕ → ℕ → ℕ × (ℕ → ℕ) × List ℕ → Option Config
read_rest blank files time_slot num_cpus num_processes (ram, swp, rest) =
    let big_enough : Bool = (leb 256 ram && natural ram) && (leb 256 (swp 0) && natural (swp 0)) in
    elim big_enough [
      | false ↦ none
      | true ↦ elim (read_processes num_processes rest) [
        | none ↦ none
        | some ld_processes ↦ some (record {
          num_cpus = num_cpus;
          time_slot = time_slot;
          memramsz = ram;
          memswpsz = swp;
          ld_processes = ld_processes;
          files = files;
          blank = blank;
        })
      ]
    ]

-- The rest of `read_config` after the first line.
unfoldable pub read_body : Inst → (List ℕ → Option (List ℕ)) → ℕ → ℕ → ℕ → List ℕ → Option Config
read_body blank files time_slot num_cpus num_processes text =
    read_rest blank files time_slot num_cpus num_processes (read_sizes text)

-- `read_config`, where `file` is the content of the configuration file, if there is one; `none` where it
-- exits. The files of the processes and what stands in fresh memory are handed on.
unfoldable pub read_config : Inst → (List ℕ → Option (List ℕ)) → Option (List ℕ) → Option Config
read_config blank files file = elim file [
  | none ↦ none
  | some text ↦ elim (scan_counts text) [
    | none ↦ none
    | some ((time_slot, num_cpus, num_processes), rest) ↦
        elim (positive time_slot && positive num_cpus && positive num_processes) [
          | false ↦ none
          | true ↦ read_body blank files time_slot num_cpus num_processes rest
        ]
  ]
]

-- What `main` comes to before it waits for the threads: the program exits, runs into undefined
-- behaviour, or has started them, with the settings in its static variables.
pub data Outcome : Type 0 where
  exits : Outcome
  faults : Outcome
  starts : Config → Os → Outcome

-- Whether `init_memphy` is defined for each of the `left` swap devices from `sit` on: with a negative size
-- its `malloc` fails, and it clears the memory at the NULL pointer.
unfoldable pub init_defined : ℕ → ℕ → (ℕ → ℕ) → Bool
init_defined zero sit memswpsz = true
init_defined (suc left) sit memswpsz =
    natural (memswpsz sit) && init_defined left (sit + 1) memswpsz

-- The path of the configuration, as `snprintf` stores it.
abbrev pub config_path : List ℕ → List ℕ
config_path arg = take 255 (b'i' ∷ b'n' ∷ b'p' ∷ b'u' ∷ b't' ∷ b'/' ∷ arg)

-- `main` with one argument.
unfoldable pub os_main : Inst → (List ℕ → Option (List ℕ)) → Sched → List ℕ → Outcome
os_main blank files sched arg = elim (read_config blank files (files (config_path arg))) [
  | none ↦ exits
  | some c ↦
      if natural c.memramsz && init_defined 4 0 c.memswpsz then starts c (begin c sched) else faults
]
