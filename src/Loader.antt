-- ===== src/Loader.antt =====
-- src/loader.c: a process from the text of its description. The bytes of the file are a list of
-- numbers, and what `fscanf`, `fgets` and `sscanf` do with them is written out for the formats used.
use ossim_os.Base.{
  ℕ, zero, suc, ◌+◌, ◌-◌, ◌*◌, ◌%◌, ◌^◌, Bool, true, false, ◌&&◌, ◌||◌, Option, none, some, List,
  [], ◌∷◌, ◌++◌,
}
pub mod Numbers
pub mod Lines
pub mod Printed
pub mod Roundtrip
use mathlib.Core.Bool.{not}
use ossim_os.Base.Tests.{leb, ltb, ◌==◌, if◌then◌else◌}
use ossim_os.Types.{Opcode, calc, alloc, free, read, write, syscall, Inst, Mm, Pcb}
use ossim_os.Sched.{same_text}

-- `isspace` and `isdigit`
abbrev pub is_space : ℕ → Bool
is_space c = (c == 32) || (leb 9 c && leb c 13)

abbrev pub is_digit : ℕ → Bool
is_digit c = leb 48 c && leb c 57

-- White space in a format, and before a conversion.
unfoldable pub skip_space : List ℕ → List ℕ
skip_space [] = []
skip_space (c ∷ cs) = let rest = skip_space cs in if is_space c then rest else c ∷ cs

-- The digits from here on, after `value`.
unfoldable pub scan_digits : ℕ → List ℕ → ℕ × List ℕ
scan_digits value [] = (value, [])
scan_digits value (c ∷ cs) = elim (is_digit c) [
  | true ↦ scan_digits (value * 10 + (c - 48)) cs
  | false ↦ (value, c ∷ cs)
]

-- What `%u` stores for a number with its sign: `strtoul` of 64 bits, cut to 32.
unfoldable pub to_unsigned : Bool → ℕ → ℕ
to_unsigned minus value =
    if leb (2 ^ 64) value
    then 2 ^ 32 - 1
    else (if minus then (2 ^ 64 - value) % 2 ^ 32 else value % 2 ^ 32)

-- The digits of a number, which `store` turns into what is stored; without one the conversion fails.
unfoldable pub scan_number : (Bool → ℕ → ℕ) → Bool → List ℕ → Option ℕ × List ℕ
scan_number store minus [] = (none, [])
scan_number store minus (c ∷ cs) =
    let (value, rest) = scan_digits 0 (c ∷ cs) in
    if is_digit c then (some (store minus value), rest) else (none, c ∷ cs)

abbrev pub scan_sign : (Bool → ℕ → ℕ) → List ℕ → Option ℕ × List ℕ
scan_sign store [] = (none, [])
scan_sign store (c ∷ cs) =
    if c == b'-'
    then scan_number store true cs
    else (if c == b'+' then scan_number store false cs else scan_number store false (c ∷ cs))

-- A conversion of a number, with the white space before it.
unfoldable pub scan_as : (Bool → ℕ → ℕ) → List ℕ → Option ℕ × List ℕ
scan_as store text = scan_sign store (skip_space text)

-- `%u`
unfoldable pub scan_u : List ℕ → Option ℕ × List ℕ
scan_u = scan_as to_unsigned

-- Up to `left` characters that are no space.
unfoldable pub scan_word : ℕ → List ℕ → List ℕ × List ℕ
scan_word zero text = ([], text)
scan_word (suc left) [] = ([], [])
scan_word (suc left) (c ∷ cs) =
    let (word, rest) = scan_word left cs in if is_space c then ([], c ∷ cs) else (c ∷ word, rest)

abbrev pub word_found : List ℕ × List ℕ → Option (List ℕ) × List ℕ
word_found ([], rest) = (none, rest)
word_found (c ∷ cs, rest) = (some (c ∷ cs), rest)

-- `%9s`; it fails at the end of the file.
unfoldable pub scan_s : List ℕ → Option (List ℕ) × List ℕ
scan_s text = word_found (scan_word 9 (skip_space text))

-- A string of C ends at its first byte 0.
unfoldable pub c_string : List ℕ → List ℕ
c_string [] = []
c_string (c ∷ cs) = let rest = c_string cs in if c == 0 then [] else c ∷ rest

-- `fgets` of `left` characters at most, with the end of the line.
unfoldable pub scan_line : ℕ → List ℕ → List ℕ × List ℕ
scan_line zero text = ([], text)
scan_line (suc left) [] = ([], [])
scan_line (suc left) (c ∷ cs) =
    let (line, rest) = scan_line left cs in if c == 10 then (c ∷ [], cs) else (c ∷ line, rest)

-- The next `%u` of a format, which stores over `old`; none is tried after one has failed.
unfoldable pub scan_next : Bool → ℕ → List ℕ → Bool × ℕ × List ℕ
scan_next false old text = (false, old, text)
scan_next true old text =
    let (got, rest) = scan_u text in
    elim got [ none ↦ (false, old, rest) | some value ↦ (true, value, rest) ]

-- White space at the end of a format.
unfoldable pub scan_end : Bool → List ℕ → List ℕ
scan_end ok text = if ok then skip_space text else text

-- `get_opcode`; `none` where it exits.
unfoldable pub get_opcode : List ℕ → Option Opcode
get_opcode opt =
    if same_text opt (b'c' ∷ b'a' ∷ b'l' ∷ b'c' ∷ [])
    then some calc
    else (if same_text opt (b'a' ∷ b'l' ∷ b'l' ∷ b'o' ∷ b'c' ∷ [])
        then some alloc
        else (if same_text opt (b'f' ∷ b'r' ∷ b'e' ∷ b'e' ∷ [])
            then some free
            else (if same_text opt (b'r' ∷ b'e' ∷ b'a' ∷ b'd' ∷ [])
                then some read
                else (if same_text opt (b'w' ∷ b'r' ∷ b'i' ∷ b't' ∷ b'e' ∷ [])
                    then some write
                    else (if same_text opt (b's' ∷ b'y' ∷ b's' ∷ b'c' ∷ b'a' ∷ b'l' ∷ b'l' ∷ [])
                        then some syscall
                        else none)))))

-- `"%u\n"`, `"%u %u\n"` and `"%u %u %u\n"`, over the arguments of an instruction.
unfoldable pub scan_1 : Inst → List ℕ → Inst × List ℕ
scan_1 ins text =
    let (ok, a, rest) = scan_next true ins.arg_0 text in
    (record ins { arg_0 = a }, scan_end ok rest)

unfoldable pub scan_2 : Inst → List ℕ → Inst × List ℕ
scan_2 ins text =
    let (ok, a, rest) = scan_next true ins.arg_0 text in
    let (ok', b, rest') = scan_next ok ins.arg_1 rest in
    (record ins { arg_0 = a; arg_1 = b }, scan_end ok' rest')

unfoldable pub scan_3 : Inst → List ℕ → Inst × List ℕ
scan_3 ins text =
    let (ok, a, rest) = scan_next true ins.arg_0 text in
    let (ok', b, rest') = scan_next ok ins.arg_1 rest in
    let (ok'', d, rest'') = scan_next ok' ins.arg_2 rest' in
    (record ins { arg_0 = a; arg_1 = b; arg_2 = d }, scan_end ok'' rest'')

-- The case of SYSCALL: the rest of the line, and `"%u%u%u%u"` on it.
unfoldable pub scan_call : Inst → List ℕ → Inst × List ℕ
scan_call ins text =
    let (buf, left) = scan_line 199 text in
    let (ok, a, rest) = scan_next true ins.arg_0 (c_string buf) in
    let (ok', b, rest') = scan_next ok 0 rest in
    let (ok'', d, rest'') = scan_next ok' 0 rest' in
    let (_, e, _) = scan_next ok'' 0 rest'' in
    (record ins { arg_0 = a; arg_1 = b; arg_2 = d; arg_3 = e }, left)

-- The `switch` of `load`. The arguments start as what stands in the fresh memory.
unfoldable pub scan_args : Inst → List ℕ → Inst × List ℕ
scan_args ins text = elim ins.opcode [
  | calc ↦ (ins, text)
  | alloc ↦ scan_2 ins text
  | free ↦ scan_1 ins text
  | read ↦ scan_3 ins text
  | write ↦ scan_3 ins text
  | syscall ↦ scan_call ins text
]

-- The loop of `load`, with the instructions that are left; `none` where it exits. `blank` is what
-- stands in the memory that `malloc` returns.
unfoldable pub load_text : ℕ → Inst → List ℕ → Option (List Inst)
load_text zero blank text = some []
load_text (suc left) blank text =
    let (word, rest) = scan_s text in
    elim word [
      | none ↦ none
      | some opcode ↦ elim (get_opcode (c_string opcode)) [
        | none ↦ none
        | some op ↦
            let (ins, rest') = scan_args (record blank { opcode = op }) rest in
            elim (load_text left blank rest') [ none ↦ none | some code ↦ some (ins ∷ code) ]
      ]
    ]

-- The header of a description: the priority and the number of instructions.
unfoldable pub scan_header : List ℕ → Option (ℕ × ℕ × List ℕ)
scan_header text =
    let (priority, rest) = scan_u text in
    let (size, rest') = scan_u rest in
    elim priority [ none ↦ none | some p ↦ elim size [ none ↦ none | some n ↦ some (p, n, rest') ] ]

-- `proc->mm` is NULL until `ld_routine` sets it.
abbrev pub no_mm : Mm
no_mm = record {
  pgd = λ _. 0;
  mmap = [];
  symrgtbl = λ _. record { rg_start = 0; rg_end = 0 };
  fifo_pgn = [];
}

-- The first bytes of a text, as `snprintf` stores them.
unfoldable pub take : ℕ → List ℕ → List ℕ
take zero text = []
take (suc n) [] = []
take (suc n) (c ∷ cs) = c ∷ take n cs

abbrev pub page_size : ℕ
page_size = 1024

-- `load`, where `avail_pid` is the next process number, and `file` the content of the file at `path`
-- if there is one; `none` where it exits.
unfoldable pub load : ℕ → Inst → List ℕ → Option (List ℕ) → Option Pcb
load avail_pid blank path file = elim file [
  | none ↦ none
  | some text ↦ elim (scan_header text) [
    | none ↦ none
    | some (priority, size, rest) ↦ elim (load_text size blank rest) [
      | none ↦ none
      | some code ↦ some (record {
        pid = avail_pid;
        priority = priority;
        path = take 99 path;
        code = code;
        regs = λ _. 0;
        pc = 0;
        prio = 0;
        mm = no_mm;
        bp = page_size;
        killed = false;
      })
    ]
  ]
]
