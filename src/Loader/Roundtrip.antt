-- ===== src/Loader/Roundtrip.antt =====
-- src/loader.c, `load`, against the printer of `Printed`.
use ossim_os.Base.{ℕ, ◌<◌, ◌^◌, ◌≡◌, refl, ap, ◌∙◌, false, Option, some, List, [], ◌∷◌, ◌++◌}
use ossim_os.Base.Lists.{length, All}
use ossim_os.Types.{Opcode, calc, alloc, free, read, write, syscall, Inst}
use ossim_os.Loader.{
  skip_space, scan_u, c_string, get_opcode, scan_args, load_text, scan_header, load, take, no_mm,
  page_size,
}
use ossim_os.Loader.Numbers.{show_u, scan_u-show, scan_u-space}
use ossim_os.Loader.Lines.{scan_call_lem}
use ossim_os.Loader.Printed.{
  word_of, args_of, print_code, print, Small, read_as, word-scan_s, word-get_opcode, scan_1_lem,
  scan_2_lem, scan_3_lem, with_word, load_text_eq, load_text-skip_space, load_text-newline,
}

args_lem :
    (left : ℕ) (blank : Inst) (op : Opcode) (ins : Inst) (rest : List ℕ)
    → Small ins
    → (text : List ℕ) × (scan_args (record blank { opcode = op }) (args_of op ins rest)
        ≡ (read_as blank op ins, text))
      × (load_text left blank text ≡ load_text left blank rest)
unfolding scan_args args_of
args_lem left blank calc ins rest z = (10 ∷ rest, refl, load_text-newline left blank rest)
args_lem left blank alloc ins rest z = (
  skip_space rest,
  scan_2_lem (record blank { opcode = alloc }) ins.arg_0 ins.arg_1 rest z.arg_0 z.arg_1,
  load_text-skip_space left blank rest,
)
args_lem left blank free ins rest z = (
  skip_space rest,
  scan_1_lem (record blank { opcode = free }) ins.arg_0 rest z.arg_0,
  load_text-skip_space left blank rest,
)
args_lem left blank read ins rest z = (
  skip_space rest,
  scan_3_lem (record blank { opcode = read }) ins.arg_0 ins.arg_1 ins.arg_2 rest z.arg_0 z.arg_1
      z.arg_2,
  load_text-skip_space left blank rest,
)
args_lem left blank write ins rest z = (
  skip_space rest,
  scan_3_lem (record blank { opcode = write }) ins.arg_0 ins.arg_1 ins.arg_2 rest z.arg_0 z.arg_1
      z.arg_2,
  load_text-skip_space left blank rest,
)
args_lem left blank syscall ins rest z = (
  rest,
  scan_call_lem (record blank { opcode = syscall }) ins.arg_0 ins.arg_1 ins.arg_2 ins.arg_3 rest
      z.arg_0 z.arg_1 z.arg_2 z.arg_3,
  refl,
)

-- The program as it is read.
abbrev pub read_code : Inst → List Inst → List Inst
read_code blank [] = []
read_code blank (ins ∷ code) = read_as blank ins.opcode ins ∷ read_code blank code

with_word_lem :
    (left : ℕ) (blank : Inst) (word rest : List ℕ) (op : Opcode) (ins : Inst) (text : List ℕ)
    (code : List Inst)
    → get_opcode (c_string word) ≡ some op
    → scan_args (record blank { opcode = op }) rest ≡ (ins, text)
    → load_text left blank text ≡ some code
    → with_word left blank (some word, rest) ≡ some (ins ∷ code)
with_word_lem left blank word rest op ins text code known args tail =
    rw (known, args, tail, with_word) (ap (λ (r : Inst × List ℕ). some (r.0 ∷ code)) args)

load_text_lem :
    (blank : Inst) (code : List Inst)
    → All Small code
    → load_text (length code) blank (print_code code) ≡ some (read_code blank code)
unfolding print_code
load_text_lem blank [] z = unfold load_text in refl
load_text_lem blank (ins ∷ code) (z, zs) =
    let left = length code in
    let (text, e, f) = args_lem left blank ins.opcode ins (print_code code) z in
    let tail : load_text left blank text ≡ some (read_code blank code) =
      f ∙ load_text_lem blank code zs in
    load_text_eq left blank (word_of ins.opcode ++ args_of ins.opcode ins (print_code code))
    ∙ ap (with_word left blank) (word-scan_s ins.opcode ins (print_code code))
    ∙ with_word_lem left blank (word_of ins.opcode) _ ins.opcode _ text (read_code blank code)
        (word-get_opcode ins.opcode) e tail

header_lem :
    (text : List ℕ) (p n : ℕ) (rest rest' : List ℕ)
    → scan_u text ≡ (some p, rest)
    → scan_u rest ≡ (some n, rest')
    → scan_header text ≡ some (p, n, rest')
unfolding scan_header
header_lem text p n rest rest' e f =
    let g : scan_u (scan_u text).1 ≡ (some n, rest') =
      ap (λ (r : Option ℕ × List ℕ). scan_u r.1) e ∙ f in
    rw (e, g, scan_header) (ap (λ (r : Option ℕ × List ℕ). some (p, n, r.1)) g)

load_lem :
    (avail_pid priority n : ℕ) (blank : Inst) (path text rest : List ℕ) (code : List Inst)
    → scan_header text ≡ some (priority, n, rest)
    → load_text n blank rest ≡ some code
    → load avail_pid blank path (some text)
      ≡ some (record {
        pid = avail_pid;
        priority = priority;
        path = take 99 path;
        code = code;
        regs = λ _. 0;
        pc = 0;
        prio = 0;
        mm = no_mm;
        bp = page_size;
        killed = false;
      })
unfolding load
load_lem avail_pid priority n blank path text rest code e f = rw (e, f, load) refl

-- `load` of a description that was printed from a program of less than 2 ^ 32 instructions with
-- arguments of `unsigned int` succeeds: the process has the number given, the priority, and each
-- instruction with its arguments; those that a line does not have are what stood in the fresh memory.
pub load-print :
    (avail_pid priority : ℕ) (blank : Inst) (path : List ℕ) (code : List Inst)
    → priority < 2 ^ 32
    → length code < 2 ^ 32
    → All Small code
    → load avail_pid blank path (some (print priority code))
      ≡ some (record {
        pid = avail_pid;
        priority = priority;
        path = take 99 path;
        code = read_code blank code;
        regs = λ _. 0;
        pc = 0;
        prio = 0;
        mm = no_mm;
        bp = page_size;
        killed = false;
      })
unfolding print
load-print avail_pid priority blank path code h k z =
    let n = length code in
    let first = scan_u-show priority 32 (show_u n ++ 10 ∷ print_code code) h refl in
    let second =
      scan_u-space 32 (show_u n ++ 10 ∷ print_code code) refl
      ∙ scan_u-show n 10 (print_code code) k refl in
    let body = load_text-newline n blank (print_code code) ∙ load_text_lem blank code z in
    load_lem avail_pid priority n blank path _ (10 ∷ print_code code) (read_code blank code)
      (header_lem _ priority n (32 ∷ (show_u n ++ 10 ∷ print_code code)) (10 ∷ print_code code)
        first second)
      body
