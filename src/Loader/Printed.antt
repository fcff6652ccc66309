-- ===== src/Loader/Printed.antt =====
-- src/loader.c, `load`: it reads back a description that was printed from a program.
use ossim_os.Base.{
  ℕ, zero, suc, ◌<◌, ◌^◌, ◌≡◌, refl, sym, ap, ◌∙◌, Bool, Option, none, some, List, [], ◌∷◌, ◌++◌,
  inl, inr,
}
use ossim_os.Base.Tests.{Bool-cases}
use ossim_os.Base.Lists.{length}
use ossim_os.Types.{Opcode, calc, alloc, free, read, write, syscall, Inst}
use ossim_os.Sched.{same_text}
use ossim_os.Loader.{
  is_space, skip_space, scan_word, word_found, scan_s, c_string, scan_end, get_opcode, scan_1,
  scan_2, scan_3, scan_args, load_text,
}
use ossim_os.Loader.Numbers.{show_u, scan_next-show}

-- The word of an instruction, and its line.
unfoldable pub word_of : Opcode → List ℕ
word_of calc = b'c' ∷ b'a' ∷ b'l' ∷ b'c' ∷ []
word_of alloc = b'a' ∷ b'l' ∷ b'l' ∷ b'o' ∷ b'c' ∷ []
word_of free = b'f' ∷ b'r' ∷ b'e' ∷ b'e' ∷ []
word_of read = b'r' ∷ b'e' ∷ b'a' ∷ b'd' ∷ []
word_of write = b'w' ∷ b'r' ∷ b'i' ∷ b't' ∷ b'e' ∷ []
word_of syscall = b's' ∷ b'y' ∷ b's' ∷ b'c' ∷ b'a' ∷ b'l' ∷ b'l' ∷ []

-- An argument after a space, with the text behind it.
abbrev pub arg : ℕ → List ℕ → List ℕ
arg n rest = 32 ∷ (show_u n ++ rest)

unfoldable pub args_of : Opcode → Inst → List ℕ → List ℕ
args_of calc ins rest = 10 ∷ rest
args_of alloc ins rest = arg ins.arg_0 (arg ins.arg_1 (10 ∷ rest))
args_of free ins rest = arg ins.arg_0 (10 ∷ rest)
args_of read ins rest = arg ins.arg_0 (arg ins.arg_1 (arg ins.arg_2 (10 ∷ rest)))
args_of write ins rest = arg ins.arg_0 (arg ins.arg_1 (arg ins.arg_2 (10 ∷ rest)))
args_of syscall ins rest = arg ins.arg_0 (arg ins.arg_1 (arg ins.arg_2 (arg ins.arg_3 (10 ∷ rest))))

unfoldable pub print_code : List Inst → List ℕ
print_code [] = []
print_code (ins ∷ code) = word_of ins.opcode ++ args_of ins.opcode ins (print_code code)

-- A description with its header.
unfoldable pub print : ℕ → List Inst → List ℕ
print priority code = show_u priority ++ arg (length code) (10 ∷ print_code code)

-- The arguments fit an `unsigned int`.
pub record Small (ins : Inst) : Type 0 where
  pub arg_0 : ins.arg_0 < 2 ^ 32
  pub arg_1 : ins.arg_1 < 2 ^ 32
  pub arg_2 : ins.arg_2 < 2 ^ 32
  pub arg_3 : ins.arg_3 < 2 ^ 32

-- The instruction as it is read: the arguments that its line does not have are those of `blank`.
abbrev pub read_as : Inst → Opcode → Inst → Inst
read_as blank calc ins = record blank { opcode = calc }
read_as blank alloc ins = record blank { opcode = alloc; arg_0 = ins.arg_0; arg_1 = ins.arg_1 }
read_as blank free ins = record blank { opcode = free; arg_0 = ins.arg_0 }
read_as blank read ins = record ins { opcode = read; arg_3 = blank.arg_3 }
read_as blank write ins = record ins { opcode = write; arg_3 = blank.arg_3 }
read_as blank syscall ins = record ins { opcode = syscall }

-- Each word is read and known again; then come its arguments.
pub word-scan_s :
    (op : Opcode) (ins : Inst) (rest : List ℕ)
    → scan_s (word_of op ++ args_of op ins rest) ≡ (some (word_of op), args_of op ins rest)
unfolding scan_s scan_word skip_space word_of args_of
word-scan_s calc ins rest = refl
word-scan_s alloc ins rest = refl
word-scan_s free ins rest = refl
word-scan_s read ins rest = refl
word-scan_s write ins rest = refl
word-scan_s syscall ins rest = refl

pub word-get_opcode : (op : Opcode) → get_opcode (c_string (word_of op)) ≡ some op
unfolding get_opcode c_string word_of same_text
word-get_opcode calc = refl
word-get_opcode alloc = refl
word-get_opcode free = refl
word-get_opcode read = refl
word-get_opcode write = refl
word-get_opcode syscall = refl

-- White space at the start of a text does not matter to what comes next.
skip_space_twice : (text : List ℕ) → skip_space (skip_space text) ≡ skip_space text
unfolding skip_space
skip_space_twice [] = refl
skip_space_twice (c ∷ cs) = elim (Bool-cases (is_space c)) [
  | inl e ↦ rw (e, skip_space) (skip_space_twice cs)
  | inr e ↦ rw (e, skip_space) (rw e refl)
]

scan_s-skip_space : (text : List ℕ) → scan_s (skip_space text) ≡ scan_s text
unfolding scan_s
scan_s-skip_space text = ap (λ t. word_found (scan_word 9 t)) (skip_space_twice text)

-- The rest of a turn of the loop, once the word is known.
abbrev pub with_word : ℕ → Inst → Option (List ℕ) × List ℕ → Option (List Inst)
with_word left blank r = elim r.0 [
  | none ↦ none
  | some opcode ↦ elim (get_opcode (c_string opcode)) [
    | none ↦ none
    | some op ↦
        let (ins, rest') = scan_args (record blank { opcode = op }) r.1 in
        elim (load_text left blank rest') [ none ↦ none | some code ↦ some (ins ∷ code) ]
  ]
]

pub load_text_eq :
    (left : ℕ) (blank : Inst) (text : List ℕ)
    → load_text (suc left) blank text ≡ with_word left blank (scan_s text)
unfolding load_text
load_text_eq left blank text = refl

pub load_text-skip_space :
    (left : ℕ) (blank : Inst) (text : List ℕ)
    → load_text left blank (skip_space text) ≡ load_text left blank text
unfolding load_text
load_text-skip_space zero blank text = refl
load_text-skip_space (suc left) blank text =
    load_text_eq left blank (skip_space text)
    ∙ ap (with_word left blank) (scan_s-skip_space text)
    ∙ sym (load_text_eq left blank text)

pub load_text-newline :
    (left : ℕ) (blank : Inst) (text : List ℕ)
    → load_text left blank (10 ∷ text) ≡ load_text left blank text
unfolding skip_space
load_text-newline left blank text =
    sym (load_text-skip_space left blank (10 ∷ text)) ∙ load_text-skip_space left blank text

-- The arguments are read, up to the end of the line.
pub scan_1_lem :
    (ins : Inst) (a : ℕ) (rest : List ℕ)
    → a < 2 ^ 32
    → scan_1 ins (arg a (10 ∷ rest)) ≡ (record ins { arg_0 = a }, skip_space rest)
unfolding scan_1 scan_end skip_space
scan_1_lem ins a rest h =
    ap (λ (r : Bool × ℕ × List ℕ). (record ins { arg_0 = r.1 }, scan_end r.0 r.2))
      (scan_next-show ins.arg_0 a 10 rest h refl)

pub scan_2_lem :
    (ins : Inst) (a b : ℕ) (rest : List ℕ)
    → a < 2 ^ 32
    → b < 2 ^ 32
    → scan_2 ins (arg a (arg b (10 ∷ rest)))
      ≡ (record ins { arg_0 = a; arg_1 = b }, skip_space rest)
unfolding scan_2 scan_end skip_space
scan_2_lem ins a b rest h k = rw (scan_next-show ins.arg_0 a 32 (show_u b ++ 10 ∷ rest) h refl) (
    ap (λ (r : Bool × ℕ × List ℕ). (record ins { arg_0 = a; arg_1 = r.1 }, scan_end r.0 r.2))
      (scan_next-show ins.arg_1 b 10 rest k refl))

pub scan_3_lem :
    (ins : Inst) (a b d : ℕ) (rest : List ℕ)
    → a < 2 ^ 32
    → b < 2 ^ 32
    → d < 2 ^ 32
    → scan_3 ins (arg a (arg b (arg d (10 ∷ rest))))
      ≡ (record ins { arg_0 = a; arg_1 = b; arg_2 = d }, skip_space rest)
unfolding scan_3 scan_end skip_space
scan_3_lem ins a b d rest h k l =
    rw
      (
        scan_next-show ins.arg_0 a 32 (show_u b ++ arg d (10 ∷ rest)) h refl,
        scan_next-show ins.arg_1 b 32 (show_u d ++ 10 ∷ rest) k refl,
      )
      (ap
        (λ (r : Bool × ℕ × List ℕ).
          (record ins { arg_0 = a; arg_1 = b; arg_2 = r.1 }, scan_end r.0 r.2))
        (scan_next-show ins.arg_2 d 10 rest l refl))
