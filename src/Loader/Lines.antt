-- ===== src/Loader/Lines.antt =====
-- src/loader.c, `load`: the line of a system call, read by `fgets` and `sscanf`.
use ossim_os.Base.{
  ℕ, zero, suc, ◌+◌, ◌/◌, ◌%◌, ◌^◌, ◌≤◌, ◌<◌, ◌≡◌, refl, sym, ap, ◌∙◌, false, List, [], ◌∷◌, ◌++◌,
  inl, inr, arith,
}
use ossim_os.Base.Tests.{ltb, ◌==◌, Bool-cases}
use ossim_os.Base.Lists.{length, All, length-append}
use ossim_os.Types.{Inst}
use ossim_os.Loader.{c_string, scan_line, scan_call}
use ossim_os.Loader.Numbers.{show, show_u, append_assoc, scan_next-show}

-- A character of a line: neither its end nor a byte 0.
abbrev pub Plain : ℕ → Type 0
Plain c = ((c == 10) ≡ false) × ((c == 0) ≡ false)

pub All-append : (xs ys : List ℕ) → All Plain xs → All Plain ys → All Plain (xs ++ ys)
All-append [] ys a b = b
All-append (x ∷ xs) ys (p, a) b = (p, All-append xs ys a b)

pub show-Plain : (fuel n : ℕ) → All Plain (show fuel n)
unfolding show
show-Plain zero n = tt
show-Plain (suc fuel) n = elim (Bool-cases (ltb n 10)) [
  | inl e ↦ rw e ((ground arith, ground arith), tt)
  | inr e ↦ rw e (
      All-append (show fuel (n / 10)) _ (show-Plain fuel (n / 10))
        ((ground arith, ground arith), tt))
]

pub show-length : (fuel n : ℕ) → length (show fuel n) ≤ fuel
unfolding show
show-length zero n = omega arith
show-length (suc fuel) n = elim (Bool-cases (ltb n 10)) [
  | inl e ↦ rw e (omega arith)
  | inr e ↦ rw e (
      omega
        (arith, show-length fuel (n / 10), length-append (show fuel (n / 10)) ((48 + n % 10) ∷ [])))
]

-- `fgets` takes a line that fits, with its end.
pub scan_line_lem :
    (left : ℕ) (line rest : List ℕ)
    → length line < left
    → All Plain line
    → scan_line left (line ++ 10 ∷ rest) ≡ (line ++ 10 ∷ [], rest)
unfolding scan_line
scan_line_lem zero line rest h a = absurd (omega arith)
scan_line_lem (suc left) [] rest h a = refl
scan_line_lem (suc left) (c ∷ cs) rest h ((p, _), a) =
    let e = scan_line_lem left cs rest (omega arith) a in
    rw p (ap (λ (r : List ℕ × List ℕ). (c ∷ r.0, r.1)) e)

pub c_string_lem : (line : List ℕ) → All Plain line → c_string (line ++ 10 ∷ []) ≡ line ++ 10 ∷ []
unfolding c_string
c_string_lem [] a = refl
c_string_lem (c ∷ cs) ((_, z), a) = rw z (ap (λ l. c ∷ l) (c_string_lem cs a))

-- Four arguments, each after a space.
abbrev pub four : ℕ → ℕ → ℕ → ℕ → List ℕ
four a b d e = 32 ∷ (show_u a ++ 32 ∷ (show_u b ++ 32 ∷ (show_u d ++ 32 ∷ show_u e)))

pub four-Plain : (a b d e : ℕ) → All Plain (four a b d e)
four-Plain a b d e =
    let one : (n : ℕ) (rest : List ℕ) → All Plain rest → All Plain (32 ∷ (show_u n ++ rest)) =
      λ n rest h. ((refl, refl), All-append (show_u n) rest (show-Plain 10 n) h) in
    one a _ (one b _ (one d _ ((refl, refl), show-Plain 10 e)))

pub four-length : (a b d e : ℕ) → length (four a b d e) < 199
four-length a b d e =
    let one : (n : ℕ) (rest : List ℕ) → length (32 ∷ (show_u n ++ rest)) ≤ 11 + length rest =
      λ n rest. omega (arith, length-append (show_u n) rest, show-length 10 n) in
    omega (
      arith,
      one a (32 ∷ (show_u b ++ 32 ∷ (show_u d ++ 32 ∷ show_u e))),
      one b (32 ∷ (show_u d ++ 32 ∷ show_u e)),
      one d (32 ∷ show_u e),
      show-length 10 e,
    )

pub four_end :
    (a b d e : ℕ) (rest : List ℕ)
    → four a b d e ++ rest
      ≡ 32 ∷ (show_u a ++ 32 ∷ (show_u b ++ 32 ∷ (show_u d ++ 32 ∷ (show_u e ++ rest))))
four_end a b d e rest =
    let three : (show_u d ++ 32 ∷ show_u e) ++ rest ≡ show_u d ++ 32 ∷ (show_u e ++ rest) =
      append_assoc (show_u d) (32 ∷ show_u e) rest in
    let two = append_assoc (show_u b) (32 ∷ (show_u d ++ 32 ∷ show_u e)) rest in
    let one = append_assoc (show_u a) (32 ∷ (show_u b ++ 32 ∷ (show_u d ++ 32 ∷ show_u e))) rest in
    ap (λ l. 32 ∷ l) (one ∙ ap (λ l. show_u a ++ 32 ∷ l) (two ∙ ap (λ l. show_u b ++ 32 ∷ l) three))

-- The line of a system call with its four arguments.
pub scan_call_lem :
    (ins : Inst) (a b d e : ℕ) (rest : List ℕ)
    → a < 2 ^ 32
    → b < 2 ^ 32
    → d < 2 ^ 32
    → e < 2 ^ 32
    → scan_call ins
        (32 ∷ (show_u a ++ 32 ∷ (show_u b ++ 32 ∷ (show_u d ++ 32 ∷ (show_u e ++ 10 ∷ rest)))))
      ≡ (record ins { arg_0 = a; arg_1 = b; arg_2 = d; arg_3 = e }, rest)
unfolding scan_call
scan_call_lem ins a b d e rest h k l m =
    let line =
      sym (ap (scan_line 199) (four_end a b d e (10 ∷ rest)))
      ∙ scan_line_lem 199 (four a b d e) rest (four-length a b d e) (four-Plain a b d e) in
    let whole = c_string_lem (four a b d e) (four-Plain a b d e) ∙ four_end a b d e (10 ∷ []) in
    let z0 =
      scan_next-show ins.arg_0 a 32 (show_u b ++ 32 ∷ (show_u d ++ 32 ∷ (show_u e ++ 10 ∷ []))) h
        refl in
    let z1 = scan_next-show 0 b 32 (show_u d ++ 32 ∷ (show_u e ++ 10 ∷ [])) k refl in
    let z2 = scan_next-show 0 d 32 (show_u e ++ 10 ∷ []) l refl in
    let z3 = scan_next-show 0 e 10 [] m refl in rw (line, whole, z0, z1, z2, z3) refl
