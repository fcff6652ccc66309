-- ===== src/Loader/Numbers.antt =====
-- src/loader.c: the conversion `%u` reads back a number in decimal digits.
use ossim_os.Base.{
  ℕ, zero, suc, ◌+◌, ◌-◌, ◌*◌, ◌/◌, ◌%◌, ◌^◌, ◌<◌, ◌≡◌, refl, sym, ap, ◌∙◌, Bool, true, false,
  Option, some, List, [], ◌∷◌, ◌++◌, inl, inr, arith,
}
use ossim_os.Base.Tests.{ltb, ◌==◌, if◌then◌else◌, Bool-cases}
use ossim_os.Loader.{
  is_space, is_digit, skip_space, scan_digits, to_unsigned, scan_number, scan_as, scan_u, scan_next,
}

-- A number in decimal, of at most `fuel` digits.
unfoldable pub show : ℕ → ℕ → List ℕ
show zero n = []
show (suc fuel) n =
    let front = show fuel (n / 10) in
    if ltb n 10 then (48 + n) ∷ [] else front ++ (48 + n % 10) ∷ []

-- An `unsigned int` has at most 10 digits.
abbrev pub show_u : ℕ → List ℕ
show_u n = show 10 n

pub append_assoc : (xs ys zs : List ℕ) → (xs ++ ys) ++ zs ≡ xs ++ (ys ++ zs)
append_assoc [] ys zs = refl
append_assoc (x ∷ xs) ys zs = ap (λ l. x ∷ l) (append_assoc xs ys zs)

scan_digit :
    (value d : ℕ) (rest : List ℕ)
    → d < 10
    → scan_digits value ((48 + d) ∷ rest) ≡ scan_digits (value * 10 + d) rest
unfolding scan_digits
scan_digit value d rest h =
    let e : is_digit (48 + d) ≡ true = ground arith in
    let f : value * 10 + (48 + d - 48) ≡ value * 10 + d = omega arith in rw (e, f, scan_digits) refl

-- A number of at most `fuel` digits.
abbrev pub Short : ℕ → ℕ → Type 0
Short zero n = n ≡ 0
Short (suc fuel) n = Short fuel (n / 10)

scan_digits-show :
    (fuel n : ℕ) (rest : List ℕ)
    → Short fuel n
    → scan_digits 0 (show fuel n ++ rest) ≡ scan_digits n rest
unfolding show
scan_digits-show zero n rest h = ap (λ k. scan_digits k rest) (sym h)
scan_digits-show (suc fuel) n rest h = elim (Bool-cases (ltb n 10)) [
  | inl e ↦
      let f : 0 * 10 + n ≡ n = omega arith in
      rw e (scan_digit 0 n rest (ground (arith, e)) ∙ ap (λ k. scan_digits k rest) f)
  | inr e ↦
      let f : n / 10 * 10 + n % 10 ≡ n = omega arith in
      rw e (
        ap (scan_digits 0) (append_assoc (show fuel (n / 10)) ((48 + n % 10) ∷ []) rest)
        ∙ scan_digits-show fuel (n / 10) ((48 + n % 10) ∷ rest) h
        ∙ scan_digit (n / 10) (n % 10) rest (omega arith)
        ∙ ap (λ k. scan_digits k rest) f)
]

-- The first character is a digit.
pub show_head :
    (fuel n : ℕ) → (c : ℕ) × (cs : List ℕ) × (show (suc fuel) n ≡ c ∷ cs) × (is_digit c ≡ true)
unfolding show
show_head zero n = elim (Bool-cases (ltb n 10)) [
  | inl e ↦ (48 + n, [], rw e refl, ground (arith, e))
  | inr e ↦ (48 + n % 10, [], rw e refl, ground arith)
]
show_head (suc fuel) n = elim (Bool-cases (ltb n 10)) [
  | inl e ↦ (48 + n, [], rw e refl, ground (arith, e))
  | inr e ↦
      let (c, cs, f, d) = show_head fuel (n / 10) in
      (c, cs ++ (48 + n % 10) ∷ [], rw e (ap (λ l. l ++ (48 + n % 10) ∷ []) f), d)
]

-- A conversion from a digit on.
scan_as_digit :
    (store : Bool → ℕ → ℕ) (c : ℕ) (cs : List ℕ)
    → is_digit c ≡ true
    → scan_as store (c ∷ cs)
      ≡ (some (store false (scan_digits 0 (c ∷ cs)).0), (scan_digits 0 (c ∷ cs)).1)
unfolding scan_as skip_space scan_number
scan_as_digit store c cs d =
    let no_space : is_space c ≡ false = ground (arith, d) in
    let no_minus : (c == 45) ≡ false = ground (arith, d) in
    let no_plus : (c == 43) ≡ false = ground (arith, d) in rw (no_space, no_minus, no_plus, d) refl

scan_digits_stop :
    (n c : ℕ) (rest : List ℕ) → is_digit c ≡ false → scan_digits n (c ∷ rest) ≡ (n, c ∷ rest)
unfolding scan_digits
scan_digits_stop n c rest e = rw (e, scan_digits) refl

-- A conversion reads back a number that it stores as it is, up to the first character that is no digit.
pub scan_as-show :
    (store : Bool → ℕ → ℕ) (fuel n c : ℕ) (rest : List ℕ)
    → Short (suc fuel) n
    → store false n ≡ n
    → is_digit c ≡ false
    → scan_as store (show (suc fuel) n ++ c ∷ rest) ≡ (some n, c ∷ rest)
scan_as-show store fuel n c rest h same e =
    let (d, ds, f, is) = show_head fuel n in
    let text : show (suc fuel) n ++ c ∷ rest ≡ d ∷ (ds ++ c ∷ rest) = ap (λ l. l ++ c ∷ rest) f in
    let read : scan_digits 0 (show (suc fuel) n ++ c ∷ rest) ≡ (n, c ∷ rest) =
      scan_digits-show (suc fuel) n (c ∷ rest) h ∙ scan_digits_stop n c rest e in
    let read' : scan_digits 0 (d ∷ (ds ++ c ∷ rest)) ≡ (n, c ∷ rest) =
      ap (scan_digits 0) (sym text) ∙ read in
    ap (scan_as store) text
    ∙ scan_as_digit store d (ds ++ c ∷ rest) is
    ∙ ap (λ (r : ℕ × List ℕ). (some (store false r.0), r.1)) read'
    ∙ ap (λ k. (some k, c ∷ rest)) same

-- White space before a number is skipped.
pub scan_as-space :
    (store : Bool → ℕ → ℕ) (c : ℕ) (rest : List ℕ)
    → is_space c ≡ true
    → scan_as store (c ∷ rest) ≡ scan_as store rest
unfolding scan_as skip_space
scan_as-space store c rest e = rw e refl

-- `%u` reads back a number of an `unsigned int`.
pub scan_u-show :
    (n c : ℕ) (rest : List ℕ)
    → n < 2 ^ 32
    → is_digit c ≡ false
    → scan_u (show_u n ++ c ∷ rest) ≡ (some n, c ∷ rest)
unfolding scan_u to_unsigned
scan_u-show n c rest h e = scan_as-show to_unsigned 9 n c rest (omega arith) (ground arith) e

pub scan_u-space : (c : ℕ) (rest : List ℕ) → is_space c ≡ true → scan_u (c ∷ rest) ≡ scan_u rest
unfolding scan_u
scan_u-space = scan_as-space to_unsigned

pub scan_next-show :
    (old n c : ℕ) (rest : List ℕ)
    → n < 2 ^ 32
    → is_digit c ≡ false
    → scan_next true old (32 ∷ (show_u n ++ c ∷ rest)) ≡ (true, n, c ∷ rest)
unfolding scan_next
scan_next-show old n c rest h e =
    let read = scan_u-space 32 (show_u n ++ c ∷ rest) refl ∙ scan_u-show n c rest h e in
    rw (read, scan_next) (ap (λ (r : Option ℕ × List ℕ). (true, n, r.1)) read)
