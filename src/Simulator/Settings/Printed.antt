-- ===== src/Simulator/Settings/Printed.antt =====
-- src/os.c, `read_config`: how its conversions read a printed configuration.
use ossim_os.Base.{
  ℕ, zero, suc, ◌^◌, ◌≤◌, ◌<◌, ◌≡◌, refl, sym, ap, ◌∙◌, false, some, List, [], ◌∷◌, ◌++◌, arith,
}
use ossim_os.Base.Tests.{◌==◌}
use ossim_os.Base.Lists.{length, All}
use ossim_os.Loader.{is_space, is_digit, skip_space, scan_as, scan_word}
use ossim_os.Loader.Numbers.{show, show_u, show_head, Short, scan_as-show}
use ossim_os.Simulator.Settings.{to_int, to_long}

-- An `unsigned long` has at most 20 digits.
abbrev pub show_long : ℕ → List ℕ
show_long n = show 20 n

-- A line of a process: its name, the time of its start, and its priority.
pub record Line : Type 0 where
  pub name : List ℕ
  pub start_time : ℕ
  pub prio : ℕ

abbrev pub print_line : Line → List ℕ → List ℕ
print_line l rest = show_long l.start_time ++ 32 ∷ (l.name ++ 32 ∷ (show_long l.prio ++ 10 ∷ rest))

unfoldable pub print_lines : List Line → List ℕ
print_lines [] = []
print_lines (l ∷ ls) = print_line l (print_lines ls)

-- A character of a name.
abbrev pub Letter : ℕ → Type 0
Letter c = (is_space c ≡ false) × ((c == 0) ≡ false)

-- A line that `read_config` can read back: its name fits the 63 characters, and its numbers 64 bits.
pub record Readable (l : Line) : Type 0 where
  pub letters : All Letter l.name
  pub some_name : 0 < length l.name
  pub short_name : length l.name ≤ 63
  pub start_time : l.start_time < 2 ^ 64
  pub prio : l.prio < 2 ^ 64

-- `%d` and `%lu` read back what was printed.
pub scan_int-show :
    (n c : ℕ) (rest : List ℕ)
    → n < 2 ^ 31
    → is_digit c ≡ false
    → scan_as to_int (show_u n ++ c ∷ rest) ≡ (some n, c ∷ rest)
unfolding to_int
scan_int-show n c rest h e = scan_as-show to_int 9 n c rest (omega (arith, h)) (ground (arith, h)) e

Short-long : (n : ℕ) → n < 2 ^ 64 → Short 20 n
Short-long n h = omega (arith, h)

pub scan_long-show :
    (n c : ℕ) (rest : List ℕ)
    → n < 2 ^ 64
    → is_digit c ≡ false
    → scan_as to_long (show_long n ++ c ∷ rest) ≡ (some n, c ∷ rest)
unfolding to_long
scan_long-show n c rest h e =
    scan_as-show to_long 19 n c rest (Short-long n h) (ground (arith, h)) e

-- No white space comes before a number.
pub skip_space-show :
    (fuel n : ℕ) (rest : List ℕ)
    → skip_space (show (suc fuel) n ++ rest) ≡ show (suc fuel) n ++ rest
unfolding skip_space
skip_space-show fuel n rest =
    let (c, cs, e, d) = show_head fuel n in
    let text : show (suc fuel) n ++ rest ≡ c ∷ (cs ++ rest) = ap (λ l. l ++ rest) e in
    let no_space : is_space c ≡ false = ground (arith, d) in
    let keeps : skip_space (c ∷ (cs ++ rest)) ≡ c ∷ (cs ++ rest) = rw (no_space, skip_space) refl in
    ap skip_space text ∙ keeps ∙ sym text

pub skip_space-print_lines : (ls : List Line) → skip_space (print_lines ls) ≡ print_lines ls
unfolding print_lines
skip_space-print_lines [] = unfold skip_space in refl
skip_space-print_lines (l ∷ ls) =
    skip_space-show 19 l.start_time
      (32 ∷ (l.name ++ 32 ∷ (show_long l.prio ++ 10 ∷ print_lines ls)))

-- A name is read up to the space behind it.
pub scan_word-name :
    (left : ℕ) (name rest : List ℕ)
    → All Letter name
    → length name ≤ left
    → scan_word left (name ++ 32 ∷ rest) ≡ (name, 32 ∷ rest)
unfolding scan_word
scan_word-name zero [] rest a h = refl
scan_word-name zero (c ∷ cs) rest a h = absurd (omega (arith, h))
scan_word-name (suc left) [] rest a h = refl
scan_word-name (suc left) (c ∷ cs) rest (p, a) h =
    rw (p.0, scan_word)
      (ap (λ (r : List ℕ × List ℕ). (c ∷ r.0, r.1))
        (scan_word-name left cs rest a (omega (arith, h))))
