-- ===== src/Simulator/Settings/Roundtrip.antt =====
-- src/os.c: `read_config` reads back a configuration that was printed.
use ossim_os.Base.{
  ℕ, ◌^◌, ◌≤◌, ◌<◌, ◌≡◌, refl, sym, ap, ◌∙◌, true, false, ◌&&◌, Option, some, List, [], ◌∷◌, ◌++◌,
  arith,
}
use ossim_os.Base.Tests.{leb}
use ossim_os.Base.Lists.{length, All, length-append}
use ossim_os.Types.{Inst}
use ossim_os.Loader.{is_digit, skip_space, scan_as, scan_word, take}
use ossim_os.Loader.Numbers.{show_u, append_assoc, scan_as-space}
use ossim_os.Loader.Lines.{
  Plain, All-append, show-Plain, show-length, scan_line_lem, c_string_lem, four, four-Plain,
  four-length, four_end,
}
use ossim_os.Simulator.{LdArgs}
use ossim_os.Simulator.Settings.{
  to_int, to_long, natural, positive, proc_path, scan_process, scan_name, scan_counts, scan_sizes,
  swap_sizes, read_sizes, read_processes, read_rest, read_body, read_config,
}
use ossim_os.Simulator.Settings.Printed.{
  show_long, Line, print_line, print_lines, Letter, Readable, scan_int-show, scan_long-show,
  skip_space-show, skip_space-print_lines, scan_word-name,
}

-- `%d` and `%lu` after a space.
next_int :
    (n c : ℕ) (rest : List ℕ)
    → n < 2 ^ 31
    → is_digit c ≡ false
    → scan_as to_int (32 ∷ (show_u n ++ c ∷ rest)) ≡ (some n, c ∷ rest)
next_int n c rest h e =
    scan_as-space to_int 32 (show_u n ++ c ∷ rest) refl ∙ scan_int-show n c rest h e

next_long :
    (n c : ℕ) (rest : List ℕ)
    → n < 2 ^ 64
    → is_digit c ≡ false
    → scan_as to_long (32 ∷ (show_long n ++ c ∷ rest)) ≡ (some n, c ∷ rest)
next_long n c rest h e =
    scan_as-space to_long 32 (show_long n ++ c ∷ rest) refl ∙ scan_long-show n c rest h e

-- The name after a space.
scan_name_lem :
    (name rest : List ℕ)
    → All Letter name
    → 0 < length name
    → length name ≤ 63
    → scan_name (32 ∷ (name ++ 32 ∷ rest)) ≡ (some name, 32 ∷ rest)
unfolding scan_name skip_space
scan_name_lem [] rest a h k = absurd (omega (arith, h))
scan_name_lem (c ∷ cs) rest (p, a) h k =
    let skip : skip_space (32 ∷ (c ∷ (cs ++ 32 ∷ rest))) ≡ c ∷ (cs ++ 32 ∷ rest) =
      rw (p.0, skip_space) refl in
    let word : scan_word 63 (skip_space (32 ∷ (c ∷ (cs ++ 32 ∷ rest)))) ≡ (c ∷ cs, 32 ∷ rest) =
      ap (scan_word 63) skip ∙ scan_word-name 63 (c ∷ cs) rest (p, a) k in
    rw (word, scan_name) (ap (λ (r : List ℕ × List ℕ). (some (c ∷ cs), r.1)) word)

-- What `ld_processes` holds for a line.
abbrev pub args_of_line : Line → LdArgs
args_of_line l = record { path = proc_path l.name; start_time = l.start_time; prio = l.prio }

unfoldable pub args_of_lines : List Line → List LdArgs
args_of_lines [] = []
args_of_lines (l ∷ ls) = args_of_line l ∷ args_of_lines ls

scan_process_lem :
    (l : Line) (rest : List ℕ)
    → Readable l
    → scan_process (print_line l rest) ≡ some (args_of_line l, skip_space rest)
unfolding scan_process skip_space
scan_process_lem l rest p =
    let first =
      scan_long-show l.start_time 32 (l.name ++ 32 ∷ (show_long l.prio ++ 10 ∷ rest)) p.start_time
        refl in
    let second =
      scan_name_lem l.name (show_long l.prio ++ 10 ∷ rest) p.letters p.some_name p.short_name in
    let third = next_long l.prio 10 rest p.prio refl in rw (first, second, third, scan_process) refl

read_processes_lem :
    (ls : List Line)
    → All Readable ls
    → read_processes (length ls) (print_lines ls) ≡ some (args_of_lines ls)
unfolding print_lines args_of_lines read_processes take
read_processes_lem [] p = unfold read_processes in refl
read_processes_lem (l ∷ ls) (p, ps) =
    let first : scan_process (print_line l (print_lines ls))
        ≡ some (args_of_line l, print_lines ls) =
      scan_process_lem l (print_lines ls) p
      ∙ ap (λ t. some (args_of_line l, t)) (skip_space-print_lines ls) in
    rw (first, read_processes_lem ls ps, read_processes) refl

-- The line of the sizes, with the text behind it.
abbrev pub print_sizes : ℕ → ℕ → ℕ → ℕ → ℕ → List ℕ → List ℕ
print_sizes ram swp0 swp1 swp2 swp3 rest = (show_u ram ++ four swp0 swp1 swp2 swp3) ++ 10 ∷ rest

sizes-Plain : (a b d e f : ℕ) → All Plain (show_u a ++ four b d e f)
sizes-Plain a b d e f = All-append (show_u a) (four b d e f) (show-Plain 10 a) (four-Plain b d e f)

sizes-length : (a b d e f : ℕ) → length (show_u a ++ four b d e f) < 255
sizes-length a b d e f =
    omega (arith, length-append (show_u a) (four b d e f), show-length 10 a, four-length b d e f)

scan_sizes_lem :
    (a b d e f : ℕ)
    → a < 2 ^ 31
    → b < 2 ^ 31
    → d < 2 ^ 31
    → e < 2 ^ 31
    → f < 2 ^ 31
    → scan_sizes ((show_u a ++ four b d e f) ++ 10 ∷ []) ≡ some (a, b, d, e, f)
unfolding scan_sizes
scan_sizes_lem a b d e f ha hb hd he hf =
    let text : (show_u a ++ four b d e f) ++ 10 ∷ []
        ≡ show_u a
          ++ 32 ∷ (show_u b ++ 32 ∷ (show_u d ++ 32 ∷ (show_u e ++ 32 ∷ (show_u f ++ 10 ∷ [])))) =
      append_assoc (show_u a) (four b d e f) (10 ∷ [])
      ∙ ap (λ l. show_u a ++ l) (four_end b d e f (10 ∷ [])) in
    let z0 =
      scan_int-show a 32
        (show_u b ++ 32 ∷ (show_u d ++ 32 ∷ (show_u e ++ 32 ∷ (show_u f ++ 10 ∷ [])))) ha refl in
    let z1 = next_int b 32 (show_u d ++ 32 ∷ (show_u e ++ 32 ∷ (show_u f ++ 10 ∷ []))) hb refl in
    let z2 = next_int d 32 (show_u e ++ 32 ∷ (show_u f ++ 10 ∷ [])) hd refl in
    let z3 = next_int e 32 (show_u f ++ 10 ∷ []) he refl in
    let z4 = next_int f 10 [] hf refl in
    ap scan_sizes text ∙ rw (z0, z1, z2, z3, z4, scan_sizes) refl

read_sizes_lem :
    (a b d e f : ℕ) (rest : List ℕ)
    → a < 2 ^ 31
    → b < 2 ^ 31
    → d < 2 ^ 31
    → e < 2 ^ 31
    → f < 2 ^ 31
    → read_sizes (print_sizes a b d e f rest) ≡ (a, swap_sizes b d e f, rest)
unfolding read_sizes
read_sizes_lem a b d e f rest ha hb hd he hf =
    let line =
      scan_line_lem 255 (show_u a ++ four b d e f) rest (sizes-length a b d e f)
        (sizes-Plain a b d e f) in
    let whole = c_string_lem (show_u a ++ four b d e f) (sizes-Plain a b d e f) in
    rw (line, whole, scan_sizes_lem a b d e f ha hb hd he hf, read_sizes)
      (ap (λ (r : List ℕ × List ℕ). (a, swap_sizes b d e f, r.1)) line)

-- A configuration in print: the counts, the sizes, and the processes.
unfoldable pub print_config : ℕ → ℕ → ℕ → ℕ → ℕ → ℕ → ℕ → List Line → List ℕ
print_config time_slot num_cpus ram swp0 swp1 swp2 swp3 lines =
    show_u time_slot
    ++ 32
      ∷ (show_u num_cpus
          ++ 32
            ∷ (show_u (length lines)
                ++ 10 ∷ print_sizes ram swp0 swp1 swp2 swp3 (print_lines lines)))

scan_counts_lem :
    (a b d : ℕ) (rest : List ℕ)
    → a < 2 ^ 31
    → b < 2 ^ 31
    → d < 2 ^ 31
    → scan_counts (show_u a ++ 32 ∷ (show_u b ++ 32 ∷ (show_u d ++ 10 ∷ rest)))
      ≡ some ((a, b, d), skip_space rest)
unfolding scan_counts skip_space
scan_counts_lem a b d rest ha hb hd =
    let z0 = scan_int-show a 32 (show_u b ++ 32 ∷ (show_u d ++ 10 ∷ rest)) ha refl in
    let z1 = next_int b 32 (show_u d ++ 10 ∷ rest) hb refl in
    let z2 = next_int d 10 rest hd refl in rw (z0, z1, z2, scan_counts) refl

pub read_rest_lem :
    (blank : Inst) (files : List ℕ → Option (List ℕ)) (time_slot num_cpus n ram : ℕ) (swp : ℕ → ℕ)
    (rest : List ℕ) (l : List LdArgs)
    → ((leb 256 ram && natural ram) && (leb 256 (swp 0) && natural (swp 0))) ≡ true
    → read_processes n rest ≡ some l
    → read_rest blank files time_slot num_cpus n (ram, swp, rest)
      ≡ some (record {
        num_cpus = num_cpus;
        time_slot = time_slot;
        memramsz = ram;
        memswpsz = swp;
        ld_processes = l;
        files = files;
        blank = blank;
      })
unfolding read_rest
read_rest_lem blank files time_slot num_cpus n ram swp rest l big e = rw (big, e, read_rest) refl

-- `read_config` reads back a printed configuration: with a positive time slot, number of CPUs and number
-- of processes, RAM and a first swap device of a page at least, all of them of type `int` and not
-- negative, and processes whose names are of 1 to 63 characters without white space and whose times and
-- priorities are of type `unsigned long`, it returns those settings.
pub read_config-print_config :
    (blank : Inst) (files : List ℕ → Option (List ℕ))
    (time_slot num_cpus ram swp0 swp1 swp2 swp3 : ℕ) (lines : List Line)
    → (0 < time_slot) × (time_slot < 2 ^ 31)
    → (0 < num_cpus) × (num_cpus < 2 ^ 31)
    → (0 < length lines) × (length lines < 2 ^ 31)
    → (256 ≤ ram) × (ram < 2 ^ 31)
    → (256 ≤ swp0) × (swp0 < 2 ^ 31)
    → (swp1 < 2 ^ 31) × (swp2 < 2 ^ 31) × (swp3 < 2 ^ 31)
    → All Readable lines
    → read_config blank files (some (print_config time_slot num_cpus ram swp0 swp1 swp2 swp3 lines))
      ≡ some (record {
        num_cpus = num_cpus;
        time_slot = time_slot;
        memramsz = ram;
        memswpsz = swap_sizes swp0 swp1 swp2 swp3;
        ld_processes = args_of_lines lines;
        files = files;
        blank = blank;
      })
unfolding print_config read_config read_body
read_config-print_config blank files ts nc ram swp0 swp1 swp2 swp3 lines slot cpus n r0 s0
      (s1, s2, s3) readable =
    let body = print_sizes ram swp0 swp1 swp2 swp3 (print_lines lines) in
    let no_space : skip_space body ≡ body =
      ap skip_space (append_assoc (show_u ram) (four swp0 swp1 swp2 swp3) (10 ∷ print_lines lines))
      ∙ skip_space-show 9 ram (four swp0 swp1 swp2 swp3 ++ 10 ∷ print_lines lines)
      ∙ sym (append_assoc (show_u ram) (four swp0 swp1 swp2 swp3) (10 ∷ print_lines lines)) in
    let counts =
      scan_counts_lem ts nc (length lines) body slot.1 cpus.1 n.1
      ∙ ap (λ t. some ((ts, nc, length lines), t)) no_space in
    let good : (positive ts && positive nc && positive (length lines)) ≡ true =
      ground (arith, slot, cpus, n) in
    let sizes = read_sizes_lem ram swp0 swp1 swp2 swp3 (print_lines lines) r0.1 s0.1 s1 s2 s3 in
    let big : ((leb 256 ram && natural ram) && (leb 256 swp0 && natural swp0)) ≡ true =
      ground (arith, r0, s0) in
    rw (counts, good, read_config)
      (ap (read_rest blank files ts nc (length lines)) sizes
        ∙ read_rest_lem blank files ts nc (length lines) ram (swap_sizes swp0 swp1 swp2 swp3)
            (print_lines lines) (args_of_lines lines) big (read_processes_lem lines readable))
