-- ===== src/Paging/View.antt =====
-- The memory of a process as its pages, wherever they stand, and the invariant of its page table.
use mathlib.Core.Logic.{ite, if_pos, if_neg}
use ossim_os.Base.{
  ℕ, ◌+◌, ◌*◌, ◌%◌, ◌^◌, ◌≤◌, ◌<◌, ◌≡◌, ◌≢◌, refl, sym, ap, ◌∙◌, true, false, Option, none, some,
  arith,
}
use ossim_os.Base.Tests.{ltb, if◌then◌else◌}
use ossim_os.Base.Lists.{count}
use ossim_os.Pte.{
  page_present, page_swapped, paging_fpn, swap_type, paging_swp, pte_set_fpn, pte_set_swap,
}
use ossim_os.Pte.Fields.{pte_set_fpn-Online, pte_set_swap-Offline}
use ossim_os.Paging.{Vm}
use ossim_os.Paging.Owner.{Place, ram, swap, Place-discrete, Owned}

-- Where an entry says that its page stands.
abbrev pub where_of : ℕ → Option Place
where_of pte =
    if page_present pte
    then (if page_swapped pte
        then some (swap (swap_type pte) (paging_swp pte))
        else some (ram (paging_fpn pte)))
    else none

abbrev pub where_is : Vm → ℕ → Option Place
where_is s p = if ltb p 16384 then where_of (s.mm.pgd p) else none

abbrev pub byte_of : Vm → Place → ℕ → ℕ
byte_of s (ram f) off = s.mram.storage (f * 256 + off)
byte_of s (swap t f) off = (s.mswp t).storage (f * 256 + off)

abbrev pub byte_in : Vm → ℕ → Option Place → Option ℕ
byte_in s off none = none
byte_in s off (some x) = some (byte_of s x off)

-- The byte of the process at an offset in a page, if the page is mapped.
abbrev pub peek : Vm → ℕ → ℕ → Option ℕ
peek s p off = byte_in s off (where_is s p)

-- The sizes of the devices; `SizesOk` says that every frame has a number that fits its field.
pub record Sizes : Type 0 where
  pub ram_size : ℕ
  pub swp_size : ℕ → ℕ

pub record SizesOk (c : Sizes) : Type 0 where
  pub ram_small : c.ram_size ≤ 2 ^ 21
  pub swp_small : (t : ℕ) → t < 4 → c.swp_size t ≤ 2 ^ 29

abbrev pub Fits : Sizes → Place → Type 0
Fits c (ram f) = f * 256 + 256 ≤ c.ram_size
Fits c (swap t f) = (t < 4) × (f * 256 + 256 ≤ c.swp_size t)

abbrev pub free_count : Vm → Place → ℕ
free_count s (ram f) = count f s.mram.free_fp_list
free_count s (swap t f) = if ltb t 4 then count f (s.mswp t).free_fp_list else 0

-- `held` counts the frames in the hands of other processes, or of a call that has not mapped them.
abbrev pub stock : (Place → ℕ) → Vm → Place → ℕ
stock held s x = free_count s x + held x

abbrev pub in_ram : Option Place → ℕ
in_ram none = 0
in_ram (some (ram f)) = 1
in_ram (some (swap t f)) = 0

-- The invariant: frames have one owner each, frame numbers fit their device, and the list for the
-- replacement holds exactly the pages in RAM.
pub record Wf (c : Sizes) (held : Place → ℕ) (s : Vm) : Type 0 where
  pub ram_size : s.mram.maxsz ≡ c.ram_size
  pub swp_size : (t : ℕ) → t < 4 → (s.mswp t).maxsz ≡ c.swp_size t
  pub active : s.active_mswp_id < 4
  pub words : (p : ℕ) → p < 16384 → s.mm.pgd p < 2 ^ 32
  pub owned : Owned (Fits c) (where_is s) (stock held s)
  pub fifo : (p : ℕ) → count p s.mm.fifo_pgn ≡ in_ram (where_is s p)

-- One more frame in hand.
abbrev pub hold : Place → (Place → ℕ) → Place → ℕ
hold x held y = ite (Place-discrete x y) 1 0 + held y

-- Every byte of the process is what it was, and every byte of the frames that others hold.
pub record Keeps (held : Place → ℕ) (s t : Vm) : Type 0 where
  pub pages : (p off : ℕ) → off < 256 → peek t p off ≡ peek s p off
  pub others : (x : Place) (off : ℕ) → 0 < held x → off < 256 → byte_of t x off ≡ byte_of s x off

pub Keeps-refl : (held : Place → ℕ) (s : Vm) → Keeps held s s
Keeps-refl held s = record { pages = λ p off h. refl; others = λ x off h k. refl }

pub Keeps-trans : (held : Place → ℕ) {s t u : Vm} → Keeps held s t → Keeps held t u → Keeps held s u
Keeps-trans held a b = record {
  pages = λ p off h. b.pages p off h ∙ a.pages p off h;
  others = λ x off h k. b.others x off h k ∙ a.others x off h k;
}

pub where_of-pte_set_fpn :
    (v f : ℕ) → v < 2 ^ 32 → f < 8192 → where_of (pte_set_fpn v f) ≡ some (ram f)
where_of-pte_set_fpn v f h k =
    let o = pte_set_fpn-Online v f h in
    let e : f % 2 ^ 13 ≡ f = omega arith in rw (o.present, o.swapped, o.frame, e)

pub where_of-pte_set_swap :
    (v t f : ℕ) → v < 2 ^ 32 → t < 4 → f < 2 ^ 21 → where_of (pte_set_swap v t f) ≡ some (swap t f)
where_of-pte_set_swap v t f h k l =
    let o = pte_set_swap-Offline v t f h in
    let e : t % 2 ^ 5 ≡ t = omega arith in
    let g : f % 2 ^ 21 ≡ f = omega arith in rw (o.present, o.swapped, o.device, o.offset, e, g)

-- What it takes for an entry to stand in a frame of RAM, and on a swap device.
pub where_of-ram :
    (pte f : ℕ)
    → where_of pte ≡ some (ram f)
    → (page_present pte ≡ true) × (page_swapped pte ≡ false) × (paging_fpn pte ≡ f)
where_of-ram pte f e = ground arith

pub where_of-swap :
    (pte t f : ℕ)
    → where_of pte ≡ some (swap t f)
    → (page_present pte ≡ true)
      × (page_swapped pte ≡ true)
      × (swap_type pte ≡ t)
      × (paging_swp pte ≡ f)
where_of-swap pte t f e = ground arith

-- A page in RAM has a number below PAGING_MAX_PGN.
pub where_is-lt : (s : Vm) (p : ℕ) (x : Place) → where_is s p ≡ some x → p < 16384
where_is-lt s p x e = ground arith

pub where_is_pte : (s : Vm) (p : ℕ) → p < 16384 → where_is s p ≡ where_of (s.mm.pgd p)
where_is_pte s p h = ground arith

pub hold_self : (x : Place) (held : Place → ℕ) → hold x held x ≡ 1 + held x
hold_self x held = rw (if_pos (Place-discrete x x) refl)

pub hold_ne : (x y : Place) (held : Place → ℕ) → y ≢ x → hold x held y ≡ held y
hold_ne x y held ne = rw (if_neg (Place-discrete x y) (λ e. ne (sym e))) (omega arith)

pub peek-some :
    (s : Vm) (p off : ℕ) (x : Place) → where_is s p ≡ some x → peek s p off ≡ some (byte_of s x off)
peek-some s p off x e = ap (byte_in s off) e

pub peek-none : (s : Vm) (p off : ℕ) → where_is s p ≡ none → peek s p off ≡ none
peek-none s p off e = ap (byte_in s off) e

-- A page that stays where it is, with the same bytes there, reads the same.
pub peek_same :
    (s t : Vm) (p off : ℕ)
    → where_is t p ≡ where_is s p
    → ((x : Place) → where_is s p ≡ some x → byte_of t x off ≡ byte_of s x off)
    → peek t p off ≡ peek s p off
peek_same s t p off e h = go (where_is s p) refl
  where
    go : (o : Option Place) → where_is s p ≡ o → peek t p off ≡ peek s p off
    go none f = peek-none t p off (e ∙ f) ∙ sym (peek-none s p off f)
    go (some x) f = peek-some t p off x (e ∙ f) ∙ ap some (h x f) ∙ sym (peek-some s p off x f)

-- The pages that are not in RAM keep their entries, and the process its areas and symbols.
pub record Stays (s t : Vm) : Type 0 where
  pub away : (p : ℕ) → in_ram (where_is s p) ≡ 0 → where_is t p ≡ where_is s p
  pub areas : t.mm.mmap ≡ s.mm.mmap
  pub symbols : t.mm.symrgtbl ≡ s.mm.symrgtbl

pub Stays-refl : (s : Vm) → Stays s s
Stays-refl s = record { away = λ p h. refl; areas = refl; symbols = refl }
