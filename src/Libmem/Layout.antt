-- ===== src/Libmem/Layout.antt =====
-- src/libmem.c: the symbols of a process and the free regions of its area share no address.
use native.Mathlib.Decide.{ℕ_discrete}
use ossim_os.Base.{ℕ, zero, suc, ◌+◌, ◌≤◌, ◌<◌, ◌≡◌, refl, ap, List, [], ◌∷◌, arith}
use ossim_os.Base.Tests.{ltb, if◌then◌else◌}
use ossim_os.Base.Lists.{All, update}
use ossim_os.Base.Sums.{total}
use ossim_os.Types.{Region, Vma}
use ossim_os.Region.Cover.{inside, cover, Ordered}
use ossim_os.Paging.{Vm}
use ossim_os.Paging.Owner.{Place, ram, swap}
use ossim_os.Paging.View.{Sizes, Wf, Keeps, peek_same, byte_of}
use ossim_os.Area.{with_mmap}
use ossim_os.Area.Grow.{HasArea}
use ossim_os.Libmem.{with_symrg}

-- How many symbols an address belongs to.
abbrev pub owners : (ℕ → Region) → ℕ → ℕ
owners table a = total (λ i. inside (table i) a) 30

-- Each address of the area belongs to one symbol, or one free region, or neither, and no other address
-- belongs to any.
pub record Layout (s : Vm) (vma : Vma) : Type 0 where
  pub area : HasArea s vma
  pub ordered : All Ordered vma.vm_freerg_list
  pub apart :
      (a : ℕ)
      → owners s.mm.symrgtbl a + cover vma.vm_freerg_list a ≤ (if ltb a vma.vm_end then 1 else 0)

-- A new region for one symbol.
total_above :
    (table : ℕ → Region) (k : ℕ) (rg : Region) (a n : ℕ)
    → n ≤ k
    → total (λ i. inside (update table k rg i) a) n ≡ total (λ i. inside (table i) a) n
unfolding total
total_above table k rg a zero h = refl
total_above table k rg a (suc n) h = ground (arith, total_above table k rg a n (omega arith))

total-update :
    (table : ℕ → Region) (k : ℕ) (rg : Region) (a n : ℕ)
    → k < n
    → total (λ i. inside (update table k rg i) a) n + inside (table k) a
      ≡ total (λ i. inside (table i) a) n + inside rg a
unfolding total
total-update table k rg a zero h = absurd (omega arith)
total-update table k rg a (suc n) h = elim (ℕ_discrete n k) [
  | yes e ↦
      let z = total_above table k rg a n (omega arith) in
      let here : inside (update table k rg n) a ≡ inside rg a = ground arith in
      let there : inside (table n) a ≡ inside (table k) a = ap (λ i. inside (table i) a) e in
      omega (arith, z, here, there)
  | no ne ↦
      let z = total-update table k rg a n (omega arith) in
      let here : inside (update table k rg n) a ≡ inside (table n) a = ground arith in
      omega (arith, z, here)
]

pub owners-update :
    (table : ℕ → Region) (k : ℕ) (rg : Region) (a : ℕ)
    → k < 30
    → owners (update table k rg) a + inside (table k) a ≡ owners table a + inside rg a
owners-update table k rg a h = total-update table k rg a 30 h

-- The area with another list of free regions.
abbrev pub with_free : Vma → List Region → Vma
with_free vma l = record vma { vm_freerg_list = l }

-- The state with that area, and a new region for a symbol.
abbrev pub relaid : Vm → Vma → List Region → ℕ → Region → Vm
relaid s vma l rgid rg = with_symrg (with_mmap s (with_free vma l ∷ [])) rgid rg

HasArea-relaid :
    (s : Vm) (vma : Vma) (l : List Region) (rgid : ℕ) (rg : Region)
    → HasArea s vma
    → HasArea (relaid s vma l rgid rg) (with_free vma l)
HasArea-relaid s vma l rgid rg a = record {
  only = refl;
  id = a.id;
  brk = a.brk;
  aligned = a.aligned;
  small = a.small;
  within = a.within;
  beyond = a.beyond;
}

-- The layout only loses what the symbol had, and moves what it gets.
pub Layout-relaid :
    (s : Vm) (vma : Vma) (l : List Region) (rgid : ℕ) (rg : Region)
    → rgid < 30
    → Layout s vma
    → All Ordered l
    → ((a : ℕ)
        → inside rg a + cover l a ≤ inside (s.mm.symrgtbl rgid) a + cover vma.vm_freerg_list a)
    → Layout (relaid s vma l rgid rg) (with_free vma l)
Layout-relaid s vma l rgid rg lt y o h = record {
  area = HasArea-relaid s vma l rgid rg y.area;
  ordered = o;
  apart = λ a. omega (arith, owners-update s.mm.symrgtbl rgid rg a lt, h a, y.apart a);
}

-- Only the area and the symbols have changed, so the pages and the bytes have not.
pub Wf-relaid :
    {c : Sizes} {held : Place → ℕ} {s : Vm} (vma : Vma) (l : List Region) (rgid : ℕ) (rg : Region)
    → Wf c held s
    → Wf c held (relaid s vma l rgid rg)
Wf-relaid vma l rgid rg w = record {
  ram_size = w.ram_size;
  swp_size = w.swp_size;
  active = w.active;
  words = w.words;
  owned = w.owned;
  fifo = w.fifo;
}

bytes-relaid :
    (s : Vm) (vma : Vma) (l : List Region) (rgid : ℕ) (rg : Region) (x : Place) (off : ℕ)
    → byte_of (relaid s vma l rgid rg) x off ≡ byte_of s x off
bytes-relaid s vma l rgid rg (ram k) off = refl
bytes-relaid s vma l rgid rg (swap i k) off = refl

pub Keeps-relaid :
    (held : Place → ℕ) (s : Vm) (vma : Vma) (l : List Region) (rgid : ℕ) (rg : Region)
    → Keeps held s (relaid s vma l rgid rg)
Keeps-relaid held s vma l rgid rg = record {
  pages = λ p off h.
      peek_same s (relaid s vma l rgid rg) p off refl (λ x _. bytes-relaid s vma l rgid rg x off);
  others = λ x off k h. bytes-relaid s vma l rgid rg x off;
}
