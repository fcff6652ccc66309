-- ===== src/Tests/Memory.antt =====
-- A process with two pages, one frame of RAM and swap devices of two frames: page 0 is in RAM, and
-- page 1 on the first device. An access to page 1 has to evict page 0.
use ossim_os.Base.{
  ℕ, ◌%◌, ◌^◌, ◌≤◌, ◌<◌, ◌≡◌, ◌≢◌, refl, sym, ap, ◌∙◌, subst, ◌⊎◌, inl, inr, true, false, none,
  some, [], ◌∷◌, arith,
}
use native.Mathlib.Decide.{ℕ_discrete}
use ossim_os.Base.Lists.{update, count}
use ossim_os.Types.{Region, Vma, Mm}
use ossim_os.Paging.{Vm}
use ossim_os.Paging.Owner.{Place, ram, swap, Owned}
use ossim_os.Paging.View.{
  Sizes, SizesOk, Fits, Wf, where_is, stock, in_ram, where_of-pte_set_fpn, where_of-pte_set_swap,
}
use ossim_os.Pte.{pte_set_fpn, pte_set_swap}
use ossim_os.Base.Sums.{total}
use ossim_os.Libmem.Layout.{Layout, owners, owners-update}
use ossim_os.Pte.Fields.{pte_set_fpn-Online, pte_set_swap-Offline, page_present_lem}

abbrev pub sizes : Sizes
sizes = record { ram_size = 256; swp_size = λ _. 512 }

pub sizes_ok : SizesOk sizes
sizes_ok = record { ram_small = omega arith; swp_small = λ t h. omega arith }

abbrev pub nobody : Place → ℕ
nobody x = 0

abbrev pub online : ℕ
online = pte_set_fpn 0 0

abbrev pub offline : ℕ
offline = pte_set_swap 0 0 0

abbrev pub mm : Mm
mm = record {
  pgd = update (update (λ _. 0) 0 online) 1 offline;
  mmap = record { vm_id = 0; vm_start = 0; vm_end = 512; sbrk = 512; vm_freerg_list = [] } ∷ [];
  symrgtbl =
      update (λ _. record { rg_start = 0; rg_end = 0 }) 3 (record { rg_start = 0; rg_end = 512 });
  fifo_pgn = 0 ∷ [];
}

abbrev pub state : Vm
state = record {
  mm = mm;
  mram = record {
    storage = λ a. a % 256;
    maxsz = 256;
    rdmflg = true;
    cursor = 0;
    free_fp_list = [];
  };
  mswp = λ _. record {
    storage = λ a. 7;
    maxsz = 512;
    rdmflg = false;
    cursor = 0;
    free_fp_list = 1 ∷ [];
  };
  active_mswp_id = 0;
}

first_page : (p : ℕ) → p ≡ 0 → where_is state p ≡ some (ram 0)
first_page p e = let z = where_of-pte_set_fpn 0 0 (omega arith) (omega arith) in ground (arith, z)

second_page : (p : ℕ) → p ≡ 1 → where_is state p ≡ some (swap 0 0)
second_page p e =
    let z = where_of-pte_set_swap 0 0 0 (omega arith) (omega arith) (omega arith) in
    ground (arith, z)

other_page : (p : ℕ) → p ≢ 0 → p ≢ 1 → where_is state p ≡ none
other_page p ne nf = ground (arith, page_present_lem 0 (omega arith))

page_cases :
    (p : ℕ) (x : Place)
    → where_is state p ≡ some x
    → ((p ≡ 0) × (x ≡ ram 0)) ⊎ ((p ≡ 1) × (x ≡ swap 0 0))
page_cases p x e = elim (ℕ_discrete p 0) [
  | yes h ↦ inl (h, cc (first_page p h, e))
  | no ne ↦ elim (ℕ_discrete p 1) [
    | yes h ↦ inr (h, cc (second_page p h, e))
    | no nf ↦ absurd (cc (other_page p ne nf, e))
  ]
]

free_once : (x : Place) → stock nobody state x ≤ 1
free_once (ram f) = omega arith
free_once (swap t f) = ground arith

free-Fits : (x : Place) → 0 < stock nobody state x → Fits sizes x
free-Fits (ram f) h = absurd (omega arith)
free-Fits (swap t f) h = (ground arith, ground arith)

in_use : (x : Place) → (x ≡ ram 0) ⊎ (x ≡ swap 0 0) → stock nobody state x ≡ 0
in_use x (inl e) = ap (stock nobody state) e
in_use x (inr e) = ap (stock nobody state) e

used-Fits : (x : Place) → (x ≡ ram 0) ⊎ (x ≡ swap 0 0) → Fits sizes x
used-Fits x (inl e) = subst (Fits sizes) (sym e) (omega arith)
used-Fits x (inr e) = subst (Fits sizes) (sym e) (omega arith, omega arith)

owned : Owned (Fits sizes) (where_is state) (stock nobody state)
owned = record {
  once = free_once;
  own = λ p x e. elim (page_cases p x e) [
    | inl (_, h) ↦ in_use x (inl h)
    | inr (_, h) ↦ in_use x (inr h)
  ];
  alone = λ p q x e f. elim (page_cases p x e) [
    | inl (h, g) ↦ elim (page_cases q x f) [
      | inl (k, _) ↦ h ∙ sym k
      | inr (_, k) ↦ absurd (cc (g, k))
    ]
    | inr (h, g) ↦ elim (page_cases q x f) [
      | inl (_, k) ↦ absurd (cc (g, k))
      | inr (k, _) ↦ h ∙ sym k
    ]
  ];
  room = λ p x e. elim (page_cases p x e) [
    | inl (_, h) ↦ used-Fits x (inl h)
    | inr (_, h) ↦ used-Fits x (inr h)
  ];
  stock_fits = free-Fits;
}

words : (p : ℕ) → p < 16384 → state.mm.pgd p < 2 ^ 32
words p h =
    let a = (pte_set_fpn-Online 0 0 (omega arith)).word in
    let b = (pte_set_swap-Offline 0 0 0 (omega arith)).word in ground (arith, a, b)

fifo : (p : ℕ) → count p state.mm.fifo_pgn ≡ in_ram (where_is state p)
fifo p = elim (ℕ_discrete p 0) [
  | yes h ↦ ground (arith, ap in_ram (first_page p h))
  | no ne ↦ elim (ℕ_discrete p 1) [
    | yes h ↦ ground (arith, ap in_ram (second_page p h))
    | no nf ↦ ground (arith, ap in_ram (other_page p ne nf))
  ]
]

pub wf : Wf sizes nobody state
wf = record {
  ram_size = refl;
  swp_size = λ t h. refl;
  active = omega arith;
  words = words;
  owned = owned;
  fifo = fifo;
}

abbrev pub area : Vma
area = record { vm_id = 0; vm_start = 0; vm_end = 512; sbrk = 512; vm_freerg_list = [] }

abbrev empty_region : Region
empty_region = record { rg_start = 0; rg_end = 0 }

unowned : (a : ℕ) → owners (λ _. empty_region) a ≡ 0
unfolding total
unowned a = ground arith

pub layout : Layout state area
layout = record {
  area = record {
    only = refl;
    id = refl;
    brk = refl;
    aligned = refl;
    small = omega arith;
    within = λ p h e. elim (ℕ_discrete p 0) [
      | yes z ↦ cc (first_page p z, e)
      | no ne ↦ cc (second_page p (omega arith), e)
    ];
    beyond = λ p h. other_page p (omega arith) (omega arith);
  };
  ordered = tt;
  apart = λ a. ground (
    arith,
    owners-update (λ _. empty_region) 3 (record { rg_start = 0; rg_end = 512 }) a (omega arith),
    unowned a,
  );
}
