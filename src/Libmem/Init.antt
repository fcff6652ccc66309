-- ===== src/Libmem/Init.antt =====
-- src/mm.c, `init_mm`, and src/mm-memphy.c, `init_memphy`: the state in which a process starts, alone
-- on new devices.
use mathlib.Core.Bool.{Bool, true}
use ossim_os.Base.{ℕ, ◌≤◌, ◌<◌, ◌≡◌, refl, sym, ap, none, [], ◌∷◌, arith}
use ossim_os.Memphy.{init_memphy, format}
use ossim_os.Memphy.Frames.{count-init_memphy}
use ossim_os.Pte.Fields.{page_present_lem}
use ossim_os.Paging.{Vm}
use ossim_os.Paging.Owner.{Place, ram, swap}
use ossim_os.Paging.View.{Sizes, Fits, Wf, where_is, free_count, in_ram}
use ossim_os.Types.{Vma}
use ossim_os.Region.{enlist_vm_rg_node, init_vm_rg}
use ossim_os.Area.Grow.{HasArea}
use ossim_os.Libmem.{init_mm}
use ossim_os.Libmem.Layout.{Layout}
use ossim_os.Base.Sums.{total}

-- A new process on new devices, all of them random access, as src/os.c makes them.
abbrev pub fresh : Sizes → Vm
fresh c = record {
  mm = init_mm;
  mram = init_memphy c.ram_size true;
  mswp = λ i. init_memphy (c.swp_size i) true;
  active_mswp_id = 0;
}

maxsz-init_memphy : (size : ℕ) (random : Bool) → (init_memphy size random).maxsz ≡ size
unfolding init_memphy format
maxsz-init_memphy size random = ground arith

pub unmapped : (c : Sizes) (p : ℕ) → where_is (fresh c) p ≡ none
unfolding init_mm
unmapped c p = ground (arith, page_present_lem 0 (omega arith))

free_count-fresh : (c : Sizes) (x : Place) → free_count (fresh c) x ≤ 1
free_count-fresh c (ram f) = ground (arith, count-init_memphy c.ram_size true f)
free_count-fresh c (swap i f) = ground (arith, count-init_memphy (c.swp_size i) true f)

free_count-Fits : (c : Sizes) (x : Place) → 0 < free_count (fresh c) x → Fits c x
free_count-Fits c (ram f) h = ground (arith, count-init_memphy c.ram_size true f)
free_count-Fits c (swap i f) h =
    (ground arith, ground (arith, count-init_memphy (c.swp_size i) true f))

-- A new process on new devices is in a state with the invariant, and nobody else holds a frame.
pub fresh-Wf : (c : Sizes) → Wf c (λ x. 0) (fresh c)
unfolding init_mm
fresh-Wf c = record {
  ram_size = maxsz-init_memphy c.ram_size true;
  swp_size = λ i h. maxsz-init_memphy (c.swp_size i) true;
  active = omega arith;
  words = λ p h. omega arith;
  owned = record {
    once = λ x. omega (arith, free_count-fresh c x);
    own = λ p x e. absurd (cc (unmapped c p, e));
    alone = λ p q x e f. absurd (cc (unmapped c p, e));
    room = λ p x e. absurd (cc (unmapped c p, e));
    stock_fits = λ x h. free_count-Fits c x (omega (arith, h));
  };
  fifo = λ p. ap in_ram (sym (unmapped c p));
}

-- Its one area is empty.
abbrev pub first_area : Vma
first_area = record {
  vm_id = 0;
  vm_start = 0;
  vm_end = 0;
  sbrk = 0;
  vm_freerg_list = record { rg_start = 0; rg_end = 0 } ∷ [];
}

pub fresh-HasArea : (c : Sizes) → HasArea (fresh c) first_area
unfolding init_mm enlist_vm_rg_node init_vm_rg
fresh-HasArea c = record {
  only = refl;
  id = refl;
  brk = refl;
  aligned = omega arith;
  small = omega arith;
  within = λ p h. absurd (omega arith);
  beyond = λ p h. unmapped c p;
}

-- A new process on new devices has the layout: no symbol has a region, and its area is empty.
pub fresh-Layout : (c : Sizes) → Layout (fresh c) first_area
unfolding init_mm total
fresh-Layout c = record {
  area = fresh-HasArea c;
  ordered = (omega arith, tt);
  apart = λ a. ground arith;
}
