-- ===== src/Libmem/Release.antt =====
-- src/libmem.c, `free_pcb_memph`: a process that ends gives every frame back.
use native.Mathlib.Decide.{ℕ_discrete}
use ossim_os.Base.{
  ℕ, ◌+◌, ◌^◌, ◌<◌, ◌≡◌, ◌≢◌, refl, sym, ap, ◌∙◌, subst, Option, none, some, true, false, arith,
}
use ossim_os.Base.Tests.{ltb}
use ossim_os.Base.Lists.{update}
use ossim_os.Memphy.{put_freefp}
use ossim_os.Pte.{page_present, page_swapped, paging_fpn, swap_type, paging_swp}
use ossim_os.Pte.Fields.{page_present_lem}
use ossim_os.Paging.{Vm, with_pgd, with_mswp, load_pte}
use ossim_os.Paging.Monad.{bind_some, load_pte_eq, store_pte_eq}
use ossim_os.Paging.Owner.{Place, Place-discrete, ram, swap, Owned}
use ossim_os.Paging.View.{
  Sizes, Fits, where_is, where_is_pte, where_of-ram, where_of-swap, stock, free_count, hold,
  hold_self, hold_ne, byte_of,
}
use ossim_os.Libmem.{give_back, free_page}

-- How often a page stands in a frame.
abbrev pub stands_at : Option Place → Place → ℕ
stands_at none x = 0
stands_at (some y) x = hold y (λ _. 0) x

abbrev pub stands : Vm → Place → ℕ → ℕ
stands s x p = stands_at (where_is s p) x

-- The state `t` after page `p` has given its frame back, if it had one.
pub record GaveBack (s : Vm) (p : ℕ) (t : Vm) : Type 0 where
  pub gone : where_is t p ≡ none
  pub word : t.mm.pgd p < 2 ^ 32
  pub entries : (q : ℕ) → q ≢ p → t.mm.pgd q ≡ s.mm.pgd q
  pub stocked : (x : Place) → free_count t x ≡ free_count s x + stands s x p
  pub bytes : (x : Place) (off : ℕ) → byte_of t x off ≡ byte_of s x off
  pub ram_size : t.mram.maxsz ≡ s.mram.maxsz
  pub swp_size : (i : ℕ) → (t.mswp i).maxsz ≡ (s.mswp i).maxsz
  pub active : t.active_mswp_id ≡ s.active_mswp_id
  pub list : t.mm.fifo_pgn ≡ s.mm.fifo_pgn

no_entry : (s : Vm) (p : ℕ) → p < 16384 → where_is (with_pgd s (update s.mm.pgd p 0)) p ≡ none
no_entry s p lt = ground (arith, page_present_lem 0 (omega arith))

free_page-none :
    (s : Vm) (p : ℕ)
    → p < 16384
    → s.mm.pgd p < 2 ^ 32
    → where_is s p ≡ none
    → (free_page p s ≡ some (tt, s)) × GaveBack s p s
unfolding free_page
free_page-none s p lt word e =
    let absent : page_present (s.mm.pgd p) ≡ false = ground arith in
    (
      bind_some (load_pte p) _ (load_pte_eq s p lt) ∙ rw absent refl,
      record {
        gone = e;
        word = word;
        entries = λ q ne. refl;
        stocked = λ x. omega (arith, ap (λ o. stands_at o x) e);
        bytes = λ x off. refl;
        ram_size = refl;
        swp_size = λ i. refl;
        active = refl;
        list = refl;
      },
    )

free_page_eq :
    (s t : Vm) (p : ℕ)
    → p < 16384
    → page_present (s.mm.pgd p) ≡ true
    → give_back p (s.mm.pgd p) s ≡ some (tt, t)
    → free_page p s ≡ some (tt, with_pgd t (update t.mm.pgd p 0))
unfolding free_page
free_page_eq s t p lt present e =
    bind_some (load_pte p) _ (load_pte_eq s p lt)
    ∙ rw present (bind_some (give_back p (s.mm.pgd p)) _ e ∙ store_pte_eq t p 0 lt)

give_back-ram :
    (s : Vm) (p pte f : ℕ)
    → page_swapped pte ≡ false
    → paging_fpn pte ≡ f
    → give_back p pte s ≡ some (tt, record s { mram = put_freefp s.mram f })
unfolding give_back
give_back-ram s p pte f e g = rw (e, g, give_back)

give_back-swap :
    (s : Vm) (p pte i f : ℕ)
    → page_swapped pte ≡ true
    → swap_type pte ≡ i
    → paging_swp pte ≡ f
    → i < 4
    → give_back p pte s ≡ some (tt, with_mswp s i (put_freefp (s.mswp i) f))
unfolding give_back
give_back-swap s p pte i f e g h lt =
    let z : ltb i 4 ≡ true = ground arith in rw (e, g, h, z, give_back)

-- The frame that comes back is counted once more, and no other.
pub stands-some :
    (s : Vm) (p : ℕ) (y : Place)
    → where_is s p ≡ some y
    → (x : Place) → stands s x p ≡ hold y (λ _. 0) x
stands-some s p y e x = ap (λ o. stands_at o x) e

free_page-ram :
    (s : Vm) (p f : ℕ)
    → p < 16384
    → where_is s p ≡ some (ram f)
    → (t : Vm) × (free_page p s ≡ some (tt, t)) × GaveBack s p t
unfolding put_freefp
free_page-ram s p f lt e =
    let (present, swapped, fpn) = where_of-ram (s.mm.pgd p) f (sym (where_is_pte s p lt) ∙ e) in
    let u : Vm = record s { mram = put_freefp s.mram f } in
    (
      with_pgd u (update s.mm.pgd p 0),
      free_page_eq s u p lt present (give_back-ram s p (s.mm.pgd p) f swapped fpn),
      record {
        gone = no_entry u p lt;
        word = ground arith;
        entries = λ q ne. ground arith;
        stocked = λ x. counted x;
        bytes = λ x off. same x off;
        ram_size = refl;
        swp_size = λ i. refl;
        active = refl;
        list = refl;
      },
    )
  where
    after : Vm
    after = with_pgd (record s { mram = put_freefp s.mram f }) (update s.mm.pgd p 0)

    same : (x : Place) (off : ℕ) → byte_of after x off ≡ byte_of s x off
    same (ram g) off = refl
    same (swap i g) off = refl

    counted : (x : Place) → free_count after x ≡ free_count s x + stands s x p
    counted (swap i g) = omega (
      arith,
      stands-some s p (ram f) e (swap i g),
      hold_ne (ram f) (swap i g) (λ _. 0) (λ h. cc h),
    )
    counted (ram g) = elim (ℕ_discrete g f) [
      | yes h ↦ ground (
        arith,
        stands-some s p (ram f) e (ram g),
        subst (λ n. hold (ram f) (λ _. 0) (ram n) ≡ 1) (sym h) (hold_self (ram f) (λ _. 0)),
      )
      | no ne ↦ ground (
        arith,
        stands-some s p (ram f) e (ram g),
        hold_ne (ram f) (ram g) (λ _. 0) (λ h. ne (cc h)),
      )
    ]

free_page-swap :
    (s : Vm) (p i f : ℕ)
    → p < 16384
    → i < 4
    → where_is s p ≡ some (swap i f)
    → (t : Vm) × (free_page p s ≡ some (tt, t)) × GaveBack s p t
unfolding put_freefp
free_page-swap s p i f lt dev e =
    let (present, swapped, device, slot) =
      where_of-swap (s.mm.pgd p) i f (sym (where_is_pte s p lt) ∙ e) in
    let u : Vm = with_mswp s i (put_freefp (s.mswp i) f) in
    (
      after,
      free_page_eq s u p lt present (give_back-swap s p (s.mm.pgd p) i f swapped device slot dev),
      record {
        gone = no_entry u p lt;
        word = ground arith;
        entries = λ q ne. ground arith;
        stocked = λ x. counted x;
        bytes = λ x off. same x off;
        ram_size = refl;
        swp_size = λ j. ground arith;
        active = refl;
        list = refl;
      },
    )
  where
    after : Vm
    after = with_pgd (with_mswp s i (put_freefp (s.mswp i) f)) (update s.mm.pgd p 0)

    same : (x : Place) (off : ℕ) → byte_of after x off ≡ byte_of s x off
    same (ram g) off = refl
    same (swap j g) off = ground arith

    counted : (x : Place) → free_count after x ≡ free_count s x + stands s x p
    counted (ram g) = omega (
      arith,
      stands-some s p (swap i f) e (ram g),
      hold_ne (swap i f) (ram g) (λ _. 0) (λ h. cc h),
    )
    counted (swap j g) = elim (Place-discrete (swap j g) (swap i f)) [
      | yes h ↦ ground (
        arith,
        stands-some s p (swap i f) e (swap j g),
        dev,
        h,
        subst (λ x. hold (swap i f) (λ _. 0) x ≡ 1) (sym h) (hold_self (swap i f) (λ _. 0)),
      )
      | no ne ↦ ground (
        arith,
        stands-some s p (swap i f) e (swap j g),
        hold_ne (swap i f) (swap j g) (λ _. 0) ne,
        ne,
      )
    ]

-- One turn of the loop of `free_pcb_memph`.
pub free_page-GaveBack :
    {c : Sizes} (held : Place → ℕ) (s : Vm) (p : ℕ)
    → p < 16384
    → s.mm.pgd p < 2 ^ 32
    → Owned (Fits c) (where_is s) (stock held s)
    → (t : Vm) × (free_page p s ≡ some (tt, t)) × GaveBack s p t
free_page-GaveBack held s p lt word o = go (where_is s p) refl
  where
    go :
        (w : Option Place)
        → where_is s p ≡ w
        → (t : Vm) × (free_page p s ≡ some (tt, t)) × GaveBack s p t
    go none e = let (eq, back) = free_page-none s p lt word e in (s, eq, back)
    go (some (ram f)) e = free_page-ram s p f lt e
    go (some (swap i f)) e = free_page-swap s p i f lt (o.room p (swap i f) e).0 e
