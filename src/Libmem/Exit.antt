-- ===== src/Libmem/Exit.antt =====
-- src/libmem.c, `free_pcb_memph`: the whole loop.
use native.Mathlib.Decide.{ℕ_discrete}
use ossim_os.Base.{
  ℕ, zero, suc, ◌+◌, ◌^◌, ◌≤◌, ◌<◌, ◌≡◌, ◌≢◌, refl, sym, ap, ◌∙◌, subst, Option, none, some, arith,
}
use ossim_os.Base.Sums.{total}
use ossim_os.Paging.{Vm}
use ossim_os.Paging.Monad.{bind_some}
use ossim_os.Paging.Owner.{Place, Owned}
use ossim_os.Paging.Release.{Owned-unmap, Owned-same}
use ossim_os.Paging.View.{Sizes, Fits, Wf, where_is, stock, free_count, hold_self, hold_ne, byte_of}
use ossim_os.Libmem.{free_page, free_pages, free_pcb_memph}
use ossim_os.Libmem.Release.{stands, stands_at, stands-some, GaveBack, free_page-GaveBack}

-- The frames of the process, counted over its pages.
abbrev pub owns : Vm → Place → ℕ
owns s x = total (stands s x) 16384

-- The state `t` after the pages below `n` of state `s` have given their frames back.
pub record Freed (c : Sizes) (held : Place → ℕ) (s : Vm) (n : ℕ) (t : Vm) : Type 0 where
  pub gone : (p : ℕ) → p < n → where_is t p ≡ none
  pub kept : (p : ℕ) → n ≤ p → t.mm.pgd p ≡ s.mm.pgd p
  pub words : (p : ℕ) → p < 16384 → t.mm.pgd p < 2 ^ 32
  pub owned : Owned (Fits c) (where_is t) (stock held t)
  pub stocked : (x : Place) → free_count t x ≡ free_count s x + total (stands s x) n
  pub bytes : (x : Place) (off : ℕ) → byte_of t x off ≡ byte_of s x off
  pub ram_size : t.mram.maxsz ≡ s.mram.maxsz
  pub swp_size : (i : ℕ) → (t.mswp i).maxsz ≡ (s.mswp i).maxsz
  pub active : t.active_mswp_id ≡ s.active_mswp_id

rest_where : (t u : Vm) (p : ℕ) → GaveBack t p u → (q : ℕ) → q ≢ p → where_is u q ≡ where_is t q
rest_where t u p g q ne = ground (arith, g.entries q ne)

module _ {c : Sizes} (held : Place → ℕ) where
  Freed-start : (s : Vm) → Wf c held s → Freed c held s 0 s
  unfolding total
  Freed-start s w = record {
    gone = λ p h. absurd (omega arith);
    kept = λ p h. refl;
    words = w.words;
    owned = w.owned;
    stocked = λ x. omega arith;
    bytes = λ x off. refl;
    ram_size = refl;
    swp_size = λ i. refl;
    active = refl;
  }

  module _ (t u : Vm) (p : ℕ) (g : GaveBack t p u) where
    gave_back-Owned :
        (w : Option Place)
        → where_is t p ≡ w
        → Owned (Fits c) (where_is t) (stock held t)
        → Owned (Fits c) (where_is u) (stock held u)
    gave_back-Owned none e o =
        Owned-same o
          (λ q. elim (ℕ_discrete q p) [
            | yes h ↦ ap (where_is u) h ∙ g.gone ∙ sym e ∙ ap (where_is t) (sym h)
            | no ne ↦ rest_where t u p g q ne
          ])
          (λ x. omega (arith, g.stocked x, ap (λ o. stands_at o x) e))
    gave_back-Owned (some z) e o =
        Owned-unmap p z o e g.gone (rest_where t u p g)
          (omega (arith, g.stocked z, stands-some t p z e z, hold_self z (λ _. 0), o.own p z e))
          (λ x ne. omega (arith, g.stocked x, stands-some t p z e x, hold_ne z x (λ _. 0) ne))

  Freed-step :
      (s t u : Vm) (p : ℕ)
      → p < 16384
      → Freed c held s p t
      → GaveBack t p u
      → Freed c held s (suc p) u
  unfolding total
  Freed-step s t u p lt f g = record {
    gone = λ q h. elim (ℕ_discrete q p) [
      | yes e ↦ ap (where_is u) e ∙ g.gone
      | no ne ↦ rest_where t u p g q ne ∙ f.gone q (omega arith)
    ];
    kept = λ q h. g.entries q (λ e. absurd (omega arith)) ∙ f.kept q (omega arith);
    words = λ q h. elim (ℕ_discrete q p) [
      | yes e ↦ omega (arith, ap u.mm.pgd e, g.word)
      | no ne ↦ omega (arith, g.entries q ne, f.words q h)
    ];
    owned = gave_back-Owned t u p g (where_is t p) refl f.owned;
    stocked = λ x.
        let here : where_is t p ≡ where_is s p = ground (arith, f.kept p (omega arith)) in
        omega (arith, g.stocked x, f.stocked x, ap (λ o. stands_at o x) here);
    bytes = λ x off. g.bytes x off ∙ f.bytes x off;
    ram_size = g.ram_size ∙ f.ram_size;
    swp_size = λ i. g.swp_size i ∙ f.swp_size i;
    active = g.active ∙ f.active;
  }

  free_pages-Freed :
      (left p : ℕ) (s t : Vm)
      → p + left ≡ 16384
      → Freed c held s p t
      → (u : Vm) × (free_pages left p t ≡ some (tt, u)) × Freed c held s 16384 u
  unfolding free_pages
  free_pages-Freed zero p s t e f = (t, refl, subst (λ n. Freed c held s n t) (omega (arith, e)) f)
  free_pages-Freed (suc left) p s t e f =
      let (u, eq, g) =
        free_page-GaveBack held t p (omega (arith, e)) (f.words p (omega (arith, e))) f.owned in
      let (v, eq', done) = free_pages-Freed left (p + 1) s u (omega (arith, e)) (
        subst (λ n. Freed c held s n u) (omega arith)
          (Freed-step s t u p (omega (arith, e)) f g)) in
      (v, bind_some (free_page p) _ eq ∙ eq', done)

  -- From a state with the invariant, `free_pcb_memph` never faults. Afterwards no page of the process is
  -- mapped, each frame that it had is free again and no other, and no byte has changed.
  pub free_pcb_memph-Freed :
      (s : Vm) → Wf c held s → (t : Vm) × (free_pcb_memph s ≡ some (tt, t)) × Freed c held s 16384 t
  unfolding free_pcb_memph
  free_pcb_memph-Freed s w = free_pages-Freed 16384 0 s s (omega arith) (Freed-start s w)
