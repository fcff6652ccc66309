-- ===== src/Paging/Release.antt =====
-- A page that is given up: its frame goes back to the stock.
use ossim_os.Base.{ℕ, ◌≤◌, ◌<◌, ◌≡◌, ◌≢◌, sym, ap, ◌∙◌, subst, Option, none, some, arith}
use ossim_os.Paging.Owner.{Place, Place-discrete, Owned}

-- Page `v`, which stood at `z`, stands nowhere, and no other page is concerned.
pub Owned-unmap :
    {Fits : Place → Type 0} {at at' : ℕ → Option Place} {stock stock' : Place → ℕ} (v : ℕ)
    (z : Place)
    → Owned Fits at stock
    → at v ≡ some z
    → at' v ≡ none
    → ((p : ℕ) → p ≢ v → at' p ≡ at p)
    → stock' z ≡ 1
    → ((x : Place) → x ≢ z → stock' x ≡ stock x)
    → Owned Fits at' stock'
Owned-unmap {Fits} {at} {at'} {stock} {stock'} v z o before gone rest given same = record {
  once = λ x. le_one x;
  own = λ p x e. same x (elsewhere p x e) ∙ o.own p x (was p x e);
  alone = λ p q x e f. o.alone p q x (was p x e) (was q x f);
  room = λ p x e. o.room p x (was p x e);
  stock_fits = λ x h. fits x h;
}
  where
    moved : (p : ℕ) (x : Place) → at' p ≡ some x → p ≢ v
    moved p x e h = absurd (cc (e, ap at' h, gone))

    was : (p : ℕ) (x : Place) → at' p ≡ some x → at p ≡ some x
    was p x e = sym (rest p (moved p x e)) ∙ e

    elsewhere : (p : ℕ) (x : Place) → at' p ≡ some x → x ≢ z
    elsewhere p x e h = moved p x e (o.alone p v z (was p x e ∙ ap some h) before)

    le_one : (x : Place) → stock' x ≤ 1
    le_one x = elim (Place-discrete x z) [
      | yes e ↦ omega (arith, ap stock' e, given)
      | no ne ↦ omega (arith, same x ne, o.once x)
    ]

    fits : (x : Place) → 0 < stock' x → Fits x
    fits x h = elim (Place-discrete x z) [
      | yes e ↦ subst Fits (sym e) (o.room v z before)
      | no ne ↦ o.stock_fits x (omega (arith, same x ne))
    ]

-- Only the places of the pages and the counts of the stock matter.
pub Owned-same :
    {Fits : Place → Type 0} {at at' : ℕ → Option Place} {stock stock' : Place → ℕ}
    → Owned Fits at stock
    → ((p : ℕ) → at' p ≡ at p)
    → ((x : Place) → stock' x ≡ stock x)
    → Owned Fits at' stock'
Owned-same o e f = record {
  once = λ x. omega (arith, f x, o.once x);
  own = λ p x h. f x ∙ o.own p x (sym (e p) ∙ h);
  alone = λ p q x h k. o.alone p q x (sym (e p) ∙ h) (sym (e q) ∙ k);
  room = λ p x h. o.room p x (sym (e p) ∙ h);
  stock_fits = λ x h. o.stock_fits x (omega (arith, f x));
}
