-- ===== src/Paging/Owner.antt =====
-- Who owns a frame: the pages of one process against the free lists and everybody else.
use native.Mathlib.Decide.{ℕ_discrete}
use ossim_os.Base.{
  ℕ, ◌≤◌, ◌<◌, ◌≡◌, ◌≢◌, sym, ap, ◌∙◌, subst, ◌⊎◌, inl, inr, Option, none, some, arith,
}

-- A frame in RAM, or one on a swap device.
pub data Place : Type 0 where
  ram : ℕ → Place
  swap : ℕ → ℕ → Place

pub Place-discrete : Discrete Place
Place-discrete = hlevel ℕ_discrete

-- `at` says where each page stands, and `stock` how often a frame is free or in the hands of others.
pub record Owned (Fits : Place → Type 0) (at : ℕ → Option Place) (stock : Place → ℕ) : Type 0 where
  pub once : (x : Place) → stock x ≤ 1
  pub own : (p : ℕ) (x : Place) → at p ≡ some x → stock x ≡ 0
  pub alone : (p q : ℕ) (x : Place) → at p ≡ some x → at q ≡ some x → p ≡ q
  pub room : (p : ℕ) (x : Place) → at p ≡ some x → Fits x
  pub stock_fits : (x : Place) → 0 < stock x → Fits x

-- Only the whereabouts of page `v` change, to frame `y`.
pub record Moved (at at' : ℕ → Option Place) (v : ℕ) (y : Place) : Type 0 where
  pub there : at' v ≡ some y
  pub rest : (p : ℕ) → p ≢ v → at' p ≡ at p

module _ {Fits : Place → Type 0} {at at' : ℕ → Option Place} {stock : Place → ℕ}
    (o : Owned Fits at stock) (v : ℕ) (y : Place) (m : Moved at at' v y) (avail : stock y ≡ 1) where
  -- Where a page stands afterwards, it stood before, or it is `v` at `y`.
  moved_cases :
      (p : ℕ) (x : Place) → at' p ≡ some x → ((p ≡ v) × (x ≡ y)) ⊎ ((p ≢ v) × (at p ≡ some x))
  moved_cases p x e = elim (ℕ_discrete p v) [
    | yes h ↦ inl (h, cc (m.there, ap at' h, e))
    | no ne ↦ inr (ne, sym (m.rest p ne) ∙ e)
  ]

  other_place : (p : ℕ) (x : Place) → at p ≡ some x → x ≢ y
  other_place p x e h = absurd (omega (arith, o.own p x e, ap stock h))

  moved_alone : (p q : ℕ) (x : Place) → at' p ≡ some x → at' q ≡ some x → p ≡ q
  moved_alone p q x e f = elim (moved_cases p x e) [
    | inl (h, z) ↦ elim (moved_cases q x f) [
      | inl (k, _) ↦ h ∙ sym k
      | inr (_, g) ↦ absurd (other_place q x g z)
    ]
    | inr (_, g) ↦ elim (moved_cases q x f) [
      | inl (_, z) ↦ absurd (other_place p x g z)
      | inr (_, k) ↦ o.alone p q x g k
    ]
  ]

  moved_room : Fits y → (p : ℕ) (x : Place) → at' p ≡ some x → Fits x
  moved_room fit p x e = elim (moved_cases p x e) [
    | inl (_, z) ↦ subst Fits (sym z) fit
    | inr (_, g) ↦ o.room p x g
  ]

  stocked_room : Fits y
  stocked_room = o.stock_fits y (omega (arith, avail))

  -- The page had no frame: its new one leaves the stock.
  pub Owned-map :
      {stock' : Place → ℕ}
      → at v ≡ none
      → stock' y ≡ 0
      → ((x : Place) → x ≢ y → stock' x ≡ stock x)
      → Owned Fits at' stock'
  Owned-map {stock'} none_before used same = record {
    once = λ x. le_one x;
    own = own';
    alone = moved_alone;
    room = moved_room stocked_room;
    stock_fits = fits';
  }
    where
      le_one : (x : Place) → stock' x ≤ 1
      le_one x = elim (Place-discrete x y) [
        | yes e ↦ omega (arith, ap stock' e)
        | no ne ↦ omega (arith, same x ne, o.once x)
      ]

      own' : (p : ℕ) (x : Place) → at' p ≡ some x → stock' x ≡ 0
      own' p x e = elim (moved_cases p x e) [
        | inl (_, z) ↦ ap stock' z ∙ used
        | inr (_, g) ↦ same x (other_place p x g) ∙ o.own p x g
      ]

      fits' : (x : Place) → 0 < stock' x → Fits x
      fits' x h = elim (Place-discrete x y) [
        | yes e ↦ absurd (omega (arith, ap stock' e))
        | no ne ↦ o.stock_fits x (omega (arith, same x ne))
      ]

  -- The page gives its frame `z` to the stock for the new one.
  pub Owned-move :
      {stock' : Place → ℕ} (z : Place)
      → at v ≡ some z
      → stock' y ≡ 0
      → stock' z ≡ 1
      → ((x : Place) → x ≢ y → x ≢ z → stock' x ≡ stock x)
      → Owned Fits at' stock'
  Owned-move {stock'} z before used given same = record {
    once = λ x. le_one x;
    own = own';
    alone = moved_alone;
    room = moved_room stocked_room;
    stock_fits = fits';
  }
    where
      le_one : (x : Place) → stock' x ≤ 1
      le_one x = elim (Place-discrete x y) [
        | yes e ↦ omega (arith, ap stock' e)
        | no ne ↦ elim (Place-discrete x z) [
          | yes f ↦ omega (arith, ap stock' f)
          | no nf ↦ omega (arith, same x ne nf, o.once x)
        ]
      ]

      not_given : (p : ℕ) (x : Place) → p ≢ v → at p ≡ some x → x ≢ z
      not_given p x ne g f = ne (o.alone p v z (g ∙ ap some f) before)

      own' : (p : ℕ) (x : Place) → at' p ≡ some x → stock' x ≡ 0
      own' p x e = elim (moved_cases p x e) [
        | inl (_, w) ↦ ap stock' w ∙ used
        | inr (ne, g) ↦ same x (other_place p x g) (not_given p x ne g) ∙ o.own p x g
      ]

      fits' : (x : Place) → 0 < stock' x → Fits x
      fits' x h = elim (Place-discrete x y) [
        | yes e ↦ absurd (omega (arith, ap stock' e))
        | no ne ↦ elim (Place-discrete x z) [
          | yes f ↦ subst Fits (sym f) (o.room v z before)
          | no nf ↦ o.stock_fits x (omega (arith, same x ne nf))
        ]
      ]

-- Only the counts of the stock matter.
pub Owned-stock :
    {Fits : Place → Type 0} {at : ℕ → Option Place} {stock stock' : Place → ℕ}
    → Owned Fits at stock
    → ((x : Place) → stock' x ≡ stock x)
    → Owned Fits at stock'
Owned-stock o e = record {
  once = λ x. omega (arith, e x, o.once x);
  own = λ p x h. e x ∙ o.own p x h;
  alone = o.alone;
  room = o.room;
  stock_fits = λ x h. o.stock_fits x (omega (arith, e x));
}
