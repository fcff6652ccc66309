-- ===== src/Machine/Owns.antt =====
-- The frames of one process, against the devices that all processes share.
use ossim_os.Base.{ℕ, ◌≤◌, ◌<◌, ◌≡◌, sym, ap, ◌∙◌, Option, none, some, arith}
use native.Mathlib.Decide.{dec_lt}
use ossim_os.Base.Sums.{total, total_term, total_find, total_one}
use ossim_os.Paging.{Vm}
use ossim_os.Paging.Owner.{Place, Place-discrete}
use ossim_os.Paging.View.{Sizes, Wf, where_is, where_is-lt, free_count, hold, hold_self, hold_ne}
use ossim_os.Libmem.Release.{stands, stands_at}
use ossim_os.Libmem.Exit.{owns}

stands_at-le : (o : Option Place) (x : Place) → stands_at o x ≤ 1
stands_at-le none x = omega arith
stands_at-le (some y) x = elim (Place-discrete x y) [
  | yes e ↦ omega (arith, ap (hold y (λ _. 0)) e, hold_self y (λ _. 0))
  | no ne ↦ omega (arith, hold_ne y x (λ _. 0) ne)
]

stands_at-pos : (o : Option Place) (x : Place) → 0 < stands_at o x → o ≡ some x
stands_at-pos none x h = absurd (omega arith)
stands_at-pos (some y) x h = elim (Place-discrete x y) [
  | yes e ↦ ap some (sym e)
  | no ne ↦ absurd (omega (arith, hold_ne y x (λ _. 0) ne))
]

-- A page that stands in a frame is counted.
pub owns-some : (s : Vm) (p : ℕ) (x : Place) → where_is s p ≡ some x → 0 < owns s x
owns-some s p x e =
    let here : stands s x p ≡ 1 = ap (λ o. stands_at o x) e ∙ hold_self x (λ _. 0) in
    omega (arith, here, total_term (stands s x) 16384 p (where_is-lt s p x e))

-- A frame that is counted has a page in it.
pub owns-find : (s : Vm) (x : Place) → 0 < owns s x → (p : ℕ) × (where_is s p ≡ some x)
owns-find s x h =
    let (p, _, d) = total_find (stands s x) 16384 h in (p, stands_at-pos (where_is s p) x d)

pub owns-le : {c : Sizes} {held : Place → ℕ} {s : Vm} → Wf c held s → (x : Place) → owns s x ≤ 1
owns-le {c} {held} {s} w x =
    total_one (stands s x) 16384 (λ p. stands_at-le (where_is s p) x)
      (λ p q h k.
        w.owned.alone p q x (stands_at-pos (where_is s p) x h) (stands_at-pos (where_is s q) x k))

-- The count depends on the page table only.
pub owns-same :
    (s t : Vm) → ((p : ℕ) → where_is t p ≡ where_is s p) → (x : Place) → owns t x ≡ owns s x
owns-same s t e x = ap (λ (f : ℕ → ℕ). total f 16384) (λ i p. stands_at (e p i) x)

-- Fewer frames in the hands of others.
pub Wf-less :
    {c : Sizes} {held held' : Place → ℕ} {s : Vm}
    → ((x : Place) → held' x ≤ held x)
    → Wf c held s
    → Wf c held' s
Wf-less le w = record {
  ram_size = w.ram_size;
  swp_size = w.swp_size;
  active = w.active;
  words = w.words;
  owned = record {
    once = λ x. omega (arith, le x, w.owned.once x);
    own = λ p x e. omega (arith, le x, w.owned.own p x e);
    alone = w.owned.alone;
    room = w.owned.room;
    stock_fits = λ x h. w.owned.stock_fits x (omega (arith, le x));
  };
  fifo = w.fifo;
}

-- Process `u` with the devices of `t`.
abbrev pub on_devices : Vm → Vm → Vm
on_devices t u = record t { mm = u.mm }

module _ {c : Sizes} {held : Place → ℕ} {t u : Vm} (wu : Wf c held u) (wt : Wf c (owns u) t) where
  -- A frame of `u` is neither free nor held by the process in state `t`.
  frame_taken : (p : ℕ) (x : Place) → where_is u p ≡ some x → (free_count t x ≡ 0) × (owns t x ≡ 0)
  frame_taken p x e =
      let mine = owns-some u p x e in
      (
        omega (arith, mine, wt.owned.once x),
        elim (dec_lt 0 (owns t x)) [
          | yes h ↦ let (q, f) = owns-find t x h in absurd (omega (arith, mine, wt.owned.own q x f))
          | no h ↦ omega arith
        ],
      )

  -- Seen from `u`, the process in state `t` is one of the others.
  pub Wf-other : Wf c (owns t) (on_devices t u)
  Wf-other = record {
    ram_size = wt.ram_size;
    swp_size = wt.swp_size;
    active = wt.active;
    words = wu.words;
    owned = record {
      once = λ x. elim (dec_lt 0 (owns t x)) [
        | yes h ↦ let (q, f) = owns-find t x h in omega (arith, owns-le wt x, wt.owned.own q x f)
        | no h ↦ omega (arith, wt.owned.once x)
      ];
      own = λ p x e. let (a, b) = frame_taken p x e in omega (arith, a, b);
      alone = wu.owned.alone;
      room = wu.owned.room;
      stock_fits = λ x h. elim (dec_lt 0 (owns t x)) [
        | yes k ↦ let (q, f) = owns-find t x k in wt.owned.room q x f
        | no k ↦ wt.owned.stock_fits x (omega arith)
      ];
    };
    fifo = wu.fifo;
  }

  -- And so is any other that both are apart from.
  pub Wf-third : Wf c held t → Wf c held (on_devices t u)
  Wf-third w = record {
    ram_size = wt.ram_size;
    swp_size = wt.swp_size;
    active = wt.active;
    words = wu.words;
    owned = record {
      once = w.owned.once;
      own = λ p x e. omega (arith, (frame_taken p x e).0, wu.owned.own p x e);
      alone = wu.owned.alone;
      room = wu.owned.room;
      stock_fits = w.owned.stock_fits;
    };
    fifo = wu.fifo;
  }
