-- ===== src/Area/Collect.antt =====
-- src/mm.c, `alloc_pages_range`: the frames that a growing area collects, and their release where
-- there are not enough.
use native.Mathlib.Decide.{ℕ_discrete}
use ossim_os.Base.{
  ℕ, zero, suc, ◌+◌, ◌≤◌, ◌≡◌, refl, sym, ap, ◌∙◌, ◌⊎◌, inl, inr, Option, none, some, List, [], ◌∷◌,
  arith,
}
use ossim_os.Base.Lists.{length}
use ossim_os.Memphy.{put_freefp}
use ossim_os.Paging.{Vm, take_frame}
use ossim_os.Paging.Owner.{Place, ram, swap, Owned-stock}
use ossim_os.Paging.View.{
  Sizes, SizesOk, Wf, Keeps, Keeps-refl, Keeps-trans, Stays, Stays-refl, in_ram, hold, hold_self,
  hold_ne, stock, byte_of, peek_same,
}
use ossim_os.Paging.Frame.{frames, take_frame-GotFrame}
use ossim_os.Area.{put_frames, collect_frames, alloc_pages_range}

-- Several frames of RAM in hand.
abbrev pub hold_all : List ℕ → (Place → ℕ) → Place → ℕ
hold_all [] held = held
hold_all (f ∷ fs) held = hold (ram f) (hold_all fs held)

pub Stays-trans : {s t u : Vm} → Stays s t → Stays t u → Stays s u
Stays-trans a b = record {
  away = λ p h. b.away p (ap in_ram (a.away p h) ∙ h) ∙ a.away p h;
  areas = b.areas ∙ a.areas;
  symbols = b.symbols ∙ a.symbols;
}

held-le : (l : List ℕ) (held : Place → ℕ) (x : Place) → held x ≤ hold_all l held x
held-le [] held x = omega arith
held-le (f ∷ fs) held x = omega (arith, held-le fs held x)

-- What is kept for more frames is kept for fewer.
Keeps-hold_all :
    (l : List ℕ) (held : Place → ℕ) {s t : Vm} → Keeps (hold_all l held) s t → Keeps held s t
Keeps-hold_all l held k = record {
  pages = k.pages;
  others = λ x off pos h. k.others x off (omega (arith, held-le l held x)) h;
}

-- The state after one frame has gone back to the free list.
abbrev given : Vm → ℕ → Vm
given t f = record t { mram = put_freefp t.mram f }

stock-given :
    (held : Place → ℕ) (t : Vm) (f : ℕ) (x : Place)
    → stock held (given t f) x ≡ stock (hold (ram f) held) t x
unfolding put_freefp
stock-given held t f (ram k) = elim (ℕ_discrete k f) [
  | yes h ↦
      let more : hold (ram f) held (ram k) ≡ 1 + held (ram k) =
        ap (λ n. hold (ram f) held (ram n)) h
        ∙ hold_self (ram f) held
        ∙ ap (λ n. 1 + held (ram n)) (sym h) in
      ground (arith, more)
  | no ne ↦ let same = hold_ne (ram f) (ram k) held (λ z. ne (cc z)) in ground (arith, same)
]
stock-given held t f (swap i k) =
    let same = hold_ne (ram f) (swap i k) held (λ z. cc z) in ground (arith, same)

Wf-given :
    {c : Sizes} {held : Place → ℕ} {t : Vm} (f : ℕ)
    → Wf c (hold (ram f) held) t
    → Wf c held (given t f)
unfolding put_freefp
Wf-given {held} {t} f w = record {
  ram_size = w.ram_size;
  swp_size = w.swp_size;
  active = w.active;
  words = w.words;
  owned = Owned-stock w.owned (stock-given held t f);
  fifo = w.fifo;
}

bytes-given : (t : Vm) (f : ℕ) (x : Place) (off : ℕ) → byte_of (given t f) x off ≡ byte_of t x off
unfolding put_freefp
bytes-given t f (ram k) off = refl
bytes-given t f (swap i k) off = refl

Keeps-given : (held : Place → ℕ) (t : Vm) (f : ℕ) → Keeps held t (given t f)
Keeps-given held t f = record {
  pages = λ p off h. peek_same t (given t f) p off refl (λ x _. bytes-given t f x off);
  others = λ x off k h. bytes-given t f x off;
}

-- The state after all of them have gone back.
abbrev returned : Vm → List ℕ → Vm
returned t l = record t { mram = put_frames l t.mram }

pub returned-Wf :
    {c : Sizes} (held : Place → ℕ) (l : List ℕ) (t : Vm)
    → Wf c (hold_all l held) t
    → Wf c held (returned t l) × Keeps held t (returned t l) × Stays t (returned t l)
unfolding put_frames
returned-Wf held [] t w = (w, Keeps-refl held t, Stays-refl t)
returned-Wf held (f ∷ fs) t w =
    let (wt, kept, same) = returned-Wf held fs (given t f) (Wf-given f w) in
    (
      wt,
      Keeps-trans held (Keeps-given held t f) kept,
      record { away = λ p h. same.away p h; areas = same.areas; symbols = same.symbols },
    )

frames-returned : (l : List ℕ) (t : Vm) → frames (returned t l) ≡ length l + frames t
unfolding put_frames put_freefp
frames-returned [] t = omega arith
frames-returned (f ∷ fs) t = omega (arith, frames-returned fs (given t f))

-- What `alloc_pages_range` leaves behind: all the frames in the caller's hands, or none of them. The
-- frames of RAM that are free or hold a page of the process are all the others.
abbrev pub GotFrames : Sizes → (Place → ℕ) → Vm → ℕ → Option (Option (List ℕ) × Vm) → Type 0
GotFrames c held s n r =
    ((t : Vm) × (r ≡ some (none, t))
      × Wf c held t
      × Keeps held s t
      × Stays s t
      × (frames t ≡ frames s))
    ⊎ ((l : List ℕ) × (t : Vm) × (r ≡ some (some l, t))
        × (length l ≡ n)
        × Wf c (hold_all l held) t
        × Keeps held s t
        × Stays s t
        × (frames t + n ≡ frames s))

collect_frames-none :
    (left : ℕ) (fp_head : List ℕ) (s t : Vm)
    → take_frame s ≡ some (none, t)
    → collect_frames (suc left) fp_head s ≡ some (none, returned t fp_head)
unfolding collect_frames
collect_frames-none left fp_head s t e = rw (e, collect_frames)

collect_frames-some :
    (left : ℕ) (fp_head : List ℕ) (s : Vm) (f : ℕ) (t : Vm)
    → take_frame s ≡ some (some f, t)
    → collect_frames (suc left) fp_head s ≡ collect_frames left (f ∷ fp_head) t
unfolding collect_frames
collect_frames-some left fp_head s f t e = rw (e, collect_frames)

-- The loop, where the frames in hand were taken in a state with `all` frames.
collect_frames-Collected :
    {c : Sizes} (ok : SizesOk c) (held : Place → ℕ) (left : ℕ) (fp_head : List ℕ) (s : Vm) (all : ℕ)
    → Wf c (hold_all fp_head held) s
    → frames s + length fp_head ≡ all
    → ((t : Vm) × (collect_frames left fp_head s ≡ some (none, t))
        × Wf c held t
        × Keeps held s t
        × Stays s t
        × (frames t ≡ all))
      ⊎ ((l : List ℕ) × (t : Vm) × (collect_frames left fp_head s ≡ some (some l, t))
          × (length l ≡ left + length fp_head)
          × Wf c (hold_all l held) t
          × Keeps held s t
          × Stays s t
          × (frames t + length l ≡ all))
collect_frames-Collected ok held zero fp_head s all w h =
    inr (
      fp_head,
      s,
      unfold collect_frames in refl,
      omega arith,
      w,
      Keeps-refl held s,
      Stays-refl s,
      h,
    )
collect_frames-Collected ok held (suc left) fp_head s all w h =
    elim (take_frame-GotFrame ok (hold_all fp_head held) s w) [
      | inl (t, e, wt, kept, same, _, n) ↦
          let (wr, kr, sr) = returned-Wf held fp_head t wt in
          inl (
            returned t fp_head,
            collect_frames-none left fp_head s t e,
            wr,
            Keeps-trans held (Keeps-hold_all fp_head held kept) kr,
            Stays-trans same sr,
            omega (arith, frames-returned fp_head t, n, h),
          )
      | inr (f, t, e, wt, kept, same, n) ↦
          let z = collect_frames-some left fp_head s f t e in
          let k = Keeps-hold_all fp_head held kept in
          elim (collect_frames-Collected ok held left (f ∷ fp_head) t all wt
            (omega (arith, n, h))) [
              | inl (u, g, wu, ku, su, m) ↦
                  inl (u, z ∙ g, wu, Keeps-trans held k ku, Stays-trans same su, m)
              | inr (l, u, g, len, wu, ku, su, m) ↦ inr (
                l,
                u,
                z ∙ g,
                omega (arith, len),
                wu,
                Keeps-trans held k ku,
                Stays-trans same su,
                m,
              )
            ]
    ]

-- From a state with the invariant, `alloc_pages_range` never faults, and keeps the invariant and every
-- byte of every process. It hands over as many frames as were asked for, which belong to nobody, and
-- all other frames of RAM that were free or held a page of the process still are or do; or it fails,
-- and then it has given back all that it took: as many frames as before are free or hold a page.
pub alloc_pages_range-GotFrames :
    {c : Sizes} (ok : SizesOk c) (held : Place → ℕ) (req_pgnum : ℕ) (s : Vm)
    → Wf c held s
    → GotFrames c held s req_pgnum (alloc_pages_range req_pgnum s)
unfolding alloc_pages_range
alloc_pages_range-GotFrames ok held req_pgnum s w =
    elim (collect_frames-Collected ok held req_pgnum [] s (frames s) w (omega arith)) [
      | inl r ↦ inl r
      | inr (l, t, e, n, w', kept, same, m) ↦
          inr (l, t, e, omega (arith, n), w', kept, same, omega (arith, n, m))
    ]
