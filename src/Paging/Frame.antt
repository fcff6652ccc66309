-- ===== src/Paging/Frame.antt =====
-- src/libmem.c, `__swap_out_page` and the condition by which `pg_getpage` and `alloc_pages_range` of
-- src/mm.c take a frame of RAM.
use native.Mathlib.Decide.{ℕ_discrete}
use ossim_os.Base.{
  [], ℕ, ◌+◌, ◌≡◌, refl, sym, ap, ◌∙◌, ◌⊎◌, inl, inr, Option, none, some, List, ◌∷◌, arith,
}
use ossim_os.Memphy.{Memphy, get_freefp}
use ossim_os.Base.Lists.{count, length}
use ossim_os.Base.Tests.{Option-cases}
use ossim_os.Memphy.Frames.{get_freefp_cases}
use ossim_os.Pte.{paging_fpn}
use ossim_os.Paging.{
  Vm, with_fifo, with_mswp, find_victim_page, evict, swap_out_page, take_frame, pure,
}
use ossim_os.Paging.Monad.{bind_some}
use ossim_os.Paging.Owner.{Place, ram, swap, Owned-stock}
use ossim_os.Paging.View.{
  Sizes, SizesOk, Wf, Keeps, Keeps-refl, Stays, Stays-refl, byte_of, peek_same, stock, free_count,
  hold, hold_self, hold_ne,
}
use ossim_os.Paging.Evict.{find_victim_page-count, evict-Evicted}
use ossim_os.Paging.SwapOut.{
  Wf-with_fifo, Keeps-with_fifo, mid, v_lt, ram_on, swap_on, Wf-after, Keeps-after, Stays-after,
}

-- Nothing can be evicted: there is no page in RAM, or no room for it on the active swap device.
abbrev pub NoVictim : Vm → Type 0
NoVictim s = (s.mm.fifo_pgn ≡ []) ⊎ ((s.mswp s.active_mswp_id).free_fp_list ≡ [])

-- There is no frame to take.
abbrev pub NoFrame : Vm → Type 0
NoFrame s = (s.mram.free_fp_list ≡ []) × NoVictim s

-- The frames of RAM that are free or hold a page of the process.
abbrev pub frames : Vm → ℕ
frames s = length s.mram.free_fp_list + length s.mm.fifo_pgn

-- What a call that may return a frame leaves behind: the invariant, every byte of the process and
-- of the others, and the frame, if there is one, in the caller's hands. Without one, `why` holds. No
-- other frame has been lost.
abbrev pub GotFrame : Sizes → (Place → ℕ) → Vm → Type 0 → Option (Option ℕ × Vm) → Type 0
GotFrame c held s why r =
    ((t : Vm) × (r ≡ some (none, t))
      × Wf c held t
      × Keeps held s t
      × Stays s t
      × why
      × (frames t ≡ frames s))
    ⊎ ((f : ℕ) × (t : Vm) × (r ≡ some (some f, t))
        × Wf c (hold (ram f) held) t
        × Keeps held s t
        × Stays s t
        × (frames t + 1 ≡ frames s))

length-find_victim_page :
    (l : List ℕ) (v : ℕ) (rest : List ℕ)
    → find_victim_page l ≡ some (v, rest)
    → length l ≡ length rest + 1
unfolding find_victim_page
length-find_victim_page [] v rest e = absurd (cc e)
length-find_victim_page (x ∷ []) v rest e =
    let same : [] ≡ rest = cc e in omega (arith, ap length same)
length-find_victim_page (x ∷ y ∷ l) v rest e = elim (Option-cases (find_victim_page (y ∷ l))) [
  | inl f ↦ absurd (cc (rw f at e))
  | inr ((v', rest'), f) ↦
      let same : x ∷ rest' ≡ rest = cc (rw f at e) in
      omega (arith, length-find_victim_page (y ∷ l) v' rest' f, ap length same)
]

swap_out_page_stuck :
    (s : Vm) → find_victim_page s.mm.fifo_pgn ≡ none → swap_out_page s ≡ some (none, s)
unfolding swap_out_page
swap_out_page_stuck s e = rw (e, swap_out_page)

swap_out_page_full :
    (s : Vm) (v : ℕ) (rest : List ℕ)
    → find_victim_page s.mm.fifo_pgn ≡ some (v, rest)
    → get_freefp (s.mswp s.active_mswp_id) ≡ (none, s.mswp s.active_mswp_id)
    → swap_out_page s ≡ some (none, with_fifo s (v ∷ rest))
unfolding swap_out_page
swap_out_page_full s v rest e g = rw (e, g, swap_out_page)

swap_out_page_move :
    (s : Vm) (v g f : ℕ) (rest : List ℕ) (swp : Memphy) (t : Vm)
    → find_victim_page s.mm.fifo_pgn ≡ some (v, rest)
    → get_freefp (s.mswp s.active_mswp_id) ≡ (some g, swp)
    → evict v g (with_mswp (with_fifo s rest) s.active_mswp_id swp) ≡ some (f, t)
    → swap_out_page s ≡ some (some f, t)
unfolding swap_out_page
swap_out_page_move s v g f rest swp t e h k =
    let back =
      λ (r : Option ℕ × Memphy). evict v g (with_mswp (with_fifo s rest) s.active_mswp_id r.1) in
    rw (e, ap (λ (r : Option ℕ × Memphy). r.0) h, swap_out_page)
      (bind_some (evict v g) (λ fpn. pure (some fpn)) (ap back h ∙ k))

-- From a state with the invariant, `__swap_out_page` never faults, and keeps the invariant and every
-- byte of every process. The frame that it returns belongs to nobody; it returns none only if no page
-- is in RAM or the active swap device is full.
pub swap_out_page-GotFrame :
    {c : Sizes} (ok : SizesOk c) (held : Place → ℕ) (s : Vm)
    → Wf c held s
    → GotFrame c held s (NoVictim s) (swap_out_page s)
swap_out_page-GotFrame ok held s w = elim (find_victim_page-count s.mm.fifo_pgn) [
  | inl (l, e) ↦ inl (s, swap_out_page_stuck s e, w, Keeps-refl held s, Stays-refl s, inl l, refl)
  | inr (v, rest, e, victim) ↦ elim (get_freefp_cases (s.mswp s.active_mswp_id)) [
    | inl (l, g) ↦ inl (
      with_fifo s (v ∷ rest),
      swap_out_page_full s v rest e g,
      Wf-with_fifo (v ∷ rest) (λ p. omega (arith, victim p)) w,
      Keeps-with_fifo held s (v ∷ rest),
      record { away = λ p h. refl; areas = refl; symbols = refl },
      inr l,
      omega (arith, length-find_victim_page s.mm.fifo_pgn v rest e),
    )
    | inr (g, rest_g, slot, h) ↦
        let (t, k, d) =
          evict-Evicted (mid ok w v g rest rest_g victim slot) v g
            (v_lt ok w v g rest rest_g victim slot) (ram_on ok w v g rest rest_g victim slot)
            (swap_on ok w v g rest rest_g victim slot) in
        inr (
          paging_fpn (s.mm.pgd v),
          t,
          swap_out_page_move s v g _ rest _ t e h k,
          Wf-after ok w v g rest rest_g victim slot d,
          Keeps-after ok w v g rest rest_g victim slot d,
          Stays-after ok w v g rest rest_g victim slot d,
          omega (
            arith,
            ap length d.list,
            ap length d.source.free,
            length-find_victim_page s.mm.fifo_pgn v rest e,
          ),
        )
  ]
]

-- The state after the first frame of the free list has been taken.
abbrev taken : Vm → List ℕ → Vm
taken s rest = record s { mram = record (s.mram) { free_fp_list = rest } }

stock-taken :
    (held : Place → ℕ) (s : Vm) (f : ℕ) (rest : List ℕ)
    → s.mram.free_fp_list ≡ f ∷ rest
    → (x : Place) → stock (hold (ram f) held) (taken s rest) x ≡ stock held s x
stock-taken held s f rest e (ram k) = elim (ℕ_discrete k f) [
  | yes h ↦
      let more : hold (ram f) held (ram k) ≡ 1 + held (ram k) =
        ap (λ n. hold (ram f) held (ram n)) h
        ∙ hold_self (ram f) held
        ∙ ap (λ n. 1 + held (ram n)) (sym h) in
      ground (arith, ap (count k) e, more)
  | no ne ↦
      let same = hold_ne (ram f) (ram k) held (λ z. ne (cc z)) in
      ground (arith, ap (count k) e, same)
]
stock-taken held s f rest e (swap t k) =
    ap (λ n. free_count s (swap t k) + n) (hold_ne (ram f) (swap t k) held (λ z. cc z))

-- Taking a frame off the free list moves it from there into the caller's hands.
take_frame_free :
    {c : Sizes} (held : Place → ℕ) (s : Vm) (f : ℕ) (rest : List ℕ)
    → s.mram.free_fp_list ≡ f ∷ rest
    → Wf c held s
    → Wf c (hold (ram f) held) (taken s rest)
take_frame_free held s f rest e w = record {
  ram_size = w.ram_size;
  swp_size = w.swp_size;
  active = w.active;
  words = w.words;
  owned = Owned-stock w.owned (stock-taken held s f rest e);
  fifo = w.fifo;
}

take_frame-some :
    (s : Vm) (f : ℕ) (mram : Memphy)
    → get_freefp s.mram ≡ (some f, mram)
    → take_frame s ≡ some (some f, record s { mram = mram })
unfolding take_frame
take_frame-some s f mram e =
    rw (ap (λ (r : Option ℕ × Memphy). r.0) e, take_frame)
      (ap (λ (r : Option ℕ × Memphy). some (some f, record s { mram = r.1 })) e)

take_frame-none :
    (s : Vm) (mram : Memphy) → get_freefp s.mram ≡ (none, mram) → take_frame s ≡ swap_out_page s
unfolding take_frame
take_frame-none s mram e = rw (ap (λ (r : Option ℕ × Memphy). r.0) e, take_frame)

-- From a state with the invariant, taking a frame, off the free list or from an evicted page, keeps
-- the invariant and every byte of every process; it fails only if no frame of RAM is free, and no
-- page is in RAM or the active swap device is full.
pub take_frame-GotFrame :
    {c : Sizes} (ok : SizesOk c) (held : Place → ℕ) (s : Vm)
    → Wf c held s
    → GotFrame c held s (NoFrame s) (take_frame s)
take_frame-GotFrame ok held s w = elim (get_freefp_cases s.mram) [
  | inl (l, e) ↦ elim (swap_out_page-GotFrame ok held s w) [
    | inl (t, out, wt, kept, same, why, n) ↦
        inl (t, take_frame-none s s.mram e ∙ out, wt, kept, same, (l, why), n)
    | inr (f, t, out, wt, kept, same, n) ↦
        inr (f, t, take_frame-none s s.mram e ∙ out, wt, kept, same, n)
  ]
  | inr (f, rest, e, g) ↦ inr (
    f,
    taken s rest,
    take_frame-some s f _ g,
    take_frame_free held s f rest e w,
    record {
      pages = λ p off h. peek_same s (taken s rest) p off refl (λ x _. bytes f rest x off);
      others = λ x off k h. bytes f rest x off;
    },
    record { away = λ p h. refl; areas = refl; symbols = refl },
    omega (arith, ap length e),
  )
]
  where
    bytes :
        (f : ℕ) (rest : List ℕ) (x : Place) (off : ℕ)
        → byte_of (taken s rest) x off ≡ byte_of s x off
    bytes f rest (ram k) off = refl
    bytes f rest (swap t k) off = refl
