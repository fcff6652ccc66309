-- ===== src/Paging/GetPage.antt =====
-- src/libmem.c, `pg_getpage`: a page that is asked for is in RAM afterwards, with its bytes.
use ossim_os.Base.{ℕ, ◌<◌, ◌≡◌, refl, sym, ap, ◌∙◌, ◌⊎◌, inl, inr, Option, none, some, arith}
use ossim_os.Pte.{swap_type, paging_swp}
use ossim_os.Paging.{
  Vm, load_pte, page_frame, pg_getpage, swap_in, swap_device, take_frame, place_page, place_found,
  ◌>>=◌,
}
use ossim_os.Paging.Monad.{bind_some}
use ossim_os.Paging.Owner.{Place, ram, swap}
use ossim_os.Paging.View.{
  Sizes, SizesOk, Wf, Keeps, Keeps-refl, Keeps-trans, Stays, where_is, where_of-ram, where_of-swap,
  where_is-lt, where_is_pte, in_ram, hold,
}
use ossim_os.Paging.Frame.{NoFrame, take_frame-GotFrame}
use ossim_os.Paging.Load.{place_page-Loaded}
use ossim_os.Paging.SwapIn.{load_from, load_to, Wf-loaded, Keeps-loaded, frame_loaded}

-- The areas and the symbols of the process are untouched.
pub record SameProcess (s t : Vm) : Type 0 where
  pub areas : t.mm.mmap ≡ s.mm.mmap
  pub symbols : t.mm.symrgtbl ≡ s.mm.symrgtbl

-- Page `p` was never mapped, or it is on a swap device and no frame can be had for it.
abbrev pub Unavailable : Vm → ℕ → Type 0
Unavailable s p =
    (where_is s p ≡ none) ⊎ ((i : ℕ) × (k : ℕ) × (where_is s p ≡ some (swap i k)) × NoFrame s)

-- The page is in a frame of RAM now, or it is still where it was and there is no frame for it; the
-- invariant holds, every byte of the process and of the others is what it was, and the areas and
-- symbols are.
abbrev pub GotPage : Sizes → (Place → ℕ) → Vm → ℕ → Option (Option ℕ × Vm) → Type 0
GotPage c held s p r =
    ((t : Vm) × (r ≡ some (none, t))
      × Wf c held t
      × Keeps held s t
      × SameProcess s t
      × (where_is t p ≡ where_is s p)
      × Unavailable s p)
    ⊎ ((f : ℕ) × (t : Vm) × (r ≡ some (some f, t))
        × Wf c held t
        × Keeps held s t
        × SameProcess s t
        × (where_is t p ≡ some (ram f)))

pg_getpage_unmapped : (s : Vm) (p : ℕ) → where_is s p ≡ none → pg_getpage p s ≡ some (none, s)
unfolding pg_getpage load_pte page_frame
pg_getpage_unmapped s p e = ground arith

pg_getpage_present :
    (s : Vm) (p f : ℕ) → where_is s p ≡ some (ram f) → pg_getpage p s ≡ some (some f, s)
unfolding pg_getpage load_pte page_frame
pg_getpage_present s p f e =
    let lt = where_is-lt s p (ram f) e in
    let (a, b, g) = where_of-ram (s.mm.pgd p) f (sym (where_is_pte s p lt) ∙ e) in ground arith

swap_device_eq :
    (s : Vm) (pte i : ℕ)
    → swap_type pte ≡ i
    → i < 4
    → swap_device (swap_type pte) s ≡ some (s.mswp (swap_type pte), s)
unfolding swap_device
swap_device_eq s pte i e h = ground arith

pg_getpage-swap_in :
    (s : Vm) (p i k : ℕ)
    → where_is s p ≡ some (swap i k)
    → (pg_getpage p s ≡ swap_in p (s.mm.pgd p) s) × (swap_type (s.mm.pgd p) ≡ i)
unfolding pg_getpage load_pte page_frame
pg_getpage-swap_in s p i k e =
    let lt = where_is-lt s p (swap i k) e in
    let (a, b, g, _) = where_of-swap (s.mm.pgd p) i k (sym (where_is_pte s p lt) ∙ e) in
    (ground arith, g)

pg_getpage_absent :
    (s : Vm) (p i k : ℕ)
    → where_is s p ≡ some (swap i k)
    → i < 4
    → pg_getpage p s ≡ (take_frame >>= (λ got. place_found p (s.mm.pgd p) got)) s
unfolding swap_in
pg_getpage_absent s p i k e h =
    let (here, g) = pg_getpage-swap_in s p i k e in
    here ∙ bind_some (swap_device (swap_type (s.mm.pgd p))) _ (swap_device_eq s (s.mm.pgd p) i g h)

-- From a state with the invariant, `pg_getpage` never faults, and keeps the invariant and every byte
-- of every process. It returns the frame of RAM in which the page then stands; or -1, and then the
-- page was never mapped, or is still on a swap device and there was no frame for it.
pub pg_getpage-GotPage :
    {c : Sizes} (ok : SizesOk c) (held : Place → ℕ) (s : Vm) (p : ℕ)
    → Wf c held s
    → GotPage c held s p (pg_getpage p s)
pg_getpage-GotPage {c} ok held s p w = go (where_is s p) refl
  where
    load :
        (i k f : ℕ) (t : Vm)
        → where_is s p ≡ some (swap i k)
        → take_frame s ≡ some (some f, t)
        → Wf c (hold (ram f) held) t
        → Keeps held s t
        → Stays s t
        → GotPage c held s p (pg_getpage p s)
    load i k f t e g wt kept same =
        let away = same.away p (ap in_ram e) ∙ e in
        let lt = where_is-lt s p (swap i k) e in
        let (z, h, d) =
          place_page-Loaded t i p k f lt (load_from ok held p i k f wt away)
            (load_to ok held p i k f wt away) in
        let (there, frame) = frame_loaded ok held p i k f wt away d in
        let (_, _, ei, ek) = where_of-swap (s.mm.pgd p) i k (sym (where_is_pte s p lt) ∙ e) in
        inr (
          f,
          z,
          pg_getpage_absent s p i k e (w.owned.room p (swap i k) e).0
              ∙ bind_some take_frame (place_found p (s.mm.pgd p)) g
              ∙ ap (λ n. place_page p n (paging_swp (s.mm.pgd p)) f t) ei
              ∙ ap (λ n. place_page p i n f t) ek
              ∙ h
              ∙ ap (λ n. some (some n, z)) frame,
          Wf-loaded ok held p i k f wt away d,
          Keeps-trans held kept (Keeps-loaded ok held p i k f wt away d),
          record { areas = d.areas ∙ same.areas; symbols = d.symbols ∙ same.symbols },
          there,
        )

    go : (x : Option Place) → where_is s p ≡ x → GotPage c held s p (pg_getpage p s)
    go none e = inl (
      s,
      pg_getpage_unmapped s p e,
      w,
      Keeps-refl held s,
      record { areas = refl; symbols = refl },
      refl,
      inl e,
    )
    go (some (ram f)) e = inr (
      f,
      s,
      pg_getpage_present s p f e,
      w,
      Keeps-refl held s,
      record { areas = refl; symbols = refl },
      e,
    )
    go (some (swap i k)) e = elim (take_frame-GotFrame ok held s w) [
      | inl (t, g, wt, kept, same, why, _) ↦ inl (
        t,
        pg_getpage_absent s p i k e (w.owned.room p (swap i k) e).0
            ∙ bind_some take_frame (place_found p (s.mm.pgd p)) g,
        wt,
        kept,
        record { areas = same.areas; symbols = same.symbols },
        same.away p (ap in_ram e),
        inr (i, k, e, why),
      )
      | inr (f, t, g, wt, kept, same, _) ↦ load i k f t e g wt kept same
    ]
