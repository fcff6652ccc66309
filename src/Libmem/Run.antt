-- ===== src/Libmem/Run.antt =====
-- src/libmem.c, `libread` and `libwrite`: a run of them answers as the array of bytes allows.
use ossim_os.Base.{
  ℕ, ◌<◌, ◌≡◌, refl, sym, ◌∙◌, inl, inr, Option, none, some, true, false, List, [], ◌∷◌,
}
use ossim_os.Paging.{pure, Vm}
use ossim_os.Paging.Monad.{bind_some}
use ossim_os.Paging.Owner.{Place}
use ossim_os.Paging.View.{Sizes, SizesOk, Wf, byte_of}
use ossim_os.Paging.GetPage.{SameProcess}
use ossim_os.Area.{widen}
use ossim_os.Libmem.{
  destination_of, byte_address, read, write, libread, libwrite, pg_getval, pg_setval,
}
use ossim_os.Libmem.Bytes.{pg_getval-ReadByte, pg_setval-WroteByte}
use ossim_os.Libmem.Flat.{
  Access, load, store, Reply, loaded, stored, access, accesses, target, Memory, Allowed, after,
  Follows, stop, call, Holds, Holds-Keeps, Holds-KeepsBut, at_flat, Follows-same,
}

-- The bytes of the frames that others hold are untouched.
abbrev pub Apart : (Place → ℕ) → Vm → Vm → Type 0
Apart held s t = (x : Place) (off : ℕ) → 0 < held x → off < 256 → byte_of t x off ≡ byte_of s x off

-- What one call does, where its guards lead to address `o`.
abbrev Served : Sizes → (Place → ℕ) → Vm → Memory → Access → Option ℕ → Type 0
Served c held s m a o =
    (r : Reply) × (t : Vm) × (access a s ≡ some (r, t))
    × Wf c held t
    × SameProcess s t
    × Apart held s t
    × Allowed s m o a r
    × Holds t (after m o a r)

same_refl : (s : Vm) → SameProcess s s
same_refl s = record { areas = refl; symbols = refl }

pub libread-none :
    (s : Vm) (rgid offset : ℕ)
    → byte_address s.mm 0 rgid offset ≡ none
    → libread rgid offset s ≡ some (none, s)
unfolding libread read
libread-none s rgid offset e =
    let stop : read 0 rgid offset s ≡ some (none, s) = rw (e, read) in
    bind_some (read 0 rgid offset) (λ got. pure (destination_of got)) stop

pub libread-some :
    (s : Vm) (rgid offset : ℕ)
    → (addr : ℕ) → byte_address s.mm 0 rgid offset ≡ some addr
    → {got : Option ℕ} {t : Vm} → pg_getval addr s ≡ some (got, t)
    → libread rgid offset s ≡ some (destination_of got, t)
unfolding libread read
libread-some s rgid offset addr e {got} {t} r =
    let here : read 0 rgid offset s ≡ some (got, t) = rw (e, read) r in
    bind_some (read 0 rgid offset) (λ got. pure (destination_of got)) here

pub libwrite-none :
    (s : Vm) (rgid offset : ℕ)
    → (value : ℕ) → byte_address s.mm 0 rgid offset ≡ none
    → libwrite value rgid offset s ≡ some (false, s)
unfolding libwrite write
libwrite-none s rgid offset value e = rw (e, write)

pub libwrite-some :
    (s : Vm) (rgid offset : ℕ)
    → (value addr : ℕ) → byte_address s.mm 0 rgid offset ≡ some addr
    → libwrite value rgid offset s ≡ pg_setval addr value s
unfolding libwrite write
libwrite-some s rgid offset value addr e = rw (e, write)

module _ {c : Sizes} (ok : SizesOk c) (held : Place → ℕ) (s : Vm) (m : Memory) (w : Wf c held s)
    (h : Holds s m) (rgid offset : ℕ) where
  load-Served :
      (o : Option ℕ) → byte_address s.mm 0 rgid offset ≡ o → Served c held s m (load rgid offset) o
  load-Served none e = (
    loaded none,
    s,
    bind_some (libread rgid offset) _ (libread-none s rgid offset e),
    w,
    same_refl s,
    λ x off k l. refl,
    refl,
    h,
  )
  load-Served (some addr) e =
      let (t, (wt, kept, same), out) = pg_getval-ReadByte ok held s addr w in
      elim out [
        | inl (r, why) ↦ (
          loaded none,
          t,
          bind_some (libread rgid offset) _ (libread-some s rgid offset addr e r),
          wt,
          same,
          kept.others,
          inl (refl, why),
          Holds-Keeps held m kept h,
        )
        | inr (v, r, is) ↦ (
          loaded (some (widen v)),
          t,
          bind_some (libread rgid offset) _ (libread-some s rgid offset addr e r),
          wt,
          same,
          kept.others,
          inr (v, refl, sym (at_flat s m addr h) ∙ is),
          Holds-Keeps held m kept h,
        )
      ]

  store-Served :
      (value : ℕ) (o : Option ℕ)
      → byte_address s.mm 0 rgid offset ≡ o
      → Served c held s m (store rgid offset value) o
  store-Served value none e = (
    stored false,
    s,
    bind_some (libwrite value rgid offset) _ (libwrite-none s rgid offset value e),
    w,
    same_refl s,
    λ x off k l. refl,
    refl,
    h,
  )
  store-Served value (some addr) e =
      let (t, (wt, same), out) = pg_setval-WroteByte ok held s addr value w in
      elim out [
        | inl (r, kept, why) ↦ (
          stored false,
          t,
          bind_some (libwrite value rgid offset) _ (libwrite-some s rgid offset value addr e ∙ r),
          wt,
          same,
          kept.others,
          inl (refl, why),
          Holds-Keeps held m kept h,
        )
        | inr (r, is, but) ↦ (
          stored true,
          t,
          bind_some (libwrite value rgid offset) _ (libwrite-some s rgid offset value addr e ∙ r),
          wt,
          same,
          but.others,
          inr refl,
          Holds-KeepsBut held m addr value is but h,
        )
      ]

access-Served :
    {c : Sizes} (ok : SizesOk c) (held : Place → ℕ) (s : Vm) (m : Memory)
    → Wf c held s
    → Holds s m
    → (a : Access) → Served c held s m a (target s.mm a)
access-Served ok held s m w h (load rgid offset) =
    load-Served ok held s m w h rgid offset (byte_address s.mm 0 rgid offset) refl
access-Served ok held s m w h (store rgid offset value) =
    store-Served ok held s m w h rgid offset value (byte_address s.mm 0 rgid offset) refl

-- From a state with the invariant that holds the bytes of an array, no run of `libread` and `libwrite`
-- faults. Each reply is what the array answers (the byte widened as a signed `char`, or success of a
-- store); it is -1 where the symbol, area or offset is invalid, and otherwise only where, at that call,
-- the page was unmapped, or was on a swap device while no frame of RAM was free and no page could be
-- evicted. The run ends with the bytes that the successful stores leave in the array. It keeps the
-- invariant, and every byte of the frames that other processes hold.
pub accesses-Follows :
    {c : Sizes} (ok : SizesOk c) (held : Place → ℕ) (calls : List Access) (s : Vm) (m : Memory)
    → Wf c held s
    → Holds s m
    → (rs : List Reply) × (t : Vm) × (m' : Memory) × (accesses calls s ≡ some (rs, t))
      × Follows s.mm s m calls rs t m'
      × Holds t m'
      × Wf c held t
      × Apart held s t
accesses-Follows ok held [] s m w h = ([], s, m, refl, stop s m, h, w, λ x off k l. refl)
accesses-Follows ok held (a ∷ calls) s m w h =
    let (r, t, e, wt, same, apart, allowed, ht) = access-Served ok held s m w h a in
    let (rs, u, m', f, follows, hu, wu, apart') = accesses-Follows ok held calls t _ wt ht in
    (
      r ∷ rs,
      u,
      m',
      bind_some (access a) _ e ∙ bind_some (accesses calls) _ f,
      call s m a r t calls rs u m' e allowed (Follows-same same follows),
      hu,
      wu,
      λ x off k l. apart' x off k l ∙ apart x off k l,
    )
