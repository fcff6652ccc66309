-- ===== src/Machine/Calls.antt =====
-- src/libmem.c: what the memory calls do to the process that makes them, in the terms of `Isolation`.
use ossim_os.Base.{
  ℕ, ◌+◌, ◌%◌, ◌^◌, ◌≤◌, ◌≡◌, refl, sym, ap, ◌∙◌, inl, inr, true, false, ◌||◌, Option, none, some,
  arith,
}
use native.Mathlib.Decide.{dec_lt}
use ossim_os.Base.Tests.{leb, ◌==◌, Bool-cases, Option-cases}
use ossim_os.Types.{Vma}
use ossim_os.Memphy.{is_negative}
use ossim_os.Paging.{Vm, M, pure}
use ossim_os.Paging.Monad.{bind_some}
use ossim_os.Paging.Owner.{Place}
use ossim_os.Paging.View.{Sizes, SizesOk, Wf, where_is, peek, peek-some, peek-none}
use ossim_os.Paging.GetPage.{SameProcess}
use ossim_os.Area.{paging_page_alignsz}
use ossim_os.Libmem.{
  byte_address, read, alloc, free, liballoc, libfree, libread, libwrite, destination_of, pg_getval,
}
use ossim_os.Libmem.Bytes.{pg_getval-ReadByte, pg_setval-WroteByte}
use ossim_os.Libmem.Layout.{Layout, owners}
use ossim_os.Libmem.Run.{libwrite-none, libwrite-some}
use ossim_os.Libmem.Alloc.{get_vma_only, alloc-Alloced}
use ossim_os.Libmem.Free.{free-Layout}
use ossim_os.Machine.Isolation.{Runs}

-- The call returns, with the invariant kept, the frames of others untouched, and the process laid out.
abbrev pub Ran : {A : Type 0} → Sizes → (Place → ℕ) → Vm → M A → Type 0
Ran {A} c held s f = (a : A) × (t : Vm) × (vma : Vma) × Runs c held s f a t × Layout t vma

unmapped : (s : Vm) (q k : ℕ) → peek s q k ≡ none → where_is s q ≡ none
unmapped s q k e = go (where_is s q) refl
  where
    go : (o : Option Place) → where_is s q ≡ o → where_is s q ≡ none
    go none f = f
    go (some x) f = absurd (cc (e, peek-some s q k x f))

-- The same pages are mapped, wherever they stand.
mapped_same :
    (s t : Vm) (q k : ℕ) → peek t q k ≡ peek s q k → where_is s q ≡ none → where_is t q ≡ none
mapped_same s t q k e f = unmapped t q k (e ∙ peek-none s q k f)

Layout-same :
    (s t : Vm) (vma : Vma)
    → SameProcess s t
    → ((q : ℕ) → (k : ℕ) × (peek t q k ≡ peek s q k))
    → Layout s vma
    → Layout t vma
Layout-same s t vma same e y = record {
  area = record {
    only = same.areas ∙ y.area.only;
    id = y.area.id;
    brk = y.area.brk;
    aligned = y.area.aligned;
    small = y.area.small;
    within = λ p h z. let (k, f) = e p in y.area.within p h (mapped_same t s p k (sym f) z);
    beyond = λ p h. let (k, f) = e p in mapped_same s t p k f (y.area.beyond p h);
  };
  ordered = y.ordered;
  apart = λ a. omega (arith, ap (λ table. owners table a) same.symbols, y.apart a);
}

module _ {c : Sizes} (ok : SizesOk c) (s : Vm) (vma : Vma) (y : Layout s vma) (held : Place → ℕ)
    (w : Wf c held s) where
  -- A call that changes nothing.
  stopped : {A : Type 0} (f : M A) (a : A) → f s ≡ some (a, s) → Ran c held s f
  stopped f a e = (a, s, vma, record { eq = e; wf = w; apart = λ x off h k. refl }, y)

  read-none :
      (rgid offset : ℕ)
      → byte_address s.mm 0 rgid offset ≡ none
      → read 0 rgid offset s ≡ some (none, s)
  unfolding read
  read-none rgid offset e = rw (e, read) refl

  read-some :
      (rgid offset addr : ℕ)
      → byte_address s.mm 0 rgid offset ≡ some addr
      → read 0 rgid offset s ≡ pg_getval addr s
  unfolding read
  read-some rgid offset addr e = rw (e, read) refl

  pub read-Ran : (rgid offset : ℕ) → Ran c held s (read 0 rgid offset)
  read-Ran rgid offset = elim (Option-cases (byte_address s.mm 0 rgid offset)) [
    | inl e ↦ stopped (read 0 rgid offset) none (read-none rgid offset e)
    | inr (addr, e) ↦
        let (t, (wt, kept, same), out) = pg_getval-ReadByte ok held s addr w in
        let laid = Layout-same s t vma same (λ q. (0, kept.pages q 0 (omega arith))) y in
        elim out [
          | inl (r, _) ↦ (
            none,
            t,
            vma,
            record { eq = read-some rgid offset addr e ∙ r; wf = wt; apart = kept.others },
            laid,
          )
          | inr (v, r, _) ↦ (
            some v,
            t,
            vma,
            record { eq = read-some rgid offset addr e ∙ r; wf = wt; apart = kept.others },
            laid,
          )
        ]
  ]

  pub libread-Ran : (rgid offset : ℕ) → Ran c held s (libread rgid offset)
  unfolding libread
  libread-Ran rgid offset =
      let (got, t, vma', r, laid) = read-Ran rgid offset in
      (
        destination_of got,
        t,
        vma',
        record {
          eq = bind_some (read 0 rgid offset) (λ got. pure (destination_of got)) r.eq;
          wf = r.wf;
          apart = r.apart;
        },
        laid,
      )

  pub libwrite-Ran : (value rgid offset : ℕ) → Ran c held s (libwrite value rgid offset)
  libwrite-Ran value rgid offset = elim (Option-cases (byte_address s.mm 0 rgid offset)) [
    | inl e ↦ stopped (libwrite value rgid offset) false (libwrite-none s rgid offset value e)
    | inr (addr, e) ↦
        let (t, (wt, same), out) = pg_setval-WroteByte ok held s addr value w in
        elim out [
          | inl (r, kept, _) ↦ (
            false,
            t,
            vma,
            record {
              eq = libwrite-some s rgid offset value addr e ∙ r;
              wf = wt;
              apart = kept.others;
            },
            Layout-same s t vma same (λ q. (0, kept.pages q 0 (omega arith))) y,
          )
          | inr (r, _, but) ↦ (
            true,
            t,
            vma,
            record {
              eq = libwrite-some s rgid offset value addr e ∙ r;
              wf = wt;
              apart = but.others;
            },
            Layout-same s t vma same
                (λ q. elim (dec_lt 0 (addr % 256)) [
                  | yes h ↦ (0, but.pages q 0 (omega arith) (λ z. absurd (omega (arith, z.1))))
                  | no h ↦ (1, but.pages q 1 (omega arith) (λ z. absurd (omega (arith, z.1))))
                ])
                y,
          )
        ]
  ]

  alloc_refused :
      (rgid size : ℕ)
      → (leb 30 rgid || is_negative size || size == 0) ≡ true
      → alloc 0 rgid size s ≡ some (none, s)
  unfolding alloc
  alloc_refused rgid size e = rw e refl

  pub liballoc-Ran :
      (size rgid : ℕ)
      → vma.vm_end + paging_page_alignsz size ≤ 2 ^ 22
      → Ran c held s (liballoc size rgid)
  unfolding liballoc
  liballoc-Ran size rgid room = elim (Bool-cases (leb 30 rgid || is_negative size || size == 0)) [
    | inl e ↦ stopped (alloc 0 rgid size) none (alloc_refused rgid size e)
    | inr e ↦
        let (t, vma', same, out) =
          alloc-Alloced ok held s vma rgid size w y (ground arith) (ground arith) room in
        elim out [
          | inl (r, _) ↦
              (none, t, vma', record { eq = r; wf = same.wf; apart = same.others }, same.layout)
          | inr (addr, r, _) ↦ (
            some addr,
            t,
            vma',
            record { eq = r; wf = same.wf; apart = same.others },
            same.layout,
          )
        ]
  ]

  free_invalid : (rgid : ℕ) → leb 30 rgid ≡ true → free 0 rgid s ≡ some (false, s)
  unfolding free
  free_invalid rgid e = rw e refl

  free_empty :
      (rgid : ℕ)
      → leb 30 rgid ≡ false
      → leb (s.mm.symrgtbl rgid).rg_end (s.mm.symrgtbl rgid).rg_start ≡ true
      → free 0 rgid s ≡ some (false, s)
  unfolding free
  free_empty rgid e h = rw (e, get_vma_only s vma y.area, h) refl

  pub libfree-Ran : (rgid : ℕ) → Ran c held s (libfree rgid)
  unfolding libfree
  libfree-Ran rgid = elim (dec_lt rgid 30) [
    | no h ↦ stopped (free 0 rgid) false (free_invalid rgid (ground arith))
    | yes h ↦ elim (dec_lt (s.mm.symrgtbl rgid).rg_start (s.mm.symrgtbl rgid).rg_end) [
      | no k ↦ stopped (free 0 rgid) false (free_empty rgid (ground arith) (ground arith))
      | yes k ↦
          let (t, vma', r, wt, laid, kept, _, _) = free-Layout held s vma rgid w y h k in
          (true, t, vma', record { eq = r; wf = wt; apart = kept.others }, laid)
    ]
  ]
