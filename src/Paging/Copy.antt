-- ===== src/Paging/Copy.antt =====
-- src/mm.c, `__swap_cp_page`: a page is copied whole, and nothing else changes.
use native.Mathlib.Decide.{ℕ_discrete}
use ossim_os.Base.{
  ℕ, zero, suc, ◌+◌, ◌-◌, ◌*◌, ◌^◌, ◌≤◌, ◌<◌, ◌≡◌, ◌≢◌, refl, ap, ◌∙◌, false, ◌&&◌, some, arith,
}
use ossim_os.Base.Tests.{◌==◌, ltb, leb, if◌then◌else◌}
use ossim_os.Memphy.{Memphy, read, write}
use ossim_os.Memphy.Bytes.{SameBytes, outside, read_lem, Written, write_lem}
use ossim_os.Paging.{copy_cells, swap_cp_page}

-- The result of the loop from cell `idx` on: those cells of page `g` hold those of page `f`.
pub record Copied (idx : ℕ) (src : Memphy) (f : ℕ) (dst : Memphy) (g : ℕ) (src' dst' : Memphy)
    : Type 0 where
  pub source : SameBytes src src'
  pub storage :
      (a : ℕ)
      → dst'.storage a ≡ (
          if leb (g * 256 + idx) a && ltb a (g * 256 + 256)
          then src.storage (f * 256 + (a - g * 256))
          else dst.storage a)
  pub maxsz : dst'.maxsz ≡ dst.maxsz
  pub rdmflg : dst'.rdmflg ≡ dst.rdmflg
  pub free : dst'.free_fp_list ≡ dst.free_fp_list

-- The page stands on the device, whose addresses are all non-negative.
abbrev pub PageOn : Memphy → ℕ → Type 0
PageOn mp f = (f * 256 + 256 ≤ mp.maxsz) × (mp.maxsz ≤ 2 ^ 31)

copy_step :
    (left idx : ℕ) (src : Memphy) (f : ℕ) (dst : Memphy) (g byte : ℕ)
    → (read src (f * 256 + idx)).0 ≡ some byte
    → copy_cells (suc left) idx src f dst g
      ≡ copy_cells left
          (idx + 1)
          (read src (f * 256 + idx)).1
          f
          (write dst (g * 256 + idx) byte).1
          g
unfolding copy_cells
copy_step left idx src f dst g byte e = rw (e, copy_cells)

on_page : (mp : Memphy) (f idx : ℕ) → idx < 256 → PageOn mp f → outside mp (f * 256 + idx) ≡ false
on_page mp f idx h on = ground arith

-- One round puts cell `idx` in front of those that the later rounds copy.
Copied-round :
    (idx : ℕ) (src : Memphy) (f : ℕ) (dst : Memphy) (g : ℕ) {src₁ dst₁ src' dst' : Memphy}
    → idx < 256
    → SameBytes src src₁
    → outside dst (g * 256 + idx) ≡ false
    → Written dst (g * 256 + idx) (src.storage (f * 256 + idx)) dst₁
    → Copied (idx + 1) src₁ f dst₁ g src' dst'
    → Copied idx src f dst g src' dst'
Copied-round idx src f dst g {src₁} {dst₁} {src'} {dst'} lt same inside written copied = record {
  source = record {
    storage = copied.source.storage ∙ same.storage;
    maxsz = copied.source.maxsz ∙ same.maxsz;
    rdmflg = copied.source.rdmflg ∙ same.rdmflg;
    free = copied.source.free ∙ same.free;
  };
  storage = cell;
  maxsz = copied.maxsz ∙ written.maxsz;
  rdmflg = copied.rdmflg ∙ written.rdmflg;
  free = copied.free ∙ written.free;
}
  where
    stored :
        (a : ℕ)
        → dst₁.storage a
          ≡ (if g * 256 + idx == a then src.storage (f * 256 + idx) else dst.storage a)
    stored a = ap (λ (h : ℕ → ℕ). h a) written.storage ∙ rw inside

    cell :
        (a : ℕ)
        → dst'.storage a ≡ (
            if leb (g * 256 + idx) a && ltb a (g * 256 + 256)
            then src.storage (f * 256 + (a - g * 256))
            else dst.storage a)
    cell a = elim (ℕ_discrete a (g * 256 + idx)) [
      | yes e ↦
          let at : f * 256 + (a - g * 256) ≡ f * 256 + idx = omega arith in
          rw at (ground (arith, copied.storage a, stored a))
      | no ne ↦ ground (
        arith,
        copied.storage a,
        stored a,
        ap (λ (h : ℕ → ℕ). h (f * 256 + (a - g * 256))) same.storage,
      )
    ]

copy_cells_lem :
    (left idx : ℕ) (src : Memphy) (f : ℕ) (dst : Memphy) (g : ℕ)
    → idx + left ≡ 256
    → PageOn src f
    → PageOn dst g
    → (src' dst' : Memphy) × (copy_cells left idx src f dst g ≡ some (src', dst'))
      × Copied idx src f dst g src' dst'
copy_cells_lem zero idx src f dst g e hs hd = (
  src,
  dst,
  unfold copy_cells in refl,
  record {
    source = record { storage = refl; maxsz = refl; rdmflg = refl; free = refl };
    storage = λ a. ground arith;
    maxsz = refl;
    rdmflg = refl;
    free = refl;
  },
)
copy_cells_lem (suc left) idx src f dst g e hs hd =
    let (value, same) = read_lem src (f * 256 + idx) in
    let byte = src.storage (f * 256 + idx) in
    let (_, written) = write_lem dst (g * 256 + idx) byte in
    let got : (read src (f * 256 + idx)).0 ≡ some byte =
      value ∙ rw (on_page src f idx (omega arith) hs) in
    let (src', dst', eq, copied) =
      copy_cells_lem left (idx + 1) (read src (f * 256 + idx)).1 f
        (write dst (g * 256 + idx) byte).1 g (omega arith) (omega (arith, same.maxsz))
        (omega (arith, written.maxsz)) in
    (
      src',
      dst',
      copy_step left idx src f dst g byte got ∙ eq,
      Copied-round idx src f dst g (omega arith) same (on_page dst g idx (omega arith) hd) written
          copied,
    )

-- Where both frames are on their devices, `__swap_cp_page` copies the page byte for byte, without using
-- a byte that was not read, and changes nothing else on either device but the source's cursor and the
-- destination's.
pub swap_cp_page_lem :
    (src : Memphy) (f : ℕ) (dst : Memphy) (g : ℕ)
    → PageOn src f
    → PageOn dst g
    → (src' dst' : Memphy) × (swap_cp_page src f dst g ≡ some (src', dst'))
      × Copied 0 src f dst g src' dst'
unfolding swap_cp_page
swap_cp_page_lem src f dst g hs hd = copy_cells_lem 256 0 src f dst g (omega arith) hs hd

module _ {src : Memphy} {f : ℕ} {dst : Memphy} {g : ℕ} {src' dst' : Memphy}
    (c : Copied 0 src f dst g src' dst') where
  pub Copied-page :
      (off : ℕ) → off < 256 → dst'.storage (g * 256 + off) ≡ src.storage (f * 256 + off)
  Copied-page off h =
      let e : g * 256 + off - g * 256 ≡ off = omega arith in
      ground (arith, c.storage (g * 256 + off), ap (λ k. src.storage (f * 256 + k)) e)

  pub Copied-other :
      (k off : ℕ) → k ≢ g → off < 256 → dst'.storage (k * 256 + off) ≡ dst.storage (k * 256 + off)
  Copied-other k off ne h = ground (arith, c.storage (k * 256 + off))
