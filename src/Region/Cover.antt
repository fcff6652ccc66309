-- ===== src/Region/Cover.antt =====
-- src/libmem.c: which addresses the list of free regions of an area covers.
use native.Mathlib.Decide.{dec_lt}
use ossim_os.Base.{
  ℕ, ◌+◌, ◌≤◌, ◌<◌, ◌≡◌, refl, sym, subst, inl, inr, true, false, ◌&&◌, Option, none, some, List,
  [], ◌∷◌, ◌++◌, ap, arith,
}
use ossim_os.Base.Tests.{Bool-cases, ltb, leb, ◌==◌, if◌then◌else◌}
use ossim_os.Base.Lists.{All}
use ossim_os.Types.{Region}
use ossim_os.Region.{is_adjacent, grow, merge, enlist_vm_freerg_list, first_fit}

-- 1 for an address in the region, and the number of regions that an address is in.
abbrev pub inside : Region → ℕ → ℕ
inside rg a = if leb rg.rg_start a && ltb a rg.rg_end then 1 else 0

abbrev pub cover : List Region → ℕ → ℕ
cover [] a = 0
cover (rg ∷ rest) a = inside rg a + cover rest a

abbrev pub Ordered : Region → Type 0
Ordered rg = rg.rg_start ≤ rg.rg_end

inside-grow :
    (rgit rg : Region) (a : ℕ)
    → Ordered rgit
    → rg.rg_start < rg.rg_end
    → is_adjacent rgit rg ≡ true
    → inside (grow rgit rg) a ≡ inside rgit a + inside rg a
unfolding is_adjacent grow
inside-grow rgit rg a h k e = ground arith

grow-Ordered :
    (rgit rg : Region) → rg.rg_start < rg.rg_end → (grow rgit rg).rg_start < (grow rgit rg).rg_end
unfolding grow
grow-Ordered rgit rg k = ground arith

merge-cover :
    (l : List Region) (rg : Region) (a : ℕ)
    → All Ordered l
    → rg.rg_start < rg.rg_end
    → inside (merge l rg).0 a + cover (merge l rg).1 a ≡ inside rg a + cover l a
unfolding merge
merge-cover [] rg a h k = refl
merge-cover (rgit ∷ rest) rg a h k = elim (Bool-cases (is_adjacent rgit rg)) [
  | inl e ↦
      rw (e, merge)
        (omega (
          arith,
          merge-cover rest (grow rgit rg) a h.1 (grow-Ordered rgit rg k),
          inside-grow rgit rg a h.0 k e,
        ))
  | inr e ↦ rw (e, merge) (omega (arith, merge-cover rest rg a h.1 k))
]

-- `enlist_vm_freerg_list` adds exactly the addresses of the region that it is given to a list of regions
-- that end no sooner than they start, whatever it merges; an empty region adds none.
pub cover-enlist_vm_freerg_list :
    (l : List Region) (rg : Region) (a : ℕ)
    → All Ordered l
    → cover (enlist_vm_freerg_list l rg) a ≡ inside rg a + cover l a
unfolding enlist_vm_freerg_list
cover-enlist_vm_freerg_list l rg a h = elim (Bool-cases (leb rg.rg_end rg.rg_start)) [
  | inl e ↦ rw e (ground arith)
  | inr e ↦ rw e (merge-cover l rg a h (ground arith))
]

merge-Ordered :
    (l : List Region) (rg : Region)
    → All Ordered l
    → rg.rg_start < rg.rg_end
    → Ordered (merge l rg).0 × All Ordered (merge l rg).1
unfolding merge
merge-Ordered [] rg h k = (omega arith, tt)
merge-Ordered (rgit ∷ rest) rg h k = elim (Bool-cases (is_adjacent rgit rg)) [
  | inl e ↦ rw (e, merge) (merge-Ordered rest (grow rgit rg) h.1 (grow-Ordered rgit rg k))
  | inr e ↦ let (a, b) = merge-Ordered rest rg h.1 k in rw (e, merge) (a, (h.0, b))
]

pub enlist_vm_freerg_list-Ordered :
    (l : List Region) (rg : Region) → All Ordered l → All Ordered (enlist_vm_freerg_list l rg)
unfolding enlist_vm_freerg_list
enlist_vm_freerg_list-Ordered l rg h = elim (Bool-cases (leb rg.rg_end rg.rg_start)) [
  | inl e ↦ rw e h
  | inr e ↦ rw e (merge-Ordered l rg h (ground arith))
]

-- The region handed out is cut from the first one that is large enough.
abbrev pub First : List Region → ℕ → Region → Type 0
First l size newrg =
    (before : List Region) × (rgit : Region) × (behind : List Region) × (l
      ≡ before ++ rgit ∷ behind)
    × All (λ rg. rg.rg_end < rg.rg_start + size) before
    × (rgit.rg_start + size ≤ rgit.rg_end)
    × (newrg.rg_start ≡ rgit.rg_start)

-- What a search of the list gives: a region of the size asked for, whose addresses the rest of the list
-- no longer covers, or none, and then every region is too small.
abbrev pub Fit : List Region → ℕ → Option (Region × List Region) → Type 0
Fit l size none = All (λ rg. rg.rg_end < rg.rg_start + size) l
Fit l size (some (newrg, left)) =
    (newrg.rg_end ≡ newrg.rg_start + size)
    × All Ordered left
    × ((a : ℕ) → cover l a ≡ inside newrg a + cover left a)
    × First l size newrg

first_fit_here :
    (rgit : Region) (rest : List Region) (size : ℕ)
    → All Ordered (rgit ∷ rest)
    → rgit.rg_start + size ≤ rgit.rg_end
    → 0 < size
    → Fit (rgit ∷ rest) size (first_fit (rgit ∷ rest) size)
unfolding first_fit
first_fit_here rgit rest size h k pos = elim (Bool-cases (rgit.rg_start + size == rgit.rg_end)) [
  | inl e ↦ rw (e, first_fit) (ground arith, h.1, λ a. refl, ([], rgit, rest, refl, tt, k, refl))
  | inr e ↦
      let f : ltb (rgit.rg_start + size) rgit.rg_end ≡ true = ground arith in
      rw (e, f, first_fit)
        (refl, (omega arith, h.1), λ a. ground arith, ([], rgit, rest, refl, tt, k, refl))
]

first_fit_next :
    (rgit : Region) (rest : List Region) (size : ℕ)
    → rgit.rg_end < rgit.rg_start + size
    → first_fit (rgit ∷ rest) size ≡ elim (first_fit rest size) [
      | none ↦ none
      | some (newrg, rest') ↦ some (newrg, rgit ∷ rest')
    ]
unfolding first_fit
first_fit_next rgit rest size h =
    let e : (rgit.rg_start + size == rgit.rg_end) ≡ false = ground arith in
    let f : ltb (rgit.rg_start + size) rgit.rg_end ≡ false = ground arith in rw (e, f, first_fit)

-- A positive size is served by the first region that is large enough, and fails only if there is none:
-- the region handed out starts where that one does and has the size, and the list then covers exactly
-- the other addresses that it did.
pub first_fit-Fit :
    (l : List Region) (size : ℕ) → All Ordered l → 0 < size → Fit l size (first_fit l size)
first_fit-Fit [] size h pos = unfold first_fit in tt
first_fit-Fit (rgit ∷ rest) size h pos = elim (dec_lt rgit.rg_end (rgit.rg_start + size)) [
  | no large ↦ first_fit_here rgit rest size h (omega arith) pos
  | yes small ↦
      subst (Fit (rgit ∷ rest) size) (sym (first_fit_next rgit rest size small))
        (go small (first_fit rest size) (first_fit-Fit rest size h.1 pos))
]
  where
    go :
        rgit.rg_end < rgit.rg_start + size
        → (o : Option (Region × List Region)) → Fit rest size o
        → Fit
            (rgit ∷ rest)
            size
            (elim o [ none ↦ none | some (newrg, rest') ↦ some (newrg, rgit ∷ rest') ])
    go small none all = (small, all)
    go small (some (newrg, left)) (e, ordered, c, (before, rg, behind, is, less, large, at)) = (
      e,
      (h.0, ordered),
      λ a. omega (arith, c a),
      (rgit ∷ before, rg, behind, ap (λ l. rgit ∷ l) is, (small, less), large, at),
    )
