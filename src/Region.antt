-- ===== src/Region.antt =====
-- src/libmem.c and src/mm.c: the list of free regions of an area. Addresses are `unsigned long`.
pub mod Cover
use ossim_os.Base.{ℕ, ◌+◌, Bool, true, false, ◌||◌, Option, none, some, List, [], ◌∷◌}
use ossim_os.Base.Tests.{ltb, leb, ◌==◌, if◌then◌else◌}
use ossim_os.Types.{Region}

-- `init_vm_rg`
unfoldable pub init_vm_rg : ℕ → ℕ → Region
init_vm_rg rg_start rg_end = record { rg_start = rg_start; rg_end = rg_end }

-- `enlist_vm_rg_node`
unfoldable pub enlist_vm_rg_node : List Region → Region → List Region
enlist_vm_rg_node rglist rgnode = rgnode ∷ rglist

-- The test of `enlist_vm_freerg_list`: one region ends where the other begins.
unfoldable pub is_adjacent : Region → Region → Bool
is_adjacent rgit rg_elmt = rgit.rg_end == rg_elmt.rg_start || rg_elmt.rg_end == rgit.rg_start

-- The new region grown by one that it touches.
unfoldable pub grow : Region → Region → Region
grow rgit rg_elmt = record {
  rg_start = if ltb rgit.rg_start rg_elmt.rg_start then rgit.rg_start else rg_elmt.rg_start;
  rg_end = if ltb rg_elmt.rg_end rgit.rg_end then rgit.rg_end else rg_elmt.rg_end;
}

-- The loop of `enlist_vm_freerg_list`: the grown region, and the regions that it did not swallow.
unfoldable pub merge : List Region → Region → Region × List Region
merge [] rg_elmt = (rg_elmt, [])
merge (rgit ∷ rest) rg_elmt = elim (is_adjacent rgit rg_elmt) [
  | true ↦ merge rest (grow rgit rg_elmt)
  | false ↦ let (grown, kept) = merge rest rg_elmt in (grown, rgit ∷ kept)
]

-- An empty region is refused, and the list stays.
unfoldable pub enlist_vm_freerg_list : List Region → Region → List Region
enlist_vm_freerg_list l rg_elmt =
    if leb rg_elmt.rg_end rg_elmt.rg_start
    then l
    else (let (grown, kept) = merge l rg_elmt in grown ∷ kept)

-- The loop of `get_free_vmrg_area`: the region handed out, and the list that is left.
unfoldable pub first_fit : List Region → ℕ → Option (Region × List Region)
first_fit [] size = none
first_fit (rgit ∷ rest) size = elim (rgit.rg_start + size == rgit.rg_end) [
  | true ↦ some (rgit, rest)
  | false ↦ elim (ltb (rgit.rg_start + size) rgit.rg_end) [
    | true ↦ some (
      record { rg_start = rgit.rg_start; rg_end = rgit.rg_start + size },
      record rgit { rg_start = rgit.rg_start + size } ∷ rest,
    )
    | false ↦ elim (first_fit rest size) [
      | none ↦ none
      | some (newrg, rest') ↦ some (newrg, rgit ∷ rest')
    ]
  ]
]
