-- ===== src/Memphy/Frames.antt =====
-- src/mm-memphy.c: the list of free frames.
use ossim_os.Base.{
  ℕ, zero, suc, ◌+◌, ◌*◌, ◌/◌, ◌<◌, ◌≡◌, Bool, none, some, ◌⊎◌, inl, inr, List, [], ◌∷◌, arith,
}
use ossim_os.Base.Tests.{ltb, leb, if◌then◌else◌}
use mathlib.Core.Bool.{◌&&◌}
use ossim_os.Base.Lists.{count, List-cases}
use ossim_os.Memphy.{Memphy, frames_from, format, get_freefp, init_memphy}

count-frames_from :
    (left iter f : ℕ)
    → count f (frames_from left iter) ≡ (if leb iter f && ltb f (iter + left) then 1 else 0)
unfolding frames_from
count-frames_from zero iter f = ground arith
count-frames_from (suc left) iter f = ground (arith, count-frames_from left (iter + 1) f)

-- After `init_memphy` the device has each of its whole frames on the free list once, and no other.
pub count-init_memphy :
    (max_size : ℕ) (randomflg : Bool) (f : ℕ)
    → count f (init_memphy max_size randomflg).free_fp_list
      ≡ (if ltb f (max_size / 256) then 1 else 0)
unfolding init_memphy format
count-init_memphy max_size randomflg f = ground (arith, count-frames_from (max_size / 256) 0 f)

-- Each frame of the list fits on the device.
pub frame-Fits : (max_size f off : ℕ) → f < max_size / 256 → off < 256 → f * 256 + off < max_size
frame-Fits max_size f off h k = omega arith

-- `MEMPHY_get_freefp` fails exactly on the empty list, and otherwise takes the first frame off it.
pub get_freefp_cases :
    (mp : Memphy)
    → ((mp.free_fp_list ≡ []) × (get_freefp mp ≡ (none, mp)))
      ⊎ ((g : ℕ) × (rest : List ℕ) × (mp.free_fp_list ≡ g ∷ rest)
          × (get_freefp mp ≡ (some g, record mp { free_fp_list = rest })))
unfolding get_freefp
get_freefp_cases mp = elim (List-cases mp.free_fp_list) [
  | inl e ↦ inl (e, ground arith)
  | inr (g, rest, e) ↦ inr (g, rest, e, ground arith)
]
