-- ===== src/Libmem/Flat.antt =====
-- src/libmem.c, `libread` and `libwrite`: a run of them against an array of bytes that knows nothing
-- of pages, frames or swap devices.
use ossim_os.Base.{
  ℕ, ◌/◌, ◌%◌, ◌^◌, ◌<◌, ◌≡◌, ap, ◌∙◌, subst, ◌⊎◌, Bool, Option, none, some, true, false, arith,
  List, [], ◌∷◌,
}
use native.Mathlib.Decide.{ℕ_discrete}
use ossim_os.Base.Lists.{update}
use ossim_os.Types.{Mm}
use ossim_os.Paging.{Vm, M, pure, ◌>>=◌}
use ossim_os.Paging.Owner.{Place}
use ossim_os.Paging.View.{Keeps, peek}
use ossim_os.Paging.GetPage.{SameProcess, Unavailable}
use ossim_os.Area.{widen}
use ossim_os.Libmem.{byte_address, get_symrg_byid, libread, libwrite}
use ossim_os.Libmem.Access.{as_byte, at_addr}
use ossim_os.Libmem.Bytes.{KeepsBut}

pub data Access : Type 0 where
  load : ℕ → ℕ → Access
  store : ℕ → ℕ → ℕ → Access

-- The result of a call: `none` and `false` stand for -1.
pub data Reply : Type 0 where
  loaded : Option ℕ → Reply
  stored : Bool → Reply

abbrev pub access : Access → M Reply
access (load rgid offset) = libread rgid offset >>= λ got. pure (loaded got)
access (store rgid offset value) = libwrite value rgid offset >>= λ ok. pure (stored ok)

abbrev pub accesses : List Access → M (List Reply)
accesses [] = pure []
accesses (a ∷ rest) = access a >>= λ r. accesses rest >>= λ rs. pure (r ∷ rs)

-- The address that a call reaches, if its symbol, area and offset are valid.
abbrev pub target : Mm → Access → Option ℕ
target mm (load rgid offset) = byte_address mm 0 rgid offset
target mm (store rgid offset value) = byte_address mm 0 rgid offset

-- A memory of 2 ^ 22 bytes; unmapped ones are `none`.
abbrev pub Memory : Type 0
Memory = ℕ → Option ℕ

-- The replies that the array allows in state `s`: a call answers as the array does. It fails only where
-- the page is unmapped, or on a swap device with no frame of RAM to be had.
abbrev pub Allowed : Vm → Memory → Option ℕ → Access → Reply → Type 0
Allowed s m none (load rgid offset) r = r ≡ loaded none
Allowed s m none (store rgid offset value) r = r ≡ stored false
Allowed s m (some addr) (load rgid offset) r =
    ((r ≡ loaded none) × Unavailable s (addr / 256 % 16384))
    ⊎ ((v : ℕ) × (r ≡ loaded (some (widen v))) × (m (addr % 2 ^ 22) ≡ some v))
Allowed s m (some addr) (store rgid offset value) r =
    ((r ≡ stored false) × Unavailable s (addr / 256 % 16384)) ⊎ (r ≡ stored true)

-- The array after a call: only a store that succeeds changes it.
abbrev pub after : Memory → Option ℕ → Access → Reply → Memory
after m (some addr) (store rgid offset value) (stored true) =
    update m (addr % 2 ^ 22) (some (value % 256))
after m _ _ _ = m

-- A run from one state and array to another, with its replies in the order of its calls; the areas and
-- symbols are those of `mm` throughout.
pub data Follows (mm : Mm) : Vm → Memory → List Access → List Reply → Vm → Memory → Type 0 where
  stop : (s : Vm) (m : Memory) → Follows mm s m [] [] s m
  call :
      (s : Vm) (m : Memory) (a : Access) (r : Reply) (t : Vm) (calls : List Access)
      (rs : List Reply) (u : Vm) (m' : Memory)
      → access a s ≡ some (r, t)
      → Allowed s m (target mm a) a r
      → Follows mm t (after m (target mm a) a r) calls rs u m'
      → Follows mm s m (a ∷ calls) (r ∷ rs) u m'

-- The state holds the bytes of the array.
abbrev pub Holds : Vm → Memory → Type 0
Holds s m = (a : ℕ) → a < 2 ^ 22 → at_addr s a ≡ m a

pub Holds-Keeps :
    (held : Place → ℕ) {s t : Vm} (m : Memory) → Keeps held s t → Holds s m → Holds t m
Holds-Keeps held m k h a lt =
    ap as_byte (k.pages (a / 256 % 16384) (a % 256) (omega arith)) ∙ h a lt

pub Holds-KeepsBut :
    (held : Place → ℕ) {s t : Vm} (m : Memory) (addr value : ℕ)
    → at_addr t addr ≡ some (value % 256)
    → KeepsBut held s (addr / 256 % 16384) (addr % 256) t
    → Holds s m
    → Holds t (update m (addr % 2 ^ 22) (some (value % 256)))
Holds-KeepsBut held {s} {t} m addr value e k h a lt = elim (ℕ_discrete a (addr % 2 ^ 22)) [
  | yes z ↦
      let page : a / 256 % 16384 ≡ addr / 256 % 16384 = omega arith in
      let off : a % 256 ≡ addr % 256 = omega arith in
      ap (λ n. as_byte (peek t n (a % 256))) page
      ∙ ap (λ n. as_byte (peek t (addr / 256 % 16384) n)) off
      ∙ e
      ∙ ground arith
  | no ne ↦
      ap as_byte
        (k.pages (a / 256 % 16384) (a % 256) (omega arith) (λ (x, y). ne (omega (arith, lt))))
      ∙ h a lt
      ∙ ground arith
]

-- The guards look only at the areas and the symbols.
address_same :
    {s t : Vm} (rgid offset : ℕ)
    → SameProcess s t
    → byte_address t.mm 0 rgid offset ≡ byte_address s.mm 0 rgid offset
unfolding byte_address get_symrg_byid
address_same rgid offset e = rw (e.areas, e.symbols)

pub target_same : {s t : Vm} (a : Access) → SameProcess s t → target t.mm a ≡ target s.mm a
target_same (load rgid offset) e = address_same rgid offset e
target_same (store rgid offset value) e = address_same rgid offset e

pub at_flat : (s : Vm) (m : Memory) (addr : ℕ) → Holds s m → at_addr s addr ≡ m (addr % 2 ^ 22)
at_flat s m addr h =
    let page : addr / 256 % 16384 ≡ addr % 2 ^ 22 / 256 % 16384 = omega arith in
    let off : addr % 256 ≡ addr % 2 ^ 22 % 256 = omega arith in
    ap (λ n. as_byte (peek s n (addr % 256))) page
    ∙ ap (λ n. as_byte (peek s (addr % 2 ^ 22 / 256 % 16384) n)) off
    ∙ h (addr % 2 ^ 22) (omega arith)

-- What the array allows depends on the areas and symbols only.
pub Follows-same :
    {s t v u : Vm} {m m' : Memory} {calls : List Access} {rs : List Reply}
    → SameProcess s t
    → Follows t.mm v m calls rs u m'
    → Follows s.mm v m calls rs u m'
Follows-same {s} e (stop v m) = stop v m
Follows-same {s} e (call v m a r w calls rs u m' run ok f) =
    let z = target_same a e in
    call v m a r w calls rs u m' run (subst (λ o. Allowed v m o a r) z ok)
      (subst (λ o. Follows s.mm w (after m o a r) calls rs u m') z (Follows-same e f))
