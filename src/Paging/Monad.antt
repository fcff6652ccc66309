-- ===== src/Paging/Monad.antt =====
-- The steps of the state monad of `Paging`, as equations.
use ossim_os.Base.{ℕ, ◌<◌, ◌≡◌, ap, some, arith}
use ossim_os.Base.Lists.{update}
use ossim_os.Paging.{Vm, M, resume, ◌>>=◌, load_pte, store_pte, with_pgd}

-- A first step that succeeds hands its value and state to the rest.
pub bind_some :
    {A B : Type 0} (m : M A) (f : A → M B) {s t : Vm} {a : A}
    → m s ≡ some (a, t)
    → (m >>= f) s ≡ f a t
bind_some m f e = ap (resume f) e

pub load_pte_eq : (s : Vm) (p : ℕ) → p < 16384 → load_pte p s ≡ some (s.mm.pgd p, s)
unfolding load_pte
load_pte_eq s p h = ground arith

pub store_pte_eq :
    (s : Vm) (p v : ℕ) → p < 16384 → store_pte p v s ≡ some (tt, with_pgd s (update s.mm.pgd p v))
unfolding store_pte
store_pte_eq s p v h = ground arith
