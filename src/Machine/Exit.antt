-- ===== src/Machine/Exit.antt =====
-- src/libmem.c, `free_pcb`: the end of a process, as the others see it.
use ossim_os.Base.{ℕ, ◌+◌, ◌≡◌, refl, sym, ap, ◌∙◌, subst, none, some, [], arith}
use native.Mathlib.Decide.{dec_lt}
use ossim_os.Base.Lists.{update}
use ossim_os.Paging.{Vm, ◌>>◌}
use ossim_os.Paging.Monad.{bind_some}
use ossim_os.Paging.Owner.{Place, ram, swap}
use ossim_os.Paging.View.{Sizes, Wf, where_is, free_count, byte_of}
use ossim_os.Libmem.{free_pcb_memph}
use ossim_os.Libmem.Exit.{owns, free_pcb_memph-Freed}
use ossim_os.Syscall.{drop_areas, free_pcb}
use ossim_os.Machine.{Machine, vm_of, with_vm, leave}
use ossim_os.Machine.Isolation.{Runs, Runs-Local, Areas, Safe, Spares, Local-Safe, vm_of-with_vm}

-- The process in state `u` has ended: it has no page, and its frames are free.
pub record Ended (s u : Vm) : Type 0 where
  pub gone : (p : ℕ) → where_is u p ≡ none
  pub freed : (x : Place) → free_count u x ≡ free_count s x + owns s x

abbrev cleared : Vm → Vm
cleared t = record t { mm = record (t.mm) { mmap = []; fifo_pgn = [] } }

bytes_cleared : (t : Vm) (x : Place) (off : ℕ) → byte_of (cleared t) x off ≡ byte_of t x off
bytes_cleared t (ram f) off = refl
bytes_cleared t (swap i f) off = refl

exit-Runs :
    {c : Sizes} (held : Place → ℕ) (s : Vm)
    → Wf c held s
    → (a : Unit {0}) × (u : Vm) × Runs c held s (free_pcb_memph >> drop_areas) a u × Ended s u
unfolding drop_areas
exit-Runs {c} held s w =
    let (t, e, f) = free_pcb_memph-Freed held s w in
    let gone : (p : ℕ) → where_is (cleared t) p ≡ none =
      λ p. elim (dec_lt p 16384) [ yes h ↦ f.gone p h | no h ↦ ground arith ] in
    (
      tt,
      cleared t,
      record {
        eq = bind_some free_pcb_memph (λ _. drop_areas) e;
        wf = record {
          ram_size = f.ram_size ∙ w.ram_size;
          swp_size = λ i h. f.swp_size i ∙ w.swp_size i h;
          active = omega (arith, f.active, w.active);
          words = f.words;
          owned = f.owned;
          fifo = λ p. ground (arith, gone p);
        };
        apart = λ x off h k. bytes_cleared t x off ∙ f.bytes x off;
      },
      record { gone = gone; freed = f.stocked },
    )

-- `free_pcb` never faults. The process has no page left, exactly its frames have become free, the
-- invariant of all processes is kept, and the others are spared.
pub free_pcb-Safe :
    {c : Sizes} {areas : Areas} (s : Machine) (p : ℕ)
    → Safe c areas s
    → (t : Machine) × (free_pcb p s ≡ some (tt, t))
      × Safe c (update areas p none) t
      × Spares s p t
      × Ended (vm_of s p) (vm_of t p)
unfolding free_pcb
free_pcb-Safe {c} s p safe =
    let held = owns (vm_of s (p + 1)) in
    let (a, u, r, ended) =
      exit-Runs held (vm_of s p) (safe.pairs p (p + 1) (λ e. absurd (omega arith))) in
    let d =
      Runs-Local r (λ other w. let (b, v, z, _) = exit-Runs other (vm_of s p) w in (b, v, z)) in
    let (safe', spares) = Local-Safe s p safe u d none (λ vma e. absurd (cc e)) in
    (
      with_vm s p u,
      ap (leave s p) r.eq,
      safe',
      spares,
      subst (Ended (vm_of s p)) (sym (vm_of-with_vm s p u)) ended,
    )
