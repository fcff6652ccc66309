-- ===== src/Tests/Grown.antt =====
-- The areas of a process: free regions, collected frames and growth.
use ossim_os.Base.{ℕ, ◌+◌, ◌≡◌, some, true, List, [], ◌∷◌, arith}
use ossim_os.Types.{Region}
use ossim_os.Region.{enlist_vm_freerg_list, first_fit}
use ossim_os.Region.Cover.{inside, cover, Fit, cover-enlist_vm_freerg_list, first_fit-Fit}
use ossim_os.Paging.View.{Sizes, SizesOk, Wf}
use ossim_os.Area.{alloc_pages_range, inc_vma_limit, paging_page_alignsz}
use ossim_os.Area.Collect.{GotFrames, alloc_pages_range-GotFrames}
use ossim_os.Area.Limit.{Grown, inc_vma_limit-Grown}
use ossim_os.Types.{Vma}
use ossim_os.Base.Lists.{update}
use ossim_os.Paging.{Vm}
use ossim_os.Paging.View.{Keeps}
use ossim_os.Libmem.{alloc, free}
use ossim_os.Libmem.Layout.{Layout}
use ossim_os.Libmem.Alloc.{Alloced, alloc-Alloced}
use ossim_os.Libmem.Free.{free-Layout}
use ossim_os.Libmem.Init.{fresh-Layout, fresh, first_area, fresh-Wf, fresh-HasArea}
use ossim_os.Tests.Memory.{sizes, sizes_ok, nobody, state, wf, area, layout}

abbrev regions : List Region
regions =
    record { rg_start = 0; rg_end = 100 }
    ∷ record { rg_start = 200; rg_end = 300 }
    ∷ record { rg_start = 600; rg_end = 900 }
    ∷ []

abbrev gap : Region
gap = record { rg_start = 100; rg_end = 200 }

cover-enlist_vm_freerg_list_example :
    cover (enlist_vm_freerg_list regions gap) 150 ≡ inside gap 150 + cover regions 150
cover-enlist_vm_freerg_list_example =
    cover-enlist_vm_freerg_list regions gap 150 (omega arith, (omega arith, (omega arith, tt)))

first_fit-Fit_example : Fit regions 250 (first_fit regions 250)
first_fit-Fit_example =
    first_fit-Fit regions 250 (omega arith, (omega arith, (omega arith, tt))) (omega arith)

-- RAM of four frames.
abbrev wide : Sizes
wide = record { ram_size = 1024; swp_size = λ _. 512 }

wide_ok : SizesOk wide
wide_ok = record { ram_small = omega arith; swp_small = λ t h. omega arith }

fresh-Wf_example : Wf wide (λ x. 0) (fresh wide)
fresh-Wf_example = fresh-Wf wide

alloc_pages_range-GotFrames_example : GotFrames sizes nobody state 2 (alloc_pages_range 2 state)
alloc_pages_range-GotFrames_example = alloc_pages_range-GotFrames sizes_ok nobody 2 state wf

inc_vma_limit-Grown_example :
    Grown wide
      (λ x. 0)
      (fresh wide)
      first_area
      (paging_page_alignsz 300)
      (inc_vma_limit 0 300 (fresh wide))
inc_vma_limit-Grown_example =
    inc_vma_limit-Grown wide_ok (λ x. 0) (fresh wide) first_area 300 (fresh-Wf wide)
      (fresh-HasArea wide) (omega arith) (omega arith)

alloc-Alloced_example :
    Alloced wide (λ x. 0) (fresh wide) first_area 3 300 (alloc 0 3 300 (fresh wide))
alloc-Alloced_example =
    alloc-Alloced wide_ok (λ x. 0) (fresh wide) first_area 3 300 (fresh-Wf wide) (fresh-Layout wide)
      (omega arith) (omega arith) (omega arith)

free-Layout_example :
    (t : Vm) × (vma' : Vma) × (free 0 3 state ≡ some (true, t))
    × Wf sizes nobody t
    × Layout t vma'
    × Keeps nobody state t
    × (t.mm.symrgtbl ≡ update state.mm.symrgtbl 3 (record { rg_start = 0; rg_end = 0 }))
    × ((a : ℕ)
        → cover vma'.vm_freerg_list a
          ≡ inside (state.mm.symrgtbl 3) a + cover area.vm_freerg_list a)
free-Layout_example = free-Layout nobody state area 3 wf layout (omega arith) (omega arith)
