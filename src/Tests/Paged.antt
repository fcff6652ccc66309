-- ===== src/Tests/Paged.antt =====
-- The memory of one process: page table entries, devices, paging and the calls of src/libmem.c.
use ossim_os.Base.{◌%◌, ◌^◌, ◌≡◌, refl, none, some, List, [], ◌∷◌, arith, ◌&&◌}
use ossim_os.Base.Tests.{◌==◌, ltb, if◌then◌else◌}
use ossim_os.Memphy.{Memphy, read, write}
use ossim_os.Memphy.Bytes.{read-write}
use ossim_os.Pte.{pte_set_fpn, pte_set_swap}
use ossim_os.Pte.Fields.{Online, Offline, pte_set_fpn-Online, pte_set_swap-Offline}
use ossim_os.Paging.{Vm, swap_cp_page, swap_out_page, take_frame, pg_getpage}
use ossim_os.Paging.Copy.{Copied, swap_cp_page_lem}
use ossim_os.Paging.View.{Wf}
use ossim_os.Paging.Frame.{GotFrame, NoVictim, NoFrame, swap_out_page-GotFrame, take_frame-GotFrame}
use ossim_os.Paging.GetPage.{GotPage, pg_getpage-GotPage}
use ossim_os.Libmem.{pg_getval, pg_setval}
use ossim_os.Libmem.Access.{at_addr}
use ossim_os.Libmem.Bytes.{ReadByte, WroteByte, pg_getval-ReadByte, pg_setval-WroteByte}
use ossim_os.Libmem.Flat.{Access, load, store, Reply, Memory, Follows, Holds, accesses}
use ossim_os.Libmem.Run.{Apart, accesses-Follows}
use ossim_os.Tests.Memory.{sizes, sizes_ok, nobody, state, wf}

-- Both pages of symbol 3 are written and read, which swaps each of them in and out.
abbrev calls : List Access
calls = store 3 0 65 ∷ store 3 300 66 ∷ load 3 0 ∷ load 3 600 ∷ []

accesses-Follows_example :
    (rs : List Reply) × (t : Vm) × (m' : Memory) × (accesses calls state ≡ some (rs, t))
    × Follows state.mm state (at_addr state) calls rs t m'
    × Holds t m'
    × Wf sizes nobody t
    × Apart nobody state t
accesses-Follows_example =
    accesses-Follows sizes_ok nobody calls state (at_addr state) wf (λ a h. refl)

pg_setval-WroteByte_example : WroteByte sizes nobody state 300 66 (pg_setval 300 66 state)
pg_setval-WroteByte_example = pg_setval-WroteByte sizes_ok nobody state 300 66 wf

pg_getval-ReadByte_example : ReadByte sizes nobody state 300 (pg_getval 300 state)
pg_getval-ReadByte_example = pg_getval-ReadByte sizes_ok nobody state 300 wf

pg_getpage-GotPage_example : GotPage sizes nobody state 1 (pg_getpage 1 state)
pg_getpage-GotPage_example = pg_getpage-GotPage sizes_ok nobody state 1 wf

swap_out_page-GotFrame_example : GotFrame sizes nobody state (NoVictim state) (swap_out_page state)
swap_out_page-GotFrame_example = swap_out_page-GotFrame sizes_ok nobody state wf

take_frame-GotFrame_example : GotFrame sizes nobody state (NoFrame state) (take_frame state)
take_frame-GotFrame_example = take_frame-GotFrame sizes_ok nobody state wf

swap_cp_page_lem_example :
    (src' dst' : Memphy) × (swap_cp_page state.mram 0 (state.mswp 0) 1 ≡ some (src', dst'))
    × Copied 0 state.mram 0 (state.mswp 0) 1 src' dst'
swap_cp_page_lem_example =
    swap_cp_page_lem state.mram 0 (state.mswp 0) 1 (omega arith) (omega arith)

pte_set_fpn-Online_example : Online (pte_set_fpn 3221225600 9) (9 % 2 ^ 13)
pte_set_fpn-Online_example = pte_set_fpn-Online 3221225600 9 (omega arith)

pte_set_swap-Offline_example : Offline (pte_set_swap 2147483657 2 17) (2 % 2 ^ 5) (17 % 2 ^ 21)
pte_set_swap-Offline_example = pte_set_swap-Offline 2147483657 2 17 (omega arith)

read-write_example :
    let d = state.mswp 0 in
    ((write d 5 9).0 ≡ (ltb 5 (2 ^ 31) && ltb 5 d.maxsz))
    × ((read d 5).0 ≡ (if ltb 5 (2 ^ 31) && ltb 5 d.maxsz then some (d.storage 5) else none))
    × ((read (write d 5 9).1 5).0
        ≡ (if (ltb 5 (2 ^ 31) && ltb 5 d.maxsz) && (5 == 5) then some 9 else (read d 5).0))
read-write_example = read-write (state.mswp 0) 5 9 5
