-- ===== src/Tests/Segments.antt =====
-- The theorems on shmget() and removeshm(), at concrete tables.
use shared_memory.Prelude.{
  bit_and, ℕ, ◌≤◌, ◌≡◌, ◌≢◌, ◌⊎◌, refl, Option, some, [], arith, pos, minus_one, ok, fault, ◌==◌,
}
use shared_memory.Layout.{pg_round_up}
use shared_memory.Shm.Table.{Kernel, enospc, eexist, ipc_creat}
use shared_memory.Shm.Search.{search, FirstFit, search-FirstFit}
use shared_memory.Shm.Alloc.{alloc_shm_seg, slot_free, place}
use shared_memory.Shm.Alloc.Cases.{pages, Placed, alloc_shm_seg_lem, alloc_shm_seg_short}
use shared_memory.Shm.Get.{shmget_helper, effective_key}
use shared_memory.Shm.Get.Lookup.{FirstKey, exclusive}
use shared_memory.Shm.Get.Segment.{Created, KeyIn}
use shared_memory.Shm.Get.Create.{Unused, shmget_create-lookup, shmget_duplicate}
use shared_memory.Tests.States.{fresh, fresh-IsReady, two_slots, two_slots-IsReady}

search-FirstFit_example :
    (r : Option ℕ) × (search 8 (λ i. i == 2) 1 8 ≡ ok r) × FirstFit (λ i. i == 2) 1 8 r
search-FirstFit_example = search-FirstFit 8 (λ i. i == 2) 1 (omega arith) 8 (omega arith)

fresh-Unused : Unused fresh (pos 7)
fresh-Unused j h = absurd (omega arith)

two_pages : pages 8192 ≤ 3
unfolding pg_round_up
two_pages = omega arith

alloc_shm_seg_lem_example :
    (found : Option ℕ) × FirstFit (slot_free fresh.table.shm_segs) (pages 8192) 0 found
    × Placed 8192 (pos 7) 4 fresh (place found minus_one)
alloc_shm_seg_lem_example =
    alloc_shm_seg_lem 8192 (pos 7) 4 fresh (omega arith) (omega arith) fresh-IsReady two_pages

shmget_create-lookup_example :
    (shmget_helper (pos 7) 8192 ipc_creat fresh ≡ ok (enospc, fresh))
    ⊎ ((i : ℕ) × (k' : Kernel) × (shmget_helper (pos 7) 8192 ipc_creat fresh ≡ ok (pos i, k'))
        × (shmget_helper (pos 7) 100 0 k' ≡ ok (pos i, k'))
        × (shmget_helper (pos 7) 100 exclusive k' ≡ ok (eexist, k')))
shmget_create-lookup_example =
    shmget_create-lookup (pos 7) 8192 100 fresh refl (λ e. cc) (omega arith) (omega arith)
      fresh-IsReady two_pages fresh-Unused

two_slots-FirstKey : FirstKey two_slots.table.shm_segs (pos 7) 2 (some 0)
two_slots-FirstKey = (omega arith, refl, λ j h. absurd (omega arith))

one_page : pages 4096 ≤ 3
unfolding pg_round_up
one_page = omega arith

shmget_duplicate_example :
    (shmget_helper (pos 7) 4096 ipc_creat two_slots ≡ ok (enospc, two_slots))
    ⊎ ((i : ℕ) × (k' : Kernel) × (shmget_helper (pos 7) 4096 ipc_creat two_slots ≡ ok (pos i, k'))
        × (0 ≢ i)
        × (k'.table.shm_segs 0 ≡ two_slots.table.shm_segs 0)
        × KeyIn k' (pos 7) i
        × Created two_slots (pos 7) 4096 (bit_and ipc_creat 3) i k')
shmget_duplicate_example =
    shmget_duplicate (pos 7) 4096 0 two_slots refl (λ e. cc) (omega arith) (omega arith)
      two_slots-IsReady one_page two_slots-FirstKey (omega arith)

-- No free slot in the table, and no page for a third one.
abbrev starved : Kernel
starved = record two_slots { kmem = record (two_slots.kmem) { free = [] } }

alloc_shm_seg_short_example : alloc_shm_seg 4096 (pos 9) 4 starved ≡ fault
unfolding search pg_round_up
alloc_shm_seg_short_example =
    alloc_shm_seg_short 4096 (pos 9) 4 starved (omega arith) (omega arith)
      (record { table_free = refl; kmem_free = refl; last_is = tt; last_in = omega arith }) refl
      (omega arith) (omega arith) (omega arith)

effective_seven : effective_key (pos 7) two_slots ≡ pos 7
unfolding effective_key
effective_seven = refl
