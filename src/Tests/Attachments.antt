-- ===== src/Tests/Attachments.antt =====
-- The theorems on shmat(), shmdt(), shmctl() and removeshm(), at concrete tables.
use shared_memory.Prelude.{ℕ, ◌≡◌, refl, Option, some, [], arith, pos, ok, fault}
use shared_memory.Layout.{v2p}
use shared_memory.Vm.{read_pte}
use shared_memory.Shm.Table.{Kernel}
use shared_memory.Shm.Attach.{shmat_helper}
use shared_memory.Shm.Attach.Whole.{request, CanShmat, Consistent}
use shared_memory.Shm.Attach.Address.{shmat_aligned_fault}
use shared_memory.Shm.Remove.{removeshm_helper}
use shared_memory.Shm.Remove.Laws.{Owned}
use shared_memory.Shm.Remove.Whole.{IsSegment, Removed, remove_unattached}
use shared_memory.Shm.Get.Lookup.{FirstKey}
use shared_memory.Tests.States.{fresh, one_segment, attached, kmem-IsValid}

one_segment-Consistent : Consistent one_segment
unfolding read_pte
one_segment-Consistent i h e = refl

one_segment-CanShmat : CanShmat one_segment 0 1
one_segment-CanShmat = record {
  lock_free = refl;
  exists = omega arith;
  in_table = omega arith;
  some_page = omega arith;
  size = refl;
  kmem = kmem-IsValid;
  enough = omega arith;
  consistent = one_segment-Consistent;
}

shmat_aligned_fault_example : shmat_helper (request 0 0x7F001000 2) one_segment ≡ fault
shmat_aligned_fault_example =
    shmat_aligned_fault one_segment 0 1 0x7F001000 2 one_segment-CanShmat (omega arith)
      (omega arith) (omega arith) refl (λ e. absurd (omega arith))

-- No page is free, and no page table is there.
abbrev starved : Kernel
starved = record fresh { kmem = record (fresh.kmem) { free = [] } }

one_segment-IsSegment : IsSegment one_segment 0 1
one_segment-IsSegment = record {
  exists = omega arith;
  size = refl;
  some_page = omega arith;
  slots = omega arith;
}

attached-IsSegment : IsSegment attached 0 1
attached-IsSegment = record {
  exists = omega arith;
  size = refl;
  some_page = omega arith;
  slots = omega arith;
}

one_segment-Owned : Owned one_segment.table.shm_segs one_segment.kmem 0 1
unfolding v2p
one_segment-Owned = record {
  pages = λ j lo hi. (let e : j ≡ 0 = omega arith in rw e (omega arith));
  used = λ j lo hi. (let e : j ≡ 0 = omega arith in rw e refl);
  distinct = λ j l lo lt hi. absurd (omega arith);
}

remove_unattached_example :
    (k' : Kernel) × (removeshm_helper (pos 0) 0 one_segment ≡ ok (pos 0, k'))
    × Removed one_segment 0 1 k'
remove_unattached_example =
    remove_unattached one_segment 0 1 one_segment-IsSegment 0 (λ e. absurd (omega arith)) tt refl
      kmem-IsValid one_segment-Owned

one_segment-FirstKey : FirstKey one_segment.table.shm_segs (pos 7) 1 (some 0)
one_segment-FirstKey = (omega arith, refl, λ j h. absurd (omega arith))

abbrev first_slot : Option ℕ
first_slot = some 0
