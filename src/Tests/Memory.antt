-- ===== src/Tests/Memory.antt =====
-- The theorems on addresses, pages and page tables, at concrete values.
use shared_memory.Prelude.{ℕ, ◌≡◌, ◌↔◌, refl, true, false, Option, none, [], arith, ok}
use shared_memory.Layout.{v2p, pg_round_up, pg_round_down}
use shared_memory.Kalloc.{Kmem, kalloc, freerange}
use shared_memory.Kalloc.Invariant.{IsPage, IsValid, Taken, kalloc_total}
use shared_memory.Kalloc.Range.{Freed, freerange_total}
use shared_memory.Vm.{Space, Perm, read_pte}
use shared_memory.Uvm.{allocuvm}
use shared_memory.Uvm.Grow.{Grown, allocuvm_lem}
use shared_memory.Tests.States.{kmem, kmem-IsValid, end_addr, free_pages, fresh}

kalloc_total_example :
    (r : Option ℕ) × (k' : Kmem) × (kalloc kmem ≡ ok (r, k'))
    × IsValid k'
    × Taken kmem r k'
    × ((r ≡ none) ↔ (free_pages ≡ []))
kalloc_total_example = kalloc_total kmem kmem-IsValid

a_page : IsPage end_addr 0x80310000
unfolding v2p
a_page = omega arith

freerange_total_example :
    (k' : Kmem) × (freerange 600000 0x80400000 0x80500000 kmem ≡ ok k')
    × Freed kmem (pg_round_up 0x80400000) 0x80500000 k'
freerange_total_example =
    freerange_total 600000 0x80400000 0x80500000 kmem (omega arith) (omega arith) (omega arith)
      (omega arith) (omega arith) kmem-IsValid (omega arith)

abbrev space : Space
space = record { dir = fresh.pgdir; kmem = kmem }

abbrev perm : Perm
perm = record { write_ok = true; user_ok = true }

unmapped : (read_pte space.dir 0x7F000000).present ≡ false
unfolding read_pte
unmapped = refl

abbrev empty_space : Space
empty_space = record { dir = λ d. none; kmem = kmem }

allocuvm_lem_example :
    (s' : Space) × (allocuvm 0 4096 empty_space ≡ ok (4096, s'))
    × Grown (pg_round_up 0) 4096 empty_space s'
unfolding read_pte pg_round_up pg_round_down
allocuvm_lem_example =
    allocuvm_lem 0 4096 empty_space (omega arith) (omega arith) kmem-IsValid (omega arith)
      (λ b pb lo hi. refl)
