-- ===== src/Shm/Alloc/Undo.antt =====
-- The error path of allocShmSeg() when kalloc() fails: what unmapShmSegPage() really does.
use shared_memory.Prelude.{
  ℕ, zero, suc, ◌+◌, ◌-◌, ◌/◌, ◌%◌, ◌≤◌, ◌<◌, ◌≡◌, refl, ◌∙◌, Bool, true, false, List, [], ◌∷◌,
  arith, length, update_loop-ok, update_loop-out, ==-ne, map_range, ◌==◌, if◌then◌else◌, ℤ, rounds,
  fault,
}
use shared_memory.Layout.{word, page_size, shm_max_seg}
use shared_memory.Kalloc.Invariant.{kalloc-nil}
use shared_memory.Shm.Table.{ShmTable, Kernel, to_uint}
use shared_memory.Shm.Alloc.{cleared_slot, unmap_loop, unmap_shm_seg_page, alloc_pages}
use shared_memory.Shm.Alloc.Fill.{IsIndex, rounds-incr, after_page, alloc_pages-suc}

to_uint_of_IsIndex : (l : ℤ) → IsIndex l → 0 < rounds l → to_uint l + 1 ≡ rounds l
to_uint_of_IsIndex l h p = ground arith

-- One round at an index of the table that is not the last one.
unmap_step :
    (n e : ℕ) (t : ShmTable)
    → e < shm_max_seg
    → (e == to_uint t.last_shm_seg_index) ≡ false
    → unmap_loop (suc n) e t
      ≡ unmap_loop n
          ((e + word - 1) % word)
          (record t { shm_segs = map_range cleared_slot e 1 t.shm_segs })
unfolding unmap_loop
unmap_step n e t h ne =
    rw (ne, update_loop-ok shm_max_seg cleared_slot 1 e t.shm_segs (omega arith)) refl

-- At an index outside the table the loop leaves the array.
unmap_outside :
    (n e : ℕ) (t : ShmTable)
    → shm_max_seg ≤ e
    → (e == to_uint t.last_shm_seg_index) ≡ false
    → unmap_loop (suc n) e t ≡ fault
unfolding unmap_loop
unmap_outside n e t h ne = rw (ne, update_loop-out shm_max_seg cleared_slot 0 e t.shm_segs h) refl

unmap_falls :
    (n e : ℕ) (t : ShmTable)
    → e + 1 < n
    → e < to_uint t.last_shm_seg_index
    → to_uint t.last_shm_seg_index < shm_max_seg
    → unmap_loop n e t ≡ fault
unmap_falls zero e t f h b = absurd (omega arith)
unmap_falls (suc zero) e t f h b = absurd (omega arith)
unmap_falls (suc (suc n)) zero t f h b =
    unmap_step (suc n) 0 t (omega arith) (==-ne _ _ (omega arith))
    ∙ unmap_outside n ((0 + word - 1) % word) _ (omega arith) (==-ne _ _ (omega arith))
unmap_falls (suc (suc n)) (suc e) t f h b =
    let down : (suc e + word - 1) % word ≡ e = omega arith in
    unmap_step (suc n) (suc e) t (omega arith) (==-ne _ _ (omega arith))
    ∙ rw down (unmap_falls (suc n) e _ (omega arith) (omega arith) b)

-- unmapShmSegPage() from an index below the last slot writes outside the table: its loop counts
-- down, past the slot 0, and never meets the last index.
pub unmap_shm_seg_page-fault :
    (e : ℕ) (t : ShmTable)
    → t.lock ≡ false
    → e < to_uint t.last_shm_seg_index
    → to_uint t.last_shm_seg_index < shm_max_seg
    → unmap_shm_seg_page e t ≡ fault
unfolding unmap_shm_seg_page
unmap_shm_seg_page-fault e t u h b =
    rw (u, unmap_falls (shm_max_seg + 2) e (record t { lock = true }) (omega arith) h b) refl

-- With too few free pages, when the index at which the clean-up starts stays below the last slot,
-- the clean-up runs down through the slots of other segments and out of the table.
pub alloc_pages_short :
    (n a : ℕ) (key : ℤ) (size i : ℕ) (grows : Bool) (perm : ℕ) (k : Kernel) (free : List ℕ)
    → k.kmem.free ≡ free
    → k.table.lock ≡ false
    → k.kmem.locked ≡ false
    → i + n ≤ shm_max_seg
    → length free < n
    → IsIndex k.table.last_shm_seg_index
    → a / page_size + 1 + (if grows then 0 else length free) < rounds k.table.last_shm_seg_index
    → rounds k.table.last_shm_seg_index + (if grows then length free else 0) ≤ shm_max_seg
    → alloc_pages n a key size i grows perm k ≡ fault
unfolding alloc_pages
alloc_pages_short zero a key size i grows perm k free e u v h short is below top =
    absurd (omega arith)
alloc_pages_short (suc n) a key size i grows perm k [] e u v h short is below top =
    let last = to_uint_of_IsIndex k.table.last_shm_seg_index is (omega arith) in
    rw
      (
        kalloc-nil k.kmem v e,
        unmap_shm_seg_page-fault (a / page_size) k.table u (ground arith) (ground arith),
      )
      refl
alloc_pages_short (suc n) a key size i true perm k (page ∷ l) e u v h short is below top =
    let step = rounds-incr k.table.last_shm_seg_index is in
    alloc_pages-suc n a key size i true perm k page l u v (omega arith) e
    ∙ alloc_pages_short n (a + page_size) key size (i + 1) true perm
        (after_page k page l key size i true perm) l refl u v (omega arith) (omega arith) (step.0)
        (omega (arith, step.1)) (omega (arith, step.1))
alloc_pages_short (suc n) a key size i false perm k (page ∷ l) e u v h short is below top =
    alloc_pages-suc n a key size i false perm k page l u v (omega arith) e
    ∙ alloc_pages_short n (a + page_size) key size (i + 1) false perm
        (after_page k page l key size i false perm) l refl u v (omega arith) (omega arith) is
        (omega arith) (omega arith)
