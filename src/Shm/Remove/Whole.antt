-- ===== src/Shm/Remove/Whole.antt =====
-- removeshmHelper() as a whole.
use shared_memory.Prelude.{
  ℕ, zero, suc, ◌+◌, ◌*◌, ◌/◌, ◌≤◌, ◌<◌, ◌≡◌, ◌≢◌, ◌⊎◌, inl, inr, refl, ap, ◌∙◌, true, Option, none,
  some, List, ◌∷◌, arith, Bool-cases, lt→ltb, ltb, ◌||◌, ==-ne, ==-refl, if◌then◌else◌, map_range,
  in_range, update_loop-ok, ℤ, pos, negsuc, minus_one, ◌==ℤ◌, incr, rounds, ok, fault, ◌>>=◌,
}
use shared_memory.Layout.{page_size, shm_max_seg}
use shared_memory.Kalloc.{Kmem, memset}
use shared_memory.Kalloc.Invariant.{IsValid}
use shared_memory.Shm.Table.{ShmidDs, Kernel}
use shared_memory.Shm.Alloc.Fill.{IsIndex}
use shared_memory.Shm.Get.Lookup.{FirstKey, find_key_of_FirstKey}
use shared_memory.Shm.Remove.{
  freed_slot, only_dest, free_loop, freeshm_pages, remove_segment, removeshm_helper, remove_target,
}
use shared_memory.Shm.Remove.Laws.{page_of, Owned, freed_list, filled_mem, free_loop-Freed}

-- The slots of the segment marked for destruction, with all their other mode bits gone.
abbrev pub marked : ℕ → ℕ → Kernel → Kernel
marked f n k = record k {
  table = record (k.table) { shm_segs = map_range only_dest f n k.table.shm_segs };
}

marked_page :
    (f n : ℕ) (k : Kernel) (j : ℕ)
    → page_of (marked f n k).table.shm_segs j ≡ page_of k.table.shm_segs j
unfolding only_dest
marked_page f n k j = elim (Bool-cases (in_range f n j)) [ inl e ↦ rw e refl | inr e ↦ rw e refl ]

freed_list-cong :
    (a b : ℕ → ShmidDs) (same : (j : ℕ) → page_of a j ≡ page_of b j) (n i : ℕ) (l : List ℕ)
    → freed_list a n i l ≡ freed_list b n i l
freed_list-cong a b same zero i l = refl
freed_list-cong a b same (suc n) i l =
    ap (λ (p : ℕ). freed_list a n (i + 1) (p ∷ l)) (same i)
    ∙ freed_list-cong a b same n (i + 1) (page_of b i ∷ l)

filled_mem-cong :
    (a b : ℕ → ShmidDs) (same : (j : ℕ) → page_of a j ≡ page_of b j) (n i : ℕ) (mem : ℕ → ℕ)
    → filled_mem a n i mem ≡ filled_mem b n i mem
filled_mem-cong a b same zero i mem = refl
filled_mem-cong a b same (suc n) i mem =
    ap (λ (p : ℕ). filled_mem a n (i + 1) (memset mem p 1 page_size)) (same i)
    ∙ filled_mem-cong a b same n (i + 1) (memset mem (page_of b i) 1 page_size)

Owned-cong :
    (a b : ℕ → ShmidDs) (same : (j : ℕ) → page_of b j ≡ page_of a j) (m : Kmem) (i n : ℕ)
    → Owned a m i n
    → Owned b m i n
Owned-cong a b same m i n o = record {
  pages = λ j lo hi. rw (same j) (o.pages j lo hi);
  used = λ j lo hi. rw (same j) (o.used j lo hi);
  distinct = λ j l lo lt hi. rw (same j, same l) (o.distinct j l lo lt hi);
}

-- A segment of `n` pages at the slot `f` of the table.
pub record IsSegment (k : Kernel) (f n : ℕ) : Type 0 where
  pub exists : f < rounds k.table.last_shm_seg_index
  pub size : (k.table.shm_segs f).shm_segsz ≡ n * page_size
  pub some_page : 0 < n
  pub slots : f + n ≤ shm_max_seg

-- What freeing the segment leaves behind.
pub record Removed (k : Kernel) (f n : ℕ) (k' : Kernel) : Type 0 where
  pub slots_free :
      (j : ℕ) → f ≤ j → j < f + n → k'.table.shm_segs j ≡ freed_slot (k.table.shm_segs j)
  pub slots_kept : (j : ℕ) → (j < f) ⊎ (f + n ≤ j) → k'.table.shm_segs j ≡ k.table.shm_segs j
  pub free : k'.kmem.free ≡ freed_list k.table.shm_segs n f k.kmem.free
  pub mem : k'.kmem.mem ≡ filled_mem k.table.shm_segs n f k.kmem.mem
  pub valid : IsValid k'.kmem
  pub lock_kept : k'.table.lock ≡ k.table.lock
  pub last_kept : k'.table.last_shm_seg_index ≡ k.table.last_shm_seg_index
  pub others_kept : (k'.shmsegs ≡ k.shmsegs) × (k'.pgdir ≡ k.pgdir) × (k'.info ≡ k.info)
  pub caller_kept : (k'.pid ≡ k.pid) × (k'.now ≡ k.now) × (k'.ticks ≡ k.ticks)
  pub allocator_kept : (k'.kmem.use_lock ≡ k.kmem.use_lock) × (k'.kmem.end_addr ≡ k.kmem.end_addr)

module _ (k : Kernel) (f n : ℕ) (s : IsSegment k f n) where
  whole : n * page_size / page_size ≡ n
  whole = omega arith

  head_in : in_range f n f ≡ true
  head_in = ground (arith, s.some_page)

  segment_attached :
      (k.table.shm_segs f).shm_nattch ≢ 0 → remove_segment f k ≡ ok (minus_one, marked f n k)
  unfolding remove_segment only_dest
  segment_attached ne =
      rw (s.size, whole, update_loop-ok shm_max_seg only_dest n f k.table.shm_segs s.slots)
        (rw (head_in, ==-ne _ 0 ne) refl)

  segment_free :
      (k' : Kernel)
      → (k.table.shm_segs f).shm_nattch ≡ 0
      → free_loop n f (marked f n k) ≡ ok k'
      → remove_segment f k ≡ ok (pos 0, k')
  unfolding remove_segment freeshm_pages only_dest
  segment_free k' e run =
      rw (s.size, whole, update_loop-ok shm_max_seg only_dest n f k.table.shm_segs s.slots)
        (rw (head_in, e, s.size, whole, run) refl)

  -- With an identifier, and not a key, the call is about that slot.
  by_identifier :
      (flag : ℕ)
      → flag ≢ 1
      → IsIndex k.table.last_shm_seg_index
      → removeshm_helper (pos f) flag k ≡ remove_segment f k
  unfolding removeshm_helper remove_target
  by_identifier flag ne is = rw (==-ne flag 1 ne) (target k.table.last_shm_seg_index is s.exists)
    where
      target :
          (l : ℤ)
          → IsIndex l
          → f < rounds l
          → (if (pos 0 ==ℤ incr l) || (pos f ==ℤ incr l)
              then ok (minus_one, k)
              else (do first ← (if ltb f shm_max_seg then ok f else fault); remove_segment first k))
            ≡ remove_segment f k
      target (pos m) is h =
          rw
            (
              lt→ltb f shm_max_seg (omega (arith, s.slots, s.some_page)),
              ==-ne 0 (m + 1) (λ e. omega arith),
              ==-ne f (m + 1) (λ e. omega arith),
            )
            refl
      target (negsuc m) is h = absurd (omega arith)

  -- removeshm() of the identifier of a segment that is still attached returns -1. It sets the mode
  -- of exactly the slots of the segment to SHM_DEST, and changes nothing else.
  pub remove_attached :
      (flag : ℕ)
      → flag ≢ 1
      → IsIndex k.table.last_shm_seg_index
      → (k.table.shm_segs f).shm_nattch ≢ 0
      → removeshm_helper (pos f) flag k ≡ ok (minus_one, marked f n k)
  remove_attached flag ne is attached = by_identifier flag ne is ∙ segment_attached attached

  -- removeshm() of the identifier of a segment that nobody has attached, and whose slots hold
  -- distinct pages that are in use, returns 0. Exactly the slots of the segment are free again, its
  -- pages are back at the head of the free list and filled with ones, the allocator is well formed, and
  -- nothing else has changed in the table, the allocator and the caller: not the locks, the end of the
  -- table, the other memory, nor the counters of segments and pages in `info`, which shmget() raises. That the pages are found at V2P of an address that is already physical is no mistake
  -- here: V2P and P2V are the same function of a word.
  pub remove_unattached :
      (flag : ℕ)
      → flag ≢ 1
      → IsIndex k.table.last_shm_seg_index
      → (k.table.shm_segs f).shm_nattch ≡ 0
      → IsValid k.kmem
      → Owned k.table.shm_segs k.kmem f n
      → (k' : Kernel) × (removeshm_helper (pos f) flag k ≡ ok (pos 0, k')) × Removed k f n k'
  unfolding only_dest freed_slot
  remove_unattached flag ne is e v o =
      let same = marked_page f n k in
      let (k', run, done) =
        free_loop-Freed n f (marked f n k) s.slots v
          (Owned-cong k.table.shm_segs (marked f n k).table.shm_segs same k.kmem f n o) in
      (
        k',
        by_identifier flag ne is ∙ segment_free k' e run,
        record {
          slots_free = λ j lo hi. ap (λ (t : ℕ → ShmidDs). t j) done.segs ∙ ground arith;
          slots_kept = λ j out. ap (λ (t : ℕ → ShmidDs). t j) done.segs ∙ ground arith;
          free =
              done.free
              ∙ freed_list-cong (marked f n k).table.shm_segs k.table.shm_segs same n f k.kmem.free;
          mem =
              done.mem
              ∙ filled_mem-cong (marked f n k).table.shm_segs k.table.shm_segs same n f k.kmem.mem;
          valid = done.valid;
          lock_kept = done.lock_kept;
          last_kept = done.last_kept;
          others_kept = done.others_kept;
          caller_kept = done.caller_kept;
          allocator_kept = done.allocator_kept;
        },
      )

-- A finding: removeshm() does not check that an identifier is within the table. A negative one
-- reads outside of it as soon as the table has a slot in use.
pub remove_negative_fault :
    (m flag : ℕ) (k : Kernel)
    → flag ≢ 1
    → IsIndex k.table.last_shm_seg_index
    → 0 < rounds k.table.last_shm_seg_index
    → removeshm_helper (negsuc m) flag k ≡ fault
unfolding removeshm_helper remove_target
remove_negative_fault m flag k ne is some_slot = rw (==-ne flag 1 ne) (ground arith)

incr-rounds : (l : ℤ) → IsIndex l → incr l ≡ pos (rounds l)
incr-rounds (pos n) h = refl
incr-rounds (negsuc zero) h = refl
incr-rounds (negsuc (suc n)) h = absurd (omega arith)

-- A key that no slot has is refused with -1, and nothing changes; a key is otherwise as good as the
-- identifier of the first slot that has it.
pub remove_by_key :
    (key : ℤ) (r : Option ℕ) (k : Kernel)
    → IsIndex k.table.last_shm_seg_index
    → rounds k.table.last_shm_seg_index ≤ shm_max_seg
    → FirstKey k.table.shm_segs key (rounds k.table.last_shm_seg_index) r
    → (r ≡ none → removeshm_helper key 1 k ≡ ok (minus_one, k))
      × ((f : ℕ) → r ≡ some f → removeshm_helper key 1 k ≡ removeshm_helper (pos f) 0 k)
unfolding removeshm_helper remove_target
remove_by_key key r k is b first =
    let run = find_key_of_FirstKey k.table.shm_segs key _ r b first in
    let past = incr-rounds k.table.last_shm_seg_index is in
    (
      λ e. rw (run, e, past, ==-refl (rounds k.table.last_shm_seg_index)) refl,
      λ f e.
          (let hit : FirstKey k.table.shm_segs key (rounds k.table.last_shm_seg_index) (some f) =
              rw e at first in
            rw
              (
                run,
                e,
                past,
                ==-ne f (rounds k.table.last_shm_seg_index) (λ q. omega (arith, hit.0)),
                ==-ne 0 (rounds k.table.last_shm_seg_index) (λ q. omega (arith, hit.0)),
              )
              refl),
    )
