-- ===== src/Shm/Alloc/Cases.antt =====
-- allocShmSeg() as a whole: which slots it takes, and each of its results.
use shared_memory.Prelude.{
  ℕ, ◌+◌, ◌/◌, ◌≤◌, ◌<◌, ◌≡◌, ◌⊎◌, inl, inr, refl, ◌∙◌, Bool, true, false, Option, none, some,
  arith, length, bit_and, lt→ltb, le→ltb, ℤ, pos, rounds, ok, fault,
}
use native.Mathlib.Decide.{dec_lt}
use shared_memory.Layout.{page_size, shm_max_seg, shm_min, max_seg_size, pg_round_up}
use shared_memory.Layout.Rounding.{pg_round_up_pages}
use shared_memory.Kalloc.{Kmem}
use shared_memory.Shm.Table.{ShmTable, Kernel, einval, enospc}
use shared_memory.Shm.Search.{search, FirstFit, search-FirstFit}
use shared_memory.Shm.Alloc.{slot_free, place, bad_size, count_segment, alloc_at, alloc_shm_seg}
use shared_memory.Shm.Alloc.Fill.{IsIndex, Filled, alloc_pages_enough}
use shared_memory.Shm.Alloc.Undo.{alloc_pages_short}

-- What every call of shm.c expects of the kernel: the two locks are free on this processor, and
-- lastShmSegIndex is -1 or the index of a slot.
pub record IsReady (k : Kernel) : Type 0 where
  pub table_free : k.table.lock ≡ false
  pub kmem_free : k.kmem.locked ≡ false
  pub last_is : IsIndex k.table.last_shm_seg_index
  pub last_in : rounds k.table.last_shm_seg_index ≤ shm_max_seg

-- the number of pages of a segment of `size` bytes
abbrev pub pages : ℕ → ℕ
pages size = pg_round_up size / page_size

-- allocShmSeg() refuses a size below SHMMIN or above MAXSEGSIZE with EINVAL, and changes nothing.
pub alloc_shm_seg_bad_size :
    (size : ℕ) (key : ℤ) (flag : ℕ) (k : Kernel)
    → (size < shm_min) ⊎ (max_seg_size < size)
    → alloc_shm_seg size key flag k ≡ ok (einval, k)
unfolding alloc_shm_seg
alloc_shm_seg_bad_size size key flag k h = rw (bad h) refl
  where
    bad : (size < shm_min) ⊎ (max_seg_size < size) → bad_size size ≡ true
    bad h = ground arith

-- The result of allocShmSeg() once the slots `place` are chosen.
abbrev pub Placed : ℕ → ℤ → ℕ → Kernel → ℕ × Bool → Type 0
Placed size key flag k (i, grows) =
    ((shm_max_seg < i + pages size) × (alloc_shm_seg size key flag k ≡ ok (enospc, k)))
    ⊎ ((i + pages size ≤ shm_max_seg)
        × (t : ShmTable) × (m : Kmem) × (alloc_shm_seg size key flag k
            ≡ ok (pos i, count_segment (record k { table = t; kmem = m })))
        × Filled k (pages size) key (pg_round_up size) i (bit_and flag 3) grows t m)

good_size : (size : ℕ) → shm_min ≤ size → size ≤ max_seg_size → bad_size size ≡ false
good_size size lo hi = ground arith

module _ (size : ℕ) (key : ℤ) (flag : ℕ) (k : Kernel) (lo : shm_min ≤ size)
    (hi : size ≤ max_seg_size) (ready : IsReady k) where
  alloc_searched :
      (found : Option ℕ)
      → search shm_max_seg
          (slot_free k.table.shm_segs)
          (pages size)
          (rounds k.table.last_shm_seg_index)
        ≡ ok found
      → alloc_shm_seg size key flag k
        ≡ alloc_at (place found k.table.last_shm_seg_index) (pg_round_up size) key flag k
  unfolding alloc_shm_seg
  alloc_searched found run = rw (good_size size lo hi, run) refl

  at_place :
      (i : ℕ) (grows : Bool)
      → alloc_shm_seg size key flag k ≡ alloc_at (i, grows) (pg_round_up size) key flag k
      → pages size ≤ length k.kmem.free
      → Placed size key flag k (i, grows)
  unfolding alloc_at
  at_place i grows at enough = elim (dec_lt shm_max_seg (i + pages size)) [
    | yes p ↦ inl (p, at ∙ rw (lt→ltb _ _ p) refl)
    | no p ↦
        let fits : i + pages size ≤ shm_max_seg = omega arith in
        let (t, m, run, filled) =
          alloc_pages_enough (pages size) 0 key (pg_round_up size) i grows (bit_and flag 3) k
            ready.table_free ready.kmem_free fits enough in
        inr (fits, t, m, at ∙ rw (le→ltb _ _ fits, run) refl, filled)
  ]

  -- allocShmSeg() of an acceptable size, with enough free pages, takes the lowest run of free slots
  -- within the table that is long enough, or the slots behind the last one if there is none. If
  -- those end beyond the table it returns ENOSPC and changes nothing; else it returns the first
  -- slot, and has filled exactly these slots, each with one of the free pages.
  pub alloc_shm_seg_lem :
      pages size ≤ length k.kmem.free
      → (found : Option ℕ) × FirstFit
          (slot_free k.table.shm_segs)
          (pages size)
          (rounds k.table.last_shm_seg_index)
          found
        × Placed size key flag k (place found k.table.last_shm_seg_index)
  alloc_shm_seg_lem enough =
      let (found, run, fit) =
        search-FirstFit shm_max_seg (slot_free k.table.shm_segs) (pages size)
          ((pg_round_up_pages size (omega arith) (omega arith)).0)
          (rounds k.table.last_shm_seg_index) ready.last_in in
      (found, fit, placed found (alloc_searched found run))
    where
      placed :
          (found : Option ℕ)
          → alloc_shm_seg size key flag k
            ≡ alloc_at (place found k.table.last_shm_seg_index) (pg_round_up size) key flag k
          → Placed size key flag k (place found k.table.last_shm_seg_index)
      placed none at = at_place (rounds k.table.last_shm_seg_index) true at enough
      placed (some i) at = at_place i false at enough

  -- With too few free pages for a segment behind the last slot, when the table has two or more
  -- slots in use, the clean-up of allocShmSeg() writes outside the table.
  pub alloc_shm_seg_short :
      search shm_max_seg
          (slot_free k.table.shm_segs)
          (pages size)
          (rounds k.table.last_shm_seg_index)
        ≡ ok none
      → length k.kmem.free < pages size
      → rounds k.table.last_shm_seg_index + pages size ≤ shm_max_seg
      → 1 < rounds k.table.last_shm_seg_index
      → alloc_shm_seg size key flag k ≡ fault
  unfolding alloc_at
  alloc_shm_seg_short run short fits two =
      alloc_searched none run
      ∙ rw
          (
            le→ltb _ _ fits,
            alloc_pages_short (pages size) 0 key (pg_round_up size)
                (rounds k.table.last_shm_seg_index) true (bit_and flag 3) k k.kmem.free refl
                ready.table_free ready.kmem_free fits short ready.last_is (omega arith)
                (omega arith),
          )
          refl
