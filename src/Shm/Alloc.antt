-- ===== src/Shm/Alloc.antt =====
-- allocShmSeg() and unmapShmSegPage() of shm.c.
pub mod Fill
pub mod Undo
pub mod Cases
use shared_memory.Prelude.{
  ℕ, zero, suc, ◌+◌, ◌-◌, ◌/◌, ◌%◌, bit_and, Bool, true, false, ◌||◌, Option, none, some, ltb, ◌==◌,
  if◌then◌else◌, ℤ, pos, minus_one, ◌==ℤ◌, incr, rounds, Outcome, ok, out_of_fuel, ◌>>=◌,
}
use shared_memory.Layout.{word, page_size, shm_max_seg, shm_min, max_seg_size, v2p, pg_round_up}
use shared_memory.Kalloc.{memset, kalloc}
use shared_memory.Shm.Table.{
  ShmidDs, ShmTable, Kernel, einval, enospc, to_uint, update_segs, acquire_table, release_table,
  map_shm_seg_page,
}
use shared_memory.Shm.Search.{search}

-- What unmapShmSegPage() writes to a slot.
unfoldable pub cleared_slot : ShmidDs → ShmidDs
cleared_slot d = record d { pa = 0; shm_perm = record { key = minus_one; mode = 0 }; shm_segsz = 0 }

-- while (endIndex != lastShmSegIndex), a comparison of unsigned words
pub unmap_loop : ℕ → ℕ → ShmTable → Outcome ShmTable
unmap_loop zero end_index t = out_of_fuel
unmap_loop (suc n) end_index t =
    let rest = (do
      t ← update_segs cleared_slot 1 end_index t
      unmap_loop n ((end_index + word - 1) % word) t) in
    if end_index == to_uint t.last_shm_seg_index then ok t else rest

-- unmapShmSegPage(). The index falls from at most `shm_max_seg` to 0 and then leaves the array, so
-- that many rounds are enough.
unfoldable pub unmap_shm_seg_page : ℕ → ShmTable → Outcome ShmTable
unmap_shm_seg_page end_index t = do
  t ← acquire_table t
  t ← unmap_loop (shm_max_seg + 2) end_index t
  release_table t

-- `shm_perm.__key == -1`
abbrev pub slot_free : (ℕ → ShmidDs) → ℕ → Bool
slot_free segs i = (segs i).shm_perm.key ==ℤ minus_one

abbrev pub grow_last : Bool → ShmTable → ShmTable
grow_last grows t = if grows then record t { last_shm_seg_index = incr t.last_shm_seg_index } else t

-- while (a != roundedSegSize), with `n` pages to go. The result is whether all were allocated.
pub alloc_pages : ℕ → ℕ → ℤ → ℕ → ℕ → Bool → ℕ → Kernel → Outcome (Bool × Kernel)
alloc_pages zero a key seg_size i grows perm k = ok (true, k)
alloc_pages (suc n) a key seg_size i grows perm k = do
  (r, kmem) ← kalloc k.kmem
  elim r [
    | none ↦ do
      t ← unmap_shm_seg_page (a / page_size) k.table
      ok (false, record k { table = t; kmem = kmem })
    | some page ↦ do
      let kmem = record kmem { mem = memset kmem.mem page 0 page_size }
      t ← map_shm_seg_page (v2p page) key seg_size i k.pid perm k.table
      alloc_pages n (a + page_size) key seg_size (i + 1) grows perm
          (record k { table = grow_last grows t; kmem = kmem })
  ]

-- The first slot of the new segment, and whether the table grows.
abbrev pub place : Option ℕ → ℤ → ℕ × Bool
place (some i) last = (i, false)
place none last = (rounds last, true)

abbrev pub bad_size : ℕ → Bool
bad_size size = ltb size shm_min || ltb max_seg_size size

-- shm_info.used_ids += 1, and shm_tot = lastShmSegIndex + 1
abbrev pub count_segment : Kernel → Kernel
count_segment k = record k {
  info = record {
    used_ids = (k.info.used_ids + 1) % word;
    shm_tot = to_uint (incr k.table.last_shm_seg_index);
  };
}

-- From the choice of the slots on.
alloc_at : ℕ × Bool → ℕ → ℤ → ℕ → Kernel → Outcome (ℤ × Kernel)
alloc_at (i, grows) rounded key flag k =
    if ltb shm_max_seg (i + rounded / page_size) then ok (enospc, k) else do
      (done, k) ← alloc_pages (rounded / page_size) 0 key rounded i grows (bit_and flag 3) k
      if done then ok (pos i, count_segment k) else ok (minus_one, k)

-- allocShmSeg(segmentSize, key, shmflag)
unfoldable pub alloc_shm_seg : ℕ → ℤ → ℕ → Kernel → Outcome (ℤ × Kernel)
unfolding alloc_at alloc_pages
alloc_shm_seg size key flag k = if bad_size size then ok (einval, k) else do
  let rounded = pg_round_up size
  let last = k.table.last_shm_seg_index
  found ← search shm_max_seg (slot_free k.table.shm_segs) (rounded / page_size) (rounds last)
  alloc_at (place found last) rounded key flag k
