-- ===== src/Shm/Remove.antt =====
-- removeshmHelper() and freeshmPages() of shm.c.
pub mod Laws
pub mod Whole
use shared_memory.Prelude.{
  ℕ, zero, suc, ◌+◌, bit_and, ◌&&◌, ◌||◌, Option, none, some, not, ltb, ◌==◌, if◌then◌else◌, write,
  ℤ, pos, minus_one, ◌==ℤ◌, incr, rounds, Outcome, ok, fault, ◌>>=◌,
}
use shared_memory.Layout.{shm_max_seg, v2p}
use shared_memory.Kalloc.{kfree}
use shared_memory.Shm.Table.{ShmidDs, Kernel, shm_dest, index, pages_of, update_segs}
use shared_memory.Shm.Get.{find_key}

-- What freeshmPages() writes to a slot.
unfoldable pub freed_slot : ShmidDs → ShmidDs
freed_slot d = record {
  shm_perm = record { key = minus_one; mode = 0 };
  shm_segsz = 0;
  shm_atime = minus_one;
  shm_dtime = minus_one;
  shm_ctime = minus_one;
  shm_cpid = minus_one;
  shm_lpid = minus_one;
  shm_nattch = 0;
  pa = 0;
}

-- The loop of freeshmPages(), with `n` slots to go. The address that it frees is V2P(pa).
pub free_loop : ℕ → ℕ → Kernel → Outcome Kernel
free_loop zero i k = ok k
free_loop (suc n) i k =
    let freed = (do
      m ← kfree (v2p (k.table.shm_segs i).pa) k.kmem
      free_loop n (i + 1) (record k {
        kmem = m;
        table = record (k.table) {
          shm_segs = write k.table.shm_segs i (freed_slot (k.table.shm_segs i));
        };
      })) in
    if ltb i shm_max_seg then freed else fault

-- freeshmPages(shmid)
pub freeshm_pages : ℕ → Kernel → Outcome Kernel
freeshm_pages first k = free_loop (pages_of (k.table.shm_segs first)) first k

-- shm_perm.mode = SHM_DEST
unfoldable pub only_dest : ShmidDs → ShmidDs
only_dest d = record d { shm_perm = record (d.shm_perm) { mode = shm_dest } }

-- The slot that the call is about, as the loop variable `i` and `shmid` after the search: with the
-- flag 1 the identifier is a key, and `i` is past the last slot if no slot has it.
abbrev pub searched : ℤ → Option ℕ → ℤ → ℤ × ℤ
searched id (some i) last = (pos i, pos i)
searched id none last = (pos (rounds last), id)

pub remove_target : ℤ → ℕ → Kernel → Outcome (ℤ × ℤ)
remove_target id flag k =
    if flag == 1
    then (do
      found ← find_key k.table.shm_segs id (rounds k.table.last_shm_seg_index)
      ok (searched id found k.table.last_shm_seg_index))
    else ok (pos 0, id)

-- From the check of the slot on.
pub remove_segment : ℕ → Kernel → Outcome (ℤ × Kernel)
remove_segment first k = do
  t ← update_segs only_dest (pages_of (k.table.shm_segs first)) first k.table
  let k = record k { table = t }
  let d = k.table.shm_segs first
  let freed = (do k ← freeshm_pages first k; ok (pos 0, k))
  if d.shm_nattch == 0 && not (bit_and d.shm_perm.mode shm_dest == 0)
      then freed
      else ok (minus_one, k)

-- removeshmHelper(shm_identifier, flag)
unfoldable pub removeshm_helper : ℤ → ℕ → Kernel → Outcome (ℤ × Kernel)
removeshm_helper id flag k = do
  (i, shmid) ← remove_target id flag k
  let past = incr k.table.last_shm_seg_index
  let removed = (do first ← index shmid; remove_segment first k)
  if (i ==ℤ past) || (shmid ==ℤ past) then ok (minus_one, k) else removed
