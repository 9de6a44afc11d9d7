-- ===== src/Shm/Detach.antt =====
-- shmdtHelper() of shm.c.
pub mod Loop
pub mod Whole
use shared_memory.Prelude.{
  ℕ, zero, suc, ◌+◌, ◌-◌, ◌*◌, ◌/◌, bit_or, false, not, ◌||◌, ◌&&◌, ltb, if◌then◌else◌, write, ℤ,
  pos, minus_one, Outcome, ok, fault, ◌>>=◌,
}
use shared_memory.Layout.{page_size, kern_base, heap_limit, shm_max_seg}
use shared_memory.Vm.{clearmapping}
use shared_memory.Shm.Table.{
  ShmidDs, Rtcdate, Kernel, einval, shm_dest, stamp, index, dec_word, acquire_table, release_table,
}
use shared_memory.Shm.Attach.{is_outside, space_of, loop_pages}

-- The fields that the loop of shmdtHelper() sets in a slot of the table.
unfoldable pub detached_slot : ℤ → Rtcdate → ShmidDs → ShmidDs
detached_slot pid now d = record d {
  shm_nattch = dec_word d.shm_nattch;
  shm_dtime = stamp now;
  shm_lpid = pid;
}

-- process->shmsegs[si].isAttached = 0, and the slot of the table
abbrev pub count_detach : ℕ → ℕ → Kernel → Kernel
count_detach first si k = record k {
  shmsegs = write k.shmsegs si (record (k.shmsegs si) { is_attached = false });
  table = record (k.table) {
    shm_segs = write k.table.shm_segs first (detached_slot k.pid k.now (k.table.shm_segs first));
  };
}

-- for (i = 0; i < reqPages; i++)
pub detach_loop : ℕ → ℕ → ℕ → Kernel → Outcome Kernel
detach_loop zero first si k = ok k
detach_loop (suc n) first si k =
    let unmapped = (do
      let k = count_detach first si k
      s ← clearmapping (si * page_size + heap_limit) (space_of k)
      detach_loop n (first + 1) (si + 1) (record k { pgdir = s.dir })) in
    if ltb si shm_max_seg && ltb first shm_max_seg then unmapped else fault

-- shm_perm.mode |= SHM_DEST
abbrev pub marked_dest : ShmidDs → ShmidDs
marked_dest d = record d {
  shm_perm = record (d.shm_perm) { mode = bit_or d.shm_perm.mode shm_dest };
}

abbrev pub mark_first : ℕ → Kernel → Kernel
mark_first first k = record k {
  table = record (k.table) {
    shm_segs = write k.table.shm_segs first (marked_dest (k.table.shm_segs first));
  };
}

-- From the choice of the entry on: the segment of an attached entry is detached.
pub detach_entry : ℕ → Kernel → Outcome (ℤ × Kernel)
detach_entry si k = do
  let shmid = (k.shmsegs si).shmid
  let k = record k {
    shmsegs = write k.shmsegs si (record { is_attached = false; shmid = minus_one });
  }
  first ← index shmid
  t ← acquire_table k.table
  k ← detach_loop (loop_pages (k.table.shm_segs first).shm_segsz) first si (record k { table = t })
  let k = mark_first first k
  t ← release_table k.table
  ok (pos 0, record k { table = t })

-- shmdtHelper(shmaddr)
unfoldable pub shmdt_helper : ℕ → Kernel → Outcome (ℤ × Kernel)
shmdt_helper shmaddr k =
    let si = (shmaddr - heap_limit) / page_size in
    if is_outside shmaddr
    then ok (einval, k)
    else if not (ltb si shm_max_seg)
    then fault
    else if not (k.shmsegs si).is_attached
    then ok (einval, k)
    else detach_entry si k
