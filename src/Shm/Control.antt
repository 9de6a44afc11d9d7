-- ===== src/Shm/Control.antt =====
-- shmctlHelper() of shm.c.
pub mod Laws
use shared_memory.Prelude.{
  ℕ, bit_and, bit_or, not, ◌||◌, ◌==◌, if◌then◌else◌, ℤ, pos, minus_one, ◌==ℤ◌, ◌<ℤ◌, Outcome, ok,
  ◌>>=◌,
}
use shared_memory.Shm.Table.{
  ShmidDs, Kernel, einval, eidrm, shm_r, shm_dest, index, pages_of, update_segs, acquire_table,
  release_table,
}

-- What IPC_STAT copies to the buffer: every field but the physical address.
unfoldable pub copy_out : ShmidDs → ShmidDs → ShmidDs
copy_out d buf = record d { pa = buf.pa }

-- What IPC_SET copies from the buffer to each slot.
unfoldable pub copy_in : ShmidDs → ShmidDs → ShmidDs
copy_in buf d = record buf { pa = d.pa }

-- shm_perm.mode |= SHM_DEST
unfoldable pub dest_slot : ShmidDs → ShmidDs
dest_slot d = record d { shm_perm = record (d.shm_perm) { mode = bit_or d.shm_perm.mode shm_dest } }

-- The result of a call: the value, the buffer and the kernel.
abbrev pub Reply : Type 0
Reply = ℤ × ShmidDs × Kernel

abbrev pub ctl_set : ℕ → ShmidDs → Kernel → Outcome Reply
ctl_set first buf k =
    if not (bit_and (k.table.shm_segs first).shm_perm.mode shm_r == 0)
    then ok (minus_one, buf, k)
    else do
      t ← acquire_table k.table
      t ← update_segs (copy_in buf) (pages_of buf) first t
      t ← release_table t
      ok (pos 0, buf, record k { table = t })

-- IPC_RMID takes no lock.
abbrev pub ctl_rmid : ℕ → ShmidDs → Kernel → Outcome Reply
ctl_rmid first buf k = do
  t ← update_segs dest_slot (pages_of (k.table.shm_segs first)) first k.table
  ok (pos 0, buf, record k { table = t })

-- `cmd` is IPC_STAT 1, IPC_SET 2, IPC_RMID 3, IPC_INFO 4, SHM_INFO 5. The last two print, and
-- return the last index.
abbrev pub ctl_command : ℕ → ℕ → ShmidDs → Kernel → Outcome Reply
ctl_command first cmd buf k =
    if cmd == 1
    then ok (pos 0, copy_out (k.table.shm_segs first) buf, k)
    else if cmd == 2
    then ctl_set first buf k
    else if cmd == 3
    then ctl_rmid first buf k
    else if cmd == 4 || cmd == 5
    then ok (k.table.last_shm_seg_index, buf, k)
    else ok (pos 0, buf, k)

-- shmctlHelper(shmid, cmd, buf)
unfoldable pub shmctl_helper : ℤ → ℕ → ShmidDs → Kernel → Outcome Reply
shmctl_helper shmid cmd buf k =
    if shmid <ℤ pos 0 || k.table.last_shm_seg_index <ℤ shmid then ok (einval, buf, k) else do
      first ← index shmid
      if (k.table.shm_segs first).shm_perm.key ==ℤ minus_one
          then ok (eidrm, buf, k)
          else ctl_command first cmd buf k
