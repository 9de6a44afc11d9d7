-- ===== src/Exec.antt =====
-- exec.c: what exec() does to the shared memory entries of the process, once the new image is in
-- place.
pub mod Laws
use shared_memory.Prelude.{
  ℕ, zero, suc, ◌+◌, Bool, false, not, ◌&&◌, if◌then◌else◌, write, ℤ, negsuc, minus_one, ◌==ℤ◌,
  Outcome, ok, ◌>>=◌,
}
use shared_memory.Shm.Table.{ShmTable, AttachedShmseg, Rtcdate, update_shm_seg}

-- isAttached = 0; shmid = -1;
abbrev pub dropped : AttachedShmseg
dropped = record { is_attached = false; shmid = minus_one }

abbrev pub count_drop : Bool → ℤ → Rtcdate → ShmTable → Outcome ShmTable
count_drop counts id now t = if counts then update_shm_seg id minus_one 1 now t else ok t

-- for (i = 0; i < 4096; i++), with `n` entries from `i` on to go; `last` is last_shmid.
unfoldable pub drop_loop :
    ℕ
    → ℕ
    → ℤ
    → Rtcdate
    → (ℕ → AttachedShmseg)
    → ShmTable
    → Outcome ((ℕ → AttachedShmseg) × ShmTable)
drop_loop zero i last now segs t = ok (segs, t)
drop_loop (suc n) i last now segs t = do
  let held = (segs i).is_attached
  let id = (segs i).shmid
  let counts = held && not (id ==ℤ last)
  t ← count_drop counts id now t
  drop_loop n (i + 1) (if counts then id else last) now
      (if held then write segs i dropped else segs) t

-- The loop as exec() runs it.
unfoldable pub exec_shm :
    Rtcdate → (ℕ → AttachedShmseg) → ShmTable → Outcome ((ℕ → AttachedShmseg) × ShmTable)
exec_shm now segs t = drop_loop 4096 0 (negsuc 1) now segs t
