-- ===== src/Proc/Fork.antt =====
-- fork(): the shared memory entries of the child.
pub mod Count
pub mod Laws
pub mod Stale
use shared_memory.Prelude.{
  ℕ, zero, suc, ◌+◌, ◌<◌, Bool, false, ◌||◌, ◌==◌, if◌then◌else◌, write, update_loop, ℤ, pos,
  negsuc, minus_one, ◌==ℤ◌, ◌<ℤ◌, Outcome, ok, ◌>>=◌, in_bounds,
}
use shared_memory.Shm.Table.{ShmTable, AttachedShmseg, Rtcdate, update_shm_seg}

-- The entry that fork() gives a child of the first two processes.
abbrev pub no_segment : AttachedShmseg
no_segment = record { is_attached = false; shmid = minus_one }

-- temp_shmid == -1 || temp_shmid == last_shmid
abbrev pub skips : ℤ → ℤ → Bool
skips shmid last = (shmid ==ℤ minus_one) || (shmid ==ℤ last)

abbrev pub count_fork : Bool → ℤ → ℤ → Rtcdate → ShmTable → Outcome ShmTable
count_fork skip shmid pid now t = if skip then ok t else update_shm_seg shmid pid 0 now t

-- for (i = 0; i < 4096; i++), with `n` entries from `i` on to go; `last` is last_shmid and `pid` that
-- of the child.
pub fork_loop :
    ℕ
    → ℕ
    → ℤ
    → ℤ
    → Rtcdate
    → (ℕ → AttachedShmseg)
    → (ℕ → AttachedShmseg)
    → ShmTable
    → Outcome ((ℕ → AttachedShmseg) × ShmTable)
fork_loop zero i last pid now parent child t = ok (child, t)
fork_loop (suc n) i last pid now parent child t = do
  let shmid = (parent i).shmid
  let skip = skips shmid last
  t ← count_fork skip shmid pid now t
  fork_loop n (i + 1) (if skip then last else shmid) pid now parent (write child i (parent i)) t

-- The part of fork() on shared memory: `cur` is the pid of the parent and `pid` that of the child.
unfoldable pub fork_shm :
    ℤ
    → ℤ
    → Rtcdate
    → (ℕ → AttachedShmseg)
    → (ℕ → AttachedShmseg)
    → ShmTable
    → Outcome ((ℕ → AttachedShmseg) × ShmTable)
fork_shm cur pid now parent child t =
    if pos 2 <ℤ cur
    then fork_loop 4096 0 (negsuc 1) pid now parent child t
    else do child ← in_bounds (update_loop 4096 (λ _. no_segment) 4096 0 child); ok (child, t)
