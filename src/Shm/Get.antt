-- ===== src/Shm/Get.antt =====
-- shmgetHelper() of shm.c, and the key that it makes up for IPC_PRIVATE.
pub mod Lookup
pub mod Segment
pub mod Create
use shared_memory.Prelude.{
  ℕ, zero, suc, ◌+◌, ◌*◌, ◌%◌, bit_or, Option, none, some, ltb, leb, ◌==◌, not, if◌then◌else◌, ℤ,
  pos, minus_one, ◌==ℤ◌, rounds, Outcome, ok, fault, ◌>>=◌,
}
use shared_memory.Layout.{word, shm_max_seg}
use shared_memory.Shm.Table.{
  ShmidDs, Kernel, Rtcdate, eexist, einval, enoent, ipc_creat, ipc_excl, ipc_private, to_int,
}
use shared_memory.Shm.Alloc.{alloc_shm_seg}

-- generate_random_key(): an unsigned sum, returned as the `int` key
unfoldable pub generate_random_key : Rtcdate → ℕ → ℤ
generate_random_key r ticks =
    to_int ((r.second * 10000 + r.minute * 100 + r.hour * 10 + r.day + ticks) % word)

-- for (i = 0; i <= lastShmSegIndex; i++) up to the first slot with the key: `n` rounds from `i` on
find_loop : (ℕ → ShmidDs) → ℤ → ℕ → ℕ → Outcome (Option ℕ)
find_loop segs key zero i = ok none
find_loop segs key (suc n) i =
    let rest = find_loop segs key n (i + 1) in
    if ltb i shm_max_seg
    then (if (segs i).shm_perm.key ==ℤ key then ok (some i) else rest)
    else fault

unfoldable pub find_key : (ℕ → ShmidDs) → ℤ → ℕ → Outcome (Option ℕ)
unfolding find_loop
find_key segs key n = find_loop segs key n 0

-- if (shmflag == (IPC_CREAT | IPC_EXCL))
abbrev pub get_exclusive : Option ℕ → ℤ → ℕ → ℕ → Kernel → Outcome (ℤ × Kernel)
get_exclusive (some i) key size flag k = ok (eexist, k)
get_exclusive none key size flag k = alloc_shm_seg size key flag k

-- else if (shmflag == IPC_CREAT)
abbrev pub get_creating : Option ℕ → ℤ → ℕ → ℕ → Kernel → Outcome (ℤ × Kernel)
get_creating (some i) key size flag k =
    if leb (k.table.shm_segs i).shm_segsz size
    then ok (pos i, k)
    else if not (ltb size (k.table.shm_segs i).shm_segsz)
    then ok (einval, k)
    else alloc_shm_seg size key flag k
get_creating none key size flag k = alloc_shm_seg size key flag k

-- no flag specified
abbrev pub get_existing : Option ℕ → Kernel → Outcome (ℤ × Kernel)
get_existing (some i) k = ok (pos i, k)
get_existing none k = ok (enoent, k)

-- IPC_PRIVATE is replaced by a made-up key.
unfoldable pub effective_key : ℤ → Kernel → ℤ
effective_key key k = if key ==ℤ ipc_private then generate_random_key k.now k.ticks else key

-- shmgetHelper(key, size, shmflag)
unfoldable pub shmget_helper : ℤ → ℕ → ℕ → Kernel → Outcome (ℤ × Kernel)
shmget_helper key0 size flag k = do
  let key = effective_key key0 k
  let last = k.table.last_shm_seg_index
  found ← (if last ==ℤ minus_one then ok none else find_key k.table.shm_segs key (rounds last))
  if flag == bit_or ipc_creat ipc_excl
      then get_exclusive found key size flag k
      else if flag == ipc_creat
      then get_creating found key size flag k
      else get_existing found k
