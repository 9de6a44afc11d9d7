-- ===== src/Shm/Table.antt =====
-- The data of shm.h and types.h, the clock, and the two loops over a segment that fork(), exec() and
-- mapShmSegPage() run.
use shared_memory.Prelude.{
  ℕ, ◌+◌, ◌-◌, ◌*◌, ◌/◌, ◌%◌, ◌^◌, Bool, ltb, ◌==◌, if◌then◌else◌, update_loop, ℤ, pos, negsuc,
  minus_one, Outcome, ok, fault, ◌>>=◌, in_bounds, acquire, release,
}
use shared_memory.Layout.{word, page_size, shm_max_seg}
use shared_memory.Kalloc.{Kmem}
use shared_memory.Vm.{PageDir}

abbrev pub eexist : ℤ
eexist = negsuc 100

abbrev pub einval : ℤ
einval = negsuc 101

abbrev pub enoent : ℤ
enoent = negsuc 102

abbrev pub enomem : ℤ
enomem = negsuc 103

abbrev pub enospc : ℤ
enospc = negsuc 104

abbrev pub eidrm : ℤ
eidrm = negsuc 201

abbrev pub shm_r : ℕ
shm_r = 1

abbrev pub ipc_creat : ℕ
ipc_creat = 4

abbrev pub ipc_excl : ℕ
ipc_excl = 16

-- -99999
abbrev pub ipc_private : ℤ
ipc_private = negsuc 99998

abbrev pub shm_rnd : ℕ
shm_rnd = 4

abbrev pub shm_remap : ℕ
shm_remap = 3

abbrev pub shm_dest : ℕ
shm_dest = 32

-- `key` is `__key`; -1 marks a slot that belongs to no segment.
pub record IpcPerm : Type 0 where
  pub key : ℤ
  pub mode : ℕ

-- One slot of the table: a page of a segment, with the data of the whole segment.
pub record ShmidDs : Type 0 where
  pub shm_perm : IpcPerm
  pub shm_segsz : ℕ
  pub shm_atime : ℤ
  pub shm_dtime : ℤ
  pub shm_ctime : ℤ
  pub shm_cpid : ℤ
  pub shm_lpid : ℤ
  pub shm_nattch : ℕ
  pub pa : ℕ

-- `shmpgtable`; its lock is whether this processor holds it.
pub record ShmTable : Type 0 where
  pub lock : Bool
  pub shm_segs : ℕ → ShmidDs
  pub last_shm_seg_index : ℤ

pub record ShmInfo : Type 0 where
  pub used_ids : ℕ
  pub shm_tot : ℕ

-- An entry of `proc.shmsegs`.
pub record AttachedShmseg : Type 0 where
  pub is_attached : Bool
  pub shmid : ℤ

-- The fields that cmostime() fills in and shm.c reads.
pub record Rtcdate : Type 0 where
  pub second : ℕ
  pub minute : ℕ
  pub hour : ℕ
  pub day : ℕ

-- What the calls of shm.c work on. `now` is what cmostime() reads and `ticks` the tick counter, as
-- they stand during the call; `pid`, `shmsegs` and `pgdir` are those of the calling process.
pub record Kernel : Type 0 where
  pub table : ShmTable
  pub info : ShmInfo
  pub kmem : Kmem
  pub pid : ℤ
  pub shmsegs : ℕ → AttachedShmseg
  pub pgdir : PageDir
  pub now : Rtcdate
  pub ticks : ℕ

-- (int) of an unsigned word, and back
abbrev pub to_int : ℕ → ℤ
to_int w = if ltb w (2 ^ 31) then pos w else negsuc (word - 1 - w)

abbrev pub to_uint : ℤ → ℕ
to_uint (pos n) = n
to_uint (negsuc n) = word - 1 - n

-- r.hour*10000 + r.minute*100 + r.second
unfoldable pub stamp : Rtcdate → ℤ
stamp r = to_int ((r.hour * 10000 + r.minute * 100 + r.second) % word)

-- An `int` as an index of a table of `shm_max_seg` elements.
abbrev pub index : ℤ → Outcome ℕ
index (pos n) = if ltb n shm_max_seg then ok n else fault
index (negsuc n) = fault

-- the number of pages of a segment
abbrev pub pages_of : ShmidDs → ℕ
pages_of d = d.shm_segsz / page_size

-- x += 1 and x -= 1 on an unsigned field
abbrev pub inc_word : ℕ → ℕ
inc_word n = (n + 1) % word

abbrev pub dec_word : ℕ → ℕ
dec_word n = (n + word - 1) % word

-- for (i = 0; i < n; i++) with the assignments `f` to shm_segs[first + i]
abbrev pub update_segs : (ShmidDs → ShmidDs) → ℕ → ℕ → ShmTable → Outcome ShmTable
update_segs f n first t = do
  segs ← in_bounds (update_loop shm_max_seg f n first t.shm_segs)
  ok (record t { shm_segs = segs })

abbrev pub acquire_table : ShmTable → Outcome ShmTable
acquire_table t = do l ← acquire t.lock; ok (record t { lock = l })

abbrev pub release_table : ShmTable → Outcome ShmTable
release_table t = do l ← release t.lock; ok (record t { lock = l })

-- The two bodies of updateShmSeg(): a child has been forked, or exec() drops the attachment.
unfoldable pub forked_slot : ℤ → Rtcdate → ShmidDs → ShmidDs
forked_slot pid now d = record d {
  shm_nattch = inc_word d.shm_nattch;
  shm_lpid = pid;
  shm_atime = stamp now;
}

unfoldable pub exec_slot : Rtcdate → ShmidDs → ShmidDs
exec_slot now d = record d { shm_nattch = dec_word d.shm_nattch; shm_dtime = stamp now }

-- updateShmSeg(shmid, pid, flag)
unfoldable pub update_shm_seg : ℤ → ℤ → ℕ → Rtcdate → ShmTable → Outcome ShmTable
unfolding forked_slot exec_slot
update_shm_seg shmid pid flag now t = do
  first ← index shmid
  let req_pages = pages_of (t.shm_segs first)
  t ← acquire_table t
  t ← update_segs (if flag == 0 then forked_slot pid now else exec_slot now) req_pages first t
  release_table t

-- What mapShmSegPage() writes.
unfoldable pub new_slot : ℕ → ℤ → ℕ → ℤ → ℕ → ShmidDs
new_slot pa key seg_size pid perm = record {
  shm_perm = record { key = key; mode = perm };
  shm_segsz = seg_size;
  shm_atime = minus_one;
  shm_dtime = minus_one;
  shm_ctime = minus_one;
  shm_cpid = minus_one;
  shm_lpid = pid;
  shm_nattch = 0;
  pa = pa;
}

-- mapShmSegPage(): all fields of one slot
unfoldable pub map_shm_seg_page : ℕ → ℤ → ℕ → ℕ → ℤ → ℕ → ShmTable → Outcome ShmTable
map_shm_seg_page pa key seg_size i pid perm t = do
  t ← acquire_table t
  t ← update_segs (λ d. new_slot pa key seg_size pid perm) 1 i t
  release_table t
