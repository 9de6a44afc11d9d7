-- ===== src/Shm/Attach.antt =====
-- shmatHelper() and allocshmuvm() of shm.c.
pub mod Loop
pub mod Whole
pub mod Region
pub mod Address
use shared_memory.Prelude.{
  ℕ, zero, suc, ◌+◌, ◌-◌, ◌*◌, ◌/◌, ◌%◌, ◌^◌, bit_and, Bool, true, false, not, ◌||◌, ◌&&◌, none,
  some, ltb, leb, ◌==◌, if◌then◌else◌, write, ℤ, pos, negsuc, ◌<ℤ◌, Outcome, ok, fault, ◌>>=◌,
}
use shared_memory.Layout.{word, page_size, kern_base, heap_limit, shm_max_seg, v2p, pg_round_down}
use shared_memory.Vm.{Perm, Space, mappages, deallocuvm}
use shared_memory.Shm.Table.{
  ShmidDs, AttachedShmseg, Rtcdate, Kernel, einval, enomem, eidrm, shm_rnd, to_int, to_uint, stamp,
  index, inc_word, acquire_table, release_table,
}
use shared_memory.Shm.Search.{search}

-- The fields that allocshmuvm() sets in a slot of the table.
unfoldable pub attached_slot : ℤ → Rtcdate → ShmidDs → ShmidDs
attached_slot pid now d = record d {
  shm_nattch = inc_word d.shm_nattch;
  shm_atime = stamp now;
  shm_ctime = stamp now;
  shm_lpid = pid;
}

-- (shmflag & 02) ? (PTE_W|PTE_U) : PTE_U
abbrev pub attach_perm : ℕ → Perm
attach_perm flag = record { write_ok = not (bit_and flag 2 == 0); user_ok = true }

abbrev pub space_of : Kernel → Space
space_of k = record { dir = k.pgdir; kmem = k.kmem }

-- process->shmsegs[si] = { 1, shmid }
abbrev pub mark_attached : ℕ → ℤ → Kernel → Kernel
mark_attached si shmid k = record k {
  shmsegs = write k.shmsegs si (record { is_attached = true; shmid = shmid });
}

-- The counters of the slot after a page has been mapped, and the new page directory.
abbrev pub count_attach : ℕ → Space → Kernel → Kernel
count_attach first s k = record k {
  pgdir = s.dir;
  kmem = s.kmem;
  table = record (k.table) {
    shm_segs = write k.table.shm_segs first (attached_slot k.pid k.now (k.table.shm_segs first));
  };
}

-- What the caller and the rounds of the loop share.
pub record Request : Type 0 where
  pub shmid : ℤ
  pub shmaddr : ℕ
  pub shmflag : ℕ

-- for (i = 0; i < reqPages; i++), with `n` rounds to go, the slot `first` of the table, the entry
-- `si` of the process and the address `va`. The result is whether all pages were mapped.
pub attach_loop : ℕ → ℕ → ℕ → ℕ → Request → Kernel → Outcome (Bool × Kernel)
attach_loop zero first si va q k = ok (true, k)
attach_loop (suc n) first si va q k =
    let mapped = (do
      let k = mark_attached si q.shmid k
      let pa = v2p (k.table.shm_segs first).pa
      (r, s) ← mappages va page_size pa (attach_perm q.shmflag) (space_of k)
      elim (r <ℤ pos 0) [
        | true ↦ do
          (_, s) ← deallocuvm va q.shmaddr s
          ok (false, record k { pgdir = s.dir; kmem = s.kmem })
        | false ↦
            attach_loop n (first + 1) (si + 1) ((va + page_size) % word) q (count_attach first s k)
      ]) in
    if ltb si shm_max_seg && ltb first shm_max_seg then mapped else fault

-- allocshmuvm(). Where a page cannot be mapped it returns with the lock of the table held.
unfoldable pub allocshmuvm : ℕ → ℕ → ℕ → Request → Kernel → Outcome (ℕ × Kernel)
allocshmuvm req_pages first si q k = do
  t ← acquire_table k.table
  (done, k) ← attach_loop req_pages first si q.shmaddr q (record k { table = t })
  if done
      then (do t ← release_table k.table; ok (q.shmaddr, record k { table = t }))
      else ok (to_uint enomem, k)

-- reqPages as a bound of loops: a segment size above 2^31 reads as a negative `int`.
abbrev pub loop_pages : ℕ → ℕ
loop_pages segsz = if ltb segsz (2 ^ 31) then segsz / page_size else 0

-- ((int)va - HEAPLIMIT) / PGSIZE
abbrev pub slot_of : ℕ → ℤ
slot_of va =
    if leb heap_limit va
    then pos ((va - heap_limit) / page_size)
    else if (heap_limit - va) / page_size == 0
    then pos 0
    else negsuc ((heap_limit - va) / page_size - 1)

-- for (i = given_si; i < reqPages; i++): whether an entry of the process is attached
pub any_attached : (ℕ → AttachedShmseg) → ℕ → ℕ → Outcome Bool
any_attached a zero i = ok false
any_attached a (suc n) i =
    let rest = any_attached a n (i + 1) in
    if ltb i shm_max_seg then (if (a i).is_attached then ok true else rest) else fault

abbrev pub occupied : (ℕ → AttachedShmseg) → ℤ → ℕ → Outcome Bool
occupied a (pos s) req_pages = any_attached a (req_pages - s) s
occupied a (negsuc s) req_pages = fault

abbrev pub refuse : ℤ → Kernel → Outcome (ℕ × Kernel)
refuse e k = ok (to_uint e, k)

-- if ((va = allocshmuvm(...)) == 0) return ENOMEM;
attach_at : ℕ → ℕ → ℤ → Request → Kernel → Outcome (ℕ × Kernel)
attach_at req_pages first (negsuc s) q k = fault
attach_at req_pages first (pos si) q k = do
  (va, k) ← allocshmuvm req_pages first si q k
  if va == 0 then refuse enomem k else ok (va, k)

-- No address is given: the lowest run of free entries of the process.
pub attach_anywhere : ℕ → ℕ → Request → Kernel → Outcome (ℕ × Kernel)
attach_anywhere segsz first q k = do
  found ← search shm_max_seg (λ i. not (k.shmsegs i).is_attached) (segsz / page_size) shm_max_seg
  elim found [
    | none ↦ refuse enomem k
    | some i ↦
        attach_at (loop_pages segsz) first (pos i)
          (record q { shmaddr = i * page_size + heap_limit }) k
  ]

-- shmaddr > KERNBASE || shmaddr < HEAPLIMIT: KERNBASE is an unsigned constant and HEAPLIMIT an int, so
-- that the second test is on ints, where an address from 2 ^ 31 on is negative.
abbrev pub is_outside : ℕ → Bool
is_outside a = ltb kern_base a || (to_int a <ℤ pos heap_limit)

-- An address is given. `va` is set only under SHM_RND, and is 0 otherwise.
pub attach_given : ℕ → ℕ → Request → Kernel → Outcome (ℕ × Kernel)
attach_given segsz first q k =
    let rounds = q.shmflag == shm_rnd in
    let va = if rounds then pg_round_down q.shmaddr else 0 in
    let tried = (do
      taken ← occupied k.shmsegs (slot_of va) (loop_pages segsz)
      if taken
          then refuse einval k
          else attach_at (loop_pages segsz) first (slot_of va) (record q { shmaddr = va }) k) in
    if is_outside q.shmaddr
    then refuse einval k
    else if not rounds && not (q.shmaddr % page_size == 0)
    then refuse einval k
    else tried

-- shmatHelper(shmid, shmaddr, shmflag). The result is the address, or an error code as an address.
unfoldable pub shmat_helper : Request → Kernel → Outcome (ℕ × Kernel)
shmat_helper q k =
    if q.shmid <ℤ pos 0 || k.table.last_shm_seg_index <ℤ q.shmid then refuse einval k else do
      first ← index q.shmid
      let segsz = (k.table.shm_segs first).shm_segsz
      if segsz == 0
          then refuse eidrm k
          else if q.shmaddr == 0
          then attach_anywhere segsz first q k
          else attach_given segsz first q k
