-- ===== src/Shm/Detach/Whole.antt =====
-- shmdtHelper() as a whole, and a shmat() followed by a shmdt().
use shared_memory.Prelude.{
  ℕ, ◌+◌, ◌-◌, ◌*◌, ◌/◌, ◌≤◌, ◌<◌, ◌≡◌, ◌⊎◌, inl, inr, refl, true, false, arith, lt→ltb, ◌==◌,
  if◌then◌else◌, write, map_range, pos, minus_one, ok,
}
use shared_memory.Layout.{page_size, kern_base, heap_limit, shm_max_seg}
use shared_memory.Vm.{read_pte}
use shared_memory.Vm.Entries.{IsPageAddr}
use shared_memory.Shm.Table.{Kernel, einval}
use shared_memory.Shm.Attach.Region.{is_outside-inside, is_outside-outside}
use shared_memory.Shm.Attach.Whole.{entry_addr}
use shared_memory.Shm.Detach.{detached_slot, marked_dest, shmdt_helper}
use shared_memory.Shm.Detach.Loop.{TablesThere}

-- The entry of the process that the address belongs to.
abbrev pub entry_of_addr : ℕ → ℕ
entry_of_addr addr = (addr - heap_limit) / page_size

-- shmdt() refuses an address outside the region, or one whose entry is not attached, with EINVAL,
-- and changes nothing.
pub shmdt_refused :
    (addr : ℕ) (k : Kernel)
    → (addr < heap_limit)
      ⊎ (kern_base ≤ addr)
      ⊎ ((heap_limit ≤ addr)
          × (addr < kern_base)
          × ((k.shmsegs (entry_of_addr addr)).is_attached ≡ false))
    → shmdt_helper addr k ≡ ok (einval, k)
unfolding shmdt_helper
shmdt_refused addr k (inl low) = rw (is_outside-outside addr (inl low)) refl
shmdt_refused addr k (inr (inl high)) = rw (is_outside-outside addr (inr high)) refl
shmdt_refused addr k (inr (inr (lo, hi, gone))) =
    rw (is_outside-inside addr lo hi, lt→ltb (entry_of_addr addr) shm_max_seg (omega arith), gone)
      refl

-- What a successful shmdt() of the `n` pages of the segment `f` at the entry `si` leaves behind.
pub record ShmdtDone (k : Kernel) (n f si : ℕ) (k' : Kernel) : Type 0 where
  pub segs :
      (j : ℕ)
      → k'.table.shm_segs j ≡ (
          if j == f
          then marked_dest (map_range (detached_slot k.pid k.now) f n k.table.shm_segs f)
          else map_range (detached_slot k.pid k.now) f n k.table.shm_segs j)
  pub entries_free : (j : ℕ) → si ≤ j → j < si + n → (k'.shmsegs j).is_attached ≡ false
  pub entries_kept : (j : ℕ) → (j < si) ⊎ (si + n ≤ j) → k'.shmsegs j ≡ k.shmsegs j
  pub unmapped : (j : ℕ) → j < n → (read_pte k'.pgdir (entry_addr (si + j))).present ≡ false
  pub others :
      (b : ℕ)
      → IsPageAddr b
      → (b < entry_addr si) ⊎ (entry_addr (si + n) ≤ b)
      → read_pte k'.pgdir b ≡ read_pte k.pgdir b
  pub lock_free : k'.table.lock ≡ false
  pub kmem_kept : k'.kmem ≡ k.kmem

-- What shmdt() needs at an attached entry.
pub record CanShmdt (k : Kernel) (n f si : ℕ) : Type 0 where
  pub lock_free : k.table.lock ≡ false
  pub attached : k.shmsegs si ≡ record { is_attached = true; shmid = pos f }
  pub size : (k.table.shm_segs f).shm_segsz ≡ n * page_size
  pub some_page : 0 < n
  pub slots : f + n ≤ shm_max_seg
  pub entries : si + n ≤ shm_max_seg
  pub tables : TablesThere k.pgdir si n

-- The kernel as it enters the loop.
abbrev at_loop : ℕ → Kernel → Kernel
at_loop si k = record k {
  shmsegs = write k.shmsegs si (record { is_attached = false; shmid = minus_one });
  table = record (k.table) { lock = true };
}
