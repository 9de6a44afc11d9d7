-- ===== src/Shm/Attach/Whole.antt =====
-- shmatHelper() as a whole: where it attaches a segment, and what it does with a given address.
use shared_memory.Prelude.{
  ℕ, ◌+◌, ◌*◌, ◌≤◌, ◌<◌, ◌≡◌, refl, sym, Bool, true, false, not, Option, none, some, arith, length,
  ◌<ℤ◌, ℤ, pos, negsuc, rounds, ok,
}
use shared_memory.Layout.{page_size, heap_limit, shm_max_seg}
use shared_memory.Kalloc.Invariant.{IsValid}
use shared_memory.Vm.{read_pte}
use shared_memory.Shm.Table.{Kernel, enomem, to_uint}
use shared_memory.Shm.Attach.{Request, allocshmuvm, shmat_helper}
use shared_memory.Shm.Attach.Loop.{Attached, CanAttach, attach_loop-Attached}

-- the address of entry `i` of the process
abbrev pub entry_addr : ℕ → ℕ
entry_addr i = i * page_size + heap_limit

-- An entry of the process that is not attached is not mapped.
abbrev pub Consistent : Kernel → Type 0
Consistent k =
    (i : ℕ)
    → i < shm_max_seg
    → (k.shmsegs i).is_attached ≡ false
    → (read_pte k.pgdir (entry_addr i)).present ≡ false

-- allocshmuvm() of `n` pages that can be attached returns the address, and gives the lock back.
pub allocshmuvm_ok :
    (n first si : ℕ) (q : Request) (k : Kernel)
    → k.table.lock ≡ false
    → CanAttach k n first si q.shmaddr
    → (k' : Kernel) × (allocshmuvm n first si q k ≡ ok (q.shmaddr, k'))
      × (k'.table.lock ≡ false)
      × Attached k n first si q.shmaddr q k'
unfolding allocshmuvm
allocshmuvm_ok n first si q k u c =
    let locked : Kernel = record k { table = record (k.table) { lock = true } } in
    let can : CanAttach locked n first si q.shmaddr = record {
      slots = c.slots;
      entries = c.entries;
      page = c.page;
      high = c.high;
      kmem = c.kmem;
      enough = c.enough;
      unmapped = c.unmapped;
    } in
    let (k', run, a) = attach_loop-Attached n first si q.shmaddr q locked can in
    (
      record k' { table = record (k'.table) { lock = false } },
      rw (u, run, a.lock_kept) refl,
      refl,
      record {
        segs = a.segs;
        entries = a.entries;
        mapped = a.mapped;
        others = a.others;
        valid = a.valid;
        lock_kept = sym u;
        last_kept = a.last_kept;
        info_kept = a.info_kept;
        pid_kept = a.pid_kept;
        now_kept = a.now_kept;
      },
    )

abbrev pub is_empty_entry : Kernel → ℕ → Bool
is_empty_entry k i = not (k.shmsegs i).is_attached

abbrev pub request : ℕ → ℕ → ℕ → Request
request f addr flag = record { shmid = pos f; shmaddr = addr; shmflag = flag }

-- What a caller of shmat() provides: an existing segment of `n` pages at slot `f`, a free lock, a
-- well-formed allocator with a page for each page table, and attachments that fit the mappings.
pub record CanShmat (k : Kernel) (f n : ℕ) : Type 0 where
  pub lock_free : k.table.lock ≡ false
  pub exists : f < rounds k.table.last_shm_seg_index
  pub in_table : f + n ≤ shm_max_seg
  pub some_page : 0 < n
  pub size : (k.table.shm_segs f).shm_segsz ≡ n * page_size
  pub kmem : IsValid k.kmem
  pub enough : n ≤ length k.kmem.free
  pub consistent : Consistent k

pub not_past : (f : ℕ) (l : ℤ) → f < rounds l → (l <ℤ pos f) ≡ false
not_past f (pos n) h = ground arith
not_past f (negsuc n) h = absurd (omega arith)

module _ (k : Kernel) (f n flag : ℕ) (c : CanShmat k f n) where
  -- What shmat() returns for the entry that the search finds, or for none.
  abbrev pub ShmatResult : Option ℕ → Type 0
  ShmatResult none = shmat_helper (request f 0 flag) k ≡ ok (to_uint enomem, k)
  ShmatResult (some i) =
      (k' : Kernel) × (shmat_helper (request f 0 flag) k ≡ ok (entry_addr i, k'))
      × Attached k n f i (entry_addr i) (request f (entry_addr i) flag) k'
