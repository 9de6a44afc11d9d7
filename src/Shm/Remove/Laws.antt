-- ===== src/Shm/Remove/Laws.antt =====
-- removeshmHelper(): what it frees, and what it leaves of a segment that is still attached.
use shared_memory.Prelude.{
  ℕ, zero, suc, ◌+◌, ◌≤◌, ◌<◌, ◌≡◌, ◌≢◌, refl, ap, sym, ◌∙◌, Bool, false, List, ◌∷◌, arith, has,
  lt→ltb, ==-ne, if◌then◌else◌, write, map_range, map_range-suc, map_range-zero, ok,
}
use shared_memory.Layout.{page_size, shm_max_seg, v2p}
use shared_memory.Kalloc.{Kmem, memset}
use shared_memory.Kalloc.Invariant.{IsPage, IsValid, kfree_good, bad_page_of_IsPage}
use shared_memory.Shm.Table.{ShmidDs, Kernel}
use shared_memory.Shm.Remove.{freed_slot, free_loop}

-- The address that freeshmPages() frees for slot `j`.
abbrev pub page_of : (ℕ → ShmidDs) → ℕ → ℕ
page_of segs j = v2p (segs j).pa

-- The slots from `i` on hold `n` distinct pages that are not free.
pub record Owned (segs : ℕ → ShmidDs) (m : Kmem) (i n : ℕ) : Type 0 where
  pub pages : (j : ℕ) → i ≤ j → j < i + n → IsPage m.end_addr (page_of segs j)
  pub used : (j : ℕ) → i ≤ j → j < i + n → has (page_of segs j) m.free ≡ false
  pub distinct : (j l : ℕ) → i ≤ j → j < l → l < i + n → page_of segs l ≢ page_of segs j

-- the pages of the slots from `i` on, the last one first, before the list
abbrev pub freed_list : (ℕ → ShmidDs) → ℕ → ℕ → List ℕ → List ℕ
freed_list segs zero i l = l
freed_list segs (suc n) i l = freed_list segs n (i + 1) (page_of segs i ∷ l)

-- The memory once kfree() has filled the pages of the slots from `i` on with ones
abbrev pub filled_mem : (ℕ → ShmidDs) → ℕ → ℕ → (ℕ → ℕ) → ℕ → ℕ
filled_mem segs zero i mem = mem
filled_mem segs (suc n) i mem = filled_mem segs n (i + 1) (memset mem (page_of segs i) 1 page_size)

-- What freeing `n` slots from `i` on leaves behind.
pub record Freed (k : Kernel) (n i : ℕ) (k' : Kernel) : Type 0 where
  pub segs : k'.table.shm_segs ≡ map_range freed_slot i n k.table.shm_segs
  pub free : k'.kmem.free ≡ freed_list k.table.shm_segs n i k.kmem.free
  pub mem : k'.kmem.mem ≡ filled_mem k.table.shm_segs n i k.kmem.mem
  pub valid : IsValid k'.kmem
  pub lock_kept : k'.table.lock ≡ k.table.lock
  pub last_kept : k'.table.last_shm_seg_index ≡ k.table.last_shm_seg_index
  pub others_kept : (k'.shmsegs ≡ k.shmsegs) × (k'.pgdir ≡ k.pgdir) × (k'.info ≡ k.info)
  pub caller_kept : (k'.pid ≡ k.pid) × (k'.now ≡ k.now) × (k'.ticks ≡ k.ticks)
  pub allocator_kept : (k'.kmem.use_lock ≡ k.kmem.use_lock) × (k'.kmem.end_addr ≡ k.kmem.end_addr)

abbrev after_free : ℕ → Kmem → Kernel → Kernel
after_free i m k = record k {
  kmem = m;
  table = record (k.table) {
    shm_segs = write k.table.shm_segs i (freed_slot (k.table.shm_segs i));
  };
}

page_of-write :
    (segs : ℕ → ShmidDs) (d : ShmidDs) (i j : ℕ)
    → i < j
    → page_of (write segs i d) j ≡ page_of segs j
page_of-write segs d i j h =
    ap (λ (b : Bool). v2p (if b then d else segs j).pa) (==-ne j i (λ e. omega arith))

freed_list-write :
    (segs : ℕ → ShmidDs) (d : ShmidDs) (i n j : ℕ) (l : List ℕ)
    → i < j
    → freed_list (write segs i d) n j l ≡ freed_list segs n j l
freed_list-write segs d i zero j l h = refl
freed_list-write segs d i (suc n) j l h =
    ap (λ (p : ℕ). freed_list (write segs i d) n (j + 1) (p ∷ l)) (page_of-write segs d i j h)
    ∙ freed_list-write segs d i n (j + 1) (page_of segs j ∷ l) (omega arith)

filled_mem-write :
    (segs : ℕ → ShmidDs) (d : ShmidDs) (i n j : ℕ) (mem : ℕ → ℕ)
    → i < j
    → filled_mem (write segs i d) n j mem ≡ filled_mem segs n j mem
filled_mem-write segs d i zero j mem h = refl
filled_mem-write segs d i (suc n) j mem h =
    ap (λ (p : ℕ). filled_mem (write segs i d) n (j + 1) (memset mem p 1 page_size))
      (page_of-write segs d i j h)
    ∙ filled_mem-write segs d i n (j + 1) (memset mem (page_of segs j) 1 page_size) (omega arith)

Owned-next :
    (k : Kernel) (m : Kmem) (i n : ℕ)
    → Owned k.table.shm_segs k.kmem i (suc n)
    → m.free ≡ page_of k.table.shm_segs i ∷ k.kmem.free
    → m.end_addr ≡ k.kmem.end_addr
    → Owned (after_free i m k).table.shm_segs m (i + 1) n
Owned-next k m i n o f e = record {
  pages = λ j lo hi. rw (same j lo, e) (o.pages j (omega arith) (omega arith));
  used = λ j lo hi.
      rw (same j lo, f, ==-ne _ _ (o.distinct i j (omega arith) (omega arith) (omega arith)))
        (o.used j (omega arith) (omega arith));
  distinct = λ j l lo lt hi.
      rw (same j lo, same l (omega arith)) (o.distinct j l (omega arith) lt (omega arith));
}
  where
    same :
        (j : ℕ)
        → i + 1 ≤ j
        → page_of (after_free i m k).table.shm_segs j ≡ page_of k.table.shm_segs j
    same j h = page_of-write k.table.shm_segs _ i j (omega arith)

pub free_loop-Freed :
    (n i : ℕ) (k : Kernel)
    → i + n ≤ shm_max_seg
    → IsValid k.kmem
    → Owned k.table.shm_segs k.kmem i n
    → (k' : Kernel) × (free_loop n i k ≡ ok k') × Freed k n i k'
unfolding free_loop
free_loop-Freed zero i k b v o = (
  k,
  refl,
  record {
    segs = sym (map_range-zero freed_slot i k.table.shm_segs);
    free = refl;
    mem = refl;
    valid = v;
    lock_kept = refl;
    last_kept = refl;
    others_kept = (refl, refl, refl);
    caller_kept = (refl, refl, refl);
    allocator_kept = (refl, refl);
  },
)
free_loop-Freed (suc n) i k b v o =
    let page = page_of k.table.shm_segs i in
    let is = o.pages i (omega arith) (omega arith) in
    let unused = o.used i (omega arith) (omega arith) in
    let m : Kmem = record (k.kmem) {
      free = page ∷ k.kmem.free;
      mem = memset k.kmem.mem page 1 page_size;
    } in
    let freed = kfree_good page k.kmem v.unlocked (bad_page_of_IsPage is) in
    let (k', run, f) =
      free_loop-Freed n (i + 1) (after_free i m k) (omega arith)
        (record { pages = (is, v.pages); distinct = (unused, v.distinct); unlocked = v.unlocked })
        (Owned-next k m i n o refl refl) in
    (
      k',
      rw (lt→ltb i shm_max_seg (omega arith), freed) run,
      record {
        segs = f.segs ∙ map_range-suc freed_slot i n k.table.shm_segs;
        free =
            f.free
            ∙ freed_list-write k.table.shm_segs _ i n (i + 1) (page ∷ k.kmem.free) (omega arith);
        mem =
            f.mem
            ∙ filled_mem-write k.table.shm_segs _ i n (i + 1) (memset k.kmem.mem page 1 page_size)
                (omega arith);
        valid = f.valid;
        lock_kept = f.lock_kept;
        last_kept = f.last_kept;
        others_kept = f.others_kept;
        caller_kept = f.caller_kept;
        allocator_kept = f.allocator_kept;
      },
    )
