-- ===== src/Shm/Alloc/Fill.antt =====
-- The loop of allocShmSeg() that allocates the pages of a new segment, when enough pages are free.
use shared_memory.Prelude.{
  ℕ, zero, suc, ◌+◌, ◌≤◌, ◌<◌, ◌≡◌, refl, ◌∙◌, Bool, true, false, some, List, [], ◌∷◌, arith,
  length, drop, get_elem?, update_loop-ok, map_range, ◌==◌, if◌then◌else◌, ℤ, pos, negsuc, incr,
  rounds, ok,
}
use shared_memory.Layout.{page_size, shm_max_seg, v2p}
use shared_memory.Kalloc.{Kmem, memset}
use shared_memory.Kalloc.Invariant.{kalloc-cons}
use shared_memory.Shm.Table.{ShmTable, Kernel, new_slot, map_shm_seg_page}
use shared_memory.Shm.Alloc.{alloc_pages, grow_last}

-- mapShmSegPage() on a slot of the table writes that slot and nothing else.
pub map_shm_seg_page_lem :
    (pa : ℕ) (key : ℤ) (size i : ℕ) (pid : ℤ) (perm : ℕ) (t : ShmTable)
    → t.lock ≡ false
    → i < shm_max_seg
    → map_shm_seg_page pa key size i pid perm t
      ≡ ok (record t { shm_segs = map_range (λ d. new_slot pa key size pid perm) i 1 t.shm_segs })
unfolding map_shm_seg_page
map_shm_seg_page_lem pa key size i pid perm t u h =
    rw
      (
        u,
        update_loop-ok shm_max_seg (λ d. new_slot pa key size pid perm) 1 i t.shm_segs
            (omega arith),
      )
      (ground arith)

-- The values that lastShmSegIndex takes: -1, or the index of a slot.
abbrev pub IsIndex : ℤ → Type 0
IsIndex (pos n) = Unit
IsIndex (negsuc n) = n ≡ 0

pub rounds-incr : (l : ℤ) → IsIndex l → IsIndex (incr l) × (rounds (incr l) ≡ rounds l + 1)
rounds-incr (pos n) h = (tt, omega arith)
rounds-incr (negsuc zero) h = (tt, refl)
rounds-incr (negsuc (suc n)) h = absurd (omega arith)

-- After the allocation of `n` pages for the slots from `i` on: each slot holds one of the pages
-- that were free, in the order of the free list, and every other slot is as before.
pub record Filled (k : Kernel) (n : ℕ) (key : ℤ) (size i perm : ℕ) (grows : Bool) (t : ShmTable)
    (m : Kmem) : Type 0 where
  pub slots :
      (j page : ℕ)
      → j < n
      → get_elem? k.kmem.free j ≡ some page
      → t.shm_segs (i + j) ≡ new_slot (v2p page) key size k.pid perm
  pub below : (j : ℕ) → j < i → t.shm_segs j ≡ k.table.shm_segs j
  pub above : (j : ℕ) → i + n ≤ j → t.shm_segs j ≡ k.table.shm_segs j
  pub free : m.free ≡ drop n k.kmem.free
  pub table_unlocked : t.lock ≡ false
  pub kmem_unlocked : m.locked ≡ false
  pub same_end : m.end_addr ≡ k.kmem.end_addr
  pub last_same : grows ≡ false → t.last_shm_seg_index ≡ k.table.last_shm_seg_index
  pub last_grown :
      grows ≡ true
      → IsIndex k.table.last_shm_seg_index
      → IsIndex t.last_shm_seg_index
        × (rounds t.last_shm_seg_index ≡ rounds k.table.last_shm_seg_index + n)

abbrev pub after_page : Kernel → ℕ → List ℕ → ℤ → ℕ → ℕ → Bool → ℕ → Kernel
after_page k page l key size i grows perm = record k {
  table = grow_last grows (record (k.table) {
    shm_segs = map_range (λ d. new_slot (v2p page) key size k.pid perm) i 1 k.table.shm_segs;
  });
  kmem = record (k.kmem) { free = l; mem = memset k.kmem.mem page 0 page_size };
}

-- One round of the loop.
pub alloc_pages-suc :
    (n a : ℕ) (key : ℤ) (size i : ℕ) (grows : Bool) (perm : ℕ) (k : Kernel) (page : ℕ) (l : List ℕ)
    → k.table.lock ≡ false
    → k.kmem.locked ≡ false
    → i < shm_max_seg
    → k.kmem.free ≡ page ∷ l
    → alloc_pages (suc n) a key size i grows perm k
      ≡ alloc_pages n
          (a + page_size)
          key
          size
          (i + 1)
          grows
          perm
          (after_page k page l key size i grows perm)
unfolding alloc_pages
alloc_pages-suc n a key size i grows perm k page l u v h e =
    rw
      (
        kalloc-cons k.kmem page l v e,
        map_shm_seg_page_lem (v2p page) key size i k.pid perm k.table u h,
      )
      refl

grow_last_segs : (g : Bool) (t : ShmTable) → (grow_last g t).shm_segs ≡ t.shm_segs
grow_last_segs true t = refl
grow_last_segs false t = refl

grow_last_lock : (g : Bool) (t : ShmTable) → (grow_last g t).lock ≡ t.lock
grow_last_lock true t = refl
grow_last_lock false t = refl

grow_last-false :
    (g : Bool) (t : ShmTable)
    → g ≡ false
    → (grow_last g t).last_shm_seg_index ≡ t.last_shm_seg_index
grow_last-false g t e = rw e refl

grow_last-true :
    (g : Bool) (t : ShmTable)
    → g ≡ true
    → (grow_last g t).last_shm_seg_index ≡ incr t.last_shm_seg_index
grow_last-true g t e = rw e refl

-- What a round writes: slot `i`, and no other.
after_page_slot :
    (k : Kernel) (page : ℕ) (l : List ℕ) (key : ℤ) (size i : ℕ) (grows : Bool) (perm j : ℕ)
    → (after_page k page l key size i grows perm).table.shm_segs j
      ≡ (if j == i then new_slot (v2p page) key size k.pid perm else k.table.shm_segs j)
after_page_slot k page l key size i true perm j = ground arith
after_page_slot k page l key size i false perm j = ground arith

module _ (k : Kernel) (page : ℕ) (l : List ℕ) (key : ℤ) (size i perm n : ℕ) (grows : Bool) where
  fill_slots :
      (t : ShmTable) (m : Kmem)
      → k.kmem.free ≡ page ∷ l
      → Filled (after_page k page l key size i grows perm) n key size (i + 1) perm grows t m
      → (j p : ℕ) → j < suc n
      → get_elem? k.kmem.free j ≡ some p
      → t.shm_segs (i + j) ≡ new_slot (v2p p) key size k.pid perm
  fill_slots t m e f zero p h q =
      let at : i + 0 ≡ i = omega arith in
      let same : some page ≡ some p = rw e at q in
      rw at
        (f.below i (omega arith) ∙ after_page_slot k page l key size i grows perm i ∙ ground arith)
  fill_slots t m e f (suc j) p h q =
      let at : i + suc j ≡ i + 1 + j = omega arith in rw at (f.slots j p (omega arith) (rw e at q))

  fill_suc :
      (t : ShmTable) (m : Kmem)
      → k.kmem.free ≡ page ∷ l
      → Filled (after_page k page l key size i grows perm) n key size (i + 1) perm grows t m
      → Filled k (suc n) key size i perm grows t m
  fill_suc t m e f = record {
    slots = fill_slots t m e f;
    below = λ j h.
        f.below j (omega arith) ∙ after_page_slot k page l key size i grows perm j ∙ ground arith;
    above = λ j h.
        f.above j (omega arith) ∙ after_page_slot k page l key size i grows perm j ∙ ground arith;
    free = f.free ∙ rw e refl;
    table_unlocked = f.table_unlocked;
    kmem_unlocked = f.kmem_unlocked;
    same_end = f.same_end;
    last_same = λ g. f.last_same g ∙ grow_last-false grows _ g;
    last_grown = λ g is.
        let step = rounds-incr k.table.last_shm_seg_index is in
        let now = grow_last-true grows (after_page k page l key size i false perm).table g in
        let (a, b) = f.last_grown g (rw now (step.0)) in (a, b ∙ rw now (omega (arith, step.1)));
  }

abbrev Allocated : ℕ → ℕ → ℤ → ℕ → ℕ → Bool → ℕ → Kernel → Type 0
Allocated n a key size i grows perm k =
    (t : ShmTable) × (m : Kmem) × (alloc_pages n a key size i grows perm k
      ≡ ok (true, record k { table = t; kmem = m }))
    × Filled k n key size i perm grows t m

alloc_pages_list :
    (n a : ℕ) (key : ℤ) (size i : ℕ) (grows : Bool) (perm : ℕ) (k : Kernel) (free : List ℕ)
    → k.kmem.free ≡ free
    → k.table.lock ≡ false
    → k.kmem.locked ≡ false
    → i + n ≤ shm_max_seg
    → n ≤ length free
    → Allocated n a key size i grows perm k
unfolding alloc_pages
alloc_pages_list zero a key size i grows perm k free e u v h enough = (
  k.table,
  k.kmem,
  refl,
  record {
    slots = λ j p hj q. absurd (omega arith);
    below = λ j hj. refl;
    above = λ j hj. refl;
    free = refl;
    table_unlocked = u;
    kmem_unlocked = v;
    same_end = refl;
    last_same = λ g. refl;
    last_grown = λ g is. (is, omega arith);
  },
)
alloc_pages_list (suc n) a key size i grows perm k [] e u v h enough = absurd (omega arith)
alloc_pages_list (suc n) a key size i grows perm k (page ∷ l) e u v h enough =
    let next = after_page k page l key size i grows perm in
    let (t, m, run, f) =
      alloc_pages_list n (a + page_size) key size (i + 1) grows perm next l refl
        (grow_last_lock grows _ ∙ u) v (omega arith) (omega arith) in
    (
      t,
      m,
      alloc_pages-suc n a key size i grows perm k page l u v (omega arith) e ∙ run,
      fill_suc k page l key size i perm n grows t m e f,
    )

-- With `n` free pages the loop allocates them all. Only the table and the allocator change.
pub alloc_pages_enough :
    (n a : ℕ) (key : ℤ) (size i : ℕ) (grows : Bool) (perm : ℕ) (k : Kernel)
    → k.table.lock ≡ false
    → k.kmem.locked ≡ false
    → i + n ≤ shm_max_seg
    → n ≤ length k.kmem.free
    → (t : ShmTable) × (m : Kmem) × (alloc_pages n a key size i grows perm k
        ≡ ok (true, record k { table = t; kmem = m }))
      × Filled k n key size i perm grows t m
alloc_pages_enough n a key size i grows perm k =
    alloc_pages_list n a key size i grows perm k k.kmem.free refl
