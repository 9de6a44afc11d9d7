-- ===== src/Kalloc/Invariant.antt =====
-- What the page allocator of kalloc.c keeps: the free pages are distinct, aligned and allocatable.
use shared_memory.Prelude.{
  ℕ, ◌%◌, ◌≤◌, ◌<◌, ◌≡◌, refl, ◌∙◌, ◌⊎◌, ◌↔◌, inl, inr, true, false, Option, none, some, List, [],
  ◌∷◌, arith, has, Distinct, All, ok, panic, Bool-cases,
}
use shared_memory.Layout.{page_size, phys_top, v2p}
use shared_memory.Kalloc.{Kmem, memset, bad_page, kfree, kalloc, take_page}

-- The pages that kfree() accepts.
pub record IsPage (end_addr v : ℕ) : Type 0 where
  pub aligned : v % page_size ≡ 0
  pub above : end_addr ≤ v
  pub below : v2p v < phys_top

pub record IsValid (k : Kmem) : Type 0 where
  pub pages : All (IsPage k.end_addr) k.free
  pub distinct : Distinct k.free
  pub unlocked : k.locked ≡ false

pub bad_page_of_IsPage : {e v : ℕ} → IsPage e v → bad_page e v ≡ false
bad_page_of_IsPage p = ground arith

IsPage_of_not_bad : (e v : ℕ) → bad_page e v ≡ false → IsPage e v
IsPage_of_not_bad e v h = ground arith

pub kfree_bad : (v : ℕ) (k : Kmem) → bad_page k.end_addr v ≡ true → kfree v k ≡ panic
unfolding kfree
kfree_bad v k b = rw b

pub kfree_good :
    (v : ℕ) (k : Kmem)
    → k.locked ≡ false
    → bad_page k.end_addr v ≡ false
    → kfree v k ≡ ok (record k { free = v ∷ k.free; mem = memset k.mem v 1 page_size })
unfolding kfree
kfree_good v k u b = rw b (ground arith)

-- kfree() panics exactly on an address that is not that of an allocatable page, whatever the free
-- list holds. On a page it puts the page at the head of the free list, fills its bytes with 1,
-- leaves all other bytes alone and gives the lock back.
pub kfree_cases :
    (v : ℕ) (k : Kmem)
    → k.locked ≡ false
    → ((kfree v k ≡ panic) × ¬ IsPage k.end_addr v)
      ⊎ (IsPage k.end_addr v
          × (kfree v k ≡ ok (record k { free = v ∷ k.free; mem = memset k.mem v 1 page_size })))
kfree_cases v k u = elim (Bool-cases (bad_page k.end_addr v)) [
  | inl bad ↦ inl (kfree_bad v k bad, λ p. cc (bad_page_of_IsPage p))
  | inr good ↦ inr (IsPage_of_not_bad k.end_addr v good, kfree_good v k u good)
]

-- What kalloc() hands out: nothing only when no page is free, and else an allocatable page that
-- was at the head of the free list and is no longer in it.
abbrev pub Taken : Kmem → Option ℕ → Kmem → Type 0
Taken k none k' = k' ≡ k
Taken k (some v) k' =
    IsPage k.end_addr v
    × (k.free ≡ v ∷ k'.free)
    × (has v k'.free ≡ false)
    × (k'.mem ≡ k.mem)
    × (k'.end_addr ≡ k.end_addr)

pub kalloc_lem : (k : Kmem) → k.locked ≡ false → kalloc k ≡ ok (take_page k)
unfolding kalloc take_page
kalloc_lem k u = ground arith

take_page_lem :
    (k : Kmem) (l : List ℕ)
    → k.free ≡ l
    → IsValid k
    → IsValid (take_page k).1
      × Taken k (take_page k).0 (take_page k).1
      × (((take_page k).0 ≡ none) ↔ (k.free ≡ []))
unfolding take_page
take_page_lem k [] e i =
    rw e (record { pages = tt; distinct = tt; unlocked = i.unlocked }, refl, (λ _. refl, λ _. refl))
take_page_lem k (v ∷ l) e i =
    let pages : All (IsPage k.end_addr) (v ∷ l) = rw e at (i.pages) in
    let distinct : Distinct (v ∷ l) = rw e at (i.distinct) in
    rw e (
      record { pages = pages.1; distinct = distinct.1; unlocked = i.unlocked },
      (pages.0, refl, distinct.0, refl, refl),
      (λ p. cc, λ p. cc),
    )

-- kalloc() on a well-formed allocator always returns. It keeps the allocator well formed, returns
-- the null pointer exactly when no page is free (and then changes nothing), and otherwise an
-- allocatable page that was the head of the free list and is no longer in it.
pub kalloc_total :
    (k : Kmem)
    → IsValid k
    → (r : Option ℕ) × (k' : Kmem) × (kalloc k ≡ ok (r, k'))
      × IsValid k'
      × Taken k r k'
      × ((r ≡ none) ↔ (k.free ≡ []))
kalloc_total k i =
    let (a, b, c) = take_page_lem k k.free refl i in
    ((take_page k).0, (take_page k).1, kalloc_lem k i.unlocked, a, b, c)

-- kfree() of an allocatable page that is not free returns, keeps the allocator well formed, and
-- makes that page the head of the free list.
pub kfree-IsValid :
    (v : ℕ) (k : Kmem)
    → IsValid k
    → IsPage k.end_addr v
    → has v k.free ≡ false
    → (k' : Kmem) × (kfree v k ≡ ok k') × IsValid k' × (k'.free ≡ v ∷ k.free)
kfree-IsValid v k i p h = (
  record k { free = v ∷ k.free; mem = memset k.mem v 1 page_size },
  kfree_good v k i.unlocked (bad_page_of_IsPage p),
  record { pages = (p, i.pages); distinct = (h, i.distinct); unlocked = i.unlocked },
  refl,
)

pub kalloc-cons :
    (k : Kmem) (v : ℕ) (l : List ℕ)
    → k.locked ≡ false
    → k.free ≡ v ∷ l
    → kalloc k ≡ ok (some v, record k { free = l })
unfolding take_page
kalloc-cons k v l u e = kalloc_lem k u ∙ rw e refl

pub kalloc-nil : (k : Kmem) → k.locked ≡ false → k.free ≡ [] → kalloc k ≡ ok (none, k)
unfolding take_page
kalloc-nil k u e = kalloc_lem k u ∙ rw e refl
