-- ===== src/Kalloc.antt =====
-- kalloc.c: the allocator of physical pages.
pub mod Invariant
pub mod Range
use shared_memory.Prelude.{
  ℕ, zero, suc, ◌+◌, ◌%◌, Bool, true, false, ◌||◌, not, Option, none, some, List, [], ◌∷◌, ltb, leb,
  ◌==◌, if◌then◌else◌, in_range, Outcome, ok, panic, out_of_fuel, ◌>>=◌, acquire, release,
}
use shared_memory.Layout.{page_size, phys_top, v2p, pg_round_up}

-- `kmem`, with the memory that it hands out. `mem` is the byte at a kernel address and `end_addr`
-- the linker's `end`. The free list is kept here as the list of its pages; in C the pointer to the
-- next page stands in the first bytes of each free page.
pub record Kmem : Type 0 where
  pub free : List ℕ
  pub use_lock : Bool
  pub locked : Bool
  pub mem : ℕ → ℕ
  pub end_addr : ℕ

-- memset(p, c, n)
abbrev pub memset : (ℕ → ℕ) → ℕ → ℕ → ℕ → ℕ → ℕ
memset m p c n a = if in_range p n a then c else m a

abbrev lock_if_used : Kmem → Outcome Kmem
lock_if_used k =
    if k.use_lock then (do l ← acquire k.locked; ok (record k { locked = l })) else ok k

abbrev unlock_if_used : Kmem → Outcome Kmem
unlock_if_used k =
    if k.use_lock then (do l ← release k.locked; ok (record k { locked = l })) else ok k

abbrev pub bad_page : ℕ → ℕ → Bool
bad_page end_addr v = not (v % page_size == 0) || ltb v end_addr || leb phys_top (v2p v)

unfoldable pub kfree : ℕ → Kmem → Outcome Kmem
kfree v k = if bad_page k.end_addr v then panic else do
  let k = record k { mem = memset k.mem v 1 page_size }
  k ← lock_if_used k
  unlock_if_used (record k { free = v ∷ k.free })

abbrev pop_page : List ℕ → Kmem → Option ℕ × Kmem
pop_page [] k = (none, k)
pop_page (r ∷ rest) k = (some r, record k { free = rest })

-- The address of a page, or `none` for the null pointer.
pub take_page : Kmem → Option ℕ × Kmem
take_page k = pop_page k.free k

unfoldable pub kalloc : Kmem → Outcome (Option ℕ × Kmem)
unfolding take_page
kalloc k = do k ← lock_if_used k; let (r, k) = take_page k; k ← unlock_if_used k; ok (r, k)

-- for (; p + PGSIZE <= vend; p += PGSIZE) kfree(p);
freerange_loop : ℕ → ℕ → ℕ → Kmem → Outcome Kmem
freerange_loop zero p vend k = out_of_fuel
freerange_loop (suc n) p vend k =
    let rest = (do k ← kfree p k; freerange_loop n (p + page_size) vend k) in
    if leb (p + page_size) vend then rest else ok k

unfoldable pub freerange : ℕ → ℕ → ℕ → Kmem → Outcome Kmem
unfolding freerange_loop
freerange fuel vstart vend k = freerange_loop fuel (pg_round_up vstart) vend k

unfoldable pub kinit1 : ℕ → ℕ → ℕ → Kmem → Outcome Kmem
kinit1 fuel vstart vend k =
    freerange fuel vstart vend (record k { locked = false; use_lock = false })

unfoldable pub kinit2 : ℕ → ℕ → ℕ → Kmem → Outcome Kmem
kinit2 fuel vstart vend k = do k ← freerange fuel vstart vend k; ok (record k { use_lock = true })
