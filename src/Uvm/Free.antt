-- ===== src/Uvm/Free.antt =====
-- freevm() of vm.c.
use shared_memory.Prelude.{
  ℕ, zero, suc, ◌+◌, ◌≡◌, refl, ap, ◌∙◌, false, Option, none, some, ◌∷◌, Outcome, ok, ◌>>=◌,
}
use shared_memory.Layout.{heap_limit, page_size, p2v, v2p}
use shared_memory.Kalloc.{Kmem, memset, kfree}
use shared_memory.Kalloc.Invariant.{IsPage, kfree_good, bad_page_of_IsPage}
use shared_memory.Vm.{PageTable, PageDir, Space, deallocuvm}
use shared_memory.Vm.Dealloc.{UserPages, TablePages, CanDealloc, deallocuvm_all}
use shared_memory.Uvm.{Directory, free_table, free_tables, freevm}

-- All pages of the directory are pages that kfree() accepts.
pub record HasPages (e : ℕ) (g : Directory) : Type 0 where
  pub self : IsPage e g.addr
  pub user : UserPages e g.dir
  pub tables : TablePages e g.dir

-- The lock of the allocator is free, and its pages start at `e`.
pub record IsOpen (e : ℕ) (m : Kmem) : Type 0 where
  pub unlocked : m.locked ≡ false
  pub same_end : m.end_addr ≡ e

pub kfree-IsOpen :
    (e v : ℕ) (m : Kmem) → IsOpen e m → IsPage e v → (m' : Kmem) × (kfree v m ≡ ok m') × IsOpen e m'
kfree-IsOpen e v m o p =
    let p' : IsPage m.end_addr v = rw (o.same_end) p in
    let m' : Kmem = record m { free = v ∷ m.free; mem = memset m.mem v 1 page_size } in
    (
      m',
      kfree_good v m o.unlocked (bad_page_of_IsPage p'),
      record { unlocked = o.unlocked; same_end = o.same_end },
    )

free_table-IsOpen :
    (e : ℕ) (o : Option PageTable) (m : Kmem)
    → IsOpen e m
    → ((t : PageTable) → o ≡ some t → IsPage e (p2v (v2p t.addr)))
    → (m' : Kmem) × (free_table o m ≡ ok m') × IsOpen e m'
free_table-IsOpen e none m i h = (m, refl, i)
free_table-IsOpen e (some t) m i h = kfree-IsOpen e (p2v (v2p t.addr)) m i (h t refl)

free_tables-IsOpen :
    (n i e : ℕ) (dir : PageDir) (m : Kmem)
    → IsOpen e m
    → TablePages e dir
    → (m' : Kmem) × (free_tables n i dir m ≡ ok m') × IsOpen e m'
unfolding free_tables
free_tables-IsOpen zero i e dir m o t = (m, refl, o)
free_tables-IsOpen (suc n) i e dir m o t =
    let (m1, run, o1) = free_table-IsOpen e (dir i) m o (t i) in
    let (m2, rest, o2) = free_tables-IsOpen n (i + 1) e dir m1 o1 t in (m2, rw run rest, o2)

freevm-run :
    (g : Directory) (m : Kmem) (s : Space) (m1 m2 : Kmem)
    → deallocuvm heap_limit 0 (record { dir = g.dir; kmem = m }) ≡ ok (0, s)
    → free_tables 1024 0 s.dir s.kmem ≡ ok m1
    → kfree g.addr m1 ≡ ok m2
    → freevm (some g) m ≡ ok m2
unfolding freevm
freevm-run g m s m1 m2 a b c =
    ap
      (λ (r : Outcome (ℕ × Space)). r >>= λ x. free_tables 1024 0 x.1.dir x.1.kmem >>= kfree g.addr)
      a
    ∙ ap (λ (r : Outcome Kmem). r >>= kfree g.addr) b
    ∙ c

-- freevm() of a directory with pages that kfree() accepts returns.
pub freevm-IsOpen :
    (e : ℕ) (g : Directory) (m : Kmem)
    → IsOpen e m
    → HasPages e g
    → (m' : Kmem) × (freevm (some g) m ≡ ok m') × IsOpen e m'
freevm-IsOpen e g m o h =
    let start : CanDealloc e (record { dir = g.dir; kmem = m }) = record {
      user = h.user;
      tables = h.tables;
      unlocked = o.unlocked;
      same_end = o.same_end;
    } in
    let (s, run, c) = deallocuvm_all e (record { dir = g.dir; kmem = m }) start in
    let (m1, tables, o1) =
      free_tables-IsOpen 1024 0 e s.dir s.kmem
        (record { unlocked = c.unlocked; same_end = c.same_end }) c.tables in
    let (m2, last, o2) = kfree-IsOpen e g.addr m1 o1 h.self in
    (m2, freevm-run g m s m1 m2 run tables last, o2)
