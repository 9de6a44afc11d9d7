-- ===== src/Vm.antt =====
-- vm.c: page directories, and the functions that walk, extend and clear them.
pub mod Entries
pub mod Mapping
pub mod Dealloc
use shared_memory.Prelude.{
  ℕ, zero, suc, ◌+◌, ◌-◌, ◌/◌, ◌%◌, Bool, true, false, not, Option, none, some, ltb, leb, ◌==◌,
  if◌then◌else◌, write, ℤ, pos, minus_one, Outcome, ok, panic, out_of_fuel, ◌>>=◌,
}
use shared_memory.Layout.{word, page_size, p2v, pg_round_down, pg_round_up, pdx, ptx, pg_addr}
use shared_memory.Kalloc.{Kmem, memset, kalloc, kfree}

-- A page table entry: the physical address of a page, and the flags PTE_P, PTE_W and PTE_U.
pub record Pte : Type 0 where
  pub frame : ℕ
  pub present : Bool
  pub writable : Bool
  pub user : Bool

-- `*pte = 0`
abbrev pub zero_pte : Pte
zero_pte = record { frame = 0; present = false; writable = false; user = false }

-- The permissions that a caller passes, PTE_W and PTE_U.
pub record Perm : Type 0 where
  pub write_ok : Bool
  pub user_ok : Bool

-- `pa | perm | PTE_P`, for a page-aligned `pa`
abbrev pub pte_of : ℕ → Perm → Pte
pte_of pa perm = record {
  frame = pa;
  present = true;
  writable = perm.write_ok;
  user = perm.user_ok;
}

-- A page table: the kernel address of the page that holds it, and its entries.
pub record PageTable : Type 0 where
  pub addr : ℕ
  pub entries : ℕ → Pte

-- A page directory: the table behind each present entry.
abbrev pub PageDir : Type 0
PageDir = ℕ → Option PageTable

-- A page directory beside the allocator that its tables come from.
pub record Space : Type 0 where
  pub dir : PageDir
  pub kmem : Kmem

abbrev pub entry_of : Option PageTable → ℕ → Pte
entry_of none i = zero_pte
entry_of (some t) i = t.entries i

-- `*pte` for the entry that walkpgdir() finds for `va`
unfoldable pub read_pte : PageDir → ℕ → Pte
read_pte dir va = entry_of (dir (pdx va)) (ptx va)

abbrev pub with_entry : Option PageTable → ℕ → Pte → Option PageTable
with_entry none i e = none
with_entry (some t) i e = some (record t { entries = write t.entries i e })

-- `*pte = e` for that entry
unfoldable pub write_pte : PageDir → ℕ → Pte → PageDir
write_pte dir va e = write dir (pdx va) (with_entry (dir (pdx va)) (ptx va) e)

-- The new page table of walkpgdir(), with all its entries zero.
abbrev pub install_table : ℕ → Option ℕ → Space → Bool × Space
install_table d none s = (false, s)
install_table d (some p) s = (
  true,
  record s {
    dir = write s.dir d (some (record { addr = p; entries = λ i. zero_pte }));
    kmem = record (s.kmem) { mem = memset s.kmem.mem p 0 page_size };
  },
)

abbrev walk_absent : ℕ → Bool → Space → Outcome (Bool × Space)
walk_absent d false s = ok (false, s)
walk_absent d true s = do
  (r, kmem) ← kalloc s.kmem
  ok (install_table d r (record s { kmem = kmem }))

abbrev walk_entry : Option PageTable → ℕ → Bool → Space → Outcome (Bool × Space)
walk_entry (some t) d alloc s = ok (true, s)
walk_entry none d alloc s = walk_absent d alloc s

-- walkpgdir(): whether there is an entry for `va`. The pointer that it returns is the entry that
-- `read_pte` and `write_pte` use.
unfoldable pub walkpgdir : ℕ → Bool → Space → Outcome (Bool × Space)
walkpgdir va alloc s = walk_entry (s.dir (pdx va)) (pdx va) alloc s

map_loop : ℕ → ℕ → ℕ → ℕ → Perm → Space → Outcome (ℤ × Space)
map_loop zero a last pa perm s = out_of_fuel
map_loop (suc n) a last pa perm s = do
  (found, s) ← walkpgdir a true s
  let s' = record s { dir = write_pte s.dir a (pte_of pa perm) }
  let rest = map_loop n ((a + page_size) % word) last ((pa + page_size) % word) perm s'
  if not found
      then ok (minus_one, s)
      else if (read_pte s.dir a).present
      then panic
      else if a == last
      then ok (pos 0, s')
      else rest

-- The loop runs once for each page that the range touches.
unfoldable pub mappages : ℕ → ℕ → ℕ → Perm → Space → Outcome (ℤ × Space)
unfolding map_loop
mappages va size pa perm s =
    map_loop (size / page_size + 2) (pg_round_down va)
      (pg_round_down ((va + size + word - 1) % word)) pa perm s

-- clearmapping(): clears PTE_P, and panics where there is no entry.
unfoldable pub clearmapping : ℕ → Space → Outcome Space
clearmapping va s = do
  (found, s) ← walkpgdir va false s
  if found
      then ok
          (record s { dir = write_pte s.dir va (record (read_pte s.dir va) { present = false }) })
      else panic

-- clearpteu(): clears PTE_U, and panics where there is no entry.
unfoldable pub clearpteu : ℕ → Space → Outcome Space
clearpteu va s = do
  (found, s) ← walkpgdir va false s
  if found
      then ok (record s { dir = write_pte s.dir va (record (read_pte s.dir va) { user = false }) })
      else panic

-- One round of deallocuvm() at the address `a`: the next address, and the space.
dealloc_page : ℕ → Space → Outcome (ℕ × Space)
dealloc_page a s = do
  (found, s) ← walkpgdir a false s
  let pte = read_pte s.dir a
  let next = (a + page_size) % word
  if not found
      then ok ((pg_addr (pdx a + 1) 0 0 + word - page_size + page_size) % word, s)
      else if not pte.present
      then ok (next, s)
      else if pte.frame == 0
      then panic
      else do
        kmem ← kfree (p2v pte.frame) s.kmem
        ok (next, record s { kmem = kmem; dir = write_pte s.dir a zero_pte })

dealloc_loop : ℕ → ℕ → ℕ → Space → Outcome Space
dealloc_loop zero a oldsz s = out_of_fuel
dealloc_loop (suc n) a oldsz s =
    let rest = (do (a', s') ← dealloc_page a s; dealloc_loop n a' oldsz s') in
    if ltb a oldsz then rest else ok s

-- deallocuvm(): each round moves on by at least one page.
unfoldable pub deallocuvm : ℕ → ℕ → Space → Outcome (ℕ × Space)
unfolding dealloc_page dealloc_loop
deallocuvm oldsz newsz s =
    if leb oldsz newsz
    then ok (oldsz, s)
    else do s ← dealloc_loop (oldsz / page_size + 2) (pg_round_up newsz) oldsz s; ok (newsz, s)
