-- ===== src/Uvm.antt =====
-- vm.c: the address space of a process as a whole: how it is set up, grown, copied and freed.
pub mod Process
pub mod Grow
pub mod Free
use shared_memory.Prelude.{
  ℕ, zero, suc, ◌+◌, ◌-◌, ◌/◌, ◌%◌, Bool, true, false, not, ◌&&◌, Option, none, some, List, [], ◌∷◌,
  ltb, leb, if◌then◌else◌, in_range, pos, ◌<ℤ◌, Outcome, ok, panic, fault, out_of_fuel, ◌>>=◌,
}
use shared_memory.Layout.{word, page_size, kern_base, phys_top, heap_limit, v2p, p2v, pg_round_up}
use shared_memory.Kalloc.{Kmem, memset, kalloc, kfree}
use shared_memory.Vm.{
  Pte, Perm, PageTable, PageDir, Space, read_pte, walkpgdir, mappages, deallocuvm,
}

-- A `pde_t *`: the kernel address of the page, and what it holds.
pub record Directory : Type 0 where
  pub addr : ℕ
  pub dir : PageDir

-- memmove(d, s, n): the target gets the bytes that the source had before, also where they overlap.
abbrev pub memmove : (ℕ → ℕ) → ℕ → ℕ → ℕ → ℕ → ℕ
memmove m d s n x = if in_range d n x then m (s + (x - d)) else m x

abbrev pub ext_mem : ℕ
ext_mem = 0x100000

abbrev pub kern_link : ℕ
kern_link = kern_base + ext_mem

abbrev pub dev_space : ℕ
dev_space = 0xFE000000

-- An entry of the table `kmap`.
pub record Kmap : Type 0 where
  pub virt : ℕ
  pub phys_start : ℕ
  pub phys_end : ℕ
  pub perm : Perm

abbrev pub kernel_perm : Bool → Perm
kernel_perm w = record { write_ok = w; user_ok = false }

-- `kmap`, with the address of the linker's symbol `data`
abbrev pub kmap : ℕ → List Kmap
kmap data_addr =
    record { virt = kern_base; phys_start = 0; phys_end = ext_mem; perm = kernel_perm true }
    ∷ record {
      virt = kern_link;
      phys_start = v2p kern_link;
      phys_end = v2p data_addr;
      perm = kernel_perm false;
    }
    ∷ record {
      virt = data_addr;
      phys_start = v2p data_addr;
      phys_end = phys_top;
      perm = kernel_perm true;
    }
    ∷ record { virt = dev_space; phys_start = dev_space; phys_end = 0; perm = kernel_perm true }
    ∷ []

-- The loop of setupkvm(): whether all entries were mapped.
kvm_loop : List Kmap → Space → Outcome (Bool × Space)
kvm_loop [] s = ok (true, s)
kvm_loop (e ∷ rest) s = do
  (r, s) ← mappages e.virt ((e.phys_end + word - e.phys_start) % word) e.phys_start e.perm s
  let more = kvm_loop rest s
  if r <ℤ pos 0 then ok (false, s) else more

-- kfree() of the page table behind a present entry
abbrev free_table : Option PageTable → Kmem → Outcome Kmem
free_table none m = ok m
free_table (some t) m = kfree (p2v (v2p t.addr)) m

-- for (i = 0; i < NPDENTRIES; i++), with `n` entries from `i` on to go
free_tables : ℕ → ℕ → PageDir → Kmem → Outcome Kmem
free_tables zero i dir m = ok m
free_tables (suc n) i dir m = do m ← free_table (dir i) m; free_tables n (i + 1) dir m

-- freevm()
unfoldable pub freevm : Option Directory → Kmem → Outcome Kmem
unfolding free_tables
freevm none m = panic
freevm (some g) m = do
  (_, s) ← deallocuvm heap_limit 0 (record { dir = g.dir; kmem = m })
  m ← free_tables 1024 0 s.dir s.kmem
  kfree g.addr m

abbrev setup_dir : ℕ → Option ℕ × Kmem → Outcome (Option Directory × Kmem)
setup_dir data_addr (none, m) = ok (none, m)
setup_dir data_addr (some p, m) = if ltb dev_space (p2v phys_top) then panic else do
  (done, s) ←
      kvm_loop (kmap data_addr)
        (record { dir = λ d. none; kmem = record m { mem = memset m.mem p 0 page_size } })
  let g : Directory = record { addr = p; dir = s.dir }
  if done then ok (some g, s.kmem) else (do m ← freevm (some g) s.kmem; ok (none, m))

-- setupkvm()
unfoldable pub setupkvm : ℕ → Kmem → Outcome (Option Directory × Kmem)
unfolding kvm_loop
setupkvm data_addr m = do r ← kalloc m; setup_dir data_addr r

-- inituvm(): `init` is the kernel address of the code. kalloc() is not checked, so that without a
-- page the null pointer is cleared.
unfoldable pub inituvm : ℕ → ℕ → Space → Outcome Space
inituvm init sz s = if leb page_size sz then panic else do
  (r, m) ← kalloc s.kmem
  elim r [
    | none ↦ fault
    | some p ↦ do
      let m = record m { mem = memset m.mem p 0 page_size }
      (_, s) ←
          mappages 0 page_size (v2p p) (record { write_ok = true; user_ok = true })
            (record s { kmem = m })
      ok (record s { kmem = record (s.kmem) { mem = memmove s.kmem.mem p init sz } })
  ]

abbrev pub user_perm : Perm
user_perm = record { write_ok = true; user_ok = true }

-- The two error paths of allocuvm().
abbrev pub give_back : ℕ → ℕ → Space → Outcome (ℕ × Space)
give_back oldsz newsz s = do (_, s) ← deallocuvm newsz oldsz s; ok (0, s)

abbrev pub give_back_page : ℕ → ℕ → ℕ → Space → Outcome (ℕ × Space)
give_back_page p oldsz newsz s = do
  (_, s) ← deallocuvm newsz oldsz s
  m ← kfree p s.kmem
  ok (0, record s { kmem = m })

-- for (; a < newsz; a += PGSIZE)
pub grow_loop : ℕ → ℕ → ℕ → ℕ → Space → Outcome (ℕ × Space)
grow_loop zero a oldsz newsz s = out_of_fuel
grow_loop (suc n) a oldsz newsz s =
    let rest = (do
      (r, m) ← kalloc s.kmem
      let s = record s { kmem = m }
      elim r [
        | none ↦ give_back oldsz newsz s
        | some p ↦ do
          let m = record m { mem = memset m.mem p 0 page_size }
          (r, s) ← mappages a page_size (v2p p) user_perm (record s { kmem = m })
          elim (r <ℤ pos 0) [
            | true ↦ give_back_page p oldsz newsz s
            | false ↦ grow_loop n ((a + page_size) % word) oldsz newsz s
          ]
      ]) in
    if ltb a newsz then rest else ok (newsz, s)

-- allocuvm(): each round moves on by a page.
unfoldable pub allocuvm : ℕ → ℕ → Space → Outcome (ℕ × Space)
allocuvm oldsz newsz s =
    if leb heap_limit newsz
    then ok (0, s)
    else if ltb newsz oldsz
    then ok (oldsz, s)
    else grow_loop (newsz / page_size + 2) (pg_round_up oldsz) oldsz newsz s

-- PTE_FLAGS(*pte), as the permissions that mappages() takes
abbrev pub flags_of : Pte → Perm
flags_of e = record { write_ok = e.writable; user_ok = e.user }

-- The two ways to `bad` in copyuvm().
abbrev pub no_page : Kmem → Space → Outcome (Bool × Space)
no_page m d = ok (false, record d { kmem = m })

abbrev pub uncopied : ℕ → Space → Outcome (Bool × Space)
uncopied p d = do m ← kfree p d.kmem; ok (false, record d { kmem = m })

-- for (i = 0; i < sz; i += PGSIZE), from the directory `src` to the space `d`: whether all pages
-- were copied.
pub copy_loop : ℕ → ℕ → ℕ → PageDir → Space → Outcome (Bool × Space)
copy_loop zero i sz src d = out_of_fuel
copy_loop (suc n) i sz src d =
    let rest = (do
      (found, _) ← walkpgdir i false (record { dir = src; kmem = d.kmem })
      let pte = read_pte src i
      elim (found && pte.present) [
        | false ↦ panic
        | true ↦ do
          (r, m) ← kalloc d.kmem
          elim r [
            | none ↦ no_page m d
            | some p ↦ do
              let m = record m { mem = memmove m.mem p (p2v pte.frame) page_size }
              (r, d) ← mappages i page_size (v2p p) (flags_of pte) (record d { kmem = m })
              elim (r <ℤ pos 0) [
                | true ↦ uncopied p d
                | false ↦ copy_loop n ((i + page_size) % word) sz src d
              ]
          ]
      ]) in
    if ltb i sz then rest else ok (true, d)

abbrev copy_into : ℕ → PageDir → Option Directory × Kmem → Outcome (Option Directory × Kmem)
copy_into sz src (none, m) = ok (none, m)
copy_into sz src (some g, m) = do
  (done, d) ← copy_loop (sz / page_size + 2) 0 sz src (record { dir = g.dir; kmem = m })
  let g = record g { dir = d.dir }
  if done then ok (some g, d.kmem) else (do m ← freevm (some g) d.kmem; ok (none, m))

-- copyuvm(pgdir, sz)
unfoldable pub copyuvm : ℕ → PageDir → ℕ → Kmem → Outcome (Option Directory × Kmem)
copyuvm data_addr src sz m = do r ← setupkvm data_addr m; copy_into sz src r

-- uva2ka(): the kernel address, or `none` for the null pointer. Where there is no page table it
-- reads through the null pointer that walkpgdir() returns.
unfoldable pub uva2ka : PageDir → ℕ → Kmem → Outcome (Option ℕ)
uva2ka dir uva m = do
  (found, _) ← walkpgdir uva false (record { dir = dir; kmem = m })
  let pte = read_pte dir uva
  if not found
      then fault
      else if pte.present && pte.user
      then ok (some (p2v pte.frame))
      else ok none
