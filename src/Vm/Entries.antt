-- ===== src/Vm/Entries.antt =====
-- Page table entries of vm.c: what a read gives after a write, and what walkpgdir() leaves alone.
use shared_memory.Prelude.{
  ℕ, ◌%◌, ◌<◌, ◌≡◌, ◌≢◌, ◌⊎◌, ◌↔◌, refl, ap, length, ◌+◌, ◌≤◌, Bool, true, false, Option, none,
  some, arith, [], ok,
}
use shared_memory.Layout.{word, page_size, pdx}
use shared_memory.Layout.Rounding.{page_injective}
use shared_memory.Kalloc.{Kmem, kalloc}
use shared_memory.Kalloc.Invariant.{IsValid, kalloc_total, Taken}
use shared_memory.Vm.{Pte, PageTable, PageDir, Space, read_pte, write_pte, walkpgdir, install_table}

-- A page-aligned address of the 32-bit space.
pub record IsPageAddr (va : ℕ) : Type 0 where
  pub small : va < word
  pub aligned : va % page_size ≡ 0

-- A write to the entry of `va` is read back, if the page table of `va` is there.
pub read_pte-write_pte_self :
    (dir : PageDir) (va : ℕ) (e : Pte) → dir (pdx va) ≢ none → read_pte (write_pte dir va e) va ≡ e
unfolding read_pte write_pte
read_pte-write_pte_self dir va e h = ground arith

-- It changes no entry of another page.
pub read_pte-write_pte_ne :
    (dir : PageDir) (va b : ℕ) (e : Pte)
    → IsPageAddr va
    → IsPageAddr b
    → va ≢ b
    → read_pte (write_pte dir va e) b ≡ read_pte dir b
unfolding read_pte write_pte
read_pte-write_pte_ne dir va b e p q ne =
    ground (arith, page_injective va b p.small q.small p.aligned q.aligned)

-- What walkpgdir() with a nonzero `alloc` leaves behind: every entry reads as before, an entry for
-- `va` is there if it is found, and it is not found only when a table was missing and no page free.
pub record Walked (s : Space) (va : ℕ) (found : Bool) (s' : Space) : Type 0 where
  pub valid : IsValid s'.kmem
  pub reads : (b : ℕ) → read_pte s'.dir b ≡ read_pte s.dir b
  pub there : found ≡ true → s'.dir (pdx va) ≢ none
  pub missing : found ≡ false → (s.dir (pdx va) ≡ none) × (s.kmem.free ≡ [])
  pub same_end : s'.kmem.end_addr ≡ s.kmem.end_addr
  pub cost : length s.kmem.free ≤ length s'.kmem.free + 1

abbrev AfterWalk : Space → ℕ → Type 0
AfterWalk s va =
    (found : Bool) × (s' : Space) × (walkpgdir va true s ≡ ok (found, s')) × Walked s va found s'

walk_installed :
    (s : Space) (va : ℕ) (r : Option ℕ) (k : Kmem)
    → s.dir (pdx va) ≡ none
    → kalloc s.kmem ≡ ok (r, k)
    → IsValid k
    → Taken s.kmem r k
    → ((r ≡ none) ↔ (s.kmem.free ≡ []))
    → AfterWalk s va
unfolding walkpgdir read_pte
walk_installed s va none k e run v t z = (
  false,
  record s { kmem = k },
  rw (e, run) refl,
  record {
    valid = v;
    reads = λ b. refl;
    there = λ p. cc;
    missing = λ p. (e, z.0 refl);
    same_end = ap (λ (k : Kmem). k.end_addr) t;
    cost = omega (arith, ap (λ (k : Kmem). length k.free) t);
  },
)
walk_installed s va (some p) k e run v t z = (
  true,
  (install_table (pdx va) (some p) (record s { kmem = k })).1,
  rw (e, run) refl,
  record {
    valid = record { pages = v.pages; distinct = v.distinct; unlocked = v.unlocked };
    reads = λ b. ground arith;
    there = λ q. ground arith;
    missing = λ q. cc;
    same_end = t.4;
    cost = omega (arith, ap (length {A = ℕ}) t.1);
  },
)

pub walkpgdir_total : (s : Space) (va : ℕ) → IsValid s.kmem → AfterWalk s va
unfolding walkpgdir
walkpgdir_total s va v = go (s.dir (pdx va)) refl
  where
    go : (t : Option PageTable) → s.dir (pdx va) ≡ t → AfterWalk s va
    go none e =
        let (r, k, run, valid, taken, empty) = kalloc_total s.kmem v in
        walk_installed s va r k e run valid taken empty
    go (some t) e = (
      true,
      s,
      rw (e, walkpgdir) refl,
      record {
        valid = v;
        reads = λ b. refl;
        there = λ q r. cc;
        missing = λ q. cc;
        same_end = refl;
        cost = omega arith;
      },
    )

-- walkpgdir() with `alloc` zero changes nothing, and finds the entry of `va` exactly when the page
-- table of `va` is there.
pub walkpgdir-lookup :
    (s : Space) (va : ℕ)
    → ((s.dir (pdx va) ≡ none) × (walkpgdir va false s ≡ ok (false, s)))
      ⊎ ((s.dir (pdx va) ≢ none) × (walkpgdir va false s ≡ ok (true, s)))
unfolding walkpgdir
walkpgdir-lookup s va = ground arith
