-- ===== src/Vm/Mapping.antt =====
-- mappages() and clearmapping() of vm.c on one page.
use shared_memory.Prelude.{
  ℕ, ◌+◌, ◌-◌, ◌%◌, ◌≡◌, ◌≢◌, ◌⊎◌, inl, inr, refl, ap, length, ◌≤◌, ==-refl, ◌∙◌, Bool, true, false,
  none, [], arith, ℤ, pos, minus_one, ok, panic,
}
use shared_memory.Layout.{word, page_size, pdx, pg_round_down}
use shared_memory.Kalloc.Invariant.{IsValid, kalloc-nil}
use shared_memory.Vm.{
  PageDir, Pte, Perm, Space, read_pte, write_pte, pte_of, walkpgdir, map_loop, mappages,
  clearmapping,
}
use shared_memory.Vm.Entries.{
  IsPageAddr, read_pte-write_pte_self, read_pte-write_pte_ne, Walked, walkpgdir_total,
  walkpgdir-lookup,
}

-- What mappages() of one page leaves behind. On success the entry of `va` is the new one and no
-- other page's entry differs; on failure no entry differs, and no page was free.
pub record Mapped (s : Space) (va pa : ℕ) (perm : Perm) (r : ℤ) (s' : Space) : Type 0 where
  pub valid : IsValid s'.kmem
  pub result : (r ≡ pos 0) ⊎ (r ≡ minus_one)
  pub entry : r ≡ pos 0 → read_pte s'.dir va ≡ pte_of pa perm
  pub others : (b : ℕ) → IsPageAddr b → va ≢ b → read_pte s'.dir b ≡ read_pte s.dir b
  pub failed : r ≡ minus_one → (read_pte s'.dir va ≡ read_pte s.dir va) × (s.kmem.free ≡ [])
  pub same_end : s'.kmem.end_addr ≡ s.kmem.end_addr
  pub cost : length s.kmem.free ≤ length s'.kmem.free + 1

mappages_start :
    (va pa : ℕ) (perm : Perm) (s : Space)
    → IsPageAddr va
    → mappages va page_size pa perm s ≡ map_loop 3 va va pa perm s
unfolding mappages pg_round_down
mappages_start va pa perm s a =
    let first : va - va % page_size ≡ va = omega (arith, a.aligned) in
    let end : (va + page_size + word - 1) % word - (va + page_size + word - 1) % word % page_size
        ≡ va =
      omega (arith, a.aligned, a.small) in
    rw (first, end) refl

Mapped-after :
    (va pa : ℕ) (perm : Perm) (s : Space) (found : Bool) (s1 : Space)
    → IsPageAddr va
    → (read_pte s.dir va).present ≡ false
    → walkpgdir va true s ≡ ok (found, s1)
    → Walked s va found s1
    → (r : ℤ) × (s' : Space) × (mappages va page_size pa perm s ≡ ok (r, s'))
      × Mapped s va pa perm r s'
unfolding map_loop
Mapped-after va pa perm s false s1 a absent run w = (
  minus_one,
  s1,
  mappages_start va pa perm s a ∙ rw run refl,
  record {
    valid = w.valid;
    result = inr refl;
    entry = λ e. cc;
    others = λ b p ne. w.reads b;
    failed = λ e. (w.reads va, (w.missing refl).1);
    same_end = w.same_end;
    cost = w.cost;
  },
)
Mapped-after va pa perm s true s1 a absent run w = (
  pos 0,
  record s1 { dir = write_pte s1.dir va (pte_of pa perm) },
  mappages_start va pa perm s a
      ∙ rw run (rw (ap (λ (p : Pte). p.present) (w.reads va) ∙ absent, ==-refl va) refl),
  record {
    valid = w.valid;
    result = inl refl;
    entry = λ e. read_pte-write_pte_self s1.dir va (pte_of pa perm) (w.there refl);
    others = λ b p ne. read_pte-write_pte_ne s1.dir va b (pte_of pa perm) a p ne ∙ w.reads b;
    failed = λ e. cc;
    same_end = w.same_end;
    cost = w.cost;
  },
)

-- mappages() of one page at an aligned address whose entry is not present always returns: 0 after
-- it has written that entry and no other, or -1 after it has changed no entry, and then only when a
-- page table was needed and no page was free.
pub mappages_page :
    (va pa : ℕ) (perm : Perm) (s : Space)
    → IsPageAddr va
    → IsValid s.kmem
    → (read_pte s.dir va).present ≡ false
    → (r : ℤ) × (s' : Space) × (mappages va page_size pa perm s ≡ ok (r, s'))
      × Mapped s va pa perm r s'
mappages_page va pa perm s a v absent =
    let (found, s1, run, w) = walkpgdir_total s va v in
    Mapped-after va pa perm s found s1 a absent run w

-- clearmapping() at an aligned address panics when the page table of the address is missing. Else
-- it clears the present flag of that entry, keeps the frame and the other flags, and changes the
-- entry of no other page.
pub clearmapping_lem :
    (va : ℕ) (s : Space)
    → IsPageAddr va
    → ((s.dir (pdx va) ≡ none) × (clearmapping va s ≡ panic))
      ⊎ ((s' : Space) × (clearmapping va s ≡ ok s')
          × (read_pte s'.dir va ≡ record (read_pte s.dir va) { present = false })
          × ((b : ℕ) → IsPageAddr b → va ≢ b → read_pte s'.dir b ≡ read_pte s.dir b)
          × (s'.kmem ≡ s.kmem))
unfolding clearmapping
clearmapping_lem va s a = elim (walkpgdir-lookup s va) [
  | inl (e, run) ↦ inl (e, rw run refl)
  | inr (e, run) ↦ inr (
    record s { dir = write_pte s.dir va (record (read_pte s.dir va) { present = false }) },
    rw run refl,
    read_pte-write_pte_self s.dir va _ e,
    (λ b p ne. read_pte-write_pte_ne s.dir va b _ a p ne),
    refl,
  )
]

-- mappages() of one page where the page table is missing and no page is free returns -1 and changes
-- nothing.
pub mappages_out_of_memory :
    (va pa : ℕ) (perm : Perm) (s : Space)
    → IsPageAddr va
    → s.kmem.locked ≡ false
    → s.dir (pdx va) ≡ none
    → s.kmem.free ≡ []
    → mappages va page_size pa perm s ≡ ok (minus_one, s)
unfolding map_loop walkpgdir
mappages_out_of_memory va pa perm s a u e f =
    mappages_start va pa perm s a ∙ rw (e, kalloc-nil s.kmem u f) refl

-- The directory after clearmapping() of a page whose page table is there.
abbrev pub without_page : PageDir → ℕ → PageDir
without_page dir va = write_pte dir va (record (read_pte dir va) { present = false })

pub clearmapping_ok :
    (va : ℕ) (s : Space)
    → s.dir (pdx va) ≢ none
    → clearmapping va s ≡ ok (record s { dir = without_page s.dir va })
unfolding clearmapping
clearmapping_ok va s there = elim (walkpgdir-lookup s va) [
  | inl (e, run) ↦ absurd (there e)
  | inr (e, run) ↦ rw run refl
]

-- A write to an entry keeps all page tables.
pub write_pte-there :
    (dir : PageDir) (va b : ℕ) (e : Pte) → dir (pdx b) ≢ none → write_pte dir va e (pdx b) ≢ none
unfolding write_pte
write_pte-there dir va b e there = ground arith
