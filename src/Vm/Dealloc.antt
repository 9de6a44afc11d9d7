-- ===== src/Vm/Dealloc.antt =====
-- deallocuvm() of vm.c over all of the user part of a page directory.
use shared_memory.Prelude.{
  ℕ, zero, suc, ◌+◌, ◌-◌, ◌*◌, ◌/◌, ◌%◌, ◌^◌, ◌<◌, ◌≤◌, ◌≡◌, ◌≢◌, ◌⊎◌, inl, inr, refl, sym, ◌∙◌, ap,
  true, false, Option, none, some, ◌∷◌, arith, ◌==◌, ==-refl, ==-ne, lt→ltb, le→ltb, Bool-cases, ok,
}
use native.Mathlib.Decide.{dec_lt}
use shared_memory.Layout.{
  word, page_size, heap_limit, p2v, v2p, pdx, ptx, pg_addr, pg_round_up, pg_round_down,
}
use shared_memory.Kalloc.{Kmem, memset, kfree}
use shared_memory.Kalloc.Invariant.{IsPage, kfree_good, bad_page_of_IsPage}
use shared_memory.Vm.{
  Pte, zero_pte, PageTable, PageDir, Space, entry_of, with_entry, read_pte, write_pte, walkpgdir,
  dealloc_page, dealloc_loop, deallocuvm,
}

-- The present entries of the user part hold frames that kfree() accepts.
abbrev pub UserPages : ℕ → PageDir → Type 0
UserPages e dir =
    (d i : ℕ)
    → d * 2 ^ 22 + i * 2 ^ 12 < heap_limit
    → (entry_of (dir d) i).present ≡ true
    → ((entry_of (dir d) i).frame ≢ 0) × IsPage e (p2v (entry_of (dir d) i).frame)

-- The page tables lie in pages that kfree() accepts.
abbrev pub TablePages : ℕ → PageDir → Type 0
TablePages e dir = (d : ℕ) (t : PageTable) → dir d ≡ some t → IsPage e (p2v (v2p t.addr))

pub record CanDealloc (e : ℕ) (s : Space) : Type 0 where
  pub user : UserPages e s.dir
  pub tables : TablePages e s.dir
  pub unlocked : s.kmem.locked ≡ false
  pub same_end : s.kmem.end_addr ≡ e

with_entry-zero :
    (o : Option PageTable) (j i : ℕ)
    → (entry_of (with_entry o j zero_pte) i ≡ entry_of o i)
      ⊎ (entry_of (with_entry o j zero_pte) i ≡ zero_pte)
with_entry-zero none j i = inr refl
with_entry-zero (some t) j i = elim (Bool-cases (i == j)) [
  | inl e ↦ inr (rw e refl)
  | inr e ↦ inl (rw e refl)
]

-- An entry after another one, or it, is cleared
cleared-entry :
    (dir : PageDir) (a d i : ℕ)
    → (entry_of (write_pte dir a zero_pte d) i ≡ entry_of (dir d) i)
      ⊎ (entry_of (write_pte dir a zero_pte d) i ≡ zero_pte)
unfolding write_pte
cleared-entry dir a d i = elim (Bool-cases (d == pdx a)) [
  | inl e ↦
      (let q : d ≡ pdx a = ground arith in
        rw (q, ==-refl (pdx a)) (with_entry-zero (dir (pdx a)) (ptx a) i))
  | inr e ↦ inl (rw e refl)
]

UserPages-cleared :
    (e : ℕ) (dir : PageDir) (a : ℕ) → UserPages e dir → UserPages e (write_pte dir a zero_pte)
UserPages-cleared e dir a u d i low p = elim (cleared-entry dir a d i) [
  | inl same ↦ rw same (u d i low (rw same at p))
  | inr gone ↦ absurd (let z = (rw gone at p) in cc)
]

TablePages-cleared :
    (e : ℕ) (dir : PageDir) (a : ℕ) → TablePages e dir → TablePages e (write_pte dir a zero_pte)
unfolding write_pte
TablePages-cleared e dir a u d t h = elim (Bool-cases (d == pdx a)) [
  | inl q ↦ from (dir (pdx a)) refl (rw q at h)
  | inr q ↦ u d t (rw q at h)
]
  where
    from :
        (o : Option PageTable)
        → dir (pdx a) ≡ o
        → with_entry o (ptx a) zero_pte ≡ some t
        → IsPage e (p2v (v2p t.addr))
    from none g k = absurd (cc)
    from (some t0) g k =
        let same : t.addr ≡ t0.addr = ap addr_of (sym k) in rw same (u (pdx a) t0 g)
      where
        addr_of : Option PageTable → ℕ
        addr_of none = 0
        addr_of (some t) = t.addr

next_table :
    (a : ℕ)
    → a % page_size ≡ 0
    → a < heap_limit
    → (a + page_size ≤ (pg_addr (pdx a + 1) 0 0 + word - page_size + page_size) % word)
      × ((pg_addr (pdx a + 1) 0 0 + word - page_size + page_size) % word % page_size ≡ 0)
unfolding pg_addr pdx
next_table a al low = (omega arith, omega arith)

in_user : (a : ℕ) → a < heap_limit → pdx a * 2 ^ 22 + ptx a * 2 ^ 12 < heap_limit
unfolding pdx ptx
in_user a low = omega arith

absent_page :
    (a : ℕ) (s : Space)
    → walkpgdir a false s ≡ ok (true, s)
    → (read_pte s.dir a).present ≡ false
    → dealloc_page a s ≡ ok ((a + page_size) % word, s)
unfolding dealloc_page
absent_page a s found off = rw (found, off) refl

found_page :
    (a : ℕ) (s : Space) (f : ℕ) (m : Kmem)
    → walkpgdir a false s ≡ ok (true, s)
    → (read_pte s.dir a).present ≡ true
    → (read_pte s.dir a).frame ≡ f
    → f ≢ 0
    → kfree (p2v f) s.kmem ≡ ok m
    → dealloc_page a s
      ≡ ok ((a + page_size) % word, record s { dir = write_pte s.dir a zero_pte; kmem = m })
unfolding dealloc_page
found_page a s f m found on frame ne freed = rw (found, on, frame, ==-ne f 0 ne, freed) refl

dealloc_page_lem :
    (e a : ℕ) (s : Space)
    → a % page_size ≡ 0
    → a < heap_limit
    → CanDealloc e s
    → (a' : ℕ) × (s' : Space) × (dealloc_page a s ≡ ok (a', s'))
      × (a + page_size ≤ a')
      × (a' % page_size ≡ 0)
      × CanDealloc e s'
unfolding dealloc_page walkpgdir read_pte
dealloc_page_lem e a s al low c = from (s.dir (pdx a)) refl
  where
    from :
        (o : Option PageTable)
        → s.dir (pdx a) ≡ o
        → (a' : ℕ) × (s' : Space) × (dealloc_page a s ≡ ok (a', s'))
          × (a + page_size ≤ a')
          × (a' % page_size ≡ 0)
          × CanDealloc e s'
    from none g = (
      _,
      s,
      rw (dealloc_page, walkpgdir, g) refl,
      (next_table a al low).0,
      (next_table a al low).1,
      c,
    )
    from (some t) g = elim (Bool-cases (t.entries (ptx a)).present) [
      | inr off ↦
          let at : read_pte s.dir a ≡ t.entries (ptx a) = rw g refl in
          let found : walkpgdir a false s ≡ ok (true, s) = rw g refl in
          let ran = absent_page a s found (ap (λ (p : Pte). p.present) at ∙ off) in
          ((a + page_size) % word, s, ran, omega arith, omega arith, c)
      | inl on ↦
          let (some_frame, page) = (rw g at (c.user (pdx a) (ptx a) (in_user a low))) on in
          let f = (t.entries (ptx a)).frame in
          let m : Kmem = record (s.kmem) {
            free = p2v f ∷ s.kmem.free;
            mem = memset s.kmem.mem (p2v f) 1 page_size;
          } in
          let page' : IsPage s.kmem.end_addr (p2v f) = rw c.same_end page in
          let at : read_pte s.dir a ≡ t.entries (ptx a) = rw g refl in
          let found : walkpgdir a false s ≡ ok (true, s) = rw g refl in
          let ran =
            found_page a s f m found (ap (λ (p : Pte). p.present) at ∙ on)
              (ap (λ (p : Pte). p.frame) at) some_frame
              (kfree_good (p2v f) s.kmem c.unlocked (bad_page_of_IsPage page')) in
          let s' : Space = record s { dir = write_pte s.dir a zero_pte; kmem = m } in
          (
            (a + page_size) % word,
            s',
            ran,
            omega arith,
            omega arith,
            record {
              user = UserPages-cleared e s.dir a c.user;
              tables = TablePages-cleared e s.dir a c.tables;
              unlocked = c.unlocked;
              same_end = c.same_end;
            },
          )
    ]

dealloc_loop_lem :
    (n e a : ℕ) (s : Space)
    → 0 < n
    → heap_limit < a + n * page_size
    → a % page_size ≡ 0
    → CanDealloc e s
    → (s' : Space) × (dealloc_loop n a heap_limit s ≡ ok s') × CanDealloc e s'
unfolding dealloc_loop
dealloc_loop_lem zero e a s z far al c = absurd (omega arith)
dealloc_loop_lem (suc n) e a s z far al c = elim (dec_lt a heap_limit) [
  | yes low ↦
      let (a', s1, run, further, al', c1) = dealloc_page_lem e a s al low c in
      let (s2, rest, c2) = dealloc_loop_lem n e a' s1 (omega arith) (omega arith) al' c1 in
      (s2, rw (lt→ltb a heap_limit low, run) rest, c2)
  | no high ↦ (s, rw (le→ltb heap_limit a (omega arith)) refl, c)
]

-- deallocuvm() of the whole user part returns, whatever is mapped there.
pub deallocuvm_all :
    (e : ℕ) (s : Space)
    → CanDealloc e s
    → (s' : Space) × (deallocuvm heap_limit 0 s ≡ ok (0, s')) × CanDealloc e s'
unfolding deallocuvm pg_round_up pg_round_down
deallocuvm_all e s c =
    let (s', run, c') =
      dealloc_loop_lem (heap_limit / page_size + 2) e 0 s (omega arith) (omega arith) refl c in
    (s', rw run refl, c')
