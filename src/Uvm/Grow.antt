-- ===== src/Uvm/Grow.antt =====
-- allocuvm(): the pages that a process gains.
use shared_memory.Prelude.{
  ℕ, zero, suc, ◌+◌, ◌-◌, ◌*◌, ◌/◌, ◌%◌, ◌≤◌, ◌<◌, ◌≡◌, ◌≢◌, ◌⊎◌, ◌↔◌, inl, inr, refl, ap, ◌∙◌,
  false, Option, none, some, [], arith, length, lt→ltb, le→ltb, leb, pos, ok,
}
use native.Mathlib.Decide.{dec_lt}
use shared_memory.Layout.{word, page_size, heap_limit, v2p, pg_round_up}
use shared_memory.Layout.Rounding.{pg_round_up_lem}
use shared_memory.Kalloc.{Kmem, memset, kalloc}
use shared_memory.Kalloc.Invariant.{IsPage, IsValid, Taken, kalloc_total}
use shared_memory.Vm.{Pte, Space, pte_of, read_pte, mappages}
use shared_memory.Vm.Entries.{IsPageAddr}
use shared_memory.Vm.Mapping.{mappages_page}
use shared_memory.Uvm.{user_perm, grow_loop, allocuvm}

-- The entry maps an allocatable page, writable for the user.
abbrev pub GivenPage : ℕ → Pte → Type 0
GivenPage e pte = (p : ℕ) × IsPage e p × (pte ≡ pte_of (v2p p) user_perm)

-- What growing from the page `a` to the size `newsz` leaves behind.
pub record Grown (a newsz : ℕ) (s s' : Space) : Type 0 where
  pub valid : IsValid s'.kmem
  pub same_end : s'.kmem.end_addr ≡ s.kmem.end_addr
  pub given :
      (b : ℕ) → IsPageAddr b → a ≤ b → b < newsz → GivenPage s.kmem.end_addr (read_pte s'.dir b)
  pub others : (b : ℕ) → IsPageAddr b → (b < a) ⊎ (newsz ≤ b) → read_pte s'.dir b ≡ read_pte s.dir b

-- One page: it is taken, cleared and mapped, if two pages are free.
pub record Added (a p : ℕ) (s m1 s' : Space) : Type 0 where
  pub page : IsPage s.kmem.end_addr p
  pub took : kalloc s.kmem ≡ ok (some p, m1.kmem)
  pub mapped :
      mappages a page_size
        (v2p p)
        user_perm
        (record { dir = s.dir; kmem = record (m1.kmem) { mem = memset m1.kmem.mem p 0 page_size } })
      ≡ ok (pos 0, s')
  pub valid : IsValid s'.kmem
  pub same_end : s'.kmem.end_addr ≡ s.kmem.end_addr
  pub entry : read_pte s'.dir a ≡ pte_of (v2p p) user_perm
  pub others : (b : ℕ) → IsPageAddr b → a ≢ b → read_pte s'.dir b ≡ read_pte s.dir b
  pub cost : length s.kmem.free ≤ length s'.kmem.free + 2

add_page :
    (a : ℕ) (s : Space)
    → IsPageAddr a
    → IsValid s.kmem
    → 2 ≤ length s.kmem.free
    → (read_pte s.dir a).present ≡ false
    → (p : ℕ) × (m1 s' : Space) × Added a p s m1 s'
add_page a s addr v enough absent =
    let (r, m, run, valid, taken, empty) = kalloc_total s.kmem v in go r m run valid taken empty
  where
    go :
        (r : Option ℕ) (m : Kmem)
        → kalloc s.kmem ≡ ok (r, m)
        → IsValid m
        → Taken s.kmem r m
        → ((r ≡ none) ↔ (s.kmem.free ≡ []))
        → (p : ℕ) × (m1 s' : Space) × Added a p s m1 s'
    go none m run valid taken empty =
        absurd (omega (arith, ap (length {A = ℕ}) (empty.0 refl), enough))
    go (some p) m run valid taken empty =
        let m0 : Kmem = record m { mem = memset m.mem p 0 page_size } in
        let v0 : IsValid m0 = record {
          pages = valid.pages;
          distinct = valid.distinct;
          unlocked = valid.unlocked;
        } in
        let (r, s', done, w) =
          mappages_page a (v2p p) user_perm (record { dir = s.dir; kmem = m0 }) addr v0 absent in
        let count = ap (length {A = ℕ}) taken.1 in
        elim w.result [
          | inl z ↦ (
            p,
            record { dir = s.dir; kmem = m },
            s',
            record {
              page = taken.0;
              took = run;
              mapped = rw z at done;
              valid = w.valid;
              same_end = w.same_end ∙ taken.4;
              entry = w.entry z;
              others = w.others;
              cost = omega (arith, w.cost, count);
            },
          )
          | inr f ↦ absurd (omega (arith, ap (length {A = ℕ}) (w.failed f).1, count, enough))
        ]

-- One round of the loop that adds a page.
grow_round :
    (n a p oldsz newsz : ℕ) (s m1 s' : Space)
    → a < newsz
    → (a + page_size) % word ≡ a + page_size
    → Added a p s m1 s'
    → grow_loop (suc n) a oldsz newsz s ≡ grow_loop n (a + page_size) oldsz newsz s'
unfolding grow_loop
grow_round n a p oldsz newsz s m1 s' h e d = rw (lt→ltb a newsz h, d.took, d.mapped, e) refl

grow_end :
    (n a oldsz newsz : ℕ) (s : Space)
    → newsz ≤ a
    → grow_loop (suc n) a oldsz newsz s ≡ ok (newsz, s)
unfolding grow_loop
grow_end n a oldsz newsz s h = rw (le→ltb newsz a h) refl

next_page :
    (a : ℕ)
    → IsPageAddr a
    → a < heap_limit
    → ((a + page_size) % word ≡ a + page_size) × IsPageAddr (a + page_size)
next_page a p h =
    (omega (arith, p.aligned), record { small = omega arith; aligned = omega (arith, p.aligned) })

Grown-first :
    (a newsz p : ℕ) (s m1 s1 s' : Space)
    → IsPageAddr a
    → a < newsz
    → Added a p s m1 s1
    → Grown (a + page_size) newsz s1 s'
    → Grown a newsz s s'
Grown-first a newsz p s m1 s1 s' addr h d g = record {
  valid = g.valid;
  same_end = g.same_end ∙ d.same_end;
  given = λ b pb lo hi. elim (dec_lt a b) [
    | yes q ↦
        let (page, is, e) = g.given b pb (omega (arith, addr.aligned, pb.aligned)) hi in
        (page, rw d.same_end at is, e)
    | no q ↦
        let e : b ≡ a = omega arith in
        (p, d.page, rw e (g.others a addr (inl (omega arith)) ∙ d.entry))
  ];
  others = λ b pb o. g.others b pb (outside b o) ∙ d.others b pb (apart b o);
}
  where
    outside : (b : ℕ) → (b < a) ⊎ (newsz ≤ b) → (b < a + page_size) ⊎ (newsz ≤ b)
    outside b (inl x) = inl (omega arith)
    outside b (inr x) = inr x

    apart : (b : ℕ) → (b < a) ⊎ (newsz ≤ b) → a ≢ b
    apart b (inl x) e = omega arith
    apart b (inr x) e = omega arith

grow_loop_lem :
    (k n a oldsz newsz : ℕ) (s : Space)
    → k < n
    → IsPageAddr a
    → IsValid s.kmem
    → newsz < heap_limit
    → newsz ≤ a + k * page_size
    → 2 * k ≤ length s.kmem.free
    → ((b : ℕ) → IsPageAddr b → a ≤ b → b < newsz → (read_pte s.dir b).present ≡ false)
    → (s' : Space) × (grow_loop n a oldsz newsz s ≡ ok (newsz, s')) × Grown a newsz s s'
grow_loop_lem k zero a oldsz newsz s f addr v below fits enough absent = absurd (omega arith)
grow_loop_lem k (suc n) a oldsz newsz s f addr v below fits enough absent = elim (dec_lt a newsz) [
  | no q ↦ (
    s,
    grow_end n a oldsz newsz s (omega arith),
    record {
      valid = v;
      same_end = refl;
      given = λ b pb lo hi. absurd (omega arith);
      others = λ b pb o. refl;
    },
  )
  | yes q ↦
      let (p, m1, s1, d) = add_page a s addr v (omega arith) (absent a addr (omega arith) q) in
      let (e, addr') = next_page a addr (omega arith) in
      let (s', run, g) =
        grow_loop_lem (k - 1) n (a + page_size) oldsz newsz s1 (omega arith) addr' d.valid below
          (omega arith) (omega (arith, d.cost))
          (λ b pb lo hi.
            ap (λ (x : Pte). x.present) (d.others b pb (λ z. omega arith))
            ∙ absent b pb (omega arith) hi) in
      (
        s',
        grow_round n a p oldsz newsz s m1 s1 q e d ∙ run,
        Grown-first a newsz p s m1 s1 s' addr q d g,
      )
]

-- the pages that lie between the two sizes
abbrev pub new_pages : ℕ → ℕ → ℕ
new_pages oldsz newsz = (newsz + 4095 - pg_round_up oldsz) / page_size

-- allocuvm() to a size that is not smaller and below HEAPLIMIT, with a well-formed allocator, two
-- free pages for each new page (it may need a page table), and no entry of the new pages present:
-- it returns the new size. Each page from the rounded old size on is mapped to an allocatable page,
-- writable for the user; the entry of every other page is as before.
pub allocuvm_lem :
    (oldsz newsz : ℕ) (s : Space)
    → oldsz ≤ newsz
    → newsz < heap_limit
    → IsValid s.kmem
    → 2 * new_pages oldsz newsz ≤ length s.kmem.free
    → ((b : ℕ) → IsPageAddr b → oldsz ≤ b → b < newsz → (read_pte s.dir b).present ≡ false)
    → (s' : Space) × (allocuvm oldsz newsz s ≡ ok (newsz, s'))
      × Grown (pg_round_up oldsz) newsz s s'
unfolding allocuvm
allocuvm_lem oldsz newsz s h below v enough absent =
    let (aligned, up, near) = (pg_round_up_lem oldsz (omega arith)).0 (omega arith) in
    let (s', run, g) =
      grow_loop_lem (new_pages oldsz newsz) (newsz / page_size + 2) (pg_round_up oldsz) oldsz newsz
        s (few (pg_round_up oldsz) newsz) (record { small = omega arith; aligned = aligned }) v
        below (reach (pg_round_up oldsz) newsz) enough
        (λ b pb lo hi. absent b pb (omega arith) hi) in
    (s', rw (below_limit newsz below, le→ltb oldsz newsz h) run, g)
  where
    few : (a n : ℕ) → (n + 4095 - a) / page_size < n / page_size + 2
    few a n = omega arith

    reach : (a n : ℕ) → n ≤ a + (n + 4095 - a) / page_size * page_size
    reach a n = omega arith

    below_limit : (n : ℕ) → n < heap_limit → leb heap_limit n ≡ false
    below_limit n h = ground arith
