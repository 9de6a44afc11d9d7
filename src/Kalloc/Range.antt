-- ===== src/Kalloc/Range.antt =====
-- freerange() of kalloc.c, which fills the free list when the kernel starts.
use shared_memory.Prelude.{
  ℕ, zero, suc, ◌+◌, ◌-◌, ◌*◌, ◌/◌, ◌%◌, ◌≤◌, ◌<◌, ◌≡◌, refl, ap, sym, ◌∙◌, false, List, [], ◌∷◌,
  arith, leb, has, All, length, ok, inl, inr, Bool-cases,
}
use shared_memory.Layout.{word, page_size, kern_base, phys_top, v2p, pg_round_up}
use shared_memory.Layout.Rounding.{pg_round_up_lem}
use shared_memory.Kalloc.{Kmem, freerange_loop, freerange, memset}
use shared_memory.Kalloc.Invariant.{IsPage, IsValid, kfree_good, bad_page_of_IsPage}

-- Every page of the list starts below `p`.
abbrev pub Below : ℕ → List ℕ → Type 0
Below p l = All (λ v. v < p) l

Below-mono : (p q : ℕ) (l : List ℕ) → p ≤ q → Below p l → Below q l
Below-mono p q [] h b = tt
Below-mono p q (v ∷ l) h b = (omega arith, Below-mono p q l h b.1)

not_has_of_Below : (p v : ℕ) (l : List ℕ) → p ≤ v → Below p l → has v l ≡ false
not_has_of_Below p v [] h b = refl
not_has_of_Below p v (x ∷ l) h b = ground (arith, not_has_of_Below p v l h (b.1))

-- An aligned address from the kernel's end up to the top of physical memory is a page.
IsPage_between :
    (e p : ℕ)
    → p % page_size ≡ 0
    → e ≤ p
    → kern_base ≤ p
    → p + page_size ≤ kern_base + phys_top
    → IsPage e p
unfolding v2p
IsPage_between e p a h b t = omega arith

-- The `n` pages from `p` on, the highest first, before the list
abbrev pub pages_from : ℕ → ℕ → List ℕ → List ℕ
pages_from zero p l = l
pages_from (suc n) p l = pages_from n (p + page_size) (p ∷ l)

-- What a call of freerange() over the pages from `p` to `vend` leaves behind.
pub record Freed (k : Kmem) (p vend : ℕ) (k' : Kmem) : Type 0 where
  pub valid : IsValid k'
  pub free : k'.free ≡ pages_from ((vend - p) / page_size) p k.free
  pub count : length k'.free ≡ length k.free + (vend - p) / page_size
  pub same_end : k'.end_addr ≡ k.end_addr
  pub same_use : k'.use_lock ≡ k.use_lock

one_more :
    (p vend : ℕ)
    → p + page_size ≤ vend
    → (vend - p) / page_size ≡ suc ((vend - (p + page_size)) / page_size)
one_more p vend h = omega arith

none_left : (p vend : ℕ) → vend < p + page_size → (vend - p) / page_size ≡ 0
none_left p vend h = omega arith

freerange_loop_lem :
    (n p vend : ℕ) (k : Kmem)
    → 0 < n
    → vend < p + n * page_size
    → p % page_size ≡ 0
    → k.end_addr ≤ p
    → kern_base ≤ p
    → vend ≤ kern_base + phys_top
    → IsValid k
    → Below p k.free
    → (k' : Kmem) × (freerange_loop n p vend k ≡ ok k') × Freed k p vend k'
unfolding freerange_loop
freerange_loop_lem zero p vend k z f a e b t i l = absurd (omega arith)
freerange_loop_lem (suc n) p vend k z f a e b t i l = elim (Bool-cases (leb (p + page_size) vend)) [
  | inl more ↦
      let fits : p + page_size ≤ vend = ground arith in
      let page = IsPage_between k.end_addr p a e b (omega arith) in
      let fresh = not_has_of_Below p p k.free (omega arith) l in
      let next : Kmem = record k { free = p ∷ k.free; mem = memset k.mem p 1 page_size } in
      let (k', run, done) =
        freerange_loop_lem n (p + page_size) vend next (omega arith) (omega arith) (omega arith)
          (omega arith) (omega arith) t
          (record {
            pages = (page, i.pages);
            distinct = (fresh, i.distinct);
            unlocked = i.unlocked;
          })
          (omega arith, Below-mono p (p + page_size) k.free (omega arith) l) in
      (
        k',
        rw (more, kfree_good p k i.unlocked (bad_page_of_IsPage page)) run,
        record {
          valid = done.valid;
          free = done.free ∙ ap (λ (c : ℕ). pages_from c p k.free) (sym (one_more p vend fits));
          count = omega (arith, done.count);
          same_end = done.same_end;
          same_use = done.same_use;
        },
      )
  | inr done ↦ (
    k,
    rw done,
    record {
      valid = i;
      free = ap (λ (c : ℕ). pages_from c p k.free) (sym (none_left p vend (ground arith)));
      count = ground arith;
      same_end = refl;
      same_use = refl;
    },
  )
]

-- freerange() of a range of physical memory above the kernel, on an allocator that is well formed
-- and whose free pages all lie below the range, does not panic and ends within the fuel. It puts
-- the whole pages between the rounded start and `vend` before the free pages that were there, each
-- once and the highest first, and keeps the allocator well formed.
pub freerange_total :
    (n vstart vend : ℕ) (k : Kmem)
    → vstart + page_size ≤ word
    → k.end_addr ≤ vstart
    → kern_base ≤ vstart
    → vend ≤ kern_base + phys_top
    → vend / page_size < n
    → IsValid k
    → Below vstart k.free
    → (k' : Kmem) × (freerange n vstart vend k ≡ ok k') × Freed k (pg_round_up vstart) vend k'
unfolding freerange
freerange_total n vstart vend k w e b t f i l =
    let round = (pg_round_up_lem vstart (omega arith)).0 w in
    freerange_loop_lem n (pg_round_up vstart) vend k (omega arith) (omega arith) (round.0)
      (omega arith) (omega arith) t i (Below-mono vstart (pg_round_up vstart) k.free (round.1) l)
