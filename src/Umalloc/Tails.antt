-- ===== src/Umalloc/Tails.antt =====
-- malloc() and free() of umalloc.c: a block cut from the end of a larger one, and given back.
use shared_memory.Prelude.{
  ℕ, suc, ◌+◌, ◌-◌, ◌*◌, ◌%◌, ◌<◌, ◌≤◌, ◌≡◌, ◌≢◌, ◌⊎◌, inl, inr, refl, ◌∙◌, ap, sym, Bool-cases,
  true, false, ◌&&◌, ◌||◌, Option, some, arith, leb, ltb, ◌==◌, ==-refl, ==-ne, write, ok,
}
use shared_memory.Layout.{word}
use shared_memory.Umalloc.{
  Heap, header_size, after, is_between, is_at_end, find_place, insert_block, free_block, units_for,
  malloc, malloc_loop, set_units,
}

-- The heap after the last `n` units of the block `p` are cut off
abbrev cut : ℕ → ℕ → ℕ → Heap → Heap
cut prevp p n h = record (set_units (after p (h.units p - n)) n (set_units p (h.units p - n) h)) {
  freep = some prevp;
}

malloc-cut :
    (fuel : ℕ) (sbrk : ℕ → Option ℕ) (nbytes prevp p : ℕ) (h : Heap)
    → h.freep ≡ some prevp
    → h.next prevp ≡ p
    → units_for nbytes < h.units p
    → malloc (suc fuel) sbrk nbytes h
      ≡ ok (
        some (after (after p (h.units p - units_for nbytes)) 1),
        cut prevp p (units_for nbytes) h,
      )
unfolding malloc malloc_loop
malloc-cut fuel sbrk nbytes prevp p h start next large =
    let e1 : leb (units_for nbytes) (h.units p) ≡ true = ground arith in
    let e2 : (h.units p == units_for nbytes) ≡ false = ground arith in rw (start, next, e1, e2) refl

find_place-second :
    (fuel bp prevp p : ℕ) (h : Heap)
    → h.next prevp ≡ p
    → prevp < p
    → p < bp
    → (h.next p ≤ p) ⊎ (bp < h.next p)
    → find_place (suc (suc fuel)) bp prevp h ≡ ok p
unfolding find_place
find_place-second fuel bp prevp p h next lt inside side =
    let e1 : (ltb prevp bp && ltb bp p) ≡ false = ground arith in
    let e2 : (leb p prevp && (ltb prevp bp || ltb bp p)) ≡ false = ground arith in
    let e3 : (is_between bp p h || is_at_end bp p h) ≡ true = ground arith in
    rw (next, e1, e2, e3) refl

-- The heap with the tail `q` joined to the block `p` again
abbrev joined : ℕ → ℕ → Heap → Heap
joined q p k =
    let nexts = write k.next q (k.next p) in
    record k {
      next = write nexts p (nexts q);
      units = write k.units p ((k.units p + k.units q) % word);
      freep = some p;
    }

insert_block-tail :
    (q p : ℕ) (k : Heap)
    → q ≢ p
    → after p (k.units p) ≡ q
    → after q (k.units q) ≢ k.next p
    → insert_block q p k ≡ joined q p k
insert_block-tail q p k ne tail gap =
    let e1 : (after q (k.units q) == k.next p) ≡ false =
      ==-ne (after q (k.units q)) (k.next p) gap in
    let e2 : (after p (k.units p) == q) ≡ true = rw tail (==-refl q) in rw (e1, e2) refl

-- The heap after the tail `q` of `n` units is cut off the block `p`
abbrev given : ℕ → ℕ → ℕ → ℕ → Heap → Heap
given prevp p n q h = record h {
  units = write (write h.units p (h.units p - n)) q n;
  freep = some prevp;
}

free_block-given :
    (fuel prevp p n q : ℕ) (h : Heap)
    → h.next prevp ≡ p
    → prevp < p
    → 1 ≤ n
    → n < h.units p
    → q ≡ p + header_size * (h.units p - n)
    → p + header_size * h.units p < word
    → (h.next p ≤ p) ⊎ (p + header_size * h.units p < h.next p)
    → (h2 : Heap) × (free_block (suc (suc fuel)) (q + header_size) (given prevp p n q h) ≡ ok h2)
      × ((x : ℕ) → x ≢ q → (h2.next x ≡ h.next x) × (h2.units x ≡ h.units x))
      × (h2.freep ≡ some p)
unfolding free_block
free_block-given fuel prevp p n q h next lt some_units large at fits side =
    let k = given prevp p n q h in
    let bp : (q + header_size + (word - header_size)) % word ≡ q = omega arith in
    let p≢q : p ≢ q = omega arith in
    let q≢p : q ≢ p = omega arith in
    let of_q : k.units q ≡ n = rw (==-refl q) refl in
    let of_p : k.units p ≡ h.units p - n = rw (==-ne p q p≢q, ==-refl p) refl in
    let sum : (k.units p + k.units q) % word ≡ h.units p = rw (of_p, of_q) (omega arith) in
    let place = find_place-second fuel q prevp p k next lt (omega arith) (beside side) in
    let whole = insert_block-tail q p k q≢p (rw of_p (omega arith)) (rw of_q (ends side)) in
    (
      joined q p k,
      rw (bp, place) (ap ok whole),
      (λ x ne. (
        ground arith,
        elim (Bool-cases (x == p)) [
          | inl e ↦ (let e' : x ≡ p = ground arith in rw e sum ∙ ap h.units (sym e'))
          | inr e ↦ rw (e, ==-ne x q ne) refl
        ],
      )),
      refl,
    )
  where
    beside :
        (h.next p ≤ p) ⊎ (p + header_size * h.units p < h.next p) → (h.next p ≤ p) ⊎ (q < h.next p)
    beside (inl low) = inl low
    beside (inr high) = inr (omega arith)

    ends : (h.next p ≤ p) ⊎ (p + header_size * h.units p < h.next p) → after q n ≢ h.next p
    ends (inl low) e = omega arith
    ends (inr high) e = omega arith

-- malloc() of fewer units than the first block that it meets has, which lies in front of another one with a
-- gap between them or is the highest: it returns the tail of this block. free() of it gives the heap
-- that was there before, but for the header in the tail, and the next search starts at this block.
pub free_block-malloc :
    (fuel : ℕ) (sbrk : ℕ → Option ℕ) (nbytes prevp p : ℕ) (h : Heap)
    → h.freep ≡ some prevp
    → h.next prevp ≡ p
    → prevp < p
    → units_for nbytes < h.units p
    → p + header_size * h.units p < word
    → (h.next p ≤ p) ⊎ (p + header_size * h.units p < h.next p)
    → (q : ℕ) × (h1 : Heap) × (h2 : Heap) × (q ≡ p + header_size * (h.units p - units_for nbytes))
      × (malloc (suc fuel) sbrk nbytes h ≡ ok (some (q + header_size), h1))
      × (free_block (suc (suc fuel)) (q + header_size) h1 ≡ ok h2)
      × ((x : ℕ) → x ≢ q → (h2.next x ≡ h.next x) × (h2.units x ≡ h.units x))
      × (h2.freep ≡ some p)
free_block-malloc fuel sbrk nbytes prevp p h start next lt large fits side =
    let n = units_for nbytes in
    let q = p + header_size * (h.units p - n) in
    let e : after p (h.units p - n) ≡ q = omega arith in
    let a : after q 1 ≡ q + header_size = omega arith in
    let run = malloc-cut fuel sbrk nbytes prevp p h start next large in
    let (h2, back, same, at) =
      free_block-given fuel prevp p n q h next lt (omega arith) large refl fits side in
    (q, given prevp p n q h, h2, refl, rw (e, a) at run, back, same, at)
