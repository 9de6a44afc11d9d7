-- ===== src/Fs/Blocks.antt =====
-- balloc() and bfree() of fs.c as a whole.
use shared_memory.Prelude.{
  ℕ, suc, ◌+◌, ◌/◌, ◌%◌, ◌<◌, ◌≡◌, ◌≢◌, ◌⊎◌, inl, inr, refl, ◌∙◌, ap, true, false, arith, Option,
  none, some, ok, panic, ◌==◌, ==-refl, Bool-cases, fun_ext,
}
use mathlib.Core.Path.{subst}
use shared_memory.Bits.{
  is_clear-set_bit_self, is_clear-set_bit_other, is_clear-clear_bit_self, is_clear-clear_bit_other,
  clear_bit-set_bit,
}
use shared_memory.Proc.Scan.{FirstFrom}
use shared_memory.Log.{Block}
use shared_memory.Fs.{
  Disk, block_at, bitmap_block, bpb, bsize, is_free, find_free, mark_used, mark_free, zero_block,
  bzero, balloc, bfree,
}
use shared_memory.Fs.Room.{
  HasRoom, written, write_block-written, written-HasRoom, written_self, written-other,
}
use shared_memory.Fs.Bitmap.{free, found, find_free-FirstFrom}

used_self : (x : Block) (b : ℕ) → is_free (mark_used b x) b ≡ false
used_self x b = rw (==-refl (b / 8)) (is_clear-set_bit_self (x (b / 8)) (b % 8))

used-other : (x : Block) (b j : ℕ) → j ≢ b → is_free (mark_used b x) j ≡ is_free x j
used-other x b j h = elim (Bool-cases (j / 8 == b / 8)) [
  | inl e ↦
      (let q : j / 8 ≡ b / 8 = ground arith in
        let n : j % 8 ≢ b % 8 = λ r. h (omega arith) in
        rw (e, q) (is_clear-set_bit_other (x (b / 8)) (j % 8) (b % 8) n))
  | inr e ↦ rw e refl
]

freed_self : (x : Block) (b : ℕ) → is_free (mark_free b x) b ≡ true
freed_self x b = rw (==-refl (b / 8)) (is_clear-clear_bit_self (x (b / 8)) (b % 8))

freed-other : (x : Block) (b j : ℕ) → j ≢ b → is_free (mark_free b x) j ≡ is_free x j
freed-other x b j h = elim (Bool-cases (j / 8 == b / 8)) [
  | inl e ↦
      (let q : j / 8 ≡ b / 8 = ground arith in
        let n : j % 8 ≢ b % 8 = λ r. h (omega arith) in
        rw (e, q) (is_clear-clear_bit_other (x (b / 8)) (j % 8) (b % 8) n))
  | inr e ↦ rw e refl
]

-- The bitmap before it was marked
pub mark_free-mark_used : (x : Block) (b : ℕ) → is_free x b ≡ true → mark_free b (mark_used b x) ≡ x
mark_free-mark_used x b h = fun_ext λ j. elim (Bool-cases (j == b / 8)) [
  | inl e ↦
      (let q : j ≡ b / 8 = ground arith in
        rw (q, ==-refl (b / 8)) (clear_bit-set_bit (x (b / 8)) (b % 8) h))
  | inr e ↦ rw e refl
]

-- The bitmap lies in blocks that it marks as used.
abbrev pub Reserves : Disk → Type 0
Reserves k = (j : ℕ) → j < k.sb.size → free k (bitmap_block j k.sb) ≡ false

-- The disk after balloc() of the block `b`
abbrev pub marked : ℕ → Disk → Disk
marked b k =
    written (bitmap_block b k.sb) (mark_used (b % bpb) (block_at (bitmap_block b k.sb) k)) k

abbrev pub allocated : ℕ → Disk → Disk
allocated b k = written b (zero_block (block_at b (marked b k))) (marked b k)

other_bit : (b j : ℕ) → b ≢ j → b / bpb ≡ j / bpb → b % bpb ≢ j % bpb
other_bit b j h e f = h (omega arith)

marked-free_other : (b j : ℕ) (k : Disk) → j ≢ b → free (marked b k) j ≡ free k j
marked-free_other b j k h = elim (Bool-cases (bitmap_block j k.sb == bitmap_block b k.sb)) [
  | inl e ↦
      (let q : bitmap_block j k.sb ≡ bitmap_block b k.sb = ground arith in
        let n = other_bit j b h (omega arith) in
        rw
          (
            q,
            written_self (bitmap_block b k.sb)
                (mark_used (b % bpb) (block_at (bitmap_block b k.sb) k)) k,
          )
          (used-other (block_at (bitmap_block b k.sb) k) (b % bpb) (j % bpb) n))
  | inr e ↦ rw e refl
]

allocated-free :
    (b j : ℕ) (k : Disk) → bitmap_block j k.sb ≢ b → free (allocated b k) j ≡ free (marked b k) j
allocated-free b j k h =
    ap (λ x. is_free x (j % bpb))
      (written-other b (bitmap_block j k.sb) (zero_block (block_at b (marked b k))) (marked b k) h)

pub balloc-allocated :
    (b : ℕ) (k : Disk)
    → HasRoom 2 k
    → find_free (k.sb.size / bpb + 2) 0 k ≡ ok b
    → balloc k ≡ ok (b, allocated b k)
unfolding balloc bzero
balloc-allocated b k r run =
    let w1 =
      write_block-written 1 (bitmap_block b k.sb)
        (mark_used (b % bpb) (block_at (bitmap_block b k.sb) k)) k r in
    let r1 =
      written-HasRoom 1 (bitmap_block b k.sb)
        (mark_used (b % bpb) (block_at (bitmap_block b k.sb) k)) k r in
    rw (run, w1, write_block-written 0 b (zero_block (block_at b (marked b k))) (marked b k) r1)
      refl

-- What balloc() has done when it returns the block `b`
pub record Allocated (b : ℕ) (k k' : Disk) : Type 0 where
  pub small : b < k.sb.size
  pub was_free : free k b ≡ true
  pub first : (j : ℕ) → j < b → free k j ≡ false
  pub now_used : free k' b ≡ false
  pub others : (j : ℕ) → j < k.sb.size → j ≢ b → free k' j ≡ free k j
  pub zeroed : (i : ℕ) → i < bsize → block_at b k' i ≡ 0
  pub kept : (c : ℕ) → c ≢ b → c ≢ bitmap_block b k.sb → block_at c k' ≡ block_at c k

pub allocated-Allocated :
    (b : ℕ) (k : Disk)
    → Reserves k
    → FirstFrom (free k) 0 k.sb.size (some b)
    → Allocated b k (allocated b k)
allocated-Allocated b k w f = record {
  small = f.1;
  was_free = f.2;
  first = λ j h. f.3 j (omega arith) h;
  now_used =
      allocated-free b b k (apart b f.1)
      ∙ rw
          (written_self (bitmap_block b k.sb)
            (mark_used (b % bpb) (block_at (bitmap_block b k.sb) k)) k)
          (used_self (block_at (bitmap_block b k.sb) k) (b % bpb));
  others = λ j h n. allocated-free b j k (apart j h) ∙ marked-free_other b j k n;
  zeroed = λ i h. ground arith;
  kept = λ c h g. ground arith;
}
  where
    apart : (j : ℕ) → j < k.sb.size → bitmap_block j k.sb ≢ b
    apart j h e = (let z = w j h in let y = (rw e at z) in let x = f.2 in cc)

-- balloc() in a transaction whose log takes two more blocks: the block with the lowest number of those
-- that are free in the bitmap is marked as used and filled with zeros, with every other bit of the
-- bitmap and every other block as it was; or no block is free, and it panics. The bitmap marks its own
-- blocks as used.
pub balloc_lem :
    (k : Disk)
    → HasRoom 2 k
    → Reserves k
    → (((j : ℕ) → j < k.sb.size → free k j ≡ false) × (balloc k ≡ panic))
      ⊎ ((b : ℕ) × (k' : Disk) × (balloc k ≡ ok (b, k')) × Allocated b k k')
unfolding balloc
balloc_lem k r w =
    let (o, run, f) = find_free-FirstFrom (k.sb.size / bpb + 1) 0 k (omega arith) (omega arith) in
    let e : suc (k.sb.size / bpb + 1) ≡ k.sb.size / bpb + 2 = omega arith in
    from o (subst (λ n. find_free n 0 k ≡ found o) e run) f
  where
    from :
        (o : Option ℕ)
        → find_free (k.sb.size / bpb + 2) 0 k ≡ found o
        → FirstFrom (free k) 0 k.sb.size o
        → (((j : ℕ) → j < k.sb.size → free k j ≡ false) × (balloc k ≡ panic))
          ⊎ ((b : ℕ) × (k' : Disk) × (balloc k ≡ ok (b, k')) × Allocated b k k')
    from none run f = inl (λ j h. f j (omega arith) h, rw run refl)
    from (some b) run f =
        inr (b, allocated b k, balloc-allocated b k r run, allocated-Allocated b k w f)

-- The disk after bfree()
abbrev pub released : ℕ → Disk → Disk
released b k =
    written (bitmap_block b k.sb) (mark_free (b % bpb) (block_at (bitmap_block b k.sb) k)) k

pub bfree-released :
    (b : ℕ) (k : Disk) → HasRoom 1 k → free k b ≡ false → bfree b k ≡ ok (released b k)
unfolding bfree
bfree-released b k r h =
    rw
      (
        h,
        write_block-written 0 (bitmap_block b k.sb)
            (mark_free (b % bpb) (block_at (bitmap_block b k.sb) k)) k r,
      )
      refl

-- bfree() of a free block panics. Of a used one, in a transaction whose log takes one more block, it
-- makes the block free, with every other bit of the bitmap and every other block as it was.
pub bfree_lem :
    (b : ℕ) (k : Disk)
    → HasRoom 1 k
    → ((free k b ≡ true) × (bfree b k ≡ panic))
      ⊎ ((free k b ≡ false)
          × ((k' : Disk) × (bfree b k ≡ ok k')
              × (free k' b ≡ true)
              × ((j : ℕ) → j ≢ b → free k' j ≡ free k j)
              × ((c : ℕ) → c ≢ bitmap_block b k.sb → block_at c k' ≡ block_at c k)))
unfolding bfree
bfree_lem b k r = elim (Bool-cases (free k b)) [
  | inl h ↦ inl (h, rw h refl)
  | inr h ↦ inr (
    h,
    (
      released b k,
      bfree-released b k r h,
      rw
          (written_self (bitmap_block b k.sb)
            (mark_free (b % bpb) (block_at (bitmap_block b k.sb) k)) k)
          (freed_self (block_at (bitmap_block b k.sb) k) (b % bpb)),
      released-other,
      λ c n. ground arith,
    ),
  )
]
  where
    released-other : (j : ℕ) → j ≢ b → free (released b k) j ≡ free k j
    released-other j n = elim (Bool-cases (bitmap_block j k.sb == bitmap_block b k.sb)) [
      | inl e ↦
          (let q : bitmap_block j k.sb ≡ bitmap_block b k.sb = ground arith in
            let o = other_bit j b n (omega arith) in
            rw
              (
                q,
                written_self (bitmap_block b k.sb)
                    (mark_free (b % bpb) (block_at (bitmap_block b k.sb) k)) k,
              )
              (freed-other (block_at (bitmap_block b k.sb) k) (b % bpb) (j % bpb) o))
      | inr e ↦ rw e refl
    ]
