-- ===== src/Fs/Bitmap.antt =====
-- balloc() and bfree() of fs.c: the bitmap of the blocks.
use shared_memory.Prelude.{
  ℕ, zero, suc, ◌+◌, ◌-◌, ◌*◌, ◌/◌, ◌%◌, ◌≤◌, ◌<◌, ◌≡◌, refl, Bool, false, arith, Option, none,
  some, Outcome, ok, panic, min, lt→ltb, le→ltb,
}
use mathlib.Core.Path.{subst}
use native.Mathlib.Decide.{dec_lt}
use shared_memory.Proc.{scan}
use shared_memory.Proc.Scan.{FirstFrom, scan-FirstFrom, FirstFrom-extend}
use shared_memory.Fs.{Disk, block_at, bitmap_block, bpb, is_free, find_free}

-- The bit of the block in the bitmap is clear.
abbrev pub free : Disk → ℕ → Bool
free k j = is_free (block_at (bitmap_block j k.sb) k) (j % bpb)

-- What balloc() makes of the search
abbrev pub found : Option ℕ → Outcome ℕ
found none = panic
found (some r) = ok r

same_bitmap : (b i : ℕ) → b % bpb ≡ 0 → i < bpb → ((b + i) / bpb ≡ b / bpb) × ((b + i) % bpb ≡ i)
same_bitmap b i h p = (omega arith, omega arith)

next_bitmap : (b : ℕ) → b % bpb ≡ 0 → (b + bpb) % bpb ≡ 0
next_bitmap b h = omega arith

-- One block of the bitmap
in_block :
    (k : Disk) (b i : ℕ)
    → b % bpb ≡ 0
    → i < bpb
    → free k (b + i) ≡ is_free (block_at (bitmap_block b k.sb) k) i
in_block k b i h p = let (e, f) = same_bitmap b i h p in rw (e, f) refl

abbrev bitmap_search : (k : Disk) (b : ℕ) → Option ℕ
bitmap_search k b = scan (is_free (block_at (bitmap_block b k.sb) k)) (min bpb (k.sb.size - b)) 0

-- The loops find the first free block.
pub find_free-FirstFrom :
    (f b : ℕ) (k : Disk)
    → b % bpb ≡ 0
    → k.sb.size ≤ b + f * bpb
    → (r : Option ℕ) × (find_free (suc f) b k ≡ found r) × FirstFrom (free k) b k.sb.size r
unfolding find_free
find_free-FirstFrom zero b k h enough =
    (none, rw (le→ltb k.sb.size b (omega arith)) refl, λ j q r. absurd (omega arith))
find_free-FirstFrom (suc f) b k h enough = elim (dec_lt b k.sb.size) [
  | no p ↦ (none, rw (le→ltb k.sb.size b (omega arith)) refl, λ j q r. absurd (omega arith))
  | yes p ↦
      from p (bitmap_search k b) refl
        (scan-FirstFrom (is_free (block_at (bitmap_block b k.sb) k)) (min bpb (k.sb.size - b)) 0
          (min bpb (k.sb.size - b)) (omega arith))
        (find_free-FirstFrom f (b + bpb) k (next_bitmap b h) (omega arith))
]
  where
    in_this :
        {m : ℕ}
        → ((i : ℕ) → 0 ≤ i → i < m → is_free (block_at (bitmap_block b k.sb) k) i ≡ false)
        → m ≤ bpb
        → (j : ℕ) → b ≤ j
        → j < b + m
        → free k j ≡ false
    in_this {m = m} g le j q u =
        let i = j - b in
        let e : b + i ≡ j = omega arith in
        subst (λ x. free k x ≡ false) e
          (rw (in_block k b i h (omega arith)) (g i (omega arith) (omega arith)))

    from :
        b < k.sb.size
        → (o : Option ℕ) → bitmap_search k b ≡ o
        → FirstFrom (is_free (block_at (bitmap_block b k.sb) k)) 0 (min bpb (k.sb.size - b)) o
        → (r : Option ℕ) × (find_free (suc f) (b + bpb) k ≡ found r)
          × FirstFrom (free k) (b + bpb) k.sb.size r
        → (r : Option ℕ) × (find_free (suc (suc f)) b k ≡ found r)
          × FirstFrom (free k) b k.sb.size r
    from p (some bi) e g _ = (
      some (b + bi),
      rw (lt→ltb b k.sb.size p, e) refl,
      (
        omega arith,
        omega (arith, g.1),
        rw (in_block k b bi h (omega (arith, g.1))) g.2,
        λ j q u. in_this g.3 (omega (arith, g.1)) j q u,
      ),
    )
    from p none e g (r, run, ih) = (
      r,
      rw (lt→ltb b k.sb.size p, e) run,
      FirstFrom-extend (free k) b (b + bpb) k.sb.size r (omega arith)
          (λ j q u v. in_this g (omega arith) j q (omega arith)) ih,
    )
