-- ===== src/Fs/Undo.antt =====
-- bfree() of fs.c undoes balloc().
use shared_memory.Prelude.{
  ℕ, suc, ◌+◌, ◌/◌, ◌%◌, ◌≡◌, ◌≢◌, inl, inr, refl, ◌∙◌, ap, arith, Option, none, some, ok, panic,
  ◌==◌, Bool-cases,
}
use mathlib.Core.Path.{subst}
use shared_memory.Proc.Scan.{FirstFrom}
use shared_memory.Fs.{
  Disk, block_at, bitmap_block, bpb, is_free, find_free, mark_used, mark_free, zero_block, balloc,
  bfree,
}
use shared_memory.Fs.Room.{HasRoom, written-HasRoom, written_self, written-other}
use shared_memory.Fs.Bitmap.{free, found, find_free-FirstFrom}
use shared_memory.Fs.Blocks.{
  Reserves, marked, allocated, released, balloc-allocated, allocated-Allocated, bfree-released,
  mark_free-mark_used,
}

fewer : (n : ℕ) (k : Disk) → HasRoom (suc n) k → HasRoom n k
fewer n k r = record {
  room = (let h = r.room in omega arith);
  others = r.others;
  active = r.active;
  free = r.free;
}

apart :
    (b : ℕ) (k : Disk)
    → Reserves k
    → FirstFrom (free k) 0 k.sb.size (some b)
    → bitmap_block b k.sb ≢ b
apart b k w f e = (let z = w b f.1 in let y = (rw e at z) in let x = f.2 in cc)

allocated-HasRoom : (b : ℕ) (k : Disk) → HasRoom 3 k → HasRoom 1 (allocated b k)
allocated-HasRoom b k r = written-HasRoom 1 b (zero_block (block_at b (marked b k))) (marked b k) (
    written-HasRoom 2 (bitmap_block b k.sb) (mark_used (b % bpb) (block_at (bitmap_block b k.sb) k))
      k r)

balloc-stops : (k : Disk) → find_free (k.sb.size / bpb + 2) 0 k ≡ panic → balloc k ≡ panic
unfolding balloc
balloc-stops k go = rw go refl

-- A call of balloc() that returns has allocated the first free block.
balloc-inverted :
    (b : ℕ) (k k' : Disk)
    → HasRoom 2 k
    → Reserves k
    → balloc k ≡ ok (b, k')
    → (k' ≡ allocated b k) × FirstFrom (free k) 0 k.sb.size (some b)
balloc-inverted b k k' r w run =
    let (o, go, f) = find_free-FirstFrom (k.sb.size / bpb + 1) 0 k (omega arith) (omega arith) in
    let e : suc (k.sb.size / bpb + 1) ≡ k.sb.size / bpb + 2 = omega arith in
    from o (subst (λ n. find_free n 0 k ≡ found o) e go) f
  where
    from :
        (o : Option ℕ)
        → find_free (k.sb.size / bpb + 2) 0 k ≡ found o
        → FirstFrom (free k) 0 k.sb.size o
        → (k' ≡ allocated b k) × FirstFrom (free k) 0 k.sb.size (some b)
    from none go f = absurd (let z = balloc-stops k go in cc)
    from (some b') go f =
        let z = balloc-allocated b' k r go in
        let e : b' ≡ b = cc in
        (
          subst (λ x. k' ≡ allocated x k) e (cc),
          subst (λ x. FirstFrom (free k) 0 k.sb.size (some x)) e f,
        )

-- A block that balloc() returned is given back by bfree(): it does not panic, and every block but this
-- one, the bitmap among them, is as it was before. The log takes three more blocks, and the bitmap
-- marks its own blocks as used.
pub bfree-balloc :
    (b : ℕ) (k k' : Disk)
    → HasRoom 3 k
    → Reserves k
    → balloc k ≡ ok (b, k')
    → (k2 : Disk) × (bfree b k' ≡ ok k2)
      × (free k2 b ≡ free k b)
      × ((c : ℕ) → c ≢ b → block_at c k2 ≡ block_at c k)
bfree-balloc b k k' r w run =
    let (e, f) = balloc-inverted b k k' (fewer 2 k r) w run in
    let B = bitmap_block b k.sb in
    let n = (allocated-Allocated b k w f).now_used in
    let room = allocated-HasRoom b k r in
    let same : block_at B (allocated b k) ≡ mark_used (b % bpb) (block_at B k) =
      written-other b B (zero_block (block_at b (marked b k))) (marked b k) (apart b k w f)
      ∙ written_self B (mark_used (b % bpb) (block_at B k)) k in
    let back : block_at B (released b (allocated b k)) ≡ block_at B k =
      written_self B (mark_free (b % bpb) (block_at B (allocated b k))) (allocated b k)
      ∙ ap (mark_free (b % bpb)) same
      ∙ mark_free-mark_used (block_at B k) (b % bpb) f.2 in
    (
      released b (allocated b k),
      rw e (bfree-released b (allocated b k) room n),
      ap (λ x. is_free x (b % bpb)) back,
      λ c h. elim (Bool-cases (c == B)) [
        | inl q ↦ (let q' : c ≡ B = ground arith in rw q' back)
        | inr q ↦ ground arith
      ],
    )
