-- ===== src/Bio/View.antt =====
-- What the block cache of bio.c stands for: the content of each block of the disk, as bread() returns
-- it. bread() leaves that as it is, whichever buffer it recycles.
use shared_memory.Prelude.{
  ℕ, ◌≡◌, ◌⊎◌, inl, inr, refl, Bool, true, false, ◌&&◌, Option, none, some, has, arith,
}
use shared_memory.Log.{Block}
use shared_memory.Bio.{Bcache, first_of, is_block}
use shared_memory.Bio.Claim.{first_of-cases}

-- A buffer of the list that holds the content of the block `b` of the disk 1
abbrev pub holds : ℕ → Bcache → ℕ → Bool
holds b c i = is_block 1 b (c.buf i) && (c.buf i).valid

abbrev pub read_from : Bcache → ℕ → Option ℕ → Block
read_from c b none = c.disk b
read_from c b (some i) = (c.buf i).content

-- The content of the block: that of its buffer, or else that on the disk
unfoldable pub view : Bcache → ℕ → Block
view c b = read_from c b (first_of (holds b c) c.order)

abbrev pub In : ℕ → Bcache → Type 0
In i c = has i c.order ≡ true

-- The invariant of the cache
pub record IsGood (c : Bcache) : Type 0 where
  -- No block of the disk has two buffers.
  pub unique :
      (i j : ℕ)
      → In i c
      → In j c
      → (c.buf i).dev ≡ 1
      → (c.buf j).dev ≡ 1
      → (c.buf i).blockno ≡ (c.buf j).blockno
      → i ≡ j
  -- A valid buffer that is not dirty has the content of its block on the disk.
  pub coherent :
      (i : ℕ)
      → In i c
      → (c.buf i).dev ≡ 1
      → (c.buf i).valid ≡ true
      → (c.buf i).dirty ≡ false
      → (c.buf i).content ≡ c.disk (c.buf i).blockno
  -- A dirty buffer is valid.
  pub modified : (i : ℕ) → In i c → (c.buf i).dirty ≡ true → (c.buf i).valid ≡ true

pub view_held :
    (c : Bcache) (i : ℕ)
    → IsGood c
    → In i c
    → (c.buf i).dev ≡ 1
    → (c.buf i).valid ≡ true
    → view c (c.buf i).blockno ≡ (c.buf i).content
unfolding view
view_held c i g m d v = elim (first_of-cases (holds (c.buf i).blockno c) c.order) [
  | inl (j, (n, p), e) ↦
      (let q = g.unique j i n m (ground arith) d (ground arith) in rw (view, e, q) refl)
  | inr (n, e) ↦ absurd (let z = n i m in ground arith)
]

pub view_absent :
    (c : Bcache) (b : ℕ)
    → ((i : ℕ) → In i c → (c.buf i).dev ≡ 1 → (c.buf i).valid ≡ true → ¬ ((c.buf i).blockno ≡ b))
    → view c b ≡ c.disk b
unfolding view
view_absent c b h = elim (first_of-cases (holds b c) c.order) [
  | inl (j, (n, p), e) ↦ absurd (h j n (ground arith) (ground arith) (ground arith))
  | inr (n, e) ↦ rw (view, e) refl
]

-- Either a buffer holds the block, or none does.
pub view-cases :
    (c : Bcache) (b : ℕ)
    → ((i : ℕ) × In i c × ((c.buf i).dev ≡ 1) × ((c.buf i).valid ≡ true) × ((c.buf i).blockno ≡ b))
      ⊎ ((i : ℕ) → In i c → (c.buf i).dev ≡ 1 → (c.buf i).valid ≡ true → ¬ ((c.buf i).blockno ≡ b))
view-cases c b = elim (first_of-cases (holds b c) c.order) [
  | inl (j, (n, p), e) ↦ inl (j, n, ground arith, ground arith, ground arith)
  | inr (n, e) ↦ inr (λ i m d v q. (let z = n i m in ground arith))
]
