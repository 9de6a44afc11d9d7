-- ===== src/Content/Read.antt =====
-- readi() of fs.c: the bytes of a file.
use shared_memory.Prelude.{
  ℕ, zero, suc, ◌+◌, ◌-◌, ◌*◌, ◌/◌, ◌%◌, ◌≤◌, ◌<◌, ◌≡◌, ◌≢◌, ◌⊎◌, inl, inr, refl, ◌∙◌, true, false,
  arith, ltb, ◌==◌, if◌then◌else◌, in_range, pos, minus_one, ok, lt→ltb, le→ltb, Bool-cases,
}
use native.Mathlib.Decide.{dec_lt}
use shared_memory.Layout.{word}
use shared_memory.Bits.{word_at}
use shared_memory.Fs.{block_at, bsize}
use shared_memory.Inode.{FileSystem, ndirect, nindirect}
use shared_memory.Content.{
  t_dev, max_file, bmap, Io, Devices, chunk, chunk_out, readi_loop, bad_offset, readi,
}

-- The disk block of the block `bn` of the inode, 0 if it has none
abbrev pub block_of : FileSystem → ℕ → ℕ → ℕ
block_of f i bn =
    if ltb bn ndirect
    then (f.inodes i).addrs bn
    else if (f.inodes i).addrs ndirect == 0
    then 0
    else word_at (block_at ((f.inodes i).addrs ndirect) f.disk) (4 * (bn - ndirect))

-- The byte `k` of the file
abbrev pub file_byte : FileSystem → ℕ → ℕ → ℕ
file_byte f i k = block_at (block_of f i (k / bsize)) f.disk (k % bsize)

-- The file has blocks for the bytes from `off` on.
abbrev pub HasBlocks : FileSystem → ℕ → ℕ → ℕ → Type 0
HasBlocks f i off n =
    (k : ℕ) → off ≤ k → k < off + n → (k / bsize < max_file) × (block_of f i (k / bsize) ≢ 0)

bmap-block_of :
    (i bn : ℕ) (f : FileSystem)
    → bn < max_file
    → block_of f i bn ≢ 0
    → bmap i bn f ≡ ok (block_of f i bn, f)
unfolding bmap
bmap-block_of i bn f h n = elim (dec_lt bn ndirect) [
  | yes p ↦
      (let t = lt→ltb bn ndirect p in
        let z : ((f.inodes i).addrs bn == 0) ≡ false = (let q = (rw t at n) in ground arith) in
        rw (t, z) refl)
  | no p ↦
      (let t = le→ltb ndirect bn (omega arith) in
        let u : ltb (bn - ndirect) nindirect ≡ true = ground arith in
        let m = (rw t at n) in
        let z : ((f.inodes i).addrs ndirect == 0) ≡ false = ground arith in
        let m2 = (rw z at m) in
        let w : (word_at (block_at ((f.inodes i).addrs ndirect) f.disk) (4 * (bn - ndirect)) == 0)
            ≡ false =
          ground arith in
        rw (t, u, z, w) refl)
]

-- What the loop has made of the memory
abbrev pub Copied : ℕ → ℕ → ℕ → ℕ → Io → Io → Type 0
Copied i off dst n s s' =
    (s'.fs ≡ s.fs)
    × ((a : ℕ)
        → s'.mem a ≡ (if in_range dst n a then file_byte s.fs i (off + (a - dst)) else s.mem a))

same_block :
    (off d : ℕ)
    → d < bsize - off % bsize
    → ((off + d) / bsize ≡ off / bsize) × ((off + d) % bsize ≡ off % bsize + d)
same_block off d h = (omega arith, omega arith)

-- The first chunk of a read
first_chunk :
    (f : FileSystem) (i off dst m a : ℕ) (mem : ℕ → ℕ)
    → m ≤ bsize - off % bsize
    → chunk_out dst off m (block_at (block_of f i (off / bsize)) f.disk) mem a
      ≡ (if in_range dst m a then file_byte f i (off + (a - dst)) else mem a)
first_chunk f i off dst m a mem h = elim (Bool-cases (in_range dst m a)) [
  | inl e ↦ (let (p, q) = same_block off (a - dst) (ground arith) in rw (e, p, q) refl)
  | inr e ↦ rw e refl
]

abbrev after_chunk : ℕ → ℕ → ℕ → ℕ → Io → Io
after_chunk i off dst m s = record s {
  mem = chunk_out dst off m (block_at (block_of s.fs i (off / bsize)) s.fs.disk) s.mem;
}

-- A first chunk and the rest
Copied-more :
    (i off dst m n : ℕ) (s s' : Io)
    → m ≤ bsize - off % bsize
    → m ≤ n
    → Copied i (off + m) (dst + m) (n - m) (after_chunk i off dst m s) s'
    → Copied i off dst n s s'
Copied-more i off dst m n s s' h le (e, c) = (
  e,
  λ a. c a ∙ elim (Bool-cases (in_range (dst + m) (n - m) a)) [
    | inl q ↦
        (let r : in_range dst n a ≡ true = ground arith in
          let k : off + m + (a - (dst + m)) ≡ off + (a - dst) = ground arith in rw (q, r, k) refl)
    | inr q ↦ rw q (
        first_chunk s.fs i off dst m a s.mem h ∙ elim (Bool-cases (in_range dst m a)) [
          | inl r ↦ (let r' : in_range dst n a ≡ true = ground arith in rw (r, r') refl)
          | inr r ↦ (let r' : in_range dst n a ≡ false = ground arith in rw (r, r') refl)
        ])
  ],
)

readi_loop-Copied :
    (fuel i off dst n : ℕ) (s : Io)
    → n ≤ fuel
    → HasBlocks s.fs i off n
    → (s' : Io) × (readi_loop fuel i off dst n s ≡ ok s') × Copied i off dst n s s'
unfolding readi_loop
readi_loop-Copied fuel i off dst zero s h w = (s, refl, (refl, λ a. ground arith))
readi_loop-Copied zero i off dst (suc n) s h w = absurd (omega arith)
readi_loop-Copied (suc fuel) i off dst (suc n) s h w =
    let m = chunk (suc n) off in
    let here = w off (omega arith) (omega arith) in
    let step = bmap-block_of i (off / bsize) s.fs here.0 here.1 in
    let (s', run, c) =
      readi_loop-Copied fuel i (off + m) (dst + m) (suc n - m) (after_chunk i off dst m s)
        (omega arith) (λ k p q. w k (omega arith) (omega arith)) in
    (s', rw step run, Copied-more i off dst m (suc n) s s' (omega arith) (omega arith) c)

-- How many bytes a read of `n` bytes gets
abbrev pub available : ℕ → ℕ → ℕ → ℕ
available size off n = if ltb size (off + n) then size - off else n

refused :
    (off n size : ℕ)
    → off < word
    → n < word
    → bad_offset off n size ≡ true
    → (size < off) ⊎ (word ≤ off + n)
refused off n size h g b = elim (dec_lt (off + n) word) [
  | yes p ↦ (let e : (off + n) % word ≡ off + n = omega arith in inl (ground arith))
  | no p ↦ inr (omega arith)
]

accepted :
    (off n size : ℕ)
    → off < word
    → n < word
    → bad_offset off n size ≡ false
    → (off ≤ size) × (off + n < word)
accepted off n size h g b = elim (dec_lt (off + n) word) [
  | yes p ↦ (ground arith, p)
  | no p ↦ (let e : (off + n) % word ≡ off + n - word = omega arith in absurd (ground arith))
]

-- readi() of a file or directory all of whose bytes have blocks. An offset behind the end, or one whose
-- sum with the count does not fit in a word, is refused; else the bytes of the file from the offset on
-- are at `dst`, as many as asked for or as there are, with the rest of the memory and the file system
-- as they were.
pub readi_lem :
    (dev : Devices) (i dst off n : ℕ) (s : Io)
    → (s.fs.inodes i).kind ≢ t_dev
    → off < word
    → n < word
    → HasBlocks s.fs i 0 (s.fs.inodes i).size
    → ((((s.fs.inodes i).size < off) ⊎ (word ≤ off + n))
        × (readi dev i dst off n s ≡ ok (minus_one, s)))
      ⊎ ((off ≤ (s.fs.inodes i).size)
          × (off + n < word)
          × ((s' : Io) × (readi dev i dst off n s
                ≡ ok (pos (available (s.fs.inodes i).size off n), s'))
              × Copied i off dst (available (s.fs.inodes i).size off n) s s'))
unfolding readi
readi_lem dev i dst off n s kind small few w =
    let k : ((s.fs.inodes i).kind == t_dev) ≡ false = ground arith in
    elim (Bool-cases (bad_offset off n (s.fs.inodes i).size)) [
      | inl b ↦ inl (refused off n (s.fs.inodes i).size small few b, rw (k, b) refl)
      | inr b ↦
          (let m = available (s.fs.inodes i).size off n in
            let le : off ≤ (s.fs.inodes i).size =
              (accepted off n (s.fs.inodes i).size small few b).0 in
            let fits : off + n < word = (accepted off n (s.fs.inodes i).size small few b).1 in
            let (s', run, c) =
              readi_loop-Copied m i off dst m s (omega arith)
                (λ k p q. w k (omega arith) (ground arith)) in
            inr (le, fits, (s', rw (k, b, run) refl, c)))
    ]
