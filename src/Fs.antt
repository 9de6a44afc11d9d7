-- ===== src/Fs.antt =====
-- fs.c: the blocks of the disk and their bitmap.
pub mod Room
pub mod Bitmap
pub mod Blocks
pub mod Undo
use shared_memory.Prelude.{
  ℕ, zero, suc, ◌+◌, ◌-◌, ◌*◌, ◌/◌, ◌%◌, Bool, true, false, not, Option, none, some, ltb, leb, ◌==◌,
  min, if◌then◌else◌, write, Outcome, ok, panic, out_of_fuel, ◌>>=◌,
}
use shared_memory.Bits.{is_clear, set_bit, clear_bit, word_at}
use shared_memory.Proc.{scan}
use shared_memory.Log.{Block, Store, Log, store_buf, log_write}

abbrev pub bsize : ℕ
bsize = 512

-- Bits of the bitmap per block
abbrev pub bpb : ℕ
bpb = 4096

-- `struct superblock`
pub record Super : Type 0 where
  pub size : ℕ
  pub nblocks : ℕ
  pub ninodes : ℕ
  pub nlog : ℕ
  pub logstart : ℕ
  pub inodestart : ℕ
  pub bmapstart : ℕ

-- The disk as fs.c sees it: the super block, and the blocks through the buffers and the log. A block is
-- its bytes here.
pub record Disk : Type 0 where
  pub sb : Super
  pub log : Log
  pub store : Store

-- bread(dev, b)->data
abbrev pub block_at : ℕ → Disk → Block
block_at b k = k.store.buf b

-- A buffer is changed, and log_write() of it called.
abbrev pub write_block : ℕ → Block → Disk → Outcome Disk
write_block b x k = do
  (l, s) ← log_write b k.log (store_buf b x k.store)
  ok (record k { log = l; store = s })

-- readsb()
unfoldable pub readsb : Disk → Super
readsb k = record {
  size = word_at (block_at 1 k) 0;
  nblocks = word_at (block_at 1 k) 4;
  ninodes = word_at (block_at 1 k) 8;
  nlog = word_at (block_at 1 k) 12;
  logstart = word_at (block_at 1 k) 16;
  inodestart = word_at (block_at 1 k) 20;
  bmapstart = word_at (block_at 1 k) 24;
}

abbrev pub zero_block : Block → Block
zero_block x j = if ltb j bsize then 0 else x j

-- bzero()
unfoldable pub bzero : ℕ → Disk → Outcome Disk
bzero b k = write_block b (zero_block (block_at b k)) k

-- BBLOCK(b, sb)
abbrev pub bitmap_block : ℕ → Super → ℕ
bitmap_block b sb = b / bpb + sb.bmapstart

-- (bp->data[bi/8] & (1 << (bi % 8))) == 0
abbrev pub is_free : Block → ℕ → Bool
is_free x bi = is_clear (x (bi / 8)) (bi % 8)

-- The loops of balloc() from the block `b` on: the first free block
unfoldable pub find_free : ℕ → ℕ → Disk → Outcome ℕ
find_free zero b k = out_of_fuel
find_free (suc fuel) b k =
    let rest = find_free fuel (b + bpb) k in
    if ltb b k.sb.size
    then elim (scan (is_free (block_at (bitmap_block b k.sb) k)) (min bpb (k.sb.size - b)) 0) [
      | some bi ↦ ok (b + bi)
      | none ↦ rest
    ]
    else panic

-- A bit of the bitmap is set, and one cleared.
abbrev pub mark_used : ℕ → Block → Block
mark_used bi x = write x (bi / 8) (set_bit (x (bi / 8)) (bi % 8))

abbrev pub mark_free : ℕ → Block → Block
mark_free bi x = write x (bi / 8) (clear_bit (x (bi / 8)) (bi % 8))

-- balloc()
unfoldable pub balloc : Disk → Outcome (ℕ × Disk)
balloc k = do
  b ← find_free (k.sb.size / bpb + 2) 0 k
  k ← write_block (bitmap_block b k.sb) (mark_used (b % bpb) (block_at (bitmap_block b k.sb) k)) k
  k ← bzero b k
  ok (b, k)

-- bfree()
unfoldable pub bfree : ℕ → Disk → Outcome Disk
bfree b k =
    if is_free (block_at (bitmap_block b k.sb) k) (b % bpb)
    then panic
    else write_block (bitmap_block b k.sb) (mark_free (b % bpb) (block_at (bitmap_block b k.sb) k))
        k
