-- ===== src/Content.antt =====
-- fs.c: the content of an inode, by blocks and by bytes.
pub mod Read
use shared_memory.Prelude.{
  ℕ, zero, suc, ◌+◌, ◌-◌, ◌*◌, ◌/◌, ◌%◌, Bool, ◌&&◌, ◌||◌, Option, none, some, ltb, leb, ◌==◌, min,
  if◌then◌else◌, in_range, write, ℤ, pos, minus_one, Outcome, ok, panic, out_of_fuel, ◌>>=◌,
}
use shared_memory.Layout.{word}
use shared_memory.Bits.{word_at, put_int}
use shared_memory.Log.{Block}
use shared_memory.Fs.{block_at, write_block, bsize, balloc}
use shared_memory.Inode.{FileSystem, set_inode, on_disk, ndirect, nindirect, iupdate}

abbrev pub t_dir : ℕ
t_dir = 1

abbrev pub t_file : ℕ
t_file = 2

abbrev pub t_dev : ℕ
t_dev = 3

-- The most blocks of a file
abbrev pub max_file : ℕ
max_file = ndirect + nindirect

-- addr = balloc(ip->dev)
abbrev pub balloc_in : FileSystem → Outcome (ℕ × FileSystem)
balloc_in f = do (b, k) ← balloc f.disk; ok (b, record f { disk = k })

-- ip->addrs[j], allocated if it is 0
abbrev pub direct : ℕ → ℕ → FileSystem → Outcome (ℕ × FileSystem)
direct i j f =
    if (f.inodes i).addrs j == 0
    then (do
      (b, f) ← balloc_in f
      ok (b, set_inode i (record (f.inodes i) { addrs = write (f.inodes i).addrs j b }) f))
    else ok ((f.inodes i).addrs j, f)

-- a[bn] of the indirect block `bp`, allocated if it is 0
abbrev pub indirect : ℕ → ℕ → FileSystem → Outcome (ℕ × FileSystem)
indirect bp bn f =
    if word_at (block_at bp f.disk) (4 * bn) == 0
    then (do
      (b, f) ← balloc_in f
      f ← on_disk (write_block bp (put_int 4 (4 * bn) b (block_at bp f.disk)) f.disk) f
      ok (b, f))
    else ok (word_at (block_at bp f.disk) (4 * bn), f)

-- bmap()
unfoldable pub bmap : ℕ → ℕ → FileSystem → Outcome (ℕ × FileSystem)
bmap i bn f =
    if ltb bn ndirect
    then direct i bn f
    else if ltb (bn - ndirect) nindirect
    then (do (bp, f) ← direct i ndirect f; indirect bp (bn - ndirect) f)
    else panic

-- The memory of the caller and the file system
pub record Io : Type 0 where
  pub mem : ℕ → ℕ
  pub fs : FileSystem

-- A function of `devsw`, called with the inode, the address and the count
abbrev pub Device : Type 0
Device = ℕ → ℕ → ℕ → Io → Outcome (ℤ × Io)

-- `devsw`, with `none` for a null pointer
pub record Devices : Type 0 where
  pub read : ℕ → Option Device
  pub write : ℕ → Option Device

abbrev pub ndev : ℕ
ndev = 10

abbrev pub call_device : Option Device → ℕ → ℕ → ℕ → Io → Outcome (ℤ × Io)
call_device none i a n s = ok (minus_one, s)
call_device (some d) i a n s = d i a n s

-- devsw[ip->major] with its guards; a negative major is one from 2^15 on.
abbrev pub on_device : (ℕ → Option Device) → ℕ → ℕ → ℕ → Io → Outcome (ℤ × Io)
on_device table i a n s =
    if leb ndev (s.fs.inodes i).major
    then ok (minus_one, s)
    else call_device (table (s.fs.inodes i).major) i a n s

-- min(n - tot, BSIZE - off%BSIZE)
abbrev pub chunk : ℕ → ℕ → ℕ
chunk left off = min left (bsize - off % bsize)

-- memmove(dst, bp->data + off%BSIZE, m)
abbrev pub chunk_out : ℕ → ℕ → ℕ → Block → (ℕ → ℕ) → ℕ → ℕ
chunk_out dst off m x mem a = if in_range dst m a then x (off % bsize + (a - dst)) else mem a

-- memmove(bp->data + off%BSIZE, src, m)
abbrev pub chunk_in : ℕ → ℕ → ℕ → (ℕ → ℕ) → Block → Block
chunk_in src off m mem x j =
    if in_range (off % bsize) m j then mem (src + (j - off % bsize)) else x j

-- The loop of readi() with `left` bytes to go
unfoldable pub readi_loop : ℕ → ℕ → ℕ → ℕ → ℕ → Io → Outcome Io
readi_loop fuel i off dst zero s = ok s
readi_loop zero i off dst (suc left) s = out_of_fuel
readi_loop (suc fuel) i off dst (suc left) s = do
  (b, f) ← bmap i (off / bsize) s.fs
  let m = chunk (suc left) off
  readi_loop fuel i (off + m) (dst + m) (suc left - m)
      (record { mem = chunk_out dst off m (block_at b f.disk) s.mem; fs = f })

-- readi() of a file or directory, once its offset is checked
abbrev pub read_file : ℕ → ℕ → ℕ → ℕ → Io → Outcome (ℤ × Io)
read_file i dst off n s = do s ← readi_loop n i off dst n s; ok (pos n, s)

-- off > ip->size || off + n < off
abbrev pub bad_offset : ℕ → ℕ → ℕ → Bool
bad_offset off n size = ltb size off || ltb ((off + n) % word) off

-- readi()
unfoldable pub readi : Devices → ℕ → ℕ → ℕ → ℕ → Io → Outcome (ℤ × Io)
readi dev i dst off n s =
    let size = (s.fs.inodes i).size in
    if (s.fs.inodes i).kind == t_dev
    then on_device dev.read i dst n s
    else if bad_offset off n size
    then ok (minus_one, s)
    else read_file i dst off (if ltb size (off + n) then size - off else n) s

-- The loop of writei() with `left` bytes to go: the offset at its end
unfoldable pub writei_loop : ℕ → ℕ → ℕ → ℕ → ℕ → Io → Outcome (ℕ × Io)
writei_loop fuel i off src zero s = ok (off, s)
writei_loop zero i off src (suc left) s = out_of_fuel
writei_loop (suc fuel) i off src (suc left) s = do
  (b, f) ← bmap i (off / bsize) s.fs
  let m = chunk (suc left) off
  f ← on_disk (write_block b (chunk_in src off m s.mem (block_at b f.disk)) f.disk) f
  writei_loop fuel i (off + m) (src + m) (suc left - m) (record s { fs = f })

-- if(n > 0 && off > ip->size) { ip->size = off; iupdate(ip); }
abbrev pub grow_file : ℕ → ℕ → ℕ → Io → Outcome Io
grow_file i n off s =
    if ltb 0 n && ltb (s.fs.inodes i).size off
    then (do
      f ← iupdate i (set_inode i (record (s.fs.inodes i) { size = off }) s.fs)
      ok (record s { fs = f }))
    else ok s

-- writei()
unfoldable pub writei : Devices → ℕ → ℕ → ℕ → ℕ → Io → Outcome (ℤ × Io)
writei dev i src off n s =
    if (s.fs.inodes i).kind == t_dev
    then on_device dev.write i src n s
    else if bad_offset off n (s.fs.inodes i).size
    then ok (minus_one, s)
    else if ltb (max_file * bsize) (off + n)
    then ok (minus_one, s)
    else do (end, s) ← writei_loop n i off src n s; s ← grow_file i n end s; ok (pos n, s)
