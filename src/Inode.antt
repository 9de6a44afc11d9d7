-- ===== src/Inode.antt =====
-- fs.c: inodes on the disk, and the cache of those in use.
pub mod Cache
pub mod Codec
pub mod Persist
use shared_memory.Prelude.{
  ℕ, zero, suc, ◌+◌, ◌-◌, ◌*◌, ◌/◌, ◌%◌, ◌^◌, Bool, true, false, not, ◌&&◌, ◌||◌, Option, none,
  some, ltb, ◌==◌, if◌then◌else◌, in_range, write, ℤ, pos, incr, decr, ◌<ℤ◌, ◌==ℤ◌, Outcome, ok,
  panic, out_of_fuel, ◌>>=◌, acquire, release,
}
use shared_memory.Bits.{short_at, word_at, put_int}
use shared_memory.Proc.{scan}
use shared_memory.Log.{Block}
use shared_memory.Fs.{Super, Disk, block_at, write_block, readsb, bsize, bfree}

abbrev pub ninode : ℕ
ninode = 50

abbrev pub ndirect : ℕ
ndirect = 12

abbrev pub nindirect : ℕ
nindirect = 128

-- Inodes per block, and the bytes of one
abbrev pub ipb : ℕ
ipb = 8

abbrev pub dinode_size : ℕ
dinode_size = 64

-- `struct inode`: the lock is whether this process holds it, `kind` is `type`.
pub record Inode : Type 0 where
  pub dev : ℕ
  pub inum : ℕ
  pub ref : ℤ
  pub lock : Bool
  pub valid : Bool
  pub kind : ℕ
  pub major : ℕ
  pub minor : ℕ
  pub nlink : ℕ
  pub size : ℕ
  pub addrs : ℕ → ℕ

-- The disk with the cache of inodes; the lock is `icache.lock`.
pub record FileSystem : Type 0 where
  pub disk : Disk
  pub lock : Bool
  pub inodes : ℕ → Inode

abbrev pub set_inode : ℕ → Inode → FileSystem → FileSystem
set_inode i ip f = record f { inodes = write f.inodes i ip }

abbrev pub on_disk : Outcome Disk → FileSystem → Outcome FileSystem
on_disk r f = do k ← r; ok (record f { disk = k })

abbrev pub lock_icache : FileSystem → Outcome FileSystem
lock_icache f = do l ← acquire f.lock; ok (record f { lock = l })

abbrev pub unlock_icache : FileSystem → Outcome FileSystem
unlock_icache f = do l ← release f.lock; ok (record f { lock = l })

-- iinit()
unfoldable pub iinit : FileSystem → FileSystem
iinit f = record f {
  lock = false;
  inodes = λ i. if ltb i ninode then record (f.inodes i) { lock = false } else f.inodes i;
  disk = record (f.disk) { sb = readsb f.disk };
}

-- IBLOCK(i, sb), and the byte at which inode `i` starts there
abbrev pub inode_block : ℕ → Super → ℕ
inode_block i sb = i / ipb + sb.inodestart

abbrev pub inode_offset : ℕ → ℕ
inode_offset i = i % ipb * dinode_size

-- The fields of `struct dinode` at the byte `o` of a block, copied to an inode
unfoldable pub load_inode : Block → ℕ → Inode → Inode
load_inode x o ip = record ip {
  kind = short_at x o;
  major = short_at x (o + 2);
  minor = short_at x (o + 4);
  nlink = short_at x (o + 6);
  size = word_at x (o + 8);
  addrs = λ j. if ltb j (ndirect + 1) then word_at x (o + 12 + 4 * j) else ip.addrs j;
}

-- The array `addrs` as bytes, at the byte `a`
abbrev pub put_addrs : ℕ → (ℕ → ℕ) → Block → Block
put_addrs a addrs x j =
    if in_range a (4 * (ndirect + 1)) j
    then addrs ((j - a) / 4) / 256 ^ ((j - a) % 4) % 256
    else x j

-- The fields of an inode, copied to the `struct dinode` at the byte `o` of a block
unfoldable pub store_inode : Inode → ℕ → Block → Block
store_inode ip o x = put_addrs (o + 12) ip.addrs (
    put_int 4 (o + 8) ip.size (
      put_int 2 (o + 6) ip.nlink
        (put_int 2 (o + 4) ip.minor (put_int 2 (o + 2) ip.major (put_int 2 o ip.kind x)))))

-- iupdate()
unfoldable pub iupdate : ℕ → FileSystem → Outcome FileSystem
iupdate i f =
    let ip = f.inodes i in
    let b = inode_block ip.inum f.disk.sb in
    on_disk (write_block b (store_inode ip (inode_offset ip.inum) (block_at b f.disk)) f.disk) f

-- ip->ref > 0 && ip->dev == dev && ip->inum == inum
abbrev pub is_inode : ℕ → ℕ → Inode → Bool
is_inode dev inum ip = (pos 0 <ℤ ip.ref && ip.dev == dev) && (ip.inum == inum)

-- An entry of the cache is taken for the inode.
abbrev pub fresh_entry : ℕ → ℕ → Inode → Inode
fresh_entry dev inum ip = record ip { dev = dev; inum = inum; ref = pos 1; valid = false }

abbrev pub claim_entry : ℕ → ℕ → Option ℕ → FileSystem → Outcome (ℕ × FileSystem)
claim_entry dev inum none f = panic
claim_entry dev inum (some i) f = do
  f ← unlock_icache (set_inode i (fresh_entry dev inum (f.inodes i)) f)
  ok (i, f)

abbrev pub cached_entry : ℕ → ℕ → Option ℕ → FileSystem → Outcome (ℕ × FileSystem)
cached_entry dev inum none f =
    claim_entry dev inum (scan (λ i. (f.inodes i).ref ==ℤ pos 0) ninode 0) f
cached_entry dev inum (some i) f = do
  f ← unlock_icache (set_inode i (record (f.inodes i) { ref = incr (f.inodes i).ref }) f)
  ok (i, f)

-- iget(): the loop remembers the first entry without a reference.
unfoldable pub iget : ℕ → ℕ → FileSystem → Outcome (ℕ × FileSystem)
iget dev inum f = do
  f ← lock_icache f
  cached_entry dev inum (scan (λ i. is_inode dev inum (f.inodes i)) ninode 0) f

-- The loop of ialloc() from the inode `inum` on, with `n` to go
unfoldable pub ialloc_loop : ℕ → ℕ → ℕ → ℕ → FileSystem → Outcome (ℕ × FileSystem)
ialloc_loop dev kind zero inum f = panic
ialloc_loop dev kind (suc n) inum f =
    let rest = ialloc_loop dev kind n (inum + 1) f in
    let b = inode_block inum f.disk.sb in
    let o = inode_offset inum in
    let x = block_at b f.disk in
    if short_at x o == 0
    then (do
      f ←
          on_disk
            (write_block b (put_int 2 o kind (λ j. if in_range o dinode_size j then 0 else x j))
              f.disk)
            f
      iget dev inum f)
    else rest

unfoldable pub ialloc : ℕ → ℕ → FileSystem → Outcome (ℕ × FileSystem)
ialloc dev kind f = ialloc_loop dev kind (f.disk.sb.ninodes - 1) 1 f

unfoldable pub idup : ℕ → FileSystem → Outcome FileSystem
idup i f = do
  f ← lock_icache f
  unlock_icache (set_inode i (record (f.inodes i) { ref = incr (f.inodes i).ref }) f)

-- acquiresleep(&ip->lock): it never returns to a process that has the lock. releasesleep(&ip->lock)
abbrev pub lock_inode : ℕ → FileSystem → Outcome FileSystem
lock_inode i f =
    if (f.inodes i).lock
    then out_of_fuel
    else ok (set_inode i (record (f.inodes i) { lock = true }) f)

abbrev pub unlock_inode : ℕ → FileSystem → FileSystem
unlock_inode i f = set_inode i (record (f.inodes i) { lock = false }) f

-- The inode as it is read from the disk
abbrev pub read_inode : ℕ → FileSystem → FileSystem
read_inode i f =
    let ip = f.inodes i in
    set_inode i
      (record (load_inode (block_at (inode_block ip.inum f.disk.sb) f.disk) (inode_offset ip.inum)
        ip) { valid = true })
      f

abbrev pub check_kind : ℕ → FileSystem → Outcome FileSystem
check_kind i f = if (f.inodes i).kind == 0 then panic else ok f

-- ilock()
unfoldable pub ilock : ℕ → FileSystem → Outcome FileSystem
ilock i f =
    if (f.inodes i).ref <ℤ pos 1
    then panic
    else do f ← lock_inode i f; if (f.inodes i).valid then ok f else check_kind i (read_inode i f)

-- iunlock()
unfoldable pub iunlock : ℕ → FileSystem → Outcome FileSystem
iunlock i f =
    if not (f.inodes i).lock || (f.inodes i).ref <ℤ pos 1 then panic else ok (unlock_inode i f)

-- if(a) bfree(dev, a)
abbrev pub free_if : ℕ → FileSystem → Outcome FileSystem
free_if a f = if a == 0 then ok f else on_disk (bfree a f.disk) f

-- The loop over the direct blocks of itrunc() from `j` on, with `n` to go
unfoldable pub trunc_direct : ℕ → ℕ → ℕ → FileSystem → Outcome FileSystem
trunc_direct i zero j f = ok f
trunc_direct i (suc n) j f = do
  f ← free_if ((f.inodes i).addrs j) f
  trunc_direct i n (j + 1)
      (set_inode i (record (f.inodes i) { addrs = write (f.inodes i).addrs j 0 }) f)

-- The loop over the indirect blocks; `bp` is the number of the block that lists them.
unfoldable pub trunc_indirect : ℕ → ℕ → ℕ → FileSystem → Outcome FileSystem
trunc_indirect bp zero j f = ok f
trunc_indirect bp (suc n) j f = do
  f ← free_if (word_at (block_at bp f.disk) (4 * j)) f
  trunc_indirect bp n (j + 1) f

abbrev pub trunc_list : ℕ → FileSystem → Outcome FileSystem
trunc_list i f =
    let a = (f.inodes i).addrs ndirect in
    if a == 0 then ok f else do
      f ← trunc_indirect a nindirect 0 f
      f ← on_disk (bfree a f.disk) f
      ok (set_inode i (record (f.inodes i) { addrs = write (f.inodes i).addrs ndirect 0 }) f)

-- itrunc()
unfoldable pub itrunc : ℕ → FileSystem → Outcome FileSystem
itrunc i f = do
  f ← trunc_direct i ndirect 0 f
  f ← trunc_list i f
  iupdate i (set_inode i (record (f.inodes i) { size = 0 }) f)

-- The inode has no links and no other references.
abbrev pub free_inode : ℕ → FileSystem → Outcome FileSystem
free_inode i f = do
  f ← itrunc i f
  f ← iupdate i (set_inode i (record (f.inodes i) { kind = 0 }) f)
  ok (set_inode i (record (f.inodes i) { valid = false }) f)

abbrev pub free_if_last : ℕ → FileSystem → Outcome FileSystem
free_if_last i f =
    if (f.inodes i).valid && (f.inodes i).nlink == 0
    then (do
      f ← lock_icache f
      f ← unlock_icache f
      if (f.inodes i).ref ==ℤ pos 1 then free_inode i f else ok f)
    else ok f

-- iput()
unfoldable pub iput : ℕ → FileSystem → Outcome FileSystem
iput i f = do
  f ← lock_inode i f
  f ← free_if_last i f
  f ← lock_icache (unlock_inode i f)
  unlock_icache (set_inode i (record (f.inodes i) { ref = decr (f.inodes i).ref }) f)

unfoldable pub iunlockput : ℕ → FileSystem → Outcome FileSystem
iunlockput i f = do f ← iunlock i f; iput i f

-- stati(): `struct stat`
pub record Stat : Type 0 where
  pub kind : ℕ
  pub dev : ℕ
  pub ino : ℕ
  pub nlink : ℕ
  pub size : ℕ

unfoldable pub stati : Inode → Stat
stati ip = record { kind = ip.kind; dev = ip.dev; ino = ip.inum; nlink = ip.nlink; size = ip.size }
