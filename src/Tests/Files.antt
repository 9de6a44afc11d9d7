-- ===== src/Tests/Files.antt =====
-- The theorems on the file system at concrete inputs.
use shared_memory.Prelude.{
  ℕ, ◌+◌, ◌/◌, ◌≤◌, ◌<◌, ◌≡◌, ◌≢◌, ◌⊎◌, refl, true, false, none, some, arith, [], ◌∷◌, pos, ok,
  panic, ◌==◌, ltb, if◌then◌else◌, write,
}
use shared_memory.Bits.{is_clear}
use shared_memory.Proc.{scan}
use shared_memory.Fs.{Disk, find_free, bpb, block_at, balloc, bfree, bitmap_block}
use shared_memory.Fs.Room.{HasRoom}
use shared_memory.Fs.Bitmap.{free}
use shared_memory.Fs.Blocks.{Reserves, Allocated, balloc_lem, balloc-allocated, allocated}
use shared_memory.Fs.Undo.{bfree-balloc}
use shared_memory.Inode.{FileSystem, is_inode, iget, iupdate, ilock, dinode_size}
use shared_memory.Inode.Cache.{OneEntry, referred, renewed, iget-iget}
use shared_memory.Inode.Codec.{IsSmall, SameFields}
use shared_memory.Inode.Persist.{inode_byte, ilock-iupdate}
use shared_memory.Dir.{Text, skipelem, prefix, dir_size}
use shared_memory.Dir.Paths.{Slashes, Splits, skipelem_lem}

-- A disk of 64 blocks whose bitmap, in block 58, marks those below 59 as used.
abbrev small_disk : Disk
small_disk = record {
  sb = record {
    size = 64;
    nblocks = 5;
    ninodes = 200;
    nlog = 30;
    logstart = 2;
    inodestart = 32;
    bmapstart = 58;
  };
  log = record {
    start = 2;
    size = 30;
    outstanding = pos 1;
    committing = false;
    lh_n = 0;
    lh_block = λ i. 0;
    lock = false;
  };
  store = record {
    disk = λ b i. 0;
    buf = λ b i. if b == 58 then (if ltb i 7 then 255 else if i == 7 then 7 else 0) else 0;
    dirty = λ b. false;
    power = 100;
  };
}

small_disk-HasRoom : (n : ℕ) → n ≤ 29 → HasRoom n small_disk
small_disk-HasRoom n h = record { room = omega arith; others = 0; active = refl; free = refl }

bit_58 : free small_disk 58 ≡ false
unfolding is_clear
bit_58 = refl

small_disk-Reserves : Reserves small_disk
small_disk-Reserves j p = (let e : bitmap_block j small_disk.sb ≡ 58 = omega arith in rw e bit_58)

balloc_lem_example :
    (((j : ℕ) → j < 64 → free small_disk j ≡ false) × (balloc small_disk ≡ panic))
    ⊎ ((b : ℕ) × (k' : Disk) × (balloc small_disk ≡ ok (b, k')) × Allocated b small_disk k')
balloc_lem_example = balloc_lem small_disk (small_disk-HasRoom 2 (omega arith)) small_disk-Reserves

finds_59 : find_free (64 / bpb + 2) 0 small_disk ≡ ok 59
unfolding find_free is_clear scan
finds_59 = refl

bfree-balloc_example :
    (k2 : Disk) × (bfree 59 (allocated 59 small_disk) ≡ ok k2)
    × (free k2 59 ≡ free small_disk 59)
    × ((c : ℕ) → c ≢ 59 → block_at c k2 ≡ block_at c small_disk)
bfree-balloc_example =
    bfree-balloc 59 small_disk (allocated 59 small_disk) (small_disk-HasRoom 3 (omega arith))
      small_disk-Reserves
      (balloc-allocated 59 small_disk (small_disk-HasRoom 2 (omega arith)) finds_59)

-- A cache with one entry in use, for the inode 5.
abbrev pub one_inode : FileSystem
one_inode = record {
  disk = small_disk;
  lock = false;
  inodes = λ i. record {
    dev = 1;
    inum = 5;
    ref = if i == 0 then pos 1 else pos 0;
    lock = i == 0;
    valid = i == 0;
    kind = 2;
    major = 0;
    minor = 0;
    nlink = 1;
    size = 700;
    addrs = λ j. if ltb j 2 then 60 + j else 0;
  };
}

one_inode-OneEntry : OneEntry one_inode
one_inode-OneEntry i j p q a b d n = ground arith

iget_run : iget 1 6 one_inode ≡ ok (1, renewed 1 6 1 one_inode)
unfolding iget scan
iget_run = refl

iget-iget_example :
    OneEntry (renewed 1 6 1 one_inode)
    × (is_inode 1 6 ((renewed 1 6 1 one_inode).inodes 1) ≡ true)
    × (iget 1 6 (renewed 1 6 1 one_inode) ≡ ok (1, referred 1 (renewed 1 6 1 one_inode)))
iget-iget_example =
    iget-iget 1 6 1 one_inode (renewed 1 6 1 one_inode) refl one_inode-OneEntry iget_run

one_inode-IsSmall : IsSmall (one_inode.inodes 0)
one_inode-IsSmall = record {
  kind = omega arith;
  major = omega arith;
  minor = omega arith;
  nlink = omega arith;
  size = omega arith;
  addrs = λ j h. ground arith;
}

-- The entry 0 is written, and a second entry for the inode read.
abbrev two_entries : FileSystem
two_entries = record one_inode {
  inodes = write one_inode.inodes 1 (record (one_inode.inodes 1) { ref = pos 1; size = 0 });
}

ilock-iupdate_example :
    (f1 : FileSystem) × (f2 : FileSystem) × (iupdate 0 two_entries ≡ ok f1)
    × (ilock 1 f1 ≡ ok f2)
    × SameFields (two_entries.inodes 0) (f2.inodes 1)
    × ((f2.inodes 1).valid ≡ true)
    × ((f2.inodes 1).lock ≡ true)
    × ((n y : ℕ) → n ≢ 5 → y < dinode_size → inode_byte n y f2 ≡ inode_byte n y two_entries)
ilock-iupdate_example =
    ilock-iupdate 0 1 two_entries (small_disk-HasRoom 1 (omega arith)) one_inode-IsSmall
      (λ e. absurd (omega arith)) refl refl refl refl

-- "//a/b"
abbrev path : Text
path = 47 ∷ 47 ∷ 97 ∷ 47 ∷ 98 ∷ []

skipelem_lem_example :
    (Slashes path × (skipelem path ≡ none))
    ⊎ ((element : Text) × (rest : Text) × (skipelem path ≡ some (prefix dir_size element, rest))
        × Splits path element rest)
skipelem_lem_example = skipelem_lem path
