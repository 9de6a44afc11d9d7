-- ===== src/Inode/Persist.antt =====
-- iupdate() of fs.c, and ilock() that reads the inode back.
use shared_memory.Prelude.{
  ℕ, ◌+◌, ◌/◌, ◌≤◌, ◌<◌, ◌≡◌, ◌≢◌, refl, ◌∙◌, ap, Bool, true, false, arith, if◌then◌else◌, ◌==◌,
  ==-refl, Bool-cases, inl, inr, pos, ◌<ℤ◌, Outcome, ok, panic, ◌>>=◌,
}
use shared_memory.Log.{Block}
use shared_memory.Fs.{Disk, block_at}
use shared_memory.Fs.Room.{HasRoom, written, write_block-written, written_self}
use shared_memory.Inode.{
  Inode, FileSystem, inode_block, inode_offset, load_inode, store_inode, iupdate, ilock, set_inode,
  check_kind, lock_inode, read_inode, dinode_size, ipb,
}
use shared_memory.Inode.Codec.{IsSmall, SameFields, load-store, store-outside}

-- The file system after iupdate()
abbrev pub updated : ℕ → FileSystem → FileSystem
updated i f = record f {
  disk =
      written (inode_block (f.inodes i).inum f.disk.sb)
        (store_inode (f.inodes i) (inode_offset (f.inodes i).inum)
          (block_at (inode_block (f.inodes i).inum f.disk.sb) f.disk))
        f.disk;
}

pub iupdate-updated : (i : ℕ) (f : FileSystem) → HasRoom 1 f.disk → iupdate i f ≡ ok (updated i f)
unfolding iupdate
iupdate-updated i f r =
    rw
      (write_block-written 0 (inode_block (f.inodes i).inum f.disk.sb)
        (store_inode (f.inodes i) (inode_offset (f.inodes i).inum)
          (block_at (inode_block (f.inodes i).inum f.disk.sb) f.disk))
        f.disk r)
      refl

-- The byte `y` of the inode with the number `n` on the disk
abbrev pub inode_byte : ℕ → ℕ → FileSystem → ℕ
inode_byte n y f = block_at (inode_block n f.disk.sb) f.disk (inode_offset n + y)

other_place :
    (n m y : ℕ)
    → n ≢ m
    → y < dinode_size
    → n / ipb ≡ m / ipb
    → ¬ (inode_offset m ≤ inode_offset n + y × inode_offset n + y < inode_offset m + 64)
other_place n m y h p e (a, b) = h (omega arith)

updated-other :
    (i n y : ℕ) (f : FileSystem)
    → IsSmall (f.inodes i)
    → n ≢ (f.inodes i).inum
    → y < dinode_size
    → inode_byte n y (updated i f) ≡ inode_byte n y f
updated-other i n y f s h p =
    let m = (f.inodes i).inum in
    let sb = f.disk.sb in
    let x = store_inode (f.inodes i) (inode_offset m) (block_at (inode_block m sb) f.disk) in
    elim (Bool-cases (inode_block n sb == inode_block m sb)) [
      | inl e ↦
          (let q : inode_block n sb ≡ inode_block m sb = ground arith in
            let o = other_place n m y h p (omega arith) in
            rw (q, written_self (inode_block m sb) x f.disk)
              (store-outside (f.inodes i) (f.inodes i) (inode_offset m)
                (block_at (inode_block m sb) f.disk) s (inode_offset n + y) (omega arith)))
      | inr e ↦ rw e refl
    ]

-- The entry as ilock() reads it from the disk
abbrev loaded : ℕ → FileSystem → Inode
loaded j f =
    load_inode (block_at (inode_block (f.inodes j).inum f.disk.sb) f.disk)
      (inode_offset (f.inodes j).inum) (record (f.inodes j) { lock = true })

-- The entry with the fields of its inode on the disk
abbrev from_disk : Disk → Inode → Inode
from_disk k ip =
    record (load_inode (block_at (inode_block ip.inum k.sb) k) (inode_offset ip.inum) ip) {
      valid = true;
    }

read_inode-entry :
    (j : ℕ) (g : FileSystem) → (read_inode j g).inodes j ≡ from_disk g.disk (g.inodes j)
read_inode-entry j g = rw (==-refl j) refl

check_kind-ok : (j : ℕ) (g : FileSystem) → ((g.inodes j).kind == 0) ≡ false → check_kind j g ≡ ok g
check_kind-ok j g h = rw h refl

load_inode-lock : (x : Block) (o : ℕ) (ip : Inode) → (load_inode x o ip).lock ≡ ip.lock
unfolding load_inode
load_inode-lock x o ip = refl

lock_inode-ok :
    (j : ℕ) (f : FileSystem)
    → (f.inodes j).lock ≡ false
    → lock_inode j f ≡ ok (set_inode j (record (f.inodes j) { lock = true }) f)
lock_inode-ok j f h = simp h refl

if-false : (b : Bool) (x y : Outcome FileSystem) → b ≡ false → (if b then x else y) ≡ y
if-false b x y h = rw h refl

abbrev read_if_stale : ℕ → FileSystem → Outcome FileSystem
read_if_stale j f = if (f.inodes j).valid then ok f else check_kind j (read_inode j f)

ilock-run :
    (j : ℕ) (f g h : FileSystem)
    → ((f.inodes j).ref <ℤ pos 1) ≡ false
    → lock_inode j f ≡ ok g
    → (g.inodes j).valid ≡ false
    → check_kind j (read_inode j g) ≡ ok h
    → ilock j f ≡ ok h
unfolding ilock
ilock-run j f g h used l v c =
    if-false ((f.inodes j).ref <ℤ pos 1) panic (lock_inode j f >>= read_if_stale j) used
    ∙ ap (λ o. o >>= read_if_stale j) l
    ∙ if-false (g.inodes j).valid (ok g) (check_kind j (read_inode j g)) v
    ∙ c

ilock-loaded :
    (j : ℕ) (f : FileSystem)
    → (f.inodes j).lock ≡ false
    → (f.inodes j).valid ≡ false
    → ((f.inodes j).ref <ℤ pos 1) ≡ false
    → ((loaded j f).kind == 0) ≡ false
    → (f2 : FileSystem) × (ilock j f ≡ ok f2)
      × (f2.inodes j ≡ record (loaded j f) { valid = true })
      × (f2.disk ≡ f.disk)
ilock-loaded j f unlocked stale used nz =
    let g = set_inode j (record (f.inodes j) { lock = true }) f in
    let e : g.inodes j ≡ record (f.inodes j) { lock = true } = ground arith in
    let v : (g.inodes j).valid ≡ false = ap (λ ip. ip.valid) e ∙ stale in
    let q : (read_inode j g).inodes j ≡ record (loaded j f) { valid = true } =
      read_inode-entry j g ∙ ap (from_disk f.disk) e in
    let z : (((read_inode j g).inodes j).kind == 0) ≡ false = ap (λ ip. ip.kind == 0) q ∙ nz in
    (
      read_inode j g,
      ilock-run j f g (read_inode j g) used (lock_inode-ok j f unlocked) v
          (check_kind-ok j (read_inode j g) z),
      q,
      refl,
    )

-- iupdate() of an inode, in a transaction whose log takes one more block, and then ilock() of an entry
-- of the cache for the same inode that has not been read yet: the entry is locked and valid with the
-- fields of the inode that was written, and the bytes of every other inode on the disk are as they
-- were. The fields fit in those of the disk, and the inode is not free.
pub ilock-iupdate :
    (i j : ℕ) (f : FileSystem)
    → HasRoom 1 f.disk
    → IsSmall (f.inodes i)
    → (f.inodes i).kind ≢ 0
    → (f.inodes j).inum ≡ (f.inodes i).inum
    → (f.inodes j).lock ≡ false
    → (f.inodes j).valid ≡ false
    → ((f.inodes j).ref <ℤ pos 1) ≡ false
    → (f1 : FileSystem) × (f2 : FileSystem) × (iupdate i f ≡ ok f1)
      × (ilock j f1 ≡ ok f2)
      × SameFields (f.inodes i) (f2.inodes j)
      × ((f2.inodes j).valid ≡ true)
      × ((f2.inodes j).lock ≡ true)
      × ((n y : ℕ) → n ≢ (f.inodes i).inum → y < dinode_size → inode_byte n y f2 ≡ inode_byte n y f)
ilock-iupdate i j f r s k same unlocked stale used =
    let m = (f.inodes i).inum in
    let b = inode_block m f.disk.sb in
    let x = store_inode (f.inodes i) (inode_offset m) (block_at b f.disk) in
    let f1 = updated i f in
    let e : block_at b f1.disk ≡ x = written_self b x f.disk in
    let ip = record (f.inodes j) { lock = true } in
    let here : loaded j f1 ≡ load_inode x (inode_offset m) ip = rw (same, e) refl in
    let fields : SameFields (f.inodes i) (load_inode x (inode_offset m) ip) =
      load-store (f.inodes i) ip (inode_offset m) (block_at b f.disk) s in
    let fields1 : SameFields (f.inodes i) (loaded j f1) = rw here fields in
    let nz : ((loaded j f1).kind == 0) ≡ false = (let z = fields1.kind in ground arith) in
    let (f2, run, q, d) = ilock-loaded j f1 unlocked stale used nz in
    (
      f1,
      f2,
      iupdate-updated i f r,
      run,
      rw q (copied (f.inodes i) (loaded j f1) fields1),
      rw q refl,
      ap (λ ip. ip.lock) q ∙ ap (λ ip. ip.lock) here ∙ load_inode-lock x (inode_offset m) ip,
      λ n y h p.
          ap (λ k. block_at (inode_block n k.sb) k (inode_offset n + y)) d
          ∙ updated-other i n y f s h p,
    )
  where
    copied : (ip q : Inode) → SameFields ip q → SameFields ip (record q { valid = true })
    copied ip q h = record {
      kind = h.kind;
      major = h.major;
      minor = h.minor;
      nlink = h.nlink;
      size = h.size;
      addrs = h.addrs;
    }
