-- ===== src/Sysfile/Create.antt =====
-- sysfile.c: create, and the calls that make files, directories and devices.
use shared_memory.Prelude.{
  ℕ, ◌%◌, not, ◌&&◌, ◌||◌, Option, none, some, [], ◌∷◌, ◌==◌, if◌then◌else◌, bit_and, write, ℤ, pos,
  ◌<ℤ◌, Outcome, ok, panic, ◌>>=◌,
}
use shared_memory.Syscall.{argint}
use shared_memory.Inode.{FileSystem, set_inode, ialloc, ilock, iunlock, iunlockput, iupdate}
use shared_memory.Content.{t_dir, t_file, t_dev}
use shared_memory.Dir.{Text, dirlookup, dirlink, namei, nameiparent}
use shared_memory.File.{fd_inode, File, filealloc}
use shared_memory.FileIo.{Here, Sys, with_fs, start_op, finish_op, close_file}
use shared_memory.Sysfile.{argtext, fail, fail_op, fdalloc, named, link_count, count_up}

abbrev pub o_wronly : ℕ
o_wronly = 1

abbrev pub o_rdwr : ℕ
o_rdwr = 2

abbrev pub o_create : ℕ
o_create = 0x200

-- The result of create(): a locked inode, or none for 0
abbrev pub CreateResult : Type 0
CreateResult = Option ℕ × Sys

-- create() of a name that is there, as the inode `i`
abbrev pub create_old : ℕ → ℕ → ℕ → Sys → Outcome CreateResult
create_old kind d i s = do
  s ← with_fs (iunlockput d s.fs) s
  s ← with_fs (ilock i s.fs) s
  if kind == t_file && (s.fs.inodes i).kind == t_file
      then ok (some i, s)
      else do s ← with_fs (iunlockput i s.fs) s; ok (none, s)

-- dirlink() that must not fail
abbrev pub must_link : Here → ℕ → Text → ℕ → Sys → Outcome Sys
must_link h d name inum s = do
  (r, f) ← dirlink h.devices d name inum s.fs
  if r <ℤ pos 0 then panic else ok (record s { fs = f })

-- if(type == T_DIR) { ... }
abbrev pub make_dots : Here → ℕ → ℕ → ℕ → Sys → Outcome Sys
make_dots h kind d i s =
    if kind == t_dir
    then (do
      s ← with_fs (iupdate d (link_count d count_up s.fs)) s
      s ← must_link h i (46 ∷ []) (s.fs.inodes i).inum s
      must_link h i (46 ∷ 46 ∷ []) (s.fs.inodes d).inum s)
    else ok s

-- ip->major = major; ip->minor = minor; ip->nlink = 1;
abbrev pub fresh_fields : ℕ → ℕ → ℕ → FileSystem → FileSystem
fresh_fields major minor i f =
    set_inode i (record (f.inodes i) { major = major % 65536; minor = minor % 65536; nlink = 1 }) f

-- create() of a name that is not there
abbrev pub create_new : Here → ℕ → ℕ → ℕ → ℕ → Text → Sys → Outcome CreateResult
create_new h kind major minor d name s = do
  (i, f) ← ialloc (s.fs.inodes d).dev kind s.fs
  s ← with_fs (ilock i f) s
  s ← with_fs (iupdate i (fresh_fields major minor i s.fs)) s
  s ← make_dots h kind d i s
  s ← must_link h d name (s.fs.inodes i).inum s
  s ← with_fs (iunlockput d s.fs) s
  ok (some i, s)

abbrev pub create_in : Here → ℕ → ℕ → ℕ → ℕ → Text → Sys → Outcome CreateResult
create_in h kind major minor d name s = do
  s ← with_fs (ilock d s.fs) s
  (found, f) ← dirlookup h.devices d name s.fs
  let s = record s { fs = f }
  elim found [
    | some (i, off) ↦ create_old kind d i s
    | none ↦ create_new h kind major minor d name s
  ]

-- create()
unfoldable pub create : Here → Text → ℕ → ℕ → ℕ → Sys → Outcome CreateResult
create h path kind major minor s = do
  (found, s) ← named (nameiparent h.devices s.cwd path s.fs) s
  elim found [ none ↦ ok (none, s) | some (d, name) ↦ create_in h kind major minor d name s ]

-- The inode that sys_open() opens, locked, or none once it has failed
abbrev pub open_old : Here → Text → ℕ → Sys → Outcome CreateResult
open_old h path omode s = do
  (found, s) ← named (namei h.devices s.cwd path s.fs) s
  elim found [
    | none ↦ ok (none, s)
    | some (i, _) ↦ (do
      s ← with_fs (ilock i s.fs) s
      if (s.fs.inodes i).kind == t_dir && not (omode == 0)
          then (do s ← with_fs (iunlockput i s.fs) s; ok (none, s))
          else ok (some i, s))
  ]

abbrev pub open_inode : Here → Text → ℕ → Sys → Outcome CreateResult
open_inode h path omode s =
    if bit_and omode o_create == 0 then open_old h path omode s else create h path t_file 0 0 s

-- The fields of the open file
abbrev pub opened : ℕ → ℕ → File → File
opened omode i f = record f {
  kind = fd_inode;
  ip = i;
  off = 0;
  readable = bit_and omode o_wronly == 0;
  writable = not (bit_and omode o_wronly == 0) || not (bit_and omode o_rdwr == 0);
}

-- No file or no descriptor: iunlockput(ip); end_op(); return -1;
abbrev pub open_failed : Here → ℕ → Sys → Outcome (ℤ × Sys)
open_failed h i s = do s ← with_fs (iunlockput i s.fs) s; fail_op h s

abbrev pub open_slot : Here → ℕ → ℕ → ℕ → Option ℕ × Sys → Outcome (ℤ × Sys)
open_slot h omode i k (none, s) = do (c, s) ← close_file h k s; open_failed h i s
open_slot h omode i k (some fd, s) = do
  s ← with_fs (iunlock i s.fs) s
  s ← finish_op h s
  let files = record (s.files) { files = write s.files.files k (opened omode i (s.files.files k)) }
  ok (pos fd, record s { files = files })

-- sys_open() once the inode `i` is locked
abbrev pub open_file : Here → ℕ → ℕ → Sys → Outcome (ℤ × Sys)
open_file h omode i s = do
  (slot, t) ← filealloc s.files
  let s = record s { files = t }
  elim slot [ none ↦ open_failed h i s | some k ↦ open_slot h omode i k (fdalloc k s) ]

-- sys_open()
unfoldable pub sys_open : Here → Sys → Outcome (ℤ × Sys)
sys_open h s = elim (argtext 0 s) [
  | none ↦ fail s
  | some path ↦ elim (argint 1 s.user) [
    | none ↦ fail s
    | some omode ↦ (do
      s ← start_op h s
      (found, s) ← open_inode h path omode s
      elim found [ none ↦ fail_op h s | some i ↦ open_file h omode i s ])
  ]
]

-- iunlockput(ip); end_op(); return 0; of an inode that was created
abbrev pub made : Here → CreateResult → Outcome (ℤ × Sys)
made h (none, s) = fail_op h s
made h (some i, s) = do s ← with_fs (iunlockput i s.fs) s; s ← finish_op h s; ok (pos 0, s)

-- sys_mkdir() and sys_mknod(): the arguments are fetched within the transaction.
unfoldable pub sys_mkdir : Here → Sys → Outcome (ℤ × Sys)
sys_mkdir h s = do
  s ← start_op h s
  elim (argtext 0 s) [
    | none ↦ fail_op h s
    | some path ↦ (do c ← create h path t_dir 0 0 s; made h c)
  ]

unfoldable pub sys_mknod : Here → Sys → Outcome (ℤ × Sys)
sys_mknod h s = do
  s ← start_op h s
  elim (argtext 0 s) [
    | none ↦ fail_op h s
    | some path ↦ elim (argint 1 s.user) [
      | none ↦ fail_op h s
      | some major ↦ elim (argint 2 s.user) [
        | none ↦ fail_op h s
        | some minor ↦ (do c ← create h path t_dev major minor s; made h c)
      ]
    ]
  ]
