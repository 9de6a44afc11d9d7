-- ===== src/Sysfile.antt =====
-- sysfile.c: the system calls on files and directories.
pub mod Create
pub mod Unlink
pub mod Descriptors
pub mod Pipes
use shared_memory.Prelude.{
  ℕ, zero, suc, ◌+◌, ◌-◌, ◌*◌, ◌%◌, Bool, true, false, not, ◌&&◌, ◌||◌, Option, none, some, List,
  [], ◌∷◌, ltb, leb, ◌==◌, if◌then◌else◌, bit_and, write, ℤ, pos, negsuc, minus_one, ◌<ℤ◌, ◌==ℤ◌,
  Outcome, ok, panic, out_of_fuel, ◌>>=◌,
}
use shared_memory.Proc.{scan}
use shared_memory.Bits.{put_int}
use shared_memory.Shm.Table.{to_int}
use shared_memory.Syscall.{User, argint, argptr, argstr}
use shared_memory.Inode.{
  FileSystem, Inode, Stat, set_inode, ialloc, ilock, iunlock, iunlockput, iput, iupdate,
}
use shared_memory.Content.{Io, Devices, t_dir, t_file, t_dev, writei}
use shared_memory.Dir.{
  Text, NameResult, dirent_size, read_dirent, entry_inum, char_at, namecmp, dirlookup, dirlink,
  namei, nameiparent,
}
use shared_memory.File.{FileKind, fd_inode, File, FileTable, Closing, nothing, filealloc, filedup}
use shared_memory.FileIo.{
  Here, Sys, Transfer, gives, with_fs, start_op, finish_op, close_file, filestat, fileread,
  filewrite,
}

abbrev pub nofile : ℕ
nofile = 16

-- The file of a descriptor
abbrev pub file_of : Sys → ℤ → Option (ℕ × ℕ)
file_of s (negsuc n) = none
file_of s (pos fd) =
    if leb nofile fd then none else elim (s.ofile fd) [ none ↦ none | some i ↦ some (fd, i) ]

-- argfd(n, pfd, pf): the descriptor and the slot of its file, or none for -1
unfoldable pub argfd : ℕ → Sys → Option (ℕ × ℕ)
argfd n s = elim (argint n s.user) [ none ↦ none | some w ↦ file_of s (to_int w) ]

abbrev pub is_none : Option ℕ → Bool
is_none none = true
is_none (some i) = false

abbrev pub install_fd : ℕ → Option ℕ → Sys → Option ℕ × Sys
install_fd i none s = (none, s)
install_fd i (some fd) s = (some fd, record s { ofile = write s.ofile fd (some i) })

-- fdalloc() of the file in slot `i`: the lowest free descriptor, or none for -1
unfoldable pub fdalloc : ℕ → Sys → Option ℕ × Sys
fdalloc i s = install_fd i (scan (λ fd. is_none (s.ofile fd)) nofile 0) s

abbrev pub fail : Sys → Outcome (ℤ × Sys)
fail s = ok (minus_one, s)

abbrev pub dup_into : ℕ → Option ℕ × Sys → Outcome (ℤ × Sys)
dup_into i (none, s) = fail s
dup_into i (some fd, s) = do t ← filedup i s.files; ok (pos fd, record s { files = t })

-- sys_dup()
unfoldable pub sys_dup : Sys → Outcome (ℤ × Sys)
sys_dup s = elim (argfd 0 s) [ none ↦ fail s | some (fd, i) ↦ dup_into i (fdalloc i s) ]

abbrev pub io_call : (ℕ → ℕ → ℕ → Sys → Outcome (Transfer × Sys)) → Sys → Outcome (Transfer × Sys)
io_call f s = elim (argfd 0 s) [
  | none ↦ ok (gives minus_one, s)
  | some (fd, i) ↦ elim (argint 2 s.user) [
    | none ↦ ok (gives minus_one, s)
    | some n ↦ elim (argptr 1 (to_int n) s.user) [
      | none ↦ ok (gives minus_one, s)
      | some p ↦ f i p n s
    ]
  ]
]

-- sys_read() and sys_write()
unfoldable pub sys_read : Here → Sys → Outcome (Transfer × Sys)
sys_read h s = io_call (fileread h) s

unfoldable pub sys_write : Here → Sys → Outcome (Transfer × Sys)
sys_write h s = io_call (filewrite h) s

-- sys_close(): what is left of the close, if there was one
unfoldable pub sys_close : Here → Sys → Outcome (ℤ × Closing × Sys)
sys_close h s = elim (argfd 0 s) [
  | none ↦ ok (minus_one, nothing, s)
  | some (fd, i) ↦ (do
    (c, s) ← close_file h i (record s { ofile = write s.ofile fd none })
    ok (pos 0, c, s))
]

-- sizeof(struct stat)
abbrev pub stat_size : ℕ
stat_size = 20

-- sys_fstat(): the address of the buffer and what is stored there
unfoldable pub sys_fstat : Sys → Outcome (Option (ℕ × Stat) × Sys)
sys_fstat s = elim (argfd 0 s) [
  | none ↦ ok (none, s)
  | some (fd, i) ↦ elim (argptr 1 (pos stat_size) s.user) [
    | none ↦ ok (none, s)
    | some p ↦ (do
      (st, s) ← filestat i s
      elim st [ none ↦ ok (none, s) | some st ↦ ok (some (p, st), s) ])
  ]
]

-- `n` characters of a string in memory
unfoldable pub text_from : (ℕ → ℕ) → ℕ → ℕ → Text
text_from m a zero = []
text_from m a (suc n) = m a ∷ text_from m (a + 1) n

-- A string argument
abbrev pub argtext : ℕ → Sys → Option Text
argtext n s = elim (argstr n s.user) [
  | none ↦ none
  | some (a, len) ↦ some (text_from s.user.mem a len)
]

-- end_op(); return -1;
abbrev pub fail_op : Here → Sys → Outcome (ℤ × Sys)
fail_op h s = do s ← finish_op h s; fail s

-- A search for a path with its result
abbrev pub named : Outcome (NameResult × FileSystem) → Sys → Outcome (NameResult × Sys)
named r s = do (found, f) ← r; ok (found, record s { fs = f })

abbrev pub link_count : ℕ → (ℕ → ℕ) → FileSystem → FileSystem
link_count i g f = set_inode i (record (f.inodes i) { nlink = g (f.inodes i).nlink }) f

-- nlink++ and nlink-- on a short
abbrev pub count_up : ℕ → ℕ
count_up n = (n + 1) % 65536

abbrev pub count_down : ℕ → ℕ
count_down n = (n + 65535) % 65536

-- The label `bad` of sys_link()
abbrev pub unlink_again : Here → ℕ → Sys → Outcome (ℤ × Sys)
unlink_again h i s = do
  s ← with_fs (ilock i s.fs) s
  s ← with_fs (iupdate i (link_count i count_down s.fs)) s
  s ← with_fs (iunlockput i s.fs) s
  fail_op h s

-- dp->dev != ip->dev || dirlink(dp, name, ip->inum) < 0
abbrev pub link_in : Here → ℕ → ℕ → Text → FileSystem → Outcome (Bool × FileSystem)
link_in h d i name f =
    if not ((f.inodes d).dev == (f.inodes i).dev)
    then ok (false, f)
    else do (r, f) ← dirlink h.devices d name (f.inodes i).inum f; ok (not (r <ℤ pos 0), f)

-- sys_link() once the old name is found in the inode `i`
abbrev pub link_new : Here → ℕ → Text → Sys → Outcome (ℤ × Sys)
link_new h i new s = do
  s ← with_fs (ilock i s.fs) s
  if (s.fs.inodes i).kind == t_dir then (do s ← with_fs (iunlockput i s.fs) s; fail_op h s) else do
    s ← with_fs (iupdate i (link_count i count_up s.fs)) s
    s ← with_fs (iunlock i s.fs) s
    (found, s) ← named (nameiparent h.devices s.cwd new s.fs) s
    elim found [
      | none ↦ unlink_again h i s
      | some (d, name) ↦ (do
        s ← with_fs (ilock d s.fs) s
        (linked, f) ← link_in h d i name s.fs
        s ← with_fs (iunlockput d f) s
        if not linked
            then unlink_again h i s
            else do s ← with_fs (iput i s.fs) s; s ← finish_op h s; ok (pos 0, s))
    ]

-- sys_link()
unfoldable pub sys_link : Here → Sys → Outcome (ℤ × Sys)
sys_link h s = elim (argtext 0 s) [
  | none ↦ fail s
  | some old ↦ elim (argtext 1 s) [
    | none ↦ fail s
    | some new ↦ (do
      s ← start_op h s
      (found, s) ← named (namei h.devices s.cwd old s.fs) s
      elim found [ none ↦ fail_op h s | some (i, _) ↦ link_new h i new s ])
  ]
]
