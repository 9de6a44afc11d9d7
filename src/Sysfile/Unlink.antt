-- ===== src/Sysfile/Unlink.antt =====
-- sysfile.c: unlink and chdir.
use shared_memory.Prelude.{
  ℕ, zero, suc, ◌+◌, ◌-◌, Bool, true, false, not, ◌||◌, none, some, [], ◌∷◌, ltb, leb, ◌==◌,
  if◌then◌else◌, ℤ, pos, ◌==ℤ◌, Outcome, ok, panic, out_of_fuel, ◌>>=◌,
}
use shared_memory.Inode.{FileSystem, ilock, iunlock, iunlockput, iput, iupdate}
use shared_memory.Content.{Devices, t_dir, writei}
use shared_memory.Dir.{
  Text, dirent_size, read_dirent, entry_inum, char_at, namecmp, dirlookup, namei, nameiparent,
}
use shared_memory.FileIo.{Here, Sys, with_fs, start_op, finish_op}
use shared_memory.Sysfile.{argtext, fail, fail_op, named, link_count, count_down}

-- The loop of isdirempty() from the offset `off` on
unfoldable pub empty_from : Devices → ℕ → ℕ → ℕ → FileSystem → Outcome (Bool × FileSystem)
empty_from dev zero d off f = if ltb off (f.inodes d).size then out_of_fuel else ok (true, f)
empty_from dev (suc fuel) d off f =
    if ltb off (f.inodes d).size
    then (do
      (de, f) ← read_dirent dev d off f
      let rest = empty_from dev fuel d (off + dirent_size) f
      if entry_inum de == 0 then rest else ok (false, f))
    else ok (true, f)

-- isdirempty(): the first two entries are "." and "..".
unfoldable pub isdirempty : Devices → ℕ → FileSystem → Outcome (Bool × FileSystem)
isdirempty dev d f = empty_from dev (f.inodes d).size d (dirent_size + dirent_size) f

-- "." and ".."
abbrev pub dot : Text
dot = 46 ∷ []

abbrev pub dot_dot : Text
dot_dot = 46 ∷ 46 ∷ []

abbrev pub is_dots : Text → Bool
is_dots name =
    (namecmp name (λ a. char_at dot (a - 2)) ==ℤ pos 0)
    || (namecmp name (λ a. char_at dot_dot (a - 2)) ==ℤ pos 0)

-- The label `bad` of sys_unlink()
abbrev pub drop_parent : Here → ℕ → Sys → Outcome (ℤ × Sys)
drop_parent h d s = do s ← with_fs (iunlockput d s.fs) s; fail_op h s

-- writei(dp, &de, off, sizeof(de)) of an empty entry
abbrev pub clear_entry : Here → ℕ → ℕ → Sys → Outcome Sys
clear_entry h d off s = do
  (r, io) ← writei h.devices d 0 off dirent_size (record { mem = λ a. 0; fs = s.fs })
  if r ==ℤ pos dirent_size then ok (record s { fs = io.fs }) else panic

-- if(ip->type == T_DIR) { dp->nlink--; iupdate(dp); }
abbrev pub drop_dots : ℕ → ℕ → Sys → Outcome Sys
drop_dots d i s =
    if (s.fs.inodes i).kind == t_dir
    then with_fs (iupdate d (link_count d count_down s.fs)) s
    else ok s

-- ip->type == T_DIR && !isdirempty(ip)
abbrev pub is_full_dir : Here → ℕ → Sys → Outcome (Bool × Sys)
is_full_dir h i s =
    if (s.fs.inodes i).kind == t_dir
    then (do (empty, f) ← isdirempty h.devices i s.fs; ok (not empty, record s { fs = f }))
    else ok (false, s)

-- The end of sys_unlink(): the entry at the offset `off` of the directory `d`, for the inode `i`
abbrev pub remove_entry : Here → ℕ → ℕ → ℕ → Sys → Outcome (ℤ × Sys)
remove_entry h d i off s = do
  s ← clear_entry h d off s
  s ← drop_dots d i s
  s ← with_fs (iunlockput d s.fs) s
  s ← with_fs (iupdate i (link_count i count_down s.fs)) s
  s ← with_fs (iunlockput i s.fs) s
  s ← finish_op h s
  ok (pos 0, s)

-- ip->nlink < 1, on a short
abbrev pub has_no_link : ℕ → Bool
has_no_link n = n == 0 || leb 32768 n

-- sys_unlink() once the entry is found
abbrev pub unlink_found : Here → ℕ → ℕ → ℕ → Sys → Outcome (ℤ × Sys)
unlink_found h d i off s = do
  s ← with_fs (ilock i s.fs) s
  if has_no_link (s.fs.inodes i).nlink then panic else do
    (full, s) ← is_full_dir h i s
    if full
        then (do s ← with_fs (iunlockput i s.fs) s; drop_parent h d s)
        else remove_entry h d i off s

-- sys_unlink() in the directory `d`
abbrev pub unlink_in : Here → ℕ → Text → Sys → Outcome (ℤ × Sys)
unlink_in h d name s = do
  s ← with_fs (ilock d s.fs) s
  if is_dots name then drop_parent h d s else do
    (found, f) ← dirlookup h.devices d name s.fs
    let s = record s { fs = f }
    elim found [ none ↦ drop_parent h d s | some (i, off) ↦ unlink_found h d i off s ]

-- sys_unlink()
unfoldable pub sys_unlink : Here → Sys → Outcome (ℤ × Sys)
sys_unlink h s = elim (argtext 0 s) [
  | none ↦ fail s
  | some path ↦ (do
    s ← start_op h s
    (found, s) ← named (nameiparent h.devices s.cwd path s.fs) s
    elim found [ none ↦ fail_op h s | some (d, name) ↦ unlink_in h d name s ])
]

-- sys_chdir() in the inode `i`
abbrev pub enter : Here → ℕ → Sys → Outcome (ℤ × Sys)
enter h i s = do
  s ← with_fs (ilock i s.fs) s
  if not ((s.fs.inodes i).kind == t_dir)
      then (do s ← with_fs (iunlockput i s.fs) s; fail_op h s)
      else do
        s ← with_fs (iunlock i s.fs) s
        s ← with_fs (iput s.cwd s.fs) s
        s ← finish_op h s
        ok (pos 0, record s { cwd = i })

-- sys_chdir(): the argument is fetched within the transaction.
unfoldable pub sys_chdir : Here → Sys → Outcome (ℤ × Sys)
sys_chdir h s = do
  s ← start_op h s
  elim (argtext 0 s) [
    | none ↦ fail_op h s
    | some path ↦ (do
      (found, s) ← named (namei h.devices s.cwd path s.fs) s
      elim found [ none ↦ fail_op h s | some (i, _) ↦ enter h i s ])
  ]
