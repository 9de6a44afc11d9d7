-- ===== src/FileIo.antt =====
-- file.c: reading, writing and closing open files, each in the transactions that it needs.
use shared_memory.Prelude.{
  ℕ, zero, suc, ◌+◌, ◌-◌, ◌*◌, ◌/◌, ◌%◌, Bool, true, false, not, Option, none, some, ltb,
  if◌then◌else◌, write, ℤ, pos, minus_one, ◌<ℤ◌, ◌==ℤ◌, Outcome, ok, panic, out_of_fuel, ◌>>=◌,
}
use shared_memory.Layout.{word}
use shared_memory.Proc.{ProcTable}
use shared_memory.Proc.Switch.{Cpu}
use shared_memory.Log.{max_op_blocks, begin_op, end_op}
use shared_memory.Inode.{FileSystem, Stat, ilock, iunlock, iput, stati}
use shared_memory.Content.{Io, Devices, readi, writei}
use shared_memory.File.{
  fd_none, fd_pipe, fd_inode, FileTable, Closing, nothing, closes_pipe, closes_inode, fileclose,
}
use shared_memory.Syscall.{User}

-- What a running process sees of itself: its slot and processor, the address of the log, and `devsw`.
pub record Here : Type 0 where
  pub me : ℕ
  pub cpu : Cpu
  pub log_addr : ℕ
  pub devices : Devices

-- The state of a file system call of the process: its memory, the file system, the table of open files,
-- its `ofile` as slots of that table, its `cwd`, and the process table.
pub record Sys : Type 0 where
  pub user : User
  pub fs : FileSystem
  pub files : FileTable
  pub ofile : ℕ → Option ℕ
  pub cwd : ℕ
  pub procs : ProcTable

abbrev pub with_fs : Outcome FileSystem → Sys → Outcome Sys
with_fs r s = do f ← r; ok (record s { fs = f })

-- begin_op(). A call that would sleep goes on when other processes have run; here it has no result.
unfoldable pub start_op : Here → Sys → Outcome Sys
start_op h s = do
  (over, l, t) ← begin_op h.log_addr h.me h.cpu s.fs.disk.log s.procs
  if over
      then ok (record s { fs = record (s.fs) { disk = record (s.fs.disk) { log = l } }; procs = t })
      else out_of_fuel

-- end_op()
unfoldable pub finish_op : Here → Sys → Outcome Sys
finish_op h s = do
  (l, d, t) ← end_op h.log_addr s.fs.disk.log s.fs.disk.store s.procs
  ok (record s {
    fs = record (s.fs) { disk = record (s.fs.disk) { log = l; store = d } };
    procs = t;
  })

-- What fileclose() does after it has given the lock back; the close of a pipe is left to pipe.c.
abbrev pub after_close : Here → Closing → Sys → Outcome (Closing × Sys)
after_close h nothing s = ok (nothing, s)
after_close h (closes_pipe p w) s = ok (closes_pipe p w, s)
after_close h (closes_inode i) s = do
  s ← start_op h s
  s ← with_fs (iput i s.fs) s
  s ← finish_op h s
  ok (nothing, s)

-- fileclose() of the file in slot `i` as a whole
unfoldable pub close_file : Here → ℕ → Sys → Outcome (Closing × Sys)
close_file h i s = do (c, t) ← fileclose i s.files; after_close h c (record s { files = t })

-- filestat()
unfoldable pub filestat : ℕ → Sys → Outcome (Option Stat × Sys)
filestat i s = elim (s.files.files i).kind [
  | fd_inode ↦ (do
    s ← with_fs (ilock (s.files.files i).ip s.fs) s
    let st = stati (s.fs.inodes (s.files.files i).ip)
    s ← with_fs (iunlock (s.files.files i).ip s.fs) s
    ok (some st, s))
  | _ ↦ ok (none, s)
]

-- How a call stands: it has returned, or it goes on in piperead() or pipewrite() of a pipe.
pub data Transfer : Type 0 where
  gives : ℤ → Transfer
  on_pipe : ℕ → Transfer

-- if((r = ...) > 0) f->off += r;
abbrev pub advance : ℕ → ℤ → FileTable → FileTable
advance i (pos n) t = record t {
  files = write t.files i (record (t.files i) { off = ((t.files i).off + n) % word });
}
advance i r t = t

-- readi() or writei() for the process, at the offset of the file
abbrev pub with_io : (Io → Outcome (ℤ × Io)) → ℕ → Sys → Outcome (ℤ × Sys)
with_io f i s = do
  (r, io) ← f (record { mem = s.user.mem; fs = s.fs })
  ok (
    r,
    record s { user = record (s.user) { mem = io.mem }; fs = io.fs; files = advance i r s.files },
  )

-- fileread(f, addr, n) of the file in slot `i`
unfoldable pub fileread : Here → ℕ → ℕ → ℕ → Sys → Outcome (Transfer × Sys)
fileread h i addr n s =
    let f = s.files.files i in
    if not f.readable then ok (gives minus_one, s) else elim f.kind [
      | fd_none ↦ panic
      | fd_pipe ↦ ok (on_pipe f.pipe, s)
      | fd_inode ↦ (do
        s ← with_fs (ilock f.ip s.fs) s
        (r, s) ← with_io (readi h.devices f.ip addr f.off n) i s
        s ← with_fs (iunlock f.ip s.fs) s
        ok (gives r, s))
    ]

-- ((MAXOPBLOCKS-1-1-2) / 2) * 512
abbrev pub max_write : ℕ
max_write = (max_op_blocks - 4) / 2 * 512

-- One round of the loop of filewrite(), with `n1` bytes
abbrev pub write_round : Here → ℕ → ℕ → ℕ → Sys → Outcome (ℤ × Sys)
write_round h i addr n1 s = do
  s ← start_op h s
  s ← with_fs (ilock (s.files.files i).ip s.fs) s
  (r, s) ← with_io (writei h.devices (s.files.files i).ip addr (s.files.files i).off n1) i s
  s ← with_fs (iunlock (s.files.files i).ip s.fs) s
  s ← finish_op h s
  ok (r, s)

abbrev pub at_most_max : ℕ → ℕ
at_most_max n = if ltb max_write n then max_write else n

-- The loop of filewrite() with `n` bytes to go; the flag is whether all were written.
unfoldable pub filewrite_loop : Here → ℕ → ℕ → ℕ → ℕ → Sys → Outcome (Bool × Sys)
filewrite_loop h fuel i addr zero s = ok (true, s)
filewrite_loop h zero i addr (suc n) s = out_of_fuel
filewrite_loop h (suc fuel) i addr (suc n) s = do
  let n1 = at_most_max (suc n)
  (r, s) ← write_round h i addr n1 s
  if r <ℤ pos 0
      then ok (false, s)
      else if not (r ==ℤ pos n1)
      then panic
      else filewrite_loop h fuel i (addr + n1) (suc n - n1) s

abbrev pub write_inode : Here → ℕ → ℕ → ℕ → Sys → Outcome (Transfer × Sys)
write_inode h i addr n s = do
  (all, s) ← filewrite_loop h n i addr n s
  ok (gives (if all then pos n else minus_one), s)

-- filewrite(f, addr, n) of the file in slot `i`
unfoldable pub filewrite : Here → ℕ → ℕ → ℕ → Sys → Outcome (Transfer × Sys)
filewrite h i addr n s =
    let f = s.files.files i in
    if not f.writable then ok (gives minus_one, s) else elim f.kind [
      | fd_none ↦ panic
      | fd_pipe ↦ ok (on_pipe f.pipe, s)
      | fd_inode ↦ write_inode h i addr n s
    ]
