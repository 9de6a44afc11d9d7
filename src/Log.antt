-- ===== src/Log.antt =====
-- log.c: the redo log of the file system, with the disk and the buffers that it reads and writes.
pub mod Loops
pub mod Replay
pub mod Crash
pub mod Recovery
pub mod Atomic
pub mod Space
pub mod Steps
pub mod Reserve
pub mod Keeps
pub mod Safety
use shared_memory.Prelude.{
  ℕ, zero, suc, ◌+◌, ◌-◌, ◌*◌, Bool, true, false, ◌||◌, ltb, leb, ◌==◌, if◌then◌else◌, write, ℤ,
  pos, decr, ◌==ℤ◌, ◌<ℤ◌, Option, none, some, negsuc, incr, Outcome, ok, panic, fault, ◌>>=◌,
  acquire, release,
}
use shared_memory.Proc.{at_address, ProcTable, scan, wakeup}
use shared_memory.Proc.Switch.{Cpu, sleep_before, sleep_after}

abbrev pub max_op_blocks : ℕ
max_op_blocks = 10

abbrev pub log_size : ℕ
log_size = max_op_blocks * 3

-- A block as its integers.
abbrev pub Block : Type 0
Block = ℕ → ℕ

-- The disk, and the buffer cache by what it promises: `buf b` is the content of the buffer that
-- bread() returns for the block `b`, and `dirty b` its flag B_DIRTY. The power fails after `power`
-- more writes; those after it do not reach the disk.
pub record Store : Type 0 where
  pub disk : ℕ → Block
  pub buf : ℕ → Block
  pub dirty : ℕ → Bool
  pub power : ℕ

-- `struct log` without the device; `lh_n` and `lh_block` are the fields of `lh`, and the lock is
-- whether this processor holds it.
pub record Log : Type 0 where
  pub start : ℕ
  pub size : ℕ
  pub outstanding : ℤ
  pub committing : Bool
  pub lh_n : ℕ
  pub lh_block : ℕ → ℕ
  pub lock : Bool

-- A buffer is written to.
abbrev pub store_buf : ℕ → Block → Store → Store
store_buf b x s = record s { buf = write s.buf b x }

-- bwrite() of the buffer of the block `b`: iderw() clears the flag.
unfoldable pub write_buf : ℕ → Store → Store
write_buf b s = record s {
  disk = if s.power == 0 then s.disk else write s.disk b (s.buf b);
  dirty = write s.dirty b false;
  power = s.power - 1;
}

-- The loop of install_trans() with `n` blocks from `tail` on to go
unfoldable pub install_loop : ℕ → ℕ → Log → Store → Store
install_loop zero tail l s = s
install_loop (suc n) tail l s =
    install_loop n (tail + 1) l
      (write_buf (l.lh_block tail) (store_buf (l.lh_block tail) (s.buf (l.start + tail + 1)) s))

unfoldable pub install_trans : Log → Store → Store
install_trans l s = install_loop l.lh_n 0 l s

-- for (i = ...) to[i] = from[i], with `n` to go
unfoldable pub copy_ints : ℕ → ℕ → (ℕ → ℕ) → (ℕ → ℕ) → ℕ → ℕ
copy_ints zero i from to = to
copy_ints (suc n) i from to = copy_ints n (i + 1) from (write to i (from i))

-- `struct logheader` as a block: the count and the block numbers
abbrev pub header : ℕ → (ℕ → ℕ) → Block
header n block zero = n
header n block (suc i) = block i

abbrev pub header_n : Block → ℕ
header_n h = h 0

abbrev pub header_block : Block → ℕ → ℕ
header_block h i = h (suc i)

-- read_head(): a count above LOGSIZE makes it write past the end of the array.
unfoldable pub read_head : Log → Store → Outcome Log
read_head l s =
    if ltb log_size (header_n (s.buf l.start))
    then fault
    else ok (record l {
      lh_n = header_n (s.buf l.start);
      lh_block = copy_ints (header_n (s.buf l.start)) 0 (header_block (s.buf l.start)) l.lh_block;
    })

unfoldable pub write_head : Log → Store → Store
write_head l s = write_buf l.start (
    store_buf l.start (header l.lh_n (copy_ints l.lh_n 0 l.lh_block (header_block (s.buf l.start))))
      s)

abbrev pub clear_log : Log → Log
clear_log l = record l { lh_n = 0 }

unfoldable pub recover_from_log : Log → Store → Outcome (Log × Store)
recover_from_log l s = do
  l ← read_head l s
  ok (clear_log l, write_head (clear_log l) (install_trans l s))

-- The fields of the super block that the log reads
pub record LogPlace : Type 0 where
  pub logstart : ℕ
  pub nlog : ℕ

-- initlog(): the header of 31 integers is smaller than a block.
unfoldable pub initlog : LogPlace → Log → Store → Outcome (Log × Store)
initlog sb l s = recover_from_log (record l { start = sb.logstart; size = sb.nlog; lock = false }) s

-- The loop of write_log() with `n` blocks from `tail` on to go
unfoldable pub write_log_loop : ℕ → ℕ → Log → Store → Store
write_log_loop zero tail l s = s
write_log_loop (suc n) tail l s =
    write_log_loop n (tail + 1) l
      (write_buf (l.start + tail + 1) (store_buf (l.start + tail + 1) (s.buf (l.lh_block tail)) s))

unfoldable pub write_log : Log → Store → Store
write_log l s = write_log_loop l.lh_n 0 l s

-- The writes of commit() for a transaction that is not empty
abbrev pub commit_writes : Log → Store → Store
commit_writes l s = write_head (clear_log l) (install_trans l (write_head l (write_log l s)))

unfoldable pub commit : Log → Store → Log × Store
commit l s = if l.lh_n == 0 then (l, s) else (clear_log l, commit_writes l s)

-- log.lh.n + (log.outstanding+1)*MAXOPBLOCKS > LOGSIZE
unfoldable pub is_short : ℕ → ℤ → Bool
is_short n (pos o) = ltb log_size (n + (o + 1) * max_op_blocks)
is_short n (negsuc o) = ltb (log_size + o * max_op_blocks) n

abbrev pub lock_log : Log → Outcome Log
lock_log l = do g ← acquire l.lock; ok (record l { lock = g })

abbrev pub unlock_log : Log → Outcome Log
unlock_log l = do g ← release l.lock; ok (record l { lock = g })

abbrev pub with_guard : Option Bool → Log → Log
with_guard none l = l
with_guard (some held) l = record l { lock = held }

-- One round of the loop of begin_op() by the process in slot `me`, with the lock held; `a` is the
-- address of the log. The flag is whether the call is over, or else it sleeps.
unfoldable pub begin_round : ℕ → ℕ → Cpu → Log → ProcTable → Outcome (Bool × Log × ProcTable)
begin_round a me c l t =
    if l.committing || is_short l.lh_n l.outstanding
    then (do
      (g, t) ← sleep_before me (at_address a) (some l.lock) c t
      ok (false, with_guard g l, t))
    else do l ← unlock_log (record l { outstanding = incr l.outstanding }); ok (true, l, t)

-- begin_op(), up to its first sleep, and after a sleep
unfoldable pub begin_op : ℕ → ℕ → Cpu → Log → ProcTable → Outcome (Bool × Log × ProcTable)
begin_op a me c l t = do l ← lock_log l; begin_round a me c l t

unfoldable pub begin_op_again : ℕ → ℕ → Cpu → Log → ProcTable → Outcome (Bool × Log × ProcTable)
begin_op_again a me c l t = do
  (g, t) ← sleep_after me (some l.lock) t
  begin_round a me c (with_guard g l) t

-- end_op() up to its first release(): the flag is `do_commit`.
unfoldable pub end_count : ℕ → Log → ProcTable → Outcome (Bool × Log × ProcTable)
end_count a l t = do
  l ← lock_log l
  let l = record l { outstanding = decr l.outstanding }
  if l.committing
      then panic
      else if l.outstanding ==ℤ pos 0
      then (do l ← unlock_log (record l { committing = true }); ok (true, l, t))
      else do t ← wakeup (at_address a) t; l ← unlock_log l; ok (false, l, t)

-- end_op() after commit()
unfoldable pub end_commit : ℕ → Log → ProcTable → Outcome (Log × ProcTable)
end_commit a l t = do
  l ← lock_log l
  t ← wakeup (at_address a) t
  l ← unlock_log (record l { committing = false })
  ok (l, t)

-- end_op() of which no other process sees the middle
unfoldable pub end_op : ℕ → Log → Store → ProcTable → Outcome (Log × Store × ProcTable)
end_op a l s t = do
  (do_commit, l, t) ← end_count a l t
  if do_commit
      then (do let (l, s) = commit l s; (l, t) ← end_commit a l t; ok (l, s, t))
      else ok (l, s, t)

-- The index at which the loop of log_write() stops
abbrev pub stop_index : ℕ → Option ℕ → ℕ
stop_index n none = n
stop_index n (some i) = i

-- log.lh.block[i] = b->blockno; if (i == log.lh.n) log.lh.n++;
abbrev pub put_block : ℕ → ℕ → Log → Log
put_block i b l = record l {
  lh_block = write l.lh_block i b;
  lh_n = if i == l.lh_n then l.lh_n + 1 else l.lh_n;
}

-- log_write() of the buffer of the block `b`
unfoldable pub log_write : ℕ → Log → Store → Outcome (Log × Store)
log_write b l s =
    if leb log_size l.lh_n || ltb l.size (l.lh_n + 2)
    then panic
    else if l.outstanding <ℤ pos 1
    then panic
    else do
      l ← lock_log l
      l ← unlock_log (put_block (stop_index l.lh_n (scan (λ i. l.lh_block i == b) l.lh_n 0)) b l)
      ok (l, record s { dirty = write s.dirty b true })
