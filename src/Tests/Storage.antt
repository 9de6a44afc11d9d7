-- ===== src/Tests/Storage.antt =====
-- The theorems on the log and the block cache at concrete inputs.
use shared_memory.Prelude.{
  ℕ, ◌≤◌, ◌<◌, ◌≡◌, ◌⊎◌, refl, true, false, none, some, arith, [], ◌∷◌, ◌++◌, pos, ok, panic, ◌==◌,
  ltb, if◌then◌else◌, ◌+◌, ◌%◌,
}
use shared_memory.Layout.{word}
use shared_memory.Proc.{ProcTable, unused, wakeup, at_address}
use shared_memory.Proc.Switch.{Cpu}
use shared_memory.Log.{
  Block, Store, Log, LogPlace, header_n, commit, log_write, store_buf, put_block,
}
use shared_memory.Log.Loops.{Outside}
use shared_memory.Log.Crash.{IsReady, intended}
use shared_memory.Log.Recovery.{boots}
use shared_memory.Log.Atomic.{commit-boots}
use shared_memory.Log.Space.{log_writes, log_writes_lem, log_write-ok, log_slot, set_dirty, Logged}
use shared_memory.Log.Steps.{System, Reach, Reserved, here, next, modifies, writes, idle}
use shared_memory.Log.Safety.{Reach-Reserved, log_write-safe}
use shared_memory.Locks.Sleep.{Caller}
use shared_memory.Bio.{Bcache, bread, brelse, can_recycle, is_block, pred, without}
use shared_memory.Bio.Claim.{NonePass}
use shared_memory.Bio.View.{IsGood, view}
use shared_memory.Bio.Read.{bread-view, ReadBuf}
use shared_memory.Bio.Release.{brelse_lem}

-- A log with two blocks of a transaction, and a disk on which every block is zero. The power lasts
-- for three writes: the two blocks and the header.
abbrev two_blocks : Log
two_blocks = record {
  start = 2;
  size = 30;
  outstanding = pos 0;
  committing = true;
  lh_n = 2;
  lh_block = λ i. if i == 0 then 40 else 50;
  lock = false;
}

abbrev zero_disk : Store
zero_disk = record { disk = λ b i. 0; buf = λ b i. b; dirty = λ b. false; power = 3 }

abbrev place : LogPlace
place = record { logstart = 2; nlog = 30 }

two_blocks-IsReady : IsReady two_blocks zero_disk
two_blocks-IsReady = record {
  empty = refl;
  distinct = λ i j p q e. ground arith;
  outside = λ i p. ground arith;
}

commit-boots_example :
    (d : ℕ → Block) × (boots place two_blocks
        ((1 ∷ []) ++ (3 ∷ []))
        (commit two_blocks zero_disk).1.disk
      ≡ ok d)
    × (header_n (d 2) ≡ 0)
    × ((b : ℕ)
        → Outside 2 2 b
        → d b ≡ (if ltb 2 3 then intended two_blocks zero_disk b else zero_disk.disk b))
commit-boots_example =
    commit-boots place two_blocks two_blocks zero_disk (1 ∷ []) 3 refl (omega arith)
      two_blocks-IsReady (omega arith)

-- A log with room for one block, and a call that may write three.
abbrev small_log : Log
small_log = record {
  start = 2;
  size = 2;
  outstanding = pos 1;
  committing = false;
  lh_n = 0;
  lh_block = λ i. 0;
  lock = false;
}

log_writes_lem_example :
    ((1 < 2) × (log_writes (40 ∷ 50 ∷ []) small_log zero_disk ≡ panic))
    ⊎ ((2 ≤ 1)
        × ((l' : Log) × (s' : Store) × (log_writes (40 ∷ 50 ∷ []) small_log zero_disk ≡ ok (l', s'))
            × Logged (40 ∷ 50 ∷ []) small_log l'))
log_writes_lem_example =
    log_writes_lem (40 ∷ 50 ∷ []) small_log zero_disk 0 (refl, (refl, tt))
      (λ i p. absurd (omega arith)) refl refl (omega arith)

-- One system call that has begun, and is about to write to a buffer.
abbrev pub no_procs : ProcTable
no_procs = record {
  procs = λ i. record {
    sz = 0;
    pgdir = none;
    kstack = none;
    state = unused;
    pid = pos 0;
    parent = none;
    tf = 0;
    context = 0;
    chan = none;
    killed = false;
  };
  next_pid = 1;
  init_proc = 0;
  lock = false;
}

abbrev one_call : System
one_call = record {
  log = record small_log { size = 30 };
  store = zero_disk;
  procs = no_procs;
  left = 10 ∷ [];
  phase = idle;
}

one_call-Reserved : Reserved one_call
one_call-Reserved = record {
  free = refl;
  count = refl;
  each = (omega arith, tt);
  space = omega arith;
  fits = (refl, λ e. refl);
  distinct = λ i j p q e. absurd (omega arith);
}

abbrev changed : Store
changed = store_buf 40 (λ i. 7) zero_disk

abbrev in_buffer : System
in_buffer = record one_call { store = changed }

abbrev in_log : System
in_log = record in_buffer {
  log = put_block (log_slot 40 in_buffer.log) 40 in_buffer.log;
  store = set_dirty 40 changed;
  left = 9 ∷ [];
}

-- It writes to the buffer, and then calls log_write() of it.
one_call-Reach : Reach 64 one_call in_log
one_call-Reach = next (next here (modifies one_call [] [] 10 40 (λ i. 7) refl)) (
    writes in_buffer [] [] 9 40 in_log.log in_log.store refl
      (log_write-ok 40 in_buffer.log changed 0 refl refl refl))

Reach-Reserved_example : Reserved in_log
Reach-Reserved_example = Reach-Reserved 64 one_call-Reserved one_call-Reach

log_write-safe_example :
    ((l : Log) × (s : Store) × (log_write 41 in_log.log in_log.store ≡ ok (l, s)))
    ⊎ ((in_log.log.size ≡ 30)
        × (in_log.log.lh_n + 1 ≡ 30)
        × (0 + 0 + 8 ≡ 0)
        × (log_write 41 in_log.log in_log.store ≡ panic))
log_write-safe_example =
    log_write-safe 64 [] [] 8 41 one_call-Reserved one_call-Reach refl (omega arith)

-- Two buffers: the first one holds the block 7 with one reference, the second one is unused.
abbrev two_buffers : Bcache
two_buffers = record {
  lock = false;
  buf = λ i. record {
    valid = i == 0;
    dirty = false;
    dev = if i == 0 then 1 else 0;
    blockno = if i == 0 then 7 else 0;
    lock = record { locked = false; guard = false; pid = pos 0 };
    refcnt = if i == 0 then 1 else 0;
    content = λ j. 7;
  };
  order = 0 ∷ 1 ∷ [];
  disk = λ b j. b;
  disk_blocks = 1000;
}

two_buffers-IsGood : IsGood two_buffers
two_buffers-IsGood = record {
  unique = λ i j m n d e b. ground arith;
  coherent = λ i m d v n. ground arith;
  modified = λ i m d. ground arith;
}

abbrev process : Caller
process = record { slot = 3; pid = pos 4 }

abbrev processor : Cpu
processor = record { ncli = 0; intena = true; interrupts = true; current = some 3 }

bread-view_example :
    (NonePass (λ i. is_block 1 9 (two_buffers.buf i)) two_buffers.order
      × NonePass (λ i. can_recycle (two_buffers.buf i)) two_buffers.order
      × (bread (λ i. i) process processor 1 9 two_buffers no_procs ≡ panic))
    ⊎ ((i : ℕ) × (c' : Bcache) × (bread (λ i. i) process processor 1 9 two_buffers no_procs
          ≡ ok (i, true, c', no_procs))
        × ReadBuf process i 9 (((two_buffers.buf i).refcnt + 1) % word) two_buffers c')
bread-view_example =
    bread-view (λ i. i) process processor 9 two_buffers no_procs two_buffers-IsGood refl
      (omega arith) (λ i m. (refl, refl))

-- The process holds the lock of the first buffer.
abbrev in_use : Bcache
in_use = record two_buffers {
  buf = λ i. record (two_buffers.buf i) {
    lock = record { locked = true; guard = false; pid = pos 4 };
  };
}

in_use-IsGood : IsGood in_use
in_use-IsGood = record {
  unique = λ i j m n d e b. ground arith;
  coherent = λ i m d v n. ground arith;
  modified = λ i m d. ground arith;
}

brelse_lem_example :
    (c' : Bcache) × (t' : ProcTable) × (brelse (λ i. i) process 0 in_use no_procs ≡ ok (c', t'))
    × (wakeup (at_address 0) no_procs ≡ ok t')
    × (c'.order ≡ (if 1 == 1 then 0 ∷ without 0 in_use.order else in_use.order))
    × ((c'.buf 0).refcnt ≡ pred 1)
    × ((c'.buf 0).lock.locked ≡ false)
    × IsGood c'
    × ((b : ℕ) → view c' b ≡ view in_use b)
brelse_lem_example =
    brelse_lem (λ i. i) process 0 in_use no_procs in_use-IsGood refl
      (record { taken = refl; open_guard = refl; mine = refl }) refl refl
