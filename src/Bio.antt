-- ===== src/Bio.antt =====
-- bio.c: the cache of disk blocks, over the disk in memory of memide.c.
pub mod Claim
pub mod View
pub mod Keeps
pub mod Read
pub mod Release
use shared_memory.Prelude.{
  ℕ, zero, suc, ◌+◌, ◌-◌, ◌%◌, Bool, true, false, not, ◌&&◌, ◌||◌, List, [], ◌∷◌, ◌++◌, Option,
  none, some, ltb, leb, ◌==◌, if◌then◌else◌, write, pos, Outcome, ok, panic, ◌>>=◌, acquire,
  release,
}
use shared_memory.Layout.{word}
use shared_memory.Log.{Block}
use shared_memory.Proc.{ProcTable}
use shared_memory.Proc.Switch.{Cpu}
use shared_memory.Locks.Sleep.{
  Sleeplock, Caller, acquiresleep, acquiresleep_again, releasesleep, holdingsleep,
}

abbrev pub nbuf : ℕ
nbuf = 30

-- `struct buf`: `valid` and `dirty` are the flags B_VALID and B_DIRTY.
pub record Buf : Type 0 where
  pub valid : Bool
  pub dirty : Bool
  pub dev : ℕ
  pub blockno : ℕ
  pub lock : Sleeplock
  pub refcnt : ℕ
  pub content : Block

-- `bcache`: the list through prev and next as the list of its buffers, head.next first. `disk` and
-- `disk_blocks` are `memdisk`, by blocks, and `disksize`.
pub record Bcache : Type 0 where
  pub lock : Bool
  pub buf : ℕ → Buf
  pub order : List ℕ
  pub disk : ℕ → Block
  pub disk_blocks : ℕ

abbrev pub set_buf : ℕ → Buf → Bcache → Bcache
set_buf i b c = record c { buf = write c.buf i b }

abbrev pub lock_bcache : Bcache → Outcome Bcache
lock_bcache c = do l ← acquire c.lock; ok (record c { lock = l })

abbrev pub unlock_bcache : Bcache → Outcome Bcache
unlock_bcache c = do l ← release c.lock; ok (record c { lock = l })

abbrev init_lock : Sleeplock
init_lock = record { locked = false; guard = false; pid = pos 0 }

-- The loop of binit() from the buffer `i` on, with `n` to go
pub init_loop : ℕ → ℕ → Bcache → Bcache
init_loop zero i c = c
init_loop (suc n) i c =
    init_loop n (i + 1) (record c {
      buf = write c.buf i (record (c.buf i) { lock = init_lock });
      order = i ∷ c.order;
    })

unfoldable pub binit : Bcache → Bcache
binit c = init_loop nbuf 0 (record c { lock = false; order = [] })

-- The first element that passes a test, and the last one
unfoldable pub first_of : (ℕ → Bool) → List ℕ → Option ℕ
first_of test [] = none
first_of test (i ∷ is) = let rest = first_of test is in if test i then some i else rest

unfoldable pub last_of : (ℕ → Bool) → List ℕ → Option ℕ
last_of test [] = none
last_of test (i ∷ is) = elim (last_of test is) [
  | some j ↦ some j
  | none ↦ if test i then some i else none
]

-- b->dev == dev && b->blockno == blockno
abbrev pub is_block : ℕ → ℕ → Buf → Bool
is_block dev blockno b = (b.dev == dev) && (b.blockno == blockno)

-- b->refcnt == 0 && (b->flags & B_DIRTY) == 0
abbrev pub can_recycle : Buf → Bool
can_recycle b = (b.refcnt == 0) && not b.dirty

abbrev pub recycled : ℕ → ℕ → Buf → Buf
recycled dev blockno b = record b {
  dev = dev;
  blockno = blockno;
  valid = false;
  dirty = false;
  refcnt = 1;
}

-- The second loop of bget()
abbrev pub recycle : ℕ → ℕ → Option ℕ → Bcache → Outcome (ℕ × Bcache)
recycle dev blockno none c = panic
recycle dev blockno (some i) c = do
  c ← unlock_bcache (set_buf i (recycled dev blockno (c.buf i)) c)
  ok (i, c)

abbrev pub claim_cached : ℕ → ℕ → Option ℕ → Bcache → Outcome (ℕ × Bcache)
claim_cached dev blockno none c =
    recycle dev blockno (last_of (λ i. can_recycle (c.buf i)) c.order) c
claim_cached dev blockno (some i) c = do
  c ← unlock_bcache (set_buf i (record (c.buf i) { refcnt = ((c.buf i).refcnt + 1) % word }) c)
  ok (i, c)

-- bget() up to its call of acquiresleep(): the buffer is found, or one is recycled.
unfoldable pub bget_claim : ℕ → ℕ → Bcache → Outcome (ℕ × Bcache)
bget_claim dev blockno c = do
  c ← lock_bcache c
  claim_cached dev blockno (first_of (λ i. is_block dev blockno (c.buf i)) c.order) c

-- The address of the sleeplock of a buffer
abbrev pub Addresses : Type 0
Addresses = ℕ → ℕ

-- acquiresleep(&b->lock), up to its sleep: the flag is whether the lock is taken.
abbrev pub lock_buf :
    Addresses → Caller → Cpu → ℕ → Bcache → ProcTable → Outcome (Bool × Bcache × ProcTable)
lock_buf at me cpu i c t = do
  (over, l, t) ← acquiresleep (at i) me cpu (c.buf i).lock t
  ok (over, set_buf i (record (c.buf i) { lock = l }) c, t)

-- bget(), up to the sleep for the lock of the buffer
unfoldable pub bget :
    Addresses → Caller → Cpu → ℕ → ℕ → Bcache → ProcTable → Outcome (ℕ × Bool × Bcache × ProcTable)
bget at me cpu dev blockno c t = do
  (i, c) ← bget_claim dev blockno c
  (over, c, t) ← lock_buf at me cpu i c t
  ok (i, over, c, t)

-- The transfer of iderw()
abbrev pub transfer : ℕ → Bcache → Bcache
transfer i c =
    if (c.buf i).dirty
    then record (set_buf i (record (c.buf i) { dirty = false; valid = true }) c) {
      disk = write c.disk (c.buf i).blockno (c.buf i).content;
    }
    else set_buf i (record (c.buf i) { content = c.disk (c.buf i).blockno; valid = true }) c

-- iderw() of memide.c, of the buffer `i`
unfoldable pub iderw : Caller → ℕ → Bcache → Outcome Bcache
iderw me i c = do
  (held, l) ← holdingsleep me (c.buf i).lock
  if not held
      then panic
      else if (c.buf i).valid && not (c.buf i).dirty
      then panic
      else if not ((c.buf i).dev == 1)
      then panic
      else if leb c.disk_blocks (c.buf i).blockno
      then panic
      else ok (transfer i c)

-- bread() once bget() has the lock of the buffer
unfoldable pub bread_locked : Caller → ℕ → Bcache → Outcome Bcache
bread_locked me i c = if (c.buf i).valid then ok c else iderw me i c

-- bread(), up to the sleep for the lock of the buffer
unfoldable pub bread :
    Addresses → Caller → Cpu → ℕ → ℕ → Bcache → ProcTable → Outcome (ℕ × Bool × Bcache × ProcTable)
bread at me cpu dev blockno c t = do
  (i, over, c, t) ← bget at me cpu dev blockno c t
  if over then (do c ← bread_locked me i c; ok (i, true, c, t)) else ok (i, false, c, t)

-- bwrite()
unfoldable pub bwrite : Caller → ℕ → Bcache → Outcome Bcache
bwrite me i c = do
  (held, l) ← holdingsleep me (c.buf i).lock
  if not held then panic else iderw me i (set_buf i (record (c.buf i) { dirty = true }) c)

-- The list without an element
abbrev pub without : ℕ → List ℕ → List ℕ
without i [] = []
without i (j ∷ js) = if j == i then js else j ∷ without i js

-- The buffer is taken out of the list and put in behind the head.
abbrev pub to_front : ℕ → Bcache → Bcache
to_front i c = record c { order = i ∷ without i c.order }

-- n - 1 on a uint
abbrev pub pred : ℕ → ℕ
pred n = if n == 0 then word - 1 else n - 1

-- b->refcnt--, and the move of a buffer that nobody waits for
unfoldable pub drop_ref : ℕ → Bcache → Bcache
drop_ref i c =
    let c1 = set_buf i (record (c.buf i) { refcnt = pred (c.buf i).refcnt }) c in
    if (c.buf i).refcnt == 1 then to_front i c1 else c1

-- brelse()
unfoldable pub brelse : Addresses → Caller → ℕ → Bcache → ProcTable → Outcome (Bcache × ProcTable)
brelse at me i c t = do
  (held, l) ← holdingsleep me (c.buf i).lock
  if not held then panic else do
    (l, t) ← releasesleep (at i) l t
    c ← lock_bcache (set_buf i (record (c.buf i) { lock = l }) c)
    c ← unlock_bcache (drop_ref i c)
    ok (c, t)
