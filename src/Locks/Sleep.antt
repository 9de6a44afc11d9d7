-- ===== src/Locks/Sleep.antt =====
-- sleeplock.c: locks that a process sleeps for.
use shared_memory.Prelude.{
  ℕ, Bool, true, false, ◌&&◌, Option, none, some, if◌then◌else◌, ℤ, pos, ◌==ℤ◌, Outcome, ok, ◌>>=◌,
  acquire, release,
}
use shared_memory.Proc.{at_address, ProcTable, wakeup}
use shared_memory.Proc.Switch.{Cpu, sleep_before, sleep_after}

-- `struct sleeplock`: `guard` is whether this processor holds the spinlock `lk`.
pub record Sleeplock : Type 0 where
  pub locked : Bool
  pub guard : Bool
  pub pid : ℤ

-- A process: its slot and its pid.
pub record Caller : Type 0 where
  pub slot : ℕ
  pub pid : ℤ

abbrev guarded : Option Bool → Sleeplock → Sleeplock
guarded none l = l
guarded (some held) l = record l { guard = held }

-- The loop of acquiresleep() with the spinlock held: the lock is taken, or the process sleeps at the
-- address `a` of the lock. The flag is whether the call is over.
unfoldable pub take_or_sleep :
    ℕ → Caller → Cpu → Sleeplock → ProcTable → Outcome (Bool × Sleeplock × ProcTable)
take_or_sleep a me c l t =
    if l.locked
    then (do
      (g, t) ← sleep_before me.slot (at_address a) (some l.guard) c t
      ok (false, guarded g l, t))
    else do g ← release l.guard; ok (true, record { locked = true; guard = g; pid = me.pid }, t)

-- acquiresleep(), up to the first sleep
unfoldable pub acquiresleep :
    ℕ → Caller → Cpu → Sleeplock → ProcTable → Outcome (Bool × Sleeplock × ProcTable)
acquiresleep a me c l t = do g ← acquire l.guard; take_or_sleep a me c (record l { guard = g }) t

-- acquiresleep() after a sleep
unfoldable pub acquiresleep_again :
    ℕ → Caller → Cpu → Sleeplock → ProcTable → Outcome (Bool × Sleeplock × ProcTable)
acquiresleep_again a me c l t = do
  (g, t) ← sleep_after me.slot (some l.guard) t
  take_or_sleep a me c (guarded g l) t

-- releasesleep()
unfoldable pub releasesleep : ℕ → Sleeplock → ProcTable → Outcome (Sleeplock × ProcTable)
releasesleep a l t = do
  _ ← acquire l.guard
  t ← wakeup (at_address a) t
  ok (record { locked = false; guard = false; pid = pos 0 }, t)

-- holdingsleep()
unfoldable pub holdingsleep : Caller → Sleeplock → Outcome (Bool × Sleeplock)
holdingsleep me l = do
  g ← acquire l.guard
  g ← release g
  ok (l.locked && l.pid ==ℤ me.pid, record l { guard = g })
