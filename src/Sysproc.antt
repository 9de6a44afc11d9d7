-- ===== src/Sysproc.antt =====
-- sysproc.c: the calls on processes; trap.c: the tick of the timer.
pub mod Ticks
use shared_memory.Prelude.{
  ℕ, ◌+◌, ◌%◌, Bool, true, false, Option, none, some, ltb, if◌then◌else◌, ℤ, pos, minus_one, ◌<ℤ◌,
  Outcome, ok, ◌>>=◌, acquire, release,
}
use shared_memory.Layout.{word, minus}
use shared_memory.Shm.Table.{to_int}
use shared_memory.Syscall.{User, argint}
use shared_memory.Uvm.Process.{Image, growproc}
use shared_memory.Proc.{Channel, at_address, Proc, ProcTable, wakeup, kill}

-- sys_kill()
unfoldable pub sys_kill : User → ProcTable → Outcome (ℤ × ProcTable)
sys_kill u t = elim (argint 0 u) [ none ↦ ok (minus_one, t) | some pid ↦ kill (to_int pid) t ]

-- sys_getpid() of the process in slot `me`
abbrev pub sys_getpid : ℕ → ProcTable → ℤ
sys_getpid me t = (t.procs me).pid

-- sys_sbrk(): the size before, as an int
unfoldable pub sys_sbrk : User → Image → Outcome (ℤ × Image)
sys_sbrk u p = elim (argint 0 u) [
  | none ↦ ok (minus_one, p)
  | some n ↦ (do
    (r, q) ← growproc (to_int n) p
    ok (if r <ℤ pos 0 then minus_one else to_int p.sz, q))
]

-- `ticks` and `tickslock`, with the processes
pub record Clock : Type 0 where
  pub ticks : ℕ
  pub lock : Bool
  pub procs : ProcTable

abbrev pub lock_clock : Clock → Outcome Clock
lock_clock c = do l ← acquire c.lock; ok (record c { lock = l })

abbrev pub unlock_clock : Clock → Outcome Clock
unlock_clock c = do l ← release c.lock; ok (record c { lock = l })

-- How sys_sleep() stands: at its end, or at sleep(), where it holds the lock.
pub data Nap : Type 0 where
  over : ℤ → Nap
  asleep_since : ℕ → Nap

-- The loop of sys_sleep() since the tick `t0`, up to its next sleep; the count is unsigned here.
unfoldable pub sleep_round : ℕ → ℕ → Bool → Clock → Outcome (Nap × Clock)
sleep_round t0 n dead c =
    if ltb (minus c.ticks t0) n
    then (if dead then (do c ← unlock_clock c; ok (over minus_one, c)) else ok (asleep_since t0, c))
    else (do c ← unlock_clock c; ok (over (pos 0), c))

-- sys_sleep()
unfoldable pub sys_sleep : User → Bool → Clock → Outcome (Nap × Clock)
sys_sleep u dead c = elim (argint 0 u) [
  | none ↦ ok (over minus_one, c)
  | some n ↦ (do c ← lock_clock c; sleep_round c.ticks n dead c)
]

-- sys_uptime()
unfoldable pub sys_uptime : Clock → Outcome (ℤ × Clock)
sys_uptime c = do c ← lock_clock c; let now = to_int c.ticks; c ← unlock_clock c; ok (now, c)

-- The timer interrupt on the first processor, for `ticks` at the address `a`
unfoldable pub tick : ℕ → Clock → Outcome Clock
tick a c = do
  c ← lock_clock c
  t ← wakeup (at_address a) c.procs
  unlock_clock (record c { ticks = (c.ticks + 1) % word; procs = t })
