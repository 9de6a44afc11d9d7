-- ===== src/Locks.antt =====
-- spinlock.c and sleeplock.c: the nesting of pushcli(), spinlocks as one processor sees them, and
-- sleeplocks.
pub mod Nesting
pub mod Sleep
use shared_memory.Prelude.{
  ℕ, zero, suc, ◌+◌, ◌-◌, Bool, true, false, not, ◌&&◌, Option, none, some, ◌==◌, if◌then◌else◌,
  Outcome, ok, panic, out_of_fuel, ◌>>=◌,
}
use shared_memory.Proc.Switch.{Cpu}

-- pushcli(): the interrupt flag before the outermost one is kept in `intena`.
unfoldable pub pushcli : Cpu → Cpu
pushcli c = record c {
  interrupts = false;
  intena = if c.ncli == 0 then c.interrupts else c.intena;
  ncli = c.ncli + 1;
}

-- popcli(): panics with the interrupts on, or without a pushcli().
unfoldable pub popcli : Cpu → Outcome Cpu
popcli c =
    if c.interrupts
    then panic
    else if c.ncli == 0
    then panic
    else ok (record c { ncli = c.ncli - 1; interrupts = c.ncli - 1 == 0 && c.intena })

-- `struct spinlock`: `holder` is the processor in `cpu`.
pub record Spinlock : Type 0 where
  pub locked : Bool
  pub holder : Option ℕ

abbrev pub is_holder : ℕ → Option ℕ → Bool
is_holder me none = false
is_holder me (some c) = c == me

-- holding(lk) by the processor `me`
unfoldable pub holding : ℕ → Spinlock → Cpu → Outcome (Bool × Cpu)
holding me l c = do c ← popcli (pushcli c); ok (l.locked && is_holder me l.holder, c)

-- while(xchg(&lk->locked, 1) != 0): `busy n` is what the n-th exchange reads, which is for the other
-- processors to say.
pub spin : ℕ → ℕ → (ℕ → Bool) → Outcome ℕ
spin zero n busy = out_of_fuel
spin (suc fuel) n busy = let rest = spin fuel (n + 1) busy in if busy n then rest else ok n

-- acquire(lk) by the processor `me`
unfoldable pub acquire_spin : ℕ → ℕ → (ℕ → Bool) → Spinlock → Cpu → Outcome (Spinlock × Cpu)
acquire_spin fuel me busy l c = do
  (mine, c) ← holding me l (pushcli c)
  if mine
      then panic
      else (do _ ← spin fuel 0 busy; ok (record { locked = true; holder = some me }, c))

-- release(lk) by the processor `me`
unfoldable pub release_spin : ℕ → Spinlock → Cpu → Outcome (Spinlock × Cpu)
release_spin me l c = do
  (mine, c) ← holding me l c
  if not mine then panic else (do c ← popcli c; ok (record { locked = false; holder = none }, c))
