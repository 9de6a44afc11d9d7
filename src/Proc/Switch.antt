-- ===== src/Proc/Switch.antt =====
-- proc.c: the functions that end in sched() or come back from it, exit(), wait(), and one round of
-- the scheduler.
use shared_memory.Prelude.{
  ℕ, zero, suc, ◌+◌, Bool, true, false, not, ◌&&◌, ◌||◌, Option, none, some, ◌==◌, if◌then◌else◌, ℤ,
  pos, Outcome, ok, panic, ◌>>=◌, acquire, release,
}
use shared_memory.Kalloc.{Kmem, kfree}
use shared_memory.Uvm.{Directory, freevm}
use shared_memory.Proc.{
  nproc, unused, sleeping, runnable, running, zombie, is_runnable, is_running, is_zombie, Channel,
  of_proc, Proc, ProcTable, lock_procs, unlock_procs, set_proc, set_state, wakeup1,
}

-- The fields of `struct cpu` that the scheduler reads, and the interrupt flag of the processor.
-- `current` is `proc`.
pub record Cpu : Type 0 where
  pub ncli : ℕ
  pub intena : Bool
  pub interrupts : Bool
  pub current : Option ℕ

-- sched() by the process in slot `i`, up to the switch
unfoldable pub sched : ℕ → Cpu → ProcTable → Outcome ProcTable
sched i c t =
    if not t.lock
    then panic
    else if not (c.ncli == 1)
    then panic
    else if is_running (t.procs i).state
    then panic
    else if c.interrupts
    then panic
    else ok t

-- yield() up to the switch, and after it
unfoldable pub yield_before : ℕ → Cpu → ProcTable → Outcome ProcTable
yield_before i c t = do t ← lock_procs t; sched i c (set_state i runnable t)

unfoldable pub yield_after : ProcTable → Outcome ProcTable
yield_after t = unlock_procs t

-- The lock that sleep() is called with: `none` is ptable.lock itself, `some` another one and
-- whether this processor holds it.
abbrev pub swap_locks : Option Bool → ProcTable → Outcome (Option Bool × ProcTable)
swap_locks none t = ok (none, t)
swap_locks (some held) t = do t ← lock_procs t; l ← release held; ok (some l, t)

abbrev pub swap_back : Option Bool → ProcTable → Outcome (Option Bool × ProcTable)
swap_back none t = ok (none, t)
swap_back (some held) t = do t ← unlock_procs t; l ← acquire held; ok (some l, t)

-- p->chan = chan; p->state = SLEEPING;
abbrev pub fall_asleep : ℕ → Channel → ProcTable → ProcTable
fall_asleep i chan t = set_proc i (record (t.procs i) { chan = some chan; state = sleeping }) t

-- sleep(chan, lk) by the process in slot `i`, up to the switch
unfoldable pub sleep_before :
    ℕ → Channel → Option Bool → Cpu → ProcTable → Outcome (Option Bool × ProcTable)
sleep_before i chan lk c t = do
  (lk, t) ← swap_locks lk t
  t ← sched i c (fall_asleep i chan t)
  ok (lk, t)

-- sleep() after the switch
unfoldable pub sleep_after : ℕ → Option Bool → ProcTable → Outcome (Option Bool × ProcTable)
sleep_after i lk t = swap_back lk (set_proc i (record (t.procs i) { chan = none }) t)

-- p->parent == parent
abbrev pub is_child : ℕ → Proc → Bool
is_child parent p = elim p.parent [ none ↦ false | some q ↦ q == parent ]

-- One round of the loop of exit() that passes the children on to init.
abbrev pub pass_child : ℕ → ℕ → ProcTable → Outcome ProcTable
pass_child i j t =
    if is_child i (t.procs j)
    then (do
      let t = set_proc j (record (t.procs j) { parent = some t.init_proc }) t
      if is_zombie (t.procs j).state then wakeup1 (of_proc t.init_proc) t else ok t)
    else ok t

-- That loop, with `n` slots from `j` on to go.
unfoldable pub pass_children : ℕ → ℕ → ℕ → ProcTable → Outcome ProcTable
pass_children i zero j t = ok t
pass_children i (suc n) j t = do t ← pass_child i j t; pass_children i n (j + 1) t

-- wakeup1(curproc->parent); nobody sleeps on the null pointer.
abbrev pub wake_parent : Option ℕ → ProcTable → Outcome ProcTable
wake_parent none t = ok t
wake_parent (some q) t = wakeup1 (of_proc q) t

-- exit() of the process in slot `i`, from acquire(&ptable.lock) on: the files are closed by then.
unfoldable pub exit_locked : ℕ → Cpu → ProcTable → Outcome ProcTable
exit_locked i c t = do
  t ← lock_procs t
  t ← wake_parent (t.procs i).parent t
  t ← pass_children i nproc 0 t
  sched i c (set_state i zombie t)

-- exit(), but for the closing of the files and of the directory, which comes between the test for
-- init and the part above.
unfoldable pub exit_from : ℕ → Cpu → ProcTable → Outcome ProcTable
exit_from i c t = if i == t.init_proc then panic else exit_locked i c t

-- What one scan of wait() comes to: a child that is gone with its pid, the result -1, or the need to
-- sleep.
pub data Waited : Type 0 where
  reaped : ℤ → Waited
  no_children : Waited
  must_sleep : Waited

-- kfree(p->kstack); a null pointer is not the address of a page.
abbrev pub free_stack : Option ℕ → Kmem → Outcome Kmem
free_stack none m = kfree 0 m
free_stack (some p) m = kfree p m

-- The slot of a child after wait() has taken it.
abbrev pub reaped_proc : Proc → Proc
reaped_proc p = record p {
  kstack = none;
  pid = pos 0;
  parent = none;
  killed = false;
  state = unused;
}

-- The body of wait() that frees the zombie in slot `j`.
abbrev pub reap : ℕ → ProcTable → Kmem → Outcome (Waited × ProcTable × Kmem)
reap j t m = do
  let p = t.procs j
  m ← free_stack p.kstack m
  m ← freevm p.pgdir m
  t ← unlock_procs (set_proc j (reaped_proc p) t)
  ok (reaped p.pid, t, m)

-- The scan found no zombie among the children.
abbrev pub not_found : ℕ → Bool → ProcTable → Kmem → Outcome (Waited × ProcTable × Kmem)
not_found i have_kids t m =
    if not have_kids
    then (do t ← unlock_procs t; ok (no_children, t, m))
    else if (t.procs i).killed
    then (do t ← unlock_procs t; ok (no_children, t, m))
    else ok (must_sleep, t, m)

-- The for loop of wait(), with `n` slots from `j` on to go.
unfoldable pub wait_loop : ℕ → ℕ → ℕ → Bool → ProcTable → Kmem → Outcome (Waited × ProcTable × Kmem)
wait_loop i zero j have_kids t m = not_found i have_kids t m
wait_loop i (suc n) j have_kids t m =
    let mine = is_child i (t.procs j) in
    let rest = wait_loop i n (j + 1) (have_kids || mine) t m in
    if mine && is_zombie (t.procs j).state then reap j t m else rest

-- One round of the loop of wait() by the process in slot `i`, which holds ptable.lock; on
-- `must_sleep` the process calls sleep(curproc, &ptable.lock) and starts another round.
unfoldable pub wait_round : ℕ → ProcTable → Kmem → Outcome (Waited × ProcTable × Kmem)
wait_round i t m = wait_loop i nproc 0 false t m

-- switchuvm() refuses a process without a kernel stack or a page directory. What it loads into the
-- hardware is left out.
abbrev pub switchable : Option ℕ → Option Directory → Bool
switchable none g = false
switchable (some p) none = false
switchable (some p) (some g) = true

-- scheduler() at the slot `i`, up to the switch: the processor, the table and whether it switches
unfoldable pub dispatch : ℕ → Cpu → ProcTable → Outcome (Bool × Cpu × ProcTable)
dispatch i c t =
    if not (is_runnable (t.procs i).state)
    then ok (false, c, t)
    else if switchable (t.procs i).kstack (t.procs i).pgdir
    then ok (true, record c { current = some i }, set_state i running t)
    else panic

-- c->proc = 0 when the process has switched back
unfoldable pub undispatch : Cpu → Cpu
undispatch c = record c { current = none }
