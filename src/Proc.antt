-- ===== src/Proc.antt =====
-- proc.c: the process table, and the operations on it. A function that calls sched() is in two
-- parts, the code before the switch to the scheduler and the code after it.
pub mod Switch
pub mod Scan
pub mod Create
pub mod Wakeup
pub mod Fork
pub mod Exit
pub mod Wait
pub mod Reunion
use shared_memory.Prelude.{
  ℕ, zero, suc, ◌+◌, ◌-◌, ◌/◌, ◌%◌, ◌^◌, Bool, true, false, ◌&&◌, Option, none, some, ltb, ◌==◌,
  if◌then◌else◌, in_range, write, update_loop, ℤ, pos, minus_one, ◌==ℤ◌, Outcome, ok, fault, ◌>>=◌,
  in_bounds, acquire, release,
}
use shared_memory.Layout.{page_size}
use shared_memory.Kalloc.{Kmem, memset, kalloc}
use shared_memory.Uvm.{Directory}

abbrev pub nproc : ℕ
nproc = 64

-- `enum procstate`
pub data ProcState : Type 0 where
  unused embryo sleeping runnable running zombie : ProcState

abbrev pub is_unused : ProcState → Bool
is_unused unused = true
is_unused _ = false

abbrev pub is_sleeping : ProcState → Bool
is_sleeping sleeping = true
is_sleeping _ = false

abbrev pub is_runnable : ProcState → Bool
is_runnable runnable = true
is_runnable _ = false

abbrev pub is_running : ProcState → Bool
is_running running = true
is_running _ = false

abbrev pub is_zombie : ProcState → Bool
is_zombie zombie = true
is_zombie _ = false

-- What a process sleeps on: a slot of the process table, or another kernel address.
pub data Channel : Type 0 where
  of_proc : ℕ → Channel
  at_address : ℕ → Channel

abbrev pub same_channel : Channel → Channel → Bool
same_channel (of_proc i) (of_proc j) = i == j
same_channel (at_address a) (at_address b) = a == b
same_channel (of_proc i) (at_address b) = false
same_channel (at_address a) (of_proc j) = false

-- p->chan == chan
abbrev pub sleeps_on : Channel → Option Channel → Bool
sleeps_on c none = false
sleeps_on c (some d) = same_channel c d

-- `struct proc`, less its files, name and shared memory entries. A pointer to a process is its slot, `none` the
-- null pointer; `tf` and `context` are addresses within the kernel stack.
pub record Proc : Type 0 where
  pub sz : ℕ
  pub pgdir : Option Directory
  pub kstack : Option ℕ
  pub state : ProcState
  pub pid : ℤ
  pub parent : Option ℕ
  pub tf : ℕ
  pub context : ℕ
  pub chan : Option Channel
  pub killed : Bool

-- `ptable`, `nextpid` and `initproc`.
pub record ProcTable : Type 0 where
  pub procs : ℕ → Proc
  pub next_pid : ℕ
  pub init_proc : ℕ
  pub lock : Bool

abbrev pub lock_procs : ProcTable → Outcome ProcTable
lock_procs t = do l ← acquire t.lock; ok (record t { lock = l })

abbrev pub unlock_procs : ProcTable → Outcome ProcTable
unlock_procs t = do l ← release t.lock; ok (record t { lock = l })

abbrev pub set_proc : ℕ → Proc → ProcTable → ProcTable
set_proc i p t = record t { procs = write t.procs i p }

abbrev pub set_state : ℕ → ProcState → ProcTable → ProcTable
set_state i s t = set_proc i (record (t.procs i) { state = s }) t

-- for (p = ptable.proc; p < &ptable.proc[NPROC]; p++) up to the first slot that passes the test,
-- with `n` slots from `i` on to go
unfoldable pub scan : (ℕ → Bool) → ℕ → ℕ → Option ℕ
scan test zero i = none
scan test (suc n) i = let rest = scan test n (i + 1) in if test i then some i else rest

-- *(uint*)a = v
abbrev pub write_word : (ℕ → ℕ) → ℕ → ℕ → ℕ → ℕ
write_word m a v x = if in_range a 4 x then v / 256 ^ (x - a) % 256 else m x

-- sizeof(struct trapframe) and sizeof(struct context)
abbrev pub trapframe_size : ℕ
trapframe_size = 76

abbrev pub context_size : ℕ
context_size = 20

-- The stack of a new process: the trap frame at the top, below it the return address trapret, and
-- below that the context, cleared but for `eip`, which is its last word.
abbrev pub new_stack : ℕ → ℕ → ℕ → (ℕ → ℕ) → ℕ → ℕ
new_stack forkret trapret sp m =
    let ret = sp + page_size - trapframe_size - 4 in
    let context = ret - context_size in
    write_word (memset (write_word m ret trapret) context 0 context_size) (context + 16) forkret

-- p->state = EMBRYO; p->pid = nextpid++;
abbrev pub claim_slot : ℕ → ProcTable → ProcTable
claim_slot i t =
    record (set_proc i (record (t.procs i) { state = embryo; pid = pos t.next_pid }) t) {
      next_pid = t.next_pid + 1;
    }

-- `nextpid` is a signed int, and its overflow is undefined.
abbrev pub int_limit : ℕ
int_limit = 2 ^ 31

-- The kernel stack of the claimed slot, or the slot given up if there is no page.
abbrev pub give_stack : ℕ → ℕ → ℕ → Option ℕ × Kmem → ProcTable → Option ℕ × ProcTable × Kmem
give_stack forkret trapret i (none, m) t =
    (none, set_proc i (record (t.procs i) { kstack = none; state = unused }) t, m)
give_stack forkret trapret i (some p, m) t =
    let tf = p + page_size - trapframe_size in
    (
      some i,
      set_proc i (record (t.procs i) { kstack = some p; tf = tf; context = tf - 4 - context_size })
          t,
      record m { mem = new_stack forkret trapret p m.mem },
    )

abbrev claim_found : ℕ → ℕ → Option ℕ → ProcTable → Kmem → Outcome (Option ℕ × ProcTable × Kmem)
claim_found forkret trapret none t m = do t ← unlock_procs t; ok (none, t, m)
claim_found forkret trapret (some i) t m = do
  t ← (if ltb (t.next_pid + 1) int_limit then unlock_procs (claim_slot i t) else fault)
  r ← kalloc m
  ok (give_stack forkret trapret i r t)

-- allocproc(), with the addresses of the two labels that it writes
unfoldable pub allocproc : ℕ → ℕ → ProcTable → Kmem → Outcome (Option ℕ × ProcTable × Kmem)
allocproc forkret trapret t m = do
  t ← lock_procs t
  claim_found forkret trapret (scan (λ i. is_unused (t.procs i).state) nproc 0) t m

-- A process that sleeps on the channel becomes RUNNABLE.
unfoldable pub woken : Channel → Proc → Proc
woken c p = if is_sleeping p.state && sleeps_on c p.chan then record p { state = runnable } else p

-- wakeup1(chan)
abbrev pub wakeup1 : Channel → ProcTable → Outcome ProcTable
wakeup1 c t = do
  procs ← in_bounds (update_loop nproc (woken c) nproc 0 t.procs)
  ok (record t { procs = procs })

unfoldable pub wakeup : Channel → ProcTable → Outcome ProcTable
wakeup c t = do t ← lock_procs t; t ← wakeup1 c t; unlock_procs t

-- p->killed = 1, and the process is woken if it sleeps.
unfoldable pub killed_proc : Proc → Proc
killed_proc p = record p {
  killed = true;
  state = if is_sleeping p.state then runnable else p.state;
}

abbrev kill_found : Option ℕ → ProcTable → Outcome (ℤ × ProcTable)
kill_found none t = do t ← unlock_procs t; ok (minus_one, t)
kill_found (some i) t = do t ← unlock_procs (set_proc i (killed_proc (t.procs i)) t); ok (pos 0, t)

-- kill(pid)
unfoldable pub kill : ℤ → ProcTable → Outcome (ℤ × ProcTable)
kill pid t = do t ← lock_procs t; kill_found (scan (λ i. (t.procs i).pid ==ℤ pid) nproc 0) t
