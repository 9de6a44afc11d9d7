-- ===== src/Trap.antt =====
-- trap.c: what trap() does for each kind of trap, and when it ends the process or gives up the
-- processor.
pub mod Killed
use shared_memory.Prelude.{
  ℕ, suc, ◌+◌, Bool, true, false, ◌&&◌, ◌||◌, Option, none, some, List, [], ◌∷◌, ◌==◌,
  if◌then◌else◌,
}

abbrev pub t_syscall : ℕ
t_syscall = 64

abbrev pub t_irq0 : ℕ
t_irq0 = 32

abbrev pub irq_timer : ℕ
irq_timer = 0

abbrev pub irq_kbd : ℕ
irq_kbd = 1

abbrev pub irq_com1 : ℕ
irq_com1 = 4

abbrev pub irq_ide : ℕ
irq_ide = 14

abbrev pub irq_spurious : ℕ
irq_spurious = 31

-- What trap() does to the rest of the system: the functions that it calls and comes back from, the tick
-- of the timer, and the fields of the current process that it sets.
pub data TrapCall : Type 0 where
  set_tf : TrapCall
  syscall : TrapCall
  tick : TrapCall
  ideintr : TrapCall
  kbdintr : TrapCall
  uartintr : TrapCall
  lapiceoi : TrapCall
  set_killed : TrapCall
  yield : TrapCall

-- What trap() sees when it looks at the current process: `killed` is none without one, and `is_running`
-- tells whether its state is RUNNING.
pub record View : Type 0 where
  pub killed : Option Bool
  pub is_running : Bool

-- A piece of trap(): it makes a call and goes on, looks at the current process and goes on with what it
-- sees, or ends. exit() does not come back, and a null pointer that is followed is a fault.
pub data Code : Type 0 where
  does : TrapCall → Code → Code
  looks : (View → Code) → Code
  returns : Code
  exits : Code
  panics : Code
  faults : Code

-- The fields of the trap frame that trap() reads: its number, and whether it came from user space
pub record Frame : Type 0 where
  pub trapno : ℕ
  pub user : Bool

abbrev pub is_killed : Option Bool → Bool
is_killed none = false
is_killed (some b) = b

abbrev pub has_process : Option Bool → Bool
has_process none = false
has_process (some b) = true

-- if(myproc()->killed) exit();
abbrev pub exit_if_killed : Code → Option Bool → Code
exit_if_killed k none = faults
exit_if_killed k (some dead) = if dead then exits else k

-- trap() of a system call
abbrev pub trap_syscall : Code
trap_syscall = looks (λ v.
    exit_if_killed (does set_tf (does syscall (looks (λ w. exit_if_killed returns w.killed))))
      v.killed)

-- The default case of the switch
abbrev pub unexpected : Frame → Code → Code
unexpected f k = looks (λ v. if has_process v.killed && f.user then does set_killed k else panics)

-- The switch of trap(), on the first processor or another one, and what follows it
abbrev pub service : Bool → Frame → Code → Code
service first_cpu f k =
    if f.trapno == t_irq0 + irq_timer
    then (if first_cpu then does tick (does lapiceoi k) else does lapiceoi k)
    else if f.trapno == t_irq0 + irq_ide
    then does ideintr (does lapiceoi k)
    else if f.trapno == t_irq0 + irq_ide + 1
    then k
    else if f.trapno == t_irq0 + irq_kbd
    then does kbdintr (does lapiceoi k)
    else if f.trapno == t_irq0 + irq_com1
    then does uartintr (does lapiceoi k)
    else if f.trapno == t_irq0 + 7 || f.trapno == t_irq0 + irq_spurious
    then does lapiceoi k
    else unexpected f k

-- if(myproc() && myproc()->killed && (tf->cs&3) == DPL_USER) exit();
abbrev pub must_exit : Frame → Code → Code
must_exit f k = looks (λ v. if is_killed v.killed && f.user then exits else k)

-- if(myproc() && myproc()->state == RUNNING && tf->trapno == T_IRQ0+IRQ_TIMER) yield();
abbrev pub yield_on_tick : Frame → Code → Code
yield_on_tick f k = looks (λ v.
    if has_process v.killed && v.is_running && f.trapno == t_irq0 + irq_timer
    then does yield k
    else k)

-- trap() from the end of the switch on
abbrev pub after_service : Frame → Code
after_service f = must_exit f (yield_on_tick f (must_exit f returns))

-- trap()
unfoldable pub trap : Bool → Frame → Code
trap first_cpu f =
    if f.trapno == t_syscall then trap_syscall else service first_cpu f (after_service f)

pub data Event : Type 0 where
  called : TrapCall → Event
  saw : View → Event

pub data End : Type 0 where
  returned : End
  exited : End
  panicked : End
  faulted : End

-- The calls and looks of a run, in their order, and how it ends
pub record Run : Type 0 where
  pub events : List Event
  pub end : End

abbrev pub after : Event → Run → Run
after e r = record r { events = e ∷ r.events }

-- The run where the look number `i` sees `views i`: the calls, interrupts and other processors may have
-- changed the process in any way since the last look.
unfoldable pub run : (ℕ → View) → ℕ → Code → Run
run views i (does c k) = after (called c) (run views i k)
run views i (looks k) = after (saw (views i)) (run views (suc i) (k (views i)))
run views i returns = record { events = []; end = returned }
run views i exits = record { events = []; end = exited }
run views i panics = record { events = []; end = panicked }
run views i faults = record { events = []; end = faulted }
