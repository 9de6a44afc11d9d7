-- ===== src/Trap/Killed.antt =====
-- trap() of trap.c: what it lets a process return to, and when it ends it.
use shared_memory.Prelude.{
  ℕ, suc, ◌+◌, ◌≡◌, ◌⊎◌, inl, inr, refl, Bool, true, false, ◌&&◌, ◌||◌, Option, none, some, List,
  [], ◌∷◌, ◌==◌, if◌then◌else◌,
}
use shared_memory.Trap.{
  set_tf, syscall, tick, ideintr, kbdintr, uartintr, lapiceoi, set_killed, yield, unexpected, View,
  TrapCall, Code, does, looks, returns, exits, Frame, has_process, is_killed, exit_if_killed,
  trap_syscall, service, must_exit, yield_on_tick, after_service, trap, Event, called, saw,
  returned, exited, Run, after, run, t_syscall, t_irq0, irq_timer, irq_kbd, irq_com1, irq_ide,
  irq_spurious,
}

abbrev pub last : List Event → Option Event
last [] = none
last (e ∷ []) = some e
last (e ∷ d ∷ es) = last (d ∷ es)

-- The last event is a look at the current process, which is killed or not.
abbrev pub Saw : Bool → List Event → Type 0
Saw dead es = (v : View) × (last es ≡ some (saw v)) × (v.killed ≡ some dead)

-- The run has ended in exit() right after a look at a killed process, or has returned right after a look
-- at one that is not killed.
abbrev pub Decided : Run → Type 0
Decided r = ((r.end ≡ exited) × Saw true r.events) ⊎ ((r.end ≡ returned) × Saw false r.events)

last-cons : (d e : Event) (es : List Event) → last es ≡ some e → last (d ∷ es) ≡ some e
last-cons d e [] h = absurd (cc)
last-cons d e (x ∷ es) h = h

Decided-after : (e : Event) (r : Run) → Decided r → Decided (after e r)
Decided-after e r (inl (q, (v, l, k))) = inl (q, (v, last-cons e (saw v) r.events l, k))
Decided-after e r (inr (q, (v, l, k))) = inr (q, (v, last-cons e (saw v) r.events l, k))

module _ (views : ℕ → View) where
  abbrev Always : Code → Type 0
  Always k = (i : ℕ) → Decided (run views i k)

  Always-does : (c : TrapCall) (k : Code) → Always k → Always (does c k)
  unfolding run
  Always-does c k h i = Decided-after (called c) (run views i k) (h i)

  Always-if : (b : Bool) (x y : Code) → Always x → Always y → Always (if b then x else y)
  Always-if true x y h k = h
  Always-if false x y h k = k

  -- All looks find a current process.
  abbrev pub HasProcess : Type 0
  HasProcess = (i : ℕ) → has_process (views i).killed ≡ true

  module _ (current : HasProcess) where
    exit_if_killed-Decided :
        (i : ℕ) (k : Code) (o : Option Bool)
        → (views i).killed ≡ o
        → Always k
        → has_process o ≡ true
        → Decided (after (saw (views i)) (run views (suc i) (exit_if_killed k o)))
    unfolding run
    exit_if_killed-Decided i k none e h c = absurd (cc)
    exit_if_killed-Decided i k (some true) e h c = inl (refl, (views i, refl, e))
    exit_if_killed-Decided i k (some false) e h c =
        Decided-after (saw (views i)) (run views (suc i) k) (h (suc i))

    -- The last look of trap()
    last_look :
        (i : ℕ) (o : Option Bool)
        → (views i).killed ≡ o
        → has_process o ≡ true
        → Decided (after (saw (views i)) (run views (suc i) (exit_if_killed returns o)))
    unfolding run
    last_look i none e c = absurd (cc)
    last_look i (some true) e c = inl (refl, (views i, refl, e))
    last_look i (some false) e c = inr (refl, (views i, refl, e))

    trap_syscall-Always : Always trap_syscall
    unfolding run
    trap_syscall-Always i =
        exit_if_killed-Decided i
          (does set_tf (does syscall (looks (λ w. exit_if_killed returns w.killed))))
          (views i).killed refl
          (Always-does set_tf (does syscall (looks (λ w. exit_if_killed returns w.killed))) (
            Always-does syscall (looks (λ w. exit_if_killed returns w.killed))
              (λ j. last_look j (views j).killed refl (current j))))
          (current i)

    module _ (f : Frame) (user : f.user ≡ true) where
      exit_or :
          (i : ℕ) (k : Code) (o : Option Bool)
          → (views i).killed ≡ o
          → has_process o ≡ true
          → (o ≡ some false → Decided (after (saw (views i)) (run views (suc i) k)))
          → Decided (
              after
                (saw (views i))
                (run views (suc i) (if is_killed o && f.user then exits else k)))
      unfolding run
      exit_or i k none e c h = absurd (cc)
      exit_or i k (some true) e c h = rw user (inl (refl, (views i, refl, e)))
      exit_or i k (some false) e c h = h refl

      must_exit-Always : (k : Code) → Always k → Always (must_exit f k)
      unfolding run
      must_exit-Always k h i =
          exit_or i k (views i).killed refl (current i)
            (λ alive. Decided-after (saw (views i)) (run views (suc i) k) (h (suc i)))

      last_check-Always : Always (must_exit f returns)
      unfolding run
      last_check-Always i =
          exit_or i returns (views i).killed refl (current i)
            (λ alive. inr (refl, (views i, refl, alive)))

      yield_on_tick-Always : (k : Code) → Always k → Always (yield_on_tick f k)
      unfolding run
      yield_on_tick-Always k h i =
          Decided-after (saw (views i)) (run views (suc i) (step (views i))) (
            Always-if
              (has_process (views i).killed
                && (views i).is_running
                && f.trapno == t_irq0 + irq_timer)
              (does yield k) k (Always-does yield k h) h (suc i))
        where
          step : View → Code
          step v =
              if has_process v.killed && v.is_running && f.trapno == t_irq0 + irq_timer
              then does yield k
              else k

      after_service-Always : Always (after_service f)
      after_service-Always =
          must_exit-Always (yield_on_tick f (must_exit f returns))
            (yield_on_tick-Always (must_exit f returns) last_check-Always)

      unexpected-Always : (k : Code) → Always k → Always (unexpected f k)
      unfolding run
      unexpected-Always k h i =
          rw (current i, user)
            (Decided-after (saw (views i)) (run views (suc i) (does set_killed k))
              (Always-does set_killed k h (suc i)))

      service-Always : (first_cpu : Bool) (k : Code) → Always k → Always (service first_cpu f k)
      service-Always first_cpu k h =
          Always-if (f.trapno == t_irq0 + irq_timer) _ _
            (Always-if first_cpu _ _ (Always-does tick _ eoi) eoi)
            (Always-if (f.trapno == t_irq0 + irq_ide) _ _ (Always-does ideintr _ eoi) (
              Always-if (f.trapno == t_irq0 + irq_ide + 1) _ _ h (
                Always-if (f.trapno == t_irq0 + irq_kbd) _ _ (Always-does kbdintr _ eoi) (
                  Always-if (f.trapno == t_irq0 + irq_com1) _ _ (Always-does uartintr _ eoi) (
                    Always-if (f.trapno == t_irq0 + 7 || f.trapno == t_irq0 + irq_spurious) _ _ eoi
                      (unexpected-Always k h))))))
        where
          eoi : Always (does lapiceoi k)
          eoi = Always-does lapiceoi k h

-- A trap from user space where every look finds a current process, whatever the calls that trap() makes
-- and the rest of the system do to that process between two looks: trap() neither panics nor faults. It
-- ends in exit() right after a look at a process that is killed, or it returns right after a look at one
-- that is not, with no call in between, also when the process was killed while its system call ran or
-- while it had given up the processor.
pub trap-Decided :
    (first_cpu : Bool) (f : Frame) (views : ℕ → View)
    → f.user ≡ true
    → HasProcess views
    → Decided (run views 0 (trap first_cpu f))
unfolding trap
trap-Decided first_cpu f views user current =
    Always-if views (f.trapno == t_syscall) trap_syscall (service first_cpu f (after_service f))
      (trap_syscall-Always views current)
      (service-Always views current f user first_cpu (after_service f)
        (after_service-Always views current f user))
      0
