-- ===== src/Sysproc/Ticks.antt =====
-- sys_sleep() of sysproc.c and the tick of trap.c: how long a process sleeps.
use shared_memory.Prelude.{
  ℕ, zero, suc, ◌+◌, ◌%◌, ◌<◌, ◌≤◌, ◌≡◌, ◌⊎◌, inl, inr, refl, true, false, some, arith, ltb, pos,
  Outcome, ok, ◌>>=◌, Bool-cases,
}
use shared_memory.Layout.{word, minus}
use shared_memory.Syscall.{User, argint}
use shared_memory.Proc.{at_address}
use shared_memory.Proc.Wakeup.{wakeup_lem}
use shared_memory.Sysproc.{Nap, Clock, over, asleep_since, sleep_round, sys_sleep, tick}

-- `k` ticks of the timer
unfoldable pub ticks_of : ℕ → ℕ → Clock → Outcome Clock
ticks_of a zero c = ok c
ticks_of a (suc k) c = do c ← tick a c; ticks_of a k c

tick_lem :
    (a : ℕ) (c : Clock)
    → c.lock ≡ false
    → c.procs.lock ≡ false
    → (c' : Clock) × (tick a c ≡ ok c')
      × (c'.ticks ≡ (c.ticks + 1) % word)
      × (c'.lock ≡ false)
      × (c'.procs.lock ≡ false)
unfolding tick
tick_lem a c open_lock free =
    let (t, run, x1, x2, x3, x4, unlocked) = wakeup_lem (at_address a) c.procs free in
    let d : Clock = record { ticks = (c.ticks + 1) % word; lock = false; procs = t } in
    (d, rw (open_lock, run) refl, refl, refl, unlocked)

ticks_of_lem :
    (a k : ℕ) (c : Clock)
    → c.ticks < word
    → c.lock ≡ false
    → c.procs.lock ≡ false
    → (c' : Clock) × (ticks_of a k c ≡ ok c')
      × (c'.ticks ≡ (c.ticks + k) % word)
      × (c'.lock ≡ false)
      × (c'.procs.lock ≡ false)
unfolding ticks_of
ticks_of_lem a zero c small open_lock free = (c, refl, omega arith, open_lock, free)
ticks_of_lem a (suc k) c small open_lock free =
    let (d, run, now, unlocked, procs) = tick_lem a c open_lock free in
    let (e, run2, now2, unlocked2, procs2) = ticks_of_lem a k d (omega arith) unlocked procs in
    (e, rw run run2, omega arith, unlocked2, procs2)

restored :
    (c : Clock)
    → c.lock ≡ false
    → ◌≡◌ {A = Outcome (Nap × Clock)}
        (ok (over (pos 0), record c { lock = false }))
        (ok (over (pos 0), c))
restored c e = rw e refl

-- sys_sleep() of a process that is not killed, with the locks free: it sleeps, unless the count is 0. When
-- it is woken after `k` further ticks, fewer than 2 ^ 32, it returns 0 if the count is at most `k`, and
-- else sleeps on, although the counter of the ticks may have wrapped around.
pub sleep_round_lem :
    (a k n : ℕ) (u : User) (c : Clock)
    → argint 0 u ≡ some n
    → c.ticks < word
    → k < word
    → c.lock ≡ false
    → c.procs.lock ≡ false
    → (((n ≡ 0) × (sys_sleep u false c ≡ ok (over (pos 0), c)))
        ⊎ ((1 ≤ n) × (sys_sleep u false c ≡ ok (asleep_since c.ticks, record c { lock = true }))))
      × ((c' : Clock) × (ticks_of a k c ≡ ok c')
          × (((n ≤ k)
                × (sleep_round c.ticks n false (record c' { lock = true }) ≡ ok (over (pos 0), c')))
              ⊎ ((k < n)
                  × (sleep_round c.ticks n false (record c' { lock = true })
                      ≡ ok (asleep_since c.ticks, record c' { lock = true })))))
unfolding sys_sleep sleep_round
sleep_round_lem a k n u c arg small few open_lock free =
    let (d, run, now, unlocked, procs) = ticks_of_lem a k c small open_lock free in
    (
      elim (Bool-cases (ltb (minus c.ticks c.ticks) n)) [
        | inl on ↦ inr (ground arith, rw (sys_sleep, arg, open_lock, on) refl)
        | inr done ↦ inl (ground arith, rw (sys_sleep, arg, open_lock, done) refl)
      ],
      (
        d,
        run,
        elim (Bool-cases (ltb (minus d.ticks c.ticks) n)) [
          | inl on ↦ inr (ground arith, rw on refl)
          | inr done ↦ inl (ground arith, rw done (restored d unlocked))
        ],
      ),
    )
