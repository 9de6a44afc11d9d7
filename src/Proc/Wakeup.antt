-- ===== src/Proc/Wakeup.antt =====
-- wakeup() and kill(): which processes they touch.
use shared_memory.Prelude.{
  ℕ, ◌+◌, ◌<◌, ◌≡◌, ◌≢◌, ◌⊎◌, inl, inr, refl, ◌∙◌, Bool, true, false, Option, none, some, [], arith,
  map_range, update_loop-ok, ℤ, pos, minus_one, ◌==ℤ◌, ok, ==-refl,
}
use shared_memory.Proc.{
  nproc, ProcState, embryo, sleeping, runnable, is_unused, int_limit, allocproc, is_sleeping,
  Channel, sleeps_on, Proc, ProcTable, set_proc, scan, woken, wakeup1, wakeup, killed_proc, kill,
}
use shared_memory.Kalloc.{Kmem}
use shared_memory.Kalloc.Invariant.{IsValid}
use shared_memory.Proc.Scan.{FirstFrom, scan-FirstFrom, FirstFrom-unique}
use shared_memory.Proc.Create.{unused_slot, allocproc_lem}

-- The table after every process that sleeps on the channel has been woken.
abbrev pub all_woken : Channel → ProcTable → ProcTable
all_woken c t = record t { procs = map_range (woken c) 0 nproc t.procs }

pub wakeup1_lem : (c : Channel) (t : ProcTable) → wakeup1 c t ≡ ok (all_woken c t)
wakeup1_lem c t = rw (update_loop-ok nproc (woken c) nproc 0 t.procs (omega arith)) refl

pub woken-up :
    (c : Channel) (p : Proc) → (woken c p).state ≡ sleeping → sleeps_on c (woken c p).chan ≡ false
unfolding woken
woken-up c p h = ground arith

-- The slot `i` of the table `t'` is as in `t`, but for a state that turned from SLEEPING to RUNNABLE.
abbrev pub Roused : ProcTable → ProcTable → ℕ → Type 0
Roused t t' i =
    ((t.procs i).state ≡ sleeping) × (t'.procs i ≡ record (t.procs i) { state = runnable })

-- wakeup() with the table unlocked: exactly the processes that sleep on the channel become RUNNABLE,
-- all else in the table is as before, and afterwards nobody sleeps on the channel.
pub wakeup_lem :
    (c : Channel) (t : ProcTable)
    → t.lock ≡ false
    → (t' : ProcTable) × (wakeup c t ≡ ok t')
      × ((i : ℕ)
          → i < nproc
          → (t.procs i).state ≡ sleeping
          → sleeps_on c (t.procs i).chan ≡ true
          → Roused t t' i)
      × ((i : ℕ)
          → (is_sleeping (t.procs i).state ≡ false) ⊎ (sleeps_on c (t.procs i).chan ≡ false)
          → t'.procs i ≡ t.procs i)
      × ((i : ℕ)
          → i < nproc
          → (t'.procs i).state ≡ sleeping
          → sleeps_on c (t'.procs i).chan ≡ false)
      × (t'.next_pid ≡ t.next_pid)
      × (t'.lock ≡ false)
unfolding wakeup woken
wakeup_lem c t free = (
  record (all_woken c t) { lock = false },
  rw (free, update_loop-ok nproc (woken c) nproc 0 t.procs (omega arith)) refl,
  λ i h s on. (s, rw (s, on) (ground arith)),
  λ i h. ground arith,
  λ i h s.
      (let e : (all_woken c t).procs i ≡ woken c (t.procs i) = ground arith in
        rw e (woken-up c (t.procs i) (rw e at s))),
  refl,
  refl,
)

-- The first slot with the pid `pid`.
abbrev pub has_pid : ProcTable → ℤ → ℕ → Bool
has_pid t pid i = (t.procs i).pid ==ℤ pid

-- The result of kill() for the slot that the scan has found.
abbrev pub KillResult : ℤ → ProcTable → Option ℕ → Type 0
KillResult pid t none = kill pid t ≡ ok (minus_one, record t { lock = false })
KillResult pid t (some i) =
    (t' : ProcTable) × (kill pid t ≡ ok (pos 0, t'))
    × ((t'.procs i).killed ≡ true)
    × ((t'.procs i).state ≢ sleeping)
    × ((t.procs i).state ≢ sleeping → (t'.procs i).state ≡ (t.procs i).state)
    × ((j : ℕ) → j ≢ i → t'.procs j ≡ t.procs j)
    × (t'.next_pid ≡ t.next_pid)
    × (t'.lock ≡ false)

module _ (pid : ℤ) (t : ProcTable) (free : t.lock ≡ false) where
  not_asleep : (p : Proc) → (killed_proc p).state ≢ sleeping
  unfolding killed_proc
  not_asleep p h = ground arith

  kept : (p : Proc) → p.state ≢ sleeping → (killed_proc p).state ≡ p.state
  unfolding killed_proc
  kept p ne = ground arith

  kill_found_lem : (r : Option ℕ) → scan (has_pid t pid) nproc 0 ≡ r → KillResult pid t r
  unfolding kill killed_proc
  kill_found_lem none e = rw (free, e) refl
  kill_found_lem (some i) e = (
    record (set_proc i (killed_proc (t.procs i)) t) { lock = false },
    rw (free, e) refl,
    rw (==-refl i) refl,
    rw (==-refl i) (not_asleep (t.procs i)),
    rw (==-refl i) (kept (t.procs i)),
    λ j ne. ground arith,
    refl,
    refl,
  )

  -- kill() with the table unlocked finds the first slot that has the pid, whatever its state. If
  -- there is none it returns -1 and changes nothing. Else it returns 0, the process is marked as
  -- killed and no longer sleeps, its state is kept if it did not sleep, and no other slot changes.
  pub kill_lem : (r : Option ℕ) × FirstFrom (has_pid t pid) 0 nproc r × KillResult pid t r
  kill_lem = (
    scan (has_pid t pid) nproc 0,
    scan-FirstFrom (has_pid t pid) nproc 0 nproc refl,
    kill_found_lem (scan (has_pid t pid) nproc 0) refl,
  )

  kill_first : (i : ℕ) → FirstFrom (has_pid t pid) 0 nproc (some i) → KillResult pid t (some i)
  kill_first i first =
      let (r, f, k) = kill_lem in rw (FirstFrom-unique (has_pid t pid) 0 nproc i r f first) at k

unused_after :
    (t t' : ProcTable) (i : ℕ)
    → ((t'.procs i).state ≡ (t.procs i).state)
    → ((j : ℕ) → j ≢ i → t'.procs j ≡ t.procs j)
    → FirstFrom (unused_slot t) 0 nproc (some i)
    → FirstFrom (unused_slot t') 0 nproc (some i)
unused_after t t' i same others first =
    (first.0, first.1, rw same (first.2), λ j a b. rw (others j (λ e. omega arith)) (first.3 j a b))

unused_awake : (s : ProcState) → is_unused s ≡ true → s ≢ sleeping
unused_awake s h = ground arith

abbrev BornKilled : ℕ → ℕ → ProcTable → Kmem → ℕ → Type 0
BornKilled forkret trapret t m i =
    (t' : ProcTable) × (m' : Kmem) × (allocproc forkret trapret t m ≡ ok (some i, t', m'))
    × ((t'.procs i).state ≡ embryo)
    × ((t'.procs i).killed ≡ true)

-- allocproc() keeps the mark of the slot that it takes.
killed_stays :
    (forkret trapret i : ℕ) (t : ProcTable) (m : Kmem)
    → t.lock ≡ false
    → IsValid m
    → t.next_pid + 1 < int_limit
    → m.free ≢ []
    → (t.procs i).killed ≡ true
    → FirstFrom (unused_slot t) 0 nproc (some i)
    → BornKilled forkret trapret t m i
killed_stays forkret trapret i t m free valid more pages marked first =
    let (r, f, a) = allocproc_lem forkret trapret t m free valid more in
    let e = FirstFrom-unique (unused_slot t) 0 nproc i r f first in
    elim (rw e at a) [
      | inl (none_left, _, _, _, _) ↦ absurd (pages none_left)
      | inr (p, t', m', run, page, new) ↦ (t', m', run, new.embryo_state, new.killed_kept ∙ marked)
    ]

-- A finding: with the table unlocked, pids left, a well-formed allocator with a free page, and the
-- first slot with the pid 0 also the first UNUSED one, kill(0) does not fail. It marks this slot as
-- killed, and the next allocproc() returns it as a new process that is already killed.
pub kill_zero-born_killed :
    (forkret trapret i : ℕ) (t : ProcTable) (m : Kmem)
    → t.lock ≡ false
    → IsValid m
    → t.next_pid + 1 < int_limit
    → m.free ≢ []
    → FirstFrom (has_pid t (pos 0)) 0 nproc (some i)
    → FirstFrom (unused_slot t) 0 nproc (some i)
    → (t' t'' : ProcTable) × (m' : Kmem) × (kill (pos 0) t ≡ ok (pos 0, t'))
      × (allocproc forkret trapret t' m ≡ ok (some i, t'', m'))
      × ((t''.procs i).state ≡ embryo)
      × ((t''.procs i).killed ≡ true)
kill_zero-born_killed forkret trapret i t m free valid more pages first opened =
    let (t', run, marked, awake, same, others, next, unlocked) =
      kill_first (pos 0) t free i first in
    let still = same (unused_awake (t.procs i).state opened.2) in
    let (t'', m', made, state, killed) =
      killed_stays forkret trapret i t' m unlocked valid (rw next more) pages marked
        (unused_after t t' i still others opened) in
    (t', t'', m', run, made, state, killed)
