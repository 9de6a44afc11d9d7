-- ===== src/Log/Reserve.antt =====
-- What the runs of begin_op(), log_write() and end_op() of log.c that return have done to the log.
use shared_memory.Prelude.{
  ℕ, suc, ◌<◌, ◌≡◌, inl, inr, refl, Bool, true, false, ◌||◌, pos, incr, Outcome, ok, panic, fault,
  out_of_fuel, ◌>>=◌, arith, Option, none, some, ◌==◌, Bool-cases,
}
use shared_memory.Proc.{lock_procs, unlock_procs, set_proc, ProcTable, wakeup, at_address}
use shared_memory.Proc.Switch.{Cpu, sched, fall_asleep, sleep_before, sleep_after}
use shared_memory.Log.{
  with_guard, Store, Log, is_short, begin_op, begin_round, begin_op_again, log_write, end_count,
  end_commit, unlock_log, put_block,
}
use shared_memory.Log.Space.{log_slot, log_write-ok, log_write-full, no_room}

-- What a round of begin_op() that returns the flag has found, and has made of the log
abbrev pub Round : Bool → Log → Log → Type 0
Round true l l' =
    (l.committing ≡ false)
    × (is_short l.lh_n l.outstanding ≡ false)
    × (l' ≡ record l { outstanding = incr l.outstanding; lock = false })
Round false l l' = l' ≡ record l { lock = false }

-- The process sleeps, and does not return.
abbrev sleeps : Log → Option Bool × ProcTable → Outcome (Bool × Log × ProcTable)
sleeps l r = ok (false, with_guard r.0 l, r.1)

abbrev pair : Option Bool → ProcTable → Outcome (Option Bool × ProcTable)
pair g t = ok (g, t)

-- sleep() gives the lock of the log back.
sleep_before-lock :
    (me a : ℕ) (c : Cpu) (t : ProcTable) (g : Option Bool) (t' : ProcTable)
    → sleep_before me (at_address a) (some true) c t ≡ ok (g, t')
    → g ≡ some false
unfolding sleep_before
sleep_before-lock me a c t g t' e = locked (lock_procs t) e
  where
    scheduled : (o : Outcome ProcTable) → (o >>= pair (some false)) ≡ ok (g, t') → g ≡ some false
    scheduled (ok u) e = cc
    scheduled panic e = absurd (cc)
    scheduled fault e = absurd (cc)
    scheduled out_of_fuel e = absurd (cc)

    locked :
        (o : Outcome ProcTable)
        → ((o >>= pair (some false)) >>= λ x.
            (sched me c (fall_asleep me (at_address a) x.1) >>= pair x.0))
          ≡ ok (g, t')
        → g ≡ some false
    locked (ok u) e = scheduled (sched me c (fall_asleep me (at_address a) u)) e
    locked panic e = absurd (cc)
    locked fault e = absurd (cc)
    locked out_of_fuel e = absurd (cc)

pub begin_round-Round :
    (a me : ℕ) (c : Cpu) (flag : Bool) (l : Log) (t : ProcTable) (l' : Log) (t' : ProcTable)
    → begin_round a me c (record l { lock = true }) t ≡ ok (flag, l', t')
    → Round flag l l'
unfolding begin_round
begin_round-Round a me c flag l t l' t' e =
    elim (Bool-cases (l.committing || is_short l.lh_n l.outstanding)) [
      | inl h ↦ asleep flag (sleep_before me (at_address a) (some true) c t) refl (rw h at e)
      | inr h ↦ over flag h (rw h at e)
    ]
  where
    asleep :
        (flag : Bool) (o : Outcome (Option Bool × ProcTable))
        → sleep_before me (at_address a) (some true) c t ≡ o
        → (o >>= sleeps (record l { lock = true })) ≡ ok (flag, l', t')
        → Round flag l l'
    asleep true (ok (g, t1)) q e = absurd (cc)
    asleep false (ok (g, t1)) q e = (let z = sleep_before-lock me a c t g t1 q in cc)
    asleep flag panic q e = absurd (cc)
    asleep flag fault q e = absurd (cc)
    asleep flag out_of_fuel q e = absurd (cc)

    over :
        (flag : Bool)
        → (l.committing || is_short l.lh_n l.outstanding) ≡ false
        → ◌≡◌ {A = Outcome (Bool × Log × ProcTable)}
            (ok (true, record l { outstanding = incr l.outstanding; lock = false }, t))
            (ok (flag, l', t'))
        → Round flag l l'
    over true h e = (ground arith, ground arith, cc)
    over false h e = absurd (cc)

pub begin_op-Round :
    (a me : ℕ) (c : Cpu) (flag : Bool) (l : Log) (t : ProcTable) (l' : Log) (t' : ProcTable)
    → l.lock ≡ false
    → begin_op a me c l t ≡ ok (flag, l', t')
    → Round flag l l'
unfolding begin_op
begin_op-Round a me c flag l t l' t' k e = begin_round-Round a me c flag l t l' t' (rw k at e)

pub begin_op_again-Round :
    (a me : ℕ) (c : Cpu) (flag : Bool) (l : Log) (t : ProcTable) (l' : Log) (t' : ProcTable)
    → l.lock ≡ false
    → begin_op_again a me c l t ≡ ok (flag, l', t')
    → Round flag l l'
unfolding begin_op_again sleep_after
begin_op_again-Round a me c flag l t l' t' k e = awake (unlock_procs u) (rw k at e)
  where
    u : ProcTable
    u = set_proc me (record (t.procs me) { chan = none }) t

    awake :
        (o : Outcome ProcTable)
        → ((o >>= pair (some true)) >>= λ r.
            begin_round a me c (with_guard r.0 (record l { lock = false })) r.1)
          ≡ ok (flag, l', t')
        → Round flag l l'
    awake (ok v) e = begin_round-Round a me c flag l v l' t' e
    awake panic e = absurd (cc)
    awake fault e = absurd (cc)
    awake out_of_fuel e = absurd (cc)

pub log_write-put :
    (b : ℕ) (l : Log) (s : Store) (o : ℕ) (l' : Log) (s' : Store)
    → l.outstanding ≡ pos (suc o)
    → l.lock ≡ false
    → log_write b l s ≡ ok (l', s')
    → (no_room l ≡ false) × (l' ≡ put_block (log_slot b l) b l)
log_write-put b l s o l' s' e k run = elim (Bool-cases (no_room l)) [
  | inl f ↦ (let z = log_write-full b l s f in absurd (cc))
  | inr f ↦ (let z = log_write-ok b l s o f e k in (f, cc))
]

-- The log after the call to end_op() of which another system call, or none, is left
abbrev pub Ended : Bool → ℕ → Log → Log → Type 0
Ended true n l l' =
    (n ≡ 0) × (l' ≡ record l { outstanding = pos 0; committing = true; lock = false })
Ended false n l l' =
    (0 < n) × (l' ≡ record l { outstanding = pos n; committing = false; lock = false })

-- What end_op() does after its calls of wakeup()
abbrev unlocked : Log → ProcTable → Outcome (Bool × Log × ProcTable)
unlocked l t = do l ← unlock_log l; ok (false, l, t)

abbrev finished : Log → ProcTable → Outcome (Log × ProcTable)
finished l t = do l ← unlock_log (record l { committing = false }); ok (l, t)

pub end_count-Ended :
    (a : ℕ) (flag : Bool) (n : ℕ) (l : Log) (t : ProcTable) (l' : Log) (t' : ProcTable)
    → l.outstanding ≡ pos (suc n)
    → l.lock ≡ false
    → l.committing ≡ false
    → end_count a l t ≡ ok (flag, l', t')
    → Ended flag n l l'
unfolding end_count
end_count-Ended a flag n l t l' t' e k z run = elim (Bool-cases (n == 0)) [
  | inl h ↦ last flag h (rw (k, e, z, h) at run)
  | inr h ↦ more flag h (wakeup (at_address a) t) (rw (k, e, z, h) at run)
]
  where
    last :
        (flag : Bool)
        → (n == 0) ≡ true
        → ◌≡◌ {A = Outcome (Bool × Log × ProcTable)}
            (ok (true, record l { outstanding = pos n; committing = true; lock = false }, t))
            (ok (flag, l', t'))
        → Ended flag n l l'
    last true h e = (let n0 : n ≡ 0 = ground arith in (n0, cc))
    last false h e = absurd (cc)

    more :
        (flag : Bool)
        → (n == 0) ≡ false
        → (o : Outcome ProcTable)
        → (o >>= unlocked (record l { outstanding = pos n; committing = false; lock = true }))
          ≡ ok (flag, l', t')
        → Ended flag n l l'
    more true h (ok v) e = absurd (cc)
    more false h (ok v) e = (ground arith, cc)
    more flag h panic e = absurd (cc)
    more flag h fault e = absurd (cc)
    more flag h out_of_fuel e = absurd (cc)

pub end_commit-log :
    (a : ℕ) (l : Log) (t : ProcTable) (l' : Log) (t' : ProcTable)
    → l.lock ≡ false
    → end_commit a l t ≡ ok (l', t')
    → l' ≡ record l { committing = false; lock = false }
unfolding end_commit
end_commit-log a l t l' t' k run = awake (wakeup (at_address a) t) (rw k at run)
  where
    awake :
        (o : Outcome ProcTable)
        → (o >>= finished (record l { lock = true })) ≡ ok (l', t')
        → l' ≡ record l { committing = false; lock = false }
    awake (ok v) e = cc
    awake panic e = absurd (cc)
    awake fault e = absurd (cc)
    awake out_of_fuel e = absurd (cc)
