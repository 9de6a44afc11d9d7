-- ===== src/Log/Atomic.antt =====
-- A transaction of log.c from commit() over a crash to the end of recovery.
use shared_memory.Prelude.{
  ℕ, ◌≤◌, ◌<◌, ◌≡◌, sym, ◌∙◌, ap, false, true, arith, List, [], ◌∷◌, ◌++◌, ok, ltb, ◌==◌,
  if◌then◌else◌,
}
use mathlib.Core.Path.{subst}
use native.Mathlib.Decide.{dec_lt}
use shared_memory.Log.{Block, Store, Log, header_n, LogPlace, commit, commit_writes, log_size}
use shared_memory.Log.Loops.{Outside}
use shared_memory.Log.Replay.{replay, finish, finish-header, short-header, IsCommitted}
use shared_memory.Log.Crash.{IsReady, intended, sealed, sealed-IsCommitted, early, commit-crash}
use shared_memory.Log.Recovery.{IsSound, boots, recovery}

-- A log of no more blocks than `n`, which is sound
abbrev SoundUpTo : ℕ → ℕ → (ℕ → Block) → Type 0
SoundUpTo n start d = IsSound start d × (header_n (d start) ≤ n)

empty-SoundUpTo : (n start : ℕ) (d : ℕ → Block) → header_n (d start) ≡ 0 → SoundUpTo n start d
empty-SoundUpTo n start d e = (
  record {
    fits = omega arith;
    distinct = λ i j q r. absurd (omega arith);
    outside = λ i q. absurd (omega arith);
  },
  omega arith,
)

committed-SoundUpTo :
    (l : Log) (s : Store) → l.lh_n ≤ log_size → IsCommitted l s → SoundUpTo l.lh_n l.start s.disk
committed-SoundUpTo l s fits c = (
  record {
    fits = rw c.count fits;
    distinct = λ i j p q e.
        let q' : j < l.lh_n = omega (arith, c.count) in
        c.distinct i j p q' (sym (c.blocks i (omega arith)) ∙ e ∙ c.blocks j q');
    outside = λ i p.
        let p' : i < l.lh_n = omega (arith, c.count) in
        rw (c.count, c.blocks i p') (c.outside i p');
  },
  omega (arith, c.count),
)

finish-SoundUpTo :
    (l : Log) (s : Store)
    → l.lh_n ≤ log_size
    → IsCommitted l s
    → SoundUpTo l.lh_n l.start (finish l s).disk
finish-SoundUpTo l s fits c = elim (dec_lt l.lh_n s.power) [
  | yes p ↦ empty-SoundUpTo l.lh_n l.start (finish l s).disk (finish-header l s p)
  | no p ↦
      (let e = short-header l s c (omega arith) in
        let (w, le) = committed-SoundUpTo l s fits c in
        (
          record { fits = rw e w.fits; distinct = rw e w.distinct; outside = rw e w.outside },
          rw e le,
        ))
]

-- However many writes of commit() reach the disk, they leave a sound log.
commit-SoundUpTo :
    (l : Log) (s : Store)
    → l.lh_n ≤ log_size
    → IsReady l s
    → SoundUpTo l.lh_n l.start (commit l s).1.disk
unfolding commit
commit-SoundUpTo l s fits r = elim (dec_lt 0 l.lh_n) [
  | yes z ↦ (let e : (l.lh_n == 0) ≡ false = ground arith in rw e (busy (dec_lt l.lh_n s.power)))
  | no z ↦
      (let e : (l.lh_n == 0) ≡ true = ground arith in
        rw e (empty-SoundUpTo l.lh_n l.start s.disk r.empty))
]
  where
    busy : Dec (l.lh_n < s.power) → SoundUpTo l.lh_n l.start (commit_writes l s).disk
    busy (yes p) = finish-SoundUpTo l (sealed l s r) fits (sealed-IsCommitted l s r p)
    busy (no p) =
        empty-SoundUpTo l.lh_n l.start (commit_writes l s).disk
          (ap header_n (early l s r l.start (omega arith) (omega arith)) ∙ r.empty)

-- The power fails after any number of the disk writes of commit(); then the system is booted any
-- number of times, each cut short anywhere, and at last once with the power for more writes than the
-- transaction has blocks. Then the log is empty, and either the whole transaction has happened on the
-- blocks outside the log, or nothing of it: it has exactly when the write of the header got through.
-- The log was empty before, has room for the transaction, and its blocks are distinct and outside it.
pub commit-boots :
    (sb : LogPlace) (l0 l : Log) (s : Store) (ks : List ℕ) (k : ℕ)
    → l.start ≡ sb.logstart
    → l.lh_n ≤ log_size
    → IsReady l s
    → l.lh_n < k
    → (d : ℕ → Block) × (boots sb l0 (ks ++ (k ∷ [])) (commit l s).1.disk ≡ ok d)
      × (header_n (d sb.logstart) ≡ 0)
      × ((b : ℕ)
          → Outside l.start l.lh_n b
          → d b ≡ (if ltb l.lh_n s.power then intended l s b else s.disk b))
commit-boots sb l0 l s ks k here fits r p =
    let (w, le) = commit-SoundUpTo l s fits r in
    let w' = subst (λ x. SoundUpTo l.lh_n x (commit l s).1.disk) here (w, le) in
    let (d, run, e, same) = recovery sb l0 ks k (commit l s).1.disk w'.0 (omega (arith, w'.1)) in
    (
      d,
      run,
      e,
      λ b o.
          same b (
            subst (λ x. Outside x (header_n ((commit l s).1.disk x)) b) here (omega (arith, o, le)))
          ∙ subst
              (λ x.
                replay x (commit l s).1.disk b
                ≡ (if ltb l.lh_n s.power then intended l s b else s.disk b))
              here (commit-crash l s b r o),
    )
