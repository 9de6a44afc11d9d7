-- ===== src/Log/Recovery.antt =====
-- Boots of the system after a crash: initlog() of log.c, itself cut short any number of times.
use shared_memory.Prelude.{
  ℕ, ◌≤◌, ◌<◌, ◌≡◌, refl, sym, ◌∙◌, false, arith, List, [], ◌∷◌, ◌++◌, Outcome, ok, ◌>>=◌, le→ltb,
}
use mathlib.Core.Path.{subst}
use native.Mathlib.Decide.{dec_lt}
use shared_memory.Log.{
  Block, Store, Log, header_n, header_block, copy_ints, read_head, recover_from_log, LogPlace,
  initlog, log_size,
}
use shared_memory.Log.Loops.{copy_ints_lem, Outside, DistinctBlocks}
use shared_memory.Log.Replay.{
  replay, replay-out, finish, IsCommitted, finish-replay, finish-header, short-header,
}

-- The store after a reboot, with the power for `k` writes: the buffers hold what the disk does.
abbrev pub boot : (ℕ → Block) → ℕ → Store
boot d k = record { disk = d; buf = d; dirty = λ b. false; power = k }

-- One boot: initlog(), and the disk that it leaves when the power lasts for `k` writes.
unfoldable pub boot_disk : LogPlace → Log → ℕ → (ℕ → Block) → Outcome (ℕ → Block)
boot_disk sb l k d = do (l, s) ← initlog sb l (boot d k); ok s.disk

-- A boot for each element of the list, cut short after so many writes.
unfoldable pub boots : LogPlace → Log → List ℕ → (ℕ → Block) → Outcome (ℕ → Block)
boots sb l [] d = ok d
boots sb l (k ∷ ks) d = do d ← boot_disk sb l k d; boots sb l ks d

-- The log on the disk fits its array, and its blocks are distinct and outside the log.
pub record IsSound (start : ℕ) (d : ℕ → Block) : Type 0 where
  pub fits : header_n (d start) ≤ log_size
  pub distinct : DistinctBlocks (header_n (d start)) (header_block (d start))
  pub outside :
      (i : ℕ)
      → i < header_n (d start)
      → Outside start (header_n (d start)) (header_block (d start) i)

-- The log in memory after read_head()
abbrev loaded : LogPlace → Log → (ℕ → Block) → Log
loaded sb l d = record {
  start = sb.logstart;
  size = sb.nlog;
  outstanding = l.outstanding;
  committing = l.committing;
  lh_n = header_n (d sb.logstart);
  lh_block = copy_ints (header_n (d sb.logstart)) 0 (header_block (d sb.logstart)) l.lh_block;
  lock = false;
}

boot_disk-finish :
    (sb : LogPlace) (l : Log) (k : ℕ) (d : ℕ → Block)
    → IsSound sb.logstart d
    → boot_disk sb l k d ≡ ok (finish (loaded sb l d) (boot d k)).disk
unfolding boot_disk initlog recover_from_log read_head
boot_disk-finish sb l k d w = rw (le→ltb (header_n (d sb.logstart)) log_size w.fits) refl

loaded_block :
    (sb : LogPlace) (l : Log) (d : ℕ → Block) (i : ℕ)
    → i < header_n (d sb.logstart)
    → header_block (d sb.logstart) i ≡ (loaded sb l d).lh_block i
loaded_block sb l d i p = sym (
    copy_ints_lem (header_n (d sb.logstart)) 0 (header_block (d sb.logstart)) l.lh_block i
    ∙ (ground arith))

loaded-IsCommitted :
    (sb : LogPlace) (l : Log) (k : ℕ) (d : ℕ → Block)
    → IsSound sb.logstart d
    → IsCommitted (loaded sb l d) (boot d k)
loaded-IsCommitted sb l k d w = record {
  count = refl;
  blocks = loaded_block sb l d;
  bufs = λ i p. refl;
  distinct = λ i j p q e.
      w.distinct i j p q (loaded_block sb l d i (omega arith) ∙ e ∙ sym (loaded_block sb l d j q));
  outside = λ i p.
      subst (Outside sb.logstart (header_n (d sb.logstart))) (loaded_block sb l d i p)
        (w.outside i p);
}

-- One boot leaves a sound log of no more blocks, and what the disk stands for.
boot_disk-IsSound :
    (sb : LogPlace) (l : Log) (k : ℕ) (d : ℕ → Block)
    → IsSound sb.logstart d
    → IsSound sb.logstart (finish (loaded sb l d) (boot d k)).disk
      × (header_n ((finish (loaded sb l d) (boot d k)).disk sb.logstart) ≤ header_n (d sb.logstart))
boot_disk-IsSound sb l k d w = elim (dec_lt (header_n (d sb.logstart)) k) [
  | yes p ↦
      (let e = finish-header (loaded sb l d) (boot d k) p in
        (
          record {
            fits = omega arith;
            distinct = λ i j q r. absurd (omega arith);
            outside = λ i q. absurd (omega arith);
          },
          omega arith,
        ))
  | no p ↦
      (let e : (finish (loaded sb l d) (boot d k)).disk sb.logstart ≡ d sb.logstart =
          short-header (loaded sb l d) (boot d k) (loaded-IsCommitted sb l k d w) (omega arith) in
        (
          record { fits = rw e w.fits; distinct = rw e w.distinct; outside = rw e w.outside },
          rw e (omega arith),
        ))
]

-- The system is booted any number of times, each cut short after any number of disk writes, and then
-- once with the power for more writes than the log has blocks. No boot panics, the log is empty, and
-- each block outside the log has the content that the log of the first disk gives it. The log on that
-- disk fits its array, and its blocks are distinct and outside the log.
pub recovery :
    (sb : LogPlace) (l : Log) (ks : List ℕ) (k : ℕ) (d : ℕ → Block)
    → IsSound sb.logstart d
    → header_n (d sb.logstart) < k
    → (d' : ℕ → Block) × (boots sb l (ks ++ (k ∷ [])) d ≡ ok d')
      × (header_n (d' sb.logstart) ≡ 0)
      × ((b : ℕ) → Outside sb.logstart (header_n (d sb.logstart)) b → d' b ≡ replay sb.logstart d b)
unfolding boots
recovery sb l [] k d w p =
    let c = loaded-IsCommitted sb l k d w in
    let d' = (finish (loaded sb l d) (boot d k)).disk in
    let e = finish-header (loaded sb l d) (boot d k) p in
    (
      d',
      rw (boot_disk-finish sb l k d w) refl,
      e,
      λ b o.
          sym (
            replay-out sb.logstart 0 (λ i. 0) d' b e (λ i h. absurd (omega arith))
              (λ i h. absurd (omega arith)))
          ∙ finish-replay (loaded sb l d) (boot d k) c b o,
    )
recovery sb l (k1 ∷ ks) k d w p =
    let c = loaded-IsCommitted sb l k1 d w in
    let d1 = (finish (loaded sb l d) (boot d k1)).disk in
    let (w1, le) = boot_disk-IsSound sb l k1 d w in
    let (d', run, e, same) = recovery sb l ks k d1 w1 (omega arith) in
    (
      d',
      rw (boot_disk-finish sb l k1 d w) run,
      e,
      λ b o. same b (omega arith) ∙ finish-replay (loaded sb l d) (boot d k1) c b o,
    )
