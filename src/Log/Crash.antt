-- ===== src/Log/Crash.antt =====
-- commit() and recover_from_log() of log.c when the power fails after any number of disk writes.
use shared_memory.Prelude.{
  ℕ, ◌+◌, ◌-◌, ◌≤◌, ◌<◌, ◌≡◌, ◌⊎◌, inl, inr, refl, sym, ◌∙◌, ap, true, false, none, some, arith,
  ltb, ◌==◌, if◌then◌else◌, ==-refl, ==-ne, le→ltb, lt→ltb,
}
use mathlib.Core.Path.{subst}
use native.Mathlib.Decide.{dec_lt}
use shared_memory.Log.{
  Block, Store, Log, header_n, header_block, header, write_buf, copy_ints, write_head, write_log,
  commit, commit_writes,
}
use shared_memory.Log.Loops.{
  copy_ints_lem, Outside, DistinctBlocks, write_log_loop-power, write_log_loop-buf_in,
  write_log_loop-disk_in, write_log_loop-disk_out,
}
use shared_memory.Log.Replay.{
  index_of, index_of-cases, replay, replay-out, replay-in, IsCommitted, finish-replay, finish-dead,
}

-- Before a commit: the log on the disk is empty, and the blocks of the transaction are distinct and
-- outside the log.
pub record IsReady (l : Log) (s : Store) : Type 0 where
  pub empty : header_n (s.disk l.start) ≡ 0
  pub distinct : DistinctBlocks l.lh_n l.lh_block
  pub outside : (i : ℕ) → i < l.lh_n → Outside l.start l.lh_n (l.lh_block i)

-- A disk on which the transaction has happened: the blocks of the log from the buffers
abbrev pub intended : Log → Store → ℕ → Block
intended l s b = elim (index_of l.lh_n l.lh_block b) [ none ↦ s.disk b | some i ↦ s.buf b ]

intended-empty : (l : Log) (s : Store) (b : ℕ) → l.lh_n ≡ 0 → intended l s b ≡ s.disk b
intended-empty l s b z = elim (index_of-cases l.lh_n l.lh_block b) [
  | inl (i, p, q, e) ↦ absurd (omega arith)
  | inr (h, e) ↦ rw (intended, e) refl
]

module _ (l : Log) (s : Store) (r : IsReady l s) where
  abbrev pub logged : Store
  logged = write_log l s

  abbrev pub sealed : Store
  sealed = write_head l logged

  logged-power : logged.power ≡ s.power - l.lh_n
  unfolding write_log
  logged-power = write_log_loop-power l.lh_n 0 l s

  -- While the log fills up, nothing but its blocks changes.
  logged-disk_out : (b : ℕ) → (b ≤ l.start) ⊎ (l.start + l.lh_n < b) → logged.disk b ≡ s.disk b
  unfolding write_log
  logged-disk_out b o = write_log_loop-disk_out l.lh_n 0 l s b (omega arith)

  logged-disk_in :
      (i : ℕ) → i < l.lh_n → l.lh_n ≤ s.power → logged.disk (l.start + i + 1) ≡ s.buf (l.lh_block i)
  unfolding write_log
  logged-disk_in i p q =
      write_log_loop-disk_in l.lh_n 0 l s
        (λ j h. (let o = r.outside j (omega arith) in omega arith)) i (omega arith) (omega arith)

  logged-buf_in : (i : ℕ) → i < l.lh_n → logged.buf (l.start + i + 1) ≡ s.buf (l.lh_block i)
  unfolding write_log
  logged-buf_in i p =
      write_log_loop-buf_in l.lh_n 0 l s (λ j h. (let o = r.outside j (omega arith) in omega arith))
        i (omega arith) (omega arith)

  sealed-disk :
      (b : ℕ)
      → sealed.disk b ≡ (
          if logged.power == 0
          then logged.disk b
          else if b == l.start
          then header l.lh_n (copy_ints l.lh_n 0 l.lh_block (header_block (logged.buf l.start)))
          else logged.disk b)
  unfolding write_head write_buf
  sealed-disk b = elim (dec_lt 0 logged.power) [
    | yes p ↦ rw (==-refl l.start) (ground arith)
    | no p ↦ ground arith
  ]

  sealed-buf : (b : ℕ) → ¬ (b ≡ l.start) → sealed.buf b ≡ logged.buf b
  unfolding write_head write_buf
  sealed-buf b h = ground arith

  sealed-power : sealed.power ≡ s.power - l.lh_n - 1
  unfolding write_head write_buf
  sealed-power = omega (arith, logged-power)

  -- The header reaches the disk: the transaction is committed.
  sealed-header :
      l.lh_n < s.power
      → sealed.disk l.start
        ≡ header l.lh_n (copy_ints l.lh_n 0 l.lh_block (header_block (logged.buf l.start)))
  sealed-header p =
      let q = logged-power in
      let z : (logged.power == 0) ≡ false = ground arith in
      rw (sealed-disk l.start, z, ==-refl l.start) refl

  sealed-out : (b : ℕ) → ¬ (b ≡ l.start) → sealed.disk b ≡ logged.disk b
  sealed-out b h = rw (sealed-disk b, ==-ne b l.start h) (ground arith)

  pub sealed-IsCommitted : l.lh_n < s.power → IsCommitted l sealed
  sealed-IsCommitted p = record {
    count = ap header_n (sealed-header p);
    blocks = λ i h.
        ap (λ x. header_block x i) (sealed-header p)
        ∙ copy_ints_lem l.lh_n 0 l.lh_block (header_block (logged.buf l.start)) i
        ∙ (ground arith);
    bufs = λ i h.
        sealed-buf (l.start + i + 1) (omega arith)
        ∙ logged-buf_in i h
        ∙ sym (logged-disk_in i h (omega arith))
        ∙ sym (sealed-out (l.start + i + 1) (omega arith));
    distinct = r.distinct;
    outside = r.outside;
  }

  -- The power fails before the header is written: no block but those of the log has changed.
  pub early :
      (b : ℕ)
      → s.power ≤ l.lh_n
      → (b ≤ l.start) ⊎ (l.start + l.lh_n < b)
      → (commit_writes l s).disk b ≡ s.disk b
  early b p o =
      let q = logged-power in
      let q' = sealed-power in
      let z : logged.power ≡ 0 = omega arith in
      finish-dead l sealed b (omega arith) ∙ rw (sealed-disk b, z) (logged-disk_out b o)

  early-replay :
      (b : ℕ)
      → s.power ≤ l.lh_n
      → Outside l.start l.lh_n b
      → replay l.start (commit_writes l s).disk b ≡ s.disk b
  early-replay b p o =
      replay-out l.start 0 l.lh_block (commit_writes l s).disk b
        (ap header_n (early l.start p (omega arith)) ∙ r.empty) (λ i h. absurd (omega arith))
        (λ i h. absurd (omega arith))
      ∙ early b p (omega arith)

  sealed-replay :
      (b : ℕ)
      → l.lh_n < s.power
      → Outside l.start l.lh_n b
      → replay l.start sealed.disk b ≡ intended l s b
  sealed-replay b p o = elim (index_of-cases l.lh_n l.lh_block b) [
    | inl (i, q, e, f) ↦
        rw (intended, f)
          (subst (λ x. replay l.start sealed.disk x ≡ s.buf x) e
            (replay-in l.start l.lh_n l.lh_block sealed.disk (sealed-IsCommitted p).count
                (sealed-IsCommitted p).blocks r.distinct i q
              ∙ sealed-out (l.start + i + 1) (omega arith)
              ∙ logged-disk_in i q (omega arith)))
    | inr (h, f) ↦
        rw (intended, f)
          (replay-out l.start l.lh_n l.lh_block sealed.disk b (sealed-IsCommitted p).count
              (sealed-IsCommitted p).blocks h
            ∙ sealed-out b (omega arith)
            ∙ logged-disk_out b (omega arith))
  ]

-- The power may fail after any number of the disk writes of commit(). What the disk stands for
-- afterwards, the log applied, is at each block outside the log: the old content when no more writes
-- than the blocks of the transaction were made, and else the content with the whole transaction done,
-- the write of the header being the one that counts. The log was empty, and the blocks of the
-- transaction distinct and outside the log.
pub commit-crash :
    (l : Log) (s : Store) (b : ℕ)
    → IsReady l s
    → Outside l.start l.lh_n b
    → replay l.start (commit l s).1.disk b
      ≡ (if ltb l.lh_n s.power then intended l s b else s.disk b)
unfolding commit
commit-crash l s b r o = elim (dec_lt 0 l.lh_n) [
  | yes z ↦
      (let e : (l.lh_n == 0) ≡ false = ground arith in rw e (busy_log (dec_lt l.lh_n s.power)))
  | no z ↦ (let e : (l.lh_n == 0) ≡ true = ground arith in rw e (empty_log (omega arith)))
]
  where
    busy_log :
        Dec (l.lh_n < s.power)
        → replay l.start (commit_writes l s).disk b
          ≡ (if ltb l.lh_n s.power then intended l s b else s.disk b)
    busy_log (yes p) = rw (lt→ltb l.lh_n s.power p) (
        finish-replay l (sealed l s r) (sealed-IsCommitted l s r p) b o ∙ sealed-replay l s r b p o)
    busy_log (no p) =
        rw (le→ltb s.power l.lh_n (omega arith)) (early-replay l s r b (omega arith) o)

    empty_log :
        l.lh_n ≡ 0
        → replay l.start s.disk b ≡ (if ltb l.lh_n s.power then intended l s b else s.disk b)
    empty_log z =
        replay-out l.start 0 l.lh_block s.disk b r.empty (λ i h. absurd (omega arith))
          (λ i h. absurd (omega arith))
        ∙ (let e = intended-empty l s b z in ground arith)
