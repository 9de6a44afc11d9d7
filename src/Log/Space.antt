-- ===== src/Log/Space.antt =====
-- log_write() of log.c: when it absorbs a block, and how many blocks fit.
use shared_memory.Prelude.{
  ℕ, zero, suc, ◌+◌, ◌-◌, min, ◌≤◌, ◌<◌, ◌≡◌, ◌⊎◌, inl, inr, refl, ◌∙◌, ap, Bool, true, false, some,
  arith, List, [], ◌∷◌, length, get_elem?, has, Distinct, ltb, leb, ◌||◌, write, pos, Outcome, ok,
  panic, ◌>>=◌, le→ltb,
}
use native.Mathlib.Decide.{dec_lt}
use shared_memory.Log.{Store, Log, log_size, log_write, put_block, stop_index}
use shared_memory.Log.Loops.{DistinctBlocks}
use shared_memory.Log.Replay.{index_of, index_of-cases}

-- The guard of log_write() on the space
abbrev pub no_room : Log → Bool
no_room l = leb log_size l.lh_n || ltb l.size (l.lh_n + 2)

abbrev pub set_dirty : ℕ → Store → Store
set_dirty b s = record s { dirty = write s.dirty b true }

-- The index at which a block is put
abbrev pub log_slot : ℕ → Log → ℕ
log_slot b l = stop_index l.lh_n (index_of l.lh_n l.lh_block b)

pub log_write-ok :
    (b : ℕ) (l : Log) (s : Store) (o : ℕ)
    → no_room l ≡ false
    → l.outstanding ≡ pos (suc o)
    → l.lock ≡ false
    → log_write b l s ≡ ok (put_block (log_slot b l) b l, set_dirty b s)
unfolding log_write index_of
log_write-ok b l s o f e k = rw (f, e, k, le→ltb 1 (suc o) (omega arith)) refl

-- A full log is a panic, also for a block that is in it.
pub log_write-full : (b : ℕ) (l : Log) (s : Store) → no_room l ≡ true → log_write b l s ≡ panic
unfolding log_write
log_write-full b l s f = rw f refl

-- The block is in the log, or it is put behind the others.
pub log_slot-cases :
    (b : ℕ) (l : Log)
    → ((log_slot b l < l.lh_n) × (l.lh_block (log_slot b l) ≡ b))
      ⊎ ((log_slot b l ≡ l.lh_n) × ((i : ℕ) → i < l.lh_n → ¬ (l.lh_block i ≡ b)))
log_slot-cases b l = elim (index_of-cases l.lh_n l.lh_block b) [
  | inl (i, p, q, e) ↦ inl (rw e p, rw e q)
  | inr (h, e) ↦ inr (rw e refl, h)
]

-- A block that is in the log takes no room, and each other one takes one.
pub put_block-count :
    (b : ℕ) (l : Log)
    → ((put_block (log_slot b l) b l).lh_n ≡ l.lh_n)
      ⊎ ((put_block (log_slot b l) b l).lh_n ≡ l.lh_n + 1)
put_block-count b l = elim (log_slot-cases b l) [
  | inl (p, q) ↦ inl (ground arith)
  | inr (p, q) ↦ inr (ground arith)
]

-- The blocks of the log stay distinct.
pub put_block-DistinctBlocks :
    (b : ℕ) (l : Log)
    → DistinctBlocks l.lh_n l.lh_block
    → DistinctBlocks (put_block (log_slot b l) b l).lh_n (put_block (log_slot b l) b l).lh_block
put_block-DistinctBlocks b l dis = elim (log_slot-cases b l) [
  | inl (p, q) ↦ λ i j h g e. dis i j h (ground arith) (ground arith)
  | inr (p, q) ↦ λ i j h g e. elim (dec_lt j l.lh_n) [
    | yes r ↦ dis i j h r (ground arith)
    | no r ↦ q i (ground arith) (ground arith)
  ]
]

-- log_write() of one buffer after the other
unfoldable pub log_writes : List ℕ → Log → Store → Outcome (Log × Store)
log_writes [] l s = ok (l, s)
log_writes (b ∷ bs) l s = do (l, s) ← log_write b l s; log_writes bs l s

-- The most blocks that a log takes
abbrev pub capacity : Log → ℕ
capacity l = min log_size (l.size - 1)

-- None of the blocks is in the log.
abbrev pub Fresh : List ℕ → Log → Type 0
Fresh bs l = (i : ℕ) → i < l.lh_n → has (l.lh_block i) bs ≡ false

put_block-Fresh :
    (b : ℕ) (bs : List ℕ) (l : Log)
    → Fresh (b ∷ bs) l
    → has b bs ≡ false
    → (log_slot b l ≡ l.lh_n) × Fresh bs (put_block (log_slot b l) b l)
put_block-Fresh b bs l f h = elim (log_slot-cases b l) [
  | inl (p, q) ↦ (let g = f (log_slot b l) p in absurd (ground arith))
  | inr (p, q) ↦ (
    p,
    λ i g. elim (dec_lt i l.lh_n) [
      | yes r ↦ (let z = f i r in ground arith)
      | no r ↦ (let e : i ≡ l.lh_n = ground arith in ground arith)
    ],
  )
]

no_room-capacity : (l : Log) → ¬ (l.lh_n < capacity l) → no_room l ≡ true
no_room-capacity l h = ground arith

not_full-capacity : (l : Log) → l.lh_n < capacity l → no_room l ≡ false
not_full-capacity l h = ground arith

-- The log after the blocks: those that were in it, and these in their order.
pub record Logged (bs : List ℕ) (l l' : Log) : Type 0 where
  pub count : l'.lh_n ≡ l.lh_n + length bs
  pub old : (i : ℕ) → i < l.lh_n → l'.lh_block i ≡ l.lh_block i
  pub new : (i : ℕ) → i < length bs → get_elem? bs i ≡ some (l'.lh_block (l.lh_n + i))

Logged-step :
    (b : ℕ) (bs : List ℕ) (l l' : Log)
    → log_slot b l ≡ l.lh_n
    → Logged bs (put_block (log_slot b l) b l) l'
    → Logged (b ∷ bs) l l'
Logged-step b bs l l' e g = record {
  count = (let c = g.count in ground arith);
  old = λ i p.
      (let q : i < (put_block (log_slot b l) b l).lh_n = ground arith in g.old i q ∙ ground arith);
  new = first;
}
  where
    first : (i : ℕ) → i < suc (length bs) → get_elem? (b ∷ bs) i ≡ some (l'.lh_block (l.lh_n + i))
    first zero p = (let o = g.old l.lh_n (ground arith) in ground arith)
    first (suc i) p =
        g.new i (omega arith)
        ∙ ap some (
            ap l'.lh_block (
              let c : (put_block (log_slot b l) b l).lh_n ≡ l.lh_n + 1 = ground arith in
              omega arith))

-- A transaction, of one system call or of several, writes distinct blocks that the log does not have:
-- it panics exactly when the log does not take them all, and it takes LOGSIZE blocks or one less than
-- its size on the disk. Else the log lists them in their order.
pub log_writes_lem :
    (bs : List ℕ) (l : Log) (s : Store) (o : ℕ)
    → Distinct bs
    → Fresh bs l
    → l.outstanding ≡ pos (suc o)
    → l.lock ≡ false
    → l.lh_n ≤ capacity l
    → ((capacity l < l.lh_n + length bs) × (log_writes bs l s ≡ panic))
      ⊎ ((l.lh_n + length bs ≤ capacity l)
          × ((l' : Log) × (s' : Store) × (log_writes bs l s ≡ ok (l', s')) × Logged bs l l'))
unfolding log_writes
log_writes_lem [] l s o d f e k c = inr (
  omega arith,
  (
    l,
    s,
    refl,
    record { count = omega arith; old = λ i p. refl; new = λ i p. absurd (omega arith) },
  ),
)
log_writes_lem (b ∷ bs) l s o d f e k c = elim (dec_lt l.lh_n (capacity l)) [
  | no p ↦ inl (omega arith, rw (log_write-full b l s (no_room-capacity l p)) refl)
  | yes p ↦
      (let (q, f') = put_block-Fresh b bs l f d.0 in
        let l1 = put_block (log_slot b l) b l in
        let c' : l1.lh_n ≤ capacity l1 = ground arith in
        rw (log_write-ok b l s o (not_full-capacity l p) e k)
          (elim (log_writes_lem bs l1 (set_dirty b s) o d.1 f' e k c') [
            | inl (r, run) ↦ inl ((ground arith), run)
            | inr (r, (l', s', run, g)) ↦
                inr ((ground arith), (l', s', run, Logged-step b bs l l' q g))
          ]))
]
