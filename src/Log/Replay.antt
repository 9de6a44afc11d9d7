-- ===== src/Log/Replay.antt =====
-- What a disk stands for to log.c: the blocks after the committed transaction in its log, if there is
-- one, has been applied. Installing a transaction changes none of them, wherever it is cut short.
use shared_memory.Prelude.{
  ℕ, ◌+◌, ◌≤◌, ◌<◌, ◌≡◌, ◌⊎◌, inl, inr, refl, sym, false, Option, none, some, arith, ◌==◌,
  if◌then◌else◌, ==-refl, ==-ne, ◌∙◌, ap,
}
use mathlib.Core.Path.{subst}
use native.Mathlib.Decide.{dec_lt}
use shared_memory.Proc.{scan}
use shared_memory.Proc.Scan.{FirstFrom, scan-FirstFrom}
use shared_memory.Log.{
  Block, Store, Log, header_n, header_block, header, write_buf, copy_ints, install_trans,
  install_loop, write_head, clear_log,
}
use shared_memory.Log.Loops.{
  Outside, DistinctBlocks, install_loop-power, install_loop-disk_out, install_loop-disk_in,
}

-- The index of a block in a list of `n` blocks
unfoldable pub index_of : ℕ → (ℕ → ℕ) → ℕ → Option ℕ
index_of n block b = scan (λ i. block i == b) n 0

-- The content of the block `b` once the log of `n` blocks at `start` is applied.
unfoldable pub applied : ℕ → (ℕ → ℕ) → ℕ → (ℕ → Block) → ℕ → Block
applied n block start d b = elim (index_of n block b) [ none ↦ d b | some i ↦ d (start + i + 1) ]

abbrev pub replay : ℕ → (ℕ → Block) → ℕ → Block
replay start d b = applied (header_n (d start)) (header_block (d start)) start d b

-- Either the block is one of the list, or it is none.
pub index_of-cases :
    (n : ℕ) (block : ℕ → ℕ) (b : ℕ)
    → ((i : ℕ) × (i < n) × (block i ≡ b) × (index_of n block b ≡ some i))
      ⊎ (((i : ℕ) → i < n → ¬ (block i ≡ b)) × (index_of n block b ≡ none))
unfolding index_of
index_of-cases n block b =
    from (index_of n block b) refl (scan-FirstFrom (λ i. block i == b) n 0 n (omega arith))
  where
    from :
        (r : Option ℕ)
        → index_of n block b ≡ r
        → FirstFrom (λ i. block i == b) 0 n r
        → ((i : ℕ) × (i < n) × (block i ≡ b) × (index_of n block b ≡ some i))
          ⊎ (((i : ℕ) → i < n → ¬ (block i ≡ b)) × (index_of n block b ≡ none))
    from none e f = inr ((λ i p q. (let g = f i (omega arith) p in ground arith)), e)
    from (some i) e f = inl (i, f.1, (let g = f.2 in ground arith), e)

pub applied-out :
    (n : ℕ) (block : ℕ → ℕ) (start : ℕ) (d : ℕ → Block) (b : ℕ)
    → ((i : ℕ) → i < n → ¬ (block i ≡ b))
    → applied n block start d b ≡ d b
unfolding applied
applied-out n block start d b h = elim (index_of-cases n block b) [
  | inl (i, p, q, e) ↦ absurd (h i p q)
  | inr (g, e) ↦ rw (applied, e) refl
]

pub applied-in :
    (n : ℕ) (block : ℕ → ℕ) (start : ℕ) (d : ℕ → Block)
    → DistinctBlocks n block
    → (i : ℕ) → i < n
    → applied n block start d (block i) ≡ d (start + i + 1)
unfolding applied
applied-in n block start d dis i p = elim (index_of-cases n block (block i)) [
  | inl (j, q, eq, e) ↦ rw (applied, e) (same j q eq)
  | inr (g, e) ↦ absurd (g i p refl)
]
  where
    same : (j : ℕ) → j < n → block j ≡ block i → d (start + j + 1) ≡ d (start + i + 1)
    same j q eq = elim (dec_lt i j) [
      | yes r ↦ absurd (dis i j r q (sym eq))
      | no r ↦ elim (dec_lt j i) [
        | yes r' ↦ absurd (dis j i r' p eq)
        | no r' ↦ (let e : j ≡ i = omega arith in rw e refl)
      ]
    ]

-- install_trans() and the write that clears the log
abbrev pub finish : Log → Store → Store
finish l s = write_head (clear_log l) (install_trans l s)

-- The log in memory is the one on the disk, its buffers hold what its blocks on the disk do, and its
-- blocks are distinct and outside the log.
pub record IsCommitted (l : Log) (s : Store) : Type 0 where
  pub count : header_n (s.disk l.start) ≡ l.lh_n
  pub blocks : (i : ℕ) → i < l.lh_n → header_block (s.disk l.start) i ≡ l.lh_block i
  pub bufs : (i : ℕ) → i < l.lh_n → s.buf (l.start + i + 1) ≡ s.disk (l.start + i + 1)
  pub distinct : DistinctBlocks l.lh_n l.lh_block
  pub outside : (i : ℕ) → i < l.lh_n → Outside l.start l.lh_n (l.lh_block i)

-- What `write_head` of an empty log does to the disk.
pub write_head-clear_disk :
    (l : Log) (s : Store) (b : ℕ)
    → (write_head (clear_log l) s).disk b ≡ (
        if s.power == 0
        then s.disk b
        else if b == l.start
        then header 0 (header_block (s.buf l.start))
        else s.disk b)
unfolding write_head write_buf copy_ints
write_head-clear_disk l s b = elim (dec_lt 0 s.power) [
  | yes p ↦ rw (==-refl l.start) (ground arith)
  | no p ↦ ground arith
]

pub replay-in :
    (start n : ℕ) (block : ℕ → ℕ) (d : ℕ → Block)
    → header_n (d start) ≡ n
    → ((i : ℕ) → i < n → header_block (d start) i ≡ block i)
    → DistinctBlocks n block
    → (i : ℕ) → i < n
    → replay start d (block i) ≡ d (start + i + 1)
replay-in start n block d count same dis i p = rw (sym (same i p)) (
    applied-in (header_n (d start)) (header_block (d start)) start d
      (λ j k h g.
        let e1 = same j (omega arith) in
        let e2 = same k (omega arith) in
        let ne = dis j k h (omega arith) in λ e. ne (sym e1 ∙ e ∙ e2))
      i (omega arith))

pub replay-out :
    (start n : ℕ) (block : ℕ → ℕ) (d : ℕ → Block) (b : ℕ)
    → header_n (d start) ≡ n
    → ((i : ℕ) → i < n → header_block (d start) i ≡ block i)
    → ((i : ℕ) → i < n → ¬ (block i ≡ b))
    → replay start d b ≡ d b
replay-out start n block d b count same h =
    applied-out (header_n (d start)) (header_block (d start)) start d b
      (λ i p e. h i (omega arith) (sym (same i (omega arith)) ∙ e))

finish-short :
    (l : Log) (s : Store) (b : ℕ)
    → s.power ≤ l.lh_n
    → (finish l s).disk b ≡ (install_loop l.lh_n 0 l s).disk b
unfolding install_trans
finish-short l s b h =
    let s3 = install_loop l.lh_n 0 l s in
    let p = install_loop-power l.lh_n 0 l s in
    let z : s3.power ≡ 0 = omega arith in rw (write_head-clear_disk l s3 b, z) refl

pub finish-dead : (l : Log) (s : Store) (b : ℕ) → s.power ≡ 0 → (finish l s).disk b ≡ s.disk b
finish-dead l s b z =
    finish-short l s b (omega arith)
    ∙ install_loop-disk_out l.lh_n 0 l s b (λ i p q. absurd (omega arith))

pub finish-whole :
    (l : Log) (s : Store) (b : ℕ)
    → l.lh_n < s.power
    → (finish l s).disk b ≡ (
        if b == l.start
        then header 0 (header_block ((install_trans l s).buf l.start))
        else (install_loop l.lh_n 0 l s).disk b)
unfolding install_trans
finish-whole l s b h =
    let s3 = install_loop l.lh_n 0 l s in
    let p = install_loop-power l.lh_n 0 l s in
    let z : (s3.power == 0) ≡ false = ground arith in rw (write_head-clear_disk l s3 b, z) refl

pub finish-header :
    (l : Log) (s : Store) → l.lh_n < s.power → header_n ((finish l s).disk l.start) ≡ 0
finish-header l s h = rw (finish-whole l s l.start h, ==-refl l.start) refl

module _ (l : Log) (s : Store) (c : IsCommitted l s) where
  committed-in :
      (i : ℕ) → i < l.lh_n → replay l.start s.disk (l.lh_block i) ≡ s.disk (l.start + i + 1)
  committed-in = replay-in l.start l.lh_n l.lh_block s.disk c.count c.blocks c.distinct

  committed-out :
      (b : ℕ) → ((i : ℕ) → i < l.lh_n → ¬ (l.lh_block i ≡ b)) → replay l.start s.disk b ≡ s.disk b
  committed-out b = replay-out l.start l.lh_n l.lh_block s.disk b c.count c.blocks

  -- Blocks of the log itself are none of the logged ones.
  not_logged :
      (x : ℕ) → l.start ≤ x → x ≤ l.start + l.lh_n → (i : ℕ) → i < l.lh_n → ¬ (l.lh_block i ≡ x)
  not_logged x p q i h e = let o = c.outside i h in omega arith

  -- The power lasts to the end: the log is empty, and the blocks are at home.
  cleared : (b : ℕ) → l.lh_n < s.power → replay l.start (finish l s).disk b ≡ (finish l s).disk b
  cleared b p =
      replay-out l.start 0 l.lh_block (finish l s).disk b (finish-header l s p)
        (λ i h. absurd (omega arith)) (λ i h. absurd (omega arith))

  whole-home :
      (b : ℕ)
      → l.lh_n < s.power
      → Outside l.start l.lh_n b
      → (finish l s).disk b ≡ (install_loop l.lh_n 0 l s).disk b
  whole-home b p o = rw (finish-whole l s b p, ==-ne b l.start (omega arith)) refl

  whole-in :
      (i : ℕ)
      → l.lh_n < s.power
      → i < l.lh_n
      → (finish l s).disk (l.lh_block i) ≡ s.disk (l.start + i + 1)
  whole-in i p q =
      whole-home (l.lh_block i) p (c.outside i q)
      ∙ install_loop-disk_in l.lh_n 0 l s
          (λ j h. (let o = c.outside j (omega arith) in omega arith))
          (λ j k h g. c.distinct j k h (omega arith)) i (omega arith) (omega arith)
      ∙ c.bufs i q

  whole-out :
      (b : ℕ)
      → l.lh_n < s.power
      → Outside l.start l.lh_n b
      → ((i : ℕ) → i < l.lh_n → ¬ (l.lh_block i ≡ b))
      → (finish l s).disk b ≡ s.disk b
  whole-out b p o h =
      whole-home b p o ∙ install_loop-disk_out l.lh_n 0 l s b (λ i q r. h i (omega arith))

  -- The power fails before the log is cleared: the log is as it was.
  short-log :
      (x : ℕ)
      → s.power ≤ l.lh_n
      → l.start ≤ x
      → x ≤ l.start + l.lh_n
      → (finish l s).disk x ≡ s.disk x
  short-log x p q r =
      finish-short l s x p
      ∙ install_loop-disk_out l.lh_n 0 l s x (λ i g h. not_logged x q r i (omega arith))

  pub short-header : s.power ≤ l.lh_n → (finish l s).disk l.start ≡ s.disk l.start
  short-header p = short-log l.start p (omega arith) (omega arith)

  short-in :
      (i : ℕ)
      → s.power ≤ l.lh_n
      → i < l.lh_n
      → replay l.start (finish l s).disk (l.lh_block i) ≡ s.disk (l.start + i + 1)
  short-in i p q =
      replay-in l.start l.lh_n l.lh_block (finish l s).disk (ap header_n (short-header p) ∙ c.count)
        (λ j h. ap (λ x. header_block x j) (short-header p) ∙ c.blocks j h) c.distinct i q
      ∙ short-log (l.start + i + 1) p (omega arith) (omega arith)

  short-out :
      (b : ℕ)
      → s.power ≤ l.lh_n
      → ((i : ℕ) → i < l.lh_n → ¬ (l.lh_block i ≡ b))
      → replay l.start (finish l s).disk b ≡ s.disk b
  short-out b p h =
      replay-out l.start l.lh_n l.lh_block (finish l s).disk b
        (ap header_n (short-header p) ∙ c.count)
        (λ j h. ap (λ x. header_block x j) (short-header p) ∙ c.blocks j h) h
      ∙ finish-short l s b p
      ∙ install_loop-disk_out l.lh_n 0 l s b (λ i q r. h i (omega arith))

  -- Wherever the power fails, the disk stands for the same blocks.
  pub finish-replay :
      (b : ℕ)
      → Outside l.start l.lh_n b
      → replay l.start (finish l s).disk b ≡ replay l.start s.disk b
  finish-replay b o = elim (dec_lt l.lh_n s.power) [
    | yes p ↦ elim (index_of-cases l.lh_n l.lh_block b) [
      | inl (i, q, e, _) ↦
          subst (λ x. replay l.start (finish l s).disk x ≡ replay l.start s.disk x) e
            (cleared (l.lh_block i) p ∙ whole-in i p q ∙ sym (committed-in i q))
      | inr (h, _) ↦ cleared b p ∙ whole-out b p o h ∙ sym (committed-out b h)
    ]
    | no p ↦ elim (index_of-cases l.lh_n l.lh_block b) [
      | inl (i, q, e, _) ↦
          subst (λ x. replay l.start (finish l s).disk x ≡ replay l.start s.disk x) e
            (short-in i (omega arith) q ∙ sym (committed-in i q))
      | inr (h, _) ↦ short-out b (omega arith) h ∙ sym (committed-out b h)
    ]
  ]
