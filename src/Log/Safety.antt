-- ===== src/Log/Safety.antt =====
-- The log of log.c under any interleaving of system calls: the reservations of begin_op() suffice.
use shared_memory.Prelude.{
  ℕ, suc, ◌+◌, ◌≤◌, ◌<◌, ◌≡◌, ◌∙◌, ap, refl, true, false, List, [], ◌∷◌, ◌++◌, length, pos, ok,
  panic, ◌⊎◌, inl, inr, Bool-cases, arith,
}
use shared_memory.Proc.Switch.{Cpu}
use shared_memory.Log.{Store, Log, log_size, is_short, put_block, log_write, begin_op, begin_round}
use shared_memory.Log.Space.{log_slot, no_room, log_write-ok, log_write-full, set_dirty}
use shared_memory.Log.Steps.{
  idle, System, Step, Reach, sum, Reserved, begins, waits, begins_again, waits_again, modifies,
  writes, writes_again, ends, commits, finishes, here, next,
}
use shared_memory.Log.Keeps.{
  sum-append, begun, slept, wrote, rewrote, ended, did_commit, finished, active-count,
}
use shared_memory.Log.Reserve.{begin_op-Round, begin_op_again-Round, end_commit-log}

-- Each step of the interleaving keeps the invariant.
pub Step-Reserved : (a : ℕ) {x y : System} → Step a x y → Reserved x → Reserved y
Step-Reserved a (begins x me c l t run) v =
    begun x l t (begin_op-Round a me c true x.log x.procs l t v.free run) v
Step-Reserved a (waits x me c l t run) v =
    slept x l t (begin_op-Round a me c false x.log x.procs l t v.free run) v
Step-Reserved a (begins_again x me c l t run) v =
    begun x l t (begin_op_again-Round a me c true x.log x.procs l t v.free run) v
Step-Reserved a (waits_again x me c l t run) v =
    slept x l t (begin_op_again-Round a me c false x.log x.procs l t v.free run) v
Step-Reserved a (modifies x xs ys r b content e) v = record {
  free = v.free;
  count = v.count;
  each = v.each;
  space = v.space;
  fits = v.fits;
  distinct = v.distinct;
}
Step-Reserved a (writes x xs ys r b l s e run) v = wrote x xs ys r b l s e run v
Step-Reserved a (writes_again x xs ys r b l s e old run) v = rewrote x xs ys r b l s e old run v
Step-Reserved a (ends x xs ys r flag l t e run) v = ended a x xs ys r flag l t e run v
Step-Reserved a (commits x e) v = did_commit x e v
Step-Reserved a (finishes x l t e run) v =
    finished x l t e (end_commit-log a x.log x.procs l t v.free run) v

-- In every state that system calls reach from one in which none runs and the log is empty, the lock of
-- the log is free, `outstanding` counts the calls in a transaction, the blocks of the log are distinct,
-- and the blocks in it with those that the calls may still write, ten from each begin_op() on, are at
-- most LOGSIZE. While a commit is under way no call is in a transaction.
pub Reach-Reserved : (a : ℕ) {x y : System} → Reserved x → Reach a x y → Reserved y
Reach-Reserved a v here = v
Reach-Reserved a v (next r st) = Step-Reserved a st (Reach-Reserved a v r)

-- In every such state with a log of at least LOGSIZE blocks on the disk, which mkfs makes, log_write()
-- for a system call that has written fewer than its ten blocks does not panic; or the log on the disk has
-- just LOGSIZE blocks, LOGSIZE - 1 blocks are in the log, this call may write one block more and no other
-- call any: then it panics, since the header takes a block too.
pub log_write-safe :
    (a : ℕ) {x y : System} (xs ys : List ℕ) (r b : ℕ)
    → Reserved x
    → Reach a x y
    → y.left ≡ xs ++ (suc r ∷ ys)
    → log_size ≤ y.log.size
    → ((l : Log) × (s : Store) × (log_write b y.log y.store ≡ ok (l, s)))
      ⊎ ((y.log.size ≡ log_size)
          × (y.log.lh_n + 1 ≡ log_size)
          × (sum xs + sum ys + r ≡ 0)
          × (log_write b y.log y.store ≡ panic))
log_write-safe a {y = y} xs ys r b v reach e big =
    let w = Reach-Reserved a v reach in
    let c = active-count y xs ys (suc r) e w in
    let space : y.log.lh_n + sum (xs ++ (suc r ∷ ys)) ≤ log_size = (rw e at w.space) in
    let s1 = sum-append xs (suc r ∷ ys) in
    let n : y.log.lh_n < log_size = omega arith in
    elim (Bool-cases (no_room y.log)) [
      | inr room ↦ inl (
        put_block (log_slot b y.log) b y.log,
        set_dirty b y.store,
        log_write-ok b y.log y.store (length (xs ++ ys)) room c w.free,
      )
      | inl full ↦
          let last : y.log.size < y.log.lh_n + 2 = ground arith in
          inr (omega arith, omega arith, omega arith, log_write-full b y.log y.store full)
    ]

-- In every such state with no system call in a transaction and no commit under way, begin_op() does not
-- sleep.
pub begin_op-free :
    (a me : ℕ) (c : Cpu) {x y : System}
    → Reserved x
    → Reach a x y
    → y.left ≡ []
    → y.phase ≡ idle
    → begin_op a me c y.log y.procs ≡ ok (true, record (y.log) { outstanding = pos 1 }, y.procs)
unfolding begin_op begin_round is_short
begin_op-free a me c {y = y} v reach e p =
    let w = Reach-Reserved a v reach in
    let f = (rw (p, e) at w.fits) in
    let n = f.1 refl in
    let o = w.count ∙ ap (λ ls. pos (length ls)) e in rw (w.free, f.0, n, o) refl
