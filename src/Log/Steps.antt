-- ===== src/Log/Steps.antt =====
-- The file system calls of several processes on one log: begin_op(), log_write(), end_op() and its
-- commit() as the steps of an interleaving.
use shared_memory.Prelude.{
  ℕ, suc, ◌+◌, ◌≤◌, ◌<◌, ◌≡◌, Bool, true, false, List, [], ◌∷◌, ◌++◌, length, All, pos, ok,
}
use shared_memory.Proc.{ProcTable}
use shared_memory.Proc.Switch.{Cpu}
use shared_memory.Log.{
  Block, Store, Log, store_buf, max_op_blocks, log_size, begin_op, begin_op_again, log_write,
  end_count, commit, end_commit,
}
use shared_memory.Log.Loops.{DistinctBlocks}
use shared_memory.Log.Space.{log_slot}

-- Where the end_op() is that commits, if one is: before commit(), or after it.
pub data Phase : Type 0 where
  idle to_commit committed : Phase

-- `left` has an entry for each system call between begin_op() and end_op(): how many more blocks it
-- may write.
pub record System : Type 0 where
  pub log : Log
  pub store : Store
  pub procs : ProcTable
  pub left : List ℕ
  pub phase : Phase

abbrev pub phase_after : Bool → Phase → Phase
phase_after true p = to_commit
phase_after false p = p

-- The log is at the address `a`.
pub data Step (a : ℕ) : System → System → Type 0 where
  begins :
      (x : System) (me : ℕ) (c : Cpu) (l : Log) (t : ProcTable)
      → begin_op a me c x.log x.procs ≡ ok (true, l, t)
      → Step a x (record x { log = l; procs = t; left = max_op_blocks ∷ x.left })
  waits :
      (x : System) (me : ℕ) (c : Cpu) (l : Log) (t : ProcTable)
      → begin_op a me c x.log x.procs ≡ ok (false, l, t)
      → Step a x (record x { log = l; procs = t })
  begins_again :
      (x : System) (me : ℕ) (c : Cpu) (l : Log) (t : ProcTable)
      → begin_op_again a me c x.log x.procs ≡ ok (true, l, t)
      → Step a x (record x { log = l; procs = t; left = max_op_blocks ∷ x.left })
  waits_again :
      (x : System) (me : ℕ) (c : Cpu) (l : Log) (t : ProcTable)
      → begin_op_again a me c x.log x.procs ≡ ok (false, l, t)
      → Step a x (record x { log = l; procs = t })
  -- A system call writes to a buffer.
  modifies :
      (x : System) (xs ys : List ℕ) (r b : ℕ) (content : Block)
      → x.left ≡ xs ++ (r ∷ ys)
      → Step a x (record x { store = store_buf b content x.store })
  -- log_write() of a block that is not in the log
  writes :
      (x : System) (xs ys : List ℕ) (r b : ℕ) (l : Log) (s : Store)
      → x.left ≡ xs ++ (suc r ∷ ys)
      → log_write b x.log x.store ≡ ok (l, s)
      → Step a x (record x { log = l; store = s; left = xs ++ (r ∷ ys) })
  -- log_write() of one that is
  writes_again :
      (x : System) (xs ys : List ℕ) (r b : ℕ) (l : Log) (s : Store)
      → x.left ≡ xs ++ (r ∷ ys)
      → log_slot b x.log < x.log.lh_n
      → log_write b x.log x.store ≡ ok (l, s)
      → Step a x (record x { log = l; store = s })
  ends :
      (x : System) (xs ys : List ℕ) (r : ℕ) (do_commit : Bool) (l : Log) (t : ProcTable)
      → x.left ≡ xs ++ (r ∷ ys)
      → end_count a x.log x.procs ≡ ok (do_commit, l, t)
      → Step a x
          (record x { log = l; procs = t; left = xs ++ ys; phase = phase_after do_commit x.phase })
  commits :
      (x : System)
      → x.phase ≡ to_commit
      → Step a x (record x {
        log = (commit x.log x.store).0;
        store = (commit x.log x.store).1;
        phase = committed;
      })
  finishes :
      (x : System) (l : Log) (t : ProcTable)
      → x.phase ≡ committed
      → end_commit a x.log x.procs ≡ ok (l, t)
      → Step a x (record x { log = l; procs = t; phase = idle })

pub data Reach (a : ℕ) (x : System) : System → Type 0 where
  here : Reach a x x
  next : {y z : System} → Reach a x y → Step a y z → Reach a x z

abbrev pub sum : List ℕ → ℕ
sum [] = 0
sum (n ∷ ns) = n + sum ns

-- The flag `committing` and the system calls in each phase
abbrev pub Fits : Phase → Log → List ℕ → Type 0
Fits idle l left = (l.committing ≡ false) × (left ≡ [] → l.lh_n ≡ 0)
Fits to_commit l left = (l.committing ≡ true) × (left ≡ [])
Fits committed l left = (l.committing ≡ true) × (left ≡ []) × (l.lh_n ≡ 0)

-- The invariant: the blocks that the system calls may still write fit in the log.
pub record Reserved (x : System) : Type 0 where
  pub free : x.log.lock ≡ false
  pub count : x.log.outstanding ≡ pos (length x.left)
  pub each : All (λ r. r ≤ max_op_blocks) x.left
  pub space : x.log.lh_n + sum x.left ≤ log_size
  pub fits : Fits x.phase x.log x.left
  pub distinct : DistinctBlocks x.log.lh_n x.log.lh_block
