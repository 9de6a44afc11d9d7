-- ===== src/Proc/Create.antt =====
-- allocproc(): each of its outcomes.
use shared_memory.Prelude.{
  ℕ, ◌+◌, ◌<◌, ◌≡◌, ◌≢◌, ◌⊎◌, ◌↔◌, inl, inr, refl, Bool, false, Option, none, some, [], arith,
  lt→ltb, pos, ok,
}
use shared_memory.Kalloc.{Kmem, kalloc}
use shared_memory.Kalloc.Invariant.{IsValid, IsPage, Taken, kalloc_total}
use shared_memory.Proc.{
  nproc, unused, embryo, is_unused, ProcTable, scan, claim_slot, give_stack, int_limit, allocproc,
}
use shared_memory.Proc.Scan.{FirstFrom, scan-FirstFrom}

abbrev pub unused_slot : ProcTable → ℕ → Bool
unused_slot t i = is_unused (t.procs i).state

-- What a successful allocproc() leaves in the table: the slot is the process to be, with the next
-- pid and the page `p` as its stack, and the other slots are as before.
pub record NewProc (t : ProcTable) (i p : ℕ) (t' : ProcTable) : Type 0 where
  pub embryo_state : (t'.procs i).state ≡ embryo
  pub fresh_pid : (t'.procs i).pid ≡ pos t.next_pid
  pub stack : (t'.procs i).kstack ≡ some p
  pub parent_kept : (t'.procs i).parent ≡ (t.procs i).parent
  pub killed_kept : (t'.procs i).killed ≡ (t.procs i).killed
  pub others : (j : ℕ) → j ≢ i → t'.procs j ≡ t.procs j
  pub next : t'.next_pid ≡ t.next_pid + 1
  pub unlocked : t'.lock ≡ false

-- allocproc() that finds no page: the slot is unused again, and the pid is spent.
pub record GivenUp (t : ProcTable) (i : ℕ) (t' : ProcTable) : Type 0 where
  pub unused_state : (t'.procs i).state ≡ unused
  pub others : (j : ℕ) → j ≢ i → t'.procs j ≡ t.procs j
  pub next : t'.next_pid ≡ t.next_pid + 1
  pub unlocked : t'.lock ≡ false

-- The two outcomes once a slot is chosen.
abbrev pub Claimed : ℕ → ℕ → ProcTable → Kmem → ℕ → Type 0
Claimed forkret trapret t m i =
    ((m.free ≡ [])
      × (t' : ProcTable) × (m' : Kmem) × (allocproc forkret trapret t m ≡ ok (none, t', m'))
      × GivenUp t i t')
    ⊎ ((p : ℕ) × (t' : ProcTable) × (m' : Kmem) × (allocproc forkret trapret t m
          ≡ ok (some i, t', m'))
        × IsPage m.end_addr p
        × NewProc t i p t')

-- The result of allocproc() for the slot that the scan has found.
abbrev pub AfterScan : ℕ → ℕ → ProcTable → Kmem → Option ℕ → Type 0
AfterScan forkret trapret t m none =
    allocproc forkret trapret t m ≡ ok (none, record t { lock = false }, m)
AfterScan forkret trapret t m (some i) = Claimed forkret trapret t m i

module _ (forkret trapret : ℕ) (t : ProcTable) (m : Kmem) (free : t.lock ≡ false)
    (valid : IsValid m) (more : t.next_pid + 1 < int_limit) where
  claimed : (i : ℕ) → scan (unused_slot t) nproc 0 ≡ some i → Claimed forkret trapret t m i
  unfolding allocproc
  claimed i e =
      let (r, m', run, valid', taken, empty) = kalloc_total m valid in go r m' run taken empty
    where
      go :
          (r : Option ℕ) (m' : Kmem)
          → kalloc m ≡ ok (r, m')
          → Taken m r m'
          → ((r ≡ none) ↔ (m.free ≡ []))
          → Claimed forkret trapret t m i
      go none m' run taken empty = inl (
        empty.0 refl,
        (give_stack forkret trapret i (none, m') (record (claim_slot i t) { lock = false })).1,
        m',
        rw (free, e, lt→ltb _ _ more, run) refl,
        record {
          unused_state = ground arith;
          others = λ j ne. ground arith;
          next = refl;
          unlocked = refl;
        },
      )
      go (some p) m' run taken empty = inr (
        p,
        (give_stack forkret trapret i (some p, m') (record (claim_slot i t) { lock = false })).1,
        (give_stack forkret trapret i (some p, m') (record (claim_slot i t) { lock = false })).2,
        rw (free, e, lt→ltb _ _ more, run) refl,
        taken.0,
        record {
          embryo_state = ground arith;
          fresh_pid = ground arith;
          stack = ground arith;
          parent_kept = ground arith;
          killed_kept = ground arith;
          others = λ j ne. ground arith;
          next = refl;
          unlocked = refl;
        },
      )

  after_scan : (r : Option ℕ) → scan (unused_slot t) nproc 0 ≡ r → AfterScan forkret trapret t m r
  unfolding allocproc
  after_scan none e = rw (free, e) refl
  after_scan (some i) e = claimed i e

  -- allocproc() with the table unlocked, a well-formed allocator and pids left: with no UNUSED slot
  -- it returns the null pointer and changes nothing. Else it takes the first UNUSED slot. If no page
  -- is free the slot ends UNUSED and the null pointer is returned; otherwise the slot is an EMBRYO
  -- with the next pid and an allocatable page for its stack. No other slot changes. A slot that was
  -- marked as killed stays so.
  pub allocproc_lem :
      (r : Option ℕ) × FirstFrom (unused_slot t) 0 nproc r × AfterScan forkret trapret t m r
  allocproc_lem = (
    scan (unused_slot t) nproc 0,
    scan-FirstFrom (unused_slot t) nproc 0 nproc refl,
    after_scan (scan (unused_slot t) nproc 0) refl,
  )
