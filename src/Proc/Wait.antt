-- ===== src/Proc/Wait.antt =====
-- wait(): what one scan of the table comes to, and that it finds a child that has exited.
use shared_memory.Prelude.{
  ℕ, zero, suc, ◌+◌, ◌≤◌, ◌<◌, ◌≡◌, inl, inr, refl, ◌∙◌, Bool, true, false, ◌&&◌, ◌||◌, Option,
  none, some, arith, Bool-cases, Outcome, ok,
}
use native.Mathlib.Decide.{dec_lt}
use shared_memory.Kalloc.{Kmem}
use shared_memory.Proc.{nproc, is_zombie, ProcTable}
use shared_memory.Proc.Scan.{FirstFrom, FirstFrom-later}
use shared_memory.Proc.Switch.{
  is_child, Waited, no_children, must_sleep, reap, not_found, wait_loop, wait_round,
}

-- The slot holds a child of `i` that has exited.
abbrev pub zombie_child : ℕ → ProcTable → ℕ → Bool
zombie_child i t j = is_child i (t.procs j) && is_zombie (t.procs j).state

module _ (i : ℕ) (t : ProcTable) (m : Kmem) where
  -- The flag `havekids` after the slots from `j` to `end`.
  record Kids (j end : ℕ) (before after : Bool) : Type 0 where
    kept : before ≡ true → after ≡ true
    seen : (x : ℕ) → j ≤ x → x < end → is_child i (t.procs x) ≡ true → after ≡ true
    none_seen :
        before ≡ false
        → ((x : ℕ) → j ≤ x → x < end → is_child i (t.procs x) ≡ false)
        → after ≡ false

  abbrev AfterLoop : ℕ → ℕ → Bool → Outcome (Waited × ProcTable × Kmem) → Option ℕ → Type 0
  AfterLoop j end have_kids o none =
      (after : Bool) × (o ≡ not_found i after t m) × Kids j end have_kids after
  AfterLoop j end have_kids o (some z) = o ≡ reap z t m

  Kids-later :
      (j end : ℕ) (before after : Bool)
      → j < end
      → Kids (j + 1) end (before || is_child i (t.procs j)) after
      → Kids j end before after
  Kids-later j end before after b k = record {
    kept = λ h. k.kept (rw h refl);
    seen = λ x lo hi c. elim (dec_lt j x) [
      | yes p ↦ k.seen x (omega arith) hi c
      | no p ↦
          (let e : j ≡ x = omega arith in k.kept (or_true before (is_child i (t.procs j)) (rw e c)))
    ];
    none_seen = λ h all.
        k.none_seen (or_false before (is_child i (t.procs j)) h (all j (omega arith) b))
          (λ x lo hi. all x (omega arith) hi);
  }
    where
      or_true : (a b : Bool) → b ≡ true → (a || b) ≡ true
      or_true a b h = ground arith

      or_false : (a b : Bool) → a ≡ false → b ≡ false → (a || b) ≡ false
      or_false a b g h = ground arith

  wait_loop_lem :
      (n j end : ℕ) (have_kids : Bool)
      → j + n ≡ end
      → (r : Option ℕ) × FirstFrom (zombie_child i t) j end r
        × AfterLoop j end have_kids (wait_loop i n j have_kids t m) r
  unfolding wait_loop
  wait_loop_lem zero j end have_kids e = (
    none,
    λ x lo hi. absurd (omega arith),
    (
      have_kids,
      refl,
      record { kept = λ h. h; seen = λ x lo hi c. absurd (omega arith); none_seen = λ h all. h },
    ),
  )
  wait_loop_lem (suc n) j end have_kids e = elim (Bool-cases (zombie_child i t j)) [
    | inl found ↦
        (some j, (omega arith, omega arith, found, λ x lo hi. absurd (omega arith)), rw found refl)
    | inr next ↦
        later next (wait_loop_lem n (j + 1) end (have_kids || is_child i (t.procs j)) (omega arith))
  ]
    where
      later :
          zombie_child i t j ≡ false
          → (r : Option ℕ) × FirstFrom (zombie_child i t) (j + 1) end r
            × AfterLoop
                (j + 1)
                end
                (have_kids || is_child i (t.procs j))
                (wait_loop i n (j + 1) (have_kids || is_child i (t.procs j)) t m)
                r
          → (r : Option ℕ) × FirstFrom (zombie_child i t) j end r
            × AfterLoop j end have_kids (wait_loop i (suc n) j have_kids t m) r
      later next (none, first, (after, run, kids)) = (
        none,
        FirstFrom-later (zombie_child i t) j end none next first,
        (after, rw next run, Kids-later j end have_kids after (omega arith) kids),
      )
      later next (some z, first, run) =
          (some z, FirstFrom-later (zombie_child i t) j end (some z) next first, rw next run)

  -- The result of one scan of wait(), by the first child that has exited.
  abbrev pub WaitResult : Option ℕ → Type 0
  WaitResult (some z) = wait_round i t m ≡ reap z t m
  WaitResult none =
      (((x : ℕ) → x < nproc → is_child i (t.procs x) ≡ false)
        → wait_round i t m ≡ ok (no_children, record t { lock = false }, m))
      × ((x : ℕ)
          → x < nproc
          → is_child i (t.procs x) ≡ true
          → ((t.procs i).killed ≡ true
              → wait_round i t m ≡ ok (no_children, record t { lock = false }, m))
            × ((t.procs i).killed ≡ false → wait_round i t m ≡ ok (must_sleep, t, m)))

  not_found-run :
      (after : Bool) (o : Outcome (Waited × ProcTable × Kmem))
      → t.lock ≡ true
      → o ≡ not_found i after t m
      → (after ≡ false → o ≡ ok (no_children, record t { lock = false }, m))
        × (after ≡ true
            → ((t.procs i).killed ≡ true → o ≡ ok (no_children, record t { lock = false }, m))
              × ((t.procs i).killed ≡ false → o ≡ ok (must_sleep, t, m)))
  not_found-run after o held e =
      (λ a. e ∙ rw (a, held) refl, λ a. (λ k. e ∙ rw (a, k, held) refl, λ k. e ∙ rw (a, k) refl))

  -- One scan of wait() by the process in slot `i`, which holds the lock of the table: if a child has
  -- exited it frees the first such child. Else it returns -1 with the lock given back if there is no
  -- child at all, or if the process has been killed, and otherwise it has to sleep.
  pub wait_round_lem :
      t.lock ≡ true → (r : Option ℕ) × FirstFrom (zombie_child i t) 0 nproc r × WaitResult r
  unfolding wait_round
  wait_round_lem held = go (wait_loop_lem nproc 0 nproc false refl)
    where
      go :
          (r : Option ℕ) × FirstFrom (zombie_child i t) 0 nproc r
            × AfterLoop 0 nproc false (wait_loop i nproc 0 false t m) r
          → (r : Option ℕ) × FirstFrom (zombie_child i t) 0 nproc r × WaitResult r
      go (some z, first, run) = (some z, first, run)
      go (none, first, (after, run, kids)) =
          let (no_kid, kid) = not_found-run after (wait_loop i nproc 0 false t m) held run in
          (
            none,
            first,
            (
              λ all. no_kid (kids.none_seen refl (λ x lo hi. all x hi)),
              λ x h c. kid (kids.seen x (omega arith) h c),
            ),
          )
