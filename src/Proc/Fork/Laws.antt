-- ===== src/Proc/Fork/Laws.antt =====
-- The loop of fork() over the shared memory entries: what the child gets, and what is counted.
use shared_memory.Prelude.{
  ℕ, zero, suc, ◌+◌, ◌≤◌, ◌<◌, ◌≡◌, refl, ◌∙◌, Bool, true, false, arith, lt→ltb, not, ◌&&◌, ==-refl,
  if◌then◌else◌, write, ℤ, pos, negsuc, ◌<ℤ◌, Outcome, ok,
}
use native.Mathlib.Decide.{dec_lt}
use shared_memory.Shm.Table.{ShmTable, AttachedShmseg, Rtcdate, forked_slot}
use shared_memory.Proc.Fork.{skips, fork_loop, fork_shm}
use shared_memory.Proc.Fork.Count.{
  NamesSegment, times, covers, visits, Counted, times-one, visits-kept, count_one,
  NamesSegment-kept, Counted-trans,
}

-- The entries of the child after the rounds from `i` to `end`.
abbrev pub Copied :
    (ℕ → AttachedShmseg) → ℕ → ℕ → (ℕ → AttachedShmseg) → (ℕ → AttachedShmseg) → Type 0
Copied parent i end child child' =
    ((j : ℕ) → i ≤ j → j < end → child' j ≡ parent j) × ((j : ℕ) → j < i → child' j ≡ child j)

Copied-first :
    (parent child child' : ℕ → AttachedShmseg) (i end : ℕ)
    → i < end
    → Copied parent (i + 1) end (write child i (parent i)) child'
    → Copied parent i end child child'
Copied-first parent child child' i end h c = (
  λ j lo hi. elim (dec_lt i j) [
    | yes p ↦ c.0 j (omega arith) hi
    | no p ↦ (let e : j ≡ i = omega arith in rw e (c.1 i (omega arith) ∙ rw (==-refl i) refl))
  ],
  λ j lo. c.1 j (omega arith) ∙ ground arith,
)

abbrev pub Forked :
    ℕ
    → ℕ
    → ℕ
    → ℤ
    → ℤ
    → Rtcdate
    → (ℕ → AttachedShmseg)
    → (ℕ → AttachedShmseg)
    → ShmTable
    → Outcome ((ℕ → AttachedShmseg) × ShmTable)
    → Type 0
Forked n i end last pid now parent child t o =
    (child' : ℕ → AttachedShmseg) × (t' : ShmTable) × (o ≡ ok (child', t'))
    × Copied parent i end child child'
    × Counted parent i end t t'
    × ((x : ℕ)
        → t'.shm_segs x ≡ times (visits t parent n i last x) (forked_slot pid now) (t.shm_segs x))

fork_loop-Forked :
    (n i end : ℕ) (last pid : ℤ) (now : Rtcdate) (parent child : ℕ → AttachedShmseg) (t : ShmTable)
    → i + n ≡ end
    → t.lock ≡ false
    → ((j : ℕ) → i ≤ j → j < end → NamesSegment t (parent j).shmid)
    → Forked n i end last pid now parent child t (fork_loop n i last pid now parent child t)
unfolding fork_loop
fork_loop-Forked zero i end last pid now parent child t e u named = (
  child,
  t,
  refl,
  (λ j lo hi. absurd (omega arith), λ j lo. refl),
  record {
    unlocked = u;
    last = refl;
    sizes = λ x. refl;
    perms = λ x. refl;
    frames = λ x. refl;
    others = λ x h. refl;
  },
  λ x. refl,
)
fork_loop-Forked (suc n) i end last pid now parent child t e u named =
    let id = (parent i).shmid in
    let (t1, run, one, first) =
      count_one id last pid now parent i t refl u (named i (omega arith) (omega arith)) in
    let (child', t', rest, copied, counted, more) =
      fork_loop-Forked n (i + 1) end (if skips id last then last else id) pid now parent
        (write child i (parent i)) t1 (omega arith) one.unlocked
        (λ j lo hi. NamesSegment-kept t t1 (parent j).shmid one.sizes (named j (omega arith) hi)) in
    (
      child',
      t',
      rw run rest,
      Copied-first parent child child' i end (omega arith) copied,
      Counted-trans parent i end t t1 t' (omega arith) one counted,
      λ x.
          (more x
            ∙ rw
                (
                  first x,
                  visits-kept t t1 parent n (i + 1) (if skips id last then last else id) x
                      one.sizes,
                )
                refl)
          ∙ times-one (not (skips id last) && covers t id x)
              (visits t parent n (i + 1) (if skips id last then last else id) x)
              (forked_slot pid now) (t.shm_segs x),
    )

pub above {ℓ} :
    {A : Type ℓ} (b : Bool) (x y : Outcome A) (a : A)
    → b ≡ true
    → x ≡ ok a
    → (if b then x else y) ≡ ok a
above b x y a e h = rw e h

-- fork() by a process with a pid above 2, with the table of segments unlocked and every entry of the
-- parent either -1 or the identifier of a segment within the table: it returns, each of the 4096
-- entries of the child is that of the parent, and every slot of the table counts one attachment more, by
-- the child, for each entry that names its segment, entries not counted that repeat the one before
-- them, those with -1 left out. The slots of segments that no entry names, and the sizes, keys, modes
-- and pages of all slots, are as before, and the lock is given back.
pub fork_shm_lem :
    (cur : ℕ) (pid : ℤ) (now : Rtcdate) (parent child : ℕ → AttachedShmseg) (t : ShmTable)
    → 2 < cur
    → t.lock ≡ false
    → ((j : ℕ) → j < 4096 → NamesSegment t (parent j).shmid)
    → (child' : ℕ → AttachedShmseg) × (t' : ShmTable) × (fork_shm (pos cur) pid now parent child t
        ≡ ok (child', t'))
      × ((j : ℕ) → j < 4096 → child' j ≡ parent j)
      × Counted parent 0 4096 t t'
      × ((x : ℕ)
          → t'.shm_segs x
            ≡ times (visits t parent 4096 0 (negsuc 1) x) (forked_slot pid now) (t.shm_segs x))
unfolding fork_shm
fork_shm_lem cur pid now parent child t h u named =
    let (child', t', run, copied, counted, exact) =
      fork_loop-Forked 4096 0 4096 (negsuc 1) pid now parent child t refl u
        (λ j lo hi. named j hi) in
    (
      child',
      t',
      above (pos 2 <ℤ pos cur) _ _ (child', t') (lt→ltb 2 cur h) run,
      λ j hi. copied.0 j (omega arith) hi,
      counted,
      exact,
    )
