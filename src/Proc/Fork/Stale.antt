-- ===== src/Proc/Fork/Stale.antt =====
-- fork() after shmdt(): entries that are left with the identifier of a segment.
use shared_memory.Prelude.{
  ℕ, zero, suc, ◌+◌, ◌≤◌, ◌<◌, ◌≡◌, ◌≢◌, refl, ap, ◌∙◌, false, arith, lt→ltb, if◌then◌else◌, write,
  ℤ, pos, negsuc, minus_one, ◌==ℤ◌, ◌<ℤ◌, ok,
}
use native.Mathlib.Decide.{dec_lt}
use shared_memory.Layout.{shm_max_seg}
use shared_memory.Shm.Table.{
  ShmTable, AttachedShmseg, Rtcdate, pages_of, inc_word, forked_slot, update_shm_seg,
}
use shared_memory.Proc.Fork.Count.{update_lem, count_fork_lem, skips_gone}
use shared_memory.Proc.Fork.Laws.{above}
use shared_memory.Proc.Fork.{skips, fork_loop, fork_shm}

-- Where no entry of the rest is set, the loop counts nothing.
fork_loop-blank :
    (n i : ℕ) (last pid : ℤ) (now : Rtcdate) (parent child : ℕ → AttachedShmseg) (t : ShmTable)
    → ((j : ℕ) → i ≤ j → j < i + n → (parent j).shmid ≡ minus_one)
    → (child' : ℕ → AttachedShmseg) × (fork_loop n i last pid now parent child t ≡ ok (child', t))
unfolding fork_loop
fork_loop-blank zero i last pid now parent child t blank = (child, refl)
fork_loop-blank (suc n) i last pid now parent child t blank =
    let skip = skips_gone (parent i).shmid last (blank i (omega arith) (omega arith)) in
    let (child', run) =
      fork_loop-blank n (i + 1) last pid now parent (write child i (parent i)) t
        (λ j lo hi. blank j (omega arith) (omega arith)) in
    (child', rw skip run)

skips_new : (id last : ℤ) (f : ℕ) → id ≡ pos f → (last ==ℤ pos f) ≡ false → skips id last ≡ false
skips_new id (pos g) f e h = rw e (ground arith)
skips_new id (negsuc g) f e h = rw e refl

-- The loop reaches the one entry that is set.
fork_loop-one :
    (n i e f : ℕ) (last pid : ℤ) (now : Rtcdate) (parent child : ℕ → AttachedShmseg)
    (t t' : ShmTable)
    → i ≤ e
    → e < i + n
    → (parent e).shmid ≡ pos f
    → (last ==ℤ pos f) ≡ false
    → ((j : ℕ) → j ≢ e → (parent j).shmid ≡ minus_one)
    → update_shm_seg (pos f) pid 0 now t ≡ ok t'
    → (child' : ℕ → AttachedShmseg) × (fork_loop n i last pid now parent child t ≡ ok (child', t'))
unfolding fork_loop
fork_loop-one zero i e f last pid now parent child t t' lo hi is new blank run =
    absurd (omega arith)
fork_loop-one (suc n) i e f last pid now parent child t t' lo hi is new blank run =
    elim (dec_lt i e) [
      | yes p ↦
          let skip = skips_gone (parent i).shmid last (blank i (λ q. omega arith)) in
          let (child', more) =
            fork_loop-one n (i + 1) e f last pid now parent (write child i (parent i)) t t'
              (omega arith) (omega arith) is new blank run in
          (child', rw skip more)
      | no p ↦
          let here : (parent i).shmid ≡ pos f = (let q : i ≡ e = omega arith in rw q is) in
          let id = (parent i).shmid in
          let counts = skips_new id last f here new in
          let (child', more) =
            fork_loop-blank n (i + 1) (if skips id last then last else id) pid now parent
              (write child i (parent i)) t' (λ j a b. blank j (λ q. omega (arith, p, a, q))) in
          (
            child',
            rw
                (count_fork_lem (skips id last) id pid now t t' counts
                  (ap (λ (z : ℤ). update_shm_seg z pid 0 now t) here ∙ run))
                more,
          )
    ]

-- A finding: fork() by a process with a pid above 2, with the table of segments unlocked, whose only entry other than -1 is marked as not
-- attached but names a segment within the table, returns with one attachment more counted in each
-- slot of that segment.
pub fork_shm-detached :
    (cur e f : ℕ) (pid : ℤ) (now : Rtcdate) (parent child : ℕ → AttachedShmseg) (t : ShmTable)
    → 2 < cur
    → t.lock ≡ false
    → e < 4096
    → f < shm_max_seg
    → f + pages_of (t.shm_segs f) ≤ shm_max_seg
    → parent e ≡ record { is_attached = false; shmid = pos f }
    → ((j : ℕ) → j ≢ e → (parent j).shmid ≡ minus_one)
    → (child' : ℕ → AttachedShmseg) × (t' : ShmTable) × (fork_shm (pos cur) pid now parent child t
        ≡ ok (child', t'))
      × ((x : ℕ)
          → f ≤ x
          → x < f + pages_of (t.shm_segs f)
          → (t'.shm_segs x).shm_nattch ≡ inc_word (t.shm_segs x).shm_nattch)
unfolding fork_shm forked_slot
fork_shm-detached cur e f pid now parent child t h u he hf fits left blank =
    let is = ap (λ (a : AttachedShmseg). a.shmid) left in
    let (child', run) =
      fork_loop-one 4096 0 e f (negsuc 1) pid now parent child t _ (omega arith) (omega arith) is
        refl blank (update_lem f pid now t u hf fits) in
    (child', _, above (pos 2 <ℤ pos cur) _ _ _ (lt→ltb 2 cur h) run, λ x lo hi. ground arith)
