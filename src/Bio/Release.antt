-- ===== src/Bio/Release.antt =====
-- brelse() of bio.c: the order of the list, and what it keeps.
use shared_memory.Prelude.{
  ℕ, ◌≡◌, inl, inr, refl, sym, ◌∙◌, ap, true, false, List, [], ◌∷◌, has, ==-refl, ◌==◌, write_write,
  if◌then◌else◌, arith, Bool-cases, write, pos, ok,
}
use shared_memory.Proc.{ProcTable, wakeup, at_address}
use shared_memory.Proc.Wakeup.{wakeup_lem}
use shared_memory.Bio.Read.{Holds, holdingsleep-Holds}
use shared_memory.Locks.Sleep.{Sleeplock, Caller, releasesleep}
use shared_memory.Bio.{Bcache, Addresses, pred, without, drop_ref, brelse}
use shared_memory.Bio.View.{view, view_held, view_absent, view-cases, IsGood, In}
use shared_memory.Bio.Keeps.{touched, touched-IsGood, touched-view}

has-without : (i j : ℕ) (xs : List ℕ) → has i xs ≡ true → (has j (i ∷ without i xs)) ≡ has j xs
has-without i j [] h = absurd (cc)
has-without i j (x ∷ xs) h = elim (Bool-cases (x == i)) [
  | inl e ↦ ground arith
  | inr e ↦ (let ih = has-without i j xs in ground arith)
]

abbrev reordered : List ℕ → Bcache → Bcache
reordered is c = record c { order = is }

-- The same buffers in another order
module _ (is : List ℕ) (c : Bcache) (g : IsGood c) (same : (j : ℕ) → has j is ≡ has j c.order) where
  reordered-IsGood : IsGood (reordered is c)
  reordered-IsGood = record {
    unique = λ j k m n. g.unique j k (sym (same j) ∙ m) (sym (same k) ∙ n);
    coherent = λ j m. g.coherent j (sym (same j) ∙ m);
    modified = λ j m. g.modified j (sym (same j) ∙ m);
  }

  reordered-view : (b : ℕ) → view (reordered is c) b ≡ view c b
  reordered-view b = elim (view-cases c b) [
    | inl (j, m, d, v, e) ↦
        ap (view (reordered is c)) (sym e)
        ∙ view_held (reordered is c) j reordered-IsGood (same j ∙ m) d v
        ∙ sym (view_held c j g m d v)
        ∙ ap (view c) e
    | inr n ↦
        view_absent (reordered is c) b (λ j m. n j (sym (same j) ∙ m)) ∙ sym (view_absent c b n)
  ]

abbrev free_lock : Sleeplock
free_lock = record { locked = false; guard = false; pid = pos 0 }

-- The buffer with one reference less, and its lock free
abbrev let_go : ℕ → Bcache → Bcache
let_go i c = touched i (pred (c.buf i).refcnt) free_lock c

-- The list after a release: to the front with the buffer if nobody else refers to it
abbrev pub released_order : ℕ → Bcache → List ℕ
released_order i c = if (c.buf i).refcnt == 1 then i ∷ without i c.order else c.order

drop_ref-let_go :
    (i : ℕ) (c : Bcache)
    → drop_ref i
        (record c { lock = true; buf = write c.buf i (record (c.buf i) { lock = free_lock }) })
      ≡ record (reordered (released_order i c) (let_go i c)) { lock = true }
unfolding drop_ref
drop_ref-let_go i c =
    rw
      (
        ==-refl i,
        write_write c.buf i (record (c.buf i) { lock = free_lock })
            (record (c.buf i) { lock = free_lock; refcnt = pred (c.buf i).refcnt }),
      )
      (ground arith)

brelse-run :
    (at : Addresses) (me : Caller) (i : ℕ) (c : Bcache) (t : ProcTable)
    → Holds me (c.buf i).lock
    → c.lock ≡ false
    → t.lock ≡ false
    → (t' : ProcTable) × (wakeup (at_address (at i)) t ≡ ok t')
      × (brelse at me i c t ≡ ok (reordered (released_order i c) (let_go i c), t'))
unfolding brelse releasesleep
brelse-run at me i c t h k free =
    let w = wakeup_lem (at_address (at i)) t free in
    let t' = w.0 in
    let run : wakeup (at_address (at i)) t ≡ ok t' = w.1 in
    let step = drop_ref-let_go i c in
    (t', run, rw (holdingsleep-Holds me (c.buf i).lock h, h.open_guard, run, k) (rw step refl))

-- The holder of the lock of a buffer releases it: the buffer has one reference less and its lock is
-- free; with no reference left it moves to the front of the list, the others in their order, and else
-- the list is as it was. The cache stands for the same content of every block, and sleepers on the
-- lock have been woken.
pub brelse_lem :
    (at : Addresses) (me : Caller) (i : ℕ) (c : Bcache) (t : ProcTable)
    → IsGood c
    → In i c
    → Holds me (c.buf i).lock
    → c.lock ≡ false
    → t.lock ≡ false
    → (c' : Bcache) × (t' : ProcTable) × (brelse at me i c t ≡ ok (c', t'))
      × (wakeup (at_address (at i)) t ≡ ok t')
      × (c'.order ≡ (if (c.buf i).refcnt == 1 then i ∷ without i c.order else c.order))
      × ((c'.buf i).refcnt ≡ pred (c.buf i).refcnt)
      × ((c'.buf i).lock.locked ≡ false)
      × IsGood c'
      × ((b : ℕ) → view c' b ≡ view c b)
brelse_lem at me i c t g m h k free =
    let (t', woke, run) = brelse-run at me i c t h k free in
    let d = let_go i c in
    let g' = touched-IsGood i (pred (c.buf i).refcnt) free_lock c g in
    (
      reordered (released_order i c) d,
      t',
      run,
      woke,
      refl,
      ground arith,
      ground arith,
      reordered-IsGood (released_order i c) d g' members,
      λ b.
          reordered-view (released_order i c) d g' members b
          ∙ touched-view i (pred (c.buf i).refcnt) free_lock c g b,
    )
  where
    members : (j : ℕ) → has j (released_order i c) ≡ has j c.order
    members j = (let e = has-without i j c.order m in ground arith)
