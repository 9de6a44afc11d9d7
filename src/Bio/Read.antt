-- ===== src/Bio/Read.antt =====
-- bread() and brelse() of bio.c as a whole.
use shared_memory.Prelude.{
  ℕ, ◌+◌, ◌%◌, ◌<◌, ◌≡◌, ◌⊎◌, inl, inr, refl, sym, ◌∙◌, ap, true, false, arith, Bool-cases,
  ==ℤ-refl, ok, panic, leb,
}
use shared_memory.Proc.{ProcTable}
use shared_memory.Proc.Switch.{Cpu}
use shared_memory.Locks.Sleep.{Sleeplock, Caller, holdingsleep, acquiresleep, take_or_sleep}
use shared_memory.Layout.{word}
use shared_memory.Bio.{
  Bcache, is_block, can_recycle, Addresses, bget, bget_claim, bread, bread_locked, iderw,
}
use shared_memory.Bio.Claim.{NonePass, taken, referenced, bget_claim-cases}
use shared_memory.Bio.View.{view, view_held, IsGood, In}
use shared_memory.Bio.Keeps.{
  touched, touched-IsGood, touched-view, taken-IsGood, taken-view, filled, filled-IsGood,
  filled-view, filled-own,
}

-- The process holds the sleeplock.
pub record Holds (me : Caller) (l : Sleeplock) : Type 0 where
  pub taken : l.locked ≡ true
  pub open_guard : l.guard ≡ false
  pub mine : l.pid ≡ me.pid

pub holdingsleep-Holds :
    (me : Caller) (l : Sleeplock) → Holds me l → holdingsleep me l ≡ ok (true, l)
unfolding holdingsleep
holdingsleep-Holds me l h = rw (h.open_guard, h.taken, h.mine, ==ℤ-refl me.pid) refl

-- The cache after a read of the buffer `i`, which has the content that the cache stood for, with `r`
-- references to it, and locked by the process.
pub record ReadBuf (me : Caller) (i b r : ℕ) (c c' : Bcache) : Type 0 where
  pub good : IsGood c'
  pub same : (x : ℕ) → view c' x ≡ view c x
  pub is_read : (c'.buf i).valid ≡ true
  pub content : (c'.buf i).content ≡ view c b
  pub number : (c'.buf i).blockno ≡ b
  pub device : (c'.buf i).dev ≡ 1
  pub held_lock : Holds me (c'.buf i).lock
  pub refs : (c'.buf i).refcnt ≡ r
  pub cache_lock : c'.lock ≡ c.lock

pub bread_locked-ReadBuf :
    (me : Caller) (i : ℕ) (c : Bcache)
    → IsGood c
    → In i c
    → (c.buf i).dev ≡ 1
    → (c.buf i).blockno < c.disk_blocks
    → Holds me (c.buf i).lock
    → (c' : Bcache) × (bread_locked me i c ≡ ok c')
      × ReadBuf me i (c.buf i).blockno (c.buf i).refcnt c c'
unfolding bread_locked iderw
bread_locked-ReadBuf me i c g m d small h = elim (Bool-cases (c.buf i).valid) [
  | inl v ↦ (
    c,
    rw v refl,
    record {
      good = g;
      same = λ x. refl;
      is_read = v;
      content = sym (view_held c i g m d v);
      number = refl;
      device = d;
      held_lock = h;
      refs = refl;
      cache_lock = refl;
    },
  )
  | inr v ↦
      (let n : (c.buf i).dirty ≡ false = (let z = g.modified i m in ground arith) in
        let s : leb c.disk_blocks (c.buf i).blockno ≡ false = ground arith in
        (
          filled i c,
          rw (v, holdingsleep-Holds me (c.buf i).lock h, n, d, s) refl,
          record {
            good = filled-IsGood i c g m d v;
            same = filled-view i c g m d v;
            is_read = ground arith;
            content =
                (ground arith)
                ∙ sym (filled-own i c g m d v)
                ∙ filled-view i c g m d v (c.buf i).blockno;
            number = ground arith;
            device = (let e : ((filled i c).buf i).dev ≡ (c.buf i).dev = ground arith in e ∙ d);
            held_lock =
                (let e : ((filled i c).buf i).lock ≡ (c.buf i).lock = ground arith in rw e h);
            refs = ground arith;
            cache_lock = refl;
          },
        ))
]

abbrev mine : Caller → Sleeplock
mine me = record { locked = true; guard = false; pid = me.pid }

abbrev pub IsFree : Sleeplock → Type 0
IsFree l = (l.locked ≡ false) × (l.guard ≡ false)

acquiresleep-free :
    (a : ℕ) (me : Caller) (cpu : Cpu) (l : Sleeplock) (t : ProcTable)
    → IsFree l
    → acquiresleep a me cpu l t ≡ ok (true, mine me, t)
unfolding acquiresleep take_or_sleep
acquiresleep-free a me cpu l t f = rw (f.0, f.1) refl

-- The cache once the lock of the buffer is taken
abbrev held : Caller → ℕ → Bcache → Bcache
held me i c = touched i (c.buf i).refcnt (mine me) c

-- The end of bread(), once bget() has claimed a buffer whose lock is free
bread-claimed :
    (at : Addresses) (me : Caller) (cpu : Cpu) (b i r : ℕ) (c c1 : Bcache) (t : ProcTable)
    → bget_claim 1 b c ≡ ok (i, c1)
    → IsGood c1
    → ((x : ℕ) → view c1 x ≡ view c x)
    → In i c1
    → (c1.buf i).dev ≡ 1
    → (c1.buf i).blockno ≡ b
    → b < c1.disk_blocks
    → IsFree (c1.buf i).lock
    → (c1.buf i).refcnt ≡ r
    → c1.lock ≡ c.lock
    → (c' : Bcache) × (bread at me cpu 1 b c t ≡ ok (i, true, c', t)) × ReadBuf me i b r c c'
unfolding bread bget
bread-claimed at me cpu b i r c c1 t run g same m d n small f count lock =
    let c2 = held me i c1 in
    let g2 = touched-IsGood i (c1.buf i).refcnt (mine me) c1 g in
    let n2 : (c2.buf i).blockno ≡ b = ground arith in
    let l2 : (c2.buf i).lock ≡ mine me = ground arith in
    let h : Holds me (c2.buf i).lock =
      rw l2 (record { taken = refl; open_guard = refl; mine = refl }) in
    let small2 : (c2.buf i).blockno < c2.disk_blocks = rw n2 small in
    let d2 : (c2.buf i).dev ≡ 1 = ground arith in
    let refs2 : (c2.buf i).refcnt ≡ (c1.buf i).refcnt = ground arith in
    let (c', go, rd) = bread_locked-ReadBuf me i c2 g2 m d2 small2 h in
    let w : (x : ℕ) → view c2 x ≡ view c x =
      λ x. touched-view i (c1.buf i).refcnt (mine me) c1 g x ∙ same x in
    (
      c',
      rw (run, acquiresleep-free (at i) me cpu (c1.buf i).lock t f, go) refl,
      record {
        good = rd.good;
        same = λ x. rd.same x ∙ w x;
        is_read = rd.is_read;
        content = rd.content ∙ ap (view c2) n2 ∙ w b;
        number = rd.number ∙ n2;
        device = rd.device;
        held_lock = rd.held_lock;
        refs = rd.refs ∙ refs2 ∙ count;
        cache_lock = rd.cache_lock ∙ lock;
      },
    )

-- bread() of a block of the disk, with no process at a buffer: it returns a valid buffer of
-- the block with the content that the cache stands for, whose sleeplock the process holds and which has
-- one more reference. The lock of the cache is free as before, and the cache goes on to stand for the same
-- content of every block, also when a buffer of another block was recycled; or it panics, when the
-- block has no buffer and each buffer has a reference or is dirty.
pub bread-view :
    (at : Addresses) (me : Caller) (cpu : Cpu) (b : ℕ) (c : Bcache) (t : ProcTable)
    → IsGood c
    → c.lock ≡ false
    → b < c.disk_blocks
    → ((i : ℕ) → In i c → IsFree (c.buf i).lock)
    → (NonePass (λ i. is_block 1 b (c.buf i)) c.order
        × NonePass (λ i. can_recycle (c.buf i)) c.order
        × (bread at me cpu 1 b c t ≡ panic))
      ⊎ ((i : ℕ) × (c' : Bcache) × (bread at me cpu 1 b c t ≡ ok (i, true, c', t))
          × ReadBuf me i b (((c.buf i).refcnt + 1) % word) c c')
unfolding bread bget
bread-view at me cpu b c t g k small free = elim (bget_claim-cases 1 b c k) [
  | inl (i, p, run) ↦
      (let r = ((c.buf i).refcnt + 1) % word in
        let l = (c.buf i).lock in
        let z = p.1 in
        let f = free i p.0 in
        let (c', go, q) =
          bread-claimed at me cpu b i (((c.buf i).refcnt + 1) % word) c (referenced i c) t run
            (touched-IsGood i r l c g) (touched-view i r l c g) p.0 (ground arith) (ground arith)
            small (ground arith) (ground arith) refl in
        inr (i, c', go, q))
  | inr (n, inl (i, p, e, run)) ↦
      (let f = free i p.0 in
        let (c', go, q) =
          bread-claimed at me cpu b i (((c.buf i).refcnt + 1) % word) c (taken 1 b i c) t run
            (taken-IsGood b i c g n p) (taken-view b i c g n p) p.0 (ground arith) (ground arith)
            small (ground arith) (ground arith) refl in
        inr (i, c', go, q))
  | inr (n, inr (u, run)) ↦ inl (n, u, rw run refl)
]
