-- ===== src/Proc/Exit.antt =====
-- exit(): what it may do to the other processes.
pub mod Adopt
pub mod Whole
use shared_memory.Prelude.{
  ℕ, ◌<◌, ◌≡◌, ◌⊎◌, inl, inr, refl, sym, ◌∙◌, Bool, true, false, ◌&&◌, arith, Bool-cases,
}
use shared_memory.Proc.{
  nproc, ProcState, sleeping, runnable, is_sleeping, Channel, sleeps_on, Proc, ProcTable, woken,
}
use shared_memory.Proc.Wakeup.{all_woken, woken-up}

-- Nobody sleeps on the channel.
abbrev pub Quiet : Channel → ProcTable → Type 0
Quiet c t =
    (x : ℕ) → x < nproc → (t.procs x).state ≡ sleeping → sleeps_on c (t.procs x).chan ≡ false

-- The process is as it was, but that it may have been woken, and that its parent may be another.
pub record Same (p q : Proc) : Type 0 where
  pub pid : q.pid ≡ p.pid
  pub chan : q.chan ≡ p.chan
  pub killed : q.killed ≡ p.killed
  pub kstack : q.kstack ≡ p.kstack
  pub pgdir : q.pgdir ≡ p.pgdir
  pub sz : q.sz ≡ p.sz
  pub tf : q.tf ≡ p.tf
  pub context : q.context ≡ p.context
  pub state : (q.state ≡ p.state) ⊎ ((p.state ≡ sleeping) × (q.state ≡ runnable))

pub Same-refl : (p : Proc) → Same p p
Same-refl p = record {
  pid = refl;
  chan = refl;
  killed = refl;
  kstack = refl;
  pgdir = refl;
  sz = refl;
  tf = refl;
  context = refl;
  state = inl refl;
}

Same-trans : (p q r : Proc) → Same p q → Same q r → Same p r
Same-trans p q r a b = record {
  pid = b.pid ∙ a.pid;
  chan = b.chan ∙ a.chan;
  killed = b.killed ∙ a.killed;
  kstack = b.kstack ∙ a.kstack;
  pgdir = b.pgdir ∙ a.pgdir;
  sz = b.sz ∙ a.sz;
  tf = b.tf ∙ a.tf;
  context = b.context ∙ a.context;
  state = states p.state q.state r.state a.state b.state;
}
  where
    states :
        (p q r : ProcState)
        → (q ≡ p) ⊎ ((p ≡ sleeping) × (q ≡ runnable))
        → (r ≡ q) ⊎ ((q ≡ sleeping) × (r ≡ runnable))
        → (r ≡ p) ⊎ ((p ≡ sleeping) × (r ≡ runnable))
    states p q r (inl a) (inl b) = inl (b ∙ a)
    states p q r (inl a) (inr (b, c)) = inr (sym a ∙ b, c)
    states p q r (inr (a, b)) (inl c) = inr (a, c ∙ b)
    states p q r (inr (a, b)) (inr (c, d)) = inr (a, d)

woken-Same : (c : Channel) (p : Proc) → Same p (woken c p)
unfolding woken
woken-Same c p = elim (Bool-cases (is_sleeping p.state && sleeps_on c p.chan)) [
  | inl h ↦ rw h (record {
    pid = refl;
    chan = refl;
    killed = refl;
    kstack = refl;
    pgdir = refl;
    sz = refl;
    tf = refl;
    context = refl;
    state = inr (asleep p.state (sleeps_on c p.chan) h, refl);
  })
  | inr h ↦ rw h (Same-refl p)
]
  where
    asleep : (s : ProcState) (b : Bool) → (is_sleeping s && b) ≡ true → s ≡ sleeping
    asleep s b h = ground arith

woken-parent : (c : Channel) (p : Proc) → (woken c p).parent ≡ p.parent
unfolding woken
woken-parent c p = ground arith

in_woken :
    (c : Channel) (t : ProcTable) (x : ℕ)
    → ((all_woken c t).procs x ≡ woken c (t.procs x)) ⊎ ((all_woken c t).procs x ≡ t.procs x)
in_woken c t x = ground arith

-- What a piece of exit() does to the table as a whole: nothing but wake-ups and new parents.
pub record Passed (t t' : ProcTable) : Type 0 where
  pub same : (x : ℕ) → Same (t.procs x) (t'.procs x)
  pub init_proc : t'.init_proc ≡ t.init_proc
  pub next_pid : t'.next_pid ≡ t.next_pid
  pub lock : t'.lock ≡ t.lock

pub Passed-refl : (t : ProcTable) → Passed t t
Passed-refl t = record {
  same = λ x. Same-refl (t.procs x);
  init_proc = refl;
  next_pid = refl;
  lock = refl;
}

pub Passed-trans : (t u v : ProcTable) → Passed t u → Passed u v → Passed t v
Passed-trans t u v a b = record {
  same = λ x. Same-trans (t.procs x) (u.procs x) (v.procs x) (a.same x) (b.same x);
  init_proc = b.init_proc ∙ a.init_proc;
  next_pid = b.next_pid ∙ a.next_pid;
  lock = b.lock ∙ a.lock;
}

-- A channel that nobody sleeps on stays so.
pub Quiet-kept : (c : Channel) (t u : ProcTable) → Passed t u → Quiet c t → Quiet c u
Quiet-kept c t u p q x h s =
    let same = p.same x in
    let asleep : (t.procs x).state ≡ sleeping =
      still (t.procs x).state (u.procs x).state same.state s in
    rw (same.chan) (q x h asleep)
  where
    still :
        (p q : ProcState)
        → (q ≡ p) ⊎ ((p ≡ sleeping) × (q ≡ runnable))
        → q ≡ sleeping
        → p ≡ sleeping
    still p q (inl e) s = sym e ∙ s
    still p q (inr (a, b)) s = a

pub all_woken-Passed : (c : Channel) (t : ProcTable) → Passed t (all_woken c t)
all_woken-Passed c t = record {
  same = λ x. elim (in_woken c t x) [
    | inl e ↦ rw e (woken-Same c (t.procs x))
    | inr e ↦ rw e (Same-refl (t.procs x))
  ];
  init_proc = refl;
  next_pid = refl;
  lock = refl;
}

pub all_woken-Quiet : (c : Channel) (t : ProcTable) → Quiet c (all_woken c t)
all_woken-Quiet c t x h s =
    let e : (all_woken c t).procs x ≡ woken c (t.procs x) = ground arith in
    rw e (woken-up c (t.procs x) (rw e at s))

pub all_woken-parent :
    (c : Channel) (t : ProcTable) (x : ℕ) → ((all_woken c t).procs x).parent ≡ (t.procs x).parent
all_woken-parent c t x = elim (in_woken c t x) [
  | inl e ↦ rw e (woken-parent c (t.procs x))
  | inr e ↦ rw e refl
]
