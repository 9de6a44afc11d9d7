-- ===== src/Proc/Exit/Whole.antt =====
-- exit() as a whole, from the test for init to the switch to the scheduler.
use shared_memory.Prelude.{
  ℕ, ◌<◌, ◌≡◌, ◌≢◌, inl, inr, refl, sym, ap, ◌∙◌, true, false, Option, none, some, arith, ◌==◌,
  ==-refl, ==-ne, ==_iff, Bool-cases, ok,
}
use shared_memory.Proc.{
  nproc, ProcState, sleeping, zombie, is_running, Channel, of_proc, ProcTable, set_state,
}
use shared_memory.Proc.Switch.{
  Cpu, sched, is_child, pass_children, wake_parent, exit_locked, exit_from,
}
use shared_memory.Proc.Wakeup.{all_woken, wakeup1_lem}
use shared_memory.Proc.Exit.{
  Quiet, Same, Passed, Passed-refl, Passed-trans, Quiet-kept, all_woken-Passed, all_woken-Quiet,
  all_woken-parent,
}
use shared_memory.Proc.Exit.Adopt.{Adopted, zombie-kept, pass_children_lem, is_child-kept}

-- sched() by a process that may call it.
pub sched_lem :
    (i : ℕ) (c : Cpu) (t : ProcTable)
    → t.lock ≡ true
    → c.ncli ≡ 1
    → c.interrupts ≡ false
    → is_running (t.procs i).state ≡ false
    → sched i c t ≡ ok t
unfolding sched
sched_lem i c t l n f s = rw (l, n, f, s) refl

-- The parent's channel after it has been woken, with nothing changed but that.
wake_parent_lem :
    (parent : Option ℕ) (t : ProcTable)
    → (u : ProcTable) × (wake_parent parent t ≡ ok u)
      × Passed t u
      × ((q : ℕ) → parent ≡ some q → Quiet (of_proc q) u)
      × ((x : ℕ) → (u.procs x).parent ≡ (t.procs x).parent)
wake_parent_lem none t = (t, refl, Passed-refl t, λ q e. cc, λ x. refl)
wake_parent_lem (some r) t = (
  all_woken (of_proc r) t,
  wakeup1_lem (of_proc r) t,
  all_woken-Passed (of_proc r) t,
  λ q e. (let d : q ≡ r = cc in rw d (all_woken-Quiet (of_proc r) t)),
  λ x. all_woken-parent (of_proc r) t x,
)

-- What exit() of the process in slot `i` leaves behind.
pub record Exited (i : ℕ) (t t' : ProcTable) : Type 0 where
  pub dead : (t'.procs i).state ≡ zombie
  pub childless : (x : ℕ) → x < nproc → is_child i (t'.procs x) ≡ false
  pub adopted :
      (x : ℕ) → x < nproc → is_child i (t.procs x) ≡ true → (t'.procs x).parent ≡ some t.init_proc
  pub kept_parent :
      (x : ℕ) → is_child i (t.procs x) ≡ false → (t'.procs x).parent ≡ (t.procs x).parent
  pub init_woken :
      (x : ℕ)
      → x < nproc
      → is_child i (t.procs x) ≡ true
      → (t.procs x).state ≡ zombie
      → Quiet (of_proc t.init_proc) t'
  pub parent_woken : (q : ℕ) → (t.procs i).parent ≡ some q → Quiet (of_proc q) t'
  pub others : (x : ℕ) → x ≢ i → Same (t.procs x) (t'.procs x)
  pub same_pid : (t'.procs i).pid ≡ (t.procs i).pid
  pub same_memory :
      ((t'.procs i).kstack ≡ (t.procs i).kstack) × ((t'.procs i).pgdir ≡ (t.procs i).pgdir)
  pub next_pid : t'.next_pid ≡ t.next_pid
  pub locked : t'.lock ≡ true

state_at : (i : ℕ) (s : ProcState) (t : ProcTable) → ((set_state i s t).procs i).state ≡ s
state_at i s t = rw (==-refl i) refl

set_state-parent :
    (i x : ℕ) (s : ProcState) (t : ProcTable)
    → ((set_state i s t).procs x).parent ≡ (t.procs x).parent
set_state-parent i x s t = ground arith

off : (i x : ℕ) (s : ProcState) (t : ProcTable) → x ≢ i → (set_state i s t).procs x ≡ t.procs x
off i x s t ne = rw (==-ne x i ne) refl

pid_at : (i : ℕ) (s : ProcState) (t : ProcTable) → ((set_state i s t).procs i).pid ≡ (t.procs i).pid
pid_at i s t = rw (==-refl i) refl

kstack_at :
    (i : ℕ) (s : ProcState) (t : ProcTable)
    → ((set_state i s t).procs i).kstack ≡ (t.procs i).kstack
kstack_at i s t = rw (==-refl i) refl

pgdir_at :
    (i : ℕ) (s : ProcState) (t : ProcTable) → ((set_state i s t).procs i).pgdir ≡ (t.procs i).pgdir
pgdir_at i s t = rw (==-refl i) refl

-- A new zombie sleeps on nothing.
Quiet-zombie : (c : Channel) (i : ℕ) (t : ProcTable) → Quiet c t → Quiet c (set_state i zombie t)
Quiet-zombie c i t q x h s = elim (Bool-cases (x == i)) [
  | inl b ↦
      (let e : x ≡ i = (==_iff x i).0 b in absurd (awake (sym (state_at i zombie t) ∙ (rw e at s))))
  | inr b ↦ rw b (q x h (rw b at s))
]
  where
    awake : zombie ≡ sleeping → ⊥
    awake e = cc

module _ (i : ℕ) (c : Cpu) (t : ProcTable) (free : t.lock ≡ false) (not_init : i ≢ t.init_proc)
    (inside : i < nproc) (nested : c.ncli ≡ 1) (masked : c.interrupts ≡ false) where
  -- The children of the process are those of init afterwards.
  childless_after :
      (u v : ProcTable) (x : ℕ)
      → (u.init_proc ≡ t.init_proc)
      → Adopted i 0 nproc u v
      → x < nproc
      → is_child i (v.procs x) ≡ false
  childless_after u v x e a h = elim (Bool-cases (is_child i (u.procs x))) [
    | inl mine ↦
        rw (a.new_parent x (omega arith) h mine)
          (==-ne u.init_proc i (λ d. not_init (sym (sym e ∙ d))))
    | inr other ↦ is_child-kept i (u.procs x) (v.procs x) (a.old_parent x (inr (inr other))) ∙ other
  ]

  init-Quiet :
      (u v : ProcTable)
      → u.init_proc ≡ t.init_proc
      → Quiet (of_proc u.init_proc) v
      → Quiet (of_proc t.init_proc) v
  init-Quiet u v e q = rw e at q

  exit_run :
      (u v : ProcTable)
      → wake_parent (t.procs i).parent (record t { lock = true }) ≡ ok u
      → pass_children i nproc 0 u ≡ ok v
      → v.lock ≡ true
      → exit_from i c t ≡ ok (set_state i zombie v)
  unfolding exit_from exit_locked
  exit_run u v wake pass lock =
      rw (==-ne i t.init_proc not_init, free, wake, pass)
        (sched_lem i c (set_state i zombie v) lock nested masked (rw (==-refl i) refl))

  -- exit(), but for the closing of the files, of a process other than init, with the table unlocked,
  -- and one pushcli() open and the interrupts off once the lock is taken: it reaches the scheduler
  -- with the lock held and the process a ZOMBIE. Exactly its children are passed on to init, and no
  -- process is a child of it any more. Its parent does not sleep on its own channel any more, nor
  -- does init if it was given a ZOMBIE. Every other process is as before, but that it may have been
  -- woken and have another parent.
  pub exit_from_lem : (t' : ProcTable) × (exit_from i c t ≡ ok t') × Exited i t t'
  exit_from_lem =
      let locked : ProcTable = record t { lock = true } in
      let (u, wake, passed, quiet, parents) = wake_parent_lem (t.procs i).parent locked in
      let (v, pass, adopted) = pass_children_lem i nproc 0 nproc u refl in
      let whole = Passed-trans locked u v passed adopted.passed in
      let same_child = λ (x : ℕ). is_child-kept i (t.procs x) (u.procs x) (parents x) in
      (
        set_state i zombie v,
        exit_run u v wake pass whole.lock,
        record {
          dead = state_at i zombie v;
          childless = λ x h.
              is_child-kept i (v.procs x) ((set_state i zombie v).procs x)
                (set_state-parent i x zombie v)
              ∙ childless_after u v x passed.init_proc adopted h;
          adopted = λ x h m.
              set_state-parent i x zombie v
              ∙ adopted.new_parent x (omega arith) h (same_child x ∙ m)
              ∙ ap some passed.init_proc;
          kept_parent = λ x m.
              set_state-parent i x zombie v
              ∙ adopted.old_parent x (inr (inr (same_child x ∙ m)))
              ∙ parents x;
          init_woken = λ x h m z. Quiet-zombie (of_proc t.init_proc) i v (
              init-Quiet u v passed.init_proc (
                adopted.woken_init x (omega arith) h (same_child x ∙ m)
                  (zombie-kept (t.procs x) (u.procs x) (passed.same x) z)));
          parent_woken = λ q e.
              Quiet-zombie (of_proc q) i v (Quiet-kept (of_proc q) u v adopted.passed (quiet q e));
          others = λ x ne. rw (off i x zombie v ne) (whole.same x);
          same_pid = pid_at i zombie v ∙ (whole.same i).pid;
          same_memory = (
            kstack_at i zombie v ∙ (whole.same i).kstack,
            pgdir_at i zombie v ∙ (whole.same i).pgdir,
          );
          next_pid = whole.next_pid;
          locked = whole.lock;
        },
      )
