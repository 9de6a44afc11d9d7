-- ===== src/Proc/Exit/Adopt.antt =====
-- The loop of exit() that passes the children on to init.
use shared_memory.Prelude.{
  ℕ, zero, suc, ◌+◌, ◌≤◌, ◌<◌, ◌≡◌, ◌≢◌, ◌⊎◌, inl, inr, refl, ap, ◌∙◌, Bool, true, false, some,
  arith, ◌==◌, ==-refl, ==_iff, Bool-cases, ok,
}
use native.Mathlib.Decide.{dec_lt}
use shared_memory.Proc.{
  ProcState, sleeping, runnable, zombie, is_zombie, of_proc, Proc, ProcTable, set_proc,
}
use shared_memory.Proc.Switch.{is_child, pass_child, pass_children}
use shared_memory.Proc.Wakeup.{all_woken, wakeup1_lem}
use shared_memory.Proc.Exit.{
  Quiet, Same, Same-refl, Passed, Passed-refl, Passed-trans, Quiet-kept, all_woken-Passed,
  all_woken-Quiet, all_woken-parent,
}

-- The parents after the rounds for the slots from `j` to `end`, and whether init was woken for a
-- zombie among them.
pub record Adopted (i j end : ℕ) (t t' : ProcTable) : Type 0 where
  pub passed : Passed t t'
  pub new_parent :
      (x : ℕ)
      → j ≤ x
      → x < end
      → is_child i (t.procs x) ≡ true
      → (t'.procs x).parent ≡ some t.init_proc
  pub old_parent :
      (x : ℕ)
      → (x < j) ⊎ (end ≤ x) ⊎ (is_child i (t.procs x) ≡ false)
      → (t'.procs x).parent ≡ (t.procs x).parent
  pub woken_init :
      (x : ℕ)
      → j ≤ x
      → x < end
      → is_child i (t.procs x) ≡ true
      → (t.procs x).state ≡ zombie
      → Quiet (of_proc t.init_proc) t'

-- p->parent = initproc
abbrev adopt : ℕ → ProcTable → ProcTable
adopt j t = set_proc j (record (t.procs j) { parent = some t.init_proc }) t

adopt-Passed : (j : ℕ) (t : ProcTable) → Passed t (adopt j t)
adopt-Passed j t = record {
  same = λ x. elim (Bool-cases (x == j)) [
    | inl h ↦
        let e : x ≡ j = (==_iff x j).0 h in
        rw e (
          rw (==-refl j) (record {
            pid = refl;
            chan = refl;
            killed = refl;
            kstack = refl;
            pgdir = refl;
            sz = refl;
            tf = refl;
            context = refl;
            state = inl refl;
          }))
    | inr h ↦ rw h (Same-refl (t.procs x))
  ];
  init_proc = refl;
  next_pid = refl;
  lock = refl;
}

pub not_both : (b : Bool) → b ≡ false → b ≡ true → ⊥
not_both b p q = cc

adopt-at : (j x : ℕ) (t : ProcTable) → x ≡ j → ((adopt j t).procs x).parent ≡ some t.init_proc
adopt-at j x t e = ground arith

adopt-off : (j x : ℕ) (t : ProcTable) → x ≢ j → ((adopt j t).procs x).parent ≡ (t.procs x).parent
adopt-off j x t e = ground arith

is_zombie_of : (s : ProcState) → s ≡ zombie → is_zombie s ≡ true
is_zombie_of s e = rw e refl

not_child :
    (i j x : ℕ) (t : ProcTable)
    → is_child i (t.procs j) ≡ true
    → (x < j) ⊎ (j + 1 ≤ x) ⊎ (is_child i (t.procs x) ≡ false)
    → x ≢ j
not_child i j x t c (inl h) e = omega arith
not_child i j x t c (inr (inl h)) e = omega arith
not_child i j x t c (inr (inr h)) e = not_both (is_child i (t.procs x)) h (rw e c)

pass_child_lem :
    (i j : ℕ) (t : ProcTable)
    → (t' : ProcTable) × (pass_child i j t ≡ ok t') × Adopted i j (j + 1) t t'
pass_child_lem i j t = elim (Bool-cases (is_child i (t.procs j))) [
  | inr no_child ↦ (
    t,
    rw no_child refl,
    record {
      passed = Passed-refl t;
      new_parent =
          λ x lo hi c. (let e : x ≡ j = omega arith in absurd (not_both _ no_child (rw e at c)));
      old_parent = λ x h. refl;
      woken_init =
          λ x lo hi c z. (let e : x ≡ j = omega arith in absurd (not_both _ no_child (rw e at c)));
    },
  )
  | inl child ↦ elim (Bool-cases (is_zombie (t.procs j).state)) [
    | inl z ↦ (
      all_woken (of_proc t.init_proc) (adopt j t),
      rw (child, ==-refl j, z) (wakeup1_lem (of_proc t.init_proc) (adopt j t)),
      record {
        passed =
            Passed-trans t (adopt j t) _ (adopt-Passed j t)
              (all_woken-Passed (of_proc t.init_proc) (adopt j t));
        new_parent = λ x lo hi c.
            all_woken-parent (of_proc t.init_proc) (adopt j t) x ∙ adopt-at j x t (omega arith);
        old_parent = λ x h.
            all_woken-parent (of_proc t.init_proc) (adopt j t) x
            ∙ adopt-off j x t (not_child i j x t child h);
        woken_init = λ x lo hi c s. all_woken-Quiet (of_proc t.init_proc) (adopt j t);
      },
    )
    | inr z ↦ (
      adopt j t,
      rw (child, ==-refl j, z) refl,
      record {
        passed = adopt-Passed j t;
        new_parent = λ x lo hi c. adopt-at j x t (omega arith);
        old_parent = λ x h. adopt-off j x t (not_child i j x t child h);
        woken_init = λ x lo hi c s.
            (let e : x ≡ j = omega arith in absurd (not_both _ z (is_zombie_of _ (rw e at s))));
      },
    )
  ]
]

pub is_child-kept : (i : ℕ) (p q : Proc) → q.parent ≡ p.parent → is_child i q ≡ is_child i p
is_child-kept i p q e = rw e refl

-- A process that was a zombie still is one.
pub zombie-kept : (p q : Proc) → Same p q → p.state ≡ zombie → q.state ≡ zombie
zombie-kept p q s z = states p.state q.state s.state z
  where
    states :
        (p q : ProcState) → (q ≡ p) ⊎ ((p ≡ sleeping) × (q ≡ runnable)) → p ≡ zombie → q ≡ zombie
    states p q (inl e) z = e ∙ z
    states p q (inr (a, b)) z = cc

Adopted-first :
    (i j end : ℕ) (t u v : ProcTable)
    → j < end
    → Adopted i j (j + 1) t u
    → Adopted i (j + 1) end u v
    → Adopted i j end t v
Adopted-first i j end t u v h a b = record {
  passed = Passed-trans t u v a.passed b.passed;
  new_parent = λ x lo hi c. elim (dec_lt j x) [
    | yes p ↦ b.new_parent x (omega arith) hi (later x p ∙ c) ∙ ap some a.passed.init_proc
    | no p ↦ b.old_parent x (inl (omega arith)) ∙ a.new_parent x lo (omega arith) c
  ];
  old_parent = λ x o. elim (dec_lt j x) [
    | yes p ↦ b.old_parent x (rest x p o) ∙ a.old_parent x (inr (inl (omega arith)))
    | no p ↦ b.old_parent x (inl (omega arith)) ∙ a.old_parent x (first x (omega arith) o)
  ];
  woken_init = λ x lo hi c z. elim (dec_lt j x) [
    | yes p ↦ rw a.passed.init_proc at (
        b.woken_init x (omega arith) hi (later x p ∙ c)
          (zombie-kept (t.procs x) (u.procs x) (a.passed.same x) z))
    | no p ↦ Quiet-kept (of_proc t.init_proc) u v b.passed (a.woken_init x lo (omega arith) c z)
  ];
}
  where
    later : (x : ℕ) → j < x → is_child i (u.procs x) ≡ is_child i (t.procs x)
    later x p = is_child-kept i (t.procs x) (u.procs x) (a.old_parent x (inr (inl (omega arith))))

    rest :
        (x : ℕ)
        → j < x
        → (x < j) ⊎ (end ≤ x) ⊎ (is_child i (t.procs x) ≡ false)
        → (x < j + 1) ⊎ (end ≤ x) ⊎ (is_child i (u.procs x) ≡ false)
    rest x p (inl q) = inl (omega arith)
    rest x p (inr (inl q)) = inr (inl q)
    rest x p (inr (inr q)) = inr (inr (later x p ∙ q))

    first :
        (x : ℕ)
        → x ≤ j
        → (x < j) ⊎ (end ≤ x) ⊎ (is_child i (t.procs x) ≡ false)
        → (x < j) ⊎ (j + 1 ≤ x) ⊎ (is_child i (t.procs x) ≡ false)
    first x p (inl q) = inl q
    first x p (inr (inl q)) = inr (inl (omega arith))
    first x p (inr (inr q)) = inr (inr q)

pub pass_children_lem :
    (i n j end : ℕ) (t : ProcTable)
    → j + n ≡ end
    → (t' : ProcTable) × (pass_children i n j t ≡ ok t') × Adopted i j end t t'
unfolding pass_children
pass_children_lem i zero j end t e = (
  t,
  refl,
  record {
    passed = Passed-refl t;
    new_parent = λ x lo hi c. absurd (omega arith);
    old_parent = λ x h. refl;
    woken_init = λ x lo hi c z. absurd (omega arith);
  },
)
pass_children_lem i (suc n) j end t e =
    let (u, run, one) = pass_child_lem i j t in
    let (v, more, all) = pass_children_lem i n (j + 1) end u (omega arith) in
    (v, rw run more, Adopted-first i j end t u v (omega arith) one all)
