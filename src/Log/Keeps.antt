-- ===== src/Log/Keeps.antt =====
-- The steps of begin_op(), log_write(), end_op() and commit() of log.c keep its reservations.
use shared_memory.Prelude.{
  ℕ, suc, ◌+◌, ◌*◌, ◌≤◌, ◌<◌, ◌≡◌, inl, inr, sym, ◌∙◌, ap, refl, Bool, true, false, List, [], ◌∷◌,
  ◌++◌, length, length-append, All, pos, ok, arith, Bool-cases, ◌==◌,
}
use shared_memory.Proc.{ProcTable}
use shared_memory.Log.{
  Store, Log, clear_log, max_op_blocks, log_size, is_short, log_write, end_count, commit,
}
use shared_memory.Log.Space.{log_slot, put_block-count, put_block-DistinctBlocks}
use shared_memory.Log.Steps.{
  Phase, idle, to_commit, committed, phase_after, System, sum, Fits, Reserved,
}
use shared_memory.Log.Reserve.{Round, log_write-put, Ended, end_count-Ended}

pub sum-append : (xs ys : List ℕ) → sum (xs ++ ys) ≡ sum xs + sum ys
sum-append [] ys = omega arith
sum-append (x ∷ xs) ys = omega (arith, sum-append xs ys)

sum-bound : (xs : List ℕ) → All (λ r. r ≤ max_op_blocks) xs → sum xs ≤ length xs * max_op_blocks
sum-bound [] h = omega arith
sum-bound (x ∷ xs) h = omega (arith, h.0, sum-bound xs h.1)

All-drop :
    (xs ys : List ℕ) (r : ℕ)
    → All (λ r. r ≤ max_op_blocks) (xs ++ (r ∷ ys))
    → All (λ r. r ≤ max_op_blocks) (xs ++ ys)
All-drop [] ys r h = h.1
All-drop (x ∷ xs) ys r h = (h.0, All-drop xs ys r h.1)

All-less :
    (xs ys : List ℕ) (r : ℕ)
    → All (λ r. r ≤ max_op_blocks) (xs ++ (suc r ∷ ys))
    → All (λ r. r ≤ max_op_blocks) (xs ++ (r ∷ ys))
All-less [] ys r h = (omega (arith, h.0), h.1)
All-less (x ∷ xs) ys r h = (h.0, All-less xs ys r h.1)

not_short : (n o : ℕ) → is_short n (pos o) ≡ false → n + (o + 1) * max_op_blocks ≤ log_size
unfolding is_short
not_short n o h = ground arith

length-middle : (xs ys : List ℕ) (r : ℕ) → length (xs ++ (r ∷ ys)) ≡ suc (length (xs ++ ys))
length-middle xs ys r = omega (arith, length-append xs (r ∷ ys), length-append xs ys)

not_empty : (xs ys : List ℕ) (r : ℕ) → xs ++ (r ∷ ys) ≡ [] → ⊥
not_empty xs ys r e = let z = length-middle xs ys r in let q = ap length e in omega arith

-- While a system call is in a transaction, no commit is under way.
active-idle :
    (p : Phase) (l : Log) (left xs ys : List ℕ) (r : ℕ)
    → left ≡ xs ++ (r ∷ ys)
    → Fits p l left
    → (p ≡ idle) × (l.committing ≡ false)
active-idle idle l left xs ys r e f = (refl, f.0)
active-idle to_commit l left xs ys r e f = absurd (not_empty xs ys r (sym e ∙ f.1))
active-idle committed l left xs ys r e f = absurd (not_empty xs ys r (sym e ∙ f.1))

idle-Fits : (p : Phase) (l : Log) (left : List ℕ) → l.committing ≡ false → Fits p l left → p ≡ idle
idle-Fits idle l left h f = refl
idle-Fits to_commit l left h f = absurd (let e = f.0 in cc)
idle-Fits committed l left h f = absurd (let e = f.0 in cc)

-- begin_op() that returns
pub begun :
    (x : System) (l : Log) (t : ProcTable)
    → Round true x.log l
    → Reserved x
    → Reserved (record x { log = l; procs = t; left = max_op_blocks ∷ x.left })
begun x l t (quiet, room, e) v =
    let p = idle-Fits x.phase x.log x.left quiet v.fits in
    let b = sum-bound x.left v.each in
    let n = not_short x.log.lh_n (length x.left) (rw v.count at room) in
    record {
      free = rw e refl;
      count = rw (e, v.count) (ground arith);
      each = (omega arith, v.each);
      space = rw e (omega arith);
      fits = rw (e, p) (quiet, λ q. absurd (cc));
      distinct = rw e v.distinct;
    }

-- begin_op() that sleeps
pub slept :
    (x : System) (l : Log) (t : ProcTable)
    → Round false x.log l
    → Reserved x
    → Reserved (record x { log = l; procs = t })
slept x l t e v = record {
  free = rw e refl;
  count = rw e v.count;
  each = v.each;
  space = rw e v.space;
  fits = rw e (same x.phase x.left v.fits);
  distinct = rw e v.distinct;
}
  where
    same :
        (p : Phase) (left : List ℕ)
        → Fits p x.log left
        → Fits p (record x.log { lock = false }) left
    same idle left f = f
    same to_commit left f = f
    same committed left f = f

-- A system call in a transaction: the count of the log is not 0.
pub active-count :
    (x : System) (xs ys : List ℕ) (r : ℕ)
    → x.left ≡ xs ++ (r ∷ ys)
    → Reserved x
    → x.log.outstanding ≡ pos (suc (length (xs ++ ys)))
active-count x xs ys r e v = v.count ∙ ap pos (ap length e ∙ length-middle xs ys r)

pub wrote :
    (x : System) (xs ys : List ℕ) (r b : ℕ) (l : Log) (s : Store)
    → x.left ≡ xs ++ (suc r ∷ ys)
    → log_write b x.log x.store ≡ ok (l, s)
    → Reserved x
    → Reserved (record x { log = l; store = s; left = xs ++ (r ∷ ys) })
wrote x xs ys r b l s e run v =
    let c = active-count x xs ys (suc r) e v in
    let (room, q) = log_write-put b x.log x.store (length (xs ++ ys)) l s c v.free run in
    let (p, quiet) = active-idle x.phase x.log x.left xs ys (suc r) e v.fits in
    let s1 = sum-append xs (suc r ∷ ys) in
    let s2 = sum-append xs (r ∷ ys) in
    let space : x.log.lh_n + sum (xs ++ (suc r ∷ ys)) ≤ log_size = (rw e at v.space) in
    record {
      free = rw q v.free;
      count = rw q (c ∙ ap pos (sym (length-middle xs ys r)));
      each = All-less xs ys r (rw e at v.each);
      space = rw q (elim (put_block-count b x.log) [ inl h ↦ omega arith | inr h ↦ omega arith ]);
      fits = rw (q, p) (quiet, λ z. absurd (not_empty xs ys r z));
      distinct = rw q (put_block-DistinctBlocks b x.log v.distinct);
    }

pub rewrote :
    (x : System) (xs ys : List ℕ) (r b : ℕ) (l : Log) (s : Store)
    → x.left ≡ xs ++ (r ∷ ys)
    → log_slot b x.log < x.log.lh_n
    → log_write b x.log x.store ≡ ok (l, s)
    → Reserved x
    → Reserved (record x { log = l; store = s })
rewrote x xs ys r b l s e old run v =
    let c = active-count x xs ys r e v in
    let (room, q) = log_write-put b x.log x.store (length (xs ++ ys)) l s c v.free run in
    let (p, quiet) = active-idle x.phase x.log x.left xs ys r e v.fits in
    let n : (log_slot b x.log == x.log.lh_n) ≡ false = ground arith in
    record {
      free = rw q v.free;
      count = rw q v.count;
      each = v.each;
      space = rw (q, n) v.space;
      fits = rw (q, p) (quiet, λ z. absurd (not_empty xs ys r (sym e ∙ z)));
      distinct = rw q (put_block-DistinctBlocks b x.log v.distinct);
    }

empty_of_length : (xs : List ℕ) → length xs ≡ 0 → xs ≡ []
empty_of_length [] e = refl
empty_of_length (x ∷ xs) e = absurd (omega arith)

-- end_op() of the last system call, and of another one
pub ended :
    (a : ℕ) (x : System) (xs ys : List ℕ) (r : ℕ) (flag : Bool) (l : Log) (t : ProcTable)
    → x.left ≡ xs ++ (r ∷ ys)
    → end_count a x.log x.procs ≡ ok (flag, l, t)
    → Reserved x
    → Reserved (record x { log = l; procs = t; left = xs ++ ys; phase = phase_after flag x.phase })
ended a x xs ys r flag l t e run v =
    let c = active-count x xs ys r e v in
    let quiet = (active-idle x.phase x.log x.left xs ys r e v.fits).1 in
    close flag (end_count-Ended a flag (length (xs ++ ys)) x.log x.procs l t c v.free quiet run)
  where
    was_idle : x.phase ≡ idle
    was_idle = (active-idle x.phase x.log x.left xs ys r e v.fits).0

    rest_fits : x.log.lh_n + sum (xs ++ ys) ≤ log_size
    rest_fits =
        let space : x.log.lh_n + sum (xs ++ (r ∷ ys)) ≤ log_size = (rw e at v.space) in
        omega (arith, sum-append xs (r ∷ ys), sum-append xs ys)

    close :
        (flag : Bool)
        → Ended flag (length (xs ++ ys)) x.log l
        → Reserved
            (record x { log = l; procs = t; left = xs ++ ys; phase = phase_after flag x.phase })
    close true (z, q) = record {
      free = rw q refl;
      count = rw (q, z) refl;
      each = All-drop xs ys r (rw e at v.each);
      space = rw q (rest_fits);
      fits = rw q (refl, empty_of_length (xs ++ ys) z);
      distinct = rw q v.distinct;
    }
    close false (z, q) = record {
      free = rw q refl;
      count = rw q refl;
      each = All-drop xs ys r (rw e at v.each);
      space = rw q (rest_fits);
      fits = rw (q, was_idle) (refl, λ w. absurd (let k = ap length w in omega arith));
      distinct = rw q v.distinct;
    }

commit-clears : (l : Log) (s : Store) → ((commit l s).0.lh_n ≡ 0) × ((commit l s).0 ≡ clear_log l)
unfolding commit
commit-clears l s = elim (Bool-cases (l.lh_n == 0)) [
  | inl h ↦ (let z : l.lh_n ≡ 0 = ground arith in rw h (z, cc))
  | inr h ↦ rw h (refl, refl)
]

pub did_commit :
    (x : System)
    → x.phase ≡ to_commit
    → Reserved x
    → Reserved (record x {
      log = (commit x.log x.store).0;
      store = (commit x.log x.store).1;
      phase = committed;
    })
did_commit x e v =
    let (n, q) = commit-clears x.log x.store in
    let f = (rw e at v.fits) in
    record {
      free = rw q v.free;
      count = rw q v.count;
      each = v.each;
      space = rw (q, f.1) (omega arith);
      fits = rw q (f.0, f.1, refl);
      distinct = rw q (λ i j h g z. absurd (omega arith));
    }

pub finished :
    (x : System) (l : Log) (t : ProcTable)
    → x.phase ≡ committed
    → l ≡ record x.log { committing = false; lock = false }
    → Reserved x
    → Reserved (record x { log = l; procs = t; phase = idle })
finished x l t e q v =
    let f = (rw e at v.fits) in
    record {
      free = rw q refl;
      count = rw q v.count;
      each = v.each;
      space = rw q v.space;
      fits = rw q (refl, λ z. f.2);
      distinct = rw q v.distinct;
    }
