-- ===== src/Sysfile/Descriptors.antt =====
-- Descriptors and references of open files: sys_dup() of sysfile.c, filedup() and fileclose() of file.c.
use shared_memory.Prelude.{
  ℕ, ◌+◌, ◌-◌, ◌≤◌, ◌<◌, ◌≡◌, ◌≢◌, ◌⊎◌, inl, inr, refl, ◌∙◌, fun_ext, true, false, arith, Option,
  none, some, write, write_write, ◌==◌, ==-refl, ltb, pos, minus_one, ok, Bool-cases,
}
use shared_memory.Proc.{scan}
use shared_memory.Proc.Scan.{FirstFrom, scan-FirstFrom}
use shared_memory.File.{FileTable, nothing, set_ref, filedup, fileclose}
use shared_memory.FileIo.{Sys}
use shared_memory.Sysfile.{nofile, argfd, is_none, fdalloc, sys_dup}

write_same {ℓ} : {A : Type ℓ} (a : ℕ → A) (i : ℕ) → write a i (a i) ≡ a
write_same a i = fun_ext λ j. elim (Bool-cases (j == i)) [
  | inl e ↦ (let q : j ≡ i = ground arith in rw (q, ==-refl i) refl)
  | inr e ↦ rw e refl
]

filedup-run :
    (i : ℕ) (t : FileTable)
    → t.lock ≡ false
    → 1 ≤ (t.files i).ref
    → filedup i t ≡ ok (record (set_ref i ((t.files i).ref + 1) t) { lock = false })
unfolding filedup
filedup-run i t k h = (let e : ltb (t.files i).ref 1 ≡ false = ground arith in rw (k, e) refl)

-- fileclose() right after filedup() of a file that is in use: nothing is left to do, and the table is as it
-- was before the two.
pub fileclose-filedup :
    (i : ℕ) (t : FileTable)
    → t.lock ≡ false
    → 1 ≤ (t.files i).ref
    → (t1 : FileTable) × (filedup i t ≡ ok t1) × (fileclose i t1 ≡ ok (nothing, t))
unfolding fileclose
fileclose-filedup i t k h =
    let r = (t.files i).ref in
    let t1 : FileTable = record (set_ref i (r + 1) t) { lock = false } in
    let e1 : ltb (r + 1) 1 ≡ false = ground arith in
    let e2 : ltb 0 (r + 1 - 1) ≡ true = ground arith in
    let e3 : r + 1 - 1 ≡ r = omega arith in
    let back : write (write t.files i (record (t.files i) { ref = r + 1 })) i (t.files i)
        ≡ t.files =
      write_write t.files i (record (t.files i) { ref = r + 1 }) (t.files i)
      ∙ write_same t.files i in
    (t1, filedup-run i t k h, rw (==-refl i, e1, e2, e3, back, k) refl)

-- sys_dup() with a descriptor of a file in use: the lowest free descriptor refers to the file too, which
-- has one more reference; or no descriptor is free, and it returns -1 with nothing changed.
pub sys_dup_lem :
    (s : Sys) (fd0 i : ℕ)
    → argfd 0 s ≡ some (fd0, i)
    → s.files.lock ≡ false
    → 1 ≤ (s.files.files i).ref
    → (((j : ℕ) → j < nofile → s.ofile j ≢ none) × (sys_dup s ≡ ok (minus_one, s)))
      ⊎ ((fd : ℕ) × (fd < nofile)
          × (s.ofile fd ≡ none)
          × ((j : ℕ) → j < fd → s.ofile j ≢ none)
          × (sys_dup s
              ≡ ok (
                pos fd,
                record s {
                  ofile = write s.ofile fd (some i);
                  files = record (set_ref i ((s.files.files i).ref + 1) s.files) { lock = false };
                },
              )))
unfolding sys_dup fdalloc
sys_dup_lem s fd0 i arg k h =
    from (scan (λ fd. is_none (s.ofile fd)) nofile 0) refl
      (scan-FirstFrom (λ fd. is_none (s.ofile fd)) nofile 0 nofile (omega arith))
  where
    taken_fd : (j : ℕ) → is_none (s.ofile j) ≡ false → s.ofile j ≢ none
    taken_fd j f e = (let z = (rw e at f) in cc)

    free_fd : (o : Option ℕ) → is_none o ≡ true → o ≡ none
    free_fd none e = refl
    free_fd (some x) e = absurd (cc)

    from :
        (o : Option ℕ)
        → scan (λ fd. is_none (s.ofile fd)) nofile 0 ≡ o
        → FirstFrom (λ fd. is_none (s.ofile fd)) 0 nofile o
        → (((j : ℕ) → j < nofile → s.ofile j ≢ none) × (sys_dup s ≡ ok (minus_one, s)))
          ⊎ ((fd : ℕ) × (fd < nofile)
              × (s.ofile fd ≡ none)
              × ((j : ℕ) → j < fd → s.ofile j ≢ none)
              × (sys_dup s
                  ≡ ok (
                    pos fd,
                    record s {
                      ofile = write s.ofile fd (some i);
                      files = record (set_ref i ((s.files.files i).ref + 1) s.files) {
                        lock = false;
                      };
                    },
                  )))
    from none e f =
        inl ((λ j p. taken_fd j (f j (omega arith) p)), rw (sys_dup, arg, fdalloc, e) refl)
    from (some fd) e f = inr (
      fd,
      f.1,
      free_fd (s.ofile fd) f.2,
      (λ j p. taken_fd j (f.3 j (omega arith) p)),
      rw (sys_dup, arg, fdalloc, e, filedup-run i s.files k h) refl,
    )
