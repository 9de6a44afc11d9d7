-- ===== src/Syscall/Dispatch.antt =====
-- syscall.c and syscall.h: the table of the system calls.
use shared_memory.Prelude.{
  ℕ, ◌≡◌, ◌≢◌, ◌⊎◌, inl, inr, refl, true, ◌&&◌, Option, none, some, List, [], ◌∷◌, ltb, ◌==◌,
  if◌then◌else◌, ℤ, minus_one, Outcome, ok, arith, Bool-cases,
}

-- The handlers of the table
pub data Call : Type 0 where
  call_fork call_exit call_wait call_pipe call_read call_kill call_exec call_fstat call_chdir
        call_dup call_getpid call_sbrk call_sleep call_uptime call_open call_write call_mknod
        call_unlink call_link call_mkdir call_close call_shmget call_shmat call_shmdt call_shmctl
        call_shminfo call_removeshm :
      Call

-- The numbers of syscall.h
pub number : Call → ℕ
number call_fork = 1
number call_exit = 2
number call_wait = 3
number call_pipe = 4
number call_read = 5
number call_kill = 6
number call_exec = 7
number call_fstat = 8
number call_chdir = 9
number call_dup = 10
number call_getpid = 11
number call_sbrk = 12
number call_sleep = 13
number call_uptime = 14
number call_open = 15
number call_write = 16
number call_mknod = 17
number call_unlink = 18
number call_link = 19
number call_mkdir = 20
number call_close = 21
number call_shmget = 22
number call_shmat = 23
number call_shmdt = 24
number call_shmctl = 25
number call_shminfo = 26
number call_removeshm = 27

-- `syscalls`, by the numbers of its entries
abbrev pub syscalls : List (ℕ × Call)
syscalls =
    (1, call_fork)
    ∷ (2, call_exit)
    ∷ (3, call_wait)
    ∷ (4, call_pipe)
    ∷ (5, call_read)
    ∷ (6, call_kill)
    ∷ (7, call_exec)
    ∷ (8, call_fstat)
    ∷ (9, call_chdir)
    ∷ (10, call_dup)
    ∷ (11, call_getpid)
    ∷ (12, call_sbrk)
    ∷ (13, call_sleep)
    ∷ (14, call_uptime)
    ∷ (15, call_open)
    ∷ (16, call_write)
    ∷ (17, call_mknod)
    ∷ (18, call_unlink)
    ∷ (19, call_link)
    ∷ (20, call_mkdir)
    ∷ (21, call_close)
    ∷ (22, call_shmget)
    ∷ (23, call_shmat)
    ∷ (24, call_shmdt)
    ∷ (25, call_shmctl)
    ∷ (26, call_shminfo)
    ∷ (27, call_removeshm)
    ∷ []

-- An element of an array with such entries, or none for 0
pub entry : ℕ → List (ℕ × Call) → Option Call
entry n [] = none
entry n ((k, c) ∷ es) = let rest = entry n es in if n == k then some c else rest

-- NELEM(syscalls)
abbrev pub nelem : ℕ
nelem = 28

module _ {S : Type 0} (run : Call → S → Outcome (ℤ × S)) where
  abbrev pub call_entry : Option Call → S → Outcome (ℤ × S)
  call_entry none s = ok (minus_one, s)
  call_entry (some c) s = run c s

  -- syscall(), but for the message on an unknown call: what it puts into eax. As an int, a number from
  -- 2 ^ 31 on is negative.
  unfoldable pub syscall : ℕ → S → Outcome (ℤ × S)
  syscall num s =
      if ltb 0 num && ltb num nelem then call_entry (entry num syscalls) s else ok (minus_one, s)

abbrev Numbered : List (ℕ × Call) → Type 0
Numbered [] = Unit {0}
Numbered ((k, c) ∷ es) = (number c ≡ k) × Numbered es

syscalls-Numbered : Numbered syscalls
unfolding number
syscalls-Numbered = (
  refl,
  (
    refl,
    (
      refl,
      (
        refl,
        (
          refl,
          (
            refl,
            (
              refl,
              (
                refl,
                (
                  refl,
                  (
                    refl,
                    (
                      refl,
                      (
                        refl,
                        (
                          refl,
                          (
                            refl,
                            (
                              refl,
                              (
                                refl,
                                (
                                  refl,
                                  (
                                    refl,
                                    (
                                      refl,
                                      (
                                        refl,
                                        (refl, (refl, (refl, (refl, (refl, (refl, (refl, tt))))))),
                                      ),
                                    ),
                                  ),
                                ),
                              ),
                            ),
                          ),
                        ),
                      ),
                    ),
                  ),
                ),
              ),
            ),
          ),
        ),
      ),
    ),
  ),
)

entry-Numbered :
    (n : ℕ) (c : Call) (es : List (ℕ × Call)) → Numbered es → entry n es ≡ some c → number c ≡ n
unfolding entry
entry-Numbered n c [] h e = absurd (cc)
entry-Numbered n c ((k, d) ∷ es) (h, hs) e = elim (Bool-cases (n == k)) [
  | inl y ↦ (let z = (rw y at e) in let q : n ≡ k = ground arith in cc)
  | inr y ↦ entry-Numbered n c es hs (rw y at e)
]

entry-number : (c : Call) → entry (number c) syscalls ≡ some c
unfolding entry number
entry-number call_fork = refl
entry-number call_exit = refl
entry-number call_wait = refl
entry-number call_pipe = refl
entry-number call_read = refl
entry-number call_kill = refl
entry-number call_exec = refl
entry-number call_fstat = refl
entry-number call_chdir = refl
entry-number call_dup = refl
entry-number call_getpid = refl
entry-number call_sbrk = refl
entry-number call_sleep = refl
entry-number call_uptime = refl
entry-number call_open = refl
entry-number call_write = refl
entry-number call_mknod = refl
entry-number call_unlink = refl
entry-number call_link = refl
entry-number call_mkdir = refl
entry-number call_close = refl
entry-number call_shmget = refl
entry-number call_shmat = refl
entry-number call_shmdt = refl
entry-number call_shmctl = refl
entry-number call_shminfo = refl
entry-number call_removeshm = refl

number-bounds : (c : Call) → ltb 0 (number c) && ltb (number c) nelem ≡ true
unfolding number
number-bounds call_fork = refl
number-bounds call_exit = refl
number-bounds call_wait = refl
number-bounds call_pipe = refl
number-bounds call_read = refl
number-bounds call_kill = refl
number-bounds call_exec = refl
number-bounds call_fstat = refl
number-bounds call_chdir = refl
number-bounds call_dup = refl
number-bounds call_getpid = refl
number-bounds call_sbrk = refl
number-bounds call_sleep = refl
number-bounds call_uptime = refl
number-bounds call_open = refl
number-bounds call_write = refl
number-bounds call_mknod = refl
number-bounds call_unlink = refl
number-bounds call_link = refl
number-bounds call_mkdir = refl
number-bounds call_close = refl
number-bounds call_shmget = refl
number-bounds call_shmat = refl
number-bounds call_shmdt = refl
number-bounds call_shmctl = refl
number-bounds call_shminfo = refl
number-bounds call_removeshm = refl

-- syscall() runs the handler that has the number in syscall.h; a number that no handler has gives -1 and
-- changes nothing.
pub syscall_lem :
    {S : Type 0} (run : Call → S → Outcome (ℤ × S)) (num : ℕ) (s : S)
    → ((c : Call) × (number c ≡ num) × (syscall run num s ≡ run c s))
      ⊎ (((c : Call) → number c ≢ num) × (syscall run num s ≡ ok (minus_one, s)))
unfolding syscall
syscall_lem run num s = from (entry num syscalls) refl
  where
    from :
        (o : Option Call)
        → entry num syscalls ≡ o
        → ((c : Call) × (number c ≡ num) × (syscall run num s ≡ run c s))
          ⊎ (((c : Call) → number c ≢ num) × (syscall run num s ≡ ok (minus_one, s)))
    from (some c) e =
        let at = entry-Numbered num c syscalls syscalls-Numbered e in
        let b = (rw at at (number-bounds c)) in inl (c, at, rw (syscall, b, e) refl)
    from none e = inr ((λ c at. (let z = (rw at at (entry-number c)) in cc)), unknown)
      where
        unknown : syscall run num s ≡ ok (minus_one, s)
        unknown = elim (Bool-cases (ltb 0 num && ltb num nelem)) [
          | inl b ↦ rw (syscall, b, e) refl
          | inr b ↦ rw (syscall, b) refl
        ]
