-- ===== src/Syscall.antt =====
-- syscall.c: how the kernel fetches the arguments of a system call; sysfile.c: the handlers of the
-- shared memory calls.
pub mod Bounds
pub mod Dispatch
use shared_memory.Prelude.{
  ℕ, zero, suc, ◌+◌, ◌-◌, ◌*◌, ◌%◌, ◌||◌, Option, none, some, ltb, leb, ◌==◌, if◌then◌else◌, ℤ, pos,
  minus_one, ◌<ℤ◌, Outcome, ok, ◌>>=◌,
}
use shared_memory.Layout.{word}
use shared_memory.Shm.Table.{ShmidDs, Kernel, to_int, to_uint}
use shared_memory.Shm.Get.{shmget_helper}
use shared_memory.Shm.Attach.{shmat_helper}
use shared_memory.Shm.Detach.{shmdt_helper}
use shared_memory.Shm.Control.{shmctl_helper}
use shared_memory.Shm.Remove.{removeshm_helper}

-- The user side of the calling process: `sz`, the saved stack pointer `tf->esp`, and its memory.
pub record User : Type 0 where
  pub sz : ℕ
  pub esp : ℕ
  pub mem : ℕ → ℕ

-- *(int*)a, as a word
abbrev pub read_word : (ℕ → ℕ) → ℕ → ℕ
read_word m a = m a + 256 * m (a + 1) + 65536 * m (a + 2) + 16777216 * m (a + 3)

-- fetchint(addr, ip): the word, or none for -1
unfoldable pub fetchint : ℕ → User → Option ℕ
fetchint addr u =
    if leb u.sz addr || ltb u.sz ((addr + 4) % word) then none else some (read_word u.mem addr)

-- The loop of fetchstr() with `n` bytes to `ep` and `len` behind it.
pub str_loop : ℕ → ℕ → (ℕ → ℕ) → ℕ → Option ℕ
str_loop zero s m len = none
str_loop (suc n) s m len =
    let rest = str_loop n (s + 1) m (len + 1) in if m s == 0 then some len else rest

-- fetchstr(addr, pp): the length of the string, or none for -1
unfoldable pub fetchstr : ℕ → User → Option ℕ
fetchstr addr u = if leb u.sz addr then none else str_loop (u.sz - addr) addr u.mem 0

-- argint(n, ip)
unfoldable pub argint : ℕ → User → Option ℕ
argint n u = fetchint ((u.esp + 4 + 4 * n) % word) u

abbrev pub check_ptr : ℤ → User → Option ℕ → Option ℕ
check_ptr size u none = none
check_ptr size u (some i) =
    if size <ℤ pos 0 || leb u.sz i || ltb u.sz ((i + to_uint size) % word) then none else some i

-- argptr(n, pp, size)
unfoldable pub argptr : ℕ → ℤ → User → Option ℕ
argptr n size u = check_ptr size u (argint n u)

abbrev str_at : User → Option ℕ → Option (ℕ × ℕ)
str_at u none = none
str_at u (some addr) = elim (fetchstr addr u) [ none ↦ none | some len ↦ some (addr, len) ]

-- argstr(n, pp): the address and the length
unfoldable pub argstr : ℕ → User → Option (ℕ × ℕ)
argstr n u = str_at u (argint n u)

-- sys_shmget()
unfoldable pub sys_shmget : User → Kernel → Outcome (ℤ × Kernel)
sys_shmget u k = elim (argint 0 u) [
  | none ↦ ok (minus_one, k)
  | some key ↦ elim (argint 1 u) [
    | none ↦ ok (minus_one, k)
    | some size ↦ elim (argint 2 u) [
      | none ↦ ok (minus_one, k)
      | some flag ↦ shmget_helper (to_int key) size flag k
    ]
  ]
]

-- sys_shmat(): its own errors are small positive addresses.
unfoldable pub sys_shmat : User → Kernel → Outcome (ℕ × Kernel)
sys_shmat u k = elim (argint 0 u) [
  | none ↦ ok (101, k)
  | some id ↦ elim (argint 1 u) [
    | none ↦ ok (102, k)
    | some addr ↦ elim (argint 2 u) [
      | none ↦ ok (103, k)
      | some flag ↦ shmat_helper (record { shmid = to_int id; shmaddr = addr; shmflag = flag }) k
    ]
  ]
]

-- sys_shmdt()
unfoldable pub sys_shmdt : User → Kernel → Outcome (ℤ × Kernel)
sys_shmdt u k = elim (argint 0 u) [ none ↦ ok (minus_one, k) | some addr ↦ shmdt_helper addr k ]

-- sizeof(struct shmid_ds *), which sys_shmctl() checks, and sizeof(struct shmid_ds)
abbrev pub pointer_size : ℕ
pointer_size = 4

abbrev pub shmid_ds_size : ℕ
shmid_ds_size = 40

-- The result of sys_shmctl(), the address of the buffer and its content afterwards.
abbrev pub Stored : Type 0
Stored = ℤ × Option (ℕ × ShmidDs) × Kernel

abbrev pub control : (ℕ → ShmidDs) → ℕ → ℕ → ℕ → Kernel → Outcome Stored
control buf_at id cmd buf k = do
  (r, b, k) ← shmctl_helper (to_int id) cmd (buf_at buf) k
  ok (r, some (buf, b), k)

-- sys_shmctl(): `buf_at` is the structure that the memory holds at an address.
unfoldable pub sys_shmctl : (ℕ → ShmidDs) → User → Kernel → Outcome Stored
sys_shmctl buf_at u k = elim (argint 0 u) [
  | none ↦ ok (minus_one, none, k)
  | some id ↦ elim (argint 1 u) [
    | none ↦ ok (minus_one, none, k)
    | some cmd ↦ elim (argptr 2 (pos pointer_size) u) [
      | none ↦ ok (minus_one, none, k)
      | some buf ↦ control buf_at id cmd buf k
    ]
  ]
]

-- sys_removeshm()
unfoldable pub sys_removeshm : User → Kernel → Outcome (ℤ × Kernel)
sys_removeshm u k = elim (argint 0 u) [
  | none ↦ ok (minus_one, k)
  | some id ↦ elim (argint 1 u) [
    | none ↦ ok (minus_one, k)
    | some flag ↦ removeshm_helper (to_int id) flag k
  ]
]
