-- ===== src/Syscall/Bounds.antt =====
-- syscall.c: an argument that is accepted lies within the memory of the process.
use shared_memory.Prelude.{
  ℕ, ◌+◌, ◌-◌, ◌≤◌, ◌<◌, ◌≡◌, ◌⊎◌, refl, Option, none, some, arith, pos, minus_one, ok,
}
use shared_memory.Layout.{heap_limit}
use shared_memory.Shm.Table.{to_int, ShmidDs, Kernel}
use shared_memory.Shm.Get.{shmget_helper}
use shared_memory.Syscall.{
  User, argint, argptr, check_ptr, pointer_size, shmid_ds_size, sys_shmget, sys_shmctl, control,
}

-- argptr() with a size that an `int` can hold, in a process of at most HEAPLIMIT bytes: it accepts
-- exactly the arguments that can be fetched and whose block lies within the memory of the process;
-- the wrap-around of the sum lets no other through.
pub argptr_lem :
    (n size i : ℕ) (u : User)
    → u.sz ≤ heap_limit
    → size < 2147483648
    → (argptr n (pos size) u ≡ some i → (i < u.sz) × (i + size ≤ u.sz) × (argint n u ≡ some i))
      × (argint n u ≡ some i → i < u.sz → i + size ≤ u.sz → argptr n (pos size) u ≡ some i)
unfolding argptr
argptr_lem n size i u small fits = (go (argint n u), λ e lo hi. rw e (ground arith))
  where
    go :
        (a : Option ℕ)
        → check_ptr (pos size) u a ≡ some i
        → (i < u.sz) × (i + size ≤ u.sz) × (a ≡ some i)
    go none h = cc
    go (some j) h = ground arith

-- A finding: sys_shmctl() checks a pointer's worth of its buffer, and not the structure that the
-- kernel reads and writes there. With three arguments that can be fetched, and the buffer 4 bytes
-- before the end of the memory of a process of at most HEAPLIMIT bytes, the call goes on with this
-- buffer, though the structure reaches past the end.
pub sys_shmctl-past_end :
    (buf_at : ℕ → ShmidDs) (id cmd : ℕ) (u : User) (k : Kernel)
    → 4 ≤ u.sz
    → u.sz ≤ heap_limit
    → argint 0 u ≡ some id
    → argint 1 u ≡ some cmd
    → argint 2 u ≡ some (u.sz - 4)
    → (sys_shmctl buf_at u k ≡ control buf_at id cmd (u.sz - 4) k)
      × (u.sz < u.sz - 4 + shmid_ds_size)
unfolding sys_shmctl
sys_shmctl-past_end buf_at id cmd u k room small a b c =
    let accepted =
      (argptr_lem 2 pointer_size (u.sz - 4) u small (omega arith)).1 c (omega arith)
        (omega arith) in
    (rw (sys_shmctl, a, b, accepted) refl, omega arith)

-- sys_shmget() with three arguments that can be fetched is shmgetHelper() on them, the key signed;
-- if one of them cannot, it returns -1 and changes nothing.
pub sys_shmget_lem :
    (u : User) (k : Kernel)
    → ((key size flag : ℕ)
        → argint 0 u ≡ some key
        → argint 1 u ≡ some size
        → argint 2 u ≡ some flag
        → sys_shmget u k ≡ shmget_helper (to_int key) size flag k)
      × ((argint 0 u ≡ none) ⊎ (argint 1 u ≡ none) ⊎ (argint 2 u ≡ none)
          → sys_shmget u k ≡ ok (minus_one, k))
unfolding sys_shmget
sys_shmget_lem u k = (λ key size flag a b c. rw (sys_shmget, a, b, c) refl, λ h. ground arith)
