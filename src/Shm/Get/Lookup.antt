-- ===== src/Shm/Get/Lookup.antt =====
-- The key lookup of shmgetHelper(), and the calls that only look a segment up.
use shared_memory.Prelude.{
  ℕ, zero, suc, ◌+◌, ◌≤◌, ◌<◌, ◌≡◌, ◌≢◌, ◌⊎◌, inl, inr, refl, ap, ◌∙◌, true, Option, none, some,
  arith, bit_or, lt→ltb, ◌==◌, ℤ, pos, negsuc, minus_one, ◌==ℤ◌, rounds, Outcome, ok, Bool-cases,
  if◌then◌else◌,
}
use native.Mathlib.Decide.{dec_lt}
use shared_memory.Layout.{shm_max_seg}
use shared_memory.Shm.Table.{ShmidDs, Kernel, eexist, enoent, ipc_creat, ipc_excl}
use shared_memory.Shm.Alloc.{alloc_shm_seg}
use shared_memory.Shm.Alloc.Cases.{IsReady}
use shared_memory.Shm.Get.{
  find_loop, find_key, get_exclusive, get_creating, get_existing, effective_key, shmget_helper,
}

abbrev pub HasKey : (ℕ → ShmidDs) → ℤ → ℕ → Type 0
HasKey segs key j = ((segs j).shm_perm.key ==ℤ key) ≡ true

-- The first of the slots below `n` that has the key, or none if no such slot has it.
abbrev pub FirstKey : (ℕ → ShmidDs) → ℤ → ℕ → Option ℕ → Type 0
FirstKey segs key n none = (j : ℕ) → j < n → ¬ HasKey segs key j
FirstKey segs key n (some r) = (r < n) × HasKey segs key r × ((j : ℕ) → j < r → ¬ HasKey segs key j)

module _ (segs : ℕ → ShmidDs) (key : ℤ) where
  find_loop_lem :
      (n i end : ℕ)
      → i + n ≡ end
      → end ≤ shm_max_seg
      → ((j : ℕ) → j < i → ¬ HasKey segs key j)
      → (r : Option ℕ) × (find_loop segs key n i ≡ ok r) × FirstKey segs key end r
  unfolding find_loop
  find_loop_lem zero i end e b before = (none, refl, λ j h. before j (omega arith))
  find_loop_lem (suc n) i end e b before = elim (Bool-cases ((segs i).shm_perm.key ==ℤ key)) [
    | inl hit ↦
        (some i, rw (lt→ltb i shm_max_seg (omega arith), hit) refl, (omega arith, hit, before))
    | inr miss ↦
        rw (lt→ltb i shm_max_seg (omega arith), miss)
          (find_loop_lem n (i + 1) end (omega arith) b λ j h has. elim (dec_lt j i) [
            | yes p ↦ before j p has
            | no p ↦
                (let at : j ≡ i = omega arith in
                  cc (ap (λ (x : ℕ). (segs x).shm_perm.key ==ℤ key) at))
          ])
  ]

  -- The lookup over the slots in use stays within the table and returns the first one with the key.
  pub find_key_lem :
      (n : ℕ)
      → n ≤ shm_max_seg
      → (r : Option ℕ) × (find_key segs key n ≡ ok r) × FirstKey segs key n r
  unfolding find_key
  find_key_lem n b = find_loop_lem n 0 n (omega arith) b (λ j h. absurd (omega arith))

  FirstKey-unique : (n : ℕ) (r s : Option ℕ) → FirstKey segs key n r → FirstKey segs key n s → r ≡ s
  FirstKey-unique n none none f g = refl
  FirstKey-unique n none (some s) f g = absurd (f s g.0 g.1)
  FirstKey-unique n (some r) none f g = absurd (g r f.0 f.1)
  FirstKey-unique n (some r) (some s) f g = elim (dec_lt r s) [
    | yes p ↦ absurd (g.2 r p f.1)
    | no p ↦ elim (dec_lt s r) [ yes q ↦ absurd (f.2 s q g.1) | no q ↦ ap some (omega arith) ]
  ]

  pub find_key_of_FirstKey :
      (n : ℕ) (r : Option ℕ) → n ≤ shm_max_seg → FirstKey segs key n r → find_key segs key n ≡ ok r
  find_key_of_FirstKey n r b f =
      let (s, run, g) = find_key_lem n b in run ∙ ap ok (FirstKey-unique n s r g f)

-- The branch that shmgetHelper() takes once the key has been looked up.
abbrev pub dispatch : Option ℕ → ℤ → ℕ → ℕ → Kernel → Outcome (ℤ × Kernel)
dispatch found key size flag k =
    if flag == bit_or ipc_creat ipc_excl
    then get_exclusive found key size flag k
    else if flag == ipc_creat
    then get_creating found key size flag k
    else get_existing found k

-- The test for an empty table changes nothing: the lookup of no slots finds none.
lookup_guard :
    (segs : ℕ → ShmidDs) (key l : ℤ)
    → (if l ==ℤ minus_one then ok none else find_key segs key (rounds l))
      ≡ find_key segs key (rounds l)
unfolding find_key find_loop
lookup_guard segs key (pos n) = refl
lookup_guard segs key (negsuc zero) = refl
lookup_guard segs key (negsuc (suc n)) = ground arith

-- With the first slot of the key known, shmgetHelper() is its dispatch on the flag.
pub shmget_helper-dispatch :
    (key : ℤ) (size flag : ℕ) (k : Kernel) (r : Option ℕ)
    → IsReady k
    → FirstKey k.table.shm_segs (effective_key key k) (rounds k.table.last_shm_seg_index) r
    → shmget_helper key size flag k ≡ dispatch r (effective_key key k) size flag k
unfolding shmget_helper
shmget_helper-dispatch key size flag k r ready f =
    rw
      (lookup_guard k.table.shm_segs (effective_key key k) k.table.last_shm_seg_index
        ∙ find_key_of_FirstKey k.table.shm_segs (effective_key key k) _ r ready.last_in f)
      refl

abbrev pub exclusive : ℕ
exclusive = bit_or ipc_creat ipc_excl

-- shmgetHelper() for a key that some slot has, the first of them being slot `i`. With
-- IPC_CREAT | IPC_EXCL the result is EEXIST. With IPC_CREAT alone it is `i` if the segment is no
-- larger than the size asked for, and otherwise a new segment is allocated. With any other flag it
-- is `i`. Only the allocation changes the kernel.
pub shmget_found :
    (key : ℤ) (size flag i : ℕ) (k : Kernel)
    → IsReady k
    → FirstKey k.table.shm_segs (effective_key key k) (rounds k.table.last_shm_seg_index) (some i)
    → (flag ≡ exclusive → shmget_helper key size flag k ≡ ok (eexist, k))
      × (flag ≡ ipc_creat
          → (k.table.shm_segs i).shm_segsz ≤ size
          → shmget_helper key size flag k ≡ ok (pos i, k))
      × (flag ≡ ipc_creat
          → size < (k.table.shm_segs i).shm_segsz
          → shmget_helper key size flag k ≡ alloc_shm_seg size (effective_key key k) flag k)
      × (flag ≢ exclusive → flag ≢ ipc_creat → shmget_helper key size flag k ≡ ok (pos i, k))
shmget_found key size flag i k ready f =
    let go = shmget_helper-dispatch key size flag k (some i) ready f in
    (
      λ e. go ∙ ground arith,
      λ e h. go ∙ ground arith,
      λ e h. go ∙ ground arith,
      λ e h. go ∙ ground arith,
    )

-- shmgetHelper() for a key that no slot has: with IPC_CREAT, alone or with IPC_EXCL, a new segment
-- is allocated under the key; with any other flag the result is ENOENT and nothing changes.
pub shmget_missing :
    (key : ℤ) (size flag : ℕ) (k : Kernel)
    → IsReady k
    → FirstKey k.table.shm_segs (effective_key key k) (rounds k.table.last_shm_seg_index) none
    → ((flag ≡ exclusive) ⊎ (flag ≡ ipc_creat)
        → shmget_helper key size flag k ≡ alloc_shm_seg size (effective_key key k) flag k)
      × (flag ≢ exclusive → flag ≢ ipc_creat → shmget_helper key size flag k ≡ ok (enoent, k))
shmget_missing key size flag k ready f =
    let go = shmget_helper-dispatch key size flag k none ready f in
    (λ e. go ∙ ground arith, λ e h. go ∙ ground arith)
