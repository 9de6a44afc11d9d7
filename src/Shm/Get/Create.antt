-- ===== src/Shm/Get/Create.antt =====
-- shmgetHelper() when it creates a segment: what a later lookup of the key finds.
use shared_memory.Prelude.{
  ℕ, ◌+◌, ◌≤◌, ◌<◌, ◌≡◌, ◌≢◌, ◌⊎◌, inl, inr, refl, ◌∙◌, false, some, arith, length, ℤ, pos,
  minus_one, ◌==ℤ◌, ok, bit_and,
}
use native.Mathlib.Decide.{dec_lt}
use shared_memory.Layout.{shm_min, max_seg_size}
use shared_memory.Shm.Table.{Kernel, eexist, enospc, ipc_creat, ipc_private}
use shared_memory.Shm.Alloc.Cases.{IsReady, pages}
use shared_memory.Shm.Get.{shmget_helper}
use shared_memory.Shm.Get.Lookup.{FirstKey, exclusive, shmget_found, shmget_missing}
use shared_memory.Shm.Get.Segment.{
  effective_key_of_ne, not_both, KeyIn, in_use, Created, alloc-Created,
}

-- A key that no slot in use has.
abbrev pub Unused : Kernel → ℤ → Type 0
Unused k key = (j : ℕ) → j < in_use k → ¬ KeyIn k key j

no_flag : (0 ≢ exclusive) × (0 ≢ ipc_creat)
no_flag = omega arith

-- shmget() with IPC_CREAT for an unused key other than IPC_PRIVATE and -1, of an acceptable size
-- and with enough free pages, returns ENOSPC with nothing changed, or the identifier of a new
-- segment; after that a call with no flag, whatever its size, finds this segment and changes
-- nothing, and a call with IPC_CREAT and IPC_EXCL fails.
pub shmget_create-lookup :
    (key : ℤ) (size size' : ℕ) (k : Kernel)
    → (key ==ℤ ipc_private) ≡ false
    → key ≢ minus_one
    → shm_min ≤ size
    → size ≤ max_seg_size
    → IsReady k
    → pages size ≤ length k.kmem.free
    → Unused k key
    → (shmget_helper key size ipc_creat k ≡ ok (enospc, k))
      ⊎ ((i : ℕ) × (k' : Kernel) × (shmget_helper key size ipc_creat k ≡ ok (pos i, k'))
          × (shmget_helper key size' 0 k' ≡ ok (pos i, k'))
          × (shmget_helper key size' exclusive k' ≡ ok (eexist, k')))
shmget_create-lookup key size size' k pub_key ne lo hi ready enough unused =
    let same = effective_key_of_ne key k pub_key in
    let create =
      (shmget_missing key size ipc_creat k ready (rw same unused)).0 (inr refl) ∙ rw same refl in
    elim (alloc-Created size key ipc_creat k lo hi ready enough ne) [
      | inl full ↦ inl (create ∙ full)
      | inr (i, k', run, c) ↦
          let same' = effective_key_of_ne key k' pub_key in
          let first : FirstKey k'.table.shm_segs key (in_use k') (some i) = (
            c.inside,
            c.has_key,
            λ j h has. (let (old, had) = c.before j h has in unused j old had),
          ) in
          let found = λ (flag : ℕ). shmget_found key size' flag i k' c.ready (rw same' first) in
          inr (i, k', create ∙ run, (found 0).3 no_flag.0 no_flag.1, (found exclusive).0 refl)
    ]

-- A slot in use with a key is not one of those of the new segment.
outside_of :
    (k : Kernel) (key : ℤ) (size perm i : ℕ) (k' : Kernel) (j : ℕ)
    → Created k key size perm i k'
    → j < in_use k
    → KeyIn k key j
    → key ≢ minus_one
    → (j < i) ⊎ (i + pages size ≤ j)
outside_of k key size perm i k' j c h has ne = elim (dec_lt j i) [
  | yes p ↦ inl p
  | no p ↦ elim (dec_lt j (i + pages size)) [
    | yes q ↦ elim (c.fresh j (omega arith) q) [
      | inl free ↦ absurd (not_both k.table.shm_segs key j ne has free)
      | inr past ↦ absurd (omega arith)
    ]
    | no q ↦ inr (omega arith)
  ]
]

-- A finding: shmget() with IPC_CREAT for an existing segment that is larger than the size asked
-- for does not return that segment. With enough free pages it returns ENOSPC with nothing changed, or
-- it returns the identifier of a second segment with the same key: the slots of this one were free, or
-- behind the last one, and are filled with fresh pages, and all other slots are as they were, that of
-- the first segment among them.
pub shmget_duplicate :
    (key : ℤ) (size f : ℕ) (k : Kernel)
    → (key ==ℤ ipc_private) ≡ false
    → key ≢ minus_one
    → shm_min ≤ size
    → size ≤ max_seg_size
    → IsReady k
    → pages size ≤ length k.kmem.free
    → FirstKey k.table.shm_segs key (in_use k) (some f)
    → size < (k.table.shm_segs f).shm_segsz
    → (shmget_helper key size ipc_creat k ≡ ok (enospc, k))
      ⊎ ((i : ℕ) × (k' : Kernel) × (shmget_helper key size ipc_creat k ≡ ok (pos i, k'))
          × (f ≢ i)
          × (k'.table.shm_segs f ≡ k.table.shm_segs f)
          × KeyIn k' key i
          × Created k key size (bit_and ipc_creat 3) i k')
shmget_duplicate key size f k pub_key ne lo hi ready enough first larger =
    let same = effective_key_of_ne key k pub_key in
    let create =
      (shmget_found key size ipc_creat f k ready (rw same first)).2 refl larger ∙ rw same refl in
    elim (alloc-Created size key ipc_creat k lo hi ready enough ne) [
      | inl full ↦ inl (create ∙ full)
      | inr (i, k', run, c) ↦
          let (other, has) = c.kept f first.0 first.1 in
          let apart = outside_of k key size _ i k' f c first.0 first.1 ne in
          inr (i, k', create ∙ run, other, c.others f apart, c.has_key, c)
    ]
