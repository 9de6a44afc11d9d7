-- ===== src/Shm/Attach/Address.antt =====
-- shmatHelper() with an address given, the error path of allocshmuvm(), and the address that it maps.
use shared_memory.Prelude.{
  ℕ, suc, ◌*◌, ◌%◌, ◌≤◌, ◌<◌, ◌≡◌, ◌≢◌, ◌⊎◌, inl, inr, refl, ◌∙◌, true, false, none, [], arith,
  lt→ltb, le→ltb, le_refl_leb, ==-ne, ok, fault, panic,
}
use shared_memory.Layout.{page_size, kern_base, heap_limit, shm_max_seg, v2p, pdx}
use shared_memory.Vm.{deallocuvm}
use shared_memory.Vm.Entries.{IsPageAddr}
use shared_memory.Vm.Mapping.{mappages_out_of_memory}
use shared_memory.Shm.Table.{Kernel, einval, enomem, to_uint, shm_rnd, acquire_table}
use shared_memory.Shm.Attach.{
  Request, attach_loop, allocshmuvm, attach_perm, attach_given, shmat_helper, space_of,
  mark_attached,
}
use shared_memory.Shm.Attach.Region.{is_outside-inside, is_outside-outside}
use shared_memory.Shm.Attach.Whole.{request, CanShmat, not_past}

module _ (k : Kernel) (f n addr flag : ℕ) (c : CanShmat k f n) (given : 0 < addr) where
  reaches_given :
      shmat_helper (request f addr flag) k ≡ attach_given (n * page_size) f (request f addr flag) k
  unfolding shmat_helper
  reaches_given =
      rw
        (
          le→ltb 0 f (omega arith),
          not_past f k.table.last_shm_seg_index c.exists,
          lt→ltb f shm_max_seg (omega (arith, c.in_table, c.some_page)),
          c.size,
          ==-ne (n * page_size) 0 (λ e. omega (arith, c.some_page)),
          ==-ne addr 0 (λ e. omega arith),
        )
        refl

  -- shmat() of an existing segment at an address outside the shared memory region, or at one that
  -- is not page-aligned with a flag other than SHM_RND, returns EINVAL and changes nothing.
  pub shmat_refused :
      (addr < heap_limit)
        ⊎ (kern_base ≤ addr)
        ⊎ ((heap_limit ≤ addr) × (addr < kern_base) × (addr % page_size ≢ 0) × (flag ≢ shm_rnd))
      → shmat_helper (request f addr flag) k ≡ ok (to_uint einval, k)
  unfolding attach_given
  shmat_refused (inl low) = reaches_given ∙ rw (is_outside-outside addr (inl low)) refl
  shmat_refused (inr (inl high)) = reaches_given ∙ rw (is_outside-outside addr (inr high)) refl
  shmat_refused (inr (inr (lo, hi, odd, plain))) =
      reaches_given
      ∙ rw (is_outside-inside addr lo hi, ==-ne flag shm_rnd plain, ==-ne (addr % page_size) 0 odd)
          refl

  -- A finding: shmat() of an existing segment at a page-aligned address within the region, with a
  -- flag other than SHM_RND, never attaches: the code leaves `va` at 0, computes a negative entry
  -- from it, and reads the process's entries out of bounds.
  pub shmat_aligned_fault :
      heap_limit ≤ addr
      → addr < kern_base
      → addr % page_size ≡ 0
      → flag ≢ shm_rnd
      → shmat_helper (request f addr flag) k ≡ fault
  unfolding attach_given
  shmat_aligned_fault lo hi aligned plain =
      reaches_given ∙ rw (==-ne flag shm_rnd plain, is_outside-inside addr lo hi, aligned) refl

-- A finding: where the page table of the first page is missing and no page is free, allocshmuvm()
-- returns ENOMEM with the lock of the table still held, so that the next acquire of it panics. The
-- entry of the process is left marked as attached, though nothing is mapped.
pub allocshmuvm_keeps_lock :
    (n first si : ℕ) (q : Request) (k : Kernel)
    → k.table.lock ≡ false
    → k.kmem.locked ≡ false
    → IsPageAddr q.shmaddr
    → first < shm_max_seg
    → si < shm_max_seg
    → k.pgdir (pdx q.shmaddr) ≡ none
    → k.kmem.free ≡ []
    → (k' : Kernel) × (allocshmuvm (suc n) first si q k ≡ ok (to_uint enomem, k'))
      × (acquire_table k'.table ≡ panic)
      × ((k'.shmsegs si).is_attached ≡ true)
      × (k'.pgdir ≡ k.pgdir)
unfolding allocshmuvm attach_loop deallocuvm
allocshmuvm_keeps_lock n first si q k u v a hf hs e f =
    let locked : Kernel = record k { table = record (k.table) { lock = true } } in
    (
      mark_attached si q.shmid locked,
      rw
          (
            u,
            lt→ltb si shm_max_seg hs,
            lt→ltb first shm_max_seg hf,
            mappages_out_of_memory q.shmaddr (v2p (k.table.shm_segs first).pa)
                (attach_perm q.shmflag) (space_of (mark_attached si q.shmid locked)) a v e f,
            le_refl_leb q.shmaddr,
          )
          refl,
      refl,
      ground arith,
      refl,
    )
