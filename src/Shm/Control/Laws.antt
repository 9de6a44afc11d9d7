-- ===== src/Shm/Control/Laws.antt =====
-- shmctlHelper(): its refusals, what each command returns and writes, and how far IPC_SET reaches.
use shared_memory.Prelude.{
  ℕ, ◌+◌, ◌≤◌, ◌<◌, ◌≡◌, ◌≢◌, refl, ◌∙◌, true, false, arith, bit_and, lt→ltb, le→ltb, map_range,
  update_loop-ok, update_loop-past, ℤ, pos, minus_one, ◌==ℤ◌, ◌<ℤ◌, rounds, ok, fault,
}
use shared_memory.Layout.{shm_max_seg}
use shared_memory.Shm.Table.{ShmidDs, Kernel, einval, eidrm, shm_r, pages_of}
use shared_memory.Shm.Attach.Whole.{not_past}
use shared_memory.Shm.Control.{copy_out, copy_in, dest_slot, shmctl_helper, ctl_command}

-- shmctl() of an identifier that is negative or past the last slot returns EINVAL, and of a slot
-- that is in no segment EIDRM, whatever the command. Nothing changes, the buffer included.
pub shmctl_refused :
    (id : ℤ) (f cmd : ℕ) (buf : ShmidDs) (k : Kernel)
    → ((id <ℤ pos 0) ≡ true → shmctl_helper id cmd buf k ≡ ok (einval, buf, k))
      × ((k.table.last_shm_seg_index <ℤ id) ≡ true
          → shmctl_helper id cmd buf k ≡ ok (einval, buf, k))
      × (f < rounds k.table.last_shm_seg_index
          → f < shm_max_seg
          → (k.table.shm_segs f).shm_perm.key ≡ minus_one
          → shmctl_helper (pos f) cmd buf k ≡ ok (eidrm, buf, k))
unfolding shmctl_helper
shmctl_refused id f cmd buf k = (
  λ h. rw h refl,
  λ h. ground arith,
  λ h b e.
      rw
        (
          le→ltb 0 f (omega arith),
          not_past f k.table.last_shm_seg_index h,
          lt→ltb f shm_max_seg b,
          e,
        )
        refl,
)

module _ (f : ℕ) (buf : ShmidDs) (k : Kernel) (used : f < rounds k.table.last_shm_seg_index)
    (inside : f < shm_max_seg)
    (live : ((k.table.shm_segs f).shm_perm.key ==ℤ minus_one) ≡ false) where
  commands : (cmd : ℕ) → shmctl_helper (pos f) cmd buf k ≡ ctl_command f cmd buf k
  unfolding shmctl_helper
  commands cmd =
      rw
        (
          le→ltb 0 f (omega arith),
          not_past f k.table.last_shm_seg_index used,
          lt→ltb f shm_max_seg inside,
          live,
        )
        refl

  -- On a slot of a segment, IPC_STAT copies all fields but the address to the buffer and changes
  -- nothing; IPC_RMID marks the slots of the segment for destruction, and no other.
  pub shmctl_stat_rmid :
      f + pages_of (k.table.shm_segs f) ≤ shm_max_seg
      → (shmctl_helper (pos f) 1 buf k ≡ ok (pos 0, copy_out (k.table.shm_segs f) buf, k))
        × (shmctl_helper (pos f) 3 buf k
            ≡ ok (
              pos 0,
              buf,
              record k {
                table = record (k.table) {
                  shm_segs = map_range dest_slot f (pages_of (k.table.shm_segs f)) k.table.shm_segs;
                };
              },
            ))
  shmctl_stat_rmid fits = (
    commands 1,
    commands 3
        ∙ rw
            (update_loop-ok shm_max_seg dest_slot (pages_of (k.table.shm_segs f)) f k.table.shm_segs
              fits)
            refl,
  )

  -- IPC_SET on a slot of a segment returns -1 and changes nothing if the mode has SHM_R. Else it
  -- copies the buffer to as many slots as the size in the buffer says, which need not be the slots
  -- of the segment: if they lie within the table exactly these slots change and the result is 0, and
  -- if they reach past its end the kernel writes outside the table.
  pub shmctl_set :
      k.table.lock ≡ false
      → ((bit_and (k.table.shm_segs f).shm_perm.mode shm_r ≢ 0
            → shmctl_helper (pos f) 2 buf k ≡ ok (minus_one, buf, k))
          × (bit_and (k.table.shm_segs f).shm_perm.mode shm_r ≡ 0
              → f + pages_of buf ≤ shm_max_seg
              → shmctl_helper (pos f) 2 buf k
                ≡ ok (
                  pos 0,
                  buf,
                  record k {
                    table = record (k.table) {
                      shm_segs = map_range (copy_in buf) f (pages_of buf) k.table.shm_segs;
                    };
                  },
                ))
          × (bit_and (k.table.shm_segs f).shm_perm.mode shm_r ≡ 0
              → shm_max_seg < f + pages_of buf
              → shmctl_helper (pos f) 2 buf k ≡ fault))
  shmctl_set u = (
    λ ne. commands 2 ∙ ground arith,
    λ e fits.
        commands 2
        ∙ rw (e, u, update_loop-ok shm_max_seg (copy_in buf) (pages_of buf) f k.table.shm_segs fits)
            (ground arith),
    λ e past.
        commands 2
        ∙ rw
            (
              e,
              u,
              update_loop-past shm_max_seg (copy_in buf) (pages_of buf) f k.table.shm_segs inside
                  past,
            )
            refl,
  )
