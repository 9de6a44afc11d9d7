-- ===== src/Shm/Detach/Loop.antt =====
-- The loop of shmdtHelper(), which unmaps the pages of a segment and counts the detachment.
use shared_memory.Prelude.{
  ℕ, zero, suc, ◌+◌, ◌≤◌, ◌<◌, ◌≡◌, ◌≢◌, ◌⊎◌, inl, refl, sym, ap, ◌∙◌, false, none, arith, lt→ltb,
  map_range, map_range-suc, map_range-zero, ok,
}
use shared_memory.Layout.{shm_max_seg, pdx}
use shared_memory.Vm.{Pte, PageDir, read_pte}
use shared_memory.Vm.Entries.{IsPageAddr, read_pte-write_pte_self, read_pte-write_pte_ne}
use shared_memory.Vm.Mapping.{without_page, clearmapping_ok, write_pte-there}
use shared_memory.Shm.Table.{AttachedShmseg, Kernel}
use shared_memory.Shm.Attach.{space_of}
use shared_memory.Shm.Attach.Whole.{entry_addr}
use shared_memory.Shm.Detach.{detached_slot, count_detach, detach_loop}

-- The page tables of the `n` entries from `si` on are there.
abbrev pub TablesThere : PageDir → ℕ → ℕ → Type 0
TablesThere dir si n = (j : ℕ) → j < n → dir (pdx (entry_addr (si + j))) ≢ none

abbrev pub detached_entry : AttachedShmseg → AttachedShmseg
detached_entry e = record e { is_attached = false }

-- What the loop leaves behind when it has unmapped `n` pages.
pub record Detached (k : Kernel) (n first si : ℕ) (k' : Kernel) : Type 0 where
  pub segs : k'.table.shm_segs ≡ map_range (detached_slot k.pid k.now) first n k.table.shm_segs
  pub entries : k'.shmsegs ≡ map_range detached_entry si n k.shmsegs
  pub unmapped : (j : ℕ) → j < n → (read_pte k'.pgdir (entry_addr (si + j))).present ≡ false
  pub others :
      (b : ℕ)
      → IsPageAddr b
      → (b < entry_addr si) ⊎ (entry_addr (si + n) ≤ b)
      → read_pte k'.pgdir b ≡ read_pte k.pgdir b
  pub lock_kept : k'.table.lock ≡ k.table.lock
  pub last_kept : k'.table.last_shm_seg_index ≡ k.table.last_shm_seg_index
  pub kmem_kept : k'.kmem ≡ k.kmem
  pub pid_kept : k'.pid ≡ k.pid
  pub now_kept : k'.now ≡ k.now

abbrev after_detach : ℕ → ℕ → Kernel → Kernel
after_detach first si k = record (count_detach first si k) {
  pgdir = without_page k.pgdir (entry_addr si);
}

entry_page : (si n : ℕ) → si + suc n ≤ shm_max_seg → IsPageAddr (entry_addr si)
entry_page si n h = omega arith

detach_step :
    (n first si : ℕ) (k : Kernel)
    → si < shm_max_seg
    → first < shm_max_seg
    → k.pgdir (pdx (entry_addr si)) ≢ none
    → detach_loop (suc n) first si k ≡ detach_loop n (first + 1) (si + 1) (after_detach first si k)
unfolding detach_loop
detach_step n first si k a b there =
    rw
      (
        lt→ltb si shm_max_seg a,
        lt→ltb first shm_max_seg b,
        clearmapping_ok (entry_addr si) (space_of (count_detach first si k)) there,
      )
      refl

pub detach_loop-Detached :
    (n first si : ℕ) (k : Kernel)
    → first + n ≤ shm_max_seg
    → si + n ≤ shm_max_seg
    → TablesThere k.pgdir si n
    → (k' : Kernel) × (detach_loop n first si k ≡ ok k') × Detached k n first si k'
unfolding detach_loop
detach_loop-Detached zero first si k a b there = (
  k,
  refl,
  record {
    segs = sym (map_range-zero (detached_slot k.pid k.now) first k.table.shm_segs);
    entries = sym (map_range-zero detached_entry si k.shmsegs);
    unmapped = λ j h. absurd (omega arith);
    others = λ b p out. refl;
    lock_kept = refl;
    last_kept = refl;
    kmem_kept = refl;
    pid_kept = refl;
    now_kept = refl;
  },
)
detach_loop-Detached (suc n) first si k a b there =
    let here : si + 0 ≡ si = omega arith in
    let first_there : k.pgdir (pdx (entry_addr si)) ≢ none = rw here at (there 0 (omega arith)) in
    let page = entry_page si n b in
    let next = after_detach first si k in
    let next_there : TablesThere next.pgdir (si + 1) n = λ j h.
      (let at : si + 1 + j ≡ si + suc j = omega arith in
        rw at (
          write_pte-there k.pgdir (entry_addr si) (entry_addr (si + suc j)) _
            (there (suc j) (omega arith)))) in
    let (k', run, d) =
      detach_loop-Detached n (first + 1) (si + 1) next (omega arith) (omega arith) next_there in
    (
      k',
      detach_step n first si k (omega arith) (omega arith) first_there ∙ run,
      record {
        segs = d.segs ∙ map_range-suc (detached_slot k.pid k.now) first n k.table.shm_segs;
        entries = d.entries ∙ map_range-suc detached_entry si n k.shmsegs;
        unmapped = elim [
          | zero ↦ λ h. rw here (
              ap (λ (e : Pte). e.present)
                (d.others (entry_addr si) page (inl (omega arith))
                  ∙ read_pte-write_pte_self k.pgdir (entry_addr si) _ first_there))
          | suc j ↦ λ h.
              (let at : si + suc j ≡ si + 1 + j = omega arith in rw at (d.unmapped j (omega arith)))
        ];
        others = λ b p out.
            d.others b p (omega arith)
            ∙ read_pte-write_pte_ne k.pgdir (entry_addr si) b _ page p (λ e. omega arith);
        lock_kept = d.lock_kept;
        last_kept = d.last_kept;
        kmem_kept = d.kmem_kept;
        pid_kept = d.pid_kept;
        now_kept = d.now_kept;
      },
    )
