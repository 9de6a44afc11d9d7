-- ===== src/Shm/Attach/Loop.antt =====
-- The loop of allocshmuvm(), which maps the pages of a segment and counts the attachment.
use shared_memory.Prelude.{
  ℕ, zero, suc, ◌+◌, ◌*◌, ◌%◌, ◌≤◌, ◌<◌, ◌≡◌, ◌⊎◌, inl, inr, refl, sym, ap, ◌∙◌, true, false, arith,
  length, lt→ltb, map_range, map_range-suc, map_range-zero, pos, ok,
}
use shared_memory.Layout.{word, page_size, kern_base, shm_max_seg, v2p}
use shared_memory.Kalloc.Invariant.{IsValid}
use shared_memory.Vm.{Pte, Space, PageDir, read_pte, pte_of, mappages}
use shared_memory.Vm.Entries.{IsPageAddr}
use shared_memory.Vm.Mapping.{Mapped, mappages_page}
use shared_memory.Shm.Table.{ShmidDs, Kernel}
use shared_memory.Shm.Attach.{
  Request, attached_slot, attach_perm, space_of, mark_attached, count_attach, attach_loop,
}

-- The address of the page `j` of a mapping that starts at `va`.
abbrev pub page_at : ℕ → ℕ → ℕ
page_at va j = va + j * page_size

-- None of the `n` pages from `va` on is mapped.
abbrev pub Unmapped : PageDir → ℕ → ℕ → Type 0
Unmapped dir va n = (j : ℕ) → j < n → (read_pte dir (page_at va j)).present ≡ false

-- What the loop leaves behind when it has mapped `n` pages.
pub record Attached (k : Kernel) (n first si va : ℕ) (q : Request) (k' : Kernel) : Type 0 where
  pub segs : k'.table.shm_segs ≡ map_range (attached_slot k.pid k.now) first n k.table.shm_segs
  pub entries :
      k'.shmsegs ≡ map_range (λ a. record { is_attached = true; shmid = q.shmid }) si n k.shmsegs
  pub mapped :
      (j : ℕ)
      → j < n
      → read_pte k'.pgdir (page_at va j)
        ≡ pte_of (v2p (k.table.shm_segs (first + j)).pa) (attach_perm q.shmflag)
  pub others :
      (b : ℕ)
      → IsPageAddr b
      → (b < va) ⊎ (page_at va n ≤ b)
      → read_pte k'.pgdir b ≡ read_pte k.pgdir b
  pub valid : IsValid k'.kmem
  pub lock_kept : k'.table.lock ≡ k.table.lock
  pub last_kept : k'.table.last_shm_seg_index ≡ k.table.last_shm_seg_index
  pub info_kept : k'.info ≡ k.info
  pub pid_kept : k'.pid ≡ k.pid
  pub now_kept : k'.now ≡ k.now

module _ (q : Request) (n first si va : ℕ) (k : Kernel) where
  -- The kernel after one round.
  abbrev round_at : Space → Kernel
  round_at s = count_attach first s (mark_attached si q.shmid k)

  abbrev Result : Type 0
  Result =
      (k' : Kernel) × (attach_loop (suc n) first si va q k ≡ ok (true, k'))
      × Attached k (suc n) first si va q k'

  attach_step :
      (s : Space)
      → si < shm_max_seg
      → first < shm_max_seg
      → mappages va page_size (v2p (k.table.shm_segs first).pa) (attach_perm q.shmflag) (space_of k)
        ≡ ok (pos 0, s)
      → attach_loop (suc n) first si va q k
        ≡ attach_loop n (first + 1) (si + 1) ((va + page_size) % word) q (round_at s)
  unfolding attach_loop
  attach_step s a b run = rw (lt→ltb si shm_max_seg a, lt→ltb first shm_max_seg b, run) refl

  module _ (s : Space) (a : IsPageAddr va) (high : page_at va (suc n) ≤ kern_base)
      (m : Mapped
        (space_of k)
        va
        (v2p (k.table.shm_segs first).pa)
        (attach_perm q.shmflag)
        (pos 0)
        s)
      (k' : Kernel) (ih : Attached (round_at s) n (first + 1) (si + 1) (va + page_size) q k') where
    round_mapped :
        (j : ℕ)
        → j < suc n
        → read_pte k'.pgdir (page_at va j)
          ≡ pte_of (v2p (k.table.shm_segs (first + j)).pa) (attach_perm q.shmflag)
    round_mapped zero h =
        let here : page_at va 0 ≡ va = omega arith in
        let slot : first + 0 ≡ first = omega arith in
        rw (here, slot) (ih.others va a (inl (omega arith)) ∙ m.entry refl)
    round_mapped (suc j) h =
        let here : page_at va (suc j) ≡ page_at (va + page_size) j = omega arith in
        let slot : first + suc j ≡ first + 1 + j = omega arith in
        rw (here, slot) (ih.mapped j (omega arith) ∙ later)
      where
        untouched : (x : ℕ) → first < x → ((round_at s).table.shm_segs x) ≡ k.table.shm_segs x
        untouched x h = ground arith

        later :
            pte_of (v2p ((round_at s).table.shm_segs (first + 1 + j)).pa) (attach_perm q.shmflag)
            ≡ pte_of (v2p (k.table.shm_segs (first + 1 + j)).pa) (attach_perm q.shmflag)
        later =
            ap (λ (d : ShmidDs). pte_of (v2p d.pa) (attach_perm q.shmflag))
              (untouched (first + 1 + j) (omega arith))

    round_Attached : Attached k (suc n) first si va q k'
    round_Attached = record {
      segs = ih.segs ∙ map_range-suc (attached_slot k.pid k.now) first n k.table.shm_segs;
      entries =
          ih.entries
          ∙ map_range-suc (λ e. record { is_attached = true; shmid = q.shmid }) si n k.shmsegs;
      mapped = round_mapped;
      others = λ b p out. ih.others b p (omega arith) ∙ m.others b p (omega arith);
      valid = ih.valid;
      lock_kept = ih.lock_kept;
      last_kept = ih.last_kept;
      info_kept = ih.info_kept;
      pid_kept = ih.pid_kept;
      now_kept = ih.now_kept;
    }

-- What the loop needs: the slots and entries are within their arrays, the pages lie below the
-- kernel and are not mapped, and there are enough free pages for the page tables.
pub record CanAttach (k : Kernel) (n first si va : ℕ) : Type 0 where
  pub slots : first + n ≤ shm_max_seg
  pub entries : si + n ≤ shm_max_seg
  pub page : IsPageAddr va
  pub high : page_at va n ≤ kern_base
  pub kmem : IsValid k.kmem
  pub enough : n ≤ length k.kmem.free
  pub unmapped : Unmapped k.pgdir va n

CanAttach-next :
    (k : Kernel) (n first si va : ℕ) (q : Request) (s : Space)
    → CanAttach k (suc n) first si va
    → Mapped (space_of k) va (v2p (k.table.shm_segs first).pa) (attach_perm q.shmflag) (pos 0) s
    → CanAttach (round_at q n first si va k s) n (first + 1) (si + 1) (va + page_size)
CanAttach-next k n first si va q s c m = record {
  slots = omega (arith, c.slots);
  entries = omega (arith, c.entries);
  page = record { small = omega (arith, c.high); aligned = omega (arith, c.page.aligned) };
  high = omega (arith, c.high);
  kmem = m.valid;
  enough = omega (arith, c.enough, m.cost);
  unmapped = λ j h.
      let here : page_at (va + page_size) j ≡ page_at va (suc j) = omega arith in
      rw here (
        ap (λ (e : Pte). e.present)
          (m.others (page_at va (suc j)) (omega (arith, c.high, c.page.aligned)) (λ e. omega arith))
        ∙ c.unmapped (suc j) (omega arith));
}

pub attach_loop-Attached :
    (n first si va : ℕ) (q : Request) (k : Kernel)
    → CanAttach k n first si va
    → (k' : Kernel) × (attach_loop n first si va q k ≡ ok (true, k'))
      × Attached k n first si va q k'
unfolding attach_loop
attach_loop-Attached zero first si va q k c = (
  k,
  refl,
  record {
    segs = sym (map_range-zero (attached_slot k.pid k.now) first k.table.shm_segs);
    entries =
        sym (map_range-zero (λ e. record { is_attached = true; shmid = q.shmid }) si k.shmsegs);
    mapped = λ j h. absurd (omega arith);
    others = λ b p out. refl;
    valid = c.kmem;
    lock_kept = refl;
    last_kept = refl;
    info_kept = refl;
    pid_kept = refl;
    now_kept = refl;
  },
)
attach_loop-Attached (suc n) first si va q k c =
    let pa = v2p (k.table.shm_segs first).pa in
    let here : page_at va 0 ≡ va = omega arith in
    let absent : (read_pte k.pgdir va).present ≡ false = rw here at (c.unmapped 0 (omega arith)) in
    let (r, s, run, m) =
      mappages_page va pa (attach_perm q.shmflag) (space_of k) c.page c.kmem absent in
    elim m.result [
      | inl e ↦
          let m' : Mapped (space_of k) va pa (attach_perm q.shmflag) (pos 0) s = rw e at m in
          let run' : mappages va page_size pa (attach_perm q.shmflag) (space_of k) ≡ ok (pos 0, s) =
            rw e at run in
          let wrap : (va + page_size) % word ≡ va + page_size = omega (arith, c.high) in
          let (k', rest, ih) =
            attach_loop-Attached n (first + 1) (si + 1) (va + page_size) q
              (round_at q n first si va k s) (CanAttach-next k n first si va q s c m') in
          (
            k',
            attach_step q n first si va k s (omega (arith, c.entries)) (omega (arith, c.slots)) run'
                ∙ rw wrap rest,
            round_Attached q n first si va k s c.page c.high m' k' ih,
          )
      | inr e ↦ absurd (omega (arith, c.enough, ap (length {A = ℕ}) ((m.failed e).1)))
    ]
