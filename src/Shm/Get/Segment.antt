-- ===== src/Shm/Get/Segment.antt =====
-- The segment that allocShmSeg() makes, seen through the keys of the table.
use shared_memory.Prelude.{
  ℕ, ◌+◌, ◌≤◌, ◌<◌, ◌≡◌, ◌≢◌, ◌⊎◌, inl, inr, refl, sym, ◌∙◌, Bool, true, false, Option, none, some,
  List, [], ◌∷◌, arith, length, get_elem?, ℤ, pos, minus_one, ◌==ℤ◌, ==ℤ-refl, eq_of_==ℤ, rounds,
  ok, bit_and,
}
use native.Mathlib.Decide.{dec_lt}
use shared_memory.Layout.{shm_max_seg, shm_min, max_seg_size, v2p, pg_round_up}
use shared_memory.Layout.Rounding.{pg_round_up_pages}
use shared_memory.Kalloc.{Kmem}
use shared_memory.Shm.Table.{ShmidDs, ShmTable, Kernel, enospc, ipc_private, new_slot}
use shared_memory.Shm.Search.{FirstFit}
use shared_memory.Shm.Alloc.{alloc_shm_seg, place, slot_free, count_segment}
use shared_memory.Shm.Alloc.Fill.{Filled}
use shared_memory.Shm.Alloc.Cases.{IsReady, pages, alloc_shm_seg_lem}
use shared_memory.Shm.Get.{effective_key}
use shared_memory.Shm.Get.Lookup.{HasKey}

pub effective_key_of_ne :
    (key : ℤ) (k : Kernel) → (key ==ℤ ipc_private) ≡ false → effective_key key k ≡ key
unfolding effective_key
effective_key_of_ne key k h = rw h refl

head_of : (l : List ℕ) → 0 < length l → (p : ℕ) × (get_elem? l 0 ≡ some p)
head_of [] h = absurd (omega arith)
head_of (p ∷ l) h = (p, refl)

module _ (k : Kernel) (n : ℕ) (key : ℤ) (size i perm : ℕ) (grows : Bool) (t : ShmTable) (m : Kmem)
    (filled : Filled k n key size i perm grows t m) (ready : IsReady k) where
  -- The first new slot has the key.
  new_HasKey : 0 < n → n ≤ length k.kmem.free → HasKey t.shm_segs key i
  unfolding new_slot
  new_HasKey pos_n enough =
      let (p, head) = head_of k.kmem.free (omega arith) in
      let at : i + 0 ≡ i = omega arith in
      let slot : t.shm_segs i ≡ new_slot (v2p p) key size k.pid perm =
        rw at at (filled.slots 0 p pos_n head) in
      rw slot (==ℤ-refl key)

  -- How far the table reaches after the allocation.
  Reaches : Type 0
  Reaches =
      ((grows ≡ true) × (i ≡ rounds k.table.last_shm_seg_index))
      ⊎ ((grows ≡ false) × (i + n ≤ rounds k.table.last_shm_seg_index))

  new_last :
      Reaches
      → i + n ≤ shm_max_seg
      → (i + n ≤ rounds t.last_shm_seg_index)
        × (i ≤ rounds k.table.last_shm_seg_index)
        × (rounds k.table.last_shm_seg_index ≤ rounds t.last_shm_seg_index)
        × IsReady (count_segment (record k { table = t; kmem = m }))
  unfolding Reaches
  new_last (inl (g, e)) fits =
      let (is, r) = filled.last_grown g ready.last_is in
      (
        omega arith,
        omega arith,
        omega arith,
        record {
          table_free = filled.table_unlocked;
          kmem_free = filled.kmem_unlocked;
          last_is = is;
          last_in = omega arith;
        },
      )
  new_last (inr (g, e)) fits =
      let same = filled.last_same g in
      (
        rw same e,
        omega arith,
        rw same (omega arith),
        record {
          table_free = filled.table_unlocked;
          kmem_free = filled.kmem_unlocked;
          last_is = rw same (ready.last_is);
          last_in = rw same (ready.last_in);
        },
      )

abbrev pub KeyIn : Kernel → ℤ → ℕ → Type 0
KeyIn k key j = HasKey k.table.shm_segs key j

abbrev pub in_use : Kernel → ℕ
in_use k = rounds k.table.last_shm_seg_index

-- What a successful allocation for `key` leaves behind, in terms of keys: the new segment starts
-- at `i`, in slots that were free or behind the last one and that are filled with fresh pages; all
-- other slots are as they were, and a slot that was in use with this key still has it and is not
-- the new one.
pub record Created (k : Kernel) (key : ℤ) (size perm i : ℕ) (k' : Kernel) : Type 0 where
  pub fresh :
      (j : ℕ) → i ≤ j → j < i + pages size → (slot_free k.table.shm_segs j ≡ true) ⊎ (in_use k ≤ j)
  pub new :
      (j p : ℕ)
      → j < pages size
      → get_elem? k.kmem.free j ≡ some p
      → k'.table.shm_segs (i + j) ≡ new_slot (v2p p) key (pg_round_up size) k.pid perm
  pub others : (j : ℕ) → (j < i) ⊎ (i + pages size ≤ j) → k'.table.shm_segs j ≡ k.table.shm_segs j
  pub ready : IsReady k'
  pub inside : i < in_use k'
  pub has_key : KeyIn k' key i
  pub before : (j : ℕ) → j < i → KeyIn k' key j → (j < in_use k) × KeyIn k key j
  pub kept : (j : ℕ) → j < in_use k → KeyIn k key j → (j ≢ i) × KeyIn k' key j

pub not_both :
    (segs : ℕ → ShmidDs) (key : ℤ) (j : ℕ)
    → key ≢ minus_one
    → HasKey segs key j
    → ¬ (slot_free segs j ≡ true)
not_both segs key j ne has free =
    ne (
      sym (eq_of_==ℤ (segs j).shm_perm.key key has)
      ∙ eq_of_==ℤ (segs j).shm_perm.key minus_one free)

-- A slot with a key is not among the slots that a search found free.
outside_run :
    (segs : ℕ → ShmidDs) (key : ℤ) (n last : ℕ) (found : Option ℕ) (j : ℕ) (l : ℤ)
    → key ≢ minus_one
    → FirstFit (slot_free segs) n last found
    → rounds l ≡ last
    → j < last
    → HasKey segs key j
    → (j < (place found l).0) ⊎ ((place found l).0 + n ≤ j)
outside_run segs key n last none j l ne fit e h has = inl (omega arith)
outside_run segs key n last (some r) j l ne fit e h has = elim (dec_lt j r) [
  | yes p ↦ inl p
  | no p ↦ elim (dec_lt j (r + n)) [
    | yes q ↦ absurd (not_both segs key j ne has (fit.0 j (omega arith) q))
    | no q ↦ inr (omega arith)
  ]
]

-- The slots that an allocation takes are free or behind the last one.
fresh_run :
    (segs : ℕ → ShmidDs) (n last : ℕ) (found : Option ℕ) (l : ℤ)
    → FirstFit (slot_free segs) n last found
    → rounds l ≡ last
    → (j : ℕ) → (place found l).0 ≤ j
    → j < (place found l).0 + n
    → (slot_free segs j ≡ true) ⊎ (last ≤ j)
fresh_run segs n last none l fit e j lo hi = inr (omega arith)
fresh_run segs n last (some r) l fit e j lo hi = inl (fit.0 j lo hi)

place_Reaches :
    (k : Kernel) (n : ℕ) (found : Option ℕ) (t : ShmTable) (m : Kmem) (key : ℤ) (size perm : ℕ)
    → FirstFit (slot_free k.table.shm_segs) n (in_use k) found
    → (f : Filled k n key size
        (place found k.table.last_shm_seg_index).0
        perm
        (place found k.table.last_shm_seg_index).1
        t
        m)
    → (ready : IsReady k)
    → Reaches k n key size
        (place found k.table.last_shm_seg_index).0
        perm
        (place found k.table.last_shm_seg_index).1
        t
        m
        f
        ready
unfolding Reaches
place_Reaches k n none t m key size perm fit f ready = inl (refl, refl)
place_Reaches k n (some r) t m key size perm fit f ready = inr (refl, fit.1)

-- allocShmSeg() of an acceptable size for a key other than -1, with enough free pages, either finds
-- no room and changes nothing, or creates a segment.
pub alloc-Created :
    (size : ℕ) (key : ℤ) (flag : ℕ) (k : Kernel)
    → shm_min ≤ size
    → size ≤ max_seg_size
    → IsReady k
    → pages size ≤ length k.kmem.free
    → key ≢ minus_one
    → (alloc_shm_seg size key flag k ≡ ok (enospc, k))
      ⊎ ((i : ℕ) × (k' : Kernel) × (alloc_shm_seg size key flag k ≡ ok (pos i, k'))
          × Created k key size (bit_and flag 3) i k')
alloc-Created size key flag k lo hi ready enough ne =
    let (found, fit, placed) = alloc_shm_seg_lem size key flag k lo hi ready enough in
    let n = pages size in
    let pos_n = (pg_round_up_pages size (omega arith) (omega arith)).0 in
    elim placed [
      | inl (full, run) ↦ inl run
      | inr (fits, t, m, run, filled) ↦
          let i = (place found k.table.last_shm_seg_index).0 in
          let (reach, start, longer, next) =
            new_last k n key _ i _ _ t m filled ready
              (place_Reaches k n found t m key _ _ fit filled ready) fits in
          inr (
            i,
            count_segment (record k { table = t; kmem = m }),
            run,
            record {
              fresh =
                  fresh_run k.table.shm_segs n (in_use k) found k.table.last_shm_seg_index fit refl;
              new = filled.slots;
              others = λ j out. elim out [ inl p ↦ filled.below j p | inr p ↦ filled.above j p ];
              ready = next;
              inside = omega arith;
              has_key = new_HasKey k n key _ i _ _ t m filled ready pos_n enough;
              before = λ j h has. (omega arith, rw (sym (filled.below j h)) has);
              kept = λ j h has.
                  elim (outside_run k.table.shm_segs key n (in_use k) found j
                    k.table.last_shm_seg_index ne fit refl h has) [
                      | inl p ↦ (λ e. omega arith, rw (filled.below j p) has)
                      | inr p ↦ (λ e. omega arith, rw (filled.above j p) has)
                    ];
            },
          )
    ]
