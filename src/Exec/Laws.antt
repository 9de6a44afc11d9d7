-- ===== src/Exec/Laws.antt =====
-- exec(): no shared memory stays attached.
use shared_memory.Prelude.{
  ℕ, zero, suc, ◌+◌, ◌/◌, ◌≤◌, ◌<◌, ◌≡◌, ◌≢◌, ◌⊎◌, inl, inr, refl, ap, ◌∙◌, Bool, true, false, not,
  ◌&&◌, arith, lt→ltb, ==-refl, if◌then◌else◌, write, map_range, update_loop-ok, ℤ, pos, negsuc,
  minus_one, ◌==ℤ◌, ok, Bool-cases,
}
use native.Mathlib.Decide.{dec_lt}
use shared_memory.Layout.{shm_max_seg}
use shared_memory.Shm.Table.{ShmTable, AttachedShmseg, Rtcdate, pages_of, exec_slot, update_shm_seg}
use shared_memory.Exec.{dropped, count_drop, drop_loop, exec_shm}

-- The entry is not attached, or names a segment within the table.
abbrev pub Sound : ShmTable → AttachedShmseg → Type 0
Sound t a =
    (a.is_attached ≡ false)
    ⊎ ((f : ℕ) × (a.shmid ≡ pos f)
        × (f < shm_max_seg)
        × (f + pages_of (t.shm_segs f) ≤ shm_max_seg))

-- What the loop may do to the table.
pub record Dropped (t t' : ShmTable) : Type 0 where
  pub unlocked : t'.lock ≡ false
  pub sizes : (x : ℕ) → (t'.shm_segs x).shm_segsz ≡ (t.shm_segs x).shm_segsz
  pub perms : (x : ℕ) → (t'.shm_segs x).shm_perm ≡ (t.shm_segs x).shm_perm
  pub frames : (x : ℕ) → (t'.shm_segs x).pa ≡ (t.shm_segs x).pa

dropped_slots : ℕ → Rtcdate → ShmTable → ShmTable
dropped_slots f now t = record t {
  lock = false;
  shm_segs = map_range (exec_slot now) f (pages_of (t.shm_segs f)) t.shm_segs;
}

update_lem :
    (f : ℕ) (now : Rtcdate) (t : ShmTable)
    → t.lock ≡ false
    → f < shm_max_seg
    → f + pages_of (t.shm_segs f) ≤ shm_max_seg
    → update_shm_seg (pos f) minus_one 1 now t ≡ ok (dropped_slots f now t)
unfolding update_shm_seg dropped_slots
update_lem f now t u h fits =
    rw
      (
        lt→ltb f shm_max_seg h,
        u,
        update_loop-ok shm_max_seg (exec_slot now) (pages_of (t.shm_segs f)) f t.shm_segs fits,
      )
      refl

update-Dropped : (f : ℕ) (now : Rtcdate) (t : ShmTable) → Dropped t (dropped_slots f now t)
unfolding exec_slot dropped_slots
update-Dropped f now t = record {
  unlocked = refl;
  sizes = λ x. ground arith;
  perms = λ x. ground arith;
  frames = λ x. ground arith;
}

count_one :
    (counts : Bool) (now : Rtcdate) (a : AttachedShmseg) (t : ShmTable)
    → t.lock ≡ false
    → Sound t a
    → (counts ≡ true → a.is_attached ≡ true)
    → (t' : ShmTable) × (count_drop counts a.shmid now t ≡ ok t') × Dropped t t'
count_one false now a t u s h =
    (t, refl, record { unlocked = u; sizes = λ x. refl; perms = λ x. refl; frames = λ x. refl })
count_one true now a t u (inl off) h = absurd (both a.is_attached off (h refl))
  where
    both : (b : Bool) → b ≡ false → b ≡ true → ⊥
    both b p q = cc
count_one true now a t u (inr (f, is, inside, fits)) h = (
  dropped_slots f now t,
  ap (λ (z : ℤ). update_shm_seg z minus_one 1 now t) is ∙ update_lem f now t u inside fits,
  update-Dropped f now t,
)

Dropped-trans : (t u v : ShmTable) → Dropped t u → Dropped u v → Dropped t v
Dropped-trans t u v a b = record {
  unlocked = b.unlocked;
  sizes = λ x. b.sizes x ∙ a.sizes x;
  perms = λ x. b.perms x ∙ a.perms x;
  frames = λ x. b.frames x ∙ a.frames x;
}

Sound-kept : (t u : ShmTable) (a : AttachedShmseg) → Dropped t u → Sound t a → Sound u a
Sound-kept t u a d (inl off) = inl off
Sound-kept t u a d (inr (f, is, inside, fits)) =
    inr (f, is, inside, omega (arith, ap (λ (z : ℕ). z / 4096) (d.sizes f), fits))

-- The entries after the rounds from `i` to `end`: none of them is attached, and the others are as
-- before.
abbrev pub Cleared : ℕ → ℕ → (ℕ → AttachedShmseg) → (ℕ → AttachedShmseg) → Type 0
Cleared i end segs segs' =
    ((j : ℕ) → i ≤ j → j < end → (segs' j).is_attached ≡ false)
    × ((j : ℕ) → (j < i) ⊎ (end ≤ j) → segs' j ≡ segs j)

abbrev after_one : ℕ → (ℕ → AttachedShmseg) → ℕ → AttachedShmseg
after_one i segs = if (segs i).is_attached then write segs i dropped else segs

after_one-here : (i : ℕ) (segs : ℕ → AttachedShmseg) → (after_one i segs i).is_attached ≡ false
after_one-here i segs = elim (Bool-cases (segs i).is_attached) [
  | inl h ↦ rw (h, ==-refl i) refl
  | inr h ↦ rw h h
]

after_one-off : (i j : ℕ) (segs : ℕ → AttachedShmseg) → j ≢ i → after_one i segs j ≡ segs j
after_one-off i j segs ne = ground arith

Cleared-first :
    (i end : ℕ) (segs segs' : ℕ → AttachedShmseg)
    → i < end
    → Cleared (i + 1) end (after_one i segs) segs'
    → Cleared i end segs segs'
Cleared-first i end segs segs' h c = (
  λ j lo hi. elim (dec_lt i j) [
    | yes p ↦ c.0 j (omega arith) hi
    | no p ↦
        let e : j ≡ i = omega arith in
        rw e (
          ap (λ (a : AttachedShmseg). a.is_attached) (c.1 i (inl (omega arith)))
          ∙ after_one-here i segs)
  ],
  λ j o. c.1 j (outside j o) ∙ after_one-off i j segs (apart j o),
)
  where
    outside : (j : ℕ) → (j < i) ⊎ (end ≤ j) → (j < i + 1) ⊎ (end ≤ j)
    outside j o = ground arith

    apart : (j : ℕ) → (j < i) ⊎ (end ≤ j) → j ≢ i
    apart j o e = ground arith

and_left : (a b : Bool) → (a && b) ≡ true → a ≡ true
and_left a b h = ground arith

drop_loop_lem :
    (n i end : ℕ) (last : ℤ) (now : Rtcdate) (segs : ℕ → AttachedShmseg) (t : ShmTable)
    → i + n ≡ end
    → t.lock ≡ false
    → ((j : ℕ) → i ≤ j → j < end → Sound t (segs j))
    → (segs' : ℕ → AttachedShmseg) × (t' : ShmTable) × (drop_loop n i last now segs t
        ≡ ok (segs', t'))
      × Cleared i end segs segs'
      × Dropped t t'
unfolding drop_loop
drop_loop_lem zero i end last now segs t e u sound = (
  segs,
  t,
  refl,
  (λ j lo hi. absurd (omega arith), λ j h. refl),
  record { unlocked = u; sizes = λ x. refl; perms = λ x. refl; frames = λ x. refl },
)
drop_loop_lem (suc n) i end last now segs t e u sound =
    let counts = (segs i).is_attached && not ((segs i).shmid ==ℤ last) in
    let (t1, run, one) =
      count_one counts now (segs i) t u (sound i (omega arith) (omega arith))
        (and_left (segs i).is_attached (not ((segs i).shmid ==ℤ last))) in
    let (segs', t', rest, cleared, more) =
      drop_loop_lem n (i + 1) end (if counts then (segs i).shmid else last) now (after_one i segs)
        t1 (omega arith) one.unlocked
        (λ j lo hi.
          rw (after_one-off i j segs (λ q. omega arith))
            (Sound-kept t t1 (segs j) one (sound j (omega arith) hi))) in
    (
      segs',
      t',
      rw run rest,
      Cleared-first i end segs segs' (omega arith) cleared,
      Dropped-trans t t1 t' one more,
    )

-- exec() with the table of segments unlocked and each entry of the process either not attached or
-- naming a segment within the table: it returns, none of the 4096 entries is attached any more, the
-- lock is given back, and the sizes, keys, modes and pages of all slots are as before.
pub exec_shm_lem :
    (now : Rtcdate) (segs : ℕ → AttachedShmseg) (t : ShmTable)
    → t.lock ≡ false
    → ((j : ℕ) → j < 4096 → Sound t (segs j))
    → (segs' : ℕ → AttachedShmseg) × (t' : ShmTable) × (exec_shm now segs t ≡ ok (segs', t'))
      × ((j : ℕ) → j < 4096 → (segs' j).is_attached ≡ false)
      × Dropped t t'
unfolding exec_shm
exec_shm_lem now segs t u sound =
    let (segs', t', run, cleared, d) =
      drop_loop_lem 4096 0 4096 (negsuc 1) now segs t refl u (λ j lo hi. sound j hi) in
    (segs', t', run, λ j hi. cleared.0 j (omega arith) hi, d)
