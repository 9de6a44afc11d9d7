-- ===== src/Proc/Fork/Count.antt =====
-- fork(): how the attachments of the child are counted in the table of segments.
use shared_memory.Prelude.{
  ℕ, zero, suc, ◌+◌, ◌≤◌, ◌<◌, ◌≡◌, ◌⊎◌, inl, inr, refl, ap, ◌∙◌, Bool, true, false, arith, lt→ltb,
  in_range, not, ◌&&◌, if◌then◌else◌, map_range, update_loop-ok, ℤ, pos, negsuc, minus_one, ok,
  Bool-cases,
}
use shared_memory.Layout.{shm_max_seg}
use shared_memory.Shm.Table.{
  ShmidDs, ShmTable, AttachedShmseg, Rtcdate, pages_of, forked_slot, update_shm_seg,
}
use shared_memory.Proc.Fork.{skips, count_fork}

-- The identifier is -1, or the first slot of a segment within the table.
abbrev pub NamesSegment : ShmTable → ℤ → Type 0
NamesSegment t id =
    (id ≡ minus_one)
    ⊎ ((f : ℕ) × (id ≡ pos f) × (f < shm_max_seg) × (f + pages_of (t.shm_segs f) ≤ shm_max_seg))

-- The slot `x` belongs to the segment that the identifier names.
abbrev pub Covers : ShmTable → ℤ → ℕ → Type 0
Covers t id x = (f : ℕ) × (id ≡ pos f) × (f ≤ x) × (x < f + pages_of (t.shm_segs f))

abbrev pub times {ℓ} : {A : Type ℓ} → ℕ → (A → A) → A → A
times zero f a = a
times (suc n) f a = times n f (f a)

-- The slot `x` is one of the segment that the identifier names.
abbrev pub covers : ShmTable → ℤ → ℕ → Bool
covers t (pos f) x = in_range f (pages_of (t.shm_segs f)) x
covers t (negsuc f) x = false

abbrev pub one_if : Bool → ℕ
one_if true = 1
one_if false = 0

-- How many of the `n` entries from `i` on name a segment with the slot `x`, an entry not counted that
-- repeats the one before it, those with -1 left out; `last` is that before the entry `i`.
abbrev pub visits : ShmTable → (ℕ → AttachedShmseg) → ℕ → ℕ → ℤ → ℕ → ℕ
visits t parent zero i last x = 0
visits t parent (suc n) i last x =
    let id = (parent i).shmid in
    one_if (not (skips id last) && covers t id x)
    + visits t parent n (i + 1) (if skips id last then last else id) x

covers-kept :
    (t t' : ShmTable) (id : ℤ) (x : ℕ)
    → ((x : ℕ) → (t'.shm_segs x).shm_segsz ≡ (t.shm_segs x).shm_segsz)
    → covers t' id x ≡ covers t id x
covers-kept t t' (pos f) x sizes = rw (sizes f) refl
covers-kept t t' (negsuc f) x sizes = refl

pub visits-kept :
    (t t' : ShmTable) (parent : ℕ → AttachedShmseg) (n i : ℕ) (last : ℤ) (x : ℕ)
    → ((x : ℕ) → (t'.shm_segs x).shm_segsz ≡ (t.shm_segs x).shm_segsz)
    → visits t' parent n i last x ≡ visits t parent n i last x
visits-kept t t' parent zero i last x sizes = refl
visits-kept t t' parent (suc n) i last x sizes =
    rw
      (
        covers-kept t t' (parent i).shmid x sizes,
        visits-kept t t' parent n (i + 1)
            (if skips (parent i).shmid last then last else (parent i).shmid) x sizes,
      )
      refl

pub times-one :
    (b : Bool) (n : ℕ) (f : ShmidDs → ShmidDs) (a : ShmidDs)
    → times n f (times (one_if b) f a) ≡ times (one_if b + n) f a
times-one true n f a = (let e : 1 + n ≡ suc n = omega arith in rw e refl)
times-one false n f a = (let e : 0 + n ≡ n = omega arith in rw e refl)

-- What the loop may do to the table: counters of the segments that the entries from `i` to `end`
-- name, and nothing else.
pub record Counted (parent : ℕ → AttachedShmseg) (i end : ℕ) (t t' : ShmTable) : Type 0 where
  pub unlocked : t'.lock ≡ false
  pub last : t'.last_shm_seg_index ≡ t.last_shm_seg_index
  pub sizes : (x : ℕ) → (t'.shm_segs x).shm_segsz ≡ (t.shm_segs x).shm_segsz
  pub perms : (x : ℕ) → (t'.shm_segs x).shm_perm ≡ (t.shm_segs x).shm_perm
  pub frames : (x : ℕ) → (t'.shm_segs x).pa ≡ (t.shm_segs x).pa
  pub others :
      (x : ℕ)
      → ((j : ℕ) → i ≤ j → j < end → ¬ Covers t (parent j).shmid x)
      → t'.shm_segs x ≡ t.shm_segs x

pub update_lem :
    (f : ℕ) (pid : ℤ) (now : Rtcdate) (t : ShmTable)
    → t.lock ≡ false
    → f < shm_max_seg
    → f + pages_of (t.shm_segs f) ≤ shm_max_seg
    → update_shm_seg (pos f) pid 0 now t
      ≡ ok (record t {
        lock = false;
        shm_segs = map_range (forked_slot pid now) f (pages_of (t.shm_segs f)) t.shm_segs;
      })
unfolding update_shm_seg
update_lem f pid now t u h fits =
    rw
      (
        lt→ltb f shm_max_seg h,
        u,
        update_loop-ok shm_max_seg (forked_slot pid now) (pages_of (t.shm_segs f)) f t.shm_segs
            fits,
      )
      refl

-- Outside its range map_range changes nothing.
map_range-out :
    (g : ShmidDs → ShmidDs) (f n x : ℕ) (segs : ℕ → ShmidDs)
    → (f ≤ x → x < f + n → ⊥)
    → map_range g f n segs x ≡ segs x
map_range-out g f n x segs h = ground arith

pub count_fork_lem :
    (skip : Bool) (id pid : ℤ) (now : Rtcdate) (t t' : ShmTable)
    → skip ≡ false
    → update_shm_seg id pid 0 now t ≡ ok t'
    → count_fork skip id pid now t ≡ ok t'
count_fork_lem skip id pid now t t' e run = rw e run

not_both : (b : Bool) → b ≡ false → b ≡ true → ⊥
not_both b p q = cc

pub skips_gone : (id last : ℤ) → id ≡ minus_one → skips id last ≡ true
skips_gone id last e = rw e refl

-- One round's count: with a good identifier it succeeds.
pub count_one :
    (id last pid : ℤ) (now : Rtcdate) (parent : ℕ → AttachedShmseg) (i : ℕ) (t : ShmTable)
    → (parent i).shmid ≡ id
    → t.lock ≡ false
    → NamesSegment t id
    → (t' : ShmTable) × (count_fork (skips id last) id pid now t ≡ ok t')
      × Counted parent i (i + 1) t t'
      × ((x : ℕ)
          → t'.shm_segs x
            ≡ times
                (one_if (not (skips id last) && covers t id x))
                (forked_slot pid now)
                (t.shm_segs x))
unfolding forked_slot
count_one id last pid now parent i t e u named = elim (Bool-cases (skips id last)) [
  | inl skip ↦ (
    t,
    rw skip refl,
    record {
      unlocked = u;
      last = refl;
      sizes = λ x. refl;
      perms = λ x. refl;
      frames = λ x. refl;
      others = λ x h. refl;
    },
    λ x. rw skip refl,
  )
  | inr counts ↦ go named counts
]
  where
    go :
        NamesSegment t id
        → skips id last ≡ false
        → (t' : ShmTable) × (count_fork (skips id last) id pid now t ≡ ok t')
          × Counted parent i (i + 1) t t'
          × ((x : ℕ)
              → t'.shm_segs x
                ≡ times
                    (one_if (not (skips id last) && covers t id x))
                    (forked_slot pid now)
                    (t.shm_segs x))
    go (inl gone) counts = absurd (not_both (skips id last) counts (skips_gone id last gone))
    go (inr (f, is, inside, fits)) counts = (
      record t {
        lock = false;
        shm_segs = map_range (forked_slot pid now) f (pages_of (t.shm_segs f)) t.shm_segs;
      },
      count_fork_lem (skips id last) id pid now t _ counts
          (ap (λ (z : ℤ). update_shm_seg z pid 0 now t) is ∙ update_lem f pid now t u inside fits),
      record {
        unlocked = refl;
        last = refl;
        sizes = λ x. ground arith;
        perms = λ x. ground arith;
        frames = λ x. ground arith;
        others = λ x h.
            map_range-out (forked_slot pid now) f (pages_of (t.shm_segs f)) x t.shm_segs
              (λ p q. h i (omega arith) (omega arith) (f, e ∙ is, p, q));
      },
      λ x. rw (counts, is) (once f x),
    )
      where
        once :
            (f x : ℕ)
            → map_range (forked_slot pid now) f (pages_of (t.shm_segs f)) t.shm_segs x
              ≡ times
                  (one_if (in_range f (pages_of (t.shm_segs f)) x))
                  (forked_slot pid now)
                  (t.shm_segs x)
        once f x = elim (Bool-cases (in_range f (pages_of (t.shm_segs f)) x)) [
          | inl b ↦ rw b refl
          | inr b ↦ rw b refl
        ]

same_pages : (a b : ShmidDs) → a.shm_segsz ≡ b.shm_segsz → pages_of a ≡ pages_of b
same_pages a b e = rw e refl

pub NamesSegment-kept :
    (t t' : ShmTable) (id : ℤ)
    → ((x : ℕ) → (t'.shm_segs x).shm_segsz ≡ (t.shm_segs x).shm_segsz)
    → NamesSegment t id
    → NamesSegment t' id
NamesSegment-kept t t' id sizes (inl e) = inl e
NamesSegment-kept t t' id sizes (inr (f, e, inside, fits)) =
    inr (f, e, inside, omega (arith, same_pages (t'.shm_segs f) (t.shm_segs f) (sizes f), fits))

Covers-kept :
    (t t' : ShmTable) (id : ℤ) (x : ℕ)
    → ((x : ℕ) → (t'.shm_segs x).shm_segsz ≡ (t.shm_segs x).shm_segsz)
    → Covers t' id x
    → Covers t id x
Covers-kept t t' id x sizes (f, e, lo, hi) =
    (f, e, lo, omega (arith, same_pages (t'.shm_segs f) (t.shm_segs f) (sizes f), hi))

pub Counted-trans :
    (parent : ℕ → AttachedShmseg) (i end : ℕ) (t t' t'' : ShmTable)
    → i < end
    → Counted parent i (i + 1) t t'
    → Counted parent (i + 1) end t' t''
    → Counted parent i end t t''
Counted-trans parent i end t t' t'' h a b = record {
  unlocked = b.unlocked;
  last = b.last ∙ a.last;
  sizes = λ x. b.sizes x ∙ a.sizes x;
  perms = λ x. b.perms x ∙ a.perms x;
  frames = λ x. b.frames x ∙ a.frames x;
  others = λ x out.
      b.others x (λ j lo hi c. out j (omega arith) hi (Covers-kept t t' _ x a.sizes c))
      ∙ a.others x (λ j lo hi. out j lo (omega arith));
}
