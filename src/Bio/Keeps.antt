-- ===== src/Bio/Keeps.antt =====
-- The parts of bread() of bio.c keep the invariant of the cache and what it stands for.
use shared_memory.Prelude.{
  ℕ, ◌≡◌, inl, inr, refl, sym, ◌∙◌, ap, true, false, ◌==◌, arith, Bool-cases,
}
use shared_memory.Locks.Sleep.{Sleeplock}
use shared_memory.Bio.{Bcache, set_buf, is_block, can_recycle, recycled}
use shared_memory.Bio.Claim.{Passes, NonePass, taken}
use shared_memory.Bio.View.{view, view_held, view_absent, view-cases, IsGood, In}

-- A change of the references and the lock of a buffer
abbrev pub touched : ℕ → ℕ → Sleeplock → Bcache → Bcache
touched i r l c = set_buf i (record (c.buf i) { refcnt = r; lock = l }) c

module _ (i r : ℕ) (l : Sleeplock) (c : Bcache) (g : IsGood c) where
  touched-dev : (j : ℕ) → ((touched i r l c).buf j).dev ≡ (c.buf j).dev
  touched-dev j = ground arith

  touched-blockno : (j : ℕ) → ((touched i r l c).buf j).blockno ≡ (c.buf j).blockno
  touched-blockno j = ground arith

  touched-valid : (j : ℕ) → ((touched i r l c).buf j).valid ≡ (c.buf j).valid
  touched-valid j = ground arith

  touched-dirty : (j : ℕ) → ((touched i r l c).buf j).dirty ≡ (c.buf j).dirty
  touched-dirty j = ground arith

  touched-content : (j : ℕ) → ((touched i r l c).buf j).content ≡ (c.buf j).content
  touched-content j = ground arith

  pub touched-IsGood : IsGood (touched i r l c)
  touched-IsGood = record {
    unique = λ a b m n p q e.
        g.unique a b m n (sym (touched-dev a) ∙ p) (sym (touched-dev b) ∙ q)
          (sym (touched-blockno a) ∙ e ∙ touched-blockno b);
    coherent = λ j m p v d.
        touched-content j
        ∙ g.coherent j m (sym (touched-dev j) ∙ p) (sym (touched-valid j) ∙ v)
            (sym (touched-dirty j) ∙ d)
        ∙ ap c.disk (sym (touched-blockno j));
    modified = λ j m d. touched-valid j ∙ g.modified j m (sym (touched-dirty j) ∙ d);
  }

  pub touched-view : (b : ℕ) → view (touched i r l c) b ≡ view c b
  touched-view b = elim (view-cases c b) [
    | inl (j, m, d, v, e) ↦
        ap (view (touched i r l c)) (sym (touched-blockno j ∙ e))
        ∙ view_held (touched i r l c) j touched-IsGood m (touched-dev j ∙ d) (touched-valid j ∙ v)
        ∙ touched-content j
        ∙ sym (view_held c j g m d v)
        ∙ ap (view c) e
    | inr n ↦
        view_absent (touched i r l c) b (λ j m d v e.
          n j m (sym (touched-dev j) ∙ d) (sym (touched-valid j) ∙ v) (sym (touched-blockno j) ∙ e))
        ∙ sym (view_absent c b n)
  ]

-- A buffer that no one uses is given to the block `b`.
module _ (b i : ℕ) (c : Bcache) (g : IsGood c)
    (none_has : NonePass (λ j. is_block 1 b (c.buf j)) c.order)
    (p : Passes (λ j. can_recycle (c.buf j)) c.order i) where
  taken-other : (j : ℕ) → ¬ (j ≡ i) → (taken 1 b i c).buf j ≡ c.buf j
  taken-other j h = ground arith

  taken_self : (taken 1 b i c).buf i ≡ recycled 1 b (c.buf i)
  taken_self = ground arith

  -- Only the other buffers can be valid.
  taken-valid : (j : ℕ) → ((taken 1 b i c).buf j).valid ≡ true → ¬ (j ≡ i)
  taken-valid j v e = ground arith

  no_other : (j : ℕ) → In j c → (c.buf j).dev ≡ 1 → ¬ ((c.buf j).blockno ≡ b)
  no_other j m d e = let z = none_has j m in ground arith

  pub taken-IsGood : IsGood (taken 1 b i c)
  taken-IsGood = record {
    unique = λ j k m n d d' e. elim (Bool-cases (j == i)) [
      | inl q ↦ elim (Bool-cases (k == i)) [
        | inl q' ↦ ground arith
        | inr q' ↦ (let z = no_other k n in absurd (ground arith))
      ]
      | inr q ↦ elim (Bool-cases (k == i)) [
        | inl q' ↦ (let z = no_other j m in absurd (ground arith))
        | inr q' ↦ (let z = g.unique j k m n in ground arith)
      ]
    ];
    coherent = λ j m d v n.
        let o = taken-other j (taken-valid j v) in
        rw o (g.coherent j m (rw o at d) (rw o at v) (rw o at n));
    modified = λ j m d. (let z = g.modified j m in ground arith);
  }

  -- The block that the buffer held is on the disk.
  taken-own :
      (j x : ℕ)
      → In j c
      → (c.buf j).dev ≡ 1
      → (c.buf j).valid ≡ true
      → (c.buf j).blockno ≡ x
      → j ≡ i
      → view (taken 1 b i c) x ≡ view c x
  taken-own j x m d v e q =
      view_absent (taken 1 b i c) x (λ k n d' v' e'.
        let ne = taken-valid k v' in
        let o = taken-other k ne in ne (g.unique k j n m (rw o at d') d ((rw o at e') ∙ sym e) ∙ q))
      ∙ ap c.disk (sym e)
      ∙ sym (g.coherent j m d v (let z = p.1 in ground arith))
      ∙ sym (view_held c j g m d v)
      ∙ ap (view c) e

  pub taken-view : (x : ℕ) → view (taken 1 b i c) x ≡ view c x
  taken-view x = elim (view-cases c x) [
    | inl (j, m, d, v, e) ↦ elim (Bool-cases (j == i)) [
      | inl q ↦ taken-own j x m d v e (ground arith)
      | inr q ↦
          (let o = taken-other j (λ e. ground arith) in
            ap (view (taken 1 b i c)) (rw o (sym e))
            ∙ view_held (taken 1 b i c) j taken-IsGood m (rw o d) (rw o v)
            ∙ (rw o refl)
            ∙ sym (view_held c j g m d v)
            ∙ ap (view c) e)
    ]
    | inr n ↦
        view_absent (taken 1 b i c) x (λ j m d v e.
          let o = taken-other j (taken-valid j v) in n j m (rw o at d) (rw o at v) (rw o at e))
        ∙ sym (view_absent c x n)
  ]

-- A buffer without content is read from the disk.
abbrev pub filled : ℕ → Bcache → Bcache
filled i c = set_buf i (record (c.buf i) { content = c.disk (c.buf i).blockno; valid = true }) c

module _ (i : ℕ) (c : Bcache) (g : IsGood c) (m0 : In i c) (d0 : (c.buf i).dev ≡ 1)
    (v0 : (c.buf i).valid ≡ false) where
  filled-other : (j : ℕ) → ¬ (j ≡ i) → (filled i c).buf j ≡ c.buf j
  filled-other j h = ground arith

  filled-dev : (j : ℕ) → ((filled i c).buf j).dev ≡ (c.buf j).dev
  filled-dev j = ground arith

  filled-blockno : (j : ℕ) → ((filled i c).buf j).blockno ≡ (c.buf j).blockno
  filled-blockno j = ground arith

  filled-content : ((filled i c).buf i).content ≡ c.disk (c.buf i).blockno
  filled-content = ground arith

  pub filled-IsGood : IsGood (filled i c)
  filled-IsGood = record {
    unique = λ j k m n d d' e.
        g.unique j k m n (sym (filled-dev j) ∙ d) (sym (filled-dev k) ∙ d')
          (sym (filled-blockno j) ∙ e ∙ filled-blockno k);
    coherent = λ j m d v n. elim (Bool-cases (j == i)) [
      | inl q ↦
          (let q' : j ≡ i = ground arith in
            rw q' (filled-content ∙ ap c.disk (sym (filled-blockno i))))
      | inr q ↦
          (let o = filled-other j (λ e. ground arith) in
            rw o (g.coherent j m (rw o at d) (rw o at v) (rw o at n)))
    ];
    modified = λ j m d. (let z = g.modified j m in ground arith);
  }

  pub filled-own : view (filled i c) (c.buf i).blockno ≡ c.disk (c.buf i).blockno
  filled-own =
      ap (view (filled i c)) (sym (filled-blockno i))
      ∙ view_held (filled i c) i filled-IsGood m0 (filled-dev i ∙ d0) (ground arith)
      ∙ filled-content

  pub filled-view : (x : ℕ) → view (filled i c) x ≡ view c x
  filled-view x = elim (Bool-cases ((c.buf i).blockno == x)) [
    | inl q ↦
        (let q' : (c.buf i).blockno ≡ x = ground arith in
          rw (sym q') (
            filled-own
            ∙ sym (
                view_absent c (c.buf i).blockno
                  (λ k n d v e. (let z = g.unique k i n m0 d d0 e in ground arith)))))
    | inr q ↦ elim (view-cases c x) [
      | inl (j, m, d, v, e) ↦
          (let o = filled-other j (λ w. ground arith) in
            ap (view (filled i c)) (rw o (sym e))
            ∙ view_held (filled i c) j filled-IsGood m (rw o d) (rw o v)
            ∙ (rw o refl)
            ∙ sym (view_held c j g m d v)
            ∙ ap (view c) e)
      | inr n ↦
          view_absent (filled i c) x (λ j m d v e. elim (Bool-cases (j == i)) [
            | inl w ↦ ground arith
            | inr w ↦
                (let o = filled-other j (λ h. ground arith) in
                  n j m (rw o at d) (rw o at v) (rw o at e))
          ])
          ∙ sym (view_absent c x n)
    ]
  ]
