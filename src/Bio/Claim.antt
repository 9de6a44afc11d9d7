-- ===== src/Bio/Claim.antt =====
-- bget() of bio.c: which buffer it returns, and when it panics.
use shared_memory.Prelude.{
  ℕ, ◌+◌, ◌%◌, ◌≡◌, ◌⊎◌, inl, inr, refl, Bool, true, false, List, [], ◌∷◌, none, some, has, ◌==◌,
  ok, panic, arith, Bool-cases,
}
use shared_memory.Layout.{word}
use shared_memory.Bio.{
  Bcache, set_buf, first_of, last_of, is_block, can_recycle, recycled, bget_claim,
}

-- An element of the list that passes a test
abbrev pub Passes : (ℕ → Bool) → List ℕ → ℕ → Type 0
Passes test is i = (has i is ≡ true) × (test i ≡ true)

abbrev pub NonePass : (ℕ → Bool) → List ℕ → Type 0
NonePass test is = (j : ℕ) → has j is ≡ true → test j ≡ false

NonePass-more :
    (test : ℕ → Bool) (i : ℕ) (is : List ℕ)
    → test i ≡ false
    → NonePass test is
    → NonePass test (i ∷ is)
NonePass-more test i is h n j m = elim (Bool-cases (j == i)) [
  | inl e ↦ (let e' : j ≡ i = ground arith in rw e' h)
  | inr e ↦ n j (ground arith)
]

pub first_of-cases :
    (test : ℕ → Bool) (is : List ℕ)
    → ((i : ℕ) × Passes test is i × (first_of test is ≡ some i))
      ⊎ (NonePass test is × (first_of test is ≡ none))
unfolding first_of
first_of-cases test [] = inr (λ j h. absurd (cc), refl)
first_of-cases test (i ∷ is) = elim (Bool-cases (test i)) [
  | inl h ↦ inl (i, (ground arith, h), rw h refl)
  | inr h ↦ elim (first_of-cases test is) [
    | inl (j, (m, p), e) ↦ inl (j, (ground arith, p), rw h e)
    | inr (n, e) ↦ inr (NonePass-more test i is h n, rw h e)
  ]
]

pub last_of-cases :
    (test : ℕ → Bool) (is : List ℕ)
    → ((i : ℕ) × Passes test is i × (last_of test is ≡ some i))
      ⊎ (NonePass test is × (last_of test is ≡ none))
unfolding last_of
last_of-cases test [] = inr (λ j h. absurd (cc), refl)
last_of-cases test (i ∷ is) = elim (last_of-cases test is) [
  | inl (j, (m, p), e) ↦ inl (j, (ground arith, p), rw e refl)
  | inr (n, e) ↦ elim (Bool-cases (test i)) [
    | inl h ↦ inl (i, (ground arith, h), rw (e, h) refl)
    | inr h ↦ inr (NonePass-more test i is h n, rw (e, h) refl)
  ]
]

-- The cache with one more reference to the buffer
abbrev pub referenced : ℕ → Bcache → Bcache
referenced i c = set_buf i (record (c.buf i) { refcnt = ((c.buf i).refcnt + 1) % word }) c

abbrev pub taken : ℕ → ℕ → ℕ → Bcache → Bcache
taken dev blockno i c = set_buf i (recycled dev blockno (c.buf i)) c

-- bget() up to the lock of the buffer. The block is cached, and its buffer has one more reference; or it
-- is not, and the buffer used least recently that has no reference and is not dirty is recycled for
-- it; or there is none, and the call panics, with the lock of the cache held.
pub bget_claim-cases :
    (dev blockno : ℕ) (c : Bcache)
    → c.lock ≡ false
    → ((i : ℕ) × Passes (λ j. is_block dev blockno (c.buf j)) c.order i
        × (bget_claim dev blockno c ≡ ok (i, referenced i c)))
      ⊎ (NonePass (λ j. is_block dev blockno (c.buf j)) c.order
          × (((i : ℕ) × Passes (λ j. can_recycle (c.buf j)) c.order i
                × (last_of (λ j. can_recycle (c.buf j)) c.order ≡ some i)
                × (bget_claim dev blockno c ≡ ok (i, taken dev blockno i c)))
              ⊎ (NonePass (λ j. can_recycle (c.buf j)) c.order
                  × (bget_claim dev blockno c ≡ panic))))
unfolding bget_claim
bget_claim-cases dev blockno c k =
    elim (first_of-cases (λ j. is_block dev blockno (c.buf j)) c.order) [
      | inl (i, p, e) ↦ inl (i, p, rw (k, e) refl)
      | inr (n, e) ↦ inr (
        n,
        elim (last_of-cases (λ j. can_recycle (c.buf j)) c.order) [
          | inl (i, p, f) ↦ inl (i, p, f, rw (k, e, f) refl)
          | inr (m, f) ↦ inr (m, rw (k, e, f) refl)
        ],
      )
    ]
