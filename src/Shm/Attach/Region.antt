-- ===== src/Shm/Attach/Region.antt =====
-- shm.c: the test of an address that shmatHelper() and shmdtHelper() share.
use shared_memory.Prelude.{
  ℕ, ◌≤◌, ◌<◌, ◌≡◌, ◌⊎◌, inl, inr, refl, true, false, arith, ◌||◌, Bool, lt→ltb, le→ltb, ltb,
}
use shared_memory.Layout.{kern_base, heap_limit}
use shared_memory.Shm.Attach.{is_outside}

pub is_outside-inside : (a : ℕ) → heap_limit ≤ a → a < kern_base → is_outside a ≡ false
is_outside-inside a lo hi =
    rw (le→ltb a kern_base (omega arith), lt→ltb a kern_base hi, le→ltb heap_limit a lo) refl

or_true : (b : Bool) → (b || true) ≡ true
or_true true = refl
or_true false = refl

pub is_outside-outside : (a : ℕ) → (a < heap_limit) ⊎ (kern_base ≤ a) → is_outside a ≡ true
is_outside-outside a (inl low) =
    rw (lt→ltb a kern_base (omega arith), lt→ltb a heap_limit low) (or_true (ltb kern_base a))
is_outside-outside a (inr high) = rw (le→ltb kern_base a high) (or_true (ltb kern_base a))
