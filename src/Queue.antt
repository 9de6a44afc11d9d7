-- ===== src/Queue.antt =====
-- Ring buffers whose counters wrap around at 2 ^ 32: the pipes of pipe.c and the input of console.c.
use shared_memory.Prelude.{
  ℕ, suc, ◌+◌, ◌%◌, ◌<◌, ◌≡◌, ◌≢◌, refl, List, [], ◌∷◌, ◌++◌, arith, length, ==-ne, write,
}
use shared_memory.Layout.{word}

pub length_snoc : (l : List ℕ) (b : ℕ) → length (l ++ b ∷ []) ≡ length l + 1
length_snoc [] b = refl
length_snoc (x ∷ l) b = omega (arith, length_snoc l b)

pub next_counter : (r w n : ℕ) → w ≡ (r + suc n) % word → w ≡ ((r + 1) % word + n) % word
next_counter r w n e = omega arith

module _ (size : ℕ) where
  -- The elements from the counter `r` on are those of the list.
  abbrev pub HoldsFrom : (ℕ → ℕ) → ℕ → List ℕ → Type 0
  HoldsFrom a r [] = Unit {0}
  HoldsFrom a r (b ∷ l) = (a (r % size) ≡ b) × HoldsFrom a ((r + 1) % word) l

  -- Different counters less than a whole ring apart stand for different places.
  abbrev pub KeepsApart : Type 0
  KeepsApart = (r n : ℕ) → r < word → suc n < size → r % size ≢ ((r + suc n) % word) % size

  -- An element behind the last one disturbs none of the others, as long as there is room.
  pub HoldsFrom-write :
      KeepsApart
      → (a : ℕ → ℕ) (r w b : ℕ) (l : List ℕ) → r < word
      → w ≡ (r + length l) % word
      → length l < size
      → HoldsFrom a r l
      → HoldsFrom (write a (w % size) b) r l
  HoldsFrom-write apart a r w b [] s e f h = tt
  HoldsFrom-write apart a r w b (x ∷ l) s e f h =
      let ne : r % size ≢ w % size = rw e (apart r (length l) s f) in
      (
        rw (==-ne (r % size) (w % size) ne) (h.0),
        HoldsFrom-write apart a ((r + 1) % word) w b l (omega arith) (next_counter r w (length l) e)
            (omega arith) (h.1),
      )

  pub HoldsFrom-snoc :
      (a : ℕ → ℕ) (r w b : ℕ) (l : List ℕ)
      → w ≡ (r + length l) % word
      → r < word
      → a (w % size) ≡ b
      → HoldsFrom a r l
      → HoldsFrom a r (l ++ b ∷ [])
  HoldsFrom-snoc a r w b [] e s at h = (let d : r ≡ w = omega arith in rw d at, tt)
  HoldsFrom-snoc a r w b (x ∷ l) e s at h = (
    h.0,
    HoldsFrom-snoc a ((r + 1) % word) w b l (next_counter r w (length l) e) (omega arith) at (h.1),
  )
