-- ===== src/Prelude/Arrays.antt =====
-- C arrays as functions from the index. The bounds stand in the code that reads and writes them.
use Prim.Native.Nat.{ℕ, zero, suc, ◌+◌, ◌≤◌, ◌<◌}
use mathlib.Core.Path.{◌≡◌, sym, ap, fun_ext}
use mathlib.Core.Bool.{Bool, ◌&&◌}
use mathlib.Core.Option.{Option, none, some}
use native.Mathlib.Omega.{arith}
use native.Mathlib.Decide.{dec_lt}
use shared_memory.Prelude.Tests.{◌==◌, ltb, leb, lt→ltb, if◌then◌else◌}

-- `i <= j && j < i + n`
abbrev pub in_range : ℕ → ℕ → ℕ → Bool
in_range i n j = leb i j && ltb j (i + n)

module _ {ℓ} {A : Type ℓ} where
  -- `a[i] = v`
  abbrev pub write : (ℕ → A) → ℕ → A → ℕ → A
  write a i v j = if j == i then v else a j

  pub write_write : (a : ℕ → A) (i : ℕ) (x y : A) → write (write a i x) i y ≡ write a i y
  write_write a i x y = fun_ext λ j. ground arith

  -- The `n` elements from `i` on passed through `f`.
  abbrev pub map_range : (A → A) → ℕ → ℕ → (ℕ → A) → ℕ → A
  map_range f i n a j = if in_range i n j then f (a j) else a j

  -- `for (k = 0; k < n; k++) a[i + k] = f(a[i + k])` over an array of `size` elements. `none` is an
  -- access out of bounds.
  pub update_loop : ℕ → (A → A) → ℕ → ℕ → (ℕ → A) → Option (ℕ → A)
  update_loop size f zero i a = some a
  update_loop size f (suc n) i a =
      if ltb i size then update_loop size f n (i + 1) (write a i (f (a i))) else none

  pub map_range-zero : (f : A → A) (i : ℕ) (a : ℕ → A) → map_range f i 0 a ≡ a
  map_range-zero f i a = fun_ext λ j. ground arith

  -- A write at `i` and then the range from `i + 1` on make up the range from `i` on.
  pub map_range-suc :
      (f : A → A) (i n : ℕ) (a : ℕ → A)
      → map_range f (i + 1) n (write a i (f (a i))) ≡ map_range f i (suc n) a
  map_range-suc f i n a = fun_ext λ j. ground arith

  -- Within the bounds the loop passes exactly its range through `f`.
  pub update_loop-ok :
      (size : ℕ) (f : A → A) (n i : ℕ) (a : ℕ → A)
      → i + n ≤ size
      → update_loop size f n i a ≡ some (map_range f i n a)
  unfolding update_loop
  update_loop-ok size f zero i a h = ap some (sym (map_range-zero f i a))
  update_loop-ok size f (suc n) i a h =
      ground (arith, update_loop-ok size f n (i + 1) (write a i (f (a i))), map_range-suc f i n a)

  -- At an index past the end the loop leaves the array at once.
  pub update_loop-out :
      (size : ℕ) (f : A → A) (n i : ℕ) (a : ℕ → A)
      → size ≤ i
      → update_loop size f (suc n) i a ≡ none
  unfolding update_loop
  update_loop-out size f n i a h = ground arith

  -- A range that reaches past the end is not gone through.
  pub update_loop-past :
      (size : ℕ) (f : A → A) (n i : ℕ) (a : ℕ → A)
      → i < size
      → size < i + n
      → update_loop size f n i a ≡ none
  unfolding update_loop
  update_loop-past size f zero i a h past = absurd (omega arith)
  update_loop-past size f (suc n) i a h past = elim (dec_lt (i + 1) size) [
    | yes p ↦
        rw (lt→ltb i size h)
          (update_loop-past size f n (i + 1) (write a i (f (a i))) p (omega arith))
    | no p ↦ rw (lt→ltb i size h) (past_end n (omega arith) (omega arith))
  ]
    where
      past_end :
          (n : ℕ)
          → size ≤ i + 1
          → size < i + suc n
          → update_loop size f n (i + 1) (write a i (f (a i))) ≡ none
      past_end zero e q = absurd (omega arith)
      past_end (suc n) e q = update_loop-out size f n (i + 1) (write a i (f (a i))) e
