-- ===== src/Bits.antt =====
-- Bytes in C: the bits of one, and integers of several, with the lowest byte first.
use shared_memory.Prelude.{
  ℕ, zero, suc, ◌+◌, ◌-◌, ◌*◌, ◌/◌, ◌%◌, ◌^◌, ◌<◌, ◌≡◌, ◌≢◌, refl, ap, Bool, true, false, arith,
  ◌==◌, if◌then◌else◌, in_range,
}

-- (x & (1 << k)) == 0
unfoldable pub is_clear : ℕ → ℕ → Bool
is_clear x zero = x % 2 == 0
is_clear x (suc k) = is_clear (x / 2) k

-- x | (1 << k)
unfoldable pub set_bit : ℕ → ℕ → ℕ
set_bit x zero = if x % 2 == 0 then x + 1 else x
set_bit x (suc k) = x % 2 + 2 * set_bit (x / 2) k

-- x & ~(1 << k)
unfoldable pub clear_bit : ℕ → ℕ → ℕ
clear_bit x zero = if x % 2 == 0 then x else x - 1
clear_bit x (suc k) = x % 2 + 2 * clear_bit (x / 2) k

half : (r y : ℕ) → r < 2 → (r + 2 * y) / 2 ≡ y
half r y h = omega arith

rest : (r y : ℕ) → r < 2 → (r + 2 * y) % 2 ≡ r
rest r y h = omega arith

bit_small : (x : ℕ) → x % 2 < 2
bit_small x = omega arith

pub is_clear-set_bit_self : (x k : ℕ) → is_clear (set_bit x k) k ≡ false
unfolding is_clear set_bit
is_clear-set_bit_self x zero = ground arith
is_clear-set_bit_self x (suc k) =
    rw (half (x % 2) (set_bit (x / 2) k) (bit_small x)) (is_clear-set_bit_self (x / 2) k)

pub is_clear-clear_bit_self : (x k : ℕ) → is_clear (clear_bit x k) k ≡ true
unfolding is_clear clear_bit
is_clear-clear_bit_self x zero = ground arith
is_clear-clear_bit_self x (suc k) =
    rw (half (x % 2) (clear_bit (x / 2) k) (bit_small x)) (is_clear-clear_bit_self (x / 2) k)

pub is_clear-set_bit_other : (x j k : ℕ) → j ≢ k → is_clear (set_bit x k) j ≡ is_clear x j
unfolding is_clear set_bit
is_clear-set_bit_other x zero zero h = absurd (h refl)
is_clear-set_bit_other x zero (suc k) h = rw (rest (x % 2) (set_bit (x / 2) k) (bit_small x)) refl
is_clear-set_bit_other x (suc j) zero h = ap (λ y. is_clear y j) (ground arith)
is_clear-set_bit_other x (suc j) (suc k) h =
    rw (half (x % 2) (set_bit (x / 2) k) (bit_small x))
      (is_clear-set_bit_other (x / 2) j k (λ e. h (ap suc e)))

pub clear_bit-set_bit : (x k : ℕ) → is_clear x k ≡ true → clear_bit (set_bit x k) k ≡ x
unfolding is_clear set_bit clear_bit
clear_bit-set_bit x zero h = ground arith
clear_bit-set_bit x (suc k) h =
    let ih = clear_bit-set_bit (x / 2) k h in
    rw
      (
        rest (x % 2) (set_bit (x / 2) k) (bit_small x),
        half (x % 2) (set_bit (x / 2) k) (bit_small x),
        ih,
      )
      (omega arith)

pub is_clear-clear_bit_other : (x j k : ℕ) → j ≢ k → is_clear (clear_bit x k) j ≡ is_clear x j
unfolding is_clear clear_bit
is_clear-clear_bit_other x zero zero h = absurd (h refl)
is_clear-clear_bit_other x zero (suc k) h =
    rw (rest (x % 2) (clear_bit (x / 2) k) (bit_small x)) refl
is_clear-clear_bit_other x (suc j) zero h = ap (λ y. is_clear y j) (ground arith)
is_clear-clear_bit_other x (suc j) (suc k) h =
    rw (half (x % 2) (clear_bit (x / 2) k) (bit_small x))
      (is_clear-clear_bit_other (x / 2) j k (λ e. h (ap suc e)))

-- An integer of two bytes at an index of an array of bytes, and one of four
abbrev pub short_at : (ℕ → ℕ) → ℕ → ℕ
short_at m a = m a % 256 + 256 * (m (a + 1) % 256)

abbrev pub word_at : (ℕ → ℕ) → ℕ → ℕ
word_at m a =
    m a % 256 + 256 * (m (a + 1) % 256) + 65536 * (m (a + 2) % 256) + 16777216 * (m (a + 3) % 256)

-- `n` bytes of an integer are written at an index.
abbrev pub put_int : ℕ → ℕ → ℕ → (ℕ → ℕ) → ℕ → ℕ
put_int n a v m x = if in_range a n x then v / 256 ^ (x - a) % 256 else m x
