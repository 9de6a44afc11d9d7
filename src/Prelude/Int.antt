-- ===== src/Prelude/Int.antt =====
-- Signed integers over the native numbers, for the C type `int`.
use Prim.Native.Nat.{ℕ, zero, suc, ◌+◌}
use mathlib.Core.Path.{◌≡◌}
use native.Mathlib.Omega.{arith}
use mathlib.Core.Bool.{Bool, true, false}
use shared_memory.Prelude.Tests.{◌==◌, ltb}

-- `negsuc n` is -(n + 1).
pub data ℤ : Type 0 where
  pos : ℕ → ℤ
  negsuc : ℕ → ℤ

-- the C constant -1
abbrev pub minus_one : ℤ
minus_one = negsuc 0

infix 50 ◌==ℤ◌
abbrev pub ◌==ℤ◌ : ℤ → ℤ → Bool
pos a ==ℤ pos b = a == b
pos a ==ℤ negsuc b = false
negsuc a ==ℤ pos b = false
negsuc a ==ℤ negsuc b = a == b

-- a + 1
abbrev pub incr : ℤ → ℤ
incr (pos n) = pos (n + 1)
incr (negsuc zero) = pos 0
incr (negsuc (suc n)) = negsuc n

-- a - 1
abbrev pub decr : ℤ → ℤ
decr (pos zero) = negsuc 0
decr (pos (suc n)) = pos n
decr (negsuc n) = negsuc (suc n)

-- the rounds of `for (i = 0; i <= a; i++)`
abbrev pub rounds : ℤ → ℕ
rounds (pos n) = n + 1
rounds (negsuc n) = 0

infix 50 ◌<ℤ◌
-- a < b, as a test
abbrev pub ◌<ℤ◌ : ℤ → ℤ → Bool
pos a <ℤ pos b = ltb a b
pos a <ℤ negsuc b = false
negsuc a <ℤ pos b = true
negsuc a <ℤ negsuc b = ltb b a

pub ==ℤ-refl : (a : ℤ) → (a ==ℤ a) ≡ true
==ℤ-refl (pos n) = ground arith
==ℤ-refl (negsuc n) = ground arith

pub eq_of_==ℤ : (a b : ℤ) → (a ==ℤ b) ≡ true → a ≡ b
eq_of_==ℤ (pos a) (pos b) h = ground arith
eq_of_==ℤ (pos a) (negsuc b) h = cc
eq_of_==ℤ (negsuc a) (pos b) h = cc
eq_of_==ℤ (negsuc a) (negsuc b) h = ground arith
