-- ===== src/Ulib/Numbers.antt =====
-- atoi() of ulib.c: decimal numbers.
use shared_memory.Prelude.{
  ℕ, zero, suc, ◌+◌, ◌-◌, ◌*◌, ◌<◌, ◌≤◌, ◌≡◌, ◌∙◌, ap, true, false, List, [], ◌∷◌, arith, length,
  leb, ok,
}
use shared_memory.Proc.{int_limit}
use shared_memory.Ulib.{is_digit, atoi_loop, atoi}

-- Ten to the power of `n`
abbrev pub power_of_ten : ℕ → ℕ
power_of_ten zero = 1
power_of_ten (suc n) = 10 * power_of_ten n

-- The number whose decimal digits are those of the list, the highest one first
abbrev pub number : List ℕ → ℕ
number [] = 0
number (d ∷ ds) = d * power_of_ten (length ds) + number ds

-- The digits stand as characters at `s`, with something else behind them.
abbrev pub Digits : (ℕ → ℕ) → ℕ → List ℕ → Type 0
Digits m s [] = is_digit (m s) ≡ false
Digits m s (d ∷ ds) = (d < 10) × (m s ≡ 48 + d) × Digits m (s + 1) ds

power_of_ten-positive : (n : ℕ) → 1 ≤ power_of_ten n
power_of_ten-positive zero = omega arith
power_of_ten-positive (suc n) = omega (arith, power_of_ten-positive n)

grows : (n k : ℕ) → n ≤ n * power_of_ten k
grows n zero = omega arith
grows n (suc k) = omega (arith, grows n k)

atoi_loop_lem :
    (fuel : ℕ) (ds : List ℕ) (s : ℕ) (m : ℕ → ℕ) (n : ℕ)
    → length ds < fuel
    → Digits m s ds
    → n * power_of_ten (length ds) + number ds + 48 < int_limit
    → atoi_loop fuel s m n ≡ ok (n * power_of_ten (length ds) + number ds)
unfolding atoi_loop
atoi_loop_lem zero ds s m n lt d small = absurd (omega arith)
atoi_loop_lem (suc fuel) [] s m n lt d small = rw d (ap ok (omega arith))
atoi_loop_lem (suc fuel) (x ∷ ds) s m n lt (ten, at, d) small =
    let p = power_of_ten (length ds) in
    let next : n * 10 + m s - 48 ≡ n * 10 + x = omega arith in
    let e : (n * 10 + x) * p + number ds ≡ n * (10 * p) + (x * p + number ds) = omega arith in
    let room : n * 10 + x ≤ (n * 10 + x) * p = grows (n * 10 + x) (length ds) in
    let e1 : is_digit (m s) ≡ true = ground arith in
    let e2 : leb int_limit (n * 10 + m s) ≡ false = ground arith in
    rw (e1, e2, next)
      (atoi_loop_lem fuel ds (s + 1) m (n * 10 + x) (omega arith) d (omega arith) ∙ ap ok e)

-- atoi() of a text of decimal digits, with anything but a digit behind it, is the number that they stand
-- for, when this number is at least 48 below the end of the ints.
pub atoi_lem :
    (fuel : ℕ) (ds : List ℕ) (s : ℕ) (m : ℕ → ℕ)
    → length ds < fuel
    → Digits m s ds
    → number ds + 48 < int_limit
    → atoi fuel s m ≡ ok (number ds)
unfolding atoi
atoi_lem fuel ds s m lt d small =
    atoi_loop_lem fuel ds s m 0 lt d (omega arith) ∙ ap ok (omega arith)
