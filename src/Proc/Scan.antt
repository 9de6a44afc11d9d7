-- ===== src/Proc/Scan.antt =====
-- The loops of proc.c that look for the first slot that passes a test.
use shared_memory.Prelude.{
  ℕ, zero, suc, ◌+◌, ◌≤◌, ◌<◌, ◌≡◌, Bool, true, false, Option, none, some, arith, ap, inl, inr,
  Bool-cases,
}
use native.Mathlib.Decide.{dec_lt}
use shared_memory.Proc.{scan}

-- The first of the slots from `i` to `end` that passes, or none if there is none.
abbrev pub FirstFrom : (ℕ → Bool) → ℕ → ℕ → Option ℕ → Type 0
FirstFrom test i end none = (j : ℕ) → i ≤ j → j < end → test j ≡ false
FirstFrom test i end (some r) =
    (i ≤ r) × (r < end) × (test r ≡ true) × ((j : ℕ) → i ≤ j → j < r → test j ≡ false)

pub FirstFrom-later :
    (test : ℕ → Bool) (i end : ℕ) (r : Option ℕ)
    → test i ≡ false
    → FirstFrom test (i + 1) end r
    → FirstFrom test i end r
FirstFrom-later test i end none h f = λ j a b. elim (dec_lt i j) [
  | yes p ↦ f j (omega arith) b
  | no p ↦ (let e : j ≡ i = omega arith in rw e h)
]
FirstFrom-later test i end (some r) h f = (
  omega (arith, f.0),
  f.1,
  f.2,
  λ j a b. elim (dec_lt i j) [
    | yes p ↦ f.3 j (omega arith) b
    | no p ↦ (let e : j ≡ i = omega arith in rw e h)
  ],
)

pub scan-FirstFrom :
    (test : ℕ → Bool) (n i end : ℕ) → i + n ≡ end → FirstFrom test i end (scan test n i)
unfolding scan
scan-FirstFrom test zero i end e = λ j a b. absurd (omega arith)
scan-FirstFrom test (suc n) i end e = elim (Bool-cases (test i)) [
  | inl h ↦ rw h (omega arith, omega arith, h, λ j a b. absurd (omega arith))
  | inr h ↦ rw h (
      FirstFrom-later test i end (scan test n (i + 1)) h
        (scan-FirstFrom test n (i + 1) end (omega arith)))
]

not_both : (b : Bool) → b ≡ false → b ≡ true → ⊥
not_both b p q = cc

pub FirstFrom-unique :
    (test : ℕ → Bool) (i end s : ℕ) (r : Option ℕ)
    → FirstFrom test i end r
    → FirstFrom test i end (some s)
    → r ≡ some s
FirstFrom-unique test i end s none f g = absurd (not_both (test s) (f s g.0 g.1) g.2)
FirstFrom-unique test i end s (some r) f g = elim (dec_lt r s) [
  | yes p ↦ absurd (not_both (test r) (g.3 r f.0 p) f.2)
  | no p ↦ elim (dec_lt s r) [
    | yes q ↦ absurd (not_both (test s) (f.3 s g.0 q) g.2)
    | no q ↦ ap some (omega arith)
  ]
]

-- A search that goes on behind slots that do not pass
pub FirstFrom-extend :
    (test : ℕ → Bool) (i m end : ℕ) (r : Option ℕ)
    → i ≤ m
    → ((j : ℕ) → i ≤ j → j < m → j < end → test j ≡ false)
    → FirstFrom test m end r
    → FirstFrom test i end r
FirstFrom-extend test i m end none le h f =
    λ j a b. elim (dec_lt j m) [ yes p ↦ h j a p b | no p ↦ f j (omega arith) b ]
FirstFrom-extend test i m end (some r) le h f = (
  omega (arith, f.0),
  f.1,
  f.2,
  λ j a b. elim (dec_lt j m) [
    | yes p ↦ h j a p (omega (arith, f.1))
    | no p ↦ f.3 j (omega arith) b
  ],
)
