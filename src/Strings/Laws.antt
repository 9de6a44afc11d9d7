-- ===== src/Strings/Laws.antt =====
-- string.c: memmove() on areas that overlap, and the string copies that end in a NUL.
use shared_memory.Prelude.{
  ℕ, zero, suc, ◌+◌, ◌≤◌, ◌<◌, ◌≡◌, ◌⊎◌, inl, inr, refl, ◌∙◌, fun_ext, ◌&&◌, arith, ltb, ==-refl,
  ◌==◌, Bool-cases, write,
}
use shared_memory.Uvm.{memmove}
use shared_memory.Strings.{copy_forward, copy_backward, move, safe_loop, safestrcpy}

forward_lem :
    (n d s : ℕ) (m : ℕ → ℕ) (x : ℕ)
    → (d ≤ s) ⊎ (s + n ≤ d)
    → copy_forward n d s m x ≡ memmove m d s n x
unfolding copy_forward
forward_lem zero d s m x h = ground arith
forward_lem (suc n) d s m x h =
    forward_lem n (d + 1) (s + 1) (write m d (m s)) x (ground arith) ∙ ground arith

backward_lem : (n d s : ℕ) (m : ℕ → ℕ) (x : ℕ) → s < d → copy_backward n d s m x ≡ memmove m d s n x
unfolding copy_backward
backward_lem zero d s m x h = ground arith
backward_lem (suc n) d s m x h = backward_lem n d s (write m (d + n) (m (s + n))) x h ∙ ground arith

-- memmove() copies as if it read all of the source before it wrote: each of the `n` bytes from the
-- target on is the byte that the source had, and no other byte changes, however the areas overlap.
pub move_lem : (d s n : ℕ) (m : ℕ → ℕ) → move d s n m ≡ memmove m d s n
unfolding move
move_lem d s n m = fun_ext λ x. elim (Bool-cases (ltb s d && ltb d (s + n))) [
  | inl h ↦ rw h (backward_lem n d s m x (ground arith))
  | inr h ↦ rw h (forward_lem n d s m x (ground arith))
]

safe_loop_lem :
    (n s t : ℕ) (m : ℕ → ℕ)
    → ((k : ℕ) × (k ≤ n) × (safe_loop n s t m (s + k) ≡ 0))
      × ((x : ℕ) → (x < s) ⊎ (s + n < x) → safe_loop n s t m x ≡ m x)
unfolding safe_loop
safe_loop_lem zero s t m = ((0, omega arith, ground arith), λ x h. ground arith)
safe_loop_lem (suc n) s t m = elim (Bool-cases (m t == 0)) [
  | inl z ↦ rw z ((1, omega arith, rw (==-refl (s + 1)) refl), λ x h. ground arith)
  | inr z ↦
      let ((k, inside, end), kept) = safe_loop_lem n (s + 1) (t + 1) (write m s (m t)) in
      let at : s + 1 + k ≡ s + (k + 1) = omega arith in
      rw z ((k + 1, omega arith, rw at at end), λ x h. kept x (ground arith) ∙ ground arith)
]

-- safestrcpy() into a buffer of at least one byte writes nothing outside the buffer, and leaves a
-- NUL within it, whatever the source is.
pub safestrcpy_lem :
    (s t n : ℕ) (m : ℕ → ℕ)
    → 0 < n
    → ((k : ℕ) × (k < n) × (safestrcpy n s t m (s + k) ≡ 0))
      × ((x : ℕ) → (x < s) ⊎ (s + n ≤ x) → safestrcpy n s t m x ≡ m x)
unfolding safestrcpy
safestrcpy_lem s t zero m h = absurd (omega arith)
safestrcpy_lem s t (suc n) m h =
    let ((k, inside, end), kept) = safe_loop_lem n s t m in
    ((k, omega arith, end), λ x h. kept x (ground arith))
