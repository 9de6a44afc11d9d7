-- ===== src/Strings.antt =====
-- string.c: the functions on bytes, over the memory as a function from addresses.
pub mod Laws
use shared_memory.Prelude.{
  ℕ, zero, suc, ◌+◌, ◌-◌, not, ◌&&◌, ltb, leb, ◌==◌, if◌then◌else◌, write, ℤ, pos, negsuc,
}

-- while(n-- > 0) *d++ = *s++;
unfoldable pub copy_forward : ℕ → ℕ → ℕ → (ℕ → ℕ) → ℕ → ℕ
copy_forward zero d s m = m
copy_forward (suc n) d s m = copy_forward n (d + 1) (s + 1) (write m d (m s))

-- while(n-- > 0) *--d = *--s; with `n` bytes to go the pointers stand at d + n and s + n.
unfoldable pub copy_backward : ℕ → ℕ → ℕ → (ℕ → ℕ) → ℕ → ℕ
copy_backward zero d s m = m
copy_backward (suc n) d s m = copy_backward n d s (write m (d + n) (m (s + n)))

-- memmove(d, s, n), byte by byte
unfoldable pub move : ℕ → ℕ → ℕ → (ℕ → ℕ) → ℕ → ℕ
move d s n m = if ltb s d && ltb d (s + n) then copy_backward n d s m else copy_forward n d s m

-- The difference of two bytes, as an `int`.
abbrev pub byte_diff : ℕ → ℕ → ℤ
byte_diff a b = if leb b a then pos (a - b) else negsuc (b - a - 1)

-- memcmp(p, q, n)
unfoldable pub memcmp : ℕ → ℕ → ℕ → (ℕ → ℕ) → ℤ
memcmp zero p q m = pos 0
memcmp (suc n) p q m =
    let rest = memcmp n (p + 1) (q + 1) m in
    if not (m p == m q) then byte_diff (m p) (m q) else rest

-- strncmp(p, q, n)
unfoldable pub strncmp : ℕ → ℕ → ℕ → (ℕ → ℕ) → ℤ
strncmp zero p q m = pos 0
strncmp (suc n) p q m =
    let rest = strncmp n (p + 1) (q + 1) m in
    if not (m p == 0) && m p == m q then rest else byte_diff (m p) (m q)

-- while(n-- > 0) *s++ = 0;
unfoldable pub fill_zero : ℕ → ℕ → (ℕ → ℕ) → ℕ → ℕ
fill_zero zero s m = m
fill_zero (suc n) s m = fill_zero n (s + 1) (write m s 0)

-- strncpy(s, t, n)
unfoldable pub strncpy : ℕ → ℕ → ℕ → (ℕ → ℕ) → ℕ → ℕ
unfolding fill_zero
strncpy zero s t m = m
strncpy (suc n) s t m =
    let rest = strncpy n (s + 1) (t + 1) (write m s (m t)) in
    if m t == 0 then fill_zero n (s + 1) (write m s (m t)) else rest

-- The loop of safestrcpy() and the final NUL, with at most `n` bytes to copy.
unfoldable pub safe_loop : ℕ → ℕ → ℕ → (ℕ → ℕ) → ℕ → ℕ
safe_loop zero s t m = write m s 0
safe_loop (suc n) s t m =
    let rest = safe_loop n (s + 1) (t + 1) (write m s (m t)) in
    if m t == 0 then write (write m s (m t)) (s + 1) 0 else rest

-- safestrcpy(s, t, n)
unfoldable pub safestrcpy : ℕ → ℕ → ℕ → (ℕ → ℕ) → ℕ → ℕ
safestrcpy zero s t m = m
safestrcpy (suc n) s t m = safe_loop n s t m
