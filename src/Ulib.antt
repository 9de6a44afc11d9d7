-- ===== src/Ulib.antt =====
-- ulib.c: the string functions of the user programs, over the memory as a function from addresses. A
-- string without an end runs out of fuel.
pub mod Numbers
use shared_memory.Prelude.{
  ℕ, zero, suc, ◌+◌, ◌-◌, ◌*◌, ◌<◌, ◌^◌, Bool, true, false, not, ◌&&◌, ◌||◌, Option, none, some,
  List, [], ◌∷◌, leb, ltb, ◌==◌, if◌then◌else◌, write, ℤ, Outcome, ok, fault, out_of_fuel, ◌>>=◌,
}
use shared_memory.Proc.{int_limit}
use shared_memory.Strings.{byte_diff}

-- The loop of strcpy(s, t)
unfoldable pub strcpy : ℕ → ℕ → ℕ → (ℕ → ℕ) → Outcome (ℕ → ℕ)
strcpy zero s t m = out_of_fuel
strcpy (suc fuel) s t m =
    let rest = strcpy fuel (s + 1) (t + 1) (write m s (m t)) in
    if m t == 0 then ok (write m s (m t)) else rest

-- strcmp(p, q)
unfoldable pub strcmp : ℕ → ℕ → ℕ → (ℕ → ℕ) → Outcome ℤ
strcmp zero p q m = out_of_fuel
strcmp (suc fuel) p q m =
    let rest = strcmp fuel (p + 1) (q + 1) m in
    if not (m p == 0) && m p == m q then rest else ok (byte_diff (m p) (m q))

-- strlen(s) with the count at `n`
unfoldable pub strlen : ℕ → ℕ → (ℕ → ℕ) → ℕ → Outcome ℕ
strlen zero s m n = out_of_fuel
strlen (suc fuel) s m n =
    let rest = strlen fuel s m (n + 1) in if m (s + n) == 0 then ok n else rest

-- strchr(s, c): the address, or none for 0
unfoldable pub strchr : ℕ → ℕ → ℕ → (ℕ → ℕ) → Outcome (Option ℕ)
strchr zero s c m = out_of_fuel
strchr (suc fuel) s c m =
    let rest = strchr fuel (s + 1) c m in
    if m s == 0 then ok none else if m s == c then ok (some s) else rest

-- c == '\\n' || c == '\\r'
abbrev pub ends_input : ℕ → Bool
ends_input c = c == 10 || c == 13

-- The loop of gets() with `n` places before the last one, at the address `a`: what is left of the bytes
-- that read() gives, and buf[i] = '\\0' after it
unfoldable pub gets_loop : ℕ → ℕ → List ℕ → (ℕ → ℕ) → (ℕ → ℕ) × List ℕ
gets_loop zero a input m = (write m a 0, input)
gets_loop (suc n) a [] m = (write m a 0, [])
gets_loop (suc n) a (c ∷ input) m =
    let rest = gets_loop n (a + 1) input (write m a c) in
    if ends_input c then (write (write m a c) (a + 1) 0, input) else rest

-- gets(buf, max)
unfoldable pub gets : ℕ → ℕ → List ℕ → (ℕ → ℕ) → (ℕ → ℕ) × List ℕ
gets buf max input m = gets_loop (max - 1) buf input m

-- '0' <= *s && *s <= '9'
abbrev pub is_digit : ℕ → Bool
is_digit c = leb 48 c && leb c 57

-- The loop of atoi(s): n*10 + *s must be an int.
unfoldable pub atoi_loop : ℕ → ℕ → (ℕ → ℕ) → ℕ → Outcome ℕ
atoi_loop zero s m n = out_of_fuel
atoi_loop (suc fuel) s m n =
    let rest = atoi_loop fuel (s + 1) m (n * 10 + m s - 48) in
    if not (is_digit (m s)) then ok n else if leb int_limit (n * 10 + m s) then fault else rest

-- atoi(s)
unfoldable pub atoi : ℕ → ℕ → (ℕ → ℕ) → Outcome ℕ
atoi fuel s m = atoi_loop fuel s m 0
