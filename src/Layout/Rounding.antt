-- ===== src/Layout/Rounding.antt =====
-- The address arithmetic of memlayout.h and mmu.h: translation, rounding, page table indices.
use shared_memory.Prelude.{ℕ, ◌+◌, ◌*◌, ◌/◌, ◌%◌, ◌≤◌, ◌<◌, ◌≡◌, arith}
use shared_memory.Layout.{word, page_size, v2p, p2v, pg_round_up, pdx, ptx, pg_addr}

-- For each 32-bit word, V2P and P2V undo one another, and are the same function: both flip the top
-- bit.
pub v2p-p2v : (a : ℕ) → a < word → (v2p (p2v a) ≡ a) × (p2v (v2p a) ≡ a) × (v2p a ≡ p2v a)
unfolding v2p p2v
v2p-p2v a h = omega arith

-- PGROUNDUP of a word at most 2^32 - 4096 is the least multiple of the page size that is not below
-- it; for a word above that the sum wraps around and the result is 0.
pub pg_round_up_lem :
    (a : ℕ)
    → a < word
    → (a + page_size ≤ word
        → (pg_round_up a % page_size ≡ 0) × (a ≤ pg_round_up a) × (pg_round_up a < a + page_size))
      × (word < a + page_size → pg_round_up a ≡ 0)
unfolding pg_round_up
pg_round_up_lem a h = (λ p. omega arith, λ p. omega arith)

-- A size from 1 to the largest segment size rounds up to between 1 and 4096 whole pages.
pub pg_round_up_pages :
    (a : ℕ)
    → 0 < a
    → a ≤ 4096 * 4096
    → (0 < pg_round_up a / page_size)
      × (pg_round_up a / page_size ≤ 4096)
      × (pg_round_up a / page_size * page_size ≡ pg_round_up a)
unfolding pg_round_up
pg_round_up_pages a h k = omega arith

-- PGADDR puts together what PDX, PTX and the offset take apart, and the three parts stay within
-- their ranges.
pub pg_addr_lem :
    (va : ℕ)
    → va < word
    → (pg_addr (pdx va) (ptx va) (va % page_size) ≡ va) × (pdx va < 1024) × (ptx va < 1024)
unfolding pdx ptx pg_addr
pg_addr_lem va h = omega arith

-- Two page-aligned words with the same directory and table index are equal.
pub page_injective :
    (a b : ℕ)
    → a < word
    → b < word
    → a % page_size ≡ 0
    → b % page_size ≡ 0
    → pdx a ≡ pdx b
    → ptx a ≡ ptx b
    → a ≡ b
unfolding pdx ptx
page_injective a b ha hb pa pb d t = omega arith
