-- ===== src/Layout.antt =====
-- memlayout.h and mmu.h: the address space, and the page arithmetic on 32-bit addresses.
pub mod Rounding
use shared_memory.Prelude.{ℕ, ◌+◌, ◌-◌, ◌*◌, ◌/◌, ◌%◌, ◌^◌}

-- an address is a 32-bit word
abbrev pub word : ℕ
word = 2 ^ 32

abbrev pub page_size : ℕ
page_size = 4096

abbrev pub kern_base : ℕ
kern_base = 0x80000000

abbrev pub phys_top : ℕ
phys_top = 0xE000000

abbrev pub heap_limit : ℕ
heap_limit = 0x7F000000

abbrev pub shm_max_seg : ℕ
shm_max_seg = 4096

abbrev pub shm_min : ℕ
shm_min = 1024

abbrev pub max_seg_size : ℕ
max_seg_size = 16 * 1024 * 1024

-- a - b on unsigned integers
abbrev pub minus : ℕ → ℕ → ℕ
minus a b = (a + (word - b)) % word

-- The unsigned subtraction and addition wrap around.
unfoldable pub v2p : ℕ → ℕ
v2p a = (a + word - kern_base) % word

unfoldable pub p2v : ℕ → ℕ
p2v a = (a + kern_base) % word

-- `& ~(PGSIZE - 1)` clears the twelve low bits.
unfoldable pub pg_round_down : ℕ → ℕ
pg_round_down a = a - a % page_size

unfoldable pub pg_round_up : ℕ → ℕ
unfolding pg_round_down
pg_round_up a = pg_round_down ((a + page_size - 1) % word)

unfoldable pub pdx : ℕ → ℕ
pdx va = va / 2 ^ 22 % 1024

unfoldable pub ptx : ℕ → ℕ
ptx va = va / 2 ^ 12 % 1024

unfoldable pub pg_addr : ℕ → ℕ → ℕ → ℕ
pg_addr d t o = (d * 2 ^ 22 + t * 2 ^ 12 + o) % word
