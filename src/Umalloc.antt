-- ===== src/Umalloc.antt =====
-- umalloc.c: the allocator of the user programs.
pub mod Tails
use shared_memory.Prelude.{
  ℕ, zero, suc, ◌+◌, ◌-◌, ◌*◌, ◌/◌, ◌%◌, Bool, ◌&&◌, ◌||◌, Option, none, some, leb, ltb, ◌==◌,
  if◌then◌else◌, write, Outcome, ok, out_of_fuel, ◌>>=◌,
}
use shared_memory.Layout.{word}

-- sizeof(Header)
abbrev pub header_size : ℕ
header_size = 8

-- The headers in memory by their addresses, `freep` (none for 0), and the address of `base`
pub record Heap : Type 0 where
  pub next : ℕ → ℕ
  pub units : ℕ → ℕ
  pub freep : Option ℕ
  pub base : ℕ

abbrev pub set_next : ℕ → ℕ → Heap → Heap
set_next p q h = record h { next = write h.next p q }

abbrev pub set_units : ℕ → ℕ → Heap → Heap
set_units p n h = record h { units = write h.units p n }

-- p + n on headers
abbrev pub after : ℕ → ℕ → ℕ
after p n = (p + header_size * n) % word

-- bp > p && bp < p->s.ptr
abbrev pub is_between : ℕ → ℕ → Heap → Bool
is_between bp p h = ltb p bp && ltb bp (h.next p)

-- p >= p->s.ptr && (bp > p || bp < p->s.ptr)
abbrev pub is_at_end : ℕ → ℕ → Heap → Bool
is_at_end bp p h = leb (h.next p) p && (ltb p bp || ltb bp (h.next p))

-- The loop of free(): the block before `bp`
unfoldable pub find_place : ℕ → ℕ → ℕ → Heap → Outcome ℕ
find_place zero bp p h = out_of_fuel
find_place (suc fuel) bp p h =
    let rest = find_place fuel bp (h.next p) h in
    if is_between bp p h || is_at_end bp p h then ok p else rest

-- if(bp + bp->s.size == p->s.ptr) ... else ...
abbrev pub join_next : ℕ → ℕ → Heap → Heap
join_next bp p h =
    if after bp (h.units bp) == h.next p
    then set_next bp (h.next (h.next p)) (set_units bp ((h.units bp + h.units (h.next p)) % word) h)
    else set_next bp (h.next p) h

-- if(p + p->s.size == bp) ... else ...
abbrev pub join_previous : ℕ → ℕ → Heap → Heap
join_previous bp p h =
    if after p (h.units p) == bp
    then set_next p (h.next bp) (set_units p ((h.units p + h.units bp) % word) h)
    else set_next p bp h

abbrev pub insert_block : ℕ → ℕ → Heap → Heap
insert_block bp p h = let k = join_previous bp p (join_next bp p h) in record k { freep = some p }

-- The address in `freep`; before the first malloc() it is 0.
abbrev pub start : Heap → ℕ
start h = elim h.freep [ none ↦ 0 | some p ↦ p ]

-- free(ap), with at most `fuel` blocks in the list
unfoldable pub free_block : ℕ → ℕ → Heap → Outcome Heap
free_block fuel ap h =
    let bp = (ap + (word - header_size)) % word in
    do p ← find_place fuel bp (start h) h; ok (insert_block bp p h)

-- nu < 4096 ? 4096 : nu
abbrev pub at_least_4096 : ℕ → ℕ
at_least_4096 nu = if ltb nu 4096 then 4096 else nu

-- morecore(nu), with what sbrk() returns: none for -1
unfoldable pub morecore : ℕ → ℕ → Option ℕ → Heap → Outcome (Option ℕ × Heap)
morecore fuel nu none h = ok (none, h)
morecore fuel nu (some p) h = do
  h ← free_block fuel (after p 1) (set_units p (at_least_4096 nu) h)
  ok (h.freep, h)

-- The number of units for `nbytes`
abbrev pub units_for : ℕ → ℕ
units_for nbytes = ((nbytes + header_size - 1) % word / header_size + 1) % word

-- if((prevp = freep) == 0) { ... }
abbrev pub with_base : Heap → ℕ × Heap
with_base h = elim h.freep [
  | none ↦ (h.base, set_units h.base 0 (set_next h.base h.base (record h { freep = some h.base })))
  | some p ↦ (p, h)
]

-- A block that is large enough is taken whole, or its tail is.
abbrev pub take_block : ℕ → ℕ → ℕ → Heap → ℕ × Heap
take_block nunits prevp p h =
    if h.units p == nunits
    then (after p 1, record (set_next prevp (h.next p) h) { freep = some prevp })
    else (let left = h.units p - nunits in
        let q = after p left in
        (after q 1, record (set_units q nunits (set_units p left h)) { freep = some prevp }))

abbrev pub taken_block : ℕ × Heap → Option ℕ × Heap
taken_block (a, h) = (some a, h)

-- The loop of malloc(); `sbrk` is what each call of sbrk() in it returns, by the fuel that is left.
unfoldable pub malloc_loop : ℕ → (ℕ → Option ℕ) → ℕ → ℕ → ℕ → Heap → Outcome (Option ℕ × Heap)
malloc_loop zero sbrk nunits prevp p h = out_of_fuel
malloc_loop (suc fuel) sbrk nunits prevp p h =
    let rest = malloc_loop fuel sbrk nunits p (h.next p) h in
    let more_core = (do
      (q, h) ← morecore (suc fuel) nunits (sbrk fuel) h
      elim q [ none ↦ ok (none, h) | some q ↦ malloc_loop fuel sbrk nunits q (h.next q) h ]) in
    if leb nunits (h.units p)
    then ok (taken_block (take_block nunits prevp p h))
    else if p == start h
    then more_core
    else rest

-- malloc(nbytes): the address, or none for 0
unfoldable pub malloc : ℕ → (ℕ → Option ℕ) → ℕ → Heap → Outcome (Option ℕ × Heap)
malloc fuel sbrk nbytes h =
    let (prevp, h) = with_base h in malloc_loop fuel sbrk (units_for nbytes) prevp (h.next prevp) h
