-- ===== src/Pipe/Ring.antt =====
-- pipe.c: the ring buffer is a queue of at most 512 bytes.
use shared_memory.Prelude.{
  ℕ, zero, suc, ◌+◌, ◌%◌, ◌≤◌, ◌<◌, ◌≡◌, ◌⊎◌, inl, inr, refl, sym, ap, ◌∙◌, false, List, [], ◌∷◌,
  ◌++◌, arith, length, ◌==◌, ==-refl, write,
}
use shared_memory.Layout.{word}
use shared_memory.Queue.{
  HoldsFrom, KeepsApart, HoldsFrom-write, HoldsFrom-snoc, next_counter, length_snoc,
}
use shared_memory.Pipe.{pipe_size, Pipe, is_full, is_empty, put, get, read_loop}

-- The pipe holds the bytes of the list, oldest first.
pub record Holds (p : Pipe) (l : List ℕ) : Type 0 where
  pub counters : p.nwrite ≡ (p.nread + length l) % word
  pub small : p.nread < word
  pub fits : length l ≤ pipe_size
  pub content : HoldsFrom pipe_size p.bytes p.nread l

-- Full and empty are told apart by the counters alone.
pub is_full_lem : (p : Pipe) (l : List ℕ) → Holds p l → is_full p ≡ (length l == pipe_size)
is_full_lem p l h = rw (h.counters) (full p.nread (length l) h.small h.fits)
  where
    full :
        (r n : ℕ)
        → r < word
        → n ≤ pipe_size
        → ((r + n) % word == (r + pipe_size) % word) ≡ (n == pipe_size)
    full r n s f = ground arith

pub is_empty_lem : (p : Pipe) (l : List ℕ) → Holds p l → is_empty p ≡ (length l == 0)
is_empty_lem p l h = rw (h.counters) (empty p.nread (length l) h.small h.fits)
  where
    empty : (r n : ℕ) → r < word → n ≤ pipe_size → (r == (r + n) % word) ≡ (n == 0)
    empty r n s f = ground arith

pipe-KeepsApart : KeepsApart pipe_size
pipe-KeepsApart r n s f d = omega arith

-- A byte that is put into a pipe that is not full is the last of the queue.
pub put-Holds :
    (b : ℕ) (p : Pipe) (l : List ℕ)
    → Holds p l
    → length l < pipe_size
    → Holds (put b p) (l ++ b ∷ [])
unfolding put
put-Holds b p l h room = record {
  counters = omega (arith, h.counters, length_snoc l b);
  small = h.small;
  fits = omega (arith, length_snoc l b);
  content =
      HoldsFrom-snoc pipe_size (write p.bytes (p.nwrite % pipe_size) b) p.nread p.nwrite b l
        h.counters h.small (rw (==-refl (p.nwrite % pipe_size)) refl)
        (HoldsFrom-write pipe_size pipe-KeepsApart p.bytes p.nread p.nwrite b l h.small h.counters
          room h.content);
}

-- The byte that is taken from a pipe is the first of the queue.
pub get-Holds :
    (b : ℕ) (p : Pipe) (l : List ℕ) → Holds p (b ∷ l) → ((get p).0 ≡ b) × Holds (get p).1 l
unfolding get
get-Holds b p l h = (
  h.content.0,
  record {
    counters = next_counter p.nread p.nwrite (length l) h.counters;
    small = omega arith;
    fits = omega (arith, h.fits);
    content = h.content.1;
  },
)

one_more :
    (k n : ℕ) (rest : List ℕ)
    → (k ≡ n) ⊎ ((rest ≡ []) × (k ≤ n))
    → (suc k ≡ suc n) ⊎ ((rest ≡ []) × (suc k ≤ suc n))
one_more k n rest (inl e) = inl (omega arith)
one_more k n rest (inr (e, f)) = inr (e, omega arith)

-- The loop of piperead() on a pipe that holds a queue takes the oldest bytes in their order, as many
-- as it is asked for or as there are, and leaves the rest.
pub read_loop_lem :
    (n : ℕ) (p : Pipe) (l : List ℕ)
    → Holds p l
    → (rest : List ℕ) × (l ≡ (read_loop n p).0 ++ rest)
      × Holds (read_loop n p).1 rest
      × ((length (read_loop n p).0 ≡ n) ⊎ ((rest ≡ []) × (length (read_loop n p).0 ≤ n)))
unfolding read_loop get
read_loop_lem zero p l h = (l, refl, h, inl refl)
read_loop_lem (suc n) p [] h = rw (is_empty_lem p [] h) ([], refl, h, inr (refl, omega arith))
read_loop_lem (suc n) p (b ∷ l) h =
    let (first, next) = get-Holds b p l h in
    let (rest, e, held, count) = read_loop_lem n (get p).1 l next in
    let open_end : is_empty p ≡ false = is_empty_lem p (b ∷ l) h ∙ ground arith in
    rw open_end (
      rest,
      ap (λ (z : List ℕ). b ∷ z) e
          ∙ ap (λ (x : ℕ). x ∷ ((read_loop n (get p).1).0 ++ rest)) (sym first),
      held,
      one_more (length (read_loop n (get p).1).0) n rest count,
    )
