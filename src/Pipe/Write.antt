-- ===== src/Pipe/Write.antt =====
-- pipewrite(): how much of the bytes gets into the pipe, and how the call then stands.
use shared_memory.Prelude.{
  ℕ, zero, suc, ◌+◌, ◌≤◌, ◌<◌, ◌≡◌, inl, inr, refl, sym, ap, ◌∙◌, Bool, true, false, not, ◌||◌,
  List, [], ◌∷◌, ◌++◌, arith, length, ◌==◌, ==_iff, Bool-cases, pos, minus_one, Outcome, ok,
}
use shared_memory.Proc.{Channel, ProcTable, wakeup}
use shared_memory.Proc.Wakeup.{wakeup_lem}
use shared_memory.Pipe.{
  pipe_size, Pipe, PipeState, read_channel, write_channel, Progress, returned, sleeps, is_full, put,
  with_pipe, write_loop,
}
use shared_memory.Queue.{length_snoc}
use shared_memory.Pipe.Ring.{Holds, is_full_lem, put-Holds}

-- The `n` bytes from `addr` on.
abbrev pub bytes_at : (ℕ → ℕ) → ℕ → ℕ → List ℕ
bytes_at mem addr zero = []
bytes_at mem addr (suc n) = mem addr ∷ bytes_at mem (addr + 1) n

woken_procs :
    (c : Channel) (t : ProcTable)
    → t.lock ≡ false
    → (u : ProcTable) × (wakeup c t ≡ ok u) × (u.lock ≡ false)
woken_procs c t free =
    let (u, run, a, b, d, e, unlocked) = wakeup_lem c t free in (u, run, unlocked)

append_one : (l l' : List ℕ) (b : ℕ) → (l ++ b ∷ []) ++ l' ≡ l ++ b ∷ l'
append_one [] l' b = refl
append_one (x ∷ l) l' b = ap (λ (z : List ℕ). x ∷ z) (append_one l l' b)

-- How a call stands that has put `k` of its bytes into a pipe that held the list before: it has
-- returned with all of them in; or the pipe is full, and it has returned -1 because nobody can read
-- or it has been killed, or it sleeps until there is room for the others.
pub record Wrote (p all addr : ℕ) (mem : ℕ → ℕ) (n : ℕ) (killed : Bool) (s : PipeState) (l : List ℕ)
    (r : Progress) (s' : PipeState) : Type 0 where
  pub count : ℕ
  pub at_most : count ≤ n
  pub holds : Holds s'.pipe (l ++ bytes_at mem addr count)
  pub finished :
      length l + n ≤ pipe_size → (count ≡ n) × (r ≡ returned (pos all)) × (s'.pipe.lock ≡ false)
  pub blocked :
      pipe_size < length l + n
      → (length l + count ≡ pipe_size)
        × ((not s.pipe.readopen || killed) ≡ true
            → (r ≡ returned minus_one) × (s'.pipe.lock ≡ false))
        × ((not s.pipe.readopen || killed) ≡ false
            → (left : ℕ) × (count + left ≡ n)
              × (r ≡ sleeps (write_channel p) left)
              × (s'.pipe.lock ≡ true))

append_nil : (l : List ℕ) → l ++ [] ≡ l
append_nil [] = refl
append_nil (x ∷ l) = ap (λ (z : List ℕ). x ∷ z) (append_nil l)

Holds-unlock : (p : Pipe) (l : List ℕ) → Holds p l → Holds (record p { lock = false }) l
Holds-unlock p l h = record {
  counters = h.counters;
  small = h.small;
  fits = h.fits;
  content = h.content;
}

full_length : (p : Pipe) (l : List ℕ) → Holds p l → is_full p ≡ true → length l ≡ pipe_size
full_length p l h f = (==_iff (length l) pipe_size).0 (sym (is_full_lem p l h) ∙ f)

room_left : (p : Pipe) (l : List ℕ) → Holds p l → is_full p ≡ false → length l < pipe_size
room_left p l h f = small (length l) h.fits (sym (is_full_lem p l h) ∙ f)
  where
    small : (n : ℕ) → n ≤ pipe_size → (n == pipe_size) ≡ false → n < pipe_size
    small n a b = ground arith

module _ (p all : ℕ) (mem : ℕ → ℕ) (killed : Bool) where
  abbrev pub After : ℕ → ℕ → PipeState → List ℕ → Outcome (Progress × PipeState) → Type 0
  After addr n s l o =
      (r : Progress) × (s' : PipeState) × (o ≡ ok (r, s')) × Wrote p all addr mem n killed s l r s'

  stopped :
      (addr n : ℕ) (s : PipeState) (l : List ℕ)
      → s.procs.lock ≡ false
      → s.pipe.lock ≡ true
      → Holds s.pipe l
      → is_full s.pipe ≡ true
      → After addr (suc n) s l (write_loop p all addr mem (suc n) killed s)
  unfolding write_loop
  stopped addr n s l free held h f =
      let len = full_length s.pipe l h f in
      elim (Bool-cases (not s.pipe.readopen || killed)) [
        | inl gone ↦ (
          returned minus_one,
          record s { pipe = record (s.pipe) { lock = false } },
          rw (f, gone, held) refl,
          record {
            count = 0;
            at_most = omega arith;
            holds = rw (append_nil l) (Holds-unlock s.pipe l h);
            finished = λ q. absurd (omega arith);
            blocked = λ q. (omega arith, λ g. (refl, refl), λ g. cc);
          },
        )
        | inr here ↦
            let (t, run, unlocked) = woken_procs (read_channel p) s.procs free in
            (
              sleeps (write_channel p) (suc n),
              record s { procs = t },
              rw (f, here, run) refl,
              record {
                count = 0;
                at_most = omega arith;
                holds = rw (append_nil l) h;
                finished = λ q. absurd (omega arith);
                blocked = λ q. (omega arith, λ g. cc, λ g. (suc n, omega arith, refl, held));
              },
            )
      ]

  one_more_byte :
      (n addr : ℕ) (s : PipeState) (l : List ℕ) (r : Progress) (s' : PipeState)
      → Wrote p all (addr + 1) mem n killed (with_pipe (put (mem addr)) s) (l ++ mem addr ∷ []) r s'
      → Wrote p all addr mem (suc n) killed s l r s'
  unfolding put
  one_more_byte n addr s l r s' w =
      let len = length_snoc l (mem addr) in
      record {
        count = suc w.count;
        at_most = omega (arith, w.at_most);
        holds = rw (append_one l (bytes_at mem (addr + 1) w.count) (mem addr)) at (w.holds);
        finished = λ q. (let (a, b, c) = w.finished (omega arith) in (omega arith, b, c));
        blocked = λ q.
            (let (a, b, c) = w.blocked (omega arith) in
              (omega arith, b, λ g. (let (left, d, e, f) = c g in (left, omega arith, e, f))));
      }

  -- The loop of pipewrite() with the lock of the pipe held and the process table unlocked, on a pipe
  -- that holds the queue `l`: it adds its bytes
  -- at the end of the queue in their order, and never loses one. If all of them fit it returns the
  -- number that it was called with. Otherwise the pipe ends full: with no reader left or the process
  -- killed the call returns -1, and else it sleeps, with the lock held, until the others fit.
  pub write_loop_lem :
      (n addr : ℕ) (s : PipeState) (l : List ℕ)
      → s.procs.lock ≡ false
      → s.pipe.lock ≡ true
      → Holds s.pipe l
      → After addr n s l (write_loop p all addr mem n killed s)
  unfolding write_loop put
  write_loop_lem zero addr s l free held h =
      let (t, run, unlocked) = woken_procs (read_channel p) s.procs free in
      (
        returned (pos all),
        record { pipe = record (s.pipe) { lock = false }; procs = t },
        rw (run, held) refl,
        record {
          count = 0;
          at_most = omega arith;
          holds = rw (append_nil l) (Holds-unlock s.pipe l h);
          finished = λ q. (refl, refl, refl);
          blocked = λ q. absurd (omega (arith, h.fits));
        },
      )
  write_loop_lem (suc n) addr s l free held h = elim (Bool-cases (is_full s.pipe)) [
    | inl f ↦ stopped addr n s l free held h f
    | inr f ↦
        let room = room_left s.pipe l h f in
        let (r, s', run, w) =
          write_loop_lem n (addr + 1) (with_pipe (put (mem addr)) s) (l ++ mem addr ∷ []) free held
            (put-Holds (mem addr) s.pipe l h room) in
        (r, s', rw f run, one_more_byte n addr s l r s' w)
  ]
