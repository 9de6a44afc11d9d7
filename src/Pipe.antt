-- ===== src/Pipe.antt =====
-- pipe.c: the ring buffer of a pipe, and its two ends.
pub mod Ring
pub mod Write
use shared_memory.Prelude.{
  ℕ, zero, suc, ◌+◌, ◌%◌, Bool, true, false, not, ◌&&◌, ◌||◌, List, [], ◌∷◌, ◌==◌, if◌then◌else◌,
  write, ℤ, pos, minus_one, Outcome, ok, ◌>>=◌, acquire, release,
}
use shared_memory.Layout.{word}
use shared_memory.Kalloc.{Kmem, kfree}
use shared_memory.Proc.{Channel, at_address, ProcTable, wakeup}

abbrev pub pipe_size : ℕ
pipe_size = 512

-- `struct pipe`; `bytes` is `data`, and the lock is whether this processor holds it.
pub record Pipe : Type 0 where
  pub lock : Bool
  pub bytes : ℕ → ℕ
  pub nread : ℕ
  pub nwrite : ℕ
  pub readopen : Bool
  pub writeopen : Bool

-- A pipe with the process table, whose sleepers it wakes.
pub record PipeState : Type 0 where
  pub pipe : Pipe
  pub procs : ProcTable

-- &p->nread and &p->nwrite, for the pipe at the address `p`: the fields behind a lock of 52 bytes
-- and the bytes
abbrev pub read_channel : ℕ → Channel
read_channel p = at_address (p + 52 + pipe_size)

abbrev pub write_channel : ℕ → Channel
write_channel p = at_address (p + 52 + pipe_size + 4)

abbrev pub wake : Channel → PipeState → Outcome PipeState
wake c s = do t ← wakeup c s.procs; ok (record s { procs = t })

abbrev pub lock_pipe : PipeState → Outcome PipeState
lock_pipe s = do l ← acquire s.pipe.lock; ok (record s { pipe = record (s.pipe) { lock = l } })

abbrev pub unlock_pipe : PipeState → Outcome PipeState
unlock_pipe s = do l ← release s.pipe.lock; ok (record s { pipe = record (s.pipe) { lock = l } })

-- How a call stands: it has returned, or it goes to sleep on the channel with so many bytes to go.
pub data Progress : Type 0 where
  returned : ℤ → Progress
  sleeps : Channel → ℕ → Progress

-- p->nwrite == p->nread + PIPESIZE
abbrev pub is_full : Pipe → Bool
is_full p = p.nwrite == (p.nread + pipe_size) % word

-- p->nread == p->nwrite
abbrev pub is_empty : Pipe → Bool
is_empty p = p.nread == p.nwrite

-- p->data[p->nwrite++ % PIPESIZE] = b
unfoldable pub put : ℕ → Pipe → Pipe
put b p = record p {
  bytes = write p.bytes (p.nwrite % pipe_size) b;
  nwrite = (p.nwrite + 1) % word;
}

-- p->data[p->nread++ % PIPESIZE], and the pipe after it
unfoldable pub get : Pipe → ℕ × Pipe
get p = (p.bytes (p.nread % pipe_size), record p { nread = (p.nread + 1) % word })

abbrev pub with_pipe : (Pipe → Pipe) → PipeState → PipeState
with_pipe f s = record s { pipe = f s.pipe }

-- The loop of pipewrite() with the lock held and `n` bytes from `addr` on to go, for the pipe at `p`
-- and a total of `all` bytes: to the end, to an error, or to the next sleep().
unfoldable pub write_loop :
    ℕ → ℕ → ℕ → (ℕ → ℕ) → ℕ → Bool → PipeState → Outcome (Progress × PipeState)
write_loop p all addr mem zero killed s = do
  s ← wake (read_channel p) s
  s ← unlock_pipe s
  ok (returned (pos all), s)
write_loop p all addr mem (suc n) killed s =
    let rest = write_loop p all (addr + 1) mem n killed (with_pipe (put (mem addr)) s) in
    if is_full s.pipe
    then (if not s.pipe.readopen || killed
        then (do s ← unlock_pipe s; ok (returned minus_one, s))
        else (do s ← wake (read_channel p) s; ok (sleeps (write_channel p) (suc n), s)))
    else rest

-- pipewrite(p, addr, n), up to its first sleep()
unfoldable pub pipewrite : ℕ → ℕ → (ℕ → ℕ) → ℕ → Bool → PipeState → Outcome (Progress × PipeState)
pipewrite p addr mem n killed s = do s ← lock_pipe s; write_loop p n addr mem n killed s

-- The for loop of piperead() with `n` bytes to go: the bytes that it reads.
unfoldable pub read_loop : ℕ → Pipe → List ℕ × Pipe
unfolding get
read_loop zero p = ([], p)
read_loop (suc n) p =
    let (l, p') = read_loop n (get p).1 in if is_empty p then ([], p) else ((get p).0 ∷ l, p')

-- How a call of piperead() stands: it has stored these bytes at `addr` and returned their number, it
-- has returned -1, or it goes to sleep on the channel.
pub data ReadProgress : Type 0 where
  got : List ℕ → ReadProgress
  refused : ReadProgress
  waits : Channel → ReadProgress

-- piperead() with the lock held, up to its next sleep()
unfoldable pub read_locked : ℕ → ℕ → Bool → PipeState → Outcome (ReadProgress × PipeState)
read_locked p n killed s =
    if is_empty s.pipe && s.pipe.writeopen
    then (if killed
        then (do s ← unlock_pipe s; ok (refused, s))
        else ok (waits (read_channel p), s))
    else do
      let (l, q) = read_loop n s.pipe
      s ← wake (write_channel p) (record s { pipe = q })
      s ← unlock_pipe s
      ok (got l, s)

-- piperead(p, addr, n), up to its first sleep()
unfoldable pub piperead : ℕ → ℕ → Bool → PipeState → Outcome (ReadProgress × PipeState)
piperead p n killed s = do s ← lock_pipe s; read_locked p n killed s

abbrev close_end : ℕ → Bool → PipeState → Outcome PipeState
close_end p true s = wake (read_channel p) (with_pipe (λ q. record q { writeopen = false }) s)
close_end p false s = wake (write_channel p) (with_pipe (λ q. record q { readopen = false }) s)

-- pipeclose(p, writable): with both ends closed the page of the pipe is freed.
unfoldable pub pipeclose : ℕ → Bool → PipeState → Kmem → Outcome (PipeState × Kmem)
pipeclose p writable s m = do
  s ← lock_pipe s
  s ← close_end p writable s
  s ← unlock_pipe s
  m ← (if not s.pipe.readopen && not s.pipe.writeopen then kfree p m else ok m)
  ok (s, m)
