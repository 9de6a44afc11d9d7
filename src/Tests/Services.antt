-- ===== src/Tests/Services.antt =====
-- The theorems on strings, pipes, locks and system call arguments at concrete inputs.
use shared_memory.Prelude.{
  ℕ, ◌+◌, ◌≤◌, ◌<◌, ◌≡◌, ◌⊎◌, refl, true, false, none, some, arith, List, [], ◌∷◌, ◌++◌, length,
  pos, ok, panic, ◌==◌, if◌then◌else◌,
}
use shared_memory.Uvm.{memmove}
use shared_memory.Strings.{move}
use shared_memory.Strings.Laws.{move_lem}
use shared_memory.Proc.{unused}
use shared_memory.Proc.Switch.{Cpu}
use shared_memory.Pipe.{Pipe, PipeState, read_loop, write_loop}
use shared_memory.Pipe.Ring.{Holds, read_loop_lem}
use shared_memory.Pipe.Write.{After, write_loop_lem}
use shared_memory.Locks.{Spinlock, acquire_spin, release_spin}
use shared_memory.Locks.Nesting.{acquire-release}
use shared_memory.Syscall.{User, argint, argptr}
use shared_memory.Syscall.Bounds.{argptr_lem}

-- Each byte is its own address.
abbrev memory : ℕ → ℕ
memory a = a

-- An overlap that goes backwards.
move_lem_example : move 102 100 5 memory ≡ memmove memory 102 100 5
move_lem_example = move_lem 102 100 5 memory

-- A pipe with two bytes, whose counters are about to wrap around.
abbrev ring : Pipe
ring = record {
  lock = true;
  bytes = λ i. if i == 511 then 65 else 66;
  nread = 4294967295;
  nwrite = 1;
  readopen = true;
  writeopen = true;
}

ring-Holds : Holds ring (65 ∷ 66 ∷ [])
ring-Holds = record {
  counters = refl;
  small = omega arith;
  fits = omega arith;
  content = (refl, (refl, tt));
}

abbrev pipe_state : PipeState
pipe_state = record {
  pipe = ring;
  procs = record {
    procs = λ i. record {
      sz = 0;
      pgdir = none;
      kstack = none;
      state = unused;
      pid = pos 0;
      parent = none;
      tf = 0;
      context = 0;
      chan = none;
      killed = false;
    };
    next_pid = 4;
    init_proc = 0;
    lock = false;
  };
}

read_loop_lem_example :
    (rest : List ℕ) × (65 ∷ 66 ∷ [] ≡ (read_loop 1 ring).0 ++ rest)
    × Holds (read_loop 1 ring).1 rest
    × ((length (read_loop 1 ring).0 ≡ 1) ⊎ ((rest ≡ []) × (length (read_loop 1 ring).0 ≤ 1)))
read_loop_lem_example = read_loop_lem 1 ring (65 ∷ 66 ∷ []) ring-Holds

write_loop_lem_example :
    After 0x80350000 3 memory false 100 3 pipe_state
      (65 ∷ 66 ∷ [])
      (write_loop 0x80350000 3 100 memory 3 false pipe_state)
write_loop_lem_example =
    write_loop_lem 0x80350000 3 memory false 3 100 pipe_state (65 ∷ 66 ∷ []) refl refl ring-Holds

abbrev processor : Cpu
processor = record { ncli = 0; intena = false; interrupts = true; current = none }

abbrev spinlock : Spinlock
spinlock = record { locked = true; holder = some 1 }

-- Another processor holds the lock for two exchanges.
acquire-release_example :
    (l' : Spinlock) × (c' : Cpu) × (acquire_spin 5 0 (λ n. n == 0) spinlock processor ≡ ok (l', c'))
    × (c'.ncli ≡ 0 + 1)
    × (c'.interrupts ≡ false)
    × (acquire_spin 5 0 (λ n. n == 0) l' c' ≡ panic)
    × (c'' : Cpu) × (release_spin 0 l' c' ≡ ok (record { locked = false; holder = none }, c''))
    × (c''.ncli ≡ 0)
    × (c''.interrupts ≡ true)
acquire-release_example =
    acquire-release 5 0 1 (λ n. n == 0) spinlock processor (λ h. absurd (h refl)) refl (omega arith)
      refl

-- A process of 8192 bytes, with the arguments 1, 2 and 8188 on its stack.
abbrev user : User
user = record {
  sz = 8192;
  esp = 4096;
  mem = λ a.
      if a == 4100
      then 1
      else if a == 4104
      then 1
      else if a == 4108
      then 252
      else if a == 4109
      then 31
      else 0;
}

argptr_lem_example :
    (argptr 2 (pos 4) user ≡ some 8188
      → (8188 < 8192) × (8188 + 4 ≤ 8192) × (argint 2 user ≡ some 8188))
    × (argint 2 user ≡ some 8188
        → 8188 < 8192
        → 8188 + 4 ≤ 8192
        → argptr 2 (pos 4) user ≡ some 8188)
argptr_lem_example = argptr_lem 2 4 8188 user (omega arith) (omega arith)
