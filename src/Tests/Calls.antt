-- ===== src/Tests/Calls.antt =====
-- The theorems on the system calls on files and on the console at concrete inputs.
use shared_memory.Prelude.{
  ℕ, ◌+◌, ◌≤◌, ◌<◌, ◌≡◌, ◌≢◌, ◌⊎◌, inl, ◌*◌, ◌-◌, refl, [], ◌∷◌, true, false, none, some, arith,
  pos, minus_one, ok, ◌==◌, if◌then◌else◌, write,
}
use shared_memory.Layout.{word}
use shared_memory.Syscall.{User, argint, fetchint}
use shared_memory.Content.{Io, Devices, readi}
use shared_memory.Content.Read.{HasBlocks, Copied, available, readi_lem}
use shared_memory.File.{fd_none, fd_inode, FileTable, set_ref}
use shared_memory.FileIo.{Sys}
use shared_memory.Sysfile.{nofile, argfd, sys_dup}
use shared_memory.Sysfile.Descriptors.{sys_dup_lem}
use shared_memory.Console.{Console, consoleintr, consoleread, read_done}
use shared_memory.Console.Editing.{IsBounded, consoleintr-IsBounded}
use shared_memory.Console.Lines.{IsPlain, consoleread-consoleintr}
use shared_memory.Sysproc.{Clock, over, asleep_since, sys_sleep, sleep_round}
use shared_memory.Sysproc.Ticks.{ticks_of, sleep_round_lem}
use shared_memory.Trap.{View, Frame, trap, run}
use shared_memory.Trap.Killed.{Decided, trap-Decided}
use shared_memory.Umalloc.{Heap, malloc, free_block}
use shared_memory.Umalloc.Tails.{free_block-malloc}
use shared_memory.Tests.Storage.{no_procs}
use shared_memory.Tests.Files.{one_inode}

abbrev no_devices : Devices
no_devices = record { read = λ n. none; write = λ n. none }

abbrev empty_memory : Io
empty_memory = record { mem = λ a. 0; fs = one_inode }

one_inode-HasBlocks : HasBlocks one_inode 0 0 700
one_inode-HasBlocks k p q = (ground arith, ground arith)

readi_lem_example :
    ((((one_inode.inodes 0).size < 600) ⊎ (word ≤ 600 + 200))
      × (readi no_devices 0 1000 600 200 empty_memory ≡ ok (minus_one, empty_memory)))
    ⊎ ((600 ≤ 700)
        × (600 + 200 < word)
        × ((s' : Io) × (readi no_devices 0 1000 600 200 empty_memory
              ≡ ok (pos (available 700 600 200), s'))
            × Copied 0 600 1000 (available 700 600 200) empty_memory s'))
readi_lem_example =
    readi_lem no_devices 0 1000 600 200 empty_memory (omega arith) (omega arith) (omega arith)
      one_inode-HasBlocks

-- One file in use, of the first inode.
abbrev one_file : FileTable
one_file = record {
  files = λ i. record {
    kind = if i == 0 then fd_inode else fd_none;
    ref = if i == 0 then 1 else 0;
    readable = true;
    writable = false;
    pipe = 0;
    ip = 0;
    off = 0;
  };
  lock = false;
}

-- A process whose descriptor 0 is that file, and whose system call has the argument 0.
abbrev caller : Sys
caller = record {
  user = record { sz = 4096; esp = 4000; mem = λ a. 0 };
  fs = one_inode;
  files = one_file;
  ofile = λ fd. if fd == 0 then some 0 else none;
  cwd = 0;
  procs = no_procs;
}

caller-argfd : argfd 0 caller ≡ some (0, 0)
unfolding argfd argint fetchint
caller-argfd = refl

sys_dup_lem_example :
    (((j : ℕ) → j < nofile → caller.ofile j ≢ none) × (sys_dup caller ≡ ok (minus_one, caller)))
    ⊎ ((fd : ℕ) × (fd < nofile)
        × (caller.ofile fd ≡ none)
        × ((j : ℕ) → j < fd → caller.ofile j ≢ none)
        × (sys_dup caller
            ≡ ok (
              pos fd,
              record caller {
                ofile = write caller.ofile fd (some 0);
                files = record (set_ref 0 2 one_file) { lock = false };
              },
            )))
sys_dup_lem_example = sys_dup_lem caller 0 0 caller-argfd refl (omega arith)

-- The indices have wrapped around: two characters of a line are read, and one is typed after it.
abbrev busy : Console
busy = record {
  input = record { buf = λ i. 97; r = 4294967295; w = 1; e = 2 };
  lock = false;
  output = [];
  procs = no_procs;
}

-- ^U, a, DEL, b, and a newline
consoleintr-IsBounded_example :
    (c' : Console) × (consoleintr 5000 (21 ∷ 97 ∷ 127 ∷ 98 ∷ 10 ∷ []) busy ≡ ok c')
    × IsBounded c'.input
    × (c'.lock ≡ false)
    × (c'.procs.lock ≡ false)
    × (c'.input.r ≡ 4294967295)
consoleintr-IsBounded_example =
    consoleintr-IsBounded 5000 (21 ∷ 97 ∷ 127 ∷ 98 ∷ 10 ∷ []) busy
      (omega arith, omega arith, omega arith, omega arith, omega arith) refl refl

a_letter : (c : ℕ) → c < 123 → 96 < c → IsPlain c
a_letter c h l = record {
  byte = omega arith;
  visible = (omega arith, omega arith, omega arith, omega arith);
  uncontrolled = (omega arith, omega arith, omega arith, omega arith);
}

-- An empty buffer whose indices are about to wrap around
abbrev quiet : Console
quiet = record busy {
  input = record { buf = λ i. 0; r = 4294967294; w = 4294967294; e = 4294967294 };
}

-- "ab" and a newline
consoleread-consoleintr_example :
    (c1 : Console) × (c2 : Console) × (consoleintr 5000 (97 ∷ 98 ∷ 10 ∷ []) quiet ≡ ok c1)
    × (c1.output ≡ 97 ∷ 98 ∷ 10 ∷ [])
    × (consoleread 100 false c1 ≡ ok (read_done (97 ∷ 98 ∷ 10 ∷ []), c2))
    × (c2.input.r ≡ c2.input.w)
    × (c2.input.w ≡ c2.input.e)
    × (c2.lock ≡ false)
consoleread-consoleintr_example =
    consoleread-consoleintr 5000 100 false (97 ∷ 98 ∷ []) quiet
      (a_letter 97 (omega arith) (omega arith), (a_letter 98 (omega arith) (omega arith), tt))
      (omega arith) (omega arith) (omega arith) refl refl refl refl

-- The counter wraps around while the process sleeps for three ticks.
abbrev late : Clock
late = record { ticks = 4294967295; lock = false; procs = no_procs }

abbrev sleeper : User
sleeper = record { sz = 4096; esp = 4000; mem = λ a. if a == 4004 then 3 else 0 }

sleeper-argint : argint 0 sleeper ≡ some 3
unfolding argint fetchint
sleeper-argint = refl

sleep_round_lem_example :
    (((◌≡◌ {A = ℕ} 3 0) × (sys_sleep sleeper false late ≡ ok (over (pos 0), late)))
      ⊎ ((1 ≤ 3)
          × (sys_sleep sleeper false late
              ≡ ok (asleep_since 4294967295, record late { lock = true }))))
    × ((c' : Clock) × (ticks_of 9000 5 late ≡ ok c')
        × (((3 ≤ 5)
              × (sleep_round 4294967295 3 false (record c' { lock = true })
                  ≡ ok (over (pos 0), c')))
            ⊎ ((5 < 3)
                × (sleep_round 4294967295 3 false (record c' { lock = true })
                    ≡ ok (asleep_since 4294967295, record c' { lock = true })))))
sleep_round_lem_example =
    sleep_round_lem 9000 5 3 sleeper late sleeper-argint (omega arith) (omega arith) refl refl

abbrev timer : Frame
timer = record { trapno = 32; user = true }

-- kill() marks the process while another process has the processor.
abbrev killed_late : ℕ → View
killed_late i = record { killed = some (i == 2); is_running = true }

trap-Decided_example : Decided (run killed_late 0 (trap true timer))
trap-Decided_example = trap-Decided true timer killed_late refl (λ i. refl)

-- The empty block of the allocator, and one block of 4096 units
abbrev one_block : Heap
one_block = record {
  next = λ a. if a == 1000 then 2000 else 1000;
  units = λ a. if a == 2000 then 4096 else 0;
  freep = some 1000;
  base = 1000;
}

free_block-malloc_example :
    (q : ℕ) × (h1 : Heap) × (h2 : Heap) × (q ≡ 2000 + 8 * (4096 - 14))
    × (malloc 1 (λ k. none) 100 one_block ≡ ok (some (q + 8), h1))
    × (free_block 2 (q + 8) h1 ≡ ok h2)
    × ((x : ℕ) → x ≢ q → (h2.next x ≡ one_block.next x) × (h2.units x ≡ one_block.units x))
    × (h2.freep ≡ some 2000)
free_block-malloc_example =
    free_block-malloc 0 (λ k. none) 100 1000 2000 one_block refl refl (omega arith) (omega arith)
      (omega arith) (inl (omega arith))
