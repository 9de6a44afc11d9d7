-- ===== src/Sysfile/Pipes.antt =====
-- pipe.c: pipealloc; sysfile.c: sys_pipe, and the arguments of sys_exec.
use shared_memory.Prelude.{
  ℕ, zero, suc, ◌+◌, ◌%◌, Bool, true, false, Option, none, some, List, [], ◌∷◌, ◌++◌, ◌==◌,
  if◌then◌else◌, write, ℤ, pos, minus_one, Outcome, ok, ◌>>=◌,
}
use shared_memory.Layout.{word}
use shared_memory.Kalloc.{Kmem, kalloc}
use shared_memory.Proc.{write_word}
use shared_memory.Pipe.{Pipe}
use shared_memory.File.{fd_pipe, File, FileTable, Closing, filealloc, fileclose}
use shared_memory.Syscall.{User, fetchint, fetchstr, argint, argptr, argstr}
use shared_memory.FileIo.{Sys}
use shared_memory.Sysfile.{fdalloc}

-- The process with the page allocator; `left` is what fileclose() has left to do, in order.
pub record Making : Type 0 where
  pub sys : Sys
  pub kmem : Kmem
  pub left : List Closing

abbrev pub set_files : FileTable → Making → Making
set_files t s = record s { sys = record (s.sys) { files = t } }

-- fileclose() of the file in slot `i`
abbrev pub close_in : ℕ → Making → Outcome Making
close_in i s = do
  (c, t) ← fileclose i s.sys.files
  ok (record (set_files t s) { left = s.left ++ (c ∷ []) })

-- The files of the two ends, and the pipe at its address
pub record Ends : Type 0 where
  pub reader : ℕ
  pub writer : ℕ
  pub page : ℕ
  pub pipe : Pipe

-- The pipe in a fresh page: its bytes are those of the page, behind a lock of 52 bytes.
abbrev pub new_pipe : ℕ → Kmem → Pipe
new_pipe p m = record {
  lock = false;
  bytes = λ i. m.mem (p + 52 + i);
  nread = 0;
  nwrite = 0;
  readopen = true;
  writeopen = true;
}

-- The fields of the file at one end
abbrev pub pipe_end : ℕ → Bool → File → File
pipe_end p writes f = record f {
  kind = fd_pipe;
  readable = if writes then false else true;
  writable = writes;
  pipe = p;
}

abbrev pub set_end : ℕ → Bool → ℕ → FileTable → FileTable
set_end p writes i t = record t { files = write t.files i (pipe_end p writes (t.files i)) }

-- pipealloc() with both files
abbrev pub pipe_page : ℕ → ℕ → Making → Outcome (Option Ends × Making)
pipe_page f0 f1 s = do
  (page, m) ← kalloc s.kmem
  let s = record s { kmem = m }
  elim page [
    | none ↦ (do s ← close_in f0 s; s ← close_in f1 s; ok (none, s))
    | some p ↦ ok (
      some (record { reader = f0; writer = f1; page = p; pipe = new_pipe p m }),
      set_files (set_end p true f1 (set_end p false f0 s.sys.files)) s,
    )
  ]

-- pipealloc(): none for -1
unfoldable pub pipealloc : Making → Outcome (Option Ends × Making)
pipealloc s = do
  (slot, t) ← filealloc s.sys.files
  let s = set_files t s
  elim slot [
    | none ↦ ok (none, s)
    | some f0 ↦ (do
      (slot, t) ← filealloc s.sys.files
      let s = set_files t s
      elim slot [ none ↦ (do s ← close_in f0 s; ok (none, s)) | some f1 ↦ pipe_page f0 f1 s ])
  ]

-- fileclose(rf); fileclose(wf); return -1;
abbrev pub close_ends : Ends → Making → Outcome (ℤ × Making)
close_ends e s = do s ← close_in e.reader s; s ← close_in e.writer s; ok (minus_one, s)

abbrev pub with_sys : Option ℕ × Sys → Making → Option ℕ × Making
with_sys (fd, u) s = (fd, record s { sys = u })

abbrev pub clear_fd : ℕ → Making → Making
clear_fd fd s = record s { sys = record (s.sys) { ofile = write s.sys.ofile fd none } }

-- fd[0] = fd0; fd[1] = fd1;
abbrev pub store_pair : ℕ → ℕ → ℕ → Making → Making
store_pair a fd0 fd1 s = record s {
  sys = record (s.sys) {
    user = record (s.sys.user) { mem = write_word (write_word s.sys.user.mem a fd0) (a + 4) fd1 };
  };
}

abbrev pub second_fd : ℕ → Ends → ℕ → Option ℕ × Making → Outcome (ℤ × Making)
second_fd a e fd0 (none, s) = close_ends e (clear_fd fd0 s)
second_fd a e fd0 (some fd1, s) = ok (pos 0, store_pair a fd0 fd1 s)

abbrev pub first_fd : ℕ → Ends → Option ℕ × Making → Outcome (ℤ × Making)
first_fd a e (none, s) = close_ends e s
first_fd a e (some fd0, s) = second_fd a e fd0 (with_sys (fdalloc e.writer s.sys) s)

-- sys_pipe(), with the ends of a pipe that is made
unfoldable pub sys_pipe : Making → Outcome (ℤ × Making)
sys_pipe s = elim (argptr 0 (pos 8) s.sys.user) [
  | none ↦ ok (minus_one, s)
  | some a ↦ (do
    (made, s) ← pipealloc s
    elim made [
      | none ↦ ok (minus_one, s)
      | some e ↦ first_fd a e (with_sys (fdalloc e.reader s.sys) s)
    ])
]

abbrev pub max_arg : ℕ
max_arg = 32

abbrev pub with_arg : ℕ × ℕ → Option (List (ℕ × ℕ)) → Option (List (ℕ × ℕ))
with_arg x none = none
with_arg x (some xs) = some (x ∷ xs)

-- The loop of sys_exec() with `n` places left in argv, at the pointer `a`: addresses and lengths
unfoldable pub fetch_args : ℕ → ℕ → User → Option (List (ℕ × ℕ))
fetch_args zero a u = none
fetch_args (suc n) a u =
    let rest = fetch_args n ((a + 4) % word) u in
    elim (fetchint a u) [
      | none ↦ none
      | some x ↦
          if x == 0
          then some []
          else elim (fetchstr x u) [ none ↦ none | some len ↦ with_arg (x, len) rest ]
    ]

-- What sys_exec() passes to exec(): the path and the arguments, or none for -1
unfoldable pub exec_args : User → Option ((ℕ × ℕ) × List (ℕ × ℕ))
exec_args u = elim (argstr 0 u) [
  | none ↦ none
  | some path ↦ elim (argint 1 u) [
    | none ↦ none
    | some a ↦ elim (fetch_args max_arg a u) [ none ↦ none | some args ↦ some (path, args) ]
  ]
]
