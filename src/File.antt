-- ===== src/File.antt =====
-- file.c: the table of open files and its reference counts.
use shared_memory.Prelude.{
  ℕ, ◌+◌, ◌-◌, Bool, Option, none, some, ltb, ◌==◌, if◌then◌else◌, write, Outcome, ok, panic, ◌>>=◌,
  acquire, release,
}
use shared_memory.Proc.{scan}

abbrev pub nfile : ℕ
nfile = 100

pub data FileKind : Type 0 where
  fd_none fd_pipe fd_inode : FileKind

-- `struct file`: `pipe` and `ip` are addresses.
pub record File : Type 0 where
  pub kind : FileKind
  pub ref : ℕ
  pub readable : Bool
  pub writable : Bool
  pub pipe : ℕ
  pub ip : ℕ
  pub off : ℕ

-- `ftable`
pub record FileTable : Type 0 where
  pub files : ℕ → File
  pub lock : Bool

abbrev pub set_ref : ℕ → ℕ → FileTable → FileTable
set_ref i r t = record t { files = write t.files i (record (t.files i) { ref = r }) }

abbrev claim_file : Option ℕ → FileTable → Outcome (Option ℕ × FileTable)
claim_file none t = do l ← release t.lock; ok (none, record t { lock = l })
claim_file (some i) t = do l ← release t.lock; ok (some i, record (set_ref i 1 t) { lock = l })

-- filealloc(): the first slot without a reference
unfoldable pub filealloc : FileTable → Outcome (Option ℕ × FileTable)
filealloc t = do
  l ← acquire t.lock
  claim_file (scan (λ i. (t.files i).ref == 0) nfile 0) (record t { lock = l })

-- filedup() of the file in slot `i`
unfoldable pub filedup : ℕ → FileTable → Outcome FileTable
filedup i t = do
  l ← acquire t.lock
  if ltb (t.files i).ref 1
      then panic
      else do l ← release l; ok (record (set_ref i ((t.files i).ref + 1) t) { lock = l })

-- What fileclose() has left to do once it has given the lock back: nothing, pipeclose(), or iput() in
-- a transaction.
pub data Closing : Type 0 where
  nothing : Closing
  closes_pipe : ℕ → Bool → Closing
  closes_inode : ℕ → Closing

abbrev pub closing_of : File → Closing
closing_of f = elim f.kind [
  | fd_none ↦ nothing
  | fd_pipe ↦ closes_pipe f.pipe f.writable
  | fd_inode ↦ closes_inode f.ip
]

-- f->ref = 0; f->type = FD_NONE
abbrev pub forget : ℕ → FileTable → FileTable
forget i t = record t { files = write t.files i (record (t.files i) { ref = 0; kind = fd_none }) }

-- fileclose() of the file in slot `i`
unfoldable pub fileclose : ℕ → FileTable → Outcome (Closing × FileTable)
fileclose i t = do
  l ← acquire t.lock
  if ltb (t.files i).ref 1
      then panic
      else if ltb 0 ((t.files i).ref - 1)
      then (do l ← release l; ok (nothing, record (set_ref i ((t.files i).ref - 1) t) { lock = l }))
      else (do l ← release l; ok (closing_of (t.files i), record (forget i t) { lock = l }))
