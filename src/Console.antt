-- ===== src/Console.antt =====
-- console.c: the line discipline, and reading and writing the console.
pub mod Editing
pub mod Lines
use shared_memory.Prelude.{
  ℕ, zero, suc, ◌+◌, ◌-◌, ◌%◌, Bool, true, false, not, ◌&&◌, ◌||◌, List, [], ◌∷◌, ◌++◌, ltb, ◌==◌,
  if◌then◌else◌, write, ℤ, pos, minus_one, Outcome, ok, panic, out_of_fuel, ◌>>=◌, acquire, release,
}
use shared_memory.Layout.{word, minus}
use shared_memory.Proc.{Channel, at_address, ProcTable, wakeup}

abbrev pub input_buf : ℕ
input_buf = 128

-- `input`
pub record Input : Type 0 where
  pub buf : ℕ → ℕ
  pub r : ℕ
  pub w : ℕ
  pub e : ℕ

-- The console: `input`, `cons.lock`, what consputc() was called with, in order, and the processes
pub record Console : Type 0 where
  pub input : Input
  pub lock : Bool
  pub output : List ℕ
  pub procs : ProcTable

-- C(x)
abbrev pub control_key : ℕ → ℕ
control_key x = x - 64

-- BACKSPACE for consputc()
abbrev pub backspace : ℕ
backspace = 0x100

abbrev pub newline : ℕ
newline = 10

-- input.e--
unfoldable pub erase : Input → Input
erase i = record i { e = minus i.e 1 }

-- The loop of C('U'): how many characters it erases, and the input after it
unfoldable pub kill_line : ℕ → Input → Outcome (ℕ × Input)
kill_line zero i = out_of_fuel
kill_line (suc fuel) i =
    let rest = (do (n, i) ← kill_line fuel (erase i); ok (suc n, i)) in
    if i.e == i.w || i.buf (minus i.e 1 % input_buf) == newline then ok (0, i) else rest

unfoldable pub backspaces : ℕ → List ℕ
backspaces zero = []
backspaces (suc n) = backspace ∷ backspaces n

-- c == '\\r' ? '\\n' : c
abbrev pub normal : ℕ → ℕ
normal c = if c == 13 then newline else c

-- input.buf[input.e++ % INPUT_BUF] = c
unfoldable pub store_char : ℕ → Input → Input
store_char c i = record i { buf = write i.buf (i.e % input_buf) (c % 256); e = (i.e + 1) % word }

-- c == '\\n' || c == C('D') || input.e == input.r+INPUT_BUF, after the character is in
abbrev pub ends_line : ℕ → Input → Bool
ends_line c i = c == newline || c == control_key 68 || i.e == (i.r + input_buf) % word

-- &input.r, for `input` at the address `a`: the field behind the buffer
abbrev pub input_channel : ℕ → Channel
input_channel a = at_address (a + input_buf)

-- input.w = input.e; wakeup(&input.r);
abbrev pub commit_line : ℕ → Console → Outcome Console
commit_line a c = do
  t ← wakeup (input_channel a) c.procs
  ok (record c { input = record (c.input) { w = c.input.e }; procs = t })

abbrev pub type_char : ℕ → ℕ → Console → Outcome Console
type_char a ch c =
    let c1 = record c { input = store_char ch c.input; output = c.output ++ (ch ∷ []) } in
    if ends_line ch c1.input then commit_line a c1 else ok c1

-- The switch of consoleintr(); the listing of processes is done after the loop.
unfoldable pub handle_char : ℕ → ℕ → Console → Outcome Console
handle_char a ch c =
    if ch == control_key 80
    then ok c
    else if ch == control_key 85
    then (do
      (n, i) ← kill_line (input_buf + 1) c.input
      ok (record c { input = i; output = c.output ++ backspaces n }))
    else if ch == control_key 72 || ch == 127
    then (if c.input.e == c.input.w
        then ok c
        else ok (record c { input = erase c.input; output = c.output ++ (backspace ∷ []) }))
    else if not (ch == 0) && ltb (minus c.input.e c.input.r) input_buf
    then type_char a (normal ch) c
    else ok c

-- The loop of consoleintr() over the characters that getc() gives
unfoldable pub handle_chars : ℕ → List ℕ → Console → Outcome Console
handle_chars a [] c = ok c
handle_chars a (ch ∷ chs) c = do c ← handle_char a ch c; handle_chars a chs c

abbrev pub lock_console : Console → Outcome Console
lock_console c = do l ← acquire c.lock; ok (record c { lock = l })

abbrev pub unlock_console : Console → Outcome Console
unlock_console c = do l ← release c.lock; ok (record c { lock = l })

-- consoleintr()
unfoldable pub consoleintr : ℕ → List ℕ → Console → Outcome Console
consoleintr a chs c = do c ← lock_console c; c ← handle_chars a chs c; unlock_console c

-- How consoleread() stands, with the characters that it has stored: at its end, or at sleep() with so
-- many to go.
pub data ReadState : Type 0 where
  read_done : List ℕ → ReadState
  read_waits : List ℕ → ℕ → ReadState
  read_killed : ReadState

-- input.buf[input.r % INPUT_BUF], and the input with it read
abbrev pub next_char : Input → ℕ
next_char i = i.buf (i.r % input_buf)

unfoldable pub consume : Input → Input
consume i = record i { r = (i.r + 1) % word }

abbrev pub with_char : ℕ → ReadState × Input → ReadState × Input
with_char ch (read_done cs, i) = (read_done (ch ∷ cs), i)
with_char ch (read_waits cs n, i) = (read_waits (ch ∷ cs) n, i)
with_char ch (read_killed, i) = (read_killed, i)

-- The loop of consoleread() with the lock held and `n` characters to go; `is_first` is n == target.
unfoldable pub console_loop : ℕ → Bool → Bool → Input → ReadState × Input
console_loop zero is_first dead i = (read_done [], i)
console_loop (suc n) is_first dead i =
    let rest = with_char (next_char i) (console_loop n false dead (consume i)) in
    if i.r == i.w
    then (if dead then read_killed else read_waits [] (suc n), i)
    else if next_char i == control_key 68
    then (read_done [], if is_first then consume i else i)
    else if next_char i == newline
    then (read_done (newline ∷ []), consume i)
    else rest

-- The end of a round: the lock is given back, or kept over the sleep.
abbrev pub end_read : ReadState × Input → Console → Outcome (ReadState × Console)
end_read (read_waits cs k, i) c = ok (read_waits cs k, record c { input = i })
end_read (st, i) c = do c ← unlock_console (record c { input = i }); ok (st, c)

-- consoleread() with the lock, from the test of its outer loop to its next sleep, where it keeps the
-- lock, or to its end
unfoldable pub read_round : ℕ → Bool → Bool → Console → Outcome (ReadState × Console)
read_round n is_first dead c = end_read (console_loop n is_first dead c.input) c

-- consoleread(), with the inode unlocked; when it wakes up it goes on with read_round.
unfoldable pub consoleread : ℕ → Bool → Console → Outcome (ReadState × Console)
consoleread n dead c = do c ← lock_console c; read_round n true dead c

-- The bytes of consolewrite() from the address `p` on
unfoldable pub bytes_from : (ℕ → ℕ) → ℕ → ℕ → List ℕ
bytes_from m p zero = []
bytes_from m p (suc n) = m p % 256 ∷ bytes_from m (p + 1) n

-- consolewrite(), with the inode unlocked
unfoldable pub consolewrite : (ℕ → ℕ) → ℕ → ℕ → Console → Outcome (ℤ × Console)
consolewrite m p n c = do
  c ← lock_console c
  c ← unlock_console (record c { output = c.output ++ bytes_from m p n })
  ok (pos n, c)
