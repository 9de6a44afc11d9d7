-- ===== src/Console/Editing.antt =====
-- consoleintr() of console.c: the indices of the input buffer, which wrap around at 2 ^ 32.
use shared_memory.Prelude.{
  ℕ, zero, suc, ◌+◌, ◌%◌, ◌<◌, ◌≤◌, ◌≡◌, ◌≢◌, inl, inr, refl, true, false, not, ◌&&◌, ◌||◌, List,
  [], ◌∷◌, ◌++◌, ltb, ◌==◌, ◌∙◌, Outcome, ok, arith, Bool-cases,
}
use shared_memory.Layout.{word, minus}
use shared_memory.Proc.Wakeup.{wakeup_lem}
use shared_memory.Console.{
  Input, Console, input_buf, erase, kill_line, backspaces, newline, backspace, control_key,
  store_char, ends_line, commit_line, type_char, normal, input_channel, handle_char, handle_chars,
  consoleintr,
}

-- What is read, the finished lines and the line that is edited follow each other, and fit.
abbrev pub IsBounded : Input → Type 0
IsBounded i =
    (i.r < word)
    × (i.w < word)
    × (i.e < word)
    × (minus i.w i.r ≤ minus i.e i.r)
    × (minus i.e i.r ≤ input_buf)

erase-IsBounded :
    (i : Input)
    → IsBounded i
    → i.e ≢ i.w
    → IsBounded (erase i) × (minus i.e i.r ≡ suc (minus (erase i).e i.r))
unfolding erase
erase-IsBounded i (r, w, e, le, max) ne =
    ((r, w, omega arith, omega arith, omega arith), omega arith)

erase-r : (i : Input) → (erase i).r ≡ i.r
unfolding erase
erase-r i = refl

erase-w : (i : Input) → (erase i).w ≡ i.w
unfolding erase
erase-w i = refl

store_char-r : (c : ℕ) (i : Input) → (store_char c i).r ≡ i.r
unfolding store_char
store_char-r c i = refl

store-IsBounded :
    (c : ℕ) (i : Input) → IsBounded i → minus i.e i.r < input_buf → IsBounded (store_char c i)
unfolding store_char
store-IsBounded c i (r, w, e, le, max) room = (r, w, omega arith, omega arith, omega arith)

kill_line_lem :
    (fuel : ℕ) (i : Input)
    → IsBounded i
    → minus i.e i.r < fuel
    → (n : ℕ) × (k : Input) × (kill_line fuel i ≡ ok (n, k))
      × IsBounded k
      × (k.r ≡ i.r)
      × (k.w ≡ i.w)
unfolding kill_line erase
kill_line_lem zero i b lt = absurd (omega arith)
kill_line_lem (suc fuel) i b lt =
    elim (Bool-cases (i.e == i.w || i.buf (minus i.e 1 % input_buf) == newline)) [
      | inl stop ↦ (0, i, rw stop refl, b, refl, refl)
      | inr on ↦
          (let (b1, less) = erase-IsBounded i b (ground arith) in
            let (n, k, run, kept, same_r, same_w) = kill_line_lem fuel (erase i) b1 (omega arith) in
            (suc n, k, rw (on, run) refl, kept, same_r ∙ erase-r i, same_w ∙ erase-w i))
    ]

-- A step of the loop of consoleintr(): it returns, with its locks as before, and keeps the buffer.
abbrev Typed : Console → Outcome Console → Type 0
Typed c o =
    (c' : Console) × (o ≡ ok c')
    × IsBounded c'.input
    × (c'.lock ≡ c.lock)
    × (c'.procs.lock ≡ false)
    × (c'.input.r ≡ c.input.r)

commit_line_lem :
    (a : ℕ) (c : Console) → IsBounded c.input → c.procs.lock ≡ false → Typed c (commit_line a c)
commit_line_lem a c (r, w, e, le, max) free =
    let (t, run, x1, x2, x3, x4, unlocked) = wakeup_lem (input_channel a) c.procs free in
    let d : Console = record c { input = record (c.input) { w = c.input.e }; procs = t } in
    (d, rw run refl, (r, e, e, omega arith, max), refl, unlocked, refl)

type_char_lem :
    (a ch : ℕ) (c : Console)
    → IsBounded c.input
    → minus c.input.e c.input.r < input_buf
    → c.procs.lock ≡ false
    → Typed c (type_char a ch c)
type_char_lem a ch c b room free =
    let k : Console = record c { input = store_char ch c.input; output = c.output ++ (ch ∷ []) } in
    let kept = store-IsBounded ch c.input b room in
    elim (Bool-cases (ends_line ch k.input)) [
      | inl ends ↦
          (let (d, run, inside, lock, procs, same) = commit_line_lem a k kept free in
            (d, rw ends run, inside, lock, procs, same ∙ store_char-r ch c.input))
      | inr more ↦ (k, rw more refl, kept, refl, free, store_char-r ch c.input)
    ]

handle_char_lem :
    (a ch : ℕ) (c : Console)
    → IsBounded c.input
    → c.procs.lock ≡ false
    → Typed c (handle_char a ch c)
unfolding handle_char
handle_char_lem a ch c b free = elim (Bool-cases (ch == control_key 80)) [
  | inl listing ↦ (c, rw listing refl, b, refl, free, refl)
  | inr h1 ↦ elim (Bool-cases (ch == control_key 85)) [
    | inl kill ↦
        (let (n, i, run, kept, same_r, same_w) =
            kill_line_lem (input_buf + 1) c.input b (omega arith) in
          let d : Console = record c { input = i; output = c.output ++ backspaces n } in
          (d, rw (h1, kill, run) refl, kept, refl, free, same_r))
    | inr h2 ↦ elim (Bool-cases (ch == control_key 72 || ch == 127)) [
      | inl back ↦ elim (Bool-cases (c.input.e == c.input.w)) [
        | inl none_left ↦ (c, rw (h1, h2, back, none_left) refl, b, refl, free, refl)
        | inr some_left ↦
            (let (kept, less) = erase-IsBounded c.input b (ground arith) in
              let d : Console = record c {
                input = erase c.input;
                output = c.output ++ (backspace ∷ []);
              } in
              (d, rw (h1, h2, back, some_left) refl, kept, refl, free, erase-r c.input))
      ]
      | inr h3 ↦ elim (Bool-cases (not (ch == 0) && ltb (minus c.input.e c.input.r) input_buf)) [
        | inl room ↦
            (let (d, run, b1, lock, procs, same) =
                type_char_lem a (normal ch) c b (ground arith) free in
              (d, rw (h1, h2, h3, room) run, b1, lock, procs, same))
        | inr full ↦ (c, rw (h1, h2, h3, full) refl, b, refl, free, refl)
      ]
    ]
  ]
]

handle_chars_lem :
    (a : ℕ) (chs : List ℕ) (c : Console)
    → IsBounded c.input
    → c.procs.lock ≡ false
    → Typed c (handle_chars a chs c)
unfolding handle_chars
handle_chars_lem a [] c b free = (c, refl, b, refl, free, refl)
handle_chars_lem a (ch ∷ chs) c b free =
    let (d, run, b1, lock, procs, same) = handle_char_lem a ch c b free in
    let (k, run2, b2, lock2, procs2, same2) = handle_chars_lem a chs d b1 procs in
    (k, rw run run2, b2, lock2 ∙ lock, procs2, same2 ∙ same)

-- consoleintr() with any characters typed, when the lock of the console and that of the processes are
-- free, and what is read, the finished lines and the edited line follow each other and take at most 128
-- characters, the indices counted modulo 2 ^ 32: it returns with both locks free, the buffer is so
-- again, and what is read is as before.
pub consoleintr-IsBounded :
    (a : ℕ) (chs : List ℕ) (c : Console)
    → IsBounded c.input
    → c.lock ≡ false
    → c.procs.lock ≡ false
    → (c' : Console) × (consoleintr a chs c ≡ ok c')
      × IsBounded c'.input
      × (c'.lock ≡ false)
      × (c'.procs.lock ≡ false)
      × (c'.input.r ≡ c.input.r)
unfolding consoleintr
consoleintr-IsBounded a chs c b unheld free =
    let (d, run, b1, lock, procs, same) =
      handle_chars_lem a chs (record c { lock = true }) b free in
    (record d { lock = false }, rw (unheld, run, lock) refl, b1, refl, procs, same)
