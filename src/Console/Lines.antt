-- ===== src/Console/Lines.antt =====
-- consoleintr() and consoleread() of console.c: a line that is typed is the line that is read.
use shared_memory.Prelude.{
  ℕ, zero, suc, ◌+◌, ◌%◌, ◌<◌, ◌≡◌, ◌≢◌, refl, Bool, true, false, List, [], ◌∷◌, ◌++◌, arith,
  length, write, ==-refl, ltb, ◌==◌, not, ◌&&◌, ◌||◌, ok, ◌∙◌, ap, sym,
}
use shared_memory.Layout.{word, minus}
use shared_memory.Proc.Wakeup.{wakeup_lem}
use shared_memory.Queue.{
  HoldsFrom, KeepsApart, HoldsFrom-write, HoldsFrom-snoc, next_counter, length_snoc,
}
use shared_memory.Console.{
  Input, Console, input_buf, newline, control_key, store_char, handle_char, handle_chars,
  consoleintr, read_done, consume, console_loop, consoleread, read_round, input_channel, ends_line,
  normal, type_char,
}

input-KeepsApart : KeepsApart input_buf
input-KeepsApart r n s f d = omega arith

-- A byte that the line discipline takes as it is, and that ends no line
pub record IsPlain (c : ℕ) : Type 0 where
  pub byte : c < 256
  pub visible : (c ≢ 0) × (c ≢ 127) × (c ≢ 13) × (c ≢ newline)
  pub uncontrolled :
      (c ≢ control_key 68) × (c ≢ control_key 72) × (c ≢ control_key 80) × (c ≢ control_key 85)

abbrev pub ArePlain : List ℕ → Type 0
ArePlain [] = Unit {0}
ArePlain (c ∷ cs) = IsPlain c × ArePlain cs

-- The line `l` is being typed, and nothing else is in the buffer.
pub record Typing (i : Input) (l : List ℕ) : Type 0 where
  pub small : i.r < word
  pub waiting : i.w ≡ i.r
  pub counters : i.e ≡ (i.r + length l) % word
  pub content : HoldsFrom input_buf i.buf i.r l

store_char-Typing :
    (c : ℕ) (i : Input) (l : List ℕ)
    → c < 256
    → length l < input_buf
    → Typing i l
    → Typing (store_char c i) (l ++ c ∷ [])
unfolding store_char
store_char-Typing c i l byte room t = record {
  small = t.small;
  waiting = t.waiting;
  counters = omega (arith, t.counters, length_snoc l c);
  content =
      HoldsFrom-snoc input_buf (write i.buf (i.e % input_buf) (c % 256)) i.r i.e c l t.counters
        t.small (rw (==-refl (i.e % input_buf)) (omega arith))
        (HoldsFrom-write input_buf input-KeepsApart i.buf i.r i.e (c % 256) l t.small t.counters
          room t.content);
}

-- The console after a plain character
abbrev typed : ℕ → Console → Console
typed c k = record k { input = store_char c k.input; output = k.output ++ (c ∷ []) }

handle_char-stored :
    (a c : ℕ) (k : Console)
    → (c ≢ control_key 80) × (c ≢ control_key 85) × (c ≢ control_key 72) × (c ≢ 127) × (c ≢ 0)
    → minus k.input.e k.input.r < input_buf
    → handle_char a c k ≡ type_char a (normal c) k
unfolding handle_char
handle_char-stored a c k (n1, n2, n3, n4, n5) room =
    let e1 : (c == control_key 80) ≡ false = ground arith in
    let e2 : (c == control_key 85) ≡ false = ground arith in
    let e3 : (c == control_key 72 || c == 127) ≡ false = ground arith in
    let e4 : (not (c == 0) && ltb (minus k.input.e k.input.r) input_buf) ≡ true = ground arith in
    rw (e1, e2, e3, e4) refl

handle_char-plain :
    (a c : ℕ) (k : Console) (l : List ℕ)
    → IsPlain c
    → Typing k.input l
    → length l + 1 < input_buf
    → handle_char a c k ≡ ok (typed c k)
unfolding store_char
handle_char-plain a c k l p t room =
    let (v1, v2, v3, v4) = p.visible in
    let (u1, u2, u3, u4) = p.uncontrolled in
    let e5 : (c == 13) ≡ false = ground arith in
    let e6 : ends_line c (store_char c k.input) ≡ false = ground arith in
    handle_char-stored a c k (u3, u4, u2, v2, v1) (omega arith) ∙ rw (e5, e6) refl

-- A whole line in the buffer: the characters of `l` are to be read, and no others.
pub record Waiting (i : Input) (l : List ℕ) : Type 0 where
  pub small : i.r < word
  pub finished : i.w ≡ i.e
  pub counters : i.w ≡ (i.r + length l) % word
  pub content : HoldsFrom input_buf i.buf i.r l

handle_char-newline :
    (a : ℕ) (k : Console) (l : List ℕ)
    → Typing k.input l
    → length l < input_buf
    → k.procs.lock ≡ false
    → (k' : Console) × (handle_char a newline k ≡ ok k')
      × Waiting k'.input (l ++ newline ∷ [])
      × (k'.output ≡ k.output ++ newline ∷ [])
      × (k'.lock ≡ k.lock)
unfolding store_char
handle_char-newline a k l t room free =
    let i = store_char newline k.input in
    let s = store_char-Typing newline k.input l (omega arith) room t in
    let (u, run, x1, x2, x3, x4, unlocked) = wakeup_lem (input_channel a) k.procs free in
    let d : Console = record k {
      input = record i { w = i.e };
      output = k.output ++ (newline ∷ []);
      procs = u;
    } in
    (
      d,
      handle_char-stored a newline k
            (omega arith, omega arith, omega arith, omega arith, omega arith) (omega arith)
          ∙ rw run refl,
      record { small = s.small; finished = refl; counters = s.counters; content = s.content },
      refl,
      refl,
    )

type_line :
    (a : ℕ) (cs l : List ℕ) (k : Console)
    → ArePlain cs
    → Typing k.input l
    → length l + length cs < input_buf
    → k.procs.lock ≡ false
    → (k' : Console) × (handle_chars a (cs ++ newline ∷ []) k ≡ ok k')
      × Waiting k'.input (l ++ (cs ++ newline ∷ []))
      × (k'.output ≡ k.output ++ (cs ++ newline ∷ []))
      × (k'.lock ≡ k.lock)
unfolding handle_chars
type_line a [] l k p t room free =
    let (d, run, rest, out, lock) = handle_char-newline a k l t (omega arith) free in
    (d, rw run refl, rest, out, lock)
type_line a (c ∷ cs) l k (p, ps) t room free =
    let run = handle_char-plain a c k l p t (omega arith) in
    let (d, run2, w, out, lock) =
      type_line a cs (l ++ c ∷ []) (typed c k) ps
        (store_char-Typing c k.input l p.byte (omega arith) t) (omega (arith, length_snoc l c))
        free in
    (
      d,
      rw run run2,
      (rw (snoc_append l c (cs ++ newline ∷ [])) at w),
      out ∙ snoc_append k.output c (cs ++ newline ∷ []),
      lock,
    )
  where
    snoc_append : (l : List ℕ) (c : ℕ) (xs : List ℕ) → (l ++ c ∷ []) ++ xs ≡ l ++ c ∷ xs
    snoc_append [] c xs = refl
    snoc_append (x ∷ l) c xs = ap (λ t. x ∷ t) (snoc_append l c xs)

read_line :
    (n : ℕ) (is_first dead : Bool) (cs : List ℕ) (i : Input)
    → ArePlain cs
    → length cs < n
    → length cs < input_buf
    → i.r < word
    → i.w ≡ (i.r + suc (length cs)) % word
    → HoldsFrom input_buf i.buf i.r (cs ++ newline ∷ [])
    → console_loop n is_first dead i ≡ (read_done (cs ++ newline ∷ []), record i { r = i.w })
unfolding console_loop consume
read_line zero first dead cs i p le max s w h = absurd (omega arith)
read_line (suc n) first dead [] i p le max s w (h, x) =
    let e1 : (i.r == i.w) ≡ false = ground arith in
    let e2 : (i.buf (i.r % input_buf) == control_key 68) ≡ false = ground arith in
    let e3 : (i.buf (i.r % input_buf) == newline) ≡ true = ground arith in
    rw (e1, e2, e3) (ap (λ x. (read_done (newline ∷ []), record i { r = x })) (sym w))
read_line (suc n) first dead (c ∷ cs) i (p, ps) le max s w (h, hs) =
    let (v1, v2, v3, v4) = p.visible in
    let (u1, u2, u3, u4) = p.uncontrolled in
    let e1 : (i.r == i.w) ≡ false = ground arith in
    let e2 : (i.buf (i.r % input_buf) == control_key 68) ≡ false = ground arith in
    let e3 : (i.buf (i.r % input_buf) == newline) ≡ false = ground arith in
    let rest =
      read_line n false dead cs (record i { r = (i.r + 1) % word }) ps (omega arith) (omega arith)
        (omega arith) (next_counter i.r i.w (suc (length cs)) w) hs in
    rw (e1, e2, e3, rest) (ap (λ x. (read_done (x ∷ (cs ++ newline ∷ [])), record i { r = i.w })) h)

-- A line of fewer than 128 plain characters and a newline typed into an empty buffer, with the locks of the
-- console and of the processes free: consoleintr() shows it, and then consoleread() of at least as many
-- bytes returns this line, without a sleep, and leaves the buffer empty, wherever the indices have wrapped.
pub consoleread-consoleintr :
    (a n : ℕ) (dead : Bool) (cs : List ℕ) (c : Console)
    → ArePlain cs
    → length cs < input_buf
    → length cs < n
    → c.input.r < word
    → c.input.w ≡ c.input.r
    → c.input.e ≡ c.input.r
    → c.lock ≡ false
    → c.procs.lock ≡ false
    → (c1 : Console) × (c2 : Console) × (consoleintr a (cs ++ newline ∷ []) c ≡ ok c1)
      × (c1.output ≡ c.output ++ (cs ++ newline ∷ []))
      × (consoleread n dead c1 ≡ ok (read_done (cs ++ newline ∷ []), c2))
      × (c2.input.r ≡ c2.input.w)
      × (c2.input.w ≡ c2.input.e)
      × (c2.lock ≡ false)
unfolding consoleintr consoleread read_round
consoleread-consoleintr a n dead cs c plain short enough small done empty unheld free =
    let start : Typing c.input [] = record {
      small = small;
      waiting = done;
      counters = omega arith;
      content = tt;
    } in
    let (d, run, w, out, lock) =
      type_line a cs [] (record c { lock = true }) plain start (omega arith) free in
    let len = length_snoc cs newline in
    let counters : d.input.w ≡ (d.input.r + suc (length cs)) % word =
      omega (arith, w.counters, len) in
    let read = read_line n true dead cs d.input plain enough short w.small counters w.content in
    (
      record d { lock = false },
      record d { input = record (d.input) { r = d.input.w }; lock = false },
      rw (unheld, run, lock) refl,
      out,
      rw read refl,
      refl,
      w.finished,
      refl,
    )
