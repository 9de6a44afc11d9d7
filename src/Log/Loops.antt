-- ===== src/Log/Loops.antt =====
-- The loops of log.c in closed form: which blocks they copy, on the disk and in the buffers, when the
-- power lasts for some of the writes only.
use shared_memory.Prelude.{
  ℕ, zero, suc, ◌+◌, ◌-◌, ◌≤◌, ◌<◌, ◌≡◌, ◌⊎◌, inl, refl, sym, arith, if◌then◌else◌, min, in_range,
  write,
}
use native.Mathlib.Decide.{dec_lt}
use shared_memory.Log.{
  Block, Store, Log, store_buf, write_buf, copy_ints, install_loop, write_log_loop,
}

pub copy_ints_lem :
    (n i : ℕ) (from to : ℕ → ℕ) (j : ℕ)
    → copy_ints n i from to j ≡ (if in_range i n j then from j else to j)
unfolding copy_ints
copy_ints_lem zero i from to j = ground arith
copy_ints_lem (suc n) i from to j =
    ground (arith, copy_ints_lem n (i + 1) from (write to i (from i)) j)

-- The store after a buffer was filled and written.
abbrev pub stored : ℕ → Block → Store → Store
stored b x s = write_buf b (store_buf b x s)

-- `b` lies outside the header at `start` and the `n` blocks behind it.
abbrev pub Outside : ℕ → ℕ → ℕ → Type 0
Outside start n b = (b < start) ⊎ (start + n < b)

pub write_log_loop-power :
    (n tail : ℕ) (l : Log) (s : Store) → (write_log_loop n tail l s).power ≡ s.power - n
unfolding write_log_loop write_buf
write_log_loop-power zero tail l s = omega arith
write_log_loop-power (suc n) tail l s =
    let a = l.start + tail + 1 in
    omega (arith, write_log_loop-power n (tail + 1) l (stored a (s.buf (l.lh_block tail)) s))

pub write_log_loop-buf_out :
    (n tail : ℕ) (l : Log) (s : Store) (b : ℕ)
    → (b ≤ l.start + tail) ⊎ (l.start + tail + n < b)
    → (write_log_loop n tail l s).buf b ≡ s.buf b
unfolding write_log_loop write_buf
write_log_loop-buf_out zero tail l s b h = refl
write_log_loop-buf_out (suc n) tail l s b h =
    let a = l.start + tail + 1 in
    ground (
      arith,
      write_log_loop-buf_out n (tail + 1) l (stored a (s.buf (l.lh_block tail)) s) b (omega arith),
    )

pub write_log_loop-disk_out :
    (n tail : ℕ) (l : Log) (s : Store) (b : ℕ)
    → (b ≤ l.start + tail) ⊎ (l.start + tail + min n s.power < b)
    → (write_log_loop n tail l s).disk b ≡ s.disk b
unfolding write_log_loop write_buf
write_log_loop-disk_out zero tail l s b h = refl
write_log_loop-disk_out (suc n) tail l s b h =
    let a = l.start + tail + 1 in
    ground (
      arith,
      write_log_loop-disk_out n (tail + 1) l (stored a (s.buf (l.lh_block tail)) s) b (omega arith),
    )

pub write_log_loop-buf_in :
    (n tail : ℕ) (l : Log) (s : Store)
    → ((i : ℕ) → i < tail + n → Outside l.start (tail + n) (l.lh_block i))
    → (i : ℕ) → tail ≤ i
    → i < tail + n
    → (write_log_loop n tail l s).buf (l.start + i + 1) ≡ s.buf (l.lh_block i)
unfolding write_log_loop write_buf
write_log_loop-buf_in zero tail l s away i p q = absurd (omega arith)
write_log_loop-buf_in (suc n) tail l s away i p q =
    let a = l.start + tail + 1 in
    let s' = stored a (s.buf (l.lh_block tail)) s in
    elim (dec_lt tail i) [
      | yes r ↦
          (let ih =
              write_log_loop-buf_in n (tail + 1) l s' (λ j h. away' j h) i (omega arith)
                (omega arith) in
            let o = away i q in ground arith)
      | no r ↦
          (let e : i ≡ tail = omega arith in
            let ih = write_log_loop-buf_out n (tail + 1) l s' a (inl (omega arith)) in
            rw (e, ih) ground arith)
    ]
  where
    away' : (j : ℕ) → j < tail + 1 + n → Outside l.start (tail + 1 + n) (l.lh_block j)
    away' j h = let o = away j (omega arith) in omega arith

pub write_log_loop-disk_in :
    (n tail : ℕ) (l : Log) (s : Store)
    → ((i : ℕ) → i < tail + n → Outside l.start (tail + n) (l.lh_block i))
    → (i : ℕ) → tail ≤ i
    → i < tail + min n s.power
    → (write_log_loop n tail l s).disk (l.start + i + 1) ≡ s.buf (l.lh_block i)
unfolding write_log_loop write_buf
write_log_loop-disk_in zero tail l s away i p q = absurd (omega arith)
write_log_loop-disk_in (suc n) tail l s away i p q =
    let a = l.start + tail + 1 in
    let s' = stored a (s.buf (l.lh_block tail)) s in
    elim (dec_lt tail i) [
      | yes r ↦
          (let ih =
              write_log_loop-disk_in n (tail + 1) l s' (λ j h. away' j h) i (omega arith)
                (omega arith) in
            let o = away i (omega arith) in ground arith)
      | no r ↦
          (let e : i ≡ tail = omega arith in
            let ih = write_log_loop-disk_out n (tail + 1) l s' a (inl (omega arith)) in
            rw (e, ih) ground arith)
    ]
  where
    away' : (j : ℕ) → j < tail + 1 + n → Outside l.start (tail + 1 + n) (l.lh_block j)
    away' j h = let o = away j (omega arith) in omega arith

pub install_loop-power :
    (n tail : ℕ) (l : Log) (s : Store) → (install_loop n tail l s).power ≡ s.power - n
unfolding install_loop write_buf
install_loop-power zero tail l s = omega arith
install_loop-power (suc n) tail l s = omega (
  arith,
  install_loop-power n (tail + 1) l (stored (l.lh_block tail) (s.buf (l.start + tail + 1)) s),
)

pub install_loop-buf_out :
    (n tail : ℕ) (l : Log) (s : Store) (b : ℕ)
    → ((i : ℕ) → i < tail + n → ¬ (l.lh_block i ≡ b))
    → (install_loop n tail l s).buf b ≡ s.buf b
unfolding install_loop write_buf
install_loop-buf_out zero tail l s b h = refl
install_loop-buf_out (suc n) tail l s b h =
    let ne = h tail (omega arith) in
    let ih =
      install_loop-buf_out n (tail + 1) l (stored (l.lh_block tail) (s.buf (l.start + tail + 1)) s)
        b (λ i q. h i (omega arith)) in
    ground arith

pub install_loop-disk_out :
    (n tail : ℕ) (l : Log) (s : Store) (b : ℕ)
    → ((i : ℕ) → tail ≤ i → i < tail + min n s.power → ¬ (l.lh_block i ≡ b))
    → (install_loop n tail l s).disk b ≡ s.disk b
unfolding install_loop write_buf
install_loop-disk_out zero tail l s b h = refl
install_loop-disk_out (suc n) tail l s b h =
    let ih =
      install_loop-disk_out n (tail + 1) l (stored (l.lh_block tail) (s.buf (l.start + tail + 1)) s)
        b (λ i p q. h i (omega arith) (omega arith)) in
    elim (dec_lt 0 s.power) [
      | yes r ↦ (let ne = h tail (omega arith) (omega arith) in ground arith)
      | no r ↦ ground arith
    ]

-- The `n` blocks of the log are distinct.
abbrev pub DistinctBlocks : ℕ → (ℕ → ℕ) → Type 0
DistinctBlocks n block = (i j : ℕ) → i < j → j < n → ¬ (block i ≡ block j)

pub install_loop-disk_in :
    (n tail : ℕ) (l : Log) (s : Store)
    → ((i : ℕ) → i < tail + n → Outside l.start (tail + n) (l.lh_block i))
    → DistinctBlocks (tail + n) l.lh_block
    → (i : ℕ) → tail ≤ i
    → i < tail + min n s.power
    → (install_loop n tail l s).disk (l.lh_block i) ≡ s.buf (l.start + i + 1)
unfolding install_loop write_buf
install_loop-disk_in zero tail l s away dis i p q = absurd (omega arith)
install_loop-disk_in (suc n) tail l s away dis i p q =
    let s' = stored (l.lh_block tail) (s.buf (l.start + tail + 1)) s in
    elim (dec_lt tail i) [
      | yes r ↦
          (let ih =
              install_loop-disk_in n (tail + 1) l s' (λ j h. away' j h)
                (λ j k h g. dis j k h (omega arith)) i (omega arith) (omega arith) in
            let o = away tail (omega arith) in ground arith)
      | no r ↦
          (let e : i ≡ tail = omega arith in
            let ih =
              install_loop-disk_out n (tail + 1) l s' (l.lh_block tail)
                (λ j h g eq. dis tail j (omega arith) (omega arith) (sym eq)) in
            rw (e, ih) ground arith)
    ]
  where
    away' : (j : ℕ) → j < tail + 1 + n → Outside l.start (tail + 1 + n) (l.lh_block j)
    away' j h = let o = away j (omega arith) in omega arith
