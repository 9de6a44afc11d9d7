-- ===== src/Fs/Room.antt =====
-- Writes of fs.c through a log that has room for them.
use shared_memory.Prelude.{ℕ, suc, ◌+◌, ◌≤◌, ◌≡◌, ◌≢◌, inl, inr, refl, false, arith, pos, ok}
use shared_memory.Log.{Block, store_buf, put_block}
use shared_memory.Log.Space.{capacity, no_room, log_slot, set_dirty, log_write-ok, put_block-count}
use shared_memory.Fs.{Disk, block_at, write_block}

-- The log takes `n` more blocks, for a system call in a transaction.
pub record HasRoom (n : ℕ) (k : Disk) : Type 0 where
  pub room : k.log.lh_n + n ≤ capacity k.log
  pub others : ℕ
  pub active : k.log.outstanding ≡ pos (suc others)
  pub free : k.log.lock ≡ false

-- The disk after a write
abbrev pub written : ℕ → Block → Disk → Disk
written b x k = record k {
  log = put_block (log_slot b k.log) b k.log;
  store = set_dirty b (store_buf b x k.store);
}

not_full : (n : ℕ) (k : Disk) → HasRoom (suc n) k → no_room k.log ≡ false
not_full n k r = let h = r.room in ground arith

pub write_block-written :
    (n b : ℕ) (x : Block) (k : Disk) → HasRoom (suc n) k → write_block b x k ≡ ok (written b x k)
write_block-written n b x k r =
    rw (log_write-ok b k.log (store_buf b x k.store) r.others (not_full n k r) r.active r.free) refl

pub written-HasRoom :
    (n b : ℕ) (x : Block) (k : Disk) → HasRoom (suc n) k → HasRoom n (written b x k)
written-HasRoom n b x k r = record {
  room =
      (let h = r.room in
        elim (put_block-count b k.log) [ inl e ↦ omega arith | inr e ↦ omega arith ]);
  others = r.others;
  active = r.active;
  free = r.free;
}

pub written_self : (b : ℕ) (x : Block) (k : Disk) → block_at b (written b x k) ≡ x
written_self b x k = ground arith

pub written-other :
    (b c : ℕ) (x : Block) (k : Disk) → c ≢ b → block_at c (written b x k) ≡ block_at c k
written-other b c x k h = ground arith
