-- ===== src/Inode/Codec.antt =====
-- iupdate() and ilock() of fs.c: the inode that is written is the one that is read.
use shared_memory.Prelude.{
  ℕ, ◌+◌, ◌-◌, ◌*◌, ◌/◌, ◌%◌, ◌^◌, ◌≤◌, ◌<◌, ◌≡◌, ◌⊎◌, refl, ◌∙◌, ap, true, arith, in_range, lt→ltb,
}
use shared_memory.Layout.{word}
use shared_memory.Bits.{short_at, word_at, put_int}
use shared_memory.Log.{Block}
use shared_memory.Inode.{Inode, ndirect, put_addrs, load_inode, store_inode}

-- The bytes at `a` and those behind it
byte0 : (n a v : ℕ) (m : ℕ → ℕ) → 0 < n → put_int n a v m a ≡ v % 256
byte0 n a v m h = (let e : a - a ≡ 0 = omega arith in rw e (ground arith))

byte1 : (n a v : ℕ) (m : ℕ → ℕ) → 1 < n → put_int n a v m (a + 1) ≡ v / 256 % 256
byte1 n a v m h = (let e : a + 1 - a ≡ 1 = omega arith in rw e (ground arith))

byte2 : (n a v : ℕ) (m : ℕ → ℕ) → 2 < n → put_int n a v m (a + 2) ≡ v / 65536 % 256
byte2 n a v m h = (let e : a + 2 - a ≡ 2 = omega arith in rw e (ground arith))

byte3 : (n a v : ℕ) (m : ℕ → ℕ) → 3 < n → put_int n a v m (a + 3) ≡ v / 16777216 % 256
byte3 n a v m h = (let e : a + 3 - a ≡ 3 = omega arith in rw e (ground arith))

outside : (n a v : ℕ) (m : ℕ → ℕ) (x : ℕ) → (x < a) ⊎ (a + n ≤ x) → put_int n a v m x ≡ m x
outside n a v m x h = ground arith

pub short_at-put : (a v : ℕ) (m : ℕ → ℕ) → v < 65536 → short_at (put_int 2 a v m) a ≡ v
short_at-put a v m h = rw (byte0 2 a v m (omega arith), byte1 2 a v m (omega arith)) (omega arith)

pub word_at-put : (a v : ℕ) (m : ℕ → ℕ) → v < word → word_at (put_int 4 a v m) a ≡ v
word_at-put a v m h =
    rw
      (
        byte0 4 a v m (omega arith),
        byte1 4 a v m (omega arith),
        byte2 4 a v m (omega arith),
        byte3 4 a v m (omega arith),
      )
      (omega arith)

short_at-skip :
    (n b v a : ℕ) (m : ℕ → ℕ)
    → (a + 2 ≤ b) ⊎ (b + n ≤ a)
    → short_at (put_int n b v m) a ≡ short_at m a
short_at-skip n b v a m h =
    rw (outside n b v m a (omega arith), outside n b v m (a + 1) (omega arith)) refl

word_at-skip :
    (n b v a : ℕ) (m : ℕ → ℕ)
    → (a + 4 ≤ b) ⊎ (b + n ≤ a)
    → word_at (put_int n b v m) a ≡ word_at m a
word_at-skip n b v a m h =
    rw
      (
        outside n b v m a (omega arith),
        outside n b v m (a + 1) (omega arith),
        outside n b v m (a + 2) (omega arith),
        outside n b v m (a + 3) (omega arith),
      )
      refl

addrs_byte :
    (a j r : ℕ) (addrs : ℕ → ℕ) (m : ℕ → ℕ)
    → j < ndirect + 1
    → r < 4
    → put_addrs a addrs m (a + 4 * j + r) ≡ addrs j / 256 ^ r % 256
addrs_byte a j r addrs m h s =
    let e : (a + 4 * j + r - a) / 4 ≡ j = omega arith in
    let f : (a + 4 * j + r - a) % 4 ≡ r = omega arith in
    let i : in_range a (4 * (ndirect + 1)) (a + 4 * j + r) ≡ true = ground arith in
    rw (i, e, f) refl

addrs_outside :
    (a : ℕ) (addrs : ℕ → ℕ) (m : ℕ → ℕ) (x : ℕ)
    → (x < a) ⊎ (a + 52 ≤ x)
    → put_addrs a addrs m x ≡ m x
addrs_outside a addrs m x h = ground arith

word_at-put_addrs :
    (a j : ℕ) (addrs : ℕ → ℕ) (m : ℕ → ℕ)
    → j < ndirect + 1
    → addrs j < word
    → word_at (put_addrs a addrs m) (a + 4 * j) ≡ addrs j
word_at-put_addrs a j addrs m h s =
    let e : a + 4 * j ≡ a + 4 * j + 0 = omega arith in
    let b0 : put_addrs a addrs m (a + 4 * j) ≡ addrs j / 1 % 256 =
      ap (put_addrs a addrs m) e ∙ addrs_byte a j 0 addrs m h (omega arith) in
    rw
      (
        b0,
        addrs_byte a j 1 addrs m h (omega arith),
        addrs_byte a j 2 addrs m h (omega arith),
        addrs_byte a j 3 addrs m h (omega arith),
      )
      (omega arith)

short_at-addrs :
    (a b : ℕ) (addrs : ℕ → ℕ) (m : ℕ → ℕ)
    → b + 2 ≤ a
    → short_at (put_addrs a addrs m) b ≡ short_at m b
short_at-addrs a b addrs m h =
    rw (addrs_outside a addrs m b (omega arith), addrs_outside a addrs m (b + 1) (omega arith)) refl

word_at-addrs :
    (a b : ℕ) (addrs : ℕ → ℕ) (m : ℕ → ℕ)
    → b + 4 ≤ a
    → word_at (put_addrs a addrs m) b ≡ word_at m b
word_at-addrs a b addrs m h =
    rw
      (
        addrs_outside a addrs m b (omega arith),
        addrs_outside a addrs m (b + 1) (omega arith),
        addrs_outside a addrs m (b + 2) (omega arith),
        addrs_outside a addrs m (b + 3) (omega arith),
      )
      refl

-- The fields of an inode fit in those of `struct dinode`.
pub record IsSmall (ip : Inode) : Type 0 where
  pub kind : ip.kind < 65536
  pub major : ip.major < 65536
  pub minor : ip.minor < 65536
  pub nlink : ip.nlink < 65536
  pub size : ip.size < word
  pub addrs : (j : ℕ) → j < ndirect + 1 → ip.addrs j < word

-- The fields of the inode `q` are those of `ip`.
pub record SameFields (ip q : Inode) : Type 0 where
  pub kind : q.kind ≡ ip.kind
  pub major : q.major ≡ ip.major
  pub minor : q.minor ≡ ip.minor
  pub nlink : q.nlink ≡ ip.nlink
  pub size : q.size ≡ ip.size
  pub addrs : (j : ℕ) → j < ndirect + 1 → q.addrs j ≡ ip.addrs j

module _ (ip ip' : Inode) (o : ℕ) (x : Block) (s : IsSmall ip) where
  abbrev b1 : Block
  b1 = put_int 2 o ip.kind x

  abbrev b2 : Block
  b2 = put_int 2 (o + 2) ip.major b1

  abbrev b3 : Block
  b3 = put_int 2 (o + 4) ip.minor b2

  abbrev b4 : Block
  b4 = put_int 2 (o + 6) ip.nlink b3

  abbrev b5 : Block
  b5 = put_int 4 (o + 8) ip.size b4

  load-kind : short_at (put_addrs (o + 12) ip.addrs b5) o ≡ ip.kind
  load-kind =
      short_at-addrs (o + 12) o ip.addrs b5 (omega arith)
      ∙ short_at-skip 4 (o + 8) ip.size o b4 (omega arith)
      ∙ short_at-skip 2 (o + 6) ip.nlink o b3 (omega arith)
      ∙ short_at-skip 2 (o + 4) ip.minor o b2 (omega arith)
      ∙ short_at-skip 2 (o + 2) ip.major o b1 (omega arith)
      ∙ short_at-put o ip.kind x s.kind

  load-major : short_at (put_addrs (o + 12) ip.addrs b5) (o + 2) ≡ ip.major
  load-major =
      short_at-addrs (o + 12) (o + 2) ip.addrs b5 (omega arith)
      ∙ short_at-skip 4 (o + 8) ip.size (o + 2) b4 (omega arith)
      ∙ short_at-skip 2 (o + 6) ip.nlink (o + 2) b3 (omega arith)
      ∙ short_at-skip 2 (o + 4) ip.minor (o + 2) b2 (omega arith)
      ∙ short_at-put (o + 2) ip.major b1 s.major

  load-minor : short_at (put_addrs (o + 12) ip.addrs b5) (o + 4) ≡ ip.minor
  load-minor =
      short_at-addrs (o + 12) (o + 4) ip.addrs b5 (omega arith)
      ∙ short_at-skip 4 (o + 8) ip.size (o + 4) b4 (omega arith)
      ∙ short_at-skip 2 (o + 6) ip.nlink (o + 4) b3 (omega arith)
      ∙ short_at-put (o + 4) ip.minor b2 s.minor

  load-nlink : short_at (put_addrs (o + 12) ip.addrs b5) (o + 6) ≡ ip.nlink
  load-nlink =
      short_at-addrs (o + 12) (o + 6) ip.addrs b5 (omega arith)
      ∙ short_at-skip 4 (o + 8) ip.size (o + 6) b4 (omega arith)
      ∙ short_at-put (o + 6) ip.nlink b3 s.nlink

  load-size : word_at (put_addrs (o + 12) ip.addrs b5) (o + 8) ≡ ip.size
  load-size =
      word_at-addrs (o + 12) (o + 8) ip.addrs b5 (omega arith)
      ∙ word_at-put (o + 8) ip.size b4 s.size

  pub load-store : SameFields ip (load_inode (store_inode ip o x) o ip')
  unfolding load_inode store_inode
  load-store = record {
    kind = load-kind;
    major = load-major;
    minor = load-minor;
    nlink = load-nlink;
    size = load-size;
    addrs = λ j h.
        rw (lt→ltb j (ndirect + 1) h) (word_at-put_addrs (o + 12) j ip.addrs b5 h (s.addrs j h));
  }

  -- The other inodes of the block
  pub store-outside : (y : ℕ) → (y < o) ⊎ (o + 64 ≤ y) → store_inode ip o x y ≡ x y
  unfolding store_inode
  store-outside y h =
      addrs_outside (o + 12) ip.addrs b5 y (omega arith)
      ∙ outside 4 (o + 8) ip.size b4 y (omega arith)
      ∙ outside 2 (o + 6) ip.nlink b3 y (omega arith)
      ∙ outside 2 (o + 4) ip.minor b2 y (omega arith)
      ∙ outside 2 (o + 2) ip.major b1 y (omega arith)
      ∙ outside 2 o ip.kind x y (omega arith)
