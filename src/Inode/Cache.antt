-- ===== src/Inode/Cache.antt =====
-- iget(), idup() and iput() of fs.c on the cache of inodes.
use shared_memory.Prelude.{
  ℕ, ◌<◌, ◌≡◌, ◌≢◌, ◌⊎◌, inl, inr, refl, true, false, Option, none, some, arith, ◌==◌, ==-refl, ℤ,
  pos, negsuc, incr, ◌<ℤ◌, ◌==ℤ◌, eq_of_==ℤ, ok, panic, Bool-cases,
}
use mathlib.Core.Path.{subst}
use shared_memory.Proc.{scan}
use shared_memory.Proc.Scan.{FirstFrom, scan-FirstFrom}
use shared_memory.Inode.{FileSystem, ninode, set_inode, is_inode, fresh_entry, iget}

-- Of each inode the cache has one entry at most that is in use.
abbrev pub OneEntry : FileSystem → Type 0
OneEntry f =
    (i j : ℕ)
    → i < ninode
    → j < ninode
    → (pos 0 <ℤ (f.inodes i).ref) ≡ true
    → (pos 0 <ℤ (f.inodes j).ref) ≡ true
    → (f.inodes i).dev ≡ (f.inodes j).dev
    → (f.inodes i).inum ≡ (f.inodes j).inum
    → i ≡ j

more_positive : (r : ℤ) → (pos 0 <ℤ r) ≡ true → (pos 0 <ℤ incr r) ≡ true
more_positive (pos n) h = ground arith
more_positive (negsuc n) h = absurd (cc)

-- What iget() of the inode has found in the entry `i`, and made of it
abbrev pub Cached : ℕ → ℕ → ℕ → FileSystem → Type 0
Cached dev inum i f = (i < ninode) × (is_inode dev inum (f.inodes i) ≡ true)

abbrev pub referred : ℕ → FileSystem → FileSystem
referred i f = set_inode i (record (f.inodes i) { ref = incr (f.inodes i).ref }) f

abbrev pub renewed : ℕ → ℕ → ℕ → FileSystem → FileSystem
renewed dev inum i f = set_inode i (fresh_entry dev inum (f.inodes i)) f

abbrev pub NotCached : ℕ → ℕ → FileSystem → Type 0
NotCached dev inum f = (j : ℕ) → j < ninode → is_inode dev inum (f.inodes j) ≡ false

-- iget() with the cache unlocked. An entry of the inode that is in use gets one more reference; or there
-- is none, and the first entry without a reference is taken for it, with one; or there is none of these
-- either, and it panics.
pub iget-cases :
    (dev inum : ℕ) (f : FileSystem)
    → f.lock ≡ false
    → ((i : ℕ) × Cached dev inum i f × (iget dev inum f ≡ ok (i, referred i f)))
      ⊎ (NotCached dev inum f
          × (((i : ℕ) × (i < ninode)
                × ((f.inodes i).ref ≡ pos 0)
                × ((j : ℕ) → j < i → (f.inodes j).ref ≢ pos 0)
                × (iget dev inum f ≡ ok (i, renewed dev inum i f)))
              ⊎ (((j : ℕ) → j < ninode → (f.inodes j).ref ≢ pos 0) × (iget dev inum f ≡ panic))))
unfolding iget
iget-cases dev inum f k =
    cached (scan (λ i. is_inode dev inum (f.inodes i)) ninode 0) refl
      (scan-FirstFrom (λ i. is_inode dev inum (f.inodes i)) ninode 0 ninode (omega arith))
  where
    Result : Type 0
    Result =
        ((i : ℕ) × Cached dev inum i f × (iget dev inum f ≡ ok (i, referred i f)))
        ⊎ (NotCached dev inum f
            × (((i : ℕ) × (i < ninode)
                  × ((f.inodes i).ref ≡ pos 0)
                  × ((j : ℕ) → j < i → (f.inodes j).ref ≢ pos 0)
                  × (iget dev inum f ≡ ok (i, renewed dev inum i f)))
                ⊎ (((j : ℕ) → j < ninode → (f.inodes j).ref ≢ pos 0) × (iget dev inum f ≡ panic))))

    unused :
        (o : Option ℕ)
        → scan (λ i. is_inode dev inum (f.inodes i)) ninode 0 ≡ none
        → NotCached dev inum f
        → scan (λ i. (f.inodes i).ref ==ℤ pos 0) ninode 0 ≡ o
        → FirstFrom (λ i. (f.inodes i).ref ==ℤ pos 0) 0 ninode o
        → Result
    unused none e n q g = inr (
      n,
      inr (
        (λ j h z. (let y = g j (omega arith) h in let x = (rw z at y) in cc)),
        rw (k, e, q) refl,
      ),
    )
    unused (some i) e n q g = inr (
      n,
      inl (
        i,
        g.1,
        eq_of_==ℤ (f.inodes i).ref (pos 0) g.2,
        (λ j h z. (let y = g.3 j (omega arith) h in let x = (rw z at y) in cc)),
        rw (k, e, q) refl,
      ),
    )

    cached :
        (o : Option ℕ)
        → scan (λ i. is_inode dev inum (f.inodes i)) ninode 0 ≡ o
        → FirstFrom (λ i. is_inode dev inum (f.inodes i)) 0 ninode o
        → Result
    cached none e g =
        unused (scan (λ i. (f.inodes i).ref ==ℤ pos 0) ninode 0) e (λ j h. g j (omega arith) h) refl
          (scan-FirstFrom (λ i. (f.inodes i).ref ==ℤ pos 0) ninode 0 ninode (omega arith))
    cached (some i) e g = inl (i, (g.1, g.2), rw (k, e) refl)

referred-Cached :
    (dev inum i : ℕ) (f : FileSystem) → Cached dev inum i f → Cached dev inum i (referred i f)
referred-Cached dev inum i f (p, c) =
    let m = more_positive (f.inodes i).ref (ground arith) in (p, rw (==-refl i, m) (ground arith))

referred-ref :
    (i j : ℕ) (f : FileSystem)
    → (pos 0 <ℤ (f.inodes i).ref) ≡ true
    → (pos 0 <ℤ ((referred i f).inodes j).ref) ≡ true
    → (pos 0 <ℤ (f.inodes j).ref) ≡ true
referred-ref i j f p h = elim (Bool-cases (j == i)) [
  | inl e ↦ (let q : j ≡ i = ground arith in rw q p)
  | inr e ↦ (rw e at h)
]

referred-OneEntry :
    (i : ℕ) (f : FileSystem)
    → (pos 0 <ℤ (f.inodes i).ref) ≡ true
    → OneEntry f
    → OneEntry (referred i f)
referred-OneEntry i f p one j k h g a b d n =
    one j k h g (referred-ref i j f p a) (referred-ref i k f p b) (ground arith) (ground arith)

renewed-OneEntry :
    (dev inum i : ℕ) (f : FileSystem)
    → NotCached dev inum f
    → OneEntry f
    → OneEntry (renewed dev inum i f)
renewed-OneEntry dev inum i f free one j k h g a b d n = elim (Bool-cases (j == i)) [
  | inl e ↦ elim (Bool-cases (k == i)) [
    | inl e' ↦ ground arith
    | inr e' ↦ absurd (
        let z = free k g in
        let b' = (rw e' at b) in
        let d' = (rw (e, e') at d) in let n' = (rw (e, e') at n) in ground arith)
  ]
  | inr e ↦ elim (Bool-cases (k == i)) [
    | inl e' ↦ absurd (
        let z = free j h in
        let a' = (rw e at a) in
        let d' = (rw (e, e') at d) in let n' = (rw (e, e') at n) in ground arith)
    | inr e' ↦ one j k h g (rw e at a) (rw e' at b) (rw (e, e') at d) (rw (e, e') at n)
  ]
]

-- Two calls of iget() for one inode, the second right after the first, return the same entry, which then
-- has one reference more. No inode had two entries in use, and none has two afterwards.
pub iget-iget :
    (dev inum i : ℕ) (f f1 : FileSystem)
    → f.lock ≡ false
    → OneEntry f
    → iget dev inum f ≡ ok (i, f1)
    → OneEntry f1
      × (is_inode dev inum (f1.inodes i) ≡ true)
      × (iget dev inum f1 ≡ ok (i, referred i f1))
iget-iget dev inum i f f1 k one run = elim (iget-cases dev inum f k) [
  | inl (j, c, e) ↦
      (let ij : i ≡ j = cc in
        let q : f1 ≡ referred j f = cc in
        let pos_ref : (pos 0 <ℤ (f.inodes j).ref) ≡ true = (let z = c.1 in ground arith) in
        both (rw q k) (rw q (referred-OneEntry j f pos_ref one))
          (rw (q, ij) (referred-Cached dev inum j f c)))
  | inr (n, inl (j, p, z, u, e)) ↦
      (let ij : i ≡ j = cc in
        let q : f1 ≡ renewed dev inum j f = cc in
        both (rw q k) (rw q (renewed-OneEntry dev inum j f n one)) (rw (q, ij) (p, ground arith)))
  | inr (n, inr (u, e)) ↦ absurd (cc)
]
  where
    again :
        (f1 : FileSystem)
        → f1.lock ≡ false
        → OneEntry f1
        → Cached dev inum i f1
        → iget dev inum f1 ≡ ok (i, referred i f1)
    again f1 k1 one1 (p, c) = elim (iget-cases dev inum f1 k1) [
      | inl (j, (q, d), e) ↦
          (let same : j ≡ i =
              one1 j i q p (ground arith) (ground arith) (ground arith) (ground arith) in
            subst (λ x. iget dev inum f1 ≡ ok (x, referred x f1)) same e)
      | inr (n, _) ↦ absurd (let z = n i p in cc)
    ]

    both :
        f1.lock ≡ false
        → OneEntry f1
        → Cached dev inum i f1
        → OneEntry f1
          × (is_inode dev inum (f1.inodes i) ≡ true)
          × (iget dev inum f1 ≡ ok (i, referred i f1))
    both k1 one1 c = (one1, c.1, again f1 k1 one1 c)
