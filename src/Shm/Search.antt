-- ===== src/Shm/Search.antt =====
-- The search for consecutive free slots, which allocShmSeg() runs over the table and shmatHelper()
-- over the attachments of the process. The loops are the same code with another test.
use shared_memory.Prelude.{
  ℕ, zero, suc, ◌+◌, ◌-◌, ◌≤◌, ◌<◌, ◌≡◌, inl, inr, refl, Bool, true, false, Option, none, some,
  arith, ltb, ◌==◌, if◌then◌else◌, Outcome, ok, fault, Bool-cases, lt→ltb,
}
use native.Mathlib.Decide.{dec_lt}

abbrev or_here : Option ℕ → ℕ → ℕ
or_here none i = i
or_here (some s) i = s

-- `n` rounds of the loop at index `i`, over an array of `size` slots: `si` is the first slot of the
-- current run of free slots (none for -1) and `zc` its length.
find_run : ℕ → (ℕ → Bool) → ℕ → ℕ → ℕ → Option ℕ → ℕ → Outcome (Option ℕ)
find_run size is_free need zero i si zc = ok none
find_run size is_free need (suc n) i si zc =
    let longer = find_run size is_free need n (i + 1) (some (or_here si i)) (zc + 1) in
    let restart = find_run size is_free need n (i + 1) none 0 in
    if ltb i size
    then (if is_free i
        then (if zc + 1 == need then ok (some (or_here si i)) else longer)
        else restart)
    else fault

-- The loop from its start: the index of the run, or none.
unfoldable pub search : ℕ → (ℕ → Bool) → ℕ → ℕ → Outcome (Option ℕ)
unfolding find_run
search size is_free need n = find_run size is_free need n 0 none 0

-- The `need` slots from `j` on are free.
abbrev pub RunAt : (ℕ → Bool) → ℕ → ℕ → Type 0
RunAt is_free need j = (x : ℕ) → j ≤ x → x < j + need → is_free x ≡ true

-- What a search of the first `n` slots may return: the lowest run within them, or none if there is
-- no run.
abbrev pub FirstFit : (ℕ → Bool) → ℕ → ℕ → Option ℕ → Type 0
FirstFit is_free need n none = (j : ℕ) → j + need ≤ n → ¬ RunAt is_free need j
FirstFit is_free need n (some r) =
    RunAt is_free need r × (r + need ≤ n) × ((j : ℕ) → j < r → ¬ RunAt is_free need j)

-- `si` and `zc` describe the run that ends before `i`.
abbrev Agrees : ℕ → Option ℕ → ℕ → Type 0
Agrees i none zc = zc ≡ 0
Agrees i (some s) zc = s + zc ≡ i

module _ (size : ℕ) (is_free : ℕ → Bool) (need : ℕ) (need_pos : 0 < need) where
  -- What the loop knows at index `i`: the last `zc` slots are free, and no run starts before them.
  record Scanned (i : ℕ) (si : Option ℕ) (zc : ℕ) : Type 0 where
    agrees : Agrees i si zc
    short : zc < need
    inside : zc ≤ i
    run : (x : ℕ) → i - zc ≤ x → x < i → is_free x ≡ true
    none_before : (j : ℕ) → j < i - zc → ¬ RunAt is_free need j

  abbrev Found : ℕ → Outcome (Option ℕ) → Type 0
  Found end o = (r : Option ℕ) × (o ≡ ok r) × FirstFit is_free need end r

  start_of : (i : ℕ) (si : Option ℕ) (zc : ℕ) → zc ≤ i → Agrees i si zc → or_here si i ≡ i - zc
  start_of i none zc h a = omega arith
  start_of i (some s) zc h a = omega arith

  run_extend :
      (i zc x : ℕ)
      → ((y : ℕ) → i - zc ≤ y → y < i → is_free y ≡ true)
      → is_free i ≡ true
      → i - zc ≤ x
      → x < i + 1
      → is_free x ≡ true
  run_extend i zc x run free lo hi = elim (dec_lt x i) [
    | yes p ↦ run x lo p
    | no p ↦ (let e : x ≡ i = omega arith in rw e free)
  ]

  -- A free slot lengthens the run, a used one rules out every start up to it.
  Scanned-longer :
      (i : ℕ) (si : Option ℕ) (zc : ℕ)
      → Scanned i si zc
      → is_free i ≡ true
      → (zc + 1 == need) ≡ false
      → Scanned (i + 1) (some (or_here si i)) (zc + 1)
  Scanned-longer i si zc s free more = record {
    agrees = omega (arith, start_of i si zc s.inside s.agrees, s.inside);
    short = ground (arith, s.short);
    inside = omega (arith, s.inside);
    run = λ x lo hi. run_extend i zc x s.run free (omega arith) hi;
    none_before = λ j h. s.none_before j (omega arith);
  }

  Scanned-restart :
      (i : ℕ) (si : Option ℕ) (zc : ℕ)
      → Scanned i si zc
      → is_free i ≡ false
      → Scanned (i + 1) none 0
  Scanned-restart i si zc s used = record {
    agrees = refl;
    short = need_pos;
    inside = omega arith;
    run = λ x lo hi. absurd (omega arith);
    none_before = λ j h all. elim (dec_lt j (i - zc)) [
      | yes p ↦ s.none_before j p all
      | no p ↦ cc (all i (omega arith) (omega (arith, s.short, s.inside)))
    ];
  }

  find_run_lem :
      (n i end : ℕ) (si : Option ℕ) (zc : ℕ)
      → i + n ≡ end
      → end ≤ size
      → Scanned i si zc
      → Found end (find_run size is_free need n i si zc)
  unfolding find_run
  find_run_lem zero i end si zc e b s =
      (none, refl, λ j h. s.none_before j (omega (arith, s.short)))
  find_run_lem (suc n) i end si zc e b s = elim (Bool-cases (is_free i)) [
    | inl free ↦ elim (Bool-cases (zc + 1 == need)) [
      | inl last ↦ (
        some (i - zc),
        rw (lt→ltb i size (omega arith), free, last, start_of i si zc s.inside s.agrees) refl,
        (
          λ x lo hi. run_extend i zc x s.run free lo (ground arith),
          ground (arith, s.inside),
          s.none_before,
        ),
      )
      | inr more ↦
          rw (lt→ltb i size (omega arith), free, more)
            (find_run_lem n (i + 1) end (some (or_here si i)) (zc + 1) (omega arith) b
              (Scanned-longer i si zc s free more))
    ]
    | inr used ↦
        rw (lt→ltb i size (omega arith), used)
          (find_run_lem n (i + 1) end none 0 (omega arith) b (Scanned-restart i si zc s used))
  ]

  -- A search of the first `n` slots of an array that has them reads nothing out of bounds. It
  -- returns the start of the lowest run of `need` free slots that lies within the first `n`, and
  -- none exactly when there is no such run.
  pub search-FirstFit :
      (n : ℕ)
      → n ≤ size
      → (r : Option ℕ) × (search size is_free need n ≡ ok r) × FirstFit is_free need n r
  unfolding search
  search-FirstFit n h = find_run_lem n 0 n none 0 (omega arith) h (record {
    agrees = refl;
    short = need_pos;
    inside = omega arith;
    run = λ x lo hi. absurd (omega arith);
    none_before = λ j hj. absurd (omega arith);
  })
