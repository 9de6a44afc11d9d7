-- ===== src/Dir/Paths.antt =====
-- skipelem() of fs.c against a description of paths.
use shared_memory.Prelude.{
  ℕ, ◌<◌, ◌≡◌, ◌≢◌, ◌⊎◌, inl, inr, refl, sym, ◌∙◌, ap, false, none, some, [], ◌∷◌, ◌++◌, length,
  All, arith, ◌==◌, Bool-cases,
}
use mathlib.Core.Path.{subst}
use shared_memory.Dir.{Text, slash, dir_size, char_at, skip_slashes, take_elem, prefix, skipelem}

-- Only slashes, and no slash
abbrev pub Slashes : Text → Type 0
Slashes = All (λ c. c ≡ slash)

abbrev pub NoSlash : Text → Type 0
NoSlash = All (λ c. c ≢ slash)

pub skip_slashes-split :
    (path : Text)
    → (s : Text) × (path ≡ s ++ skip_slashes path)
      × Slashes s
      × (char_at (skip_slashes path) 0 ≢ slash)
unfolding skip_slashes char_at
skip_slashes-split [] = ([], refl, tt, λ e. ground arith)
skip_slashes-split (c ∷ cs) = elim (Bool-cases (c == slash)) [
  | inl h ↦
      (let (s, e, all, n) = skip_slashes-split cs in
        rw h (c ∷ s, ap (λ r. c ∷ r) e, (ground arith, all), n))
  | inr h ↦ rw h ([], refl, tt, λ e. ground arith)
]

pub take_elem-split :
    (path : Text)
    → (path ≡ (take_elem path).0 ++ (take_elem path).1)
      × NoSlash (take_elem path).0
      × (((take_elem path).1 ≡ []) ⊎ (char_at (take_elem path).1 0 ≡ slash))
unfolding take_elem char_at
take_elem-split [] = (refl, tt, inl refl)
take_elem-split (c ∷ cs) = elim (Bool-cases (c == slash)) [
  | inl h ↦ rw h (refl, tt, inr (ground arith))
  | inr h ↦
      (let (e, all, n) = take_elem-split cs in
        rw h (ap (λ r. c ∷ r) e, ((λ e. ground arith), all), n))
]

-- The description: slashes, an element without slashes, more slashes, and the rest of the path, which
-- starts with none.
pub record Splits (path element rest : Text) : Type 0 where
  pub before : Text
  pub after : Text
  pub whole : path ≡ before ++ (element ++ (after ++ rest))
  pub slashes : Slashes before
  pub more : Slashes after
  pub solid : NoSlash element
  pub inside : 0 < length element
  pub trimmed : char_at rest 0 ≢ slash
  -- What follows the element is a slash or the end.
  pub ends : (after ++ rest ≡ []) ⊎ (char_at (after ++ rest) 0 ≡ slash)

Slashes-nil : (s : Text) → Slashes s → Slashes (s ++ [])
Slashes-nil [] h = tt
Slashes-nil (c ∷ cs) h = (h.0, Slashes-nil cs h.1)

head_of : (c : ℕ) (cs : Text) → char_at (c ∷ cs) 0 ≢ slash → c ≢ slash
unfolding char_at
head_of c cs h = h

nonempty : (c : ℕ) (cs : Text) → c ≢ slash → 0 < length (take_elem (c ∷ cs)).0
unfolding take_elem
nonempty c cs h = (let e : (c == slash) ≡ false = ground arith in rw e (omega arith))

-- Either the path has only slashes, and skipelem() returns none; or it returns the first DIRSIZ
-- characters of the first element of the path, and what is behind the slashes after that element.
pub skipelem_lem :
    (path : Text)
    → (Slashes path × (skipelem path ≡ none))
      ⊎ ((element : Text) × (rest : Text) × (skipelem path ≡ some (prefix dir_size element, rest))
          × Splits path element rest)
unfolding skipelem
skipelem_lem path =
    (let (s, e, all, n) = skip_slashes-split path in from (skip_slashes path) refl s e all n)
  where
    from :
        (t : Text)
        → skip_slashes path ≡ t
        → (s : Text) → path ≡ s ++ skip_slashes path
        → Slashes s
        → char_at (skip_slashes path) 0 ≢ slash
        → (Slashes path × (skipelem path ≡ none))
          ⊎ ((element : Text) × (rest : Text) × (skipelem path
                ≡ some (prefix dir_size element, rest))
              × Splits path element rest)
    from [] q s e all n =
        inl
          (subst Slashes (sym (e ∙ ap (λ t. s ++ t) q)) (Slashes-nil s all), rw (skipelem, q) refl)
    from (c ∷ cs) q s e all n =
        let (w, solid, ends) = take_elem-split (c ∷ cs) in
        let rest1 = (take_elem (c ∷ cs)).1 in
        let (a, e2, all2, n2) = skip_slashes-split rest1 in
        inr (
          (take_elem (c ∷ cs)).0,
          skip_slashes rest1,
          rw (skipelem, q) refl,
          record {
            before = s;
            after = a;
            whole = e ∙ ap (λ t. s ++ t) (q ∙ w ∙ ap (λ t. (take_elem (c ∷ cs)).0 ++ t) e2);
            slashes = all;
            more = all2;
            solid = solid;
            inside = nonempty c cs (head_of c cs (rw q at n));
            trimmed = n2;
            ends = subst (λ t. (t ≡ []) ⊎ (char_at t 0 ≡ slash)) e2 ends;
          },
        )
