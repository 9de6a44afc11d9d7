-- ===== src/Locks/Nesting.antt =====
-- spinlock.c: acquire() and release() are matched, and restore the interrupt flag.
use shared_memory.Prelude.{
  ℕ, zero, suc, ◌+◌, ◌-◌, ◌≤◌, ◌<◌, ◌≡◌, ◌≢◌, refl, Bool, true, false, ◌&&◌, none, some, arith,
  ◌==◌, ==-refl, ==-ne, if◌then◌else◌, ok, panic, Bool-cases, inl, inr,
}
use native.Mathlib.Decide.{dec_lt}
use shared_memory.Proc.Switch.{Cpu}
use shared_memory.Locks.{
  pushcli, popcli, Spinlock, is_holder, holding, spin, acquire_spin, release_spin,
}

-- The state of a processor that code may run in: inside a pushcli() the interrupts are off.
abbrev pub Masked : Cpu → Type 0
Masked c = c.ncli ≢ 0 → c.interrupts ≡ false

-- What a matched pair leaves behind: the flag that the outermost pushcli() has kept.
abbrev pub settled : Cpu → Cpu
settled c = record c { intena = if c.ncli == 0 then c.interrupts else c.intena }

-- popcli() undoes pushcli(), if the interrupts are off wherever a pushcli() is open.
pub popcli-pushcli : (c : Cpu) → Masked c → popcli (pushcli c) ≡ ok (settled c)
unfolding popcli pushcli
popcli-pushcli c h =
    let up : (c.ncli + 1 == 0) ≡ false = ==-ne (c.ncli + 1) 0 (λ e. omega arith) in
    let back : c.ncli + 1 - 1 ≡ c.ncli = omega arith in
    elim (Bool-cases (c.ncli == 0)) [
      | inl z ↦ rw (up, back, z) refl
      | inr z ↦ rw (up, back, z, h (nonzero c.ncli z)) refl
    ]
  where
    nonzero : (n : ℕ) → (n == 0) ≡ false → n ≢ 0
    nonzero n z e = ground arith

holding_lem :
    (me : ℕ) (l : Spinlock) (c : Cpu)
    → Masked c
    → holding me l c ≡ ok (l.locked && is_holder me l.holder, settled c)
unfolding holding
holding_lem me l c h = rw (popcli-pushcli c h) refl

spin_lem :
    (fuel n k : ℕ) (busy : ℕ → Bool)
    → n ≤ k
    → k < n + fuel
    → busy k ≡ false
    → (j : ℕ) × (spin fuel n busy ≡ ok j)
unfolding spin
spin_lem zero n k busy lo hi e = absurd (omega arith)
spin_lem (suc fuel) n k busy lo hi e = elim (Bool-cases (busy n)) [
  | inr free ↦ (n, rw free refl)
  | inl held ↦ elim (dec_lt n k) [
    | yes p ↦
        (let (j, run) = spin_lem fuel (n + 1) k busy (omega arith) (omega arith) e in
          (j, rw held run))
    | no p ↦ absurd (both (busy n) held (let q : n ≡ k = omega arith in rw q e))
  ]
]
  where
    both : (b : Bool) → b ≡ true → b ≡ false → ⊥
    both b p q = cc

pushcli-Masked : (c : Cpu) → Masked (pushcli c)
unfolding pushcli
pushcli-Masked c h = refl

pushcli-ncli : (c : Cpu) → (pushcli c).ncli ≡ c.ncli + 1
unfolding pushcli
pushcli-ncli c = refl

settled-pushcli : (c : Cpu) → settled (pushcli c) ≡ pushcli c
unfolding pushcli
settled-pushcli c = rw (==-ne (c.ncli + 1) 0 (λ e. omega arith)) refl

-- acquire() of a lock that this processor does not hold, on a processor with the interrupts off
-- wherever a pushcli() is open, and with an exchange within the fuel that finds the lock free: it
-- returns with the lock held by the processor and the interrupts off, one level deeper. A second
-- acquire() then panics. release() frees the lock and brings back the nesting and the interrupt flag
-- from before.
pub acquire-release :
    (fuel me k : ℕ) (busy : ℕ → Bool) (l : Spinlock) (c : Cpu)
    → Masked c
    → (l.locked && is_holder me l.holder) ≡ false
    → k < fuel
    → busy k ≡ false
    → (l' : Spinlock) × (c' : Cpu) × (acquire_spin fuel me busy l c ≡ ok (l', c'))
      × (c'.ncli ≡ c.ncli + 1)
      × (c'.interrupts ≡ false)
      × (acquire_spin fuel me busy l' c' ≡ panic)
      × (c'' : Cpu) × (release_spin me l' c' ≡ ok (record { locked = false; holder = none }, c''))
      × (c''.ncli ≡ c.ncli)
      × (c''.interrupts ≡ c.interrupts)
unfolding acquire_spin release_spin
acquire-release fuel me k busy l c h other lo e =
    let (j, run) = spin_lem fuel 0 k busy (omega arith) (omega arith) e in
    let held : Spinlock = record { locked = true; holder = some me } in
    let inner = pushcli-Masked c in
    let open_level : (pushcli c).ncli ≡ c.ncli + 1 = pushcli-ncli c in
    let off : (pushcli c).interrupts ≡ false = inner (λ z. omega arith) in
    (
      held,
      pushcli c,
      rw (holding_lem me l (pushcli c) inner, settled-pushcli c, other, run) refl,
      open_level,
      off,
      rw (holding_lem me held (pushcli (pushcli c)) (pushcli-Masked (pushcli c)), ==-refl me) refl,
      settled c,
      rw (holding_lem me held (pushcli c) inner, settled-pushcli c, ==-refl me, popcli-pushcli c h)
          refl,
      refl,
      refl,
    )
