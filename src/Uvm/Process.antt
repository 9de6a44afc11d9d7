-- ===== src/Uvm/Process.antt =====
-- vm.c and proc.c: growing the memory of a process, and writing to it from the kernel.
use shared_memory.Prelude.{
  ℕ, zero, suc, ◌+◌, ◌-◌, ◌/◌, ◌%◌, none, some, ltb, ◌==◌, if◌then◌else◌, ℤ, pos, negsuc, minus_one,
  ◌<ℤ◌, Outcome, ok, out_of_fuel, ◌>>=◌,
}
use shared_memory.Layout.{word, page_size, pg_round_down}
use shared_memory.Kalloc.{Kmem}
use shared_memory.Vm.{PageDir, Space, deallocuvm}
use shared_memory.Uvm.{memmove, allocuvm, uva2ka}

-- n bytes, but no more than `len`
abbrev pub at_most : ℕ → ℕ → ℕ
at_most n len = if ltb len n then len else n

-- while(len > 0) of copyout(): 0 or -1, and the memory
unfoldable pub copyout_loop : ℕ → PageDir → ℕ → ℕ → ℕ → Kmem → Outcome (ℤ × Kmem)
copyout_loop zero dir va buf len m = out_of_fuel
copyout_loop (suc fuel) dir va buf len m =
    let va0 = pg_round_down va in
    let n = at_most (page_size - (va - va0)) len in
    let rest = (do
      r ← uva2ka dir va0 m
      elim r [
        | none ↦ ok (minus_one, m)
        | some pa0 ↦
            copyout_loop fuel dir ((va0 + page_size) % word) (buf + n) (len - n)
              (record m { mem = memmove m.mem (pa0 + (va - va0)) buf n })
      ]) in
    if ltb 0 len then rest else ok (pos 0, m)

-- copyout(pgdir, va, p, len): each round but the first copies a whole page or all that is left.
unfoldable pub copyout : PageDir → ℕ → ℕ → ℕ → Kmem → Outcome (ℤ × Kmem)
copyout dir va buf len m = copyout_loop (len / page_size + 3) dir va buf len m

-- `curproc->sz` and its page directory.
pub record Image : Type 0 where
  pub sz : ℕ
  pub space : Space

-- sz + n, as an unsigned sum
abbrev pub shifted : ℕ → ℤ → ℕ
shifted sz (pos n) = (sz + n) % word
shifted sz (negsuc n) = (sz + word - 1 - n) % word

abbrev pub resized : ℕ × Space → Image → ℤ × Image
resized (sz, s) p =
    if sz == 0 then (minus_one, record p { space = s }) else (pos 0, record { sz = sz; space = s })

-- growproc(n), but for the reload of the page directory register
unfoldable pub growproc : ℤ → Image → Outcome (ℤ × Image)
growproc n p =
    if pos 0 <ℤ n
    then (do r ← allocuvm p.sz (shifted p.sz n) p.space; ok (resized r p))
    else if n <ℤ pos 0
    then (do r ← deallocuvm p.sz (shifted p.sz n) p.space; ok (resized r p))
    else ok (pos 0, p)
