-- ===== src/Proc/Reunion.antt =====
-- exit() and wait() together: an exit is not lost.
use shared_memory.Prelude.{ℕ, ◌≡◌, some}
use shared_memory.Kalloc.Invariant.{IsPage}
use shared_memory.Uvm.{Directory}
use shared_memory.Uvm.Free.{HasPages}
use shared_memory.Proc.{Proc}

-- The kernel stack and the page directory of a process lie in pages that kfree() accepts.
abbrev pub HasMemory : ℕ → Proc → Type 0
HasMemory e p =
    (stack : ℕ) × (g : Directory) × (p.kstack ≡ some stack)
    × IsPage e stack
    × (p.pgdir ≡ some g)
    × HasPages e g
