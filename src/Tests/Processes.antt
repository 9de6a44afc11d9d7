-- ===== src/Tests/Processes.antt =====
-- The theorems on processes at concrete tables.
use shared_memory.Prelude.{
  ℕ, ◌+◌, ◌≤◌, ◌<◌, ◌≡◌, inl, inr, refl, true, false, none, some, arith, if◌then◌else◌, ◌==◌, pos,
  negsuc, ok, Bool-cases,
}
use shared_memory.Kalloc.{Kmem}
use shared_memory.Shm.Table.{AttachedShmseg, ShmTable, inc_word, pages_of, forked_slot}
use shared_memory.Proc.{
  unused, embryo, sleeping, running, zombie, of_proc, Proc, ProcTable, allocproc, kill,
}
use shared_memory.Proc.Switch.{Cpu, exit_from}
use shared_memory.Proc.Wakeup.{kill_zero-born_killed}
use shared_memory.Proc.Fork.{fork_shm}
use shared_memory.Proc.Fork.Count.{NamesSegment, Counted, times, visits}
use shared_memory.Proc.Fork.Laws.{fork_shm_lem}
use shared_memory.Proc.Fork.Stale.{fork_shm-detached}
use shared_memory.Proc.Exit.Whole.{Exited, exit_from_lem}
use shared_memory.Uvm.{Directory}
use shared_memory.Exec.Laws.{Sound}
use shared_memory.Tests.States.{kmem, kmem-IsValid, two_slots, detached, fresh}

abbrev free_slot : Proc
free_slot = record {
  sz = 0;
  pgdir = none;
  kstack = none;
  state = unused;
  pid = pos 0;
  parent = none;
  tf = 0;
  context = 0;
  chan = none;
  killed = false;
}

-- init in slot 0, its child in slot 1, which runs, and the child's child in slot 2, a zombie; init
-- sleeps in wait().
abbrev family : ℕ → Proc
family i =
    if i == 0
    then record free_slot {
      state = sleeping;
      chan = some (of_proc 0);
      pid = pos 1;
      kstack = some 0x80340000;
    }
    else if i == 1
    then record free_slot {
      state = running;
      pid = pos 2;
      parent = some 0;
      kstack = some 0x80341000;
    }
    else if i == 2
    then record free_slot { state = zombie; pid = pos 3; parent = some 1; kstack = some 0x80342000 }
    else free_slot

abbrev table : ProcTable
table = record { procs = family; next_pid = 4; init_proc = 0; lock = false }

abbrev held_table : ProcTable
held_table = record table { lock = true }

abbrev cpu : Cpu
cpu = record { ncli = 1; intena = true; interrupts = false; current = some 1 }

kill_zero-born_killed_example :
    (t' t'' : ProcTable) × (m' : Kmem) × (kill (pos 0) table ≡ ok (pos 0, t'))
    × (allocproc 0x80101000 0x80102000 t' kmem ≡ ok (some 3, t'', m'))
    × ((t''.procs 3).state ≡ embryo)
    × ((t''.procs 3).killed ≡ true)
kill_zero-born_killed_example =
    kill_zero-born_killed 0x80101000 0x80102000 3 table kmem refl kmem-IsValid (omega arith)
      (λ e. cc) (omega arith, omega arith, refl, λ j lo hi. ground arith)
      (omega arith, omega arith, refl, λ j lo hi. ground arith)

exit_from_lem_example : (t' : ProcTable) × (exit_from 1 cpu table ≡ ok t') × Exited 1 table t'
exit_from_lem_example = exit_from_lem 1 cpu table refl (λ e. omega arith) (omega arith) refl refl

-- Entry 1 is what shmdt() leaves of a segment of two pages at the entries 0 and 1.
abbrev left_over : ℕ → AttachedShmseg
left_over i = if i == 1 then record { is_attached = false; shmid = pos 0 } else detached

left_over-NamesSegment : (j : ℕ) → j < 4096 → NamesSegment two_slots.table (left_over j).shmid
left_over-NamesSegment j h = elim (Bool-cases (j == 1)) [
  | inl b ↦ rw b (inr (0, refl, omega arith, omega arith))
  | inr b ↦ rw b (inl refl)
]

fork_shm_lem_example :
    (child' : ℕ → AttachedShmseg) × (t' : ShmTable) × (fork_shm
        (pos 3)
        (pos 4)
        fresh.now
        left_over
        (λ i. detached)
        two_slots.table
      ≡ ok (child', t'))
    × ((j : ℕ) → j < 4096 → child' j ≡ left_over j)
    × Counted left_over 0 4096 two_slots.table t'
    × ((x : ℕ)
        → t'.shm_segs x
          ≡ times
              (visits two_slots.table left_over 4096 0 (negsuc 1) x)
              (forked_slot (pos 4) fresh.now)
              (two_slots.table.shm_segs x))
fork_shm_lem_example =
    fork_shm_lem 3 (pos 4) fresh.now left_over (λ i. detached) two_slots.table (omega arith) refl
      left_over-NamesSegment

fork_shm-detached_example :
    (child' : ℕ → AttachedShmseg) × (t' : ShmTable) × (fork_shm
        (pos 3)
        (pos 4)
        fresh.now
        left_over
        (λ i. detached)
        two_slots.table
      ≡ ok (child', t'))
    × ((x : ℕ)
        → 0 ≤ x
        → x < 0 + pages_of (two_slots.table.shm_segs 0)
        → (t'.shm_segs x).shm_nattch ≡ inc_word (two_slots.table.shm_segs x).shm_nattch)
fork_shm-detached_example =
    fork_shm-detached 3 1 0 (pos 4) fresh.now left_over (λ i. detached) two_slots.table
      (omega arith) refl (omega arith) (omega arith) (omega arith) refl (λ j ne. ground arith)

-- The first page of the segment attached at entry 0.
abbrev holder : ℕ → AttachedShmseg
holder i = if i == 0 then record { is_attached = true; shmid = pos 0 } else detached

holder-Sound : (j : ℕ) → j < 4096 → Sound two_slots.table (holder j)
holder-Sound j h = elim (Bool-cases (j == 0)) [
  | inl b ↦ rw b (inr (0, refl, omega arith, omega arith))
  | inr b ↦ rw b (inl refl)
]

abbrev directory : Directory
directory = record { addr = 0x80343000; dir = λ d. none }

-- The same family, where each process has a page directory.
abbrev grown : ProcTable
grown = record table { procs = λ i. record (family i) { pgdir = some directory } }
