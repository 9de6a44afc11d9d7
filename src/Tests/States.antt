-- ===== src/Tests/States.antt =====
-- The kernels that the tests run on.
use shared_memory.Prelude.{
  ℕ, refl, true, false, none, some, List, [], ◌∷◌, arith, pos, minus_one, ◌==◌, if◌then◌else◌,
}
use shared_memory.Layout.{v2p}
use shared_memory.Kalloc.{Kmem}
use shared_memory.Kalloc.Invariant.{IsValid}
use shared_memory.Vm.{zero_pte}
use shared_memory.Shm.Table.{ShmidDs, AttachedShmseg, Kernel}
use shared_memory.Shm.Alloc.Cases.{IsReady}

abbrev pub end_addr : ℕ
end_addr = 0x80200000

abbrev pub free_pages : List ℕ
free_pages = 0x80300000 ∷ 0x80301000 ∷ 0x80302000 ∷ []

abbrev pub kmem : Kmem
kmem = record {
  free = free_pages;
  use_lock = true;
  locked = false;
  mem = λ a. 0;
  end_addr = end_addr;
}

pub kmem-IsValid : IsValid kmem
unfolding v2p
kmem-IsValid = record {
  pages = omega arith;
  distinct = (refl, (refl, (refl, tt)));
  unlocked = refl;
}

abbrev pub blank : ShmidDs
blank = record {
  shm_perm = record { key = pos 0; mode = 0 };
  shm_segsz = 0;
  shm_atime = pos 0;
  shm_dtime = pos 0;
  shm_ctime = pos 0;
  shm_cpid = pos 0;
  shm_lpid = pos 0;
  shm_nattch = 0;
  pa = 0;
}

abbrev pub detached : AttachedShmseg
detached = record { is_attached = false; shmid = minus_one }

-- No segment, and no page table.
abbrev pub fresh : Kernel
fresh = record {
  table = record { lock = false; shm_segs = λ i. blank; last_shm_seg_index = minus_one };
  info = record { used_ids = 0; shm_tot = 0 };
  kmem = kmem;
  pid = pos 3;
  shmsegs = λ i. detached;
  pgdir = λ d. none;
  now = record { second = 5; minute = 4; hour = 3; day = 2 };
  ticks = 100;
}

pub fresh-IsReady : IsReady fresh
fresh-IsReady = record {
  table_free = refl;
  kmem_free = refl;
  last_is = refl;
  last_in = omega arith;
}

-- A segment of one page with the key 7, in the page 0x80310000.
abbrev pub segment : ShmidDs
segment = record blank {
  shm_perm = record { key = pos 7; mode = 0 };
  shm_segsz = 4096;
  pa = 0x310000;
}

abbrev pub larger_segment : ShmidDs
larger_segment = record segment { shm_segsz = 8192 }

-- That segment in slot 0, and a page table for the first addresses of the region.
abbrev pub one_segment : Kernel
one_segment = record fresh {
  table = record {
    lock = false;
    shm_segs = λ i. if i == 0 then segment else blank;
    last_shm_seg_index = pos 0;
  };
  pgdir = λ d. some (record { addr = 0x80320000; entries = λ i. zero_pte });
}

pub one_segment-IsReady : IsReady one_segment
one_segment-IsReady = record {
  table_free = refl;
  kmem_free = refl;
  last_is = tt;
  last_in = omega arith;
}

-- A segment of two pages with the key 7, in the slots 0 and 1.
abbrev pub two_slots : Kernel
two_slots = record fresh {
  table = record { lock = false; shm_segs = λ i. larger_segment; last_shm_seg_index = pos 1 };
}

pub two_slots-IsReady : IsReady two_slots
two_slots-IsReady = record {
  table_free = refl;
  kmem_free = refl;
  last_is = tt;
  last_in = omega arith;
}

-- The segment of `one_segment` attached at entry 0.
abbrev pub attached : Kernel
attached = record one_segment {
  shmsegs = λ i. if i == 0 then record { is_attached = true; shmid = pos 0 } else detached;
  table = record (one_segment.table) {
    shm_segs = λ i. if i == 0 then record segment { shm_nattch = 1 } else blank;
  };
}
