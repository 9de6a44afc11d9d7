-- ===== src/Lib.antt =====
-- A verification library for an xv6 kernel with System V shared memory.
--
-- The kernel keeps a table of 4096 shared memory slots (shm.c). A segment is a run of slots, one for
-- each of its pages; the slot of its first page is the identifier that shmget() returns. A process
-- has 4096 entries of its own, one for each page of the region between HEAPLIMIT and KERNBASE, which
-- say what segment is attached there. shmget() takes pages from the allocator (kalloc.c), shmat() and
-- shmdt() map and unmap them in the page directory of the process (vm.c), removeshm() gives them
-- back. All addresses are 32-bit words (memlayout.h, mmu.h).
--
-- Which file models what, with the C names in parentheses:
--   Prelude       shared helpers: Boolean tests, lists, C integers, C arrays, and Outcome, the result
--                 of a piece of kernel code: a value, a panic, an access out of bounds, or a loop
--                 that had too little fuel.
--   Layout        memlayout.h, mmu.h: v2p (V2P), p2v (P2V), pg_round_up (PGROUNDUP), pdx (PDX), ...
--   Kalloc        kalloc.c: Kmem (kmem), kalloc, kfree, freerange, kinit1, kinit2.
--   Vm            vm.c: Pte, PageDir, walkpgdir, mappages, clearmapping, clearpteu, deallocuvm.
--   Shm.Table     shm.h and the data of shm.c: ShmidDs (shmid_ds), ShmTable (shmpgtable), stamp
--                 (the time stamps), update_shm_seg (updateShmSeg), map_shm_seg_page (mapShmSegPage).
--   Shm.Search    the loop that looks for a run of free slots, in allocShmSeg() and shmatHelper().
--   Shm.Alloc     alloc_shm_seg (allocShmSeg), unmap_shm_seg_page (unmapShmSegPage).
--   Shm.Get       shmget_helper (shmgetHelper), generate_random_key.
--   Shm.Attach    shmat_helper (shmatHelper), allocshmuvm.
--   Shm.Detach    shmdt_helper (shmdtHelper).
--   Shm.Control   shmctl_helper (shmctlHelper).
--   Shm.Remove    removeshm_helper (removeshmHelper), freeshm_pages (freeshmPages).
--   Uvm           vm.c: Directory, setupkvm, inituvm, allocuvm, copyuvm, freevm, uva2ka; Uvm.Process:
--                 copyout, and growproc of proc.c.
--   Proc          proc.c: Proc (struct proc), ProcTable (ptable), allocproc, wakeup, kill.
--   Proc.Switch   proc.c: sched, yield, sleep, exit, wait and scheduler. A function that calls sched()
--                 is in two parts, the code before the switch and the code after it.
--   Proc.Fork     proc.c: fork_shm, the part of fork() on the shared memory entries. Proc.Exit,
--                 Proc.Wait, Proc.Reunion: proofs on exit() and wait().
--   Pipe          pipe.c: Pipe (struct pipe), pipewrite, piperead, pipeclose. A call that sleeps ends
--                 there, and goes on with the loop that it slept in.
--   Exec          exec.c: exec_shm, the part of exec() on the shared memory entries.
--   File          file.c: FileTable (ftable), filealloc, filedup, fileclose.
--   Locks         spinlock.c: pushcli, popcli, acquire_spin (acquire), release_spin (release).
--                 Locks.Sleep: sleeplock.c: acquiresleep, releasesleep, holdingsleep. The
--                 other files keep of a lock only whether this processor holds it.
--   Syscall       syscall.c: fetchint, fetchstr, argint, argptr, argstr; Syscall.Dispatch: syscall
--                 and its table; sysfile.c: the sys_ handlers of the shared memory calls.
--   Log           log.c: Log (log), Store (the disk and the buffers), read_head, write_head,
--                 install_trans, write_log, commit, recover_from_log, initlog, begin_op, end_op,
--                 log_write. begin_op() ends at each sleep. Log.Steps: any interleaving of system
--                 calls on one log. Log.Recovery: boots of the system on a disk.
--   Bio           bio.c: Bcache (bcache), bget, bread, bwrite, brelse; memide.c: iderw.
--                 Bio.View: what the cache stands for, which is the `buf` of Log.
--   Bits          the bits of a byte, and integers as bytes.
--   Fs            fs.c: Disk, readsb, bzero, balloc, bfree. Its blocks are read and written through
--                 Log.
--   Inode         fs.c: Inode (struct inode), FileSystem (icache and the disk), ialloc, iupdate, iget,
--                 idup, ilock, iunlock, iput, itrunc, stati.
--   Content       fs.c: bmap, readi, writei.
--   Dir           fs.c: dirlookup, dirlink, skipelem, namex, namei, nameiparent.
--   FileIo        file.c: Sys (what a process sees of the file system), close_file (fileclose as a
--                 whole), filestat, fileread, filewrite. What is left to a pipe is a result.
--   Sysfile       sysfile.c: argfd, fdalloc and the calls dup, read, write, close, fstat and link;
--                 Sysfile.Create: create, open, mkdir and mknod; Sysfile.Unlink: isdirempty, unlink
--                 and chdir. A begin_op() that would sleep ends the model of the call.
--                 Sysfile.Pipes: pipealloc of pipe.c, pipe, and the arguments of exec.
--   Sysproc       sysproc.c: sbrk, sleep, kill, getpid, uptime; trap.c: the tick of the timer.
--   Trap          trap.c: trap() as the calls that it makes, the looks that it takes at the current
--                 process, and how it ends. What a look sees is any sequence of views, since calls,
--                 interrupts and other processors change the process in between.
--   Ulib          ulib.c: strcpy, strcmp, strlen, strchr, gets, atoi. A string without an end runs out
--                 of fuel.
--   Umalloc       umalloc.c: free, morecore, malloc over a heap of headers; the fuel bounds the number
--                 of blocks that a search passes.
--   Queue         ring buffers, for Pipe and Console.
--   Console       console.c: Input (input), consoleintr, consoleread, consolewrite. What consputc()
--                 is called with is a list.
--   Strings       string.c: move (memmove), memcmp, strncmp, strncpy, safestrcpy.
--
-- How state is kept: a record of the C variables, passed from call to call. An array is a function
-- from its index, and the code that reads or writes it tests the index and gives `fault` where C
-- would leave the array. A lock is whether the processor that runs the code holds it: acquire()
-- panics if it does, release() if it does not. The free list of the allocator is a list of pages.
-- A page directory is, for each of its entries, the page table behind it or none, and a page table
-- entry is its frame and its flags. cmostime() and the tick counter are fields of the state.
--
-- Bounds and fuel: numbers are natural numbers, with the wrap at 2^32 written out; signed values
-- are the integers of Prelude.Int. A loop over a fixed array is structural. The loops that a value
-- ends run on fuel: unmapShmSegPage() on the number of slots and two more, since it leaves the table
-- within them; mappages() and deallocuvm() on the number of pages of the range and two more, since
-- each round moves on by a page; freerange() on an argument, with a theorem that one round for each
-- page and one more are enough.
--
-- Not modelled: hardware registers and devices, boot code, assembly, the user programs themselves,
-- and what other processors do between two steps of this one. The contents of pages appear only as
-- the memory that kalloc.c and memset() fill.
pub mod Prelude
pub mod Layout
pub mod Queue
pub mod Strings
pub mod Kalloc
pub mod Vm
pub mod Uvm
pub mod Shm
pub mod Proc
pub mod Pipe
pub mod File
pub mod Exec
pub mod Locks
pub mod Bits
pub mod Bio
pub mod Fs
pub mod Inode
pub mod Content
pub mod Dir
pub mod Log
pub mod Syscall
pub mod FileIo
pub mod Sysfile
pub mod Sysproc
pub mod Trap
pub mod Ulib
pub mod Umalloc
pub mod Console
mod Tests
