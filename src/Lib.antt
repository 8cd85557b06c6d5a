-- ===== src/Lib.antt =====
-- xv6 for RISC-V, the teaching kernel of MIT 6.S081, with its user programs. This library models
-- parts of the kernel as functions on explicit state, in the words of the C source.
--
-- The parts. Processes (kernel/proc.c) sleep and wake each other in pipes (kernel/pipe.c) and
-- in the log (kernel/log.c), through which the file system changes the disk; the functions on
-- bytes and strings of kernel/string.c serve all of them; pages come from kernel/kalloc.c, and
-- kernel/vm.c maps them for processes and copies between user and kernel memory.
--
-- Base: Boolean tests on numbers, lists by index, `int` results, and words that wrap around.
--
-- Pipe: `struct pipe`, `pipewrite`, `piperead` and `pipeclose` of kernel/pipe.c. A call is cut
--   where it sleeps: one function runs it from taking the lock to its return or its sleep. The
--   state is the pipe, the channels woken and whether its page has been freed. Counters are 32-bit
--   words. Loops are recursion on the rounds left, which are `n - i`. Of `pipealloc` only the
--   fields it sets are modelled; the page and the two files are the business of other parts.
-- Log: all of kernel/log.c, over the buffer cache as kernel/bio.c promises it to a client: `bread`
--   gives the contents last put in the buffer, or those of the disk, `bwrite` puts them on the
--   disk, and reference counts are 32-bit words. A block is a function from index to word. A
--   crash is the choice of one of the images that the disk has had, and a boot starts from it with an
--   empty cache. The bound of the loops is the header's `n`. A write of one block is atomic.
--   A buffer once read stays in the cache, and that all buffers are in use is not modelled; the list
--   of the header is not bounded, since `log_write` and a well-formed image keep it to LOGSIZE.
--   Of the orders of operations, those of the log's space have a commit as a step of its own.
-- Str: all of kernel/string.c, over a memory of bytes. `strlen` takes fuel, of which one more than
--   the length of the string is enough; the others are bounded by their argument `n`.
-- Kalloc: all of kernel/kalloc.c, over a memory of 64-bit words in which the free list stands.
--   Clients hold pages and may write into those alone. `freerange` takes fuel, of which one more
--   than the number of pages is enough.
-- Vm: kernel/vm.c but `kvminit` and `kvminithart`, over the memory of Kalloc. A page table is named
--   by its address. Permissions are numbers of ten bits. `mappages` takes fuel, of which the number
--   of pages is enough; the copies are bounded by their length. The kernel's buffers are lists of
--   bytes. Sizes and addresses of user memory are below `MAXVA`, so that only `mappages` and the
--   copies, which take any address, have their wrap-around written out.
-- Bcache: `binit`, `bget` and `brelse` of kernel/bio.c, with the links of the circular list. The loops
--   run on fuel, of which one more than the 30 buffers is enough. The sleep lock of a buffer is its
--   holder; to wait for it is a step of its own.
-- Print: kernel/printf.c, user/printf.c and `atoi` of user/ulib.c. What is printed is a list of
--   bytes. Not modelled are the lock of the kernel's `printf` and `panic`.
-- Grep: the matcher of user/grep.c. The loop over the input is not modelled.
-- Lock: kernel/spinlock.c. The state is that of all CPUs and locks and where each CPU stands in
--   `acquire` or `release`; a step ends at an atomic swap or a store to the lock. Memory is
--   sequentially consistent, which the fences are for.
-- Fs: `bzero`, `balloc`, `bfree`, `skipelem`, `dirlookup` and `namex` of kernel/fs.c. The disk is
--   what readers see through the log: the bytes of each block. `balloc` takes fuel, of which one
--   more than the number of bitmap blocks is enough, and `namex` fuel, of which one more than the
--   length of the path is enough. The types and entries of the inodes are an argument and stay the
--   same throughout a walk; `iget` always finds a slot, and reads of inodes do not panic.
-- File: `filealloc`, `filedup` and `fileclose` of kernel/file.c. What a close does outside of the
--   table is its result. The count `ref` is a natural number: an `int` is never exceeded by the
--   descriptors of 64 processes. `fileread`, `filewrite` and `filestat` are not modelled.
-- Proc: the process table of kernel/proc.c and what it is for: `wakeup`, `kill`, `allocproc`,
--   `freeproc`, `fork`, `reparent`, `exit`, `wait`, `sleep`, `yield`, the choice of `scheduler`. The
--   table is a function from index to `struct proc`; loops over it are recursion on the processes
--   left, 64 at first. An operation is one step from its call to its return or to `sched`; what
--   `kalloc`, `proc_pagetable`, `uvmcopy` and `copyout` answer is an argument, and the calls out of
--   the table are recorded. Pids and exit statuses are natural numbers: that `nextpid`, an `int`,
--   overflows after 2 ^ 31 forks is not modelled. `sleep` and `wakeup` are also modelled lock by
--   lock, for one process that sleeps and one that wakes it. Not modelled are set-up (`procinit`,
--   `userinit`), `growproc`, the page tables and `procdump`.
--
-- Not modelled: the rest of the kernel (inodes and the contents of directories, traps, devices) and
-- the other user programs. Assembly, device registers and the order of memory accesses between
-- processors are outside of the model: outside of Lock and of the steps of `sleep`, a stretch under
-- a lock is one step.
pub mod Base
pub mod Pipe
pub mod Log
pub mod Str
pub mod Kalloc
pub mod File
pub mod Vm
pub mod Print
pub mod Grep
pub mod Bcache
pub mod Lock
pub mod Fs
pub mod Proc
