-- ===== src/Lib.antt =====
-- Verification of the HYU-OS kernels, which extend xv6: Project1 replaces its scheduler by a
-- multi-level feedback queue, Project2 adds light-weight processes and a process manager. This
-- development is about the processes of both (Project1/proc.c, Project1/proc.h,
-- Project1/scheduler.h; Project2/proc.c, Project2/proc.h), about the process manager
-- (Project2/pmanager.c), and about what the kernels share, in the files of Project1: pipes, the log
-- of the file system, free pages, strings and the arguments of system calls (Project1/pipe.c,
-- Project1/log.c, Project1/kalloc.c, Project1/string.c, Project1/syscall.c).
--
-- The parts and how they interact. The process table is an array of slots; every slot is threaded
-- by `prev` and `next` on at most one of five doubly linked queues: three levels, the sleepers and
-- the unused slots. The scheduler of a CPU dequeues a process and runs it; the process comes back
-- by `yield` or `sleep` through `sched`, which puts it on a queue first. Every hundred ticks the
-- scheduler boosts: all levels are joined into the first. `wakeup` moves sleepers to their level.
-- The scheduler lock keeps its holder at the head of the first level. All of it runs under
-- `ptable.lock`.
--
-- In Project2 a thread is a slot of the process table; the threads of a process point to one entry
-- of a second table, `th_share`, which holds what they share and the first and the last thread of
-- a list along `th_next`. `thread_create` appends to this list, `thread_join` takes off it, and
-- `kill` and `exit` walk it. The process manager splits a line into words and makes a command of
-- them, which a child runs.
--
-- A pipe is a ring of 512 bytes between two counters; its writer and its reader wait for each other
-- by `sleep` and `wakeup` of the scheduler.
--
-- The log of the file system collects the blocks that an operation changes; `commit` writes them
-- to the log, then the header, then the blocks themselves, and recovery does this again for a header
-- that it finds.
--
-- Files:
--   Prelude            library names, Boolean tests, list lemmas, the C type int
--   Mlfq/State         Project1/proc.h, Project1/scheduler.h: `ProcState`, `Proc`, `Queue`; a
--                      pointer to a slot is its index, the null pointer is `none`
--   Mlfq/Queue         `initqueue`, `insert`, `delete`, `dequeue`, `merge_queue` of
--                      Project1/proc.c; below it the lists that they implement
--   Mlfq/Kernel        the globals of Project1/proc.c as one record, and the queue operations on it
--   Mlfq/Priority      `higherpriority_proc`, and the insertion that `yield`, `wakeup1` and `kill`
--                      share
--   Mlfq/Sched         `priority_boosting`, `releasemlfq`, `scheduler`, `sched`, `yield`
--   Mlfq/Sleep         `sleep`, `wakeup1`, `wakeup`, `kill`
--   Mlfq/Lock          `mlfqlock`, `mlfqunlock`, `schedulerLock`, `schedulerUnlock`,
--                      `setPrioity_arrangeQueue`
--   Mlfq/Life          `exit`, `wait`, `setproc_default`
--   Mlfq/Birth         `allocproc`, `fork`, and `safestrcpy` of Project1/string.c
--   Mlfq/Boot          `pinit`
--   Mlfq/Inv           the invariant of the kernel and the proofs about these operations
--   Mlfq/Desk          the concrete kernel of the tests
--   Mlfq/Tests         the theorems applied to it
--   Thread/State       Project2/proc.h: `Thread`, `Share`, and the globals of Project2/proc.c
--   Thread/Slots       the loops over the table: `wakeup1`, `wakeup` of Project2/proc.c
--   Thread/Share       `setmemorylimit`, `alloc_th_share`, `allocproc`, `growproc`
--   Thread/Sched       `scheduler`, `sched`, `yield`, `sleep`
--   Thread/Family      `kill`, `delete_thread`, `kill_threads`
--   Thread/Life        `fork`, `exit`, `wait`
--   Thread/Create      `thread_create`, `thread_exit`, `thread_join`, `userinit`
--   Thread/Proof       the threads of a family as a list, and the proofs
--   Thread/Tests       a concrete process of three threads
--   Text               `strcmp`, `atoi` of Project2/ulib.c
--   Manager            `parsecmd`, `makecmd`, `runcmd`, `main` of Project2/pmanager.c
--   Manager/Parse      `parsecmd` and the words of a line
--   Manager/Tests      lines of the process manager
--   Pipe               Project1/pipe.c: `pipewrite`, `piperead`, `pipeclose` on that kernel
--   Pipe/Ring          the bytes between the wrapping counters
--   Pipe/Calls         the calls on a well-formed kernel
--   Pipe/Tests         a pipe whose counters are about to wrap round
--   Log                Project1/log.c: `commit`, `initlog`, `log_write`, `begin_op`, `end_op`
--   Log/Copy           the copying loops of the log
--   Log/Recover        recovery of a disk
--   Log/Crash          a crash in `commit` at any write
--   Log/Absorb         `log_write` and the transaction in memory
--   Log/Tests          a transaction of one block
--   Memory             Project1/string.c: `memset`, `memcmp`, `memmove`, `strncmp`, `strncpy`,
--                      `strlen` on bytes of memory
--   Memory/Move        `memmove` of blocks that may overlap
--   Memory/Set         the two ways of `memset`
--   Memory/Tests       calls on a small memory
--   Syscall            Project1/syscall.c and Project1/sysproc.c: arguments, and the system calls
--                      about processes; `growproc` of Project1/proc.c
--   Syscall/Args       the checks on arguments
--   Syscall/Tests      arguments at the end of a process
--   Kalloc             Project1/kalloc.c: `kinit1`, `kinit2`, `kfree`, `kalloc`
--   Kalloc/Pages       the list of free pages
--   Kalloc/Tests       a range of two pages
--
-- How the code is modelled. An operation is a function on `Kernel`; a panic or a null
-- dereference is `none`. An operation that switches to the scheduler is cut at the switch:
-- `yield` and `sleep` end with the scheduler's round (`scheduler_return`), and what they do
-- when the process runs again is `resume` and `resume_sleep`. `exit` ends with that round too,
-- and `wait` is a sequence of rounds of its loop, each up to the switch where it sleeps.
-- `Mlfq.Inv.Steps.Step` is one critical section of one CPU or, in `fork`, a part between its two,
-- and `Reach` any interleaving of them. Two things that the code does are no steps, and every
-- theorem about `Reach` has their absence as a condition: a `fork` whose `kalloc` or `copyuvm`
-- fails, which puts its slot back without `ptable.lock`; and `setPriority` of a runnable process
-- of level 2 that is not on the lowest queue, where the holder of the scheduler lock may stand. `Inv k home
-- view` is the invariant: `home` gives the queue of every slot and `view` the list that each
-- queue holds.
--
-- In Project2 a pointer to an entry of `th_share` is its index, and the null pointer is the index
-- `no_share` = 64, since the code reads through it for slots that were never used: what it reads
-- there is arbitrary. A C string is the list of its characters before the terminator; a write out
-- of the bounds of an array is `none`.
--
-- A block of the disk is the array of its words. A crash is a disk that takes no writes after the
-- first `power` ones, and a restart reads the buffers from that disk. The numbers of a header count
-- up to `LOGSIZE`; one on the disk with more entries, which `log_write` never makes, is not cut off.
--
-- Bounds and fuel. The loops that follow a queue have `nproc + 1` = 65 rounds, the loops over the
-- process table `nproc` = 64; those along a thread family have `nproc + 1`. A well-formed queue holds
-- distinct slots of the table, so at most 64, and so does a well-formed family; the theorems prove
-- that the rounds are enough: the operations return a kernel. The loop of `freerange` has `vend + 1`
-- rounds, and each round advances by a page.
--
-- Not modelled: `userinit` and `procdump` of Project1/proc.c; `kalloc` and
-- `copyuvm`, whose results are arguments of `fork`; the trap frame that `allocproc` lays out
-- on the new stack; the messages that `schedulerLock` and `schedulerUnlock` print; the files and
-- pages that `exit` and `wait` give back, as far as they are outside the process table; the saved
-- contexts and the assembly that switches them; the interrupt flag and `ncli`, which `sched`
-- checks; the busy waiting of `acquire`, whose model is the moment at which the lock is free; the
-- other lock of `sleep`, which is outside the state; overflow of the `int` counters of the
-- processes.
-- Of Project2, the results of `kalloc`, `copyuvm`, `setupkvm`, `allocuvm`, `deallocuvm` and `namei`
-- are arguments; the stack words that `thread_create` writes are user memory; `list` and `procdump`
-- print. The process manager's `getcmd`, its `malloc` and its messages are input and output.
-- Of pipes, `pipealloc` is only the state of a new pipe: its two files and its page are not
-- modelled.
-- Of the buffer cache the model has what `bread` gives for a block: its ring of buffers, `iderw`
-- and the sleep locks are not modelled.
-- Of the system calls, the dispatch table, `sleep`, `uptime` and the trap handler are not modelled;
-- an argument is read from the memory of the process, which is a parameter of the handlers.
-- Of a free page the model has only its link.
-- No other file of Project1 or Project2 is modelled: among them the boot code, the page tables, the
-- file system above its log, the devices, printf, the shell and the other user programs.
pub mod Prelude
pub mod Mlfq
pub mod Thread
pub mod Text
pub mod Manager
pub mod Pipe
pub mod Log
pub mod Memory
pub mod Syscall
pub mod Kalloc
