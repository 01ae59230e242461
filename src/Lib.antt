-- ===== src/Lib.antt =====
-- Boron is a hybrid kernel. This library models parts of it that others build on, each in its own
-- tree of modules:
--
--   Rtl/Str: the string routines of boron/source/rtl/string.c (memcpy, memmove, strlen, StringCopySafe
--     and the others), on a byte-addressed memory.
--   Rtl/CommandLine: command lines and environments, boron/source/rtl/cmdline.c. Parse treats the
--     parser, RtlCommandLineStringToDescription, and Scan the functions that read.
--   Ex/HandleTable: the handle table of boron/source/ex/handtab.c, which the object manager keeps for
--     each process: ExCreateHandleTable to ExFilterHandleTable. Resize, Create, Delete, Kill and
--     Duplicate each treat the function of that name; Lookup has the invariant and the view of a
--     table as a map from handles to pointers, in which the others state what they do.
--   Mm/PoolSpace: the allocator of ranges of kernel addresses of boron/source/mm/poolsup.c, from
--     MmpSplitEntry to MiFreePoolSpaceSub, with the page table entries of headers of
--     boron/source/mm/amd64/pte.c. Owner has the invariant and the view of the list
--     of entries as a function from addresses to their owners, and Runs has MiInitPool.
--   Io/Pipe: the pipes of boron/source/io/pipe.c. Queue has the invariant of the ring buffer and its
--     view as the queue of its items; Read, Write and Newline treat IopReadPipe and IopWritePipe.
--   Mm/Sla: the sparse linear array of boron/source/mm/sla.c, which sections, overlays and the page
--     cache keep their entries in. Lookup has the place of each index, Assign the walk down the pages,
--     and Map the view of an array as a map from indices to entries.
--   Ke/Dispatcher: events, mutexes, semaphores and the waits for them, of dispatch.c, event.c, mutex.c
--     and semaphor.c in boron/source/ke, with KiUnwaitThread of sched.c. Objects and Invariant have
--     the invariant, Ready the condition that no wake-up is lost, Acquire, Wake, Satisfy and Signal treat
--     KiWaitTestAndGetWaiter and what it calls, Change, Operations and Handoff what sets and releases an object,
--     Wait, Enqueue, Blocking and Passes the wait itself, Boost the priority of a woken thread, and Steps
--     the runs of all of them.
--   Ke/Scheduler: the execution queues of boron/source/ke/sched.c. Pop treats KepPopNextThreadIfNeeded
--     and Steal KepStealManyThreads.
--   Ex/RwLock: the reader-writer lock of boron/source/ex/rwlock.c. Table and Find treat its entries,
--     Hold has the lock with the threads around it and what is invariant of them, Steps its runs, Keeps,
--     Entry, Acquire, Release and Handover each operation, Safety and Holder what follows, and Growth
--     the passes of the acquisition.
--   Mm/Pfn and Mm/Pmm: the page frames of boron/include/mm/pfn.h with the links between them, and the
--     database of boron/source/mm/pmm.c. Chain, Link and Unlink treat a list that is
--     linked through the frames, Lists the four lists together, Insert and Delete a page's way into and
--     out of one, and Allocate, Free, Recover, Reference, Writer, ZeroOut and Cache the functions.
--   Prelude: tests on numbers, lists, the status codes of common/include/status.h, memory.
--
-- A function has the name of the C function in snake_case, without the prefix that stands for its
-- component. Machine words are natural numbers; the handle table writes out the wrap-around of
-- `size_t`, and the others are stated where nothing overflows. A lock is the number of times it is
-- held. What a function of another component answers is an argument: whether an allocation
-- succeeds, the header that MiCreatePoolEntry makes, the state that callbacks act on, the pipe that a
-- thread finds when it wakes up. MmCopyIntoMdl and MmCopyFromMdl copy bytes, as their contract says.
--
-- The dispatcher runs under one lock, so that a run of several processors is a sequence of its
-- operations; a step of the scheduler may pick any thread and change any queue. A `short` or an `int`
-- is a number below 2^16 or 2^32 and its sign bit is tested. The dispatcher is that of a build without
-- DEBUG, which does not check the levels of mutexes: a debug build crashes where a thread acquires one
-- below the highest that it owns. The list of the pool ends in MmpPoolList, which a release of the last
-- entry reads as an entry; what lies there is an argument. The pages of a sparse array are a tree,
-- since each page comes new from the allocator and is stored in one place; the array asks the
-- allocator for pages while there are free ones, and its functions are those of a 64-bit machine. None
-- of these pages is a standby page whose prototype pointer lies in the array itself: the reclaim of such
-- a page would store MM_SLA_NO_DATA there.
--
-- The reader-writer lock is changed under its guard lock, so that a run of several threads is a
-- sequence of guarded sections. The table grows in a section of its own, since its allocation gives up
-- the guard lock. The threads in a wait, and those that were granted the lock, are lists beside it; the
-- event and the semaphore are the wake-ups that no thread has used yet. A waiter that is let in stores
-- its name after the section that woke it, or before that section stores NULL.
--
-- The page frame database changes under MmPfnLock. Its lists are read off the links and the ends, as
-- a list of page numbers for each; MmTotalFreePages is the number of pages on the zero, free and
-- standby lists with an excess, which the theorems follow. Pages are allocated from it and given back
-- to it by the arrays and the pool, which take it as a number of free pages or as an answer.
--
-- A loop that C does not bound takes a number of rounds, and `none` is a loop that has used it up.
-- The rounds that the theorems ask for are: more than the characters of a string, more than the items
-- of a handle table, and one for each byte and for each wait of a pipe.
--
-- Not modelled: the switch between threads, timers, virtual memory, the start of the physical
-- memory manager and its contiguous regions, the object and I/O
-- managers, the terminals, the loader, the drivers and the user programs; of the pool, the root page
-- tables of 32-bit machines and the functions that keep a handle in the page tables; the end of a
-- sparse array.
-- The spin locks and the software interrupts are left out, too.
-- They are glue to the hardware and to other programs, or rest on parts that have to come first.
pub mod Prelude
pub mod Rtl
pub mod Ex
pub mod Mm
pub mod Io
pub mod Ke
