-- ===== src/Lib.antt =====
-- Chickadee, a teaching operating system for x86-64: parts of its kernel and of the library that kernel
-- and processes share.
--
-- The parts, the files that model them, and how they correspond to the code:
--
-- - Slab: `smallslab` and `bigslab` (k-memrange.hh), the allocators of small chunks that `kalloc` asks
--   first. One model stands for both: the `Geometry` says the chunk size and the number of chunks.
--   `Slab.State` has the constructor, `give` and `receive`; pointers are chunk indices.
-- - MemRange: `memrangeset` (k-memrange.hh), which remembers the type of each range of physical
--   addresses; kernel start-up fills it and the page allocator reads it. `MemRange.State` has the
--   constructor, `find`, `type`, `split` and `set`, cut where the comments of `set` cut it.
-- - Links: the doubly linked list of k-list.hh, `list_links` and `list`, on a memory of addresses with
--   0 as the null pointer; every assignment is one, in the order of the code. `free_blocks` of Buddy is
--   such lists, taken there as the sequences that they hold.
-- - Buddy: the buddy allocator (k-alloc.cc): the page map `pgmap` and the lists `free_blocks`.
--   `Buddy.State` has the parts of `kalloc` and `kfree` that work on them, `Buddy.Order` the functions
--   `largest_fitting_ord` and `order`, and `Buddy.Init` the function `init_kalloc`, which reads the
--   ranges of MemRange. A page is its index in `pgmap`, whose 512 entries `init_kalloc` must not
--   leave; a list of blocks is that of their first pages.
-- - Kalloc: `kalloc` and `kfree` (k-alloc.cc) themselves: the walk over the slabs of Slab, and behind it
--   the blocks of Buddy. What stands in memory in front of a page is an argument of `kfree`.
-- - Blocks: the free-block bitmap of the file system (k-chkfs.cc): `find_free_range`,
--   `allocate_extent` and `free_extent` on the words of the bitmap read as bits.
-- - RwLock: the read/write lock of an inode and of a working directory (k-chkfs.cc), as a step relation
--   over the counter `mlock` and any number of tasks, one atomic access at a time. A task unlocks only
--   what it has; a call of unlock by another task is a panic of the model. `RwLock.Counts` says what the
--   counter counts, `RwLock.Exclusion` is about the safety of the lock and `RwLock.Progress` about its
--   progress.
-- - Memfile: the files in memory: `memfile::set_length` (k-devices.cc), `memfile_vnode` (k-vfs.cc) and the
--   capacity by `round_up_pow2` (lib.hh). The kernel's allocator is an argument: whether it has room for so
--   many bytes, and what new memory holds.
-- - Vnode: the part that all vnodes share, `vnode` (k-vfs.cc, kernel.hh).
-- - Special: the files for null, random, full and zero, `special_vnode` (k-vfs.cc), with `rand` and `srand`
--   (lib.cc), whose seed is passed along.
-- - Initfs: the lookup of a file in memory by its name, `memfile::initfs_lookup` (k-devices.cc).
-- - Fds: the descriptors of a thread group: `syscall_dup2` and `syscall_close` (kernel.cc), with the counts
--   of references of the vnodes behind them. `close` is two parts, cut at its sleep.
-- - Uds: `uds`, the Unix domain socket (k-vfs.cc, k-vfs.hh), over which a client hands an open file to a
--   server. `Uds.State` has its operations, halved at their sleeps, `find_open_fd` (kernel.cc) and the
--   part of `read` that changes the server's descriptor table.
-- - Pipe: `pipe_bbuf` and `pipe_vnode` (k-vfs.cc, k-vfs.hh). A `block_until` gives up the lock, so a
--   call is two parts: what runs before it sleeps, and what runs after it wakes, on the state found then.
-- - Memory, Strings, Numbers: the freestanding C library of lib.cc: memcpy, memmove, memset, memcmp,
--   memchr; strcmp, strncmp, strlen, strnlen, strcpy, strncpy, strcasecmp, strncasecmp,
--   strchr; strtoul, strtol and `fill_numbuf`, the printing of a number.
-- - Errno: the error codes of lib.hh.
-- - Prelude: names of the libraries passed on, Boolean tests, lemmas on lists, and `Outcome`, which
--   models a failed assertion as a panic.
--
-- Machine integers: an unsigned long, a size_t and a pointer are natural numbers; where the code can
-- wrap around, the wrap-around is written out (`% 2 ^ 64`, `% 2 ^ 32`, `% 2 ^ 8`).
--
-- Fuel: the loop of `kfree` has ten rounds, one for each order from MIN_ORDER to MAX_ORDER, and the
-- block's order grows in every round but the last; `order`, `largest_fitting_ord` and the inner loop of
-- `init_kalloc` have 64, as many as an unsigned long has binary digits;
-- the loop of `write` has one round more than there are bytes, that of `read` one more than the
-- ring holds, `fill_numbuf` 64 rounds, as many as an unsigned long has binary digits, `find` and `set`
-- as many as there are ranges, and `find_free_range` one more than there are bits. The theorems show
-- that none of them runs out. The fuel of strlen, strcpy and strchr is an argument.
--
-- Not modelled: boot, interrupts and exceptions, page tables, processes and scheduling, wait queues,
-- the other system calls, the device drivers, the buffer cache and the journal, directories, the
-- network stack, sanitizers, the memory viewer, formatted printing beyond numbers, and the programs that
-- run on the kernel. The checks that BALLOC_PARANOIA and SALLOC_PARANOIA switch on, and the filling of
-- new blocks with 0xCC, are left out. Locks are taken as held for the whole of an operation, except for
-- RwLock and for the sleeps of Pipe, Uds and Fds.
pub mod Prelude
pub mod Errno
pub mod Slab
pub mod Links
pub mod Buddy
pub mod Kalloc
pub mod MemRange
pub mod Blocks
pub mod RwLock
pub mod Fds
pub mod Uds
pub mod Memfile
pub mod Initfs
pub mod Special
pub mod Vnode
pub mod Pipe
pub mod Memory
pub mod Strings
pub mod Numbers
