-- ===== src/Lib.antt =====
-- A verification library for the assignments of CSC369: the programs of the repository as antt
-- functions, with theorems on them.
--
-- Assignment1 is a kernel module that intercepts system calls. `Interceptor` models it:
-- - Interceptor/Kernel.antt: the metadata table (`table` of Assignment1/interceptor.c), the system call
--   table with the protection of its page, and the two spinlocks. An operation is a function from the
--   kernel's state to a result with a new state, or to a `Fault`: a spinlock taken twice, one released
--   that is free, a null pointer, a write to a protected page.
-- - Interceptor/PidList.antt: `add_pid_sysc`, `del_pid_sysc`, `del_pid`, `destroy_list`,
--   `check_pids_same_owner`, `check_pid_monitored`. A list holds the pids from the head on.
-- - Interceptor/Syscall.antt: `my_syscall`, `interceptor`, `my_exit_group`. The early returns under the
--   lock are values of `context`; the original system call that is made last is the result.
-- - Interceptor/Lifecycle.antt: `init_function`, `exit_function`.
-- - Interceptor/Effect.antt and below it: the effects of a call as a relation, which the proofs use.
-- - Interceptor/Safety.antt, Metadata.antt, ExitGroup.antt, Monitoring.antt, Restore.antt and below it:
--   the theorems. Interceptor/Tests.antt: the theorems at concrete states.
-- The tasks with their owners, the current process and `kmalloc` are arguments (`Env`). The number of
-- system calls and the index of `exit_group` are parameters; MY_CUSTOM_SYSCALL is 0. A call runs to its
-- end before the next: a second processor, which waits at the locks, is not modelled.
--
-- Assignment3 simulates a paging system. `Paging` models it:
-- - Paging/Bitmap.antt: the bitmap of Assignment3/swap.c, over 32-bit words, with `assert` as a result
--   of its own. Paging/Bitmap/Laws.antt, Create.antt and Marks.antt: it is a set of indices.
-- - Paging/Policy.antt: what the page table asks of a replacement algorithm (`struct functions` of
--   Assignment3/sim.h), with laws; Rand.antt, Fifo.antt, Clock.antt and Lru.antt below it implement
--   it as Assignment3/rand.c, fifo.c, clock.c and lru.c do. The search of `clock_evict` runs on fuel:
--   one round and one step are enough, since a frame that is passed becomes unreferenced. Opt.antt
--   is Assignment3/opt.c, which reads the coremap and so stands alone.
-- - Paging/PageTable.antt: Assignment3/pagetable.c and the swap file of swap.c, over any algorithm that
--   implements `Policy`. A page table entry is a record of its bits and its frame, which has 20 bits;
--   the tables of the second level stand one after the other. Below it: the invariant (Invariant.antt),
--   a page that is written to swap (PageOut.antt, Victim.antt), the choice of a frame (Choose.antt), a
--   page that gets a frame (Install.antt).
-- - Paging/Simulator.antt: `find_physpage`, and `access_mem`, `replay_trace` and the set-up in `main` of
--   Assignment3/sim.c, over lines that have been read. Present.antt, Access.antt, Refine.antt,
--   Replay.antt and Aligned.antt below it compare them with a memory in which no page ever leaves.
-- A run ends with `none` at a failed `assert` or at `exit(1)`. The numbers of `random()` and the outcome
-- of `lseek`, `read` and `write` are arguments. `malloc` gives memory; what it holds is not read.
--
-- Assignment2 simulates cars at an intersection. `Traffic` models parts of it:
-- - Traffic/Path.antt: `compute_path` of Assignment2/cars.c. A `switch` is the list of its cases, of which
--   all from the label on are run, since there is no `break`. What `malloc` leaves in the route is an
--   argument. A pointer has 8 bytes and an `int` has 4.
-- - Traffic/Lane.antt: a lane of traffic.h, and what `car_arrive` and `car_cross` do under its lock, as a
--   step relation of the two threads, which sleep at a condition variable until they are signalled or
--   wake up without a signal; the buffer's length (LANE_LENGTH, 10) is an argument. Order.antt,
--   Signals.antt, Steps.antt, Progress.antt, Run.antt and Ending.antt below it follow the cars through all runs.
--   `inc` does not fall below 0, since a thread takes a car only when one has not crossed.
--
-- Assignment4 works on ext2 disk images. `Ext2` models its library and its six programs:
-- - Ext2/Resource.antt: the bitmaps of inodes and blocks and the lengths of directory entries of
--   Assignment4/ext2_utils.c. A bitmap is its list of bytes; an access past it has no result.
-- - Ext2/Image.antt: the structures of Assignment4/ext2.h. The super block, the group descriptor, the
--   bitmaps, the inode table, the directory entries by their byte address, the blocks of pointers and
--   the contents of files are kept apart: no structure overlaps another, and the inode table and the
--   blocks have no end. A program is a function from an image to a result: `done` with an image and a
--   value, `exited` with the image that the shared mapping keeps and a code, or `undefined`, which is an
--   access out of bounds, a null pointer or a loop that does not end. The time is an argument.
-- - Ext2/Names.antt: names and paths as lists of bytes, with the C library's `strtok` and `strncmp`.
-- - Ext2/Alloc.antt: allocation, marks and release of inodes and blocks, with the counters of 32 and 16
--   bits. Lowest.antt and Steps.antt below it: which resource is taken, and single steps.
-- - Ext2/Directory.antt: `find_entry`, `init_dir_entry`, `create_dir_entry`. The walk over a block of
--   1024 bytes has fuel for 1025 steps, which is enough where every entry has a length. Insert.antt,
--   Places.antt, Blocks.antt, Found.antt, Enter.antt, Create.antt and Lookup.antt below it follow a new
--   entry to the search that finds it.
-- - Ext2/Path.antt and Copy.antt: the walks of ext2_ln and ext2_cp, and the data that they write. A file
--   of the native system is the list of its bytes. Ext2/Tools.antt: `main` of ext2_mkdir.c, ext2_ln.c and
--   ext2_cp.c, on `argv`.
-- - Ext2/Remove.antt: Assignment4/ext2_rm.c. Ext2/Reclaim.antt and Restore.antt:
--   Assignment4/ext2_restore.c. Its scan has fuel for the bytes of a block and of a gap, which is always
--   enough. Below Reclaim.antt a file's blocks are lists (Lists.antt, Loops.antt, Blocks.antt), freed
--   (Runs.antt, Files.antt) and taken back (Checks.antt, Taken.antt), in two orders (Rotate.antt,
--   Orders.antt); RoundTrip.antt and Restore/Undelete.antt put them together.
-- - Ext2/Checker.antt: Assignment4/ext2_checker.c, with fuel for the depth of the directories. Below it
--   Counts.antt, Blocks.antt and Kept.antt are on the counters, DataBlocks.antt and Repair.antt on the
--   blocks of an inode, FileTypes.antt and Root.antt on file types and modes.
-- - Ext2/Sample.antt: a small image, on which Tests.antt and UndeleteTests.antt try the theorems.
-- `read_disk_image`, `open_file` and the messages are not modelled: the mapped image and the bytes of
-- the file are arguments. Where the sources do not compile or link (the cast at the counters of the
-- super block, and get_group_descriptor), what they mean is modelled. The counts and numbers of blocks
-- and inodes fit an `int`.
--
-- Base.antt and below it hold what the parts share: tests, lists, C integers, bits of a word, maps.
--
-- Not modelled: of Assignment2 the crossing itself, in which a car holds the locks of quadrants and of
-- the lane it leaves by (one step of `car_cross`, which always comes to its end), and the driver; of Assignment3 the command line, the reading of the trace and
-- the printing of the tables; of Assignment4 the mapping of the image and the opening of a file; the
-- user programs that test the module.
pub mod Base
pub mod Interceptor
pub mod Paging
pub mod Traffic
pub mod Ext2
