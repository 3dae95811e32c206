-- ===== src/Lib.antt =====
-- xbayOS: a model of the kernel's C code and what holds of it.
--
-- xbayOS is a 32-bit x86 kernel for one processor. Tasks (thread/) are scheduled from a ready queue
-- of linked nodes (lib/list.c); the clock interrupt (device/timer.c) ends time slices; semaphores and
-- mutexes (thread/lock.c) block tasks; the keyboard interrupt puts characters into a ring guarded by
-- semaphores (device/io_queue.c); the IDE driver (device/disk.c) moves sectors and serves the file
-- system (fs/), which keeps its free blocks and inodes in bitmaps (lib/bitmap.c). Memory
-- (kernel/memory.c) is bitmaps of frames and of addresses, page tables, and blocks cut from pages.
--
-- The parts, by file of this library:
-- - Base: numbers, lists, Boolean tests, fixed-width words, single bits of bytes (Base/Bytes), and
--   the outcome of kernel code: a value, a failed assertion (ASSERT of kernel/debug.h), or a loop
--   that used up its fuel.
-- - LinkedList: lib/list.c on a heap of links, a pair of addresses at each address. A node is its
--   address; insertion and removal write the neighbours' links. LinkedList/Seg and its siblings
--   relate a heap to the list of the nodes between the two end nodes.
-- - Bitmap: lib/bitmap.c over bytes of memory.
-- - Strings: lib/string.c on flat memory, a byte at each address; the loops take fuel.
-- - Stdio: itoa and vsprintf of lib/stdio.c, on the same memory; the arguments are a sequence of
--   words. The loop of itoa has fuel for the 32 digits of its array and one test more.
-- - Intr: kernel/interrupt.c, the interrupt flag, INTERRUPT_DISABLE and INTERRUPT_RESTORE, the
--   descriptor table, and its set-up with that of the interrupt controllers (Intr/Init).
-- - Memory: kernel/memory.c, from the pools (Memory/Layout) to malloc_page and free_page. The page
--   tables are the words of their window in memory; Memory/Alloc has the invariant of the kernel's
--   part, Memory/Release and Memory/RoundTrip what free_page undoes.
-- - Heap: sys_malloc and sys_free of kernel/memory.c. The headers of arenas are a map from pages, and
--   the lists of free blocks are lists of addresses. Heap/Invariant has the invariant of the
--   kernel's heap, Heap/Recount and Heap/Fresh the two ways in which calls change it.
-- - Proc: proc/process.c and thread_create: the stacks of a new process (Proc/Stack), its page
--   directory (Proc/Space), and process_execute over Memory and Thread (Proc/Execute).
-- - Thread: thread/thread.c, process_activate of proc/process.c and the clock interrupt. The ready
--   queue is the list of tasks that LinkedList shows the links to represent. A function that switches
--   to another task is modelled up to the switch. Thread/Boot has thread_init, Thread/Reach the states
--   that can follow it.
-- - Timer: the ports and the sleeping loops of device/timer.c.
-- - Tss: proc/tss.c.
-- - Lock: thread/lock.c. A call that must wait ends in the state in which its thread sleeps.
--   Lock/Rounds has the critical sections of any number of threads as a step relation.
-- - IoQueue: device/io_queue.c, as the composition of Lock's operations and the accesses to the ring.
-- - Keyboard: device/keyboard.c, with the map of characters as the source has it.
-- - Disk: device/disk.c. A routine yields its port accesses and calls in order; Disk/Transfers reads
--   off what they ask of the drive. Disk/Partition has the scan of partition tables, Disk/Init the
--   set-up of the channels.
-- - Fs: fs/fs.c, fs/inode.c and fs/file.c: the layout of a file system, its making and mounting
--   (Fs/Build, Fs/Init), the places of inodes on the disk (Fs/Inode), the open inodes and their counts
--   (Fs/Opened), the tables of files and the allocation of inodes and blocks (Fs/File), create_file
--   (Fs/Create), and paths and sys_open (Fs/Path, Fs/Open). Here a disk is its sectors' bytes, which
--   change as the one transfer of each ide_write asks, of 256 sectors where fewer are meant.
-- - Dir: fs/dir.c: lookups on flat memory as in Strings, entries added over Fs/File's allocation
--   (Dir/Entry), directories opened and closed over Fs/Opened (Dir/Opening). Fs/Create uses Dir/Entry;
--   Fs/Open has dir_exist and create_file as parameters, so that what it shows holds of any.
--
-- Words wrap as in C: uint8_t, uint16_t and uint32_t values are numbers reduced on each store that
-- can exceed them. Where the code's loops do not end by their own counter, the model counts fuel: as
-- many units as a string has bytes and one more, one for each 256 sectors and one more for a read,
-- two for a write, 3001 for a poll of the drive, and one for each table on a chain of extended
-- partitions. Theorems that a call returns say how much fuel is enough; path_depth uses up any amount
-- on some paths. Code that is not C, or that the source reads without setting it, is a parameter: the
-- drive's status register (`poll`), the physical address of a page (`phys`), the value of an
-- uninitialised variable (`stale`), the clock at each of its reads (`total_times`), the arguments of
-- a format, the contents of the disk and the addresses that allocation gives to inodes.
--
-- Not modelled: assembly (boot/, kernel/kernel.S, thread/switch.S, lib/print.S), output
-- (console, printk, printf), the bytes that memory management clears, system calls and
-- the initialisation sequence.
pub mod Base
pub mod Bitmap
pub mod Intr
pub mod LinkedList
pub mod Strings
pub mod Thread
pub mod Lock
pub mod IoQueue
pub mod Disk
pub mod Fs
pub mod Keyboard
pub mod Memory
pub mod Proc
pub mod Heap
pub mod Stdio
pub mod Timer
pub mod Tss
pub mod Dir
