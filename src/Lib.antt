-- ===== src/Lib.antt =====
-- A model of the kernel in src/ and include/: a small multitasking operating system in C.
--
-- The parts and the files that model them:
--   * src/util/circularBuffer.c, the ring of characters behind terminals and fifos:
--     Util/CircularBuffer. Queue is the bounded queue that it promises to be.
--   * src/driver/ata_disk.c, reads and writes of bytes on the sectors of two disks: Driver/Ata. A
--     medium gives the 256 16-bit words of each sector of each disk.
--   * src/driver/keyboard.c: Driver/Keyboard, the flags of include/driver/keyboard.h as fields. What it
--     tells src/signal.c is an event.
--   * src/driver/videoUtils.c and `tty_write` in src/tty.c: Driver/Terminal. Bounds and Cells are
--     the loops over the screen, Turn one character, Write a text.
--   * src/fs/diskCache.c, ten cached sectors between the file system and the driver: Fs/DiskCache,
--     which calls Driver/Ata as the code does. Its View is what a client reads: the cached contents of
--     a sector, or else those of the disk.
--   * src/fs/diskManager.c and include/fs/diskManager.h, inodes and files on the disk. Fs/Strategy: the two
--     pointers to the driver or the cache, and the interface `IsDrive` that both meet. Fs/Structs: the
--     structs as bytes on the disk. Fs/DiskManager: Bitmap the two bitmaps, Inodes the inodes and the
--     headers of files, Blocks the chains of blocks, Transfer the contents, Files making and deleting
--     a file; its other modules are proofs.
--   * src/fs/fs.c: Fs/FileSystem. Its Table is the 15 inodes that were loaded, Nodes the nodes and the
--     descriptors of a process, Files the contents of files, Folders directories, Start the start and
--     Clone the copy of a file. Fs/Directory is what its loops do with the contents of a directory. A
--     function is a chain of steps that may run out of fuel; the current user is that of Access.
--   * src/access/user.c, src/access/group.c, src/access/permission.c and src/session.c: Access. State is
--     the two static tables, the pointers `currentUser` and `sudoUser` as indices into the table of
--     users, and `errno`. Users and Groups are the operations on the tables, Permission who may do
--     what, Session the current user. The reads through NULL that the code does when it searches free
--     entries are reads of a page of low memory, which is a parameter (`NullPage`); the file system
--     that makes a home directory is the interface `HomeFs`, an argument. A name of 32 characters or a
--     password of 16 does not fit its array, and the operation that would copy it has no result.
--   * src/process/scheduler.c, src/process/process.c and the waking in src/signal.c: Process. State is
--     a process and the static variables; a pointer to a process is the index of its entry, or the
--     process itself once it was freed. Scheduler is the operations, Table and Next what they do,
--     Keep, Insert and Reach what holds in every state that they lead to, Kill the killing of a process
--     and its children, on fuel for the depth of the calls: it has no result where they are nested
--     deeper. `nextPID` wraps at 2 ^ 32. Pages are not part of the state.
--   * src/lib/string.c, the functions that read a string: Text; `strcpy` is in Fs/DiskManager/Inodes.
--     The conversions of src/lib/stdlib.c, src/lib/math.c and src/lib/printf.c between numbers and
--     digits: Text/Numbers.
--   * src/util/list.c: Util/Lists, over a heap of cells at addresses.
--   * src/util/semaphore.c: Util/Semaphore. Counter is what it promises; a waiting process is its pid.
--   * src/memory/ordered_array.c: Memory/OrderedArray. src/memory/frame.c: Memory/Frames.
--   * Prelude holds what they share: tests into Bool, lists with native lengths, bytes, integers.
--
-- A pointer to a struct that a function updates is an argument and a result. Loops over a buffer
-- recurse on the number of bytes left. `ata_read` and `ata_write` move at least one byte each time
-- round, so as many rounds as bytes are enough; the recursive calls of the cache end one call later.
-- The loops of the disk manager along the pages of a file run on fuel, and end with `none` when it is
-- used up, since a damaged chain may be a cycle: as many rounds as the chain has pages are enough.
-- A local struct or buffer that is not set is taken from `stack`, bytes that are a parameter. The
-- proofs about contents are for a file in its first page, at offsets below 2 ^ 24 on the disk.
-- A sector number is an unsigned short, with its wrap-around at 2 ^ 16 written out; the parameters of
-- `_cacheIndex` and `_cachSector` that are a short are converted.
--
-- Port I/O, interrupts, assembly and console output are not modelled: they act on the machine. Nor are
-- the allocation of the heap and the page tables, the fifos, the shell and its commands, and the
-- parsing of formats.
pub mod Prelude
pub mod Text
pub mod Util
pub mod Driver
pub mod Fs
pub mod Access
pub mod Process
pub mod Memory
