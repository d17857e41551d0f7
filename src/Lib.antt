-- ===== src/Lib.antt =====
-- MaramOS, a kernel for x86_64 (Rust, kernel/src).
--
-- The parts that carry the kernel's own logic, and how they meet. The buddy allocator keeps physical
-- memory in lists whose links stand in the free blocks themselves; the range allocator keeps virtual
-- addresses; the storage drivers find the partitions of a disk; LemonFS keeps files in chains of link
-- blocks and free blocks in a bitmap; the scheduler of each CPU keeps its tasks in queues and takes
-- tasks from other CPUs when it is idle.
--
-- Base holds what the modules share: tests on native numbers, lists, words (add64, sub64 and
-- checked_add keep the wrap of a release build), bits.
--
-- Allocators.Range models kernel/src/allocators/range.rs: `RangeAllocator` is the list of its free
-- ranges, and each method a function of the same name. Cover says which addresses the list holds.
-- Allocators.Buddy models kernel/src/allocators/buddy.rs: the memory is a function from addresses to
-- cells, so a list is what following the links gives (Chain); the walk along a list and the merging
-- are on fuel, and one round more than a list is long is enough.
-- Allocators.Slab models kernel/src/allocators/slab.rs over the same memory: Ranges is the list of free
-- ranges of a block without their links, Walk the walk along the links, Valid the invariant; more fuel
-- than the largest block has blocks is enough. Allocators.AllocRange models `alloc_range` and
-- `free_range` of buddy.rs, where the buddy allocator feeds the slab: Serve, Grow and Alloc are about
-- the first, GiveBack and Free about the second. Whole
-- is about a block of the slab that is free as a whole.
-- Fs.Bitmap models kernel/src/fs/lemonfs/bitmap.rs, with `None` apart from a panic; Bits is about one
-- block, Change about the set of used blocks, Search about find_first_fit.
-- Fs.Links models kernel/src/fs/lemonfs/links.rs with the disk as a parameter; the walks are on fuel,
-- since a chain on the disk may be a circle, and one round more than the chain is long is enough.
-- Fs.Path models kernel/src/fs/lemonfs/path.rs and the names of disk.rs beside it, on strings as lists of
-- bytes; the lossy conversion from UTF-8 of the standard library is spelt out. Fs.Store holds what the operations of LemonFS share: a sector is the value written to it last
-- (what it reads as at another type is a parameter), and an operation maps the state (disk, bitmap,
-- superblock, cached root) to an outcome and the state it leaves, also on an error or a panic.
-- Fs.Store.Keeps is about the parts of the state that code leaves alone. Fs.Directory models
-- kernel/src/fs/lemonfs/file.rs and directory.rs, its child Sync the chain of a directory, Fs.LemonFs
-- the file system interface of kernel/src/fs/lemonfs/mod.rs: Paths get_parent, Chain
-- build_file_chain, Entries create, delete, file_size and list, Contents read, write and
-- route_symlink. Their walks are on fuel, since what is on the disk may be a circle: a block more
-- than the chain has is enough for each, and a depth more than the tree has for a deletion. Pages of
-- memory can always be had, and numbers of sectors stay below 2^64.
-- Fs.Sectors models the writes of kernel/src/fs/lba_abstractor.rs, with what a sector holds as one value;
-- its loops run over numbers of rounds that the code computes.
-- Scheduling.Task and Scheduling.Scheduler model kernel/src/scheduling and kernel/src/helpers/time.rs;
-- the clock and the idle task are parameters, and the registers written are a list. Runs is about any
-- sequence of calls of sched_logic on one CPU and of what changes its tasks in between, which may be the end of any task that runs.
-- Storage.Gpt models the checks of kernel/src/drivers/storage/gpt; the checksum of a header and the
-- entries read are parameters, and the scan is on fuel, for which one round more than there are
-- entries is enough when none is skipped.
-- Storage.Drive models the bounds and the chunks of kernel/src/drivers/storage/mod.rs; one round more than
-- there are blocks is enough.
-- Memory.Physical models the set-up of the page allocator from the memory map in
-- kernel/src/memory/physical.rs, with the wrap of its sums; a round for each page below the end of memory and one more is enough.
-- Memory.Heap models the kernel heap of kernel/src/memory/heap.rs, whose pages are a parameter.
-- Helpers.Crc models kernel/src/helpers/crc.rs, and Bitwise the shift register that it is compared with.
-- Memory.Virtual models kernel/src/memory/virt.rs: the mapper of the x86_64 library is a parameter, and so
-- are the sums and differences of its addresses, where `none` is a panic; a page
-- table that is read is a tree, and the loop of unmap is on fuel, for which a round for each small page
-- of the region and one more is enough.
-- Elf.Loader models kernel/src/elf/loader.rs up to the mapping of the pages; what the parsing library
-- gives is a parameter.
--
-- Not modelled: device registers, DMA, assembly and CPU tables, since no claim about them can be made
-- from the source alone; the superblock and the set-up of LemonFS, and the huge pages of physical memory.
-- The locks are left out: each function is what runs while its lock is held.
pub mod Allocators
pub mod Base
pub mod Elf
pub mod Fs
pub mod Helpers
pub mod Memory
pub mod Scheduling
pub mod Storage
mod Tests
