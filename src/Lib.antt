-- ===== src/Lib.antt =====
-- The L4Re bootstrapper (server/src): it sets up lists of memory regions, places the boot modules
-- and the ELF binaries of kernel, sigma0 and root task in RAM, and starts the kernel.
--
-- Parts and files:
--   Prelude      tests, lists and words that the parts share; `Result` for code that can stop
--                the machine (a failed assertion, a panic).
--   Align        l4_round_size, l4_trunc_size and L4_PAGESHIFT, which come from headers outside the
--                repository: a parameter, with their documented behaviour as hypotheses.
--                Align/Sample is an implementation that meets them.
--   Region       class Region (region.h).
--   RegionList   class Region_list (region.h, region.cc): find, find_rev, contains, remove,
--                remove_if, add, sub, optimize, find_free, find_free_rev. The array is a list; a
--                pointer that a search returned stands for the first element that passes its test.
--   Memory       struct Memory (memory.cc): find_free_ram and find_free_ram_rev over three lists.
--   GccLib       gcc_lib.c: the divisions, shifts and bit counts that the compiler calls on 32-bit
--                machines. The routine that ullmoddiv and umoddiv spell out for two widths is one
--                definition (Scale and Reduce are about its loops); a 64-bit value is shifted in its
--                halves (Shifts).
--   BootModules  boot_modules.cc: the regions of the modules, mod_insert_sorted, and move_modules of
--                the image mode without compression. Memory is a function from physical addresses to
--                bytes. BootModules/Moves is about one move, Split, Backwards and Forwards about the loops,
--                Room and Returns about what lets them return, Whole about all of move_modules.
--                Compressed is about the image mode with compression (decompress_mods, and
--                construct_mbi in Unpack; Round and Search are about the places for unpacking), Mbi
--                about the information that construct_mbi fills.
--   Startup      startup.cc: check_arg (CommandLine) and fill_mem (FillMem); the options that set up
--                the region lists (Layout, with Kmem about add_kmem_area_on_ram); exec_load_elf of
--                exec.cc with the callbacks for the headers and add_elf_regions (ElfLoad, with
--                Gather about the first walk); l4_exec_read_exec and load_elf_module (Load); find_kip and
--                find_kopts (KernelSearch). A text is the list of its characters, a pointer into it a
--                position.
--   Uncompress   uncompress.cc: malloc, free and decompress; what zlib answers is a parameter.
--   AlignedCopy  memcpy_aligned.c: memcpy_aligned, on the same model of memory.
--   IsaParser    ARCH-riscv/isa_parser.h: class Isa_parser, with the text from the cursor on and the
--                character before it.
--   KernelInfo   init_kip.cc: the memory descriptors that init_kip_md writes, as a list.
--   Multiboot2   multiboot2.cc: the conversion of Multiboot 2 information in place, on a list of
--                bytes. Layout has the offsets and sizes of the external header as a parameter,
--                Rotate, Convert, Kept and Steps are about the handlers, Tags and Loop about the loops.
--   Boot32       ARCH-amd64/boot32: Reservations (support.c), MmAlloc (mm_alloc.c), LoadElf
--                (load_elf.c), Bootstrap (boot_kernel.c) and PageTables (ptab_alloc in boot_cpu.c).
--                `unsigned long` has 32 bits there. The external functions for the Multiboot memory
--                map count its entries; ELF headers are records of the fields that are read.
--   Paging       ARCH-amd64/paging.c: ptab_map_range and the walk over the levels. Entries are read
--                and written by their addresses; the allocation of tables is a parameter. Levels is about the whole walk,
--                Leaves about the entries of a table of the lowest level.
--   ModInfo      mod_info.h: the packed attributes of modules.
--   KernelOptions  koptions.cc: kcmdline_parse, on the bytes of the memory at the options.
--   DeviceTree   dt.h, dt.cc: the cache of parents (Preorder, ParentCache, BinarySearch) and the
--                translation of addresses (Mapping, Translate), on the answers of libfdt.
--   Acpi         acpi.cc: the choice of the root table (Selection) and the search for a table (Lookup)
--                in memory, a function from addresses to bytes.
--
-- The parts build on each other in this order: region lists hold regions, the memory manager
-- searches three region lists, and the boot modules are placed by the memory manager and recorded in
-- its region list; the loader of binaries copies with the aligned copy. In the 32-bit part the loader asks the allocator for a place, which avoids the
-- reservations.
--
-- Not modelled: the platforms, what the device tree is searched for (memory, UART, clocks), the EFI and QEMU interfaces, the sequence of
-- startup() itself, and the start of the single architectures: they call devices and firmware.
--
-- Addresses are words of 64 bits where nothing else is said, and sums and differences are taken
-- modulo 2 ^ 64. Names are compared as pointers and are numbers. Assertions are taken to be compiled
-- in. Printing is left out. Loops that are not over a list take fuel: a round of `find_free` passes
-- one region for good, so one round more than there are regions is enough, and the theorems say that a result is
-- returned. A round of the conversion of tags uses up a tag of at least eight bytes, and a round of
-- the page table walk at least a page, so the bytes or pages bound the rounds. An allocation of the
-- 32-bit part passes a reservation for good or goes on to the next range, so the product of their
-- numbers bounds its rounds. The divisions get a round for each bit of a word. The rounds of `check_arg` are
-- counted by fuel, since the loop need not end. The binary search in the cache of parents halves the
-- part that is left, and a translation goes to nodes with lower offsets.
pub mod Prelude
pub mod Align
pub mod Region
pub mod RegionList
pub mod Memory
pub mod GccLib
pub mod BootModules
pub mod Startup
pub mod Uncompress
pub mod AlignedCopy
pub mod IsaParser
pub mod KernelInfo
pub mod Multiboot2
pub mod Boot32
pub mod Paging
pub mod ModInfo
pub mod Acpi
pub mod KernelOptions
pub mod DeviceTree
