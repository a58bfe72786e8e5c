-- ===== src/Lib.antt =====
-- WaifuOS: the core of the kernel.
--
-- The kernel boots with a map of the memory from the firmware. The page frame allocator marks every
-- frame of that memory in a bitmap and hands out frames; the page table manager takes frames for its
-- tables and maps pages; the heap takes mapped pages and hands out segments; the scheduler keeps its
-- threads in a list on the heap; the PCI walk maps the configuration space of each function and keeps
-- a list of those that have a driver. The interrupt of the keyboard turns scan codes into characters and
-- writes them to the console, which draws them in the frame buffer. The file system reads sectors from a
-- port of a disk. Text and numbers go through the functions of cstr.
--
-- The files and the code (paths from the root of the repository):
--   Prelude               shared names, words of fixed width, loops, the digits of `&` and `|`
--   BitMap                Kernel/src/BitMap.cpp: Get and Set
--   PageFrameAllocator    Kernel/src/Memory/PageFrameAllocator.cpp: FreePage to RequestPages and
--                         ReadEfiMemoryMap; Accounting has the counters, Cursor the search for a
--                         frame, Locking the marks of a run, Runs that for several, History any sequence of calls, Boot the start
--   Paging                Kernel/src/Headers/Paging.h and Memory/PageMapIndexer.cpp
--   PageTableManager      Kernel/src/Memory/PageTableManager.cpp; Walk is what the processor reads,
--                         Tree the invariant, NewTable and Level one of the three blocks, Mapping and
--                         Flags the two calls, Frames the page frame
--                         allocator as the source of frames
--   Cstr                  Kernel/src/cstr.cpp; Numbers and Format have their own files, and Copy
--                         has strncpy of Kernel/src/string.asm
--   ArrayList             Kernel/src/Headers/List.h
--   Scheduler             Kernel/src/Scheduling/Scheduling.cpp
--   Heap                  Kernel/src/Memory/Memory.cpp; Blocks is the heap as a list of blocks, Moves
--                         and Splitting relate the chain of headers to it, Allocation, FirstFit
--                         and Release are the calls over the whole chain, Growth, Expansion, Room, Demand
--                         the heap that grows, Start and Initial its first state, Coalesced, RoundTrip
--                         and Life the calls together, Remaining the count of free bytes
--   Pci                   Kernel/src/IO/PCI.cpp
--   Console               Kernel/src/PrimitiveConsole.cpp; Pixels and Calls are the code, Terminal is the
--                         grid of characters that it promises, Looks and Refinement relate the frame
--                         buffer to it, Cursor and History are about the place of the cursor
--   Fat32                 Kernel/src/IO/FileSystem/FAT32.cpp and Headers/FAT32.h; Structs, Names, Driver
--                         and Paths are the code, LongNames and Finding the search for an entry, Layout
--                         the place of the clusters
--   Keyboard              Kernel/src/IO/Keyboard.cpp; Tables, Events and Commands are the code, Board is
--                         what is typed, Typing relates the two and the screen
--
-- State is passed on explicitly: each global of a namespace is a field of one record, and memory is a
-- function from addresses. Numbers are natural numbers with the wrap-around of their width written
-- out. None stands for a fault or for a loop that has run out of rounds.
--
-- Bounds: RequestPage and RequestPages run on as many rounds as the bitmap has bits behind the cursor,
-- and one more; each round moves the cursor, which is proved to be enough. The search of malloc runs
-- on one round for each segment, and malloc on three tries, since two expansions always make room. The decimal digits of a word are at most 20, the hexadecimal ones 16.
-- The loop of format runs once for each character. SendCommand has a round for each byte of its data and
-- one more; its loop over them is left at once. FindEntry has a number of rounds that the theorems leave
-- open; one is enough where it returns.
--
-- Interfaces: `FrameSource` is what the page tables need of the frames, and `page_frames` fills it;
-- `PageMapper` and `DeviceMapper` stand for the mapping of pages in the heap and in the PCI walk, `AtaPort` for the reading of sectors in the file
-- system.
--
-- Not modelled: assembly but for strncpy and one use of memset64, ports and device registers, the drivers,
-- interrupts, the boot loader and the copy of gnu-efi under Bootloader. The spin
-- lock of the heap and the masking of interrupts are left out: each call runs alone.
pub mod Prelude
pub mod BitMap
pub mod PageFrameAllocator
pub mod Paging
pub mod PageTableManager
pub mod Cstr
pub mod ArrayList
pub mod Scheduler
pub mod Heap
pub mod Pci
pub mod Console
pub mod Keyboard
pub mod Fat32
