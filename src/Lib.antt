-- ===== src/Lib.antt =====
-- SepplesOS: a model of parts of the kernel, with the theorems about it.
--
-- The kernel keeps a bitmap of physical pages and 4-level page tables (kernel/mm/paging.cpp), a heap of
-- chunks on pages that it maps (kernel/mm/malloc.cpp), a table of tasks that the timer switches between
-- (kernel/proc/process.cpp), a keyboard interrupt that feeds an input buffer (kernel/interrupt.cpp,
-- kernel/keyboard.cpp) and a text screen with a log (kernel/vga/vgatext.cpp). The heap asks paging for
-- pages, loading a task asks it for a page directory, the keyboard echoes to the screen, and the system
-- calls (kernel/syscalls.cpp) ask the screen, the keyboard and the task manager. A file comes from a drive
-- (kernel/disk/disk.cpp) through its partition table (kernel/disk/partTable.cpp), the mount points and
-- paths of the virtual file system (kernel/disk/vfs.cpp) and ext2 (kernel/disk/ext2.cpp), and the loader
-- (kernel/proc/elf.cpp) puts its segments in memory.
--
-- Which file models what:
--   * Paging: kernel/mm/paging.cpp. Machine is the bitmap (physPageBitmap, maxPhysPages) and the
--     physical memory. mark_used, mark_free, get_free_phys_page are in Paging, the tables (mapPage as
--     map_page and map_at, unmapPage, getPAddr, getUnmappedVAddr, createPageDir, destroyPageDir) in
--     Paging.Tables, init in Paging.Boot.
--   * Malloc: kernel/mm/malloc.cpp. Heap holds the chunk headers by address and the static counters.
--     init and free are in Malloc, malloc in Malloc.Search. What it uses of paging is the record Pager.
--     Malloc.Chunks reads the headers as a list of chunks.
--   * TaskManager: kernel/proc/process.cpp. Tasks is the table pList with current, nProc and
--     schedulerEnabled; schedule, switch_to_task, load_task and exit_task are the operations.
--   * Keyboard: kernel/keyboard.cpp; Keyboard.Layout: kernel/keyboardLayout.cpp; Keyboard.Scancodes:
--     isr_kbd_int of kernel/interrupt.cpp.
--   * VgaText: kernel/vga/vgatext.cpp. The framebuffer is a memory by address, the log one by offset.
--   * Strings: kernel/lib/string.cpp. Syscalls: kernel/syscalls.cpp, the request that a call makes.
--   * Disk: kernel/disk/disk.cpp, over the record Ports of inb, inw and outb. The monad Io is that of
--     a call that returns or halts. The commands are in Disk.Commands, diskRead in Disk.Read, init in
--     Disk.Probe. Disk.Device is what is relied on of a drive; Disk.Triples has the rules for runs.
--   * PartTable: kernel/disk/partTable.cpp. Vfs: kernel/disk/vfs.cpp, with nodes by address, and
--     resolvePath in Vfs.Path over the record NodeClass of the methods that a file system overrides.
--   * Ext2: kernel/disk/ext2.cpp over the record Reader, which disk_reader fills with diskRead. Files
--     has ext2ReadFile, Directories the nodes; Contents and Entries say what a file and a directory are.
--   * Elf: kernel/proc/elf.cpp, over the record Pages of getPAddr and mapPage.
--   * LinkedList: kernel/lib/llist.h, the cells by address. Links says what a chain of cells is,
--     Refinement, Removing and Inserting which list of values it stands for.
--   * HumanReadable: kernel/lib/humanReadable.cpp, the text from the answer to the end of the buffer.
--   * Prelude: tests on numbers, lists and a store as a function, which all parts share.
--   The modules named Checks hold runs, and the conditions of the theorems at concrete states.
--
-- Numbers: every integer is a natural number; u64, the 48-bit size field and signed bytes are kept in
-- two's complement, with the wrap-around written out. Flag words are read bit by bit.
--
-- Bounds and fuel: the loops over page tables run over 512 entries, those over the task table over 64
-- slots, those over the bitmap over its bytes, all by structural recursion. The merging loop of free has
-- one round for each byte up to the end of the chunks, more than there are chunks. The loop that fetches
-- pages has two rounds for each byte that is needed, and one more. The search loop of malloc takes its
-- fuel as an argument: it needs one round more than there are chunks before the one it takes. The waits of
-- the disk driver have the rounds of TIMEOUT. A path takes a round for each character at most, and the
-- listing of a directory one for each byte, and one more. A walk over a linked list needs one round more
-- than there are cells. The division by the unit has 7 rounds, enough for 64 bits. A result that is halted is a call of halt or
-- fatalError.
--
-- Not modelled: the sized array; realloc and squeeze of the heap; the copies through the temporary page; the printing of
-- statistics and of what init of the disk driver found; freed memory, so the destructors of nodes; the
-- nodes of ext2 as nodes of the virtual file system; what only writes to ports; assembly. Interrupts
-- are off during the modelled operations, so each is one step. A read into a buffer that fails leaves
-- what the buffer held, which is a parameter.
mod Prelude
pub mod Malloc
pub mod Paging
pub mod TaskManager
pub mod Keyboard
pub mod VgaText
pub mod Strings
pub mod Syscalls
pub mod Disk
pub mod PartTable
pub mod Vfs
pub mod Ext2
pub mod Elf
pub mod LinkedList
pub mod HumanReadable
