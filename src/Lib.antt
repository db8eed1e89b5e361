-- ===== src/Lib.antt =====
-- HaoOS, a 32-bit x86 kernel in C: the parts that keep state and take decisions, as functions from
-- states to states. Paths are from the root of the repository.
--
-- Parts and files. The page allocator mm/pmm.c is below virtual memory mm/vmm.c, which takes its page
-- tables from it, and tasks proc/task.c, which take their PCBs, stacks and directories from both. The
-- FAT driver fs/fat.c stands on a block device; fs/vfs.c leads a path to one of its volumes, and the
-- system calls of syscall/syscall.c check a task's permission and pass on to both. The timer
-- driver/pit.c calls the scheduler of proc/task.c.
-- - Base: tests on numbers, lists with native lengths, 32-bit words, counted loops.
-- - Pmm (mm/pmm.c, include/mm/multiboot.h): `Pmm` has the static variables of the file and the words of
--   physical memory, where the free list is threaded through the free pages. `alloc_page`, `free_page`
--   and `alloc_contiguous` are pmm_alloc_page, pmm_free_page and pmm_alloc_contiguous; Pmm/Bitmap has
--   the bitmap and mark_region, Pmm/Boot has pmm_init. Pmm/Chain says what a free list is, and
--   Pmm/Alloc, Pmm/Scan, Pmm/Contiguous, Pmm/Boot/Stages, Pmm/Boot/Ready and Pmm/Boot/Ends have the
--   proofs.
-- - Vmm (mm/vmm.c): `Vmm` adds the directory in use and the kernel's. Directories and tables are words of
--   physical memory, which is mapped to itself. Vmm/Entry has entries and flags, Vmm/Frame says what an
--   address space is, Vmm/Table, Vmm/Mapping and Vmm/Calls have the proofs.
-- - Task (proc/task.c, include/proc/task.h): `Task` is a PCB, known by its address, `Sched` the variables
--   of the file. `schedule` has the branches schedule_ended and schedule_running. Task/Gdt has the
--   descriptors, Task/Pick, Task/Invariant and Task/Steps the proofs.
-- - Fat (fs/fat.c, include/fs/fat.h): `Fs` is fat_fs_t with its sector buffer, `Device` the block device
--   of include/driver/block_dev.h, where any sector may fail to be read or written. Fat/Table has the
--   entries of the FAT, Fat/Mount the boot sector and the partition table, Fat/Name 8.3 names and
--   directory entries, Fat/Run the steps of the driver on a volume, Fat/Dir, Fat/Path, Fat/File and
--   Fat/Write directories, paths, reading and writing. Fat/Layout, Fat/Entry, Fat/Update, Fat/Packed,
--   Fat/Straddle, Fat/Entries, Fat/Mount/Laws, Fat/Path/Segments, Fat/File/Loading and Fat/Write/Free
--   have the proofs.
-- - Keyboard (driver/keyboard.c): the ring buffer, the interrupt handler and the scan code maps; Keyboard/Ring
--   has the queue that the ring stands for, Keyboard/Case the case of letters.
-- - Rtc (driver/rtc.c): `Registers` holds the bytes of the clock; Rtc/Calendar has the calendar.
-- - Perm (syscall/syscall.c): sys_check_entry and sys_check_parent_writable on a task and an entry, and
--   setuid and setgid on a task; Perm/Laws has the proofs.
-- - Str (lib/string.c): `mem` is the bytes, an address is 32 bits; Str/Text has what a C string is, Str/Fill and
--   Str/Copy the proofs.
-- - Probe (fs/probe.c): which file system a device holds; Probe/Numeric compares its numbers with
--   those that the FAT driver takes.
-- - Vfs (fs/vfs.c): devices, mounts and the way from a path to a volume. The volumes of one device share its
--   sectors. A call of the VFS gives `none` where a mount point of 31 characters or more would
--   overrun its storage. Vfs/Listing has the virtual directories; Vfs/Covers, Vfs/Resolve, Vfs/Table and
--   its children have the proofs.
-- - Sys (syscall/syscall.c): the system calls. Sys/Files, Sys/Meta, Sys/Listing and Sys/Dispatch have the calls
--   and syscall_dispatch, in which the calls that only pass on to a driver are the argument
--   `drivers`. A call's result is `eax`. Fat/Keeps, Sys/Disks, Sys/Reading and Sys/Denied have the proofs.
-- - Pit (driver/pit.c): the tick and time slices, on top of the scheduler; `ticks_used` is kept by
--   the PCB's address. Task/Rotation, Pit/Slice and Pit/Fair have the proofs.
-- - Mouse (driver/mouse.c): packets, reports and the pointer on the words of the screen; Base/Int has the
--   integers, Mouse/Screen and Mouse/Packets the proofs.
-- - Vga (driver/vga.c): the cursor, the protected part and the text, in `call`, which has an input for each
--   function of the driver; Vga/Keeps and Vga/Calls have the proofs.
-- - Msc (driver/usb_mass_storage.c): commands to a USB disk and their three attempts, over a `Bus` for the
--   transfers of driver/usb_controller.c. Msc/Scsi is a disk of the SCSI standard that may refuse a
--   command or lose an answer, Msc/Transfer has the proofs.
-- - Idt (syscall/idt.c): the gates; the addresses of the assembly entries are the argument `Handlers`. Idt/Gates
--   has the proof.
-- The Tests modules hold concrete states, tests and instances of the theorems.
--
-- Bounds and fuel. Numbers are natural numbers; `uint32_t` sums, differences and products are cut to 32
-- bits (add32, sub32, mul32). The search of pmm_alloc_contiguous has a round of fuel for each page, and
-- its walk of the free list one more than there are pages; the tag loop and the map loop of pmm_init
-- have one more than the bytes of the table, since a round takes at least four of them. fat_load_file
-- has a round for each byte. The loops of fs/fat.c over a directory's chain end only if the chain does,
-- so their fuel is an argument, and `none` is a run that outlives it.
--
-- A string of the user ends at a zero byte of memory that nothing promises, so its fuel is an argument
-- of the system calls too.
--
-- Not modelled: the boot code and the other assembly, the kernel's main function, the drivers of the
-- ATA disk, the USB controllers, PCI, the interrupt controller and the speaker (port input and output),
-- and the user's shell. An interrupt does not come in the middle of a call. The text that the kernel
-- writes for its own messages and the TLB are left out.
pub mod Base
pub mod Fat
pub mod Idt
pub mod Keyboard
pub mod Mouse
pub mod Msc
pub mod Perm
pub mod Pit
pub mod Pmm
pub mod Probe
pub mod Rtc
pub mod Str
pub mod Sys
pub mod Task
pub mod Vfs
pub mod Vga
pub mod Vmm
