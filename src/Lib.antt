-- ===== src/Lib.antt =====
-- LOSS-OS, a small 32-bit kernel in C: its ext2 file system, its page frames and page directories,
-- its processes and their scheduler, its interrupts and system calls, the drivers of the keyboard,
-- the clock and the screen, and the user's shell with its commands.
--
-- How the parts interact. The file system (src/filesystem/ext2.c) reaches a disk of 512-byte blocks
-- through `read_blocks` and `write_blocks` and keeps two caches in memory, the superblock and the
-- table of group descriptors. A block or an inode is claimed by a bit in a group's bitmap and by the
-- counters in the caches; an inode lies in its group's table and points to its blocks; a directory's
-- block is a chain of records. `read`, `write` and `delete` work on a request that names an entry of
-- a parent directory. A process (src/process/process.c) takes a slot of the process table, a page
-- directory and two page frames (src/memory/paging.c), and reads its program with `read`; the
-- scheduler (src/process/scheduler.c) switches between the active slots. The interrupt handler
-- (src/cpu/interrupt.c) hands scancodes to the keyboard's driver, timer ticks to the scheduler and
-- system calls to the file system, the processes, the console and the clock. The shell
-- (src/user/user-shell.c) types a line with the characters that system call 4 yields, takes it apart
-- and runs a command (src/commands), which works through the system calls.
--
-- Files and sources.
--   Prelude            tests on numbers, byte memories, little-endian words, single bits, characters
--   Text               src/lib/string.c
--   Ext2.Layout        src/header/filesystem/ext2.h and the arithmetic at the head of
--                      src/filesystem/ext2.c
--   Ext2.Device        the disk and the caches: sync_metadata, sync_node, the loads, the mount
--   Ext2.Bitmap        the search for a clear bit, allocate_node, the claim and release of a block
--   Ext2.Nodes         deallocate_node, deallocate_blocks
--   Ext2.Content       allocate_node_blocks
--   Ext2.Directory     init_directory_table, the walk through a directory, is_directory_empty
--   Ext2.Format        create_ext2, is_empty_storage, initialize_filesystem_ext2
--   Ext2.Read, Write, Delete, Path
--                      read and read_directory, write, delete, get_inode_for_path
--   Paging             src/memory/paging.c
--   Process            src/process/process.c
--   Process.Scheduler  src/process/scheduler.c
--   Drivers.Font, Graphics, Keyboard, Console, Clock
--                      src/header/lib/font.h; graphics.c, keyboard.c, console.c and cmos.c of
--                      src/drivers
--   Cpu.Descriptors    src/cpu/gdt.c and src/cpu/idt.c
--   Cpu.Controller, Kernel, SystemCalls, Interrupts
--                      src/cpu/interrupt.c: the interrupt controller, the state, syscall, the handler
--   Cpu.Decimal        itoa of src/cpu/interrupt.c
--   Shell              the system calls as a command sees them
--   Shell.Entries, Remove
--                      src/commands/rm.c: the search of a directory, rm
--   Shell.Copy         src/commands/cp.c and mv.c
--   Shell.Files        ls.c, mkdir.c, touch.c, cat.c, echo.c, exec.c and kill.c of src/commands
--   Shell.Find, Paths  src/commands/find.c; src/commands/cd.c
--   Shell.Tokens, Commands
--                      src/user/user-shell.c: the arguments; the command line, the commands, the path
-- Under each stand the modules with its lemmas, named for what they are about.
--
-- State and operations. The static variables of a file are one record (`Fs`, `Paging`,
-- `ProcessTable`, `KeyboardDriverState`, `Console`), and an operation takes the record and returns the
-- new one with its answer. `Machine` joins the file system, the pages and the processes; `Kernel` adds
-- the console and what was written to ports; `Session` is what the shell sees: the machine and the
-- texts that were printed. The search for a free block, which src/filesystem/ext2.c writes out eight
-- times, is one function, and so is the release of a block, written out seven times, and the walk
-- through a directory that rm.c, cp.c and find.c share. An uninitialised buffer holds `stack`, an
-- uninitialised word `junk`: a read of one block fills the first 512 bytes of a buffer and leaves the
-- rest, a system call stores one byte of a word. A pointer to a process or to a page directory is an
-- index; a write past the end of a table is kept at its index. The chip of the clock is an argument:
-- the samples that the passes over its registers yield. The caller's memory is read through
-- `UserMemory`, and what a system call stores there is a list of `Store`s, which is not applied to the
-- kernel's own state: the source stores through the caller's addresses unchecked.
--
-- Bounds and fuel. Counters wrap at 16 or 32 bits where they are written. A walk through a directory
-- block has fuel for 512 records; each record of a well-formed block takes nine bytes at least, so
-- this is enough. The shell's walks have one round more than their buffer has bytes, 8193, a record
-- has one byte at least, and a walk that goes on after its rounds has no answer. The recursions of rm, cp, mv and find into a tree take fuel for its depth,
-- which the source bounds by its stack alone. The scheduler's loop is given one round of 16 slots,
-- itoa its ten digits. The loops over bitmaps, pointers, groups, pixels and arguments are structural
-- in the number of rounds that the source allows. A string is looked at for as many bytes as its
-- reader is given; without a terminator there it is none. The constants are those that the
-- preprocessor yields: `GROUPS_COUNT` has no parentheses of its own, so a group has 256 blocks.
--
-- Not modelled: port and disk I/O, the flush of the TLB and loads of control registers, the set-up of
-- the timer and its waits, the text mode of src/drivers/framebuffer.c, the set-up of the screen's
-- registers, the picture that flex draws and what clear and ps draw when the shell runs them, the
-- start of the kernel in src/kernel.c, the programs under src/external, and `deallocate_block`, which
-- nothing calls.
pub mod Prelude
pub mod Text
pub mod Cpu
pub mod Drivers
pub mod Ext2
pub mod Paging
pub mod Process
pub mod Shell
