-- ===== src/Lib.antt =====
-- Verification of the kernel of koiz-os, a 32-bit hobby operating system (kernel/).
--
-- Parts, and how they interact. All parts share one flat physical memory (`Kernel.Memory`), a
-- function from addresses to bytes with little-endian 32-bit accesses. A call returns a `Result`
-- (`Kernel`): a value with the new state, one of the kernel's panics, or `diverge`, a loop that does
-- not end. Numbers are native; `uint32_t` arithmetic wraps by `add32`, `sub32`, `mul32`
-- (`Base.Word`).
--
-- - Pmem (kernel/drivers/memory/pmem.c): hands out pages of 4096 bytes. `Pmem` is the record of its
--   static variables and the memory; `initialize`, `alloc`, `free`, `ptr_to_entry`, `entry_to_ptr`,
--   `set_mbd`, `isinit`, `list_info` are the functions of that name with the prefix `pmem_`.
--   Pmem/Valid has the invariant.
-- - Malloc (kernel/libc/malloc.c): seven slabs over Pmem; `malloc`, `free`, `free_ptr_slab`,
--   `alloc_new_page_if_needed`, `kmemlist`. `choose_slab` and `take_entry` are the loops of `malloc`.
--   Malloc/Valid has the invariant of a slab, Malloc/Heap that of the whole state.
-- - Vmem (kernel/drivers/memory/vmem.c): page tables in pages of Pmem; `ptable_new`, `init` and
--   `get_phys_addr` are the functions with the prefix `vmem_`.
-- - Ramdisk (kernel/drivers/ramdisk/ramdisk.c): a disk over pages of Pmem; `init`, `destroy`, `read`,
--   `write`, and `check`, `read_bytes`, `write_bytes` for `ramdisk_internal_io`. Ramdisk/Access has
--   the condition on its pages, that they do not overlap.
-- - Stdio (kernel/libc/stdio.c): the ring buffers of the standard streams, over a page of Pmem. What
--   `vga_print_screen_char` receives is kept as a list.
-- - Strings (kernel/libc/string.c): the C strings and blocks of memory.
-- - Stdlib (kernel/libc/stdlib.c): `print_uint_to_string` as the characters it prints, and the byte
--   swaps. Stdlib/Streams has the functions on the standard input and output, over Stdio;
--   Stdlib/Format has `printf`, as the list of calls of `std_print` and `std_error` that it makes;
--   Stdlib/Console has these two, over Serial and the output stream.
-- - Serial (kernel/drivers/serial/serial.c): the serial line; `init`, `write`, `write_string`, `read`
--   and the others are the functions with the prefix `serial_`. What the device answers is an
--   argument, a function of the port and of how many reads there were.
-- - Tss (kernel/drivers/tss/tss.c): the task state segment and its descriptor, as bytes in memory.
-- - Shell (kernel/shell/shell.c): `update` is `shell_update`, with the characters of the standard
--   input as a list; `execute_command` is `shell_execute_command`, with `split_loop` for the loop
--   that splits the line and `find_command` for the one that looks its command up. The two buffers
--   and the strings lie in memory. A write behind an array is the result `overrun`. Shell/Answer
--   lists the functions by the names that are typed and says how a line is answered; Shell/Writing
--   composes the typed line with Commands, Fs and Fat16.
-- - Commands (kernel/shell/filesystem, kernel/shell/memory, kernel/shell/process): the commands of
--   the shell over a `World` of disk, memory, heap, processes and scheduler. `Output` keeps what is
--   printed; how it gets to the screen is the matter of Stdlib and Stdio.
-- - Keyboard (kernel/drivers/input/keyboard.c): the handler of the keyboard's interrupt, from a scan
--   code to the standard input. Keyboard/Keys has the keyboard row by row.
-- - Fat16 (kernel/fs/ramdisk_fat16.c): a file system with one directory on the Ramdisk; `format`,
--   `filename_to_native`, `file_exists`, `file_read`, `file_write`, `list_info`, `init`, `destroy` are
--   the functions with the prefix `ramdisk_fat16_`. What an uninitialised variable holds is an
--   argument (`junk`), and so is the boot record. Fat16/Record has the bytes of a directory entry,
--   Fat16/Device the view of the disk as an array of bytes. The lookup of a name goes through
--   `memcmp`, which returns 0 whenever no byte of the second block is larger, so a name can find the
--   entry of another file: Fat16/Lookup says in bytes which entry matches a name.
-- - Fs (kernel/fs/fs.c): the calls of the file system, and the file that is loaded at the start.
-- - Process (kernel/drivers/process/process.c): the table of processes; a pointer to a process is
--   its number. Process/Execve has `process_execve`, over Fs, Pmem and Sched.
-- - Sched (kernel/drivers/process/sched.c): the scheduler, with its three linked lists in an array;
--   a pointer is the number of an entry. `sched_update` is `update`, cut at its comments into `charge`,
--   `demote`, `unlink`, `push`, `choose` and `next_in_line`. Sched/Queues says in lists what the
--   scheduler promises, and Sched/Reach has the states that calls in any order lead to.
-- - Interrupts (kernel/drivers/irq/idt_setup.c, kernel/drivers/irq/pic.c): the interrupt table, with
--   the addresses of the assembler's handlers as an argument, and the bytes that are written to the
--   ports of the two controllers, in order.
-- - Vga (kernel/drivers/video/vga.c): the text screen in memory. The bytes exchanged with the
--   hardware for the cursor are arguments and results.
-- - Base: notation, list and arithmetic lemmas. `Base.Bits` has the bit operations, `Base.Cycle` the
--   steps around a ring.
--
-- Bounds and fuel. A counted loop is a recursion on the rounds left. The search of `pmem_alloc` has
-- one round more than there are records, the search of `malloc` one for each entry, the flush of a
-- buffer one more than its size, and `strlen`, `strcmp` and the reading of a string one for each
-- address. The wait of the serial line takes its fuel as an argument. A walk along a list
-- of Sched has one round more than there are processes, and the loop of `ramdisk_fat16_file_write` one
-- for each full cluster and one more. The theorems on these functions show that a run does not get
-- that far, for the last one with files of one cluster.
--
-- Not modelled: what is printed for debugging; source buffers that overlap the pages of the disk, as
-- the bytes that `ramdisk_write` stores, and the contents that the command `write` stores, are a list
-- that is read before the disk changes; the calls of `std_print_char` one by one, as `printf` joins the
-- digits of a number in one text; the assembler (boot, gdt, interrupts, user mode, the
-- load of the page directory, the port accesses); the order of the start in kernel_main.c, a fixed
-- sequence of calls among the self tests; the handler of system calls, which has no body; the self
-- tests; old_code, an earlier version of the kernel. The
-- memory map of the boot loader is a list of its entries. A 64-bit region is read through its low
-- words, as pmem.c does.
pub mod Base
pub mod Commands
pub mod Tss
pub mod Serial
pub mod Shell
pub mod Kernel
pub mod Pmem
pub mod Malloc
pub mod Vmem
pub mod Ramdisk
pub mod Stdio
pub mod Strings
pub mod Stdlib
pub mod Fat16
pub mod Fs
pub mod Process
pub mod Sched
pub mod Interrupts
pub mod Vga
pub mod Keyboard
