-- ===== src/Lib.antt =====
-- E-comOS: a verification library for the operating system's C code.
--
-- The kernel is a set of static tables and functions on them. A table is a record, a function that
-- changes it returns the new record beside its result, and a pointer into a table is an index. Numbers
-- are natural numbers; the wrap-around of a 32-bit or 64-bit word is written out where the code can
-- reach it. Loops over tables are structural recursion on the table's size, so that no fuel is needed.
--
-- source/kernel
-- * Kernel.Ipc (src/ipc/ipc.c): the queue of 32 messages that all threads share; `ipc_send`,
--   `ipc_receive`, `ipc_send_msg`, `ipc_receive_msg`. Kernel.Ipc.Fifo is the queue it implements.
-- * Kernel.Mm (src/mm/mm.c): the bitmap of 4096 pages, the page tables in a memory of 32-bit words
--   that is a function of the address, and the control registers. `mm_alloc_page`, `mm_free_page`,
--   `init_page_tables`, `mm_map_page`, `mm_get_page_directory`, `mm_enable_paging`. The static variables of
--   the kernel are taken to lie outside the memory that the pages cover: the records and that memory do not
--   overlap. uefi.ld links the kernel to the start of that memory, and mm.c reserves no page, so that a kernel
--   loaded there does not meet this condition.
-- * Kernel.Sched (src/sched/sched.c): 64 threads; `sched_create_thread`, which takes a page of Kernel.Mm
--   for the stack, `sched_schedule`, `sched_yield` and the look-ups.
-- * Kernel.Irq (src/kernel/syscall.c): the waiters for interrupts, the flags and counters of the 16
--   lines. A notification and a timeout wake threads of Kernel.Sched. Kernel.Irq.Wait is
--   `syscall_irq_wait`: its loop runs against a list of rounds, each with the clock's value and the
--   interrupts that arrive while the thread has yielded, and a call that still waits at the end of the
--   list has no result.
-- * Kernel.Registry (src/kernel/init.c): the service table and one round of `init_loop`, whose system
--   calls are the functions of Kernel.Ipc and Kernel.Sched.
-- * Kernel.Main (src/kernel/main.c): one round of the main loop, on all the tables.
-- * Kernel.Handler (src/kernel/syscall.c, include/kernel/syscall.h): `syscall_handler`, the dispatcher of the
--   system calls, on all the tables. Kernel.Handler.Runs is the running kernel: the rounds of the main loop,
--   interrupts, system calls and new threads, in any order.
--
-- source/fcef
-- * Fcef (src/format/fcef_validator.c, include/fcef.h, and fcef_update_crc32 of
--   src/format/fcef_writer.c): the headers, the checksum, `fcef_validate` and `fcef_load_segment` over the
--   bytes of a file. Memory is a function of the address; a read past the file has no result.
-- * Fcef.Reader (src/format/fcef_reader.c): the tables and the strings of an open file.
--
-- source/fs
-- * Fs.Wm2ud (src/wm2ud/wm2ud_page.c, wm2ud_format of src/wm2ud/wm2ud_core.c, include/wm2ud/wm2ud.h): the
--   page table of the swap area with its operations, over a device (src/common/block_device.c) that says for
--   each block what a read gives, if it succeeds, and whether a write succeeds. A search has one round of fuel for each entry; one that has not stopped then
--   never stops, and has no result. The mount is left out, since it reads a block over the end of the
--   superblock.
--
-- * Fs.Nefs (src/nefs/nefs_core.c, src/nefs/nefs_file.c, include/nefs/nefs.h): `nefs_format`, which has a
--   result of its own for a write behind the end of a bitmap without bytes, the bitmaps, the direct, indirect and double indirect blocks of a file. Fs.Nefs.Files has the inodes as the bytes of a block, the
--   checksum, `nefs_create_file`, `nefs_write_file` and `nefs_read_file`. A device answers or fails for each block,
--   reads and writes apart; block numbers are small enough that their byte offsets fit the type of an offset. What
--   `malloc` leaves in a buffer is an argument. A loop has a round of fuel for each byte and one more; each round
--   passes at least a byte. `nefs_mount` and `nefs_unmount` are left out.
--
-- source/eclib
-- * Eclib.Memory (src/utils/utils.c): `eclib_memcpy`, `eclib_memmove` and `eclib_memset`, on a memory that
--   is a function of the address.
-- * Eclib.Strings (src/utils/utils.c): the functions that read strings, which are lists of bytes.
-- * Eclib.Format (src/utils/utils.c): `eclib_snprintf`, with the arguments as a list. The loop that
--   divides a number has the 32 rounds that the array of digits has room for; a 32-bit number needs ten.
--
-- source/eclc
-- * Eclc.Token (include/eclc/token.h and src/frontend/lexer.c): tokens and the growing array of a stream.
-- * Eclc.Lexer (src/frontend/lexer.c): `tokenize` over the bytes of a source. Its main loop has one round
--   of fuel for each byte and one more; each round passes a byte, so that this is enough. A read behind
--   the terminator has no result.
-- * Eclc.Parser (src/frontend/parser.c, include/eclc/ast.h): the parser, each function of the tokens and
--   the position. Eclc.Parser.Compile puts the lexer and the parser together.
--
-- Not modelled: interrupt and descriptor set-up (privileged instructions), output to the screen, boot
-- loader, the file system efs, the rest of the reader and of the writer of executables, the allocator
-- and the service calls of the C library, the options and files of the compiler, terminal toolkit, the
-- Rust and Java projects, and the vendored GNU make.
pub mod Prelude
pub mod Kernel
pub mod Fcef
pub mod Fs
pub mod Eclib
pub mod Eclc
