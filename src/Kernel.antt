-- ===== src/Kernel.antt =====
-- The microkernel (source/kernel): message queue, page allocator, scheduler, interrupt waiters and
-- the system call dispatcher, one module for each C file.
pub mod Ipc
pub mod Mm
pub mod Sched
pub mod Irq
pub mod Registry
pub mod Main
pub mod Handler
