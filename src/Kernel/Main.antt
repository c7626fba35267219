-- ===== src/Kernel/Main.antt =====
-- One round of the kernel's main loop (source/kernel/src/kernel/main.c), at the time that the clock shows
-- when the timeouts are checked.
pub mod Round
pub mod Tests
use e_comos.Prelude.{
  ℕ, zero, suc, ◌+◌, ◌%◌, ◌^◌, Option, none, some, List, Bool, ◌&&◌, ltb, ◌==◌, if◌then◌else◌,
}
use e_comos.Prelude.Int.{ℤ}
use e_comos.Prelude.Bitmap.{test_bit}
use e_comos.Kernel.Ipc.{Ipc, Message, ipc_send, ipc_receive}
use e_comos.Kernel.Mm.{Mm, max_pages}
use e_comos.Kernel.Sched.{Sched, sched_schedule}
use e_comos.Kernel.Irq.{Irq, syscall_irq_check_timeouts}

-- The tables of the kernel and `mm_check_counter`.
pub record Kernel : Type 0 where
  pub ipc : Ipc
  pub irq : Irq
  pub sched : Sched
  pub mm : Mm
  pub mm_check_counter : ℕ

abbrev pub forward_if : ℤ × Option Message × Ipc → Ipc
forward_if (rc, none, q) = q
forward_if (rc, some msg, q) = (ipc_send msg.target msg q).1

-- A message that waits is taken and sent to its target.
unfoldable pub forward : Ipc → Ipc
forward q = forward_if (ipc_receive q)

-- `used_pages` after the `n` pages from page `i` on
unfoldable pub count_used : ℕ → ℕ → List ℕ → ℕ
count_used zero i bitmap = 0
count_used (suc n) i bitmap =
    let rest = count_used n (i + 1) bitmap in if test_bit bitmap i then suc rest else rest

-- every 100 rounds, with more than 80 per cent of the pages used, the search starts at page 0 again
unfoldable pub check_pages : ℕ → Mm → Mm
check_pages counter m =
    if counter % 100 == 0 && ltb 3276 (count_used max_pages 0 m.page_bitmap)
    then record m { next_free_page = 0 }
    else m

unfoldable pub kernel_round : ℕ → Kernel → Kernel
kernel_round now k =
    let counter = (k.mm_check_counter + 1) % 2 ^ 32 in
    let (irq, sched) = syscall_irq_check_timeouts now (k.irq, sched_schedule k.sched) in
    record {
      ipc = forward k.ipc;
      irq = irq;
      sched = sched;
      mm = check_pages counter k.mm;
      mm_check_counter = counter;
    }
