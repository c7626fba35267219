-- ===== src/Kernel/Handler.antt =====
-- The dispatcher of the system calls (`syscall_handler` in source/kernel/src/kernel/syscall.c). The caller's
-- message structures are a function of their address, and do not overlap. `now` and the rounds are those
-- of `syscall_irq_wait`. `none` is a call that still waits when the rounds end.
pub mod Calls
pub mod Runs
mod Tests
use e_comos.Prelude.{ℕ, ◌%◌, Option, none, some, List, ◌==◌, if◌then◌else◌}
use e_comos.Prelude.Int.{ℤ, pos, negsuc}
use e_comos.Kernel.Ipc.{Ipc, Message, ipc_send, ipc_receive}
use e_comos.Kernel.Mm.{Mm, mm_map_page}
use e_comos.Kernel.Sched.{Sched, sched_yield}
use e_comos.Kernel.Irq.{Irq, syscall_irq_get_count, syscall_irq_reset_count}
use e_comos.Kernel.Irq.Wait.{Round, syscall_irq_wait}
use e_comos.Kernel.Main.{Kernel}

abbrev pub sys_ipc_send : ℕ
sys_ipc_send = 1

abbrev pub sys_ipc_receive : ℕ
sys_ipc_receive = 2

abbrev pub sys_thread_yield : ℕ
sys_thread_yield = 3

abbrev pub sys_address_map : ℕ
sys_address_map = 4

abbrev pub sys_irq_wait : ℕ
sys_irq_wait = 5

abbrev pub sys_irq_get_count : ℕ
sys_irq_get_count = 6

abbrev pub sys_irq_reset_count : ℕ
sys_irq_reset_count = 7

-- the messages at the caller's addresses
abbrev pub Messages : Type 0
Messages = ℕ → Message

-- `*msg = ...`, where a message was received
abbrev pub store_message : ℕ → Option Message → Messages → Messages
store_message addr none msgs a = msgs a
store_message addr (some msg) msgs a = if addr == a then msg else msgs a

abbrev pub Outcome : Type 0
Outcome = Option (ℤ × Messages × Kernel)

-- The results of the functions that are called, with the kernel after them.
abbrev pub sent : Messages → Kernel → ℤ × Ipc → Outcome
sent msgs k (rc, ipc) = some (rc, msgs, record k { ipc = ipc })

abbrev pub received : ℕ → Messages → Kernel → ℤ × Option Message × Ipc → Outcome
received addr msgs k (rc, msg, ipc) = some (rc, store_message addr msg msgs, record k { ipc = ipc })

abbrev pub mapped : Messages → Kernel → ℤ × Mm → Outcome
mapped msgs k (rc, mm) = some (rc, msgs, record k { mm = mm })

abbrev pub waited : Messages → Kernel → Option (ℤ × Irq × Sched) → Outcome
waited msgs k none = none
waited msgs k (some (rc, irq, sched)) = some (rc, msgs, record k { irq = irq; sched = sched })

abbrev pub counted : Messages → Kernel → ℤ × Irq → Outcome
counted msgs k (rc, irq) = some (rc, msgs, record k { irq = irq })

unfoldable pub syscall_handler : ℕ → List Round → ℕ → ℕ → ℕ → ℕ → Messages → Kernel → Outcome
syscall_handler now rs syscall_num arg1 arg2 arg3 msgs k =
    if syscall_num == sys_ipc_send
    then sent msgs k (ipc_send arg1 (msgs arg2) k.ipc)
    else if syscall_num == sys_ipc_receive
    then received arg1 msgs k (ipc_receive k.ipc)
    else if syscall_num == sys_thread_yield
    then some (pos 0, msgs, record k { sched = sched_yield k.sched })
    else if syscall_num == sys_address_map
    then mapped msgs k (mm_map_page arg1 arg2 arg3 k.mm)
    else if syscall_num == sys_irq_wait
    then waited msgs k (syscall_irq_wait (arg1 % 256) (arg2 % 256) arg3 now rs k.irq k.sched)
    else if syscall_num == sys_irq_get_count
    then some (syscall_irq_get_count (arg1 % 256) k.irq, msgs, k)
    else if syscall_num == sys_irq_reset_count
    then counted msgs k (syscall_irq_reset_count (arg1 % 256) k.irq)
    else some (negsuc 0, msgs, k)
