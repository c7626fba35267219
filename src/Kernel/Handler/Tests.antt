-- ===== src/Kernel/Handler/Tests.antt =====
-- Runs of the dispatcher at a concrete state.
use e_comos.Prelude.{◌≡◌, refl, some, []}
use e_comos.Prelude.Int.{negsuc}
use e_comos.Kernel.Main.{Kernel, kernel_round}
use e_comos.Kernel.Main.Round.{IsValid}
use e_comos.Kernel.Main.Tests.{two_waiting, two_waiting-IsValid}
use e_comos.Kernel.Ipc.{ipc_receive}
use e_comos.Kernel.Irq.{syscall_irq_notify}
use e_comos.Kernel.Handler.{Messages, sys_ipc_receive, syscall_handler}
use e_comos.Kernel.Handler.Runs.{Step, Reach, interrupted, Reach-IsValid}
use e_comos.Kernel.Ipc.{zero_message}

abbrev outbox : Messages
outbox a = record zero_message { type = a }

-- a round, the interrupt of line 3 and a receive
abbrev after_round : Kernel
after_round = kernel_round 7 two_waiting

abbrev after_interrupt : Kernel
after_interrupt =
    interrupted after_round (syscall_irq_notify 3 (after_round.irq, after_round.sched))

Reach-IsValid_example :
    IsValid (record after_interrupt { ipc = (ipc_receive after_interrupt.ipc).2 })
unfolding syscall_handler
Reach-IsValid_example = Reach-IsValid two_waiting-IsValid (
    Reach.step (Reach.step (Reach.step Reach.start (Step.round 7)) (Step.interrupt 3))
      (Step.call 8 [] sys_ipc_receive 12 0 0 outbox refl))

-- a number that no call has
unknown_call :
    syscall_handler 8 [] 1001 4 0 0 outbox two_waiting ≡ some (negsuc 0, outbox, two_waiting)
unfolding syscall_handler
unknown_call = refl
