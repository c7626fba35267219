-- ===== src/Kernel/Main/Tests.antt =====
-- A round of the main loop at a concrete state.
use e_comos.Prelude.{◌≡◌, refl, [], ◌∷◌, replicate, arith}
use e_comos.Kernel.Ipc.{zero_message}
use e_comos.Kernel.Ipc.Refine.{contents}
use e_comos.Kernel.Mm.{boot}
use e_comos.Kernel.Mm.Alloc.{boot-IsValid}
use e_comos.Kernel.Sched.{free_thread}
use e_comos.Kernel.Irq.{max_irq_waiters, no_waiter, syscall_irq_init}
use e_comos.Kernel.Irq.Valid.{syscall_irq_init-IsValid}
use e_comos.Kernel.Main.{Kernel, kernel_round}
use e_comos.Kernel.Main.Round.{IsValid, rotate, kernel_round-IsValid}

-- two messages wait
abbrev pub two_waiting : Kernel
two_waiting = record {
  ipc = record {
    queue =
        record zero_message { type = 1 }
        ∷ record zero_message { type = 2 }
        ∷ replicate 30 zero_message;
    head = 0;
    tail = 2;
  };
  irq = syscall_irq_init record {
    waiters = replicate max_irq_waiters no_waiter;
    num_waiters = 0;
    occurred = [];
    count = [];
  };
  sched = record {
    threads = record free_thread { id = 1 } ∷ replicate 63 free_thread;
    current_thread = 0;
    next_thread_id = 2;
    last_scheduled = 0;
  };
  mm = boot;
  mm_check_counter = 99;
}

pub two_waiting-IsValid : IsValid two_waiting
two_waiting-IsValid = record {
  ipc = record { slots = refl; head_in = omega arith; tail_in = omega arith };
  irq = syscall_irq_init-IsValid _ refl;
  threads = record { slots = refl; current_in = omega arith; last_in = omega arith };
  mm = boot-IsValid;
}

kernel_round-IsValid_example :
    IsValid (kernel_round 7 two_waiting)
    × (contents (kernel_round 7 two_waiting).ipc ≡ rotate (contents two_waiting.ipc))
kernel_round-IsValid_example = kernel_round-IsValid 7 two_waiting two_waiting-IsValid
