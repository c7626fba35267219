-- ===== src/Kernel/Irq/Tests.antt =====
-- The waiter table at concrete inputs.
use e_comos.Prelude.{◌≡◌, refl, some, List, [], ◌∷◌, replicate}
use e_comos.Prelude.Int.{ℤ}
use e_comos.Kernel.Sched.{Sched, blocked, free_thread}
use e_comos.Kernel.Irq.{
  Irq, Waiter, max_irq_waiters, no_waiter, clear_waiters, new_waiter, find_irq_waiter,
  syscall_irq_init, add_irq_waiter, syscall_irq_notify,
}
use e_comos.Prelude.Search.{find_from}
use e_comos.Kernel.Irq.Valid.{IsValid, syscall_irq_init-IsValid}
use e_comos.Kernel.Irq.Adding.{AddSpec, add_irq_waiter-AddSpec}
use e_comos.Kernel.Irq.Notify.{NotifySpec, syscall_irq_notify-NotifySpec}
use e_comos.Kernel.Irq.Wait.{Round}

abbrev quiet : Irq
quiet = syscall_irq_init record {
  waiters = replicate max_irq_waiters no_waiter;
  num_waiters = 9;
  occurred = [];
  count = [];
}

quiet-IsValid : IsValid quiet
quiet-IsValid = syscall_irq_init-IsValid _ refl

-- thread 1 waits on line 3, for 5 ms from 100 on
abbrev one_waiter : Irq
one_waiter = (add_irq_waiter 1 3 1 5 100 quiet).1

add-IsValid : {w : Waiter} {s : Irq} {r : ℤ × Irq} → IsValid s → AddSpec w s r → IsValid r.1
add-IsValid v (AddSpec.already h) = v
add-IsValid v (AddSpec.full new h) = v
add-IsValid v (AddSpec.added i s' new a) = a.valid

one_waiter-IsValid : IsValid one_waiter
one_waiter-IsValid =
    add-IsValid quiet-IsValid (add_irq_waiter-AddSpec 1 3 1 5 100 quiet quiet-IsValid)

one_waiter_found : find_irq_waiter 1 3 one_waiter ≡ some 0
unfolding find_irq_waiter add_irq_waiter syscall_irq_init find_from clear_waiters
one_waiter_found = refl

-- thread 1, blocked and current
abbrev one_blocked : Sched
one_blocked = record {
  threads = record free_thread { id = 1; state = blocked } ∷ replicate 63 free_thread;
  current_thread = 0;
  next_thread_id = 2;
  last_scheduled = 0;
}

add_irq_waiter-AddSpec_example :
    AddSpec (new_waiter 1 3 1 5 100) quiet (add_irq_waiter 1 3 1 5 100 quiet)
add_irq_waiter-AddSpec_example = add_irq_waiter-AddSpec 1 3 1 5 100 quiet quiet-IsValid

syscall_irq_notify-NotifySpec_example :
    NotifySpec 3 one_waiter one_blocked (syscall_irq_notify 3 (one_waiter, one_blocked))
syscall_irq_notify-NotifySpec_example =
    syscall_irq_notify-NotifySpec 3 one_waiter one_blocked one_waiter-IsValid refl

-- the interrupt arrives in the second round
abbrev two_rounds : List Round
two_rounds = record { now = 101; arrived = 4 ∷ [] } ∷ record { now = 102; arrived = 3 ∷ [] } ∷ []
