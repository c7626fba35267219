-- ===== src/Kernel/Sched/Tests.antt =====
-- The scheduler at concrete inputs.
use e_comos.Prelude.{ℕ, suc, ◌<◌, ◌≡◌, refl, ◌∷◌, replicate, arith}
use e_comos.Kernel.Mm.{boot}
use e_comos.Kernel.Mm.Alloc.{boot-IsValid}
use e_comos.Kernel.Sched.{
  Sched, ready, blocked, max_threads, free_thread, thread, sched_schedule, preempted, switch_to,
  find_next, sched_create_thread,
}
use e_comos.Kernel.Sched.Valid.{IsValid}
use e_comos.Kernel.Sched.Fair.{schedule_times, no_starvation, blocked_thread_readied}
use e_comos.Kernel.Sched.Create.{CreateSpec, sched_create_thread-CreateSpec}

-- thread 1 blocked and current, thread 2 ready, in the slots 0 and 1
abbrev two_threads : Sched
two_threads = record {
  threads =
      record free_thread { id = 1; state = blocked }
      ∷ record free_thread { id = 2 }
      ∷ replicate 62 free_thread;
  current_thread = 0;
  next_thread_id = 3;
  last_scheduled = 0;
}

two_threads-IsValid : IsValid two_threads
two_threads-IsValid = omega arith

second_runs : (sched_schedule two_threads).current_thread ≡ 1
unfolding sched_schedule find_next switch_to preempted
second_runs = refl

no_starvation_example :
    (m : ℕ) × (m < max_threads) × ((schedule_times (suc m) two_threads).current_thread ≡ 1)
no_starvation_example = no_starvation 1 two_threads two_threads-IsValid (omega arith) refl

blocked_thread_readied_example : (thread (sched_schedule two_threads) 0).state ≡ ready
blocked_thread_readied_example =
    blocked_thread_readied 1 two_threads two_threads-IsValid refl (omega arith) (omega arith) refl

sched_create_thread-CreateSpec_example :
    CreateSpec 0x20_0000 two_threads boot (sched_create_thread 0x20_0000 two_threads boot)
sched_create_thread-CreateSpec_example =
    sched_create_thread-CreateSpec 0x20_0000 two_threads boot two_threads-IsValid boot-IsValid
