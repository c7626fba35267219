-- ===== src/Kernel/Handler/Runs.antt =====
-- Any sequence of rounds of the main loop, interrupts, system calls and new threads.
use mathlib.Core.Path.{subst}
use e_comos.Prelude.{
  ℕ, ◌%◌, ◌^◌, ◌≡◌, refl, inl, inr, sym, ◌∙◌, Option, none, some, List, ◌==◌, if_true, if_false,
  Bool-cases, length-set,
}
use e_comos.Prelude.Int.{ℤ}
use e_comos.Kernel.Mm.{Mm, mm_alloc_page, store}
use e_comos.Kernel.Mm.Trace.{mm_alloc_page-IsValid}
use e_comos.Kernel.Sched.{
  Sched, claimed, create_in, create_if, is_vacant, find_thread, stack_top, sched_create_thread,
}
use e_comos.Kernel.Sched.Valid
use e_comos.Kernel.Irq.{Irq, syscall_irq_notify}
use e_comos.Kernel.Irq.Loop.{notify-Good}
use e_comos.Kernel.Irq.Wait.{Round}
use e_comos.Kernel.Main.{Kernel, kernel_round}
use e_comos.Kernel.Main.Round.{IsValid, kernel_round-IsValid}
use e_comos.Kernel.Handler.{Messages, syscall_handler}
use e_comos.Kernel.Handler.Calls.{After, syscall_handler-After, same_bitmap}

-- The tables after an interrupt and after `sched_create_thread`.
abbrev pub interrupted : Kernel → Irq × Sched → Kernel
interrupted k (irq, sched) = record k { irq = irq; sched = sched }

abbrev pub created : Kernel → ℤ × Sched × Mm → Kernel
created k (rc, sched, mm) = record k { sched = sched; mm = mm }

-- One event of the running kernel.
pub data Step (k : Kernel) : Kernel → Type 0 where
  round : (now : ℕ) → Step k (kernel_round now k)
  interrupt : (irq_num : ℕ) → Step k (interrupted k (syscall_irq_notify irq_num (k.irq, k.sched)))
  create : (entry_point : ℕ) → Step k (created k (sched_create_thread entry_point k.sched k.mm))
  call :
      (now : ℕ) (rs : List Round) (syscall_num arg1 arg2 arg3 : ℕ) (msgs : Messages) {rc : ℤ}
      {msgs' : Messages} {k' : Kernel}
      → syscall_handler now rs syscall_num arg1 arg2 arg3 msgs k ≡ some (rc, msgs', k')
      → Step k k'

pub data Reach (k : Kernel) : Kernel → Type 0 where
  start : Reach k k
  step : {k1 k2 : Kernel} → Reach k k1 → Step k1 k2 → Reach k k2

-- What a new thread keeps.
record Made (r : ℤ × Sched × Mm) : Type 0 where
  threads : Valid.IsValid r.1
  mm : e_comos.Kernel.Mm.Alloc.IsValid r.2

claimed-IsValid : (i : ℕ) (s : Sched) → Valid.IsValid s → Valid.IsValid (claimed i s)
claimed-IsValid i s l = record {
  slots = length-set s.threads i _ ∙ l.slots;
  current_in = l.current_in;
  last_in = l.last_in;
}

create_in-Made :
    (entry_point i : ℕ) (s : Sched) (m : Mm)
    → Valid.IsValid s
    → e_comos.Kernel.Mm.Alloc.IsValid m
    → Made (create_in entry_point i s m)
unfolding create_in
create_in-Made entry_point i s m l v = elim (Bool-cases ((mm_alloc_page m).0 == 0)) [
  | inl full ↦
      subst Made (sym (if_true _ _ full)) record { threads = claimed-IsValid i s l; mm = allocated }
  | inr fits ↦ subst Made (sym (if_false _ _ fits)) record {
    threads = record {
      slots = length-set (claimed i s).threads i _ ∙ (claimed-IsValid i s l).slots;
      current_in = l.current_in;
      last_in = l.last_in;
    };
    mm =
        same_bitmap
          (record (mm_alloc_page m).1 {
            mem =
                store (mm_alloc_page m).1.mem (stack_top (mm_alloc_page m).0)
                  (entry_point % 2 ^ 32);
          })
          allocated refl refl;
  }
]
  where
    allocated : e_comos.Kernel.Mm.Alloc.IsValid (mm_alloc_page m).1
    allocated = mm_alloc_page-IsValid m v

sched_create_thread-Made :
    (entry_point : ℕ) (s : Sched) (m : Mm)
    → Valid.IsValid s
    → e_comos.Kernel.Mm.Alloc.IsValid m
    → Made (sched_create_thread entry_point s m)
unfolding sched_create_thread
sched_create_thread-Made entry_point s m l v = go (find_thread is_vacant s.threads)
  where
    go : (o : Option ℕ) → Made (create_if entry_point s m o)
    go none = record { threads = l; mm = v }
    go (some i) = create_in-Made entry_point i s m l v

Step-IsValid : {k k' : Kernel} → IsValid k → Step k k' → IsValid k'
Step-IsValid v (Step.round now) = (kernel_round-IsValid now _ v).0
Step-IsValid {k} v (Step.interrupt i) =
    let g = notify-Good i (k.irq, k.sched) record { table = v.irq; threads = v.threads } in
    record { ipc = v.ipc; irq = g.table; threads = g.threads; mm = v.mm }
Step-IsValid {k} v (Step.create entry_point) =
    let made = sched_create_thread-Made entry_point k.sched k.mm v.threads v.mm in
    record { ipc = v.ipc; irq = v.irq; threads = made.threads; mm = made.mm }
Step-IsValid {k} v (Step.call now rs num a b c msgs e) =
    subst After e (syscall_handler-After now rs num a b c msgs k v)

-- From a kernel whose tables are well formed, every sequence of rounds of the main loop, interrupts of any
-- line, system calls of any number with any arguments, and new threads, leaves every table well formed: the
-- message ring, the interrupt table, the page bitmap, and the scheduler, whose indices of the current thread
-- and of the last one scheduled stay inside its table of 64 slots.
pub Reach-IsValid : {k k' : Kernel} → IsValid k → Reach k k' → IsValid k'
Reach-IsValid v Reach.start = v
Reach-IsValid v (Reach.step r s) = Step-IsValid (Reach-IsValid v r) s
