-- ===== src/Kernel/Irq.antt =====
-- Waiting for interrupts (the waiter table of source/kernel/src/kernel/syscall.c). `now` is the value of
-- `time_get_current_ms`; a thread is its index in the scheduler's table.
pub mod Valid
pub mod Adding
pub mod Waiters
pub mod Wake
pub mod Release
pub mod Notify
pub mod Wait
pub mod Loop
pub mod Finish
pub mod Returns
mod Tests
use Prim.Native.Nat.{bit_and}
use e_comos.Prelude.{
  ℕ, zero, suc, ◌+◌, ◌-◌, ◌%◌, ◌^◌, Bool, true, false, ◌&&◌, ◌||◌, not, Option, none, some, List,
  [], ◌∷◌, get_or, set, replicate, ltb, leb, ◌==◌, if◌then◌else◌,
}
use e_comos.Prelude.Int.{ℤ, pos, negsuc}
use e_comos.Prelude.Search.{find_from}
use e_comos.Kernel.Sched.{
  Sched, Thread, ThreadState, ready, blocked, running, terminated, free_thread, thread,
  sched_get_process_by_pid, sched_get_current_pid, sched_yield,
}

-- `irq_waiter_t`
pub record Waiter : Type 0 where
  pub pid : ℕ
  pub irq_number : ℕ
  pub flags : ℕ
  pub timeout_ms : ℕ
  pub start_time : ℕ
  pub is_active : Bool

abbrev pub max_irq_waiters : ℕ
max_irq_waiters = 16

abbrev pub max_irqs : ℕ
max_irqs = 16

abbrev pub no_waiter : Waiter
no_waiter = record {
  pid = 0;
  irq_number = 0;
  flags = 0;
  timeout_ms = 0;
  start_time = 0;
  is_active = false;
}

-- `irq_waiters`, `num_waiters`, `irq_occurred` and `irq_occurrence_count`
pub record Irq : Type 0 where
  pub waiters : List Waiter
  pub num_waiters : ℕ
  pub occurred : List ℕ
  pub count : List ℕ

abbrev pub waiter : Irq → ℕ → Waiter
waiter s i = get_or s.waiters i no_waiter

abbrev pub clear_waiter : Waiter → Waiter
clear_waiter w = record w { pid = 0; is_active = false }

-- the loop of `syscall_irq_init` over the waiters
unfoldable pub clear_waiters : List Waiter → List Waiter
clear_waiters [] = []
clear_waiters (w ∷ ws) = clear_waiter w ∷ clear_waiters ws

unfoldable pub syscall_irq_init : Irq → Irq
syscall_irq_init s = record {
  waiters = clear_waiters s.waiters;
  num_waiters = 0;
  occurred = replicate max_irqs 0;
  count = replicate max_irqs 0;
}

abbrev pub waits_for : ℕ → ℕ → Waiter → Bool
waits_for pid irq_num w = w.is_active && (w.pid == pid && w.irq_number == irq_num)

unfoldable pub find_irq_waiter : ℕ → ℕ → Irq → Option ℕ
find_irq_waiter pid irq_num s = find_from (λ i. waits_for pid irq_num (waiter s i)) s.num_waiters 0

abbrev pub new_waiter : ℕ → ℕ → ℕ → ℕ → ℕ → Waiter
new_waiter pid irq_num flags timeout_ms now = record {
  pid = pid;
  irq_number = irq_num;
  flags = flags;
  timeout_ms = timeout_ms;
  start_time = now;
  is_active = true;
}

-- the waiter goes to the slot found, if there is one
abbrev pub put_waiter : Waiter → Irq → Option ℕ → ℤ × Irq
put_waiter w s none = (negsuc 0, s)
put_waiter w s (some i) = (
  pos 0,
  record s {
    waiters = set s.waiters i w;
    num_waiters = if leb s.num_waiters i then i + 1 else s.num_waiters;
  },
)

abbrev pub add_if_new : Waiter → Irq → Option ℕ → ℤ × Irq
add_if_new w s (some i) = (negsuc 1, s)
add_if_new w s none = put_waiter w s (find_from (λ i. not (waiter s i).is_active) max_irq_waiters 0)

unfoldable pub add_irq_waiter : ℕ → ℕ → ℕ → ℕ → ℕ → Irq → ℤ × Irq
add_irq_waiter pid irq_num flags timeout_ms now s =
    add_if_new (new_waiter pid irq_num flags timeout_ms now) s (find_irq_waiter pid irq_num s)

abbrev pub deactivate : ℕ → Irq → Irq
deactivate i s = record s { waiters = set s.waiters i (record (waiter s i) { is_active = false }) }

abbrev pub remove_found : Irq → Option ℕ → Irq
remove_found s none = s
remove_found s (some i) = deactivate i s

unfoldable pub remove_irq_waiter : ℕ → ℕ → Irq → Irq
remove_irq_waiter pid irq_num s = remove_found s (find_irq_waiter pid irq_num s)

abbrev pub err_timeout : ℤ
err_timeout = negsuc 2

abbrev pub is_blocked : ThreadState → Bool
is_blocked blocked = true
is_blocked _ = false

-- A thread that waits is made ready; the error, if any, is left in `last_error`.
abbrev pub awake : Option ℤ → Thread → Thread
awake none t = record t { state = ready; block_reason = 0 }
awake (some e) t = record t { state = ready; block_reason = 0; last_error = e }

abbrev pub wake_found : Option ℤ → Sched → Option ℕ → Sched
wake_found e p none = p
wake_found e p (some k) =
    if is_blocked (thread p k).state
    then record p { threads = set p.threads k (awake e (thread p k)) }
    else p

-- `t = sched_get_process_by_pid(pid); if (t && t->state == THREAD_BLOCKED) ...`
unfoldable pub wake : Option ℤ → ℕ → Sched → Sched
wake e pid p = wake_found e p (sched_get_process_by_pid pid p)

-- the loops of `syscall_irq_notify` and `syscall_irq_check_timeouts`: the waiters that are due, among
-- the `n` from `i` on, are dropped and their threads woken
unfoldable pub release : (Waiter → Bool) → Option ℤ → ℕ → ℕ → Irq × Sched → Irq × Sched
release due e zero i (s, p) = (s, p)
release due e (suc n) i (s, p) = release due e n (i + 1) (
    if (waiter s i).is_active && due (waiter s i)
    then (deactivate i s, wake e (waiter s i).pid p)
    else (s, p))

unfoldable pub syscall_irq_notify : ℕ → Irq × Sched → Irq × Sched
syscall_irq_notify irq_num (s, p) =
    if leb max_irqs irq_num
    then (s, p)
    else release (λ w. w.irq_number == irq_num) none s.num_waiters 0
        (
          record s {
            occurred = set s.occurred irq_num 1;
            count = set s.count irq_num ((get_or s.count irq_num 0 + 1) % 2 ^ 32);
          },
          p,
        )

-- `timeout_ms` is not 0 and has elapsed, on 64-bit times.
abbrev pub is_due : ℕ → Waiter → Bool
is_due now w =
    not (w.timeout_ms == 0) && not (ltb ((now + 2 ^ 64 - w.start_time) % 2 ^ 64) w.timeout_ms)

unfoldable pub syscall_irq_check_timeouts : ℕ → Irq × Sched → Irq × Sched
syscall_irq_check_timeouts now (s, p) =
    release (is_due now) (some err_timeout) s.num_waiters 0 (s, p)

unfoldable pub syscall_irq_get_count : ℕ → Irq → ℤ
syscall_irq_get_count irq_num s =
    if leb max_irqs irq_num then negsuc 0 else pos (get_or s.count irq_num 0)

unfoldable pub syscall_irq_reset_count : ℕ → Irq → ℤ × Irq
syscall_irq_reset_count irq_num s =
    if leb max_irqs irq_num
    then (negsuc 0, s)
    else (pos (get_or s.count irq_num 0), record s { count = set s.count irq_num 0 })
