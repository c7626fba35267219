-- ===== src/Kernel/Irq/Wait.antt =====
-- `syscall_irq_wait` (source/kernel/src/kernel/syscall.c). The loop runs against an explicit list of
-- rounds: in each one the loop reads the clock, and the interrupts listed arrive while the thread has
-- yielded. `none` is a call that still waits when the list ends. `sched_get_current_process` returns the
-- address of a slot of the table, which is never NULL, so that the branch on NULL is left out.
use Prim.Native.Nat.{bit_and}
use e_comos.Prelude.{
  ℕ, ◌==◌, Bool, true, false, not, ◌&&◌, Option, none, some, List, [], ◌∷◌, get_or, set, leb,
  if◌then◌else◌,
}
use e_comos.Prelude.Int.{ℤ, pos, negsuc}
use e_comos.Kernel.Sched.{Sched, blocked, thread, sched_get_current_pid, sched_yield}
use e_comos.Kernel.Irq.{
  Irq, max_irqs, find_irq_waiter, add_irq_waiter, remove_irq_waiter, syscall_irq_notify,
  syscall_irq_check_timeouts,
}

pub record Round : Type 0 where
  pub now : ℕ
  pub arrived : List ℕ

abbrev pub irq_wait_clear : ℕ
irq_wait_clear = 1

abbrev pub irq_wait_nowait : ℕ
irq_wait_nowait = 2

abbrev pub has_flag : ℕ → ℕ → Bool
has_flag flags flag = not (bit_and flags flag == 0)

abbrev pub has_occurred : ℕ → Irq → Bool
has_occurred irq_num s = not (get_or s.occurred irq_num 0 == 0)

-- the interrupts arrive one after the other
unfoldable pub notify_all : List ℕ → Irq × Sched → Irq × Sched
notify_all [] st = st
notify_all (i ∷ is) st = notify_all is (syscall_irq_notify i st)

abbrev pub yield : Irq × Sched → Irq × Sched
yield (s, p) = (s, sched_yield p)

-- `if (irq_occurred[irq_num] && (flags & IRQ_WAIT_CLEAR))` and its assignment
abbrev pub clear_flag : ℕ → ℕ → Irq → Irq
clear_flag irq_num flags s =
    if has_occurred irq_num s && has_flag flags irq_wait_clear
    then record s { occurred = set s.occurred irq_num 0 }
    else s

-- the body of the loop once the waiter has been looked up; `again` is the loop after the yield
abbrev pub round_if : Irq × Sched → Option (Irq × Sched) → Option ℕ → Option (Irq × Sched)
round_if st again none = some st
round_if st again (some i) = again

abbrev pub loop_if : Irq × Sched → Option (Irq × Sched) → Bool → Option (Irq × Sched)
loop_if st again true = some st
loop_if st again false = again

-- `while (!irq_occurred[irq_num])`
unfoldable pub wait_loop : ℕ → ℕ → List Round → Irq × Sched → Option (Irq × Sched)
wait_loop pid irq_num [] st = loop_if st none (has_occurred irq_num st.0)
wait_loop pid irq_num (r ∷ rs) st =
    let checked = syscall_irq_check_timeouts r.now st in
    let again = wait_loop pid irq_num rs (notify_all r.arrived (yield checked)) in
    loop_if st (round_if checked again (find_irq_waiter pid irq_num checked.0))
      (has_occurred irq_num st.0)

-- the current thread is blocked on the line
abbrev pub block_on : ℕ → Sched → Sched
block_on irq_num p =
    let t = thread p p.current_thread in
    record p {
      threads =
          set p.threads p.current_thread
            (record t { state = blocked; block_reason = 1; irq_num = irq_num });
    }

abbrev pub is_timeout : ℤ → Bool
is_timeout (pos n) = false
is_timeout (negsuc n) = n == 2

-- the end of the call, for the thread in the slot `me`
unfoldable pub finish : ℕ → ℕ → ℕ → ℕ → Irq × Sched → ℤ × Irq × Sched
finish pid irq_num flags me (s, p) =
    let s1 = remove_irq_waiter pid irq_num (clear_flag irq_num flags s) in
    let t = thread p me in
    if is_timeout t.last_error
    then (negsuc 2, s1, record p { threads = set p.threads me (record t { last_error = pos 0 }) })
    else (pos 0, s1, p)

abbrev pub finish_if : ℕ → ℕ → ℕ → ℕ → Option (Irq × Sched) → Option (ℤ × Irq × Sched)
finish_if pid irq_num flags me none = none
finish_if pid irq_num flags me (some st) = some (finish pid irq_num flags me st)

-- what follows `add_irq_waiter`, whose result is given
abbrev pub wait_added : ℕ → ℕ → ℕ → List Round → Sched → ℤ × Irq → Option (ℤ × Irq × Sched)
wait_added pid irq_num flags rs p (negsuc n, s) = some (negsuc n, s, p)
wait_added pid irq_num flags rs p (pos n, s) =
    finish_if pid irq_num flags p.current_thread (wait_loop pid irq_num rs (s, block_on irq_num p))

unfoldable pub syscall_irq_wait :
    ℕ → ℕ → ℕ → ℕ → List Round → Irq → Sched → Option (ℤ × Irq × Sched)
syscall_irq_wait irq_num flags timeout_ms now rs s p =
    let pid = sched_get_current_pid p in
    if leb max_irqs irq_num
    then some (negsuc 0, s, p)
    else if pid == 0
    then some (negsuc 3, s, p)
    else if has_occurred irq_num s
    then some (pos 0, clear_flag irq_num flags s, p)
    else if has_flag flags irq_wait_nowait
    then some (negsuc 1, s, p)
    else wait_added pid irq_num flags rs p (add_irq_waiter pid irq_num flags timeout_ms now s)
