-- ===== src/Kernel/Sched.antt =====
-- The round-robin scheduler (source/kernel/src/sched/sched.c, source/kernel/include/kernel/sched.h).
-- A pointer to a thread is its index in `threads`. Creating a thread takes a page, so that it also
-- changes the allocator's state and memory.
pub mod Valid
pub mod Pick
pub mod Schedule
pub mod Fair
pub mod Create
mod Tests
use e_comos.Prelude.{
  ℕ, zero, suc, ◌+◌, ◌-◌, ◌%◌, ◌^◌, Bool, true, false, ◌&&◌, ◌||◌, not, Option, none, some, List,
  get_or, set, ltb, ◌==◌, if◌then◌else◌,
}
use e_comos.Prelude.Int.{ℤ, pos, negsuc}
use e_comos.Prelude.Search.{find_from}
use e_comos.Kernel.Mm.{Mm, page_size, mm_alloc_page, store}

-- `thread_state_t`
pub data ThreadState : Type 0 where
  ready running blocked terminated : ThreadState

-- `struct thread`; `irq_num` is the one member of its union.
pub record Thread : Type 0 where
  pub id : ℕ
  pub state : ThreadState
  pub stack_ptr : ℕ
  pub priority : ℕ
  pub block_reason : ℕ
  pub last_error : ℤ
  pub irq_num : ℕ

abbrev pub max_threads : ℕ
max_threads = 64

-- a slot of the zeroed static array
abbrev pub free_thread : Thread
free_thread = record {
  id = 0;
  state = ready;
  stack_ptr = 0;
  priority = 0;
  block_reason = 0;
  last_error = pos 0;
  irq_num = 0;
}

-- The static variables, `last_scheduled` of `sched_schedule` among them.
pub record Sched : Type 0 where
  pub threads : List Thread
  pub current_thread : ℕ
  pub next_thread_id : ℕ
  pub last_scheduled : ℕ

abbrev pub thread : Sched → ℕ → Thread
thread s i = get_or s.threads i free_thread

abbrev pub is_ready : ThreadState → Bool
is_ready ready = true
is_ready _ = false

abbrev pub is_terminated : ThreadState → Bool
is_terminated terminated = true
is_terminated _ = false

-- the value of a `uint32_t` as an `int`
abbrev pub int_of : ℕ → ℤ
int_of w = if ltb w (2 ^ 31) then pos w else negsuc (2 ^ 32 - w - 1)

-- the first slot whose thread passes the test
abbrev pub find_thread : (Thread → Bool) → List Thread → Option ℕ
find_thread test ts = find_from (λ i. test (get_or ts i free_thread)) max_threads 0

abbrev pub is_vacant : Thread → Bool
is_vacant t = is_terminated t.state || t.id == 0

-- the thread that claims the slot `i`
abbrev pub new_thread : ℕ → Sched → Thread
new_thread i s = record (thread s i) { id = s.next_thread_id; state = ready; priority = 1 }

abbrev pub claimed : ℕ → Sched → Sched
claimed i s = record s {
  threads = set s.threads i (new_thread i s);
  next_thread_id = (s.next_thread_id + 1) % 2 ^ 32;
}

-- the top word of the page at `stack`
abbrev pub stack_top : ℕ → ℕ
stack_top stack = (stack % 2 ^ 32 + page_size - 4) % 2 ^ 32

-- the claimed slot gets its stack, on the page at `stack`
abbrev pub with_stack : ℕ → ℕ → ℕ → Sched → Mm → ℤ × Sched × Mm
with_stack entry_point stack i s m = (
  int_of s.next_thread_id,
  record (claimed i s) {
    threads = set (claimed i s).threads i (record (new_thread i s) { stack_ptr = stack_top stack });
  },
  record m { mem = store m.mem (stack_top stack) (entry_point % 2 ^ 32) },
)

-- `sched_create_thread` in the slot `i`
unfoldable pub create_in : ℕ → ℕ → Sched → Mm → ℤ × Sched × Mm
create_in entry_point i s m =
    let (stack, m1) = mm_alloc_page m in
    if stack == 0 then (negsuc 0, claimed i s, m1) else with_stack entry_point stack i s m1

abbrev pub create_if : ℕ → Sched → Mm → Option ℕ → ℤ × Sched × Mm
create_if entry_point s m none = (negsuc 0, s, m)
create_if entry_point s m (some i) = create_in entry_point i s m

unfoldable pub sched_create_thread : ℕ → Sched → Mm → ℤ × Sched × Mm
sched_create_thread entry_point s m = create_if entry_point s m (find_thread is_vacant s.threads)

abbrev pub is_runnable : Thread → Bool
is_runnable t = is_ready t.state && not (t.id == 0)

-- the first runnable thread of the `n` from `next` on, going round
unfoldable pub find_next : ℕ → ℕ → List Thread → Option ℕ
find_next zero next ts = none
find_next (suc n) next ts =
    let rest = find_next n ((next + 1) % max_threads) ts in
    if is_runnable (get_or ts next free_thread) then some next else rest

-- the state of thread `i` alone changes
abbrev pub set_state : List Thread → ℕ → ThreadState → List Thread
set_state ts i st = set ts i (record (get_or ts i free_thread) { state = st })

-- the current thread is made ready, if its slot is in use
unfoldable pub preempted : Sched → List Thread
preempted s =
    if ltb s.current_thread max_threads && not ((thread s s.current_thread).id == 0)
    then set_state s.threads s.current_thread ready
    else s.threads

-- the switch from the current thread to `next`
unfoldable pub switch_to : ℕ → Sched → Sched
switch_to next s = record s {
  threads = set_state (preempted s) next running;
  current_thread = next;
  last_scheduled = next;
}

abbrev pub switch_if : Sched → Option ℕ → Sched
switch_if s none = s
switch_if s (some next) = switch_to next s

unfoldable pub sched_schedule : Sched → Sched
sched_schedule s =
    switch_if s (find_next max_threads ((s.last_scheduled + 1) % 2 ^ 32 % max_threads) s.threads)

unfoldable pub sched_yield : Sched → Sched
sched_yield s = sched_schedule s

-- `none` is NULL.
unfoldable pub sched_get_process_by_pid : ℕ → Sched → Option ℕ
sched_get_process_by_pid pid s = find_thread (λ t. t.id == pid) s.threads

unfoldable pub sched_get_current_pid : Sched → ℕ
sched_get_current_pid s = (thread s s.current_thread).id
