-- ===== src/Kernel/Sched/Schedule.antt =====
-- What one call of `sched_schedule` does.
use e_comos.Prelude.{
  ℕ, ◌+◌, ◌%◌, ◌<◌, ◌≡◌, ◌⊎◌, inl, inr, refl, ap, sym, ◌∙◌, false, not, ◌&&◌, List, length, get_or,
  length-set, get_or-set_self, get_or-set_ne, ◌==◌, if◌then◌else◌, arith, ℕ_discrete,
}
use mathlib.Core.Path.{subst}
use e_comos.Kernel.Sched.{
  sched_yield, Thread, ThreadState, Sched, ready, running, max_threads, free_thread, thread,
  set_state, find_next, preempted, switch_to, switch_if, sched_schedule,
}
use e_comos.Kernel.Sched.Valid.{IsValid}
use e_comos.Kernel.Sched.Pick.{runs, IsNearest, find_next-cases}

abbrev pub first_slot : Sched → ℕ
first_slot s = (s.last_scheduled + 1) % max_threads

-- The state that thread `j` has after a switch to `k`.
abbrev pub state_after : Sched → ℕ → ℕ → ThreadState
state_after s k j =
    if k == j
    then running
    else if s.current_thread == j && not ((thread s j).id == 0)
    then ready
    else (thread s j).state

-- The nearest runnable thread `k` behind the last one runs next. The thread that was current is made
-- ready, whatever state it was in, if its slot is in use. No other thread changes.
pub record Switched (s s' : Sched) (k : ℕ) : Type 0 where
  pub nearest : IsNearest s.threads (first_slot s) max_threads k
  pub valid : IsValid s'
  pub current : s'.current_thread ≡ k
  pub last : s'.last_scheduled ≡ k
  pub ids : s'.next_thread_id ≡ s.next_thread_id
  pub others :
      (j : ℕ) → j < max_threads → thread s' j ≡ record (thread s j) { state = state_after s k j }

-- No thread is runnable, and nothing changes.
pub record Idle (s s' : Sched) : Type 0 where
  pub none_runnable : (j : ℕ) → j < max_threads → runs s.threads j ≡ false
  pub same : s' ≡ s

get_or-set_state :
    (ts : List Thread) (i j : ℕ) (st : ThreadState)
    → i < length ts
    → get_or (set_state ts i st) j free_thread ≡ record (get_or ts j free_thread) {
      state = if i == j then st else (get_or ts j free_thread).state;
    }
get_or-set_state ts i j st h = elim (ℕ_discrete i j) [
  | yes e ↦ rw (← e) (
      get_or-set_self ts i (record (get_or ts i free_thread) { state = st }) free_thread h
      ∙ ground arith)
  | no ne ↦
      get_or-set_ne ts i j (record (get_or ts i free_thread) { state = st }) free_thread ne
      ∙ ground arith
]

preempted_lem :
    (j : ℕ) {s : Sched}
    → IsValid s
    → get_or (preempted s) j free_thread ≡ record (thread s j) {
      state =
          if s.current_thread == j && not ((thread s j).id == 0) then ready else (thread s j).state;
    }
unfolding preempted
preempted_lem j {s} v = elim (ℕ_discrete s.current_thread j) [
  | yes e ↦ rw (← e) (
      ground (
        arith,
        get_or-set_state s.threads s.current_thread s.current_thread ready (omega (arith, v.slots)),
      ))
  | no ne ↦
      ground (arith, get_or-set_state s.threads s.current_thread j ready (omega (arith, v.slots)))
]

length-preempted : (s : Sched) → length (preempted s) ≡ length s.threads
unfolding preempted
length-preempted s = ground (
  arith,
  length-set s.threads s.current_thread (record (thread s s.current_thread) { state = ready }),
)

switch_to-IsValid : (k : ℕ) {s : Sched} → IsValid s → k < max_threads → IsValid (switch_to k s)
unfolding switch_to
switch_to-IsValid k {s} v h = record {
  slots = length-set (preempted s) k _ ∙ length-preempted s ∙ v.slots;
  current_in = h;
  last_in = h;
}

switch_to-others :
    (k j : ℕ) {s : Sched}
    → IsValid s
    → k < max_threads
    → thread (switch_to k s) j ≡ record (thread s j) { state = state_after s k j }
unfolding switch_to
switch_to-others k j {s} v h =
    get_or-set_state (preempted s) k j running (omega (arith, length-preempted s, v.slots))
    ∙ ground (arith, preempted_lem j v)

switch_to-Switched :
    {s : Sched} {k : ℕ}
    → IsValid s
    → IsNearest s.threads (first_slot s) max_threads k
    → Switched s (switch_to k s) k
unfolding switch_to
switch_to-Switched {k = k} v f = record {
  nearest = f;
  valid = switch_to-IsValid k v f.in_range;
  current = refl;
  last = refl;
  ids = refl;
  others = λ j h. switch_to-others k j v f.in_range;
}

-- the search starts behind the last thread scheduled
sched_schedule_lem :
    (s : Sched)
    → IsValid s
    → sched_schedule s ≡ switch_if s (find_next max_threads (first_slot s) s.threads)
unfolding sched_schedule
sched_schedule_lem s v =
    ap (λ (i : ℕ). switch_if s (find_next max_threads i s.threads)) (omega (arith, v.last_in))

-- From a valid state either no thread is runnable and nothing changes, or the nearest runnable thread
-- round the table behind the last one scheduled becomes current and running, the thread that was
-- current is made ready if its slot is in use, and no other thread changes; the state stays valid.
pub sched_schedule-cases :
    (s : Sched)
    → IsValid s
    → Idle s (sched_schedule s) ⊎ ((k : ℕ) × Switched s (sched_schedule s) k)
sched_schedule-cases s v = elim (find_next-cases (first_slot s) s.threads (omega arith)) [
  | inl (k, e, f) ↦
      let to_k = sched_schedule_lem s v ∙ ap (switch_if s) e in
      inr (k, subst (λ z. Switched s z k) (sym to_k) (switch_to-Switched v f))
  | inr (e, empty) ↦
      let stays = sched_schedule_lem s v ∙ ap (switch_if s) e in
      inl (record { none_runnable = empty; same = stays })
]

pub sched_schedule-IsValid : (s : Sched) → IsValid s → IsValid (sched_schedule s)
sched_schedule-IsValid s v = elim (sched_schedule-cases s v) [
  | inl idle ↦ subst IsValid (sym idle.same) v
  | inr (k, switched) ↦ switched.valid
]

pub sched_yield-IsValid : (s : Sched) → IsValid s → IsValid (sched_yield s)
unfolding sched_yield
sched_yield-IsValid s v = sched_schedule-IsValid s v
