-- ===== src/Kernel/Sched/Fair.antt =====
-- Round robin: no runnable thread waits for more than a round of the table.
use e_comos.Prelude.{
  ℕ, zero, suc, ◌<◌, ◌≡◌, ◌≢◌, inl, inr, ap, ◌∙◌, true, arith, ℕ_discrete, dec_lt,
}
use e_comos.Kernel.Sched.{
  Thread, Sched, ready, blocked, max_threads, thread, is_runnable, sched_schedule,
}
use e_comos.Kernel.Sched.Valid.{IsValid}
use e_comos.Kernel.Sched.Pick.{distance, runs}
use e_comos.Kernel.Sched.Schedule.{Switched, first_slot, sched_schedule-cases}

-- `n` calls of `sched_schedule`
unfoldable pub schedule_times : ℕ → Sched → Sched
schedule_times zero s = s
schedule_times (suc n) s = schedule_times n (sched_schedule s)

-- A runnable thread that is not picked stays runnable, and comes nearer.
not_picked-runs :
    {s s' : Sched} {k : ℕ} (j : ℕ)
    → Switched s s' k
    → j < max_threads
    → k ≢ j
    → runs s.threads j ≡ true
    → runs s'.threads j ≡ true
not_picked-runs j sw h ne r = ground (arith, sw.others j h, ap is_runnable (sw.others j h))

not_picked-nearer :
    {s s' : Sched} {k : ℕ} (j : ℕ)
    → IsValid s
    → Switched s s' k
    → j < max_threads
    → k ≢ j
    → runs s.threads j ≡ true
    → distance (first_slot s') j < distance (first_slot s) j
not_picked-nearer {s} {s'} {k} j v sw h ne r =
    elim (dec_lt (distance (first_slot s) j) (distance (first_slot s) k)) [
      | yes closer ↦ absurd (ground (arith, sw.nearest.nearest j h closer))
      | no further ↦ omega (arith, sw.last, sw.nearest.in_range)
    ]

runs_within :
    (d j : ℕ) (s : Sched)
    → IsValid s
    → j < max_threads
    → runs s.threads j ≡ true
    → distance (first_slot s) j < d
    → (m : ℕ) × (m < d) × ((schedule_times (suc m) s).current_thread ≡ j)
unfolding schedule_times
runs_within zero j s v h r near = absurd (omega arith)
runs_within (suc d) j s v h r near = elim (sched_schedule-cases s v) [
  | inl idle ↦ absurd (ground (arith, idle.none_runnable j h))
  | inr (k, sw) ↦ elim (ℕ_discrete k j) [
    | yes here ↦ (0, omega arith, sw.current ∙ here)
    | no ne ↦
        let later =
          runs_within d j (sched_schedule s) sw.valid h (not_picked-runs j sw h ne r)
            (omega (arith, not_picked-nearer j v sw h ne r)) in
        (suc later.0, omega (arith, later.1), later.2)
  ]
]

-- From a valid state, a runnable thread is the current one after at most 64 calls of `sched_schedule`.
pub no_starvation :
    (j : ℕ) (s : Sched)
    → IsValid s
    → j < max_threads
    → runs s.threads j ≡ true
    → (m : ℕ) × (m < max_threads) × ((schedule_times (suc m) s).current_thread ≡ j)
no_starvation j s v h r = runs_within max_threads j s v h r (omega arith)

-- A thread that blocks and yields while another thread can run is made ready at once: when
-- `sched_schedule` switches away from a current thread in a slot in use, that thread is ready
-- afterwards, also if it was blocked.
pub blocked_thread_readied :
    (j : ℕ) (s : Sched)
    → IsValid s
    → (thread s s.current_thread).state ≡ blocked
    → (thread s s.current_thread).id ≢ 0
    → j < max_threads
    → runs s.threads j ≡ true
    → (thread (sched_schedule s) s.current_thread).state ≡ ready
blocked_thread_readied j s v b used h r = elim (sched_schedule-cases s v) [
  | inl idle ↦ absurd (ground (arith, idle.none_runnable j h))
  | inr (k, sw) ↦
      let other : k ≢ s.current_thread =
        λ e. ground (arith, sw.nearest.runnable, ap (runs s.threads) e) in
      ground (arith, ap (λ (t : Thread). t.state) (sw.others s.current_thread v.current_in))
]
