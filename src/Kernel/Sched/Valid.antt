-- ===== src/Kernel/Sched/Valid.antt =====
-- The indices of the scheduler stay inside its table.
use e_comos.Prelude.{◌<◌, ◌≡◌, length, arith}
use e_comos.Kernel.Sched.{Sched, max_threads}

pub record IsValid (s : Sched) : Type 0 where
  pub slots : length s.threads ≡ max_threads
  pub current_in : s.current_thread < max_threads
  pub last_in : s.last_scheduled < max_threads

-- The two indices of the scheduler are as before.
abbrev pub SameIndices : Sched → Sched → Type 0
SameIndices p q = (q.current_thread ≡ p.current_thread) × (q.last_scheduled ≡ p.last_scheduled)

pub SameIndices-IsValid :
    {p : Sched} (q : Sched)
    → IsValid p
    → length q.threads ≡ max_threads
    → SameIndices p q
    → IsValid q
SameIndices-IsValid q v l same = record {
  slots = l;
  current_in = omega (arith, same.0, v.current_in);
  last_in = omega (arith, same.1, v.last_in);
}
