-- ===== src/Kernel/Irq/Notify.antt =====
-- What an interrupt and the passing of time do to the waiters and their threads.
use mathlib.Core.Path.{subst}
use e_comos.Prelude.{
  ℕ, ◌+◌, ◌%◌, ◌^◌, ◌≤◌, ◌<◌, ◌≡◌, ◌⊎◌, inl, inr, sym, ap, ◌∙◌, true, false, Bool, ◌&&◌, Option,
  none, some, List, length, get_or, set, get_or-set_self, get_or-set_ne, length-set, leb, ◌==◌,
  if◌then◌else◌, arith, Bool-cases, ℕ_discrete, if_true, if_false,
}
use e_comos.Prelude.Int.{ℤ}
use e_comos.Kernel.Sched.{Sched, max_threads, thread, sched_get_process_by_pid}
use e_comos.Kernel.Sched.Valid.{SameIndices}
use e_comos.Kernel.Irq.{
  Irq, Waiter, max_irqs, waiter, is_blocked, awake, err_timeout, is_due, release,
  syscall_irq_notify, syscall_irq_check_timeouts,
}
use e_comos.Kernel.Irq.Valid.{IsValid}
use e_comos.Kernel.Irq.Wake.{Woken}
use e_comos.Kernel.Irq.Release.{release-Released}

-- Exactly the active waiters that are due are dropped; a thread is as before or was blocked and is awake,
-- each blocked thread that is the first one with the identifier of a due waiter is awake, and a thread that
-- is not the first one with the identifier of a due waiter is as before. The indices of the scheduler stay.
pub record Swept (due : Waiter → Bool) (e : Option ℤ) (s : Irq) (p : Sched) (r : Irq × Sched)
    : Type 0 where
  pub valid : IsValid r.0
  pub dropped :
      (j : ℕ)
      → waiter r.0 j ≡ (
          if (waiter s j).is_active && due (waiter s j)
          then record (waiter s j) { is_active = false }
          else waiter s j)
  pub size : length r.1.threads ≡ max_threads
  pub threads : (k : ℕ) → Woken e (thread p k) (thread r.1 k)
  pub caused :
      (k : ℕ)
      → (thread r.1 k ≡ thread p k)
        ⊎ ((j : ℕ) × (((waiter s j).is_active && due (waiter s j)) ≡ true)
            × (sched_get_process_by_pid (waiter s j).pid p ≡ some k))
  pub indices : SameIndices p r.1
  pub woken :
      (j k : ℕ)
      → ((waiter s j).is_active && due (waiter s j)) ≡ true
      → sched_get_process_by_pid (waiter s j).pid p ≡ some k
      → is_blocked (thread p k).state ≡ true
      → thread r.1 k ≡ awake e (thread p k)

-- `num_waiters` rounds reach every active waiter.
release-Swept :
    (due : Waiter → Bool) (e : Option ℤ) (s : Irq) (p : Sched)
    → IsValid s
    → length p.threads ≡ max_threads
    → Swept due e s p (release due e s.num_waiters 0 (s, p))
release-Swept due e s p v l =
    let t = release-Released due e s.num_waiters 0 s p v l in
    record {
      valid = t.valid;
      dropped = λ j. ground (arith, t.dropped j, v.beyond j);
      size = t.size;
      threads = t.threads;
      caused = t.caused;
      indices = t.indices;
      woken = λ j k on. t.woken j k (ground (arith, v.beyond j)) on;
    }

pub record Notified (irq_num : ℕ) (s : Irq) (p : Sched) (r : Irq × Sched) : Type 0 where
  pub swept : Swept (λ w. w.irq_number == irq_num) none s p r
  pub occurred :
      (line : ℕ)
      → get_or r.0.occurred line 0 ≡ (if irq_num == line then 1 else get_or s.occurred line 0)
  pub counted :
      (line : ℕ)
      → get_or r.0.count line 0
        ≡ (if irq_num == line then (get_or s.count line 0 + 1) % 2 ^ 32 else get_or s.count line 0)

pub data NotifySpec (irq_num : ℕ) (s : Irq) (p : Sched) : Irq × Sched → Type 0 where
  unknown_line : 16 ≤ irq_num → NotifySpec irq_num s p (s, p)
  notified : {r : Irq × Sched} → irq_num < 16 → Notified irq_num s p r → NotifySpec irq_num s p r

get_or-set :
    (xs : List ℕ) (i j v : ℕ)
    → i < length xs
    → get_or (set xs i v) j 0 ≡ (if i == j then v else get_or xs j 0)
get_or-set xs i j v h = elim (ℕ_discrete i j) [
  | yes e ↦ rw (← e) (ground (arith, get_or-set_self xs i v 0 h))
  | no ne ↦ ground (arith, get_or-set_ne xs i j v 0 ne)
]

-- In a well-formed table, a notification of a line over 15 changes nothing. For any other line it sets
-- the line's flag, counts the interrupt modulo 2^32, leaves the other lines, drops exactly the active
-- waiters of the line, and makes each blocked thread that such a waiter names ready; a thread that no such
-- waiter names does not change, and neither do the indices of the scheduler.
pub syscall_irq_notify-NotifySpec :
    (irq_num : ℕ) (s : Irq) (p : Sched)
    → IsValid s
    → length p.threads ≡ max_threads
    → NotifySpec irq_num s p (syscall_irq_notify irq_num (s, p))
unfolding syscall_irq_notify
syscall_irq_notify-NotifySpec irq_num s p v l = elim (Bool-cases (leb max_irqs irq_num)) [
  | inl far ↦
      subst (NotifySpec irq_num s p) (sym (if_true _ _ far))
        (NotifySpec.unknown_line (ground arith))
  | inr near ↦
      let h : irq_num < 16 = ground arith in
      subst (NotifySpec irq_num s p) (sym (if_false _ _ near)) (
        let s1 = record s {
          occurred = set s.occurred irq_num 1;
          count = set s.count irq_num ((get_or s.count irq_num 0 + 1) % 2 ^ 32);
        } in
        let v1 : IsValid s1 = record {
          slots = v.slots;
          lines = length-set s.occurred irq_num 1 ∙ v.lines;
          counters =
              length-set s.count irq_num ((get_or s.count irq_num 0 + 1) % 2 ^ 32) ∙ v.counters;
          bounded = v.bounded;
          beyond = v.beyond;
          unique = v.unique;
        } in
        let t = release-Released (λ w. w.irq_number == irq_num) none s.num_waiters 0 s1 p v1 l in
        let u = release-Swept (λ w. w.irq_number == irq_num) none s1 p v1 l in
        NotifySpec.notified h record {
          swept = record {
            valid = u.valid;
            dropped = u.dropped;
            size = u.size;
            threads = u.threads;
            caused = u.caused;
            indices = u.indices;
            woken = u.woken;
          };
          occurred = λ line.
              ap (λ xs. get_or xs line 0) t.lines.0
              ∙ get_or-set s.occurred irq_num line 1 (omega (arith, v.lines));
          counted = λ line. ground (
            arith,
            ap (λ xs. get_or xs line 0) t.lines.1,
            get_or-set s.count irq_num line ((get_or s.count irq_num 0 + 1) % 2 ^ 32)
                (omega (arith, v.counters)),
            ap (λ x. get_or s.count x 0) {x = irq_num} {y = line},
          );
        })
]

pub syscall_irq_check_timeouts-Swept :
    (now : ℕ) (s : Irq) (p : Sched)
    → IsValid s
    → length p.threads ≡ max_threads
    → Swept (is_due now) (some err_timeout) s p (syscall_irq_check_timeouts now (s, p))
unfolding syscall_irq_check_timeouts
syscall_irq_check_timeouts-Swept now s p v l = release-Swept (is_due now) (some err_timeout) s p v l

-- The check leaves the flags and the counters.
pub check_timeouts-lines :
    (now : ℕ) (s : Irq) (p : Sched)
    → IsValid s
    → length p.threads ≡ max_threads
    → ((syscall_irq_check_timeouts now (s, p)).0.occurred ≡ s.occurred)
      × ((syscall_irq_check_timeouts now (s, p)).0.count ≡ s.count)
unfolding syscall_irq_check_timeouts
check_timeouts-lines now s p v l =
    (release-Released (is_due now) (some err_timeout) s.num_waiters 0 s p v l).lines
