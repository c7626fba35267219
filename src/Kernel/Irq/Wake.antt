-- ===== src/Kernel/Irq/Wake.antt =====
-- Waking a thread by its identifier.
use e_comos.Prelude.{
  ℕ, ◌≤◌, ◌<◌, ◌≡◌, ◌⊎◌, inl, inr, refl, sym, ap, ◌∙◌, true, Option, none, some, List, length,
  get_or, set, length-set, get_or-set_self, get_or-set_ne, ◌==◌, arith, ℕ_discrete, dec_lt,
  Bool-cases, if_true, if_false, set_beyond,
}
use mathlib.Core.Path.{subst, fun_ext}
use e_comos.Prelude.Int.{ℤ}
use e_comos.Prelude.Search.{find_from, find_from-IsFirst}
use e_comos.Kernel.Sched.{Sched, Thread, max_threads, free_thread, thread, sched_get_process_by_pid}
use e_comos.Kernel.Sched.Valid.{SameIndices}
use e_comos.Kernel.Irq.{is_blocked, awake, wake_found, wake}

-- Thread `k` is as before, or it was blocked and is awake.
abbrev pub Woken : Option ℤ → Thread → Thread → Type 0
Woken e t t' = (t' ≡ t) ⊎ ((is_blocked t.state ≡ true) × (t' ≡ awake e t))

set-Woken :
    (e : Option ℤ) (ts : List Thread) (i k : ℕ)
    → is_blocked (get_or ts i free_thread).state ≡ true
    → Woken e
        (get_or ts k free_thread)
        (get_or (set ts i (awake e (get_or ts i free_thread))) k free_thread)
set-Woken e ts i k on = elim (ℕ_discrete i k) [
  | no ne ↦ inl (get_or-set_ne ts i k (awake e (get_or ts i free_thread)) free_thread ne)
  | yes same ↦ rw (← same) (elim (dec_lt i (length ts)) [
    | yes h ↦ inr (on, get_or-set_self ts i (awake e (get_or ts i free_thread)) free_thread h)
    | no h ↦
        let out : length ts ≤ i = omega arith in
        inl (
          ap (λ us. get_or us i free_thread)
            (set_beyond ts i (awake e (get_or ts i free_thread)) out))
  ])
]

wake_found-Woken :
    (e : Option ℤ) (p : Sched) (r : Option ℕ) (k : ℕ)
    → Woken e (thread p k) (thread (wake_found e p r) k)
wake_found-Woken e p none k = inl refl
wake_found-Woken e p (some i) k = elim (Bool-cases (is_blocked (thread p i).state)) [
  | inr off ↦ inl (ap (λ (z : Sched). thread z k) (if_false _ _ off))
  | inl on ↦
      subst (λ (z : Sched). Woken e (thread p k) (thread z k)) (sym (if_true _ _ on))
        (set-Woken e p.threads i k on)
]

-- The thread found is awake if it was blocked.
wake_found_blocked :
    (e : Option ℤ) (p : Sched) (k : ℕ)
    → k < length p.threads
    → is_blocked (thread p k).state ≡ true
    → thread (wake_found e p (some k)) k ≡ awake e (thread p k)
wake_found_blocked e p k h on =
    ap (λ (z : Sched). thread z k) (if_true _ _ on)
    ∙ get_or-set_self p.threads k (awake e (thread p k)) free_thread h

awake-id : (e : Option ℤ) (t : Thread) → (awake e t).id ≡ t.id
awake-id none t = refl
awake-id (some x) t = refl

Woken-id : (e : Option ℤ) (t t' : Thread) → Woken e t t' → t'.id ≡ t.id
Woken-id e t t' (inl same) = ap (λ (u : Thread). u.id) same
Woken-id e t t' (inr (b, up)) = ap (λ (u : Thread). u.id) up ∙ awake-id e t

pub wake-Woken :
    (e : Option ℤ) (pid : ℕ) (p : Sched) (k : ℕ) → Woken e (thread p k) (thread (wake e pid p) k)
unfolding wake
wake-Woken e pid p k = wake_found-Woken e p (sched_get_process_by_pid pid p) k

-- Waking changes no identifier, so that the table is searched as before.
pub find_pid-wake :
    (e : Option ℤ) (pid q : ℕ) (p : Sched)
    → sched_get_process_by_pid q (wake e pid p) ≡ sched_get_process_by_pid q p
unfolding sched_get_process_by_pid
find_pid-wake e pid q p =
    ap (λ test. find_from test max_threads 0)
      (fun_ext (λ i. ap (λ (n : ℕ). n == q) (Woken-id e (thread p i) _ (wake-Woken e pid p i))))

pub find_pid_in_range :
    (pid : ℕ) (p : Sched) {k : ℕ} → sched_get_process_by_pid pid p ≡ some k → k < max_threads
unfolding sched_get_process_by_pid
find_pid_in_range pid p found =
    omega (arith, (find_from-IsFirst (λ i. (thread p i).id == pid) max_threads 0 found).below)

-- A thread that another identifier finds is as before.
pub wake_others :
    (e : Option ℤ) (pid : ℕ) (p : Sched) (k : ℕ)
    → (thread (wake e pid p) k ≡ thread p k) ⊎ (sched_get_process_by_pid pid p ≡ some k)
unfolding wake
wake_others e pid p k = by_cases (sched_get_process_by_pid pid p)
  where
    by_cases : (r : Option ℕ) → (thread (wake_found e p r) k ≡ thread p k) ⊎ (r ≡ some k)
    by_cases none = inl refl
    by_cases (some i) = elim (ℕ_discrete i k) [
      | yes same ↦ inr (ap some same)
      | no ne ↦ inl (elim (Bool-cases (is_blocked (thread p i).state)) [
        | inr off ↦ ap (λ (z : Sched). thread z k) (if_false _ _ off)
        | inl on ↦
            ap (λ (z : Sched). thread z k) (if_true _ _ on)
            ∙ get_or-set_ne p.threads i k (awake e (thread p i)) free_thread ne
      ])
    ]

pub wake_indices : (e : Option ℤ) (pid : ℕ) (p : Sched) → SameIndices p (wake e pid p)
unfolding wake
wake_indices e pid p = by_cases (sched_get_process_by_pid pid p)
  where
    by_cases : (r : Option ℕ) → SameIndices p (wake_found e p r)
    by_cases none = (refl, refl)
    by_cases (some i) = elim (Bool-cases (is_blocked (thread p i).state)) [
      | inl on ↦ subst (SameIndices p) (sym (if_true _ _ on)) (refl, refl)
      | inr off ↦ subst (SameIndices p) (sym (if_false _ _ off)) (refl, refl)
    ]

-- The thread with the identifier is awake if it was blocked.
pub wake_blocked :
    (e : Option ℤ) (pid : ℕ) (p : Sched) {k : ℕ}
    → length p.threads ≡ max_threads
    → sched_get_process_by_pid pid p ≡ some k
    → is_blocked (thread p k).state ≡ true
    → thread (wake e pid p) k ≡ awake e (thread p k)
unfolding wake
wake_blocked e pid p {k} l found on =
    ap (λ r. thread (wake_found e p r) k) found
    ∙ wake_found_blocked e p k (omega (arith, find_pid_in_range pid p found)) on

pub wake-length :
    (e : Option ℤ) (pid : ℕ) (p : Sched) → length (wake e pid p).threads ≡ length p.threads
unfolding wake
wake-length e pid p = by_cases (sched_get_process_by_pid pid p)
  where
    by_cases : (r : Option ℕ) → length (wake_found e p r).threads ≡ length p.threads
    by_cases none = refl
    by_cases (some i) = ground (arith, length-set p.threads i (awake e (thread p i)))
