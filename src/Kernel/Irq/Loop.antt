-- ===== src/Kernel/Irq/Loop.antt =====
-- The loop of `syscall_irq_wait` (source/kernel/src/kernel/syscall.c).
use mathlib.Core.Path.{subst}
use e_comos.Prelude.{
  ℕ, ◌<◌, ◌≡◌, ◌⊎◌, inl, inr, refl, sym, ap, true, false, Bool, ◌||◌, Option, none, some, List, [],
  ◌∷◌, ◌==◌, arith, Bool-cases,
}
use e_comos.Kernel.Sched.{Sched}
use e_comos.Kernel.Sched.Valid
use e_comos.Kernel.Sched.Valid.{SameIndices-IsValid}
use e_comos.Kernel.Sched.Schedule.{sched_yield-IsValid}
use e_comos.Kernel.Irq.{Irq, find_irq_waiter, syscall_irq_notify, syscall_irq_check_timeouts}
use e_comos.Kernel.Irq.Valid.{IsValid}
use e_comos.Kernel.Irq.Adding.{Waits, find_irq_waiter-cases}
use e_comos.Kernel.Irq.Notify.{
  NotifySpec, syscall_irq_notify-NotifySpec, syscall_irq_check_timeouts-Swept,
}
use e_comos.Kernel.Irq.Wait.{Round, has_occurred, notify_all, yield, round_if, loop_if, wait_loop}

pub record Good (st : Irq × Sched) : Type 0 where
  pub table : IsValid st.0
  pub threads : Valid.IsValid st.1

abbrev pub is_in : ℕ → List ℕ → Bool
is_in i [] = false
is_in i (j ∷ js) = j == i || is_in i js

-- The line's interrupt arrives in one of the rounds.
abbrev pub arrives : ℕ → List Round → Bool
arrives i [] = false
arrives i (r ∷ rs) = is_in i r.arrived || arrives i rs

pub notify-Good : (i : ℕ) (st : Irq × Sched) → Good st → Good (syscall_irq_notify i st)
notify-Good i (s, p) g =
    elim (syscall_irq_notify-NotifySpec i s p g.table g.threads.slots) as (λ r _. Good r) [
      | NotifySpec.unknown_line far ↦ g
      | NotifySpec.notified {r = r} near n ↦ record {
        table = n.swept.valid;
        threads = SameIndices-IsValid r.1 g.threads n.swept.size n.swept.indices;
      }
    ]

-- The line's own notification sets its flag, and no notification clears one.
pub notify_occurred :
    (irq_num i : ℕ) (st : Irq × Sched)
    → Good st
    → irq_num < 16
    → (i == irq_num || has_occurred irq_num st.0) ≡ true
    → has_occurred irq_num (syscall_irq_notify i st).0 ≡ true
notify_occurred irq_num i (s, p) g h on =
    elim (syscall_irq_notify-NotifySpec i s p g.table g.threads.slots)
      as (λ r _. has_occurred irq_num r.0 ≡ true) [
        | NotifySpec.unknown_line far ↦ ground arith
        | NotifySpec.notified near n ↦ ground (arith, n.occurred irq_num)
      ]

pub notify_all-Good : (is : List ℕ) (st : Irq × Sched) → Good st → Good (notify_all is st)
unfolding notify_all
notify_all-Good [] st g = g
notify_all-Good (i ∷ is) st g = notify_all-Good is (syscall_irq_notify i st) (notify-Good i st g)

pub notify_all_occurred :
    (irq_num : ℕ) (is : List ℕ) (st : Irq × Sched)
    → Good st
    → irq_num < 16
    → (is_in irq_num is || has_occurred irq_num st.0) ≡ true
    → has_occurred irq_num (notify_all is st).0 ≡ true
unfolding notify_all
notify_all_occurred irq_num [] st g h on = on
notify_all_occurred irq_num (i ∷ is) st g h on =
    notify_all_occurred irq_num is (syscall_irq_notify i st) (notify-Good i st g) h
      (elim (Bool-cases (i == irq_num || has_occurred irq_num st.0)) [
        | inl now ↦ ground (arith, notify_occurred irq_num i st g h now)
        | inr not_now ↦ ground arith
      ])

pub check-Good : (now : ℕ) (st : Irq × Sched) → Good st → Good (syscall_irq_check_timeouts now st)
check-Good now (s, p) g =
    let w = syscall_irq_check_timeouts-Swept now s p g.table g.threads.slots in
    record { table = w.valid; threads = SameIndices-IsValid _ g.threads w.size w.indices }

pub yield-Good : (st : Irq × Sched) → Good st → Good (yield st)
yield-Good (s, p) g = record { table = g.table; threads = sched_yield-IsValid p g.threads }

-- The loop still waits, and the line's interrupt has not arrived; or it ends, since the flag is set or
-- since the waiter is gone.
pub data LoopSpec (pid irq_num : ℕ) (rs : List Round) (st : Irq × Sched)
    : Option (Irq × Sched) → Type 0 where
  waits :
      has_occurred irq_num st.0 ≡ false
      → arrives irq_num rs ≡ false
      → LoopSpec pid irq_num rs st none
  ends :
      {st' : Irq × Sched}
      → Good st'
      → (has_occurred irq_num st'.0 ≡ true) ⊎ ¬ Waits pid irq_num st'.0
      → LoopSpec pid irq_num rs st (some st')

pub wait_loop-LoopSpec :
    (pid irq_num : ℕ) (rs : List Round) (st : Irq × Sched)
    → Good st
    → irq_num < 16
    → LoopSpec pid irq_num rs st (wait_loop pid irq_num rs st)
unfolding wait_loop
wait_loop-LoopSpec pid irq_num [] st g h = elim (Bool-cases (has_occurred irq_num st.0)) [
  | inl on ↦
      subst (LoopSpec pid irq_num [] st) (sym (ap (loop_if st none) on)) (LoopSpec.ends g (inl on))
  | inr off ↦
      subst (LoopSpec pid irq_num [] st) (sym (ap (loop_if st none) off)) (LoopSpec.waits off refl)
]
wait_loop-LoopSpec pid irq_num (r ∷ rs) st g h =
    let checked = syscall_irq_check_timeouts r.now st in
    let g1 = check-Good r.now st g in
    let later = notify_all r.arrived (yield checked) in
    let g2 = notify_all-Good r.arrived (yield checked) (yield-Good checked g1) in
    let again = wait_loop pid irq_num rs later in
    let found = find_irq_waiter pid irq_num checked.0 in
    elim (Bool-cases (has_occurred irq_num st.0)) [
      | inl on ↦
          subst (LoopSpec pid irq_num (r ∷ rs) st)
            (sym (ap (loop_if st (round_if checked again found)) on)) (LoopSpec.ends g (inl on))
      | inr off ↦
          subst (LoopSpec pid irq_num (r ∷ rs) st)
            (sym (ap (loop_if st (round_if checked again found)) off))
            (elim (find_irq_waiter-cases pid irq_num checked.0 g1.table) [
              | inr (e, gone) ↦
                  subst (LoopSpec pid irq_num (r ∷ rs) st) (sym (ap (round_if checked again) e))
                    (LoopSpec.ends g1 (inr gone))
              | inl (i, e, here) ↦
                  subst (LoopSpec pid irq_num (r ∷ rs) st) (sym (ap (round_if checked again) e))
                    (elim (wait_loop-LoopSpec pid irq_num rs later g2 h)
                      as (λ z _. LoopSpec pid irq_num (r ∷ rs) st z) [
                        | LoopSpec.ends good why ↦ LoopSpec.ends good why
                        | LoopSpec.waits unset never ↦ LoopSpec.waits off (
                            ground (
                              arith,
                              never,
                              unset,
                              notify_all_occurred irq_num r.arrived (yield checked)
                                  (yield-Good checked g1) h,
                            ))
                      ])
            ])
    ]
