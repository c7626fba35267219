-- ===== src/Kernel/Irq/Finish.antt =====
-- The end of `syscall_irq_wait`, behind its loop.
use mathlib.Core.Path.{subst}
use e_comos.Prelude.{
  ℕ, zero, suc, ◌≡◌, ◌≢◌, ◌⊎◌, inl, inr, refl, sym, ap, ◌∙◌, true, false, ◌&&◌, Option, none, some,
  List, [], ◌∷◌, get_or, set, length-set, arith, Bool-cases, if_true, if_false,
}
use e_comos.Prelude.Int.{ℤ, pos, negsuc}
use e_comos.Kernel.Sched.{Sched, thread}
use e_comos.Kernel.Sched.Valid
use e_comos.Kernel.Irq.{
  waits_for, no_waiter, Irq, waiter, find_irq_waiter, remove_irq_waiter, remove_found,
}
use e_comos.Kernel.Irq.Valid.{IsValid}
use e_comos.Kernel.Irq.Waiters.{remove_irq_waiter_lem}
use e_comos.Kernel.Irq.Adding.{Waits}
use e_comos.Kernel.Irq.Wait.{irq_wait_clear, has_flag, has_occurred, clear_flag, is_timeout, finish}
use e_comos.Kernel.Irq.Loop.{Good}

pub clear_flag-IsValid :
    (irq_num flags : ℕ) (s : Irq) → IsValid s → IsValid (clear_flag irq_num flags s)
clear_flag-IsValid irq_num flags s v =
    elim (Bool-cases (has_occurred irq_num s && has_flag flags irq_wait_clear)) [
      | inr off ↦ subst IsValid (sym (if_false _ _ off)) v
      | inl on ↦ subst IsValid (sym (if_true _ _ on)) record {
        slots = v.slots;
        lines = length-set s.occurred irq_num 0 ∙ v.lines;
        counters = v.counters;
        bounded = v.bounded;
        beyond = v.beyond;
        unique = v.unique;
      }
    ]

-- A call with IRQ_WAIT_CLEAR leaves the line's flag clear.
clear_flag_lem :
    (irq_num flags : ℕ) (s : Irq)
    → has_flag flags irq_wait_clear ≡ true
    → has_occurred irq_num (clear_flag irq_num flags s) ≡ false
clear_flag_lem irq_num flags s asked =
    elim (Bool-cases (has_occurred irq_num s && has_flag flags irq_wait_clear)) [
      | inr off ↦ ap (has_occurred irq_num) (if_false _ _ off) ∙ ground arith
      | inl on ↦ ap (has_occurred irq_num) (if_true _ _ on) ∙ set_zero s.occurred irq_num
    ]
  where
    set_zero : (xs : List ℕ) (i : ℕ) → has_occurred i (record s { occurred = set xs i 0 }) ≡ false
    set_zero [] i = refl
    set_zero (x ∷ xs) zero = refl
    set_zero (x ∷ xs) (suc i) = set_zero xs i

remove-occurred :
    (pid irq_num : ℕ) (s : Irq) → (remove_irq_waiter pid irq_num s).occurred ≡ s.occurred
unfolding remove_irq_waiter
remove-occurred pid irq_num s = by_cases (find_irq_waiter pid irq_num s)
  where
    by_cases : (r : Option ℕ) → (remove_found s r).occurred ≡ s.occurred
    by_cases none = refl
    by_cases (some i) = refl

-- -3 if the last error of the thread in the slot `me` is -3, which is then cleared; otherwise 0, and the
-- scheduler is as before.
abbrev pub CodeSpec : ℕ → Sched → ℤ → Sched → Type 0
CodeSpec me p code p' =
    (((thread p me).last_error ≡ negsuc 2)
      × (code ≡ negsuc 2)
      × (p'
          ≡ record p { threads = set p.threads me (record (thread p me) { last_error = pos 0 }) }))
    ⊎ (((thread p me).last_error ≢ negsuc 2) × (code ≡ pos 0) × (p' ≡ p))

-- The call is over after the loop left `st`: the code is the one that the thread's last error asks for,
-- no waiter of the thread on the line is left, and the flag is clear if that was asked for.
pub record Over (pid irq_num flags me : ℕ) (st : Irq × Sched) (r : ℤ × Irq × Sched) : Type 0 where
  pub code : CodeSpec me st.1 r.0 r.2
  pub valid : IsValid r.1
  pub threads : Valid.IsValid r.2
  pub gone : ¬ Waits pid irq_num r.1
  pub others :
      (j : ℕ) → waits_for pid irq_num (waiter st.0 j) ≡ false → waiter r.1 j ≡ waiter st.0 j
  pub cleared : has_flag flags irq_wait_clear ≡ true → has_occurred irq_num r.1 ≡ false

clear_flag-waiters :
    (irq_num flags : ℕ) (s : Irq) → (clear_flag irq_num flags s).waiters ≡ s.waiters
clear_flag-waiters irq_num flags s =
    elim (Bool-cases (has_occurred irq_num s && has_flag flags irq_wait_clear)) [
      | inr off ↦ ap (λ (z : Irq). z.waiters) (if_false _ _ off)
      | inl on ↦ ap (λ (z : Irq). z.waiters) (if_true _ _ on)
    ]

timeout_error : (x : ℤ) → is_timeout x ≡ true → x ≡ negsuc 2
timeout_error (pos n) h = absurd (ground arith)
timeout_error (negsuc n) h = ap negsuc (ground (arith, h))

pub finish-Over :
    (pid irq_num flags me : ℕ) (st : Irq × Sched)
    → Good st
    → Over pid irq_num flags me st (finish pid irq_num flags me st)
unfolding finish
finish-Over pid irq_num flags me (s, p) g =
    let cleared = clear_flag irq_num flags s in
    let removed =
      remove_irq_waiter_lem pid irq_num cleared (clear_flag-IsValid irq_num flags s g.table) in
    let same = remove-occurred pid irq_num cleared in
    let kept : (j : ℕ) → waiter cleared j ≡ waiter s j =
      λ j. ap (λ ws. get_or ws j no_waiter) (clear_flag-waiters irq_num flags s) in
    let away : (j : ℕ)
        → waits_for pid irq_num (waiter s j) ≡ false
        → waiter (remove_irq_waiter pid irq_num cleared) j ≡ waiter s j =
      λ j off. removed.2 j ∙ if_false _ _ (ap (waits_for pid irq_num) (kept j) ∙ off) ∙ kept j in
    elim (Bool-cases (is_timeout (thread p me).last_error)) [
      | inl late ↦ subst (Over pid irq_num flags me (s, p)) (sym (if_true _ _ late)) record {
        code = inl (timeout_error _ late, refl, refl);
        valid = removed.0;
        threads = record {
          slots = length-set p.threads me _ ∙ g.threads.slots;
          current_in = g.threads.current_in;
          last_in = g.threads.last_in;
        };
        gone = removed.1;
        others = away;
        cleared = λ asked.
            ground
              (arith, ap (λ xs. get_or xs irq_num 0) same, clear_flag_lem irq_num flags s asked);
      }
      | inr on_time ↦ subst (Over pid irq_num flags me (s, p)) (sym (if_false _ _ on_time)) record {
        code = inr (λ e. cc (on_time, ap is_timeout e), refl, refl);
        valid = removed.0;
        threads = g.threads;
        gone = removed.1;
        others = away;
        cleared = λ asked.
            ground
              (arith, ap (λ xs. get_or xs irq_num 0) same, clear_flag_lem irq_num flags s asked);
      }
    ]
