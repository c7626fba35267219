-- ===== src/Kernel/Irq/Returns.antt =====
-- `syscall_irq_wait` on each of its branches.
use mathlib.Core.Path.{subst}
use e_comos.Prelude.{
  ℕ, ◌≤◌, ◌<◌, ◌≡◌, ◌≢◌, ◌⊎◌, inl, inr, refl, sym, ◌∙◌, true, false, Option, none, some, List,
  length-set, get_or-set_self, get_or-set_ne, leb, ◌==◌, arith, Bool-cases, if_true, if_false,
}
use e_comos.Prelude.Int.{ℤ, pos, negsuc}
use e_comos.Kernel.Sched.{Thread, blocked, free_thread, Sched, thread, sched_get_current_pid}
use e_comos.Kernel.Sched.Valid
use e_comos.Kernel.Irq.{add_irq_waiter, Irq, max_irqs, waiter, new_waiter}
use e_comos.Kernel.Irq.Valid.{IsValid}
use e_comos.Kernel.Irq.Adding.{Waits, AddSpec, add_irq_waiter-AddSpec}
use e_comos.Kernel.Irq.Wait.{
  Round, irq_wait_nowait, has_flag, has_occurred, clear_flag, block_on, wait_loop, finish_if,
  wait_added, syscall_irq_wait,
}
use e_comos.Kernel.Irq.Loop.{LoopSpec, Good, arrives, wait_loop-LoopSpec}
use e_comos.Kernel.Irq.Finish.{Over, finish-Over}

-- The four tests that come before the table is asked all pass.
pub record Enters (irq_num flags : ℕ) (s : Irq) (p : Sched) : Type 0 where
  pub known : irq_num < 16
  pub process : sched_get_current_pid p ≢ 0
  pub unset : has_occurred irq_num s ≡ false
  pub may_wait : has_flag flags irq_wait_nowait ≡ false

-- The current thread is blocked on the line, and nothing else in the scheduler changes.
pub record Blocked (irq_num : ℕ) (p p' : Sched) : Type 0 where
  pub me :
      thread p' p.current_thread
      ≡ record (thread p p.current_thread) { state = blocked; block_reason = 1; irq_num = irq_num }
  pub others : (k : ℕ) → p.current_thread ≢ k → thread p' k ≡ thread p k
  pub rest : p' ≡ record p { threads = p'.threads }

pub data WaitSpec (irq_num flags timeout_ms now : ℕ) (rs : List Round) (s : Irq) (p : Sched)
    : Option (ℤ × Irq × Sched) → Type 0 where
  unknown_line : 16 ≤ irq_num → WaitSpec irq_num flags timeout_ms now rs s p (some (negsuc 0, s, p))
  no_process :
      irq_num < 16
      → sched_get_current_pid p ≡ 0
      → WaitSpec irq_num flags timeout_ms now rs s p (some (negsuc 3, s, p))
  pending :
      irq_num < 16
      → sched_get_current_pid p ≢ 0
      → has_occurred irq_num s ≡ true
      → WaitSpec irq_num flags timeout_ms now rs s p (some (pos 0, clear_flag irq_num flags s, p))
  refused :
      irq_num < 16
      → sched_get_current_pid p ≢ 0
      → has_occurred irq_num s ≡ false
      → has_flag flags irq_wait_nowait ≡ true
      → WaitSpec irq_num flags timeout_ms now rs s p (some (negsuc 1, s, p))
  -- the thread waits on the line already
  twice :
      Enters irq_num flags s p
      → Waits (sched_get_current_pid p) irq_num s
      → WaitSpec irq_num flags timeout_ms now rs s p (some (negsuc 1, s, p))
  full :
      Enters irq_num flags s p
      → ¬ Waits (sched_get_current_pid p) irq_num s
      → ((i : ℕ) → i < 16 → (waiter s i).is_active ≡ true)
      → WaitSpec irq_num flags timeout_ms now rs s p (some (negsuc 0, s, p))
  -- the waiter is added, the call still waits when the rounds end, and no round had the line's interrupt
  waiting :
      (s' : Irq) (p' : Sched)
      → Enters irq_num flags s p
      → ¬ Waits (sched_get_current_pid p) irq_num s
      → add_irq_waiter (sched_get_current_pid p) irq_num flags timeout_ms now s ≡ (pos 0, s')
      → Blocked irq_num p p'
      → wait_loop (sched_get_current_pid p) irq_num rs (s', p') ≡ none
      → arrives irq_num rs ≡ false
      → WaitSpec irq_num flags timeout_ms now rs s p none
  -- the waiter is added, and the loop ends with the flag set or the waiter gone
  returned :
      (s' : Irq) (p' : Sched) (st : Irq × Sched) {r : ℤ × Irq × Sched}
      → Enters irq_num flags s p
      → ¬ Waits (sched_get_current_pid p) irq_num s
      → add_irq_waiter (sched_get_current_pid p) irq_num flags timeout_ms now s ≡ (pos 0, s')
      → Blocked irq_num p p'
      → wait_loop (sched_get_current_pid p) irq_num rs (s', p') ≡ some st
      → (has_occurred irq_num st.0 ≡ true) ⊎ ¬ Waits (sched_get_current_pid p) irq_num st.0
      → Over (sched_get_current_pid p) irq_num flags p.current_thread st r
      → WaitSpec irq_num flags timeout_ms now rs s p (some r)

block_on-Blocked :
    (irq_num : ℕ) {p : Sched} → Valid.IsValid p → Blocked irq_num p (block_on irq_num p)
block_on-Blocked irq_num {p} v = record {
  me =
      get_or-set_self p.threads p.current_thread (blocked_thread p) free_thread
        (omega (arith, v.slots, v.current_in));
  others = λ k ne. get_or-set_ne p.threads p.current_thread k (blocked_thread p) free_thread ne;
  rest = refl;
}
  where
    blocked_thread : Sched → Thread
    blocked_thread p = record (thread p p.current_thread) {
      state = blocked;
      block_reason = 1;
      irq_num = irq_num;
    }

block_on-Good :
    (irq_num : ℕ) (s : Irq) (p : Sched) → IsValid s → Valid.IsValid p → Good (s, block_on irq_num p)
block_on-Good irq_num s p v l = record {
  table = v;
  threads = record {
    slots = length-set p.threads p.current_thread _ ∙ l.slots;
    current_in = l.current_in;
    last_in = l.last_in;
  };
}

pub syscall_irq_wait-WaitSpec :
    (irq_num flags timeout_ms now : ℕ) (rs : List Round) (s : Irq) (p : Sched)
    → IsValid s
    → Valid.IsValid p
    → WaitSpec irq_num flags timeout_ms now rs s p
        (syscall_irq_wait irq_num flags timeout_ms now rs s p)
unfolding syscall_irq_wait
syscall_irq_wait-WaitSpec irq_num flags timeout_ms now rs s p v l =
    let Spec = WaitSpec irq_num flags timeout_ms now rs s p in
    let pid = sched_get_current_pid p in
    elim (Bool-cases (leb max_irqs irq_num)) [
      | inl far ↦ subst Spec (sym (if_true _ _ far)) (WaitSpec.unknown_line (ground arith))
      | inr near ↦ subst Spec (sym (if_false _ _ near)) (elim (Bool-cases (pid == 0)) [
        | inl zero_pid ↦
            subst Spec (sym (if_true _ _ zero_pid))
              (WaitSpec.no_process (ground arith) (ground arith))
        | inr has_pid ↦
            subst Spec (sym (if_false _ _ has_pid)) (elim (Bool-cases (has_occurred irq_num s)) [
              | inl on ↦
                  subst Spec (sym (if_true _ _ on))
                    (WaitSpec.pending (ground arith) (ground arith) on)
              | inr off ↦
                  subst Spec (sym (if_false _ _ off))
                    (elim (Bool-cases (has_flag flags irq_wait_nowait)) [
                      | inl no_wait ↦
                          subst Spec (sym (if_true _ _ no_wait))
                            (WaitSpec.refused (ground arith) (ground arith) off no_wait)
                      | inr may_wait ↦ subst Spec (sym (if_false _ _ may_wait)) (
                          added irq_num flags timeout_ms now rs s p l
                            record {
                              known = ground arith;
                              process = ground arith;
                              unset = off;
                              may_wait = may_wait;
                            }
                            refl (add_irq_waiter-AddSpec pid irq_num flags timeout_ms now s v))
                    ])
            ])
      ])
    ]
  where
    waited :
        (irq_num flags timeout_ms now : ℕ) (rs : List Round) (s s' : Irq) (p : Sched)
        → {r : Option (Irq × Sched)} → Enters irq_num flags s p
        → ¬ Waits (sched_get_current_pid p) irq_num s
        → add_irq_waiter (sched_get_current_pid p) irq_num flags timeout_ms now s ≡ (pos 0, s')
        → Blocked irq_num p (block_on irq_num p)
        → wait_loop (sched_get_current_pid p) irq_num rs (s', block_on irq_num p) ≡ r
        → LoopSpec (sched_get_current_pid p) irq_num rs (s', block_on irq_num p) r
        → WaitSpec irq_num flags timeout_ms now rs s p
            (finish_if (sched_get_current_pid p) irq_num flags p.current_thread r)
    waited irq_num flags timeout_ms now rs s s' p t new e b f (LoopSpec.waits off never) =
        WaitSpec.waiting s' (block_on irq_num p) t new e b f never
    waited irq_num flags timeout_ms now rs s s' p t new e b f (LoopSpec.ends {st' = st} good why) =
        WaitSpec.returned s' (block_on irq_num p) st t new e b f why
          (finish-Over (sched_get_current_pid p) irq_num flags p.current_thread st good)

    added :
        (irq_num flags timeout_ms now : ℕ) (rs : List Round) (s : Irq) (p : Sched)
        → Valid.IsValid p
        → Enters irq_num flags s p
        → {r : ℤ × Irq}
        → add_irq_waiter (sched_get_current_pid p) irq_num flags timeout_ms now s ≡ r
        → AddSpec (new_waiter (sched_get_current_pid p) irq_num flags timeout_ms now) s r
        → WaitSpec irq_num flags timeout_ms now rs s p
            (wait_added (sched_get_current_pid p) irq_num flags rs p r)
    added irq_num flags timeout_ms now rs s p l t e (AddSpec.already w) = WaitSpec.twice t w
    added irq_num flags timeout_ms now rs s p l t e (AddSpec.full new all) = WaitSpec.full t new all
    added irq_num flags timeout_ms now rs s p l t e (AddSpec.added i s' new a) =
        waited irq_num flags timeout_ms now rs s s' p t new e (block_on-Blocked irq_num l) refl (
          wait_loop-LoopSpec (sched_get_current_pid p) irq_num rs (s', block_on irq_num p)
            (block_on-Good irq_num s' p a.valid l) t.known)
