-- ===== src/Kernel/Main/Round.antt =====
-- What a round of the main loop leaves.
use e_comos.Prelude.{
  ℕ, ◌+◌, ◌%◌, ◌≡◌, ◌≢◌, inl, inr, refl, ◌^◌, ◌==◌, ◌&&◌, ltb, sym, ap, ap₂, ◌∙◌, Option, none,
  some, [], ◌∷◌, ◌++◌, length, arith, Bool-cases, if_true, if_false,
}
use mathlib.Core.Path.{subst}
use e_comos.Prelude.Int.{ℤ}
use e_comos.Kernel.Ipc.{Ipc, Message, ipc_send, ipc_receive}
use e_comos.Kernel.Ipc.Fifo.{Fifo, push, pop}
use e_comos.Kernel.Ipc.Valid.{ipc_receive-IsValid, ipc_send-IsValid}
use e_comos.Kernel.Ipc.Refine.{contents-ipc_send, contents, length-contents, ipc_receive_refines}
use e_comos.Kernel.Mm.{Mm, max_pages}
use e_comos.Kernel.Sched.{sched_schedule}
use e_comos.Kernel.Sched.Valid
use e_comos.Kernel.Sched.Valid.{SameIndices-IsValid}
use e_comos.Kernel.Sched.Schedule.{sched_schedule-IsValid}
use e_comos.Kernel.Irq.{syscall_irq_check_timeouts}
use e_comos.Kernel.Irq.Notify.{syscall_irq_check_timeouts-Swept}
use e_comos.Kernel.Main.{Kernel, forward_if, forward, count_used, check_pages, kernel_round}

-- The oldest message goes to the end.
abbrev pub rotate : Fifo → Fifo
rotate [] = []
rotate (m ∷ q) = q ++ m ∷ []

-- Every table is well formed.
pub record IsValid (k : Kernel) : Type 0 where
  pub ipc : e_comos.Kernel.Ipc.Valid.IsValid k.ipc
  pub irq : e_comos.Kernel.Irq.Valid.IsValid k.irq
  pub threads : Valid.IsValid k.sched
  pub mm : e_comos.Kernel.Mm.Alloc.IsValid k.mm

not_none : {m : Message} → some m ≡ none → ⊥
not_none e = cc

same_one : {m m' : Message} → some m ≡ some m' → m ≡ m'
same_one e = cc

forward-IsValid :
    (q : Ipc) → e_comos.Kernel.Ipc.Valid.IsValid q → e_comos.Kernel.Ipc.Valid.IsValid (forward q)
unfolding forward
forward-IsValid q v = go (ipc_receive q) (ipc_receive-IsValid v)
  where
    go :
        (r : ℤ × Option Message × Ipc)
        → e_comos.Kernel.Ipc.Valid.IsValid r.2
        → e_comos.Kernel.Ipc.Valid.IsValid (forward_if r)
    go (rc, none, q) w = w
    go (rc, some m, q) w = ipc_send-IsValid m.target m w

forward-rotate :
    (q : Ipc) → e_comos.Kernel.Ipc.Valid.IsValid q → contents (forward q) ≡ rotate (contents q)
unfolding forward pop push
forward-rotate q v = go (contents q) refl (ipc_receive q) refl
  where
    popped :
        (r : ℤ × Option Message × Ipc)
        → ipc_receive q ≡ r
        → (r.0, r.1, contents r.2) ≡ pop (contents q)
    popped r g =
        ap (λ (r : ℤ × Option Message × Ipc). (r.0, r.1, contents r.2)) (sym g)
        ∙ ipc_receive_refines v

    go :
        (f : Fifo)
        → contents q ≡ f
        → (r : ℤ × Option Message × Ipc) → ipc_receive q ≡ r
        → contents (forward_if r) ≡ rotate f
    go [] e (rc, none, r) g =
        ap (λ (z : ℤ × Option Message × Fifo). z.2) (popped (rc, none, r) g ∙ ap pop e)
    go [] e (rc, some m, r) g = absurd (
        not_none
          (ap (λ (z : ℤ × Option Message × Fifo). z.1) (popped (rc, some m, r) g ∙ ap pop e)))
    go (m' ∷ ms) e (rc, none, r) g = absurd (
        not_none
          (sym (ap (λ (z : ℤ × Option Message × Fifo). z.1) (popped (rc, none, r) g ∙ ap pop e))))
    go (m' ∷ ms) e (rc, some m, r) g =
        let both = popped (rc, some m, r) g ∙ ap pop e in
        let rest : contents r ≡ ms = ap (λ (z : ℤ × Option Message × Fifo). z.2) both in
        let same : m ≡ m' = same_one (ap (λ (z : ℤ × Option Message × Fifo). z.1) both) in
        let few : length ms ≢ 31 = λ h.
          absurd (omega (arith, ap (λ (x : Fifo). length x) e, length-contents q, v.head_in)) in
        contents-ipc_send m.target m
          (subst e_comos.Kernel.Ipc.Valid.IsValid (ap (λ (z : ℤ × Option Message × Ipc). z.2) g)
            (ipc_receive-IsValid v))
          (λ h. few (ap (λ (x : Fifo). length x) (sym rest) ∙ h))
        ∙ ap₂ (λ (x : Message) (y : Fifo). y ++ x ∷ []) same rest

check_pages-IsValid :
    (counter : ℕ) (m : Mm)
    → e_comos.Kernel.Mm.Alloc.IsValid m
    → e_comos.Kernel.Mm.Alloc.IsValid (check_pages counter m)
unfolding check_pages
check_pages-IsValid counter m v =
    elim (Bool-cases (counter % 100 == 0 && ltb 3276 (count_used max_pages 0 m.page_bitmap))) [
      | inr off ↦ subst e_comos.Kernel.Mm.Alloc.IsValid (sym (if_false _ _ off)) v
      | inl on ↦ subst e_comos.Kernel.Mm.Alloc.IsValid (sym (if_true _ _ on)) record {
        covers = v.covers;
        bytes = v.bytes;
        next_in = omega arith;
        used_below = λ j h. absurd (omega arith);
      }
    ]

-- A round of the main loop keeps every table well formed, the scheduler's indices inside its table among
-- that, and moves the oldest message that waits to the
-- end of the queue; no message is lost, and the others keep their order.
pub kernel_round-IsValid :
    (now : ℕ) (k : Kernel)
    → IsValid k
    → IsValid (kernel_round now k) × (contents (kernel_round now k).ipc ≡ rotate (contents k.ipc))
unfolding kernel_round
kernel_round-IsValid now k v =
    let threads = sched_schedule-IsValid k.sched v.threads in
    let swept =
      syscall_irq_check_timeouts-Swept now k.irq (sched_schedule k.sched) v.irq threads.slots in
    (
      record {
        ipc = forward-IsValid k.ipc v.ipc;
        irq = swept.valid;
        threads = SameIndices-IsValid _ threads swept.size swept.indices;
        mm = check_pages-IsValid ((k.mm_check_counter + 1) % 2 ^ 32) k.mm v.mm;
      },
      forward-rotate k.ipc v.ipc,
    )
