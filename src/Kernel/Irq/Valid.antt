-- ===== src/Kernel/Irq/Valid.antt =====
-- The waiter table is well formed: no waiter beyond `num_waiters`, and no two for one thread and line.
use e_comos.Prelude.{
  ℕ, zero, suc, ◌∙◌, ◌≤◌, ◌≡◌, refl, true, false, List, [], ◌∷◌, length, get_or, arith, ap,
}
use e_comos.Kernel.Irq.{
  Irq, Waiter, max_irq_waiters, max_irqs, no_waiter, waiter, clear_waiters, syscall_irq_init,
}

pub record IsValid (s : Irq) : Type 0 where
  pub slots : length s.waiters ≡ max_irq_waiters
  pub lines : length s.occurred ≡ max_irqs
  pub counters : length s.count ≡ max_irqs
  pub bounded : s.num_waiters ≤ max_irq_waiters
  pub beyond : (i : ℕ) → s.num_waiters ≤ i → (waiter s i).is_active ≡ false
  pub unique :
      (i j : ℕ)
      → (waiter s i).is_active ≡ true
      → (waiter s j).is_active ≡ true
      → (waiter s i).pid ≡ (waiter s j).pid
      → (waiter s i).irq_number ≡ (waiter s j).irq_number
      → i ≡ j

length-clear_waiters : (ws : List Waiter) → length (clear_waiters ws) ≡ length ws
unfolding clear_waiters
length-clear_waiters [] = refl
length-clear_waiters (w ∷ ws) = ap suc (length-clear_waiters ws)

clear_waiters_inactive :
    (ws : List Waiter) (i : ℕ) → (get_or (clear_waiters ws) i no_waiter).is_active ≡ false
unfolding clear_waiters
clear_waiters_inactive [] i = refl
clear_waiters_inactive (w ∷ ws) zero = refl
clear_waiters_inactive (w ∷ ws) (suc i) = clear_waiters_inactive ws i

-- `syscall_irq_init` leaves a well-formed table with no waiter, whatever the array held.
pub syscall_irq_init-IsValid :
    (s : Irq) → length s.waiters ≡ max_irq_waiters → IsValid (syscall_irq_init s)
unfolding syscall_irq_init
syscall_irq_init-IsValid s h = record {
  slots = length-clear_waiters s.waiters ∙ h;
  lines = refl;
  counters = refl;
  bounded = omega arith;
  beyond = λ i b. clear_waiters_inactive s.waiters i;
  unique = λ i j a. cc (clear_waiters_inactive s.waiters i);
}
