-- ===== src/Kernel/Irq/Adding.antt =====
-- Adding a waiter to the table (source/kernel/src/kernel/syscall.c).
use mathlib.Core.Path.{subst}
use e_comos.Prelude.{
  ℕ, ◌+◌, ◌<◌, ◌≡◌, ◌≢◌, ◌⊎◌, inl, inr, refl, sym, ap, ◌∙◌, true, false, not, none, some, set,
  length-set, get_or-set_self, get_or-set_ne, leb, if◌then◌else◌, arith, ℕ_discrete, dec_lt,
}
use e_comos.Prelude.Int.{ℤ, pos, negsuc}
use e_comos.Prelude.Search.{find_from-cases}
use e_comos.Kernel.Irq.{
  Irq, Waiter, max_irq_waiters, no_waiter, waiter, waits_for, find_irq_waiter, new_waiter,
  put_waiter, add_if_new, add_irq_waiter,
}
use e_comos.Kernel.Irq.Valid.{IsValid}

-- Some waiter of `pid` on the line is active.
abbrev pub Waits : ℕ → ℕ → Irq → Type 0
Waits pid irq_num s = (i : ℕ) × (waits_for pid irq_num (waiter s i) ≡ true)

pub active_below : {s : Irq} (i : ℕ) → IsValid s → (waiter s i).is_active ≡ true → i < s.num_waiters
active_below {s} i v a = elim (dec_lt i s.num_waiters) [
  | yes h ↦ h
  | no h ↦ absurd (ground (arith, v.beyond i (omega arith)))
]

-- In a well-formed table, `find_irq_waiter` finds a waiter exactly if there is one.
pub find_irq_waiter-cases :
    (pid irq_num : ℕ) (s : Irq)
    → IsValid s
    → ((i : ℕ) × (find_irq_waiter pid irq_num s ≡ some i)
        × (waits_for pid irq_num (waiter s i) ≡ true))
      ⊎ ((find_irq_waiter pid irq_num s ≡ none) × ¬ Waits pid irq_num s)
unfolding find_irq_waiter
find_irq_waiter-cases pid irq_num s v =
    elim (find_from-cases (λ i. waits_for pid irq_num (waiter s i)) s.num_waiters 0) [
      | inl (i, e, f) ↦ inl (i, e, f.passes)
      | inr (e, empty) ↦
          inr (e, λ w. ground (arith, empty w.0, active_below w.0 v (ground (arith, w.1)), w.1))
    ]

-- The waiter goes to slot `i`, which was free; the others are as before.
pub record Added (w : Waiter) (s s' : Irq) (i : ℕ) : Type 0 where
  pub in_range : i < max_irq_waiters
  pub was_free : (waiter s i).is_active ≡ false
  pub here : waiter s' i ≡ w
  pub others : (j : ℕ) → i ≢ j → waiter s' j ≡ waiter s j
  pub lines : (s'.occurred ≡ s.occurred) × (s'.count ≡ s.count)
  pub valid : IsValid s'

pub data AddSpec (w : Waiter) (s : Irq) : ℤ × Irq → Type 0 where
  -- -2: the thread waits on the line already.
  already : Waits w.pid w.irq_number s → AddSpec w s (negsuc 1, s)
  -- -1: all sixteen slots are taken.
  full :
      ¬ Waits w.pid w.irq_number s
      → ((i : ℕ) → i < max_irq_waiters → (waiter s i).is_active ≡ true)
      → AddSpec w s (negsuc 0, s)
  added :
      (i : ℕ) (s' : Irq) → ¬ Waits w.pid w.irq_number s → Added w s s' i → AddSpec w s (pos 0, s')

abbrev pub placed : Waiter → Irq → ℕ → Irq
placed w s i = record s {
  waiters = set s.waiters i w;
  num_waiters = if leb s.num_waiters i then i + 1 else s.num_waiters;
}

pub placed-Added :
    (w : Waiter) (s : Irq) (i : ℕ)
    → IsValid s
    → w.is_active ≡ true
    → ¬ Waits w.pid w.irq_number s
    → i < max_irq_waiters
    → (waiter s i).is_active ≡ false
    → Added w s (placed w s i) i
placed-Added w s i v act new h free = record {
  in_range = h;
  was_free = free;
  here = self;
  others = others';
  lines = (refl, refl);
  valid = record {
    slots = length-set s.waiters i w ∙ v.slots;
    lines = v.lines;
    counters = v.counters;
    bounded = ground (arith, v.bounded);
    beyond = λ j b. ground (arith, others' j, v.beyond j);
    unique = unique';
  };
}
  where
    self : waiter (placed w s i) i ≡ w
    self = get_or-set_self s.waiters i w no_waiter (omega (arith, v.slots))

    others' : (j : ℕ) → i ≢ j → waiter (placed w s i) j ≡ waiter s j
    others' j ne = get_or-set_ne s.waiters i j w no_waiter ne

    taken :
        (j : ℕ)
        → (waiter s j).is_active ≡ true
        → (waiter s j).pid ≡ w.pid
        → (waiter s j).irq_number ≡ w.irq_number
        → ⊥
    taken j a p q = new (j, ground arith)

    unique' :
        (a b : ℕ)
        → (waiter (placed w s i) a).is_active ≡ true
        → (waiter (placed w s i) b).is_active ≡ true
        → (waiter (placed w s i) a).pid ≡ (waiter (placed w s i) b).pid
        → (waiter (placed w s i) a).irq_number ≡ (waiter (placed w s i) b).irq_number
        → a ≡ b
    unique' a b x y p q = elim (ℕ_discrete i a) [
      | yes e ↦ elim (ℕ_discrete i b) [
        | yes f ↦ sym e ∙ f
        | no f ↦
            let at_a = ap (waiter (placed w s i)) (sym e) ∙ self in
            absurd (taken b (cc (others' b f)) (cc (others' b f, at_a)) (cc (others' b f, at_a)))
      ]
      | no e ↦ elim (ℕ_discrete i b) [
        | yes f ↦
            let at_b = ap (waiter (placed w s i)) (sym f) ∙ self in
            absurd (taken a (cc (others' a e)) (cc (others' a e, at_b)) (cc (others' a e, at_b)))
        | no f ↦
            v.unique a b (cc (others' a e)) (cc (others' b f)) (cc (others' a e, others' b f))
              (cc (others' a e, others' b f))
      ]
    ]

-- In a well-formed table, adding a waiter is refused with -2 when the thread waits on the line already,
-- and with -1 when all sixteen slots are active; otherwise the new waiter takes a free slot, the other
-- slots and the counters are as before, and the table stays well formed.
pub add_irq_waiter-AddSpec :
    (pid irq_num flags timeout_ms now : ℕ) (s : Irq)
    → IsValid s
    → AddSpec
        (new_waiter pid irq_num flags timeout_ms now)
        s
        (add_irq_waiter pid irq_num flags timeout_ms now s)
unfolding add_irq_waiter
add_irq_waiter-AddSpec pid irq_num flags timeout_ms now s v =
    let w = new_waiter pid irq_num flags timeout_ms now in
    elim (find_irq_waiter-cases pid irq_num s v) [
      | inl (i, e, here) ↦
          subst (AddSpec w s) (sym (ap (add_if_new w s) e)) (AddSpec.already (i, here))
      | inr (e, new) ↦
          subst (AddSpec w s) (sym (ap (add_if_new w s) e))
            (elim (find_from-cases (λ i. not (waiter s i).is_active) max_irq_waiters 0) [
              | inl (i, g, f) ↦ subst (AddSpec w s) (sym (ap (put_waiter w s) g)) (
                  AddSpec.added i (placed w s i) new (
                    placed-Added w s i v refl new (omega (arith, f.below))
                      (ground (arith, f.passes))))
              | inr (g, empty) ↦
                  subst (AddSpec w s) (sym (ap (put_waiter w s) g))
                    (AddSpec.full new (λ i h. ground (arith, empty i)))
            ])
    ]
