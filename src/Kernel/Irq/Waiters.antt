-- ===== src/Kernel/Irq/Waiters.antt =====
-- Adding, finding and removing a waiter.
use mathlib.Core.Path.{subst}
use e_comos.Prelude.{
  ℕ, ◌≡◌, inl, inr, sym, ap, ◌∙◌, true, false, length, length-set, get_or-set_self, get_or-set_ne,
  get_or_beyond, ◌==◌, if◌then◌else◌, arith, ℕ_discrete, dec_lt, Bool-cases, if_true, if_false,
  if_eq, if_ne,
}
use e_comos.Kernel.Irq.{
  Irq, Waiter, no_waiter, waiter, waits_for, deactivate, remove_found, remove_irq_waiter,
}
use e_comos.Kernel.Irq.Valid.{IsValid}
use e_comos.Kernel.Irq.Adding.{Waits, find_irq_waiter-cases}

-- Dropping one waiter.
pub deactivate_lem :
    (i j : ℕ) (s : Irq)
    → waiter (deactivate i s) j
      ≡ (if i == j then record (waiter s j) { is_active = false } else waiter s j)
deactivate_lem i j s = elim (ℕ_discrete i j) [
  | no ne ↦
      get_or-set_ne s.waiters i j (record (waiter s i) { is_active = false }) no_waiter ne
      ∙ ground arith
  | yes e ↦ rw (← e) (elim (dec_lt i (length s.waiters)) [
    | yes h ↦
        get_or-set_self s.waiters i (record (waiter s i) { is_active = false }) no_waiter h
        ∙ ground arith
    | no h ↦ ground (
      arith,
      get_or_beyond s.waiters i no_waiter (omega arith),
      get_or_beyond (deactivate i s).waiters i no_waiter
          (omega (arith, length-set s.waiters i (record (waiter s i) { is_active = false }))),
    )
  ])
]

-- A dropped waiter differs from the old one at most in that it is not active.
pub deactivate_kept :
    (i j : ℕ) (s : Irq)
    → (waiter (deactivate i s) j).is_active ≡ true
    → waiter (deactivate i s) j ≡ waiter s j
deactivate_kept i j s a = ground (arith, deactivate_lem i j s)

pub deactivate-IsValid : (i : ℕ) {s : Irq} → IsValid s → IsValid (deactivate i s)
deactivate-IsValid i {s} v = record {
  slots = length-set s.waiters i (record (waiter s i) { is_active = false }) ∙ v.slots;
  lines = v.lines;
  counters = v.counters;
  bounded = v.bounded;
  beyond = λ j b. ground (arith, deactivate_lem i j s, v.beyond j b);
  unique = λ a b x y p q.
      let at_a = deactivate_kept i a s x in
      let at_b = deactivate_kept i b s y in
      v.unique a b (cc at_a) (cc at_b) (cc (at_a, at_b)) (cc (at_a, at_b));
}

pub waits_parts :
    (pid irq_num : ℕ) (w : Waiter)
    → waits_for pid irq_num w ≡ true
    → (w.is_active ≡ true) × (w.pid ≡ pid) × (w.irq_number ≡ irq_num)
waits_parts pid irq_num w h = ground arith

pub waits_unique :
    (pid irq_num i j : ℕ) {s : Irq}
    → IsValid s
    → waits_for pid irq_num (waiter s i) ≡ true
    → waits_for pid irq_num (waiter s j) ≡ true
    → i ≡ j
waits_unique pid irq_num i j {s} v a b =
    let p = waits_parts pid irq_num (waiter s i) a in
    let q = waits_parts pid irq_num (waiter s j) b in
    v.unique i j p.0 q.0 (p.1 ∙ sym q.1) (p.2 ∙ sym q.2)

deactivate_gone :
    (pid irq_num i : ℕ) {s : Irq}
    → IsValid s
    → waits_for pid irq_num (waiter s i) ≡ true
    → ¬ Waits pid irq_num (deactivate i s)
deactivate_gone pid irq_num i {s} v here w =
    let kept =
      deactivate_kept i w.0 s (waits_parts pid irq_num (waiter (deactivate i s) w.0) w.1).0 in
    let same =
      waits_unique pid irq_num i w.0 v here (ap (waits_for pid irq_num) (sym kept) ∙ w.1) in
    ground (
      arith,
      waits_parts pid irq_num (waiter (deactivate i s) w.0) w.1,
      deactivate_lem i w.0 s,
      same,
    )

deactivate_others :
    (pid irq_num i j : ℕ) {s : Irq}
    → IsValid s
    → waits_for pid irq_num (waiter s i) ≡ true
    → waiter (deactivate i s) j ≡ (
        if waits_for pid irq_num (waiter s j)
        then record (waiter s j) { is_active = false }
        else waiter s j)
deactivate_others pid irq_num i j {s} v here =
    elim (Bool-cases (waits_for pid irq_num (waiter s j))) [
      | inl h ↦
          deactivate_lem i j s
          ∙ if_eq i j _ _ (waits_unique pid irq_num i j v here h)
          ∙ sym (if_true _ _ h)
      | inr h ↦
          deactivate_lem i j s
          ∙ if_ne i j _ _ (λ e. cc (here, h, ap (waiter s) e))
          ∙ sym (if_false _ _ h)
    ]

not_waiting :
    (pid irq_num : ℕ) (s : Irq)
    → ¬ Waits pid irq_num s
    → (j : ℕ) → waits_for pid irq_num (waiter s j) ≡ false
not_waiting pid irq_num s h j = elim (Bool-cases (waits_for pid irq_num (waiter s j))) [
  | inl yes' ↦ absurd (h (j, yes'))
  | inr no' ↦ no'
]

-- The table is well formed, no waiter of the thread is on the line, and the others are as before.
abbrev pub Removed : ℕ → ℕ → Irq → Irq → Type 0
Removed pid irq_num s s' =
    IsValid s'
    × ¬ Waits pid irq_num s'
    × ((j : ℕ)
        → waiter s' j ≡ (
            if waits_for pid irq_num (waiter s j)
            then record (waiter s j) { is_active = false }
            else waiter s j))

-- Removing a waiter leaves none of the thread on the line, keeps the waiters of other threads and lines,
-- and keeps the table well formed.
pub remove_irq_waiter_lem :
    (pid irq_num : ℕ) (s : Irq)
    → IsValid s
    → Removed pid irq_num s (remove_irq_waiter pid irq_num s)
unfolding remove_irq_waiter
remove_irq_waiter_lem pid irq_num s v = elim (find_irq_waiter-cases pid irq_num s v) [
  | inr (e, none_waits) ↦
      subst (Removed pid irq_num s) (sym (ap (remove_found s) e))
        (v, none_waits, λ j. sym (if_false _ _ (not_waiting pid irq_num s none_waits j)))
  | inl (i, e, here) ↦ subst (Removed pid irq_num s) (sym (ap (remove_found s) e)) (
    deactivate-IsValid i v,
    deactivate_gone pid irq_num i v here,
    λ j. deactivate_others pid irq_num i j v here,
  )
]
