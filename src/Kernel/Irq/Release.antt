-- ===== src/Kernel/Irq/Release.antt =====
-- The loop over the waiters that notification and timeouts share.
use mathlib.Core.Path.{subst}
use e_comos.Prelude.{
  ℕ, zero, suc, ◌+◌, ◌≡◌, ◌⊎◌, inl, inr, refl, sym, ap, ◌∙◌, true, false, Bool, ◌&&◌, Option, none,
  some, length, get_or-set_ne, leb, ltb, if◌then◌else◌, arith, Bool-cases, ℕ_discrete, if_true,
  if_false,
}
use e_comos.Prelude.Int.{ℤ}
use e_comos.Kernel.Sched.{Sched, Thread, max_threads, thread, sched_get_process_by_pid}
use e_comos.Kernel.Sched.Valid.{SameIndices}
use e_comos.Kernel.Irq.{
  Irq, Waiter, no_waiter, waiter, deactivate, is_blocked, awake, wake, release,
}
use e_comos.Kernel.Irq.Valid.{IsValid}
use e_comos.Kernel.Irq.Waiters.{deactivate_lem, deactivate_kept, deactivate-IsValid}
use e_comos.Kernel.Irq.Wake.{
  wake_indices, wake_others, Woken, wake-Woken, find_pid-wake, wake_blocked, wake-length,
}

-- The slots from `i` on, `n` of them.
abbrev within : ℕ → ℕ → ℕ → Bool
within i n j = leb i j && ltb j (i + n)

-- What the loop leaves: the waiters that were due are dropped and the others kept, a thread is as before
-- or was blocked and is awake, each blocked thread that a due waiter names is awake, and a thread that no
-- due waiter names is as before.
pub record Released (due : Waiter → Bool) (e : Option ℤ) (n i : ℕ) (s : Irq) (p : Sched)
    (r : Irq × Sched) : Type 0 where
  pub valid : IsValid r.0
  pub lines : (r.0.occurred ≡ s.occurred) × (r.0.count ≡ s.count)
  pub dropped :
      (j : ℕ)
      → waiter r.0 j ≡ (
          if within i n j && ((waiter s j).is_active && due (waiter s j))
          then record (waiter s j) { is_active = false }
          else waiter s j)
  pub size : length r.1.threads ≡ max_threads
  pub threads : (k : ℕ) → Woken e (thread p k) (thread r.1 k)
  pub caused :
      (k : ℕ)
      → (thread r.1 k ≡ thread p k)
        ⊎ ((j : ℕ) × (((waiter s j).is_active && due (waiter s j)) ≡ true)
            × (sched_get_process_by_pid (waiter s j).pid p ≡ some k))
  pub indices : SameIndices p r.1
  pub woken :
      (j k : ℕ)
      → within i n j ≡ true
      → ((waiter s j).is_active && due (waiter s j)) ≡ true
      → sched_get_process_by_pid (waiter s j).pid p ≡ some k
      → is_blocked (thread p k).state ≡ true
      → thread r.1 k ≡ awake e (thread p k)

awake_not_blocked : (e : Option ℤ) (t : Thread) → is_blocked (awake e t).state ≡ false
awake_not_blocked none t = refl
awake_not_blocked (some x) t = refl

Woken-trans : (e : Option ℤ) (a : Thread) {b c : Thread} → Woken e a b → Woken e b c → Woken e a c
Woken-trans e a (inl p) (inl q) = inl (q ∙ p)
Woken-trans e a (inl p) (inr (on, q)) =
    inr (ap (λ (t : Thread). is_blocked t.state) (sym p) ∙ on, q ∙ ap (awake e) p)
Woken-trans e a (inr p) (inl q) = inr (p.0, q ∙ p.1)
Woken-trans e a (inr p) (inr (on, q)) =
    absurd
      (ground (arith, sym on ∙ ap (λ (t : Thread). is_blocked t.state) p.1 ∙ awake_not_blocked e a))

-- A thread that is awake stays as it is.
Woken-awake :
    (e : Option ℤ) (a : Thread) {b c : Thread} → b ≡ awake e a → Woken e b c → c ≡ awake e a
Woken-awake e a up (inl q) = q ∙ up
Woken-awake e a up (inr (on, q)) =
    absurd
      (ground (arith, sym on ∙ ap (λ (t : Thread). is_blocked t.state) up ∙ awake_not_blocked e a))

-- Slot `i` is not due.
release_skip :
    (due : Waiter → Bool) (e : Option ℤ) (n i : ℕ) (s : Irq) (p : Sched) (r : Irq × Sched)
    → ((waiter s i).is_active && due (waiter s i)) ≡ false
    → Released due e n (i + 1) s p r
    → Released due e (suc n) i s p r
release_skip due e n i s p r off t = record {
  valid = t.valid;
  lines = t.lines;
  dropped = λ j. elim (ℕ_discrete i j) [
    | yes same ↦ rw (← same) (ground (arith, t.dropped i))
    | no ne ↦ ground (arith, t.dropped j)
  ];
  size = t.size;
  threads = t.threads;
  caused = t.caused;
  indices = t.indices;
  woken = λ j k h on found b. elim (ℕ_discrete i j) [
    | yes same ↦ absurd (ground (arith, ap (λ x. (waiter s x).is_active && due (waiter s x)) same))
    | no ne ↦ t.woken j k (ground arith) on found b
  ];
}

-- Slot `i` is due.
release_drop :
    (due : Waiter → Bool) (e : Option ℤ) (n i : ℕ) (s : Irq) (p : Sched) (r : Irq × Sched)
    → length p.threads ≡ max_threads
    → ((waiter s i).is_active && due (waiter s i)) ≡ true
    → Released due e n (i + 1) (deactivate i s) (wake e (waiter s i).pid p) r
    → Released due e (suc n) i s p r
release_drop due e n i s p r l on t = record {
  valid = t.valid;
  lines = t.lines;
  dropped = λ j. elim (ℕ_discrete i j) [
    | yes same ↦ rw (← same) (ground (arith, t.dropped i, deactivate_lem i i s))
    | no ne ↦ ground (
      arith,
      t.dropped j,
      get_or-set_ne s.waiters i j (record (waiter s i) { is_active = false }) no_waiter ne,
    )
  ];
  size = t.size;
  threads = λ k. Woken-trans e (thread p k) (wake-Woken e (waiter s i).pid p k) (t.threads k);
  caused = λ k. elim (t.caused k) [
    | inl same ↦ elim (wake_others e (waiter s i).pid p k) [
      | inl kept ↦ inl (same ∙ kept)
      | inr found ↦ inr (i, on, found)
    ]
    | inr (j, act, found) ↦
        let kept = deactivate_kept i j s (ground arith) in
        inr (
          j,
          ap (λ (w : Waiter). w.is_active && due w) (sym kept) ∙ act,
          ap (λ (w : Waiter). sched_get_process_by_pid w.pid p) (sym kept)
              ∙ sym (find_pid-wake e (waiter s i).pid (waiter (deactivate i s) j).pid p)
              ∙ found,
        )
  ];
  indices = let w = wake_indices e (waiter s i).pid p in (t.indices.0 ∙ w.0, t.indices.1 ∙ w.1);
  woken = woken';
}
  where
    woken' :
        (j k : ℕ)
        → within i (suc n) j ≡ true
        → ((waiter s j).is_active && due (waiter s j)) ≡ true
        → sched_get_process_by_pid (waiter s j).pid p ≡ some k
        → is_blocked (thread p k).state ≡ true
        → thread r.1 k ≡ awake e (thread p k)
    woken' j k h act found b = elim (ℕ_discrete i j) [
      | yes same ↦
          Woken-awake e (thread p k)
            (wake_blocked e (waiter s i).pid p l
              (ap (λ x. sched_get_process_by_pid (waiter s x).pid p) same ∙ found) b)
            (t.threads k)
      | no ne ↦
          let same =
            get_or-set_ne s.waiters i j (record (waiter s i) { is_active = false }) no_waiter ne in
          elim (wake-Woken e (waiter s i).pid p k) [
            | inr (was, up) ↦ Woken-awake e (thread p k) up (t.threads k)
            | inl q ↦
                t.woken j k (ground arith) (ap (λ (w : Waiter). w.is_active && due w) same ∙ act)
                  (find_pid-wake e (waiter s i).pid (waiter (deactivate i s) j).pid p
                    ∙ ap (λ (w : Waiter). sched_get_process_by_pid w.pid p) same
                    ∙ found)
                  (ap (λ (t : Thread). is_blocked t.state) q ∙ b)
                ∙ ap (awake e) q
          ]
    ]

pub release-Released :
    (due : Waiter → Bool) (e : Option ℤ) (n i : ℕ) (s : Irq) (p : Sched)
    → IsValid s
    → length p.threads ≡ max_threads
    → Released due e n i s p (release due e n i (s, p))
unfolding release
release-Released due e zero i s p v l = record {
  valid = v;
  lines = (refl, refl);
  dropped = λ j. ground arith;
  size = l;
  threads = λ k. inl refl;
  caused = λ k. inl refl;
  indices = (refl, refl);
  woken = λ j k h. absurd (ground arith);
}
release-Released due e (suc n) i s p v l =
    elim (Bool-cases ((waiter s i).is_active && due (waiter s i))) [
      | inr off ↦
          subst (λ z. Released due e (suc n) i s p (release due e n (i + 1) z))
            (sym (if_false _ _ off))
            (release_skip due e n i s p (release due e n (i + 1) (s, p)) off
              (release-Released due e n (i + 1) s p v l))
      | inl on ↦
          subst (λ z. Released due e (suc n) i s p (release due e n (i + 1) z))
            (sym (if_true _ _ on))
            (release_drop due e n i s p
              (release due e n (i + 1) (deactivate i s, wake e (waiter s i).pid p)) l on
              (release-Released due e n (i + 1) (deactivate i s) (wake e (waiter s i).pid p)
                (deactivate-IsValid i v) (wake-length e (waiter s i).pid p ∙ l)))
    ]
