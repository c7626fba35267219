-- ===== src/Kernel/Sched/Pick.antt =====
-- The search for the next thread: the nearest runnable one, going round the table.
use e_comos.Prelude.{
  ℕ, zero, suc, ◌+◌, ◌-◌, ◌%◌, ◌<◌, ◌≡◌, ◌⊎◌, inl, inr, refl, Bool, true, false, Option, none, some,
  List, get_or, arith, Bool-cases, ℕ_discrete, ap, ◌≢◌,
}
use e_comos.Kernel.Sched.{Thread, max_threads, free_thread, is_runnable, find_next}

-- how many steps round the table lead from slot `from` to slot `j`
abbrev pub distance : ℕ → ℕ → ℕ
distance from j = (j + max_threads - from) % max_threads

abbrev pub runs : List Thread → ℕ → Bool
runs ts j = is_runnable (get_or ts j free_thread)

-- `k` is the runnable thread nearest to `next`.
pub record IsNearest (ts : List Thread) (next n k : ℕ) : Type 0 where
  pub in_range : k < max_threads
  pub near : distance next k < n
  pub runnable : runs ts k ≡ true
  pub nearest : (j : ℕ) → j < max_threads → distance next j < distance next k → runs ts j ≡ false

find_next-none :
    (n next : ℕ) (ts : List Thread)
    → next < max_threads
    → n < max_threads + 1
    → find_next n next ts ≡ none
    → (j : ℕ) → j < max_threads
    → distance next j < n
    → runs ts j ≡ false
unfolding find_next
find_next-none zero next ts h hn e j hj d = absurd (omega arith)
find_next-none (suc n) next ts h hn e j hj d = elim (ℕ_discrete next j) [
  | yes same ↦ rw (← same) (ground arith)
  | no ne ↦
      find_next-none n ((next + 1) % max_threads) ts (omega arith) (omega arith) (ground arith) j hj
        (omega arith)
]

find_next-IsNearest :
    (n next : ℕ) {k : ℕ} (ts : List Thread)
    → next < max_threads
    → find_next n next ts ≡ some k
    → IsNearest ts next n k
unfolding find_next
find_next-IsNearest zero next ts h e = cc
find_next-IsNearest (suc n) next {k} ts h e = elim (Bool-cases (runs ts next)) [
  | inl hit ↦
      let here : next ≡ k = ground arith in
      record {
        in_range = omega arith;
        near = omega arith;
        runnable = rw (← here) hit;
        nearest = λ j hj d. absurd (omega arith);
      }
  | inr miss ↦
      let f =
        find_next-IsNearest n ((next + 1) % max_threads) {k = k} ts (omega arith) (ground arith) in
      let apart : next ≢ k = λ same. ground (arith, f.runnable, ap (runs ts) same) in
      record {
        in_range = f.in_range;
        near = omega (arith, f.near, f.in_range);
        runnable = f.runnable;
        nearest = λ j hj d. elim (ℕ_discrete next j) [
          | yes same ↦ rw (← same) miss
          | no ne ↦ f.nearest j hj (omega (arith, f.in_range))
        ];
      }
]

-- Either the nearest runnable thread is found, or there is none.
pub find_next-cases :
    (next : ℕ) (ts : List Thread)
    → next < max_threads
    → ((k : ℕ) × (find_next max_threads next ts ≡ some k) × IsNearest ts next max_threads k)
      ⊎ ((find_next max_threads next ts ≡ none) × ((j : ℕ) → j < max_threads → runs ts j ≡ false))
find_next-cases next ts h =
    (elim (find_next max_threads next ts)
        as (λ (r : Option ℕ).
          find_next max_threads next ts ≡ r
          → ((k : ℕ) × (find_next max_threads next ts ≡ some k) × IsNearest ts next max_threads k)
            ⊎ ((find_next max_threads next ts ≡ none)
                × ((j : ℕ) → j < max_threads → runs ts j ≡ false))) [
                  | none ↦ λ e. inr (
                    e,
                    λ j hj. find_next-none max_threads next ts h (omega arith) e j hj (omega arith),
                  )
                  | some k ↦ λ e. inl (k, e, find_next-IsNearest max_threads next ts h e)
                ])
      refl
