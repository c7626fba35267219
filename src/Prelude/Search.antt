-- ===== src/Prelude/Search.antt =====
-- `for (k = i; k < i + n; k++) if (p(k)) return k;` and what it finds.
use Prim.Native.Nat.{ℕ, zero, suc, ◌+◌, ◌≤◌, ◌<◌}
use mathlib.Core.Path.{◌≡◌, refl}
use mathlib.Core.Bool.{Bool, true, false}
use mathlib.Core.Logic.{◌⊎◌, inl, inr}
use mathlib.Core.Option.{Option, none, some}
use native.Mathlib.Decide.{ℕ_discrete}
use native.Mathlib.Omega.{arith}
use e_comos.Prelude.Tests.{if◌then◌else◌, Bool-cases}

unfoldable pub find_from : (ℕ → Bool) → ℕ → ℕ → Option ℕ
find_from p zero i = none
find_from p (suc n) i = let rest = find_from p n (i + 1) in if p i then some i else rest

-- The first index that passes.
pub record IsFirst (p : ℕ → Bool) (i n k : ℕ) : Type 0 where
  pub from : i ≤ k
  pub below : k < i + n
  pub passes : p k ≡ true
  pub earlier : (j : ℕ) → i ≤ j → j < k → p j ≡ false

pub find_from-none :
    (p : ℕ → Bool) (n i : ℕ) → find_from p n i ≡ none → (j : ℕ) → i ≤ j → j < i + n → p j ≡ false
unfolding find_from
find_from-none p zero i e j a b = absurd (omega arith)
find_from-none p (suc n) i e j a b = elim (ℕ_discrete i j) [
  | yes same ↦ rw (← same) (ground arith)
  | no ne ↦ find_from-none p n (i + 1) (ground arith) j (omega arith) (omega arith)
]

pub find_from-IsFirst :
    (p : ℕ → Bool) (n i : ℕ) {k : ℕ} → find_from p n i ≡ some k → IsFirst p i n k
unfolding find_from
find_from-IsFirst p zero i e = cc
find_from-IsFirst p (suc n) i {k} e = elim (Bool-cases (p i)) [
  | inl hit ↦
      let here : i ≡ k = ground arith in
      record {
        from = omega arith;
        below = omega arith;
        passes = rw (← here) hit;
        earlier = λ j a b. absurd (omega arith);
      }
  | inr miss ↦
      let f = find_from-IsFirst p n (i + 1) {k = k} (ground arith) in
      record {
        from = omega arith;
        below = omega arith;
        passes = f.passes;
        earlier = λ j a b. elim (ℕ_discrete i j) [
          | yes same ↦ rw (← same) miss
          | no ne ↦ f.earlier j (omega arith) b
        ];
      }
]

-- A search finds the first index that passes, or none passes.
pub find_from-cases :
    (p : ℕ → Bool) (n i : ℕ)
    → ((k : ℕ) × (find_from p n i ≡ some k) × IsFirst p i n k)
      ⊎ ((find_from p n i ≡ none) × ((j : ℕ) → i ≤ j → j < i + n → p j ≡ false))
find_from-cases p n i =
    (elim (find_from p n i)
        as (λ (r : Option ℕ).
          find_from p n i ≡ r
          → ((k : ℕ) × (find_from p n i ≡ some k) × IsFirst p i n k)
            ⊎ ((find_from p n i ≡ none) × ((j : ℕ) → i ≤ j → j < i + n → p j ≡ false))) [
              | none ↦ λ e. inr (e, find_from-none p n i e)
              | some k ↦ λ e. inl (k, e, find_from-IsFirst p n i e)
            ])
      refl

-- A search that has an index to find finds one.
pub find_from_total :
    (p : ℕ → Bool) (n i j : ℕ)
    → i ≤ j
    → j < i + n
    → p j ≡ true
    → (k : ℕ) × (find_from p n i ≡ some k) × IsFirst p i n k
find_from_total p n i j a b h = elim (find_from-cases p n i) [
  | inl found ↦ found
  | inr (e, empty) ↦ absurd (ground (arith, empty j a b))
]
