-- ===== src/Fs/Nefs/Count.antt =====
-- How many indices pass a test.
use e_comos.Prelude.{
  ℕ, zero, suc, ◌+◌, ◌≤◌, ◌<◌, ◌≡◌, ◌≢◌, refl, sym, ap, ◌∙◌, Bool, true, false, if◌then◌else◌,
  arith, ℕ_discrete, if_true, if_false,
}

-- the indices from `i` up to, not including, `i + n`
unfoldable pub count_if : (ℕ → Bool) → ℕ → ℕ → ℕ
count_if p zero i = 0
count_if p (suc n) i = let rest = count_if p n (i + 1) in if p i then suc rest else rest

same_head :
    (a b : Bool) {m n : ℕ} → a ≡ b → m ≡ n → (if a then suc m else m) ≡ (if b then suc n else n)
same_head a b e f = ground (arith, e, f)

count_if-same :
    (p q : ℕ → Bool) (n i : ℕ) → ((k : ℕ) → i ≤ k → p k ≡ q k) → count_if p n i ≡ count_if q n i
unfolding count_if
count_if-same p q zero i h = refl
count_if-same p q (suc n) i h =
    same_head (p i) (q i) (h i (omega arith))
      (count_if-same p q n (i + 1) (λ k le. h k (omega arith)))

-- One index less passes.
pub count_if_drop :
    (p q : ℕ → Bool) (n i j : ℕ)
    → i ≤ j
    → j < i + n
    → p j ≡ true
    → q j ≡ false
    → ((k : ℕ) → j ≢ k → p k ≡ q k)
    → count_if p n i ≡ suc (count_if q n i)
unfolding count_if
count_if_drop p q zero i j a b hp hq h = absurd (omega arith)
count_if_drop p q (suc n) i j a b hp hq h = elim (ℕ_discrete j i) [
  | yes e ↦
      let rest = count_if-same p q n (i + 1) (λ k le. h k (λ x. omega arith)) in
      if_true {b = p i} _ _ (ap p (sym e) ∙ hp)
      ∙ ap suc rest
      ∙ ap suc (sym (if_false {b = q i} (suc (count_if q n (i + 1))) _ (ap q (sym e) ∙ hq)))
  | no ne ↦
      let rest = count_if_drop p q n (i + 1) j (omega arith) (omega arith) hp hq h in
      let here = h i ne in ground (arith, rest, here)
]

pub count_if_none :
    (p : ℕ → Bool) (n i : ℕ) → ((j : ℕ) → i ≤ j → j < i + n → p j ≡ false) → count_if p n i ≡ 0
unfolding count_if
count_if_none p zero i h = refl
count_if_none p (suc n) i h =
    if_false {b = p i} _ _ (h i (omega arith) (omega arith))
    ∙ count_if_none p n (i + 1) (λ j a b. h j (omega arith) (omega arith))

pub count_if_some : (p : ℕ → Bool) (n i j : ℕ) → i ≤ j → j < i + n → p j ≡ true → 1 ≤ count_if p n i
unfolding count_if
count_if_some p zero i j a b h = absurd (omega arith)
count_if_some p (suc n) i j a b h = elim (ℕ_discrete j i) [
  | yes e ↦ let here : p i ≡ true = ap p (sym e) ∙ h in ground (arith, here)
  | no ne ↦
      let rest = count_if_some p n (i + 1) j (omega arith) (omega arith) h in ground (arith, rest)
]

pub count_if_all : (p : ℕ → Bool) (n i : ℕ) → ((j : ℕ) → p j ≡ true) → count_if p n i ≡ n
unfolding count_if
count_if_all p zero i h = refl
count_if_all p (suc n) i h = if_true {b = p i} _ _ (h i) ∙ ap suc (count_if_all p n (i + 1) h)

pub count_if-le : (p : ℕ → Bool) (n i : ℕ) → count_if p n i ≤ n
unfolding count_if
count_if-le p zero i = omega arith
count_if-le p (suc n) i = let rest = count_if-le p n (i + 1) in ground (arith, rest)
