-- ===== src/Fcef/Power.antt =====
-- `(a & (a - 1)) == 0` tests for a power of two.
use Prim.Native.Nat.{bit_and, bit_and-bitwise, min}
use e_comos.Prelude.{
  ℕ, zero, suc, ◌+◌, ◌-◌, ◌*◌, ◌/◌, ◌%◌, ◌≤◌, ◌≡◌, ◌≢◌, ◌⊎◌, inl, inr, refl, ap, ap₂, ◌↔◌, ◌∙◌,
  true, arith, ◌==◌, ◌||◌, ℕ_discrete,
}
use e_comos.Prelude.Bits.{more_digits, shift_left}
use e_comos.Fcef.{accepts_align}

-- The lowest digit of `a & b` apart.
pub bit_and-low : (a b : ℕ) → bit_and a b ≡ bit_and (a / 2) (b / 2) * 2 + min (a % 2) (b % 2)
bit_and-low zero b = simp bit_and-bitwise (omega arith)
bit_and-low (suc a) b = simp bit_and-bitwise (
    ap (λ high. high * 2 + min (suc a % 2) (b % 2))
      (more_digits (λ y. 0) min {short = suc a / 2} {long = a} (suc a / 2) (b / 2) (omega arith)
        (omega arith)))

bit_and_self : (bound a : ℕ) → a ≤ bound → bit_and a a ≡ a
bit_and_self bound zero h = bit_and-bitwise 0 0
bit_and_self zero (suc a) h = absurd (omega arith)
bit_and_self (suc bound) (suc a) h =
    omega (arith, bit_and-low (suc a) (suc a), bit_and_self bound (suc a / 2) (omega arith))

-- The value of `1 << k`.
abbrev pub IsPower : ℕ → Type 0
IsPower a = (k : ℕ) × (a ≡ shift_left k 1)

low-IsPower : (bound a : ℕ) → a ≤ bound → a ≢ 0 → bit_and a (a - 1) ≡ 0 → IsPower a
unfolding shift_left
low-IsPower bound zero h ne e = absurd (ne refl)
low-IsPower zero (suc a) h ne e = absurd (omega arith)
low-IsPower (suc bound) (suc a) h ne e = elim (ℕ_discrete (suc a % 2) 0) [
  | yes even ↦
      let half : (suc a - 1) / 2 ≡ suc a / 2 - 1 = omega arith in
      let none_low : bit_and (suc a / 2) (suc a / 2 - 1) ≡ 0 =
        omega (arith, bit_and-low (suc a) (suc a - 1), ap (bit_and (suc a / 2)) half) in
      let rest = low-IsPower bound (suc a / 2) (omega arith) (λ z. absurd (omega arith)) none_low in
      (suc rest.0, omega (arith, rest.1))
  | no odd ↦
      let half : (suc a - 1) / 2 ≡ suc a / 2 = omega arith in
      let one : suc a ≡ 1 = omega (
        arith,
        bit_and-low (suc a) (suc a - 1),
        ap (bit_and (suc a / 2)) half,
        bit_and_self (suc a / 2) (suc a / 2) (omega arith),
      ) in
      (0, one)
]

power_low : (k : ℕ) → bit_and (shift_left k 1) (shift_left k 1 - 1) ≡ 0
unfolding shift_left
power_low zero = refl
power_low (suc k) =
    let m = shift_left k 1 in
    let whole : 2 * m / 2 ≡ m = omega arith in
    let less : (2 * m - 1) / 2 ≡ m - 1 = omega arith in
    let halves : bit_and (2 * m / 2) ((2 * m - 1) / 2) ≡ 0 = ap₂ bit_and whole less ∙ power_low k in
    omega (arith, bit_and-low (2 * m) (2 * m - 1), halves)

-- The test accepts 0 and the powers of two, and nothing else.
pub accepts_align-IsPower : (a : ℕ) → (accepts_align a ≡ true) ↔ ((a ≡ 0) ⊎ IsPower a)
unfolding accepts_align
accepts_align-IsPower a = (there, back)
  where
    there : ((a == 0 || bit_and a (a - 1) == 0) ≡ true) → (a ≡ 0) ⊎ IsPower a
    there h = elim (ℕ_discrete a 0) [
      | yes z ↦ inl z
      | no nz ↦ inr (low-IsPower a a (omega arith) nz (ground arith))
    ]

    back : (a ≡ 0) ⊎ IsPower a → (a == 0 || bit_and a (a - 1) == 0) ≡ true
    back (inl z) = ground arith
    back (inr (k, e)) =
        let low : bit_and a (a - 1) ≡ 0 = ap (λ x. bit_and x (x - 1)) e ∙ power_low k in
        ground arith
