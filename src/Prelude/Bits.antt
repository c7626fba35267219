-- ===== src/Prelude/Bits.antt =====
-- Disjoint words: C's `|` of two numbers that share no binary digit is their sum.
use Prim.Native.Nat.{bit_or, bit_or-bitwise, digits, max}
use e_comos.Prelude.{ℕ, zero, suc, ◌+◌, ◌*◌, ◌/◌, ◌%◌, ◌≤◌, ◌<◌, ◌≡◌, refl, ap, ◌∙◌, arith}

-- A recursion that has a step for each digit of `a` is as good as any longer one.
pub more_digits :
    (z : ℕ → ℕ) (f : ℕ → ℕ → ℕ) {short long : ℕ} (a b : ℕ)
    → a ≤ short
    → short ≤ long
    → digits z f long a b ≡ digits z f short a b
more_digits z f {short = zero} {long = zero} a b h le = refl
more_digits z f {short = zero} {long = suc long} (suc a) b h le = absurd (omega arith)
more_digits z f {short = suc short} {long = zero} a b h le = absurd (omega arith)
more_digits z f {short = zero} {long = suc long} zero b h le = refl
more_digits z f {short = suc short} {long = suc long} zero b h le = refl
more_digits z f {short = suc short} {long = suc long} (suc a) b h le =
    ap (λ high. high * 2 + f (suc a % 2) (b % 2))
      (more_digits z f {short = short} {long = long} (suc a / 2) (b / 2) (omega arith)
        (omega arith))

-- The lowest digit of `a | b` apart.
pub bit_or-low : (a b : ℕ) → bit_or a b ≡ bit_or (a / 2) (b / 2) * 2 + max (a % 2) (b % 2)
bit_or-low zero b = simp bit_or-bitwise (omega arith)
bit_or-low (suc a) b = simp bit_or-bitwise (
    ap (λ high. high * 2 + max (suc a % 2) (b % 2))
      (more_digits (λ y. y) max {short = suc a / 2} {long = a} (suc a / 2) (b / 2) (omega arith)
        (omega arith)))

-- `b << k`, without an upper end
unfoldable pub shift_left : ℕ → ℕ → ℕ
shift_left zero b = b
shift_left (suc k) b = 2 * shift_left k b

-- A number below `1 << k` and a number `b << k` share no digit.
pub bit_or-shift_left :
    (k a b : ℕ) → a < shift_left k 1 → bit_or a (shift_left k b) ≡ a + shift_left k b
unfolding shift_left
bit_or-shift_left zero zero b h = simp bit_or-bitwise (omega arith)
bit_or-shift_left zero (suc a) b h = absurd (omega arith)
bit_or-shift_left (suc k) a b h =
    let half : 2 * shift_left k b / 2 ≡ shift_left k b = omega arith in
    let rest = bit_or-shift_left k (a / 2) b (omega arith) in
    let even : 2 * shift_left k b % 2 ≡ 0 = omega arith in
    bit_or-low a (2 * shift_left k b)
    ∙ ap (λ m. bit_or (a / 2) m * 2 + max (a % 2) (2 * shift_left k b % 2)) half
    ∙ omega (arith, rest, even)
