-- ===== src/Fs/Nefs/Checksum.antt =====
-- The checksum of nefs, computed bit by bit, and that of source/fcef, computed with a table.
use Prim.Native.Nat.{bit_and, bit_xor, differ}
use e_comos.Prelude.{
  ℕ, zero, suc, ◌+◌, ◌-◌, ◌*◌, ◌/◌, ◌%◌, ◌^◌, ◌≤◌, ◌<◌, ◌≡◌, refl, sym, ap, ap₂, ◌∙◌, List, [], ◌∷◌,
  ◌==◌, if_true, if_false, arith, ℕ_discrete,
}
use e_comos.Fcef.{crc_bit, crc_bits, crc_loop, crc32_table, fcef_calculate_crc32}
use e_comos.Fcef.Power.{bit_and-low}
use e_comos.Prelude.Bits.{shift_left}
use e_comos.Fcef.Crc.{bit_and_bound, bit_xor-low}
use e_comos.Fs.Nefs.Files.{crc_round, crc_rounds, crc_bytes, crc32}

-- Every number is a `uint8_t`.
pub data IsBytes : List ℕ → Type 0 where
  nil : IsBytes []
  cons : {b : ℕ} {bs : List ℕ} → b < 256 → IsBytes bs → IsBytes (b ∷ bs)

differ_mod : (x y : ℕ) → x < 2 → y < 2 → differ x y ≡ (x + y) % 2
differ_mod zero zero p q = refl
differ_mod zero (suc zero) p q = refl
differ_mod zero (suc (suc y)) p q = absurd (omega arith)
differ_mod (suc zero) zero p q = refl
differ_mod (suc zero) (suc zero) p q = refl
differ_mod (suc zero) (suc (suc y)) p q = absurd (omega arith)
differ_mod (suc (suc x)) y p q = absurd (omega arith)

-- The lowest digit of `a ^ b` and the others.
xor-digits : (a b : ℕ) → bit_xor a b ≡ bit_xor (a / 2) (b / 2) * 2 + (a + b) % 2
xor-digits a b =
    omega (arith, bit_xor-low a b, differ_mod (a % 2) (b % 2) (omega arith) (omega arith))

xor-half : (a b : ℕ) → bit_xor a b / 2 ≡ bit_xor (a / 2) (b / 2)
xor-half a b = omega (arith, xor-digits a b)

xor-low : (a b : ℕ) → bit_xor a b % 2 ≡ (a + b) % 2
xor-low a b = omega (arith, xor-digits a b)

xor_zero : (bound a : ℕ) → a ≤ bound → bit_xor a 0 ≡ a
xor_zero bound zero h = refl
xor_zero zero (suc a) h = absurd (omega arith)
xor_zero (suc bound) (suc a) h =
    omega (arith, xor-digits (suc a) 0, xor_zero bound (suc a / 2) (omega arith))

xor_comm : (bound a b : ℕ) → a + b ≤ bound → bit_xor a b ≡ bit_xor b a
xor_comm zero zero zero h = refl
xor_comm zero zero (suc b) h = absurd (omega arith)
xor_comm zero (suc a) b h = absurd (omega arith)
xor_comm (suc bound) a b h = elim (ℕ_discrete (a + b) 0) [
  | yes e ↦ ap₂ bit_xor {x = a} {y = b} (omega arith) (omega arith)
  | no ne ↦
      omega (arith, xor-digits a b, xor-digits b a, xor_comm bound (a / 2) (b / 2) (omega arith))
]

xor_assoc :
    (bound a b c : ℕ) → a + b + c ≤ bound → bit_xor (bit_xor a b) c ≡ bit_xor a (bit_xor b c)
xor_assoc zero zero zero zero h = refl
xor_assoc zero zero zero (suc c) h = absurd (omega arith)
xor_assoc zero zero (suc b) c h = absurd (omega arith)
xor_assoc zero (suc a) b c h = absurd (omega arith)
xor_assoc (suc bound) a b c h = elim (ℕ_discrete (a + b + c) 0) [
  | yes e ↦ xor_assoc_zero (omega arith) (omega arith) (omega arith)
  | no ne ↦ omega (
    arith,
    xor-digits (bit_xor a b) c,
    xor-digits a (bit_xor b c),
    ap (λ x. bit_xor x (c / 2)) (xor-half a b),
    ap (bit_xor (a / 2)) (xor-half b c),
    xor-low a b,
    xor-low b c,
    xor_assoc bound (a / 2) (b / 2) (c / 2) (omega arith),
  )
]
  where
    xor_assoc_zero :
        {a b c : ℕ} → a ≡ 0 → b ≡ 0 → c ≡ 0 → bit_xor (bit_xor a b) c ≡ bit_xor a (bit_xor b c)
    xor_assoc_zero {a} {b} {c} x y z =
        ap₂ bit_xor (ap₂ bit_xor x y) z ∙ sym (ap₂ bit_xor x (ap₂ bit_xor y z))

xor_zero_left : (b : ℕ) → bit_xor 0 b ≡ b
xor_zero_left b = xor_comm b 0 b (omega arith) ∙ xor_zero b b (omega arith)

-- Numbers without a common digit.
xor-shift_left : (k a b : ℕ) → a < shift_left k 1 → bit_xor a (shift_left k b) ≡ a + shift_left k b
unfolding shift_left
xor-shift_left zero a b h =
    ap (λ n. bit_xor n b) {x = a} {y = 0} (omega arith) ∙ xor_zero_left b ∙ omega arith
xor-shift_left (suc k) a b h =
    let rest = xor-shift_left k (a / 2) b (omega arith) in
    let half : 2 * shift_left k b / 2 ≡ shift_left k b = omega arith in
    omega (arith, xor-digits a (2 * shift_left k b), ap (bit_xor (a / 2)) half, rest)

and_zero : (a : ℕ) → bit_and a 0 ≡ 0
and_zero a = omega (arith, bit_and_bound a a 0 (omega arith))

and_one : (a : ℕ) → bit_and a 1 ≡ a % 2
and_one a = omega (arith, bit_and-low a 1, and_zero (a / 2))

crc_bit_even : (c : ℕ) → c % 2 ≡ 0 → crc_bit c ≡ c / 2
crc_bit_even c h = let low = and_one c in if_true {b = bit_and c 1 == 0} _ _ (ground (arith, low))

crc_bit_odd : (c : ℕ) → c % 2 ≡ 1 → crc_bit c ≡ bit_xor 0xEDB88320 (c / 2)
crc_bit_odd c h = let low = and_one c in if_false {b = bit_and c 1 == 0} _ _ (ground (arith, low))

crc_round-crc_bit : (c : ℕ) → crc_round c ≡ crc_bit c
unfolding crc_round
crc_round-crc_bit c = elim (ℕ_discrete (c % 2) 0) [
  | yes even ↦
      ap (λ (m : ℕ). bit_xor (c / 2) (bit_and 0xEDB88320 ((2 ^ 32 - m) % 2 ^ 32)))
        (and_one c ∙ even)
      ∙ xor_zero (c / 2) (c / 2) (omega arith)
      ∙ sym (crc_bit_even c even)
  | no odd ↦
      let one : c % 2 ≡ 1 = omega arith in
      ap (λ (m : ℕ). bit_xor (c / 2) (bit_and 0xEDB88320 ((2 ^ 32 - m) % 2 ^ 32))) (and_one c ∙ one)
      ∙ xor_comm (c / 2 + 0xEDB88320) (c / 2) 0xEDB88320 (omega arith)
      ∙ sym (crc_bit_odd c one)
]

crc_rounds-crc_bits : (n c : ℕ) → crc_rounds n c ≡ crc_bits n c
unfolding crc_rounds crc_bits
crc_rounds-crc_bits zero c = refl
crc_rounds-crc_bits (suc n) c =
    ap (crc_rounds n) (crc_round-crc_bit c) ∙ crc_rounds-crc_bits n (crc_bit c)

-- The rounds are linear.
crc_bit-xor : (a m : ℕ) → crc_bit (bit_xor a (2 * m)) ≡ bit_xor (crc_bit a) m
crc_bit-xor a m =
    let half : bit_xor a (2 * m) / 2 ≡ bit_xor (a / 2) m =
      xor-half a (2 * m) ∙ ap (bit_xor (a / 2)) {x = 2 * m / 2} {y = m} (omega arith) in
    let low : bit_xor a (2 * m) % 2 ≡ a % 2 = xor-low a (2 * m) ∙ omega arith in
    elim (ℕ_discrete (a % 2) 0) [
      | yes even ↦
          crc_bit_even (bit_xor a (2 * m)) (low ∙ even)
          ∙ half
          ∙ ap (λ n. bit_xor n m) (sym (crc_bit_even a even))
      | no odd ↦
          let one : a % 2 ≡ 1 = omega arith in
          crc_bit_odd (bit_xor a (2 * m)) (low ∙ one)
          ∙ ap (bit_xor 0xEDB88320) half
          ∙ sym (xor_assoc (0xEDB88320 + a / 2 + m) 0xEDB88320 (a / 2) m (omega arith))
          ∙ ap (λ n. bit_xor n m) (sym (crc_bit_odd a one))
    ]

crc_bits-xor : (n a h : ℕ) → crc_bits n (bit_xor a (shift_left n h)) ≡ bit_xor (crc_bits n a) h
unfolding crc_bits shift_left
crc_bits-xor zero a h = refl
crc_bits-xor (suc n) a h =
    ap (crc_bits n) (crc_bit-xor a (shift_left n h)) ∙ crc_bits-xor n (crc_bit a) h

-- the low byte and the others
byte_split : (x : ℕ) → bit_xor (x % 256) (shift_left 8 (x / 256)) ≡ x
unfolding shift_left
byte_split x = xor-shift_left 8 (x % 256) (x / 256) (omega arith) ∙ omega arith

-- One digit more of `x & (2 ^ k - 1)`.
and_next : (x m : ℕ) → bit_and x (2 * m + 1) ≡ 2 * bit_and (x / 2) m + x % 2
and_next x m =
    let half : (2 * m + 1) / 2 ≡ m = omega arith in
    omega (arith, bit_and-low x (2 * m + 1), ap (bit_and (x / 2)) half)

and_3 : (x : ℕ) → bit_and x 3 ≡ x % 4
and_3 x = omega (arith, and_next x 1, and_one (x / 2))

and_7 : (x : ℕ) → bit_and x 7 ≡ x % 8
and_7 x = omega (arith, and_next x 3, and_3 (x / 2))

and_15 : (x : ℕ) → bit_and x 15 ≡ x % 16
and_15 x = omega (arith, and_next x 7, and_7 (x / 2))

and_31 : (x : ℕ) → bit_and x 31 ≡ x % 32
and_31 x = omega (arith, and_next x 15, and_15 (x / 2))

and_63 : (x : ℕ) → bit_and x 63 ≡ x % 64
and_63 x = omega (arith, and_next x 31, and_31 (x / 2))

and_127 : (x : ℕ) → bit_and x 127 ≡ x % 128
and_127 x = omega (arith, and_next x 63, and_63 (x / 2))

and_byte : (x : ℕ) → bit_and x 255 ≡ x % 256
and_byte x = omega (arith, and_next x 127, and_127 (x / 2))

halves : ℕ → ℕ → ℕ
halves zero x = x
halves (suc n) x = halves n (x / 2)

halves-bit_xor : (n a b : ℕ) → halves n (bit_xor a b) ≡ bit_xor (halves n a) (halves n b)
unfolding halves
halves-bit_xor zero a b = refl
halves-bit_xor (suc n) a b = ap (halves n) (xor-half a b) ∙ halves-bit_xor n (a / 2) (b / 2)

halves_four : (x : ℕ) → halves 4 x ≡ x / 16
unfolding halves
halves_four x = omega arith

halves-halves : (x : ℕ) → halves 8 x ≡ halves 4 (halves 4 x)
unfolding halves
halves-halves x = refl

halves_eight : (x : ℕ) → halves 8 x ≡ x / 256
halves_eight x =
    halves-halves x ∙ ap (halves 4) (halves_four x) ∙ halves_four (x / 16) ∙ omega arith

-- A byte does not reach the others.
xor_byte : (crc b : ℕ) → b < 256 → bit_xor crc b / 256 ≡ crc / 256
xor_byte crc b h =
    let gone : halves 8 b ≡ 0 = halves_eight b ∙ omega arith in
    sym (halves_eight (bit_xor crc b))
    ∙ halves-bit_xor 8 crc b
    ∙ ap₂ bit_xor (halves_eight crc) gone
    ∙ xor_zero (crc / 256) (crc / 256) (omega arith)

crc_rounds-table :
    (crc b : ℕ)
    → b < 256
    → crc_rounds 8 (bit_xor crc b)
      ≡ bit_xor (crc32_table (bit_and (bit_xor crc b) 0xFF)) (crc / 2 ^ 8)
crc_rounds-table crc b h =
    let x = bit_xor crc b in
    crc_rounds-crc_bits 8 x
    ∙ ap (crc_bits 8) (sym (byte_split x))
    ∙ crc_bits-xor 8 (x % 256) (x / 256)
    ∙ ap₂ (λ (low high : ℕ). bit_xor (crc_bits 8 low) high) (sym (and_byte x)) (xor_byte crc b h)

crc_bytes-crc_loop : (bs : List ℕ) (crc : ℕ) → IsBytes bs → crc_bytes bs crc ≡ crc_loop bs crc
unfolding crc_bytes crc_loop
crc_bytes-crc_loop [] crc nil = refl
crc_bytes-crc_loop (b ∷ bs) crc (cons small more) =
    ap (crc_bytes bs) (crc_rounds-table crc b small)
    ∙ crc_bytes-crc_loop bs (bit_xor (crc32_table (bit_and (bit_xor crc b) 0xFF)) (crc / 2 ^ 8))
        more

-- On bytes, at least one of them, the checksum that nefs computes bit by bit is the one that the validator of
-- executables computes with its table.
pub crc32-fcef_calculate_crc32 :
    (b : ℕ) (bs : List ℕ) → IsBytes (b ∷ bs) → crc32 (b ∷ bs) ≡ fcef_calculate_crc32 (b ∷ bs)
unfolding crc32 fcef_calculate_crc32
crc32-fcef_calculate_crc32 b bs is =
    ap (λ (crc : ℕ). bit_xor crc 0xFFFFFFFF) (crc_bytes-crc_loop (b ∷ bs) 0xFFFFFFFF is)
