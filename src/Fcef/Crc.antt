-- ===== src/Fcef/Crc.antt =====
-- The checksum field: what is written there and that it is found again.
use e_comos.Prelude.{
  ℕ, zero, suc, ◌+◌, ◌*◌, ◌/◌, ◌%◌, ◌^◌, ◌≤◌, ◌<◌, ◌≡◌, ◌≢◌, refl, ap, ap₂, ℕ_discrete, sym, ◌∙◌,
  true, List, [], ◌∷◌, length, set, length-set, get_or-set_self, get_or-set_ne, arith,
}
use Prim.Native.Nat.{bit_and, bit_and-bitwise, bit_xor, bit_xor-bitwise, differ}
use e_comos.Prelude.Bits.{more_digits, shift_left}
use e_comos.Fcef.Power.{bit_and-low}
use e_comos.Fcef.{
  crc_bit, crc_bits, crc_loop, crc32_table, byte, word, header_of, with_crc32, fcef_calculate_crc32,
  fcef_update_crc32, crc_ok,
}

pub length-with_crc32 : (w : ℕ) (d : List ℕ) → length (with_crc32 w d) ≡ length d
unfolding with_crc32
length-with_crc32 w d =
    length-set _ 35 (w / 2 ^ 24 % 256)
    ∙ length-set _ 34 (w / 2 ^ 16 % 256)
    ∙ length-set _ 33 (w / 2 ^ 8 % 256)
    ∙ length-set d 32 (w % 256)

-- No other byte changes.
pub with_crc32_other :
    (w i : ℕ) (d : List ℕ) → i ≢ 32 → i ≢ 33 → i ≢ 34 → i ≢ 35 → byte (with_crc32 w d) i ≡ byte d i
unfolding with_crc32
with_crc32_other w i d a b c e =
    get_or-set_ne _ 35 i (w / 2 ^ 24 % 256) 0 (λ h. e (sym h))
    ∙ get_or-set_ne _ 34 i (w / 2 ^ 16 % 256) 0 (λ h. c (sym h))
    ∙ get_or-set_ne _ 33 i (w / 2 ^ 8 % 256) 0 (λ h. b (sym h))
    ∙ get_or-set_ne d 32 i (w % 256) 0 (λ h. a (sym h))

-- Lists of one length with the same bytes are the same.
same_bytes : (xs ys : List ℕ) → length xs ≡ length ys → ((i : ℕ) → byte xs i ≡ byte ys i) → xs ≡ ys
same_bytes [] [] l h = refl
same_bytes [] (y ∷ ys) l h = absurd (omega arith)
same_bytes (x ∷ xs) [] l h = absurd (omega arith)
same_bytes (x ∷ xs) (y ∷ ys) l h = ap₂ ◌∷◌ (h 0) (same_bytes xs ys (omega arith) (λ i. h (suc i)))

field :
    (w : ℕ) (d : List ℕ)
    → 36 ≤ length d
    → (byte (with_crc32 w d) 32 ≡ w % 256)
      × (byte (with_crc32 w d) 33 ≡ w / 2 ^ 8 % 256)
      × (byte (with_crc32 w d) 34 ≡ w / 2 ^ 16 % 256)
      × (byte (with_crc32 w d) 35 ≡ w / 2 ^ 24 % 256)
unfolding with_crc32
field w d h =
    let d0 = set d 32 (w % 256) in
    let d1 = set d0 33 (w / 2 ^ 8 % 256) in
    let d2 = set d1 34 (w / 2 ^ 16 % 256) in
    let l0 = length-set d 32 (w % 256) in
    let l1 = length-set d0 33 (w / 2 ^ 8 % 256) in
    let l2 = length-set d1 34 (w / 2 ^ 16 % 256) in
    (
      get_or-set_ne d2 35 32 (w / 2 ^ 24 % 256) 0 (omega arith)
          ∙ get_or-set_ne d1 34 32 (w / 2 ^ 16 % 256) 0 (omega arith)
          ∙ get_or-set_ne d0 33 32 (w / 2 ^ 8 % 256) 0 (omega arith)
          ∙ get_or-set_self d 32 (w % 256) 0 (omega arith),
      get_or-set_ne d2 35 33 (w / 2 ^ 24 % 256) 0 (omega arith)
          ∙ get_or-set_ne d1 34 33 (w / 2 ^ 16 % 256) 0 (omega arith)
          ∙ get_or-set_self d0 33 (w / 2 ^ 8 % 256) 0 (omega (arith, l0)),
      get_or-set_ne d2 35 34 (w / 2 ^ 24 % 256) 0 (omega arith)
          ∙ get_or-set_self d1 34 (w / 2 ^ 16 % 256) 0 (omega (arith, l0, l1)),
      get_or-set_self d2 35 (w / 2 ^ 24 % 256) 0 (omega (arith, l0, l1, l2)),
    )

-- The field holds the word written, if it is one of 32 bits.
word-with_crc32 : (w : ℕ) (d : List ℕ) → w < 2 ^ 32 → 36 ≤ length d → word (with_crc32 w d) 32 ≡ w
word-with_crc32 w d h l = omega (arith, field w d l)

-- Clearing the field forgets what was written there.
with_crc32_twice :
    (v w : ℕ) (d : List ℕ) → 36 ≤ length d → with_crc32 v (with_crc32 w d) ≡ with_crc32 v d
with_crc32_twice v w d l =
    same_bytes (with_crc32 v (with_crc32 w d)) (with_crc32 v d)
      (length-with_crc32 v (with_crc32 w d) ∙ length-with_crc32 w d ∙ sym (length-with_crc32 v d))
      same
  where
    twice : 36 ≤ length (with_crc32 w d)
    twice = omega (arith, length-with_crc32 w d)

    same : (i : ℕ) → byte (with_crc32 v (with_crc32 w d)) i ≡ byte (with_crc32 v d) i
    same i = elim (ℕ_discrete i 32) [
      | yes e ↦ rw e ((field v (with_crc32 w d) twice).0 ∙ sym (field v d l).0)
      | no a ↦ elim (ℕ_discrete i 33) [
        | yes e ↦ rw e ((field v (with_crc32 w d) twice).1 ∙ sym (field v d l).1)
        | no b ↦ elim (ℕ_discrete i 34) [
          | yes e ↦ rw e ((field v (with_crc32 w d) twice).2 ∙ sym (field v d l).2)
          | no c ↦ elim (ℕ_discrete i 35) [
            | yes e ↦ rw e ((field v (with_crc32 w d) twice).3 ∙ sym (field v d l).3)
            | no g ↦
                with_crc32_other v i (with_crc32 w d) a b c g
                ∙ with_crc32_other w i d a b c g
                ∙ sym (with_crc32_other v i d a b c g)
          ]
        ]
      ]
    ]

-- The lowest digit of `a ^ b` apart.
pub bit_xor-low : (a b : ℕ) → bit_xor a b ≡ bit_xor (a / 2) (b / 2) * 2 + differ (a % 2) (b % 2)
bit_xor-low zero b = simp bit_xor-bitwise (omega (arith, zero_differ (b % 2)))
  where
    zero_differ : (y : ℕ) → differ 0 y ≡ y
    zero_differ zero = refl
    zero_differ (suc y) = refl
bit_xor-low (suc a) b = simp bit_xor-bitwise (
    ap (λ high. high * 2 + differ (suc a % 2) (b % 2))
      (more_digits (λ y. y) differ {short = suc a / 2} {long = a} (suc a / 2) (b / 2) (omega arith)
        (omega arith)))

pub differ_small : (x y : ℕ) → x < 2 → y < 2 → differ x y < 2
differ_small zero zero p q = omega arith
differ_small zero (suc y) p q = omega arith
differ_small (suc zero) zero p q = omega arith
differ_small (suc zero) (suc zero) p q = omega arith
differ_small (suc zero) (suc (suc y)) p q = absurd (omega arith)
differ_small (suc (suc x)) y p q = absurd (omega arith)

bit_xor_bound : (k a b : ℕ) → a < shift_left k 1 → b < shift_left k 1 → bit_xor a b < shift_left k 1
unfolding shift_left
bit_xor_bound zero zero zero p q = omega arith
bit_xor_bound zero zero (suc b) p q = absurd (omega arith)
bit_xor_bound zero (suc a) b p q = absurd (omega arith)
bit_xor_bound (suc k) a b p q =
    let high = bit_xor_bound k (a / 2) (b / 2) (omega arith) (omega arith) in
    omega (arith, high, bit_xor-low a b, differ_small (a % 2) (b % 2) (omega arith) (omega arith))

pub bit_and_bound : (bound a b : ℕ) → a ≤ bound → bit_and a b ≤ b
bit_and_bound bound zero b h = omega (arith, bit_and-bitwise 0 b)
bit_and_bound zero (suc a) b h = absurd (omega arith)
bit_and_bound (suc bound) (suc a) b h =
    omega (arith, bit_and-low (suc a) b, bit_and_bound bound (suc a / 2) (b / 2) (omega arith))

-- On 32-bit words.
pub xor_word : (a b : ℕ) → a < 2 ^ 32 → b < 2 ^ 32 → bit_xor a b < 2 ^ 32
unfolding shift_left
xor_word a b p q = omega (arith, bit_xor_bound 32 a b (omega arith) (omega arith))

pub crc_bits_word : (n c : ℕ) → c < 2 ^ 32 → crc_bits n c < 2 ^ 32
unfolding crc_bits
crc_bits_word zero c h = h
crc_bits_word (suc n) c h =
    crc_bits_word n (crc_bit c)
      (ground (arith, xor_word 0xEDB88320 (c / 2) (omega arith) (omega arith)))

crc_loop_word : (d : List ℕ) (crc : ℕ) → crc < 2 ^ 32 → crc_loop d crc < 2 ^ 32
unfolding crc_loop
crc_loop_word [] crc h = h
crc_loop_word (b ∷ d) crc h =
    let index = bit_and (bit_xor crc b) 0xFF in
    let few : index ≤ 0xFF = bit_and_bound (bit_xor crc b) (bit_xor crc b) 0xFF (omega arith) in
    crc_loop_word d (bit_xor (crc32_table index) (crc / 2 ^ 8)) (
      xor_word (crc32_table index) (crc / 2 ^ 8) (crc_bits_word 8 index (omega arith))
        (omega arith))

pub crc32_word : (d : List ℕ) → fcef_calculate_crc32 d < 2 ^ 32
unfolding fcef_calculate_crc32
crc32_word [] = omega arith
crc32_word (b ∷ d) =
    xor_word (crc_loop (b ∷ d) 0xFFFFFFFF) 0xFFFFFFFF
      (crc_loop_word (b ∷ d) 0xFFFFFFFF (omega arith)) (omega arith)

-- After `fcef_update_crc32` the check of the checksum in `fcef_validate` passes, for any file that holds
-- the checksum field, and the file has the length that it had.
pub fcef_update_crc32-crc_ok :
    (d : List ℕ)
    → 36 ≤ length d
    → (crc_ok (fcef_update_crc32 d) (header_of (fcef_update_crc32 d)) ≡ true)
      × (length (fcef_update_crc32 d) ≡ length d)
unfolding fcef_update_crc32
fcef_update_crc32-crc_ok d l =
    let crc = fcef_calculate_crc32 (with_crc32 0 d) in
    let stored = word-with_crc32 crc d (crc32_word (with_crc32 0 d)) l in
    let cleared = ap fcef_calculate_crc32 (with_crc32_twice 0 crc d l) in
    (ground (arith, stored ∙ sym cleared), length-with_crc32 crc d)
