-- ===== src/Prelude/Bitmap.antt =====
-- Bitmaps as the C code keeps them: bit `i` is bit `i % 8` of byte `i / 8`.
use Prim.Native.Nat.{ℕ, zero, suc, ◌-◌, ◌/◌, ◌%◌, ◌^◌, ◌<◌, bit_and, bit_or}
use mathlib.Core.Path.{◌≡◌, refl}
use mathlib.Core.Bool.{Bool, true, false, ◌&&◌, not, xor}
use mathlib.Core.List.{List}
use native.Mathlib.Omega.{arith}
use native.Mathlib.Decide.{ℕ_discrete, dec_lt}
use e_comos.Prelude.Tests.{◌==◌, if◌then◌else◌}
use e_comos.Prelude.Lists.{
  length, get_or, set, get_or-set_self, get_or-set_ne, set_beyond, length-set,
}

-- `byte & (1 << k)`, as a test
abbrev pub test_byte : ℕ → ℕ → Bool
test_byte b k = not (bit_and b (2 ^ k) == 0)

-- `byte |= (1 << k)` and `byte &= ~(1 << k)`, on a `uint8_t`
abbrev pub set_byte : ℕ → ℕ → ℕ
set_byte b k = bit_or b (2 ^ k) % 256

abbrev pub clear_byte : ℕ → ℕ → ℕ
clear_byte b k = bit_and b (2 ^ 32 - 1 - 2 ^ k) % 256

abbrev same : Bool → Bool → Bool
same a b = not (xor a b)

-- `q` holds at the numbers below the bound, found by trying each.
passes_below : (ℕ → Bool) → ℕ → Bool
passes_below q zero = true
passes_below q (suc bound) = passes_below q bound && q bound

passes_below_lem :
    (q : ℕ → Bool) {bound : ℕ} (i : ℕ) → i < bound → passes_below q bound ≡ true → q i ≡ true
unfolding passes_below
passes_below_lem q {bound = zero} i out e = absurd (omega arith)
passes_below_lem q {bound = suc bound} i inside e =
    ground (arith, passes_below_lem q {bound = bound} i)

same_sound : (a b : Bool) → same a b ≡ true → a ≡ b
unfolding xor
same_sound a b h = ground arith

-- `p` at every byte and every two bit positions
abbrev all_bits : (ℕ → ℕ → ℕ → Bool) → Bool
all_bits p = passes_below (λ b. passes_below (λ k. passes_below (p b k) 8) 8) 256

all_bits_sound :
    (p : ℕ → ℕ → ℕ → Bool) (b k j : ℕ)
    → all_bits p ≡ true
    → b < 256
    → k < 8
    → j < 8
    → p b k j ≡ true
all_bits_sound p b k j h hb hk hj = passes_below_lem (p b k) j hj (
    passes_below_lem (λ k. passes_below (p b k) 8) k hk
      (passes_below_lem (λ b. passes_below (λ k. passes_below (p b k) 8) 8) b hb h))

abbrev set_law : ℕ → ℕ → ℕ → Bool
set_law b k j = same (test_byte (set_byte b k) j) (if k == j then true else test_byte b j)

abbrev clear_law : ℕ → ℕ → ℕ → Bool
clear_law b k j = same (test_byte (clear_byte b k) j) (if k == j then false else test_byte b j)

set_byte_table : all_bits set_law ≡ true
unfolding passes_below xor
set_byte_table = refl

clear_byte_table : all_bits clear_law ≡ true
unfolding passes_below xor
clear_byte_table = refl

test_byte-set_byte :
    (b k j : ℕ)
    → b < 256
    → k < 8
    → j < 8
    → test_byte (set_byte b k) j ≡ (if k == j then true else test_byte b j)
test_byte-set_byte b k j hb hk hj =
    same_sound _ _ (all_bits_sound set_law b k j set_byte_table hb hk hj)

test_byte-clear_byte :
    (b k j : ℕ)
    → b < 256
    → k < 8
    → j < 8
    → test_byte (clear_byte b k) j ≡ (if k == j then false else test_byte b j)
test_byte-clear_byte b k j hb hk hj =
    same_sound _ _ (all_bits_sound clear_law b k j clear_byte_table hb hk hj)

unfoldable pub test_bit : List ℕ → ℕ → Bool
test_bit bm i = test_byte (get_or bm (i / 8) 0) (i % 8)

unfoldable pub set_bit : List ℕ → ℕ → List ℕ
set_bit bm i = set bm (i / 8) (set_byte (get_or bm (i / 8) 0) (i % 8))

unfoldable pub clear_bit : List ℕ → ℕ → List ℕ
clear_bit bm i = set bm (i / 8) (clear_byte (get_or bm (i / 8) 0) (i % 8))

-- Every byte fits `uint8_t`.
abbrev pub IsBytes : List ℕ → Type 0
IsBytes bm = (k : ℕ) → get_or bm k 0 < 256

pub set-IsBytes : (bm : List ℕ) (i v : ℕ) → IsBytes bm → v < 256 → IsBytes (set bm i v)
set-IsBytes bm i v h hv k = elim (ℕ_discrete i k) [
  | no ne ↦ rw (get_or-set_ne bm i k v 0 ne) (h k)
  | yes e ↦ elim (dec_lt i (length bm)) [
    | yes p ↦ rw (← e, get_or-set_self bm i v 0 p) hv
    | no p ↦ rw (set_beyond bm i v (omega arith)) (h k)
  ]
]

pub set_bit-IsBytes : (bm : List ℕ) (i : ℕ) → IsBytes bm → IsBytes (set_bit bm i)
unfolding set_bit
set_bit-IsBytes bm i h = set-IsBytes bm (i / 8) _ h (omega arith)

pub clear_bit-IsBytes : (bm : List ℕ) (i : ℕ) → IsBytes bm → IsBytes (clear_bit bm i)
unfolding clear_bit
clear_bit-IsBytes bm i h = set-IsBytes bm (i / 8) _ h (omega arith)

pub length-set_bit : (bm : List ℕ) (i : ℕ) → length (set_bit bm i) ≡ length bm
unfolding set_bit
length-set_bit bm i = length-set bm (i / 8) _

pub length-clear_bit : (bm : List ℕ) (i : ℕ) → length (clear_bit bm i) ≡ length bm
unfolding clear_bit
length-clear_bit bm i = length-set bm (i / 8) _

-- Setting bit `i` sets it, and leaves every other bit.
pub test_bit-set_bit :
    (bm : List ℕ) (i j : ℕ)
    → IsBytes bm
    → i / 8 < length bm
    → test_bit (set_bit bm i) j ≡ (if i == j then true else test_bit bm j)
unfolding test_bit set_bit
test_bit-set_bit bm i j h p = elim (ℕ_discrete (i / 8) (j / 8)) [
  | yes e ↦
      rw (← e, get_or-set_self bm (i / 8) (set_byte (get_or bm (i / 8) 0) (i % 8)) 0 p)
        (ground (
          arith,
          test_byte-set_byte (get_or bm (i / 8) 0) (i % 8) (j % 8) (h (i / 8)) (omega arith)
              (omega arith),
        ))
  | no ne ↦
      rw (get_or-set_ne bm (i / 8) (j / 8) (set_byte (get_or bm (i / 8) 0) (i % 8)) 0 ne)
        (ground arith)
]

-- Clearing bit `i` clears it, and leaves every other bit.
pub test_bit-clear_bit :
    (bm : List ℕ) (i j : ℕ)
    → IsBytes bm
    → i / 8 < length bm
    → test_bit (clear_bit bm i) j ≡ (if i == j then false else test_bit bm j)
unfolding test_bit clear_bit
test_bit-clear_bit bm i j h p = elim (ℕ_discrete (i / 8) (j / 8)) [
  | yes e ↦
      rw (← e, get_or-set_self bm (i / 8) (clear_byte (get_or bm (i / 8) 0) (i % 8)) 0 p)
        (ground (
          arith,
          test_byte-clear_byte (get_or bm (i / 8) 0) (i % 8) (j % 8) (h (i / 8)) (omega arith)
              (omega arith),
        ))
  | no ne ↦
      rw (get_or-set_ne bm (i / 8) (j / 8) (clear_byte (get_or bm (i / 8) 0) (i % 8)) 0 ne)
        (ground arith)
]
