-- ===== src/Eclib/Format/Tests.antt =====
-- Formats at which the results apply.
use e_comos.Prelude.{ℕ, ◌+◌, ◌<◌, ◌≡◌, inr, refl, some, List, [], ◌∷◌, arith}
use e_comos.Prelude.Int.{pos}
use e_comos.Eclib.Memory.{Memory}
use e_comos.Eclib.Format.{char_arg, conversion, char_of, format, store_bytes, eclib_snprintf}
use e_comos.Eclib.Format.Fits.{eclib_snprintf_inside}

-- memory whose bytes are 255
abbrev full : Memory
full x = 255

-- `a%cb` and a buffer of three bytes: the last character does not fit
abbrev char_format : List ℕ
char_format = b'a' ∷ b'%' ∷ b'c' ∷ b'b' ∷ []

snprintf-char :
    eclib_snprintf 100 3 (some char_format) (char_arg b'x' ∷ []) full
    ≡ some (pos 2, store_bytes (b'a' ∷ b'x' ∷ 0 ∷ []) 100 full)
unfolding eclib_snprintf format conversion char_of
snprintf-char = refl

eclib_snprintf_inside_example :
    (2 < 3)
    × (store_bytes (b'a' ∷ b'x' ∷ 0 ∷ []) 100 full (100 + 2) ≡ 0)
    × (store_bytes (b'a' ∷ b'x' ∷ 0 ∷ []) 100 full 103 ≡ 255)
eclib_snprintf_inside_example =
    eclib_snprintf_inside 100 3 char_format (char_arg b'x' ∷ []) full 103 (inr (omega arith))
      snprintf-char
