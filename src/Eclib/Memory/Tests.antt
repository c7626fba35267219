-- ===== src/Eclib/Memory/Tests.antt =====
-- Overlapping ranges at concrete inputs.
use e_comos.Prelude.{◌≡◌, arith}
use e_comos.Eclib.Memory.{Memory, eclib_memmove}
use e_comos.Eclib.Memory.Move.{moved, eclib_memmove-moved}

-- each byte holds its address
abbrev numbered : Memory
numbered x = x

eclib_memmove-moved_example : eclib_memmove 102 100 8 numbered 105 ≡ moved 8 102 100 numbered 105
eclib_memmove-moved_example = eclib_memmove-moved 102 100 8 numbered 105 (omega arith) (omega arith)
