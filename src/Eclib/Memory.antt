-- ===== src/Eclib/Memory.antt =====
-- The memory functions of the C library (source/eclib/src/utils/utils.c). Memory is a function of the
-- address; NULL is the address 0.
pub mod Move
mod Tests
use e_comos.Prelude.{ℕ, zero, suc, ◌+◌, ◌%◌, ◌&&◌, ◌||◌, ltb, ◌==◌, if◌then◌else◌}

abbrev pub Memory : Type 0
Memory = ℕ → ℕ

abbrev pub write : ℕ → ℕ → Memory → Memory
write a v mem = λ x. if a == x then v else mem x

-- the loop of `eclib_memcpy`, from the first byte on
unfoldable pub copy_up : ℕ → ℕ → ℕ → Memory → Memory
copy_up zero dest src mem = mem
copy_up (suc n) dest src mem = copy_up n (dest + 1) (src + 1) (write dest (mem src) mem)

-- the loop of `eclib_memmove`, from the last of `n` bytes on
unfoldable pub copy_down : ℕ → ℕ → ℕ → Memory → Memory
copy_down zero dest src mem = mem
copy_down (suc n) dest src mem = copy_down n dest src (write (dest + n) (mem (src + n)) mem)

unfoldable pub eclib_memcpy : ℕ → ℕ → ℕ → Memory → Memory
eclib_memcpy dest src len mem =
    if dest == 0 || src == 0 || len == 0 then mem else copy_up len dest src mem

unfoldable pub eclib_memmove : ℕ → ℕ → ℕ → Memory → Memory
eclib_memmove dest src len mem =
    if dest == 0 || src == 0 || len == 0
    then mem
    else if ltb src dest && ltb dest (src + len)
    then copy_down len dest src mem
    else eclib_memcpy dest src len mem

-- the loop of `eclib_memset`
unfoldable pub fill : ℕ → ℕ → ℕ → Memory → Memory
fill zero ptr val mem = mem
fill (suc n) ptr val mem = fill n (ptr + 1) val (write ptr val mem)

unfoldable pub eclib_memset : ℕ → ℕ → ℕ → Memory → Memory
eclib_memset ptr value len mem =
    if ptr == 0 || len == 0 then mem else fill len ptr (value % 256) mem
