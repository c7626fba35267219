-- ===== src/Eclib/Format.antt =====
-- `eclib_snprintf` (source/eclib/src/utils/utils.c). The arguments are a list, and one that is missing
-- or has another type has no result. What is written is the list of the bytes in front of the
-- terminating 0; `room` is the number of bytes that still fit. The arguments lie outside the buffer.
pub mod Fits
pub mod Decimal
mod Tests
use e_comos.Prelude.{
  ℕ, zero, suc, ◌+◌, ◌-◌, ◌/◌, ◌%◌, ◌^◌, Bool, true, false, ◌&&◌, ◌||◌, not, Option, none, some,
  List, [], ◌∷◌, ◌++◌, length, take, map, leb, ◌==◌, if◌then◌else◌,
}
use e_comos.Prelude.Int.{ℤ, pos, negsuc}
use e_comos.Eclib.Memory.{Memory, write}

-- A pointer to a string, or NULL, or an `int`, or a `char`.
pub data FormatArg : Type 0 where
  string_arg : Option (List ℕ) → FormatArg
  int_arg : ℤ → FormatArg
  char_arg : ℕ → FormatArg

-- The digits of `val` in front of those that have been found, as `tmp` is read backwards; `tmp` has 32
-- bytes.
unfoldable pub digits_of : ℕ → ℕ → List ℕ → List ℕ
digits_of zero val tmp = tmp
digits_of (suc n) val tmp =
    let digit = b'0' + val % 10 in
    let more = digits_of n (val / 10) (digit ∷ tmp) in if val / 10 == 0 then digit ∷ tmp else more

abbrev pub tmp_size : ℕ
tmp_size = 32

-- The text of an `int`; the least one has no negative, and no result.
unfoldable pub int_text : ℤ → Option (List ℕ)
int_text (pos n) = some (digits_of tmp_size n [])
int_text (negsuc n) = if n == 2 ^ 31 - 1 then none else some (b'-' ∷ digits_of tmp_size (suc n) [])

abbrev with_rest : List FormatArg → Option (List ℕ) → Option (List ℕ × List FormatArg)
with_rest args none = none
with_rest args (some text) = some (text, args)

-- `%s`, where NULL writes nothing, `%d` and `%c`
unfoldable pub string_of : List FormatArg → Option (List ℕ × List FormatArg)
string_of [] = none
string_of (string_arg none ∷ args) = some ([], args)
string_of (string_arg (some s) ∷ args) = some (s, args)
string_of (int_arg val ∷ args) = none
string_of (char_arg c ∷ args) = none

unfoldable pub int_of : List FormatArg → Option (List ℕ × List FormatArg)
int_of [] = none
int_of (string_arg s ∷ args) = none
int_of (int_arg val ∷ args) = with_rest args (int_text val)
int_of (char_arg c ∷ args) = none

unfoldable pub char_of : List FormatArg → Option (List ℕ × List FormatArg)
char_of [] = none
char_of (string_arg s ∷ args) = none
char_of (int_arg val ∷ args) = none
char_of (char_arg c ∷ args) = some (c % 256 ∷ [], args)

-- The text that a conversion writes, and the arguments behind it.
unfoldable pub conversion : ℕ → List FormatArg → Option (List ℕ × List FormatArg)
conversion c args =
    if c == b's'
    then string_of args
    else if c == b'd'
    then int_of args
    else if c == b'c'
    then char_of args
    else some (c ∷ [], args)

abbrev pub put : List ℕ → Option (List ℕ) → Option (List ℕ)
put text none = none
put text (some out) = some (text ++ out)

-- what of the text fits, and then the rest of the format
abbrev pub converted :
    (List FormatArg → ℕ → Option (List ℕ)) → ℕ → Option (List ℕ × List FormatArg) → Option (List ℕ)
converted again room none = none
converted again room (some (text, args)) =
    put (take room text) (again args (room - length (take room text)))

-- the main loop
unfoldable pub format : List ℕ → List FormatArg → ℕ → Option (List ℕ)
format [] args room = some []
format (c ∷ fmt) args zero = some []
format (c ∷ []) args (suc room) = some (c ∷ [])
format (c ∷ d ∷ fmt) args (suc room) =
    let plain = format (d ∷ fmt) args room in
    if c == b'%'
    then converted (λ more left. format fmt more left) (suc room) (conversion d args)
    else put (c ∷ []) plain

unfoldable pub store_bytes : List ℕ → ℕ → Memory → Memory
store_bytes [] ptr mem = mem
store_bytes (c ∷ cs) ptr mem = store_bytes cs (ptr + 1) (write ptr c mem)

abbrev pub finished : ℕ → Memory → Option (List ℕ) → Option (ℤ × Memory)
finished buf mem none = none
finished buf mem (some out) = some (pos (length out), store_bytes (out ++ 0 ∷ []) buf mem)

unfoldable pub eclib_snprintf :
    ℕ → ℕ → Option (List ℕ) → List FormatArg → Memory → Option (ℤ × Memory)
eclib_snprintf buf size none args mem = some (negsuc 0, mem)
eclib_snprintf buf size (some fmt) args mem =
    if buf == 0 || size == 0
    then some (negsuc 0, mem)
    else finished buf mem (format fmt args (size - 1))
