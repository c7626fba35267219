-- ===== src/Eclib/Strings.antt =====
-- The string functions of the C library (source/eclib/src/utils/utils.c). A string is the list of its
-- bytes, without the terminating 0; NULL is `none`, and a pointer into a string is an index. A `char` is
-- signed, as on x86. A character that is passed as an `int` is not negative.
pub mod Compare
pub mod Find
mod Tests
use e_comos.Prelude.{
  ℕ, zero, suc, ◌+◌, ◌-◌, ◌%◌, Bool, true, false, ◌&&◌, ◌||◌, not, Option, none, some, List, [],
  ◌∷◌, length, drop, ltb, leb, ◌==◌, if◌then◌else◌,
}
use e_comos.Prelude.Int.{ℤ, pos, negsuc, sub_ℕ}
use e_comos.Prelude.Search.{find_from}

abbrev pub CString : Type 0
CString = Option (List ℕ)

unfoldable pub eclib_strlen : CString → ℕ
eclib_strlen none = 0
eclib_strlen (some str) = length str

-- what a `char` adds to its byte's value to be positive
abbrev pub sign_of : ℕ → ℕ
sign_of c = if ltb c 128 then 0 else 256

-- the difference of two `char`s
abbrev pub minus_char : ℕ → ℕ → ℤ
minus_char c d = sub_ℕ (c + sign_of d) (d + sign_of c)

abbrev pub first_byte : List ℕ → ℕ
first_byte [] = 0
first_byte (c ∷ cs) = c

abbrev pub other_bytes : List ℕ → List ℕ
other_bytes [] = []
other_bytes (c ∷ cs) = cs

-- the loop of `eclib_strcmp` and the difference behind it
unfoldable pub compare_chars : List ℕ → List ℕ → ℤ
compare_chars [] t = minus_char 0 (first_byte t)
compare_chars (c ∷ s) [] = minus_char c 0
compare_chars (c ∷ s) (d ∷ t) =
    let rest = compare_chars s t in if c == d then rest else minus_char c d

unfoldable pub eclib_strcmp : CString → CString → ℤ
eclib_strcmp none none = pos 0
eclib_strcmp none (some t) = negsuc 0
eclib_strcmp (some s) none = pos 1
eclib_strcmp (some s) (some t) = compare_chars s t

-- the loop of `eclib_strncmp`, over `n` bytes, the terminators included
unfoldable pub compare_bytes : ℕ → List ℕ → List ℕ → ℤ
compare_bytes zero s t = pos 0
compare_bytes (suc n) s t =
    let rest = compare_bytes n (other_bytes s) (other_bytes t) in
    if not (first_byte s == first_byte t) || first_byte s == 0
    then sub_ℕ (first_byte s) (first_byte t)
    else rest

unfoldable pub eclib_strncmp : CString → CString → ℕ → ℤ
eclib_strncmp none none n = pos 0
eclib_strncmp none (some t) n = negsuc 0
eclib_strncmp (some s) none n = pos 1
eclib_strncmp (some s) (some t) n = compare_bytes n s t

-- the inner loop of `eclib_strstr`: `substr` stands at the start of `str`
unfoldable pub stands_at : List ℕ → List ℕ → Bool
stands_at [] str = true
stands_at (d ∷ substr) [] = false
stands_at (d ∷ substr) (c ∷ str) = let rest = stands_at substr str in if c == d then rest else false

unfoldable pub find_substr : List ℕ → List ℕ → Option ℕ
find_substr str substr =
    if ltb (length str) (length substr)
    then none
    else find_from (λ i. stands_at substr (drop i str)) (length str - length substr + 1) 0

unfoldable pub eclib_strstr : CString → CString → Option ℕ
eclib_strstr none substr = none
eclib_strstr (some str) none = none
eclib_strstr (some str) (some []) = none
eclib_strstr (some str) (some (d ∷ substr)) = find_substr str (d ∷ substr)

-- The loop of `eclib_strchr` over the bytes from the index `i` on.
unfoldable pub chr_from : ℕ → ℕ → List ℕ → Option ℕ
chr_from c i [] = if c == 0 then some i else none
chr_from c i (d ∷ s) = let rest = chr_from c (i + 1) s in if d == c % 256 then some i else rest

unfoldable pub eclib_strchr : CString → ℕ → Option ℕ
eclib_strchr none c = none
eclib_strchr (some s) c = chr_from c 0 s

-- The loop of `eclib_strrchr`; `last` is the last index that was found.
unfoldable pub rchr_from : ℕ → ℕ → Option ℕ → List ℕ → Option ℕ
rchr_from c i last [] = if c == 0 then some i else last
rchr_from c i last (d ∷ s) = rchr_from c (i + 1) (if d == c % 256 then some i else last) s

unfoldable pub eclib_strrchr : CString → ℕ → Option ℕ
eclib_strrchr none c = none
eclib_strrchr (some s) c = rchr_from c 0 none s

unfoldable pub eclib_isdigit : ℕ → ℕ
eclib_isdigit c = if leb b'0' c && leb c b'9' then 1 else 0

unfoldable pub eclib_isalpha : ℕ → ℕ
eclib_isalpha c = if leb b'a' c && leb c b'z' || leb b'A' c && leb c b'Z' then 1 else 0

unfoldable pub eclib_tolower : ℕ → ℕ
eclib_tolower c = if leb b'A' c && leb c b'Z' then c + (b'a' - b'A') else c

unfoldable pub eclib_toupper : ℕ → ℕ
eclib_toupper c = if leb b'a' c && leb c b'z' then c - (b'a' - b'A') else c
