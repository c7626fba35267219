-- ===== src/Fcef/Reader.antt =====
-- The reader of executables (source/fcef/src/format/fcef_reader.c), on the bytes of an open file. A pointer
-- into the file is an offset, and NULL is `none`. A table's bounds are sums and products of `uint32_t`.
use e_comos.Prelude.{
  ℕ, ◌+◌, ◌-◌, ◌*◌, ◌%◌, ◌^◌, ◌≤◌, ◌<◌, ◌≡◌, ◌≢◌, inl, inr, sym, true, false, Option, none, some,
  List, length, ltb, leb, ◌==◌, if◌then◌else◌, arith, Bool-cases, if_true, if_false,
}
use mathlib.Core.Path.{subst}
use e_comos.Prelude.Search.{find_from, find_from-cases}
use e_comos.Fcef.{byte, header_of}

-- a table of `count` headers of `size` bytes at `offset`
abbrev table_at : List ℕ → ℕ → ℕ → ℕ → Option ℕ
table_at d offset count size =
    if count == 0
    then none
    else if ltb (length d) ((offset + count * size % 2 ^ 32) % 2 ^ 32)
    then none
    else some offset

unfoldable pub fcef_get_program_headers : List ℕ → Option ℕ
fcef_get_program_headers d = table_at d (header_of d).phoff (header_of d).phnum 32

unfoldable pub fcef_get_section_headers : List ℕ → Option ℕ
fcef_get_section_headers d = table_at d (header_of d).shoff (header_of d).shnum 40

abbrev string_if : ℕ → Option ℕ → Option ℕ
string_if str none = none
string_if str (some i) = some str

-- the loop, in a string table of `size` bytes
abbrev string_in : List ℕ → ℕ → ℕ → ℕ → Option ℕ
string_in d strtab index size =
    if leb size index
    then none
    else string_if (strtab + index) (find_from (λ i. byte d (strtab + i) == 0) (size - index) index)

unfoldable pub fcef_get_string : List ℕ → ℕ → ℕ → Option ℕ
fcef_get_string d strtab_offset index =
    if leb (length d) strtab_offset
    then none
    else string_in d strtab_offset index ((length d - strtab_offset) % 2 ^ 32)

-- A string ends inside the file, or there is none.
data StringSpec (d : List ℕ) (strtab index : ℕ) : Option ℕ → Type 0 where
  found :
      (k : ℕ)
      → index ≤ k
      → strtab + k < length d
      → byte d (strtab + k) ≡ 0
      → ((j : ℕ) → index ≤ j → j < k → byte d (strtab + j) ≢ 0)
      → StringSpec d strtab index (some (strtab + index))
  absent :
      ((k : ℕ) → index ≤ k → strtab + k < length d → byte d (strtab + k) ≢ 0)
      → StringSpec d strtab index none

string_in-StringSpec :
    (d : List ℕ) (strtab index : ℕ)
    → strtab < length d
    → StringSpec d strtab index (string_in d strtab index (length d - strtab))
string_in-StringSpec d strtab index h = elim (Bool-cases (leb (length d - strtab) index)) [
  | inl on ↦
      subst (StringSpec d strtab index) (sym (if_true _ _ on))
        (StringSpec.absent (λ k a b zero. beyond on a b))
  | inr off ↦
      subst (StringSpec d strtab index) (sym (if_false _ _ off))
        (elim (find_from-cases (λ i. byte d (strtab + i) == 0) (length d - strtab - index) index) [
          | inl (k, e, first) ↦
              subst (λ o. StringSpec d strtab index (string_if (strtab + index) o)) (sym e)
                (StringSpec.found k first.from (in_file off first.below) (zero_at first.passes)
                  (λ j a b. not_zero_at (first.earlier j a b)))
          | inr (e, all) ↦
              subst (λ o. StringSpec d strtab index (string_if (strtab + index) o)) (sym e)
                (StringSpec.absent (λ k a b. not_zero_at (all k a (in_range off b))))
        ])
]
  where
    beyond : {k : ℕ} → leb (length d - strtab) index ≡ true → index ≤ k → strtab + k < length d → ⊥
    beyond on a b = ground arith

    in_file :
        {k : ℕ}
        → leb (length d - strtab) index ≡ false
        → k < index + (length d - strtab - index)
        → strtab + k < length d
    in_file off b = ground arith

    in_range :
        {k : ℕ}
        → leb (length d - strtab) index ≡ false
        → strtab + k < length d
        → k < index + (length d - strtab - index)
    in_range off b = ground arith

    zero_at : {n : ℕ} → (n == 0) ≡ true → n ≡ 0
    zero_at e = ground arith

    not_zero_at : {n : ℕ} → (n == 0) ≡ false → n ≢ 0
    not_zero_at e = ground arith

-- In a file of less than 2^32 bytes, `fcef_get_string` returns the address of a string whose terminator
-- is inside the file, or NULL if there is no terminator from the index to the end of the file.
fcef_get_string-StringSpec :
    (d : List ℕ) (strtab index : ℕ)
    → length d < 2 ^ 32
    → StringSpec d strtab index (fcef_get_string d strtab index)
unfolding fcef_get_string
fcef_get_string-StringSpec d strtab index small = elim (Bool-cases (leb (length d) strtab)) [
  | inl on ↦
      subst (StringSpec d strtab index) (sym (if_true _ _ on))
        (StringSpec.absent (λ k a b zero. outside k on b))
  | inr off ↦ subst (StringSpec d strtab index) (sym (if_false _ _ off)) (
      subst (λ n. StringSpec d strtab index (string_in d strtab index n)) (omega arith)
        (string_in-StringSpec d strtab index (ground arith)))
]
  where
    outside : (k : ℕ) → leb (length d) strtab ≡ true → strtab + k < length d → ⊥
    outside k on b = ground arith
