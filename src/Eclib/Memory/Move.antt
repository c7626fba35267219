-- ===== src/Eclib/Memory/Move.antt =====
-- Copying and filling, overlapping ranges included.
use e_comos.Prelude.{
  ℕ, zero, suc, ◌+◌, ◌-◌, ◌%◌, ◌≤◌, ◌<◌, ◌≡◌, ◌≢◌, ◌⊎◌, inl, inr, ap, sym, ◌∙◌, Bool, ◌&&◌, leb,
  ltb, if◌then◌else◌, arith, dec_lt, ℕ_discrete, Bool-cases,
}
use e_comos.Eclib.Memory.{
  Memory, write, copy_up, copy_down, fill, eclib_memcpy, eclib_memmove, eclib_memset,
}

abbrev pub within : ℕ → ℕ → ℕ → Bool
within from n x = leb from x && ltb x (from + n)

-- What a copy of `n` bytes is to leave: the bytes that were at the source, and the rest as before.
abbrev pub moved : ℕ → ℕ → ℕ → Memory → Memory
moved n dest src mem x = if within dest n x then mem (src + (x - dest)) else mem x

up_step :
    (n dest src : ℕ) (mem : Memory) (x : ℕ)
    → (dest ≤ src) ⊎ (src + suc n ≤ dest)
    → moved n (dest + 1) (src + 1) (write dest (mem src) mem) x ≡ moved (suc n) dest src mem x
up_step n dest src mem x apart = elim (dec_lt dest x) [
  | yes h ↦
      let same : src + 1 + (x - (dest + 1)) ≡ src + (x - dest) = omega arith in
      ground (arith, ap mem same)
  | no h ↦ elim (ℕ_discrete dest x) [
    | yes e ↦ let same : src ≡ src + (x - dest) = omega arith in ground (arith, ap mem same)
    | no ne ↦ ground arith
  ]
]

copy_up-moved :
    (n dest src : ℕ) (mem : Memory) (x : ℕ)
    → (dest ≤ src) ⊎ (src + n ≤ dest)
    → copy_up n dest src mem x ≡ moved n dest src mem x
unfolding copy_up
copy_up-moved zero dest src mem x apart = ground arith
copy_up-moved (suc n) dest src mem x apart =
    copy_up-moved n (dest + 1) (src + 1) (write dest (mem src) mem) x (ground arith)
    ∙ up_step n dest src mem x apart

down_step :
    (n dest src : ℕ) (mem : Memory) (x : ℕ)
    → src < dest
    → moved n dest src (write (dest + n) (mem (src + n)) mem) x ≡ moved (suc n) dest src mem x
down_step n dest src mem x below = elim (ℕ_discrete (dest + n) x) [
  | yes e ↦ let same : src + n ≡ src + (x - dest) = omega arith in ground (arith, ap mem same)
  | no ne ↦ ground arith
]

copy_down-moved :
    (n dest src : ℕ) (mem : Memory) (x : ℕ)
    → src < dest
    → copy_down n dest src mem x ≡ moved n dest src mem x
unfolding copy_down
copy_down-moved zero dest src mem x below = ground arith
copy_down-moved (suc n) dest src mem x below =
    copy_down-moved n dest src (write (dest + n) (mem (src + n)) mem) x below
    ∙ down_step n dest src mem x below

memcpy-moved :
    (dest src len : ℕ) (mem : Memory) (x : ℕ)
    → dest ≢ 0
    → src ≢ 0
    → (dest ≤ src) ⊎ (src + len ≤ dest)
    → eclib_memcpy dest src len mem x ≡ moved len dest src mem x
unfolding eclib_memcpy
memcpy-moved dest src len mem x hd hs apart = ground (arith, copy_up-moved len dest src mem x apart)

-- For pointers that are not NULL, `eclib_memmove` leaves at the destination the bytes that were at the
-- source, however the two ranges overlap, and every other byte as it was.
pub eclib_memmove-moved :
    (dest src len : ℕ) (mem : Memory) (x : ℕ)
    → dest ≢ 0
    → src ≢ 0
    → eclib_memmove dest src len mem x ≡ moved len dest src mem x
unfolding eclib_memmove
eclib_memmove-moved dest src len mem x hd hs =
    elim (Bool-cases (ltb src dest && ltb dest (src + len))) [
      | inl overlap ↦ ground (arith, copy_down-moved len dest src mem x (ground arith))
      | inr other ↦ ground (arith, memcpy-moved dest src len mem x hd hs (ground arith))
    ]

-- `eclib_memcpy` does the same, and agrees with `eclib_memmove`, where the destination does not start
-- inside the source behind its first byte.
eclib_memcpy-eclib_memmove :
    (dest src len : ℕ) (mem : Memory) (x : ℕ)
    → dest ≢ 0
    → src ≢ 0
    → (dest ≤ src) ⊎ (src + len ≤ dest)
    → eclib_memcpy dest src len mem x ≡ eclib_memmove dest src len mem x
eclib_memcpy-eclib_memmove dest src len mem x hd hs apart =
    memcpy-moved dest src len mem x hd hs apart ∙ sym (eclib_memmove-moved dest src len mem x hd hs)

fill_lem :
    (n ptr val : ℕ) (mem : Memory) (x : ℕ)
    → fill n ptr val mem x ≡ (if within ptr n x then val else mem x)
unfolding fill
fill_lem zero ptr val mem x = ground arith
fill_lem (suc n) ptr val mem x = fill_lem n (ptr + 1) val (write ptr val mem) x ∙ ground arith

-- For a pointer that is not NULL, `eclib_memset` writes the lowest byte of the value to each of the `len`
-- bytes and to no other.
eclib_memset_lem :
    (ptr value len : ℕ) (mem : Memory) (x : ℕ)
    → ptr ≢ 0
    → eclib_memset ptr value len mem x ≡ (if within ptr len x then value % 256 else mem x)
unfolding eclib_memset
eclib_memset_lem ptr value len mem x h = ground (arith, fill_lem len ptr (value % 256) mem x)
