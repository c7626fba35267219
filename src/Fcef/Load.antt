-- ===== src/Fcef/Load.antt =====
-- Loading a segment.
use e_comos.Prelude.{
  ℕ, ◌+◌, ◌-◌, ◌%◌, ◌^◌, ◌≤◌, ◌<◌, ◌≡◌, ◌≢◌, ◌⊎◌, true, false, Bool, ◌&&◌, Option, none, some, List,
  length, leb, ltb, if◌then◌else◌,
}
use e_comos.Fcef.{ProgramHeader, byte, zero_bytes}

abbrev pub within : ℕ → ℕ → ℕ → Bool
within from n x = leb from x && ltb x (from + n)

-- The `n` bytes are copied and the rest of memory is as before.
abbrev pub IsCopy : ℕ → ℕ → ℕ → List ℕ → (ℕ → ℕ) → (ℕ → ℕ) → Type 0
IsCopy n from to d mem mem' =
    (x : ℕ) → mem' x ≡ (if within to n x then byte d (from + (x - to)) else mem x)

-- The memory after a load at `base`: the segment's bytes, zeros up to its size in memory, and the rest as
-- before.
abbrev pub loaded_byte : List ℕ → ProgramHeader → ℕ → (ℕ → ℕ) → ℕ → ℕ
loaded_byte d p base mem x =
    if within base p.filesz x
    then byte d (p.offset + (x - base))
    else if within (base + p.filesz) (p.memsz - p.filesz) x
    then 0
    else mem x

pub data LoadSpec (d : List ℕ) (p : ProgramHeader) (memory : ℕ) (mem : ℕ → ℕ)
    : Option (Bool × (ℕ → ℕ)) → Type 0 where
  refused :
      (p.type ≢ 1) ⊎ (length d < (p.offset + p.filesz) % 2 ^ 32)
      → LoadSpec d p memory mem (some (false, mem))
  loaded :
      (mem' : ℕ → ℕ)
      → p.type ≡ 1
      → (p.offset + p.filesz) % 2 ^ 32 ≤ length d
      → (p.filesz ≡ 0) ⊎ (p.offset + p.filesz ≤ length d)
      → ((x : ℕ) → mem' x ≡ loaded_byte d p (memory + p.vaddr) mem x)
      → LoadSpec d p memory mem (some (true, mem'))
  overrun :
      p.type ≡ 1
      → length d < p.offset + p.filesz
      → p.filesz ≢ 0
      → (p.offset + p.filesz) % 2 ^ 32 ≤ length d
      → LoadSpec d p memory mem none

abbrev zero_rest : ProgramHeader → ℕ → Option (ℕ → ℕ) → Option (Bool × (ℕ → ℕ))
zero_rest p base none = none
zero_rest p base (some mem1) = some (true, zero_bytes (p.memsz - p.filesz) (base + p.filesz) mem1)
