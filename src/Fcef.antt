-- ===== src/Fcef.antt =====
-- The FCEF executable format (source/fcef/include/fcef.h, source/fcef/src/format/fcef_validator.c). A file
-- is its bytes; a header is read from them as the packed structure of the source is laid out, lowest byte
-- first.
pub mod Crc
pub mod Power
pub mod Sound
pub mod Load
pub mod Reader
mod Tests
use Prim.Native.Nat.{bit_and, bit_xor}
use e_comos.Prelude.{
  ℕ, zero, suc, ◌+◌, ◌-◌, ◌*◌, ◌/◌, ◌%◌, ◌^◌, Bool, true, false, ◌&&◌, ◌||◌, not, Option, none,
  some, List, [], ◌∷◌, length, get_elem?, get_or, set, ltb, leb, ◌==◌, if◌then◌else◌,
}

abbrev pub byte : List ℕ → ℕ → ℕ
byte d i = get_or d i 0

-- a `uint32_t` at offset `i`
abbrev pub word : List ℕ → ℕ → ℕ
word d i = byte d i + 2 ^ 8 * byte d (i + 1) + 2 ^ 16 * byte d (i + 2) + 2 ^ 24 * byte d (i + 3)

-- `fcef_program_header_t`
pub record ProgramHeader : Type 0 where
  pub type : ℕ
  pub offset : ℕ
  pub vaddr : ℕ
  pub paddr : ℕ
  pub filesz : ℕ
  pub memsz : ℕ
  pub flags : ℕ
  pub align : ℕ

-- `fcef_section_header_t`
pub record SectionHeader : Type 0 where
  pub name : ℕ
  pub type : ℕ
  pub flags : ℕ
  pub addr : ℕ
  pub offset : ℕ
  pub size : ℕ
  pub link : ℕ
  pub info : ℕ
  pub addralign : ℕ
  pub entsize : ℕ

-- `fcef_header_t`, 82 bytes; `reserved` is not read.
pub record Header : Type 0 where
  pub arch : ℕ
  pub version : ℕ
  pub flags : ℕ
  pub entry_point : ℕ
  pub phoff : ℕ
  pub shoff : ℕ
  pub phnum : ℕ
  pub shnum : ℕ
  pub shstrndx : ℕ
  pub crc32 : ℕ
  pub file_size : ℕ
  pub version_major : ℕ
  pub version_minor : ℕ

abbrev pub header_of : List ℕ → Header
header_of d = record {
  arch = byte d 4;
  version = byte d 5;
  flags = byte d 6 + 2 ^ 8 * byte d 7;
  entry_point = word d 8;
  phoff = word d 12;
  shoff = word d 16;
  phnum = word d 20;
  shnum = word d 24;
  shstrndx = word d 28;
  crc32 = word d 32;
  file_size = word d 76;
  version_major = byte d 80;
  version_minor = byte d 81;
}

unfoldable pub program_header_at : List ℕ → ℕ → ProgramHeader
program_header_at d i = record {
  type = word d i;
  offset = word d (i + 4);
  vaddr = word d (i + 8);
  paddr = word d (i + 12);
  filesz = word d (i + 16);
  memsz = word d (i + 20);
  flags = word d (i + 24);
  align = word d (i + 28);
}

unfoldable pub section_header_at : List ℕ → ℕ → SectionHeader
section_header_at d i = record {
  name = word d i;
  type = word d (i + 4);
  flags = word d (i + 8);
  addr = word d (i + 12);
  offset = word d (i + 16);
  size = word d (i + 20);
  link = word d (i + 24);
  info = word d (i + 28);
  addralign = word d (i + 32);
  entsize = word d (i + 36);
}

abbrev pub sht_null : ℕ
sht_null = 0

abbrev pub sht_nobits : ℕ
sht_nobits = 8

abbrev pub pt_load : ℕ
pt_load = 1

-- `align != 0 && (align & (align - 1)) != 0` refuses an alignment.
unfoldable pub accepts_align : ℕ → Bool
accepts_align align = align == 0 || bit_and align (align - 1) == 0

-- `validate_program_header` in a file of `size` bytes; the sum is one of `uint32_t`.
unfoldable pub validate_program_header : ℕ → ProgramHeader → Bool
validate_program_header size phdr =
    if leb size phdr.offset
    then false
    else if ltb size ((phdr.offset + phdr.filesz) % 2 ^ 32)
    then false
    else if ltb phdr.memsz phdr.filesz
    then false
    else accepts_align phdr.align

unfoldable pub validate_section_header : ℕ → SectionHeader → Bool
validate_section_header size shdr =
    if not (shdr.type == sht_nobits)
      && not (shdr.type == sht_null)
      && (leb size shdr.offset || ltb size ((shdr.offset + shdr.size) % 2 ^ 32))
    then false
    else accepts_align shdr.addralign

-- the loops over the headers: `n` of them, from index `i` on
unfoldable pub all_headers : (ℕ → Bool) → ℕ → ℕ → Bool
all_headers test zero i = true
all_headers test (suc n) i = let rest = all_headers test n (i + 1) in if test i then rest else false

-- one round of the inner loop of `init_crc32_table`
abbrev pub crc_bit : ℕ → ℕ
crc_bit c = if bit_and c 1 == 0 then c / 2 else bit_xor 0xEDB88320 (c / 2)

unfoldable pub crc_bits : ℕ → ℕ → ℕ
crc_bits zero c = c
crc_bits (suc n) c = crc_bits n (crc_bit c)

-- entry `i` of `crc32_table`, once it is set up
abbrev pub crc32_table : ℕ → ℕ
crc32_table i = crc_bits 8 i

unfoldable pub crc_loop : List ℕ → ℕ → ℕ
crc_loop [] crc = crc
crc_loop (b ∷ d) crc =
    crc_loop d (bit_xor (crc32_table (bit_and (bit_xor crc b) 0xFF)) (crc / 2 ^ 8))

-- An empty buffer gives 0.
unfoldable pub fcef_calculate_crc32 : List ℕ → ℕ
fcef_calculate_crc32 [] = 0
fcef_calculate_crc32 (b ∷ d) = bit_xor (crc_loop (b ∷ d) 0xFFFFFFFF) 0xFFFFFFFF

-- `header->crc32 = w`
unfoldable pub with_crc32 : ℕ → List ℕ → List ℕ
with_crc32 w d =
    set (set (set (set d 32 (w % 256)) 33 (w / 2 ^ 8 % 256)) 34 (w / 2 ^ 16 % 256)) 35
      (w / 2 ^ 24 % 256)

abbrev pub magic_ok : List ℕ → Bool
magic_ok d = byte d 0 == 0x46 && byte d 1 == 0x43 && byte d 2 == 0x45 && byte d 3 == 0x46

-- The bounds of the tables are sums of `size_t`, which do not wrap.
abbrev pub programs_ok : List ℕ → Header → Bool
programs_ok d h =
    h.phnum == 0
    || (leb (h.phoff + h.phnum * 32) (length d)
        && all_headers
            (λ i. validate_program_header (length d) (program_header_at d (h.phoff + i * 32)))
            h.phnum 0)

abbrev pub sections_ok : List ℕ → Header → Bool
sections_ok d h =
    h.shnum == 0
    || (leb (h.shoff + h.shnum * 40) (length d)
        && not (leb h.shnum h.shstrndx && not (h.shstrndx == 0))
        && all_headers
            (λ i. validate_section_header (length d) (section_header_at d (h.shoff + i * 40)))
            h.shnum 0)

abbrev pub crc_ok : List ℕ → Header → Bool
crc_ok d h = h.crc32 == 0 || fcef_calculate_crc32 (with_crc32 0 d) == h.crc32

-- `file->header` is not NULL: `fcef_open` sets it to the file's bytes. The checksum is restored after it
-- has been computed, so that the bytes end as they were.
unfoldable pub fcef_validate : List ℕ → Bool
fcef_validate d =
    let h = header_of d in
    if not (magic_ok d)
    then false
    else if h.version_major == 0
    then false
    else if ltb (length d) h.file_size
    then false
    else if not (programs_ok d h)
    then false
    else if not (sections_ok d h)
    then false
    else crc_ok d h

-- `fcef_update_crc32`, on a file that is not empty
unfoldable pub fcef_update_crc32 : List ℕ → List ℕ
fcef_update_crc32 d = with_crc32 (fcef_calculate_crc32 (with_crc32 0 d)) d

-- `memory[to + j] = d[from + j]` for `n` indices; `none` is a read past the file
unfoldable pub copy_bytes : ℕ → ℕ → ℕ → List ℕ → (ℕ → ℕ) → Option (ℕ → ℕ)
copy_bytes zero from to d mem = some mem
copy_bytes (suc n) from to d mem = elim (get_elem? d from) [
  | none ↦ none
  | some b ↦ copy_bytes n (from + 1) (to + 1) d (λ x. if to == x then b else mem x)
]

unfoldable pub zero_bytes : ℕ → ℕ → (ℕ → ℕ) → ℕ → ℕ
zero_bytes zero to mem = mem
zero_bytes (suc n) to mem = zero_bytes n (to + 1) (λ x. if to == x then 0 else mem x)

-- `fcef_load_segment`: the result and the memory, or `none` when `memcpy` reads past the file
unfoldable pub fcef_load_segment : List ℕ → ProgramHeader → ℕ → (ℕ → ℕ) → Option (Bool × (ℕ → ℕ))
unfolding zero_bytes
fcef_load_segment d phdr memory mem =
    if not (phdr.type == pt_load)
    then some (false, mem)
    else if ltb (length d) ((phdr.offset + phdr.filesz) % 2 ^ 32)
    then some (false, mem)
    else (elim (copy_bytes phdr.filesz phdr.offset (memory + phdr.vaddr) d mem) [
      | none ↦ none
      | some mem1 ↦
          some
            (true, zero_bytes (phdr.memsz - phdr.filesz) (memory + phdr.vaddr + phdr.filesz) mem1)
    ])
