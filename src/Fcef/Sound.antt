-- ===== src/Fcef/Sound.antt =====
-- What a file that `fcef_validate` accepts is like.
use e_comos.Prelude.{
  ℕ, zero, suc, ◌+◌, ◌*◌, ◌%◌, ◌^◌, ◌≤◌, ◌<◌, ◌≡◌, ◌≢◌, ◌⊎◌, true, false, Bool, List, length, ltb,
  ◌==◌, arith, ℕ_discrete,
}
use e_comos.Fcef.{
  ProgramHeader, SectionHeader, Header, word, header_of, program_header_at, section_header_at,
  accepts_align, validate_program_header, validate_section_header, all_headers, magic_ok,
  programs_ok, sections_ok, crc_ok, fcef_validate, fcef_calculate_crc32, with_crc32,
}
use e_comos.Fcef.Power.{IsPower, accepts_align-IsPower}

-- A segment that is accepted: its end, as a 32-bit sum, is inside the file.
pub record SegmentOk (size : ℕ) (p : ProgramHeader) : Type 0 where
  pub begins : p.offset < size
  pub ends : (p.offset + p.filesz) % 2 ^ 32 ≤ size
  pub fits : p.filesz ≤ p.memsz
  pub aligned : (p.align ≡ 0) ⊎ IsPower p.align

pub record SectionOk (size : ℕ) (s : SectionHeader) : Type 0 where
  pub inside :
      (s.type ≡ 8) ⊎ (s.type ≡ 0) ⊎ ((s.offset < size) × ((s.offset + s.size) % 2 ^ 32 ≤ size))
  pub aligned : (s.addralign ≡ 0) ⊎ IsPower s.addralign

validate_program_header-SegmentOk :
    (size : ℕ) (p : ProgramHeader) → validate_program_header size p ≡ true → SegmentOk size p
unfolding validate_program_header
validate_program_header-SegmentOk size p h =
    let at : accepts_align p.align ≡ true = ground arith in
    record {
      begins = ground arith;
      ends = ground arith;
      fits = ground arith;
      aligned = (accepts_align-IsPower p.align).0 at;
    }

validate_section_header-SectionOk :
    (size : ℕ) (s : SectionHeader) → validate_section_header size s ≡ true → SectionOk size s
unfolding validate_section_header
validate_section_header-SectionOk size s h =
    let at : accepts_align s.addralign ≡ true = ground arith in
    record { inside = ground arith; aligned = (accepts_align-IsPower s.addralign).0 at }

all_headers-each :
    (test : ℕ → Bool) (n i : ℕ)
    → all_headers test n i ≡ true
    → (j : ℕ) → i ≤ j
    → j < i + n
    → test j ≡ true
unfolding all_headers
all_headers-each test zero i h j a b = absurd (omega arith)
all_headers-each test (suc n) i h j a b = elim (ℕ_discrete i j) [
  | yes e ↦ rw (← e) (ground arith)
  | no ne ↦ all_headers-each test n (i + 1) (ground arith) j (omega arith) (omega arith)
]

-- The two tables lie inside the file, so that every header is read inside it, and each header is
-- accepted.
pub record Sound (d : List ℕ) : Type 0 where
  pub magic : word d 0 ≡ 0x46454346
  pub version : (header_of d).version_major ≢ 0
  pub file_size : (header_of d).file_size ≤ length d
  pub programs :
      (i : ℕ)
      → i < (header_of d).phnum
      → ((header_of d).phoff + i * 32 + 32 ≤ length d)
        × SegmentOk (length d) (program_header_at d ((header_of d).phoff + i * 32))
  pub sections :
      (i : ℕ)
      → i < (header_of d).shnum
      → ((header_of d).shoff + i * 40 + 40 ≤ length d)
        × SectionOk (length d) (section_header_at d ((header_of d).shoff + i * 40))
  pub names :
      (header_of d).shnum ≢ 0
      → ((header_of d).shstrndx ≡ 0) ⊎ ((header_of d).shstrndx < (header_of d).shnum)
  pub checksum :
      ((header_of d).crc32 ≡ 0) ⊎ (fcef_calculate_crc32 (with_crc32 0 d) ≡ (header_of d).crc32)

programs_ok-each :
    (d : List ℕ) (h : Header)
    → programs_ok d h ≡ true
    → (i : ℕ) → i < h.phnum
    → (h.phoff + i * 32 + 32 ≤ length d)
      × SegmentOk (length d) (program_header_at d (h.phoff + i * 32))
programs_ok-each d h ok i below =
    let each : all_headers
          (λ i. validate_program_header (length d) (program_header_at d (h.phoff + i * 32))) h.phnum
          0
        ≡ true =
      ground arith in
    (
      ground arith,
      validate_program_header-SegmentOk (length d) (program_header_at d (h.phoff + i * 32))
          (all_headers-each _ h.phnum 0 each i (omega arith) (omega arith)),
    )

sections_ok-each :
    (d : List ℕ) (h : Header)
    → sections_ok d h ≡ true
    → (i : ℕ) → i < h.shnum
    → (h.shoff + i * 40 + 40 ≤ length d)
      × SectionOk (length d) (section_header_at d (h.shoff + i * 40))
sections_ok-each d h ok i below =
    let each : all_headers
          (λ i. validate_section_header (length d) (section_header_at d (h.shoff + i * 40))) h.shnum
          0
        ≡ true =
      ground arith in
    (
      ground arith,
      validate_section_header-SectionOk (length d) (section_header_at d (h.shoff + i * 40))
          (all_headers-each _ h.shnum 0 each i (omega arith) (omega arith)),
    )

-- The checks of `fcef_validate`, one by one.
record Checks (d : List ℕ) : Type 0 where
  magic : magic_ok d ≡ true
  version : ((header_of d).version_major == 0) ≡ false
  file_size : ltb (length d) (header_of d).file_size ≡ false
  programs : programs_ok d (header_of d) ≡ true
  sections : sections_ok d (header_of d) ≡ true
  checksum : crc_ok d (header_of d) ≡ true

fcef_validate-Checks : (d : List ℕ) → fcef_validate d ≡ true → Checks d
unfolding fcef_validate
fcef_validate-Checks d h = record {
  magic = ground arith;
  version = ground arith;
  file_size = ground arith;
  programs = ground arith;
  sections = ground arith;
  checksum = ground arith;
}

-- A file that `fcef_validate` accepts has the bytes `F`, `C`, `E`, `F` at the start, a version and a
-- size that fits. Each of its program and section headers lies inside the file, begins inside it unless
-- it has no bytes there, ends inside it up to a multiple of 2^32, and has an alignment that is 0 or a
-- power of two; a segment is at least as large in memory. The index of the string table is 0 or that of a
-- section, and the checksum is 0 or that of the file with the field cleared.
pub fcef_validate-Sound : (d : List ℕ) → fcef_validate d ≡ true → Sound d
fcef_validate-Sound d h =
    let c = fcef_validate-Checks d h in
    record {
      magic = ground (arith, c.magic);
      version = ground (arith, c.version);
      file_size = ground (arith, c.file_size);
      programs = programs_ok-each d (header_of d) c.programs;
      sections = sections_ok-each d (header_of d) c.sections;
      names = λ some_there. ground (arith, c.sections);
      checksum = ground (arith, c.checksum);
    }
