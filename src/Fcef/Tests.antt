-- ===== src/Fcef/Tests.antt =====
-- A small file with one segment, at concrete inputs.
use e_comos.Prelude.{ℕ, ◌≡◌, refl, true, List, [], ◌∷◌, ◌++◌, replicate, length, arith}
use e_comos.Fcef.{
  ProgramHeader, header_of, program_header_at, accepts_align, validate_program_header, all_headers,
  crc_ok, fcef_validate, fcef_update_crc32,
}
use e_comos.Fcef.Crc.{fcef_update_crc32-crc_ok}
use e_comos.Fcef.Sound.{Sound, fcef_validate-Sound}

-- 82 bytes of header, with one program header behind it: 4 bytes at offset 0, 8 in memory
abbrev small_file : List ℕ
small_file =
    (0x46 ∷ 0x43 ∷ 0x45 ∷ 0x46 ∷ replicate 8 0)
    ++ (82 ∷ replicate 7 0)
    ++ (1 ∷ replicate 55 0)
    ++ (114 ∷ 0 ∷ 0 ∷ 0 ∷ 1 ∷ 0 ∷ [])
    ++ (1 ∷ replicate 15 0)
    ++ (4 ∷ 0 ∷ 0 ∷ 0 ∷ 8 ∷ 0 ∷ 0 ∷ 0 ∷ 5 ∷ 0 ∷ 0 ∷ 0 ∷ 0 ∷ 16 ∷ 0 ∷ 0 ∷ [])

small_file_valid : fcef_validate small_file ≡ true
unfolding fcef_validate all_headers validate_program_header accepts_align program_header_at
small_file_valid = refl

fcef_validate-Sound_example : Sound small_file
fcef_validate-Sound_example = fcef_validate-Sound small_file small_file_valid

abbrev page_align : ℕ
page_align = 4096

fcef_update_crc32-crc_ok_example :
    (crc_ok (fcef_update_crc32 small_file) (header_of (fcef_update_crc32 small_file)) ≡ true)
    × (length (fcef_update_crc32 small_file) ≡ length small_file)
fcef_update_crc32-crc_ok_example = fcef_update_crc32-crc_ok small_file (omega arith)

-- memory that is zero
abbrev no_memory : ℕ → ℕ
no_memory x = 0

-- offset 1 and size 2^32 - 1
abbrev wrapped_segment : ProgramHeader
wrapped_segment = record {
  type = 1;
  offset = 1;
  vaddr = 0;
  paddr = 0;
  filesz = 0xFFFFFFFF;
  memsz = 0xFFFFFFFF;
  flags = 5;
  align = 0;
}
