-- ===== src/Fs/Nefs/Tests.antt =====
-- A small device and the theorems on it.
use e_comos.Prelude.{
  ℕ, ◌+◌, ◌*◌, ◌≤◌, ◌≡◌, ◌≢◌, inl, refl, ap, ◌∙◌, true, none, some, List, [], ◌∷◌, ◌==◌,
  if◌then◌else◌, replicate, length, length-replicate, get_or, get_or-replicate, ltb, arith,
}
use e_comos.Prelude.Int.{pos}
use e_comos.Prelude.Bitmap.{test_bit}
use e_comos.Prelude.Search.{find_from}
use e_comos.Fcef.{fcef_calculate_crc32}
use e_comos.Fs.Nefs.{
  Block, Device, Inode, Nefs, zero_block, read_block, word64, nefs_format, alloc_block, take_block,
  alloc_if, get_block_at_offset,
}
use e_comos.Fs.Nefs.Alloc.{Covers}
use e_comos.Fs.Nefs.Files.{
  crc32, nefs_create_file, words_from, inode_at, loaded_inode, nefs_write_file,
}
use e_comos.Fs.Nefs.Count.{count_if}
use e_comos.Fs.Nefs.Direct.{direct, Good, free_count, unset_count}
use e_comos.Fs.Nefs.Lookup.{again, get_block_at_offset_again}
use e_comos.Fs.Nefs.Stale.{stale_pointer_followed}
use e_comos.Fs.Nefs.Create.{CreateSpec, nefs_create_file-CreateSpec}
use e_comos.Fs.Nefs.Checksum.{IsBytes, crc32-fcef_calculate_crc32}
use e_comos.Fs.Nefs.Format.{FormatSpec, nefs_format-FormatSpec}
use e_comos.Fs.Nefs.RoundTrip.{byte_read, then_read, nefs_read_file-nefs_write_file}

-- 10016 blocks of 4096 bytes, all zero, and the tables of a new file system
abbrev small_fs : Nefs
small_fs = record {
  device = record {
    total_blocks = 10016;
    blocks = λ b. some zero_block;
    writable = λ b. ltb b 10016;
  };
  superblock = record {
    magic = 0x4E454653;
    version = 1;
    block_size = 4096;
    total_blocks = 10016;
    free_blocks = 16;
    total_inodes = 2;
    free_inodes = 1;
    journal_start = 1;
    journal_blocks = 1024;
    inode_table_block = 4025;
    data_bitmap_block = 2025;
    inode_bitmap_block = 1025;
    sha256_checksum = replicate 32 0;
  };
  inode_bitmap = replicate 1 0;
  data_bitmap = replicate 1252 0;
  current_transaction = 0;
}

replicate-Covers : (n total : ℕ) → total ≤ 8 * n → Covers (replicate n 0) total
replicate-Covers n total h = record {
  bytes = λ k. omega (arith, get_or-replicate {A = ℕ} n 0 k);
  long = omega (arith, length-replicate {A = ℕ} n 0);
}

no_blocks : (loaded_inode zero_block small_fs 1).direct_blocks ≡ replicate 12 0
unfolding inode_at words_from word64 read_block
no_blocks = refl

no_size : (loaded_inode zero_block small_fs 1).size ≡ 0
unfolding inode_at word64 read_block
no_size = refl

enough : free_count small_fs ≡ 16
unfolding free_count count_if test_bit
enough = refl

wanted : unset_count (loaded_inode zero_block small_fs 1) ≡ 12
unfolding unset_count count_if inode_at words_from word64 read_block
wanted = refl

small_fs-Good : Good small_fs (loaded_inode zero_block small_fs 1)
small_fs-Good = record {
  valid = record {
    inodes = replicate-Covers 1 2 (omega arith);
    blocks = replicate-Covers 1252 10016 (omega arith);
  };
  bound = omega arith;
  accepts = λ b h. ground arith;
  twelve = ap length no_blocks;
  owned = λ i. inl (unset i);
  distinct = λ i j ne e. unset i;
  supply = omega (arith, enough, wanted);
}
  where
    unset : (i : ℕ) → direct (loaded_inode zero_block small_fs 1) i ≡ 0
    unset i = ap (λ (ds : List ℕ). get_or ds i 0) no_blocks ∙ get_or-replicate 12 0 i

-- 6 bytes over the border of the first two blocks
nefs_read_file-nefs_write_file_example :
    byte_read 4 (
      then_read 8 zero_block zero_block 1 6 4093
        (nefs_write_file 7 zero_block small_fs 1 (some (λ i. i + 65)) 6 4093))
    ≡ some (pos 6, 69)
nefs_read_file-nefs_write_file_example =
    nefs_read_file-nefs_write_file 7 8 zero_block zero_block (λ i. i + 65) zero_block small_fs 1 6
      4093 4 (omega arith) (omega arith) small_fs-Good (omega (arith, no_size)) (omega arith) refl
      (omega arith) (omega arith)

abbrev no_file : Inode
no_file = record {
  type = 1;
  size = 0;
  created = 7;
  modified = 7;
  accessed = 7;
  permissions = 420;
  links = 1;
  direct_blocks = replicate 12 0;
  indirect_block = 0;
  double_indirect_block = 0;
  triple_indirect_block = 0;
  crc32_checksum = 0;
}

first_block : alloc_block small_fs ≡ take_block small_fs (some 10000)
unfolding alloc_block find_from test_bit
first_block = refl

first_writable : small_fs.device.writable (alloc_if true 0 small_fs).0 ≡ true
unfolding alloc_if alloc_block find_from test_bit
first_writable = refl

-- the first block behind the direct ones
get_block_at_offset_again_example :
    again 49152 (get_block_at_offset small_fs no_file 49152 true)
    ≡ (get_block_at_offset small_fs no_file 49152 true).0
get_block_at_offset_again_example =
    get_block_at_offset_again small_fs no_file 49152 small_fs-Good.valid (omega arith) refl
      (omega arith) (omega arith) first_writable

-- what block 10000 held before
abbrev old_block : Block
old_block i = if i == 0 then 7 else 0

abbrev used_fs : Nefs
used_fs = record small_fs {
  device = record small_fs.device {
    blocks = λ b. if b == 10000 then some old_block else some zero_block;
  };
}

used_first : alloc_block used_fs ≡ take_block used_fs (some 10000)
unfolding alloc_block find_from test_bit
used_first = refl

old_word : word64 old_block 0 ≢ 0
unfolding word64
old_word e = omega arith

stale_pointer_followed_example : get_block_at_offset used_fs no_file 49152 true ≡ (
  word64 old_block 0,
  record no_file { indirect_block = 10000 },
  (take_block used_fs (some 10000)).1,
)
stale_pointer_followed_example =
    stale_pointer_followed used_fs no_file 49152 10000 old_block (omega arith) (omega arith) refl
      (omega arith) used_first refl old_word

nefs_create_file-CreateSpec_example :
    CreateSpec 7 small_fs (nefs_create_file 7 small_fs (some (62 ∷ [])))
nefs_create_file-CreateSpec_example =
    nefs_create_file-CreateSpec 7 small_fs (62 ∷ []) small_fs-Good.valid (omega arith) (omega arith)
      (λ i h. ground (arith, h))

crc32-fcef_calculate_crc32_example : crc32 (1 ∷ 200 ∷ []) ≡ fcef_calculate_crc32 (1 ∷ 200 ∷ [])
crc32-fcef_calculate_crc32_example =
    crc32-fcef_calculate_crc32 1 (200 ∷ [])
      (IsBytes.cons (omega arith) (IsBytes.cons (omega arith) IsBytes.nil))

abbrev empty_device : Device
empty_device = record { total_blocks = 10016; blocks = λ b. none; writable = λ b. ltb b 10016 }

nefs_format-FormatSpec_example :
    FormatSpec 3 4096 empty_device (nefs_format 4096 (some empty_device))
nefs_format-FormatSpec_example = nefs_format-FormatSpec 3 4096 empty_device (omega arith)
