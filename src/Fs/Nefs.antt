-- ===== src/Fs/Nefs.antt =====
-- The file system nefs (source/fs/include/nefs/nefs.h, source/fs/src/nefs): the superblock, the bitmaps and
-- the blocks of a file. A device answers each read with the block's bytes or fails, and accepts a write or
-- fails. A failed read leaves the buffer as it is; `stale` stands for what `malloc` leaves in a buffer.
-- Integers in a block are little-endian, as on x86.
pub mod Files
pub mod Words
pub mod Checksum
pub mod Alloc
pub mod Lookup
pub mod Stale
pub mod Direct
pub mod Chunk
pub mod Count
pub mod Writing
pub mod Reading
pub mod RoundTrip
pub mod Create
pub mod Format
mod Tests
use e_comos.Prelude.{
  ℕ, zero, suc, ◌+◌, ◌-◌, ◌*◌, ◌/◌, ◌%◌, ◌^◌, Bool, true, false, not, ◌&&◌, ◌||◌, Option, none,
  some, List, [], ◌∷◌, get_or, set, replicate, ltb, ◌==◌, if◌then◌else◌,
}
use e_comos.Prelude.Bitmap.{test_bit, set_bit}
use e_comos.Prelude.Search.{find_from}

abbrev pub nefs_magic : ℕ
nefs_magic = 0x4E454653

abbrev pub nefs_min_block_size : ℕ
nefs_min_block_size = 4096

abbrev pub nefs_max_block_size : ℕ
nefs_max_block_size = 65536

-- the byte at each place of a block
abbrev pub Block : Type 0
Block = ℕ → ℕ

pub record Device : Type 0 where
  pub total_blocks : ℕ
  pub blocks : ℕ → Option Block
  pub writable : ℕ → Bool

pub record Superblock : Type 0 where
  pub magic : ℕ
  pub version : ℕ
  pub block_size : ℕ
  pub total_blocks : ℕ
  pub free_blocks : ℕ
  pub total_inodes : ℕ
  pub free_inodes : ℕ
  pub journal_start : ℕ
  pub journal_blocks : ℕ
  pub inode_table_block : ℕ
  pub data_bitmap_block : ℕ
  pub inode_bitmap_block : ℕ
  pub sha256_checksum : List ℕ

pub record Inode : Type 0 where
  pub type : ℕ
  pub size : ℕ
  pub created : ℕ
  pub modified : ℕ
  pub accessed : ℕ
  pub permissions : ℕ
  pub links : ℕ
  pub direct_blocks : List ℕ
  pub indirect_block : ℕ
  pub double_indirect_block : ℕ
  pub triple_indirect_block : ℕ
  pub crc32_checksum : ℕ

pub record Nefs : Type 0 where
  pub device : Device
  pub superblock : Superblock
  pub inode_bitmap : List ℕ
  pub data_bitmap : List ℕ
  pub current_transaction : ℕ

-- the buffer after `read_block`
abbrev pub filled_by : Option Block → Block → Block
filled_by none buf = buf
filled_by (some block) buf = block

unfoldable pub read_block : Device → ℕ → Block → Block
read_block dev block buf = filled_by (dev.blocks block) buf

unfoldable pub write_block : Device → ℕ → Block → Device
write_block dev block buf =
    if dev.writable block
    then record dev { blocks = λ b. if b == block then some buf else dev.blocks b }
    else dev

-- what `calloc` leaves
abbrev pub zero_block : Block
zero_block i = 0

abbrev pub usable_blocks : ℕ → ℕ
usable_blocks total = if ltb 10000 total then total - 10000 else 0

abbrev pub inodes_for : ℕ → ℕ
inodes_for usable = if ltb 0 usable then usable / 8 else 1024

-- What `nefs_format` does: it returns NULL, it writes behind the end of a bitmap of no bytes, or it returns
-- a file system.
pub data FormatResult : Type 0 where
  null undefined : FormatResult
  created : Nefs → FormatResult

-- `nefs_format` on the result of `block_device_open`
unfoldable pub nefs_format : ℕ → Option Device → FormatResult
nefs_format block_size none = null
nefs_format block_size (some dev) =
    let total = if dev.total_blocks == 0 then 2 ^ 30 / block_size else dev.total_blocks in
    let inodes = inodes_for (usable_blocks total) in
    if ltb block_size nefs_min_block_size || ltb nefs_max_block_size block_size
    then null
    else if (inodes + 7) % 2 ^ 64 / 8 == 0
    then undefined
    else created record {
      device = record dev { total_blocks = total };
      superblock = record {
        magic = nefs_magic;
        version = 1;
        block_size = block_size;
        total_blocks = total;
        free_blocks = usable_blocks total;
        total_inodes = inodes;
        free_inodes = (inodes + 2 ^ 64 - 1) % 2 ^ 64;
        journal_start = 1;
        journal_blocks = 1024;
        inode_table_block = 4025;
        data_bitmap_block = 2025;
        inode_bitmap_block = 1025;
        sha256_checksum = replicate 32 0;
      };
      inode_bitmap = set (replicate ((inodes + 7) % 2 ^ 64 / 8) 0) 0 1;
      data_bitmap =
          replicate (if ltb 0 ((total + 7) % 2 ^ 64 / 8) then (total + 7) % 2 ^ 64 / 8 else 1) 0;
      current_transaction = 0;
    }

-- `(inode_t)-1` and `(block_t)-1`
abbrev pub minus_one : ℕ
minus_one = 2 ^ 64 - 1

abbrev pub take_inode : Nefs → Option ℕ → ℕ × Nefs
take_inode fs none = (minus_one, fs)
take_inode fs (some i) = (
  i,
  record fs {
    inode_bitmap = set_bit fs.inode_bitmap i;
    superblock = record fs.superblock {
      free_inodes = (fs.superblock.free_inodes + 2 ^ 64 - 1) % 2 ^ 64;
    };
  },
)

unfoldable pub alloc_inode : Nefs → ℕ × Nefs
alloc_inode fs =
    take_inode fs (find_from (λ i. not (test_bit fs.inode_bitmap i)) fs.superblock.total_inodes 0)

abbrev pub take_block : Nefs → Option ℕ → ℕ × Nefs
take_block fs none = (minus_one, fs)
take_block fs (some i) = (
  i,
  record fs {
    data_bitmap = set_bit fs.data_bitmap i;
    superblock = record fs.superblock {
      free_blocks = (fs.superblock.free_blocks + 2 ^ 64 - 1) % 2 ^ 64;
    };
  },
)

-- The first 10000 blocks hold the tables of the file system.
unfoldable pub alloc_block : Nefs → ℕ × Nefs
alloc_block fs =
    take_block fs
      (find_from (λ i. not (test_bit fs.data_bitmap i)) (fs.superblock.total_blocks - 10000) 10000)

-- `((block_t*)table)[i]`, and its assignment
unfoldable pub word64 : Block → ℕ → ℕ
word64 table i =
    table (8 * i)
    + 2 ^ 8 * table (8 * i + 1)
    + 2 ^ 16 * table (8 * i + 2)
    + 2 ^ 24 * table (8 * i + 3)
    + 2 ^ 32 * table (8 * i + 4)
    + 2 ^ 40 * table (8 * i + 5)
    + 2 ^ 48 * table (8 * i + 6)
    + 2 ^ 56 * table (8 * i + 7)

unfoldable pub put_word64 : Block → ℕ → ℕ → Block
put_word64 table i w j = if j / 8 == i then w / 256 ^ (j % 8) % 256 else table j

-- `if (alloc && p == 0) p = alloc_block(fs);`
unfoldable pub alloc_if : Bool → ℕ → Nefs → ℕ × Nefs
alloc_if alloc p fs = if alloc && p == 0 then alloc_block fs else (p, fs)

-- a table of block numbers, in block `b` unless that is 0
unfoldable pub load_table : ℕ → Nefs → Block
load_table b fs = if b == 0 then zero_block else read_block fs.device b zero_block

-- The new block `c` becomes entry `i` of the table in block `b`.
abbrev pub add_entry : Block → ℕ → ℕ → ℕ × Nefs → ℕ × Nefs
add_entry table b i (c, fs) =
    (c, record fs { device = write_block fs.device b (put_word64 table i c) })

-- entry `i` of the table in block `b`
unfoldable pub entry_in : Bool → ℕ → ℕ → Nefs → ℕ × Nefs
entry_in alloc b i fs =
    let table = load_table b fs in
    if alloc && word64 table i == 0
    then add_entry table b i (alloc_block fs)
    else (word64 table i, fs)

abbrev pub new_direct : ℕ → Inode → ℕ × Nefs → ℕ × Inode × Nefs
new_direct i inode (b, fs) = (b, record inode { direct_blocks = set inode.direct_blocks i b }, fs)

unfoldable pub direct_block : Bool → ℕ → Inode → Nefs → ℕ × Inode × Nefs
direct_block alloc i inode fs =
    let b = get_or inode.direct_blocks i 0 in
    if alloc && b == 0 then new_direct i inode (alloc_block fs) else (b, inode, fs)

unfoldable pub indirect_block : Bool → ℕ → Inode → Nefs → ℕ × Inode × Nefs
indirect_block alloc i inode fs =
    let (b, fs1) = alloc_if alloc inode.indirect_block fs in
    let (c, fs2) = entry_in alloc b i fs1 in (c, record inode { indirect_block = b }, fs2)

unfoldable pub double_indirect_block : Bool → ℕ → Inode → Nefs → ℕ × Inode × Nefs
double_indirect_block alloc i inode fs =
    let ptrs_per_block = fs.superblock.block_size / 8 in
    let (b, fs1) = alloc_if alloc inode.double_indirect_block fs in
    let (l1, fs2) = entry_in alloc b (i / ptrs_per_block) fs1 in
    let (c, fs3) = entry_in alloc l1 (i % ptrs_per_block) fs2 in
    (c, record inode { double_indirect_block = b }, fs3)

unfoldable pub get_block_at_offset : Nefs → Inode → ℕ → Bool → ℕ × Inode × Nefs
get_block_at_offset fs inode offset alloc =
    let i = offset / fs.superblock.block_size in
    let ptrs_per_block = fs.superblock.block_size / 8 in
    if ltb i 12
    then direct_block alloc i inode fs
    else if ltb (i - 12) ptrs_per_block
    then indirect_block alloc (i - 12) inode fs
    else if ltb (i - 12 - ptrs_per_block) (ptrs_per_block * ptrs_per_block)
    then double_indirect_block alloc (i - 12 - ptrs_per_block) inode fs
    else (0, inode, fs)
