-- ===== src/Fs/Nefs/Files.antt =====
-- The files of nefs (source/fs/src/nefs/nefs_file.c): an inode in its block, `nefs_create_file`,
-- `nefs_write_file` and `nefs_read_file`. `fs` is not NULL; `now` is the result of `time(NULL)`, read once.
-- An inode is laid out as on x86-64: 22 words of 64 bits. A loop has one round of fuel for each byte.
use Prim.Native.Nat.{bit_and, bit_xor}
use e_comos.Prelude.{
  ℕ, zero, suc, ◌+◌, ◌-◌, ◌*◌, ◌/◌, ◌%◌, ◌^◌, min, true, false, ◌&&◌, Option, none, some, List, [],
  ◌∷◌, ◌++◌, replicate, ltb, leb, ◌==◌, if◌then◌else◌,
}
use e_comos.Prelude.Int.{ℤ, pos, negsuc}
use e_comos.Fs.Nefs.{
  Block, Inode, Nefs, read_block, write_block, zero_block, minus_one, alloc_inode, word64,
  put_word64, get_block_at_offset,
}

-- one round of the inner loop of `crc32`
unfoldable pub crc_round : ℕ → ℕ
crc_round crc = bit_xor (crc / 2) (bit_and 0xEDB88320 ((2 ^ 32 - bit_and crc 1) % 2 ^ 32))

unfoldable pub crc_rounds : ℕ → ℕ → ℕ
crc_rounds zero crc = crc
crc_rounds (suc n) crc = crc_rounds n (crc_round crc)

unfoldable pub crc_bytes : List ℕ → ℕ → ℕ
crc_bytes [] crc = crc
crc_bytes (p ∷ bytes) crc = crc_bytes bytes (crc_rounds 8 (bit_xor crc p))

unfoldable pub crc32 : List ℕ → ℕ
crc32 bytes = bit_xor (crc_bytes bytes 0xFFFFFFFF) 0xFFFFFFFF

abbrev pub inode_words : ℕ
inode_words = 22

-- the words of an inode, with 0 where the structure has no field; `direct_blocks` is an array of 12 numbers
unfoldable pub words_of : Inode → List ℕ
words_of inode =
    inode.type
    ∷ inode.size
    ∷ inode.created
    ∷ inode.modified
    ∷ inode.accessed
    ∷ (inode.permissions + 2 ^ 32 * inode.links)
    ∷ (inode.direct_blocks
        ++ inode.indirect_block ∷ inode.double_indirect_block ∷ inode.triple_indirect_block
          ∷ inode.crc32_checksum ∷ [])

-- the word `w` at each of the places from word `k` on
unfoldable pub put_words : List ℕ → ℕ → Block → Block
put_words [] k block = block
put_words (w ∷ ws) k block = put_words ws (k + 1) (put_word64 block k w)

-- `block_buf[i] = inode;` and `block_buf[i]`
unfoldable pub put_inode : Block → ℕ → Inode → Block
put_inode block i inode = put_words (words_of inode) (inode_words * i) block

unfoldable pub words_from : ℕ → ℕ → Block → List ℕ
words_from zero k block = []
words_from (suc n) k block = word64 block k ∷ words_from n (k + 1) block

unfoldable pub inode_at : Block → ℕ → Inode
inode_at block i =
    let k = inode_words * i in
    record {
      type = word64 block k % 2 ^ 32;
      size = word64 block (k + 1);
      created = word64 block (k + 2);
      modified = word64 block (k + 3);
      accessed = word64 block (k + 4);
      permissions = word64 block (k + 5) % 2 ^ 32;
      links = word64 block (k + 5) / 2 ^ 32;
      direct_blocks = words_from 12 (k + 6) block;
      indirect_block = word64 block (k + 18);
      double_indirect_block = word64 block (k + 19);
      triple_indirect_block = word64 block (k + 20);
      crc32_checksum = word64 block (k + 21) % 2 ^ 32;
    }

-- `crc32(&inode, sizeof(nefs_inode_t) - 4)`: the bytes 0 to 171
abbrev pub bytes_from : ℕ → ℕ → Block → List ℕ
bytes_from zero k block = []
bytes_from (suc n) k block = block k ∷ bytes_from n (k + 1) block

unfoldable pub with_checksum : Inode → Inode
with_checksum inode = record inode {
  crc32_checksum = crc32 (bytes_from 172 0 (put_inode zero_block 0 inode));
}

abbrev pub inodes_per_block : Nefs → ℕ
inodes_per_block fs = fs.superblock.block_size / (8 * inode_words)

-- `inode_block` and `inode_offset`
abbrev pub inode_block : Nefs → ℕ → ℕ
inode_block fs ino = (fs.superblock.inode_table_block + ino / inodes_per_block fs) % 2 ^ 64

abbrev pub inode_offset : Nefs → ℕ → ℕ
inode_offset fs ino = ino % inodes_per_block fs

-- `block_buf[inode_offset] = inode;` and the write of the block
unfoldable pub store_inode : ℕ → ℕ → Block → Inode → Nefs → Nefs
store_inode block index block_buf inode fs = record fs {
  device = write_block fs.device block (put_inode block_buf index inode);
}

abbrev pub new_inode : ℕ → Inode
new_inode now = with_checksum record {
  type = 1;
  size = 0;
  created = now;
  modified = now;
  accessed = now;
  permissions = 420;
  links = 1;
  direct_blocks = replicate 12 0;
  indirect_block = 0;
  double_indirect_block = 0;
  triple_indirect_block = 0;
  crc32_checksum = 0;
}

abbrev pub create_at : ℕ → ℕ × Nefs → ℤ × Nefs
create_at now (ino, fs) = if ino == minus_one then (negsuc 0, fs) else (
  pos 0,
  store_inode (inode_block fs ino) (inode_offset fs ino)
      (read_block fs.device (inode_block fs ino) zero_block) (new_inode now) fs,
)

-- The path is only compared with NULL.
unfoldable pub nefs_create_file : ℕ → Nefs → Option (List ℕ) → ℤ × Nefs
nefs_create_file now fs none = (negsuc 0, fs)
nefs_create_file now fs (some path) = create_at now (alloc_inode fs)

-- `memcpy(buf + off, data + from, n)`
unfoldable pub copy_into : Block → ℕ → ℕ → Block → ℕ → Block
copy_into buf off n bytes from j =
    if leb off j && ltb j (off + n) then bytes (from + (j - off)) else buf j

-- how much of the block at `offset` is taken, with `left` bytes to go
unfoldable pub chunk : ℕ → ℕ → ℕ → ℕ
chunk block_size offset left = min (block_size - offset % block_size) left

-- a part of a block, read and written back
unfoldable pub put_chunk : Block → ℕ → ℕ → ℕ → Block → ℕ → Nefs → Nefs
put_chunk stale blk off n bytes from fs = record fs {
  device = write_block fs.device blk (copy_into (read_block fs.device blk stale) off n bytes from);
}

-- The loop of `nefs_write_file`: `written`, the inode and the file system at its end.
unfoldable pub write_loop : ℕ → Block → Block → ℕ → ℕ → ℕ → Inode → Nefs → Option (ℕ × Inode × Nefs)
write_loop zero stale bytes len offset written inode fs = none
write_loop (suc fuel) stale bytes len offset written inode fs =
    let bs = fs.superblock.block_size in
    let at = (offset + written) % 2 ^ 64 in
    let to_write = chunk bs at (len - written) in
    let (blk, inode1, fs1) = get_block_at_offset fs inode at true in
    let rest =
      write_loop fuel stale bytes len offset (written + to_write) inode1
        (put_chunk stale blk (at % bs) to_write bytes written fs1) in
    if ltb written len
    then (if blk == 0 then some (written, inode1, fs1) else rest)
    else some (written, inode, fs)

-- The loop of `nefs_read_file`: `read`, the destination, the inode and the file system at its end.
unfoldable pub read_loop :
    ℕ → Block → Block → ℕ → ℕ → ℕ → Inode → Nefs → Option (ℕ × Block × Inode × Nefs)
read_loop zero stale bytes len offset read inode fs = none
read_loop (suc fuel) stale bytes len offset read inode fs =
    let bs = fs.superblock.block_size in
    let at = (offset + read) % 2 ^ 64 in
    let to_read = chunk bs at (len - read) in
    let (blk, inode1, fs1) = get_block_at_offset fs inode at false in
    let buf = read_block fs1.device blk stale in
    let rest =
      read_loop fuel stale (copy_into bytes read to_read buf (at % bs)) len offset (read + to_read)
        inode1 fs1 in
    if ltb read len
    then (if blk == 0 then some (read, bytes, inode1, fs1) else rest)
    else some (read, bytes, inode, fs)

-- the inode `ino`, and what follows the loop of `nefs_write_file`
abbrev pub inode_buffer : Block → Nefs → ℕ → Block
inode_buffer stale fs ino = read_block fs.device (inode_block fs ino) stale

abbrev pub loaded_inode : Block → Nefs → ℕ → Inode
loaded_inode stale fs ino = inode_at (inode_buffer stale fs ino) (inode_offset fs ino)

unfoldable pub updated : ℕ → ℕ → Inode → Inode
updated now end inode =
    let grown = if ltb inode.size end then record inode { size = end } else inode in
    with_checksum (record grown { modified = now })

abbrev pub after_write :
    ℕ → (Inode → Nefs → Nefs) → ℕ → Option (ℕ × Inode × Nefs) → Option (ℤ × Nefs)
after_write now store offset none = none
after_write now store offset (some (written, inode, fs)) =
    some (pos written, store (updated now ((offset + written) % 2 ^ 64) inode) fs)

unfoldable pub nefs_write_file : ℕ → Block → Nefs → ℕ → Option Block → ℕ → ℕ → Option (ℤ × Nefs)
nefs_write_file now stale fs ino none len offset = some (negsuc 0, fs)
nefs_write_file now stale fs ino (some bytes) len offset =
    after_write now
      (store_inode (inode_block fs ino) (inode_offset fs ino) (inode_buffer stale fs ino)) offset
      (write_loop (len + 1) stale bytes len offset 0 (loaded_inode stale fs ino) fs)

-- what follows the loop of `nefs_read_file`
abbrev pub after_read :
    ℕ → (Inode → Nefs → Nefs) → Option (ℕ × Block × Inode × Nefs) → Option (ℤ × Option Block × Nefs)
after_read now store none = none
after_read now store (some (read, bytes, inode, fs)) =
    some (pos read, some bytes, store (record inode { accessed = now }) fs)

unfoldable pub nefs_read_file :
    ℕ → Block → Nefs → ℕ → Option Block → ℕ → ℕ → Option (ℤ × Option Block × Nefs)
nefs_read_file now stale fs ino none len offset = some (negsuc 0, none, fs)
nefs_read_file now stale fs ino (some dest) len offset =
    let inode = loaded_inode stale fs ino in
    let len1 = if ltb inode.size ((offset + len) % 2 ^ 64) then inode.size - offset else len in
    if leb inode.size offset
    then some (pos 0, some dest, fs)
    else after_read now
        (store_inode (inode_block fs ino) (inode_offset fs ino) (inode_buffer stale fs ino))
        (read_loop (len1 + 1) stale dest len1 offset 0 inode fs)
