-- ===== src/Fs/Nefs/RoundTrip.antt =====
-- A read of a file of nefs after a write.
use e_comos.Prelude.{
  ℕ, ◌+◌, ◌-◌, ◌*◌, ◌/◌, ◌%◌, ◌^◌, ◌≤◌, ◌<◌, ◌≡◌, ◌≢◌, inl, inr, sym, ap, ap₂, ◌∙◌, true, Option,
  none, some, length, List, get_or, ltb, leb, if◌then◌else◌, Bool-cases, if_true, if_false, arith,
  Bool,
}
use e_comos.Prelude.Int.{ℤ, pos}
use e_comos.Fs.Nefs.{
  Block, Inode, Nefs, nefs_min_block_size, nefs_max_block_size, read_block, write_block,
}
use e_comos.Fs.Nefs.Files.{
  put_inode, inode_at, with_checksum, inode_block, inode_offset, store_inode, inode_buffer,
  loaded_inode, updated, after_write, after_read, read_loop, nefs_write_file, nefs_read_file,
}
use e_comos.Fs.Nefs.Words.{size-put_inode, direct-put_inode}
use e_comos.Fs.Nefs.Lookup.{read_block-write_block, read_block-write_block_other}
use e_comos.Fs.Nefs.Direct.{direct, Owned, Good, Layout}
use e_comos.Fs.Nefs.Chunk.{Stored}
use e_comos.Fs.Nefs.Writing.{Wrote, direct_index, write_loop-Wrote}
use e_comos.Fs.Nefs.Reading.{ReadBack, read_loop-ReadBack}

-- the return value and byte `k` of the destination
abbrev pub byte_read : ℕ → Option (ℤ × Option Block × Nefs) → Option (ℤ × ℕ)
byte_read k none = none
byte_read k (some (rc, none, fs)) = none
byte_read k (some (rc, some dest, fs)) = some (rc, dest k)

read_end :
    {content : Block} {len : ℕ} {inode : Inode} {fs : Nefs} {r : Option (ℕ × Block × Inode × Nefs)}
    (now : ℕ) (store : Inode → Nefs → Nefs) (k : ℕ)
    → k < len
    → ReadBack content len inode fs r
    → byte_read k (after_read now store r) ≡ some (pos len, content k)
read_end {len = len} now store k h (ReadBack.done dest same) =
    ap (λ b. some (pos len, b)) (same k h)

-- A read of bytes that are in the file.
nefs_read_file-Stored :
    (now : ℕ) (stale content dest : Block) (fs : Nefs) (ino len offset k : ℕ)
    → 1 ≤ fs.superblock.block_size
    → offset + len ≤ 12 * fs.superblock.block_size
    → offset + len < 2 ^ 64
    → offset + len ≤ (loaded_inode stale fs ino).size
    → k < len
    → ((j : ℕ)
        → j < len
        → Stored fs.superblock.block_size fs.device
            (loaded_inode stale fs ino)
            (offset + j)
            (content j))
    → byte_read k (nefs_read_file now stale fs ino (some dest) len offset)
      ≡ some (pos len, content k)
unfolding nefs_read_file
nefs_read_file-Stored now stale content dest fs ino len offset k one room fits long h stored =
    let inode = loaded_inode stale fs ino in
    let store =
      store_inode (inode_block fs ino) (inode_offset fs ino) (inode_buffer stale fs ino) in
    let whole : (if ltb inode.size ((offset + len) % 2 ^ 64) then inode.size - offset else len)
        ≡ len =
      if_false {b = ltb inode.size ((offset + len) % 2 ^ 64)} _ _ (ground arith) in
    ap (byte_read k) (
      if_false {b = leb inode.size offset} _ _ (ground arith)
      ∙ ap (λ (n : ℕ). after_read now store (read_loop (n + 1) stale dest n offset 0 inode fs))
          whole)
    ∙ read_end now store k h (
        read_loop-ReadBack stale content len offset inode fs stored (len + 1) dest 0 one room fits
          (omega arith) (omega arith) (λ j below. absurd (omega arith)))

-- The inode that is stored at the end of a write.
updated-direct : (now end : ℕ) (x : Inode) → (updated now end x).direct_blocks ≡ x.direct_blocks
unfolding updated with_checksum
updated-direct now end x = elim (Bool-cases (ltb x.size end)) [
  | inl grows ↦ ap (λ (y : Inode). y.direct_blocks) (if_true _ _ grows)
  | inr stays ↦ ap (λ (y : Inode). y.direct_blocks) (if_false _ _ stays)
]

updated-size :
    (now end : ℕ) (x : Inode) → (updated now end x).size ≡ (if ltb x.size end then end else x.size)
unfolding updated with_checksum
updated-size now end x = elim (Bool-cases (ltb x.size end)) [
  | inl grows ↦ ap (λ (y : Inode). y.size) (if_true _ _ grows) ∙ sym (if_true _ _ grows)
  | inr stays ↦ ap (λ (y : Inode). y.size) (if_false _ _ stays) ∙ sym (if_false _ _ stays)
]

store_inode-loaded_inode :
    (stale buf : Block) (x : Inode) (ino : ℕ) (fs1 fs : Nefs)
    → Layout fs1 fs
    → fs.device.writable (inode_block fs ino) ≡ true
    → loaded_inode stale (store_inode (inode_block fs ino) (inode_offset fs ino) buf x fs1) ino
      ≡ inode_at (put_inode buf (inode_offset fs ino) x) (inode_offset fs ino)
unfolding store_inode
store_inode-loaded_inode stale buf x ino fs1 fs l w =
    ap
      (λ (r : ℕ × ℕ).
        inode_at
          (read_block
            (write_block fs1.device (inode_block fs ino) (put_inode buf (inode_offset fs ino) x))
            ((r.1 + ino / (r.0 / 176)) % 2 ^ 64) stale)
          (ino % (r.0 / 176)))
      (ap₂ (λ (a b : ℕ). (a, b)) l.block_size l.inode_table_block)
    ∙ ap (λ (b : Block). inode_at b (inode_offset fs ino))
        (read_block-write_block fs1.device (inode_block fs ino)
          (put_inode buf (inode_offset fs ino) x) stale
          (ap (λ (f : ℕ → Bool). f (inode_block fs ino)) l.writable ∙ w))

-- The write of a block of inodes leaves the file's bytes.
Stored-write_block :
    (bs b p v : ℕ) (x : Block) (inode y : Inode) (fs : Nefs)
    → Good fs inode
    → b < 10000
    → direct y (p / bs) ≡ direct inode (p / bs)
    → Stored bs fs.device inode p v
    → Stored bs (write_block fs.device b x) y p v
Stored-write_block bs b p v x inode y fs g low same s = record {
  present = λ z. s.present (sym same ∙ z);
  value = λ buf.
      ap (λ (t : Block). t (p % bs))
        (read_block-write_block_other fs.device b (direct y (p / bs)) x buf
          (λ e. not_low (g.owned (p / bs)) (sym same ∙ e)))
      ∙ ap (λ (c : ℕ). read_block fs.device c buf (p % bs)) same
      ∙ s.value buf;
}
  where
    not_low : Owned fs (direct inode (p / bs)) → direct inode (p / bs) ≢ b
    not_low (inl z) e = s.present z
    not_low (inr (above, inside, used)) e = omega (arith, above, e, low)

-- a read after a write
abbrev pub then_read :
    ℕ → Block → Block → ℕ → ℕ → ℕ → Option (ℤ × Nefs) → Option (ℤ × Option Block × Nefs)
then_read now stale dest ino len offset none = none
then_read now stale dest ino len offset (some (rc, fs)) =
    nefs_read_file now stale fs ino (some dest) len offset

module _ (now now2 : ℕ) (stale stale2 content dest : Block) (fs : Nefs) (ino len offset k : ℕ) where
  -- a direct block number, stored as 64 bits
  Owned-small :
      (fs1 : Nefs) (b : ℕ) → fs1.superblock.total_blocks ≤ 2 ^ 64 → Owned fs1 b → b % 2 ^ 64 ≡ b
  Owned-small fs1 b h (inl z) = omega arith
  Owned-small fs1 b h (inr (above, inside, used)) = omega (arith, inside)

  after_write-read :
      {r : Option (ℕ × Inode × Nefs)}
      → 1 ≤ fs.superblock.block_size
      → offset + len ≤ 12 * fs.superblock.block_size
      → offset + len < 2 ^ 64
      → k < len
      → inode_block fs ino < 10000
      → fs.device.writable (inode_block fs ino) ≡ true
      → (loaded_inode stale fs ino).size < 2 ^ 64
      → Wrote content len offset (loaded_inode stale fs ino).size fs r
      → byte_read k (
          then_read now2 stale2 dest ino len offset (
            after_write now
              (store_inode (inode_block fs ino) (inode_offset fs ino) (inode_buffer stale fs ino))
              offset
              r))
        ≡ some (pos len, content k)
  unfolding store_inode
  after_write-read one room fits h low w small
        (Wrote.done {inode = inode1} {fs = fs1} g l z stored) =
      let buf = inode_buffer stale fs ino in
      let i = inode_offset fs ino in
      let x = updated now ((offset + len) % 2 ^ 64) inode1 in
      let fs2 = store_inode (inode_block fs ino) i buf x fs1 in
      let again = store_inode-loaded_inode stale2 buf x ino fs1 fs l w in
      let kept = updated-direct now ((offset + len) % 2 ^ 64) inode1 in
      let twelve : length x.direct_blocks ≡ 12 = ap length kept ∙ g.twelve in
      let size = size-put_inode buf i x twelve in
      let grown = updated-size now ((offset + len) % 2 ^ 64) inode1 in
      nefs_read_file-Stored now2 stale2 content dest fs2 ino len offset k
        (omega (arith, l.block_size)) (omega (arith, l.block_size)) fits
        (ground (arith, ap (λ (y : Inode). y.size) again, size, grown, z)) h
        (λ j below.
          Stored-write_block fs1.superblock.block_size (inode_block fs ino) (offset + j) (content j)
            (put_inode buf i x) inode1 (loaded_inode stale2 fs2 ino) fs1 g low
            (ap (λ (y : Inode). direct y ((offset + j) / fs1.superblock.block_size)) again
              ∙ direct-put_inode buf i x twelve ((offset + j) / fs1.superblock.block_size) (
                  direct_index fs1.superblock.block_size (offset + j) (omega (arith, l.block_size))
                    (omega (arith, l.block_size)))
              ∙ ap
                  (λ (ds : List ℕ). get_or ds ((offset + j) / fs1.superblock.block_size) 0 % 2 ^ 64)
                  kept
              ∙ Owned-small fs1 (direct inode1 ((offset + j) / fs1.superblock.block_size)) g.bound
                  (g.owned ((offset + j) / fs1.superblock.block_size)))
            (stored j below))

-- What `nefs_write_file` writes to the direct blocks of a file, `nefs_read_file` reads: both end and return the
-- number of the bytes, and each byte of the destination is the one that was written, whatever the buffers and
-- the destination held. The blocks have a size that `nefs_format` accepts. The file's blocks are data blocks
-- in use, none of them twice; there are as many free data blocks as the file lacks direct ones; the file's
-- size fits 64 bits; the block of the inode lies in front of the data blocks; and the device accepts the
-- writes to these blocks.
pub nefs_read_file-nefs_write_file :
    (now now2 : ℕ) (stale stale2 content dest : Block) (fs : Nefs) (ino len offset k : ℕ)
    → nefs_min_block_size ≤ fs.superblock.block_size
    → fs.superblock.block_size ≤ nefs_max_block_size
    → Good fs (loaded_inode stale fs ino)
    → (loaded_inode stale fs ino).size < 2 ^ 64
    → inode_block fs ino < 10000
    → fs.device.writable (inode_block fs ino) ≡ true
    → offset + len ≤ 12 * fs.superblock.block_size
    → k < len
    → byte_read k (
        then_read now2 stale2 dest ino len offset
          (nefs_write_file now stale fs ino (some content) len offset))
      ≡ some (pos len, content k)
unfolding nefs_write_file
nefs_read_file-nefs_write_file now now2 stale stale2 content dest fs ino len offset k least most g
      small low w room h =
    after_write-read now now2 stale stale2 content dest fs ino len offset k (omega arith) room
      (omega arith) h low w small
      (write_loop-Wrote (len + 1) stale content len offset 0 (loaded_inode stale fs ino) fs g
        (omega arith) room (omega arith) (omega arith) (omega arith)
        (λ j below. absurd (omega arith)))
