-- ===== src/Fs/Nefs/Create.antt =====
-- The creation of a file.
use mathlib.Core.Path.{subst}
use e_comos.Prelude.{
  ℕ, zero, suc, ◌+◌, ◌/◌, ◌^◌, ◌<◌, ◌≡◌, refl, sym, ap, ◌∙◌, some, List, [], ◌∷◌, replicate, inl,
  inr, Bool-cases, if_true, if_false, ◌==◌, arith, true,
}
use e_comos.Prelude.Bitmap.{test_bit}
use e_comos.Prelude.Int.{ℤ, pos, negsuc}
use e_comos.Fcef.Crc.{crc32_word}
use e_comos.Fs.Nefs.{Block, Inode, Nefs, minus_one, zero_block, read_block, put_word64, take_inode}
use e_comos.Fs.Nefs.Files.{
  words_of, put_words, put_inode, inode_at, bytes_from, with_checksum, new_inode, create_at,
  store_inode, inode_block, inode_offset, loaded_inode, nefs_create_file,
}
use e_comos.Fs.Nefs.Words.{IsWords, FitsInode, inode_at-put_inode}
use e_comos.Fs.Nefs.Checksum.{IsBytes, crc32-fcef_calculate_crc32}
use e_comos.Fs.Nefs.Alloc.{IsValid, Took, InodeSpec, alloc_inode-InodeSpec}
use e_comos.Fs.Nefs.Lookup.{read_block-write_block}

-- Every byte of the block is a `uint8_t`.
put_word64-small :
    (block : Block) (i w : ℕ) → ((j : ℕ) → block j < 256) → (j : ℕ) → put_word64 block i w j < 256
unfolding put_word64
put_word64-small block i w h j = elim (Bool-cases (j / 8 == i)) [
  | inl here ↦ subst (λ (n : ℕ). n < 256) (sym (if_true _ _ here)) (omega arith)
  | inr elsewhere ↦ subst (λ (n : ℕ). n < 256) (sym (if_false _ _ elsewhere)) (h j)
]

put_words-small :
    (ws : List ℕ) (k : ℕ) (block : Block)
    → ((j : ℕ) → block j < 256)
    → (j : ℕ) → put_words ws k block j < 256
unfolding put_words
put_words-small [] k block h j = h j
put_words-small (w ∷ ws) k block h j =
    put_words-small ws (k + 1) (put_word64 block k w) (put_word64-small block k w h) j

bytes_from-IsBytes :
    (n k : ℕ) (block : Block) → ((j : ℕ) → block j < 256) → IsBytes (bytes_from n k block)
bytes_from-IsBytes zero k block h = IsBytes.nil
bytes_from-IsBytes (suc n) k block h = IsBytes.cons (h k) (bytes_from-IsBytes n (k + 1) block h)

-- The checksum of an inode is one of 32 bits.
checksum_small : (x : Inode) → (with_checksum x).crc32_checksum < 2 ^ 32
unfolding with_checksum put_inode
checksum_small x =
    let block = put_words (words_of x) 0 zero_block in
    let bytes = put_words-small (words_of x) 0 zero_block (λ j. omega arith) in
    let same =
      crc32-fcef_calculate_crc32 (block 0) (bytes_from 171 1 block)
        (IsBytes.cons (bytes 0) (bytes_from-IsBytes 171 1 block bytes)) in
    omega (arith, same, crc32_word (block 0 ∷ bytes_from 171 1 block))

zeros-IsWords : (n : ℕ) → IsWords (replicate n 0)
zeros-IsWords zero = IsWords.nil
zeros-IsWords (suc n) = IsWords.cons (omega arith) (zeros-IsWords n)

new_inode-FitsInode : (now : ℕ) → now < 2 ^ 64 → FitsInode (new_inode now)
unfolding with_checksum
new_inode-FitsInode now h = record {
  type = omega arith;
  size = omega arith;
  created = h;
  modified = h;
  accessed = h;
  permissions = omega arith;
  links = omega arith;
  twelve = refl;
  direct_blocks = zeros-IsWords 12;
  indirect_block = omega arith;
  double_indirect_block = omega arith;
  triple_indirect_block = omega arith;
  crc32_checksum = checksum_small _;
}

-- A regular file without contents, of the time `now`.
pub record IsEmptyFile (now : ℕ) (inode : Inode) : Type 0 where
  pub type : inode.type ≡ 1
  pub size : inode.size ≡ 0
  pub created : inode.created ≡ now
  pub modified : inode.modified ≡ now
  pub accessed : inode.accessed ≡ now
  pub permissions : inode.permissions ≡ 420
  pub links : inode.links ≡ 1
  pub direct_blocks : inode.direct_blocks ≡ replicate 12 0
  pub indirect_block : inode.indirect_block ≡ 0
  pub double_indirect_block : inode.double_indirect_block ≡ 0
  pub triple_indirect_block : inode.triple_indirect_block ≡ 0

new_inode-IsEmptyFile : (now : ℕ) → IsEmptyFile now (new_inode now)
unfolding with_checksum
new_inode-IsEmptyFile now = record {
  type = refl;
  size = refl;
  created = refl;
  modified = refl;
  accessed = refl;
  permissions = refl;
  links = refl;
  direct_blocks = refl;
  indirect_block = refl;
  double_indirect_block = refl;
  triple_indirect_block = refl;
}

-- The outcomes of `nefs_create_file`.
pub data CreateSpec (now : ℕ) (fs : Nefs) : ℤ × Nefs → Type 0 where
  full :
      ((j : ℕ) → j < fs.superblock.total_inodes → test_bit fs.inode_bitmap j ≡ true)
      → CreateSpec now fs (negsuc 0, fs)
  created :
      (i : ℕ) (fs' : Nefs)
      → Took 0 fs.superblock.total_inodes i fs.inode_bitmap fs'.inode_bitmap
      → IsValid fs'
      → ((stale : Block) → IsEmptyFile now (loaded_inode stale fs' i))
      → CreateSpec now fs (pos 0, fs')

stored_inode :
    (stale buf : Block) (now i : ℕ) (fs : Nefs)
    → now < 2 ^ 64
    → fs.device.writable (inode_block fs i) ≡ true
    → IsEmptyFile now (
        loaded_inode stale
          (store_inode (inode_block fs i) (inode_offset fs i) buf (new_inode now) fs)
          i)
unfolding store_inode
stored_inode stale buf now i fs h w =
    subst (IsEmptyFile now)
      (sym (
        ap (λ (b : Block). inode_at b (inode_offset fs i))
          (read_block-write_block fs.device (inode_block fs i)
            (put_inode buf (inode_offset fs i) (new_inode now)) stale w)
        ∙ inode_at-put_inode buf (inode_offset fs i) (new_inode now) (new_inode-FitsInode now h)))
      (new_inode-IsEmptyFile now)

-- With a path: `nefs_create_file` fails if every inode is in use, and then changes nothing. Otherwise it takes
-- the first free inode, marks it alone, and what is read of that inode afterwards is an empty file of this
-- time. The bitmaps cover the inodes and the blocks, numbers and time fit 64 bits, and the device accepts the
-- writes to the inodes' blocks.
pub nefs_create_file-CreateSpec :
    (now : ℕ) (fs : Nefs) (path : List ℕ)
    → IsValid fs
    → now < 2 ^ 64
    → fs.superblock.total_inodes < 2 ^ 64
    → ((i : ℕ) → i < fs.superblock.total_inodes → fs.device.writable (inode_block fs i) ≡ true)
    → CreateSpec now fs (nefs_create_file now fs (some path))
unfolding nefs_create_file store_inode
nefs_create_file-CreateSpec now fs path v h few w = go (alloc_inode-InodeSpec fs v)
  where
    go : {r : ℕ × Nefs} → InodeSpec fs r → CreateSpec now fs (create_at now r)
    go (InodeSpec.full all) = CreateSpec.full all
    go (InodeSpec.inode i t valid) =
        let fs1 = (take_inode fs (some i)).1 in
        let buf = read_block fs1.device (inode_block fs1 i) zero_block in
        subst (CreateSpec now fs)
          (sym (if_false {b = i == minus_one} _ _ (ground (arith, t.below))))
          (CreateSpec.created i
            (store_inode (inode_block fs1 i) (inode_offset fs1 i) buf (new_inode now) fs1) t
            record { inodes = valid.inodes; blocks = valid.blocks }
            (λ stale. stored_inode stale buf now i fs1 h (w i t.below)))
