-- ===== src/Fs/Nefs/Format.antt =====
-- A new file system, and the count of its free blocks.
use mathlib.Core.Path.{subst}
use native.Mathlib.Nat.{div-le_self}
use Prim.Native.Nat.{bit_and-bitwise}
use e_comos.Prelude.{
  ℕ, zero, suc, ◌+◌, ◌-◌, ◌*◌, ◌/◌, ◌%◌, ◌^◌, ◌≤◌, ◌<◌, ◌≡◌, ◌≢◌, ◌⊎◌, inl, inr, refl, sym, ap, ◌∙◌,
  not, ◌||◌, some, length, set, replicate, length-set, length-replicate, get_or-replicate,
  Bool-cases, dec_le, if_eq, if_ne, if_true, if_false, ltb, ◌==◌, if◌then◌else◌, arith, true, false,
}
use e_comos.Prelude.Bitmap.{test_bit, test_byte, IsBytes, set-IsBytes}
use e_comos.Fs.Nefs.{
  Device, Nefs, nefs_min_block_size, nefs_max_block_size, usable_blocks, inodes_for, nefs_format,
  alloc_block, FormatResult, null, undefined, created,
}
use e_comos.Fs.Nefs.Alloc.{IsValid, AllocSpec, alloc_block-AllocSpec}
use e_comos.Fs.Nefs.Count.{count_if_all, count_if-le}
use e_comos.Fs.Nefs.Direct.{free_count, free_count_drop}

no_bit : (n i : ℕ) → test_bit (replicate n 0) i ≡ false
unfolding test_bit
no_bit n i =
    ap (λ b. test_byte b (i % 8)) (get_or-replicate {A = ℕ} n 0 (i / 8))
    ∙ ap (λ b. not (b == 0)) (bit_and-bitwise 0 (2 ^ (i % 8)))

zeros-IsBytes : (n : ℕ) → IsBytes (replicate n 0)
zeros-IsBytes n k = omega (arith, get_or-replicate {A = ℕ} n 0 k)

-- The superblock counts the free data blocks.
pub record IsCounted (fs : Nefs) : Type 0 where
  pub valid : IsValid fs
  pub bound : fs.superblock.total_blocks < 2 ^ 64
  pub counter : fs.superblock.free_blocks ≡ free_count fs

-- the file system after `n` calls of `alloc_block`
abbrev pub allocated : ℕ → Nefs → Nefs
allocated zero fs = fs
allocated (suc n) fs = allocated n (alloc_block fs).1

-- the blocks of the device, or 1 GB of them for a device without any
abbrev blocks_for : ℕ → Device → ℕ
blocks_for block_size dev = if dev.total_blocks == 0 then 2 ^ 30 / block_size else dev.total_blocks

-- The outcomes of `nefs_format` on an open device, and of `n` calls of `alloc_block` behind it.
pub data FormatSpec (n block_size : ℕ) (dev : Device) : FormatResult → Type 0 where
  refused : (block_size < 4096) ⊎ (65536 < block_size) → FormatSpec n block_size dev null
  -- there is no inode, and the first byte of a bitmap of no bytes is written
  overran :
      4096 ≤ block_size
      → block_size ≤ 65536
      → 10001 ≤ blocks_for block_size dev
      → blocks_for block_size dev ≤ 10007
      → FormatSpec n block_size dev undefined
  formatted :
      {fs : Nefs}
      → 4096 ≤ block_size
      → block_size ≤ 65536
      → (blocks_for block_size dev ≤ 10000) ⊎ (10008 ≤ blocks_for block_size dev)
      → fs.superblock.block_size ≡ block_size
      → fs.superblock.total_blocks ≡ blocks_for block_size dev
      → fs.device.blocks ≡ dev.blocks
      → fs.device.writable ≡ dev.writable
      → IsCounted (allocated n fs)
      → FormatSpec n block_size dev (created fs)

format-IsCounted :
    (fs : Nefs) (total inodes : ℕ)
    → fs.superblock.total_blocks ≡ total
    → fs.superblock.total_inodes ≡ inodes
    → fs.superblock.free_blocks ≡ usable_blocks total
    → fs.inode_bitmap ≡ set (replicate ((inodes + 7) % 2 ^ 64 / 8) 0) 0 1
    → fs.data_bitmap
      ≡ replicate (if ltb 0 ((total + 7) % 2 ^ 64 / 8) then (total + 7) % 2 ^ 64 / 8 else 1) 0
    → total + 7 < 2 ^ 64
    → inodes + 7 < 2 ^ 64
    → IsCounted fs
unfolding free_count
format-IsCounted fs total inodes t i f ib db h few =
    let n = if ltb 0 ((total + 7) % 2 ^ 64 / 8) then (total + 7) % 2 ^ 64 / 8 else 1 in
    let long : total ≤ 8 * n = ground arith in
    record {
      valid = record {
        inodes = record {
          bytes =
              subst IsBytes (sym ib)
                (set-IsBytes _ 0 1 (zeros-IsBytes ((inodes + 7) % 2 ^ 64 / 8)) (omega arith));
          long = omega (
            arith,
            i,
            ap length ib,
            length-set {A = ℕ} (replicate ((inodes + 7) % 2 ^ 64 / 8) 0) 0 1,
            length-replicate {A = ℕ} ((inodes + 7) % 2 ^ 64 / 8) 0,
          );
        };
        blocks = record {
          bytes = subst IsBytes (sym db) (zeros-IsBytes n);
          long = omega (arith, t, ap length db, length-replicate {A = ℕ} n 0, long);
        };
      };
      bound = omega (arith, t);
      counter =
          f
          ∙ ground arith
          ∙ ap (λ (m : ℕ). m - 10000) (sym t)
          ∙ sym (
              count_if_all (λ j. not (test_bit fs.data_bitmap j))
                (fs.superblock.total_blocks - 10000) 10000
                (λ j. ap (λ b. not (test_bit b j)) db ∙ ap not (no_bit n j)));
    }

free_count_small : (fs : Nefs) → free_count fs ≤ fs.superblock.total_blocks - 10000
unfolding free_count
free_count_small fs =
    count_if-le (λ j. not (test_bit fs.data_bitmap j)) (fs.superblock.total_blocks - 10000) 10000

alloc_block-IsCounted : (fs : Nefs) → IsCounted fs → IsCounted (alloc_block fs).1
alloc_block-IsCounted fs c =
    elim (alloc_block-AllocSpec fs c.valid) as (λ (r : ℕ × Nefs) _. IsCounted r.1) [
      | AllocSpec.full all ↦ c
      | AllocSpec.block b t v ↦ record {
        valid = v;
        bound = c.bound;
        counter = omega (arith, free_count_drop fs b t, free_count_small fs, c.counter, c.bound);
      }
    ]

allocated-IsCounted : (n : ℕ) (fs : Nefs) → IsCounted fs → IsCounted (allocated n fs)
allocated-IsCounted zero fs c = c
allocated-IsCounted (suc n) fs c =
    allocated-IsCounted n (alloc_block fs).1 (alloc_block-IsCounted fs c)

-- The number of the inodes, and when it is 0.
few_inodes :
    (total : ℕ)
    → total + 7 < 2 ^ 64
    → (inodes_for (usable_blocks total) + 7 < 2 ^ 64)
      × (((10001 ≤ total)
            × (total ≤ 10007)
            × ((inodes_for (usable_blocks total) + 7) % 2 ^ 64 / 8 ≡ 0))
          ⊎ (((total ≤ 10000) ⊎ (10008 ≤ total))
              × ((inodes_for (usable_blocks total) + 7) % 2 ^ 64 / 8 ≢ 0)))
few_inodes total h = elim (dec_le total 10000) [
  | yes none_usable ↦ (ground arith, inr (inl none_usable, ground arith))
  | no usable ↦ elim (dec_le total 10007) [
    | yes few ↦ (ground arith, inl (omega arith, few, ground arith))
    | no many ↦ (ground arith, inr (inr (omega arith), ground arith))
  ]
]

-- `nefs_format` on an open device of fewer than 2^64 - 7 blocks has one of three outcomes. It refuses blocks of
-- fewer than 4096 or more than 65536 bytes. On 10001 to 10007 blocks there is no inode, and it writes behind
-- the end of the inode bitmap. Otherwise it returns a file system on that device, of its number of blocks or
-- of 1 GB of blocks if it has none; after any number of calls of `alloc_block`, those that fail included, the
-- bitmaps cover the inodes and the blocks, and `free_blocks` of the superblock is the number of the data blocks
-- whose bit is clear.
pub nefs_format-FormatSpec :
    (n block_size : ℕ) (dev : Device)
    → dev.total_blocks + 7 < 2 ^ 64
    → FormatSpec n block_size dev (nefs_format block_size (some dev))
unfolding nefs_format
nefs_format-FormatSpec n block_size dev h =
    let total = blocks_for block_size dev in
    let Spec = FormatSpec n block_size dev in
    elim (Bool-cases (ltb block_size nefs_min_block_size || ltb nefs_max_block_size block_size)) [
      | inl out ↦ subst Spec (sym (if_true _ _ out)) (FormatSpec.refused (which out))
      | inr within ↦
          let (wide, sizes) = few_inodes total (total_small (ground arith)) in
          subst Spec (sym (if_false _ _ within)) (elim sizes [
            | inl (low, high, zero_bytes) ↦
                subst Spec (sym (if_eq _ 0 _ _ zero_bytes))
                  (FormatSpec.overran (ground arith) (ground arith) low high)
            | inr (away, bytes) ↦ subst Spec (sym (if_ne _ 0 _ _ bytes)) (
                FormatSpec.formatted (ground arith) (ground arith) away refl refl refl refl (
                  allocated-IsCounted n _ (
                    format-IsCounted _ total (inodes_for (usable_blocks total)) refl refl refl refl
                      refl (total_small (ground arith)) wide)))
          ])
    ]
  where
    which :
        (ltb block_size nefs_min_block_size || ltb nefs_max_block_size block_size) ≡ true
        → (block_size < 4096) ⊎ (65536 < block_size)
    which out = ground arith

    total_small : 4096 ≤ block_size → blocks_for block_size dev + 7 < 2 ^ 64
    total_small least = let few = div-le_self (2 ^ 30) block_size in ground (arith, few)
