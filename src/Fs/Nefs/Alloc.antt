-- ===== src/Fs/Nefs/Alloc.antt =====
-- Allocation of blocks and inodes.
use mathlib.Core.Path.{subst}
use e_comos.Prelude.{
  ℕ, ◌-◌, ◌*◌, ◌≤◌, ◌<◌, ◌≡◌, inl, inr, refl, sym, Bool, true, false, not, some, List, length, ◌==◌,
  if◌then◌else◌, arith,
}
use e_comos.Prelude.Bitmap.{
  test_bit, set_bit, IsBytes, test_bit-set_bit, set_bit-IsBytes, length-set_bit,
}
use e_comos.Prelude.Search.{IsFirst, find_from-cases}
use e_comos.Fs.Nefs.{Nefs, minus_one, take_inode, alloc_inode, take_block, alloc_block}

-- A bitmap has a bit for each of `total` things, in bytes.
pub record Covers (bitmap : List ℕ) (total : ℕ) : Type 0 where
  pub bytes : IsBytes bitmap
  pub long : total ≤ 8 * length bitmap

pub record IsValid (fs : Nefs) : Type 0 where
  pub inodes : Covers fs.inode_bitmap fs.superblock.total_inodes
  pub blocks : Covers fs.data_bitmap fs.superblock.total_blocks

Covers-set_bit :
    (bitmap : List ℕ) (total i : ℕ) → Covers bitmap total → Covers (set_bit bitmap i) total
Covers-set_bit bitmap total i c = record {
  bytes = set_bit-IsBytes bitmap i c.bytes;
  long = omega (arith, length-set_bit bitmap i, c.long);
}

-- The bit `i`, the first one clear from `from` on, was taken: it alone is set.
pub record Took (from total i : ℕ) (bitmap bitmap' : List ℕ) : Type 0 where
  pub above : from ≤ i
  pub below : i < total
  pub was_free : test_bit bitmap i ≡ false
  pub first : (j : ℕ) → from ≤ j → j < i → test_bit bitmap j ≡ true
  pub bits : (j : ℕ) → test_bit bitmap' j ≡ (if i == j then true else test_bit bitmap j)

negated : {b : Bool} → not b ≡ true → b ≡ false
negated {b = true} e = cc
negated {b = false} e = refl

not_negated : {b : Bool} → not b ≡ false → b ≡ true
not_negated {b = true} e = refl
not_negated {b = false} e = cc

found-Took :
    (bitmap : List ℕ) (from n total i : ℕ)
    → Covers bitmap total
    → n ≡ total - from
    → IsFirst (λ j. not (test_bit bitmap j)) from n i
    → Took from total i bitmap (set_bit bitmap i)
found-Took bitmap from n total i c e f = record {
  above = f.from;
  below = omega (arith, f.from, f.below);
  was_free = negated f.passes;
  first = λ j a b. not_negated (f.earlier j a b);
  bits = λ j. test_bit-set_bit bitmap i j c.bytes (omega (arith, f.from, f.below, c.long));
}

-- The outcomes of `alloc_block`.
pub data AllocSpec (fs : Nefs) : ℕ × Nefs → Type 0 where
  full :
      ((j : ℕ) → 10000 ≤ j → j < fs.superblock.total_blocks → test_bit fs.data_bitmap j ≡ true)
      → AllocSpec fs (minus_one, fs)
  block :
      (i : ℕ)
      → Took 10000 fs.superblock.total_blocks i fs.data_bitmap (set_bit fs.data_bitmap i)
      → IsValid (take_block fs (some i)).1
      → AllocSpec fs (take_block fs (some i))

-- `alloc_block` takes the first block from 10000 on whose bit is clear and sets its bit alone, or, if every
-- one of them is in use, returns (block_t)-1 and changes nothing. A file system whose bitmaps cover its
-- inodes and blocks stays one.
pub alloc_block-AllocSpec : (fs : Nefs) → IsValid fs → AllocSpec fs (alloc_block fs)
unfolding alloc_block
alloc_block-AllocSpec fs v =
    let total = fs.superblock.total_blocks in
    elim (find_from-cases (λ i. not (test_bit fs.data_bitmap i)) (total - 10000) 10000) [
      | inl (i, e, f) ↦
          subst (λ o. AllocSpec fs (take_block fs o)) (sym e)
            (AllocSpec.block i
              (found-Took fs.data_bitmap 10000 (total - 10000) total i v.blocks refl f)
              record { inodes = v.inodes; blocks = Covers-set_bit fs.data_bitmap total i v.blocks })
      | inr (e, none_free) ↦
          subst (λ o. AllocSpec fs (take_block fs o)) (sym e)
            (AllocSpec.full (λ j a b. not_negated (none_free j a (omega arith))))
    ]

-- The outcomes of `alloc_inode`.
pub data InodeSpec (fs : Nefs) : ℕ × Nefs → Type 0 where
  full :
      ((j : ℕ) → j < fs.superblock.total_inodes → test_bit fs.inode_bitmap j ≡ true)
      → InodeSpec fs (minus_one, fs)
  inode :
      (i : ℕ)
      → Took 0 fs.superblock.total_inodes i fs.inode_bitmap (set_bit fs.inode_bitmap i)
      → IsValid (take_inode fs (some i)).1
      → InodeSpec fs (take_inode fs (some i))

pub alloc_inode-InodeSpec : (fs : Nefs) → IsValid fs → InodeSpec fs (alloc_inode fs)
unfolding alloc_inode
alloc_inode-InodeSpec fs v =
    let total = fs.superblock.total_inodes in
    elim (find_from-cases (λ i. not (test_bit fs.inode_bitmap i)) total 0) [
      | inl (i, e, f) ↦
          subst (λ o. InodeSpec fs (take_inode fs o)) (sym e)
            (InodeSpec.inode i (found-Took fs.inode_bitmap 0 total total i v.inodes (omega arith) f)
              record {
                inodes = Covers-set_bit fs.inode_bitmap total i v.inodes;
                blocks = v.blocks;
              })
      | inr (e, none_free) ↦
          subst (λ o. InodeSpec fs (take_inode fs o)) (sym e)
            (InodeSpec.full (λ j b. not_negated (none_free j (omega arith) (omega arith))))
    ]
