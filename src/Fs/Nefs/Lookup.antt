-- ===== src/Fs/Nefs/Lookup.antt =====
-- What `get_block_at_offset` finds again.
use mathlib.Core.Path.{subst}
use e_comos.Prelude.{
  ℕ, ◌+◌, ◌-◌, ◌/◌, ◌^◌, ◌≤◌, ◌<◌, ◌≡◌, ◌≢◌, inl, inr, refl, sym, ap, ◌∙◌, Bool, true, false,
  Option, some, length, get_or, get_or-set_self, ltb, ◌==◌, Bool-cases, if_true, if_false, arith,
  dec_lt,
}
use e_comos.Fs.Nefs.{
  Block, Device, Inode, Nefs, filled_by, zero_block, read_block, write_block, word64, put_word64,
  alloc_block, alloc_if, load_table, entry_in, direct_block, indirect_block, get_block_at_offset,
}
use e_comos.Fs.Nefs.Words.{word64-put_word64}
use e_comos.Fs.Nefs.Alloc.{IsValid, AllocSpec, alloc_block-AllocSpec}

-- What is written is read.
pub read_block-write_block :
    (dev : Device) (b : ℕ) (x buf : Block)
    → dev.writable b ≡ true
    → read_block (write_block dev b x) b buf ≡ x
unfolding read_block write_block
read_block-write_block dev b x buf w =
    subst (λ (d : Device). filled_by (d.blocks b) buf ≡ x) (sym (if_true _ _ w))
      (ap (λ (o : Option Block). filled_by o buf)
        (if_true {b = b == b} (some x) (dev.blocks b) (ground arith)))

pub read_block-write_block_other :
    (dev : Device) (b c : ℕ) (x buf : Block)
    → c ≢ b
    → read_block (write_block dev b x) c buf ≡ read_block dev c buf
unfolding read_block write_block
read_block-write_block_other dev b c x buf ne = elim (Bool-cases (dev.writable b)) [
  | inl w ↦
      subst (λ (d : Device). filled_by (d.blocks c) buf ≡ filled_by (dev.blocks c) buf)
        (sym (if_true _ _ w))
        (ap (λ (o : Option Block). filled_by o buf)
          (if_false {b = c == b} (some x) (dev.blocks c) (ground arith)))
  | inr w ↦
      subst (λ (d : Device). filled_by (d.blocks c) buf ≡ filled_by (dev.blocks c) buf)
        (sym (if_false _ _ w)) refl
]

-- What `alloc_block` returns is not 0, fits `block_t`, and leaves the device and the sizes.
pub record Fresh (fs : Nefs) (r : ℕ × Nefs) : Type 0 where
  pub some_block : 1 ≤ r.0
  pub small : r.0 < 2 ^ 64
  pub device : r.1.device ≡ fs.device
  pub block_size : r.1.superblock.block_size ≡ fs.superblock.block_size
  pub total_blocks : r.1.superblock.total_blocks ≡ fs.superblock.total_blocks
  pub valid : IsValid r.1

pub alloc_block-Fresh :
    (fs : Nefs) → IsValid fs → fs.superblock.total_blocks ≤ 2 ^ 64 → Fresh fs (alloc_block fs)
alloc_block-Fresh fs v h = elim (alloc_block-AllocSpec fs v) as (λ r _. Fresh fs r) [
  | AllocSpec.full all ↦ record {
    some_block = omega arith;
    small = omega arith;
    device = refl;
    block_size = refl;
    total_blocks = refl;
    valid = v;
  }
  | AllocSpec.block i t w ↦ record {
    some_block = omega (arith, t.above);
    small = omega (arith, t.below, h);
    device = refl;
    block_size = refl;
    total_blocks = refl;
    valid = w;
  }
]

-- A pointer that was set if it was 0.
pub alloc_if-Fresh :
    (p : ℕ) (fs : Nefs)
    → IsValid fs
    → fs.superblock.total_blocks ≤ 2 ^ 64
    → p < 2 ^ 64
    → Fresh fs (alloc_if true p fs)
unfolding alloc_if
alloc_if-Fresh p fs v h small = elim (Bool-cases (p == 0)) [
  | inl unset ↦ subst (Fresh fs) (sym (if_true _ _ unset)) (alloc_block-Fresh fs v h)
  | inr is_set ↦ subst (Fresh fs) (sym (if_false _ _ is_set)) record {
    some_block = ground arith;
    small = small;
    device = refl;
    block_size = refl;
    total_blocks = refl;
    valid = v;
  }
]

load_table-write_block :
    (b i c : ℕ) (table : Block) (fs : Nefs)
    → 1 ≤ b
    → c < 2 ^ 64
    → fs.device.writable b ≡ true
    → word64
        (load_table b (record fs { device = write_block fs.device b (put_word64 table i c) }))
        i
      ≡ c
unfolding load_table
load_table-write_block b i c table fs h small w =
    ap (λ (t : Block). word64 t i)
      (if_false {b = b == 0} zero_block _ (ground arith)
        ∙ read_block-write_block fs.device b (put_word64 table i c) zero_block w)
    ∙ word64-put_word64 table i c small

-- An entry that was looked up, and set if it was 0, is found again.
pub entry_in-found :
    (b i : ℕ) (fs : Nefs)
    → IsValid fs
    → fs.superblock.total_blocks ≤ 2 ^ 64
    → 1 ≤ b
    → fs.device.writable b ≡ true
    → word64 (load_table b (entry_in true b i fs).1) i ≡ (entry_in true b i fs).0
unfolding entry_in
entry_in-found b i fs v h one w =
    let Found : ℕ × Nefs → Type 0 = λ r. word64 (load_table b r.1) i ≡ r.0 in
    let fresh = alloc_block-Fresh fs v h in
    elim (Bool-cases (word64 (load_table b fs) i == 0)) [
      | inl unset ↦ subst Found (sym (if_true _ _ unset)) (
          load_table-write_block b i (alloc_block fs).0 (load_table b fs) (alloc_block fs).1 one
            fresh.small (ap (λ (d : Device). d.writable b) fresh.device ∙ w))
      | inr is_set ↦ subst Found (sym (if_false _ _ is_set)) refl
    ]

entry_in-block_size :
    (b i : ℕ) (fs : Nefs)
    → IsValid fs
    → fs.superblock.total_blocks ≤ 2 ^ 64
    → (entry_in true b i fs).1.superblock.block_size ≡ fs.superblock.block_size
unfolding entry_in
entry_in-block_size b i fs v h =
    let Same : ℕ × Nefs → Type 0 = λ r. r.1.superblock.block_size ≡ fs.superblock.block_size in
    elim (Bool-cases (word64 (load_table b fs) i == 0)) [
      | inl unset ↦ subst Same (sym (if_true _ _ unset)) (alloc_block-Fresh fs v h).block_size
      | inr is_set ↦ subst Same (sym (if_false _ _ is_set)) refl
    ]

-- A second look-up, of a block that was looked up and allocated if it was missing.
pub record Again (look : Inode → Nefs → ℕ × Inode × Nefs) (fs : Nefs) (r : ℕ × Inode × Nefs)
    : Type 0 where
  pub same : (look r.1 r.2).0 ≡ r.0
  pub block_size : r.2.superblock.block_size ≡ fs.superblock.block_size

direct_block-Again :
    (i : ℕ) (inode : Inode) (fs : Nefs)
    → IsValid fs
    → fs.superblock.total_blocks ≤ 2 ^ 64
    → i < length inode.direct_blocks
    → Again (direct_block false i) fs (direct_block true i inode fs)
unfolding direct_block
direct_block-Again i inode fs v h inside = elim (Bool-cases (get_or inode.direct_blocks i 0 == 0)) [
  | inl unset ↦ subst (Again (direct_block false i) fs) (sym (if_true _ _ unset)) record {
    same = get_or-set_self inode.direct_blocks i (alloc_block fs).0 0 inside;
    block_size = (alloc_block-Fresh fs v h).block_size;
  }
  | inr is_set ↦
      subst (Again (direct_block false i) fs) (sym (if_false _ _ is_set))
        record { same = refl; block_size = refl }
]

indirect_block-Again :
    (i : ℕ) (inode : Inode) (fs : Nefs)
    → IsValid fs
    → fs.superblock.total_blocks ≤ 2 ^ 64
    → inode.indirect_block < 2 ^ 64
    → fs.device.writable (alloc_if true inode.indirect_block fs).0 ≡ true
    → Again (indirect_block false i) fs (indirect_block true i inode fs)
unfolding indirect_block entry_in word64 alloc_if load_table
indirect_block-Again i inode fs v h small w =
    let (b, fs1) = alloc_if true inode.indirect_block fs in
    let f = alloc_if-Fresh inode.indirect_block fs v h small in
    let bound : fs1.superblock.total_blocks ≤ 2 ^ 64 = omega (arith, f.total_blocks) in
    record {
      same =
          entry_in-found b i fs1 f.valid bound f.some_block
            (ap (λ (d : Device). d.writable b) f.device ∙ w);
      block_size = entry_in-block_size b i fs1 f.valid bound ∙ f.block_size;
    }

-- The level of a block.
pub get_block-direct :
    (fs : Nefs) (inode : Inode) (offset : ℕ) (alloc : Bool)
    → offset / fs.superblock.block_size < 12
    → get_block_at_offset fs inode offset alloc
      ≡ direct_block alloc (offset / fs.superblock.block_size) inode fs
unfolding get_block_at_offset
get_block-direct fs inode offset alloc h =
    if_true {b = ltb (offset / fs.superblock.block_size) 12} _ _ (ground arith)

pub get_block-indirect :
    (fs : Nefs) (inode : Inode) (offset : ℕ) (alloc : Bool)
    → 12 ≤ offset / fs.superblock.block_size
    → offset / fs.superblock.block_size < 12 + fs.superblock.block_size / 8
    → get_block_at_offset fs inode offset alloc
      ≡ indirect_block alloc (offset / fs.superblock.block_size - 12) inode fs
unfolding get_block_at_offset
get_block-indirect fs inode offset alloc h near =
    if_false {b = ltb (offset / fs.superblock.block_size) 12} _ _ (ground arith)
    ∙ if_true {b = ltb (offset / fs.superblock.block_size - 12) (fs.superblock.block_size / 8)} _ _
        (ground arith)

-- the block at `offset` after a first look-up
abbrev pub again : ℕ → ℕ × Inode × Nefs → ℕ
again offset (b, inode, fs) = (get_block_at_offset fs inode offset false).0

direct_again :
    (fs : Nefs) (offset : ℕ) {r : ℕ × Inode × Nefs}
    → offset / fs.superblock.block_size < 12
    → Again (direct_block false (offset / fs.superblock.block_size)) fs r
    → again offset r ≡ r.0
direct_again fs offset {r = (b, inode, fs1)} h a =
    let index = ap (λ (bs : ℕ). offset / bs) a.block_size in
    ap (λ (r : ℕ × Inode × Nefs). r.0)
      (get_block-direct fs1 inode offset false (omega (arith, index))
        ∙ ap (λ (i : ℕ). direct_block false i inode fs1) index)
    ∙ a.same

indirect_again :
    (fs : Nefs) (offset : ℕ) {r : ℕ × Inode × Nefs}
    → 12 ≤ offset / fs.superblock.block_size
    → offset / fs.superblock.block_size < 12 + fs.superblock.block_size / 8
    → Again (indirect_block false (offset / fs.superblock.block_size - 12)) fs r
    → again offset r ≡ r.0
indirect_again fs offset {r = (b, inode, fs1)} h near a =
    let index = ap (λ (bs : ℕ). offset / bs) a.block_size in
    ap (λ (r : ℕ × Inode × Nefs). r.0)
      (get_block-indirect fs1 inode offset false (omega (arith, index))
          (omega (arith, index, a.block_size))
        ∙ ap (λ (i : ℕ). indirect_block false (i - 12) inode fs1) index)
    ∙ a.same

-- A byte of the direct blocks or of the blocks of the single indirect table: the block that
-- `get_block_at_offset` returned with `alloc`, whether it was there, was allocated, or even its table was
-- allocated, is returned without `alloc` afterwards. The bitmaps cover the inodes and the blocks, the
-- numbers fit 64 bits, and the device accepts a write to the block of the table.
pub get_block_at_offset_again :
    (fs : Nefs) (inode : Inode) (offset : ℕ)
    → IsValid fs
    → fs.superblock.total_blocks ≤ 2 ^ 64
    → length inode.direct_blocks ≡ 12
    → inode.indirect_block < 2 ^ 64
    → offset / fs.superblock.block_size < 12 + fs.superblock.block_size / 8
    → fs.device.writable (alloc_if true inode.indirect_block fs).0 ≡ true
    → again offset (get_block_at_offset fs inode offset true)
      ≡ (get_block_at_offset fs inode offset true).0
get_block_at_offset_again fs inode offset v h twelve small near w =
    elim (dec_lt (offset / fs.superblock.block_size) 12) [
      | yes direct ↦
          subst (λ (r : ℕ × Inode × Nefs). again offset r ≡ r.0)
            (sym (get_block-direct fs inode offset true direct))
            (direct_again fs offset direct
              (direct_block-Again (offset / fs.superblock.block_size) inode fs v h (omega arith)))
      | no further ↦
          subst (λ (r : ℕ × Inode × Nefs). again offset r ≡ r.0)
            (sym (get_block-indirect fs inode offset true (omega arith) near))
            (indirect_again fs offset (omega arith) near
              (indirect_block-Again (offset / fs.superblock.block_size - 12) inode fs v h small w))
    ]
