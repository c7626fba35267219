-- ===== src/Fs/Nefs/Stale.antt =====
-- What a table of block numbers holds when its block is new.
use e_comos.Prelude.{
  ℕ, ◌+◌, ◌-◌, ◌/◌, ◌≤◌, ◌<◌, ◌≡◌, ◌≢◌, refl, ap, ◌∙◌, true, ◌&&◌, ◌==◌, Option, some, if_true,
  if_false, arith,
}
use e_comos.Fs.Nefs.{
  Block, Inode, Nefs, filled_by, zero_block, read_block, word64, alloc_block, take_block, alloc_if,
  load_table, entry_in, indirect_block, get_block_at_offset,
}
use e_comos.Fs.Nefs.Lookup.{get_block-indirect}

-- An entry that is not 0 is taken as it is.
entry_in-is_set :
    (b k : ℕ) (fs : Nefs) (x : ℕ)
    → word64 (load_table b fs) k ≡ x
    → x ≢ 0
    → entry_in true b k fs ≡ (x, fs)
unfolding entry_in
entry_in-is_set b k fs x e ne =
    if_false {b = true && word64 (load_table b fs) k == 0} _ _ (ground arith)
    ∙ ap (λ (w : ℕ). (w, fs)) e

load_table-filled_by :
    (b : ℕ) (fs : Nefs) (block : Block)
    → 1 ≤ b
    → fs.device.blocks b ≡ some block
    → load_table b fs ≡ block
unfolding load_table read_block
load_table-filled_by b fs block h e =
    if_false {b = b == 0} _ _ (ground arith) ∙ ap (λ (o : Option Block). filled_by o zero_block) e

-- `indirect_block` once its table's block is known
abbrev with_table : Inode → ℕ → ℕ × Nefs → ℕ × Inode × Nefs
with_table inode k (b, fs) =
    ((entry_in true b k fs).0, record inode { indirect_block = b }, (entry_in true b k fs).1)

expanded :
    (fs : Nefs) (inode : Inode) (k : ℕ)
    → indirect_block true k inode fs ≡ with_table inode k (alloc_if true inode.indirect_block fs)
unfolding indirect_block
expanded fs inode k = refl

allocated : (fs : Nefs) (p : ℕ) → p ≡ 0 → alloc_if true p fs ≡ alloc_block fs
unfolding alloc_if
allocated fs p e = if_true {b = true && p == 0} _ _ (ground arith)

-- A file without an indirect table, a byte of the table's blocks, and the block `i` that the allocator hands
-- out for the table: if what the device holds in block `i` is not 0 at the byte's entry, then
-- `get_block_at_offset` returns that old number as the block of the file, without allocating it, and the
-- file's table is block `i` with its old contents.
pub stale_pointer_followed :
    (fs : Nefs) (inode : Inode) (offset i : ℕ) (old : Block)
    → 12 ≤ offset / fs.superblock.block_size
    → offset / fs.superblock.block_size < 12 + fs.superblock.block_size / 8
    → inode.indirect_block ≡ 0
    → 1 ≤ i
    → alloc_block fs ≡ take_block fs (some i)
    → fs.device.blocks i ≡ some old
    → word64 old (offset / fs.superblock.block_size - 12) ≢ 0
    → get_block_at_offset fs inode offset true ≡ (
      word64 old (offset / fs.superblock.block_size - 12),
      record inode { indirect_block = i },
      (take_block fs (some i)).1,
    )
stale_pointer_followed fs inode offset i old above below unset one taken on_device ne =
    let k = offset / fs.superblock.block_size - 12 in
    get_block-indirect fs inode offset true above below
    ∙ expanded fs inode k
    ∙ ap (λ (r : ℕ × Nefs). with_table inode k r) (allocated fs inode.indirect_block unset ∙ taken)
    ∙ ap (λ (r : ℕ × Nefs). (r.0, record inode { indirect_block = i }, r.1))
        (entry_in-is_set i k (take_block fs (some i)).1 (word64 old k)
          (ap (λ (t : Block). word64 t k)
            (load_table-filled_by i (take_block fs (some i)).1 old one on_device))
          ne)
