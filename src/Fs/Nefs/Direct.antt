-- ===== src/Fs/Nefs/Direct.antt =====
-- The direct blocks of a file: which blocks they are, and what a write to one of them leaves in the others.
use mathlib.Core.Path.{subst}
use native.Mathlib.Nat.{div-add-mod, mul-add-div, mul-add-mod_self_left, div-eq_of_lt, mod-eq_of_lt}
use e_comos.Prelude.{
  ℕ, suc, not, ◌+◌, ◌-◌, ◌*◌, ◌/◌, ◌%◌, ◌^◌, ◌≤◌, ◌<◌, ◌≡◌, ◌≢◌, ◌⊎◌, inl, inr, refl, sym, ap, ◌∙◌,
  true, false, some, length, length-set, get_or, set, get_or-set_self, get_or-set_ne, ◌==◌,
  Bool-cases, if_true, if_false, arith, ℕ_discrete,
}
use e_comos.Prelude.Bitmap.{test_bit, set_bit}
use e_comos.Fs.Nefs.{Inode, Nefs, take_block, new_direct, direct_block}
use e_comos.Fs.Nefs.Count.{count_if, count_if_drop, count_if_none, count_if_some}
use e_comos.Fs.Nefs.Alloc.{IsValid, AllocSpec, Took, alloc_block-AllocSpec}

-- The bytes from place `at` on to the end of its block.
pub same_block :
    (bs at t : ℕ) → t < bs - at % bs → ((at + t) / bs ≡ at / bs) × ((at + t) % bs ≡ at % bs + t)
same_block bs at t h =
    let split : at + t ≡ bs * (at / bs) + (at % bs + t) = omega (arith, div-add-mod at bs) in
    (
      ap (λ (n : ℕ). n / bs) split
          ∙ mul-add-div (omega arith) (at / bs) (at % bs + t)
          ∙ ap (λ (n : ℕ). at / bs + n) (div-eq_of_lt {n = at % bs + t} {m = bs} (omega arith))
          ∙ omega arith,
      ap (λ (n : ℕ). n % bs) split
          ∙ mul-add-mod_self_left bs (at / bs) (at % bs + t)
          ∙ mod-eq_of_lt {n = at % bs + t} {m = bs} (omega arith),
    )

pub earlier_in_block : (bs p q : ℕ) → p < q → p / bs ≡ q / bs → p % bs < q % bs
earlier_in_block bs p q h e =
    omega (arith, div-add-mod p bs, div-add-mod q bs, ap (λ (d : ℕ). bs * d) e)

-- the block number `i` of a file
abbrev pub direct : Inode → ℕ → ℕ
direct inode i = get_or inode.direct_blocks i 0

-- A block number of a file: none, or a data block in use.
abbrev pub Owned : Nefs → ℕ → Type 0
Owned fs b =
    (b ≡ 0) ⊎ ((10000 ≤ b) × (b < fs.superblock.total_blocks) × (test_bit fs.data_bitmap b ≡ true))

-- the data blocks that are free, and the direct blocks that a file does not have
unfoldable pub free_count : Nefs → ℕ
free_count fs =
    count_if (λ j. not (test_bit fs.data_bitmap j)) (fs.superblock.total_blocks - 10000) 10000

unfoldable pub unset_count : Inode → ℕ
unset_count inode = count_if (λ i. direct inode i == 0) 12 0

-- The file system and a file: no block is used twice, the device accepts a write to each block, and there is a
-- free block for each direct block that the file does not have.
pub record Good (fs : Nefs) (inode : Inode) : Type 0 where
  pub valid : IsValid fs
  pub bound : fs.superblock.total_blocks ≤ 2 ^ 64
  pub accepts : (b : ℕ) → b < fs.superblock.total_blocks → fs.device.writable b ≡ true
  pub twelve : length inode.direct_blocks ≡ 12
  pub owned : (i : ℕ) → Owned fs (direct inode i)
  pub distinct : (i j : ℕ) → i ≢ j → direct inode i ≡ direct inode j → direct inode i ≡ 0
  pub supply : unset_count inode ≤ free_count fs

-- What an operation on a file's blocks leaves of the file system.
pub record Layout (fs' fs : Nefs) : Type 0 where
  pub block_size : fs'.superblock.block_size ≡ fs.superblock.block_size
  pub inode_table_block : fs'.superblock.inode_table_block ≡ fs.superblock.inode_table_block
  pub total_blocks : fs'.superblock.total_blocks ≡ fs.superblock.total_blocks
  pub writable : fs'.device.writable ≡ fs.device.writable

pub Layout-refl : (fs : Nefs) → Layout fs fs
Layout-refl fs = record {
  block_size = refl;
  inode_table_block = refl;
  total_blocks = refl;
  writable = refl;
}

pub Layout-trans : {fs1 fs2 fs3 : Nefs} → Layout fs1 fs2 → Layout fs2 fs3 → Layout fs1 fs3
Layout-trans a b = record {
  block_size = a.block_size ∙ b.block_size;
  inode_table_block = a.inode_table_block ∙ b.inode_table_block;
  total_blocks = a.total_blocks ∙ b.total_blocks;
  writable = a.writable ∙ b.writable;
}

-- The look-up of block `i`, with allocation.
pub record Placed (i : ℕ) (inode : Inode) (fs : Nefs) (r : ℕ × Inode × Nefs) : Type 0 where
  pub positive : 1 ≤ r.0
  pub good : Good r.2 r.1
  pub here : direct r.1 i ≡ r.0
  pub others : (j : ℕ) → i ≢ j → direct r.1 j ≡ direct inode j
  pub kept : (direct inode i ≡ 0) ⊎ (direct inode i ≡ r.0)
  pub device : r.2.device ≡ fs.device
  pub layout : Layout r.2 fs
  pub size : r.1.size ≡ inode.size

-- A number for block `i`.
set-direct :
    (i b : ℕ) (inode : Inode)
    → length inode.direct_blocks ≡ 12
    → i < 12
    → (direct (record inode { direct_blocks = set inode.direct_blocks i b }) i ≡ b)
      × ((j : ℕ)
          → i ≢ j
          → direct (record inode { direct_blocks = set inode.direct_blocks i b }) j
            ≡ direct inode j)
set-direct i b inode l h = (
  get_or-set_self inode.direct_blocks i b 0 (omega arith),
  λ j ne. get_or-set_ne inode.direct_blocks i j b 0 ne,
)

module _ (i b : ℕ) (inode inode' : Inode) (same : direct inode' i ≡ b)
    (others : (j : ℕ) → i ≢ j → direct inode' j ≡ direct inode j) where
  new-distinct :
      {fs : Nefs}
      → Good fs inode
      → ((j : ℕ) → direct inode j ≢ b)
      → (j k : ℕ) → j ≢ k
      → direct inode' j ≡ direct inode' k
      → direct inode' j ≡ 0
  new-distinct g fresh j k ne e = elim (ℕ_discrete i j) [
    | yes ij ↦ absurd (
        fresh k (
          sym (others k (λ ik. ne (sym ij ∙ ik)))
          ∙ sym e
          ∙ ap (λ n. direct inode' n) (sym ij)
          ∙ same))
    | no not_j ↦ elim (ℕ_discrete i k) [
      | yes ik ↦
          absurd (fresh j (sym (others j not_j) ∙ e ∙ ap (λ n. direct inode' n) (sym ik) ∙ same))
      | no not_k ↦ others j not_j ∙ g.distinct j k ne (sym (others j not_j) ∙ e ∙ others k not_k)
    ]
  ]

  new-Owned :
      {fs : Nefs} (fs' : Nefs)
      → Good fs inode
      → ((c : ℕ) → Owned fs c → Owned fs' c)
      → Owned fs' b
      → (j : ℕ) → Owned fs' (direct inode' j)
  new-Owned fs' g carry mine j = elim (ℕ_discrete i j) [
    | yes ij ↦ subst (Owned fs') (sym (ap (λ n. direct inode' n) (sym ij) ∙ same)) mine
    | no not_j ↦ subst (Owned fs') (sym (others j not_j)) (carry (direct inode j) (g.owned j))
  ]

true_ne_false : true ≡ false → ⊥
true_ne_false e = cc

carried :
    (fs : Nefs) (b : ℕ)
    → Took 10000 fs.superblock.total_blocks b fs.data_bitmap (set_bit fs.data_bitmap b)
    → (c : ℕ) → Owned fs c
    → Owned (take_block fs (some b)).1 c
carried fs b t c (inl z) = inl z
carried fs b t c (inr (above, inside, used)) = inr (above, inside, ground (arith, t.bits c, used))

not-Owned :
    (fs : Nefs) (b : ℕ)
    → Took 10000 fs.superblock.total_blocks b fs.data_bitmap (set_bit fs.data_bitmap b)
    → (c : ℕ) → Owned fs c
    → c ≢ b
not-Owned fs b t c (inl z) e = omega (arith, t.above)
not-Owned fs b t c (inr (above, inside, used)) e =
    true_ne_false (sym used ∙ ap (test_bit fs.data_bitmap) e ∙ t.was_free)

-- A block less is free.
pub free_count_drop :
    (fs : Nefs) (b : ℕ)
    → Took 10000 fs.superblock.total_blocks b fs.data_bitmap (set_bit fs.data_bitmap b)
    → free_count fs ≡ suc (free_count (take_block fs (some b)).1)
unfolding free_count
free_count_drop fs b t =
    count_if_drop (λ j. not (test_bit fs.data_bitmap j))
      (λ j. not (test_bit (set_bit fs.data_bitmap b) j)) (fs.superblock.total_blocks - 10000) 10000
      b t.above (omega (arith, t.above, t.below)) (ap not t.was_free)
      (ap not (t.bits b ∙ if_true {b = b == b} _ _ (ground arith)))
      (λ k ne. ap not (sym (t.bits k ∙ if_false {b = b == k} _ _ (ground arith))))

-- A direct block less is missing.
unset_count_drop :
    (i b : ℕ) (inode inode' : Inode)
    → i < 12
    → direct inode i ≡ 0
    → direct inode' i ≡ b
    → b ≢ 0
    → ((j : ℕ) → i ≢ j → direct inode' j ≡ direct inode j)
    → unset_count inode ≡ suc (unset_count inode')
unfolding unset_count
unset_count_drop i b inode inode' h z same ne others =
    count_if_drop (λ i. direct inode i == 0) (λ i. direct inode' i == 0) 12 0 i (omega arith) h
      (ground arith) (ground arith) (λ k other. ap (λ n. n == 0) (sym (others k other)))

none_left :
    (fs : Nefs)
    → ((j : ℕ) → 10000 ≤ j → j < fs.superblock.total_blocks → test_bit fs.data_bitmap j ≡ true)
    → free_count fs ≡ 0
unfolding free_count
none_left fs all =
    count_if_none (λ j. not (test_bit fs.data_bitmap j)) (fs.superblock.total_blocks - 10000) 10000
      (λ j a b. ap not (all j a (omega arith)))

some_unset : (inode : Inode) (i : ℕ) → i < 12 → direct inode i ≡ 0 → 1 ≤ unset_count inode
unfolding unset_count
some_unset inode i h z =
    count_if_some (λ i. direct inode i == 0) 12 0 i (omega arith) h (ground arith)

pub direct_block-Placed :
    (i : ℕ) (inode : Inode) (fs : Nefs)
    → Good fs inode
    → i < 12
    → Placed i inode fs (direct_block true i inode fs)
unfolding direct_block
direct_block-Placed i inode fs g h = elim (Bool-cases (direct inode i == 0)) [
  | inl unset ↦
      subst (Placed i inode fs) (sym (if_true _ _ unset))
        (allocated (ground arith) (alloc_block-AllocSpec fs g.valid))
  | inr is_set ↦ subst (Placed i inode fs) (sym (if_false _ _ is_set)) record {
    positive = ground arith;
    good = g;
    here = refl;
    others = λ j ne. refl;
    kept = inr refl;
    device = refl;
    layout = Layout-refl fs;
    size = refl;
  }
]
  where
    allocated :
        direct inode i ≡ 0
        → {r : ℕ × Nefs} → AllocSpec fs r
        → Placed i inode fs (new_direct i inode r)
    allocated z (AllocSpec.full all) =
        absurd (omega (arith, g.supply, none_left fs all, some_unset inode i h z))
    allocated z (AllocSpec.block b t v) =
        let (same, others) = set-direct i b inode g.twelve h in
        let inode' : Inode = record inode { direct_blocks = set inode.direct_blocks i b } in
        record {
          positive = omega (arith, t.above);
          good = record {
            valid = v;
            bound = g.bound;
            accepts = g.accepts;
            twelve = length-set inode.direct_blocks i b ∙ g.twelve;
            owned =
                new-Owned i b inode inode' same others (take_block fs (some b)).1 g (carried fs b t)
                  (inr (t.above, t.below, t.bits b ∙ if_true {b = b == b} _ _ (ground arith)));
            distinct =
                new-distinct i b inode inode' same others g
                  (λ j. not-Owned fs b t (direct inode j) (g.owned j));
            supply = omega (
              arith,
              g.supply,
              free_count_drop fs b t,
              unset_count_drop i b inode inode' h z same (λ e. omega (arith, t.above, e)) others,
            );
          };
          here = same;
          others = others;
          kept = inl z;
          device = refl;
          layout = record {
            block_size = refl;
            inode_table_block = refl;
            total_blocks = refl;
            writable = refl;
          };
          size = refl;
        }
