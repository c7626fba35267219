-- ===== src/Fs/Nefs/Chunk.antt =====
-- What a write to a part of one direct block leaves in the file.
use mathlib.Core.Path.{subst}
use e_comos.Prelude.{
  ℕ, ◌+◌, ◌-◌, ◌/◌, ◌%◌, ◌≤◌, ◌<◌, ◌≡◌, ◌≢◌, inl, inr, refl, sym, ap, ◌∙◌, true, ◌&&◌, ltb, leb,
  Bool-cases, if_true, if_false, arith, ℕ_discrete,
}
use e_comos.Fs.Nefs.{Block, Device, Inode, Nefs, read_block, write_block}
use e_comos.Fs.Nefs.Files.{copy_into, put_chunk}
use e_comos.Fs.Nefs.Lookup.{read_block-write_block, read_block-write_block_other}
use e_comos.Fs.Nefs.Direct.{
  same_block, earlier_in_block, direct, Owned, free_count, Good, Layout, Placed,
}

-- The byte at place `p` of the file is `v`.
pub record Stored (bs : ℕ) (dev : Device) (inode : Inode) (p v : ℕ) : Type 0 where
  pub present : direct inode (p / bs) ≢ 0
  pub value : (buf : Block) → read_block dev (direct inode (p / bs)) buf (p % bs) ≡ v

Good-device :
    (fs : Nefs) (inode : Inode) (b : ℕ) (x : Block)
    → Good fs inode
    → Good (record fs { device = write_block fs.device b x }) inode
unfolding write_block free_count
Good-device fs inode b x g = record {
  valid = record { inodes = g.valid.inodes; blocks = g.valid.blocks };
  bound = g.bound;
  accepts = λ c h. elim (Bool-cases (fs.device.writable b)) [
    | inl w ↦ subst (λ (d : Device). d.writable c ≡ true) (sym (if_true _ _ w)) (g.accepts c h)
    | inr w ↦ subst (λ (d : Device). d.writable c ≡ true) (sym (if_false _ _ w)) (g.accepts c h)
  ];
  twelve = g.twelve;
  owned = g.owned;
  distinct = g.distinct;
  supply = g.supply;
}

pub put_chunk-Good :
    (stale : Block) (b off n : ℕ) (content : Block) (from : ℕ) (fs : Nefs) (inode : Inode)
    → Good fs inode
    → Good (put_chunk stale b off n content from fs) inode
unfolding put_chunk
put_chunk-Good stale b off n content from fs inode g = Good-device fs inode b _ g

-- a block in use is written
Owned-writable :
    (fs : Nefs) (inode : Inode) (b : ℕ)
    → Good fs inode
    → Owned fs b
    → b ≢ 0
    → fs.device.writable b ≡ true
Owned-writable fs inode b g (inl z) ne = absurd (ne z)
Owned-writable fs inode b g (inr (above, inside, used)) ne = g.accepts b inside

write_block-writable :
    (dev : Device) (b : ℕ) (x : Block) → (write_block dev b x).writable ≡ dev.writable
unfolding write_block
write_block-writable dev b x = elim (Bool-cases (dev.writable b)) [
  | inl w ↦ ap (λ (d : Device). d.writable) (if_true _ _ w)
  | inr w ↦ ap (λ (d : Device). d.writable) (if_false _ _ w)
]

pub put_chunk-Layout :
    (stale : Block) (b off n : ℕ) (content : Block) (from : ℕ) (fs : Nefs)
    → Layout (put_chunk stale b off n content from fs) fs
unfolding put_chunk
put_chunk-Layout stale b off n content from fs = record {
  block_size = refl;
  inode_table_block = refl;
  total_blocks = refl;
  writable = write_block-writable fs.device b _;
}

pub copy_into-before :
    (buf : Block) (off n : ℕ) (content : Block) (from j : ℕ)
    → j < off
    → copy_into buf off n content from j ≡ buf j
unfolding copy_into
copy_into-before buf off n content from j h =
    if_false {b = leb off j && ltb j (off + n)} _ _ (ground arith)

pub copy_into-inside :
    (buf : Block) (off n : ℕ) (content : Block) (from t : ℕ)
    → t < n
    → copy_into buf off n content from (off + t) ≡ content (from + t)
unfolding copy_into
copy_into-inside buf off n content from t h =
    if_true {b = leb off (off + t) && ltb (off + t) (off + n)} _ _ (ground arith)
    ∙ ap content {x = from + (off + t - off)} {y = from + t} (omega arith)

module _ (bs : ℕ) (stale content : Block) (at n from : ℕ) (inode : Inode) (fs : Nefs)
    (r : ℕ × Inode × Nefs) (placed : Placed (at / bs) inode fs r) where
  -- the device afterwards
  abbrev pub written : Device
  written =
      write_block r.2.device r.0
        (copy_into (read_block r.2.device r.0 stale) (at % bs) n content from)

  same_number : (p : ℕ) → at / bs ≡ p / bs → direct r.1 (p / bs) ≡ r.0
  same_number p e = ap (direct r.1) (sym e) ∙ placed.here

  read_back :
      (p : ℕ)
      → at / bs ≡ p / bs
      → (buf : Block)
      → read_block written (direct r.1 (p / bs)) buf
        ≡ copy_into (read_block r.2.device r.0 stale) (at % bs) n content from
  read_back p e buf =
      ap (λ b. read_block written b buf) (same_number p e)
      ∙ read_block-write_block r.2.device r.0 _ buf (
          Owned-writable r.2 r.1 r.0 placed.good
            (subst (Owned r.2) placed.here (placed.good.owned (at / bs)))
            (λ z. omega (arith, placed.positive)))

  -- The bytes of the part are those that were to be written.
  pub new_byte :
      (t : ℕ) → n ≤ bs - at % bs → t < n → Stored bs written r.1 (at + t) (content (from + t))
  new_byte t h small =
      let (block, place) = same_block bs at t (omega arith) in
      record {
        present = λ z. omega (arith, placed.positive, same_number (at + t) (sym block), z);
        value = λ buf.
            ap (λ (b : Block). b ((at + t) % bs)) (read_back (at + t) (sym block) buf)
            ∙ ap (copy_into (read_block r.2.device r.0 stale) (at % bs) n content from) place
            ∙ copy_into-inside (read_block r.2.device r.0 stale) (at % bs) n content from t small;
      }

  old_here :
      {p v : ℕ}
      → at / bs ≡ p / bs
      → p < at
      → Stored bs fs.device inode p v
      → Stored bs written r.1 p v
  old_here {p} {v} e h s = record {
    present = λ z. omega (arith, placed.positive, same_number p e, z);
    value = λ buf.
        ap (λ (b : Block). b (p % bs)) (read_back p e buf)
        ∙ copy_into-before (read_block r.2.device r.0 stale) (at % bs) n content from (p % bs)
            (earlier_in_block bs p at h (sym e))
        ∙ ap (λ (d : Device). read_block d r.0 stale (p % bs)) placed.device
        ∙ ap (λ b. read_block fs.device b stale (p % bs)) (sym number)
        ∙ s.value stale;
  }
    where
      number : direct inode (p / bs) ≡ r.0
      number = elim placed.kept [
        | inl z ↦ absurd (s.present (ap (direct inode) (sym e) ∙ z))
        | inr k ↦ ap (direct inode) (sym e) ∙ k
      ]

  old_elsewhere :
      {p v : ℕ} → at / bs ≢ p / bs → Stored bs fs.device inode p v → Stored bs written r.1 p v
  old_elsewhere {p} {v} ne s =
      let same = placed.others (p / bs) ne in
      record {
        present = λ z. s.present (sym same ∙ z);
        value = λ buf.
            ap (λ (b : Block). b (p % bs))
              (read_block-write_block_other r.2.device r.0 (direct r.1 (p / bs)) _ buf differ)
            ∙ ap (λ (d : Device). read_block d (direct r.1 (p / bs)) buf (p % bs)) placed.device
            ∙ ap (λ b. read_block fs.device b buf (p % bs)) same
            ∙ s.value buf;
      }
    where
      differ : direct r.1 (p / bs) ≡ r.0 → ⊥
      differ e = omega (
        arith,
        placed.positive,
        placed.here,
        placed.good.distinct (at / bs) (p / bs) ne (placed.here ∙ sym e),
      )

  -- A byte that was in the file in front of the part that is written stays.
  pub old_byte : {p v : ℕ} → p < at → Stored bs fs.device inode p v → Stored bs written r.1 p v
  old_byte {p} {v} h s = elim (ℕ_discrete (at / bs) (p / bs)) [
    | yes e ↦ old_here e h s
    | no ne ↦ old_elsewhere ne s
  ]
