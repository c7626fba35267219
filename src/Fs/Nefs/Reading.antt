-- ===== src/Fs/Nefs/Reading.antt =====
-- The loop of `nefs_read_file` on the direct blocks, and what it reads of what was written.
use mathlib.Core.Path.{subst}
use e_comos.Prelude.{
  ℕ, zero, suc, ◌+◌, ◌-◌, ◌*◌, ◌/◌, ◌%◌, ◌^◌, ◌≤◌, ◌<◌, ◌≡◌, refl, sym, ap, ◌∙◌, false, Option,
  some, ltb, ◌==◌, if◌then◌else◌, if_true, if_false, arith, dec_lt,
}
use e_comos.Fs.Nefs.{Block, Inode, Nefs, read_block, direct_block, get_block_at_offset}
use e_comos.Fs.Nefs.Files.{copy_into, chunk, read_loop}
use e_comos.Fs.Nefs.Lookup.{get_block-direct}
use e_comos.Fs.Nefs.Direct.{same_block, direct}
use e_comos.Fs.Nefs.Chunk.{Stored, copy_into-before, copy_into-inside}
use e_comos.Fs.Nefs.Writing.{chunk-bounds, direct_index}

-- The loop ends with the bytes in front of the destination, and changes neither the file nor the file system.
pub data ReadBack (content : Block) (len : ℕ) (inode : Inode) (fs : Nefs)
    : Option (ℕ × Block × Inode × Nefs) → Type 0 where
  done :
      (dest : Block)
      → ((k : ℕ) → k < len → dest k ≡ content k)
      → ReadBack content len inode fs (some (len, dest, inode, fs))

-- a round of `read_loop` at place `at`, after the look-up
abbrev read_round :
    ℕ
    → Block
    → Block
    → ℕ
    → ℕ
    → ℕ
    → Inode
    → Nefs
    → ℕ
    → ℕ × Inode × Nefs
    → Option (ℕ × Block × Inode × Nefs)
read_round fuel stale dest len offset read inode fs at r =
    let bs = fs.superblock.block_size in
    let n = chunk bs at (len - read) in
    let buf = read_block r.2.device r.0 stale in
    let rest =
      read_loop fuel stale (copy_into dest read n buf (at % bs)) len offset (read + n) r.1 r.2 in
    if ltb read len
    then (if r.0 == 0 then some (read, dest, r.1, r.2) else rest)
    else some (read, dest, inode, fs)

read_loop-suc :
    (fuel : ℕ) (stale dest : Block) (len offset read : ℕ) (inode : Inode) (fs : Nefs)
    → read_loop (suc fuel) stale dest len offset read inode fs
      ≡ read_round fuel stale dest len offset read inode fs
          ((offset + read) % 2 ^ 64)
          (get_block_at_offset fs inode ((offset + read) % 2 ^ 64) false)
unfolding read_loop
read_loop-suc fuel stale dest len offset read inode fs = refl

direct_block-false :
    (i : ℕ) (inode : Inode) (fs : Nefs)
    → direct_block false i inode fs ≡ (direct inode i, inode, fs)
unfolding direct_block
direct_block-false i inode fs = refl

read_loop-direct :
    (fuel : ℕ) (stale dest : Block) (len offset read : ℕ) (inode : Inode) (fs : Nefs)
    → offset + read < 2 ^ 64
    → (offset + read) / fs.superblock.block_size < 12
    → read_loop (suc fuel) stale dest len offset read inode fs
      ≡ read_round fuel stale dest len offset read inode fs
          (offset + read)
          (direct inode ((offset + read) / fs.superblock.block_size), inode, fs)
read_loop-direct fuel stale dest len offset read inode fs small near =
    read_loop-suc fuel stale dest len offset read inode fs
    ∙ ap
        (λ at.
          read_round fuel stale dest len offset read inode fs at
            (get_block_at_offset fs inode at false))
        {x = (offset + read) % 2 ^ 64} {y = offset + read} (omega arith)
    ∙ ap (read_round fuel stale dest len offset read inode fs (offset + read)) (
        get_block-direct fs inode (offset + read) false near
        ∙ direct_block-false ((offset + read) / fs.superblock.block_size) inode fs)

module _ (stale content : Block) (len offset : ℕ) (inode : Inode) (fs : Nefs)
    (stored : (k : ℕ)
      → k < len
      → Stored fs.superblock.block_size fs.device inode (offset + k) (content k)) where
  -- The bytes below `read + n`, after a round.
  read_next :
      (dest : Block) (read n : ℕ)
      → ((k : ℕ) → k < read → dest k ≡ content k)
      → read + n ≤ len
      → n ≤ fs.superblock.block_size - (offset + read) % fs.superblock.block_size
      → (k : ℕ) → k < read + n
      → copy_into dest read n
          (read_block fs.device (direct inode ((offset + read) / fs.superblock.block_size)) stale)
          ((offset + read) % fs.superblock.block_size)
          k
        ≡ content k
  read_next dest read n before le fits k h =
      let bs = fs.superblock.block_size in
      let at = offset + read in
      let buf = read_block fs.device (direct inode (at / bs)) stale in
      elim (dec_lt k read) [
        | yes old ↦ copy_into-before dest read n buf (at % bs) k old ∙ before k old
        | no new ↦
            let t = k - read in
            let (block, place) = same_block bs at t (omega arith) in
            ap (copy_into dest read n buf (at % bs)) {x = k} {y = read + t} (omega arith)
            ∙ copy_into-inside dest read n buf (at % bs) t (omega arith)
            ∙ ap buf (sym place)
            ∙ ap (λ (i : ℕ). read_block fs.device (direct inode i) stale ((at + t) % bs))
                (sym block)
            ∙ ap (λ (p : ℕ). read_block fs.device (direct inode (p / bs)) stale (p % bs))
                {x = at + t} {y = offset + k} (omega arith)
            ∙ (stored k (omega arith)).value stale
      ]

  pub read_loop-ReadBack :
      (fuel : ℕ) (dest : Block) (read : ℕ)
      → 1 ≤ fs.superblock.block_size
      → offset + len ≤ 12 * fs.superblock.block_size
      → offset + len < 2 ^ 64
      → read ≤ len
      → len - read < fuel
      → ((k : ℕ) → k < read → dest k ≡ content k)
      → ReadBack content len inode fs (read_loop fuel stale dest len offset read inode fs)
  read_loop-ReadBack zero dest read one room fits le enough before = absurd (omega arith)
  read_loop-ReadBack (suc fuel) dest read one room fits le enough before = elim (dec_lt read len) [
    | yes more ↦
        let bs = fs.superblock.block_size in
        let at = offset + read in
        let near = direct_index bs at one (omega arith) in
        let n = chunk bs at (len - read) in
        let (least, inside, most) = chunk-bounds bs at (len - read) one (omega arith) in
        let present = (stored read more).present in
        let next =
          read_loop-ReadBack fuel
            (copy_into dest read n (read_block fs.device (direct inode (at / bs)) stale) (at % bs))
            (read + n) one room fits (omega arith) (omega arith)
            (read_next dest read n before (omega arith) inside) in
        subst (ReadBack content len inode fs)
          (sym (
            read_loop-direct fuel stale dest len offset read inode fs (omega arith) near
            ∙ if_true {b = ltb read len} _ _ (ground arith)
            ∙ if_false {b = direct inode (at / bs) == 0} _ _ (ground (arith, present))))
          next
    | no all ↦
        subst (ReadBack content len inode fs)
          (sym (
            read_loop-suc fuel stale dest len offset read inode fs
            ∙ if_false {b = ltb read len} _ _ (ground arith)
            ∙ ap (λ (w : ℕ). some (w, dest, inode, fs)) {x = read} {y = len} (omega arith)))
          (ReadBack.done dest (λ k h. before k (omega arith)))
  ]
