-- ===== src/Fs/Nefs/Writing.antt =====
-- The loops of `nefs_write_file` and `nefs_read_file` on the direct blocks.
use mathlib.Core.Path.{subst}
use native.Mathlib.Nat.{mod-lt, div-lt_iff_lt-mul}
use e_comos.Prelude.{
  ℕ, zero, suc, ◌+◌, ◌-◌, ◌*◌, ◌/◌, ◌%◌, ◌^◌, ◌≤◌, ◌<◌, ◌≡◌, refl, sym, ap, ◌∙◌, true, Option, some,
  ltb, ◌==◌, if◌then◌else◌, if_true, if_false, arith, dec_lt,
}
use e_comos.Fs.Nefs.{Block, Inode, Nefs, direct_block, get_block_at_offset}
use e_comos.Fs.Nefs.Files.{chunk, put_chunk, write_loop}
use e_comos.Fs.Nefs.Lookup.{get_block-direct}
use e_comos.Fs.Nefs.Direct.{Good, Layout, Layout-refl, Layout-trans, Placed, direct_block-Placed}
use e_comos.Fs.Nefs.Chunk.{Stored, put_chunk-Good, put_chunk-Layout, new_byte, old_byte}

-- How much of a block one round takes.
pub chunk-bounds :
    (bs at left : ℕ)
    → 1 ≤ bs
    → 1 ≤ left
    → (1 ≤ chunk bs at left) × (chunk bs at left ≤ bs - at % bs) × (chunk bs at left ≤ left)
unfolding chunk
chunk-bounds bs at left h l =
    let inside = mod-lt at {m = bs} (omega arith) in
    (omega (arith, inside), omega arith, omega arith)

pub direct_index : (bs at : ℕ) → 1 ≤ bs → at < 12 * bs → at / bs < 12
direct_index bs at h small = (div-lt_iff_lt-mul {k = bs} {x = at} {y = 12} (omega arith)).1 small

-- All of the bytes from place `offset` on were written.
pub data Wrote (content : Block) (len offset size : ℕ) (before : Nefs)
    : Option (ℕ × Inode × Nefs) → Type 0 where
  done :
      {inode : Inode} {fs : Nefs}
      → Good fs inode
      → Layout fs before
      → inode.size ≡ size
      → ((k : ℕ)
          → k < len
          → Stored fs.superblock.block_size fs.device inode (offset + k) (content k))
      → Wrote content len offset size before (some (len, inode, fs))

-- a round of `write_loop` at place `at`, after the look-up
abbrev write_round :
    ℕ → Block → Block → ℕ → ℕ → ℕ → Inode → Nefs → ℕ → ℕ × Inode × Nefs → Option (ℕ × Inode × Nefs)
write_round fuel stale content len offset written inode fs at r =
    let bs = fs.superblock.block_size in
    let n = chunk bs at (len - written) in
    let rest =
      write_loop fuel stale content len offset (written + n) r.1
        (put_chunk stale r.0 (at % bs) n content written r.2) in
    if ltb written len
    then (if r.0 == 0 then some (written, r.1, r.2) else rest)
    else some (written, inode, fs)

write_loop-suc :
    (fuel : ℕ) (stale content : Block) (len offset written : ℕ) (inode : Inode) (fs : Nefs)
    → write_loop (suc fuel) stale content len offset written inode fs
      ≡ write_round fuel stale content len offset written inode fs
          ((offset + written) % 2 ^ 64)
          (get_block_at_offset fs inode ((offset + written) % 2 ^ 64) true)
unfolding write_loop
write_loop-suc fuel stale content len offset written inode fs = refl

write_loop-direct :
    (fuel : ℕ) (stale content : Block) (len offset written : ℕ) (inode : Inode) (fs : Nefs)
    → offset + written < 2 ^ 64
    → (offset + written) / fs.superblock.block_size < 12
    → write_loop (suc fuel) stale content len offset written inode fs
      ≡ write_round fuel stale content len offset written inode fs
          (offset + written)
          (direct_block true ((offset + written) / fs.superblock.block_size) inode fs)
write_loop-direct fuel stale content len offset written inode fs small near =
    write_loop-suc fuel stale content len offset written inode fs
    ∙ ap
        (λ at.
          write_round fuel stale content len offset written inode fs at
            (get_block_at_offset fs inode at true))
        {x = (offset + written) % 2 ^ 64} {y = offset + written} (omega arith)
    ∙ ap (write_round fuel stale content len offset written inode fs (offset + written))
        (get_block-direct fs inode (offset + written) true near)

-- The bytes below `written + n`, after a round.
module _ (stale content : Block) (offset written n : ℕ) (inode : Inode) (fs : Nefs)
    (r : ℕ × Inode × Nefs)
    (placed : Placed ((offset + written) / fs.superblock.block_size) inode fs r) where
  Stored-next :
      ((k : ℕ)
        → k < written
        → Stored fs.superblock.block_size fs.device inode (offset + k) (content k))
      → n ≤ fs.superblock.block_size - (offset + written) % fs.superblock.block_size
      → (k : ℕ) → k < written + n
      → Stored fs.superblock.block_size
          (put_chunk stale r.0
            ((offset + written) % fs.superblock.block_size)
            n
            content
            written
            r.2).device
          r.1
          (offset + k)
          (content k)
  unfolding put_chunk
  Stored-next before fits k h =
      let bs = fs.superblock.block_size in
      let at = offset + written in
      let dev = (put_chunk stale r.0 (at % bs) n content written r.2).device in
      elim (dec_lt k written) [
        | yes old ↦
            old_byte bs stale content at n written inode fs r placed (omega arith) (before k old)
        | no new ↦
            let t = k - written in
            let here : at + t ≡ offset + k = omega arith in
            let same : written + t ≡ k = omega arith in
            subst (λ p. Stored bs dev r.1 p (content k)) here
              (subst (λ (j : ℕ). Stored bs dev r.1 (at + t) (content j)) same
                (new_byte bs stale content at n written inode fs r placed t fits (omega arith)))
      ]

Wrote-Layout :
    {content : Block} {len offset size1 size : ℕ} {fs1 fs : Nefs} {r : Option (ℕ × Inode × Nefs)}
    → Layout fs1 fs
    → size1 ≡ size
    → Wrote content len offset size1 fs1 r
    → Wrote content len offset size fs r
Wrote-Layout a e (Wrote.done g l z stored) = Wrote.done g (Layout-trans l a) (z ∙ e) stored

-- The loop of `nefs_write_file` ends, and has written all the bytes.
pub write_loop-Wrote :
    (fuel : ℕ) (stale content : Block) (len offset written : ℕ) (inode : Inode) (fs : Nefs)
    → Good fs inode
    → 1 ≤ fs.superblock.block_size
    → offset + len ≤ 12 * fs.superblock.block_size
    → offset + len < 2 ^ 64
    → written ≤ len
    → len - written < fuel
    → ((k : ℕ)
        → k < written
        → Stored fs.superblock.block_size fs.device inode (offset + k) (content k))
    → Wrote content len offset inode.size fs
        (write_loop fuel stale content len offset written inode fs)
write_loop-Wrote zero stale content len offset written inode fs g one room fits le enough before =
    absurd (omega arith)
write_loop-Wrote (suc fuel) stale content len offset written inode fs g one room fits le enough
      before =
    elim (dec_lt written len) [
      | yes more ↦
          let bs = fs.superblock.block_size in
          let at = offset + written in
          let near = direct_index bs at one (omega arith) in
          let r = direct_block true (at / bs) inode fs in
          let placed = direct_block-Placed (at / bs) inode fs g near in
          let n = chunk bs at (len - written) in
          let (least, inside, most) = chunk-bounds bs at (len - written) one (omega arith) in
          let kept =
            Layout-trans (put_chunk-Layout stale r.0 (at % bs) n content written r.2)
              placed.layout in
          let fs1 = put_chunk stale r.0 (at % bs) n content written r.2 in
          let next =
            write_loop-Wrote fuel stale content len offset (written + n) r.1 fs1
              (put_chunk-Good stale r.0 (at % bs) n content written r.2 r.1 placed.good)
              (omega (arith, kept.block_size)) (omega (arith, kept.block_size)) fits (omega arith)
              (omega arith)
              (λ k h.
                subst (λ size. Stored size fs1.device r.1 (offset + k) (content k))
                  (sym kept.block_size)
                  (Stored-next stale content offset written n inode fs r placed before inside k
                    h)) in
          subst (Wrote content len offset inode.size fs)
            (sym (
              write_loop-direct fuel stale content len offset written inode fs (omega arith) near
              ∙ if_true {b = ltb written len} _ _ (ground arith)
              ∙ if_false {b = r.0 == 0} _ _ (ground (arith, placed.positive))))
            (Wrote-Layout kept placed.size next)
      | no all ↦
          subst (Wrote content len offset inode.size fs)
            (sym (
              write_loop-suc fuel stale content len offset written inode fs
              ∙ if_false {b = ltb written len} _ _ (ground arith)
              ∙ ap (λ (w : ℕ). some (w, inode, fs)) {x = written} {y = len} (omega arith)))
            (Wrote.done g (Layout-refl fs) refl (λ k h. before k (omega arith)))
    ]
