-- ===== src/Fs/Nefs/Words.antt =====
-- Words and inodes in a block.
use e_comos.Prelude.{
  ℕ, zero, suc, ◌+◌, ◌*◌, ◌/◌, ◌%◌, ◌^◌, ◌≤◌, ◌<◌, ◌≡◌, ◌≢◌, refl, ap, ap₂, ◌∙◌, List, [], ◌∷◌,
  ◌++◌, length, length-append, get_or, arith, if_true, if_false, ◌==◌,
}
use e_comos.Fs.Nefs.{Block, Inode, word64, put_word64}
use e_comos.Fs.Nefs.Files.{words_of, put_words, put_inode, words_from, inode_at}

put_word64_self :
    (table : Block) (i w k : ℕ) → k < 8 → put_word64 table i w (8 * i + k) ≡ w / 256 ^ k % 256
unfolding put_word64
put_word64_self table i w k h =
    let low : (8 * i + k) % 8 ≡ k = omega arith in
    if_true {b = (8 * i + k) / 8 == i} _ _ (ground arith) ∙ ap (λ m. w / 256 ^ m % 256) low

put_word64_byte : (table : Block) (i w j : ℕ) → j / 8 ≢ i → put_word64 table i w j ≡ table j
unfolding put_word64
put_word64_byte table i w j ne = if_false {b = j / 8 == i} _ _ (ground arith)

word64-put_word64_mod : (table : Block) (i w : ℕ) → word64 (put_word64 table i w) i ≡ w % 2 ^ 64
unfolding word64
word64-put_word64_mod table i w = omega (
  arith,
  lowest,
  put_word64_self table i w 1 (omega arith),
  put_word64_self table i w 2 (omega arith),
  put_word64_self table i w 3 (omega arith),
  put_word64_self table i w 4 (omega arith),
  put_word64_self table i w 5 (omega arith),
  put_word64_self table i w 6 (omega arith),
  put_word64_self table i w 7 (omega arith),
)
  where
    lowest : put_word64 table i w (8 * i) ≡ w % 256
    lowest =
        ap (put_word64 table i w) {x = 8 * i} {y = 8 * i + 0} (omega arith)
        ∙ put_word64_self table i w 0 (omega arith)
        ∙ ap (λ (m : ℕ). m % 256) {x = w / 1} {y = w} (omega arith)

pub word64-put_word64 : (table : Block) (i w : ℕ) → w < 2 ^ 64 → word64 (put_word64 table i w) i ≡ w
word64-put_word64 table i w h = omega (arith, word64-put_word64_mod table i w)

pub word64-put_word64_other :
    (table : Block) (i w j : ℕ) → i ≢ j → word64 (put_word64 table i w) j ≡ word64 table j
unfolding word64
word64-put_word64_other table i w j ne = omega (
  arith,
  put_word64_byte table i w (8 * j) (λ e. ne (omega arith)),
  put_word64_byte table i w (8 * j + 1) (λ e. ne (omega arith)),
  put_word64_byte table i w (8 * j + 2) (λ e. ne (omega arith)),
  put_word64_byte table i w (8 * j + 3) (λ e. ne (omega arith)),
  put_word64_byte table i w (8 * j + 4) (λ e. ne (omega arith)),
  put_word64_byte table i w (8 * j + 5) (λ e. ne (omega arith)),
  put_word64_byte table i w (8 * j + 6) (λ e. ne (omega arith)),
  put_word64_byte table i w (8 * j + 7) (λ e. ne (omega arith)),
)

-- Every number is a `uint64_t`.
pub data IsWords : List ℕ → Type 0 where
  nil : IsWords []
  cons : {w : ℕ} {ws : List ℕ} → w < 2 ^ 64 → IsWords ws → IsWords (w ∷ ws)

put_words_before :
    (ws : List ℕ) (k : ℕ) (block : Block) (j : ℕ)
    → j < k
    → word64 (put_words ws k block) j ≡ word64 block j
unfolding put_words
put_words_before [] k block j h = refl
put_words_before (w ∷ ws) k block j h =
    put_words_before ws (k + 1) (put_word64 block k w) j (omega arith)
    ∙ word64-put_word64_other block k w j (λ e. omega arith)

put_words_behind :
    (ws : List ℕ) (k : ℕ) (block : Block) (j : ℕ)
    → k + length ws ≤ j
    → word64 (put_words ws k block) j ≡ word64 block j
unfolding put_words
put_words_behind [] k block j h = refl
put_words_behind (w ∷ ws) k block j h =
    put_words_behind ws (k + 1) (put_word64 block k w) j (omega arith)
    ∙ word64-put_word64_other block k w j (λ e. omega arith)

word64-put_words :
    (ws : List ℕ) (k : ℕ) (block : Block) (j : ℕ)
    → j < length ws
    → word64 (put_words ws k block) (k + j) ≡ get_or ws j 0 % 2 ^ 64
unfolding put_words
word64-put_words [] k block j h = absurd (omega arith)
word64-put_words (w ∷ ws) k block zero h =
    ap (word64 (put_words ws (k + 1) (put_word64 block k w))) (omega arith)
    ∙ put_words_before ws (k + 1) (put_word64 block k w) k (omega arith)
    ∙ word64-put_word64_mod block k w
word64-put_words (w ∷ ws) k block (suc j) h =
    ap (word64 (put_words ws (k + 1) (put_word64 block k w))) {x = k + suc j} {y = k + 1 + j}
      (omega arith)
    ∙ word64-put_words ws (k + 1) (put_word64 block k w) j (omega arith)

get_or-words_from :
    (n k : ℕ) (block : Block) (j : ℕ)
    → j < n
    → get_or (words_from n k block) j 0 ≡ word64 block (k + j)
unfolding words_from
get_or-words_from zero k block j h = absurd (omega arith)
get_or-words_from (suc n) k block zero h = ap (word64 block) {x = k} {y = k + 0} (omega arith)
get_or-words_from (suc n) k block (suc j) h =
    get_or-words_from n (k + 1) block j (omega arith)
    ∙ ap (word64 block) {x = k + 1 + j} {y = k + suc j} (omega arith)

get_or-append : (xs ys : List ℕ) (j : ℕ) → j < length xs → get_or (xs ++ ys) j 0 ≡ get_or xs j 0
get_or-append [] ys j h = absurd (omega arith)
get_or-append (x ∷ xs) ys zero h = refl
get_or-append (x ∷ xs) ys (suc j) h = get_or-append xs ys j (omega arith)

get_or-behind : (xs ys : List ℕ) (j : ℕ) → get_or (xs ++ ys) (length xs + j) 0 ≡ get_or ys j 0
get_or-behind [] ys j = ap (λ n. get_or ys n 0) {x = 0 + j} {y = j} (omega arith)
get_or-behind (x ∷ xs) ys j =
    ap (λ n. get_or (x ∷ xs ++ ys) n 0) {x = suc (length xs) + j} {y = suc (length xs + j)}
      (omega arith)
    ∙ get_or-behind xs ys j

behind_six :
    (a b c d e g : ℕ) (xs : List ℕ) (j : ℕ)
    → get_or (a ∷ b ∷ c ∷ d ∷ e ∷ g ∷ xs) (6 + j) 0 ≡ get_or xs j 0
behind_six a b c d e g xs j =
    ap (λ n. get_or (a ∷ b ∷ c ∷ d ∷ e ∷ g ∷ xs) n 0) {x = 6 + j}
      {y = suc (suc (suc (suc (suc (suc j)))))} (omega arith)

words_from_lem :
    (n k : ℕ) (block : Block) (xs : List ℕ)
    → length xs ≡ n
    → ((j : ℕ) → j < n → word64 block (k + j) ≡ get_or xs j 0)
    → words_from n k block ≡ xs
unfolding words_from
words_from_lem zero k block [] l h = refl
words_from_lem zero k block (x ∷ xs) l h = absurd (omega arith)
words_from_lem (suc n) k block [] l h = absurd (omega arith)
words_from_lem (suc n) k block (x ∷ xs) l h =
    ap₂ ◌∷◌ (ap (word64 block) {x = k} {y = k + 0} (omega arith) ∙ h 0 (omega arith)) (
      words_from_lem n (k + 1) block xs (omega arith) (λ j small.
        ap (word64 block) {x = k + 1 + j} {y = k + suc j} (omega arith) ∙ h (suc j) (omega arith)))

-- The fields of the structure have the widths of their types.
pub record FitsInode (inode : Inode) : Type 0 where
  pub type : inode.type < 2 ^ 32
  pub size : inode.size < 2 ^ 64
  pub created : inode.created < 2 ^ 64
  pub modified : inode.modified < 2 ^ 64
  pub accessed : inode.accessed < 2 ^ 64
  pub permissions : inode.permissions < 2 ^ 32
  pub links : inode.links < 2 ^ 32
  pub twelve : length inode.direct_blocks ≡ 12
  pub direct_blocks : IsWords inode.direct_blocks
  pub indirect_block : inode.indirect_block < 2 ^ 64
  pub double_indirect_block : inode.double_indirect_block < 2 ^ 64
  pub triple_indirect_block : inode.triple_indirect_block < 2 ^ 64
  pub crc32_checksum : inode.crc32_checksum < 2 ^ 32

abbrev tail_words : Inode → List ℕ
tail_words inode =
    inode.indirect_block ∷ inode.double_indirect_block ∷ inode.triple_indirect_block
    ∷ inode.crc32_checksum ∷ []

length-words_of : (x : Inode) → length x.direct_blocks ≡ 12 → length (words_of x) ≡ 22
unfolding words_of
length-words_of x twelve = omega (arith, length-append x.direct_blocks (tail_words x), twelve)

-- The words of an inode that was stored.
module _ (block : Block) (i : ℕ) (x : Inode) (twelve : length x.direct_blocks ≡ 12) where
  abbrev stored : Block
  stored = put_words (words_of x) (22 * i) block

  slot : (j : ℕ) → j < 22 → word64 stored (22 * i + j) ≡ get_or (words_of x) j 0 % 2 ^ 64
  slot j h =
      word64-put_words (words_of x) (22 * i) block j (omega (arith, length-words_of x twelve))

  stored_direct :
      (j : ℕ) → j < 12 → word64 stored (22 * i + 6 + j) ≡ get_or x.direct_blocks j 0 % 2 ^ 64
  unfolding words_of
  stored_direct j h =
      ap (word64 stored) {x = 22 * i + 6 + j} {y = 22 * i + (6 + j)} (omega arith)
      ∙ slot (6 + j) (omega arith)
      ∙ ap (λ (n : ℕ). n % 2 ^ 64)
          (behind_six _ _ _ _ _ _ (x.direct_blocks ++ tail_words x) j
            ∙ get_or-append x.direct_blocks (tail_words x) j (omega (arith, twelve)))

  stored_tail :
      (j : ℕ) → j < 4 → word64 stored (22 * i + (18 + j)) ≡ get_or (tail_words x) j 0 % 2 ^ 64
  unfolding words_of
  stored_tail j h =
      ap (λ n. word64 stored (22 * i + n)) {x = 18 + j} {y = 6 + (12 + j)} (omega arith)
      ∙ slot (6 + (12 + j)) (omega arith)
      ∙ ap (λ (n : ℕ). n % 2 ^ 64)
          (behind_six _ _ _ _ _ _ (x.direct_blocks ++ tail_words x) (12 + j)
            ∙ ap (λ k. get_or (x.direct_blocks ++ tail_words x) k 0) {x = 12 + j}
                {y = length x.direct_blocks + j} (omega (arith, twelve))
            ∙ get_or-behind x.direct_blocks (tail_words x) j)

  -- The size and the direct blocks, whatever the other fields are.
  pub size-put_inode : (inode_at (put_inode block i x) i).size ≡ x.size % 2 ^ 64
  unfolding inode_at put_inode words_of
  size-put_inode = slot 1 (omega arith)

  pub direct-put_inode :
      (j : ℕ)
      → j < 12
      → get_or (inode_at (put_inode block i x) i).direct_blocks j 0
        ≡ get_or x.direct_blocks j 0 % 2 ^ 64
  unfolding inode_at put_inode
  direct-put_inode j h = get_or-words_from 12 (22 * i + 6) stored j h ∙ stored_direct j h

low : (n : ℕ) → n < 2 ^ 32 → n % 2 ^ 64 % 2 ^ 32 ≡ n
low n h = omega arith

low_half : (m n : ℕ) → m < 2 ^ 32 → n < 2 ^ 32 → (m + 2 ^ 32 * n) % 2 ^ 64 % 2 ^ 32 ≡ m
low_half m n h l = omega arith

high_half : (m n : ℕ) → m < 2 ^ 32 → n < 2 ^ 32 → (m + 2 ^ 32 * n) % 2 ^ 64 / 2 ^ 32 ≡ n
high_half m n h l = omega arith

IsWords_lem : {ws : List ℕ} → IsWords ws → (j : ℕ) → get_or ws j 0 % 2 ^ 64 ≡ get_or ws j 0
IsWords_lem nil j = refl
IsWords_lem (cons small more) zero = omega arith
IsWords_lem (cons small more) (suc j) = IsWords_lem more j

-- An inode that is stored in a block is read back from it.
pub inode_at-put_inode :
    (block : Block) (i : ℕ) (x : Inode) → FitsInode x → inode_at (put_inode block i x) i ≡ x
unfolding inode_at put_inode words_of
inode_at-put_inode block i x f = λ t. record {
  type = (head ∙ low x.type f.type) t;
  size = (slot block i x f.twelve 1 (omega arith) ∙ word_lem f.size) t;
  created = (slot block i x f.twelve 2 (omega arith) ∙ word_lem f.created) t;
  modified = (slot block i x f.twelve 3 (omega arith) ∙ word_lem f.modified) t;
  accessed = (slot block i x f.twelve 4 (omega arith) ∙ word_lem f.accessed) t;
  permissions =
      (ap (λ (n : ℕ). n % 2 ^ 32) (slot block i x f.twelve 5 (omega arith))
          ∙ low_half x.permissions x.links f.permissions f.links)
        t;
  links =
      (ap (λ (n : ℕ). n / 2 ^ 32) (slot block i x f.twelve 5 (omega arith))
          ∙ high_half x.permissions x.links f.permissions f.links)
        t;
  direct_blocks =
      words_from_lem 12 (22 * i + 6) _ x.direct_blocks f.twelve
        (λ j h. stored_direct block i x f.twelve j h ∙ IsWords_lem f.direct_blocks j) t;
  indirect_block = (stored_tail block i x f.twelve 0 (omega arith) ∙ word_lem f.indirect_block) t;
  double_indirect_block =
      (stored_tail block i x f.twelve 1 (omega arith) ∙ word_lem f.double_indirect_block) t;
  triple_indirect_block =
      (stored_tail block i x f.twelve 2 (omega arith) ∙ word_lem f.triple_indirect_block) t;
  crc32_checksum =
      (ap (λ (n : ℕ). n % 2 ^ 32) (stored_tail block i x f.twelve 3 (omega arith))
          ∙ low x.crc32_checksum f.crc32_checksum)
        t;
}
  where
    word_lem : {n : ℕ} → n < 2 ^ 64 → n % 2 ^ 64 ≡ n
    word_lem h = omega arith

    head : word64 (stored block i x f.twelve) (22 * i) % 2 ^ 32 ≡ x.type % 2 ^ 64 % 2 ^ 32
    head =
        ap (λ (k : ℕ). word64 (stored block i x f.twelve) k % 2 ^ 32) {x = 22 * i} {y = 22 * i + 0}
          (omega arith)
        ∙ ap (λ (n : ℕ). n % 2 ^ 32) (slot block i x f.twelve 0 (omega arith))
