-- ===== src/Fs/Wm2ud/Tests.antt =====
-- A table of four entries, two of which collide.
use e_comos.Prelude.{
  ℕ, true, ltb, zero, suc, ◌≡◌, ◌≢◌, ◌⊎◌, inl, refl, sym, ◌∙◌, none, some, [], ◌∷◌, length, arith,
}
use e_comos.Prelude.Int.{pos, negsuc}
use e_comos.Fs.Wm2ud.{
  PageEntry, Wm2ud, empty_entry, hash_addr, uses, probe, find_entry, wm2ud_format, wm2ud_write_page,
  wm2ud_read_page, wm2ud_free_page, lru_touch, wm2ud_magic, wm2ud_page_size,
}
use e_comos.Fs.Wm2ud.Probe.{AllTaken}
use e_comos.Fs.Wm2ud.Store.{HasBlock, block_at, page_read}
use e_comos.Fs.Wm2ud.Reads.{
  Distinct, wm2ud_read_page-wm2ud_write_page, wm2ud_read_page_other, wm2ud_write_page_ends,
}
use e_comos.Fs.Wm2ud.Free.{wm2ud_free_page_loses}
use e_comos.Fs.Wm2ud.Valid.{IsValid}
use e_comos.Fs.Wm2ud.Valid.Runs.{Reaches, reaches-IsValid}

abbrev entry : ℕ → ℕ → ℕ → PageEntry
entry addr block time = record {
  virtual_addr = addr;
  physical_block = block;
  compressed_size = 0;
  flags = 0;
  last_access = time;
}

-- Both pages have the slot 1.
abbrev swap : Wm2ud
swap = record {
  total_blocks = 10;
  blocks = λ b. some (b ∷ []);
  writable = λ b. ltb b 10;
  superblock = record {
    magic = wm2ud_magic;
    version = 1;
    page_size = wm2ud_page_size;
    total_pages = 9;
    free_pages = 7;
    compression_enabled = 0;
    encryption_enabled = 0;
  };
  page_table = empty_entry ∷ entry 4096 3 50 ∷ entry 20480 4 40 ∷ empty_entry ∷ [];
}

found_first : find_entry swap.page_table 4096 ≡ some 1
unfolding find_entry probe hash_addr
found_first = refl

found_second : find_entry swap.page_table 20480 ≡ some 2
unfolding find_entry probe hash_addr
found_second = refl

-- a third page with the slot 1
found_free : find_entry swap.page_table 36864 ≡ some 3
unfolding find_entry probe hash_addr
found_free = refl

has_block : HasBlock swap
unfolding uses
has_block = (1, omega arith, omega arith, refl)

swap-Distinct : Distinct swap
swap-Distinct (suc zero) (suc zero) used same = refl
swap-Distinct (suc (suc zero)) (suc (suc zero)) used same = refl
swap-Distinct zero j used same = absurd (used refl)
swap-Distinct (suc (suc (suc zero))) j used same = absurd (used refl)
swap-Distinct (suc (suc (suc (suc i)))) j used same = absurd (used refl)
swap-Distinct (suc zero) zero used same = absurd (omega arith)
swap-Distinct (suc zero) (suc (suc zero)) used same = absurd (omega arith)
swap-Distinct (suc zero) (suc (suc (suc zero))) used same = absurd (omega arith)
swap-Distinct (suc zero) (suc (suc (suc (suc j)))) used same = absurd (omega arith)
swap-Distinct (suc (suc zero)) zero used same = absurd (omega arith)
swap-Distinct (suc (suc zero)) (suc zero) used same = absurd (omega arith)
swap-Distinct (suc (suc zero)) (suc (suc (suc zero))) used same = absurd (omega arith)
swap-Distinct (suc (suc zero)) (suc (suc (suc (suc j)))) used same = absurd (omega arith)

wm2ud_read_page-wm2ud_write_page_example :
    (after : Wm2ud) × (wm2ud_write_page swap 36864 (7 ∷ []) 60 ≡ some (pos 0, after))
    × (page_read (wm2ud_read_page after 36864 61) ≡ some (7 ∷ []))
wm2ud_read_page-wm2ud_write_page_example =
    wm2ud_read_page-wm2ud_write_page swap 36864 3 (7 ∷ []) 60 61 found_free (inl has_block)
      (omega arith) (λ b one below. ground arith)

wm2ud_read_page_other_example :
    (after : Wm2ud) × (wm2ud_write_page swap 36864 (7 ∷ []) 60 ≡ some (pos 0, after))
    × (page_read (wm2ud_read_page after 20480 61) ≡ page_read (wm2ud_read_page swap 20480 61))
wm2ud_read_page_other_example =
    wm2ud_read_page_other swap 36864 3 20480 2 (7 ∷ []) 60 61 swap-Distinct found_free
      (inl has_block) (omega arith) found_second (omega arith)

wm2ud_write_page_ends_example :
    ((after : Wm2ud) × (wm2ud_write_page swap 36864 (7 ∷ []) 60 ≡ some (pos 0, after)))
    ⊎ (AllTaken 36864 swap.page_table
        × ((n : ℕ)
            → probe n swap.page_table 36864 (hash_addr 36864 (length swap.page_table)) ≡ none))
wm2ud_write_page_ends_example = wm2ud_write_page_ends swap 36864 (7 ∷ []) 60 (omega arith)

home_first : some (hash_addr 4096 4) ≡ some 1
unfolding hash_addr
home_first = refl

same_home : hash_addr 4096 4 ≡ hash_addr 20480 4
unfolding hash_addr
same_home = refl

first_used : block_at swap (hash_addr 4096 4) ≢ 0
unfolding hash_addr
first_used = omega arith

wm2ud_free_page_loses_example :
    (after : Wm2ud) × (wm2ud_free_page swap 4096 ≡ some (pos 0, after))
    × (wm2ud_read_page swap 20480 61 ≡ some (pos 0, some (4 ∷ []), lru_touch swap 2 61))
    × (wm2ud_read_page after 20480 61 ≡ some (negsuc 0, none, after))
wm2ud_free_page_loses_example =
    wm2ud_free_page_loses swap 4096 20480 2 61 (omega arith) same_home
      (found_first ∙ sym home_first) first_used found_second (omega arith)

reaches-IsValid_example : IsValid (wm2ud_format 0 (λ b. none) (λ b. true))
reaches-IsValid_example =
    reaches-IsValid (wm2ud_format 0 (λ b. none) (λ b. true))
      (Reaches.formatted 0 (λ b. none) (λ b. true) (omega arith))
