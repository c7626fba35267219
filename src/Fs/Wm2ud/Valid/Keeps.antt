-- ===== src/Fs/Wm2ud/Valid/Keeps.antt =====
-- The steps of the operations keep the invariant.
use mathlib.Core.Path.{subst}
use e_comos.Prelude.{
  ℕ, suc, ◌+◌, ◌-◌, ◌%◌, ◌^◌, ◌≤◌, ◌<◌, ◌≡◌, ◌≢◌, refl, ap, sym, ◌∙◌, length, set, arith,
  set_beyond, dec_lt,
}
use e_comos.Fs.Wm2ud.{
  Page, PageEntry, Wm2ud, entry_at, fill_entry, store_page, lru_touch, release_entry,
}
use e_comos.Fs.Wm2ud.Evict.{block_of}
use e_comos.Fs.Wm2ud.Valid.{IsTable, IsValid, set-IsTable, count_used, count_used-set, one_if}

pub one_if-used : {n : ℕ} → n ≢ 0 → one_if n ≡ 1
one_if-used ne = ground arith

pub one_if-empty : {n : ℕ} → n ≡ 0 → one_if n ≡ 0
one_if-empty e = ground arith

pub lru_touch-IsValid :
    (swap : Wm2ud) (idx now : ℕ)
    → now < 2 ^ 64 - 1
    → IsValid swap
    → IsValid (lru_touch swap idx now)
unfolding lru_touch
lru_touch-IsValid swap idx now h v = elim (dec_lt idx (length swap.page_table)) [
  | yes inside ↦ record {
    table =
        set-IsTable swap.total_blocks swap.page_table idx e v.table inside (v.table.below idx) h
          (λ j ne used same. ne (v.table.distinct j idx (λ z. used (sym same ∙ z)) same));
    counted =
        ap (λ n. (swap.superblock.free_pages + n) % 2 ^ 64)
          (omega (arith, count_used-set swap.page_table idx e inside))
        ∙ v.counted;
    several = v.several;
  }
  | no outside ↦
      subst (λ t. IsValid (record swap { page_table = t }))
        (sym (set_beyond swap.page_table idx e (omega arith))) v
]
  where
    e : PageEntry
    e = record (entry_at swap.page_table idx) { last_access = now }

pub store_page-IsValid :
    (swap : Wm2ud) (idx : ℕ) (page : Page) → IsValid swap → IsValid (store_page swap idx page)
unfolding store_page
store_page-IsValid swap idx page v = record {
  table = v.table;
  counted = v.counted;
  several = v.several;
}

pub release_entry-IsValid :
    (swap : Wm2ud) (idx : ℕ)
    → idx < length swap.page_table
    → block_of swap.page_table idx ≢ 0
    → IsValid swap
    → IsValid (release_entry swap idx)
release_entry-IsValid swap idx inside used v = record {
  table =
      set-IsTable swap.total_blocks swap.page_table idx e v.table inside (omega (arith, v.several))
        (v.table.early idx) (λ j ne used same. used refl);
  counted =
      wrapped swap.superblock.free_pages (count_used (set swap.page_table idx e))
      ∙ ap (λ n. (swap.superblock.free_pages + n) % 2 ^ 64) one_less
      ∙ v.counted;
  several = v.several;
}
  where
    e : PageEntry
    e = record (entry_at swap.page_table idx) { physical_block = 0; virtual_addr = 0 }

    wrapped : (f n : ℕ) → ((f + 1) % 2 ^ 64 + n) % 2 ^ 64 ≡ (f + suc n) % 2 ^ 64
    wrapped f n = omega arith

    one_less : suc (count_used (set swap.page_table idx e)) ≡ count_used swap.page_table
    one_less = omega (arith, count_used-set swap.page_table idx e inside, one_if-used used)

pub fill_entry-IsValid :
    (swap : Wm2ud) (addr idx blk : ℕ)
    → IsTable swap.total_blocks swap.page_table
    → 1 < swap.total_blocks
    → idx < length swap.page_table
    → block_of swap.page_table idx ≡ 0
    → 1 ≤ blk
    → blk < swap.total_blocks
    → ((j : ℕ) → block_of swap.page_table j ≢ blk)
    → (swap.superblock.free_pages + suc (count_used swap.page_table)) % 2 ^ 64
      ≡ (swap.total_blocks - 1) % 2 ^ 64
    → IsValid (fill_entry addr idx blk swap)
fill_entry-IsValid swap addr idx blk v several inside empty one below unused counted = record {
  table =
      set-IsTable swap.total_blocks swap.page_table idx e v inside below (v.early idx)
        (λ j ne used. unused j);
  counted = ap (λ n. (swap.superblock.free_pages + n) % 2 ^ 64) one_more ∙ counted;
  several = several;
}
  where
    e : PageEntry
    e = record (entry_at swap.page_table idx) { physical_block = blk; virtual_addr = addr }

    one_more : count_used (set swap.page_table idx e) ≡ suc (count_used swap.page_table)
    one_more = omega (
      arith,
      count_used-set swap.page_table idx e inside,
      one_if-empty empty,
      one_if-used {n = blk} (omega arith),
    )
