-- ===== src/Fs/Wm2ud/Free.antt =====
-- What freeing a page does to the pages behind it.
use e_comos.Prelude.{
  ℕ, zero, suc, ◌<◌, ◌≡◌, ◌≢◌, refl, ap, sym, ◌∙◌, true, none, some, List, length, set, arith,
  if_true, if_false, get_or-set_self, length-set,
}
use e_comos.Prelude.Int.{pos, negsuc}
use e_comos.Fs.Wm2ud.{
  PageEntry, Wm2ud, empty_entry, entry_at, stops, probe, find_entry, hash_addr, read_at,
  wm2ud_read_page, release_entry, free_at, lru_touch, wm2ud_free_page,
}
use e_comos.Fs.Wm2ud.Probe.{probe-stays, probe_now, find_entry-IsStop}
use e_comos.Fs.Wm2ud.Store.{block_at, not_zero, is_zero}

-- the entry that is left
abbrev freed_entry : PageEntry → PageEntry
freed_entry e = record e { physical_block = 0; virtual_addr = 0 }

free_page-found :
    (swap : Wm2ud) (addr : ℕ) {i : ℕ}
    → find_entry swap.page_table addr ≡ some i
    → block_at swap i ≢ 0
    → wm2ud_free_page swap addr ≡ some (pos 0, release_entry swap i)
unfolding wm2ud_free_page
free_page-found swap addr found used = ap (free_at swap) found ∙ if_false _ _ (not_zero used)

-- A read that stops at an entry with a block reads it.
read_page-found :
    (swap : Wm2ud) (addr now : ℕ) {i : ℕ}
    → find_entry swap.page_table addr ≡ some i
    → block_at swap i ≢ 0
    → wm2ud_read_page swap addr now
      ≡ some (pos 0, swap.blocks (block_at swap i), lru_touch swap i now)
unfolding wm2ud_read_page
read_page-found swap addr now found used =
    ap (read_at swap now) found ∙ if_false _ _ (not_zero used)

-- A read that stops at an entry without a block fails.
read_page-empty :
    (swap : Wm2ud) (addr now : ℕ) {i : ℕ}
    → find_entry swap.page_table addr ≡ some i
    → block_at swap i ≡ 0
    → wm2ud_read_page swap addr now ≡ some (negsuc 0, none, swap)
unfolding wm2ud_read_page
read_page-empty swap addr now found empty =
    ap (read_at swap now) found ∙ if_true _ _ (is_zero empty)

freed_block :
    (swap : Wm2ud) (i : ℕ) → i < length swap.page_table → block_at (release_entry swap i) i ≡ 0
freed_block swap i inside =
    ap (λ (e : PageEntry). e.physical_block)
      (get_or-set_self swap.page_table i (freed_entry (entry_at swap.page_table i)) empty_entry
        inside)

-- If the page is in the table, `wm2ud_free_page` returns 0, and `wm2ud_read_page` then returns -1 for it.
pub wm2ud_read_page-wm2ud_free_page :
    (swap : Wm2ud) (addr i later : ℕ)
    → find_entry swap.page_table addr ≡ some i
    → block_at swap i ≢ 0
    → (after : Wm2ud) × (wm2ud_free_page swap addr ≡ some (pos 0, after))
      × (wm2ud_read_page after addr later ≡ some (negsuc 0, none, after))
unfolding find_entry
wm2ud_read_page-wm2ud_free_page swap addr i later found used =
    let inside = (find_entry-IsStop swap.page_table addr found).1 in
    let e = freed_entry (entry_at swap.page_table i) in
    (
      release_entry swap i,
      free_page-found swap addr found used,
      read_page-empty (release_entry swap i) addr later
          (ap (λ n. probe n (set swap.page_table i e) addr (hash_addr addr n))
              (length-set swap.page_table i e)
            ∙ probe-stays (length swap.page_table) swap.page_table addr _ i e refl inside found)
          (freed_block swap i inside),
    )

-- A search stops at once where the entry at its start was freed.
home_stop :
    (n : ℕ) (table : List PageEntry) (addr home : ℕ) (e : PageEntry)
    → stops addr e ≡ true
    → home < length table
    → home < n
    → probe n (set table home e) addr home ≡ some home
home_stop zero table addr home e on inside h = absurd (omega arith)
home_stop (suc n) table addr home e on inside h =
    probe_now n (set table home e) addr home
      (ap (stops addr) (get_or-set_self table home e empty_entry inside) ∙ on)

-- If two pages in the table have the same hash, and the first stands in the slot of that hash, then after
-- freeing the first `wm2ud_read_page` returns -1 for the second, which was not freed and for which it
-- returned 0 before, with what the device reads from the block of that page.
pub wm2ud_free_page_loses :
    (swap : Wm2ud) (addr other j later : ℕ)
    → addr ≢ other
    → hash_addr addr (length swap.page_table) ≡ hash_addr other (length swap.page_table)
    → find_entry swap.page_table addr ≡ some (hash_addr addr (length swap.page_table))
    → block_at swap (hash_addr addr (length swap.page_table)) ≢ 0
    → find_entry swap.page_table other ≡ some j
    → block_at swap j ≢ 0
    → (after : Wm2ud) × (wm2ud_free_page swap addr ≡ some (pos 0, after))
      × (wm2ud_read_page swap other later
          ≡ some (pos 0, swap.blocks (block_at swap j), lru_touch swap j later))
      × (wm2ud_read_page after other later ≡ some (negsuc 0, none, after))
unfolding find_entry
wm2ud_free_page_loses swap addr other j later differ collide found used there kept =
    let home = hash_addr addr (length swap.page_table) in
    let inside = (find_entry-IsStop swap.page_table addr found).1 in
    let e = freed_entry (entry_at swap.page_table home) in
    (
      release_entry swap home,
      free_page-found swap addr found used,
      read_page-found swap other later there kept,
      read_page-empty (release_entry swap home) other later
          (ap (λ n. probe n (set swap.page_table home e) other (hash_addr other n))
              (length-set swap.page_table home e)
            ∙ ap (λ i. probe (length swap.page_table) (set swap.page_table home e) other i)
                (sym collide)
            ∙ home_stop (length swap.page_table) swap.page_table other home e refl inside inside)
          (freed_block swap home inside),
    )
