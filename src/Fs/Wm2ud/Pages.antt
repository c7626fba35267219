-- ===== src/Fs/Wm2ud/Pages.antt =====
-- Pages that are written are read back, and other pages are left alone.
use e_comos.Prelude.{
  ℕ, ◌<◌, ◌≡◌, ◌≢◌, ◌⊎◌, inl, inr, ap, sym, ◌∙◌, true, false, some, length, set, arith, if_false,
  ℕ_discrete, length-set,
}
use e_comos.Prelude.Int.{pos}
use e_comos.Fs.Wm2ud.{
  Page, PageEntry, Wm2ud, entry_at, stops, probe, find_entry, hash_addr, write_at, wm2ud_write_page,
  read_at, wm2ud_read_page,
}
use e_comos.Fs.Wm2ud.Probe.{IsStop, probe-passes, probe-stays}
use e_comos.Fs.Wm2ud.Store.{
  HasBlock, block_at, page_read, alloc_block-HasBlock, not_zero, Written, write-resident,
  write-fresh,
}

-- A search after the write finds the slot.
pub find_entry-Written :
    {swap after : Wm2ud} {addr idx : ℕ} {page : Page} {e : PageEntry}
    → Written swap after addr idx page e
    → idx < length swap.page_table
    → find_entry swap.page_table addr ≡ some idx
    → find_entry after.page_table addr ≡ some idx
unfolding find_entry
find_entry-Written {swap} {after} {addr} {idx} {page} {e} w inside found =
    ap (λ t. probe (length t) t addr (hash_addr addr (length t))) w.table
    ∙ ap (λ n. probe n (set swap.page_table idx e) addr (hash_addr addr n))
        (length-set swap.page_table idx e)
    ∙ probe-stays (length swap.page_table) swap.page_table addr _ idx e (stops_at w.mine) inside
        found
  where
    stops_at : e.virtual_addr ≡ addr → stops addr e ≡ true
    stops_at same = ground arith

-- A search for another page finds what it found before.
pub find_entry-other :
    {swap after : Wm2ud} {addr idx : ℕ} {page : Page} {e : PageEntry} (other : ℕ) {j : ℕ}
    → Written swap after addr idx page e
    → idx < length swap.page_table
    → addr ≢ other
    → j ≢ idx
    → find_entry swap.page_table other ≡ some j
    → find_entry after.page_table other ≡ some j
unfolding find_entry
find_entry-other {swap} {after} {addr} {idx} {page} {e} other w inside ne away found =
    ap (λ t. probe (length t) t other (hash_addr other (length t))) w.table
    ∙ ap (λ n. probe n (set swap.page_table idx e) other (hash_addr other n))
        (length-set swap.page_table idx e)
    ∙ probe-passes (length swap.page_table) swap.page_table other _ idx e away
        (passes w.mine w.has_block) inside found
  where
    passes : e.virtual_addr ≡ addr → e.physical_block ≢ 0 → stops other e ≡ false
    passes same used = ground arith

-- The page that a read hands out, by the slot that is found.
pub page_read-found :
    (swap : Wm2ud) (addr now : ℕ) {i : ℕ} (e : PageEntry)
    → find_entry swap.page_table addr ≡ some i
    → entry_at swap.page_table i ≡ e
    → e.physical_block ≢ 0
    → page_read (wm2ud_read_page swap addr now) ≡ swap.blocks e.physical_block
unfolding wm2ud_read_page
page_read-found swap addr now {i} e found there used =
    ap (λ o. page_read (read_at swap now o)) found
    ∙ ap page_read (
        if_false _ _
          (not_zero (λ zero. used (ap (λ (x : PageEntry). x.physical_block) (sym there) ∙ zero))))
    ∙ ap (λ (x : PageEntry). swap.blocks x.physical_block) there

-- The slot of a search, and what a write does there.
abbrev pub Outcome : Wm2ud → ℕ → ℕ → Page → ℕ → Type 0
Outcome swap addr idx page now =
    (after : Wm2ud) × (e : PageEntry) × (wm2ud_write_page swap addr page now ≡ some (pos 0, after))
    × Written swap after addr idx page e

pub write_page-Outcome :
    (swap : Wm2ud) (addr idx : ℕ) (page : Page) (now : ℕ)
    → IsStop swap.page_table addr idx
    → idx < length swap.page_table
    → find_entry swap.page_table addr ≡ some idx
    → HasBlock swap ⊎ (block_at swap idx ≢ 0)
    → Outcome swap addr idx page now
unfolding wm2ud_write_page
write_page-Outcome swap addr idx page now on inside found room =
    elim (ℕ_discrete (block_at swap idx) 0) [
      | no used ↦ (
        _,
        _,
        ap (write_at swap addr page now) found,
        write-resident swap addr idx page now on used,
      )
      | yes empty ↦ elim room [
        | inr used ↦ absurd (used empty)
        | inl free ↦
            let (blk, e, one, below, unused) = alloc_block-HasBlock swap free in
            (
              _,
              _,
              ap (write_at swap addr page now) found,
              write-fresh swap addr idx blk page now empty inside e one below unused,
            )
      ]
    ]
