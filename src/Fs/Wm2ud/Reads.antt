-- ===== src/Fs/Wm2ud/Reads.antt =====
-- What reading gives behind a write.
use e_comos.Prelude.{
  ℕ, ◌≤◌, ◌<◌, ◌≡◌, ◌≢◌, ◌⊎◌, inl, inr, refl, ap, sym, ◌∙◌, true, false, Bool, ◌&&◌, none, some,
  length, ◌==◌, arith, if_true, if_false, get_or-set_self, get_or-set_ne,
}
use e_comos.Prelude.Int.{pos}
use e_comos.Fs.Wm2ud.{
  Page, PageEntry, Wm2ud, empty_entry, entry_at, stops, probe, hash_addr, find_entry, write_at,
  wm2ud_write_page, wm2ud_read_page,
}
use e_comos.Fs.Wm2ud.Probe.{find_entry-IsStop, find_entry-cases, AllTaken}
use e_comos.Fs.Wm2ud.Pages.{
  find_entry-Written, find_entry-other, page_read-found, write_page-Outcome,
}
use e_comos.Fs.Wm2ud.Store.{uses_not, HasBlock, block_at, page_read, Written, own_address}

entry-Written :
    {swap after : Wm2ud} {addr idx : ℕ} {page : Page} {e : PageEntry}
    → Written swap after addr idx page e
    → idx < length swap.page_table
    → entry_at after.page_table idx ≡ e
entry-Written {swap} {after} {addr} {idx} {page} {e} w inside =
    ap (λ t. entry_at t idx) w.table ∙ get_or-set_self swap.page_table idx e empty_entry inside

-- The search for the page ends at a slot, the slot has the page or some block of the device is in no entry,
-- and the block in the slot is one of the device's. If the device accepts writes to its blocks from 1 on,
-- `wm2ud_write_page` returns 0 and `wm2ud_read_page` hands out what was written.
pub wm2ud_read_page-wm2ud_write_page :
    (swap : Wm2ud) (addr idx : ℕ) (page : Page) (now later : ℕ)
    → find_entry swap.page_table addr ≡ some idx
    → HasBlock swap ⊎ (block_at swap idx ≢ 0)
    → block_at swap idx < swap.total_blocks
    → ((b : ℕ) → 1 ≤ b → b < swap.total_blocks → swap.writable b ≡ true)
    → (after : Wm2ud) × (wm2ud_write_page swap addr page now ≡ some (pos 0, after))
      × (page_read (wm2ud_read_page after addr later) ≡ some page)
wm2ud_read_page-wm2ud_write_page swap addr idx page now later found room resident accepts =
    let (on, inside) = find_entry-IsStop swap.page_table addr found in
    let (after, e, wrote, w) = write_page-Outcome swap addr idx page now on inside found room in
    (
      after,
      wrote,
      page_read-found after addr later e (find_entry-Written w inside found)
            (entry-Written w inside) w.has_block
          ∙ w.blocks e.physical_block
          ∙ if_true _ _
              (same e.physical_block (accepts e.physical_block (positive w.has_block) (below w))),
    )
  where
    same : (n : ℕ) {b : Bool} → b ≡ true → (b && n == n) ≡ true
    same n on = ground arith

    positive : {n : ℕ} → n ≢ 0 → 1 ≤ n
    positive ne = omega arith

    below :
        {after : Wm2ud} {e : PageEntry}
        → Written swap after addr idx page e
        → e.physical_block < swap.total_blocks
    below w = elim w.fresh [
      | inl own ↦ omega (arith, own, resident)
      | inr (inside, unused) ↦ inside
    ]

-- No two entries share a block.
abbrev pub Distinct : Wm2ud → Type 0
Distinct swap = (i j : ℕ) → block_at swap i ≢ 0 → block_at swap i ≡ block_at swap j → i ≡ j

-- the entry of another page has another block
other_block :
    {swap after : Wm2ud} {addr idx : ℕ} {page : Page} {e : PageEntry} (j : ℕ)
    → Written swap after addr idx page e
    → Distinct swap
    → j ≢ idx
    → block_at swap j ≢ 0
    → block_at swap j ≢ e.physical_block
other_block {swap} {idx = idx} {e = e} j w distinct away used same = elim w.fresh [
  | inl own ↦ away (distinct j idx used (same ∙ own))
  | inr (inside, unused) ↦ uses_not swap.page_table e.physical_block j unused w.has_block same
]

-- If the search for a page ends at a slot, the slot has the page or some block of the device is in no entry,
-- and no two entries share a block, then `wm2ud_write_page` returns 0 and every other page that is in the table is
-- read as before, whether or not the device accepts the write.
pub wm2ud_read_page_other :
    (swap : Wm2ud) (addr idx other j : ℕ) (page : Page) (now later : ℕ)
    → Distinct swap
    → find_entry swap.page_table addr ≡ some idx
    → HasBlock swap ⊎ (block_at swap idx ≢ 0)
    → addr ≢ other
    → find_entry swap.page_table other ≡ some j
    → block_at swap j ≢ 0
    → (after : Wm2ud) × (wm2ud_write_page swap addr page now ≡ some (pos 0, after))
      × (page_read (wm2ud_read_page after other later)
          ≡ page_read (wm2ud_read_page swap other later))
wm2ud_read_page_other swap addr idx other j page now later distinct found room ne there used =
    let (on, inside) = find_entry-IsStop swap.page_table addr found in
    let (after, e, wrote, w) = write_page-Outcome swap addr idx page now on inside found room in
    (
      after,
      wrote,
      page_read-found after other later (entry_at swap.page_table j)
            (find_entry-other other w inside ne away there)
            (ap (λ t. entry_at t j) w.table
              ∙ get_or-set_ne swap.page_table idx j e empty_entry (λ same. away (sym same)))
            used
          ∙ w.blocks (block_at swap j)
          ∙ if_false _ _
              (differs (swap.writable e.physical_block) (other_block j w distinct away used))
          ∙ sym (page_read-found swap other later (entry_at swap.page_table j) there refl used),
    )
  where
    away : j ≢ idx
    away same = ne (
        sym (
          own_address addr (entry_at swap.page_table j)
            (ap (λ i. stops addr (entry_at swap.page_table i)) same
              ∙ (find_entry-IsStop swap.page_table addr found).0)
            used)
        ∙ own_address other (entry_at swap.page_table j)
            (find_entry-IsStop swap.page_table other there).0 used)

    differs : {m n : ℕ} (b : Bool) → m ≢ n → (b && m == n) ≡ false
    differs b h = ground arith

-- `wm2ud_write_page` returns 0, or the table is full with other pages, and then its search never stops:
-- no number of rounds is enough.
pub wm2ud_write_page_ends :
    (swap : Wm2ud) (addr : ℕ) (page : Page) (now : ℕ)
    → 0 < length swap.page_table
    → ((after : Wm2ud) × (wm2ud_write_page swap addr page now ≡ some (pos 0, after)))
      ⊎ (AllTaken addr swap.page_table
          × ((n : ℕ)
              → probe n swap.page_table addr (hash_addr addr (length swap.page_table)) ≡ none))
unfolding wm2ud_write_page
wm2ud_write_page_ends swap addr page now h = elim (find_entry-cases swap.page_table addr h) [
  | inl (j, found, on, inside) ↦ inl (_, ap (write_at swap addr page now) found)
  | inr never ↦ inr never
]
