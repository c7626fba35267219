-- ===== src/Fs/Wm2ud/Store.antt =====
-- What a write does to the table and the device.
use mathlib.Core.Path.{subst}
use e_comos.Prelude.{
  ℕ, zero, suc, ◌-◌, ◌≤◌, ◌<◌, ◌≡◌, ◌≢◌, ◌⊎◌, inl, inr, refl, ap, sym, ◌∙◌, Bool, true, false, not,
  Option, none, some, List, [], ◌∷◌, length, set, ◌==◌, arith, if_true, if_false, get_or-set_self,
}
use e_comos.Prelude.Int.{ℤ}
use e_comos.Prelude.Search.{find_from-cases}
use e_comos.Fs.Wm2ud.{
  Page, PageEntry, Wm2ud, empty_entry, entry_at, stops, uses, block_found, alloc_block, claim_entry,
  or_take_over, fill_with, fill_entry, store_page, lru_touch, write_block,
}
use e_comos.Fs.Wm2ud.Probe.{IsStop}

-- A block of the device is in no entry.
abbrev pub HasBlock : Wm2ud → Type 0
HasBlock swap = (b : ℕ) × (1 ≤ b) × (b < swap.total_blocks) × (uses swap.page_table b ≡ false)

abbrev pub block_at : Wm2ud → ℕ → ℕ
block_at swap i = (entry_at swap.page_table i).physical_block

-- what the device reads into the buffer of a read
abbrev pub page_read : Option (ℤ × Option Page × Wm2ud) → Option Page
page_read none = none
page_read (some (rc, page, swap)) = page

pub uses_not :
    (table : List PageEntry) (b k : ℕ)
    → uses table b ≡ false
    → b ≢ 0
    → (entry_at table k).physical_block ≢ b
unfolding uses
uses_not [] b k e ne same = ne (sym same)
uses_not (x ∷ table) b zero e ne same = ground arith
uses_not (x ∷ table) b (suc k) e ne same = uses_not table b k (ground arith) ne same

-- With a free block, `alloc_block` returns one, and only the count of the free pages changes.
abbrev pub counted_down : Wm2ud → Wm2ud
counted_down swap = (block_found swap (some 0)).1

pub alloc_block-HasBlock :
    (swap : Wm2ud)
    → HasBlock swap
    → (i : ℕ) × (alloc_block swap ≡ (i, counted_down swap))
      × (1 ≤ i)
      × (i < swap.total_blocks)
      × (uses swap.page_table i ≡ false)
unfolding alloc_block
alloc_block-HasBlock swap (b, one, inside, unused) =
    elim (find_from-cases (λ i. not (uses swap.page_table i)) (swap.total_blocks - 1) 1) [
      | inl (i, e, first) ↦ (
        i,
        ap (block_found swap) e,
        first.from,
        omega (arith, first.below),
        not_true first.passes,
      )
      | inr (e, empty) ↦ absurd (contradiction (empty b one (omega arith)))
    ]
  where
    not_true : {b : Bool} → not b ≡ true → b ≡ false
    not_true {b = true} h = absurd (ground arith)
    not_true {b = false} h = refl

    contradiction : not (uses swap.page_table b) ≡ false → ⊥
    contradiction h = ground (arith, unused)

pub is_zero : {n : ℕ} → n ≡ 0 → (n == 0) ≡ true
is_zero e = ground arith

pub not_zero : {n : ℕ} → n ≢ 0 → (n == 0) ≡ false
not_zero ne = ground arith

-- What a write that evicts no page does: the entry `e` takes the slot.
pub record Written (swap after : Wm2ud) (addr idx : ℕ) (page : Page) (e : PageEntry) : Type 0 where
  pub table : after.page_table ≡ set swap.page_table idx e
  pub has_block : e.physical_block ≢ 0
  pub mine : e.virtual_addr ≡ addr
  pub blocks :
      (b : ℕ) → after.blocks b ≡ write_block swap.writable swap.blocks e.physical_block page b
  -- the block is the entry's own, or a block of the device that was in no entry
  pub fresh :
      (e.physical_block ≡ block_at swap idx)
      ⊎ ((e.physical_block < swap.total_blocks) × (uses swap.page_table e.physical_block ≡ false))

pub set_twice :
    (table : List PageEntry) (k : ℕ) (a b : PageEntry) → set (set table k a) k b ≡ set table k b
set_twice [] k a b = refl
set_twice (x ∷ table) zero a b = refl
set_twice (x ∷ table) (suc k) a b = ap (λ t. x ∷ t) (set_twice table k a b)

-- a slot that stops the search and has a block has the address
pub own_address :
    (addr : ℕ) (e : PageEntry) → stops addr e ≡ true → e.physical_block ≢ 0 → e.virtual_addr ≡ addr
own_address addr e on ne = ground arith

-- the entry that a write leaves
abbrev pub written_entry : PageEntry → ℕ → ℕ → ℕ → PageEntry
written_entry e addr blk now = record e {
  virtual_addr = addr;
  physical_block = blk;
  last_access = now;
}

pub write-resident :
    (swap : Wm2ud) (addr idx : ℕ) (page : Page) (now : ℕ)
    → IsStop swap.page_table addr idx
    → block_at swap idx ≢ 0
    → Written swap
        (lru_touch (store_page (claim_entry swap addr idx) idx page) idx now)
        addr
        idx
        page
        (record (entry_at swap.page_table idx) { last_access = now })
unfolding claim_entry store_page lru_touch
write-resident swap addr idx page now on ne =
    subst
      (λ s.
        Written swap (lru_touch (store_page s idx page) idx now) addr idx page
          (record (entry_at swap.page_table idx) { last_access = now }))
      (sym (if_false _ _ (not_zero ne)))
      record {
        table = refl;
        has_block = ne;
        mine = own_address addr (entry_at swap.page_table idx) on ne;
        blocks = λ b. refl;
        fresh = inl refl;
      }

pub write-fresh :
    (swap : Wm2ud) (addr idx blk : ℕ) (page : Page) (now : ℕ)
    → block_at swap idx ≡ 0
    → idx < length swap.page_table
    → alloc_block swap ≡ (blk, counted_down swap)
    → 1 ≤ blk
    → blk < swap.total_blocks
    → uses swap.page_table blk ≡ false
    → Written swap
        (lru_touch (store_page (claim_entry swap addr idx) idx page) idx now)
        addr
        idx
        page
        (written_entry (entry_at swap.page_table idx) addr blk now)
unfolding claim_entry store_page lru_touch
write-fresh swap addr idx blk page now empty inside e one below unused =
    subst (λ s. Goal (lru_touch (store_page s idx page) idx now)) (sym claimed) filled
  where
    filled_entry : PageEntry
    filled_entry = record (entry_at swap.page_table idx) {
      physical_block = blk;
      virtual_addr = addr;
    }

    Goal : Wm2ud → Type 0
    Goal s =
        Written swap s addr idx page (written_entry (entry_at swap.page_table idx) addr blk now)

    final : PageEntry → Wm2ud
    final e = record (counted_down swap) {
      blocks = write_block swap.writable swap.blocks e.physical_block page;
      page_table = set (set swap.page_table idx filled_entry) idx (record e { last_access = now });
    }

    claimed : claim_entry swap addr idx ≡ fill_entry addr idx blk (counted_down swap)
    claimed =
        if_true _ _ (is_zero empty)
        ∙ ap (λ r. fill_with addr idx (or_take_over r)) e
        ∙ ap (fill_with addr idx) (if_false _ _ (not_zero {n = blk} (omega arith)))

    filled :
        Goal (lru_touch (store_page (fill_entry addr idx blk (counted_down swap)) idx page) idx now)
    filled =
        subst (λ (e : PageEntry). Goal (final e))
          (sym (get_or-set_self swap.page_table idx filled_entry empty_entry inside))
          record {
            table =
                set_twice swap.page_table idx filled_entry
                  (record filled_entry { last_access = now });
            has_block = omega arith;
            mine = refl;
            blocks = λ b. refl;
            fresh = inr (below, unused);
          }
