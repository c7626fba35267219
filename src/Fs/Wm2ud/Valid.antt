-- ===== src/Fs/Wm2ud/Valid.antt =====
-- The invariant of the page table.
pub mod Keeps
pub mod Runs
use mathlib.Core.Path.{subst}
use e_comos.Prelude.{
  ℕ, zero, suc, ◌+◌, ◌-◌, ◌%◌, ◌^◌, ◌≤◌, ◌<◌, ◌≡◌, ◌≢◌, ◌⊎◌, inl, inr, refl, ap, sym, ◌∙◌, Bool,
  true, false, not, Option, none, some, List, [], ◌∷◌, length, get_or, set, ltb, ◌==◌,
  if◌then◌else◌, arith, Bool-cases, if_true, if_false, ℕ_discrete, get_or-set_self, get_or-set_ne,
  length-set, get_or_beyond, dec_lt,
}
use e_comos.Prelude.Search.{find_from, find_from-cases}
use e_comos.Fs.Wm2ud.{
  Page, PageEntry, Wm2ud, empty_entry, entry_at, uses, block_found, alloc_block, claim_entry,
  or_take_over, fill_with, fill_entry, take_over, lru_evict, store_page, lru_touch, release_entry,
}
use e_comos.Fs.Wm2ud.Store.{uses_not}
use e_comos.Fs.Wm2ud.Store.{is_zero, not_zero}
use e_comos.Fs.Wm2ud.Evict.{block_of, access_of, IsOldest, lru_evict-IsOldest}

-- No two entries share a block, and the blocks are on the device and not the first.
pub record IsTable (total : ℕ) (table : List PageEntry) : Type 0 where
  pub distinct : (i j : ℕ) → block_of table i ≢ 0 → block_of table i ≡ block_of table j → i ≡ j
  pub below : (i : ℕ) → block_of table i < total
  pub early : (i : ℕ) → access_of table i < 2 ^ 64 - 1

block-set_ne :
    (table : List PageEntry) (k i : ℕ) (e : PageEntry)
    → k ≢ i
    → entry_at (set table k e) i ≡ entry_at table i
block-set_ne table k i e ne = get_or-set_ne table k i e empty_entry ne

-- An entry may be changed to one whose block no other entry has.
pub set-IsTable :
    (total : ℕ) (table : List PageEntry) (k : ℕ) (e : PageEntry)
    → IsTable total table
    → k < length table
    → e.physical_block < total
    → e.last_access < 2 ^ 64 - 1
    → ((j : ℕ) → j ≢ k → e.physical_block ≢ 0 → block_of table j ≢ e.physical_block)
    → IsTable total (set table k e)
set-IsTable total table k e v inside small early alone = record {
  distinct = λ i j used same. distinct i j used same;
  below = λ i. elim (ℕ_discrete k i) [
    | yes here ↦ subst (λ x. x.physical_block < total) (sym (at i here)) small
    | no ne ↦ subst (λ x. x.physical_block < total) (sym (block-set_ne table k i e ne)) (v.below i)
  ];
  early = λ i. elim (ℕ_discrete k i) [
    | yes here ↦ subst (λ x. x.last_access < 2 ^ 64 - 1) (sym (at i here)) early
    | no ne ↦
        subst (λ x. x.last_access < 2 ^ 64 - 1) (sym (block-set_ne table k i e ne)) (v.early i)
  ];
}
  where
    at : (i : ℕ) → k ≡ i → entry_at (set table k e) i ≡ e
    at i here =
        ap (entry_at (set table k e)) (sym here) ∙ get_or-set_self table k e empty_entry inside

    block : (i : ℕ) → k ≡ i → block_of (set table k e) i ≡ e.physical_block
    block i here = ap (λ (x : PageEntry). x.physical_block) (at i here)

    other : (i : ℕ) → k ≢ i → block_of (set table k e) i ≡ block_of table i
    other i ne = ap (λ (x : PageEntry). x.physical_block) (block-set_ne table k i e ne)

    distinct :
        (i j : ℕ)
        → block_of (set table k e) i ≢ 0
        → block_of (set table k e) i ≡ block_of (set table k e) j
        → i ≡ j
    distinct i j used same = elim (ℕ_discrete k i) [
      | yes here ↦ elim (ℕ_discrete k j) [
        | yes there ↦ sym here ∙ there
        | no away ↦ absurd (
            alone j (λ x. away (sym x)) (λ z. used (block i here ∙ z))
              (sym (other j away) ∙ sym same ∙ block i here))
      ]
      | no ne ↦ elim (ℕ_discrete k j) [
        | yes there ↦ absurd (
            alone i (λ x. ne (sym x)) (λ z. used (same ∙ block j there ∙ z))
              (sym (other i ne) ∙ same ∙ block j there))
        | no away ↦
            v.distinct i j (λ z. used (other i ne ∙ z)) (sym (other i ne) ∙ same ∙ other j away)
      ]
    ]

unfoldable pub count_used : List PageEntry → ℕ
count_used [] = 0
count_used (e ∷ table) =
    let rest = count_used table in if e.physical_block == 0 then rest else suc rest

abbrev one_if : ℕ → ℕ
one_if block = if block == 0 then 0 else 1

count_used-set :
    (table : List PageEntry) (k : ℕ) (e : PageEntry)
    → k < length table
    → count_used (set table k e) + one_if (block_of table k)
      ≡ count_used table + one_if e.physical_block
unfolding count_used
count_used-set [] k e h = absurd (omega arith)
count_used-set (x ∷ table) zero e h = ground arith
count_used-set (x ∷ table) (suc k) e h = ground (arith, count_used-set table k e (omega arith))

-- The table and the count of the free pages, which is kept modulo 2^64.
pub record IsValid (swap : Wm2ud) : Type 0 where
  pub table : IsTable swap.total_blocks swap.page_table
  pub counted :
      (swap.superblock.free_pages + count_used swap.page_table) % 2 ^ 64
      ≡ (swap.total_blocks - 1) % 2 ^ 64
  pub several : 1 < swap.total_blocks
