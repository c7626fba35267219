-- ===== src/Fs/Wm2ud/Valid/Runs.antt =====
-- Every operation keeps the invariant, on every branch.
use mathlib.Core.Path.{subst}
use e_comos.Prelude.{
  ℕ, zero, suc, ◌+◌, ◌-◌, ◌/◌, ◌%◌, ◌^◌, ◌≤◌, ◌<◌, ◌≡◌, ◌≢◌, inl, inr, refl, ap, sym, ◌∙◌, Bool,
  true, false, not, Option, none, some, List, [], ◌∷◌, length, set, replicate, ◌==◌, if◌then◌else◌,
  arith, Bool-cases, if_true, if_false, ℕ_discrete, get_or-set_self, get_or-set_ne, length-set,
  get_or-replicate,
}
use e_comos.Prelude.Int.{ℤ}
use e_comos.Prelude.Search.{find_from-cases}
use e_comos.Fs.Wm2ud.{
  Page, PageEntry, Wm2ud, empty_entry, entry_at, uses, block_found, alloc_block, claim_entry,
  or_take_over, fill_with, take_over, lru_evict, store_page, wm2ud_format, find_entry, write_at,
  wm2ud_write_page, read_at, wm2ud_read_page, free_at, wm2ud_free_page, wm2ud_page_size,
}
use e_comos.Fs.Wm2ud.Store.{uses_not}
use e_comos.Fs.Wm2ud.Store.{is_zero, not_zero}
use e_comos.Fs.Wm2ud.Probe.{find_entry-IsStop}
use e_comos.Fs.Wm2ud.Evict.{block_of, IsOldest, lru_evict-IsOldest}
use e_comos.Fs.Wm2ud.Valid.{IsTable, IsValid, set-IsTable, count_used, count_used-set}
use e_comos.Fs.Wm2ud.Valid.Keeps.{
  one_if-used, lru_touch-IsValid, store_page-IsValid, release_entry-IsValid, fill_entry-IsValid,
}

-- a block that is in some entry
uses-some :
    (table : List PageEntry) (b : ℕ) → uses table b ≡ true → (k : ℕ) × (block_of table k ≡ b)
unfolding uses
uses-some [] b e = absurd (ground arith)
uses-some (x ∷ table) b e = elim (ℕ_discrete x.physical_block b) [
  | yes same ↦ (0, same)
  | no ne ↦ let (k, there) = uses-some table b (ground arith) in (suc k, there)
]

-- The evicted block goes to the slot.
take_over-IsValid :
    (swap : Wm2ud) (addr idx i : ℕ)
    → IsValid swap
    → idx < length swap.page_table
    → block_of swap.page_table idx ≡ 0
    → block_of swap.page_table i ≢ 0
    → IsValid (fill_with addr idx (take_over swap))
unfolding take_over
take_over-IsValid swap addr idx i v inside empty some_used =
    fill_entry-IsValid (record swap { page_table = table }) addr idx blk emptied v.several
      (subst (λ n. idx < n) (sym (length-set swap.page_table victim e)) inside)
      (ap (λ (x : PageEntry). x.physical_block)
          (get_or-set_ne swap.page_table victim idx e empty_entry away)
        ∙ empty)
      (positive o.used) (v.table.below victim) unused
      (ap (λ n. (swap.superblock.free_pages + n) % 2 ^ 64) one_less ∙ v.counted)
  where
    victim : ℕ
    victim = lru_evict swap.page_table

    o : IsOldest swap.page_table victim
    o = lru_evict-IsOldest swap.page_table i some_used (v.table.early i)

    blk : ℕ
    blk = block_of swap.page_table victim

    e : PageEntry
    e = record (entry_at swap.page_table victim) { physical_block = 0 }

    table : List PageEntry
    table = set swap.page_table victim e

    away : victim ≢ idx
    away same = o.used (ap (block_of swap.page_table) same ∙ empty)

    positive : {n : ℕ} → n ≢ 0 → 1 ≤ n
    positive ne = omega arith

    emptied : IsTable swap.total_blocks table
    emptied =
        set-IsTable swap.total_blocks swap.page_table victim e v.table o.inside
          (omega (arith, v.several)) (v.table.early victim) (λ j ne used same. used refl)

    unused : (j : ℕ) → block_of table j ≢ blk
    unused j same = elim (ℕ_discrete victim j) [
      | yes here ↦ o.used (
          sym same
          ∙ ap (block_of table) (sym here)
          ∙ ap (λ (x : PageEntry). x.physical_block)
              (get_or-set_self swap.page_table victim e empty_entry o.inside))
      | no ne ↦
          let old : block_of swap.page_table j ≡ blk =
            sym (
              ap (λ (x : PageEntry). x.physical_block)
                (get_or-set_ne swap.page_table victim j e empty_entry ne))
            ∙ same in
          ne (v.table.distinct victim j o.used (sym old))
    ]

    one_less : suc (count_used table) ≡ count_used swap.page_table
    one_less = omega (arith, count_used-set swap.page_table victim e o.inside, one_if-used o.used)

claim_entry-IsValid :
    (swap : Wm2ud) (addr idx : ℕ)
    → IsValid swap
    → idx < length swap.page_table
    → IsValid (claim_entry swap addr idx)
unfolding claim_entry alloc_block
claim_entry-IsValid swap addr idx v inside = elim (ℕ_discrete (block_of swap.page_table idx) 0) [
  | no used ↦ subst IsValid (sym (if_false _ _ (not_zero used))) v
  | yes empty ↦
      subst IsValid (sym (if_true _ _ (is_zero empty)))
        (elim (find_from-cases (λ i. not (uses swap.page_table i)) (swap.total_blocks - 1) 1) [
          | inl (blk, e, first) ↦
              subst (λ r. IsValid (fill_with addr idx (or_take_over (block_found swap r)))) (sym e)
                (subst (λ r. IsValid (fill_with addr idx r))
                  (sym (if_false _ _ (not_zero {n = blk} (omega (arith, first.from)))))
                  (fill_entry-IsValid (block_found swap (some blk)).1 addr idx blk v.table v.several
                    inside empty first.from (omega (arith, first.below))
                    (λ j same.
                      uses_not swap.page_table blk j (not_true first.passes)
                        (omega (arith, first.from)) same)
                    (wrapped swap.superblock.free_pages (count_used swap.page_table) ∙ v.counted)))
          | inr (e, all) ↦
              let (i, there) =
                uses-some swap.page_table 1
                  (not_false (all 1 (omega arith) (omega (arith, v.several)))) in
              subst (λ r. IsValid (fill_with addr idx (or_take_over (block_found swap r)))) (sym e)
                (take_over-IsValid swap addr idx i v inside empty (omega arith))
        ])
]
  where
    not_true : {b : Bool} → not b ≡ true → b ≡ false
    not_true {b = true} h = absurd (ground arith)
    not_true {b = false} h = refl

    not_false : {b : Bool} → not b ≡ false → b ≡ true
    not_false {b = true} h = refl
    not_false {b = false} h = absurd (ground arith)

    wrapped : (f n : ℕ) → ((f + (2 ^ 64 - 1)) % 2 ^ 64 + suc n) % 2 ^ 64 ≡ (f + n) % 2 ^ 64
    wrapped f n = omega arith

blank-IsTable : (total n : ℕ) → 0 < total → IsTable total (replicate n empty_entry)
blank-IsTable total n h = record {
  distinct = λ i j used same. absurd (used (block i));
  below = λ i. omega (arith, block i);
  early =
      λ i. omega (arith, ap (λ (e : PageEntry). e.last_access) (get_or-replicate n empty_entry i));
}
  where
    block : (i : ℕ) → block_of (replicate n empty_entry) i ≡ 0
    block i = ap (λ (e : PageEntry). e.physical_block) (get_or-replicate n empty_entry i)

count_used-blank : (n : ℕ) → count_used (replicate n empty_entry) ≡ 0
unfolding count_used
count_used-blank zero = refl
count_used-blank (suc n) = count_used-blank n

wm2ud_format-IsValid :
    (total : ℕ) (blocks : ℕ → Option Page) (writable : ℕ → Bool)
    → total ≢ 1
    → IsValid (wm2ud_format total blocks writable)
unfolding wm2ud_format
wm2ud_format-IsValid total blocks writable ne =
    let size = if total == 0 then 2 ^ 30 / wm2ud_page_size else total in
    let several : 1 < size = ground arith in
    record {
      table = blank-IsTable size 1024 (omega (arith, several));
      counted =
          ap (λ n. (size - 1 + n) % 2 ^ 64) {y = 0} (count_used-blank 1024)
          ∙ ap (λ n. n % 2 ^ 64) (omega arith);
      several = several;
    }

-- The states that a new swap area reaches. The area has more than one block.
pub data Reaches : Wm2ud → Type 0 where
  formatted :
      (total : ℕ) (blocks : ℕ → Option Page) (writable : ℕ → Bool)
      → total ≢ 1
      → Reaches (wm2ud_format total blocks writable)
  wrote :
      {swap after : Wm2ud} {rc : ℤ} (addr : ℕ) (page : Page) (now : ℕ)
      → Reaches swap
      → now < 2 ^ 64 - 1
      → wm2ud_write_page swap addr page now ≡ some (rc, after)
      → Reaches after
  looked :
      {swap after : Wm2ud} {rc : ℤ} {page : Option Page} (addr now : ℕ)
      → Reaches swap
      → now < 2 ^ 64 - 1
      → wm2ud_read_page swap addr now ≡ some (rc, page, after)
      → Reaches after
  freed :
      {swap after : Wm2ud} {rc : ℤ} (addr : ℕ)
      → Reaches swap
      → wm2ud_free_page swap addr ≡ some (rc, after)
      → Reaches after

written_same :
    {a c : ℤ} {s t : Wm2ud} → ◌≡◌ {A = Option (ℤ × Wm2ud)} (some (a, s)) (some (c, t)) → s ≡ t
written_same e = cc

wrote_at :
    (swap : Wm2ud) (addr : ℕ) (page : Page) (now : ℕ) (o : Option ℕ) {rc : ℤ} {after : Wm2ud}
    → IsValid swap
    → now < 2 ^ 64 - 1
    → find_entry swap.page_table addr ≡ o
    → write_at swap addr page now o ≡ some (rc, after)
    → IsValid after
wrote_at swap addr page now none v h found e = absurd (ground arith)
wrote_at swap addr page now (some idx) v h found e = subst IsValid (written_same e) (
    lru_touch-IsValid (store_page (claim_entry swap addr idx) idx page) idx now h (
      store_page-IsValid (claim_entry swap addr idx) idx page
        (claim_entry-IsValid swap addr idx v (find_entry-IsStop swap.page_table addr found).1)))

read_at-IsValid :
    (swap : Wm2ud) (now : ℕ) (o : Option ℕ) {rc : ℤ} {page : Option Page} {after : Wm2ud}
    → IsValid swap
    → now < 2 ^ 64 - 1
    → read_at swap now o ≡ some (rc, page, after)
    → IsValid after
read_at-IsValid swap now none v h e = absurd (ground arith)
read_at-IsValid swap now (some idx) v h e = elim (Bool-cases (block_of swap.page_table idx == 0)) [
  | inl on ↦ subst IsValid (third (sym (if_true _ _ on) ∙ e)) v
  | inr off ↦
      subst IsValid (third (sym (if_false _ _ off) ∙ e)) (lru_touch-IsValid swap idx now h v)
]
  where
    third :
        {a c : ℤ} {p q : Option Page} {s t : Wm2ud}
        → ◌≡◌ {A = Option (ℤ × Option Page × Wm2ud)} (some (a, p, s)) (some (c, q, t))
        → s ≡ t
    third e = cc

free_at-IsValid :
    (swap : Wm2ud) (addr : ℕ) (o : Option ℕ) {rc : ℤ} {after : Wm2ud}
    → IsValid swap
    → find_entry swap.page_table addr ≡ o
    → free_at swap o ≡ some (rc, after)
    → IsValid after
free_at-IsValid swap addr none v found e = absurd (ground arith)
free_at-IsValid swap addr (some idx) v found e =
    elim (ℕ_discrete (block_of swap.page_table idx) 0) [
      | yes empty ↦ subst IsValid (written_same (sym (if_true _ _ (is_zero empty)) ∙ e)) v
      | no used ↦
          subst IsValid (written_same (sym (if_false _ _ (not_zero used)) ∙ e))
            (release_entry-IsValid swap idx (find_entry-IsStop swap.page_table addr found).1 used v)
    ]

-- In every state that writing, reading and freeing pages, at times below 2^64 - 1, reaches from a new
-- swap area of more than one block, no two entries share a block, every block is on the device, and the
-- count of free pages and the number of used entries add up to the blocks behind the first, modulo 2^64;
-- states behind evictions included.
pub reaches-IsValid : (swap : Wm2ud) → Reaches swap → IsValid swap
unfolding wm2ud_write_page wm2ud_read_page wm2ud_free_page
reaches-IsValid swap (formatted total blocks writable ne) =
    wm2ud_format-IsValid total blocks writable ne
reaches-IsValid swap (wrote {swap = s} addr page now r h e) =
    wrote_at s addr page now (find_entry s.page_table addr) (reaches-IsValid s r) h refl e
reaches-IsValid swap (looked {swap = s} addr now r h e) =
    read_at-IsValid s now (find_entry s.page_table addr) (reaches-IsValid s r) h e
reaches-IsValid swap (freed {swap = s} addr r e) =
    free_at-IsValid s addr (find_entry s.page_table addr) (reaches-IsValid s r) refl e
