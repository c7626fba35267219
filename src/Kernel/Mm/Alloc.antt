-- ===== src/Kernel/Mm/Alloc.antt =====
-- The page allocator: the lowest free page is handed out, and failure means that none is free.
use e_comos.Prelude.{
  ℕ, zero, suc, ◌+◌, ◌-◌, ◌*◌, ◌^◌, ◌≤◌, ◌<◌, ◌≡◌, ◌≢◌, ◌⊎◌, inl, inr, refl, ap, Bool, true, false,
  Option, none, some, List, length, get_or-replicate, ltb, ◌==◌, if◌then◌else◌, arith, ◌∙◌,
  Bool-cases, ℕ_discrete, dec_lt,
}
use e_comos.Prelude.Bitmap.{
  test_bit, set_bit, clear_bit, IsBytes, set_bit-IsBytes, clear_bit-IsBytes, length-set_bit,
  length-clear_bit, test_bit-set_bit, test_bit-clear_bit,
}
use e_comos.Kernel.Mm.{
  boot, Mm, page_size, memory_start, memory_size, max_pages, find_free, page_address, page_index,
  take_page, mm_alloc_page, mm_free_page,
}

-- The bitmap covers every page, and no page below `next_free_page` is free.
pub record IsValid (s : Mm) : Type 0 where
  pub covers : length s.page_bitmap ≡ 512
  pub bytes : IsBytes s.page_bitmap
  pub next_in : s.next_free_page ≤ max_pages
  pub used_below : (j : ℕ) → j < s.next_free_page → test_bit s.page_bitmap j ≡ true

pub boot-IsValid : IsValid boot
boot-IsValid = record {
  covers = refl;
  bytes = λ k. omega (arith, get_or-replicate {A = ℕ} 512 0 k);
  next_in = omega arith;
  used_below = λ j h. absurd (omega arith);
}

abbrev pub is_used : Mm → ℕ → Bool
is_used s j = test_bit s.page_bitmap j

-- What a search from page `i` over `n` pages finds.
find_free-none :
    (n i : ℕ) (bm : List ℕ)
    → find_free n i bm ≡ none
    → (j : ℕ) → i ≤ j
    → j < i + n
    → test_bit bm j ≡ true
unfolding find_free
find_free-none zero i bm e j p q = absurd (omega arith)
find_free-none (suc n) i bm e j p q = elim (ℕ_discrete i j) [
  | yes same ↦ rw (← same) (ground arith)
  | no ne ↦ find_free-none n (i + 1) bm (ground arith) j (omega arith) (omega arith)
]

record Found (n i k : ℕ) (bm : List ℕ) : Type 0 where
  from : i ≤ k
  below : k < i + n
  free : test_bit bm k ≡ false
  lowest : (j : ℕ) → i ≤ j → j < k → test_bit bm j ≡ true

find_free-Found : (n i : ℕ) {k : ℕ} (bm : List ℕ) → find_free n i bm ≡ some k → Found n i k bm
unfolding find_free
find_free-Found zero i bm e = cc
find_free-Found (suc n) i {k} bm e = elim (Bool-cases (test_bit bm i)) [
  | inr free ↦
      let here : i ≡ k = ground arith in
      record {
        from = omega arith;
        below = omega arith;
        free = rw (← here) free;
        lowest = λ j p q. absurd (omega arith);
      }
  | inl used ↦
      let f = find_free-Found n (i + 1) {k = k} bm (ground arith) in
      record {
        from = omega arith;
        below = omega arith;
        free = f.free;
        lowest = λ j p q. elim (ℕ_discrete i j) [
          | yes same ↦ rw (← same) used
          | no ne ↦ f.lowest j (omega arith) q
        ];
      }
]

-- The state with page `k` taken.
abbrev pub with_page : Mm → ℕ → Mm
with_page s k = record s { page_bitmap = set_bit s.page_bitmap k; next_free_page = k + 1 }

-- A page is handed out: the lowest free one, which is then used. Nothing else changes.
pub record Allocated (s : Mm) (p : ℕ) (s' : Mm) (k : ℕ) : Type 0 where
  pub in_range : k < max_pages
  pub address : p ≡ memory_start + k * page_size
  pub was_free : is_used s k ≡ false
  pub lowest : (j : ℕ) → j < k → is_used s j ≡ true
  pub valid : IsValid s'
  pub marks : (j : ℕ) → is_used s' j ≡ (if k == j then true else is_used s j)
  pub rest : s' ≡ with_page s k

-- No page is handed out: all are used, and nothing changes.
pub record Exhausted (s : Mm) (p : ℕ) (s' : Mm) : Type 0 where
  pub null : p ≡ 0
  pub all_used : (j : ℕ) → j < max_pages → is_used s j ≡ true
  pub same : s' ≡ s

abbrev pub AllocSpec : Mm → ℕ → Mm → Type 0
AllocSpec s p s' = Exhausted s p s' ⊎ ((k : ℕ) × Allocated s p s' k)

take_none-Exhausted :
    (s : Mm)
    → IsValid s
    → find_free (max_pages - s.next_free_page) s.next_free_page s.page_bitmap ≡ none
    → Exhausted s 0 s
take_none-Exhausted s v e = record {
  null = refl;
  all_used = λ j p. elim (dec_lt j s.next_free_page) [
    | yes lt ↦ v.used_below j lt
    | no ge ↦
        find_free-none (max_pages - s.next_free_page) s.next_free_page s.page_bitmap e j
          (omega arith) (omega (arith, v.next_in))
  ];
  same = refl;
}

take_some-Allocated :
    (s : Mm) (k : ℕ)
    → IsValid s
    → find_free (max_pages - s.next_free_page) s.next_free_page s.page_bitmap ≡ some k
    → Allocated s (page_address k) (take_page s (some k)).1 k
take_some-Allocated s k v e =
    let f = find_free-Found (max_pages - s.next_free_page) s.next_free_page s.page_bitmap e in
    let set_k = λ (j : ℕ).
      test_bit-set_bit s.page_bitmap k j v.bytes (omega (arith, v.covers, f.below, v.next_in)) in
    let low : (j : ℕ) → j < k → is_used s j ≡ true = λ j q. (elim (dec_lt j s.next_free_page) [
      | yes lt ↦ v.used_below j lt
      | no ge ↦ f.lowest j (omega arith) q
    ]) in
    record {
      in_range = omega (arith, f.below, v.next_in);
      address = omega (arith, f.below, v.next_in);
      was_free = f.free;
      lowest = low;
      valid = record {
        covers = length-set_bit s.page_bitmap k ∙ v.covers;
        bytes = set_bit-IsBytes s.page_bitmap k v.bytes;
        next_in = omega (arith, f.below, v.next_in);
        used_below = λ j q. ground (arith, set_k j, low j);
      };
      marks = set_k;
      rest = refl;
    }

-- From a valid state either every one of the 4096 pages is used, the result is NULL and nothing
-- changes, or the lowest free page is handed out: its address is returned, it is used from now on, the
-- other pages are as before, only the bitmap and the search start change, and the state is valid.
pub mm_alloc_page-AllocSpec :
    (s : Mm) → IsValid s → AllocSpec s (mm_alloc_page s).0 (mm_alloc_page s).1
unfolding mm_alloc_page
mm_alloc_page-AllocSpec s v =
    (elim (find_free (max_pages - s.next_free_page) s.next_free_page s.page_bitmap)
        as (λ (r : Option ℕ).
          find_free (max_pages - s.next_free_page) s.next_free_page s.page_bitmap ≡ r
          → AllocSpec s (take_page s r).0 (take_page s r).1) [
            | none ↦ λ e. inl (take_none-Exhausted s v e)
            | some k ↦ λ e. inr (k, take_some-Allocated s k v e)
          ])
      refl

-- Freeing the address of page `k`, or any address inside it.
pub record Freed (s s' : Mm) (k : ℕ) : Type 0 where
  pub valid : IsValid s'
  pub marks : (j : ℕ) → is_used s' j ≡ (if k == j then false else is_used s j)
  pub rest : s' ≡ record s { page_bitmap = s'.page_bitmap; next_free_page = s'.next_free_page }

abbrev free_index : ℕ → Mm → Mm
free_index k s = record s {
  page_bitmap = clear_bit s.page_bitmap k;
  next_free_page = if ltb k s.next_free_page then k else s.next_free_page;
}

mm_free_page_inside :
    (addr : ℕ) (s : Mm)
    → memory_start ≤ addr
    → addr < memory_start + memory_size
    → mm_free_page addr s ≡ free_index (page_index addr) s
unfolding mm_free_page
mm_free_page_inside addr s p q = ground arith

free_index-Freed : (k : ℕ) (s : Mm) → IsValid s → k < max_pages → Freed s (free_index k s) k
free_index-Freed k s v h =
    let clear_k =
      λ (j : ℕ). test_bit-clear_bit s.page_bitmap k j v.bytes (omega (arith, v.covers)) in
    record {
      valid = record {
        covers = length-clear_bit s.page_bitmap k ∙ v.covers;
        bytes = clear_bit-IsBytes s.page_bitmap k v.bytes;
        next_in = ground (arith, v.next_in);
        used_below = λ j q. ground (arith, clear_k j, v.used_below j);
      };
      marks = clear_k;
      rest = refl;
    }

-- An address in the managed 16 MB frees the page it lies in, and only that page; the state stays valid.
pub mm_free_page-Freed :
    (addr : ℕ) (s : Mm)
    → IsValid s
    → memory_start ≤ addr
    → addr < memory_start + memory_size
    → Freed s (mm_free_page addr s) (page_index addr)
mm_free_page-Freed addr s v p q =
    rw (mm_free_page_inside addr s p q) (free_index-Freed (page_index addr) s v (omega arith))

-- Any other 32-bit address is ignored.
pub mm_free_page_outside :
    (addr : ℕ) (s : Mm)
    → addr < 2 ^ 32
    → (addr < memory_start) ⊎ (memory_start + memory_size ≤ addr)
    → mm_free_page addr s ≡ s
unfolding mm_free_page
mm_free_page_outside addr s h o = ground arith

-- A page that is handed out and given back leaves the set of used pages as it was.
mm_free_page-mm_alloc_page :
    (s : Mm) (j : ℕ)
    → IsValid s
    → (mm_alloc_page s).0 ≢ 0
    → is_used (mm_free_page (mm_alloc_page s).0 (mm_alloc_page s).1) j ≡ is_used s j
mm_free_page-mm_alloc_page s j v got = elim (mm_alloc_page-AllocSpec s v) [
  | inl none_left ↦ absurd (got none_left.null)
  | inr (k, a) ↦
      let f =
        mm_free_page-Freed (mm_alloc_page s).0 (mm_alloc_page s).1 a.valid
          (omega (arith, a.address)) (omega (arith, a.address, a.in_range)) in
      let same : page_index (mm_alloc_page s).0 ≡ k = omega (arith, a.address) in
      ground (arith, f.marks j, a.marks j, a.was_free, same, ap (is_used s) same)
]
