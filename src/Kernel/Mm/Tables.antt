-- ===== src/Kernel/Mm/Tables.antt =====
-- The tables that the loop of `init_page_tables` builds (source/kernel/src/mm/mm.c).
use e_comos.Prelude.{
  ℕ, suc, ◌+◌, ◌*◌, ◌%◌, ◌^◌, ◌≤◌, ◌<◌, ◌≡◌, ◌≢◌, inl, inr, true, get_or, set, length,
  get_or-set_self, get_or-set_ne, length-set, sym, if◌then◌else◌, arith, ◌∙◌, ℕ_discrete, dec_lt,
  ap,
}
use e_comos.Kernel.Mm.{
  Mm, page_size, memory_start, max_pages, store, clear_table, fill_table, in_memory, install_table,
}
use e_comos.Kernel.Mm.Alloc.{IsValid, is_used, with_page, Allocated}
use e_comos.Kernel.Mm.Map.{
  Outside, pte_of, store_self, store_ne, clear_table-Outside, clear_table-entry, fill_table-Outside,
  fill_table-entry,
}

-- `p` is the address of a page in use.
pub record HoldsPage (s : Mm) (p : ℕ) : Type 0 where
  pub index : ℕ
  pub in_range : index < max_pages
  pub address : p ≡ memory_start + index * page_size
  pub used : is_used s index ≡ true

-- What an entry of an identity mapping holds for the frame at `a`.
abbrev pub identity_entry : ℕ → ℕ
identity_entry a = if in_memory a then pte_of a else 0

abbrev pub table : Mm → ℕ → ℕ
table s j = get_or s.page_tables j 0

-- Tables 0 to `n - 1` are set up.
pub record Built (n : ℕ) (s : Mm) : Type 0 where
  pub valid : IsValid s
  pub four : length s.page_tables ≡ 4
  pub directory : HoldsPage s s.page_directory
  pub pages : (j : ℕ) → j < n → HoldsPage s (table s j)
  pub apart : (j : ℕ) → j < n → table s j ≢ s.page_directory
  pub distinct : (i j : ℕ) → i < n → j < n → i ≢ j → table s i ≢ table s j
  pub maps :
      (j e : ℕ)
      → j < n
      → e < 1024
      → s.mem (table s j + 4 * e) ≡ identity_entry (j * 4 * 1024 * 1024 + e * page_size)
  pub points : (j : ℕ) → j < n → s.mem (s.page_directory + 4 * j) ≡ pte_of (table s j)
  pub rest : (j : ℕ) → n ≤ j → j < 1024 → s.mem (s.page_directory + 4 * j) ≡ 0

-- A page in use stays in use over an allocation, and differs from the page handed out.
pub HoldsPage-alloc :
    {s s' : Mm} {p t k : ℕ} → HoldsPage s p → Allocated s t s' k → HoldsPage s' p × (t ≢ p)
HoldsPage-alloc {s} {k = k} h a = (
  record {
    index = h.index;
    in_range = h.in_range;
    address = h.address;
    used = ground (arith, a.marks h.index, h.used);
  },
  λ e.
      let same : k ≡ h.index = omega (arith, a.address, h.address) in
      ground (arith, a.was_free, h.used, ap (is_used s) same),
)

pub HoldsPage-new : {s s' : Mm} {t k : ℕ} → Allocated s t s' k → HoldsPage s' t
HoldsPage-new {k = k} a = record {
  index = k;
  in_range = a.in_range;
  address = a.address;
  used = ground (arith, a.marks k);
}

-- A word of one page lies outside every other page.
pub HoldsPage-Outside :
    {s : Mm} {p q : ℕ} (e : ℕ)
    → HoldsPage s p
    → HoldsPage s q
    → p ≢ q
    → e < 1024
    → Outside q (p + 4 * e)
HoldsPage-Outside e h g ne lt = elim (dec_lt h.index g.index) [
  | yes below ↦ inl (omega (arith, h.address, g.address))
  | no above ↦
      let apart : h.index ≢ g.index = λ same. ne (omega (arith, h.address, g.address)) in
      inr (omega (arith, h.address, g.address))
]

-- The memory that a round leaves, for table `i` in the page `t`.
abbrev pub round_mem : ℕ → ℕ → ℕ → (ℕ → ℕ) → ℕ → ℕ
round_mem i t d mem =
    store (fill_table 1024 0 (i * 4 * 1024 * 1024) t (clear_table 1024 0 t mem)) (d + 4 * i)
      (pte_of (t % 2 ^ 32))

pub round_mem_elsewhere :
    (i t d x : ℕ) (mem : ℕ → ℕ) → Outside t x → d + 4 * i ≢ x → round_mem i t d mem x ≡ mem x
round_mem_elsewhere i t d x mem o ne =
    store_ne (fill_table 1024 0 (i * 4 * 1024 * 1024) t (clear_table 1024 0 t mem)) (d + 4 * i)
      (pte_of (t % 2 ^ 32)) x ne
    ∙ fill_table-Outside 1024 0 (i * 4 * 1024 * 1024) t x (clear_table 1024 0 t mem) (omega arith) o
    ∙ clear_table-Outside 1024 0 t x mem (omega arith) o

pub frame_no_wrap :
    (i e : ℕ)
    → i < 4
    → e < 1024
    → (i * 4 * 1024 * 1024 + e * page_size) % 2 ^ 32 ≡ i * 4 * 1024 * 1024 + e * page_size
frame_no_wrap i e hi he = omega arith

pub round_mem_entry :
    (i t d e : ℕ) (mem : ℕ → ℕ)
    → i < 4
    → e < 1024
    → d + 4 * i ≢ t + 4 * e
    → round_mem i t d mem (t + 4 * e) ≡ identity_entry (i * 4 * 1024 * 1024 + e * page_size)
round_mem_entry i t d e mem hi he ne =
    store_ne (fill_table 1024 0 (i * 4 * 1024 * 1024) t (clear_table 1024 0 t mem)) (d + 4 * i)
      (pte_of (t % 2 ^ 32)) (t + 4 * e) ne
    ∙ ground (
      arith,
      fill_table-entry 1024 0 (i * 4 * 1024 * 1024) t e (clear_table 1024 0 t mem),
      clear_table-entry 1024 0 t e mem,
      frame_no_wrap i e hi he,
    )

-- The pages known so far stay in use over an allocation.
pub Built-alloc :
    {n : ℕ} {s : Mm} {t k : ℕ}
    → Built n s
    → Allocated s t (with_page s k) k
    → Built n (with_page s k) × (t ≢ s.page_directory) × ((j : ℕ) → j < n → t ≢ table s j)
Built-alloc b a = (
  record {
    valid = a.valid;
    four = b.four;
    directory = (HoldsPage-alloc b.directory a).0;
    pages = λ j h. (HoldsPage-alloc (b.pages j h) a).0;
    apart = b.apart;
    distinct = b.distinct;
    maps = b.maps;
    points = b.points;
    rest = b.rest;
  },
  (HoldsPage-alloc b.directory a).1,
  λ j h. (HoldsPage-alloc (b.pages j h) a).1,
)

-- A round's new state.
abbrev pub round : ℕ → ℕ → Mm → Mm
round i t s = install_table i t (record s { page_tables = set s.page_tables i t })

-- The page `t`, in use and apart from the others, becomes table `i`.
pub Built-round :
    (i t : ℕ) {s : Mm}
    → i < 4
    → Built i s
    → HoldsPage s t
    → t ≢ s.page_directory
    → ((j : ℕ) → j < i → t ≢ table s j)
    → Built (suc i) (round i t s)
Built-round i t {s} hi b h ne fresh = record {
  valid = record {
    covers = b.valid.covers;
    bytes = b.valid.bytes;
    next_in = b.valid.next_in;
    used_below = b.valid.used_below;
  };
  four = length-set s.page_tables i t ∙ b.four;
  directory = keep b.directory;
  pages = λ j p. elim (ℕ_discrete i j) [
    | yes e ↦ rw (← e, own) (keep h)
    | no other ↦ rw (old j other) (keep (b.pages j (omega arith)))
  ];
  apart = λ j p. elim (ℕ_discrete i j) [
    | yes e ↦ rw (← e, own) ne
    | no other ↦ rw (old j other) (b.apart j (omega arith))
  ];
  distinct = distinct';
  maps = λ j e hj he. elim (ℕ_discrete i j) [
    | yes same ↦
        rw (← same, own) (round_mem_entry i t s.page_directory e s.mem hi he (directory_apart e he))
    | no other ↦ rw (old j other) (
        round_mem_elsewhere i t s.page_directory (table s j + 4 * e) s.mem
          (HoldsPage-Outside e (b.pages j (omega arith)) h (λ z. fresh j (omega arith) (sym z)) he)
          (entry_apart j e other hj he)
        ∙ b.maps j e (omega arith) he)
  ];
  points = λ j hj. elim (ℕ_discrete i j) [
    | yes same ↦
        rw (← same, own)
          (store_self (fill_table 1024 0 (i * 4 * 1024 * 1024) t (clear_table 1024 0 t s.mem))
              (s.page_directory + 4 * i) (pte_of (t % 2 ^ 32))
            ∙ ap pte_of (omega (arith, h.address, h.in_range)))
    | no other ↦ rw (old j other) (
        round_mem_elsewhere i t s.page_directory (s.page_directory + 4 * j) s.mem
          (HoldsPage-Outside j b.directory h (λ z. ne (sym z)) (omega arith)) (omega arith)
        ∙ b.points j (omega arith))
  ];
  rest = λ j from below.
      round_mem_elsewhere i t s.page_directory (s.page_directory + 4 * j) s.mem
        (HoldsPage-Outside j b.directory h (λ z. ne (sym z)) below) (omega arith)
      ∙ b.rest j (omega arith) below;
}
  where
    own : get_or (set s.page_tables i t) i 0 ≡ t
    own = get_or-set_self s.page_tables i t 0 (omega (arith, b.four))

    old : (j : ℕ) → i ≢ j → get_or (set s.page_tables i t) j 0 ≡ table s j
    old j other = get_or-set_ne s.page_tables i j t 0 other

    keep : {p : ℕ} → HoldsPage s p → HoldsPage (round i t s) p
    keep g = record { index = g.index; in_range = g.in_range; address = g.address; used = g.used }

    directory_apart : (e : ℕ) → e < 1024 → s.page_directory + 4 * i ≢ t + 4 * e
    directory_apart e he =
        omega (arith, HoldsPage-Outside i b.directory h (λ z. ne (sym z)) (omega arith))

    entry_apart :
        (j e : ℕ) → i ≢ j → j < suc i → e < 1024 → s.page_directory + 4 * i ≢ table s j + 4 * e
    entry_apart j e other hj he = omega (
      arith,
      HoldsPage-Outside i b.directory (b.pages j (omega arith))
          (λ z. b.apart j (omega arith) (sym z)) (omega arith),
    )

    distinct' :
        (p q : ℕ)
        → p < suc i
        → q < suc i
        → p ≢ q
        → get_or (set s.page_tables i t) p 0 ≢ get_or (set s.page_tables i t) q 0
    distinct' p q hp hq pq = elim (ℕ_discrete i p) [
      | yes e ↦ rw (← e, own, old q (omega arith)) (fresh q (omega arith))
      | no other ↦ elim (ℕ_discrete i q) [
        | yes e ↦ rw (← e, own, old p other) (λ z. fresh p (omega arith) (sym z))
        | no other' ↦ rw (old p other, old q other') (b.distinct p q (omega arith) (omega arith) pq)
      ]
    ]

pub Built-initialized : {s : Mm} → Built 4 s → Built 4 (record s { page_tables_initialized = true })
Built-initialized {s} b = record {
  valid = record {
    covers = b.valid.covers;
    bytes = b.valid.bytes;
    next_in = b.valid.next_in;
    used_below = b.valid.used_below;
  };
  four = b.four;
  directory = keep b.directory;
  pages = λ j h. keep (b.pages j h);
  apart = b.apart;
  distinct = b.distinct;
  maps = b.maps;
  points = b.points;
  rest = b.rest;
}
  where
    keep : {p : ℕ} → HoldsPage s p → HoldsPage (record s { page_tables_initialized = true }) p
    keep g = record { index = g.index; in_range = g.in_range; address = g.address; used = g.used }
