-- ===== src/Kernel/Mm/Map.antt =====
-- Page table entries: the loops that clear and fill a table, and `mm_map_page` on tables that are set up.
use Prim.Native.Nat.{bit_or}
use e_comos.Prelude.{
  ℕ, zero, suc, ◌+◌, ◌*◌, ◌/◌, ◌%◌, ◌^◌, ◌≤◌, ◌<◌, ◌≡◌, ◌≢◌, ◌⊎◌, refl, true, get_or, ltb, leb,
  ◌==◌, if◌then◌else◌, arith, ◌∙◌, ℕ_discrete, ap,
}
use e_comos.Prelude.Int.{pos, negsuc}
use e_comos.Kernel.Mm.{
  Mm, page_size, memory_start, memory_size, pte_present, pte_writable, store, clear_table,
  fill_table, in_memory, entry_address, after_init, map_page, mm_map_page, init_page_tables,
}

pub store_self : (mem : ℕ → ℕ) (a v : ℕ) → store mem a v a ≡ v
unfolding store
store_self mem a v = ground arith

pub store_ne : (mem : ℕ → ℕ) (a v x : ℕ) → a ≢ x → store mem a v x ≡ mem x
unfolding store
store_ne mem a v x h = ground arith

abbrev pub Outside : ℕ → ℕ → Type 0
Outside base x = (x < base) ⊎ (base + page_size ≤ x)

pub clear_table-Outside :
    (n j base x : ℕ) (mem : ℕ → ℕ)
    → j + n ≤ 1024
    → Outside base x
    → clear_table n j base mem x ≡ mem x
unfolding clear_table
clear_table-Outside zero j base x mem h o = refl
clear_table-Outside (suc n) j base x mem h o =
    clear_table-Outside n (j + 1) base x (store mem (base + 4 * j) 0) (omega arith) o
    ∙ store_ne mem (base + 4 * j) 0 x (omega arith)

-- The entry at `k` is cleared if it is in range, or else untouched.
pub clear_table-entry :
    (n j base k : ℕ) (mem : ℕ → ℕ)
    → clear_table n j base mem (base + 4 * k)
      ≡ (if leb j k then if ltb k (j + n) then 0 else mem (base + 4 * k) else mem (base + 4 * k))
unfolding clear_table
clear_table-entry zero j base k mem = ground arith
clear_table-entry (suc n) j base k mem = elim (ℕ_discrete j k) [
  | yes e ↦
      let here : base + 4 * j ≡ base + 4 * k = omega arith in
      ground (
        arith,
        clear_table-entry n (j + 1) base k (store mem (base + 4 * j) 0),
        store_self mem (base + 4 * j) 0,
        ap (store mem (base + 4 * j) 0) here,
      )
  | no ne ↦ ground (
    arith,
    clear_table-entry n (j + 1) base k (store mem (base + 4 * j) 0),
    store_ne mem (base + 4 * j) 0 (base + 4 * k) (omega arith),
  )
]

abbrev pub pte_of : ℕ → ℕ
pte_of a = bit_or (bit_or a pte_present) pte_writable

pub fill_table-Outside :
    (n j base_addr table x : ℕ) (mem : ℕ → ℕ)
    → j + n ≤ 1024
    → Outside table x
    → fill_table n j base_addr table mem x ≡ mem x
unfolding fill_table
fill_table-Outside zero j base_addr table x mem h o = refl
fill_table-Outside (suc n) j base_addr table x mem h o =
    let phys = (base_addr + j * page_size) % 2 ^ 32 in
    let mem' = if in_memory phys then store mem (table + 4 * j) (pte_of phys) else mem in
    fill_table-Outside n (j + 1) base_addr table x mem' (omega arith) o
    ∙ ground (arith, store_ne mem (table + 4 * j) (pte_of phys) x)

abbrev filled : ℕ → ℕ → ℕ
filled phys old = if in_memory phys then pte_of phys else old

pub fill_table-entry :
    (n j base_addr table k : ℕ) (mem : ℕ → ℕ)
    → fill_table n j base_addr table mem (table + 4 * k) ≡ (
        if leb j k
        then if ltb k (j + n)
          then filled ((base_addr + k * page_size) % 2 ^ 32) (mem (table + 4 * k))
          else mem (table + 4 * k)
        else mem (table + 4 * k))
unfolding fill_table
fill_table-entry zero j base_addr table k mem = ground arith
fill_table-entry (suc n) j base_addr table k mem =
    let phys = (base_addr + j * page_size) % 2 ^ 32 in
    let mem' = if in_memory phys then store mem (table + 4 * j) (pte_of phys) else mem in
    elim (ℕ_discrete j k) [
      | yes e ↦ rw (← e) (
          ground (
            arith,
            fill_table-entry n (j + 1) base_addr table j mem',
            store_self mem (table + 4 * j) (pte_of phys),
          ))
      | no ne ↦ ground (
        arith,
        fill_table-entry n (j + 1) base_addr table k mem',
        store_ne mem (table + 4 * j) (pte_of phys) (table + 4 * k),
      )
    ]

-- The four page tables are pages of the managed memory, all different.
pub record HasTables (s : Mm) : Type 0 where
  pub initialized : s.page_tables_initialized ≡ true
  pub aligned :
      (i : ℕ)
      → i < 4
      → (get_or s.page_tables i 0 % page_size ≡ 0) × (memory_start ≤ get_or s.page_tables i 0)
  pub distinct :
      (i j : ℕ) → i < 4 → j < 4 → i ≢ j → get_or s.page_tables i 0 ≢ get_or s.page_tables j 0

-- The entry that the tables hold for a virtual address.
abbrev pub translate : Mm → ℕ → ℕ
translate s v = s.mem (entry_address (get_or s.page_tables (v / 2 ^ 22) 0) v)

init_done : (s : Mm) → s.page_tables_initialized ≡ true → init_page_tables s ≡ (pos 0, s)
unfolding init_page_tables
init_done s h = ground arith

mm_map_page_done :
    (v p flags : ℕ) (s : Mm)
    → s.page_tables_initialized ≡ true
    → mm_map_page v p flags s ≡ map_page v p flags s
unfolding mm_map_page
mm_map_page_done v p flags s h =
    ap (after_init (λ s1. (negsuc 0, s1)) (map_page v p flags)) (init_done s h)

entry_address-ne :
    (s : Mm) (v w : ℕ)
    → HasTables s
    → v < 16 * 1024 * 1024
    → w < 16 * 1024 * 1024
    → v / page_size ≢ w / page_size
    → entry_address (get_or s.page_tables (v / 2 ^ 22) 0) v
      ≢ entry_address (get_or s.page_tables (w / 2 ^ 22) 0) w
entry_address-ne s v w h hv hw ne e = elim (ℕ_discrete (v / 2 ^ 22) (w / 2 ^ 22)) [
  | yes same ↦ ne (omega (arith, ap (λ (i : ℕ). get_or s.page_tables i 0) same))
  | no apart ↦
      h.distinct (v / 2 ^ 22) (w / 2 ^ 22) (omega arith) (omega arith) apart
        (omega (arith, h.aligned (v / 2 ^ 22) (omega arith), h.aligned (w / 2 ^ 22) (omega arith)))
]

table_index : (v w : ℕ) → v / page_size ≡ w / page_size → v / 2 ^ 22 ≡ w / 2 ^ 22
table_index v w e = omega arith

entry_address_same :
    (s : Mm) (v w : ℕ)
    → v / page_size ≡ w / page_size
    → entry_address (get_or s.page_tables (v / 2 ^ 22) 0) v
      ≡ entry_address (get_or s.page_tables (w / 2 ^ 22) 0) w
entry_address_same s v w e =
    omega (arith, ap (λ (i : ℕ). get_or s.page_tables i 0) (table_index v w e))

abbrev pub IsMappable : ℕ → ℕ → Type 0
IsMappable v p = (v < 16 * 1024 * 1024) × (memory_start ≤ p) × (p < memory_start + memory_size)

-- The state with the entry for `v` written.
abbrev mapped : ℕ → ℕ → ℕ → Mm → Mm
mapped v p flags s = record s {
  mem =
      store s.mem (entry_address (get_or s.page_tables (v / 2 ^ 22) 0) v)
        (bit_or (bit_or p flags) pte_present);
}

map_page_lem :
    (v p flags : ℕ) (s : Mm)
    → HasTables s
    → IsMappable v p
    → map_page v p flags s ≡ (pos 0, mapped v p flags s)
unfolding map_page
map_page_lem v p flags s h m = ground (arith, h.aligned (v / 2 ^ 22))

-- On tables that are set up, `mm_map_page` of a mappable address succeeds and writes one entry: the one
-- for the virtual page, with the frame, the flags and the present bit. The entry of every other page of
-- the 16 MB is as before, and nothing but memory changes.
pub mm_map_page-translate :
    (v p flags w : ℕ) (s : Mm)
    → HasTables s
    → IsMappable v p
    → w < 16 * 1024 * 1024
    → ((mm_map_page v p flags s).0 ≡ pos 0)
      × (translate (mm_map_page v p flags s).1 w ≡ (
          if v / page_size == w / page_size
          then bit_or (bit_or p flags) pte_present
          else translate s w))
      × ((mm_map_page v p flags s).1 ≡ record s { mem = (mm_map_page v p flags s).1.mem })
mm_map_page-translate v p flags w s h m hw =
    rw (mm_map_page_done v p flags s h.initialized, map_page_lem v p flags s h m)
      (
        refl,
        elim (ℕ_discrete (v / page_size) (w / page_size)) [
          | yes e ↦ rw (← entry_address_same s v w e) (
              store_self s.mem (entry_address (get_or s.page_tables (v / 2 ^ 22) 0) v)
                (bit_or (bit_or p flags) pte_present)
              ∙ ground arith)
          | no ne ↦
              store_ne s.mem (entry_address (get_or s.page_tables (v / 2 ^ 22) 0) v)
                (bit_or (bit_or p flags) pte_present)
                (entry_address (get_or s.page_tables (w / 2 ^ 22) 0) w)
                (entry_address-ne s v w h m.0 hw ne)
              ∙ ground arith
        ],
        refl,
      )

-- On tables that are set up, an address that is not mappable is refused, and nothing changes.
mm_map_page_refused :
    (v p flags : ℕ) (s : Mm)
    → HasTables s
    → ¬ IsMappable v p
    → mm_map_page v p flags s ≡ (negsuc 0, s)
unfolding map_page
mm_map_page_refused v p flags s h bad = mm_map_page_done v p flags s h.initialized ∙ ground arith
