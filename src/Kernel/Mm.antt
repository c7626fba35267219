-- ===== src/Kernel/Mm.antt =====
-- Physical pages and page tables (source/kernel/src/mm/mm.c). A pointer is the number of its address,
-- 0 for NULL; memory is the 32-bit word at each address; `cr0` and `cr3` are the control registers that
-- the inline assembly of `mm_enable_paging` reads and writes. The static variables are taken to lie outside
-- the memory that the pages cover, so that no store to a page changes them; uefi.ld links the kernel to the
-- start of that memory, where this does not hold.
pub mod Alloc
pub mod Trace
pub mod Map
pub mod Tables
pub mod Init
mod Tests
use Prim.Native.Nat.{bit_or}
use e_comos.Prelude.{
  ℕ, zero, suc, ◌+◌, ◌-◌, ◌*◌, ◌/◌, ◌%◌, ◌^◌, Bool, true, false, ◌&&◌, ◌||◌, Option, none, some,
  List, [], ◌∷◌, replicate, get_or, set, ltb, leb, ◌==◌, if◌then◌else◌,
}
use e_comos.Prelude.Int.{ℤ, pos, negsuc}
use e_comos.Prelude.Bitmap.{test_bit, set_bit, clear_bit}

abbrev pub page_size : ℕ
page_size = 4096

abbrev pub memory_start : ℕ
memory_start = 0x10_0000

abbrev pub memory_size : ℕ
memory_size = 0x100_0000

abbrev pub max_pages : ℕ
max_pages = memory_size / page_size

abbrev pub page_table_entries : ℕ
page_table_entries = 1024

abbrev pub pte_present : ℕ
pte_present = 1

abbrev pub pte_writable : ℕ
pte_writable = 2

-- The static variables, the memory that they point to and the control registers.
pub record Mm : Type 0 where
  pub page_bitmap : List ℕ
  pub next_free_page : ℕ
  pub page_directory : ℕ
  pub page_tables : List ℕ
  pub page_tables_initialized : Bool
  pub mem : ℕ → ℕ
  pub cr0 : ℕ
  pub cr3 : ℕ

-- the static variables and registers at boot; no page is used yet
abbrev pub boot : Mm
boot = record {
  page_bitmap = replicate 512 0;
  next_free_page = 0;
  page_directory = 0;
  page_tables = 0 ∷ 0 ∷ 0 ∷ 0 ∷ [];
  page_tables_initialized = false;
  mem = λ a. 0;
  cr0 = 1;
  cr3 = 0;
}

-- the loop of `mm_alloc_page`, from page `i` on, for the `n` pages that are left
unfoldable pub find_free : ℕ → ℕ → List ℕ → Option ℕ
find_free zero i bm = none
find_free (suc n) i bm = let rest = find_free n (i + 1) bm in if test_bit bm i then rest else some i

abbrev pub page_address : ℕ → ℕ
page_address i = (memory_start + i * page_size) % 2 ^ 32

-- what the loop does with the first free page
abbrev pub take_page : Mm → Option ℕ → ℕ × Mm
take_page s none = (0, s)
take_page s (some i) =
    (page_address i, record s { page_bitmap = set_bit s.page_bitmap i; next_free_page = i + 1 })

unfoldable pub mm_alloc_page : Mm → ℕ × Mm
unfolding find_free
mm_alloc_page s =
    take_page s (find_free (max_pages - s.next_free_page) s.next_free_page s.page_bitmap)

-- the page that an address lies in
abbrev pub page_index : ℕ → ℕ
page_index addr = (addr - memory_start) / page_size

unfoldable pub mm_free_page : ℕ → Mm → Mm
mm_free_page page s =
    let addr = page % 2 ^ 32 in
    let page_idx = page_index addr in
    if ltb addr memory_start || leb max_pages page_idx then s else record s {
      page_bitmap = clear_bit s.page_bitmap page_idx;
      next_free_page = if ltb page_idx s.next_free_page then page_idx else s.next_free_page;
    }

-- `*(uint32_t *)a = v`
unfoldable pub store : (ℕ → ℕ) → ℕ → ℕ → ℕ → ℕ
store mem a v x = if a == x then v else mem x

-- `base[j] = 0` for the `n` indices from `j` on
unfoldable pub clear_table : ℕ → ℕ → ℕ → (ℕ → ℕ) → ℕ → ℕ
clear_table zero j base mem = mem
clear_table (suc n) j base mem = clear_table n (j + 1) base (store mem (base + 4 * j) 0)

abbrev pub in_memory : ℕ → Bool
in_memory phys_addr = leb memory_start phys_addr && ltb phys_addr (memory_start + memory_size)

-- The identity mapping of the 4 MB from `base_addr` on, in the table at `table`.
unfoldable pub fill_table : ℕ → ℕ → ℕ → ℕ → (ℕ → ℕ) → ℕ → ℕ
fill_table zero j base_addr table mem = mem
fill_table (suc n) j base_addr table mem =
    let phys_addr = (base_addr + j * page_size) % 2 ^ 32 in
    fill_table n (j + 1) base_addr table (
      if in_memory phys_addr
      then store mem (table + 4 * j) (bit_or (bit_or phys_addr pte_present) pte_writable)
      else mem)

-- what a round does with the page `t` that it got for table `i`
abbrev pub install_table : ℕ → ℕ → Mm → Mm
install_table i t s =
    let cleared = clear_table page_table_entries 0 t s.mem in
    let mapped = fill_table page_table_entries 0 (i * 4 * 1024 * 1024) t cleared in
    record s {
      mem =
          store mapped (s.page_directory + 4 * i)
            (bit_or (bit_or (t % 2 ^ 32) pte_present) pte_writable);
    }

-- the rounds of the loop over the page tables, from table `i` on
unfoldable pub init_tables : ℕ → ℕ → Mm → ℤ × Mm
init_tables zero i s = (pos 0, record s { page_tables_initialized = true })
init_tables (suc n) i s =
    let (t, s1) = mm_alloc_page s in
    let s2 = record s1 { page_tables = set s1.page_tables i t } in
    let rest = init_tables n (i + 1) (install_table i t s2) in
    if t == 0 then (negsuc 0, s2) else rest

unfoldable pub init_page_tables : Mm → ℤ × Mm
init_page_tables s =
    if s.page_tables_initialized
    then (pos 0, s)
    else (let (d, s1) = mm_alloc_page s in
        let s2 = record s1 { page_directory = d } in
        if d == 0
        then (negsuc 0, s2)
        else init_tables 4 0 (record s2 { mem = clear_table 1024 0 d s2.mem }))

-- the address of the entry that maps `virtual_addr`, in the table at `table`
abbrev pub entry_address : ℕ → ℕ → ℕ
entry_address table virtual_addr = table + 4 * (virtual_addr / 4096 % 1024)

-- `mm_map_page` behind the call of `init_page_tables`
unfoldable pub map_page : ℕ → ℕ → ℕ → Mm → ℤ × Mm
unfolding store
map_page virtual_addr physical_addr flags s =
    let page_dir_index = virtual_addr / 2 ^ 22 in
    let table = get_or s.page_tables page_dir_index 0 in
    if ltb physical_addr memory_start
      || leb (memory_start + memory_size) physical_addr
      || leb (16 * 1024 * 1024) virtual_addr
    then (negsuc 0, s)
    else if leb 4 page_dir_index || table == 0
    then (negsuc 0, s)
    else (
      pos 0,
      record s {
        mem =
            store s.mem (entry_address table virtual_addr)
              (bit_or (bit_or physical_addr flags) pte_present);
      },
    )

-- `if (init_page_tables() != 0) return fail; ...`
abbrev pub after_init : {B : Type 0} → (Mm → B) → (Mm → B) → ℤ × Mm → B
after_init fail go (pos zero, s) = go s
after_init fail go (pos (suc n), s) = fail s
after_init fail go (negsuc n, s) = fail s

unfoldable pub mm_map_page : ℕ → ℕ → ℕ → Mm → ℤ × Mm
mm_map_page virtual_addr physical_addr flags s =
    after_init (λ s1. (negsuc 0, s1)) (map_page virtual_addr physical_addr flags)
      (init_page_tables s)

unfoldable pub mm_get_page_directory : Mm → ℕ × Mm
mm_get_page_directory s =
    after_init (λ s1. (0, s1)) (λ s1. (s1.page_directory % 2 ^ 32, s1)) (init_page_tables s)

-- `orl` clears the upper half of the register that it writes.
unfoldable pub mm_enable_paging : Mm → Mm
mm_enable_paging s =
    let (cr3, s1) = mm_get_page_directory s in
    if cr3 == 0 then s1 else record s1 { cr3 = cr3; cr0 = bit_or (s1.cr0 % 2 ^ 32) 0x8000_0000 }
