-- ===== src/Fs/Wm2ud.antt =====
-- The swap area (source/fs/include/wm2ud/wm2ud.h, source/fs/src/wm2ud/wm2ud_page.c and wm2ud_format of
-- wm2ud_core.c). The page table is a hash table with open addressing. The device (source/fs/src/common/
-- block_device.c) is two functions of the number of a block: what a read of it gives, `none` for a read that
-- fails, and whether a write of it succeeds. A write that fails is taken to leave the block. Both functions
-- ignore the result of the device, as the source does. `now` is the result of
-- `time(NULL)`. The loops that look for an entry have fuel for one round over the table; where they
-- have not stopped by then they never stop, and there is no result. `lru_head`, `lru_tail` and
-- `cache_size` are never used.
pub mod Probe
pub mod Store
pub mod Pages
pub mod Reads
pub mod Free
pub mod Valid
pub mod Evict
mod Tests
use e_comos.Prelude.{
  ℕ, zero, suc, ◌+◌, ◌-◌, ◌/◌, ◌%◌, ◌^◌, Bool, true, false, not, ◌&&◌, ◌||◌, Option, none, some,
  List, [], ◌∷◌, length, get_or, set, replicate, ltb, ◌==◌, if◌then◌else◌,
}
use e_comos.Prelude.Int.{ℤ, pos, negsuc}
use e_comos.Prelude.Search.{find_from}

abbrev pub wm2ud_magic : ℕ
wm2ud_magic = 0x574D3255

abbrev pub wm2ud_page_size : ℕ
wm2ud_page_size = 4096

abbrev pub Page : Type 0
Page = List ℕ

pub record Superblock : Type 0 where
  pub magic : ℕ
  pub version : ℕ
  pub page_size : ℕ
  pub total_pages : ℕ
  pub free_pages : ℕ
  pub compression_enabled : ℕ
  pub encryption_enabled : ℕ

-- `physical_block` 0 marks an entry that is not used.
pub record PageEntry : Type 0 where
  pub virtual_addr : ℕ
  pub physical_block : ℕ
  pub compressed_size : ℕ
  pub flags : ℕ
  pub last_access : ℕ

-- `page_table_size` is the length of the table.
pub record Wm2ud : Type 0 where
  pub total_blocks : ℕ
  pub blocks : ℕ → Option Page
  pub writable : ℕ → Bool
  pub superblock : Superblock
  pub page_table : List PageEntry

abbrev pub empty_entry : PageEntry
empty_entry = record {
  virtual_addr = 0;
  physical_block = 0;
  compressed_size = 0;
  flags = 0;
  last_access = 0;
}

abbrev pub entry_at : List PageEntry → ℕ → PageEntry
entry_at table i = get_or table i empty_entry

-- `wm2ud_format` on an open device of `total` blocks
unfoldable pub wm2ud_format : ℕ → (ℕ → Option Page) → (ℕ → Bool) → Wm2ud
wm2ud_format total blocks writable =
    let size = if total == 0 then 2 ^ 30 / wm2ud_page_size else total in
    record {
      total_blocks = size;
      blocks = blocks;
      writable = writable;
      superblock = record {
        magic = wm2ud_magic;
        version = 1;
        page_size = wm2ud_page_size;
        total_pages = size - 1;
        free_pages = size - 1;
        compression_enabled = 0;
        encryption_enabled = 0;
      };
      page_table = replicate 1024 empty_entry;
    }

unfoldable pub hash_addr : ℕ → ℕ → ℕ
hash_addr addr table_size = addr / wm2ud_page_size % table_size

-- some entry has the block
unfoldable pub uses : List PageEntry → ℕ → Bool
uses [] block = false
uses (e ∷ table) block =
    let rest = uses table block in if e.physical_block == block then true else rest

abbrev pub block_found : Wm2ud → Option ℕ → ℕ × Wm2ud
block_found swap none = (0, swap)
block_found swap (some i) = (
  i,
  record swap {
    superblock = record swap.superblock {
      free_pages = (swap.superblock.free_pages + (2 ^ 64 - 1)) % 2 ^ 64;
    };
  },
)

unfoldable pub alloc_block : Wm2ud → ℕ × Wm2ud
alloc_block swap =
    block_found swap (find_from (λ i. not (uses swap.page_table i)) (swap.total_blocks - 1) 1)

unfoldable pub lru_touch : Wm2ud → ℕ → ℕ → Wm2ud
lru_touch swap idx now = record swap {
  page_table =
      set swap.page_table idx (record (entry_at swap.page_table idx) { last_access = now });
}

-- The loop of `lru_evict` over the entries from `i` on.
unfoldable pub evict_from : List PageEntry → ℕ → ℕ → ℕ → ℕ
evict_from [] i oldest victim = victim
evict_from (e ∷ table) i oldest victim =
    let newer = evict_from table (i + 1) e.last_access i in
    let same = evict_from table (i + 1) oldest victim in
    if not (e.physical_block == 0) && ltb e.last_access oldest then newer else same

unfoldable pub lru_evict : List PageEntry → ℕ
lru_evict table = evict_from table 0 (2 ^ 64 - 1) 0

-- where the loops of the three functions stop
abbrev pub stops : ℕ → PageEntry → Bool
stops addr e = e.physical_block == 0 || e.virtual_addr == addr

unfoldable pub probe : ℕ → List PageEntry → ℕ → ℕ → Option ℕ
probe zero table addr idx = none
probe (suc n) table addr idx =
    let rest = probe n table addr ((idx + 1) % length table) in
    if stops addr (entry_at table idx) then some idx else rest

unfoldable pub find_entry : List PageEntry → ℕ → Option ℕ
find_entry table addr = probe (length table) table addr (hash_addr addr (length table))

-- `blk` becomes the block of the entry.
abbrev pub fill_entry : ℕ → ℕ → ℕ → Wm2ud → Wm2ud
fill_entry addr idx blk swap = record swap {
  page_table =
      set swap.page_table idx
        (record (entry_at swap.page_table idx) { physical_block = blk; virtual_addr = addr });
}

-- the block of the oldest entry, which loses it
unfoldable pub take_over : Wm2ud → ℕ × Wm2ud
take_over swap =
    let victim = lru_evict swap.page_table in
    (
      (entry_at swap.page_table victim).physical_block,
      record swap {
        page_table =
            set swap.page_table victim
              (record (entry_at swap.page_table victim) { physical_block = 0 });
      },
    )

abbrev pub or_take_over : ℕ × Wm2ud → ℕ × Wm2ud
or_take_over (blk, swap) = if blk == 0 then take_over swap else (blk, swap)

abbrev pub fill_with : ℕ → ℕ → ℕ × Wm2ud → Wm2ud
fill_with addr idx (blk, swap) = fill_entry addr idx blk swap

-- the entry gets a block, unless it has one
unfoldable pub claim_entry : Wm2ud → ℕ → ℕ → Wm2ud
claim_entry swap addr idx =
    if (entry_at swap.page_table idx).physical_block == 0
    then fill_with addr idx (or_take_over (alloc_block swap))
    else swap

-- the blocks after `file_write_block`, which stores the page or fails
abbrev pub write_block : (ℕ → Bool) → (ℕ → Option Page) → ℕ → Page → ℕ → Option Page
write_block writable blocks block page i =
    if writable block && i == block then some page else blocks i

-- the block of the entry is written, and the result ignored
unfoldable pub store_page : Wm2ud → ℕ → Page → Wm2ud
store_page swap idx page = record swap {
  blocks = write_block swap.writable swap.blocks (entry_at swap.page_table idx).physical_block page;
}

abbrev pub write_at : Wm2ud → ℕ → Page → ℕ → Option ℕ → Option (ℤ × Wm2ud)
write_at swap addr page now none = none
write_at swap addr page now (some idx) =
    some (pos 0, lru_touch (store_page (claim_entry swap addr idx) idx page) idx now)

unfoldable pub wm2ud_write_page : Wm2ud → ℕ → Page → ℕ → Option (ℤ × Wm2ud)
wm2ud_write_page swap addr page now = write_at swap addr page now (find_entry swap.page_table addr)

-- The middle part is what the device read into the buffer, if it did, where the function returns 0.
abbrev pub read_at : Wm2ud → ℕ → Option ℕ → Option (ℤ × Option Page × Wm2ud)
read_at swap now none = none
read_at swap now (some idx) =
    if (entry_at swap.page_table idx).physical_block == 0
    then some (negsuc 0, none, swap)
    else some
        (pos 0, swap.blocks (entry_at swap.page_table idx).physical_block, lru_touch swap idx now)

unfoldable pub wm2ud_read_page : Wm2ud → ℕ → ℕ → Option (ℤ × Option Page × Wm2ud)
wm2ud_read_page swap addr now = read_at swap now (find_entry swap.page_table addr)

abbrev pub release_entry : Wm2ud → ℕ → Wm2ud
release_entry swap idx = record swap {
  superblock = record swap.superblock { free_pages = (swap.superblock.free_pages + 1) % 2 ^ 64 };
  page_table =
      set swap.page_table idx
        (record (entry_at swap.page_table idx) { physical_block = 0; virtual_addr = 0 });
}

abbrev pub free_at : Wm2ud → Option ℕ → Option (ℤ × Wm2ud)
free_at swap none = none
free_at swap (some idx) =
    if (entry_at swap.page_table idx).physical_block == 0
    then some (negsuc 0, swap)
    else some (pos 0, release_entry swap idx)

unfoldable pub wm2ud_free_page : Wm2ud → ℕ → Option (ℤ × Wm2ud)
wm2ud_free_page swap addr = free_at swap (find_entry swap.page_table addr)
