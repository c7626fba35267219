-- ===== src/Kernel/Mm/Init.antt =====
-- `init_page_tables`: what the four tables hold when it succeeds.
use e_comos.Prelude.{ℕ, ◌+◌, ◌*◌, ◌/◌, ◌≤◌, ◌<◌, ◌≡◌, get_or}
use e_comos.Kernel.Mm.{Mm, page_size}
use e_comos.Kernel.Mm.Alloc.{IsValid}
use e_comos.Kernel.Mm.Map.{HasTables, translate, pte_of}
use e_comos.Kernel.Mm.Tables.{identity_entry}

-- What `init_page_tables` leaves behind: four distinct page tables in pages of their own, each entry of
-- which maps a page of the first 16 MB to itself, present and writable, exactly if the page lies in
-- the managed memory, and a page directory whose first four entries point to them and whose other 1020
-- entries are 0.
pub record MapsIdentity (s : Mm) : Type 0 where
  pub allocator : IsValid s
  pub tables : HasTables s
  pub identity :
      (v : ℕ) → v < 16 * 1024 * 1024 → translate s v ≡ identity_entry (v / page_size * page_size)
  pub directory :
      (j : ℕ) → j < 4 → s.mem (s.page_directory + 4 * j) ≡ pte_of (get_or s.page_tables j 0)
  pub absent : (j : ℕ) → 4 ≤ j → j < 1024 → s.mem (s.page_directory + 4 * j) ≡ 0
