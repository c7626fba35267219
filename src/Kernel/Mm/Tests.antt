-- ===== src/Kernel/Mm/Tests.antt =====
-- The allocator and the page tables at concrete inputs.
use Prim.Native.Nat.{bit_or}
use e_comos.Prelude.{
  ℕ, zero, suc, ◌+◌, ◌*◌, ◌/◌, ◌<◌, ◌≤◌, ◌≡◌, ◌≢◌, refl, true, List, [], ◌∷◌, get_or, arith, ◌==◌,
  if◌then◌else◌,
}
use e_comos.Prelude.Int.{pos}
use e_comos.Prelude.Bitmap.{test_bit}
use e_comos.Kernel.Mm.{boot, Mm, page_size, find_free, mm_alloc_page, mm_map_page}
use e_comos.Kernel.Mm.Alloc.{boot-IsValid, AllocSpec, mm_alloc_page-AllocSpec}
use e_comos.Kernel.Mm.Trace.{Call, alloc, free, run, no_double_alloc}
use e_comos.Kernel.Mm.Map.{HasTables, translate, mm_map_page-translate}

boot_alloc : (mm_alloc_page boot).0 ≡ 0x10_0000
unfolding mm_alloc_page find_free test_bit
boot_alloc = refl

mm_alloc_page-AllocSpec_example : AllocSpec boot (mm_alloc_page boot).0 (mm_alloc_page boot).1
mm_alloc_page-AllocSpec_example = mm_alloc_page-AllocSpec boot boot-IsValid

abbrev calls : List Call
calls = alloc ∷ free 0x10_1000 ∷ []

no_double_alloc_example :
    (mm_alloc_page (run calls (mm_alloc_page boot).1)).0 ≢ (mm_alloc_page boot).0
no_double_alloc_example = no_double_alloc boot calls boot-IsValid (omega (arith, boot_alloc)) (
  omega arith,
  λ (p : ((mm_alloc_page boot).0 ≤ 0x10_1000) × (0x10_1000 < (mm_alloc_page boot).0 + page_size)).
      omega (arith, boot_alloc, p.1),
  tt,
)

-- four tables in the pages 1 to 4
abbrev ready : Mm
ready = record boot {
  page_directory = 0x10_0000;
  page_tables = 0x10_1000 ∷ 0x10_2000 ∷ 0x10_3000 ∷ 0x10_4000 ∷ [];
  page_tables_initialized = true;
}

ready_table : (i : ℕ) → i < 4 → get_or ready.page_tables i 0 ≡ 0x10_1000 + i * 0x1000
ready_table zero h = refl
ready_table (suc zero) h = refl
ready_table (suc (suc zero)) h = refl
ready_table (suc (suc (suc zero))) h = refl
ready_table (suc (suc (suc (suc i)))) h = absurd (omega arith)

ready-HasTables : HasTables ready
ready-HasTables = record {
  initialized = refl;
  aligned = λ i h. omega (arith, ready_table i h);
  distinct = λ i j hi hj ne e. omega (arith, ready_table i hi, ready_table j hj);
}

mm_map_page-translate_example :
    ((mm_map_page 0x40_0000 0x20_0000 2 ready).0 ≡ pos 0)
    × (translate (mm_map_page 0x40_0000 0x20_0000 2 ready).1 0x40_0123 ≡ (
        if 0x40_0000 / page_size == 0x40_0123 / page_size
        then bit_or (bit_or 0x20_0000 2) 1
        else translate ready 0x40_0123))
    × ((mm_map_page 0x40_0000 0x20_0000 2 ready).1
        ≡ record ready { mem = (mm_map_page 0x40_0000 0x20_0000 2 ready).1.mem })
mm_map_page-translate_example =
    mm_map_page-translate 0x40_0000 0x20_0000 2 0x40_0123 ready ready-HasTables (omega arith)
      (omega arith)
