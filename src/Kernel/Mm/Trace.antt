-- ===== src/Kernel/Mm/Trace.antt =====
-- The allocator over any sequence of calls.
use e_comos.Prelude.{
  ℕ, ◌+◌, ◌*◌, ◌^◌, ◌≤◌, ◌<◌, ◌≡◌, ◌≢◌, inl, inr, sym, ◌∙◌, ap, true, List, [], ◌∷◌, arith, dec_lt,
}
use e_comos.Kernel.Mm.{
  Mm, page_size, memory_start, memory_size, page_index, mm_alloc_page, mm_free_page,
}
use e_comos.Kernel.Mm.Alloc.{
  IsValid, is_used, mm_alloc_page-AllocSpec, mm_free_page-Freed, mm_free_page_outside,
}

pub data Call : Type 0 where
  alloc : Call
  free : ℕ → Call

unfoldable pub step : Call → Mm → Mm
step alloc s = (mm_alloc_page s).1
step (free a) s = mm_free_page a s

unfoldable pub run : List Call → Mm → Mm
run [] s = s
run (c ∷ cs) s = run cs (step c s)

abbrev pub InPage : ℕ → ℕ → Type 0
InPage p a = (p ≤ a) × (a < p + page_size)

-- No call frees an address in the page at `p`; pointers are 32-bit numbers.
abbrev pub Keeps : ℕ → List Call → Type 0
Keeps p [] = Unit
Keeps p (alloc ∷ cs) = Keeps p cs
Keeps p (free a ∷ cs) = (a < 2 ^ 32) × (¬ InPage p a) × Keeps p cs

pub mm_alloc_page-IsValid : (s : Mm) → IsValid s → IsValid (mm_alloc_page s).1
mm_alloc_page-IsValid s v = elim (mm_alloc_page-AllocSpec s v) [
  | inl e ↦ rw e.same v
  | inr (k, a) ↦ a.valid
]

mm_free_page-IsValid : (a : ℕ) (s : Mm) → a < 2 ^ 32 → IsValid s → IsValid (mm_free_page a s)
mm_free_page-IsValid a s w v = elim (dec_lt a memory_start) [
  | yes below ↦ rw (mm_free_page_outside a s w (inl below)) v
  | no h ↦ elim (dec_lt a (memory_start + memory_size)) [
    | yes lt ↦ (mm_free_page-Freed a s v (omega arith) lt).valid
    | no ge ↦ rw (mm_free_page_outside a s w (inr (omega arith))) v
  ]
]

alloc_keeps_used :
    (s : Mm) (k : ℕ) → IsValid s → is_used s k ≡ true → is_used (mm_alloc_page s).1 k ≡ true
alloc_keeps_used s k v u = elim (mm_alloc_page-AllocSpec s v) [
  | inl e ↦ rw e.same u
  | inr (i, a) ↦ ground (arith, a.marks k)
]

free_keeps_used :
    (a : ℕ) (s : Mm) (k : ℕ)
    → a < 2 ^ 32
    → ¬ InPage (memory_start + k * page_size) a
    → IsValid s
    → is_used s k ≡ true
    → is_used (mm_free_page a s) k ≡ true
free_keeps_used a s k w away v u = elim (dec_lt a memory_start) [
  | yes below ↦ rw (mm_free_page_outside a s w (inl below)) u
  | no h ↦ elim (dec_lt a (memory_start + memory_size)) [
    | yes lt ↦
        let other : page_index a ≢ k = λ e. away (omega arith) in
        ground (arith, (mm_free_page-Freed a s v (omega arith) lt).marks k, other)
    | no ge ↦ rw (mm_free_page_outside a s w (inr (omega arith))) u
  ]
]

run-marks :
    (cs : List Call) (s : Mm) (k : ℕ)
    → Keeps (memory_start + k * page_size) cs
    → IsValid s
    → is_used s k ≡ true
    → IsValid (run cs s) × (is_used (run cs s) k ≡ true)
unfolding run step
run-marks [] s k h v u = (v, u)
run-marks (alloc ∷ cs) s k h v u =
    run-marks cs (mm_alloc_page s).1 k h (mm_alloc_page-IsValid s v) (alloc_keeps_used s k v u)
run-marks (free a ∷ cs) s k h v u =
    run-marks cs (mm_free_page a s) k h.2 (mm_free_page-IsValid a s h.0 v)
      (free_keeps_used a s k h.0 h.1 v u)

-- A page that was handed out is not handed out again, whatever is allocated and freed in between,
-- unless an address inside it is freed.
pub no_double_alloc :
    (s : Mm) (cs : List Call)
    → IsValid s
    → (mm_alloc_page s).0 ≢ 0
    → Keeps (mm_alloc_page s).0 cs
    → (mm_alloc_page (run cs (mm_alloc_page s).1)).0 ≢ (mm_alloc_page s).0
no_double_alloc s cs v got keeps again = elim (mm_alloc_page-AllocSpec s v) [
  | inl e ↦ got e.null
  | inr (k, a) ↦
      let later =
        run-marks cs (mm_alloc_page s).1 k (rw a.address at keeps) a.valid
          (ground (arith, a.marks k)) in
      (elim (mm_alloc_page-AllocSpec (run cs (mm_alloc_page s).1) later.0) [
        | inl e ↦ got (sym again ∙ e.null)
        | inr (i, b) ↦
            let same : i ≡ k = omega (arith, a.address, b.address) in
            ground (arith, b.was_free, later.1, ap (is_used (run cs (mm_alloc_page s).1)) same)
      ])
]
