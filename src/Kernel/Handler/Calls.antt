-- ===== src/Kernel/Handler/Calls.antt =====
-- What each system call keeps.
use mathlib.Core.Path.{subst}
use e_comos.Prelude.{
  ℕ, zero, suc, ◌+◌, ◌*◌, ◌/◌, ◌^◌, ◌%◌, ◌≤◌, ◌<◌, ◌≡◌, ◌≢◌, ◌⊎◌, inl, inr, refl, ap, sym, ◌∙◌,
  Bool, true, false, ◌||◌, Option, none, some, List, length, get_or, set, leb, ltb, ◌==◌,
  if◌then◌else◌, arith, Bool-cases, if_true, if_false, length-set,
}
use e_comos.Prelude.Int.{ℤ, pos, negsuc}
use e_comos.Kernel.Ipc.{Ipc, Message, ipc_send, ipc_receive}
use e_comos.Kernel.Ipc.Valid.{ipc_receive-IsValid, ipc_send-IsValid}
use e_comos.Kernel.Mm.{
  Mm, memory_start, memory_size, mm_alloc_page, clear_table, install_table, init_tables,
  init_page_tables, store, map_page, after_init, mm_map_page,
}
use e_comos.Kernel.Mm.Trace.{mm_alloc_page-IsValid}
use e_comos.Kernel.Sched.{Sched, sched_yield}
use e_comos.Kernel.Sched.Valid
use e_comos.Kernel.Sched.Schedule.{sched_yield-IsValid}
use e_comos.Kernel.Irq.{Irq, waiter, max_irqs, syscall_irq_reset_count}
use e_comos.Kernel.Irq.Wait.{Round, syscall_irq_wait}
use e_comos.Kernel.Irq.Finish.{clear_flag-IsValid}
use e_comos.Kernel.Irq.Returns.{WaitSpec, syscall_irq_wait-WaitSpec}
use e_comos.Kernel.Main.{Kernel}
use e_comos.Kernel.Main.Round.{IsValid}
use e_comos.Kernel.Handler.{
  Messages, Outcome, sent, received, mapped, waited, counted, syscall_handler,
}

abbrev MmValid : Mm → Type 0
MmValid = e_comos.Kernel.Mm.Alloc.IsValid

abbrev IrqValid : Irq → Type 0
IrqValid = e_comos.Kernel.Irq.Valid.IsValid

-- Only the bitmap and where its search starts matter.
pub same_bitmap :
    {s : Mm} (s' : Mm)
    → MmValid s
    → s'.page_bitmap ≡ s.page_bitmap
    → s'.next_free_page ≡ s.next_free_page
    → MmValid s'
same_bitmap s' v bitmap next = record {
  covers = ap length bitmap ∙ v.covers;
  bytes = subst e_comos.Prelude.Bitmap.IsBytes (sym bitmap) v.bytes;
  next_in = omega (arith, next, v.next_in);
  used_below = λ j h.
      ap (λ bm. e_comos.Prelude.Bitmap.test_bit bm j) bitmap ∙ v.used_below j (omega (arith, next));
}

init_tables-IsValid : (n i : ℕ) (s : Mm) → MmValid s → MmValid (init_tables n i s).1
unfolding init_tables
init_tables-IsValid zero i s v = same_bitmap _ v refl refl
init_tables-IsValid (suc n) i s v = elim (Bool-cases ((mm_alloc_page s).0 == 0)) [
  | inl on ↦
      subst (λ (r : ℤ × Mm). MmValid r.1) (sym (if_true _ _ on)) (same_bitmap _ allocated refl refl)
  | inr off ↦
      subst (λ (r : ℤ × Mm). MmValid r.1) (sym (if_false _ _ off))
        (init_tables-IsValid n (i + 1) _ (same_bitmap _ allocated refl refl))
]
  where
    allocated : MmValid (mm_alloc_page s).1
    allocated = mm_alloc_page-IsValid s v

init_page_tables-IsValid : (s : Mm) → MmValid s → MmValid (init_page_tables s).1
unfolding init_page_tables
init_page_tables-IsValid s v = elim (Bool-cases s.page_tables_initialized) [
  | inl on ↦ subst (λ (r : ℤ × Mm). MmValid r.1) (sym (if_true _ _ on)) v
  | inr off ↦
      subst (λ (r : ℤ × Mm). MmValid r.1) (sym (if_false _ _ off))
        (elim (Bool-cases ((mm_alloc_page s).0 == 0)) [
          | inl none_left ↦
              subst (λ (r : ℤ × Mm). MmValid r.1) (sym (if_true _ _ none_left))
                (same_bitmap _ allocated refl refl)
          | inr some_left ↦
              subst (λ (r : ℤ × Mm). MmValid r.1) (sym (if_false _ _ some_left))
                (init_tables-IsValid 4 0 _ (same_bitmap _ allocated refl refl))
        ])
]
  where
    allocated : MmValid (mm_alloc_page s).1
    allocated = mm_alloc_page-IsValid s v

-- the two tests of `mm_map_page`
abbrev outside : ℕ → ℕ → Bool
outside virtual_addr physical_addr =
    ltb physical_addr memory_start
    || leb (memory_start + memory_size) physical_addr
    || leb (16 * 1024 * 1024) virtual_addr

abbrev no_table : ℕ → Mm → Bool
no_table virtual_addr s =
    leb 4 (virtual_addr / 2 ^ 22) || get_or s.page_tables (virtual_addr / 2 ^ 22) 0 == 0

map_page-IsValid : (v p f : ℕ) (s : Mm) → MmValid s → MmValid (map_page v p f s).1
unfolding map_page
map_page-IsValid va pa f s v = elim (Bool-cases (outside va pa)) [
  | inl out ↦ subst (λ (r : ℤ × Mm). MmValid r.1) (sym (if_true _ _ out)) v
  | inr within ↦
      subst (λ (r : ℤ × Mm). MmValid r.1) (sym (if_false _ _ within))
        (elim (Bool-cases (no_table va s)) [
          | inl missing ↦ subst (λ (r : ℤ × Mm). MmValid r.1) (sym (if_true _ _ missing)) v
          | inr present ↦
              subst (λ (r : ℤ × Mm). MmValid r.1) (sym (if_false _ _ present))
                (same_bitmap _ v refl refl)
        ])
]

mm_map_page-IsValid : (v p f : ℕ) (s : Mm) → MmValid s → MmValid (mm_map_page v p f s).1
unfolding mm_map_page
mm_map_page-IsValid va pa f s v = go (init_page_tables s) (init_page_tables-IsValid s v)
  where
    go :
        (r : ℤ × Mm)
        → MmValid r.1
        → MmValid (after_init (λ s1. (negsuc 0, s1)) (map_page va pa f) r).1
    go (pos zero, s1) w = map_page-IsValid va pa f s1 w
    go (pos (suc n), s1) w = w
    go (negsuc n, s1) w = w

-- The interrupt table and the scheduler are kept by a wait.
abbrev Kept : Option (ℤ × Irq × Sched) → Type 0
Kept none = 0 ≤ 0
Kept (some r) = IrqValid r.1 × Valid.IsValid r.2

syscall_irq_wait-Kept :
    (irq_num flags timeout_ms now : ℕ) (rs : List Round) (s : Irq) (p : Sched)
    → IrqValid s
    → Valid.IsValid p
    → Kept (syscall_irq_wait irq_num flags timeout_ms now rs s p)
syscall_irq_wait-Kept irq_num flags timeout_ms now rs s p v l =
    go (syscall_irq_wait-WaitSpec irq_num flags timeout_ms now rs s p v l)
  where
    go : {r : Option (ℤ × Irq × Sched)} → WaitSpec irq_num flags timeout_ms now rs s p r → Kept r
    go (WaitSpec.unknown_line far) = (v, l)
    go (WaitSpec.no_process known e) = (v, l)
    go (WaitSpec.pending known process on) = (clear_flag-IsValid irq_num flags s v, l)
    go (WaitSpec.refused known process off on) = (v, l)
    go (WaitSpec.twice t w) = (v, l)
    go (WaitSpec.full t new all) = (v, l)
    go (WaitSpec.waiting s' p' t new e b f never) = omega arith
    go (WaitSpec.returned s' p' st {r = r} t new e b f why o) = (o.valid, o.threads)

reset_count-IsValid :
    (irq_num : ℕ) (s : Irq) → IrqValid s → IrqValid (syscall_irq_reset_count irq_num s).1
unfolding syscall_irq_reset_count
reset_count-IsValid irq_num s v = elim (Bool-cases (leb max_irqs irq_num)) [
  | inl far ↦ subst (λ (r : ℤ × Irq). IrqValid r.1) (sym (if_true _ _ far)) v
  | inr near ↦
      subst (λ (r : ℤ × Irq). IrqValid r.1) (sym (if_false _ _ near))
        record {
          slots = v.slots;
          lines = v.lines;
          counters = length-set s.count irq_num 0 ∙ v.counters;
          bounded = v.bounded;
          beyond = v.beyond;
          unique = v.unique;
        }
]

-- The kernel is well formed after the call, if it is over.
abbrev pub After : Outcome → Type 0
After none = 0 ≤ 0
After (some (rc, msgs, k)) = IsValid k

mapped-After :
    (msgs : Messages) (k : Kernel) (r : ℤ × Mm) → IsValid k → MmValid r.1 → After (mapped msgs k r)
mapped-After msgs k (rc, mm) v w = record { ipc = v.ipc; irq = v.irq; threads = v.threads; mm = w }

waited-After :
    (msgs : Messages) (k : Kernel) (r : Option (ℤ × Irq × Sched))
    → IsValid k
    → Kept r
    → After (waited msgs k r)
waited-After msgs k none v w = w
waited-After msgs k (some (rc, irq, sched)) v w = record {
  ipc = v.ipc;
  irq = w.0;
  threads = w.1;
  mm = v.mm;
}

counted-After :
    (msgs : Messages) (k : Kernel) (r : ℤ × Irq)
    → IsValid k
    → IrqValid r.1
    → After (counted msgs k r)
counted-After msgs k (rc, irq) v w = record { ipc = v.ipc; irq = w; threads = v.threads; mm = v.mm }

sent-After :
    (msgs : Messages) (k : Kernel) (r : ℤ × Ipc)
    → IsValid k
    → e_comos.Kernel.Ipc.Valid.IsValid r.1
    → After (sent msgs k r)
sent-After msgs k (rc, ipc) v w = record { ipc = w; irq = v.irq; threads = v.threads; mm = v.mm }

received-After :
    (addr : ℕ) (msgs : Messages) (k : Kernel) (r : ℤ × Option Message × Ipc)
    → IsValid k
    → e_comos.Kernel.Ipc.Valid.IsValid r.2
    → After (received addr msgs k r)
received-After addr msgs k (rc, msg, ipc) v w = record {
  ipc = w;
  irq = v.irq;
  threads = v.threads;
  mm = v.mm;
}

yielded-After :
    (msgs : Messages) (k : Kernel)
    → IsValid k
    → After (some (pos 0, msgs, record k { sched = sched_yield k.sched }))
yielded-After msgs k v = record {
  ipc = v.ipc;
  irq = v.irq;
  threads = sched_yield-IsValid k.sched v.threads;
  mm = v.mm;
}

-- one case of the `switch`
either : (c : Bool) (a b : Outcome) → After a → After b → After (if c then a else b)
either true a b x y = x
either false a b x y = y

pub syscall_handler-After :
    (now : ℕ) (rs : List Round) (syscall_num arg1 arg2 arg3 : ℕ) (msgs : Messages) (k : Kernel)
    → IsValid k
    → After (syscall_handler now rs syscall_num arg1 arg2 arg3 msgs k)
unfolding syscall_handler
syscall_handler-After now rs num a b c msgs k v =
    either (num == 1) _ _
      (sent-After msgs k (ipc_send a (msgs b) k.ipc) v (ipc_send-IsValid a (msgs b) v.ipc))
      (either (num == 2) _ _
        (received-After a msgs k (ipc_receive k.ipc) v (ipc_receive-IsValid v.ipc))
        (either (num == 3) _ _ (yielded-After msgs k v) (
          either (num == 4) _ _
            (mapped-After msgs k (mm_map_page a b c k.mm) v (mm_map_page-IsValid a b c k.mm v.mm))
            (either (num == 5) _ _
              (waited-After msgs k (syscall_irq_wait (a % 256) (b % 256) c now rs k.irq k.sched) v
                (syscall_irq_wait-Kept (a % 256) (b % 256) c now rs k.irq k.sched v.irq v.threads))
              (either (num == 6) _ _ v (
                either (num == 7) _ _
                  (counted-After msgs k (syscall_irq_reset_count (a % 256) k.irq) v
                    (reset_count-IsValid (a % 256) k.irq v.irq))
                  v))))))
