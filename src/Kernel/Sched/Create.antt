-- ===== src/Kernel/Sched/Create.antt =====
-- `sched_create_thread` on each of its outcomes.
use mathlib.Core.Path.{subst}
use e_comos.Prelude.{
  ℕ, zero, suc, ◌+◌, ◌-◌, ◌%◌, ◌^◌, ◌<◌, ◌≡◌, ◌≢◌, ◌⊎◌, inl, inr, refl, ap, sym, ◌∙◌, true, false,
  arith, length-set, get_or, set, get_or-set_self, get_or-set_ne, if_ne, if_eq, List, [], ◌∷◌,
}
use e_comos.Prelude.Int.{ℤ, negsuc}
use e_comos.Prelude.Search.{IsFirst, find_from-cases}
use e_comos.Kernel.Mm.{Mm, page_size, mm_alloc_page, store}
use e_comos.Kernel.Mm.Alloc
use e_comos.Kernel.Mm.Alloc.{Allocated, Exhausted, mm_alloc_page-AllocSpec}
use e_comos.Kernel.Mm.Map.{store_self}
use e_comos.Kernel.Sched.{
  Thread, Sched, ready, max_threads, free_thread, thread, is_vacant, int_of, claimed, new_thread,
  stack_top, with_stack, create_in, create_if, sched_create_thread,
}
use e_comos.Kernel.Sched.Valid.{IsValid}

-- No slot is free: -1, and nothing changes.
pub record TableFull (s : Sched) (m : Mm) (r : ℤ × Sched × Mm) : Type 0 where
  pub none_vacant : (j : ℕ) → j < max_threads → is_vacant (thread s j) ≡ false
  pub unchanged : r ≡ (negsuc 0, s, m)

-- Slot `i`, the first free one, is claimed by a ready thread with the next identifier, and no other
-- slot changes. This is so whether or not there is a page for its stack.
pub record Claims (s s' : Sched) (i : ℕ) : Type 0 where
  pub in_range : i < max_threads
  pub vacant : is_vacant (thread s i) ≡ true
  pub first : (j : ℕ) → j < i → is_vacant (thread s j) ≡ false
  pub ready_now : ((thread s' i).state ≡ ready) × ((thread s' i).id ≡ s.next_thread_id)
  pub others : (j : ℕ) → i ≢ j → thread s' j ≡ thread s j
  pub next_id : s'.next_thread_id ≡ (s.next_thread_id + 1) % 2 ^ 32
  pub valid : IsValid s'

-- No page is free: -1, but the slot stays claimed, with the stack pointer that it had.
pub record NoStack (s : Sched) (m : Mm) (r : ℤ × Sched × Mm) (i : ℕ) : Type 0 where
  pub failed : r.0 ≡ negsuc 0
  pub claims : Claims s r.1 i
  pub old_stack : (thread r.1 i).stack_ptr ≡ (thread s i).stack_ptr
  pub exhausted : Exhausted m 0 r.2

-- The thread is created: its stack is the last word of a page of its own, which holds the entry point.
pub record Created (entry_point : ℕ) (s : Sched) (m : Mm) (r : ℤ × Sched × Mm) (i k : ℕ)
    : Type 0 where
  pub result : r.0 ≡ int_of s.next_thread_id
  pub claims : Claims s r.1 i
  pub page : Allocated m (mm_alloc_page m).0 (mm_alloc_page m).1 k
  pub stack : (thread r.1 i).stack_ptr ≡ (mm_alloc_page m).0 + page_size - 4
  pub entry : r.2.mem ((thread r.1 i).stack_ptr) ≡ entry_point % 2 ^ 32
  pub allocator : r.2 ≡ record (mm_alloc_page m).1 { mem = r.2.mem }

abbrev pub CreateSpec : ℕ → Sched → Mm → ℤ × Sched × Mm → Type 0
CreateSpec entry_point s m r =
    TableFull s m r
    ⊎ ((i : ℕ) × NoStack s m r i)
    ⊎ ((i : ℕ) × (k : ℕ) × Created entry_point s m r i k)

claim_lem :
    (i : ℕ) (t : Thread) {s : Sched}
    → IsValid s
    → IsFirst (λ i. is_vacant (thread s i)) 0 max_threads i
    → t.state ≡ ready
    → t.id ≡ s.next_thread_id
    → Claims s
        (record s { threads = set s.threads i t; next_thread_id = (s.next_thread_id + 1) % 2 ^ 32 })
        i
claim_lem i t {s} v f st named = record {
  in_range = omega (arith, f.below);
  vacant = f.passes;
  first = λ j h. f.earlier j (omega arith) h;
  ready_now = (ap (λ (u : Thread). u.state) here ∙ st, ap (λ (u : Thread). u.id) here ∙ named);
  others = λ j ne. get_or-set_ne s.threads i j t free_thread ne;
  next_id = refl;
  valid = record {
    slots = length-set s.threads i t ∙ v.slots;
    current_in = v.current_in;
    last_in = v.last_in;
  };
}
  where
    here : get_or (set s.threads i t) i free_thread ≡ t
    here = get_or-set_self s.threads i t free_thread (omega (arith, v.slots, f.below))

-- Setting a slot twice keeps the second value.
set-set : (ts : List Thread) (i : ℕ) (t u : Thread) → set (set ts i t) i u ≡ set ts i u
set-set [] i t u = refl
set-set (x ∷ ts) zero t u = refl
set-set (x ∷ ts) (suc i) t u = ap (λ r. x ∷ r) (set-set ts i t u)

create_in-NoStack :
    (entry_point i : ℕ) {s : Sched} {m : Mm}
    → IsValid s
    → IsFirst (λ i. is_vacant (thread s i)) 0 max_threads i
    → Exhausted m (mm_alloc_page m).0 (mm_alloc_page m).1
    → NoStack s m (create_in entry_point i s m) i
unfolding create_in
create_in-NoStack entry_point i {s} {m} v f x =
    subst (λ r. NoStack s m r i) (sym (if_eq (mm_alloc_page m).0 0 _ _ x.null))
      (record {
        failed = refl;
        claims = claim_lem i (new_thread i s) v f refl refl;
        old_stack =
            ap (λ (t : Thread). t.stack_ptr)
              (get_or-set_self s.threads i (new_thread i s) free_thread
                (omega (arith, v.slots, f.below)));
        exhausted = record { null = refl; all_used = x.all_used; same = x.same };
      })

create_in-Created :
    (entry_point i : ℕ) {s : Sched} {m : Mm} {k : ℕ}
    → IsValid s
    → IsFirst (λ i. is_vacant (thread s i)) 0 max_threads i
    → Allocated m (mm_alloc_page m).0 (mm_alloc_page m).1 k
    → Created entry_point s m (create_in entry_point i s m) i k
unfolding create_in
create_in-Created entry_point i {s} {m} {k} v f a =
    let p : ℕ = (mm_alloc_page m).0 in
    let t : Thread = record (new_thread i s) { stack_ptr = stack_top p } in
    let top : stack_top p ≡ p + page_size - 4 = omega (arith, a.address, a.in_range) in
    let slot : (thread (with_stack entry_point p i s (mm_alloc_page m).1).1 i).stack_ptr
        ≡ stack_top p =
      ap (λ (u : Thread). u.stack_ptr)
        (get_or-set_self (claimed i s).threads i t free_thread
          (omega (arith, v.slots, f.below, length-set s.threads i (new_thread i s)))) in
    subst (λ r. Created entry_point s m r i k) (sym (if_ne p 0 _ _ (omega (arith, a.address))))
      (record {
        result = refl;
        claims = rw (set-set s.threads i (new_thread i s) t) (claim_lem i t v f refl refl);
        page = a;
        stack = slot ∙ top;
        entry =
            ap (store (mm_alloc_page m).1.mem (stack_top p) (entry_point % 2 ^ 32)) slot
            ∙ store_self (mm_alloc_page m).1.mem (stack_top p) (entry_point % 2 ^ 32);
        allocator = refl;
      })

-- From valid states, `sched_create_thread` has one of three outcomes. Every slot is in use: it returns
-- -1 and nothing changes. Or the first free slot is claimed with the next identifier and a page is
-- taken: the thread is ready, its stack is the last word of that page, which holds the entry point, and
-- its identifier is returned. Or no page is left: it returns -1, but the slot stays claimed by a ready
-- thread with the stack pointer that the slot had.
pub sched_create_thread-CreateSpec :
    (entry_point : ℕ) (s : Sched) (m : Mm)
    → IsValid s
    → Alloc.IsValid m
    → CreateSpec entry_point s m (sched_create_thread entry_point s m)
unfolding sched_create_thread
sched_create_thread-CreateSpec entry_point s m v w =
    elim (find_from-cases (λ i. is_vacant (thread s i)) max_threads 0) [
      | inl (i, e, f) ↦
          subst (CreateSpec entry_point s m) (sym (ap (create_if entry_point s m) e))
            (elim (mm_alloc_page-AllocSpec m w) [
              | inl x ↦ inr (inl (i, create_in-NoStack entry_point i v f x))
              | inr (k, a) ↦ inr (inr (i, k, create_in-Created entry_point i v f a))
            ])
      | inr (e, empty) ↦
          subst (CreateSpec entry_point s m) (sym (ap (create_if entry_point s m) e)) (
            inl (record {
              none_vacant = λ j h. empty j (omega arith) (omega arith);
              unchanged = refl;
            }))
    ]
