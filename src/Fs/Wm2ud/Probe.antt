-- ===== src/Fs/Wm2ud/Probe.antt =====
-- The search for an entry: when it stops, and what a changed entry does to it.
use mathlib.Core.Path.{subst}
use native.Mathlib.Nat.{mod-add-mod, mod-eq_of_lt, mod-eq-sub-mod}
use e_comos.Prelude.{
  ℕ, zero, suc, ◌+◌, ◌-◌, ◌/◌, ◌%◌, ◌<◌, ◌≡◌, ◌≢◌, ◌⊎◌, inl, inr, refl, ap, sym, ◌∙◌, true, false,
  none, some, List, [], ◌∷◌, length, set, arith, Bool-cases, if_true, if_false, ℕ_discrete, dec_le,
  get_or-set_self, get_or-set_ne, length-set,
}
use e_comos.Fs.Wm2ud.{
  PageEntry, empty_entry, entry_at, stops, probe, find_entry, hash_addr, wm2ud_page_size,
}

abbrev pub IsStop : List PageEntry → ℕ → ℕ → Type 0
IsStop table addr i = stops addr (entry_at table i) ≡ true

pub probe_now :
    (n : ℕ) (table : List PageEntry) (addr idx : ℕ)
    → IsStop table addr idx
    → probe (suc n) table addr idx ≡ some idx
unfolding probe
probe_now n table addr idx h = if_true _ _ h

probe_on :
    (n : ℕ) (table : List PageEntry) (addr idx : ℕ)
    → stops addr (entry_at table idx) ≡ false
    → probe (suc n) table addr idx ≡ probe n table addr ((idx + 1) % length table)
unfolding probe
probe_on n table addr idx h = if_false _ _ h

probe-zero :
    (table : List PageEntry) (addr idx : ℕ) {j : ℕ} → probe zero table addr idx ≡ some j → ⊥
unfolding probe
probe-zero table addr idx e = ground arith

-- a search that has found nothing yet and one that has
some_same : {a b : ℕ} → some a ≡ some b → a ≡ b
some_same e = cc

-- The search stops where it may stop, inside the table.
pub probe-IsStop :
    (n : ℕ) (table : List PageEntry) (addr idx : ℕ) {j : ℕ}
    → idx < length table
    → probe n table addr idx ≡ some j
    → IsStop table addr j × (j < length table)
probe-IsStop zero table addr idx h e = absurd (probe-zero table addr idx e)
probe-IsStop (suc n) table addr idx {j} h e = elim (Bool-cases (stops addr (entry_at table idx))) [
  | inl on ↦
      let here : idx ≡ j = some_same (sym (probe_now n table addr idx on) ∙ e) in
      (subst (IsStop table addr) here on, rw (← here) h)
  | inr off ↦
      probe-IsStop n table addr ((idx + 1) % length table) (omega arith)
        (sym (probe_on n table addr idx off) ∙ e)
]

entry-set_ne :
    (table : List PageEntry) (k i : ℕ) (e : PageEntry)
    → k ≢ i
    → entry_at (set table k e) i ≡ entry_at table i
entry-set_ne table k i e ne = get_or-set_ne table k i e empty_entry ne

-- A changed entry at which the search does not stop leaves what it finds elsewhere.
pub probe-passes :
    (n : ℕ) (table : List PageEntry) (addr idx k : ℕ) (e : PageEntry) {j : ℕ}
    → j ≢ k
    → stops addr e ≡ false
    → k < length table
    → probe n table addr idx ≡ some j
    → probe n (set table k e) addr idx ≡ some j
probe-passes zero table addr idx k e ne off inside found = absurd (probe-zero table addr idx found)
probe-passes (suc n) table addr idx k e {j} ne off inside found =
    elim (Bool-cases (stops addr (entry_at table idx))) [
      | inl on ↦
          let here : idx ≡ j = some_same (sym (probe_now n table addr idx on) ∙ found) in
          probe_now n (set table k e) addr idx
            (ap (stops addr) (entry-set_ne table k idx e (λ same. ne (sym here ∙ sym same))) ∙ on)
          ∙ ap some here
      | inr on ↦
          probe_on n (set table k e) addr idx (still on)
          ∙ ap (λ size. probe n (set table k e) addr ((idx + 1) % size)) (length-set table k e)
          ∙ probe-passes n table addr ((idx + 1) % length table) k e ne off inside
              (sym (probe_on n table addr idx on) ∙ found)
    ]
  where
    still :
        stops addr (entry_at table idx) ≡ false → stops addr (entry_at (set table k e) idx) ≡ false
    still on = elim (ℕ_discrete k idx) [
      | yes same ↦
          ap (λ i. stops addr (entry_at (set table k e) i)) (sym same)
          ∙ ap (stops addr) (get_or-set_self table k e empty_entry inside)
          ∙ off
      | no other ↦ ap (stops addr) (entry-set_ne table k idx e other) ∙ on
    ]

-- A changed entry at which the search stops is found, if the old one was.
pub probe-stays :
    (n : ℕ) (table : List PageEntry) (addr idx k : ℕ) (e : PageEntry)
    → stops addr e ≡ true
    → k < length table
    → probe n table addr idx ≡ some k
    → probe n (set table k e) addr idx ≡ some k
probe-stays zero table addr idx k e on inside found = absurd (probe-zero table addr idx found)
probe-stays (suc n) table addr idx k e on inside found = elim (ℕ_discrete k idx) [
  | yes same ↦
      probe_now n (set table k e) addr idx (
        ap (λ i. stops addr (entry_at (set table k e) i)) (sym same)
        ∙ ap (stops addr) (get_or-set_self table k e empty_entry inside)
        ∙ on)
      ∙ ap some (sym same)
  | no other ↦ elim (Bool-cases (stops addr (entry_at table idx))) [
    | inl here ↦ absurd (other (sym (some_same (sym (probe_now n table addr idx here) ∙ found))))
    | inr off ↦
        probe_on n (set table k e) addr idx
          (ap (stops addr) (entry-set_ne table k idx e other) ∙ off)
        ∙ ap (λ size. probe n (set table k e) addr ((idx + 1) % size)) (length-set table k e)
        ∙ probe-stays n table addr ((idx + 1) % length table) k e on inside
            (sym (probe_on n table addr idx off) ∙ found)
  ]
]

-- A search that may stop at a slot within its rounds stops.
pub probe_ends :
    (n : ℕ) (table : List PageEntry) (addr idx d : ℕ)
    → d < n
    → idx < length table
    → IsStop table addr ((idx + d) % length table)
    → (j : ℕ) × (probe n table addr idx ≡ some j)
probe_ends zero table addr idx d h inside on = absurd (omega arith)
probe_ends (suc n) table addr idx zero h inside on = (
  idx,
  probe_now n table addr idx (
      subst (IsStop table addr) (ap (λ i. i % length table) (omega arith) ∙ mod-eq_of_lt inside)
        on),
)
probe_ends (suc n) table addr idx (suc d) h inside on =
    elim (Bool-cases (stops addr (entry_at table idx))) [
      | inl here ↦ (idx, probe_now n table addr idx here)
      | inr off ↦
          let (j, e) =
            probe_ends n table addr ((idx + 1) % length table) d (omega arith) (omega arith) (
              subst (IsStop table addr)
                (ap (λ i. i % length table) (omega arith)
                  ∙ sym (mod-add-mod (idx + 1) (length table) d))
                on) in
          (j, probe_on n table addr idx off ∙ e)
    ]

-- No entry is free or has the address.
pub data AllTaken (addr : ℕ) : List PageEntry → Type 0 where
  nil : AllTaken addr []
  cons :
      {e : PageEntry} {table : List PageEntry}
      → stops addr e ≡ false
      → AllTaken addr table
      → AllTaken addr (e ∷ table)

taken_at :
    (addr : ℕ) (table : List PageEntry) (i : ℕ)
    → AllTaken addr table
    → i < length table
    → stops addr (entry_at table i) ≡ false
taken_at addr [] i nil h = absurd (omega arith)
taken_at addr (e ∷ table) zero (cons off all) h = off
taken_at addr (e ∷ table) (suc i) (cons off all) h = taken_at addr table i all (omega arith)

-- The search goes round and round.
pub probe-AllTaken :
    (n : ℕ) (table : List PageEntry) (addr idx : ℕ)
    → AllTaken addr table
    → idx < length table
    → probe n table addr idx ≡ none
unfolding probe
probe-AllTaken zero table addr idx all h = refl
probe-AllTaken (suc n) table addr idx all h =
    if_false _ _ (taken_at addr table idx all h)
    ∙ probe-AllTaken n table addr ((idx + 1) % length table) all (omega arith)

taken-cases :
    (addr : ℕ) (table : List PageEntry)
    → ((i : ℕ) × (i < length table) × IsStop table addr i) ⊎ AllTaken addr table
taken-cases addr [] = inr nil
taken-cases addr (e ∷ table) = elim (Bool-cases (stops addr e)) [
  | inl on ↦ inl (0, omega arith, on)
  | inr off ↦ elim (taken-cases addr table) [
    | inl (i, h, on) ↦ inl (suc i, omega arith, on)
    | inr all ↦ inr (AllTaken.cons off all)
  ]
]

-- Each slot of a table of `size` slots is less than `size` steps away.
distance :
    (start i size : ℕ) → start < size → i < size → (d : ℕ) × (d < size) × ((start + d) % size ≡ i)
distance start i size h inside = elim (dec_le start i) [
  | yes le ↦ (i - start, omega arith, ap (λ n. n % size) (omega arith) ∙ mod-eq_of_lt inside)
  | no gt ↦ (
    i + size - start,
    omega arith,
    ap (λ n. n % size) {y = i + size} (omega arith)
        ∙ mod-eq-sub-mod {n = i + size} (omega arith)
        ∙ ap (λ n. n % size) (omega arith)
        ∙ mod-eq_of_lt inside,
  )
]

-- An entry is found within one round, or none ever is.
pub find_entry-cases :
    (table : List PageEntry) (addr : ℕ)
    → 0 < length table
    → ((j : ℕ) × (find_entry table addr ≡ some j) × IsStop table addr j × (j < length table))
      ⊎ (AllTaken addr table
          × ((n : ℕ) → probe n table addr (hash_addr addr (length table)) ≡ none))
unfolding find_entry hash_addr
find_entry-cases table addr h = elim (taken-cases addr table) [
  | inr all ↦ inr (all, λ n. probe-AllTaken n table addr _ all (omega arith))
  | inl (i, inside, on) ↦
      let start = addr / wm2ud_page_size % length table in
      let (d, near, there) = distance start i (length table) (omega arith) inside in
      let (j, e) =
        probe_ends (length table) table addr start d near (omega arith)
          (subst (IsStop table addr) (sym there) on) in
      let (stop, below) = probe-IsStop (length table) table addr start (omega arith) e in
      inl (j, e, stop, below)
]

-- What is found stops the search, inside the table.
pub find_entry-IsStop :
    (table : List PageEntry) (addr : ℕ) {j : ℕ}
    → find_entry table addr ≡ some j
    → IsStop table addr j × (j < length table)
unfolding find_entry hash_addr
find_entry-IsStop [] addr e = absurd (probe-zero [] addr _ e)
find_entry-IsStop (x ∷ table) addr e =
    probe-IsStop (length (x ∷ table)) (x ∷ table) addr _ (omega arith) e
