-- ===== src/Fs/Wm2ud/Evict.antt =====
-- The page that is evicted is the one that was used least recently.
use e_comos.Prelude.{
  ℕ, zero, suc, ◌+◌, ◌-◌, ◌^◌, ◌≤◌, ◌<◌, ◌≡◌, ◌≢◌, inl, inr, refl, sym, Bool, true, false, not,
  ◌&&◌, List, [], ◌∷◌, length, ltb, ◌==◌, arith, Bool-cases, if_true, if_false,
}
use mathlib.Core.Path.{subst}
use e_comos.Fs.Wm2ud.{PageEntry, entry_at, evict_from, lru_evict}

abbrev pub block_of : List PageEntry → ℕ → ℕ
block_of table i = (entry_at table i).physical_block

abbrev pub access_of : List PageEntry → ℕ → ℕ
access_of table i = (entry_at table i).last_access

-- A used entry that no other used entry is older than.
pub record IsOldest (table : List PageEntry) (victim : ℕ) : Type 0 where
  pub inside : victim < length table
  pub used : block_of table victim ≢ 0
  pub oldest : (j : ℕ) → block_of table j ≢ 0 → access_of table victim ≤ access_of table j

-- What the loop leaves from the entries of `table`, the first of which has the index `i`.
data EvictSpec (table : List PageEntry) (i oldest victim : ℕ) : ℕ → Type 0 where
  kept :
      ((j : ℕ) → block_of table j ≢ 0 → oldest ≤ access_of table j)
      → EvictSpec table i oldest victim victim
  newer :
      (k : ℕ)
      → IsOldest table k
      → access_of table k < oldest
      → EvictSpec table i oldest victim (i + k)

abbrev chosen : PageEntry → ℕ → Bool
chosen e oldest = not (e.physical_block == 0) && ltb e.last_access oldest

not_chosen :
    (e : PageEntry) (oldest : ℕ)
    → chosen e oldest ≡ false
    → e.physical_block ≢ 0
    → oldest ≤ e.last_access
not_chosen e oldest off used = ground arith

evict_from-EvictSpec :
    (table : List PageEntry) (i oldest victim : ℕ)
    → EvictSpec table i oldest victim (evict_from table i oldest victim)
unfolding evict_from
evict_from-EvictSpec [] i oldest victim = EvictSpec.kept (λ j used. absurd (used refl))
evict_from-EvictSpec (e ∷ table) i oldest victim = elim (Bool-cases (chosen e oldest)) [
  | inl on ↦
      subst (EvictSpec (e ∷ table) i oldest victim) (sym (if_true _ _ on))
        (taken (is_chosen e oldest on) (evict_from-EvictSpec table (i + 1) e.last_access i))
  | inr off ↦
      subst (EvictSpec (e ∷ table) i oldest victim) (sym (if_false _ _ off))
        (passed off (evict_from-EvictSpec table (i + 1) oldest victim))
]
  where
    is_chosen :
        (e : PageEntry) (oldest : ℕ)
        → chosen e oldest ≡ true
        → (e.physical_block ≢ 0) × (e.last_access < oldest)
    is_chosen e oldest on = ground arith

    later :
        (k v o : ℕ)
        → EvictSpec (e ∷ table) i o v (i + suc k)
        → EvictSpec (e ∷ table) i o v (i + 1 + k)
    later k v o x = subst (EvictSpec (e ∷ table) i o v) (omega arith) x

    first :
        (e.physical_block ≢ 0)
        → ((j : ℕ) → block_of table j ≢ 0 → e.last_access ≤ access_of table j)
        → IsOldest (e ∷ table) 0
    first used all = record { inside = omega arith; used = used; oldest = from }
      where
        from : (j : ℕ) → block_of (e ∷ table) j ≢ 0 → e.last_access ≤ access_of (e ∷ table) j
        from zero u = omega arith
        from (suc j) u = all j u

    -- the oldest of the rest, where the first entry is not older
    behind :
        (k : ℕ)
        → IsOldest table k
        → ((e.physical_block ≢ 0) → access_of table k ≤ e.last_access)
        → IsOldest (e ∷ table) (suc k)
    behind k o less = record { inside = omega (arith, o.inside); used = o.used; oldest = from }
      where
        from : (j : ℕ) → block_of (e ∷ table) j ≢ 0 → access_of table k ≤ access_of (e ∷ table) j
        from zero u = less u
        from (suc j) u = o.oldest j u

    taken :
        {v : ℕ}
        → (e.physical_block ≢ 0) × (e.last_access < oldest)
        → EvictSpec table (i + 1) e.last_access i v
        → EvictSpec (e ∷ table) i oldest victim v
    taken (used, less) (EvictSpec.kept all) =
        subst (EvictSpec (e ∷ table) i oldest victim) (omega arith)
          (EvictSpec.newer 0 (first used all) less)
    taken (used, less) (EvictSpec.newer k o less2) =
        later k victim oldest
          (EvictSpec.newer (suc k) (behind k o (λ u. omega arith)) (omega arith))

    passed :
        {v : ℕ}
        → chosen e oldest ≡ false
        → EvictSpec table (i + 1) oldest victim v
        → EvictSpec (e ∷ table) i oldest victim v
    passed off (EvictSpec.kept all) = EvictSpec.kept from
      where
        from : (j : ℕ) → block_of (e ∷ table) j ≢ 0 → oldest ≤ access_of (e ∷ table) j
        from zero u = not_chosen e oldest off u
        from (suc j) u = all j u
    passed off (EvictSpec.newer k o less) =
        later k victim oldest
          (EvictSpec.newer (suc k) (behind k o (λ u. at_most (not_chosen e oldest off u))) less)
      where
        at_most : oldest ≤ e.last_access → access_of table k ≤ e.last_access
        at_most h = omega arith

-- If some entry is used and was not last accessed at the largest time of 64 bits, `lru_evict` returns a
-- used entry, and no used entry was accessed before it.
pub lru_evict-IsOldest :
    (table : List PageEntry) (i : ℕ)
    → block_of table i ≢ 0
    → access_of table i < 2 ^ 64 - 1
    → IsOldest table (lru_evict table)
unfolding lru_evict
lru_evict-IsOldest table i used early = go (evict_from-EvictSpec table 0 (2 ^ 64 - 1) 0)
  where
    go : {v : ℕ} → EvictSpec table 0 (2 ^ 64 - 1) 0 v → IsOldest table v
    go (EvictSpec.kept all) = absurd (omega (arith, all i used))
    go (EvictSpec.newer k o less) = subst (IsOldest table) (omega arith) o
