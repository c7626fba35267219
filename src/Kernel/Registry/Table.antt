-- ===== src/Kernel/Registry/Table.antt =====
-- Registration and look-up.
use mathlib.Core.Path.{subst}
use e_comos.Prelude.{
  ℕ, zero, suc, ◌≤◌, ◌<◌, ◌≡◌, ◌≢◌, inl, inr, refl, sym, ap, ◌∙◌, true, false, not, List, [], ◌∷◌,
  length, set, length-set, get_or-set_self, get_or-set_ne, ◌==◌, if◌then◌else◌, arith, ℕ_discrete,
  dec_lt, Bool-cases,
}
use e_comos.Prelude.Int.{ℤ, pos, negsuc}
use e_comos.Prelude.Search.{IsFirst, find_from-cases, find_from_total}
use e_comos.Kernel.Registry.{
  Service, max_services, no_service, service, provides, provider_at, fill_slot, registry_init,
  registry_register, registry_lookup,
}

-- The active entries come first.
pub record IsValid (table : List Service) : Type 0 where
  pub slots : length table ≡ max_services
  pub packed : (i j : ℕ) → i ≤ j → (service table j).active ≡ true → (service table i).active ≡ true

-- Some entry has the identifier.
abbrev pub IsProvided : ℕ → List Service → Type 0
IsProvided service_id table =
    (i : ℕ) × (i < max_services) × (provides service_id (service table i) ≡ true)

abbrev entry_of : ℕ → ℕ → Service
entry_of service_id provider_pid = record {
  service_id = service_id;
  provider_pid = provider_pid;
  active = true;
}

-- What a search for the first provider gives.
pub data LookupSpec (service_id : ℕ) (table : List Service) : ℕ → Type 0 where
  first :
      (i : ℕ)
      → IsFirst (λ i. provides service_id (service table i)) 0 max_services i
      → LookupSpec service_id table (service table i).provider_pid
  nobody :
      ((i : ℕ) → i < max_services → provides service_id (service table i) ≡ false)
      → LookupSpec service_id table 0

pub registry_lookup-LookupSpec :
    (service_id : ℕ) (table : List Service)
    → LookupSpec service_id table (registry_lookup service_id table)
unfolding registry_lookup
registry_lookup-LookupSpec service_id table =
    elim (find_from-cases (λ i. provides service_id (service table i)) max_services 0) [
      | inl (i, e, f) ↦
          subst (LookupSpec service_id table) (sym (ap (provider_at table) e))
            (LookupSpec.first i f)
      | inr (e, empty) ↦
          subst (LookupSpec service_id table) (sym (ap (provider_at table) e))
            (LookupSpec.nobody (λ i h. empty i (omega arith) (omega arith)))
    ]

-- The first provider determines the result.
lookup_first :
    (service_id i : ℕ) (table : List Service)
    → IsFirst (λ i. provides service_id (service table i)) 0 max_services i
    → registry_lookup service_id table ≡ (service table i).provider_pid
lookup_first service_id i table f =
    elim (registry_lookup-LookupSpec service_id table)
      as (λ r _. r ≡ (service table i).provider_pid) [
        | LookupSpec.first k g ↦
            let same : k ≡ i = elim (dec_lt k i) [
              | yes h ↦ absurd (ground (arith, f.earlier k (omega arith) h, g.passes))
              | no h ↦ elim (dec_lt i k) [
                | yes h2 ↦ absurd (ground (arith, g.earlier i (omega arith) h2, f.passes))
                | no h2 ↦ omega arith
              ]
            ] in
            ap (λ j. (service table j).provider_pid) same
        | LookupSpec.nobody none_there ↦
            absurd (ground (arith, none_there i (omega (arith, f.below)), f.passes))
      ]

lookup_nobody :
    (service_id : ℕ) (table : List Service)
    → ((i : ℕ) → i < max_services → provides service_id (service table i) ≡ false)
    → registry_lookup service_id table ≡ 0
lookup_nobody service_id table empty =
    elim (registry_lookup-LookupSpec service_id table) as (λ r _. r ≡ 0) [
      | LookupSpec.first k g ↦ absurd (ground (arith, empty k (omega (arith, g.below)), g.passes))
      | LookupSpec.nobody none_there ↦ refl
    ]

-- The entry is behind the others: whoever provided a service before still does, and the new entry
-- provides its service if nobody did.
pub record Registered (service_id provider_pid : ℕ) (table table' : List Service) : Type 0 where
  pub valid : IsValid table'
  pub kept : (id : ℕ) → IsProvided id table → registry_lookup id table' ≡ registry_lookup id table
  pub fresh :
      (id : ℕ)
      → ¬ IsProvided id table
      → registry_lookup id table'
        ≡ (if service_id == id then provider_pid else registry_lookup id table)

pub data RegisterSpec (service_id provider_pid : ℕ) (table : List Service)
    : ℤ × List Service → Type 0 where
  full :
      ((i : ℕ) → i < max_services → (service table i).active ≡ true)
      → RegisterSpec service_id provider_pid table (negsuc 0, table)
  registered :
      {table' : List Service}
      → Registered service_id provider_pid table table'
      → RegisterSpec service_id provider_pid table (pos 0, table')

abbrev stored : ℕ → ℕ → ℕ → List Service → List Service
stored service_id provider_pid k table = set table k (entry_of service_id provider_pid)

-- The new entry is at the first inactive slot `k`.
module _ (service_id provider_pid k : ℕ) (table : List Service) (v : IsValid table)
    (f : IsFirst (λ i. not (service table i).active) 0 max_services k) where
  here : service (stored service_id provider_pid k table) k ≡ entry_of service_id provider_pid
  here =
      get_or-set_self table k (entry_of service_id provider_pid) no_service
        (omega (arith, f.below, v.slots))

  others : (j : ℕ) → k ≢ j → service (stored service_id provider_pid k table) j ≡ service table j
  others j ne = get_or-set_ne table k j (entry_of service_id provider_pid) no_service ne

  inactive_from : (j : ℕ) → k ≤ j → (service table j).active ≡ false
  inactive_from j h = ground (arith, v.packed k j h, f.passes)

  active_before : (j : ℕ) → j < k → (service table j).active ≡ true
  active_before j h = ground (arith, f.earlier j (omega arith) h)

  stored-IsValid : IsValid (stored service_id provider_pid k table)
  stored-IsValid = record {
    slots = length-set table k (entry_of service_id provider_pid) ∙ v.slots;
    packed = λ i j h on. elim (ℕ_discrete k i) [
      | yes e ↦
          ap (λ x. (service (stored service_id provider_pid k table) x).active) (sym e)
          ∙ ap (λ (s : Service). s.active) here
      | no ne ↦ ap (λ (s : Service). s.active) (others i ne) ∙ (elim (dec_lt i k) [
        | yes h2 ↦ active_before i h2
        | no h2 ↦ absurd (
            ground (
              arith,
              ap (λ (s : Service). s.active) (others j (λ e. h2 (omega arith))),
              inactive_from j (omega arith),
              on,
            ))
      ])
    ];
  }

  stored_kept :
      (id : ℕ)
      → IsProvided id table
      → registry_lookup id (stored service_id provider_pid k table) ≡ registry_lookup id table
  stored_kept id (i, below, on) =
      let found =
        find_from_total (λ i. provides id (service table i)) max_services 0 i (omega arith)
          (omega arith) on in
      let first = found.2 in
      let before : found.0 < k = elim (dec_lt found.0 k) [
        | yes h ↦ h
        | no h ↦ absurd (ground (arith, inactive_from found.0 (omega arith), first.passes))
      ] in
      let same = λ (j : ℕ) (h : j < k). others j (λ e. absurd (omega arith)) in
      lookup_first id found.0 (stored service_id provider_pid k table) record {
        from = first.from;
        below = first.below;
        passes = ap (provides id) (same found.0 before) ∙ first.passes;
        earlier = λ j a b. ap (provides id) (same j (omega arith)) ∙ first.earlier j a b;
      }
      ∙ ap (λ (s : Service). s.provider_pid) (same found.0 before)
      ∙ sym (lookup_first id found.0 table first)

  not_provided :
      (id j : ℕ) → ¬ IsProvided id table → j < max_services → provides id (service table j) ≡ false
  not_provided id j un h = elim (Bool-cases (provides id (service table j))) [
    | inl on ↦ absurd (un (j, h, on))
    | inr off ↦ off
  ]

  stored_fresh :
      (id : ℕ)
      → ¬ IsProvided id table
      → registry_lookup id (stored service_id provider_pid k table)
        ≡ (if service_id == id then provider_pid else registry_lookup id table)
  stored_fresh id un = elim (ℕ_discrete service_id id) [
    | yes e ↦
        lookup_first id k (stored service_id provider_pid k table) record {
          from = f.from;
          below = f.below;
          passes = ap (provides id) here ∙ ground arith;
          earlier = λ j a b.
              ap (provides id) (others j (λ e. absurd (omega arith)))
              ∙ not_provided id j un (omega (arith, f.below));
        }
        ∙ ap (λ (s : Service). s.provider_pid) here
        ∙ ground arith
    | no ne ↦
        lookup_nobody id (stored service_id provider_pid k table) (λ i h. elim (ℕ_discrete k i) [
          | yes e ↦
              ap (λ x. provides id (service (stored service_id provider_pid k table) x)) (sym e)
              ∙ ap (provides id) here
              ∙ ground arith
          | no other ↦ ap (provides id) (others i other) ∙ not_provided id i un h
        ])
        ∙ ground (arith, lookup_nobody id table (λ i h. not_provided id i un h))
  ]

  stored-Registered :
      Registered service_id provider_pid table (stored service_id provider_pid k table)
  stored-Registered = record { valid = stored-IsValid; kept = stored_kept; fresh = stored_fresh }

-- In a table whose active entries come first, registration fails with -1, and changes nothing, when all
-- 32 entries are active. Otherwise it succeeds and the active entries still come first; whatever service
-- was provided has the provider that it had, the service registered has the new provider if nobody
-- provided it, and the result of no other look-up changes.
pub registry_register-RegisterSpec :
    (service_id provider_pid : ℕ) (table : List Service)
    → IsValid table
    → RegisterSpec service_id provider_pid table (registry_register service_id provider_pid table)
unfolding registry_register
registry_register-RegisterSpec service_id provider_pid table v =
    elim (find_from-cases (λ i. not (service table i).active) max_services 0) [
      | inl (k, e, f) ↦
          subst (RegisterSpec service_id provider_pid table)
            (sym (ap (fill_slot service_id provider_pid table) e))
            (RegisterSpec.registered (stored-Registered service_id provider_pid k table v f))
      | inr (e, empty) ↦
          subst (RegisterSpec service_id provider_pid table)
            (sym (ap (fill_slot service_id provider_pid table) e))
            (RegisterSpec.full (λ i h. ground (arith, empty i)))
    ]

length-registry_init : (table : List Service) → length (registry_init table) ≡ length table
unfolding registry_init
length-registry_init [] = refl
length-registry_init (e ∷ es) = ap suc (length-registry_init es)

registry_init_inactive :
    (table : List Service) (i : ℕ) → (service (registry_init table) i).active ≡ false
unfolding registry_init
registry_init_inactive [] i = refl
registry_init_inactive (e ∷ es) zero = refl
registry_init_inactive (e ∷ es) (suc i) = registry_init_inactive es i

-- The registry starts well formed, whatever the memory held.
pub registry_init-IsValid :
    (table : List Service) → length table ≡ max_services → IsValid (registry_init table)
registry_init-IsValid table h = record {
  slots = length-registry_init table ∙ h;
  packed = λ i j le on. absurd (ground (arith, registry_init_inactive table j, on));
}
