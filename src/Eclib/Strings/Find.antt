-- ===== src/Eclib/Strings/Find.antt =====
-- Where one string stands in another.
use mathlib.Core.Path.{subst}
use e_comos.Prelude.{
  ℕ, ◌+◌, ◌-◌, ◌≤◌, ◌<◌, ◌≡◌, inl, inr, refl, ap, sym, ◌∙◌, Bool, true, false, Option, none, some,
  List, [], ◌∷◌, ◌++◌, length, take, drop, ltb, arith, Bool-cases, if_true, if_false, ℕ_discrete,
  take-append-drop, length-append, length-take,
}
use e_comos.Prelude.Search.{find_from-cases}
use e_comos.Eclib.Strings.{stands_at, find_substr, eclib_strstr}

-- `substr` stands in `str` at the index `i`.
abbrev pub Occurs : List ℕ → List ℕ → ℕ → Type 0
Occurs substr str i =
    (before : List ℕ) × (after : List ℕ) × (str ≡ before ++ (substr ++ after)) × (length before ≡ i)

stands_at_sound :
    (substr str : List ℕ) → stands_at substr str ≡ true → (after : List ℕ) × (str ≡ substr ++ after)
unfolding stands_at
stands_at_sound [] str e = (str, refl)
stands_at_sound (d ∷ substr) [] e = absurd (ground arith)
stands_at_sound (d ∷ substr) (c ∷ str) e = elim (ℕ_discrete c d) [
  | yes same ↦
      let (after, split) = stands_at_sound substr str (ground arith) in
      (after, ap (λ x. x ∷ str) same ∙ ap (λ (t : List ℕ). d ∷ t) split)
  | no ne ↦ absurd (ground arith)
]

stands_at_complete : (substr after : List ℕ) → stands_at substr (substr ++ after) ≡ true
unfolding stands_at
stands_at_complete [] after = refl
stands_at_complete (d ∷ substr) after = ground (arith, stands_at_complete substr after)

drop-before : (before rest : List ℕ) → drop (length before) (before ++ rest) ≡ rest
drop-before [] rest = refl
drop-before (x ∷ before) rest = drop-before before rest

stands-Occurs :
    (substr str : List ℕ) (i : ℕ)
    → i ≤ length str
    → stands_at substr (drop i str) ≡ true
    → Occurs substr str i
stands-Occurs substr str i h on =
    let (after, split) = stands_at_sound substr (drop i str) on in
    (
      take i str,
      after,
      sym (take-append-drop i str) ∙ ap (λ (t : List ℕ). take i str ++ t) split,
      omega (arith, length-take i str),
    )

Occurs-stands :
    (substr str : List ℕ) (i : ℕ) → Occurs substr str i → stands_at substr (drop i str) ≡ true
Occurs-stands substr str i (before, after, e, n) =
    ap (stands_at substr) (
      ap (λ k. drop k str) (sym n)
      ∙ ap (drop (length before)) e
      ∙ drop-before before (substr ++ after))
    ∙ stands_at_complete substr after

Occurs-fits : (substr str : List ℕ) (i : ℕ) → Occurs substr str i → i + length substr ≤ length str
Occurs-fits substr str i (before, after, e, n) =
    omega (arith, ap length e, length-append before (substr ++ after), length-append substr after)

-- The result of a search for a string.
pub data FirstOccurrence (substr str : List ℕ) : Option ℕ → Type 0 where
  found :
      (i : ℕ)
      → Occurs substr str i
      → ((j : ℕ) → Occurs substr str j → i ≤ j)
      → FirstOccurrence substr str (some i)
  absent : ((j : ℕ) → Occurs substr str j → ⊥) → FirstOccurrence substr str none

-- For a string to look for that is not empty, `eclib_strstr` returns the index of its first occurrence,
-- or NULL if it does not occur.
pub eclib_strstr-FirstOccurrence :
    (str : List ℕ) (c : ℕ) (substr : List ℕ)
    → FirstOccurrence (c ∷ substr) str (eclib_strstr (some str) (some (c ∷ substr)))
unfolding eclib_strstr find_substr
eclib_strstr-FirstOccurrence str c rest = elim (Bool-cases (ltb (length str) (length (c ∷ rest)))) [
  | inl short ↦
      subst (FirstOccurrence (c ∷ rest) str) (sym (if_true _ _ short))
        (FirstOccurrence.absent (λ j o. too_short j short (Occurs-fits (c ∷ rest) str j o)))
  | inr long ↦
      subst (FirstOccurrence (c ∷ rest) str) (sym (if_false _ _ long))
        (elim (find_from-cases (λ i. stands_at (c ∷ rest) (drop i str))
          (length str - length (c ∷ rest) + 1) 0) [
            | inl (i, e, first) ↦ subst (FirstOccurrence (c ∷ rest) str) (sym e) (
                FirstOccurrence.found i
                  (stands-Occurs (c ∷ rest) str i (omega (arith, first.below)) first.passes)
                  (λ j o.
                    not_before j i (Occurs-stands (c ∷ rest) str j o)
                      (first.earlier j (omega arith))))
            | inr (e, none_there) ↦ subst (FirstOccurrence (c ∷ rest) str) (sym e) (
                FirstOccurrence.absent (λ j o.
                  both (Occurs-stands (c ∷ rest) str j o)
                    (none_there j (omega arith) (omega (arith, Occurs-fits (c ∷ rest) str j o)))))
          ])
]
  where
    too_short :
        (j : ℕ)
        → ltb (length str) (length (c ∷ rest)) ≡ true
        → j + length (c ∷ rest) ≤ length str
        → ⊥
    too_short j short fits = ground arith

    both : {b : Bool} → b ≡ true → b ≡ false → ⊥
    both on off = ground arith

    not_before : (j i : ℕ) {b : Bool} → b ≡ true → (j < i → b ≡ false) → i ≤ j
    not_before j i on h = grind arith
