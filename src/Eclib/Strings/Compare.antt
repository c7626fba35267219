-- ===== src/Eclib/Strings/Compare.antt =====
-- What the comparisons of strings return.
use e_comos.Prelude.{
  ℕ, zero, suc, ◌≤◌, ◌<◌, ◌≡◌, ◌≢◌, ◌⊎◌, inl, inr, refl, ap, ap₂, sym, ◌∙◌, true, false, some, List,
  [], ◌∷◌, length, ◌==◌, arith, if_true, if_false, ℕ_discrete,
}
use e_comos.Prelude.Int.{ℤ, pos}
use e_comos.Eclib.Strings.{
  minus_char, first_byte, other_bytes, compare_chars, eclib_strcmp, compare_bytes, eclib_strncmp,
}

-- The bytes of a string: from 1 up to, not including, the limit.
data IsText (limit : ℕ) : List ℕ → Type 0 where
  nil : IsText limit []
  cons : {c : ℕ} {cs : List ℕ} → 1 ≤ c → c < limit → IsText limit cs → IsText limit (c ∷ cs)

minus_char_ne : (c d : ℕ) → c < 256 → d < 256 → c ≢ d → minus_char c d ≢ pos 0
minus_char_ne c d h k ne = ground arith

-- The two outcomes of a comparison.
abbrev Compared : List ℕ → List ℕ → ℤ → Type 0
Compared s t r = ((s ≡ t) × (r ≡ pos 0)) ⊎ ((s ≢ t) × (r ≢ pos 0))

compare_chars-Compared :
    (s t : List ℕ) → IsText 256 s → IsText 256 t → Compared s t (compare_chars s t)
unfolding compare_chars
compare_chars-Compared [] [] nil nil = inl (refl, refl)
compare_chars-Compared [] (d ∷ t) nil (cons one small more) =
    inr (λ e. ground arith, minus_char_ne 0 d (omega arith) small (omega arith))
compare_chars-Compared (c ∷ s) [] (cons one small more) nil =
    inr (λ e. ground arith, minus_char_ne c 0 small (omega arith) (omega arith))
compare_chars-Compared (c ∷ s) (d ∷ t) (cons one small more) (cons one2 small2 more2) =
    elim (ℕ_discrete c d) [
      | yes same ↦ elim (compare_chars-Compared s t more more2) [
        | inl (e, z) ↦ inl (ap₂ ◌∷◌ same e, if_true _ _ (equal same) ∙ z)
        | inr (e, z) ↦ inr (λ x. e (tail_same x), λ x. z (sym (if_true _ _ (equal same)) ∙ x))
      ]
      | no ne ↦ inr (
        λ x. ne (head_same x),
        λ x. minus_char_ne c d small small2 ne (sym (if_false _ _ (differ ne)) ∙ x),
      )
    ]
  where
    equal : {m n : ℕ} → m ≡ n → (m == n) ≡ true
    equal e = ground arith

    differ : {m n : ℕ} → m ≢ n → (m == n) ≡ false
    differ e = ground arith

    tail_same : {m n : ℕ} {xs ys : List ℕ} → (m ∷ xs) ≡ (n ∷ ys) → xs ≡ ys
    tail_same e = ap other_bytes e

    head_same : {m n : ℕ} {xs ys : List ℕ} → (m ∷ xs) ≡ (n ∷ ys) → m ≡ n
    head_same e = ap first_byte e

-- `eclib_strcmp` returns 0 for equal strings, and a number other than 0 for different ones.
eclib_strcmp-Compared :
    (s t : List ℕ) → IsText 256 s → IsText 256 t → Compared s t (eclib_strcmp (some s) (some t))
unfolding eclib_strcmp
eclib_strcmp-Compared s t is is2 = compare_chars-Compared s t is is2

compare_bytes-compare_chars :
    (n : ℕ) (s t : List ℕ)
    → IsText 128 s
    → IsText 128 t
    → length s < n
    → compare_bytes n s t ≡ compare_chars s t
unfolding compare_bytes compare_chars
compare_bytes-compare_chars zero s t is is2 h = absurd (omega arith)
compare_bytes-compare_chars (suc n) [] [] nil nil h = refl
compare_bytes-compare_chars (suc n) [] (d ∷ t) nil (cons one small more) h = ground arith
compare_bytes-compare_chars (suc n) (c ∷ s) [] (cons one small more) nil h = ground arith
compare_bytes-compare_chars (suc n) (c ∷ s) (d ∷ t) (cons one small more) (cons one2 small2 more2)
      h =
    ground (arith, compare_bytes-compare_chars n s t more more2 (omega arith))

-- For strings of 7-bit characters and a length beyond the first one's, `eclib_strncmp` returns what
-- `eclib_strcmp` returns.
eclib_strncmp-eclib_strcmp :
    (s t : List ℕ) (n : ℕ)
    → IsText 128 s
    → IsText 128 t
    → length s < n
    → eclib_strncmp (some s) (some t) n ≡ eclib_strcmp (some s) (some t)
unfolding eclib_strncmp eclib_strcmp
eclib_strncmp-eclib_strcmp s t n is is2 h = compare_bytes-compare_chars n s t is is2 h
