-- ===== src/Eclib/Format/Decimal.antt =====
-- The digits that `%d` writes.
use mathlib.Core.Path.{subst}
use mathlib.Core.List.{append-nil}
use e_comos.Prelude.{
  ℕ, zero, suc, ◌+◌, ◌-◌, ◌*◌, ◌/◌, ◌%◌, ◌^◌, ◌≤◌, ◌<◌, ◌≡◌, inl, inr, refl, ap, sym, ◌∙◌, some,
  List, [], ◌∷◌, length, take, ◌==◌, arith, Bool-cases, if_true, if_false,
}
use e_comos.Prelude.Int.{pos}
use e_comos.Eclib.Format.{
  FormatArg, int_arg, digits_of, tmp_size, int_text, conversion, int_of, format,
}

-- The number that decimal digits stand for, behind those of `n`.
unfoldable pub decimal_from : ℕ → List ℕ → ℕ
decimal_from n [] = n
decimal_from n (c ∷ cs) = decimal_from (n * 10 + (c - b'0')) cs

power_suc : (k n : ℕ) → n < 10 ^ suc k → n / 10 < 10 ^ k
power_suc k n h = omega arith

-- the digits of `val` in front of others
decimal_from-digits_of :
    (k val : ℕ) (tmp : List ℕ)
    → val < 10 ^ k
    → decimal_from 0 (digits_of k val tmp) ≡ decimal_from val tmp
unfolding decimal_from digits_of
decimal_from-digits_of zero val tmp h = ap (λ n. decimal_from n tmp) (omega arith)
decimal_from-digits_of (suc k) val tmp h = elim (Bool-cases (val / 10 == 0)) [
  | inl on ↦
      ap (decimal_from 0) (if_true _ _ on) ∙ ap (λ n. decimal_from n tmp) (last val (ground arith))
  | inr off ↦
      ap (decimal_from 0) (if_false _ _ off)
      ∙ decimal_from-digits_of k (val / 10) ((b'0' + val % 10) ∷ tmp) (power_suc k val h)
      ∙ ap (λ n. decimal_from n tmp) (omega arith)
]
  where
    last : (n : ℕ) → n / 10 ≡ 0 → 0 * 10 + (b'0' + n % 10 - b'0') ≡ n
    last n e = omega arith

length-digits_of : (k val : ℕ) (tmp : List ℕ) → length (digits_of k val tmp) ≤ k + length tmp
unfolding digits_of
length-digits_of zero val tmp = omega arith
length-digits_of (suc k) val tmp = elim (Bool-cases (val / 10 == 0)) [
  | inl on ↦
      subst (λ (t : List ℕ). length t ≤ suc k + length tmp) (sym (if_true _ _ on)) (omega arith)
  | inr off ↦
      subst (λ (t : List ℕ). length t ≤ suc k + length tmp) (sym (if_false _ _ off))
        (omega (arith, length-digits_of k (val / 10) ((b'0' + val % 10) ∷ tmp)))
]

take_all : (n : ℕ) (xs : List ℕ) → length xs ≤ n → take n xs ≡ xs
take_all zero [] h = refl
take_all zero (x ∷ xs) h = absurd (omega arith)
take_all (suc n) [] h = refl
take_all (suc n) (x ∷ xs) h = ap (λ (t : List ℕ). x ∷ t) (take_all n xs (omega arith))

-- the format `%d`
abbrev pub int_format : List ℕ
int_format = b'%' ∷ b'd' ∷ []

-- For an `int` that is not negative and room for 32 bytes, `%d` writes digits that stand for the number.
format-decimal_from :
    (val room : ℕ) (more : List FormatArg)
    → val < 2 ^ 31
    → tmp_size ≤ room
    → (text : List ℕ) × (format int_format (int_arg (pos val) ∷ more) room ≡ some text)
      × (decimal_from 0 text ≡ val)
unfolding format conversion int_of int_text decimal_from
format-decimal_from val zero more h fits = absurd (omega arith)
format-decimal_from val (suc room) more h fits =
    let text = digits_of tmp_size val [] in
    (
      text,
      ap some (
          append-nil (take (suc room) text)
          ∙ take_all (suc room) text (omega (arith, length-digits_of tmp_size val []))),
      decimal_from-digits_of tmp_size val [] (omega arith),
    )
