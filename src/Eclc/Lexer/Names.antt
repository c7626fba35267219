-- ===== src/Eclc/Lexer/Names.antt =====
-- Keywords and other names, which the lexer tells apart by `strcmp`.
use e_comos.Prelude.{
  ℕ, ◌≡◌, inl, inr, refl, ap, sym, ◌∙◌, Bool, true, false, not, List, [], ◌∷◌, ◌==◌, arith,
  if_false, if_ne, ℕ_discrete, ◌≢◌, if_eq, Bool-cases,
}
use e_comos.Prelude.Int.{ℤ, pos, negsuc, sub_ℕ}
use e_comos.Eclc.Token.{strcmp, tok_int, tok_return, tok_identifier}
use e_comos.Eclc.Lexer.{keyword, is_identifier_char, is_same, text_int, text_return}

-- `test` holds of every byte.
pub data AllPass (test : ℕ → Bool) : List ℕ → Type 0 where
  nil : AllPass test []
  cons : {c : ℕ} {cs : List ℕ} → test c ≡ true → AllPass test cs → AllPass test (c ∷ cs)

-- The bytes of the text are not 0.
abbrev NoZero : List ℕ → Type 0
NoZero = AllPass (λ c. not (c == 0))

-- the result of `strcmp` that says that the texts are the same
abbrev is_zero : ℤ → Bool
is_zero (pos n) = n == 0
is_zero (negsuc n) = false

difference : (c d : ℕ) → is_zero (sub_ℕ c d) ≡ true → c ≡ d
difference c d h = ground arith

-- Texts that `strcmp` takes for the same are the same.
strcmp-same : (s t : List ℕ) → NoZero s → NoZero t → is_same s t ≡ true → s ≡ t
unfolding strcmp
strcmp-same [] [] x y h = refl
strcmp-same [] (d ∷ t) x (cons nz y) h = absurd (ground (arith, difference 0 d h))
strcmp-same (c ∷ s) [] (cons nz x) y h = absurd (ground arith)
strcmp-same (c ∷ s) (d ∷ t) (cons nz x) (cons mz y) h = elim (ℕ_discrete c d) [
  | yes e ↦ cc (e, strcmp-same s t x y (ap is_zero (sym (if_eq c d _ _ e)) ∙ h))
  | no ne ↦ absurd (ne (difference c d (ap is_zero (sym (if_ne c d _ _ ne)) ∙ h)))
]

pub name-NoZero : {cs : List ℕ} → AllPass is_identifier_char cs → NoZero cs
name-NoZero nil = AllPass.nil
name-NoZero (cons h t) = AllPass.cons (ground arith) (name-NoZero t)

-- A name that is no keyword.
pub keyword-name :
    (value : List ℕ)
    → NoZero value
    → value ≢ text_int
    → value ≢ text_return
    → keyword value ≡ tok_identifier
unfolding keyword
keyword-name value x not_int not_return = elim (Bool-cases (is_same value text_int)) [
  | inl on ↦ absurd (not_int (strcmp-same value text_int x int-NoZero on))
  | inr off ↦ if_false _ _ off ∙ (elim (Bool-cases (is_same value text_return)) [
    | inl on ↦ absurd (not_return (strcmp-same value text_return x return-NoZero on))
    | inr off' ↦ if_false _ _ off'
  ])
]
  where
    int-NoZero : NoZero text_int
    int-NoZero = AllPass.cons refl (AllPass.cons refl (AllPass.cons refl AllPass.nil))

    return-NoZero : NoZero text_return
    return-NoZero = AllPass.cons refl (
        AllPass.cons refl (
          AllPass.cons refl
            (AllPass.cons refl (AllPass.cons refl (AllPass.cons refl AllPass.nil)))))

pub keyword-int : keyword text_int ≡ tok_int
unfolding keyword strcmp
keyword-int = refl

pub keyword-return : keyword text_return ≡ tok_return
unfolding keyword strcmp
keyword-return = refl
