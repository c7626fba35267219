-- ===== src/Eclc/Lexer/Lexemes.antt =====
-- Lexemes, and how the lexer reads one that a space follows.
use e_comos.Prelude.{
  ℕ, ◌+◌, ◌≡◌, refl, ap, sym, ◌∙◌, Bool, true, false, not, ◌&&◌, ◌||◌, none, some, List, [], ◌∷◌,
  ◌++◌, length, ◌==◌, arith, if_true, if_false, if_ne, ℕ_discrete, ◌≢◌,
}
use e_comos.Prelude.Int.{ℤ, pos}
use e_comos.Eclc.Token.{TokenType, create_token, tok_int, tok_return, tok_identifier, tok_integer}
use e_comos.Eclc.Lexer.{
  Scan, Step, emitted, scan_while, token_before, keyword, double_token, passed, single_tokens,
  lookup_token, lex_operator, emit_single, lex_step, is_space, is_digit, is_alpha,
  is_identifier_char, text_int, text_return, quote, apostrophe, starts_with,
}
use e_comos.Eclc.Lexer.Operators.{IsSingle, IsDouble, IsSingle-lookup, IsDouble-token}
use e_comos.Eclc.Lexer.Names.{AllPass, name-NoZero, keyword-name, keyword-int, keyword-return}

-- A text and the type that its token is to have, independent of the tables of the lexer.
pub data IsLexeme : List ℕ → TokenType → Type 0 where
  number :
      {c : ℕ} {cs : List ℕ}
      → is_digit c ≡ true
      → AllPass is_digit cs
      → IsLexeme (c ∷ cs) tok_integer
  int_keyword : IsLexeme (b'i' ∷ b'n' ∷ b't' ∷ []) tok_int
  return_keyword : IsLexeme (b'r' ∷ b'e' ∷ b't' ∷ b'u' ∷ b'r' ∷ b'n' ∷ []) tok_return
  identifier :
      {c : ℕ} {cs : List ℕ}
      → (is_alpha c || c == b'_') ≡ true
      → AllPass is_identifier_char cs
      → c ∷ cs ≢ b'i' ∷ b'n' ∷ b't' ∷ []
      → c ∷ cs ≢ b'r' ∷ b'e' ∷ b't' ∷ b'u' ∷ b'r' ∷ b'n' ∷ []
      → IsLexeme (c ∷ cs) tok_identifier
  single : {c : ℕ} {type : TokenType} → IsSingle c type → IsLexeme (c ∷ []) type
  double : {c d : ℕ} {type : TokenType} → IsDouble c d type → IsLexeme (c ∷ d ∷ []) type

-- the scan of `cs`, up to a space
abbrev stopped : List ℕ → List ℕ → ℕ → ℕ → Scan
stopped cs rest line column = record {
  taken = cs;
  at = record { rest = b' ' ∷ rest; line = line; column = column };
}

-- The loop over a class stops at the space.
scan_while-AllPass :
    (test : ℕ → Bool) (cs rest : List ℕ) (line column : ℕ)
    → test b' ' ≡ false
    → AllPass test cs
    → scan_while test (cs ++ b' ' ∷ rest) line column ≡ stopped cs rest line (column + length cs)
unfolding scan_while
scan_while-AllPass test [] rest line column stop AllPass.nil =
    if_false _ _ stop ∙ ap (stopped [] rest line) (omega arith)
scan_while-AllPass test (c ∷ cs) rest line column stop (AllPass.cons h t) =
    if_true _ _ h
    ∙ ap (passed c) (scan_while-AllPass test cs rest line (column + 1) stop t)
    ∙ ap (stopped (c ∷ cs) rest line) (omega arith)

-- What one round does with a lexeme: it emits the token, at the start of the text, and stops at the space.
abbrev pub token_step : List ℕ → TokenType → List ℕ → ℕ → ℕ → Step
token_step text type rest line column =
    emitted (create_token type (some text) line (pos column))
      (record { rest = b' ' ∷ rest; line = line; column = column + length text })

token_before_lem :
    (type : TokenType) (text rest : List ℕ) (line column : ℕ)
    → token_before type text
        (record { rest = b' ' ∷ rest; line = line; column = column + length text })
      ≡ token_step text type rest line column
unfolding token_before
token_before_lem type text rest line column =
    ap
      (λ (start : ℤ).
        emitted (create_token type (some text) line start)
          (record { rest = b' ' ∷ rest; line = line; column = column + length text }))
      (ground arith)

-- A round at a digit, and at the start of a name.
lex_step-digit :
    (c : ℕ) (cs : List ℕ) (line column : ℕ)
    → is_digit c ≡ true
    → lex_step c cs line column
      ≡ token_before tok_integer
          (scan_while is_digit (c ∷ cs) line column).taken
          (scan_while is_digit (c ∷ cs) line column).at
unfolding lex_step
lex_step-digit c cs line column h = ground arith

lex_step-word :
    (c : ℕ) (cs : List ℕ) (line column : ℕ)
    → (is_alpha c || c == b'_') ≡ true
    → lex_step c cs line column
      ≡ token_before
          (keyword (scan_while is_identifier_char (c ∷ cs) line column).taken)
          (scan_while is_identifier_char (c ∷ cs) line column).taken
          (scan_while is_identifier_char (c ∷ cs) line column).at
unfolding lex_step
lex_step-word c cs line column h = ground arith

-- None of the earlier cases of the main loop takes the character.
abbrev is_plain : ℕ → Bool
is_plain c =
    not (is_space c || c == quote || c == apostrophe || is_digit c || is_alpha c || c == b'_')

lex_step-plain :
    (c : ℕ) (cs : List ℕ) (line column : ℕ)
    → is_plain c ≡ true
    → (c == b'/' && starts_with b'*' cs) ≡ false
    → (c == b'/' && starts_with b'/' cs) ≡ false
    → lex_step c cs line column ≡ lex_operator c cs line column (double_token c cs)
unfolding lex_step
lex_step-plain c cs line column h a b = ground arith

all_plain : List (ℕ × TokenType) → Bool
all_plain [] = true
all_plain ((c, type) ∷ cases) = is_plain c && all_plain cases

both : (a b : Bool) → (a && b) ≡ true → (a ≡ true) × (b ≡ true)
both true true h = (refl, refl)
both true false h = absurd (ground arith)
both false b h = absurd (ground arith)

lookup_token-plain :
    (c : ℕ) (cases : List (ℕ × TokenType)) {type : TokenType}
    → all_plain cases ≡ true
    → lookup_token c cases ≡ some type
    → is_plain c ≡ true
unfolding all_plain lookup_token
lookup_token-plain c [] all found = absurd (ground arith)
lookup_token-plain c ((d, t) ∷ cases) all found = elim (ℕ_discrete c d) [
  | yes e ↦ ap is_plain e ∙ (both _ _ all).0
  | no ne ↦ lookup_token-plain c cases (both _ _ all).1 (sym (if_ne c d _ _ ne) ∙ found)
]

single_tokens_plain : all_plain single_tokens ≡ true
unfolding all_plain
single_tokens_plain = refl

-- A character of the table, with a space behind it.
lex_step-single :
    (c : ℕ) (rest : List ℕ) (line column : ℕ) {type : TokenType}
    → lookup_token c single_tokens ≡ some type
    → lex_step c (b' ' ∷ rest) line column ≡ token_step (c ∷ []) type rest line column
unfolding double_token
lex_step-single c rest line column found =
    lex_step-plain c (b' ' ∷ rest) line column
      (lookup_token-plain c single_tokens single_tokens_plain found) (ground arith) (ground arith)
    ∙ ap (lex_operator c (b' ' ∷ rest) line column) (alone c rest)
    ∙ ap (emit_single c (b' ' ∷ rest) line column) found
  where
    alone : (c : ℕ) (rest : List ℕ) → double_token c (b' ' ∷ rest) ≡ none
    alone c rest = ground arith

-- An operator of two characters.
lex_step-double :
    (c d : ℕ) (rest : List ℕ) (line column : ℕ) {type : TokenType}
    → double_token c (d ∷ []) ≡ some type
    → lex_step c (d ∷ b' ' ∷ rest) line column ≡ token_step (c ∷ d ∷ []) type rest line column
unfolding double_token
lex_step-double c d rest line column {type} found =
    lex_step-plain c (d ∷ b' ' ∷ rest) line column (ground arith) (ground arith) (ground arith)
    ∙ ap (lex_operator c (d ∷ b' ' ∷ rest) line column) found
    ∙ ap
        (λ (k : ℕ).
          emitted (create_token type (some (c ∷ d ∷ [])) line (pos column))
            (record { rest = b' ' ∷ rest; line = line; column = k }))
        (omega arith)

-- A keyword or a name.
lex_step-name :
    (c : ℕ) (cs rest : List ℕ) (line column : ℕ)
    → (is_alpha c || c == b'_') ≡ true
    → AllPass is_identifier_char cs
    → lex_step c (cs ++ b' ' ∷ rest) line column
      ≡ token_step (c ∷ cs) (keyword (c ∷ cs)) rest line column
lex_step-name c cs rest line column h t =
    lex_step-word c (cs ++ b' ' ∷ rest) line column h
    ∙ ap (λ (s : Scan). token_before (keyword s.taken) s.taken s.at)
        (scan_while-AllPass is_identifier_char (c ∷ cs) rest line column refl
          (AllPass.cons (ground arith) t))
    ∙ token_before_lem (keyword (c ∷ cs)) (c ∷ cs) rest line column

-- One round reads a lexeme with a space behind it.
pub lex_step-IsLexeme :
    (c : ℕ) (cs rest : List ℕ) (line column : ℕ) {type : TokenType}
    → IsLexeme (c ∷ cs) type
    → lex_step c (cs ++ b' ' ∷ rest) line column ≡ token_step (c ∷ cs) type rest line column
lex_step-IsLexeme c cs rest line column (number h t) =
    lex_step-digit c (cs ++ b' ' ∷ rest) line column h
    ∙ ap (λ (s : Scan). token_before tok_integer s.taken s.at)
        (scan_while-AllPass is_digit (c ∷ cs) rest line column refl (AllPass.cons h t))
    ∙ token_before_lem tok_integer (c ∷ cs) rest line column
lex_step-IsLexeme c cs rest line column (identifier h t not_int not_return) =
    lex_step-name c cs rest line column h t
    ∙ ap (λ (k : TokenType). token_step (c ∷ cs) k rest line column)
        (keyword-name (c ∷ cs) (name-NoZero (AllPass.cons (ground arith) t)) not_int not_return)
lex_step-IsLexeme c cs rest line column int_keyword =
    lex_step-name b'i' (b'n' ∷ b't' ∷ []) rest line column refl
      (AllPass.cons refl (AllPass.cons refl AllPass.nil))
    ∙ ap (λ (k : TokenType). token_step text_int k rest line column) keyword-int
lex_step-IsLexeme c cs rest line column return_keyword =
    lex_step-name b'r' (b'e' ∷ b't' ∷ b'u' ∷ b'r' ∷ b'n' ∷ []) rest line column refl (
      AllPass.cons refl
        (AllPass.cons refl (AllPass.cons refl (AllPass.cons refl (AllPass.cons refl AllPass.nil)))))
    ∙ ap (λ (k : TokenType). token_step text_return k rest line column) keyword-return
lex_step-IsLexeme c cs rest line column (single known) =
    lex_step-single c rest line column (IsSingle-lookup known)
lex_step-IsLexeme c cs rest line column (double {d = d} known) =
    lex_step-double c d rest line column (IsDouble-token known)
