-- ===== src/Eclc/Lexer/RoundTrip.antt =====
-- Lexemes with a space behind each are read back.
use e_comos.Prelude.{
  ℕ, zero, suc, ◌+◌, ◌≤◌, ◌<◌, ◌≡◌, refl, ap, sym, ◌∙◌, none, some, List, [], ◌∷◌, ◌++◌, length,
  arith,
}
use mathlib.Core.List.{append_assoc, append-nil}
use e_comos.Prelude.Int.{pos}
use e_comos.Eclc.Token.{
  TokenType, Token, TokenStream, empty_stream, create_token, token_stream_add, tok_eof,
}
use e_comos.Eclc.Lexer.{
  skipped, overran, done, after_step, lex, lex_step, tokenize, apostrophe, lex_char,
}
use e_comos.Eclc.Lexer.Lexemes.{IsLexeme, lex_step-IsLexeme}

abbrev pub Lexeme : Type 0
Lexeme = List ℕ × TokenType

pub data AllLexemes : List Lexeme → Type 0 where
  nil : AllLexemes []
  cons :
      {c : ℕ} {cs : List ℕ} {type : TokenType} {ls : List Lexeme}
      → IsLexeme (c ∷ cs) type
      → AllLexemes ls
      → AllLexemes ((c ∷ cs, type) ∷ ls)

-- The source text, in front of `rest`.
unfoldable pub print_before : List ℕ → List Lexeme → List ℕ
print_before rest [] = rest
print_before rest ((text, type) ∷ ls) = text ++ b' ' ∷ print_before rest ls

-- the column behind the lexemes
unfoldable pub column_behind : ℕ → List Lexeme → ℕ
column_behind column [] = column
column_behind column ((text, type) ∷ ls) = column_behind (column + length text + 1) ls

-- The tokens on line 1, from the column on.
unfoldable pub tokens_from : ℕ → List Lexeme → List Token
tokens_from column [] = []
tokens_from column ((text, type) ∷ ls) =
    create_token type (some text) 1 (pos column) ∷ tokens_from (column + length text + 1) ls

unfoldable pub add_all : TokenStream → List Token → TokenStream
add_all stream [] = stream
add_all stream (t ∷ ts) = add_all (token_stream_add stream t) ts

-- two rounds for each lexeme
fuel_for : List Lexeme → ℕ → ℕ
fuel_for [] n = n
fuel_for (l ∷ ls) n = suc (suc (fuel_for ls n))

lex_step-space :
    (cs : List ℕ) (line column : ℕ)
    → lex_step b' ' cs line column
      ≡ skipped (record { rest = cs; line = line; column = column + 1 })
unfolding lex_step
lex_step-space cs line column = refl

-- The rounds of the main loop over the lexemes.
lex-lexemes :
    (n : ℕ) (ls : List Lexeme) (rest : List ℕ) (column : ℕ) (stream : TokenStream)
    → AllLexemes ls
    → lex (fuel_for ls n) (record { rest = print_before rest ls; line = 1; column = column }) stream
      ≡ lex n
          (record { rest = rest; line = 1; column = column_behind column ls })
          (add_all stream (tokens_from column ls))
unfolding lex fuel_for print_before column_behind tokens_from add_all
lex-lexemes n [] rest column stream nil = refl
lex-lexemes n (([], type) ∷ ls) rest column stream x = elim x [ ]
lex-lexemes n ((c ∷ cs, type) ∷ ls) rest column stream (cons l more) =
    let token = create_token type (some (c ∷ cs)) 1 (pos column) in
    ap (after_step (lex (suc (fuel_for ls n))) stream)
      (lex_step-IsLexeme c cs (print_before rest ls) 1 column l)
    ∙ ap (after_step (lex (fuel_for ls n)) (token_stream_add stream token))
        (lex_step-space (print_before rest ls) 1 (column + length (c ∷ cs)))
    ∙ lex-lexemes n ls rest (column + length (c ∷ cs) + 1) (token_stream_add stream token) more

length-concat : (xs ys : List ℕ) → length (xs ++ ys) ≡ length xs + length ys
length-concat [] ys = omega arith
length-concat (x ∷ xs) ys = omega (arith, length-concat xs ys)

-- `tokenize` has fuel for the lexemes and at least one round more.
fuel-enough :
    (ls : List Lexeme) (rest : List ℕ) (n : ℕ)
    → AllLexemes ls
    → length (print_before rest ls) < n
    → (k : ℕ) × (n ≡ fuel_for ls (suc k)) × (length rest ≤ k)
unfolding fuel_for print_before
fuel-enough [] rest zero nil h = absurd (omega arith)
fuel-enough [] rest (suc n) nil h = (n, refl, omega arith)
fuel-enough (([], type) ∷ ls) rest n x h = elim x [ ]
fuel-enough ((c ∷ cs, type) ∷ ls) rest zero (cons l more) h = absurd (omega arith)
fuel-enough ((c ∷ cs, type) ∷ ls) rest (suc zero) (cons l more) h =
    absurd (omega (arith, length-concat cs (b' ' ∷ print_before rest ls)))
fuel-enough ((c ∷ cs, type) ∷ ls) rest (suc (suc n)) (cons l more) h =
    let r =
      fuel-enough ls rest n more (omega (arith, length-concat cs (b' ' ∷ print_before rest ls))) in
    (r.0, ap (λ m. suc (suc m)) r.1, r.2)

tokenize-print :
    (ls : List Lexeme) (rest : List ℕ)
    → AllLexemes ls
    → (k : ℕ) × (tokenize (print_before rest ls)
        ≡ lex
            (suc k)
            (record { rest = rest; line = 1; column = column_behind 1 ls })
            (add_all empty_stream (tokens_from 1 ls)))
      × (length rest ≤ k)
unfolding tokenize
tokenize-print ls rest all =
    let (k, e, enough) =
      fuel-enough ls rest (suc (length (print_before rest ls))) all (omega arith) in
    (
      k,
      ap (λ n. lex n (record { rest = print_before rest ls; line = 1; column = 1 }) empty_stream) e
          ∙ lex-lexemes (suc k) ls rest 1 empty_stream all,
      enough,
    )

add_all-tokens :
    (stream : TokenStream) (ts : List Token) → (add_all stream ts).tokens ≡ stream.tokens ++ ts
unfolding add_all token_stream_add
add_all-tokens stream [] = sym (append-nil stream.tokens)
add_all-tokens stream (t ∷ ts) =
    add_all-tokens (token_stream_add stream t) ts ∙ append_assoc stream.tokens (t ∷ []) ts

abbrev pub end_token : ℕ → Token
end_token column = create_token tok_eof none 1 (pos column)

-- For any lexemes (numbers, the keywords `int` and `return`, other names, and the operators of one or two
-- characters, each with its type of token) written with one space behind each, `tokenize` succeeds and returns
-- one token for each lexeme, of that type, on line 1 and at the column where it starts, and the token for the
-- end of the file. Of a lexeme's text the token has what `create_token` keeps.
pub tokenize-print_before :
    (ls : List Lexeme)
    → AllLexemes ls
    → (stream : TokenStream) × (tokenize (print_before [] ls) ≡ done stream)
      × (stream.tokens ≡ tokens_from 1 ls ++ end_token (column_behind 1 ls) ∷ [])
unfolding lex token_stream_add
tokenize-print_before ls all =
    let body = add_all empty_stream (tokens_from 1 ls) in
    (
      token_stream_add body (end_token (column_behind 1 ls)),
      (tokenize-print ls [] all).1,
      ap (λ (ts : List Token). ts ++ end_token (column_behind 1 ls) ∷ [])
          (add_all-tokens empty_stream (tokens_from 1 ls)),
    )

-- If the source ends with an opening apostrophe behind such lexemes, `tokenize` reads behind the
-- terminator of the source.
tokenize-overran :
    (ls : List Lexeme) → AllLexemes ls → tokenize (print_before (apostrophe ∷ []) ls) ≡ overran
unfolding lex lex_step lex_char
tokenize-overran ls all = (tokenize-print ls (apostrophe ∷ []) all).1
