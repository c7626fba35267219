-- ===== src/Eclc/Lexer/Tests.antt =====
-- Sources at which the results on the lexer apply.
use e_comos.Prelude.{ap, arith, get_or, ℕ, ◌≡◌, refl, ◌⊎◌, none, some, List, [], ◌∷◌, ◌++◌}
use e_comos.Prelude.Int.{pos}
use e_comos.Eclc.Token.{
  TokenStream, empty_stream, create_token, token_stream_add, tok_integer, tok_identifier, tok_plus,
  tok_eq, tok_eof,
}
use e_comos.Eclc.Lexer.{
  lex_step, token_before, scan_while, lex, overran, done, tokenize, apostrophe,
}
use e_comos.Eclc.Lexer.Ends.{tokenize_ends}
use e_comos.Eclc.Lexer.Values.{IsStored, tokenize-IsStored}
use e_comos.Eclc.Lexer.Lexemes.{IsLexeme}
use e_comos.Eclc.Lexer.Operators.{IsSingle, IsDouble}
use e_comos.Eclc.Lexer.Names.{AllPass}
use e_comos.Eclc.Lexer.RoundTrip.{
  Lexeme, AllLexemes, print_before, column_behind, tokens_from, end_token, tokenize-print_before,
}

-- `x1 == 42 + `
abbrev lexemes : List Lexeme
lexemes =
    (b'x' ∷ b'1' ∷ [], tok_identifier)
    ∷ (b'=' ∷ b'=' ∷ [], tok_eq)
    ∷ (b'4' ∷ b'2' ∷ [], tok_integer)
    ∷ (b'+' ∷ [], tok_plus)
    ∷ []

x1-IsLexeme : IsLexeme (b'x' ∷ b'1' ∷ []) tok_identifier
x1-IsLexeme =
    IsLexeme.identifier refl (AllPass.cons refl AllPass.nil)
      (λ e. absurd (omega (arith, ap (λ (s : List ℕ). get_or s 0 0) e)))
      (λ e. absurd (omega (arith, ap (λ (s : List ℕ). get_or s 0 0) e)))

lexemes-AllLexemes : AllLexemes lexemes
lexemes-AllLexemes = AllLexemes.cons x1-IsLexeme (
    AllLexemes.cons (IsLexeme.double IsDouble.eq) (
      AllLexemes.cons (IsLexeme.number refl (AllPass.cons refl AllPass.nil))
        (AllLexemes.cons (IsLexeme.single IsSingle.plus) AllLexemes.nil)))

tokenize-print_before_example :
    (stream : TokenStream) × (tokenize (print_before [] lexemes) ≡ done stream)
    × (stream.tokens ≡ tokens_from 1 lexemes ++ end_token (column_behind 1 lexemes) ∷ [])
tokenize-print_before_example = tokenize-print_before lexemes lexemes-AllLexemes

tokenize_ends_example :
    (tokenize (b'a' ∷ apostrophe ∷ []) ≡ overran)
    ⊎ ((stream : TokenStream) × (tokenize (b'a' ∷ apostrophe ∷ []) ≡ done stream))
tokenize_ends_example = tokenize_ends (b'a' ∷ apostrophe ∷ [])

-- the stream of the source `7`
abbrev seven : TokenStream
seven =
    token_stream_add
      (token_stream_add empty_stream (create_token tok_integer (some (b'7' ∷ [])) 1 (pos 1)))
      (create_token tok_eof none 1 (pos 2))

tokenize-seven : tokenize (b'7' ∷ []) ≡ done seven
unfolding tokenize lex lex_step scan_while token_before
tokenize-seven = refl

tokenize-IsStored_example : IsStored seven
tokenize-IsStored_example = tokenize-IsStored (b'7' ∷ []) tokenize-seven
