-- ===== src/Eclc/Parser/Tests.antt =====
-- Sources and tokens at which the results on the parser apply.
use e_comos.Prelude.{ℕ, ap, arith, get_or, ◌≡◌, refl, none, List, [], ◌∷◌}
use e_comos.Prelude.Int.{pos}
use e_comos.Eclc.Token.{
  Token, TokenStream, create_token, tok_int, tok_identifier, tok_lparen, tok_rparen, tok_lbrace,
  tok_plus,
}
use e_comos.Eclc.Lexer.{done, tokenize}
use e_comos.Eclc.Lexer.Lexemes.{IsLexeme}
use e_comos.Eclc.Lexer.Names.{AllPass}
use e_comos.Eclc.Lexer.RoundTrip.{Lexeme, AllLexemes, print_before}
use e_comos.Eclc.Parser.{parser_parse}
use e_comos.Eclc.Parser.Program.{ProgramSpec, parser_parse-ProgramSpec}
use e_comos.Eclc.Parser.Compile.{program_lexemes, program_tree, parser_parse-tokenize}

-- `int f ( ) { +`: the block is not closed.
abbrev broken : List Token
broken =
    create_token tok_int none 1 (pos 1)
    ∷ create_token tok_identifier none 1 (pos 5)
    ∷ create_token tok_lparen none 1 (pos 7)
    ∷ create_token tok_rparen none 1 (pos 9)
    ∷ create_token tok_lbrace none 1 (pos 11)
    ∷ create_token tok_plus none 1 (pos 13)
    ∷ []

parser_parse-ProgramSpec_example : ProgramSpec broken (parser_parse broken)
parser_parse-ProgramSpec_example = parser_parse-ProgramSpec broken

name-IsLexeme : IsLexeme (b'f' ∷ b'_' ∷ []) tok_identifier
name-IsLexeme =
    IsLexeme.identifier refl (AllPass.cons refl AllPass.nil)
      (λ e. absurd (omega (arith, ap (λ (s : List ℕ). get_or s 0 0) e)))
      (λ e. absurd (omega (arith, ap (λ (s : List ℕ). get_or s 0 0) e)))

-- a name behind the function
abbrev more : List Lexeme
more = (b'f' ∷ b'_' ∷ [], tok_identifier) ∷ []

parser_parse-tokenize_example :
    (stream : TokenStream) × (tokenize
        (print_before [] (program_lexemes (b'f' ∷ b'_' ∷ []) (b'0' ∷ []) more))
      ≡ done stream)
    × (parser_parse stream.tokens ≡ program_tree (b'f' ∷ b'_' ∷ []) (b'0' ∷ []))
parser_parse-tokenize_example =
    parser_parse-tokenize b'f' b'0' (b'_' ∷ []) [] more name-IsLexeme
      (IsLexeme.number refl AllPass.nil) (AllLexemes.cons name-IsLexeme AllLexemes.nil)
