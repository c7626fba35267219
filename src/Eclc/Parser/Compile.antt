-- ===== src/Eclc/Parser/Compile.antt =====
-- From the source text to the tree: the lexer and the parser together.
use mathlib.Core.Path.{subst}
use e_comos.Prelude.{
  ℕ, ◌+◌, arith, ◌≡◌, refl, ap, ap₂, sym, ◌∙◌, some, List, [], ◌∷◌, ◌++◌, length, drop, get_or,
}
use e_comos.Prelude.Int.{pos}
use e_comos.Eclc.Token.{
  Token, TokenStream, create_token, tok_integer, tok_int, tok_return, tok_identifier, tok_lbrace,
  tok_rbrace, tok_lparen, tok_rparen, tok_semicolon,
}
use e_comos.Eclc.Lexer.{done, tokenize, text_int, text_return}
use e_comos.Eclc.Lexer.Lexemes.{IsLexeme}
use e_comos.Eclc.Lexer.Operators.{IsSingle}
use e_comos.Eclc.Lexer.RoundTrip.{
  Lexeme, AllLexemes, print_before, column_behind, tokens_from, end_token, tokenize-print_before,
}
use e_comos.Eclc.Parser.{Ast, parser_parse}
use e_comos.Eclc.Parser.Grammar.{IsReturn, value, bare, IsBlock, returns, IsHeader}
use e_comos.Eclc.Parser.Return.{with_value}
use e_comos.Eclc.Parser.Program.{
  function_program, ProgramSpec, parsed, bodiless, rejected, parser_parse-ProgramSpec,
}

-- `int name ( ) { return number ; }` and whatever lexemes follow
abbrev pub program_lexemes : List ℕ → List ℕ → List Lexeme → List Lexeme
program_lexemes name digits more =
    (text_int, tok_int)
    ∷ (name, tok_identifier)
    ∷ (b'(' ∷ [], tok_lparen)
    ∷ (b')' ∷ [], tok_rparen)
    ∷ (b'{' ∷ [], tok_lbrace)
    ∷ (text_return, tok_return)
    ∷ (digits, tok_integer)
    ∷ (b';' ∷ [], tok_semicolon)
    ∷ (b'}' ∷ [], tok_rbrace)
    ∷ more

program-AllLexemes :
    (c d : ℕ) (cs ds : List ℕ) (more : List Lexeme)
    → IsLexeme (c ∷ cs) tok_identifier
    → IsLexeme (d ∷ ds) tok_integer
    → AllLexemes more
    → AllLexemes (program_lexemes (c ∷ cs) (d ∷ ds) more)
program-AllLexemes c d cs ds more name digits all = AllLexemes.cons IsLexeme.int_keyword (
    AllLexemes.cons name (
      AllLexemes.cons (IsLexeme.single IsSingle.lparen) (
        AllLexemes.cons (IsLexeme.single IsSingle.rparen) (
          AllLexemes.cons (IsLexeme.single IsSingle.lbrace) (
            AllLexemes.cons IsLexeme.return_keyword (
              AllLexemes.cons digits (
                AllLexemes.cons (IsLexeme.single IsSingle.semicolon)
                  (AllLexemes.cons (IsLexeme.single IsSingle.rbrace) all))))))))

-- the tree of the function, with the tokens of its three leaves
abbrev pub program_tree : List ℕ → List ℕ → Ast
program_tree name digits = function_program (create_token tok_identifier (some name) 1 (pos 5)) (
    with_value (create_token tok_return (some text_return) 1 (pos (length name + 12)))
      (create_token tok_integer (some digits) 1 (pos (length name + 19))))

IsReturn-same :
    {d rest rest' : List Token} {stmt stmt' : Ast}
    → IsReturn d stmt rest
    → IsReturn d stmt' rest'
    → stmt ≡ stmt'
IsReturn-same (value a b c) (value a' b' c') = refl
IsReturn-same (value a b c) (bare a' c') = absurd (omega arith)
IsReturn-same (bare a c) (value a' b' c') = absurd (omega arith)
IsReturn-same (bare a c) (bare a' c') = refl

IsBlock-same : {d : List Token} {stmt stmt' : Ast} → IsBlock d stmt → IsBlock d stmt' → stmt ≡ stmt'
IsBlock-same (returns a b e) (returns a' b' e') = IsReturn-same b b'

same_rest :
    {i n o c i' n' o' c' : Token} {body body' : List Token}
    → (i ∷ n ∷ o ∷ c ∷ body) ≡ (i' ∷ n' ∷ o' ∷ c' ∷ body')
    → body ≡ body'
same_rest e = ap (drop 4) e

same_name :
    {i n o c i' n' o' c' : Token} {body body' : List Token}
    → (i ∷ n ∷ o ∷ c ∷ body) ≡ (i' ∷ n' ∷ o' ∷ c' ∷ body')
    → n ≡ n'
same_name {i} e = ap (λ (ts : List Token). get_or ts 1 i) e

-- A well-formed function determines the tree.
ProgramSpec-same :
    {i n o c : Token} {body : List Token} {stmt r : Ast}
    → IsHeader i n o c
    → IsBlock body stmt
    → ProgramSpec (i ∷ n ∷ o ∷ c ∷ body) r
    → r ≡ function_program n stmt
ProgramSpec-same {stmt = stmt} header block (parsed i n o c body stmt' e header' block') =
    ap₂ function_program (same_name (sym e))
      (sym (IsBlock-same block (subst (λ d. IsBlock d stmt') (sym (same_rest e)) block')))
ProgramSpec-same {stmt = stmt} header block (bodiless i n o c body e header' none_there) =
    absurd (none_there _ (subst (λ d. IsBlock d stmt) (same_rest e) block))
ProgramSpec-same {i} {n} {o} {c} {body} header block (rejected none_there) =
    absurd (none_there i n o c body refl header)

program-parsed :
    (c d : ℕ) (cs ds : List ℕ) (more : List Lexeme) (end : List Token)
    → parser_parse (tokens_from 1 (program_lexemes (c ∷ cs) (d ∷ ds) more) ++ end)
      ≡ program_tree (c ∷ cs) (d ∷ ds)
unfolding tokens_from create_token
program-parsed c d cs ds more end =
    ProgramSpec-same record { is_int = refl; is_name = refl; opens = refl; closes = refl }
      (IsBlock.returns refl (IsReturn.value refl refl refl) refl) (parser_parse-ProgramSpec _)
    ∙ ap₂
        (λ (m n : ℕ). function_program (create_token tok_identifier (some (c ∷ cs)) 1 (pos 5)) (
          with_value (create_token tok_return (some text_return) 1 (pos m))
            (create_token tok_integer (some (d ∷ ds)) 1 (pos n))))
        (omega arith) (omega arith)

-- The source `int name ( ) { return number ; }`, whatever lexemes follow it, is read and parsed into the
-- tree of that function: the tokens have the types, the line and the columns of the source.
pub parser_parse-tokenize :
    (c d : ℕ) (cs ds : List ℕ) (more : List Lexeme)
    → IsLexeme (c ∷ cs) tok_identifier
    → IsLexeme (d ∷ ds) tok_integer
    → AllLexemes more
    → (stream : TokenStream) × (tokenize (print_before [] (program_lexemes (c ∷ cs) (d ∷ ds) more))
        ≡ done stream)
      × (parser_parse stream.tokens ≡ program_tree (c ∷ cs) (d ∷ ds))
parser_parse-tokenize c d cs ds more name digits all =
    let ls = program_lexemes (c ∷ cs) (d ∷ ds) more in
    let (stream, e, tokens) =
      tokenize-print_before ls (program-AllLexemes c d cs ds more name digits all) in
    (
      stream,
      e,
      ap parser_parse tokens ∙ program-parsed c d cs ds more (end_token (column_behind 1 ls) ∷ []),
    )
