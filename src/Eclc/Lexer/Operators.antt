-- ===== src/Eclc/Lexer/Operators.antt =====
-- The operators of the language, and the tables of the lexer that list them.
use e_comos.Prelude.{ℕ, ◌≡◌, refl, some, [], ◌∷◌}
use e_comos.Eclc.Token.{
  TokenType, tok_lbrace, tok_rbrace, tok_lparen, tok_rparen, tok_lbracket, tok_rbracket,
  tok_semicolon, tok_comma, tok_dot, tok_assign, tok_plus, tok_minus, tok_multiply, tok_divide,
  tok_modulo, tok_ampersand, tok_pipe, tok_caret, tok_tilde, tok_exclamation, tok_question,
  tok_colon, tok_lt, tok_gt, tok_hash, tok_eq, tok_ne, tok_le, tok_ge, tok_arrow,
}
use e_comos.Eclc.Lexer.{double_token, single_tokens, lookup_token}

-- The operators of one character, as the language has them.
pub data IsSingle : ℕ → TokenType → Type 0 where
  lbrace : IsSingle b'{' tok_lbrace
  rbrace : IsSingle b'}' tok_rbrace
  lparen : IsSingle b'(' tok_lparen
  rparen : IsSingle b')' tok_rparen
  lbracket : IsSingle b'[' tok_lbracket
  rbracket : IsSingle b']' tok_rbracket
  semicolon : IsSingle b';' tok_semicolon
  comma : IsSingle b',' tok_comma
  dot : IsSingle b'.' tok_dot
  assign : IsSingle b'=' tok_assign
  plus : IsSingle b'+' tok_plus
  minus : IsSingle b'-' tok_minus
  multiply : IsSingle b'*' tok_multiply
  divide : IsSingle b'/' tok_divide
  modulo : IsSingle b'%' tok_modulo
  ampersand : IsSingle b'&' tok_ampersand
  pipe : IsSingle b'|' tok_pipe
  caret : IsSingle b'^' tok_caret
  tilde : IsSingle b'~' tok_tilde
  exclamation : IsSingle b'!' tok_exclamation
  question : IsSingle b'?' tok_question
  colon : IsSingle b':' tok_colon
  lt : IsSingle b'<' tok_lt
  gt : IsSingle b'>' tok_gt
  hash : IsSingle b'#' tok_hash

-- The operators of two characters.
pub data IsDouble : ℕ → ℕ → TokenType → Type 0 where
  eq : IsDouble b'=' b'=' tok_eq
  not_equal : IsDouble b'!' b'=' tok_ne
  le : IsDouble b'<' b'=' tok_le
  ge : IsDouble b'>' b'=' tok_ge
  arrow : IsDouble b'-' b'>' tok_arrow

-- The lexer knows them.
pub IsSingle-lookup :
    {c : ℕ} {type : TokenType} → IsSingle c type → lookup_token c single_tokens ≡ some type
unfolding lookup_token
IsSingle-lookup IsSingle.lbrace = refl
IsSingle-lookup IsSingle.rbrace = refl
IsSingle-lookup IsSingle.lparen = refl
IsSingle-lookup IsSingle.rparen = refl
IsSingle-lookup IsSingle.lbracket = refl
IsSingle-lookup IsSingle.rbracket = refl
IsSingle-lookup IsSingle.semicolon = refl
IsSingle-lookup IsSingle.comma = refl
IsSingle-lookup IsSingle.dot = refl
IsSingle-lookup IsSingle.assign = refl
IsSingle-lookup IsSingle.plus = refl
IsSingle-lookup IsSingle.minus = refl
IsSingle-lookup IsSingle.multiply = refl
IsSingle-lookup IsSingle.divide = refl
IsSingle-lookup IsSingle.modulo = refl
IsSingle-lookup IsSingle.ampersand = refl
IsSingle-lookup IsSingle.pipe = refl
IsSingle-lookup IsSingle.caret = refl
IsSingle-lookup IsSingle.tilde = refl
IsSingle-lookup IsSingle.exclamation = refl
IsSingle-lookup IsSingle.question = refl
IsSingle-lookup IsSingle.colon = refl
IsSingle-lookup IsSingle.lt = refl
IsSingle-lookup IsSingle.gt = refl
IsSingle-lookup IsSingle.hash = refl

pub IsDouble-token :
    {c d : ℕ} {type : TokenType} → IsDouble c d type → double_token c (d ∷ []) ≡ some type
unfolding double_token
IsDouble-token IsDouble.eq = refl
IsDouble-token IsDouble.not_equal = refl
IsDouble-token IsDouble.le = refl
IsDouble-token IsDouble.ge = refl
IsDouble-token IsDouble.arrow = refl
