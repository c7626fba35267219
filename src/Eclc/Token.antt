-- ===== src/Eclc/Token.antt =====
-- Tokens and their stream (source/eclc/include/eclc/token.h and the helpers at the start and the end of
-- source/eclc/src/frontend/lexer.c).
pub mod Stream
use e_comos.Prelude.{
  ℕ, zero, suc, ◌+◌, ◌-◌, ◌*◌, ◌^◌, Bool, true, false, Option, none, some, List, [], ◌∷◌, ◌++◌,
  length, get_elem?, leb, ◌==◌, if◌then◌else◌,
}
use e_comos.Prelude.Int.{ℤ, pos, negsuc, sub_ℕ}

pub data TokenType : Type 0 where
  tok_integer tok_string tok_char : TokenType
  tok_int tok_return tok_include : TokenType
  tok_identifier : TokenType
  tok_assign tok_plus tok_minus tok_multiply tok_divide tok_modulo : TokenType
  tok_ampersand tok_pipe tok_caret tok_tilde tok_exclamation tok_question tok_colon : TokenType
  tok_eq tok_ne tok_lt tok_le tok_gt tok_ge : TokenType
  tok_lbrace tok_rbrace tok_lparen tok_rparen tok_lbracket tok_rbracket : TokenType
  tok_semicolon tok_comma tok_dot tok_arrow : TokenType
  tok_hash : TokenType
  tok_eof tok_error : TokenType

-- `value` is an address; 0 is NULL.
pub record Token : Type 0 where
  pub type : TokenType
  pub value : ℕ
  pub line : ℕ
  pub column : ℤ

-- `count` is the number of the tokens.
pub record TokenStream : Type 0 where
  pub tokens : List Token
  pub capacity : ℕ
  pub current : ℕ

abbrev pub empty_stream : TokenStream
empty_stream = record { tokens = []; capacity = 0; current = 0 }

-- the byte of a string at `i`, its terminator included
abbrev first_byte : List ℕ → ℕ
first_byte [] = 0
first_byte (c ∷ cs) = c

-- `strcmp` of the C library: the difference at the first byte that differs
unfoldable pub strcmp : List ℕ → List ℕ → ℤ
strcmp [] t = sub_ℕ 0 (first_byte t)
strcmp (c ∷ s) [] = pos c
strcmp (c ∷ s) (d ∷ t) = let rest = strcmp s t in if c == d then rest else sub_ℕ c d

-- an `int` that is converted to a pointer
abbrev pub pointer : ℤ → ℕ
pointer (pos n) = n
pointer (negsuc n) = 2 ^ 64 - 1 - n

-- `value ? strcmp(value, value) : NULL`
unfoldable pub token_value : Option (List ℕ) → ℕ
token_value none = 0
token_value (some value) = pointer (strcmp value value)

unfoldable pub create_token : TokenType → Option (List ℕ) → ℕ → ℤ → Token
create_token type value line column = record {
  type = type;
  value = token_value value;
  line = line;
  column = column;
}

-- the capacity after `token_stream_add`, from 16 tokens on
abbrev pub grown : ℕ → ℕ → ℕ
grown count capacity =
    if leb capacity count then (if capacity == 0 then 16 else capacity * 2) else capacity

unfoldable pub token_stream_add : TokenStream → Token → TokenStream
token_stream_add stream token = record stream {
  tokens = stream.tokens ++ token ∷ [];
  capacity = grown (length stream.tokens) stream.capacity;
}

-- The option is the address of a token, or NULL.
unfoldable pub token_stream_next : TokenStream → Option Token × TokenStream
token_stream_next stream =
    if leb (length stream.tokens) stream.current
    then (none, stream)
    else (get_elem? stream.tokens stream.current, record stream { current = stream.current + 1 })

unfoldable pub token_stream_peek : TokenStream → Option Token
token_stream_peek stream =
    if leb (length stream.tokens) stream.current
    then none
    else get_elem? stream.tokens stream.current
