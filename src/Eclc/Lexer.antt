-- ===== src/Eclc/Lexer.antt =====
-- `tokenize` (source/eclc/src/frontend/lexer.c). The source is the list of its bytes, without the
-- terminating 0; what is behind `pos` is the rest of the list. A read behind the terminator has no
-- result. The classes of characters are those of <ctype.h> in the C locale. Lines and columns are
-- taken not to reach 2^31.
pub mod Ends
pub mod Values
pub mod Operators
pub mod Names
pub mod Lexemes
pub mod RoundTrip
mod Tests
use e_comos.Prelude.{
  ℕ, zero, suc, ◌+◌, ◌-◌, Bool, true, false, ◌&&◌, ◌||◌, not, Option, none, some, List, [], ◌∷◌,
  ◌++◌, length, leb, ◌==◌, if◌then◌else◌,
}
use e_comos.Prelude.Int.{ℤ, pos, negsuc, sub_ℕ}
use e_comos.Eclc.Token.{
  TokenType, Token, TokenStream, empty_stream, strcmp, create_token, token_stream_add, tok_integer,
  tok_string, tok_char, tok_int, tok_return, tok_identifier, tok_assign, tok_plus, tok_minus,
  tok_multiply, tok_divide, tok_modulo, tok_ampersand, tok_pipe, tok_caret, tok_tilde,
  tok_exclamation, tok_question, tok_colon, tok_eq, tok_ne, tok_lt, tok_le, tok_gt, tok_ge,
  tok_lbrace, tok_rbrace, tok_lparen, tok_rparen, tok_lbracket, tok_rbracket, tok_semicolon,
  tok_comma, tok_dot, tok_arrow, tok_hash, tok_eof,
}

abbrev pub is_between : ℕ → ℕ → ℕ → Bool
is_between low high c = leb low c && leb c high

abbrev pub is_space : ℕ → Bool
is_space c = c == b' ' || is_between 9 13 c

abbrev pub is_digit : ℕ → Bool
is_digit c = is_between b'0' b'9' c

abbrev pub is_alpha : ℕ → Bool
is_alpha c = is_between b'a' b'z' c || is_between b'A' b'Z' c

abbrev pub is_identifier_char : ℕ → Bool
is_identifier_char c = is_alpha c || is_digit c || c == b'_'

abbrev pub newline : ℕ
newline = 10

abbrev pub quote : ℕ
quote = 34

abbrev pub apostrophe : ℕ
apostrophe = 39

abbrev pub backslash : ℕ
backslash = 92

-- where the lexer stands
pub record Position : Type 0 where
  pub rest : List ℕ
  pub line : ℕ
  pub column : ℕ

-- One byte further, over a line end or not.
abbrev pub over : ℕ → Position → Position
over c p = record p {
  line = if c == newline then p.line + 1 else p.line;
  column = if c == newline then 1 else p.column + 1;
}

-- The bytes that a loop passes, and where it stops.
pub record Scan : Type 0 where
  pub taken : List ℕ
  pub at : Position

abbrev pub passed : ℕ → Scan → Scan
passed c s = record s { taken = c ∷ s.taken }

-- the loop of a string literal, behind the opening quote
unfoldable pub scan_string : List ℕ → ℕ → ℕ → Scan
scan_string [] line column = record {
  taken = [];
  at = record { rest = []; line = line; column = column };
}
scan_string (c ∷ cs) line column =
    let next = over c (record { rest = cs; line = line; column = column }) in
    let more = scan_string cs next.line next.column in
    if c == quote
    then record { taken = []; at = record { rest = c ∷ cs; line = line; column = column } }
    else passed c more

abbrev pub starts_with : ℕ → List ℕ → Bool
starts_with c [] = false
starts_with c (d ∷ cs) = d == c

-- the loop of a comment, behind the opening `/*`
unfoldable pub scan_comment : List ℕ → ℕ → ℕ → Position
scan_comment [] line column = record { rest = []; line = line; column = column }
scan_comment (c ∷ cs) line column =
    let next = over c (record { rest = cs; line = line; column = column }) in
    let more = scan_comment cs next.line next.column in
    if c == b'*' && starts_with b'/' cs
    then record { rest = c ∷ cs; line = line; column = column }
    else more

-- the loops of line comments, numbers and names: the bytes that pass the test
unfoldable pub scan_while : (ℕ → Bool) → List ℕ → ℕ → ℕ → Scan
scan_while test [] line column = record {
  taken = [];
  at = record { rest = []; line = line; column = column };
}
scan_while test (c ∷ cs) line column =
    let more = scan_while test cs line (column + 1) in
    if test c
    then passed c more
    else record { taken = []; at = record { rest = c ∷ cs; line = line; column = column } }

-- What one round of the main loop does.
pub data Step : Type 0 where
  -- a read behind the terminator
  overrun : Step
  skipped : Position → Step
  emitted : Token → Position → Step

-- A token whose text ends at `p` and began `value` before it.
unfoldable pub token_before : TokenType → List ℕ → Position → Step
token_before type value p =
    emitted (create_token type (some value) p.line (sub_ℕ p.column (length value))) p

abbrev pub tail : List ℕ → List ℕ
tail [] = []
tail (c ∷ cs) = cs

abbrev pub width : List ℕ → ℕ
width [] = 0
width (c ∷ cs) = 1

-- one byte further, if there is one
abbrev pub drop_one : Position → Position
drop_one p = record p { rest = tail p.rest; column = p.column + width p.rest }

unfoldable pub lex_string : List ℕ → ℕ → ℕ → Step
lex_string cs line column =
    let body = scan_string cs line (column + 1) in
    if starts_with quote body.at.rest
    then token_before tok_string (quote ∷ body.taken ++ quote ∷ []) (drop_one body.at)
    else token_before tok_string (quote ∷ body.taken) body.at

-- the closing apostrophe, if it is there, behind the bytes `value`
abbrev pub close_char : List ℕ → List ℕ → ℕ → ℕ → Step
close_char value [] line column =
    token_before tok_char value (record { rest = []; line = line; column = column })
close_char value (c ∷ cs) line column =
    if c == apostrophe
    then token_before tok_char (value ++ c ∷ [])
        (record { rest = cs; line = line; column = column + 1 })
    else token_before tok_char value (record { rest = c ∷ cs; line = line; column = column })

-- behind the opening apostrophe and a backslash
abbrev pub lex_escape : List ℕ → ℕ → ℕ → Step
lex_escape [] line column = overrun
lex_escape (c ∷ cs) line column = close_char (apostrophe ∷ backslash ∷ c ∷ []) cs line (column + 3)

unfoldable pub lex_char : List ℕ → ℕ → ℕ → Step
lex_char [] line column = overrun
lex_char (c ∷ cs) line column =
    if c == backslash
    then lex_escape cs line column
    else close_char (apostrophe ∷ c ∷ []) cs line (column + 2)

abbrev pub drop_two : Position → Position
drop_two p = drop_one (drop_one p)

abbrev pub text_int : List ℕ
text_int = b'i' ∷ b'n' ∷ b't' ∷ []

abbrev pub text_return : List ℕ
text_return = b'r' ∷ b'e' ∷ b't' ∷ b'u' ∷ b'r' ∷ b'n' ∷ []

abbrev pub is_same : List ℕ → List ℕ → Bool
is_same s t = elim (strcmp s t) [ pos n ↦ n == 0 | negsuc n ↦ false ]

unfoldable pub keyword : List ℕ → TokenType
keyword value =
    if is_same value text_int
    then tok_int
    else if is_same value text_return
    then tok_return
    else tok_identifier

-- the five operators of two characters
unfoldable pub double_token : ℕ → List ℕ → Option TokenType
double_token c cs =
    if c == b'=' && starts_with b'=' cs
    then some tok_eq
    else if c == b'!' && starts_with b'=' cs
    then some tok_ne
    else if c == b'<' && starts_with b'=' cs
    then some tok_le
    else if c == b'>' && starts_with b'=' cs
    then some tok_ge
    else if c == b'-' && starts_with b'>' cs
    then some tok_arrow
    else none

-- the cases of the `switch`
abbrev pub single_tokens : List (ℕ × TokenType)
single_tokens =
    (b'{', tok_lbrace)
    ∷ (b'}', tok_rbrace)
    ∷ (b'(', tok_lparen)
    ∷ (b')', tok_rparen)
    ∷ (b'[', tok_lbracket)
    ∷ (b']', tok_rbracket)
    ∷ (b';', tok_semicolon)
    ∷ (b',', tok_comma)
    ∷ (b'.', tok_dot)
    ∷ (b'=', tok_assign)
    ∷ (b'+', tok_plus)
    ∷ (b'-', tok_minus)
    ∷ (b'*', tok_multiply)
    ∷ (b'/', tok_divide)
    ∷ (b'%', tok_modulo)
    ∷ (b'&', tok_ampersand)
    ∷ (b'|', tok_pipe)
    ∷ (b'^', tok_caret)
    ∷ (b'~', tok_tilde)
    ∷ (b'!', tok_exclamation)
    ∷ (b'?', tok_question)
    ∷ (b':', tok_colon)
    ∷ (b'<', tok_lt)
    ∷ (b'>', tok_gt)
    ∷ (b'#', tok_hash)
    ∷ []

unfoldable pub lookup_token : ℕ → List (ℕ × TokenType) → Option TokenType
lookup_token c [] = none
lookup_token c ((d, type) ∷ cases) =
    let rest = lookup_token c cases in if c == d then some type else rest

-- `type` stays `tok_error` for an unknown character, which is reported and passed.
abbrev pub emit_single : ℕ → List ℕ → ℕ → ℕ → Option TokenType → Step
emit_single c cs line column none = skipped (record { rest = cs; line = line; column = column + 1 })
emit_single c cs line column (some type) =
    emitted (create_token type (some (c ∷ [])) line (pos column))
      (record { rest = cs; line = line; column = column + 1 })

abbrev pub second : List ℕ → List ℕ
second [] = []
second (c ∷ cs) = c ∷ []

abbrev pub lex_operator : ℕ → List ℕ → ℕ → ℕ → Option TokenType → Step
lex_operator c cs line column (some type) =
    emitted (create_token type (some (c ∷ second cs)) line (pos column))
      (drop_two (record { rest = c ∷ cs; line = line; column = column }))
lex_operator c cs line column none = emit_single c cs line column (lookup_token c single_tokens)

-- One round of the main loop, at the byte `c`.
unfoldable pub lex_step : ℕ → List ℕ → ℕ → ℕ → Step
lex_step c cs line column =
    let here : Position = record { rest = c ∷ cs; line = line; column = column } in
    if is_space c
    then skipped (over c (record here { rest = cs }))
    else if c == quote
    then lex_string cs line column
    else if c == apostrophe
    then lex_char cs line column
    else if c == b'/' && starts_with b'*' cs
    then skipped (drop_two (scan_comment (drop_two here).rest line (column + 2)))
    else if c == b'/' && starts_with b'/' cs
    then skipped (scan_while (λ d. not (d == newline)) (c ∷ cs) line column).at
    else if is_digit c
    then (let digits = scan_while is_digit (c ∷ cs) line column in
        token_before tok_integer digits.taken digits.at)
    else if is_alpha c || c == b'_'
    then (let name = scan_while is_identifier_char (c ∷ cs) line column in
        token_before (keyword name.taken) name.taken name.at)
    else lex_operator c cs line column (double_token c cs)

-- How the lexer ends.
pub data Lexed : Type 0 where
  out_of_fuel : Lexed
  overran : Lexed
  done : TokenStream → Lexed

-- what follows a round; `again` is the rest of the loop
abbrev pub after_step : (Position → TokenStream → Lexed) → TokenStream → Step → Lexed
after_step again stream overrun = overran
after_step again stream (skipped p) = again p stream
after_step again stream (emitted token p) = again p (token_stream_add stream token)

abbrev pub lex_at : (Position → TokenStream → Lexed) → List ℕ → ℕ → ℕ → TokenStream → Lexed
lex_at again [] line column stream =
    done (token_stream_add stream (create_token tok_eof none line (pos column)))
lex_at again (c ∷ cs) line column stream = after_step again stream (lex_step c cs line column)

-- the main loop, on fuel
unfoldable pub lex : ℕ → Position → TokenStream → Lexed
lex zero p stream = out_of_fuel
lex (suc n) p stream = lex_at (lex n) p.rest p.line p.column stream

-- Every round passes a byte, so that this fuel is enough.
unfoldable pub tokenize : List ℕ → Lexed
tokenize source =
    lex (suc (length source)) (record { rest = source; line = 1; column = 1 }) empty_stream
