-- ===== src/Eclc/Lexer/Values.antt =====
-- What every token of a stream is like, and that the stream lies inside its array.
use mathlib.Core.Path.{subst}
use e_comos.Prelude.{ℕ, zero, suc, ◌≤◌, ◌≡◌, List, [], ◌∷◌, ◌++◌, length, none, arith}
use e_comos.Prelude.Int.{pos}
use e_comos.Eclc.Token.{Token, TokenStream, empty_stream, create_token, token_stream_add, tok_eof}
use e_comos.Eclc.Token.Stream.{create_token-null, Fits, token_stream_add-Fits}
use e_comos.Eclc.Lexer.{
  Position, Step, overrun, skipped, emitted, Lexed, out_of_fuel, overran, done, after_step, lex_at,
  lex, lex_step, tokenize,
}
use e_comos.Eclc.Lexer.Ends.{Leaves, lex_step-Leaves}

-- No token has a text.
pub data IsTextless : List Token → Type 0 where
  nil : IsTextless []
  cons : {t : Token} {ts : List Token} → t.value ≡ 0 → IsTextless ts → IsTextless (t ∷ ts)

abbrev pub IsStored : TokenStream → Type 0
IsStored stream = IsTextless stream.tokens × Fits stream

IsTextless-concat :
    {ts : List Token} (t : Token) → t.value ≡ 0 → IsTextless ts → IsTextless (ts ++ t ∷ [])
IsTextless-concat t h nil = cons h nil
IsTextless-concat t h (cons x rest) = cons x (IsTextless-concat t h rest)

add-IsStored :
    (stream : TokenStream) (token : Token)
    → token.value ≡ 0
    → IsStored stream
    → IsStored (token_stream_add stream token)
unfolding token_stream_add
add-IsStored stream token h v =
    (IsTextless-concat token h v.0, token_stream_add-Fits stream token v.1)

-- A stream that comes out is stored.
abbrev StoredResult : Lexed → Type 0
StoredResult out_of_fuel = 0 ≤ 0
StoredResult overran = 0 ≤ 0
StoredResult (done stream) = IsStored stream

after_step-StoredResult :
    (again : Position → TokenStream → Lexed) (n : ℕ) (x : Step) (stream : TokenStream)
    → ((p : Position) (stream : TokenStream) → IsStored stream → StoredResult (again p stream))
    → Leaves n x
    → IsStored stream
    → StoredResult (after_step again stream x)
after_step-StoredResult again n overrun stream f l v = omega arith
after_step-StoredResult again n (skipped p) stream f l v = f p stream v
after_step-StoredResult again n (emitted token p) stream f l v =
    f p (token_stream_add stream token) (add-IsStored stream token l.1 v)

lex_at-StoredResult :
    (again : Position → TokenStream → Lexed) (cs : List ℕ) (line column : ℕ) (stream : TokenStream)
    → ((p : Position) (stream : TokenStream) → IsStored stream → StoredResult (again p stream))
    → IsStored stream
    → StoredResult (lex_at again cs line column stream)
lex_at-StoredResult again [] line column stream f v =
    add-IsStored stream (create_token tok_eof none line (pos column))
      (create_token-null tok_eof none line (pos column)) v
lex_at-StoredResult again (c ∷ cs) line column stream f v =
    after_step-StoredResult again (length cs) (lex_step c cs line column) stream f
      (lex_step-Leaves c cs line column) v

lex-StoredResult :
    (n : ℕ) (p : Position) (stream : TokenStream) → IsStored stream → StoredResult (lex n p stream)
unfolding lex
lex-StoredResult zero p stream v = omega arith
lex-StoredResult (suc n) p stream v =
    lex_at-StoredResult (lex n) p.rest p.line p.column stream (lex-StoredResult n) v

-- Whatever the source, no token that `tokenize` returns has a text, since `create_token` stores the
-- result of comparing the text with itself in its place; and all tokens lie inside the stream's array.
pub tokenize-IsStored :
    (source : List ℕ) {stream : TokenStream} → tokenize source ≡ done stream → IsStored stream
unfolding tokenize
tokenize-IsStored source {stream} e =
    subst StoredResult e (lex-StoredResult _ _ empty_stream (nil, omega arith))
