-- ===== src/Eclc/Token/Stream.antt =====
-- The stream stays inside its array, and is read in the order in which it was filled.
use e_comos.Prelude.{
  ℕ, zero, suc, ◌+◌, ◌≤◌, ◌<◌, ◌≡◌, refl, ap, sym, ◌∙◌, Bool, true, false, Option, none, some, List,
  [], ◌∷◌, ◌++◌, length, get_elem?, leb, if◌then◌else◌, drop, arith,
}
use e_comos.Prelude.Int.{ℤ, pos}
use e_comos.Eclc.Token.{
  TokenType, Token, TokenStream, strcmp, pointer, token_value, create_token, token_stream_add,
  token_stream_next, token_stream_peek,
}

-- A string is equal to itself, so that the result of `strcmp` is 0.
strcmp_self : (s : List ℕ) → strcmp s s ≡ pos 0
unfolding strcmp
strcmp_self [] = refl
strcmp_self (c ∷ s) = ground (arith, strcmp_self s)

pub token_value-null : (value : Option (List ℕ)) → token_value value ≡ 0
unfolding token_value
token_value-null none = refl
token_value-null (some value) = ap pointer (strcmp_self value)

pub create_token-null :
    (type : TokenType) (value : Option (List ℕ)) (line : ℕ) (column : ℤ)
    → (create_token type value line column).value ≡ 0
unfolding create_token
create_token-null type value line column = token_value-null value

length-concat : (ts : List Token) (t : Token) → length (ts ++ t ∷ []) ≡ suc (length ts)
length-concat [] t = refl
length-concat (x ∷ ts) t = ap suc (length-concat ts t)

-- All tokens lie inside the array.
abbrev pub Fits : TokenStream → Type 0
Fits stream = length stream.tokens ≤ stream.capacity

-- Adding a token keeps all of them inside the array: the capacity is grown first where it is used up.
pub token_stream_add-Fits :
    (stream : TokenStream) (token : Token) → Fits stream → Fits (token_stream_add stream token)
unfolding token_stream_add
token_stream_add-Fits stream token h = ground (arith, length-concat stream.tokens token)

-- The tokens that `next` has yet to return.
unfoldable pub remaining : TokenStream → List Token
remaining stream = drop stream.current stream.tokens

drop-all : (i : ℕ) (ts : List Token) → length ts ≤ i → drop i ts ≡ []
drop-all zero [] h = refl
drop-all (suc i) [] h = refl
drop-all zero (x ∷ ts) h = absurd (omega arith)
drop-all (suc i) (x ∷ ts) h = drop-all i ts (omega arith)

drop-inside :
    (i : ℕ) (ts : List Token)
    → i < length ts
    → (t : Token) × (get_elem? ts i ≡ some t) × (drop i ts ≡ t ∷ drop (suc i) ts)
drop-inside i [] h = absurd (omega arith)
drop-inside zero (x ∷ ts) h = (x, refl, refl)
drop-inside (suc i) (x ∷ ts) h = drop-inside i ts (omega arith)

-- what is returned of a queue of tokens, and what is left of it
abbrev pub taken_first : List Token → Option Token × List Token
taken_first [] = (none, [])
taken_first (t ∷ ts) = (some t, ts)

-- what the two functions give, by the test
next_if : TokenStream → Bool → Option Token × TokenStream
next_if stream all_read =
    if all_read
    then (none, stream)
    else (get_elem? stream.tokens stream.current, record stream { current = stream.current + 1 })

peek_if : TokenStream → Bool → Option Token
peek_if stream all_read = if all_read then none else get_elem? stream.tokens stream.current

abbrev Taken : TokenStream → Bool → Type 0
Taken stream all_read =
    (taken_first (remaining stream)
      ≡ ((next_if stream all_read).0, remaining (next_if stream all_read).1))
    × (peek_if stream all_read ≡ (next_if stream all_read).0)

remaining-Taken :
    (stream : TokenStream) (b : Bool)
    → leb (length stream.tokens) stream.current ≡ b
    → Taken stream b
unfolding next_if peek_if remaining
remaining-Taken stream true e =
    let nothing = drop-all stream.current stream.tokens (ground arith) in
    (ap taken_first nothing ∙ ap (λ (ts : List Token). (none, ts)) (sym nothing), refl)
remaining-Taken stream false e =
    let (t, found, left) = drop-inside stream.current stream.tokens (ground arith) in
    (
      ap taken_first left
          ∙ ap (λ (o : Option Token). (o, drop (suc stream.current) stream.tokens)) (sym found)
          ∙ ap (λ (n : ℕ). (get_elem? stream.tokens stream.current, drop n stream.tokens))
              {x = suc stream.current} (omega arith),
      refl,
    )

-- `token_stream_next` takes the first of the tokens that are left, or none, and `token_stream_peek`
-- returns the same token and takes nothing.
token_stream_next-token_stream_peek :
    (stream : TokenStream)
    → (taken_first (remaining stream)
        ≡ ((token_stream_next stream).0, remaining (token_stream_next stream).1))
      × (token_stream_peek stream ≡ (token_stream_next stream).0)
unfolding token_stream_next token_stream_peek next_if peek_if
token_stream_next-token_stream_peek stream =
    remaining-Taken stream (leb (length stream.tokens) stream.current) refl
