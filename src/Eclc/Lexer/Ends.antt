-- ===== src/Eclc/Lexer/Ends.antt =====
-- The main loop ends: every round passes a byte.
use e_comos.Prelude.{
  ℕ, zero, suc, ◌+◌, ◌≤◌, ◌<◌, ◌≡◌, ◌⊎◌, inl, inr, refl, Bool, true, false, not, Option, none, some,
  List, [], ◌∷◌, length, ◌==◌, ◌&&◌, ◌||◌, if◌then◌else◌, arith,
}
use e_comos.Prelude.Int.{pos}
use e_comos.Eclc.Token.{TokenType, TokenStream, token_stream_add, tok_string, tok_char, tok_integer}
use e_comos.Eclc.Token.Stream.{create_token-null}
use e_comos.Eclc.Lexer.{
  second, Position, over, drop_one, tail, backslash, token_before, scan_string, scan_comment,
  scan_while, Step, overrun, skipped, emitted, lex_string, close_char, lex_escape, lex_char,
  double_token, lookup_token, single_tokens, emit_single, lex_operator, lex_step, Lexed,
  out_of_fuel, overran, done, after_step, lex_at, lex, tokenize, is_space, is_digit, is_alpha,
  quote, apostrophe, starts_with, is_identifier_char, newline,
}

-- At most `n` bytes are left, and a token has no text.
abbrev pub Leaves : ℕ → Step → Type 0
Leaves n overrun = 0 ≤ n
Leaves n (skipped p) = length p.rest ≤ n
Leaves n (emitted token p) = (length p.rest ≤ n) × (token.value ≡ 0)

scan_string-shorter :
    (cs : List ℕ) (line column : ℕ) → length (scan_string cs line column).at.rest ≤ length cs
unfolding scan_string
scan_string-shorter [] line column = omega arith
scan_string-shorter (c ∷ cs) line column =
    let next = over c (record { rest = cs; line = line; column = column }) in
    ground (arith, scan_string-shorter cs next.line next.column)

scan_comment-shorter :
    (cs : List ℕ) (line column : ℕ) → length (scan_comment cs line column).rest ≤ length cs
unfolding scan_comment
scan_comment-shorter [] line column = omega arith
scan_comment-shorter (c ∷ cs) line column =
    let next = over c (record { rest = cs; line = line; column = column }) in
    ground (arith, scan_comment-shorter cs next.line next.column)

scan_while-shorter :
    (test : ℕ → Bool) (cs : List ℕ) (line column : ℕ)
    → length (scan_while test cs line column).at.rest ≤ length cs
unfolding scan_while
scan_while-shorter test [] line column = omega arith
scan_while-shorter test (c ∷ cs) line column =
    ground (arith, scan_while-shorter test cs line (column + 1))

-- A first byte that passes the test is passed.
scan_while-first :
    (test : ℕ → Bool) (c : ℕ) (cs : List ℕ) (line column : ℕ)
    → test c ≡ true
    → length (scan_while test (c ∷ cs) line column).at.rest ≤ length cs
unfolding scan_while
scan_while-first test c cs line column h =
    ground (arith, scan_while-shorter test cs line (column + 1))

tail-shorter : (cs : List ℕ) → length (tail cs) ≤ length cs
tail-shorter [] = omega arith
tail-shorter (c ∷ cs) = omega arith

Leaves-if :
    (n : ℕ) (x y : Step) (b : Bool)
    → (b ≡ true → Leaves n x)
    → (b ≡ false → Leaves n y)
    → Leaves n (if b then x else y)
Leaves-if n x y true f g = f refl
Leaves-if n x y false f g = g refl

token_before-Leaves :
    {n : ℕ} (type : TokenType) (value : List ℕ) (p : Position)
    → length p.rest ≤ n
    → Leaves n (token_before type value p)
unfolding token_before
token_before-Leaves type value p h = (h, create_token-null type (some value) p.line _)

lex_string-Leaves : (cs : List ℕ) (line column : ℕ) → Leaves (length cs) (lex_string cs line column)
unfolding lex_string
lex_string-Leaves cs line column =
    let body = scan_string cs line (column + 1) in
    let short = scan_string-shorter cs line (column + 1) in
    Leaves-if _ _ _ (starts_with quote body.at.rest)
      (λ e.
        token_before-Leaves tok_string _ (drop_one body.at)
          (omega (arith, tail-shorter body.at.rest, short)))
      (λ e. token_before-Leaves tok_string _ body.at short)

close_char-Leaves :
    (value cs : List ℕ) (line column : ℕ) → Leaves (length cs) (close_char value cs line column)
close_char-Leaves value [] line column =
    token_before-Leaves tok_char value (record { rest = []; line = line; column = column })
      (omega arith)
close_char-Leaves value (c ∷ cs) line column =
    Leaves-if _ _ _ (c == apostrophe)
      (λ e.
        token_before-Leaves tok_char _ (record { rest = cs; line = line; column = column + 1 })
          (omega arith))
      (λ e.
        token_before-Leaves tok_char _ (record { rest = c ∷ cs; line = line; column = column })
          (omega arith))

Leaves-weaken : {m n : ℕ} (x : Step) → m ≤ n → Leaves m x → Leaves n x
Leaves-weaken overrun h l = omega arith
Leaves-weaken (skipped p) h l = omega arith
Leaves-weaken (emitted token p) h l = (omega arith, l.1)

lex_char-Leaves : (cs : List ℕ) (line column : ℕ) → Leaves (length cs) (lex_char cs line column)
unfolding lex_char
lex_char-Leaves [] line column = omega arith
lex_char-Leaves (c ∷ cs) line column =
    Leaves-if _ _ _ (c == backslash) (λ e. escape cs)
      (λ e.
        Leaves-weaken _ (omega arith)
          (close_char-Leaves (apostrophe ∷ c ∷ []) cs line (column + 2)))
  where
    escape : (cs : List ℕ) → Leaves (suc (length cs)) (lex_escape cs line column)
    escape [] = omega arith
    escape (d ∷ cs) = Leaves-weaken _ (omega arith) (close_char-Leaves _ cs line (column + 3))

emit_single-Leaves :
    (c : ℕ) (cs : List ℕ) (line column : ℕ) (type : Option TokenType)
    → Leaves (length cs) (emit_single c cs line column type)
emit_single-Leaves c cs line column none = omega arith
emit_single-Leaves c cs line column (some type) =
    (omega arith, create_token-null type (some (c ∷ [])) line (pos column))

lex_operator-Leaves :
    (c : ℕ) (cs : List ℕ) (line column : ℕ) (type : Option TokenType)
    → Leaves (length cs) (lex_operator c cs line column type)
lex_operator-Leaves c cs line column (some type) =
    (tail-shorter cs, create_token-null type (some (c ∷ second cs)) line (pos column))
lex_operator-Leaves c cs line column none =
    emit_single-Leaves c cs line column (lookup_token c single_tokens)

-- Every round passes at least the byte at which it starts.
pub lex_step-Leaves :
    (c : ℕ) (cs : List ℕ) (line column : ℕ) → Leaves (length cs) (lex_step c cs line column)
unfolding lex_step
lex_step-Leaves c cs line column =
    let comment = scan_comment (tail cs) line (column + 2) in
    let name_first : (is_alpha c || c == b'_') ≡ true → is_identifier_char c ≡ true =
      λ e. ground (arith, e) in
    Leaves-if _ _ _ (is_space c) (λ e. omega arith)
      λ _.
        Leaves-if _ _ _ (c == quote) (λ e. lex_string-Leaves cs line column)
          λ _.
            Leaves-if _ _ _ (c == apostrophe) (λ e. lex_char-Leaves cs line column)
              λ _.
                Leaves-if _ _ _ (c == b'/' && starts_with b'*' cs)
                  (λ e. omega (
                    arith,
                    tail-shorter comment.rest,
                    tail-shorter (tail comment.rest),
                    scan_comment-shorter (tail cs) line (column + 2),
                    tail-shorter cs,
                  ))
                  λ _.
                    Leaves-if _ _ _ (c == b'/' && starts_with b'/' cs)
                      (λ e.
                        scan_while-first (λ d. not (d == newline)) c cs line column (ground arith))
                      λ _.
                        Leaves-if _ _ _ (is_digit c)
                          (λ e.
                            token_before-Leaves tok_integer _ _
                              (scan_while-first is_digit c cs line column e))
                          λ _.
                            Leaves-if _ _ _ (is_alpha c || c == b'_')
                              (λ e. token_before-Leaves _ _ _ (
                                scan_while-first is_identifier_char c cs line column
                                  (name_first e)))
                              λ _. lex_operator-Leaves c cs line column (double_token c cs)

ran_out : Lexed → Bool
ran_out out_of_fuel = true
ran_out overran = false
ran_out (done stream) = false

-- Fuel for one round more than there are bytes is enough.
-- `again` ends on any position with fewer than `n` bytes.
abbrev EndsBelow : ℕ → (Position → TokenStream → Lexed) → Type 0
EndsBelow n again =
    (p : Position) (stream : TokenStream) → length p.rest < n → ran_out (again p stream) ≡ false

after_step_ends :
    (again : Position → TokenStream → Lexed) (m n : ℕ) (x : Step) (stream : TokenStream)
    → EndsBelow n again
    → Leaves m x
    → m < n
    → ran_out (after_step again stream x) ≡ false
unfolding ran_out
after_step_ends again m n overrun stream f l h = refl
after_step_ends again m n (skipped p) stream f l h = f p stream (omega arith)
after_step_ends again m n (emitted token p) stream f l h =
    f p (token_stream_add stream token) (omega arith)

lex_at_ends :
    (again : Position → TokenStream → Lexed) (n : ℕ) (cs : List ℕ) (line column : ℕ)
    (stream : TokenStream)
    → EndsBelow n again
    → length cs < suc n
    → ran_out (lex_at again cs line column stream) ≡ false
unfolding ran_out
lex_at_ends again n [] line column stream f h = refl
lex_at_ends again n (c ∷ cs) line column stream f h =
    after_step_ends again (length cs) n (lex_step c cs line column) stream f
      (lex_step-Leaves c cs line column) (omega arith)

lex_ends :
    (n : ℕ) (p : Position) (stream : TokenStream)
    → length p.rest < n
    → ran_out (lex n p stream) ≡ false
unfolding lex
lex_ends zero p stream h = absurd (omega arith)
lex_ends (suc n) p stream h = lex_at_ends (lex n) n p.rest p.line p.column stream (lex_ends n) h

-- `tokenize` ends on every source: it returns a stream, or it has read behind the terminator.
pub tokenize_ends :
    (source : List ℕ)
    → (tokenize source ≡ overran) ⊎ ((stream : TokenStream) × (tokenize source ≡ done stream))
unfolding tokenize ran_out
tokenize_ends source = go (tokenize source) (lex_ends _ _ _ (omega arith))
  where
    go :
        (r : Lexed)
        → ran_out r ≡ false
        → (r ≡ overran) ⊎ ((stream : TokenStream) × (r ≡ done stream))
    go out_of_fuel h = absurd (ground arith)
    go overran h = inl refl
    go (done stream) h = inr (stream, refl)
