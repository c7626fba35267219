-- ===== src/Eclc/Parser/Grammar.antt =====
-- The grammar that the parser accepts: `int` name `(` `)` and a block with at most one `return`.
use e_comos.Prelude.{
  ℕ, zero, suc, ◌<◌, ◌≡◌, ◌⊎◌, inl, inr, refl, ap, sym, ◌∙◌, true, false, Option, none, some, List,
  [], ◌∷◌, length, get_elem?, get_or, drop, ◌==◌, arith, Bool-cases, if_true, if_false,
}
use e_comos.Eclc.Token.{
  TokenType, Token, tok_integer, tok_int, tok_return, tok_identifier, tok_lbrace, tok_rbrace,
  tok_lparen, tok_rparen, tok_semicolon,
}
use e_comos.Eclc.Parser.{
  type_code, node_return_stmt, node_integer_literal, Ast, null, dummy_token, create_node,
  current_token, advance, has_type, match, consume, leaf_if, parse_integer,
}

abbrev pub IsOf : TokenType → Token → Type 0
IsOf type token = type_code token.type ≡ type_code type

-- A `return` with the tokens behind it.
pub data IsReturn : List Token → Ast → List Token → Type 0 where
  value :
      {r v s : Token} {rest : List Token}
      → IsOf tok_return r
      → IsOf tok_integer v
      → IsOf tok_semicolon s
      → IsReturn
          (r ∷ v ∷ s ∷ rest)
          (create_node node_return_stmt r (create_node node_integer_literal v null))
          rest
  bare :
      {r s : Token} {rest : List Token}
      → IsOf tok_return r
      → IsOf tok_semicolon s
      → IsReturn (r ∷ s ∷ rest) (create_node node_return_stmt r null) rest

-- A block, whatever is behind it.
pub data IsBlock : List Token → Ast → Type 0 where
  returns :
      {o c : Token} {ts rest : List Token} {stmt : Ast}
      → IsOf tok_lbrace o
      → IsReturn ts stmt (c ∷ rest)
      → IsOf tok_rbrace c
      → IsBlock (o ∷ ts) stmt

-- The start of a function.
pub record IsHeader (i n o c : Token) : Type 0 where
  pub is_int : IsOf tok_int i
  pub is_name : IsOf tok_identifier n
  pub opens : IsOf tok_lparen o
  pub closes : IsOf tok_rparen c

-- A token at the position.
pub record Here (ts : List Token) (p : ℕ) (t : Token) (rest : List Token) : Type 0 where
  pub this : drop p ts ≡ t ∷ rest
  pub found : get_elem? ts p ≡ some t
  pub next : drop (suc p) ts ≡ rest
  pub inside : p < length ts
  pub again : get_or ts p dummy_token ≡ t

pub here :
    (ts : List Token) (p : ℕ) {t : Token} {rest : List Token}
    → drop p ts ≡ t ∷ rest
    → Here ts p t rest
here [] zero e = absurd (ground arith)
here [] (suc p) e = absurd (ground arith)
here (x ∷ ts) zero e = record { this = e; found = cc; next = cc; inside = omega arith; again = cc }
here (x ∷ ts) (suc p) e =
    let h = here ts p e in
    record {
      this = e;
      found = h.found;
      next = h.next;
      inside = omega (arith, h.inside);
      again = h.again;
    }

at_end : (ts : List Token) (p : ℕ) → drop p ts ≡ [] → get_elem? ts p ≡ none
at_end [] p e = refl
at_end (x ∷ ts) zero e = absurd (ground arith)
at_end (x ∷ ts) (suc p) e = at_end ts p e

-- The tokens end at the position, or there is one.
pub look :
    (ts : List Token) (p : ℕ)
    → ((t : Token) × (rest : List Token) × Here ts p t rest) ⊎ (current_token ts p ≡ none)
unfolding current_token
look ts p = go (drop p ts) refl
  where
    go :
        (d : List Token)
        → drop p ts ≡ d
        → ((t : Token) × (rest : List Token) × Here ts p t rest) ⊎ (get_elem? ts p ≡ none)
    go [] e = inr (at_end ts p e)
    go (t ∷ rest) e = inl (t, rest, here ts p e)

pub type_test :
    (t : Token) (type : TokenType) → IsOf type t → (type_code t.type == type_code type) ≡ true
type_test t type is = ground arith

pub same_type :
    (t : Token) (type : TokenType) → (type_code t.type == type_code type) ≡ true → IsOf type t
same_type t type on = ground arith

pub advance-Here :
    (ts : List Token) (p : ℕ) {t : Token} {rest : List Token}
    → Here ts p t rest
    → advance ts p ≡ suc p
unfolding advance
advance-Here ts p h = ground (arith, h.inside)

-- `consume` takes a token of the type, or stays.
pub consume_yes :
    (ts : List Token) (p : ℕ) (type : TokenType) {t : Token} {rest : List Token}
    → Here ts p t rest
    → IsOf type t
    → consume ts type p ≡ (true, suc p)
unfolding consume match current_token
consume_yes ts p type {t} h is =
    if_true _ _ (ap (has_type type) h.found ∙ type_test t type is)
    ∙ ap (λ (n : ℕ). (true, n)) (advance-Here ts p h)

pub consume_no :
    (ts : List Token) (p : ℕ) (type : TokenType)
    → has_type type (current_token ts p) ≡ false
    → consume ts type p ≡ (false, p)
unfolding consume match
consume_no ts p type off = if_false _ _ off

-- A token of the type stands at `p`, or none does.
abbrev pub Stands : List Token → ℕ → TokenType → Type 0
Stands ts p type = (t : Token) × (rest : List Token) × Here ts p t rest × IsOf type t

pub stands-cases :
    (ts : List Token) (p : ℕ) (type : TokenType)
    → Stands ts p type ⊎ (has_type type (current_token ts p) ≡ false)
unfolding current_token
stands-cases ts p type = elim (look ts p) [
  | inr e ↦ inr (ap (has_type type) e)
  | inl (t, rest, h) ↦ elim (Bool-cases (type_code t.type == type_code type)) [
    | inl on ↦ inl (t, rest, h, same_type t type on)
    | inr off ↦ inr (ap (has_type type) h.found ∙ off)
  ]
]

pub integer_yes :
    (ts : List Token) (p : ℕ) {t : Token} {rest : List Token}
    → Here ts p t rest
    → IsOf tok_integer t
    → parse_integer ts p ≡ (create_node node_integer_literal t null, suc p)
unfolding parse_integer current_token
integer_yes ts p {t} h is =
    ap (leaf_if node_integer_literal tok_integer ts p) h.found
    ∙ if_true _ _ (type_test t tok_integer is)
    ∙ ap (λ (n : ℕ). (create_node node_integer_literal t null, n)) (advance-Here ts p h)

pub integer_no :
    (ts : List Token) (p : ℕ)
    → has_type tok_integer (current_token ts p) ≡ false
    → parse_integer ts p ≡ (null, p)
unfolding parse_integer
integer_no ts p off = go (current_token ts p) off
  where
    go :
        (c : Option Token)
        → has_type tok_integer c ≡ false
        → leaf_if node_integer_literal tok_integer ts p c ≡ (null, p)
    go none off = refl
    go (some t) off = if_false _ _ off

-- No token of the type stands there.
pub not_there :
    (ts : List Token) (p : ℕ) (type : TokenType) {t : Token} {rest : List Token}
    → has_type type (current_token ts p) ≡ false
    → drop p ts ≡ t ∷ rest
    → IsOf type t
    → ⊥
unfolding current_token
not_there ts p type {t} off e is =
    no_both (sym off ∙ ap (has_type type) (here ts p e).found ∙ type_test t type is)
  where
    no_both : false ≡ true → ⊥
    no_both h = ground arith

-- What is behind the first token.
pub behind_first :
    (ts : List Token) (p : ℕ) {t u : Token} {d e : List Token}
    → Here ts p t d
    → drop p ts ≡ u ∷ e
    → drop (suc p) ts ≡ e
behind_first ts p h same = (here ts p same).next
