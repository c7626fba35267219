-- ===== src/Eclc/Parser/Program.antt =====
-- Which programs are recognised, and what becomes of the others.
use mathlib.Core.Path.{subst}
use e_comos.Prelude.{
  ℕ, suc, ◌≡◌, inl, inr, refl, ap, sym, ◌∙◌, Bool, true, false, Option, none, some, List, ◌∷◌, drop,
  arith, if_true, if_false,
}
use e_comos.Eclc.Token.{
  Token, tok_int, tok_identifier, tok_lbrace, tok_rbrace, tok_lparen, tok_rparen,
}
use e_comos.Eclc.Parser.{
  node_program, node_function_def, Ast, null, dummy_token, create_node, current_token, has_type,
  consume, if_closed, block_end, block_behind, parse_block, function_behind, function_of,
  function_body, function_closing, program_of, function_named, function_after_int, parse_function,
  parse_program, parser_parse,
}
use e_comos.Eclc.Parser.Grammar.{
  IsOf, IsReturn, value, bare, IsBlock, returns, IsHeader, Here, consume_yes, consume_no,
  stands-cases, not_there, behind_first, type_test, advance-Here,
}
use e_comos.Eclc.Parser.Return.{three, ReturnSpec, parse_return_stmt-ReturnSpec}

IsReturn-rest :
    {d rest rest' : List Token} {stmt stmt' : Ast}
    → IsReturn d stmt rest
    → IsReturn d stmt' rest'
    → rest ≡ rest'
IsReturn-rest (value a b c) (value a' b' c') = refl
IsReturn-rest (value a b c) (bare a' c') = absurd (omega arith)
IsReturn-rest (bare a c) (value a' b' c') = absurd (omega arith)
IsReturn-rest (bare a c) (bare a' c') = refl

IsBlock-start :
    {d : List Token} {stmt : Ast}
    → IsBlock d stmt
    → (o : Token) × (e : List Token) × (c : Token) × (rest : List Token) × (d ≡ o ∷ e)
      × IsOf tok_lbrace o
      × IsReturn e stmt (c ∷ rest)
      × IsOf tok_rbrace c
IsBlock-start (returns {o} {c} {ts} {rest} a b e) = (o, ts, c, rest, refl, a, b, e)

pub data BlockSpec (ts : List Token) (p : ℕ) : Ast × ℕ → Type 0 where
  ok : (stmt : Ast) (q : ℕ) → IsBlock (drop p ts) stmt → BlockSpec ts p (stmt, q)
  failed : (q : ℕ) → ((stmt : Ast) → IsBlock (drop p ts) stmt → ⊥) → BlockSpec ts p (null, q)

block_end-BlockSpec :
    (ts : List Token) (p : ℕ) {o : Token} {d : List Token} {r : Ast × ℕ}
    → Here ts p o d
    → IsOf tok_lbrace o
    → ReturnSpec ts (suc p) r
    → BlockSpec ts p (block_end ts r)
block_end-BlockSpec ts p {o} {d} h is (ReturnSpec.ok stmt q x) =
    elim (stands-cases ts q tok_rbrace) [
      | inl (c, rest, hc, is_c) ↦
          subst (λ z. BlockSpec ts p (if_closed stmt z)) (sym (consume_yes ts q tok_rbrace hc is_c))
            (BlockSpec.ok stmt (suc q) (
              subst (λ a. IsBlock a stmt)
                (sym (h.this ∙ ap (λ (y : List Token). o ∷ y) (sym h.next)))
                (IsBlock.returns is (subst (IsReturn (drop (suc p) ts) stmt) hc.this x) is_c)))
      | inr off ↦
          subst (λ z. BlockSpec ts p (if_closed stmt z)) (sym (consume_no ts q tok_rbrace off))
            (BlockSpec.failed q (λ stmt' b. unclosed (IsBlock-start b) off))
    ]
  where
    unclosed :
        {stmt' : Ast}
        → (o' : Token) × (e : List Token) × (c : Token) × (rest : List Token) × (drop p ts ≡ o' ∷ e)
          × IsOf tok_lbrace o'
          × IsReturn e stmt' (c ∷ rest)
          × IsOf tok_rbrace c
        → has_type tok_rbrace (current_token ts q) ≡ false
        → ⊥
    unclosed {stmt'} (o', e, c, rest, same, is_o, y, is_c) off =
        not_there ts q tok_rbrace off
          (IsReturn-rest x
            (subst (λ a. IsReturn a stmt' (c ∷ rest)) (sym (behind_first ts p h same)) y))
          is_c
block_end-BlockSpec ts p h is (ReturnSpec.failed q none_there) = nothing (consume ts tok_rbrace q)
  where
    no_block : (stmt : Ast) → IsBlock (drop p ts) stmt → ⊥
    no_block stmt b =
        let st = IsBlock-start b in
        none_there stmt (st.2 ∷ st.3)
          (subst (λ a. IsReturn a stmt (st.2 ∷ st.3)) (sym (behind_first ts p h st.4)) st.6)

    nothing : (z : Bool × ℕ) → BlockSpec ts p (if_closed null z)
    nothing (true, n) = BlockSpec.failed n no_block
    nothing (false, n) = BlockSpec.failed n no_block

parse_block-BlockSpec : (ts : List Token) (p : ℕ) → BlockSpec ts p (parse_block ts p)
unfolding parse_block
parse_block-BlockSpec ts p = elim (stands-cases ts p tok_lbrace) [
  | inl (o, d, h, is) ↦
      subst (λ z. BlockSpec ts p (block_behind ts z)) (sym (consume_yes ts p tok_lbrace h is))
        (block_end-BlockSpec ts p h is (parse_return_stmt-ReturnSpec ts (suc p)))
  | inr off ↦
      subst (λ z. BlockSpec ts p (block_behind ts z)) (sym (consume_no ts p tok_lbrace off))
        (BlockSpec.failed p
          (λ stmt b. let st = IsBlock-start b in not_there ts p tok_lbrace off st.4 st.5))
]

named_yes :
    (ts : List Token) (p : ℕ) {t : Token} {rest : List Token}
    → Here ts p t rest
    → IsOf tok_identifier t
    → function_named ts p (current_token ts p) ≡ function_behind ts t (suc p)
unfolding current_token
named_yes ts p {t} h is =
    ap (function_named ts p) h.found
    ∙ if_true _ _ (type_test t tok_identifier is)
    ∙ ap (function_behind ts t) (advance-Here ts p h)

named_no :
    (ts : List Token) (p : ℕ) (c : Option Token)
    → has_type tok_identifier c ≡ false
    → function_named ts p c ≡ (null, p)
named_no ts p none off = refl
named_no ts p (some t) off = if_false _ _ off

abbrev pub function_program : Token → Ast → Ast
function_program name body =
    create_node node_program dummy_token (create_node node_function_def name body)

pub data ProgramSpec (ts : List Token) : Ast → Type 0 where
  parsed :
      (i n o c : Token) (body : List Token) (stmt : Ast)
      → ts ≡ i ∷ n ∷ o ∷ c ∷ body
      → IsHeader i n o c
      → IsBlock body stmt
      → ProgramSpec ts (function_program n stmt)
  -- the error in the body is reported and forgotten
  bodiless :
      (i n o c : Token) (body : List Token)
      → ts ≡ i ∷ n ∷ o ∷ c ∷ body
      → IsHeader i n o c
      → ((stmt : Ast) → IsBlock body stmt → ⊥)
      → ProgramSpec ts (function_program n null)
  rejected :
      ((i n o c : Token) (body : List Token) → ts ≡ i ∷ n ∷ o ∷ c ∷ body → IsHeader i n o c → ⊥)
      → ProgramSpec ts (create_node node_program dummy_token null)

abbrev Result : List Token → Ast × ℕ → Type 0
Result ts r = ProgramSpec ts (program_of r).0

body-Result :
    (ts : List Token) (i n o c : Token) (body : List Token)
    → ts ≡ i ∷ n ∷ o ∷ c ∷ body
    → IsHeader i n o c
    → Result ts (function_of n (parse_block ts 4))
body-Result ts i n o c body e header = go (parse_block ts 4) (parse_block-BlockSpec ts 4)
  where
    go : (r : Ast × ℕ) → BlockSpec ts 4 r → Result ts (function_of n r)
    go r (BlockSpec.ok stmt q b) =
        ProgramSpec.parsed i n o c body stmt e header
          (subst (λ d. IsBlock d stmt) (ap (drop 4) e) b)
    go r (BlockSpec.failed q no_block) =
        ProgramSpec.bodiless i n o c body e header
          (λ stmt b. no_block stmt (subst (λ d. IsBlock d stmt) (sym (ap (drop 4) e)) b))

four :
    {ts : List Token} {i n o c : Token} {d d2 d3 body : List Token}
    → Here ts 0 i d
    → Here ts 1 n d2
    → Here ts 2 o d3
    → Here ts 3 c body
    → ts ≡ i ∷ n ∷ o ∷ c ∷ body
four {i = i} hi hn ho hc = hi.this ∙ ap (λ (x : List Token). i ∷ x) (sym hi.next ∙ three hn ho hc)

-- For any tokens, `parser_parse` returns a program with a function exactly if they begin with `int`, a
-- name, `(` and `)`. The function has the statement of the block that follows, and no body if no
-- well-formed block follows, whatever stands there instead.
pub parser_parse-ProgramSpec : (ts : List Token) → ProgramSpec ts (parser_parse ts)
unfolding parser_parse parse_program parse_function
parser_parse-ProgramSpec ts = elim (stands-cases ts 0 tok_int) [
  | inr off ↦
      subst (λ z. Result ts (function_after_int ts z)) (sym (consume_no ts 0 tok_int off))
        (ProgramSpec.rejected (λ i n o c body e h. not_there ts 0 tok_int off e h.is_int))
  | inl (i, d, hi, is_i) ↦
      subst (λ z. Result ts (function_after_int ts z)) (sym (consume_yes ts 0 tok_int hi is_i))
        (elim (stands-cases ts 1 tok_identifier) [
          | inr off ↦ subst (Result ts) (sym (named_no ts 1 (current_token ts 1) off)) (
              ProgramSpec.rejected
                (λ i n o c body e h. not_there ts 1 tok_identifier off (ap (drop 1) e) h.is_name))
          | inl (n, d2, hn, is_n) ↦
              subst (Result ts) (sym (named_yes ts 1 hn is_n))
                (elim (stands-cases ts 2 tok_lparen) [
                  | inr off ↦
                      subst (λ z. Result ts (function_closing ts n z))
                        (sym (consume_no ts 2 tok_lparen off))
                        (ProgramSpec.rejected (λ i n o c body e h.
                          not_there ts 2 tok_lparen off (ap (drop 2) e) h.opens))
                  | inl (o, d3, ho, is_o) ↦
                      subst (λ z. Result ts (function_closing ts n z))
                        (sym (consume_yes ts 2 tok_lparen ho is_o))
                        (elim (stands-cases ts 3 tok_rparen) [
                          | inr off ↦
                              subst (λ z. Result ts (function_body ts n z))
                                (sym (consume_no ts 3 tok_rparen off))
                                (ProgramSpec.rejected (λ i n o c body e h.
                                  not_there ts 3 tok_rparen off (ap (drop 3) e) h.closes))
                          | inl (c, body, hc, is_c) ↦
                              subst (λ z. Result ts (function_body ts n z))
                                (sym (consume_yes ts 3 tok_rparen hc is_c))
                                (body-Result ts i n o c body (four hi hn ho hc) record {
                                  is_int = is_i;
                                  is_name = is_n;
                                  opens = is_o;
                                  closes = is_c;
                                })
                        ])
                ])
        ])
]
