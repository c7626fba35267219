-- ===== src/Eclc/Parser/Return.antt =====
-- Where a `return` statement is recognised.
use mathlib.Core.Path.{subst}
use e_comos.Prelude.{
  ℕ, suc, ◌-◌, ◌≡◌, ◌⊎◌, inl, inr, refl, ap, sym, ◌∙◌, true, false, List, ◌∷◌, get_or, drop, arith,
}
use e_comos.Eclc.Token.{Token, tok_integer, tok_return, tok_semicolon}
use e_comos.Eclc.Parser.{
  type_code, node_return_stmt, node_integer_literal, Ast, null, dummy_token, create_node,
  current_token, has_type, parse_integer, if_closed, return_value, return_behind, parse_return_stmt,
}
use e_comos.Eclc.Parser.Grammar.{
  IsOf, IsReturn, value, bare, Here, consume_yes, consume_no, stands-cases, integer_yes, integer_no,
  not_there, behind_first,
}

-- What a `return` starts with.
pub IsReturn-start :
    {d rest : List Token} {stmt : Ast}
    → IsReturn d stmt rest
    → (r : Token) × (e : List Token) × (d ≡ r ∷ e)
      × IsOf tok_return r
      × (((v : Token) × (s : Token) × (f : List Token) × (e ≡ v ∷ s ∷ f)
            × IsOf tok_integer v
            × IsOf tok_semicolon s)
          ⊎ ((s : Token) × (f : List Token) × (e ≡ s ∷ f) × IsOf tok_semicolon s))
IsReturn-start (value {r} {v} {s} {rest} a b c) =
    (r, v ∷ s ∷ rest, refl, a, inl (v, s, rest, refl, b, c))
IsReturn-start (bare {r} {s} {rest} a c) = (r, s ∷ rest, refl, a, inr (s, rest, refl, c))

no_value :
    (ts : List Token) (p : ℕ) {r v : Token} {d d2 rest : List Token} {stmt : Ast}
    → Here ts p r d
    → Here ts (suc p) v d2
    → IsOf tok_integer v
    → has_type tok_semicolon (current_token ts (suc (suc p))) ≡ false
    → IsReturn (drop p ts) stmt rest
    → ⊥
no_value ts p {v = v} h h2 is off x = go (IsReturn-start x)
  where
    two_types : (v s : Token) → IsOf tok_integer v → IsOf tok_semicolon s → s ≡ v → ⊥
    two_types v s a b same = absurd (omega (arith, ap (λ (t : Token). type_code t.type) same))

    go :
        (r' : Token) × (e : List Token) × (drop p ts ≡ r' ∷ e)
          × IsOf tok_return r'
          × (((v' : Token) × (s : Token) × (f : List Token) × (e ≡ v' ∷ s ∷ f)
                × IsOf tok_integer v'
                × IsOf tok_semicolon s)
              ⊎ ((s : Token) × (f : List Token) × (e ≡ s ∷ f) × IsOf tok_semicolon s))
        → ⊥
    go (r', e, same, is_r, inl (v', s, f, eq, is_v, is_s)) =
        not_there ts (suc (suc p)) tok_semicolon off
          (behind_first ts (suc p) h2 (behind_first ts p h same ∙ eq)) is_s
    go (r', e, same, is_r, inr (s, f, eq, is_s)) =
        two_types v s is is_s (first_same (sym (behind_first ts p h same ∙ eq) ∙ h2.this))
      where
        first_same : {a b : Token} {xs ys : List Token} → (a ∷ xs) ≡ (b ∷ ys) → a ≡ b
        first_same e = cc

no_bare :
    (ts : List Token) (p : ℕ) {r : Token} {d rest : List Token} {stmt : Ast}
    → Here ts p r d
    → has_type tok_integer (current_token ts (suc p)) ≡ false
    → has_type tok_semicolon (current_token ts (suc p)) ≡ false
    → IsReturn (drop p ts) stmt rest
    → ⊥
no_bare ts p h off_value off_end x = elim (IsReturn-start x).4 [
  | inl (v, s, f, eq, is_v, is_s) ↦
      not_there ts (suc p) tok_integer off_value (behind_first ts p h (IsReturn-start x).2 ∙ eq)
        is_v
  | inr (s, f, eq, is_s) ↦
      not_there ts (suc p) tok_semicolon off_end (behind_first ts p h (IsReturn-start x).2 ∙ eq)
        is_s
]

pub data ReturnSpec (ts : List Token) (p : ℕ) : Ast × ℕ → Type 0 where
  ok : (stmt : Ast) (q : ℕ) → IsReturn (drop p ts) stmt (drop q ts) → ReturnSpec ts p (stmt, q)
  failed :
      (q : ℕ)
      → ((stmt : Ast) (rest : List Token) → IsReturn (drop p ts) stmt rest → ⊥)
      → ReturnSpec ts p (null, q)

abbrev pub with_value : Token → Token → Ast
with_value r v = create_node node_return_stmt r (create_node node_integer_literal v null)

abbrev pub without_value : Token → Ast
without_value r = create_node node_return_stmt r null

two :
    {ts : List Token} {p : ℕ} {r s : Token} {d d2 : List Token}
    → Here ts p r d
    → Here ts (suc p) s d2
    → drop p ts ≡ r ∷ s ∷ d2
two {r = r} h h2 = h.this ∙ ap (λ (x : List Token). r ∷ x) (sym h.next ∙ h2.this)

pub three :
    {ts : List Token} {p : ℕ} {r v s : Token} {d d2 d3 : List Token}
    → Here ts p r d
    → Here ts (suc p) v d2
    → Here ts (suc (suc p)) s d3
    → drop p ts ≡ r ∷ v ∷ s ∷ d3
three {r = r} h h2 h3 = h.this ∙ ap (λ (x : List Token). r ∷ x) (sym h.next ∙ two h2 h3)

-- A `return` is recognised exactly where there is one.
pub parse_return_stmt-ReturnSpec :
    (ts : List Token) (p : ℕ) → ReturnSpec ts p (parse_return_stmt ts p)
unfolding parse_return_stmt
parse_return_stmt-ReturnSpec ts p = elim (stands-cases ts p tok_return) [
  | inr off ↦
      subst (λ z. ReturnSpec ts p (return_behind ts z)) (sym (consume_no ts p tok_return off))
        (ReturnSpec.failed p
          (λ stmt rest x. let st = IsReturn-start x in not_there ts p tok_return off st.2 st.3))
  | inl (r, d, h, is) ↦
      subst (λ z. ReturnSpec ts p (return_behind ts z)) (sym (consume_yes ts p tok_return h is))
        (behind r d h is)
]
  where
    behind :
        (r : Token) (d : List Token)
        → Here ts p r d
        → IsOf tok_return r
        → ReturnSpec ts p (return_behind ts (true, suc p))
    behind r d h is =
        let first : get_or ts (suc p - 1) dummy_token ≡ r =
          ap (λ (n : ℕ). get_or ts n dummy_token) (omega arith) ∙ h.again in
        subst (λ t. ReturnSpec ts p (return_value ts t (parse_integer ts (suc p)))) (sym first)
          (elim (stands-cases ts (suc p) tok_integer) [
            | inl (v, d2, h2, is_v) ↦
                subst (λ z. ReturnSpec ts p (return_value ts r z))
                  (sym (integer_yes ts (suc p) h2 is_v))
                  (elim (stands-cases ts (suc (suc p)) tok_semicolon) [
                    | inl (s, d3, h3, is_s) ↦
                        subst (λ z. ReturnSpec ts p (if_closed (with_value r v) z))
                          (sym (consume_yes ts (suc (suc p)) tok_semicolon h3 is_s))
                          (ReturnSpec.ok (with_value r v) (suc (suc (suc p))) (
                            subst (λ a. IsReturn a (with_value r v) (drop (suc (suc (suc p))) ts))
                              (sym (three h h2 h3))
                              (subst (IsReturn (r ∷ v ∷ s ∷ d3) (with_value r v)) (sym h3.next)
                                (IsReturn.value is is_v is_s))))
                    | inr off ↦
                        subst (λ z. ReturnSpec ts p (if_closed (with_value r v) z))
                          (sym (consume_no ts (suc (suc p)) tok_semicolon off))
                          (ReturnSpec.failed (suc (suc p))
                            (λ stmt rest x. no_value ts p h h2 is_v off x))
                  ])
            | inr off_value ↦
                subst (λ z. ReturnSpec ts p (return_value ts r z))
                  (sym (integer_no ts (suc p) off_value))
                  (elim (stands-cases ts (suc p) tok_semicolon) [
                    | inl (s, d2, h2, is_s) ↦
                        subst (λ z. ReturnSpec ts p (if_closed (without_value r) z))
                          (sym (consume_yes ts (suc p) tok_semicolon h2 is_s))
                          (ReturnSpec.ok (without_value r) (suc (suc p)) (
                            subst (λ a. IsReturn a (without_value r) (drop (suc (suc p)) ts))
                              (sym (two h h2))
                              (subst (IsReturn (r ∷ s ∷ d2) (without_value r)) (sym h2.next)
                                (IsReturn.bare is is_s))))
                    | inr off ↦
                        subst (λ z. ReturnSpec ts p (if_closed (without_value r) z))
                          (sym (consume_no ts (suc p) tok_semicolon off))
                          (ReturnSpec.failed (suc p)
                            (λ stmt rest x. no_bare ts p h off_value off x))
                  ])
          ])
