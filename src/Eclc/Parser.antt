-- ===== src/Eclc/Parser.antt =====
-- The parser (source/eclc/src/frontend/parser.c, source/eclc/include/eclc/ast.h). A function takes the
-- tokens and the parser's `current_pos`, and returns a node and the new position; messages are left out.
pub mod Grammar
pub mod Return
pub mod Program
pub mod Compile
mod Tests
use e_comos.Prelude.{
  ℕ, zero, suc, ◌+◌, ◌-◌, Bool, true, false, not, ◌||◌, Option, none, some, List, [], ◌∷◌, length,
  get_elem?, get_or, ltb, ◌==◌, if◌then◌else◌,
}
use e_comos.Prelude.Int.{pos}
use e_comos.Eclc.Token.{
  TokenType, Token, tok_integer, tok_string, tok_char, tok_int, tok_return, tok_include,
  tok_identifier, tok_assign, tok_plus, tok_minus, tok_multiply, tok_divide, tok_modulo,
  tok_ampersand, tok_pipe, tok_caret, tok_tilde, tok_exclamation, tok_question, tok_colon, tok_eq,
  tok_ne, tok_lt, tok_le, tok_gt, tok_ge, tok_lbrace, tok_rbrace, tok_lparen, tok_rparen,
  tok_lbracket, tok_rbracket, tok_semicolon, tok_comma, tok_dot, tok_arrow, tok_hash, tok_eof,
  tok_error,
}

-- the value of the enumeration
abbrev pub type_code : TokenType → ℕ
type_code tok_integer = 0
type_code tok_string = 1
type_code tok_char = 2
type_code tok_int = 3
type_code tok_return = 4
type_code tok_include = 5
type_code tok_identifier = 6
type_code tok_assign = 7
type_code tok_plus = 8
type_code tok_minus = 9
type_code tok_multiply = 10
type_code tok_divide = 11
type_code tok_modulo = 12
type_code tok_ampersand = 13
type_code tok_pipe = 14
type_code tok_caret = 15
type_code tok_tilde = 16
type_code tok_exclamation = 17
type_code tok_question = 18
type_code tok_colon = 19
type_code tok_eq = 20
type_code tok_ne = 21
type_code tok_lt = 22
type_code tok_le = 23
type_code tok_gt = 24
type_code tok_ge = 25
type_code tok_lbrace = 26
type_code tok_rbrace = 27
type_code tok_lparen = 28
type_code tok_rparen = 29
type_code tok_lbracket = 30
type_code tok_rbracket = 31
type_code tok_semicolon = 32
type_code tok_comma = 33
type_code tok_dot = 34
type_code tok_arrow = 35
type_code tok_hash = 36
type_code tok_eof = 37
type_code tok_error = 38

pub data NodeType : Type 0 where
  node_program node_function_def node_variable_decl node_return_stmt : NodeType
  node_integer_literal node_binary_op node_identifier : NodeType

-- `ASTNode *`; `null` is NULL.
pub data Ast : Type 0 where
  null : Ast
  node : NodeType → Token → Ast → Ast → Ast

-- `Token dummy_token = {0}`
abbrev pub dummy_token : Token
dummy_token = record { type = tok_integer; value = 0; line = 0; column = pos 0 }

-- `create_node` with the two children that its caller sets
abbrev pub create_node : NodeType → Token → Ast → Ast
create_node type token left = node type token left null

unfoldable pub current_token : List Token → ℕ → Option Token
current_token tokens current_pos = get_elem? tokens current_pos

unfoldable pub advance : List Token → ℕ → ℕ
advance tokens current_pos =
    if ltb current_pos (length tokens) then current_pos + 1 else current_pos

abbrev pub has_type : TokenType → Option Token → Bool
has_type type none = false
has_type type (some token) = type_code token.type == type_code type

unfoldable pub match : List Token → TokenType → ℕ → Bool
match tokens type current_pos = has_type type (current_token tokens current_pos)

unfoldable pub consume : List Token → TokenType → ℕ → Bool × ℕ
consume tokens type current_pos =
    if match tokens type current_pos
    then (true, advance tokens current_pos)
    else (false, current_pos)

-- a leaf for the current token, if it has the type
abbrev pub leaf_if : NodeType → TokenType → List Token → ℕ → Option Token → Ast × ℕ
leaf_if kind type tokens current_pos none = (null, current_pos)
leaf_if kind type tokens current_pos (some token) =
    if type_code token.type == type_code type
    then (create_node kind token null, advance tokens current_pos)
    else (null, current_pos)

unfoldable pub parse_integer : List Token → ℕ → Ast × ℕ
parse_integer tokens current_pos =
    leaf_if node_integer_literal tok_integer tokens current_pos (current_token tokens current_pos)

unfoldable pub parse_identifier : List Token → ℕ → Ast × ℕ
parse_identifier tokens current_pos =
    leaf_if node_identifier tok_identifier tokens current_pos (current_token tokens current_pos)

-- what the test for a closing token leaves of a node
abbrev pub if_closed : Ast → Bool × ℕ → Ast × ℕ
if_closed made (true, current_pos) = (made, current_pos)
if_closed made (false, current_pos) = (null, current_pos)

-- behind `return` and its value
abbrev pub return_value : List Token → Token → Ast × ℕ → Ast × ℕ
return_value tokens return_token (value, current_pos) =
    if_closed (create_node node_return_stmt return_token value)
      (consume tokens tok_semicolon current_pos)

-- behind `return`
abbrev pub return_behind : List Token → Bool × ℕ → Ast × ℕ
return_behind tokens (false, current_pos) = (null, current_pos)
return_behind tokens (true, current_pos) =
    return_value tokens (get_or tokens (current_pos - 1) dummy_token)
      (parse_integer tokens current_pos)

unfoldable pub parse_return_stmt : List Token → ℕ → Ast × ℕ
parse_return_stmt tokens current_pos = return_behind tokens (consume tokens tok_return current_pos)

-- behind the statement of a block
abbrev pub block_end : List Token → Ast × ℕ → Ast × ℕ
block_end tokens (stmt, current_pos) = if_closed stmt (consume tokens tok_rbrace current_pos)

-- behind `{`
abbrev pub block_behind : List Token → Bool × ℕ → Ast × ℕ
block_behind tokens (false, current_pos) = (null, current_pos)
block_behind tokens (true, current_pos) = block_end tokens (parse_return_stmt tokens current_pos)

unfoldable pub parse_block : List Token → ℕ → Ast × ℕ
parse_block tokens current_pos = block_behind tokens (consume tokens tok_lbrace current_pos)

abbrev pub function_of : Token → Ast × ℕ → Ast × ℕ
function_of name (body, current_pos) = (create_node node_function_def name body, current_pos)

-- behind `)`
abbrev pub function_body : List Token → Token → Bool × ℕ → Ast × ℕ
function_body tokens name (false, current_pos) = (null, current_pos)
function_body tokens name (true, current_pos) = function_of name (parse_block tokens current_pos)

-- behind `(`
abbrev pub function_closing : List Token → Token → Bool × ℕ → Ast × ℕ
function_closing tokens name (false, current_pos) = (null, current_pos)
function_closing tokens name (true, current_pos) =
    function_body tokens name (consume tokens tok_rparen current_pos)

-- behind the name
abbrev pub function_behind : List Token → Token → ℕ → Ast × ℕ
function_behind tokens name current_pos =
    function_closing tokens name (consume tokens tok_lparen current_pos)

abbrev pub function_named : List Token → ℕ → Option Token → Ast × ℕ
function_named tokens current_pos none = (null, current_pos)
function_named tokens current_pos (some name) =
    if type_code name.type == type_code tok_identifier
    then function_behind tokens name (advance tokens current_pos)
    else (null, current_pos)

abbrev pub function_after_int : List Token → Bool × ℕ → Ast × ℕ
function_after_int tokens (false, current_pos) = (null, current_pos)
function_after_int tokens (true, current_pos) =
    function_named tokens current_pos (current_token tokens current_pos)

unfoldable pub parse_function : List Token → ℕ → Ast × ℕ
parse_function tokens current_pos = function_after_int tokens (consume tokens tok_int current_pos)

abbrev pub program_of : Ast × ℕ → Ast × ℕ
program_of (function, current_pos) = (create_node node_program dummy_token function, current_pos)

unfoldable pub parse_program : List Token → ℕ → Ast × ℕ
parse_program tokens current_pos = program_of (parse_function tokens current_pos)

-- `parser_parse` on a new parser
unfoldable pub parser_parse : List Token → Ast
parser_parse tokens = (parse_program tokens 0).0
