-- ===== src/Eclc.antt =====
-- The compiler driver (source/eclc): tokens, the lexer and the parser.
pub mod Token
pub mod Lexer
pub mod Parser
