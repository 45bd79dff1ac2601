-- ===== src/Calc.antt =====
-- user/calc: the calculator. Its lexer, its parser and its interpreter, and how they run in a row.
pub mod Run
pub mod Lexer
pub mod Ends
pub mod Parser
pub mod Eval
mod Tests
