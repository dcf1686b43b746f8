-- ===== src/Lexing.antt =====
-- compiler/kyna_lexing: from the bytes of a source file to tokens.
pub mod Token
pub mod Keyword
pub mod Scanner
pub mod Moves
pub mod Results
pub mod Rounds
pub mod Chain
pub mod Faithful
pub mod Correct
mod Tests
