-- ===== src/Bytecode/Validator.antt =====
-- compiler/kyna_bytecode/src/validators/bytecode_validator.cpp: `validateBytecode`. A function returns
-- the diagnostics that the source appends, in that order.
pub mod Operation
pub mod Classes
pub mod Functions
