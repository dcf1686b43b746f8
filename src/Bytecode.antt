-- ===== src/Bytecode.antt =====
-- compiler/kyna_bytecode: bytecode modules and their validation.
pub mod Program
pub mod Report
pub mod Validator
pub mod Ancestors
pub mod Valid
mod Tests
