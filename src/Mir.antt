-- ===== src/Mir.antt =====
-- compiler/kyna_mir: the middle representation and its verifier.
pub mod Program
pub mod Verifier
pub mod Valid
