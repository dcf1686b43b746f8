-- ===== src/Vm/Step.antt =====
-- runtime/kyna_vm/src/execution/bytecode_virtual_machine.cpp: one round of the loop of `executeFrames`.
pub mod Values
pub mod Calls
pub mod Members
pub mod Elements
pub mod Round
