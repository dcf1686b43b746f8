-- ===== src/Vm/Safe.antt =====
-- runtime/kyna_vm/src/execution/bytecode_virtual_machine.cpp: no round of the loop on a valid module makes
-- an access out of range.
pub mod Fits
pub mod Heaps
pub mod Registers
pub mod Unwinding
pub mod Computing
pub mod Values
pub mod Closures
pub mod Targets
pub mod Calls
pub mod Natives
pub mod Members
pub mod Elements
pub mod Rounds
