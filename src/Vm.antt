-- ===== src/Vm.antt =====
-- runtime/kyna_vm: the virtual machine that executes bytecode.
pub mod Numeric
pub mod Value
pub mod Machine
pub mod Lookup
pub mod Arithmetic
pub mod Step
pub mod Safe
pub mod Collection
pub mod Samples
mod Tests
