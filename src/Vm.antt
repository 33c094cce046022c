-- ===== src/Vm.antt =====
-- The virtual machine: src/vm/src/stack.cpp, memory.cpp, and the operations of vm.cpp on the stack.
pub mod Value
pub mod Stack
pub mod Memory
pub mod Program
mod Tests
