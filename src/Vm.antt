-- ===== src/Vm.antt =====
-- cmd/vm: the tools around the compiler and the interpreter of the EVM.
pub mod Stopwatch
pub mod Mce
pub mod ParserTool
pub mod TypeCheck
