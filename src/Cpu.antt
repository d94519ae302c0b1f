-- ===== src/Cpu.antt =====
-- src/cpu: the descriptor tables, the interrupt handler and the system calls.
pub mod Decimal
pub mod Descriptors
pub mod Controller
pub mod Kernel
pub mod SystemCalls
pub mod Interrupts
pub mod Preemption
pub mod Isolation
mod Tests
