-- ===== src/Trace.antt =====
-- The page trace: the system calls of page-trace/, rr_fifo_trace/ and set_wcounts/, the fault
-- handler's counter in goldfish/arch/arm/mm/fault.c, and the modules' hooks in the system call table.
pub mod Fault
pub mod Handler
pub mod Mprotect
pub mod Termination
pub mod Calls
pub mod Table
pub mod Session
mod Faults
mod Signals
mod Tests
