-- ===== src/Interceptor.antt =====
-- Assignment1: the system call interceptor.
pub mod Kernel
pub mod PidList
pub mod Syscall
pub mod Lifecycle
pub mod Effect
pub mod Safety
pub mod Metadata
pub mod Restore
pub mod ExitGroup
pub mod Monitoring
mod Tests
