-- ===== src/Sandbox.antt =====
-- sandbox/: the programs that try out the byte pool and the queue on a memory resource that logs.
pub mod DiagResource
pub mod PoolProgram
pub mod QueueProgram
mod Examples
