-- ===== src/Example.antt =====
-- example/mbox.cpp and example/timer.cpp, the programs that show how the library is used.
pub mod Mbox
pub mod Timer
pub mod Registered
pub mod Started
pub mod Begun
mod Examples
