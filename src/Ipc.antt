-- ===== src/Ipc.antt =====
-- src/ipc.c: messages between the processes.
pub mod Ring
pub mod Send
pub mod Handlers
pub mod Channel
mod Tests
