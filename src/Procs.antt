-- ===== src/Procs.antt =====
-- src/shuttlesock.c, src/ipc_commands.c, src/modules/core/core.c: the processes of a server and their
-- life, from the numbers that name them to how they stop.
pub mod Number
pub mod State
pub mod Check
pub mod Run
