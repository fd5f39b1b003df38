-- ===== src/Cmd.antt =====
-- cmd: the commands, over the file system, the terminal and the clients of the services, which are
-- parameters. The flags of a command are the record of its options, and its arguments a list.
pub mod Loader
pub mod Helpers
pub mod Terminal
pub mod Ingest
pub mod Query
pub mod Leaderboard
pub mod Cache
pub mod Llm
pub mod Server
mod Tests
