-- ===== src/Ward.antt =====
-- cmd/ward: the control process of an agent. It takes tool calls of the language model's process on
-- a socket, asks the daemon on its pipe, and reports how a prompt ended.
pub mod Loop
pub mod State
pub mod Tools
pub mod Answers
pub mod Requests
pub mod Reordering
pub mod Prompts
mod Tests
