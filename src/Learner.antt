-- ===== src/Learner.antt =====
-- services/session_learner: what is learned from the threads of the chat once they are idle.
pub mod Task
pub mod Idle
pub mod Rounds
pub mod Single
pub mod Stuck
pub mod Settled
mod Examples
