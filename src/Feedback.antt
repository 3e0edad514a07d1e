-- ===== src/Feedback.antt =====
-- instructions/feedback.rs: reviews of an agent, and the reputation that they add up to.
pub mod Handlers
pub mod Reputation
pub mod Life
