-- ===== src/Workflow.antt =====
-- services/scheduled_workflows and domain/workflow.rs: when a workflow runs next, the table of schedules, and the
-- ticker that takes what is due out of it.
pub mod Trigger
pub mod Store
pub mod Ticker
pub mod Slug
mod Examples
