-- ===== src/Workflow.antt =====
-- internal/workflow: sessions that run workflows, and the store that holds them.
pub mod Types
pub mod Handler
pub mod Predicates
pub mod Conditions
pub mod Hooks
pub mod Exports
pub mod Continue
pub mod Complete
pub mod Calls
pub mod Session
pub mod Prepare
pub mod Execute
pub mod Wait
pub mod Action
pub mod Run
pub mod Children
pub mod Spawn
pub mod Store
