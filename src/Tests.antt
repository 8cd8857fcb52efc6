-- ===== src/Tests.antt =====
-- Runs of the model on small inputs: the theorems at values where their hypotheses hold.
pub mod Detection
pub mod Comparison
pub mod Serving
pub mod Store
pub mod Workflow
pub mod Sequences
pub mod Events
pub mod Traces
pub mod Tokens
pub mod Access
pub mod Starting
pub mod Histories
