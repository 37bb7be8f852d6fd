-- ===== src/Autonomy.antt =====
-- services/orchestrator/app/services/autonomy_*.py: the autonomy loop, which moves a task through the
-- stages plan, execute and review, by the events that it finds.
pub mod Values
pub mod Uuid
pub mod Gate
pub mod Stage
pub mod Strategy
pub mod Finalizer
pub mod Taxonomy
pub mod Failures
pub mod Outcomes
pub mod Process
