-- ===== src/Difc.antt =====
-- Information flow control (internal/difc): labels, flow checks, the evaluator, the agents and the
-- decisions of the request pipeline.
pub mod TagSet
pub mod Label
pub mod Flow
pub mod Resource
pub mod Violations
pub mod Mode
pub mod Evaluator
pub mod Agent
pub mod Registry
pub mod PathLabels
pub mod SinkServers
pub mod Pipeline
