-- ===== src/Tests.antt =====
-- Concrete runs: one for each property that has conditions or arguments, at an input where they hold.
mod Policy
mod Agents
mod Serving
mod Launching
mod Caching
mod Calls
mod Configuration
mod Setup
mod Answers
mod Proxying
mod Rules
