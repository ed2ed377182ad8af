-- ===== src/Examples.antt =====
-- Concrete runs: servers kept in memory, and each result applied at one input.
mod Memory
mod Fixtures
mod Incidents
mod Stores
mod Rules
mod Queueing
mod Serving
mod Windows
mod Races
mod Publishing
mod Lifecycle
mod Unnamed
mod Writing
mod Pages
mod Rendering
mod Forms
