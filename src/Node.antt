-- ===== src/Node.antt =====
-- node/node.py: the simulated telemetry node. The definitions are in State, Simulation, Link,
-- Telemetry and Run; the other children prove.
pub mod State
pub mod Simulation
pub mod Link
pub mod Telemetry
pub mod Run
pub mod Measure
pub mod Induction
pub mod Session
pub mod Counters
pub mod Range
pub mod Framing
pub mod Backoff
pub mod Endings
pub mod Outcome
pub mod Batch
pub mod Unresolved
pub mod Main
mod Tests
