-- ===== src/Tests.antt =====
-- The theorems at work on small clusters; the engine's code is xraft-core/src/node.rs.
mod Fixture
mod Leaders
mod Voters
mod Others
mod Logs
mod Clusters
mod Files
mod Runs
mod Settings
