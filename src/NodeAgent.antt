-- ===== src/NodeAgent.antt =====
-- The node agent (node_agent): the table of its machines, and the sweeps that keep it safe.
pub mod Config
pub mod State
pub mod World
pub mod Qemu
pub mod BaseImages
pub mod Safety
pub mod Heartbeat
pub mod Api
pub mod Tests
