-- ===== src/ControlPlane/Scaler.antt =====
-- control_plane/services/scaler.py: which hosts can take a VM, and one tick of the scaling loop.
pub mod Eligibility
pub mod Order
pub mod Reasons
pub mod Chosen
pub mod Demand
pub mod Launch
pub mod Tick
