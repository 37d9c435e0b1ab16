-- ===== src/ControlPlane.antt =====
-- The control plane, control_plane/: the scaler, the provisioner, the reconciler, the repositories of
-- the database, the endpoints and the retries of requests, over one world of database rows, in-memory
-- dictionaries, clock readings and calls to Jenkins and the node agents.
pub mod Models
pub mod World
pub mod StateMachine
pub mod Repositories
pub mod GuestImages
pub mod Provisioning
pub mod Scaler
pub mod Reconciler
pub mod Tests
pub mod Api
pub mod Http
pub mod Jenkins
pub mod Gc
pub mod Loops
