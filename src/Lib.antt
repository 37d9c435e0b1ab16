-- ===== src/Lib.antt =====
-- A verification library for the control plane and the node agent of jenkins-qemu-provisioner,
-- which starts ephemeral QEMU machines for Jenkins builds. The scaler reads the Jenkins queue and
-- chooses a host for each machine that is wanted; provisioning creates a lease, a Jenkins node
-- and a machine on the node agent of the host; the reconciler watches the leases and terminates
-- them; the node agent prepares base images, starts and ends machines, keeps a table of them,
-- sweeps it, and reports its capacity to the control plane by heartbeats.
--
-- The files and the code they model:
--
--   Json: the JSON values that requests, events and stored columns hold
--   ControlPlane/Models: control_plane/models.py and the settings of control_plane/config.py
--   ControlPlane/World: the database, the counters of control_plane/metrics.py, the calls of the
--     clients, and actions on them
--   ControlPlane/StateMachine: control_plane/state_machine.py
--   ControlPlane/Repositories: control_plane/repositories.py
--   ControlPlane/GuestImages: control_plane/guest_images.py
--   ControlPlane/Provisioning: control_plane/services/provisioning.py
--   ControlPlane/Scaler: control_plane/services/scaler.py
--   ControlPlane/Reconciler: control_plane/services/reconciler.py
--   ControlPlane/Api: control_plane/api.py, control_plane/auth.py and control_plane/schemas.py
--   ControlPlane/Http: control_plane/clients/http.py
--   ControlPlane/Gc: control_plane/services/gc.py, and _host_availability of control_plane/api.py
--   ControlPlane/Loops: the workers of control_plane/loops.py, and the addresses of the node
--     agents
--   ControlPlane/Jenkins: control_plane/clients/jenkins.py
--   NodeAgent/Config: node_agent/config.py
--   NodeAgent/World: the table, the files, the processes and the reports of the node agent, and
--     actions on them
--   NodeAgent/State: node_agent/state.py
--   NodeAgent/Qemu: node_agent/qemu_runtime.py
--   NodeAgent/BaseImages: node_agent/base_images.py
--   NodeAgent/Api: the endpoints on machines of node_agent/api.py
--   NodeAgent/Heartbeat: node_agent/heartbeat.py; its Composed and Disabled put it together with
--     the endpoints of the control plane
--   NodeAgent/Safety: node_agent/safety.py
--   FakeNodeAgent: fake_node_agent/app.py
--   NodeAgent/Tests, ControlPlane/Tests, FakeNodeAgent/Tests: concrete data, and the theorems
--     applied to it
--
-- A function of the source is a function of the same name without its leading underscore. An
-- action takes a World and returns a result or an exception, with the world after it; try and
-- except are catch. Jenkins, the node agents, the clock, fresh identifiers and the functions of
-- Python's libraries are fields of the record Outside, a parameter of every action: their answers
-- may depend on all the calls made before. Times are microseconds, as natural numbers. A
-- session_scope block commits what it writes. On the node agent an action takes a Node, and what
-- it calls is a field of the record System; the Jenkins client is over the requests that it has
-- sent. No definition runs on fuel: loops are structural recursion on lists, the launch loop on
-- its number of turns, and the workers on their number of passes.
--
-- Not modelled: threads and the start of the processes (control_plane/main.py, db.py, start_loops
-- of control_plane/loops.py), the client of the node agent (control_plane/clients/node_agent.py)
-- and the HTTP transport, the dashboard, the bootstrap script that cloud-init carries, the cache
-- of parsed files, the host statistics (node_agent/host_stats), vm_debug of node_agent/api.py,
-- logging, failures of the database and of writing the files of the agent, and the operating
-- system under the node agent.
pub mod Prelude
pub mod Json
pub mod ControlPlane
pub mod NodeAgent
pub mod FakeNodeAgent
