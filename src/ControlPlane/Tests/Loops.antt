-- ===== src/ControlPlane/Tests/Loops.antt =====
-- Addresses of node agents, with and without a scheme.
use jenkins_qemu_provisioner.Prelude.{◌≡◌, refl, none, some}
use jenkins_qemu_provisioner.ControlPlane.Loops.{normalize_node_agent_url}

bare_address :
    normalize_node_agent_url (some "10.0.0.2:9000") "http://agent" ≡ "http://10.0.0.2:9000"
unfolding normalize_node_agent_url
bare_address = refl

full_address : normalize_node_agent_url (some "https://h") "http://agent" ≡ "https://h"
unfolding normalize_node_agent_url
full_address = refl

empty_address : normalize_node_agent_url (some "") "http://agent" ≡ "http://agent"
unfolding normalize_node_agent_url
empty_address = refl

no_address : normalize_node_agent_url none "http://agent" ≡ "http://agent"
unfolding normalize_node_agent_url
no_address = refl
