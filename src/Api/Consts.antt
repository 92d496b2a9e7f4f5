-- ===== src/Api/Consts.antt =====
-- pkg/consts/consts.go
use dra_driver_ovsdpdk_upstr.Base.{ℕ, ◌*◌, String}

abbrev pub driver_name : String
driver_name = "ovsdpdk.k8snetworkplumbingwg.io"

abbrev pub group_name : String
group_name = "ovsdpdk.k8snetworkplumbingwg.io"

abbrev pub default_bridge_capacity : ℕ
default_bridge_capacity = 32 * 1024

abbrev pub default_topology_device_count : ℕ
default_topology_device_count = 1024

abbrev pub topology_resource_prefix : String
topology_resource_prefix = "ovsdpdk.k8snetworkplumbingwg.io/"

abbrev pub vhost_socket_filename : String
vhost_socket_filename = "vhost.sock"

abbrev pub host_root_path : String
host_root_path = "/var/run/ovsdpdk"

abbrev pub default_container_root_path : String
default_container_root_path = "/var/run/ovsdpdk"

-- The steps of the back-off that status updates are retried with.
abbrev pub backoff_steps : ℕ
backoff_steps = 5

abbrev pub default_namespace : String
default_namespace = "dra-driver-ovsdpdk"
