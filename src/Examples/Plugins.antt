-- ===== src/Examples/Plugins.antt =====
-- Device plugins on sockets in memory, on concrete inputs.
use dra_driver_ovsdpdk_upstr.Base.{
  ◌≤◌, String, ◌≡◌, refl, arith, Bool, true, false, not, ◌&&◌, ◌||◌, none, List, [], ◌∷◌, ℤ, pos,
  All, concat, ◌==◌,
}
use dra_driver_ovsdpdk_upstr.Base.Map
use dra_driver_ovsdpdk_upstr.Api.{BridgeSpec, topology_resource_prefix}
use dra_driver_ovsdpdk_upstr.DevicePlugin.{Server}
use dra_driver_ovsdpdk_upstr.DevicePlugin.Calls.{
  ManagerCall, update, interface_change, watch_event, new_manager, calls,
}
use dra_driver_ovsdpdk_upstr.DevicePlugin.InStep.{has}
use dra_driver_ovsdpdk_upstr.DevicePlugin.InStep.Sequence.{IsAllowed}
use dra_driver_ovsdpdk_upstr.DevicePlugin.Service.{PluginApi, Net, socket_path, server_api}
use dra_driver_ovsdpdk_upstr.DevicePlugin.Service.Running.{Serves, sockets_served}
use dra_driver_ovsdpdk_upstr.DevicePlugin.Service.SocketPath.{
  IsTopologyResource, documented_path, byte_length, socket_path_bounds,
}

abbrev plugin : PluginApi
plugin = record {
  device_plugin_path = "/var/lib/kubelet/device-plugins/";
  kubelet_socket = "/var/lib/kubelet/device-plugins/kubelet.sock";
  version = "v1beta1";
  healthy = "Healthy";
}

is_short : byte_length "numa" ≤ 63
unfolding byte_length
is_short = omega arith

socket_path_bounds_example :
    let path = socket_path plugin (concat (topology_resource_prefix ∷ "numa" ∷ [])) in
    (path ≡ concat (documented_path ∷ "numa" ∷ ".sock" ∷ [])) × (byte_length path ≤ 100)
socket_path_bounds_example =
    socket_path_bounds plugin "numa" refl (refl, (refl, (refl, (refl, tt)))) is_short

abbrev server : Server
server = record {
  resource_name = "ovsdpdk.k8snetworkplumbingwg.io/numa";
  numa_node = pos 1;
  device_count = 3;
}

-- The world says which paths are served.
abbrev World : Type 0
World = String → Bool

abbrev idle : World
idle q = false

abbrev without : String → World → World
without p w q = not (p == q) && w q

abbrev net : Net World
net = record {
  remove = λ p w. (none, w);
  is_not_exist = λ e. true;
  listen = λ p w. (none, w);
  serve = λ p s w q. p == q || w q;
  watch_context = λ p w. w;
  stop = without;
  graceful_stop = λ p w. (true, without p w);
  new_client = λ p w. (none, w);
  close_client = λ p w. w;
  call_register = λ p r w. (none, w);
}

abbrev serving : World → String → Bool
serving w q = w q

net-Serves : Serves net serving
net-Serves = record {
  removing = λ p q w. refl;
  listening = λ p q w. refl;
  dialling = λ p q w. refl;
  closing = λ p q w. refl;
  registering = λ p q w r. refl;
  making = λ p q s w. refl;
  watching = λ p q w. refl;
  stopping = λ p q w. refl;
  ending = λ p q w e. refl;
  hanging = λ p q w e. absurd (cc e);
}

abbrev bridges : List BridgeSpec
bridges = record { name = "br-a"; topology_resource = "numa"; mtu = none } ∷ []

abbrev node : ℤ → String → List ℤ
node n bridge = n ∷ []

-- The node of the bridge changes, and then the kubelet starts anew.
abbrev happens : List ManagerCall
happens =
    update (node (pos 0)) bridges
    ∷ interface_change (node (pos 1)) "br-a"
    ∷ watch_event
        (record { is_create = true; path = "/var/lib/kubelet/device-plugins/kubelet.sock" })
    ∷ []

is_allowed : All (IsAllowed IsTopologyResource) happens
is_allowed = (((("numa", refl, (refl, (refl, (refl, (refl, tt))))), tt)), (tt, (tt, tt)))

abbrev numa : String
numa = "ovsdpdk.k8snetworkplumbingwg.io/numa"

numa-IsTopologyResource : IsTopologyResource numa
numa-IsTopologyResource = ("numa", refl, (refl, (refl, (refl, (refl, tt)))))

sockets_served_example :
    let s = calls (server_api plugin net) plugin.kubelet_socket happens new_manager idle in
    serving s.1 (socket_path plugin numa) ≡ has (Map.get s.0.servers numa)
sockets_served_example =
    sockets_served plugin net serving net-Serves refl happens idle is_allowed (λ r is. refl) numa
      numa-IsTopologyResource
