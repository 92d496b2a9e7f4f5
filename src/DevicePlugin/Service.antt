-- ===== src/DevicePlugin/Service.antt =====
-- pkg/deviceplugin/deviceplugin_server.go: one device plugin, with its socket, its gRPC server and what
-- it answers. gRPC, the file system, the kubelet and the constants of its API are parameters.
pub mod Answers
pub mod Running
pub mod SocketPath
use dra_driver_ovsdpdk_upstr.Base.{
  ℕ, zero, suc, String, Bool, true, false, Option, none, some, List, [], ◌∷◌, map, ℤ, Error, wrap,
  concat, split, if◌then◌else◌,
}
use dra_driver_ovsdpdk_upstr.Base.FilePath
use dra_driver_ovsdpdk_upstr.Base.Decimal.{decimal}
use dra_driver_ovsdpdk_upstr.DevicePlugin.{Server, ServerApi}

-- Constants of the kubelet's device plugin API.
pub record PluginApi : Type 0 where
  pub device_plugin_path : String
  pub kubelet_socket : String
  pub version : String
  pub healthy : String

pub record RegisterRequest : Type 0 where
  pub version : String
  pub endpoint : String
  pub resource_name : String

-- What the server calls; the error that a call returns is `none` for nil. A gRPC server is named by the
-- path that it serves: `serve` makes one and starts the goroutine that serves, `watch_context` starts the
-- goroutine that stops it gracefully when the context is done, and `graceful_stop` answers whether
-- it ended within five seconds.
pub record Net (W : Type 0) : Type 0 where
  pub remove : String → W → Option Error × W
  pub is_not_exist : Error → Bool
  pub listen : String → W → Option Error × W
  pub serve : String → Server → W → W
  pub watch_context : String → W → W
  pub stop : String → W → W
  pub graceful_stop : String → W → Bool × W
  pub new_client : String → W → Option Error × W
  pub close_client : String → W → W
  pub call_register : String → RegisterRequest → W → Option Error × W

last_part : String → List String → String
last_part part [] = part
last_part part (next ∷ rest) = last_part next rest

-- `resourceName[strings.LastIndex(resourceName, "/")+1:]`: what follows the last "/", or all of it.
unfoldable pub suffix : String → String
unfolding last_part split
suffix resource_name = last_part "" (split b'/' resource_name)

unfoldable pub socket_path : PluginApi → String → String
unfolding suffix
socket_path plugin resource_name =
    FilePath.join (plugin.device_plugin_path ∷ concat (suffix resource_name ∷ ".sock" ∷ []) ∷ [])

-- What follows a failed call: `return fmt.Errorf("text: %w", err)`, and else the rest.
abbrev or_fail :
    {W : Type 0} → String → Option Error × W → (W → Option Error × W) → Option Error × W
or_fail text (some e, w) next = (some (wrap text e), w)
or_fail text (none, w) next = next w

module _ {W : Type 0} (plugin : PluginApi) (net : Net W) where
  abbrev target : String
  target = concat ("unix://" ∷ plugin.kubelet_socket ∷ [])

  request : Server → RegisterRequest
  request s = record {
    version = plugin.version;
    endpoint = FilePath.base (socket_path plugin s.resource_name);
    resource_name = s.resource_name;
  }

  -- The connection is closed whatever the kubelet answers; an error of that is logged only.
  unfoldable pub register : Server → W → Option Error × W
  unfolding request
  register s w = or_fail "dial kubelet socket: %w" (net.new_client target w) λ w₁.
      let (failed, w₂) = net.call_register target (request s) w₁ in
      (failed, net.close_client target w₂)

  -- `if err != nil && !os.IsNotExist(err)`
  but_not_exist : Option Error → Option Error
  but_not_exist none = none
  but_not_exist (some e) = if net.is_not_exist e then none else some e

  -- A server that cannot be registered is stopped, and its socket removed.
  take_back : String → Option Error × W → Option Error × W
  take_back path (none, w) = (none, w)
  take_back path (some e, w) =
      (some (wrap "register with kubelet: %w" e), (net.remove path (net.stop path w)).1)

  unfoldable pub start : Server → W → Option Error × W
  unfolding socket_path register but_not_exist take_back
  start s w =
      let path = socket_path plugin s.resource_name in
      let (removed, w₁) = net.remove path w in
      or_fail "remove stale socket %q: %w" (but_not_exist removed, w₁)
        λ w₁'.
          or_fail "listen on %q: %w" (net.listen path w₁')
            λ w₂. take_back path (register s (net.watch_context path (net.serve path s w₂)))

  stop_grpc : Bool → String → W → W
  stop_grpc false path w = w
  stop_grpc true path w =
      let (ended, w') = net.graceful_stop path w in if ended then w' else net.stop path w'

  -- The first argument says whether a gRPC server was made.
  unfoldable pub stop : Bool → Server → W → W
  unfolding stop_grpc socket_path
  stop has_server s w =
      let path = socket_path plugin s.resource_name in
      (net.remove path (stop_grpc has_server path w)).1

  -- What the manager uses: it stops only servers that were started.
  unfoldable pub server_api : ServerApi W
  unfolding start stop register
  server_api = record { start = start; stop = stop true; register = register }

-- `pluginapi.Device`, with its NUMA nodes
pub record PluginApiDevice : Type 0 where
  pub id : String
  pub health : String
  pub nodes : List ℤ

-- The devices from number `i` on.
devices_from : PluginApi → Server → ℕ → ℕ → List PluginApiDevice
devices_from plugin s i zero = []
devices_from plugin s i (suc n) =
    record {
      id = concat ("device-" ∷ decimal i ∷ []);
      health = plugin.healthy;
      nodes = s.numa_node ∷ [];
    }
    ∷ devices_from plugin s (suc i) n

unfoldable pub devices : PluginApi → Server → List PluginApiDevice
unfolding devices_from decimal
devices plugin s = devices_from plugin s 0 s.device_count

-- `ListAndWatch`: the list is sent once; then the call waits for the end of its stream.
unfoldable pub list_and_watch :
    {W : Type 0}
    → PluginApi
    → (List PluginApiDevice → W → Option Error × W)
    → (W → W)
    → Server
    → W
    → Option Error × W
unfolding devices
list_and_watch plugin send wait s w =
    let (failed, w') = send (devices plugin s) w in
    elim failed [ some e ↦ (some e, w') | none ↦ (none, wait w') ]

-- `Allocate`: an empty answer for each container.
unfoldable pub allocate : {Request : Type 0} → List Request → List (Unit {0})
allocate [] = []
allocate (request ∷ requests) = tt ∷ allocate requests
