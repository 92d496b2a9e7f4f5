-- ===== src/DevicePlugin/Calls.antt =====
-- The calls that reach the manager, in sequence, and what a server promises it.
use dra_driver_ovsdpdk_upstr.Base.{
  String, ◌≡◌, Bool, false, not, ◌&&◌, ◌||◌, none, some, List, [], ◌∷◌, ℤ, Error, if◌then◌else◌,
  ◌==◌,
}
use dra_driver_ovsdpdk_upstr.Base.FilePath
use dra_driver_ovsdpdk_upstr.Api.{BridgeSpec}
use dra_driver_ovsdpdk_upstr.DevicePlugin.{
  Server, ServerApi, Manager, update_resources, on_interface_change, stop_all, reregister_all,
}

-- An event of the kubelet's directory: whether something was created, and its path.
pub record WatchEvent : Type 0 where
  pub is_create : Bool
  pub path : String

-- The NUMA nodes are what `BridgeNUMANodes` answers while the call runs.
pub data ManagerCall : Type 0 where
  update : (String → List ℤ) → List BridgeSpec → ManagerCall
  interface_change : (String → List ℤ) → String → ManagerCall
  watch_event : WatchEvent → ManagerCall
  stop : ManagerCall

-- `NewManager`: no topology and no servers.
abbrev pub new_manager : Manager
new_manager = record { topology = []; servers = [] }

module _ {W : Type 0} (api : ServerApi W) (kubelet_socket : String) where
  -- The goroutine of `startKubeletWatcher`: a socket of the kubelet's name that is created is a restart.
  -- What the restarting kubelet itself does is not modelled.
  unfoldable pub on_watch_event : WatchEvent → Manager → W → W
  on_watch_event event m w =
      if event.is_create && FilePath.base event.path == FilePath.base kubelet_socket
      then reregister_all api m w
      else w

  unfoldable pub call : ManagerCall → Manager → W → Manager × W
  unfolding on_watch_event
  call (update nodes bridges) m w = (update_resources api nodes bridges m w).1
  call (interface_change nodes bridge) m w = on_interface_change api nodes bridge m w
  call (watch_event event) m w = (m, on_watch_event event m w)
  call stop m w = stop_all api m w

  unfoldable pub calls : List ManagerCall → Manager → W → Manager × W
  unfolding call
  calls [] m w = (m, w)
  calls (c ∷ cs) m w = let (m', w') = call c m w in calls cs m' w'

-- What a server promises: `running` says for a world which resources' servers run. The promise is made
-- for the names that are `Named`.
pub record Runs {W : Type 0} (api : ServerApi W) (Named : String → Type 0)
    (running : W → String → Bool) : Type 0 where
  pub started :
      (s : Server) (w : W) (r : String)
      → Named s.resource_name
      → Named r
      → (api.start s w).0 ≡ none
      → running (api.start s w).1 r ≡ (s.resource_name == r || running w r)
  pub failed :
      (s : Server) (w : W) (r : String) (e : Error)
      → Named s.resource_name
      → Named r
      → running w s.resource_name ≡ false
      → (api.start s w).0 ≡ some e
      → running (api.start s w).1 r ≡ running w r
  pub stopped :
      (s : Server) (w : W) (r : String)
      → Named s.resource_name
      → Named r
      → running (api.stop s w) r ≡ (not (s.resource_name == r) && running w r)
  pub registered :
      (s : Server) (w : W) (r : String)
      → Named s.resource_name
      → Named r
      → running (api.register s w).1 r ≡ running w r
