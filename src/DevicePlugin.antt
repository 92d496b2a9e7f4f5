-- ===== src/DevicePlugin.antt =====
-- pkg/deviceplugin/manager.go: which topology device plugins run. Every operation holds the lock from
-- its first access to the state to its end, so each is one step. The answers of `BridgeNUMANodes`
-- while an operation runs are the argument `nodes`; starting, stopping and registering a server act on
-- a world of type `W`.
pub mod Numa
pub mod Ensure
pub mod Reconcile
pub mod Grouping
pub mod Sync
pub mod Change
pub mod Conflicts
pub mod Distinct
pub mod Service
pub mod Calls
pub mod Watcher
pub mod InStep
use dra_driver_ovsdpdk_upstr.Base.{
  ℕ, String, Bool, true, false, Option, none, some, List, [], ◌∷◌, ◌++◌, ℤ, pos, negsuc, eq_ℤ,
  nat_eq, Result, ok, err, panic, Error, msg, wrap, join_errors, of_error, concat, if◌then◌else◌,
  ◌==◌,
}
use dra_driver_ovsdpdk_upstr.Base.Map
use dra_driver_ovsdpdk_upstr.Base.Map.{Map}
use dra_driver_ovsdpdk_upstr.Base.Bind.{◌>>=◌}
use dra_driver_ovsdpdk_upstr.Api.{
  BridgeSpec, topology_resource_prefix, default_topology_device_count,
}

-- What `newServer` sets of a server, apart from its socket's path.
pub record Server : Type 0 where
  pub resource_name : String
  pub numa_node : ℤ
  pub device_count : ℕ

-- The interface `TopologyDPServer`: the error that a call returns is `none` for nil.
pub record ServerApi (W : Type 0) : Type 0 where
  pub start : Server → W → Option Error × W
  pub stop : Server → W → W
  pub register : Server → W → Option Error × W

pub record Manager : Type 0 where
  pub topology : Map String
  pub servers : Map Server

abbrev pub new_server : String → ℕ → Server
new_server resource numa = record {
  resource_name = resource;
  numa_node = pos numa;
  device_count = default_topology_device_count;
}

-- The NUMA node of one bridge: -1 if it has none yet, several, or an unknown one.
numa_of : List ℤ → ℤ
numa_of [] = negsuc 0
numa_of (pos n ∷ []) = pos n
numa_of (negsuc _ ∷ []) = negsuc 0
numa_of (_ ∷ _ ∷ _) = negsuc 0

-- One round of the loop, on the node so far and the bridge's: none where it returns -1.
agree : ℤ → ℤ → Option ℤ
agree result (negsuc _) = none
agree (negsuc _) (pos n) = some (pos n)
agree (pos m) (pos n) = if nat_eq m n then some (pos m) else none

module _ (nodes : String → List ℤ) where
  numa_loop : ℤ → List String → ℤ
  unfolding numa_of agree
  numa_loop result [] = result
  numa_loop result (bridge ∷ bridges) = elim (agree result (numa_of (nodes bridge))) [
    | none ↦ negsuc 0
    | some next ↦ numa_loop next bridges
  ]

  unfoldable pub get_consistent_numa : List String → ℤ
  unfolding numa_loop
  get_consistent_numa bridges = numa_loop (negsuc 0) bridges

-- The resource that a bridge asks for.
abbrev pub resource_of : BridgeSpec → String
resource_of bridge = concat (topology_resource_prefix ∷ bridge.topology_resource ∷ [])

-- A missing key of a map of lists reads as no list.
abbrev pub or_nil : Option (List String) → List String
or_nil none = []
or_nil (some xs) = xs

abbrev pub Groups : Type 0
Groups = Map String × Map (List String)

-- The topology and the bridges of each resource, after one more bridge that asks for a resource.
pub add_bridge : BridgeSpec → Groups → Result Groups
add_bridge bridge (topology, groups) = elim (Map.get topology bridge.name) [
  | some existing ↦
      if existing == resource_of bridge
      then ok (topology, groups)
      else err (msg "bridge %q has conflicting topology resources: %q and %q")
  | none ↦ ok (
    Map.put topology bridge.name (resource_of bridge),
    Map.put groups (resource_of bridge)
        (or_nil (Map.get groups (resource_of bridge)) ++ bridge.name ∷ []),
  )
]

pub group_bridges : List BridgeSpec → Groups → Result Groups
unfolding add_bridge
group_bridges [] g = ok g
group_bridges (bridge ∷ bridges) g = elim (bridge.topology_resource == "") [
  | true ↦ group_bridges bridges g
  | false ↦ add_bridge bridge g >>= group_bridges bridges
]

-- The bridges that the topology gives a resource.
unfoldable pub bridges_of : Map String → String → List String
bridges_of [] resource = []
bridges_of ((bridge, r) ∷ topology) resource =
    let rest = bridges_of topology resource in if r == resource then bridge ∷ rest else rest

pub wrapped : Option Error → List Error
wrapped none = []
wrapped (some e) = wrap "resource %s: %w" e ∷ []

module _ {W : Type 0} (api : ServerApi W) where
  start_server : String → ℕ → Map Server → W → Option Error × (Map Server × W)
  start_server resource numa servers w =
      let (failed, w') = api.start (new_server resource numa) w in
      elim failed [
        | some e ↦ (some e, (servers, w'))
        | none ↦ (none, (Map.put servers resource (new_server resource numa), w'))
      ]

  start_if_valid : String → ℤ → Map Server → W → Option Error × (Map Server × W)
  unfolding start_server
  start_if_valid resource (negsuc _) servers w = (none, (servers, w))
  start_if_valid resource (pos numa) servers w = start_server resource numa servers w

  -- `ensureServer`, on the node that the bridges agree on: a server on that node stays, another one
  -- is stopped first.
  ensure_at : String → ℤ → Map Server → W → Option Error × (Map Server × W)
  unfolding start_if_valid
  ensure_at resource numa servers w = elim (Map.get servers resource) [
    | none ↦ start_if_valid resource numa servers w
    | some srv ↦ elim (eq_ℤ srv.numa_node numa) [
      | true ↦ (none, (servers, w))
      | false ↦ start_if_valid resource numa (Map.delete servers resource) (api.stop srv w)
    ]
  ]

  unfoldable pub ensure_server :
      (String → List ℤ) → String → List String → Map Server → W → Option Error × (Map Server × W)
  unfolding ensure_at
  ensure_server nodes resource bridges servers w =
      ensure_at resource (get_consistent_numa nodes bridges) servers w

  -- The loop over the servers (the first argument) that stops those of no resource.
  pub stop_unwanted : Map Server → Map (List String) → Map Server → W → Map Server × W
  stop_unwanted [] groups servers w = (servers, w)
  stop_unwanted ((resource, srv) ∷ rest) groups servers w = elim (Map.get groups resource) [
    | some _ ↦ stop_unwanted rest groups servers w
    | none ↦ stop_unwanted rest groups (Map.delete servers resource) (api.stop srv w)
  ]

  pub ensure_all :
      (String → List ℤ) → Map (List String) → Map Server → W → List Error × (Map Server × W)
  unfolding ensure_server wrapped
  ensure_all nodes [] servers w = ([], (servers, w))
  ensure_all nodes ((resource, bridges) ∷ rest) servers w =
      let (failed, (servers', w')) = ensure_server nodes resource bridges servers w in
      let (errs, s) = ensure_all nodes rest servers' w' in (wrapped failed ++ errs, s)

  pub reconcile : (String → List ℤ) → Groups → Manager → W → Option Error × (Manager × W)
  unfolding stop_unwanted ensure_all
  reconcile nodes (topology, groups) m w =
      let (kept, w') = stop_unwanted m.servers groups m.servers w in
      let (errs, (servers, w'')) = ensure_all nodes groups kept w' in
      (join_errors errs, (record { topology = topology; servers = servers }, w''))

  -- Conflicting resources of one bridge are an error before anything changes.
  unfoldable pub update_resources :
      (String → List ℤ) → List BridgeSpec → Manager → W → Result (Unit {0}) × (Manager × W)
  unfolding group_bridges reconcile
  update_resources nodes bridges m w = elim (group_bridges bridges ([], [])) [
    | ok groups ↦ let (failed, s) = reconcile nodes groups m w in (of_error failed, s)
    | err e ↦ (err e, (m, w))
    | panic ↦ (panic, (m, w))
  ]

  -- An error is logged only.
  unfoldable pub on_interface_change : (String → List ℤ) → String → Manager → W → Manager × W
  unfolding ensure_server bridges_of
  on_interface_change nodes bridge m w = elim (Map.get m.topology bridge) [
    | none ↦ (m, w)
    | some resource ↦
        let (failed, (servers, w')) =
          ensure_server nodes resource (bridges_of m.topology resource) m.servers w in
        (record m { servers = servers }, w')
  ]

  stop_loop : Map Server → Map Server → W → Map Server × W
  stop_loop [] servers w = (servers, w)
  stop_loop ((resource, srv) ∷ rest) servers w =
      stop_loop rest (Map.delete servers resource) (api.stop srv w)

  unfoldable pub stop_all : Manager → W → Manager × W
  unfolding stop_loop
  stop_all m w =
      let (servers, w') = stop_loop m.servers m.servers w in (record m { servers = servers }, w')

  register_each : Map Server → W → W
  register_each [] w = w
  register_each ((resource, srv) ∷ rest) w =
      let (failed, w') = api.register srv w in register_each rest w'

  -- After a restart of the kubelet; an error is logged only.
  unfoldable pub reregister_all : Manager → W → W
  unfolding register_each
  reregister_all m w = register_each m.servers w
