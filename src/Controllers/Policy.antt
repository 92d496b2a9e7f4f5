-- ===== src/Controllers/Policy.antt =====
-- pkg/controllers/controller_ovsdpdkresourcepolicy.go: `Reconcile` and `matchesNodeSelector`. Reading
-- the cluster and matching node selectors are calls of the Kubernetes libraries, the record Cluster.
pub mod Active
pub mod Together
use dra_driver_ovsdpdk_upstr.Base.{
  String, Bool, true, false, Option, none, some, List, [], ◌∷◌, ◌++◌, ℤ, Result, ok, err, panic,
  Error, Exec, pure, ◌>>=◌, ◌>>◌, if◌then◌else◌,
}
use dra_driver_ovsdpdk_upstr.Api.{BridgeSpec}
use dra_driver_ovsdpdk_upstr.Controllers.{ReconcileResult, done}
use dra_driver_ovsdpdk_upstr.DevicePlugin.{ServerApi, Manager, update_resources}
use dra_driver_ovsdpdk_upstr.DeviceState.Policy.{
  DeviceState, RepublishCallback, update_policy_devices,
}

-- `corev1.NodeSelector`
pub record NodeSelector (Term : Type 0) : Type 0 where
  pub node_selector_terms : List Term

pub record OvsDpdkResourcePolicy (Term : Type 0) : Type 0 where
  pub name : String
  pub node_selector : Option (NodeSelector Term)
  pub bridges : List BridgeSpec

-- `new_node_selector` gives none where it cannot parse the selector.
pub record Cluster (W Term NodeMeta Selector : Type 0) : Type 0 where
  pub get_node : String → Exec W NodeMeta
  pub list_policies : String → Exec W (List (OvsDpdkResourcePolicy Term))
  pub is_not_found : Error → Bool
  pub new_node_selector : NodeSelector Term → Option Selector
  pub match_node : Selector → NodeMeta → Bool

-- The states of the device state and of the device plugin manager, and the world around them.
pub record System (W : Type 0) : Type 0 where
  pub devices : DeviceState
  pub manager : Manager
  pub world : W

module _ {W A : Type 0} where
  abbrev pub on_world : Exec W A → Exec (System W) A
  on_world m s = let (r, w) = m s.world in (r, record s { world = w })

  abbrev pub on_devices : Exec (DeviceState × W) A → Exec (System W) A
  on_devices m s =
      let (r, (d, w)) = m (s.devices, s.world) in (r, record s { devices = d; world = w })

  abbrev pub on_manager : (Manager → W → Result A × (Manager × W)) → Exec (System W) A
  on_manager f s = let (r, (m, w)) = f s.manager s.world in (r, record s { manager = m; world = w })

module _ {W Term NodeMeta Selector : Type 0} (cluster : Cluster W Term NodeMeta Selector) where
  selected : NodeMeta → Option Selector → Bool
  selected node none = false
  selected node (some selector) = cluster.match_node selector node

  -- No selector, or one without terms, matches every node; one that cannot be parsed matches none.
  unfoldable pub matches_node_selector : NodeMeta → Option (NodeSelector Term) → Bool
  unfolding selected
  matches_node_selector node none = true
  matches_node_selector node (some ns) = elim ns.node_selector_terms [
    | [] ↦ true
    | _ ∷ _ ↦ selected node (cluster.new_node_selector ns)
  ]

module _ {W Term NodeMeta Selector : Type 0} (cluster : Cluster W Term NodeMeta Selector)
    (bridge_exists : String → Exec W Bool) where
  -- The inner loop, over the bridges of one policy.
  present_bridges : List BridgeSpec → Exec W (List BridgeSpec)
  present_bridges [] = pure []
  present_bridges (b ∷ bs) = do
    present ← bridge_exists b.name
    rest ← present_bridges bs
    pure (if present then b ∷ rest else rest)

  -- The outer loop.
  pub active_bridges : NodeMeta → List (OvsDpdkResourcePolicy Term) → Exec W (List BridgeSpec)
  unfolding present_bridges matches_node_selector
  active_bridges node [] = pure []
  active_bridges node (p ∷ ps) = elim (matches_node_selector cluster node p.node_selector) [
    | false ↦ active_bridges node ps
    | true ↦ do here ← present_bridges p.bridges; rest ← active_bridges node ps; pure (here ++ rest)
  ]

-- The reconciler's fields: what its operations are given.
module _ {W Term NodeMeta Selector : Type 0} (cluster : Cluster W Term NodeMeta Selector)
    (bridge_exists : String → Exec W Bool) (api : ServerApi W) (nodes : W → String → List ℤ)
    (callback : Option (RepublishCallback W)) where
  -- The calls that hand the bridges on. `nodes` is what `BridgeNUMANodes` answers in a world.
  unfoldable pub hand_over : List BridgeSpec → Exec (System W) ReconcileResult
  hand_over bridges =
      on_devices (update_policy_devices callback bridges)
      >> on_manager (λ m w. update_resources api (nodes w) bridges m w)
      >> pure done

  reconcile_on : String → NodeMeta → Exec (System W) ReconcileResult
  unfolding active_bridges hand_over
  reconcile_on namespace node = do
    policies ← on_world (cluster.list_policies namespace)
    bridges ← on_world (active_bridges cluster bridge_exists node policies)
    hand_over bridges

  -- `if apierrors.IsNotFound(err)`: the node may appear later.
  no_node : Error → Bool → Result ReconcileResult
  no_node e true = ok (record { requeue_after = 30 })
  no_node e false = err e

  with_node : String → Result NodeMeta → Exec (System W) ReconcileResult
  unfolding reconcile_on no_node
  with_node namespace (ok node) s = reconcile_on namespace node s
  with_node namespace (err e) s = (no_node e (cluster.is_not_found e), s)
  with_node namespace panic s = (panic, s)

  unfoldable pub reconcile : String → String → Exec (System W) ReconcileResult
  unfolding with_node
  reconcile node_name namespace s =
      let (node, w) = cluster.get_node node_name s.world in
      with_node namespace node (record s { world = w })
