-- ===== src/Controllers/Policy/Together.antt =====
-- What a reconciliation leaves in the device state and in the device plugin manager.
use dra_driver_ovsdpdk_upstr.Base.{
  String, ◌≡◌, refl, sym, ◌∙◌, ap, ◌≢◌, ◌⊎◌, inl, inr, Bool, Option, none, some, List, ℤ, Result,
  ok, Exec, Result-cases, Bool-cases, wrap_result, arith,
}
use dra_driver_ovsdpdk_upstr.Base.Map
use dra_driver_ovsdpdk_upstr.Api.{BridgeSpec}
use dra_driver_ovsdpdk_upstr.Controllers.{ReconcileResult, done}
use dra_driver_ovsdpdk_upstr.Controllers.Policy.{
  Cluster, System, active_bridges, hand_over, with_node, no_node, reconcile_on, reconcile,
}
use dra_driver_ovsdpdk_upstr.DevicePlugin.{ServerApi, Manager, update_resources}
use dra_driver_ovsdpdk_upstr.DevicePlugin.Distinct.{topology_of, update_resources-topology}
use dra_driver_ovsdpdk_upstr.DeviceState.Policy.{
  DeviceState, AllocatableDevice, AllocatableDevices, RepublishCallback, bridge_to_device,
  update_policy_devices,
}
use dra_driver_ovsdpdk_upstr.DeviceState.Policy.Laws.{
  Republished, to_device, find_bridge, update_policy_devices_lem,
}

-- The resource that the bridge of a device asks for.
abbrev pub device_resource : Option AllocatableDevice → Option String
device_resource none = none
device_resource (some device) = topology_of (some device.bridge_spec)

-- The topology of the manager names the resources that the bridges of the offered devices ask for, and
-- no other.
abbrev pub Agree : DeviceState → Manager → Type 0
Agree d m = (name : String) → Map.get m.topology name ≡ device_resource (Map.get d.allocatable name)

device_resource-to_device : (o : Option BridgeSpec) → device_resource (to_device o) ≡ topology_of o
unfolding bridge_to_device
device_resource-to_device none = refl
device_resource-to_device (some b) = refl

module _ {W Term NodeMeta Selector : Type 0} (cluster : Cluster W Term NodeMeta Selector)
    (bridge_exists : String → Exec W Bool) (api : ServerApi W) (nodes : W → String → List ℤ)
    (callback : Option (RepublishCallback W)) where
  -- The callback was called on the devices `a`, as the last call, and failed: it left the world `w'`.
  abbrev pub CallbackFailed : AllocatableDevices → W → Type 0
  CallbackFailed a w' =
      (publish : RepublishCallback W) × (callback ≡ some publish)
      × (w : W) × ((publish a w).0 ≢ ok tt)
      × ((publish a w).1 ≡ w')

  abbrev pub Outcome : System W → Result ReconcileResult → System W → Type 0
  Outcome s r s' =
      ((r ≢ ok done) × (s'.devices ≡ s.devices) × (s'.manager ≡ s.manager))
      ⊎ (Agree s'.devices s'.manager
          ⊎ ((r ≢ ok done)
              × CallbackFailed s'.devices.allocatable s'.world
              × (s'.manager ≡ s.manager)))

  callback_failed :
      (cb : Option (RepublishCallback W)) (a : AllocatableDevices) (w w' : W)
      (r : Result (Unit {0}))
      → Republished cb a w r w'
      → r ≢ ok tt
      → (publish : RepublishCallback W) × (cb ≡ some publish)
        × (v : W) × ((publish a v).0 ≢ ok tt)
        × ((publish a v).1 ≡ w')
  callback_failed none a w w' r rep fails = absurd (fails rep.0)
  callback_failed (some publish) a w w' r rep fails = (
    publish,
    refl,
    w,
    λ h. fails (rep.0 ∙ ap (wrap_result "republish callback: %w") h),
    sym rep.1,
  )

  hand_over-Outcome :
      (bs : List BridgeSpec) (s : System W)
      → let r = hand_over cluster bridge_exists api nodes callback bs s in Outcome s r.0 r.1
  unfolding hand_over
  hand_over-Outcome bs s = elim (update_policy_devices_lem callback bs s.devices s.world) [
    | inr (x, not_acceptable, e, d, w) ↦ rw (e, hand_over) (inl (λ h. cc h, d, refl))
    | inl (acceptable, gets, cfg, rep) ↦
        elim (Result-cases (update_policy_devices callback bs (s.devices, s.world)).0) [
          | inr (inl (x, e)) ↦
              rw (e, hand_over)
                (inr (
                  inr
                    (λ h. cc h, callback_failed callback _ s.world _ _ rep (λ h. cc (e, h)), refl)))
          | inr (inr e) ↦
              rw (e, hand_over)
                (inr (
                  inr
                    (λ h. cc h, callback_failed callback _ s.world _ _ rep (λ h. cc (e, h)), refl)))
          | inl (u, e) ↦
              let (d, w) = (update_policy_devices callback bs (s.devices, s.world)).1 in
              let served = update_resources-topology api (nodes w) bs s.manager w acceptable.0 in
              let agree : Agree d (update_resources api (nodes w) bs s.manager w).1.0 = λ name.
                served name
                ∙ sym (device_resource-to_device (find_bridge name bs))
                ∙ ap device_resource (sym (gets name)) in
              elim (Result-cases (update_resources api (nodes w) bs s.manager w).0) [
                | inl (v, f) ↦ rw (e, hand_over, f) (inr (inl agree))
                | inr (inl (x, f)) ↦ rw (e, hand_over, f) (inr (inl agree))
                | inr (inr f) ↦ rw (e, hand_over, f) (inr (inl agree))
              ]
        ]
  ]

  reconcile_on-Outcome :
      (namespace : String) (node : NodeMeta) (s : System W)
      → let r = reconcile_on cluster bridge_exists api nodes callback namespace node s in
        Outcome s r.0 r.1
  unfolding reconcile_on
  reconcile_on-Outcome namespace node s =
      let w₁ = (cluster.list_policies namespace s.world).1 in
      elim (Result-cases (cluster.list_policies namespace s.world).0) [
        | inl (ps, e) ↦ elim (Result-cases (active_bridges cluster bridge_exists node ps w₁).0) [
          | inl (bs, f) ↦
              rw (e, reconcile_on, f)
                (hand_over-Outcome bs
                  (record s { world = (active_bridges cluster bridge_exists node ps w₁).1 }))
          | inr (inl (x, f)) ↦ rw (e, reconcile_on, f) (inl (λ h. cc h, refl, refl))
          | inr (inr f) ↦ rw (e, reconcile_on, f) (inl (λ h. cc h, refl, refl))
        ]
        | inr (inl (x, e)) ↦ rw (e, reconcile_on) (inl (λ h. cc h, refl, refl))
        | inr (inr e) ↦ rw (e, reconcile_on) (inl (λ h. cc h, refl, refl))
      ]

  -- However a reconciliation ends, the device state and the topology of the device plugin manager changed
  -- together: both are as before, or the topology names exactly the resources that the bridges of the
  -- offered devices ask for; only where publishing the new devices was the last call and failed is the
  -- manager as before while the devices are new. Without an error and without a delay it is the second of
  -- these.
  pub reconcile_together :
      (node_name namespace : String) (s : System W)
      → let r = reconcile cluster bridge_exists api nodes callback node_name namespace s in
        Outcome s r.0 r.1
  unfolding reconcile with_node no_node reconcile_on
  reconcile_together node_name namespace s =
      let w = (cluster.get_node node_name s.world).1 in
      elim (Result-cases (cluster.get_node node_name s.world).0) [
        | inl (node, e) ↦
            rw (e, reconcile, with_node)
              (reconcile_on-Outcome namespace node (record s { world = w }))
        | inr (inl (x, e)) ↦ elim (Bool-cases (cluster.is_not_found x)) [
          | inl gone ↦
              rw (e, reconcile, with_node, gone, no_node) (inl (λ h. ground (arith, h), refl, refl))
          | inr other ↦ rw (e, reconcile, with_node, other, no_node) (inl (λ h. cc h, refl, refl))
        ]
        | inr (inr e) ↦ rw (e, reconcile, with_node) (inl (λ h. cc h, refl, refl))
      ]
