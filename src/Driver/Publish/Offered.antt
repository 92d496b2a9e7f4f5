-- ===== src/Driver/Publish/Offered.antt =====
-- What is published of the bridges of the policies.
use mathlib.Core.List.{Perm}
use mathlib.Core.List.Perm
use dra_driver_ovsdpdk_upstr.Base.{
  String, ◌≡◌, refl, ap, subst, some, List, [], ◌∷◌, map, wrap_result,
}
use dra_driver_ovsdpdk_upstr.Api.{BridgeSpec}
use dra_driver_ovsdpdk_upstr.DeviceState.Policy.{
  Device, DeviceState, AllocatableDevices, bridge_to_device, update_policy_devices,
}
use dra_driver_ovsdpdk_upstr.DeviceState.Policy.Laws.{AreAcceptable}
use dra_driver_ovsdpdk_upstr.DeviceState.Policy.Listed.{listed, update_policy_devices-listed}
use dra_driver_ovsdpdk_upstr.Driver.Publish.{
  Helper, DriverResources, driver_resources, publish_resources,
}

-- One pool of the node's name with one slice of these devices.
abbrev pub one_slice : String → List Device → DriverResources
one_slice node_name devices = record {
  pools = (node_name, record { slices = record { devices = devices } ∷ [] }) ∷ [];
}

devices-listed :
    (bs : List BridgeSpec)
    → map (λ entry. entry.1.device) (listed bs) ≡ map (λ b. (bridge_to_device b).device) bs
devices-listed [] = refl
devices-listed (b ∷ bs) = ap (λ l. (bridge_to_device b).device ∷ l) (devices-listed bs)

-- If the bridges of the policies are acceptable and the driver has set its callback, then updating the
-- policy devices makes one call of the plugin helper, which publishes one pool of the node's name with
-- one slice of the devices of these bridges, each once, in an order that the map's loop gives them; the
-- error of that call is the result, wrapped, and the devices are offered whether or not it fails.
pub update_publishes :
    {W : Type 0} (helper : Helper W) (order : AllocatableDevices → AllocatableDevices)
    (node_name : String) (bs : List BridgeSpec) (d : DeviceState) (w : W)
    → ((m : AllocatableDevices) → Perm (order m) m)
    → AreAcceptable bs
    → (devices : List Device) × Perm devices (map (λ b. (bridge_to_device b).device) bs)
      × (let published = helper.publish_resources (one_slice node_name devices) w in
          update_policy_devices (some (publish_resources helper order node_name)) bs (d, w) ≡ (
            wrap_result "republish callback: %w" published.0,
            (record d { allocatable = listed bs }, published.1),
          ))
unfolding publish_resources driver_resources
update_publishes helper order node_name bs d w some_order a = (
  map (λ entry. entry.1.device) (order (listed bs)),
  subst (Perm (map (λ entry. entry.1.device) (order (listed bs)))) (devices-listed bs)
      (Perm.map (λ entry. entry.1.device) (some_order (listed bs))),
  update_policy_devices-listed (publish_resources helper order node_name) bs d w a,
)
