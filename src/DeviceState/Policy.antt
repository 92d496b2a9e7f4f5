-- ===== src/DeviceState/Policy.antt =====
-- The state of pkg/devicestate/devicestate.go and its configuration: `New`, `UpdateConfig`,
-- `UpdatePolicyDevices`, `computeAllocatableDevices`, `bridgeToDevice`. The mutex is not modelled:
-- every operation holds it for one read or one assignment, so each is one step.
pub mod Laws
pub mod Listed
use dra_driver_ovsdpdk_upstr.Base.{
  ℕ, String, Bool, true, false, ◌||◌, Option, none, some, List, [], ◌∷◌, ℤ, pos, ltb_ℤ, Result, ok,
  err, panic, msg, Exec, wrapping, if◌then◌else◌, ◌==◌,
}
use dra_driver_ovsdpdk_upstr.Base.Map
use dra_driver_ovsdpdk_upstr.Base.Map.{Map}
use dra_driver_ovsdpdk_upstr.Api.{
  BridgeSpec, VhostUserSpec, OvsDpdkConfigSpec, DeviceAttribute, string_value, int_value,
  driver_name, default_bridge_capacity, default_container_root_path,
}

-- `DeviceCapacity` with its request policy
pub record DeviceCapacity : Type 0 where
  pub value : ℕ
  pub default_request : ℕ
  pub min : ℕ
  pub step : ℕ

-- `resourceapi.Device`
pub record Device : Type 0 where
  pub name : String
  pub allow_multiple_allocations : Option Bool
  pub attributes : Map DeviceAttribute
  pub capacity : Map DeviceCapacity

pub record AllocatableDevice : Type 0 where
  pub device : Device
  pub bridge_spec : BridgeSpec

abbrev pub AllocatableDevices : Type 0
AllocatableDevices = Map AllocatableDevice

-- The fields that change; the handlers that the other fields hold are arguments of the operations.
pub record DeviceState : Type 0 where
  pub allocatable : AllocatableDevices
  pub vhost_user_config : Option VhostUserSpec

abbrev bridge_name_attribute : String
bridge_name_attribute = "ovsdpdk.k8snetworkplumbingwg.io/bridgeName"

abbrev mtu_attribute : String
mtu_attribute = "ovsdpdk.k8snetworkplumbingwg.io/mtu"

abbrev ports_capacity : String
ports_capacity = "ovsdpdk.k8snetworkplumbingwg.io/ports"

with_mtu : Option ℤ → Map DeviceAttribute → Map DeviceAttribute
with_mtu none attrs = attrs
with_mtu (some mtu) attrs = Map.put attrs mtu_attribute (int_value mtu)

unfoldable pub bridge_to_device : BridgeSpec → AllocatableDevice
unfolding with_mtu
bridge_to_device bridge = record {
  device = record {
    name = bridge.name;
    allow_multiple_allocations = some true;
    attributes = with_mtu bridge.mtu ((bridge_name_attribute, string_value bridge.name) ∷ []);
    capacity =
        (
          ports_capacity,
          record { value = default_bridge_capacity; default_request = 1; min = 1; step = 1 },
        )
        ∷ [];
  };
  bridge_spec = bridge;
}

add_devices : AllocatableDevices → List BridgeSpec → AllocatableDevices
add_devices devices [] = devices
add_devices devices (bridge ∷ bridges) =
    add_devices (Map.put devices bridge.name (bridge_to_device bridge)) bridges

unfoldable pub compute_allocatable_devices : List BridgeSpec → AllocatableDevices
unfolding add_devices
compute_allocatable_devices bridges = add_devices [] bridges

pub update_bridges : List BridgeSpec → DeviceState → DeviceState
update_bridges bridges d = record d { allocatable = compute_allocatable_devices bridges }

unfoldable pub new : DeviceState
unfolding update_bridges compute_allocatable_devices
new = update_bridges [] (record { allocatable = []; vhost_user_config = none })

unfoldable pub update_config_spec : VhostUserSpec → DeviceState → DeviceState
update_config_spec spec d =
    let root =
      if spec.container_root_path == ""
      then default_container_root_path
      else spec.container_root_path in
    record d { vhost_user_config = some (record spec { container_root_path = root }) }

-- `UpdateConfig`: no object, or one without the vhost-user part, is an error and changes nothing.
unfoldable pub update_config : Option OvsDpdkConfigSpec → Exec DeviceState (Unit {0})
unfolding update_config_spec
update_config none d = (err (msg "missing VhostUser configuration"), d)
update_config (some spec) d = elim spec.vhost_user [
  | none ↦ (err (msg "missing VhostUser configuration"), d)
  | some vhost_user ↦ (ok tt, update_config_spec vhost_user d)
]

mtu_out_of_range : Option ℤ → Bool
mtu_out_of_range none = false
mtu_out_of_range (some mtu) = ltb_ℤ mtu (pos 68) || ltb_ℤ (pos 65535) mtu

is_some {ℓ} : {A : Type ℓ} → Option A → Bool
is_some none = false
is_some (some _) = true

-- The loop over the bridges, with the names seen so far.
pub check_bridges : List BridgeSpec → Map (Unit {0}) → Result (Unit {0})
unfolding mtu_out_of_range is_some
check_bridges [] seen = ok tt
check_bridges (bridge ∷ bridges) seen =
    let rest = check_bridges bridges (Map.put seen bridge.name tt) in
    if is_some (Map.get seen bridge.name)
    then err (msg "duplicate bridge name %q across OvsDpdkResourcePolicy objects")
    else if mtu_out_of_range bridge.mtu
    then err (msg "bridge %q: mtu %d out of range [68, 65535]")
    else rest

-- The callback that `SetRepublishCallback` stores reads the devices that are allocatable when it runs.
abbrev pub RepublishCallback : Type 0 → Type 0
RepublishCallback W = AllocatableDevices → Exec W (Unit {0})

republish :
    {W : Type 0}
    → Option (RepublishCallback W)
    → DeviceState
    → W
    → Result (Unit {0}) × (DeviceState × W)
republish none d w = (ok tt, (d, w))
republish (some callback) d w =
    let (r, w') = wrapping "republish callback: %w" (callback d.allocatable) w in (r, (d, w'))

-- The devices are updated before the callback runs, and stay so if it fails.
unfoldable pub update_policy_devices :
    {W : Type 0}
    → Option (RepublishCallback W)
    → List BridgeSpec
    → Exec (DeviceState × W) (Unit {0})
unfolding check_bridges update_bridges republish
update_policy_devices callback bridges (d, w) = elim (check_bridges bridges []) [
  | ok _ ↦ republish callback (update_bridges bridges d) w
  | err e ↦ (err e, (d, w))
  | panic ↦ (panic, (d, w))
]
