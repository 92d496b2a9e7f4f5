-- ===== src/DeviceState/Prepare/Params.antt =====
-- The parameters of a port and the attributes of a prepared device, of
-- pkg/devicestate/devicestate.go (`ovsPortParams`, `deviceMetadataAttrs`), with the MTU of a bridge.
use dra_driver_ovsdpdk_upstr.Base.{
  ℕ, String, Option, none, some, [], ◌∷◌, ℤ, pos, ltb_ℤ, if◌then◌else◌,
}
use dra_driver_ovsdpdk_upstr.Base.Map
use dra_driver_ovsdpdk_upstr.Base.Map.{Map}
use dra_driver_ovsdpdk_upstr.Api.{
  OvsPortConfig, OvsPolicing, OvsPortParams, ResourceClaim, DeviceAttribute, string_value,
  int_value,
}
use dra_driver_ovsdpdk_upstr.DeviceState.Policy.{DeviceState}

given : Option ℕ → ℤ
given none = pos 0
given (some n) = pos n

rate_of : Option OvsPolicing → ℤ
unfolding given
rate_of none = pos 0
rate_of (some policing) = given policing.max_rate

burst_of : Option OvsPolicing → ℤ
unfolding given
burst_of none = pos 0
burst_of (some policing) = given policing.burst

-- `pod` is the name of the first consumer of the claim.
unfoldable pub ovs_port_params : ResourceClaim → String → OvsPortConfig → Option ℤ → OvsPortParams
unfolding rate_of burst_of
ovs_port_params claim pod port_config mtu = record {
  external_ids =
      ("claim-uid", claim.uid)
      ∷ ("claim-name", claim.name)
      ∷ ("namespace", claim.namespace)
      ∷ ("pod-name", pod)
      ∷ [];
  vlan = port_config.vlan;
  ingress_rate = rate_of port_config.policing;
  ingress_burst = burst_of port_config.policing;
  mtu = mtu;
}

put_some : String → Option ℤ → Map DeviceAttribute → Map DeviceAttribute
put_some key none attrs = attrs
put_some key (some v) attrs = Map.put attrs key (int_value v)

put_positive : String → ℤ → Map DeviceAttribute → Map DeviceAttribute
put_positive key v attrs = if ltb_ℤ (pos 0) v then Map.put attrs key (int_value v) else attrs

unfoldable pub device_metadata_attrs : String → OvsPortParams → Map DeviceAttribute
unfolding put_some put_positive
device_metadata_attrs container_socket_path params =
    put_positive "ingress-policing-burst" params.ingress_burst (
      put_positive "ingress-policing-rate" params.ingress_rate
        (put_some "mtu" params.mtu (("vhost-user-path", string_value container_socket_path) ∷ [])))

-- The MTU of a bridge that is not allocatable is that of Go's zero value: none.
unfoldable pub mtu_of : DeviceState → String → Option ℤ
mtu_of d bridge = elim (Map.get d.allocatable bridge) [
  | none ↦ none
  | some device ↦ device.bridge_spec.mtu
]
