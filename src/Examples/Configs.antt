-- ===== src/Examples/Configs.antt =====
-- The configuration of a claim, the names of its directories and ports, and the bridges of the
-- policies, on concrete inputs.
use dra_driver_ovsdpdk_upstr.Base.{
  String, ◌≡◌, refl, ◌↔◌, ◌⊎◌, none, some, List, [], ◌∷◌, pos, ok, All,
}
use dra_driver_ovsdpdk_upstr.Base.Map
use dra_driver_ovsdpdk_upstr.Api.{ResourceClaim, BridgeSpec}
use dra_driver_ovsdpdk_upstr.DeviceState.Config.{
  store, ClaimPortConfigs, get_config, validate_port_config, parse_claim_configs,
}
use dra_driver_ovsdpdk_upstr.DeviceState.Config.Laws.{IsValid}
use dra_driver_ovsdpdk_upstr.DeviceState.Config.Choice.{IsAccepted, chosen, get_config-parse}
use dra_driver_ovsdpdk_upstr.DeviceState.Config.Acceptance.{parse_iff, get_config-IsValid}
use dra_driver_ovsdpdk_upstr.DeviceState.Names.{
  get_pod_claim_name, ovs_port_name, first_chars, strip_dashes,
}
use dra_driver_ovsdpdk_upstr.DeviceState.Names.Distinct.{
  IsPart, get_socket_dir_injective, ovs_port_name_iff,
}
use dra_driver_ovsdpdk_upstr.DeviceState.Policy.{update_policy_devices}
use dra_driver_ovsdpdk_upstr.DeviceState.Policy.Laws.{Updated, Refused, update_policy_devices_lem}
use dra_driver_ovsdpdk_upstr.Examples.Memory.{
  memory, vlan_config, unmarshal, driver_entry, claim, state, empty,
}

abbrev parsed : ClaimPortConfigs
parsed = record { by_request = ("net0", vlan_config) ∷ []; default_cfg = none }

parses : parse_claim_configs unmarshal (driver_entry ∷ []) ≡ ok parsed
unfolding parse_claim_configs validate_port_config store Map.put
parses = refl

get_config-parse_example : get_config parsed "net0" ≡ chosen unmarshal (driver_entry ∷ []) "net0"
get_config-parse_example = get_config-parse unmarshal (driver_entry ∷ []) parsed "net0" parses

parse_iff_example :
    ((s : ClaimPortConfigs) × (parse_claim_configs unmarshal (driver_entry ∷ []) ≡ ok s))
    ↔ All (IsAccepted unmarshal) (driver_entry ∷ [])
parse_iff_example = parse_iff unmarshal (driver_entry ∷ [])

get_config-IsValid_example : IsValid (get_config parsed "net0")
get_config-IsValid_example = get_config-IsValid unmarshal (driver_entry ∷ []) parsed "net0" parses

abbrev net0 : String
net0 = "net0"

abbrev no_results : ResourceClaim
no_results = claim []

abbrev pod : String
pod = "pod-uid"

pod-IsPart : IsPart "pod-uid"
pod-IsPart = record {
  no_underscore = (refl, (refl, (refl, (refl, (refl, (refl, (refl, tt)))))));
  no_slash = (refl, (refl, (refl, (refl, (refl, (refl, (refl, tt)))))));
}

request-IsPart : IsPart "net0"
request-IsPart = record {
  no_underscore = (refl, (refl, (refl, (refl, tt))));
  no_slash = (refl, (refl, (refl, (refl, tt))));
}

name-IsPart : IsPart (get_pod_claim_name memory.annotation no_results)
unfolding get_pod_claim_name Map.get
name-IsPart = record {
  no_underscore = (refl, (refl, (refl, (refl, tt))));
  no_slash = (refl, (refl, (refl, (refl, tt))));
}

get_socket_dir_injective_example :
    (pod ≡ pod)
    × (get_pod_claim_name memory.annotation no_results
        ≡ get_pod_claim_name memory.annotation no_results)
    × (net0 ≡ net0)
get_socket_dir_injective_example =
    get_socket_dir_injective memory.annotation "pod-uid" "pod-uid" no_results no_results "net0"
      "net0" pod-IsPart pod-IsPart name-IsPart name-IsPart request-IsPart request-IsPart refl

port_name : ovs_port_name "6ba7b810-9dad-11d1" "net0" ≡ ok "6ba7b810-net0"
unfolding ovs_port_name
port_name = refl

ovs_port_name_iff_example : (ovs_port_name "6ba7b810-0000" "net0" ≡ ok "6ba7b810-net0") ↔ (
    (first_chars 8 (strip_dashes "6ba7b810-9dad-11d1")
      ≡ first_chars 8 (strip_dashes "6ba7b810-0000"))
    × (net0 ≡ net0))
ovs_port_name_iff_example =
    ovs_port_name_iff "6ba7b810-9dad-11d1" "6ba7b810-0000" "net0" "net0" "6ba7b810-net0" port_name

abbrev bridges : List BridgeSpec
bridges =
    record { name = "br-a"; topology_resource = "numa"; mtu = some (pos 1500) }
    ∷ record { name = "br-b"; topology_resource = ""; mtu = none }
    ∷ []

update_policy_devices_lem_example :
    let s = update_policy_devices none bridges (state, empty) in
    Updated none bridges state empty s.0 s.1.0 s.1.1
    ⊎ Refused none bridges state empty s.0 s.1.0 s.1.1
update_policy_devices_lem_example = update_policy_devices_lem none bridges state empty
