-- ===== src/DeviceState/Config.antt =====
-- pkg/devicestate/config.go: the port configurations of a claim. Decoding JSON is the parameter
-- `unmarshal`, and the parsed structure is the map of the source and its default.
pub mod Laws
pub mod Choice
pub mod Acceptance
use dra_driver_ovsdpdk_upstr.Base.{
  String, Bool, true, false, ◌||◌, Option, none, some, List, [], ◌∷◌, not, ltb_ℤ, ℤ, pos, Result,
  ok, err, msg, wrap_result, if◌then◌else◌, ◌==◌,
}
use dra_driver_ovsdpdk_upstr.Base.Map
use dra_driver_ovsdpdk_upstr.Base.Map.{Map}
use dra_driver_ovsdpdk_upstr.Base.Bind.{◌>>=◌, ◌>>◌}
use dra_driver_ovsdpdk_upstr.Api.{
  OvsPortConfig, OvsPolicing, default_ovs_port_config, kind_ovs_port_config, api_version,
  DeviceAllocationConfiguration, OpaqueConfig, ConfigSource, from_class, from_claim, other_source,
  driver_name,
}

pub record ClaimPortConfigs : Type 0 where
  pub by_request : Map OvsPortConfig
  pub default_cfg : Option OvsPortConfig

-- A request's own configuration, else the claim's default, else the default of the API.
unfoldable pub get_config : ClaimPortConfigs → String → OvsPortConfig
get_config c request = elim (Map.get c.by_request request) [
  | some cfg ↦ cfg
  | none ↦ elim c.default_cfg [ some cfg ↦ cfg | none ↦ default_ovs_port_config ]
]

vlan_out_of_range : Option ℤ → Bool
vlan_out_of_range none = false
vlan_out_of_range (some vlan) = ltb_ℤ vlan (pos 0) || ltb_ℤ (pos 4095) vlan

lacks_max_rate : Option OvsPolicing → Bool
lacks_max_rate none = false
lacks_max_rate (some policing) = elim policing.max_rate [ none ↦ true | some _ ↦ false ]

unfoldable pub validate_port_config : OvsPortConfig → Result (Unit {0})
unfolding vlan_out_of_range lacks_max_rate
validate_port_config config =
    if vlan_out_of_range config.vlan
    then err (msg "vlan %d out of range [0, 4095]")
    else if lacks_max_rate config.policing
    then err (msg "policing.max_rate is required when policing is set")
    else ok tt

set_for_all : List String → OvsPortConfig → Map OvsPortConfig → Map OvsPortConfig
set_for_all [] cfg m = m
set_for_all (req ∷ reqs) cfg m = set_for_all reqs cfg (Map.put m req cfg)

-- An entry that names no request is the default for all.
unfoldable pub store : List String → OvsPortConfig → ClaimPortConfigs → ClaimPortConfigs
unfolding set_for_all
store [] cfg c = record c { default_cfg = some cfg }
store (req ∷ reqs) cfg c = record c { by_request = set_for_all (req ∷ reqs) cfg c.by_request }

check : Bool → String → Result (Unit {0})
check true text = ok tt
check false text = err (msg text)

checked : OvsPortConfig → Result OvsPortConfig
unfolding check
checked config = do
  check (config.kind == kind_ovs_port_config) "unexpected kind %q in claim config: want %q"
  check (config.api_version == api_version) "unexpected apiVersion %q in claim config: want %q"
  wrap_result "OvsPortConfig validation failed: %w" (validate_port_config config)
  ok config

module _ (unmarshal : String → Result OvsPortConfig) where
  -- The checks on one entry of the driver, up to the configuration that it holds.
  pub decode : OpaqueConfig → Result OvsPortConfig
  unfolding checked
  decode opaque =
      wrap_result "unmarshal OvsPortConfig: %w" (unmarshal opaque.parameters) >>= checked

  parse_source :
      ConfigSource → List String → OpaqueConfig → ClaimPortConfigs → Result ClaimPortConfigs
  unfolding decode
  parse_source from_class requests opaque result = ok result
  parse_source from_claim requests opaque result = do
    config ← decode opaque
    ok (store requests config result)
  parse_source (other_source s) requests opaque result = err (msg "unknown config source: %v")

  -- One round of the loop: an entry with no opaque part, or of another driver, is passed over.
  pub parse_entry : DeviceAllocationConfiguration → ClaimPortConfigs → Result ClaimPortConfigs
  unfolding parse_source
  parse_entry cfg result = elim cfg.opaque [
    | none ↦ ok result
    | some opaque ↦
        if opaque.driver == driver_name
        then parse_source cfg.source cfg.requests opaque result
        else ok result
  ]

  parse_loop : List DeviceAllocationConfiguration → ClaimPortConfigs → Result ClaimPortConfigs
  unfolding parse_entry
  parse_loop [] result = ok result
  parse_loop (cfg ∷ cfgs) result = parse_entry cfg result >>= parse_loop cfgs

  unfoldable pub parse_claim_configs : List DeviceAllocationConfiguration → Result ClaimPortConfigs
  unfolding parse_loop
  parse_claim_configs configs = parse_loop configs (record { by_request = []; default_cfg = none })
