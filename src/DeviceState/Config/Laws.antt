-- ===== src/DeviceState/Config/Laws.antt =====
-- What pkg/devicestate/config.go accepts, and which configuration a request gets.
use dra_driver_ovsdpdk_upstr.Base.{
  ℕ, ◌≤◌, String, ◌≡◌, inl, inr, ◌↔◌, Option, none, some, ℤ, pos, negsuc, Result, ok, Result-cases,
  eq_iff, arith,
}
use dra_driver_ovsdpdk_upstr.Api.{
  OvsPortConfig, OvsPolicing, kind_ovs_port_config, api_version, OpaqueConfig,
}
use dra_driver_ovsdpdk_upstr.DeviceState.Config.{validate_port_config, checked, decode}

-- What a port may be configured to: no VLAN or one of 802.1Q, and a rate wherever there is policing.
abbrev pub VlanIsValid : Option ℤ → Type 0
VlanIsValid none = Unit
VlanIsValid (some (pos v)) = v ≤ 4095
VlanIsValid (some (negsuc v)) = ⊥

abbrev pub RateIsGiven : Option ℕ → Type 0
RateIsGiven none = ⊥
RateIsGiven (some rate) = Unit

abbrev pub PolicingIsValid : Option OvsPolicing → Type 0
PolicingIsValid none = Unit
PolicingIsValid (some p) = RateIsGiven p.max_rate

abbrev pub IsValid : OvsPortConfig → Type 0
IsValid c = VlanIsValid c.vlan × PolicingIsValid c.policing

validate_sound : (c : OvsPortConfig) → validate_port_config c ≡ ok tt → IsValid c
unfolding validate_port_config
validate_sound c h = ground arith

validate_complete : (c : OvsPortConfig) → IsValid c → validate_port_config c ≡ ok tt
unfolding validate_port_config
validate_complete c v = ground arith

-- A configuration is accepted exactly if it is valid.
pub validate_iff : (c : OvsPortConfig) → (validate_port_config c ≡ ok tt) ↔ IsValid c
validate_iff c = (validate_sound c, validate_complete c)

checked_sound :
    (c d : OvsPortConfig)
    → checked c ≡ ok d
    → (c ≡ d) × (c.kind ≡ kind_ovs_port_config) × (c.api_version ≡ api_version) × IsValid c
unfolding checked
checked_sound c d h =
    ground (
      arith,
      eq_iff c.kind kind_ovs_port_config,
      eq_iff c.api_version api_version,
      validate_sound c,
    )

-- The text of an entry decodes to a valid configuration of the right kind and version.
pub record Decodes (unmarshal : String → Result OvsPortConfig) (o : OpaqueConfig)
    (c : OvsPortConfig) : Type 0 where
  pub decoded : unmarshal o.parameters ≡ ok c
  pub kind : c.kind ≡ kind_ovs_port_config
  pub version : c.api_version ≡ api_version
  pub valid : IsValid c

module _ (unmarshal : String → Result OvsPortConfig) where
  pub decode-Decodes :
      (o : OpaqueConfig) (c : OvsPortConfig) → decode unmarshal o ≡ ok c → Decodes unmarshal o c
  unfolding decode
  decode-Decodes o c h = elim (Result-cases (unmarshal o.parameters)) [
    | inl (d, e) ↦
        let (same, kind, version, valid) = checked_sound d c (rw (e, decode) at h) in
        ground (arith, e, same, kind, version, valid)
    | inr (inl (e, q)) ↦ cc (rw (q, decode) at h)
    | inr (inr q) ↦ cc (rw (q, decode) at h)
  ]

  pub Decodes-decode :
      (o : OpaqueConfig) (c : OvsPortConfig) → Decodes unmarshal o c → decode unmarshal o ≡ ok c
  unfolding decode
  Decodes-decode o c d = rw (
    d.decoded,
    (eq_iff c.kind kind_ovs_port_config).1 d.kind,
    (eq_iff c.api_version api_version).1 d.version,
    validate_complete c d.valid,
  )
