-- ===== src/DeviceState/Config/Choice.antt =====
-- Which configurations of a claim are accepted as a whole, and which one a request gets: of the
-- entries that name it the last, else the last that names no request, else the default of the API.
use dra_driver_ovsdpdk_upstr.Base.{
  String, ◌≡◌, refl, ◌≢◌, ◌∙◌, ◌⊎◌, inl, inr, Bool, true, false, ◌||◌, Option, none, some, List, [],
  ◌∷◌, Result, ok, Bool-cases, Option-cases, if◌then◌else◌, ◌==◌, eq_iff, arith,
}
use dra_driver_ovsdpdk_upstr.Base.Map
use dra_driver_ovsdpdk_upstr.Base.Map.{Map, get-put}
use dra_driver_ovsdpdk_upstr.Base.Bind.{>>=-eq-ok}
use dra_driver_ovsdpdk_upstr.Api.{
  OvsPortConfig, default_ovs_port_config, DeviceAllocationConfiguration, OpaqueConfig, ConfigSource,
  from_class, from_claim, other_source, driver_name,
}
use dra_driver_ovsdpdk_upstr.DeviceState.Config.{
  ClaimPortConfigs, get_config, set_for_all, store, decode, parse_source, parse_entry, parse_loop,
  parse_claim_configs,
}
use dra_driver_ovsdpdk_upstr.DeviceState.Config.Laws.{Decodes, decode-Decodes}

abbrev pub names : String → List String → Bool
names req [] = false
names req (r ∷ rs) = r == req || names req rs

abbrev pub or_else {ℓ} : {A : Type ℓ} → Option A → Option A → Option A
or_else (some a) b = some a
or_else none b = b

abbrev pub if_unnamed {ℓ} : {A : Type ℓ} → List String → Option A → Option A
if_unnamed [] a = a
if_unnamed (_ ∷ _) a = none

abbrev decoded {ℓ} : {A : Type ℓ} → Result A → Option A
decoded (ok a) = some a
decoded _ = none

abbrev from_source : ConfigSource → Option OvsPortConfig → Option OvsPortConfig
from_source from_claim c = c
from_source _ c = none

module _ (unmarshal : String → Result OvsPortConfig) where
  -- The configuration that an entry holds for this driver: one that the claim itself states.
  abbrev pub carried : DeviceAllocationConfiguration → Option OvsPortConfig
  carried cfg = elim cfg.opaque [
    | none ↦ none
    | some o ↦
        if o.driver == driver_name
        then from_source cfg.source (decoded (unmarshal o.parameters))
        else none
  ]

  -- The last entry that names the request.
  unfoldable pub last_named : String → List DeviceAllocationConfiguration → Option OvsPortConfig
  last_named req [] = none
  last_named req (cfg ∷ cfgs) =
      or_else (last_named req cfgs) (if names req cfg.requests then carried cfg else none)

  -- The last entry that names no request.
  unfoldable pub last_unnamed : List DeviceAllocationConfiguration → Option OvsPortConfig
  last_unnamed [] = none
  last_unnamed (cfg ∷ cfgs) = or_else (last_unnamed cfgs) (if_unnamed cfg.requests (carried cfg))

  -- An entry does no harm: it is not this driver's, or of a device class, or it decodes.
  pub data IsAccepted (cfg : DeviceAllocationConfiguration) : Type 0 where
    no_opaque : cfg.opaque ≡ none → IsAccepted cfg
    other_driver :
        (o : OpaqueConfig) → cfg.opaque ≡ some o → o.driver ≢ driver_name → IsAccepted cfg
    of_class : (o : OpaqueConfig) → cfg.opaque ≡ some o → cfg.source ≡ from_class → IsAccepted cfg
    of_claim :
        (o : OpaqueConfig) (c : OvsPortConfig)
        → cfg.opaque ≡ some o
        → cfg.source ≡ from_claim
        → Decodes unmarshal o c
        → IsAccepted cfg

get-set_for_all :
    (reqs : List String) (c : OvsPortConfig) (m : Map OvsPortConfig) (req : String)
    → Map.get (set_for_all reqs c m) req ≡ (if names req reqs then some c else Map.get m req)
unfolding set_for_all
get-set_for_all [] c m req = refl
get-set_for_all (r ∷ reqs) c m req =
    get-set_for_all reqs c (Map.put m r c) req ∙ ground (arith, get-put m r c req)

module _ (c : OvsPortConfig) (r : ClaimPortConfigs) where
  named-store :
      (reqs : List String) (req : String)
      → Map.get (store reqs c r).by_request req
        ≡ or_else (if names req reqs then some c else none) (Map.get r.by_request req)
  unfolding store
  named-store [] req = refl
  named-store (q ∷ reqs) req = get-set_for_all (q ∷ reqs) c r.by_request req ∙ ground arith

  default-store :
      (reqs : List String)
      → (store reqs c r).default_cfg ≡ or_else (if_unnamed reqs (some c)) r.default_cfg
  unfolding store
  default-store [] = refl
  default-store (q ∷ reqs) = refl

module _ (unmarshal : String → Result OvsPortConfig) where
  -- An accepted entry is passed over, or its configuration is stored.
  abbrev pub Outcome : DeviceAllocationConfiguration → ClaimPortConfigs → ClaimPortConfigs → Type 0
  Outcome cfg r s =
      (IsAccepted unmarshal cfg × (carried unmarshal cfg ≡ none) × (s ≡ r))
      ⊎ ((c : OvsPortConfig) × IsAccepted unmarshal cfg
          × (carried unmarshal cfg ≡ some c)
          × (s ≡ store cfg.requests c r))

  source_cases :
      (cfg : DeviceAllocationConfiguration) (r s : ClaimPortConfigs) (o : OpaqueConfig)
      (src : ConfigSource)
      → cfg.opaque ≡ some o
      → (o.driver == driver_name) ≡ true
      → cfg.source ≡ src
      → parse_source unmarshal src cfg.requests o r ≡ ok s
      → Outcome cfg r s
  unfolding parse_source
  source_cases cfg r s o from_class eo ed es h =
      inl (of_class o eo es, ground (arith, eo, ed, es), ground arith)
  source_cases cfg r s o from_claim eo ed es h =
      let (c, decodes, stored) = >>=-eq-ok (decode unmarshal o) _ h in
      let d = decode-Decodes unmarshal o c decodes in
      inr (c, of_claim o c eo es d, ground (arith, eo, ed, es, d.decoded), ground (arith, stored))
  source_cases cfg r s o (other_source t) eo ed es h = cc

  pub entry_cases :
      (cfg : DeviceAllocationConfiguration) (r s : ClaimPortConfigs)
      → parse_entry unmarshal cfg r ≡ ok s
      → Outcome cfg r s
  unfolding parse_entry
  entry_cases cfg r s h = elim (Option-cases cfg.opaque) [
    | inl e ↦ inl (no_opaque e, ground (arith, e), ground (arith, e))
    | inr (o, e) ↦ elim (Bool-cases (o.driver == driver_name)) [
      | inl ours ↦ source_cases cfg r s o cfg.source e ours refl (rw (e, ours, parse_entry) at h)
      | inr other ↦ inl (
        other_driver o e (λ p. cc ((eq_iff o.driver driver_name).1 p)),
        ground (arith, e, other),
        ground (arith, e, other),
      )
    ]
  ]

  named-entry :
      (cfg : DeviceAllocationConfiguration) (r s : ClaimPortConfigs) (req : String)
      → parse_entry unmarshal cfg r ≡ ok s
      → Map.get s.by_request req
        ≡ or_else
            (if names req cfg.requests then carried unmarshal cfg else none)
            (Map.get r.by_request req)
  named-entry cfg r s req h = elim (entry_cases cfg r s h) [
    | inl (a, absent, same) ↦ rw (same, absent) (ground arith)
    | inr (c, a, present, stored) ↦ rw (stored, present) (named-store c r cfg.requests req)
  ]

  default-entry :
      (cfg : DeviceAllocationConfiguration) (r s : ClaimPortConfigs)
      → parse_entry unmarshal cfg r ≡ ok s
      → s.default_cfg ≡ or_else (if_unnamed cfg.requests (carried unmarshal cfg)) r.default_cfg
  default-entry cfg r s h = elim (entry_cases cfg r s h) [
    | inl (a, absent, same) ↦ rw (same, absent) (ground arith)
    | inr (c, a, present, stored) ↦ rw (stored, present) (default-store c r cfg.requests)
  ]

  named-loop :
      (cfgs : List DeviceAllocationConfiguration) (r s : ClaimPortConfigs) (req : String)
      → parse_loop unmarshal cfgs r ≡ ok s
      → Map.get s.by_request req
        ≡ or_else (last_named unmarshal req cfgs) (Map.get r.by_request req)
  unfolding parse_loop last_named
  named-loop [] r s req h = ground arith
  named-loop (cfg ∷ cfgs) r s req h =
      let (t, first, rest) = >>=-eq-ok (parse_entry unmarshal cfg r) _ h in
      ground (arith, named-loop cfgs t s req rest, named-entry cfg r t req first)

  default-loop :
      (cfgs : List DeviceAllocationConfiguration) (r s : ClaimPortConfigs)
      → parse_loop unmarshal cfgs r ≡ ok s
      → s.default_cfg ≡ or_else (last_unnamed unmarshal cfgs) r.default_cfg
  unfolding parse_loop last_unnamed
  default-loop [] r s h = ground arith
  default-loop (cfg ∷ cfgs) r s h =
      let (t, first, rest) = >>=-eq-ok (parse_entry unmarshal cfg r) _ h in
      ground (arith, default-loop cfgs t s rest, default-entry cfg r t first)

  -- The specification of `getConfig` after a parse.
  abbrev pub chosen : List DeviceAllocationConfiguration → String → OvsPortConfig
  chosen cfgs req = elim (or_else (last_named unmarshal req cfgs) (last_unnamed unmarshal cfgs)) [
    | some c ↦ c
    | none ↦ default_ovs_port_config
  ]

  -- If the configurations of a claim parse, a request gets the configuration of the last entry of the
  -- claim for this driver that names it; failing that, of the last one that names no request; and
  -- failing that the default configuration.
  pub get_config-parse :
      (cfgs : List DeviceAllocationConfiguration) (s : ClaimPortConfigs) (req : String)
      → parse_claim_configs unmarshal cfgs ≡ ok s
      → get_config s req ≡ chosen cfgs req
  unfolding parse_claim_configs get_config Map.get
  get_config-parse cfgs s req h = ground (arith, named-loop cfgs _ s req h, default-loop cfgs _ s h)
