-- ===== src/DeviceState/Config/Acceptance.antt =====
-- `parseClaimConfigs` fails only on an entry of this driver that it must refuse, and what it hands to
-- a port is valid.
use dra_driver_ovsdpdk_upstr.Base.{
  String, ◌≡◌, refl, sym, subst, ◌↔◌, inl, inr, Bool, true, false, Option, none, some, List, [],
  ◌∷◌, Result, ok, Bool-cases, if◌then◌else◌, ◌==◌, eq_iff, arith, All,
}
use dra_driver_ovsdpdk_upstr.Base.Bind.{>>=-eq-ok}
use dra_driver_ovsdpdk_upstr.Api.{
  OvsPortConfig, default_ovs_port_config, DeviceAllocationConfiguration, ConfigSource, from_class,
  driver_name,
}
use dra_driver_ovsdpdk_upstr.DeviceState.Config.{
  ClaimPortConfigs, get_config, parse_source, parse_entry, parse_loop, parse_claim_configs, store,
}
use dra_driver_ovsdpdk_upstr.DeviceState.Config.Laws.{IsValid, Decodes-decode}
use dra_driver_ovsdpdk_upstr.DeviceState.Config.Choice.{
  IsAccepted, no_opaque, other_driver, of_class, of_claim, Outcome, entry_cases, last_named,
  last_unnamed, carried, names, or_else, if_unnamed, get_config-parse,
}

module _ (unmarshal : String → Result OvsPortConfig) where
  accepted_entry :
      (cfg : DeviceAllocationConfiguration) (r : ClaimPortConfigs)
      → IsAccepted unmarshal cfg
      → (s : ClaimPortConfigs) × (parse_entry unmarshal cfg r ≡ ok s)
  unfolding parse_entry
  accepted_entry cfg r (no_opaque e) = (r, rw (e, parse_entry))
  accepted_entry cfg r (other_driver o e ne) = (r, ground (arith, eq_iff o.driver driver_name, e))
  accepted_entry cfg r (of_class o e es) = (r, ground (arith, e, passed cfg.source es))
    where
      passed :
          (src : ConfigSource)
          → src ≡ from_class
          → parse_source unmarshal src cfg.requests o r ≡ ok r
      passed src p = rw p
  accepted_entry cfg r (of_claim o c e es d) = elim (Bool-cases (o.driver == driver_name)) [
    | inl ours ↦ (
      store cfg.requests c r,
      rw (e, ours, es, parse_entry, Decodes-decode unmarshal o c d, parse_source),
    )
    | inr other ↦ (r, rw (e, other, parse_entry))
  ]

  IsAccepted-loop :
      (cfgs : List DeviceAllocationConfiguration) (r : ClaimPortConfigs)
      → All (IsAccepted unmarshal) cfgs
      → (s : ClaimPortConfigs) × (parse_loop unmarshal cfgs r ≡ ok s)
  unfolding parse_loop
  IsAccepted-loop [] r all = (r, refl)
  IsAccepted-loop (cfg ∷ cfgs) r all =
      let (t, first) = accepted_entry cfg r all.0 in
      let (s, rest) = IsAccepted-loop cfgs t all.1 in (s, rw (first, parse_loop) rest)

  loop-IsAccepted :
      (cfgs : List DeviceAllocationConfiguration) (r s : ClaimPortConfigs)
      → parse_loop unmarshal cfgs r ≡ ok s
      → All (IsAccepted unmarshal) cfgs
  unfolding parse_loop
  loop-IsAccepted [] r s h = tt
  loop-IsAccepted (cfg ∷ cfgs) r s h =
      let (t, first, rest) = >>=-eq-ok (parse_entry unmarshal cfg r) _ h in
      (
        outcome-IsAccepted cfg r t (entry_cases unmarshal cfg r t first),
        loop-IsAccepted cfgs t s rest,
      )
    where
      outcome-IsAccepted :
          (cfg : DeviceAllocationConfiguration) (r t : ClaimPortConfigs)
          → Outcome unmarshal cfg r t
          → IsAccepted unmarshal cfg
      outcome-IsAccepted cfg r t (inl (a, _, _)) = a
      outcome-IsAccepted cfg r t (inr (c, a, _, _)) = a

  -- The configurations of a claim parse exactly if each entry is accepted: it has no opaque part, is
  -- for another driver, comes from a device class, or comes from the claim and decodes to a valid
  -- configuration of the expected kind and version.
  pub parse_iff :
      (cfgs : List DeviceAllocationConfiguration)
      → ((s : ClaimPortConfigs) × (parse_claim_configs unmarshal cfgs ≡ ok s))
        ↔ All (IsAccepted unmarshal) cfgs
  unfolding parse_claim_configs
  parse_iff cfgs = (λ (s, h). loop-IsAccepted cfgs _ s h, IsAccepted-loop cfgs _)

  carried-IsValid :
      (cfg : DeviceAllocationConfiguration) (c : OvsPortConfig)
      → IsAccepted unmarshal cfg
      → carried unmarshal cfg ≡ some c
      → IsValid c
  carried-IsValid cfg c (no_opaque e) h = absurd (ground (arith, e))
  carried-IsValid cfg c (other_driver o e ne) h =
      absurd (ground (arith, e, eq_iff o.driver driver_name))
  carried-IsValid cfg c (of_class o e es) h = absurd (ground (arith, e, es))
  carried-IsValid cfg c (of_claim o d e es decodes) h =
      subst IsValid {x = d} {y = c} (ground (arith, e, es, decodes.decoded)) decodes.valid

  abbrev Found : Option OvsPortConfig → Type 0
  Found o = (c : OvsPortConfig) → o ≡ some c → IsValid c

  or_else-Found : (a b : Option OvsPortConfig) → Found a → Found b → Found (or_else a b)
  or_else-Found none b ha hb = hb
  or_else-Found (some x) b ha hb = ha

  if-Found : (b : Bool) (o : Option OvsPortConfig) → Found o → Found (if b then o else none)
  if-Found true o h = h
  if-Found false o h = λ c e. absurd (ground arith)

  if_unnamed-Found :
      (reqs : List String) (o : Option OvsPortConfig) → Found o → Found (if_unnamed reqs o)
  if_unnamed-Found [] o h = h
  if_unnamed-Found (_ ∷ _) o h = λ c e. absurd (ground arith)

  last-Found :
      (cfgs : List DeviceAllocationConfiguration) (req : String)
      → All (IsAccepted unmarshal) cfgs
      → Found (last_named unmarshal req cfgs) × Found (last_unnamed unmarshal cfgs)
  unfolding last_named last_unnamed
  last-Found [] req all = (λ c e. absurd (ground arith), λ c e. absurd (ground arith))
  last-Found (cfg ∷ cfgs) req all =
      let later = last-Found cfgs req all.1 in
      let here : Found (carried unmarshal cfg) = λ c e. carried-IsValid cfg c all.0 e in
      (
        or_else-Found _ _ later.0 (if-Found (names req cfg.requests) _ here),
        or_else-Found _ _ later.1 (if_unnamed-Found cfg.requests _ here),
      )

  or_default-IsValid :
      (o : Option OvsPortConfig)
      → Found o
      → IsValid (elim o [ some c ↦ c | none ↦ default_ovs_port_config ])
  or_default-IsValid none h = (tt, tt)
  or_default-IsValid (some c) h = h c refl

  -- Whatever request a parsed claim is asked for, the configuration that it gives is valid: no VLAN or
  -- one between 0 and 4095, and a maximum rate wherever policing is set.
  pub get_config-IsValid :
      (cfgs : List DeviceAllocationConfiguration) (s : ClaimPortConfigs) (req : String)
      → parse_claim_configs unmarshal cfgs ≡ ok s
      → IsValid (get_config s req)
  get_config-IsValid cfgs s req h =
      let (named, unnamed) = last-Found cfgs req ((parse_iff cfgs).0 (s, h)) in
      subst IsValid (sym (get_config-parse unmarshal cfgs s req h)) (
        or_default-IsValid (or_else (last_named unmarshal req cfgs) (last_unnamed unmarshal cfgs))
          (or_else-Found _ _ named unnamed))
