-- ===== src/Driver/Claims.antt =====
-- `PrepareResourceClaims` and `UnprepareResourceClaims` of pkg/driver/server.go, over the interface of
-- pkg/devicestate/iface.go. A nil error is `none`.
pub mod Released
pub mod Again
use dra_driver_ovsdpdk_upstr.Base.{
  ℕ, String, Option, none, some, List, [], ◌∷◌, map, Result, ok, err, panic, Error, Exec, wrap,
  error_of,
}
use dra_driver_ovsdpdk_upstr.Base.Map
use dra_driver_ovsdpdk_upstr.Base.Map.{Map}
use dra_driver_ovsdpdk_upstr.Api.{
  PluginDevice, PreparedDevice, NamespacedObject, ResourceClaim, backoff_steps,
}
use dra_driver_ovsdpdk_upstr.PodManager
use dra_driver_ovsdpdk_upstr.PodManager.{PodManager}
use dra_driver_ovsdpdk_upstr.Driver.Status.{ClaimsApi, update_claim_status}

-- `DeviceStateIface`, the part that the kubelet's calls use.
pub record DeviceStateIface (S : Type 0) : Type 0 where
  pub prepare_resource_claim : Exec (ResourceClaim × S) (List PreparedDevice)
  pub unprepare_resource_claim : List PreparedDevice → Exec S (Unit {0})

pub record Driver (S : Type 0) : Type 0 where
  pub pods : PodManager
  pub state : S

pub record PrepareResult : Type 0 where
  pub devices : List PluginDevice
  pub error : Option Error

unfoldable pub prepared_devices_to_result : List PreparedDevice → PrepareResult
prepared_devices_to_result prepared = record {
  devices = map (λ pd. pd.device) prepared;
  error = none;
}

abbrev pub failure : Error → PrepareResult
failure e = record { devices = []; error = some e }

-- The results for the claims handled and the error that stopped the call.
pub record Prepared : Type 0 where
  pub results : Map PrepareResult
  pub error : Option Error

module _ {S : Type 0} (iface : DeviceStateIface S) (api : ClaimsApi S) where
  prepare_claims : List ResourceClaim → Map PrepareResult → Driver S → Result Prepared × Driver S
  prepare_claims [] results d = (ok (record { results = results; error = none }), d)
  prepare_claims (claim ∷ claims) results d = elim (PodManager.get d.pods claim.uid) [
    | some devices ↦
        prepare_claims claims (Map.put results claim.uid (prepared_devices_to_result devices)) d
    | none ↦
        let (prepared, (claim', s)) = iface.prepare_resource_claim (claim, d.state) in
        elim prepared [
          | ok devices ↦
              prepare_claims claims (Map.put results claim.uid (prepared_devices_to_result devices))
                (record {
                  pods = PodManager.set d.pods claim.uid devices;
                  state = (update_claim_status api backoff_steps claim' s).1;
                })
          | err e ↦ (
            ok (record { results = Map.put results claim.uid (failure e); error = some e }),
            record d { state = s },
          )
          | panic ↦ (panic, record d { state = s })
        ]
  ]

  unfoldable pub prepare_resource_claims :
      List ResourceClaim → Driver S → Result Prepared × Driver S
  unfolding prepare_claims
  prepare_resource_claims claims d = prepare_claims claims [] d

  -- A claim that could not be cleaned up goes back into the cache, for a later call.
  unprepare_claims :
      List NamespacedObject → Map (Option Error) → Driver S → Result (Map (Option Error)) × Driver S
  unprepare_claims [] results d = (ok results, d)
  unprepare_claims (claim ∷ claims) results d =
      let (cached, pods) = PodManager.delete d.pods claim.uid in
      elim cached [
        | none ↦ unprepare_claims claims (Map.put results claim.uid none) (record d { pods = pods })
        | some devices ↦
            let (cleaned, s) = iface.unprepare_resource_claim devices d.state in
            elim cleaned [
              | ok _ ↦
                  unprepare_claims claims (Map.put results claim.uid none)
                    (record { pods = pods; state = s })
              | err e ↦
                  unprepare_claims claims
                    (Map.put results claim.uid (some (wrap "unprepare claim %s: %w" e)))
                    (record { pods = PodManager.set pods claim.uid devices; state = s })
              | panic ↦ (panic, record { pods = pods; state = s })
            ]
      ]

  unfoldable pub unprepare_resource_claims :
      List NamespacedObject → Driver S → Result (Map (Option Error)) × Driver S
  unfolding unprepare_claims
  unprepare_resource_claims claims d = unprepare_claims claims [] d
