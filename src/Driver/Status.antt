-- ===== src/Driver/Status.antt =====
-- The status update of pkg/driver/server.go: `filterDevicesByDriver`, `mergeDeviceStatus` and
-- `updateClaimStatus`. The back-off of the Kubernetes library tries a bounded number of rounds until one
-- is done; a cancelled context is fewer rounds.
pub mod Merge
pub mod Attempts
use Prim.Native.Nat.{zero, suc}
use dra_driver_ovsdpdk_upstr.Base.{
  ℕ, String, Bool, true, false, not, List, ◌++◌, select, Result, ok, err, panic, Error, Exec, ◌==◌,
}
use dra_driver_ovsdpdk_upstr.Api.{AllocatedDeviceStatus, ResourceClaim, driver_name}

unfoldable pub filter_devices_by_driver :
    List AllocatedDeviceStatus → String → List AllocatedDeviceStatus
unfolding select
filter_devices_by_driver devices driver = select (λ d. d.driver == driver) devices

unfoldable pub merge_device_status :
    List AllocatedDeviceStatus → List AllocatedDeviceStatus → String → List AllocatedDeviceStatus
unfolding select
merge_device_status target owned driver = select (λ d. not (d.driver == driver)) target ++ owned

-- What the driver calls of the API server.
pub record ClaimsApi (S : Type 0) : Type 0 where
  pub update_status : ResourceClaim → Exec S (Unit {0})
  pub get : String → String → Exec S ResourceClaim
  pub is_conflict : Error → Bool

module _ {S : Type 0} (api : ClaimsApi S) where
  -- After a conflict the claim is read anew, and the driver's entries are merged into it.
  refreshed : List AllocatedDeviceStatus → ResourceClaim → Result ResourceClaim → ResourceClaim
  refreshed owned claim (ok fresh) = record fresh {
    devices = merge_device_status fresh.devices owned driver_name;
  }
  refreshed owned claim _ = claim

  after_error : List AllocatedDeviceStatus → ResourceClaim → Bool → S → ResourceClaim × S
  unfolding refreshed
  after_error owned claim false s = (claim, s)
  after_error owned claim true s =
      let (fresh, s') = api.get claim.namespace claim.name s in (refreshed owned claim fresh, s')

  -- The claim to send next, or that it is sent.
  round : List AllocatedDeviceStatus → ResourceClaim → S → Bool × (ResourceClaim × S)
  unfolding after_error
  round owned claim s =
      let (sent, s') = api.update_status claim s in
      elim sent [
        | ok _ ↦ (true, (claim, s'))
        | err e ↦ (false, after_error owned claim (api.is_conflict e) s')
        | panic ↦ (false, (claim, s'))
      ]

  rounds : ℕ → List AllocatedDeviceStatus → ResourceClaim → S → ResourceClaim × S
  unfolding round
  rounds zero owned claim s = (claim, s)
  rounds (suc left) owned claim s =
      let (done, (claim', s')) = round owned claim s in
      elim done [ true ↦ (claim', s') | false ↦ rounds left owned claim' s' ]

  -- The last claim that the rounds held, and the state. Errors are logged only.
  unfoldable pub update_claim_status : ℕ → ResourceClaim → S → ResourceClaim × S
  unfolding rounds
  update_claim_status attempts claim s =
      rounds attempts (filter_devices_by_driver claim.devices driver_name) claim s
