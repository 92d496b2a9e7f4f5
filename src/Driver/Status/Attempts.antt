-- ===== src/Driver/Status/Attempts.antt =====
-- How often a status update calls the API server.
use Prim.Native.Nat.{zero, suc, ◌+◌, ◌≤◌}
use dra_driver_ovsdpdk_upstr.Base.{ℕ, ◌≡◌, refl, inl, inr, List, Result-cases, Bool-cases, arith}
use dra_driver_ovsdpdk_upstr.Api.{AllocatedDeviceStatus, ResourceClaim, driver_name, backoff_steps}
use dra_driver_ovsdpdk_upstr.Driver.Status.{
  ClaimsApi, filter_devices_by_driver, after_error, round, rounds, update_claim_status,
}

-- The API server with a count of its updates and one of its reads.
pub record Counted (S : Type 0) : Type 0 where
  pub state : S
  pub updates : ℕ
  pub reads : ℕ

abbrev pub counting : {S : Type 0} → ClaimsApi S → ClaimsApi (Counted S)
counting api = record {
  update_status = λ claim s.
      let (r, s') = api.update_status claim s.state in
      (r, record { state = s'; updates = suc s.updates; reads = s.reads });
  get = λ namespace name s.
      let (r, s') = api.get namespace name s.state in
      (r, record { state = s'; updates = s.updates; reads = suc s.reads });
  is_conflict = api.is_conflict;
}

module _ {S : Type 0} (api : ClaimsApi S) where
  round-Counted :
      (owned : List AllocatedDeviceStatus) (claim : ResourceClaim) (s : Counted S)
      → let s' = (round (counting api) owned claim s).1.1 in
        (s'.updates ≡ suc s.updates) × (s'.reads ≤ suc s.reads)
  unfolding round after_error
  round-Counted owned claim s = elim (Result-cases (api.update_status claim s.state).0) [
    | inl (a, e) ↦ rw (e, round) (refl, omega arith)
    | inr (inr e) ↦ rw (e, round) (refl, omega arith)
    | inr (inl (x, e)) ↦ elim (Bool-cases (api.is_conflict x)) [
      | inl conflicts ↦ rw (e, round, conflicts, after_error) (refl, omega arith)
      | inr other ↦ rw (e, round, other, after_error) (refl, omega arith)
    ]
  ]

  rounds-Counted :
      (left : ℕ) (owned : List AllocatedDeviceStatus) (claim : ResourceClaim) (s : Counted S)
      → let s' = (rounds (counting api) left owned claim s).1 in
        (s'.updates ≤ s.updates + left) × (s'.reads ≤ s.reads + left)
  unfolding rounds
  rounds-Counted zero owned claim s = (omega arith, omega arith)
  rounds-Counted (suc left) owned claim s =
      let one = round-Counted owned claim s in
      elim (Bool-cases (round (counting api) owned claim s).0) [
        | inl e ↦ rw (e, rounds) (omega (arith, one.0), omega (arith, one.1))
        | inr e ↦
            let more =
              rounds-Counted left owned (round (counting api) owned claim s).1.0
                (round (counting api) owned claim s).1.1 in
            rw (e, rounds) (omega (arith, one.0, more.0), omega (arith, one.1, more.1))
      ]

  -- Whatever the API server answers, a status update of the driver ends after at most five updates and
  -- at most five reads.
  pub update_claim_status_ends :
      (claim : ResourceClaim) (s : S)
      → let s' =
          (update_claim_status
            (counting api)
            backoff_steps
            claim
            (record { state = s; updates = 0; reads = 0 })).1 in
        (s'.updates ≤ 5) × (s'.reads ≤ 5)
  unfolding update_claim_status
  update_claim_status_ends claim s =
      rounds-Counted 5 (filter_devices_by_driver claim.devices driver_name) claim
        (record { state = s; updates = 0; reads = 0 })
