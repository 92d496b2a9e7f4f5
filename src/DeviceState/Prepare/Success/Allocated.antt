-- ===== src/DeviceState/Prepare/Success/Allocated.antt =====
-- What the allocation of a claim is prepared as.
use dra_driver_ovsdpdk_upstr.Base.{
  ◌≡◌, refl, sym, ap, subst, ◌∙◌, ◌≢◌, inl, inr, some, List, [], ◌∷◌, ok, Result-cases,
  Option-cases,
}
use dra_driver_ovsdpdk_upstr.Api.{PreparedDevice, ResourceClaim, Allocation, ConsumerReference}
use dra_driver_ovsdpdk_upstr.Backend.{Backend}
use dra_driver_ovsdpdk_upstr.DeviceState.Config.{ClaimPortConfigs, parse_claim_configs}
use dra_driver_ovsdpdk_upstr.DeviceState.Policy.{DeviceState}
use dra_driver_ovsdpdk_upstr.DeviceState.Prepare.{
  prepare_loop, prepare_allocation, prepare_guarded, prepare_resource_claim,
}
use dra_driver_ovsdpdk_upstr.DeviceState.Prepare.Success.{
  AreFor, ours, prepare_loop-AreFor, finish-ok,
}

module _ {W : Type 0} (b : Backend W) (d : DeviceState) where
  -- The devices are those of the claim's allocation.
  abbrev pub ArePrepared : ResourceClaim → List PreparedDevice → Type 0
  ArePrepared claim pds =
      (a : Allocation) × (configs : ClaimPortConfigs) × (claim.allocation ≡ some a)
      × (parse_claim_configs b.unmarshal a.config ≡ ok configs)
      × AreFor b configs claim.uid (ours b configs claim.uid a.results) pds
      × (pds ≢ [])

  prepare_allocation-ok :
      (a : Allocation) (claim : ResourceClaim) (w : W) (pds : List PreparedDevice)
      → (prepare_allocation b d a (claim, w)).0 ≡ ok pds
      → (configs : ClaimPortConfigs) × (parse_claim_configs b.unmarshal a.config ≡ ok configs)
        × AreFor b configs claim.uid (ours b configs claim.uid a.results) pds
        × (pds ≢ [])
  unfolding prepare_allocation
  prepare_allocation-ok a claim w pds h =
      elim (Result-cases (parse_claim_configs b.unmarshal a.config)) [
        | inl (configs, e) ↦
            elim (Result-cases (prepare_loop b d configs a.results [] (claim, w)).0) [
              | inl (prepared, f) ↦
                  let (same, ne) =
                    finish-ok b configs claim.uid prepared pds
                      (prepare_loop b d configs a.results [] (claim, w)).1.1
                      (rw (e, prepare_allocation, f) at h) in
                  let are =
                    prepare_loop-AreFor b configs claim.uid d a.results [] [] prepared claim w refl
                      tt f in
                  (
                    configs,
                    e,
                    subst (AreFor b configs claim.uid (ours b configs claim.uid a.results)) same
                        are,
                    ne,
                  )
              | inr (inl (x, f)) ↦ absurd (cc (rw (e, prepare_allocation, f) at h))
              | inr (inr f) ↦ absurd (cc (rw (e, prepare_allocation, f) at h))
            ]
        | inr (inl (x, e)) ↦ absurd (cc (rw (e, prepare_allocation) at h))
        | inr (inr e) ↦ absurd (cc (rw (e, prepare_allocation) at h))
      ]

  -- If a claim is prepared, there is one device for each result of its allocation that is of this driver,
  -- in the order of the results, and there is at least one: it has the result's request, pool and
  -- bridge, the port's name for that request, the request's configuration, and the CDI ID of the claim,
  -- the bridge and the request.
  pub prepare_ok_lem :
      (claim : ResourceClaim) (w : W) (pds : List PreparedDevice)
      → (prepare_resource_claim b d (claim, w)).0 ≡ ok pds
      → ArePrepared claim pds
  unfolding prepare_resource_claim prepare_guarded
  prepare_ok_lem claim w pds h = elim (Option-cases claim.allocation) [
    | inl e ↦ absurd (cc (rw (e, prepare_resource_claim, prepare_guarded) at h))
    | inr (a, e) ↦
        let (configs, parsed, are, ne) = prepare_allocation-ok a claim w pds (one_consumer a e) in
        (a, configs, e, parsed, are, ne)
  ]
    where
      consumers_one :
          (a : Allocation) (consumers : List ConsumerReference)
          → (prepare_guarded b (some a) consumers d (claim, w)).0 ≡ ok pds
          → (prepare_allocation b d a (claim, w)).0 ≡ ok pds
      consumers_one a [] k = absurd (cc k)
      consumers_one a (pod ∷ []) k = k
      consumers_one a (pod ∷ _ ∷ _) k = absurd (cc k)

      one_consumer :
          (a : Allocation)
          → claim.allocation ≡ some a
          → (prepare_allocation b d a (claim, w)).0 ≡ ok pds
      one_consumer a e =
          consumers_one a claim.reserved_for
            (ap (λ x. (prepare_guarded b x claim.reserved_for d (claim, w)).0) (sym e) ∙ h)
