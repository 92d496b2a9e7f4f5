-- ===== src/Driver/Claims/Again.antt =====
-- Preparing claims that are prepared.
use dra_driver_ovsdpdk_upstr.Base.{
  String, ◌≡◌, refl, sym, ap, ◌∙◌, inl, inr, none, some, List, [], ◌∷◌, ok, Result-cases,
  Option-cases, ◌==◌, eq_iff, Bool-cases, eq_refl, subst,
}
use dra_driver_ovsdpdk_upstr.Base.Map
use dra_driver_ovsdpdk_upstr.Base.Map.{Map}
use dra_driver_ovsdpdk_upstr.Api.{PreparedDevice, ResourceClaim, backoff_steps}
use dra_driver_ovsdpdk_upstr.PodManager
use dra_driver_ovsdpdk_upstr.PodManager.{PodManager}
use dra_driver_ovsdpdk_upstr.PodManager.Laws.{get-set}
use dra_driver_ovsdpdk_upstr.Driver.Status.{ClaimsApi, update_claim_status}
use dra_driver_ovsdpdk_upstr.Driver.Claims.{
  DeviceStateIface, Driver, Prepared, PrepareResult, prepared_devices_to_result, prepare_claims,
  prepare_resource_claims,
}

-- What is cached stays cached.
Extends : PodManager → PodManager → Type 0
Extends before after =
    (uid : String) (devices : List PreparedDevice)
    → PodManager.get before uid ≡ some devices
    → PodManager.get after uid ≡ some devices

module _ {S : Type 0} (iface : DeviceStateIface S) (api : ClaimsApi S) where
  -- The answers for claims that are all cached, from the cache.
  Answers : PodManager → List ResourceClaim → Map PrepareResult → Map PrepareResult → Type 0
  Answers pods [] results final = final ≡ results
  Answers pods (claim ∷ claims) results final =
      (devices : List PreparedDevice) × (PodManager.get pods claim.uid ≡ some devices)
      × Answers pods claims (Map.put results claim.uid (prepared_devices_to_result devices)) final

  answered :
      (claims : List ResourceClaim) (results final : Map PrepareResult) (d : Driver S)
      → Answers d.pods claims results final
      → prepare_claims iface api claims results d
        ≡ (ok (record { results = final; error = none }), d)
  unfolding prepare_claims Answers
  answered [] results final d a = rw a refl
  answered (claim ∷ claims) results final d (devices, e, a) =
      rw (e, prepare_claims) (answered claims _ final d a)

  set-Extends :
      (pods : PodManager) (uid : String) (devices : List PreparedDevice)
      → PodManager.get pods uid ≡ none
      → Extends pods (PodManager.set pods uid devices)
  unfolding Extends
  set-Extends pods uid devices new q ds e =
      rw (get-set pods uid q devices) (elim (Bool-cases (uid == q)) [
        | inr other ↦ rw other e
        | inl same ↦
            absurd (cc (sym e ∙ ap (PodManager.get pods) (sym ((eq_iff uid q).0 same)) ∙ new))
      ])

  prepared-Answers :
      (claims : List ResourceClaim) (results : Map PrepareResult) (d : Driver S) (p : Prepared)
      → let r = prepare_claims iface api claims results d in
        r.0 ≡ ok p
        → p.error ≡ none
        → Extends d.pods r.1.pods × Answers r.1.pods claims results p.results
  unfolding prepare_claims Extends Answers
  prepared-Answers [] results d p h e = (λ uid ds c. c, cc h)
  prepared-Answers (claim ∷ claims) results d p h e =
      elim (Option-cases (PodManager.get d.pods claim.uid)) [
        | inr (ds, c) ↦
            let rest =
              prepare_claims iface api claims
                (Map.put results claim.uid (prepared_devices_to_result ds)) d in
            let step : prepare_claims iface api (claim ∷ claims) results d ≡ rest =
              rw (c, prepare_claims) refl in
            let (ext, later) = prepared-Answers claims _ d p (sym (ap (λ r. r.0) step) ∙ h) e in
            subst
              (λ r. Extends d.pods r.1.pods × Answers r.1.pods (claim ∷ claims) results p.results)
              (sym step) (ext, (ds, ext claim.uid ds c, later))
        | inl new ↦
            let (claim', s) = (iface.prepare_resource_claim (claim, d.state)).1 in
            elim (Result-cases (iface.prepare_resource_claim (claim, d.state)).0) [
              | inl (ds, f) ↦
                  let next : Driver S = record {
                    pods = PodManager.set d.pods claim.uid ds;
                    state = (update_claim_status api backoff_steps claim' s).1;
                  } in
                  let rest =
                    prepare_claims iface api claims
                      (Map.put results claim.uid (prepared_devices_to_result ds)) next in
                  let step : prepare_claims iface api (claim ∷ claims) results d ≡ rest =
                    rw (new, prepare_claims, f) refl in
                  let (ext, later) =
                    prepared-Answers claims _ next p (sym (ap (λ r. r.0) step) ∙ h) e in
                  let here : PodManager.get next.pods claim.uid ≡ some ds =
                    rw (get-set d.pods claim.uid claim.uid ds, eq_refl claim.uid) refl in
                  subst
                    (λ r.
                      Extends d.pods r.1.pods × Answers r.1.pods (claim ∷ claims) results p.results)
                    (sym step)
                    (
                      λ q x c. ext q x (set-Extends d.pods claim.uid ds new q x c),
                      (ds, ext claim.uid ds here, later),
                    )
              | inr (inl (x, f)) ↦ absurd (cc (e, rw (new, prepare_claims, f) at h))
              | inr (inr f) ↦ absurd (cc (rw (new, prepare_claims, f) at h))
            ]
      ]

  -- If all claims of a call are prepared, a second call for them gives the same results, prepares
  -- nothing and changes nothing.
  pub prepare_again :
      (claims : List ResourceClaim) (d d' : Driver S) (p : Prepared)
      → prepare_resource_claims iface api claims d ≡ (ok p, d')
      → p.error ≡ none
      → prepare_resource_claims iface api claims d' ≡ (ok p, d')
  unfolding prepare_resource_claims
  prepare_again claims d d' p h e =
      let (ext, answers) = prepared-Answers claims [] d p (ap (λ r. r.0) h) e in
      let again =
        answered claims [] p.results d'
          (subst (λ x. Answers x.pods claims [] p.results) (ap (λ r. r.1) h) answers) in
      again ∙ ap (λ x. (ok (record { results = p.results; error = x }), d')) (sym e)
