-- ===== src/Driver/Claims/Released.antt =====
-- What `UnprepareResourceClaims` leaves in the cache.
use dra_driver_ovsdpdk_upstr.Base.{
  String, ◌≡◌, refl, sym, subst, ◌∙◌, ◌≢◌, inl, inr, Bool, false, Option, none, some, List, [], ◌∷◌,
  ◌||◌, ok, Error, Result-cases, Option-cases, Bool-cases, ◌==◌, eq_iff,
}
use dra_driver_ovsdpdk_upstr.Base.Map
use dra_driver_ovsdpdk_upstr.Base.Map.{Map, get-put, get-delete}
use dra_driver_ovsdpdk_upstr.Api.{PreparedDevice, NamespacedObject}
use dra_driver_ovsdpdk_upstr.PodManager
use dra_driver_ovsdpdk_upstr.PodManager.{PodManager}
use dra_driver_ovsdpdk_upstr.PodManager.Laws.{get-set, get-delete_rest, delete_lem}
use dra_driver_ovsdpdk_upstr.Driver.Status.{ClaimsApi}
use dra_driver_ovsdpdk_upstr.Driver.Claims.{
  DeviceStateIface, Driver, unprepare_claims, unprepare_resource_claims,
}

-- What the answer for a claim says of its entry in the cache: no answer, it is as before; no error, it
-- is gone; an error, it is as before, and there is one.
abbrev pub Agrees :
    Option (Option Error) → Option (List PreparedDevice) → Option (List PreparedDevice) → Type 0
Agrees none before after = after ≡ before
Agrees (some none) before after = after ≡ none
Agrees (some (some e)) before after = (after ≡ before) × (before ≢ none)

abbrev asked : String → List NamespacedObject → Bool
asked uid [] = false
asked uid (c ∷ cs) = c.uid == uid || asked uid cs

module _ {S : Type 0} (iface : DeviceStateIface S) (api : ClaimsApi S) where
  abbrev Consistent : PodManager → Map (Option Error) → PodManager → Type 0
  Consistent before results pods =
      (uid : String)
      → Agrees (Map.get results uid) (PodManager.get before uid) (PodManager.get pods uid)

  step_gone :
      (before : PodManager) (results : Map (Option Error)) (pods : PodManager) (uid : String)
      → Consistent before results pods
      → Consistent before (Map.put results uid none) (PodManager.delete pods uid).1
  step_gone before results pods uid c q =
      let gone = get-delete_rest pods uid q in
      let answer = get-put results uid none q in
      elim (Bool-cases (uid == q)) [
        | inl same ↦ rw (gone, answer, same) refl
        | inr other ↦ rw (gone, answer, other) (c q)
      ]

  -- An entry that is still there was there before.
  was_cached :
      (a : Option (Option Error)) (before after : Option (List PreparedDevice))
      (devices : List PreparedDevice)
      → Agrees a before after
      → after ≡ some devices
      → before ≡ some devices
  was_cached none before after devices h e = sym h ∙ e
  was_cached (some none) before after devices h e = cc
  was_cached (some (some x)) before after devices h e = sym h.0 ∙ e

  step_kept :
      (before : PodManager) (results : Map (Option Error)) (pods : PodManager) (uid : String)
      (devices : List PreparedDevice) (e : Error)
      → PodManager.get pods uid ≡ some devices
      → Consistent before results pods
      → Consistent before
          (Map.put results uid (some e))
          (PodManager.set (PodManager.delete pods uid).1 uid devices)
  step_kept before results pods uid devices e has c q =
      let kept = get-set (PodManager.delete pods uid).1 uid q devices in
      let gone = get-delete_rest pods uid q in
      let answer = get-put results uid (some e) q in
      elim (Bool-cases (uid == q)) [
        | inl same ↦
            let there : PodManager.get before q ≡ some devices =
              subst (λ u. PodManager.get before u ≡ some devices) ((eq_iff uid q).0 same)
                (was_cached (Map.get results uid) _ _ devices (c uid) has) in
            rw (kept, answer, same) (sym there, λ n. cc (n, there))
        | inr other ↦ rw (kept, gone, answer, other) (c q)
      ]

  loop-Consistent :
      (before : PodManager) (claims : List NamespacedObject) (results : Map (Option Error))
      (d : Driver S) (final : Map (Option Error))
      → Consistent before results d.pods
      → (unprepare_claims iface api claims results d).0 ≡ ok final
      → Consistent before final (unprepare_claims iface api claims results d).1.pods
  unfolding unprepare_claims
  loop-Consistent before [] results d final c h =
      subst (λ r. Consistent before r d.pods) {x = results} {y = final} (cc h) c
  loop-Consistent before (claim ∷ claims) results d final c h =
      let (found, rest) = delete_lem d.pods claim.uid claim.uid in
      elim (Option-cases (PodManager.delete d.pods claim.uid).0) [
        | inl e ↦
            rw (e, unprepare_claims)
              (loop-Consistent before claims _ _ final (step_gone before results d.pods claim.uid c)
                (rw (e, unprepare_claims) at h))
        | inr (devices, e) ↦
            elim (Result-cases (iface.unprepare_resource_claim devices d.state).0) [
              | inl (a, e') ↦
                  rw (e, e', unprepare_claims)
                    (loop-Consistent before claims _ _ final
                      (step_gone before results d.pods claim.uid c)
                      (rw (e, e', unprepare_claims) at h))
              | inr (inl (x, e')) ↦
                  rw (e, e', unprepare_claims)
                    (loop-Consistent before claims _ _ final
                      (step_kept before results d.pods claim.uid devices _ (sym found ∙ e) c)
                      (rw (e, e', unprepare_claims) at h))
              | inr (inr e') ↦ absurd (cc (rw (e, e', unprepare_claims) at h))
            ]
      ]

-- When `UnprepareResourceClaims` returns, a claim that has no answer is cached as before, a claim whose
-- answer is no error is not cached, and a claim whose answer is an error is still cached with the devices
-- that it had, so that a later call tries again.
pub unprepare-Agrees :
    {S : Type 0} (iface : DeviceStateIface S) (api : ClaimsApi S) (claims : List NamespacedObject)
    (d : Driver S) (results : Map (Option Error))
    → (unprepare_resource_claims iface api claims d).0 ≡ ok results
    → (uid : String)
    → Agrees
        (Map.get results uid)
        (PodManager.get d.pods uid)
        (PodManager.get (unprepare_resource_claims iface api claims d).1.pods uid)
unfolding unprepare_resource_claims
unprepare-Agrees iface api claims d results h =
    loop-Consistent iface api d.pods claims [] d results (unfold Map.get in λ uid. refl) h
