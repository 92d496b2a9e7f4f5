-- ===== src/Driver/Status/Merge.antt =====
-- Whose entries a status update sends: what the driver owns as it was, and of the other drivers what
-- the API server last gave.
use Prim.Native.Nat.{zero, suc}
use dra_driver_ovsdpdk_upstr.Base.{
  ℕ, String, ◌≡◌, refl, sym, subst, ◌∙◌, Bool, true, false, not, List, [], ◌∷◌, ◌++◌, select, ok,
  Result-cases, Bool-cases, inl, inr, ◌==◌, arith,
}
use mathlib.Core.List.{append-nil}
use dra_driver_ovsdpdk_upstr.Api.{AllocatedDeviceStatus, ResourceClaim, driver_name}
use dra_driver_ovsdpdk_upstr.Driver.Status.{
  filter_devices_by_driver, merge_device_status, ClaimsApi, refreshed, after_error, round, rounds,
  update_claim_status,
}

-- The entries of the other drivers.
unfoldable pub of_others : List AllocatedDeviceStatus → String → List AllocatedDeviceStatus
unfolding select
of_others devices driver = select (λ d. not (d.driver == driver)) devices

select-append {ℓ} :
    {A : Type ℓ} (p : A → Bool) (xs ys : List A) → select p (xs ++ ys) ≡ select p xs ++ select p ys
unfolding select
select-append p [] ys = refl
select-append p (x ∷ xs) ys = ground (arith, select-append p xs ys)

select_twice {ℓ} : {A : Type ℓ} (p : A → Bool) (xs : List A) → select p (select p xs) ≡ select p xs
unfolding select
select_twice p [] = refl
select_twice p (x ∷ xs) = ground (arith, select_twice p xs)

select_disjoint {ℓ} :
    {A : Type ℓ} (p : A → Bool) (xs : List A)
    → (select p (select (λ x. not (p x)) xs) ≡ []) × (select (λ x. not (p x)) (select p xs) ≡ [])
unfolding select
select_disjoint p [] = (refl, refl)
select_disjoint p (x ∷ xs) =
    let ih = select_disjoint p xs in (ground (arith, ih.0), ground (arith, ih.1))

-- After a merge the driver has the entries that it owns, and every other driver those of the target,
-- in order.
pub merge_device_status_lem :
    (target claimed : List AllocatedDeviceStatus) (driver : String)
    → let owned = filter_devices_by_driver claimed driver in
      let merged = merge_device_status target owned driver in
      (filter_devices_by_driver merged driver ≡ owned)
      × (of_others merged driver ≡ of_others target driver)
unfolding filter_devices_by_driver merge_device_status of_others
merge_device_status_lem target claimed driver =
    let p : AllocatedDeviceStatus → Bool = λ d. d.driver == driver in
    let n : AllocatedDeviceStatus → Bool = λ d. not (p d) in
    (
      select-append p (select n target) (select p claimed)
          ∙ rw ((select_disjoint p target).0, select_twice p claimed),
      select-append n (select n target) (select p claimed)
          ∙ rw ((select_disjoint p claimed).1, select_twice n target) (append-nil _),
    )

module _ {S : Type 0} (api : ClaimsApi S) (Q : List AllocatedDeviceStatus → Type 0) where
  -- The claim has these entries of the driver, and entries of others that satisfy `Q`.
  abbrev Keeps : List AllocatedDeviceStatus → ResourceClaim → Type 0
  Keeps owned claim =
      (filter_devices_by_driver claim.devices driver_name ≡ owned)
      × Q (of_others claim.devices driver_name)

  abbrev pub Given : Type 0
  Given =
      (namespace name : String) (s : S) (fresh : ResourceClaim)
      → (api.get namespace name s).0 ≡ ok fresh
      → Q (of_others fresh.devices driver_name)

  module _ (claimed : List AllocatedDeviceStatus) (given : Given) where
    abbrev owned : List AllocatedDeviceStatus
    owned = filter_devices_by_driver claimed driver_name

    after_error-Keeps :
        (claim : ResourceClaim) (conflict : Bool) (s : S)
        → Keeps owned claim
        → Keeps owned (after_error api owned claim conflict s).0
    unfolding after_error refreshed
    after_error-Keeps claim false s k = k
    after_error-Keeps claim true s k =
        elim (Result-cases (api.get claim.namespace claim.name s).0) [
          | inl (fresh, e) ↦
              let (mine, others) = merge_device_status_lem fresh.devices claimed driver_name in
              rw e (mine, subst Q (sym others) (given claim.namespace claim.name s fresh e))
          | inr (inl (x, e)) ↦ rw e k
          | inr (inr e) ↦ rw e k
        ]

    round-Keeps :
        (claim : ResourceClaim) (s : S)
        → Keeps owned claim
        → Keeps owned (round api owned claim s).1.0
    unfolding round
    round-Keeps claim s k = elim (Result-cases (api.update_status claim s).0) [
      | inl (a, e) ↦ rw (e, round) k
      | inr (inl (x, e)) ↦ rw (e, round) (after_error-Keeps claim (api.is_conflict x) _ k)
      | inr (inr e) ↦ rw (e, round) k
    ]

    rounds-Keeps :
        (left : ℕ) (claim : ResourceClaim) (s : S)
        → Keeps owned claim
        → Keeps owned (rounds api left owned claim s).0
    unfolding rounds
    rounds-Keeps zero claim s k = k
    rounds-Keeps (suc left) claim s k =
        let next = round-Keeps claim s k in
        elim (Bool-cases (round api owned claim s).0) [
          | inl done ↦ rw (done, rounds) next
          | inr more ↦ rw (more, rounds) (rounds-Keeps left _ _ next)
        ]

-- However many rounds a status update takes, the claim that it last holds has the driver's own entries
-- as they were at the start; and the entries of other drivers satisfy each property `Q` that they
-- satisfy at the start and in every claim that the API server gives.
pub update_claim_status_keeps :
    {S : Type 0} (api : ClaimsApi S) (Q : List AllocatedDeviceStatus → Type 0)
    → Given api Q
    → (attempts : ℕ) (claim : ResourceClaim) (s : S) → Q (of_others claim.devices driver_name)
    → let sent = (update_claim_status api attempts claim s).0 in
      (filter_devices_by_driver sent.devices driver_name
        ≡ filter_devices_by_driver claim.devices driver_name)
      × Q (of_others sent.devices driver_name)
unfolding update_claim_status
update_claim_status_keeps api Q given attempts claim s q =
    rounds-Keeps api Q claim.devices given attempts claim s (refl, q)
