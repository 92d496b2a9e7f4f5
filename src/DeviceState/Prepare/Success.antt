-- ===== src/DeviceState/Prepare/Success.antt =====
-- What a claim is prepared as.
pub mod Allocated
pub mod SpecIds
use mathlib.Core.List.{append-nil, append_assoc}
use dra_driver_ovsdpdk_upstr.Base.{
  String, ◌≡◌, refl, sym, ap, subst, ◌∙◌, ◌≢◌, inl, inr, true, false, Bool, Option, none, some,
  List, [], ◌∷◌, ◌++◌, map, select, Result, ok, err, panic, Error, Exec, Result-cases, Option-cases,
  Bool-cases, ◌==◌, if◌then◌else◌,
}
use dra_driver_ovsdpdk_upstr.Base.Bind.{>>=-eq-ok}
use dra_driver_ovsdpdk_upstr.Api.{
  PreparedDevice, OvsPortConfig, OvsPortParams, VhostUserSpec, ResourceClaim, AllocationResult,
  Allocation, ConsumerReference, driver_name,
}
use dra_driver_ovsdpdk_upstr.Backend.{Backend, attempt, DeviceStatusData}
use dra_driver_ovsdpdk_upstr.Cdi.{device_id, CdiDevice, cdi_class, cdi_devices, local_name}
use dra_driver_ovsdpdk_upstr.DeviceState.Config.{ClaimPortConfigs, get_config, parse_claim_configs}
use dra_driver_ovsdpdk_upstr.DeviceState.Policy.{DeviceState}
use dra_driver_ovsdpdk_upstr.DeviceState.Names.{get_socket_dir, ovs_port_name}
use dra_driver_ovsdpdk_upstr.DeviceState.Unprepare.{rollback, unprepare_each}
use dra_driver_ovsdpdk_upstr.DeviceState.Unprepare.Laws.{attempt_ok, attempt_err, attempt_panic}
use dra_driver_ovsdpdk_upstr.DeviceState.Prepare.{
  create_port_or_remove, prepare_port, prepare_with, prepare_for, prepare_device,
  update_claim_status, prepare_loop, finish, prepare_allocation, prepare_guarded,
  prepare_resource_claim, prepared_device,
}
use dra_driver_ovsdpdk_upstr.DeviceState.Prepare.Params.{mtu_of, ovs_port_params}

module _ {W : Type 0} (b : Backend W) (configs : ClaimPortConfigs) (uid : String) where
  -- A device that is prepared for a result of the allocation.
  pub record IsFor (r : AllocationResult) (pd : PreparedDevice) : Type 0 where
    pub requests : pd.device.requests ≡ r.request ∷ []
    pub pool : pd.device.pool_name ≡ r.pool
    pub device : pd.device.device_name ≡ r.device
    pub bridge : pd.bridge_name ≡ r.device
    pub claim : pd.claim.uid ≡ uid
    pub ids : pd.device.cdi_device_ids ≡ device_id b.qualified_name uid r.device r.request ∷ []
    pub port : ovs_port_name uid r.request ≡ ok pd.ovs_port_name
    pub config : pd.port_config ≡ get_config configs r.request

  -- One device for each result, in order.
  abbrev pub AreFor : List AllocationResult → List PreparedDevice → Type 0
  AreFor [] [] = Unit
  AreFor [] (pd ∷ pds) = ⊥
  AreFor (r ∷ rs) [] = ⊥
  AreFor (r ∷ rs) (pd ∷ pds) = IsFor r pd × AreFor rs pds

  AreFor-append :
      (rs : List AllocationResult) (pds : List PreparedDevice) (r : AllocationResult)
      (pd : PreparedDevice)
      → AreFor rs pds
      → IsFor r pd
      → AreFor (rs ++ r ∷ []) (pds ++ pd ∷ [])
  AreFor-append [] [] r pd are is = (is, tt)
  AreFor-append [] (x ∷ pds) r pd are is = absurd are
  AreFor-append (y ∷ rs) [] r pd are is = absurd are
  AreFor-append (y ∷ rs) (x ∷ pds) r pd are is = (are.0, AreFor-append rs pds r pd are.1 is)

  prepared_device-IsFor :
      (claim : ResourceClaim) (r : AllocationResult) (vhost : VhostUserSpec) (dir name : String)
      (params : OvsPortParams)
      → claim.uid ≡ uid
      → ovs_port_name claim.uid r.request ≡ ok name
      → IsFor r (prepared_device b claim r (get_config configs r.request) vhost dir name params)
  unfolding prepared_device
  prepared_device-IsFor claim r vhost dir name params same named = record {
    requests = refl;
    pool = refl;
    device = refl;
    bridge = refl;
    claim = same;
    ids = ap (λ u. device_id b.qualified_name u r.device r.request ∷ []) same;
    port = ap (λ u. ovs_port_name u r.request) (sym same) ∙ named;
    config = refl;
  }

  module _ (d : DeviceState) (claim : ResourceClaim) (same : claim.uid ≡ uid)
      (r : AllocationResult) where
    prepare_port-IsFor :
        (pod : ConsumerReference) (vhost : VhostUserSpec) (dir name : String) (w : W)
        (pd : PreparedDevice)
        → ovs_port_name claim.uid r.request ≡ ok name
        → (prepare_port b d claim pod r (get_config configs r.request) vhost dir name w).0 ≡ ok pd
        → IsFor r pd
    unfolding prepare_port
    prepare_port-IsFor pod vhost dir name w pd named h =
        let params =
          ovs_port_params claim pod.name (get_config configs r.request) (mtu_of d r.device) in
        let it = prepared_device b claim r (get_config configs r.request) vhost dir name params in
        elim (Result-cases (create_port_or_remove b r.device name dir params w).0) [
          | inl (a, e) ↦
              let is : it ≡ pd = cc (rw (e, prepare_port) at h) in
              subst (IsFor r) is (prepared_device-IsFor claim r vhost dir name params same named)
          | inr (inl (x, e)) ↦ absurd (cc (rw (e, prepare_port) at h))
          | inr (inr e) ↦ absurd (cc (rw (e, prepare_port) at h))
        ]

    prepare_with-IsFor :
        (pod : ConsumerReference) (vhost : VhostUserSpec) (w : W) (pd : PreparedDevice)
        → (prepare_with b d claim pod r (get_config configs r.request) vhost w).0 ≡ ok pd
        → IsFor r pd
    unfolding prepare_with
    prepare_with-IsFor pod vhost w pd h =
        let dir = get_socket_dir b.annotation pod.uid claim r.request in
        let m = b.create_socket_dir dir d.vhost_user_config in
        elim (Result-cases (m w).0) [
          | inl (a, e) ↦ elim (Result-cases (ovs_port_name claim.uid r.request)) [
            | inl (name, named) ↦
                prepare_port-IsFor pod vhost dir name (m w).1 pd named
                  (rw (e, prepare_with, named) at h)
            | inr (inl (x, named)) ↦ absurd (cc (rw (e, prepare_with, named) at h))
            | inr (inr named) ↦ absurd (cc (rw (e, prepare_with, named) at h))
          ]
          | inr (inl (x, e)) ↦ absurd (cc (rw (e, prepare_with) at h))
          | inr (inr e) ↦ absurd (cc (rw (e, prepare_with) at h))
        ]

    prepare_for-IsFor :
        (consumers : List ConsumerReference) (config : Option VhostUserSpec) (w : W)
        (pd : PreparedDevice)
        → (prepare_for b consumers config d claim r (get_config configs r.request) w).0 ≡ ok pd
        → IsFor r pd
    unfolding prepare_for
    prepare_for-IsFor [] config w pd h = cc h
    prepare_for-IsFor (pod ∷ _) none w pd h = cc h
    prepare_for-IsFor (pod ∷ _) (some vhost) w pd h = prepare_with-IsFor pod vhost w pd h

  update_claim_status-uid :
      (claim : ResourceClaim) (r : AllocationResult) (pd : PreparedDevice)
      → (update_claim_status b claim r pd).uid ≡ claim.uid
  unfolding update_claim_status
  update_claim_status-uid claim r pd =
      let status : DeviceStatusData = record {
        mount = pd.mount;
        socket = pd.socket;
        bridge_name = pd.bridge_name;
        cdi_device_ids = pd.device.cdi_device_ids;
        config = pd.port_config;
      } in
      elim (Option-cases (b.marshal status)) [
        | inl e ↦ rw (e, update_claim_status) refl
        | inr (payload, e) ↦ rw (e, update_claim_status) refl
      ]

  -- A rollback is an error.
  rollback-ne-ok :
      (e : Error) (prepared : List PreparedDevice) (w : W) (pds : List PreparedDevice)
      → (rollback b {A = List PreparedDevice} e prepared w).0 ≢ ok pds
  unfolding rollback
  rollback-ne-ok e prepared w pds h =
      elim (Result-cases (unprepare_each b "rollback unprepare failed: %w" prepared w).0) [
        | inl (errs, f) ↦ cc (rw (f, rollback) at h)
        | inr (inl (x, f)) ↦ cc (rw (f, rollback) at h)
        | inr (inr f) ↦ cc (rw (f, rollback) at h)
      ]

  -- The results of this driver.
  abbrev pub ours : List AllocationResult → List AllocationResult
  ours rs = select (λ r. r.driver == driver_name) rs

  prepare_loop-AreFor :
      (d : DeviceState) (rs before : List AllocationResult) (prepared pds : List PreparedDevice)
      (claim : ResourceClaim) (w : W)
      → claim.uid ≡ uid
      → AreFor before prepared
      → (prepare_loop b d configs rs prepared (claim, w)).0 ≡ ok pds
      → AreFor (before ++ ours rs) pds
  unfolding prepare_loop prepare_device select
  prepare_loop-AreFor d [] before prepared pds claim w same are h =
      subst (λ l. AreFor l pds) (sym (append-nil before)) (subst (AreFor before) (cc h) are)
  prepare_loop-AreFor d (r ∷ rs) before prepared pds claim w same are h =
      elim (Bool-cases (r.driver == driver_name)) [
        | inr other ↦
            rw (other, select)
              (prepare_loop-AreFor d rs before prepared pds claim w same are
                (rw (other, prepare_loop) at h))
        | inl is ↦
            let m = prepare_device b d claim r (get_config configs r.request) in
            elim (Result-cases (m w).0) [
              | inl (pd, e) ↦
                  let one =
                    prepare_for-IsFor d claim same r claim.reserved_for d.vhost_user_config w pd
                      e in
                  let later =
                    prepare_loop-AreFor d rs (before ++ r ∷ []) (prepared ++ pd ∷ []) pds
                      (update_claim_status b claim r pd) (m w).1
                      (update_claim_status-uid claim r pd ∙ same)
                      (AreFor-append before prepared r pd are one)
                      (rw (is, e, prepare_loop) at h) in
                  rw (is, select)
                    (subst (λ l. AreFor l pds) (append_assoc before (r ∷ []) (ours rs)) later)
              | inr (inl (x, e)) ↦
                  absurd (rollback-ne-ok _ prepared (m w).1 pds (rw (is, e, prepare_loop) at h))
              | inr (inr e) ↦ absurd (cc (rw (is, e, prepare_loop) at h))
            ]
      ]

  -- What is written to the CDI spec is what was prepared, and at least one device.
  finish-ok :
      (prepared pds : List PreparedDevice) (w : W)
      → (finish b prepared w).0 ≡ ok pds
      → (prepared ≡ pds) × (pds ≢ [])
  unfolding finish
  finish-ok [] pds w h = cc h
  finish-ok (pd ∷ prepared) pds w h =
      let m = b.create_claim_spec_file (pd ∷ prepared) in
      elim (Result-cases (m w).0) [
        | inl (a, e) ↦
            let it : pd ∷ prepared ≡ pds = cc (rw (attempt_ok m w e) at h) in
            (it, λ none_left. cc (it ∙ none_left))
        | inr (inl (x, e)) ↦
            absurd (rollback-ne-ok _ (pd ∷ prepared) (m w).1 pds (rw (attempt_err m w e) at h))
        | inr (inr e) ↦ absurd (cc (rw (attempt_panic m w e) at h))
      ]
