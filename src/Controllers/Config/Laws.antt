-- ===== src/Controllers/Config/Laws.antt =====
-- What a reconciliation of the configuration changes.
use dra_driver_ovsdpdk_upstr.Base.{
  String, ◌≡◌, refl, ◌≢◌, ◌⊎◌, inl, inr, some, ok, Error, Result, Result-cases, Bool-cases,
  Option-cases, if◌then◌else◌, ◌==◌, eq_iff, arith,
}
use dra_driver_ovsdpdk_upstr.Api.{VhostUserSpec, default_container_root_path}
use dra_driver_ovsdpdk_upstr.Controllers.{Request, ReconcileResult, done}
use dra_driver_ovsdpdk_upstr.Controllers.Config.{ConfigReader, missing, with_config, reconcile}
use dra_driver_ovsdpdk_upstr.DeviceState.Policy.{DeviceState, update_config, update_config_spec}

abbrev pub rooted : VhostUserSpec → VhostUserSpec
rooted vhost_user = record vhost_user {
  container_root_path =
      if vhost_user.container_root_path == ""
      then default_container_root_path
      else vhost_user.container_root_path;
}

default-ne-empty : default_container_root_path ≢ ""
default-ne-empty e = cc

rooted-ne-empty : (v : VhostUserSpec) → (rooted v).container_root_path ≢ ""
rooted-ne-empty v e = elim (Bool-cases (v.container_root_path == "")) [
  | inl same ↦ absurd (default-ne-empty (rw same at e))
  | inr other ↦ ground (arith, e, other, eq_iff v.container_root_path "")
]

module _ {W : Type 0} (reader : ConfigReader W) (config_name : String) (request : Request)
    (d : DeviceState) (w : W) where
  -- The object has the name, it was read with the vhost-user part `v`, and that part is stored.
  abbrev pub Stored : VhostUserSpec → Result ReconcileResult → DeviceState → Type 0
  Stored v r d' =
      (request.name ≡ config_name)
      × ((reader.get_config config_name w).0 ≡ ok (record { vhost_user = some v }))
      × (r ≡ ok done)
      × (d' ≡ record d { vhost_user_config = some (rooted v) })
      × ((rooted v).container_root_path ≢ "")

  -- Nothing is stored; without an error only where the request is for another object.
  abbrev pub Kept : Result ReconcileResult → DeviceState → Type 0
  Kept r d' = (d' ≡ d) × (r ≡ ok done → request.name ≢ config_name)

  missing-Kept :
      (e : Error)
      → request.name ≡ config_name
      → (w' : W) → let s = missing reader e (reader.is_not_found e) (d, w') in Kept s.0 s.1.0
  unfolding missing update_config
  missing-Kept e same w' = elim (Bool-cases (reader.is_not_found e)) [
    | inl is ↦ rw (is, missing) (refl, λ h. cc h)
    | inr other ↦ rw (other, missing) (refl, λ h. cc h)
  ]

  -- A reconciliation either stores the vhost-user part of the object of the configured name, with the
  -- default for an empty root path, so that the path is not empty; or it keeps what was stored, and
  -- returns no error only where the request is for an object of another name.
  pub reconcile_lem :
      let s = reconcile reader config_name request (d, w) in
      ((v : VhostUserSpec) × Stored v s.0 s.1.0) ⊎ Kept s.0 s.1.0
  unfolding reconcile with_config update_config update_config_spec
  reconcile_lem = elim (Bool-cases (request.name == config_name)) [
    | inr other ↦
        rw (other, reconcile)
          (inr (refl, λ h e. ground (arith, other, e, eq_iff request.name config_name)))
    | inl same ↦
        let it : request.name ≡ config_name = (eq_iff request.name config_name).0 same in
        elim (Result-cases (reader.get_config config_name w).0) [
          | inl (spec, e) ↦ elim (Option-cases spec.vhost_user) [
            | inl n ↦ rw (same, reconcile, e, with_config, n, update_config) (inr (refl, λ h. cc h))
            | inr (v, n) ↦
                rw (same, reconcile, e, with_config, n, update_config)
                  (inl (v, (it, refl, refl, refl, rooted-ne-empty v)))
          ]
          | inr (inl (x, e)) ↦ rw (same, reconcile, e, with_config) (inr (missing-Kept x it _))
          | inr (inr e) ↦ rw (same, reconcile, e, with_config) (inr (refl, λ h. cc h))
        ]
  ]
