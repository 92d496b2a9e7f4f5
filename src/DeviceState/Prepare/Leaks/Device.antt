-- ===== src/DeviceState/Prepare/Leaks/Device.antt =====
-- What a device leaves behind, prepared or not.
use dra_driver_ovsdpdk_upstr.Base.{
  String, ◌≡◌, ◌⊎◌, inl, inr, Option, none, some, List, [], ◌∷◌, ◌++◌, Result, ok, err, panic,
  Result-cases, All, and_then, pure,
}
use dra_driver_ovsdpdk_upstr.Base.FilePath
use dra_driver_ovsdpdk_upstr.Api.{
  PreparedDevice, OvsPortParams, OvsPortConfig, VhostUserSpec, ResourceClaim, AllocationResult,
  ConsumerReference, vhost_socket_filename,
}
use dra_driver_ovsdpdk_upstr.Backend.{Backend}
use dra_driver_ovsdpdk_upstr.DeviceState.Policy.{DeviceState}
use dra_driver_ovsdpdk_upstr.DeviceState.Names.{get_socket_dir, ovs_port_name}
use dra_driver_ovsdpdk_upstr.DeviceState.Names.Distinct.{ovs_port_name-ne-err}
use dra_driver_ovsdpdk_upstr.DeviceState.Unprepare.Laws.{
  attempt_ok, attempt_err, attempt_panic, attempt_lem, NeverPanics,
}
use dra_driver_ovsdpdk_upstr.DeviceState.Prepare.{
  create_port_or_remove, prepare_port, prepare_with, prepare_for, prepare_device, prepared_device,
}
use dra_driver_ovsdpdk_upstr.DeviceState.Prepare.Params.{mtu_of, ovs_port_params}
use dra_driver_ovsdpdk_upstr.DeviceState.Prepare.View.{
  View, Tracks, Within, DirOf, PortOf, DirOf-append, PortOf-append, or_right,
}
use dra_driver_ovsdpdk_upstr.DeviceState.Prepare.Steps.{
  create_dir_ok, create_dir_err, create_port_ok, create_port_err, remove_dir,
}

module _ {W : Type 0} (b : Backend W) (v : View W) (t : Tracks b v) (safe : NeverPanics b)
    (start : W) where
  abbrev pub Holds : List PreparedDevice → W → Type 0
  Holds pds w = Within b v start (DirOf pds) (PortOf pds) w

  -- The claim's socket directories for a result of its allocation, and for several.
  abbrev pub HasDirs : ResourceClaim → AllocationResult → Type 0
  HasDirs claim r =
      All (λ pod. v.IsDir (get_socket_dir b.annotation pod.uid claim r.request)) claim.reserved_for

  abbrev pub HaveDirs : ResourceClaim → List AllocationResult → Type 0
  HaveDirs claim rs = All (HasDirs claim) rs

  -- After a device: with it on success, without it on an error.
  abbrev pub After : List PreparedDevice → Result PreparedDevice → W → Type 0
  After pds (ok pd) w = Holds (pds ++ pd ∷ []) w
  After pds (err e) w = Holds pds w
  After pds panic w = Unit

  Holds-append :
      (pds : List PreparedDevice) (pd : PreparedDevice) (w : W)
      → Within b v start
          (λ q. (pd.mount.host_dir ≡ q) ⊎ DirOf pds q)
          (λ br n. ((pd.bridge_name ≡ br) × (pd.ovs_port_name ≡ n)) ⊎ PortOf pds br n)
          w
      → Holds (pds ++ pd ∷ []) w
  Holds-append pds pd w h = record {
    dirs = λ q is has. or_right (DirOf-append pds pd q) (h.dirs q is has);
    ports = λ br n has. or_right (PortOf-append pds pd br n) (h.ports br n has);
  }

  -- The port after a directory that was made for it: on an error the directory goes too.
  abbrev AfterPort :
      (String → Type 0)
      → (String → String → Type 0)
      → String
      → String
      → String
      → Result (Unit {0})
      → W
      → Type 0
  AfterPort D P dir bridge port (ok _) w =
      Within b v start (λ q. (dir ≡ q) ⊎ D q) (λ br n. ((bridge ≡ br) × (port ≡ n)) ⊎ P br n) w
  AfterPort D P dir bridge port (err e) w = Within b v start D P w
  AfterPort D P dir bridge port panic w = Unit

  create_port_or_remove-After :
      (D : String → Type 0) (P : String → String → Type 0) (bridge port dir : String)
      (params : OvsPortParams) (w : W)
      → Within b v start (λ q. (dir ≡ q) ⊎ D q) P w
      → let s = create_port_or_remove b bridge port dir params w in
        AfterPort D P dir bridge port s.0 s.1
  unfolding create_port_or_remove
  create_port_or_remove-After D P bridge port dir params w h =
      let m = b.create_port bridge port (FilePath.join (dir ∷ vhost_socket_filename ∷ [])) params in
      elim (Result-cases (m w).0) [
        | inl (a, e) ↦
            rw (attempt_ok m w e)
              (create_port_ok b v t start (λ q. (dir ≡ q) ⊎ D q) P w bridge port _ params h)
        | inr (inl (x, e)) ↦
            rw
              (
                attempt_err m w e,
                attempt_lem (b.remove_socket_dir dir) (m w).1 (safe.remove_dir dir (m w).1),
              )
              (remove_dir b v t start D P (m w).1 dir
                (create_port_err b v t start (λ q. (dir ≡ q) ⊎ D q) P w bridge port _ params x e h))
        | inr (inr e) ↦ rw (attempt_panic m w e) tt
      ]

  made-After :
      (pds : List PreparedDevice) (pd : PreparedDevice) (r : Result (Unit {0})) (w : W)
      → AfterPort (DirOf pds) (PortOf pds) pd.mount.host_dir pd.bridge_name pd.ovs_port_name r w
      → let s = and_then r (λ _. pure pd) w in After pds s.0 s.1
  made-After pds pd (ok _) w h = Holds-append pds pd w h
  made-After pds pd (err e) w h = h
  made-After pds pd panic w h = tt

  module _ (d : DeviceState) (claim : ResourceClaim) (pod : ConsumerReference)
      (r : AllocationResult) (cfg : OvsPortConfig) (vhost : VhostUserSpec)
      (pds : List PreparedDevice) where
    prepare_port-After :
        (dir name : String) (w : W)
        → Within b v start (λ q. (dir ≡ q) ⊎ DirOf pds q) (PortOf pds) w
        → let s = prepare_port b d claim pod r cfg vhost dir name w in After pds s.0 s.1
    unfolding prepare_port prepared_device
    prepare_port-After dir name w h =
        let params = ovs_port_params claim pod.name cfg (mtu_of d r.device) in
        let (made, w') = create_port_or_remove b r.device name dir params w in
        made-After pds (prepared_device b claim r cfg vhost dir name params) made w'
          (create_port_or_remove-After (DirOf pds) (PortOf pds) r.device name dir params w h)

    prepare_with-After :
        (w : W)
        → v.IsDir (get_socket_dir b.annotation pod.uid claim r.request)
        → Holds pds w
        → let s = prepare_with b d claim pod r cfg vhost w in After pds s.0 s.1
    unfolding prepare_with
    prepare_with-After w is h =
        let dir = get_socket_dir b.annotation pod.uid claim r.request in
        let m = b.create_socket_dir dir d.vhost_user_config in
        elim (Result-cases (m w).0) [
          | inl (a, e) ↦ elim (Result-cases (ovs_port_name claim.uid r.request)) [
            | inl (name, e') ↦
                rw (e, e')
                  (prepare_port-After dir name (m w).1
                    (create_dir_ok b v t start (DirOf pds) (PortOf pds) w dir _ is h))
            | inr (inl (x, e')) ↦ absurd (ovs_port_name-ne-err claim.uid r.request x e')
            | inr (inr e') ↦ rw (e, e') tt
          ]
          | inr (inl (x, e)) ↦
              rw e (create_dir_err b v t start (DirOf pds) (PortOf pds) w dir _ x is e h)
          | inr (inr e) ↦ rw e tt
        ]

  pub prepare_device-After :
      (d : DeviceState) (claim : ResourceClaim) (r : AllocationResult) (cfg : OvsPortConfig)
      (pds : List PreparedDevice) (w : W)
      → HasDirs claim r
      → Holds pds w
      → let s = prepare_device b d claim r cfg w in After pds s.0 s.1
  unfolding prepare_device
  prepare_device-After d claim r cfg pds w dirs h =
      cases claim.reserved_for d.vhost_user_config dirs
    where
      cases :
          (consumers : List ConsumerReference) (config : Option VhostUserSpec)
          → All (λ pod. v.IsDir (get_socket_dir b.annotation pod.uid claim r.request)) consumers
          → let s = prepare_for b consumers config d claim r cfg w in After pds s.0 s.1
      cases [] config is = tt
      cases (pod ∷ _) none is = h
      cases (pod ∷ _) (some vhost) is = prepare_with-After d claim pod r cfg vhost pds w is.0 h
