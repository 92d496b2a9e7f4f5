-- ===== src/DeviceState/Prepare/Success/SpecIds.antt =====
-- The devices of a claim's CDI spec, and those that the kubelet is told of.
use dra_driver_ovsdpdk_upstr.Base.{String, ◌≡◌, refl, sym, ap, ◌∙◌, List, [], ◌∷◌, map, ok}
use dra_driver_ovsdpdk_upstr.Api.{PreparedDevice, AllocationResult, ResourceClaim, driver_name}
use dra_driver_ovsdpdk_upstr.Backend.{Backend}
use dra_driver_ovsdpdk_upstr.Cdi.{
  CdiDevice, cdi_class, cdi_devices, cdi_device, local_name, device_id,
}
use dra_driver_ovsdpdk_upstr.DeviceState.Config.{ClaimPortConfigs}
use dra_driver_ovsdpdk_upstr.DeviceState.Policy.{DeviceState}
use dra_driver_ovsdpdk_upstr.DeviceState.Prepare.{prepare_resource_claim}
use dra_driver_ovsdpdk_upstr.DeviceState.Prepare.Success.{IsFor, AreFor, ours}
use dra_driver_ovsdpdk_upstr.DeviceState.Prepare.Success.Allocated.{prepare_ok_lem}

module _ {W : Type 0} (b : Backend W) where
  -- The ID under which a device of a spec is found.
  abbrev pub found_as : CdiDevice → List String
  found_as device = b.qualified_name driver_name cdi_class device.name ∷ []

  -- The spec's devices have the IDs that the kubelet is told, in order.
  abbrev pub HasIds : String → List PreparedDevice → Type 0
  HasIds uid pds =
      (devices : List CdiDevice) × (cdi_devices uid pds ≡ ok devices)
      × (map found_as devices ≡ map (λ pd. pd.device.cdi_device_ids) pds)

  cdi_device-IsFor :
      (configs : ClaimPortConfigs) (uid : String) (r : AllocationResult) (pd : PreparedDevice)
      → IsFor b configs uid r pd
      → (device : CdiDevice) × (cdi_device uid pd ≡ ok device)
        × (found_as device ≡ pd.device.cdi_device_ids)
  unfolding cdi_device device_id
  cdi_device-IsFor configs uid r pd is = (
    record {
      name = local_name uid pd.device.device_name r.request;
      mounts =
          record {
            host_path = pd.mount.host_dir;
            container_path = pd.mount.container_dir;
            options = "bind" ∷ "rw" ∷ [];
          }
          ∷ [];
    },
    rw (is.requests, cdi_device) refl,
    ap (λ x. b.qualified_name driver_name cdi_class (local_name uid x r.request) ∷ []) is.device
        ∙ sym is.ids,
  )

  AreFor-HasIds :
      (configs : ClaimPortConfigs) (uid : String) (rs : List AllocationResult)
      (pds : List PreparedDevice)
      → AreFor b configs uid rs pds
      → HasIds uid pds
  unfolding cdi_devices cdi_device device_id
  AreFor-HasIds configs uid [] [] are = ([], refl, refl)
  AreFor-HasIds configs uid [] (pd ∷ pds) are = absurd are
  AreFor-HasIds configs uid (r ∷ rs) [] are = absurd are
  AreFor-HasIds configs uid (r ∷ rs) (pd ∷ pds) (is, are) =
      let (devices, made, same) = AreFor-HasIds configs uid rs pds are in
      let (one, e, its) = cdi_device-IsFor configs uid r pd is in
      (
        one ∷ devices,
        rw (e, cdi_devices, made) refl,
        ap (λ x. x ∷ map found_as devices) its ∙ ap (λ l. pd.device.cdi_device_ids ∷ l) same,
      )

  -- If a claim is prepared, its CDI spec can be made, and has one device for each prepared device, in
  -- order: it is found under the ID that the kubelet is told for that device.
  pub prepare_ok-HasIds :
      (d : DeviceState) (claim : ResourceClaim) (w : W) (pds : List PreparedDevice)
      → (prepare_resource_claim b d (claim, w)).0 ≡ ok pds
      → HasIds claim.uid pds
  prepare_ok-HasIds d claim w pds h =
      let (a, configs, there, parsed, are, ne) = prepare_ok_lem b d claim w pds h in
      AreFor-HasIds configs claim.uid (ours b configs claim.uid a.results) pds are
