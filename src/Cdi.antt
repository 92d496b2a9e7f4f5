-- ===== src/Cdi.antt =====
-- pkg/cdi/cdi.go: the CDI spec of a claim. The cache that writes and removes spec files, and the two
-- functions that build names, are of the CDI library and so parameters.
use dra_driver_ovsdpdk_upstr.Base.{
  String, List, [], ◌∷◌, Result, ok, panic, Exec, lift, wrapping, concat, ◌>>=◌,
}
use dra_driver_ovsdpdk_upstr.Base.Bind
use dra_driver_ovsdpdk_upstr.Api.{PreparedDevice, driver_name}

abbrev pub cdi_class : String
cdi_class = "vhost-user"

abbrev pub cdi_kind : String
cdi_kind = "ovsdpdk.k8snetworkplumbingwg.io/vhost-user"

pub record Mount : Type 0 where
  pub host_path : String
  pub container_path : String
  pub options : List String

pub record CdiDevice : Type 0 where
  pub name : String
  pub mounts : List Mount

pub record Spec : Type 0 where
  pub version : String
  pub kind : String
  pub devices : List CdiDevice

pub record CdiCache (W : Type 0) : Type 0 where
  pub qualified_name : String → String → String → String
  pub transient_spec_name : String → String → String → String
  pub write_spec : Spec → String → Exec W (Unit {0})
  pub remove_spec : String → Exec W (Unit {0})

unfoldable pub local_name : String → String → String → String
local_name claim_uid device request = concat (claim_uid ∷ "-" ∷ device ∷ "-" ∷ request ∷ [])

unfoldable pub device_id : (String → String → String → String) → String → String → String → String
unfolding local_name
device_id qualified_name claim_uid device request =
    qualified_name driver_name cdi_class (local_name claim_uid device request)

-- `requests[0]` of no requests is a run-time panic.
first_request : List String → Result String
first_request [] = panic
first_request (request ∷ _) = ok request

unfoldable pub cdi_device : String → PreparedDevice → Result CdiDevice
unfolding first_request local_name
cdi_device claim_uid pd = Bind.◌>>=◌ (first_request pd.device.requests) λ request. ok (record {
  name = local_name claim_uid pd.device.device_name request;
  mounts =
      (record {
        host_path = pd.mount.host_dir;
        container_path = pd.mount.container_dir;
        options = "bind" ∷ "rw" ∷ [];
      })
      ∷ [];
})

unfoldable pub cdi_devices : String → List PreparedDevice → Result (List CdiDevice)
unfolding cdi_device
cdi_devices claim_uid [] = ok []
cdi_devices claim_uid (pd ∷ pds) =
    Bind.◌>>=◌ (cdi_device claim_uid pd)
      λ device. Bind.◌>>=◌ (cdi_devices claim_uid pds) λ devices. ok (device ∷ devices)

module _ {W : Type 0} (cache : CdiCache W) where
  unfoldable pub create_claim_spec_file : List PreparedDevice → Exec W (Unit {0})
  unfolding cdi_devices
  create_claim_spec_file [] = lift panic
  create_claim_spec_file (pd ∷ pds) = do
    devices ← lift (cdi_devices pd.claim.uid (pd ∷ pds))
    wrapping "write CDI: %w" (
        cache.write_spec (record { version = "0.6.0"; kind = cdi_kind; devices = devices })
          (cache.transient_spec_name driver_name cdi_class pd.claim.uid))

  unfoldable pub delete_claim_spec_file : String → Exec W (Unit {0})
  delete_claim_spec_file claim_uid =
      wrapping "remove CDI spec for claim %s: %w"
        (cache.remove_spec (cache.transient_spec_name driver_name cdi_class claim_uid))
