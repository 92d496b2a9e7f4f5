-- ===== src/DeviceState/Prepare.antt =====
-- `PrepareResourceClaim` and `prepareDevice` of pkg/devicestate/devicestate.go, with the status of a
-- claim. `UpdateConfig` does not run between the two
-- reads of the vhost-user configuration.
pub mod Params
pub mod View
pub mod Steps
pub mod Leaks
pub mod Success
use dra_driver_ovsdpdk_upstr.Base.{
  ℕ, String, Bool, true, false, Option, none, some, List, [], ◌∷◌, ◌++◌, ℤ, pos, ltb_ℤ, Result, ok,
  err, panic, Error, msg, wrap, Exec, pure, fail, lift, wrapping, concat, if◌then◌else◌, ◌==◌,
  ◌>>=◌, ◌>>◌,
}
use dra_driver_ovsdpdk_upstr.Base.Map
use dra_driver_ovsdpdk_upstr.Base.Map.{Map}
use dra_driver_ovsdpdk_upstr.Base.FilePath
use dra_driver_ovsdpdk_upstr.Api.{
  OvsPortConfig, OvsPolicing, OvsPortParams, VhostUserSpec, BridgeSpec, AllocationResult,
  Allocation, ConsumerReference, AllocatedDeviceStatus, ResourceClaim, DeviceAttribute,
  string_value, int_value, PreparedDevice, driver_name, vhost_socket_filename,
}
use dra_driver_ovsdpdk_upstr.Backend.{Backend, DeviceStatusData, attempt}
use dra_driver_ovsdpdk_upstr.Cdi.{device_id}
use dra_driver_ovsdpdk_upstr.DeviceState.Config.{ClaimPortConfigs, get_config, parse_claim_configs}
use dra_driver_ovsdpdk_upstr.DeviceState.Names.{
  get_pod_claim_name, get_container_dir, get_socket_dir, ovs_port_name,
}
use dra_driver_ovsdpdk_upstr.DeviceState.Policy.{DeviceState}
use dra_driver_ovsdpdk_upstr.DeviceState.Unprepare.{unprepare_device, rollback}
use dra_driver_ovsdpdk_upstr.DeviceState.Prepare.Params.{
  ovs_port_params, device_metadata_attrs, mtu_of,
}

module _ {W : Type 0} (b : Backend W) where
  unfoldable pub prepared_device :
      ResourceClaim
      → AllocationResult
      → OvsPortConfig
      → VhostUserSpec
      → String
      → String
      → OvsPortParams
      → PreparedDevice
  unfolding device_metadata_attrs
  prepared_device claim result port_config vhost_config socket_dir port_name params = record {
    device = record {
      requests = result.request ∷ [];
      pool_name = result.pool;
      device_name = result.device;
      cdi_device_ids = device_id b.qualified_name claim.uid result.device result.request ∷ [];
      attributes = device_metadata_attrs container_path params;
    };
    claim = record { name = claim.name; namespace = claim.namespace; uid = claim.uid };
    bridge_name = result.device;
    ovs_port_name = port_name;
    mount = record { host_dir = socket_dir; container_dir = container_dir };
    socket = record {
      host_path = FilePath.join (socket_dir ∷ vhost_socket_filename ∷ []);
      container_path = container_path;
    };
    port_config = port_config;
  }
    where
      container_dir : String
      container_dir =
          get_container_dir b.annotation vhost_config.container_root_path claim result.request

      container_path : String
      container_path = FilePath.join (container_dir ∷ vhost_socket_filename ∷ [])

  -- `if err := CreatePort(…); err != nil { _ = RemoveSocketDir(socketDir); return … }`
  create_port_or_remove : String → String → String → OvsPortParams → Exec W (Unit {0})
  create_port_or_remove bridge port socket_dir params = do
    failed ←
        attempt (
          b.create_port bridge port (FilePath.join (socket_dir ∷ vhost_socket_filename ∷ []))
            params)
    elim failed [
      | none ↦ pure tt
      | some e ↦ do
        removed ← attempt (b.remove_socket_dir socket_dir)
        fail (wrap "create OVS port %q on bridge %q: %w" e)
    ]

  -- From `CreatePort` on: the directory exists and the port has its name.
  prepare_port :
      DeviceState
      → ResourceClaim
      → ConsumerReference
      → AllocationResult
      → OvsPortConfig
      → VhostUserSpec
      → String
      → String
      → Exec W PreparedDevice
  unfolding create_port_or_remove mtu_of
  prepare_port d claim pod result port_config vhost_config socket_dir port_name = do
    let params = ovs_port_params claim pod.name port_config (mtu_of d result.device)
    create_port_or_remove result.device port_name socket_dir params
    pure (prepared_device claim result port_config vhost_config socket_dir port_name params)

  -- The claim has a consumer, `pod`: `PrepareResourceClaim` has seen to that.
  prepare_with :
      DeviceState
      → ResourceClaim
      → ConsumerReference
      → AllocationResult
      → OvsPortConfig
      → VhostUserSpec
      → Exec W PreparedDevice
  unfolding prepare_port
  prepare_with d claim pod result port_config vhost_config = do
    let socket_dir = get_socket_dir b.annotation pod.uid claim result.request
    wrapping "create socket directory %q: %w" (b.create_socket_dir socket_dir d.vhost_user_config)
    port_name ← lift (ovs_port_name claim.uid result.request)
    prepare_port d claim pod result port_config vhost_config socket_dir port_name

  -- `claim.Status.ReservedFor[0]` of no consumers is a run-time panic; then the configuration is read.
  prepare_for :
      List ConsumerReference
      → Option VhostUserSpec
      → DeviceState
      → ResourceClaim
      → AllocationResult
      → OvsPortConfig
      → Exec W PreparedDevice
  unfolding prepare_with
  prepare_for [] config d claim result port_config = lift panic
  prepare_for (pod ∷ _) none d claim result port_config =
      fail (msg "missing VhostUser configuration")
  prepare_for (pod ∷ _) (some vhost_config) d claim result port_config =
      prepare_with d claim pod result port_config vhost_config

  pub prepare_device :
      DeviceState → ResourceClaim → AllocationResult → OvsPortConfig → Exec W PreparedDevice
  unfolding prepare_for
  prepare_device d claim result port_config =
      prepare_for claim.reserved_for d.vhost_user_config d claim result port_config

  -- A claim whose status data cannot be encoded keeps its status.
  pub update_claim_status : ResourceClaim → AllocationResult → PreparedDevice → ResourceClaim
  update_claim_status claim result pd = elim (b.marshal status) [
    | some payload ↦ record claim {
      devices =
          claim.devices
          ++ (record {
            driver = result.driver;
            pool = result.pool;
            device = result.device;
            share_id = result.share_id;
            payload = payload;
          })
            ∷ [];
    }
    | none ↦ claim
  ]
    where
      status : DeviceStatusData
      status = record {
        mount = pd.mount;
        socket = pd.socket;
        bridge_name = pd.bridge_name;
        cdi_device_ids = pd.device.cdi_device_ids;
        config = pd.port_config;
      }

  -- A call that does not change the claim.
  abbrev on_world : {A : Type 0} → Exec W A → Exec (ResourceClaim × W) A
  on_world m (claim, w) = let (r, w') = m w in (r, (claim, w'))

  -- The loop over the allocation's results: those of other drivers are passed over, and the first
  -- failure takes back what has been prepared.
  prepare_loop :
      DeviceState
      → ClaimPortConfigs
      → List AllocationResult
      → List PreparedDevice
      → Exec (ResourceClaim × W) (List PreparedDevice)
  unfolding prepare_device update_claim_status
  prepare_loop d configs [] prepared s = (ok prepared, s)
  prepare_loop d configs (result ∷ results) prepared (claim, w) =
      elim (result.driver == driver_name) [
        | false ↦ prepare_loop d configs results prepared (claim, w)
        | true ↦
            let (r, w') = prepare_device d claim result (get_config configs result.request) w in
            elim r [
              | ok pd ↦
                  prepare_loop d configs results (prepared ++ pd ∷ [])
                    (update_claim_status claim result pd, w')
              | err e ↦
                  on_world (rollback b (msg "error preparing device: %v") prepared) (claim, w')
              | panic ↦ (panic, (claim, w'))
            ]
      ]

  -- Nothing prepared is an error; a CDI spec that cannot be written takes back all devices.
  finish : List PreparedDevice → Exec W (List PreparedDevice)
  finish [] = fail (msg "no allocation results for driver %s")
  finish (pd ∷ pds) = do
    failed ← attempt (b.create_claim_spec_file (pd ∷ pds))
    elim failed [
      | none ↦ pure (pd ∷ pds)
      | some e ↦ rollback b (msg "error creating CDI spec file: %v") (pd ∷ pds)
    ]

  prepare_allocation : DeviceState → Allocation → Exec (ResourceClaim × W) (List PreparedDevice)
  unfolding prepare_loop finish
  prepare_allocation d allocation = do
    configs ←
        wrapping "parse claim configs: %w"
          (lift (parse_claim_configs b.unmarshal allocation.config))
    prepared ← prepare_loop d configs allocation.results []
    on_world (finish prepared)

  -- The guards, on the claim's allocation and its consumers.
  prepare_guarded :
      Option Allocation
      → List ConsumerReference
      → DeviceState
      → Exec (ResourceClaim × W) (List PreparedDevice)
  unfolding prepare_allocation
  prepare_guarded none consumers d = fail (msg "claim %s/%s has no allocation")
  prepare_guarded (some allocation) [] d = fail (msg "claim %s/%s has no ReservedFor entry")
  prepare_guarded (some allocation) (pod ∷ []) d = prepare_allocation d allocation
  prepare_guarded (some allocation) (pod ∷ _ ∷ _) d =
      fail (msg "multiple pods found for claim %s/%s not supported")

  -- The claim comes back too: its status gains an entry for each device that was prepared, also
  -- where a later one fails.
  unfoldable pub prepare_resource_claim :
      DeviceState → Exec (ResourceClaim × W) (List PreparedDevice)
  unfolding prepare_guarded
  prepare_resource_claim d (claim, w) =
      prepare_guarded claim.allocation claim.reserved_for d (claim, w)
