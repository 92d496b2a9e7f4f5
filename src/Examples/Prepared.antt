-- ===== src/Examples/Prepared.antt =====
-- A claim that is prepared, asked for again, and its status sent, on concrete inputs.
use dra_driver_ovsdpdk_upstr.Base.{
  ℕ, suc, ◌≤◌, ◌≡◌, refl, true, none, List, [], ◌∷◌, map, ok, err, conflict,
}
use dra_driver_ovsdpdk_upstr.Base.Map
use dra_driver_ovsdpdk_upstr.Base.FilePath
use dra_driver_ovsdpdk_upstr.Api.{PreparedDevice, ResourceClaim, string_value, backoff_steps}
use dra_driver_ovsdpdk_upstr.Backend.{attempt}
use dra_driver_ovsdpdk_upstr.Cdi.{device_id}
use dra_driver_ovsdpdk_upstr.DeviceState.Config.{
  parse_claim_configs, validate_port_config, store, get_config,
}
use dra_driver_ovsdpdk_upstr.DeviceState.Names.{ovs_port_name, get_container_dir, get_socket_dir}
use dra_driver_ovsdpdk_upstr.DeviceState.Unprepare.{rollback}
use dra_driver_ovsdpdk_upstr.DeviceState.Prepare.{prepare_resource_claim, prepared_device}
use dra_driver_ovsdpdk_upstr.DeviceState.Prepare.Params.{ovs_port_params, device_metadata_attrs}
use dra_driver_ovsdpdk_upstr.DeviceState.Prepare.Success.Allocated.{ArePrepared, prepare_ok_lem}
use dra_driver_ovsdpdk_upstr.DeviceState.Prepare.Success.SpecIds.{HasIds, prepare_ok-HasIds}
use dra_driver_ovsdpdk_upstr.PodManager
use dra_driver_ovsdpdk_upstr.Driver.Status.{ClaimsApi, update_claim_status}
use dra_driver_ovsdpdk_upstr.Driver.Status.Attempts.{counting, update_claim_status_ends}
use dra_driver_ovsdpdk_upstr.Driver.Claims.{
  DeviceStateIface, Driver, Prepared, prepared_devices_to_result, prepare_resource_claims,
}
use dra_driver_ovsdpdk_upstr.Driver.Claims.Again.{prepare_again}
use dra_driver_ovsdpdk_upstr.Examples.Memory.{memory, claim, result, state, vlan_config, empty}

abbrev one_port : ResourceClaim
one_port = claim (result "net0" "br-a" ∷ [])

abbrev pds : List PreparedDevice
pds =
    record {
      device = record {
        requests = "net0" ∷ [];
        pool_name = "node-1";
        device_name = "br-a";
        cdi_device_ids =
            "ovsdpdk.k8snetworkplumbingwg.io/vhost-user=6ba7b810-9dad-11d1-br-a-net0" ∷ [];
        attributes = ("vhost-user-path", string_value "/var/run/ovsdpdk/dpdk/net0/vhost.sock") ∷ [];
      };
      claim = record { name = "dpdk"; namespace = "default"; uid = "6ba7b810-9dad-11d1" };
      bridge_name = "br-a";
      ovs_port_name = "6ba7b810-net0";
      mount = record {
        host_dir = "/var/run/ovsdpdk/pod-uid_dpdk_net0";
        container_dir = "/var/run/ovsdpdk/dpdk/net0";
      };
      socket = record {
        host_path = "/var/run/ovsdpdk/pod-uid_dpdk_net0/vhost.sock";
        container_path = "/var/run/ovsdpdk/dpdk/net0/vhost.sock";
      };
      port_config = vlan_config;
    }
    ∷ []

is_prepared : (prepare_resource_claim memory state (one_port, empty)).0 ≡ ok pds
unfolding prepare_resource_claim prepared_device ovs_port_params device_metadata_attrs
    parse_claim_configs validate_port_config store ovs_port_name attempt rollback get_config
    device_id get_container_dir get_socket_dir FilePath.join Map.put Map.get
is_prepared = refl

prepare_ok_lem_example : ArePrepared memory state one_port pds
prepare_ok_lem_example = prepare_ok_lem memory state one_port empty pds is_prepared

prepare_ok-HasIds_example : HasIds memory one_port.uid pds
prepare_ok-HasIds_example = prepare_ok-HasIds memory state one_port empty pds is_prepared

-- A device state that prepares one device, and counts its calls.
abbrev iface : DeviceStateIface ℕ
iface = record {
  prepare_resource_claim = λ s. (ok pds, (s.0, suc s.1));
  unprepare_resource_claim = λ devices s. (ok tt, s);
}

abbrev api : ClaimsApi ℕ
api = record {
  update_status = λ sent s. (err conflict, s);
  get = λ namespace name s. (ok one_port, s);
  is_conflict = λ e. true;
}

abbrev asked : List ResourceClaim
asked = one_port ∷ one_port ∷ []

abbrev driver : Driver ℕ
driver = record { pods = []; state = 0 }

-- The second claim of the list is answered from the cache.
abbrev after : Driver ℕ
after = record { pods = ("6ba7b810-9dad-11d1", pds) ∷ []; state = 1 }

abbrev answered : Prepared
answered = record {
  results =
      ("6ba7b810-9dad-11d1", record { devices = map (λ pd. pd.device) pds; error = none }) ∷ [];
  error = none;
}

prepares : prepare_resource_claims iface api asked driver ≡ (ok answered, after)
unfolding prepare_resource_claims prepared_devices_to_result update_claim_status PodManager.get
    PodManager.set Map.get Map.put
prepares = refl

prepare_again_example : prepare_resource_claims iface api asked after ≡ (ok answered, after)
prepare_again_example = prepare_again iface api asked driver after answered prepares refl

update_claim_status_ends_example :
    let s' =
      (update_claim_status
        (counting api)
        backoff_steps
        one_port
        (record { state = 0; updates = 0; reads = 0 })).1 in
    (s'.updates ≤ 5) × (s'.reads ≤ 5)
update_claim_status_ends_example = update_claim_status_ends api one_port 0
