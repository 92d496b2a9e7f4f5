-- ===== src/Examples/Claims.antt =====
-- Claims prepared and cleaned up in memory, the cache, and status updates against an API server that
-- reports conflicts, on concrete inputs.
use dra_driver_ovsdpdk_upstr.Base.{
  String, ◌≡◌, refl, ◌↔◌, Bool, true, false, Option, none, some, List, [], ◌∷◌, Result, ok, err,
  conflict, Error, msg, join_error, subst, wrap,
}
use dra_driver_ovsdpdk_upstr.Base.Map
use dra_driver_ovsdpdk_upstr.Base.Map.{Map}
use dra_driver_ovsdpdk_upstr.Api.{
  PreparedDevice, ResourceClaim, AllocatedDeviceStatus, NamespacedObject, driver_name,
}
use dra_driver_ovsdpdk_upstr.Base.FilePath
use dra_driver_ovsdpdk_upstr.DeviceState.Names.{ovs_port_name}
use dra_driver_ovsdpdk_upstr.DeviceState.Unprepare.{unprepare_resource_claim}
use dra_driver_ovsdpdk_upstr.DeviceState.Unprepare.Laws.{
  without_devices, AreClean, unprepare_resource_claim_lem,
}
use dra_driver_ovsdpdk_upstr.DeviceState.Prepare.{prepare_resource_claim}
use dra_driver_ovsdpdk_upstr.PodManager
use dra_driver_ovsdpdk_upstr.PodManager.{PodManager}
use dra_driver_ovsdpdk_upstr.Driver.Status.{
  ClaimsApi, filter_devices_by_driver, update_claim_status,
}
use dra_driver_ovsdpdk_upstr.Driver.Status.Merge.{of_others, update_claim_status_keeps}
use dra_driver_ovsdpdk_upstr.Driver.Claims.{DeviceStateIface, Driver, unprepare_resource_claims}
use dra_driver_ovsdpdk_upstr.Driver.Claims.Released.{Agrees, unprepare-Agrees}
use dra_driver_ovsdpdk_upstr.Examples.Memory.{
  World, memory, memory-NeverPanics, claim, result, state, empty,
}

-- The second port cannot be created, so the first one is taken back.
abbrev half_broken : ResourceClaim
half_broken = claim (result "net0" "br-a" ∷ result "net1" "br-broken" ∷ [])

abbrev failed : Result (List PreparedDevice) × (ResourceClaim × World)
failed = prepare_resource_claim memory state (half_broken, empty)

abbrev failure_error : Error
failure_error = join_error (msg "error preparing device: %v") []

abbrev pd : PreparedDevice
pd = record {
  device = record {
    requests = "net0" ∷ [];
    pool_name = "node-1";
    device_name = "br-a";
    cdi_device_ids = [];
    attributes = [];
  };
  claim = record { name = "dpdk"; namespace = "default"; uid = "6ba7b810-9dad-11d1" };
  bridge_name = "br-a";
  ovs_port_name = "6ba7b810-net0";
  mount = record {
    host_dir = "/var/run/ovsdpdk/pod-uid_dpdk_net0";
    container_dir = "/var/run/ovsdpdk/dpdk/net0";
  };
  socket = record {
    host_path = "/var/run/ovsdpdk/pod-uid_dpdk_net0/vhost.sock";
    container_path = "/var/run/ovsdpdk/dpdk/net0/vhost.sock";
  };
  port_config = record { kind = ""; api_version = ""; vlan = none; policing = none };
}

unprepare_resource_claim_lem_example :
    ((unprepare_resource_claim memory (pd ∷ []) empty).1 ≡ without_devices memory (pd ∷ []) empty)
    × (((unprepare_resource_claim memory (pd ∷ []) empty).0 ≡ ok tt)
        ↔ AreClean memory memory-NeverPanics (pd ∷ []) empty)
unprepare_resource_claim_lem_example =
    unprepare_resource_claim_lem memory memory-NeverPanics (pd ∷ []) empty

abbrev cache : PodManager
cache = ("uid-1", pd ∷ []) ∷ []

abbrev entry : String → String → AllocatedDeviceStatus
entry driver payload = record {
  driver = driver;
  pool = "node-1";
  device = "br-a";
  share_id = none;
  payload = payload;
}

abbrev ours : List AllocatedDeviceStatus
ours = entry driver_name "new" ∷ []

abbrev theirs : List AllocatedDeviceStatus
theirs = entry "gpu.example.com" "gpu" ∷ entry driver_name "old" ∷ []

-- An API server with a newer version of the claim: the first update conflicts, the second is taken.
abbrev send : Bool → Result (Unit {0}) × Bool
send true = (err conflict, false)
send false = (ok tt, false)

abbrev newer : List AllocatedDeviceStatus → ResourceClaim
newer devices = record (claim []) { devices = devices }

abbrev api : ClaimsApi Bool
api = record {
  update_status = λ sent stale. send stale;
  get = λ namespace name stale. (ok (newer theirs), stale);
  is_conflict = λ e. true;
}

abbrev OneOther : List AllocatedDeviceStatus → Type 0
OneOther devices = devices ≡ entry "gpu.example.com" "gpu" ∷ []

sends : OneOther (of_others (newer theirs).devices driver_name)
unfolding of_others
sends = refl

update_claim_status_keeps_example :
    let sent = (update_claim_status api 5 (newer theirs) true).0 in
    (filter_devices_by_driver sent.devices driver_name
      ≡ filter_devices_by_driver theirs driver_name)
    × OneOther (of_others sent.devices driver_name)
update_claim_status_keeps_example =
    update_claim_status_keeps api OneOther
      (λ namespace name s fresh h.
        subst (λ c. OneOther (of_others c.devices driver_name)) {x = newer theirs} {y = fresh}
          (cc h) sends)
      5 (newer theirs) true sends

-- A state on which nothing can be cleaned up.
abbrev stuck : DeviceStateIface (Unit {0})
stuck = record {
  prepare_resource_claim = λ s. (ok [], s);
  unprepare_resource_claim = λ pds s. (err conflict, s);
}

abbrev driver : Driver (Unit {0})
driver = record { pods = cache; state = tt }

abbrev asked : List NamespacedObject
asked = record { name = "dpdk"; namespace = "default"; uid = "uid-1" } ∷ []

abbrev answers : Map (Option Error)
answers = ("uid-1", some (wrap "unprepare claim %s: %w" conflict)) ∷ []

abbrev idle : ClaimsApi (Unit {0})
idle = record {
  update_status = λ sent s. (ok tt, s);
  get = λ namespace name s. (ok (claim []), s);
  is_conflict = λ e. false;
}

is_stuck : (unprepare_resource_claims stuck idle asked driver).0 ≡ ok answers
unfolding unprepare_resource_claims PodManager.delete PodManager.set Map.get Map.put Map.delete
is_stuck = refl

unprepare-Agrees_example :
    Agrees
      (Map.get answers "uid-1")
      (PodManager.get cache "uid-1")
      (PodManager.get (unprepare_resource_claims stuck idle asked driver).1.pods "uid-1")
unprepare-Agrees_example = unprepare-Agrees stuck idle asked driver answers is_stuck "uid-1"
