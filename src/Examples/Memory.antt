-- ===== src/Examples/Memory.antt =====
-- A backend in memory: a world of directories and ports, on which ports cannot be created on the bridge
-- "br-broken", with a claim and a state of the driver to run on it.
use dra_driver_ovsdpdk_upstr.Base.{
  String, ◌≡◌, refl, ◌⊎◌, inl, inr, Bool-cases, true, Bool, false, ◌||◌, ◌&&◌, none, some, List, [],
  ◌∷◌, pos, Result, ok, err, msg, external, Exec, if◌then◌else◌, ◌==◌, eq_iff, concat, arith,
  err_port_not_found,
}
use dra_driver_ovsdpdk_upstr.Api.{
  OvsPortConfig, OvsPortParams, zero_user_group_id, ResourceClaim, AllocationResult,
  DeviceAllocationConfiguration, from_claim, driver_name, api_version, kind_ovs_port_config,
}
use dra_driver_ovsdpdk_upstr.Backend.{Backend}
use dra_driver_ovsdpdk_upstr.DeviceState.Policy.{DeviceState}
use dra_driver_ovsdpdk_upstr.DeviceState.Unprepare.Laws.{NeverPanics}
use dra_driver_ovsdpdk_upstr.DeviceState.Prepare.View.{View, Tracks, DirCanStay}

pub record World : Type 0 where
  pub dirs : String → Bool
  pub ports : String → String → Bool

abbrev pub empty : World
empty = record { dirs = λ q. false; ports = λ br n. false }

abbrev pub view : View World
view = record { IsDir = λ q. Unit {0}; has_dir = λ w. w.dirs; has_port = λ w. w.ports }

abbrev add_dir : String → World → World
add_dir p w = record w { dirs = λ q. p == q || w.dirs q }

abbrev drop_dir : String → World → World
drop_dir p w = record w { dirs = λ q. if p == q then false else w.dirs q }

abbrev same_port : String → String → String → String → Bool
same_port bridge port br n = bridge == br && port == n

abbrev add_port : String → String → World → World
add_port bridge port w = record w { ports = λ br n. same_port bridge port br n || w.ports br n }

abbrev drop_port : String → String → World → World
drop_port bridge port w = record w {
  ports = λ br n. if same_port bridge port br n then false else w.ports br n;
}

abbrev pub vlan_config : OvsPortConfig
vlan_config = record {
  kind = kind_ovs_port_config;
  api_version = api_version;
  vlan = some (pos 100);
  policing = none;
}

abbrev pub unmarshal : String → Result OvsPortConfig
unmarshal text = if text == "vlan 100" then ok vlan_config else err (external "invalid character")

abbrev create_port : String → String → String → OvsPortParams → Exec World (Unit {0})
create_port bridge port socket params w =
    if bridge == "br-broken"
    then (err (msg "bridge not found"), w)
    else (ok tt, add_port bridge port w)

abbrev pub memory : Backend World
memory = record {
  annotation = "resource.kubernetes.io/pod-claim-name";
  qualified_name = λ vendor class name. concat (vendor ∷ "/" ∷ class ∷ "=" ∷ name ∷ []);
  unmarshal = unmarshal;
  marshal = λ status. some status.bridge_name;
  create_socket_dir = λ p spec w. (ok tt, add_dir p w);
  remove_socket_dir = λ p w. (ok tt, drop_dir p w);
  create_port = create_port;
  delete_port = λ bridge port w.
      (if w.ports bridge port then ok tt else err err_port_not_found, drop_port bridge port w);
  create_claim_spec_file = λ pds w. (ok tt, w);
  delete_claim_spec_file = λ uid w. (ok tt, w);
}

created :
    (p q : String) (w : World)
    → (p == q || w.dirs q) ≡ true
    → (w.dirs q ≡ true) ⊎ ((p ≡ q) × ((false ≡ false) ⊎ DirCanStay memory p))
created p q w h = elim (Bool-cases (p == q)) [
  | inl same ↦ inr ((eq_iff p q).0 same, inl refl)
  | inr other ↦ inl (ground (arith, other, h))
]

pub memory-Tracks : Tracks memory view
memory-Tracks = record {
  create_dir = λ p spec w q dir is h. created p q w h;
  create_dir-port = λ p spec w br n. refl;
  remove_dir_gone = λ p w done. ground (arith, eq_iff p p);
  remove_dir = λ p w q h. ground arith;
  remove_dir-port = λ p w br n. refl;
  create_port =
      λ bridge port socket params w br n h. ground (arith, eq_iff bridge br, eq_iff port n);
  create_port-dir = λ bridge port socket params w q. ground arith;
  delete_port_gone = λ bridge port w done. ground (arith, eq_iff bridge bridge, eq_iff port port);
  delete_port = λ bridge port w br n h. ground arith;
  delete_port-dir = λ bridge port w q. refl;
  create_spec-dir = λ pds w q. refl;
  create_spec-port = λ pds w br n. refl;
  delete_spec-dir = λ uid w q. refl;
  delete_spec-port = λ uid w br n. refl;
}

pub memory-NeverPanics : NeverPanics memory
memory-NeverPanics = record {
  remove_dir = λ path w h. cc h;
  delete_port = λ bridge port w h. ground arith;
  delete_spec = λ uid w h. cc h;
}

abbrev pub driver_entry : DeviceAllocationConfiguration
driver_entry = record {
  source = from_claim;
  requests = "net0" ∷ [];
  opaque = some (record { driver = driver_name; parameters = "vlan 100" });
}

abbrev pub result : String → String → AllocationResult
result request bridge = record {
  request = request;
  driver = driver_name;
  pool = "node-1";
  device = bridge;
  share_id = none;
}

abbrev pub claim : List AllocationResult → ResourceClaim
claim results = record {
  name = "dpdk";
  namespace = "default";
  uid = "6ba7b810-9dad-11d1";
  annotations = [];
  allocation = some (record { results = results; config = driver_entry ∷ [] });
  reserved_for = record { name = "pod-a"; uid = "pod-uid" } ∷ [];
  devices = [];
}

abbrev pub state : DeviceState
state = record {
  allocatable = [];
  vhost_user_config = some (record {
    container_root_path = "/var/run/ovsdpdk";
    user = zero_user_group_id;
    group = zero_user_group_id;
    selinux_label = none;
    acl_users = [];
  });
}
