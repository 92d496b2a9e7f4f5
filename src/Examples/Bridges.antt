-- ===== src/Examples/Bridges.antt =====
-- Policies of bridges on a node, the configuration, and events of OVS, on concrete inputs.
use mathlib.Core.List.{Perm, reverse, reverse_perm}
use dra_driver_ovsdpdk_upstr.Base.{
  ℕ, suc, String, ◌≡◌, refl, subst, ◌⊎◌, ◌↔◌, inl, inr, Bool, true, false, ◌||◌, Option, none, some,
  List, [], ◌∷◌, map, ℤ, pos, ok, Exec, ◌==◌, wrap_result,
}
use dra_driver_ovsdpdk_upstr.Api.{BridgeSpec, VhostUserSpec, zero_user_group_id}
use dra_driver_ovsdpdk_upstr.Controllers.{Request}
use dra_driver_ovsdpdk_upstr.Controllers.Policy.{
  Cluster, NodeSelector, OvsDpdkResourcePolicy, System, hand_over, reconcile,
}
use dra_driver_ovsdpdk_upstr.Controllers.Policy.Active.{
  Matches, wanted_bridges, reconcile_hands_over,
}
use dra_driver_ovsdpdk_upstr.Controllers.Policy.Together.{Outcome, reconcile_together}
use dra_driver_ovsdpdk_upstr.Controllers.Config as config_controller
use dra_driver_ovsdpdk_upstr.Controllers.Config.{ConfigReader}
use dra_driver_ovsdpdk_upstr.Controllers.Config.Laws.{Stored, Kept, reconcile_lem}
use dra_driver_ovsdpdk_upstr.Controllers.Trigger.{
  Signal, policy_changed, bridge_changed, channel_read, run, flag_run, waiting, run_refines,
}
use dra_driver_ovsdpdk_upstr.DevicePlugin.{ServerApi}
use dra_driver_ovsdpdk_upstr.DeviceState.Policy.{
  Device, DeviceState, AllocatableDevices, RepublishCallback, bridge_to_device,
  update_policy_devices,
}
use dra_driver_ovsdpdk_upstr.DeviceState.Policy.Listed.{listed}
use dra_driver_ovsdpdk_upstr.Driver.Publish.{Helper, publish_resources}
use dra_driver_ovsdpdk_upstr.Driver.Publish.Offered.{one_slice, update_publishes}
use dra_driver_ovsdpdk_upstr.Ovs.Monitor.{bridge_added, bridge_deleted}

abbrev bridge : String → BridgeSpec
bridge name = record { name = name; topology_resource = "numa"; mtu = none }

abbrev bridges : List BridgeSpec
bridges = bridge "br-a" ∷ bridge "br-b" ∷ bridge "br-absent" ∷ []

-- A node is its name, and a term is the name that it asks for.
abbrev policy : String → List BridgeSpec → OvsDpdkResourcePolicy String
policy node bs = record {
  name = "policy";
  node_selector = some (record { node_selector_terms = node ∷ [] });
  bridges = bs;
}

abbrev policies : List (OvsDpdkResourcePolicy String)
policies = policy "node-1" bridges ∷ policy "node-2" (bridge "br-c" ∷ []) ∷ []

abbrev first_term : List String → Option String
first_term [] = none
first_term (t ∷ ts) = some t

-- The world counts published slices.
abbrev cluster : Cluster ℕ String String String
cluster = record {
  get_node = λ name w. (ok name, w);
  list_policies = λ namespace w. (ok policies, w);
  is_not_found = λ e. true;
  new_node_selector = λ ns. first_term ns.node_selector_terms;
  match_node = λ selector node. selector == node;
}

abbrev present : String → Bool
present name = name == "br-a" || name == "br-b"

abbrev bridge_exists : String → Exec ℕ Bool
bridge_exists name w = (ok (present name), w)

abbrev servers : ServerApi ℕ
servers = record { start = λ s w. (none, w); stop = λ s w. w; register = λ s w. (none, w) }

abbrev nodes : ℕ → String → List ℤ
nodes w name = pos 0 ∷ []

abbrev helper : Helper ℕ
helper = record {
  start = λ options w. (ok tt, w);
  publish_resources = λ resources w. (ok tt, suc w);
}

abbrev devices : DeviceState
devices = record { allocatable = []; vhost_user_config = none }

abbrev system : System ℕ
system = record { devices = devices; manager = record { topology = []; servers = [] }; world = 0 }

abbrev callback : Option (RepublishCallback ℕ)
callback = some (publish_resources helper (λ m. m) "node-1")

abbrev on_node : Option (NodeSelector String) → Bool
on_node none = true
on_node (some ns) = elim ns.node_selector_terms [ [] ↦ true | t ∷ _ ↦ t == "node-1" ]

on_node-Matches :
    (o : Option (NodeSelector String)) → (on_node o ≡ true) ↔ Matches cluster "node-1" o
on_node-Matches none = (λ h. tt, λ h. refl)
on_node-Matches (some ns) = terms ns.node_selector_terms
  where
    terms :
        (ts : List String)
        → ((elim ts [ [] ↦ true | t ∷ _ ↦ t == "node-1" ]) ≡ true) ↔ (
            (ts ≡ [])
            ⊎ ((selector : String) × (first_term ts ≡ some selector)
                × ((selector == "node-1") ≡ true)))
    terms [] = (λ h. inl refl, λ h. refl)
    terms (t ∷ ts) = (
      λ h. inr (t, refl, h),
      λ h. elim h [ inl f ↦ cc f | inr (x, f, g) ↦ subst (λ y. (y == "node-1") ≡ true) (cc f) g ],
    )

reconcile_hands_over_example :
    reconcile cluster bridge_exists servers nodes callback "node-1" "default" system
    ≡ hand_over cluster bridge_exists servers nodes callback
        (wanted_bridges cluster bridge_exists present (λ p. on_node p.node_selector) policies)
        system
reconcile_hands_over_example =
    reconcile_hands_over cluster bridge_exists present servers nodes callback "node-1" "default"
      system "node-1" policies 0 0 (λ p. on_node p.node_selector) (λ b w. refl)
      (λ p. on_node-Matches p.node_selector) refl refl

reconcile_together_example :
    let r = reconcile cluster bridge_exists servers nodes callback "node-1" "default" system in
    Outcome cluster bridge_exists servers nodes callback system r.0 r.1
reconcile_together_example =
    reconcile_together cluster bridge_exists servers nodes callback "node-1" "default" system

abbrev two : List BridgeSpec
two = bridge "br-a" ∷ bridge "br-b" ∷ []

abbrev backwards : AllocatableDevices → AllocatableDevices
backwards m = reverse m

update_publishes_example :
    (published : List Device) × Perm published (map (λ b. (bridge_to_device b).device) two)
    × (update_policy_devices (some (publish_resources helper backwards "node-1")) two (devices, 0)
        ≡ (
          wrap_result "republish callback: %w"
              (helper.publish_resources (one_slice "node-1" published) 0).0,
          (
            record devices { allocatable = listed two },
            (helper.publish_resources (one_slice "node-1" published) 0).1,
          ),
        ))
update_publishes_example =
    update_publishes helper backwards "node-1" two devices 0 (λ m. reverse_perm m)
      (((refl, tt), (tt, tt)), (tt, (tt, tt)))

abbrev vhost_user : VhostUserSpec
vhost_user = record {
  container_root_path = "";
  user = zero_user_group_id;
  group = zero_user_group_id;
  selinux_label = none;
  acl_users = [];
}

abbrev reader : ConfigReader ℕ
reader = record {
  get_config = λ name w. (ok (record { vhost_user = some vhost_user }), suc w);
  is_not_found = λ e. false;
}

abbrev request : Request
request = record { name = "default"; namespace = "" }

reconcile_lem_example :
    let s = config_controller.reconcile reader "default" request (devices, 0) in
    ((v : VhostUserSpec) × Stored reader "default" request devices 0 v s.0 s.1.0)
    ⊎ Kept reader "default" request devices 0 s.0 s.1.0
reconcile_lem_example = reconcile_lem reader "default" request devices 0

-- Two bridges come before the channel is read, and one after it.
abbrev signals : List Signal
signals =
    bridge_changed (record { name = "br-a"; event_type = bridge_added })
    ∷ bridge_changed (record { name = "br-b"; event_type = bridge_added })
    ∷ channel_read
    ∷ policy_changed "other"
    ∷ bridge_changed (record { name = "br-a"; event_type = bridge_deleted })
    ∷ []

run_refines_example : run "node-1" "default" signals (waiting "node-1" "default" false) ≡ (
  (flag_run "node-1" "default" signals false).0,
  waiting "node-1" "default" (flag_run "node-1" "default" signals false).1,
)
run_refines_example = run_refines "node-1" "default" signals false
