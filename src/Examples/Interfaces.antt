-- ===== src/Examples/Interfaces.antt =====
-- DPDK interfaces that come and go, on concrete inputs, with a database of one port on one bridge.
use dra_driver_ovsdpdk_upstr.Base.{
  ℕ, suc, String, ◌≡◌, ◌≢◌, ◌↔◌, none, List, [], ◌∷◌, ℤ, pos, ok, Exec, All, ◌++◌, map, take, arith,
}
use dra_driver_ovsdpdk_upstr.DevicePlugin.{get_consistent_numa}
use dra_driver_ovsdpdk_upstr.Ovs.Client.{OvsdbClient, Bridge, Port}
use dra_driver_ovsdpdk_upstr.Ovs.{NumaMap, bridge_numa_nodes}
use dra_driver_ovsdpdk_upstr.Ovs.Monitor.{CacheEvent, add_interface, OvsClient, report, run}
use dra_driver_ovsdpdk_upstr.Ovs.Monitor.Channel.{iface_events, burst-take}
use dra_driver_ovsdpdk_upstr.Pci.{parse_devargs}
use dra_driver_ovsdpdk_upstr.Pci.Address.{IsAddress, BeginsWith, parse_devargs_iff}
use dra_driver_ovsdpdk_upstr.Ovs.Events.{IsOn, consistent_interfaces_iff}

abbrev two_uplinks : NumaMap
two_uplinks = ("br-a", ("if-1", pos 0) ∷ ("if-2", pos 0) ∷ []) ∷ ("br-b", ("if-3", pos 1) ∷ []) ∷ []

abbrev asking : List String
asking = "br-a" ∷ "br-b" ∷ []

consistent_interfaces_iff_example :
    (get_consistent_numa (bridge_numa_nodes two_uplinks) asking ≡ pos 0)
    ↔ ((asking ≢ []) × All (IsOn two_uplinks 0) asking)
consistent_interfaces_iff_example = consistent_interfaces_iff two_uplinks asking 0

abbrev uplink : Port
uplink = record {
  uuid = "port-1";
  name = "dpdk0";
  tag = none;
  interfaces = "if-1" ∷ [];
  external_ids = [];
}

abbrev bridge : Bridge
bridge = record { uuid = "bridge-1"; name = "br-a"; ports = "port-1" ∷ [] }

-- The world counts transactions.
abbrev database : OvsdbClient ℕ (Unit {0}) (Unit {0})
database = record {
  create_interface = λ i. ok (tt ∷ []);
  create_port = λ p. ok (tt ∷ []);
  mutate_ports = λ b k ports. ok (tt ∷ []);
  select_port_named = λ n. ok (tt ∷ []);
  select_ports_with_iface = λ u. ok (tt ∷ []);
  transact = λ ops s. (ok (tt ∷ []), suc s);
  operation_errors = λ rs ops. none;
  select_results = λ ops rs. ok (uplink ∷ []);
  get_bridge = λ n s. (ok bridge, s);
  bridges_with_port = λ u s. (ok (bridge ∷ []), s);
}

abbrev numa : String → Exec ℕ ℤ
numa devargs s = (ok (pos 0), s)

-- Twenty uplinks appear before the first is handled: four are lost.
abbrev appears : String → CacheEvent
appears uuid = add_interface (record {
  uuid = uuid;
  name = "dpdk";
  iface_type = "dpdk";
  options = ("dpdk-devargs", "0000:01:00.0") ∷ [];
  ingress_policing_rate = pos 0;
  ingress_policing_burst = pos 0;
  mtu_request = none;
})

abbrev four : String → List CacheEvent
four first = appears first ∷ appears "if-b" ∷ appears "if-c" ∷ appears "if-d" ∷ []

abbrev twenty : List CacheEvent
twenty = four "if-1" ++ four "if-2" ++ four "if-3" ++ four "if-4" ++ four "if-5"

abbrev started : OvsClient
started = record { numa_map = []; iface_ch = [] }

burst-take_example :
    (run database none none numa (map report twenty) started 0).0.iface_ch
    ≡ take 16 (started.iface_ch ++ iface_events twenty)
burst-take_example = burst-take database none none numa twenty started 0 (omega arith)

parse_devargs_iff_example :
    (parse_devargs "0000:01:00.0,txq_inline=128" ≡ ok "0000:01:00.0")
    ↔ (IsAddress "0000:01:00.0" × BeginsWith "0000:01:00.0" "0000:01:00.0,txq_inline=128")
parse_devargs_iff_example = parse_devargs_iff "0000:01:00.0,txq_inline=128" "0000:01:00.0"
