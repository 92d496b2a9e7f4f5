-- ===== src/Ovs.antt =====
-- pkg/ovs/client.go and pkg/ovs/models.go: the NUMA nodes of the DPDK interfaces of each bridge, kept by
-- the interface events, and ports created and deleted by transactions. The lock of the map makes each
-- access one step, and events are handled one after the other. The OVSDB library is the record
-- OvsdbClient, with its operations and results as types of its own; what pkg/pci computes of an
-- interface is an argument.
pub mod Client
pub mod Numa
pub mod Events
pub mod Monitor
pub mod Connect
use dra_driver_ovsdpdk_upstr.Base.{
  String, Bool, true, false, ◌||◌, Option, none, some, List, [], ◌∷◌, ℤ, eq_ℤ, Exec, Result, ok,
  err, panic, if◌then◌else◌, ◌==◌,
}
use dra_driver_ovsdpdk_upstr.Base.Map
use dra_driver_ovsdpdk_upstr.Base.Map.{Map}
use dra_driver_ovsdpdk_upstr.Ovs.Client.{OvsdbClient, find_port_with_iface, find_bridge_with_port}

-- The node of each interface, by the interface's UUID, for each bridge.
abbrev pub NumaMap : Type 0
NumaMap = Map (Map ℤ)

pub record IfaceEvent : Type 0 where
  pub uuid : String
  pub name : String
  pub devargs : String
  pub added : Bool

-- A bridge that is not in the map has no interfaces: `make(map[string]int)`.
abbrev pub or_empty : Option (Map ℤ) → Map ℤ
or_empty none = []
or_empty (some ifaces) = ifaces

pub set_node : NumaMap → String → String → ℤ → NumaMap
set_node m bridge uuid node = Map.put m bridge (Map.put (or_empty (Map.get m bridge)) uuid node)

-- A bridge without interfaces leaves the map.
with_ifaces : String → Map ℤ → NumaMap → NumaMap
with_ifaces bridge [] rest = rest
with_ifaces bridge (i ∷ ifaces) rest = (bridge, i ∷ ifaces) ∷ rest

-- The bridge that had the interface, or "", and the map without it: the loop ends at the first one.
pub remove_iface : String → NumaMap → String × NumaMap
unfolding with_ifaces
remove_iface uuid [] = ("", [])
remove_iface uuid ((bridge, ifaces) ∷ rest) = elim (Map.get ifaces uuid) [
  | none ↦ let (found, rest') = remove_iface uuid rest in (found, (bridge, ifaces) ∷ rest')
  | some _ ↦ (bridge, with_ifaces bridge (Map.delete ifaces uuid) rest)
]

is_among : ℤ → List ℤ → Bool
is_among n [] = false
is_among n (m ∷ ms) = eq_ℤ m n || is_among n ms

pub nodes_loop : List ℤ → Map ℤ → List ℤ
unfolding is_among
nodes_loop seen [] = []
nodes_loop seen ((uuid, node) ∷ rest) =
    let dup = nodes_loop seen rest in
    let new = nodes_loop (node ∷ seen) rest in if is_among node seen then dup else node ∷ new

unfoldable pub bridge_numa_nodes : NumaMap → String → List ℤ
unfolding nodes_loop
bridge_numa_nodes m bridge = nodes_loop [] (or_empty (Map.get m bridge))

-- The notifier, if one is set, is called with the name of a bridge, after the map has changed.
abbrev pub Notifier : Type 0 → Type 0
Notifier S = NumaMap → String → S → S

notify : {S : Type 0} → Option (Notifier S) → NumaMap → String → S → S
notify none m bridge s = s
notify (some f) m bridge s = f m bridge s

module _ {S Op Res : Type 0} (client : OvsdbClient S Op Res) (notifier : Option (Notifier S)) where
  -- Whatever fails is logged and leaves the map as it is. `numa` is `ParseDevargs` and then
  -- `NodeForPCIAddr`.
  located : (String → Exec S ℤ) → IfaceEvent → Exec S (String × ℤ)
  unfolding find_port_with_iface find_bridge_with_port
  located numa ev s =
      let (node, s₁) = numa ev.devargs s in
      elim node [
        | err e ↦ (err e, s₁)
        | panic ↦ (panic, s₁)
        | ok n ↦
            let (port, s₂) = find_port_with_iface client ev.uuid s₁ in
            elim port [
              | err e ↦ (err e, s₂)
              | panic ↦ (panic, s₂)
              | ok p ↦
                  let (bridge, s₃) = find_bridge_with_port client p s₂ in
                  elim bridge [
                    | err e ↦ (err e, s₃)
                    | panic ↦ (panic, s₃)
                    | ok b ↦ (ok (b.name, n), s₃)
                  ]
            ]
      ]

  unfoldable pub handle_interface_add : (String → Exec S ℤ) → IfaceEvent → NumaMap → S → NumaMap × S
  unfolding located set_node notify
  handle_interface_add numa ev m s =
      let (place, s') = located numa ev s in
      elim place [
        | ok (bridge, node) ↦
            let m' = set_node m bridge ev.uuid node in (m', notify notifier m' bridge s')
        | err e ↦ (m, s')
        | panic ↦ (m, s')
      ]

  unfoldable pub handle_interface_delete : IfaceEvent → NumaMap → S → NumaMap × S
  unfolding remove_iface notify
  handle_interface_delete ev m s =
      let (found, m') = remove_iface ev.uuid m in
      elim (found == "") [ true ↦ (m', s) | false ↦ (m', notify notifier m' found s) ]

  -- The goroutine that reads the events of interfaces.
  unfoldable pub process_interface_events :
      (String → Exec S ℤ) → List IfaceEvent → NumaMap → S → NumaMap × S
  unfolding handle_interface_add handle_interface_delete
  process_interface_events numa [] m s = (m, s)
  process_interface_events numa (ev ∷ evs) m s = elim ev.added [
    | true ↦
        let (m', s') = handle_interface_add numa ev m s in process_interface_events numa evs m' s'
    | false ↦
        let (m', s') = handle_interface_delete ev m s in process_interface_events numa evs m' s'
  ]
