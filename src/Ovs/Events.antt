-- ===== src/Ovs/Events.antt =====
-- What the events of interfaces do to the map of NUMA nodes, and what the device plugin manager makes
-- of it.
use dra_driver_ovsdpdk_upstr.Base.{
  ℕ, String, ◌≡◌, refl, ◌≢◌, ◌↔◌, inl, inr, ◌&&◌, Option, some, List, [], ◌∷◌, ℤ, pos, Exec,
  Result-cases, Bool-cases, Option-cases, All, if◌then◌else◌, ◌==◌, eq_iff, arith,
}
use dra_driver_ovsdpdk_upstr.Base.Map
use dra_driver_ovsdpdk_upstr.Base.Map.{Map, Keyed, Fresh, Keyed-put, get-put}
use dra_driver_ovsdpdk_upstr.DevicePlugin.{get_consistent_numa}
use dra_driver_ovsdpdk_upstr.DevicePlugin.Numa.{get_consistent_numa_iff}
use dra_driver_ovsdpdk_upstr.Ovs.Client.{OvsdbClient}
use dra_driver_ovsdpdk_upstr.Ovs.{
  NumaMap, Notifier, IfaceEvent, or_empty, set_node, with_ifaces, remove_iface, bridge_numa_nodes,
  located, handle_interface_add, handle_interface_delete, process_interface_events,
}
use dra_driver_ovsdpdk_upstr.Ovs.Numa.{node_of, bridge_numa_nodes_iff}

-- An interface that is added is on its bridge with its node, and all else is as before.
pub set_node_lem :
    (m : NumaMap) (bridge uuid : String) (node : ℤ) (c u : String)
    → node_of (set_node m bridge uuid node) c u
      ≡ (if bridge == c && uuid == u then some node else node_of m c u)
unfolding set_node
set_node_lem m bridge uuid node c u =
    let ifaces = or_empty (Map.get m bridge) in
    elim (Bool-cases (bridge == c)) [
      | inl same ↦
          rw (get-put m bridge (Map.put ifaces uuid node) c, same, get-put ifaces uuid node u)
            (ground (arith, same, eq_iff bridge c))
      | inr other ↦ rw (get-put m bridge (Map.put ifaces uuid node) c, other) refl
    ]

remove-Fresh : (uuid c : String) (m : NumaMap) → Fresh c m → Fresh c (remove_iface uuid m).1
unfolding remove_iface with_ifaces
remove-Fresh uuid c [] fresh = tt
remove-Fresh uuid c ((bridge, ifaces) ∷ rest) fresh = elim (Option-cases (Map.get ifaces uuid)) [
  | inl e ↦ rw (e, remove_iface) (fresh.0, remove-Fresh uuid c rest fresh.1)
  | inr (n, e) ↦ rw (e, remove_iface) (kept (Map.delete ifaces uuid))
]
  where
    kept : (left : Map ℤ) → Fresh c (with_ifaces bridge left rest)
    kept [] = fresh.1
    kept (i ∷ left) = fresh

remove-Keyed : (uuid : String) (m : NumaMap) → Keyed m → Keyed (remove_iface uuid m).1
unfolding remove_iface with_ifaces
remove-Keyed uuid [] keyed = tt
remove-Keyed uuid ((bridge, ifaces) ∷ rest) keyed = elim (Option-cases (Map.get ifaces uuid)) [
  | inl e ↦
      rw (e, remove_iface) (remove-Fresh uuid bridge rest keyed.0, remove-Keyed uuid rest keyed.1)
  | inr (n, e) ↦ rw (e, remove_iface) (kept (Map.delete ifaces uuid))
]
  where
    kept : (left : Map ℤ) → Keyed (with_ifaces bridge left rest)
    kept [] = keyed.1
    kept (i ∷ left) = keyed

module _ {S Op Res : Type 0} (client : OvsdbClient S Op Res) (notifier : Option (Notifier S))
    (numa : String → Exec S ℤ) where
  pub add-Keyed :
      (ev : IfaceEvent) (m : NumaMap) (s : S)
      → Keyed m
      → Keyed (handle_interface_add client notifier numa ev m s).0
  unfolding handle_interface_add set_node
  add-Keyed ev m s keyed = elim (Result-cases (located client notifier numa ev s).0) [
    | inl ((bridge, node), e) ↦
        rw (e, handle_interface_add)
          (Keyed-put m bridge (Map.put (or_empty (Map.get m bridge)) ev.uuid node) keyed)
    | inr (inl (x, e)) ↦ rw (e, handle_interface_add) keyed
    | inr (inr e) ↦ rw (e, handle_interface_add) keyed
  ]

  pub delete-Keyed :
      (ev : IfaceEvent) (m : NumaMap) (s : S)
      → Keyed m
      → Keyed (handle_interface_delete client notifier ev m s).0
  unfolding handle_interface_delete
  delete-Keyed ev m s keyed = elim (Bool-cases ((remove_iface ev.uuid m).0 == "")) [
    | inl e ↦ rw (e, handle_interface_delete) (remove-Keyed ev.uuid m keyed)
    | inr e ↦ rw (e, handle_interface_delete) (remove-Keyed ev.uuid m keyed)
  ]

  -- Whatever events come in whatever order, and whatever fails, each bridge stands once in the map.
  pub process_interface_events-Keyed :
      (evs : List IfaceEvent) (m : NumaMap) (s : S)
      → Keyed m
      → Keyed (process_interface_events client notifier numa evs m s).0
  unfolding process_interface_events
  process_interface_events-Keyed [] m s keyed = keyed
  process_interface_events-Keyed (ev ∷ evs) m s keyed = elim (Bool-cases ev.added) [
    | inl e ↦
        rw (e, process_interface_events)
          (process_interface_events-Keyed evs _ _ (add-Keyed ev m s keyed))
    | inr e ↦
        rw (e, process_interface_events)
          (process_interface_events-Keyed evs _ _ (delete-Keyed ev m s keyed))
  ]

-- A bridge has interfaces, and all of them are on the node `n`.
abbrev pub IsOn : NumaMap → ℕ → String → Type 0
IsOn m n bridge =
    (or_empty (Map.get m bridge) ≢ []) × All (λ e. e.1 ≡ pos n) (or_empty (Map.get m bridge))

All-iff {ℓ} :
    {A : Type ℓ} (P Q : A → Type 0) (xs : List A) → ((x : A) → P x ↔ Q x) → All P xs ↔ All Q xs
All-iff P Q [] same = (λ h. tt, λ h. tt)
All-iff P Q (x ∷ xs) same =
    let rest = All-iff P Q xs same in
    (λ h. ((same x).0 h.0, rest.0 h.1), λ h. ((same x).1 h.0, rest.1 h.1))

-- On the answers of the OVS client, `getConsistentNUMA` returns a node exactly if there are bridges,
-- each has DPDK interfaces, and all interfaces of all of them are on that node.
pub consistent_interfaces_iff :
    (m : NumaMap) (bridges : List String) (n : ℕ)
    → (get_consistent_numa (bridge_numa_nodes m) bridges ≡ pos n)
      ↔ ((bridges ≢ []) × All (IsOn m n) bridges)
consistent_interfaces_iff m bridges n =
    let agree = get_consistent_numa_iff (bridge_numa_nodes m) bridges n in
    let each =
      All-iff (λ b. bridge_numa_nodes m b ≡ pos n ∷ []) (IsOn m n) bridges
        (λ b. bridge_numa_nodes_iff m b (pos n)) in
    (λ h. ((agree.0 h).0, each.0 (agree.0 h).1), λ h. agree.1 (h.0, each.1 h.1))
