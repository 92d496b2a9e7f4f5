-- ===== src/Ovs/Numa.antt =====
-- What the map of NUMA nodes says of a bridge, and what the removal of an interface changes.
use dra_driver_ovsdpdk_upstr.Base.{
  String, ◌≡◌, refl, sym, ap, ◌∙◌, ◌≢◌, ◌↔◌, ◌⊎◌, inl, inr, false, ◌&&◌, Option, none, [], ◌∷◌, ℤ,
  eq_ℤ_iff, All, Bool-cases, Option-cases, if◌then◌else◌, ◌==◌, eq_iff, arith,
}
use dra_driver_ovsdpdk_upstr.Base.Map
use dra_driver_ovsdpdk_upstr.Base.Map.{Map, Keyed, Fresh, get-Fresh, get-delete}
use dra_driver_ovsdpdk_upstr.Ovs.{
  NumaMap, or_empty, with_ifaces, remove_iface, is_among, nodes_loop, bridge_numa_nodes,
}

no_more : (n : ℤ) (m : Map ℤ) → (nodes_loop (n ∷ []) m ≡ []) ↔ All (λ e. e.1 ≡ n) m
unfolding nodes_loop is_among
no_more n [] = ground arith
no_more n ((uuid, k) ∷ rest) = ground (arith, eq_ℤ_iff n k, no_more n rest)

-- `BridgeNUMANodes` gives one node exactly if the bridge has interfaces and all of them are on it.
pub bridge_numa_nodes_iff :
    (m : NumaMap) (bridge : String) (n : ℤ)
    → let ifaces = or_empty (Map.get m bridge) in
      (bridge_numa_nodes m bridge ≡ n ∷ []) ↔ ((ifaces ≢ []) × All (λ e. e.1 ≡ n) ifaces)
unfolding bridge_numa_nodes
bridge_numa_nodes_iff m bridge n = of_ifaces (or_empty (Map.get m bridge))
  where
    of_ifaces :
        (ifaces : Map ℤ)
        → (nodes_loop [] ifaces ≡ n ∷ []) ↔ ((ifaces ≢ []) × All (λ e. e.1 ≡ n) ifaces)
    of_ifaces [] = ground arith
    of_ifaces ((uuid, k) ∷ rest) = ground (arith, no_more n rest, no_more k rest)

-- The node of an interface of a bridge.
abbrev pub node_of : NumaMap → String → String → Option ℤ
node_of m bridge uuid = Map.get (or_empty (Map.get m bridge)) uuid

with_ifaces_lem :
    (bridge : String) (ifaces : Map ℤ) (rest : NumaMap) (c : String)
    → Fresh bridge rest
    → or_empty (Map.get (with_ifaces bridge ifaces rest) c)
      ≡ (if bridge == c then ifaces else or_empty (Map.get rest c))
unfolding with_ifaces Map.get
with_ifaces_lem bridge [] rest c fresh =
    ground (arith, eq_iff bridge c, get-Fresh rest bridge fresh)
with_ifaces_lem bridge (i ∷ ifaces) rest c fresh = ground arith

-- Either the interface was nowhere, and the map is as before; or it was on the bridge that is found and
-- is gone from there, and all else is as before.
abbrev pub Removed : String → NumaMap → String → NumaMap → Type 0
Removed uuid m found m' =
    ((m' ≡ m) × (found ≡ "") × ((b : String) → node_of m b uuid ≡ none))
    ⊎ ((node_of m found uuid ≢ none)
        × ((b u : String)
            → node_of m' b u ≡ (if found == b && uuid == u then none else node_of m b u)))

cons-Removed :
    (uuid bridge found : String) (ifaces : Map ℤ) (rest rest' : NumaMap)
    → Map.get ifaces uuid ≡ none
    → Fresh bridge rest
    → Removed uuid rest found rest'
    → Removed uuid ((bridge, ifaces) ∷ rest) found ((bridge, ifaces) ∷ rest')
unfolding Map.get
cons-Removed uuid bridge found ifaces rest rest' e fresh (inl (same, none_found, nowhere)) =
    inl (ap (λ r. (bridge, ifaces) ∷ r) same, none_found, λ b. ground (arith, e, nowhere b))
cons-Removed uuid bridge found ifaces rest rest' e fresh (inr (there, others)) =
    let apart : (bridge == found) ≡ false = elim (Bool-cases (bridge == found)) [
      | inr other ↦ other
      | inl same ↦ absurd (
          there (
            ap (λ x. Map.get (or_empty x) uuid)
              (ap (Map.get rest) (sym ((eq_iff bridge found).0 same))
                ∙ get-Fresh rest bridge fresh)))
    ] in
    inr (
      λ h. there (rw apart at h),
      λ b u. elim (Bool-cases (bridge == b)) [
        | inl same ↦
            rw same
              (ground (arith, apart, same, eq_iff bridge b, eq_iff found b, eq_iff bridge found))
        | inr other ↦ rw other (others b u)
      ],
    )

-- If each bridge stands once in the map, `handleInterfaceDelete` finds an interface that is there, and
-- takes from the map that interface of that bridge and nothing else.
pub remove_iface-Removed :
    (uuid : String) (m : NumaMap)
    → Keyed m
    → Removed uuid m (remove_iface uuid m).0 (remove_iface uuid m).1
unfolding remove_iface Map.get
remove_iface-Removed uuid [] keyed = inl (refl, refl, λ b. refl)
remove_iface-Removed uuid ((bridge, ifaces) ∷ rest) keyed =
    elim (Option-cases (Map.get ifaces uuid)) [
      | inr (n, e) ↦
          rw (e, remove_iface)
            (inr (
              ground (arith, e, eq_iff bridge bridge),
              λ b u. elim (Bool-cases (bridge == b)) [
                | inl same ↦
                    rw (with_ifaces_lem bridge (Map.delete ifaces uuid) rest b keyed.0, same)
                      (ground (arith, get-delete ifaces uuid u))
                | inr other ↦
                    rw (with_ifaces_lem bridge (Map.delete ifaces uuid) rest b keyed.0, other) refl
              ],
            ))
      | inl e ↦
          rw (e, remove_iface)
            (cons-Removed uuid bridge _ ifaces rest _ e keyed.0
              (remove_iface-Removed uuid rest keyed.1))
    ]
