-- ===== src/DevicePlugin/InStep/Asked.antt =====
-- The resources that an update of the manager asks for.
use dra_driver_ovsdpdk_upstr.Base.{
  String, ◌≡◌, subst, inl, inr, List, [], ◌∷◌, ◌++◌, ok, Bool-cases, Option-cases, All, ◌==◌,
}
use dra_driver_ovsdpdk_upstr.Base.Map
use dra_driver_ovsdpdk_upstr.Base.Map.{Map, All-put}
use dra_driver_ovsdpdk_upstr.Api.{BridgeSpec}
use dra_driver_ovsdpdk_upstr.DevicePlugin.{Groups, resource_of, or_nil, add_bridge, group_bridges}
use dra_driver_ovsdpdk_upstr.DevicePlugin.Grouping.{fresh_groups}

module _ (Named : String → Type 0) where
  -- The groups and the topology hold resources of bridges only.
  abbrev pub AreNamed : Groups → Type 0
  AreNamed g = All (λ e. Named e.1) g.0 × All (λ e. Named e.0) g.1

  pub group_bridges-AreNamed :
      (bs : List BridgeSpec) (g g' : Groups)
      → All (λ b. Named (resource_of b)) bs
      → AreNamed g
      → group_bridges bs g ≡ ok g'
      → AreNamed g'
  unfolding group_bridges add_bridge
  group_bridges-AreNamed [] g g' named are h = subst AreNamed {x = g} {y = g'} (cc h) are
  group_bridges-AreNamed (b ∷ bs) g g' named are h = elim (Bool-cases (b.topology_resource == "")) [
    | inl blank ↦ group_bridges-AreNamed bs g g' named.1 are (rw (blank, group_bridges) at h)
    | inr asks ↦ elim (Option-cases (Map.get g.0 b.name)) [
      | inl e ↦
          group_bridges-AreNamed bs (fresh_groups b g) g' named.1
            (
              All-put _ g.0 b.name (resource_of b) are.0 named.0,
              All-put _ g.1 (resource_of b) (or_nil (Map.get g.1 (resource_of b)) ++ b.name ∷ [])
                  are.1 named.0,
            )
            (rw (asks, e, group_bridges, add_bridge) at h)
      | inr (existing, e) ↦ elim (Bool-cases (existing == resource_of b)) [
        | inl same ↦
            group_bridges-AreNamed bs g g' named.1 are
              (rw (asks, e, same, group_bridges, add_bridge) at h)
        | inr other ↦ absurd (cc (rw (asks, e, other, group_bridges, add_bridge) at h))
      ]
    ]
  ]
