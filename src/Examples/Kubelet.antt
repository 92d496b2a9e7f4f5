-- ===== src/Examples/Kubelet.antt =====
-- Topology device plugins for two bridges, on concrete inputs.
use dra_driver_ovsdpdk_upstr.Base.{
  ℕ, suc, Bool-cases, ap, String, ◌≡◌, refl, ◌↔◌, ◌⊎◌, inl, inr, none, some, List, [], ◌∷◌, ℤ, pos,
  if◌then◌else◌, ◌==◌, eq_iff, arith, ok,
}
use dra_driver_ovsdpdk_upstr.Base.Map
use dra_driver_ovsdpdk_upstr.Api.{BridgeSpec}
use dra_driver_ovsdpdk_upstr.DevicePlugin.{
  ServerApi, Manager, new_server, update_resources, on_interface_change, bridges_of, Groups,
  group_bridges,
}
use dra_driver_ovsdpdk_upstr.DevicePlugin.Numa.{AgreeOn}
use dra_driver_ovsdpdk_upstr.DevicePlugin.Conflicts.{AreCompatible, group_bridges_iff}
use dra_driver_ovsdpdk_upstr.DevicePlugin.Ensure.{AreMade}
use dra_driver_ovsdpdk_upstr.DevicePlugin.Sync.{Serves, Reconciled, Rejected, update_resources_lem}
use dra_driver_ovsdpdk_upstr.DevicePlugin.Change.{InSync, StartFailed, on_interface_change_lem}

-- The world counts the servers that were started.
abbrev api : ServerApi ℕ
api = record { start = λ s w. (none, suc w); stop = λ s w. w; register = λ s w. (none, w) }

abbrev nodes : String → List ℤ
nodes b = if b == "br-a" then pos 0 ∷ [] else if b == "br-b" then pos 0 ∷ [] else []

abbrev nodes' : String → List ℤ
nodes' b = if b == "br-a" then pos 1 ∷ [] else nodes b

abbrev bridges : List BridgeSpec
bridges =
    record { name = "br-a"; topology_resource = "numa"; mtu = none }
    ∷ record { name = "br-b"; topology_resource = "numa"; mtu = none }
    ∷ []

-- One bridge twice, with and without a resource, and another one.
abbrev twice : List BridgeSpec
twice = record { name = "br-a"; topology_resource = ""; mtu = none } ∷ bridges

group_bridges_iff_example :
    ((g : Groups) × (group_bridges twice ([], []) ≡ ok g)) ↔ AreCompatible twice
group_bridges_iff_example = group_bridges_iff twice

abbrev idle : Manager
idle = record { topology = []; servers = [] }

idle-AreMade : AreMade idle.servers
unfolding Map.get
idle-AreMade r s h = absurd (cc h)

update_resources_lem_example :
    let r = update_resources api nodes bridges idle 0 in
    Reconciled api nodes idle 0 idle-AreMade bridges r.0 r.1.0
    ⊎ Rejected api nodes idle 0 idle-AreMade bridges r.0 r.1.0 r.1.1
update_resources_lem_example = update_resources_lem api nodes idle 0 idle-AreMade bridges

-- Both bridges have node 0, and the server of their resource runs.
abbrev running : Manager
running = record {
  topology = ("br-a", "numa") ∷ ("br-b", "numa") ∷ [];
  servers = ("numa", new_server "numa" 0) ∷ [];
}

both-AgreeOn : AgreeOn nodes ("br-a" ∷ "br-b" ∷ []) 0
both-AgreeOn = (λ h. cc h, (refl, (refl, tt)))

running-InSync : InSync nodes running
unfolding bridges_of Map.get
running-InSync r = elim (Bool-cases ("numa" == r)) [
  | inl e ↦ rw e (inl (0, both-AgreeOn, ap (λ x. some (new_server x 0)) ((eq_iff "numa" r).0 e)))
  | inr e ↦ rw e (inr (λ n a. a.0 refl, refl))
]

on_interface_change_lem_example :
    let (m', w') = on_interface_change api nodes' "br-a" running 1 in
    (m'.topology ≡ running.topology)
    × ((r : String)
        → Serves nodes' (bridges_of running.topology r) r (Map.get m'.servers r)
          ⊎ ((Map.get running.topology "br-a" ≡ some r)
              × (Map.get m'.servers r ≡ none)
              × StartFailed api nodes'
                  (bridges_of running.topology r)
                  r
                  (Map.get running.servers r)
                  1
                  w'))
on_interface_change_lem_example =
    on_interface_change_lem api nodes nodes' "br-a" running 1
      (λ c ne. ground (arith, ne, eq_iff c "br-a")) (((refl, tt), (tt, tt))) running-InSync
