-- ===== src/DevicePlugin/Distinct.antt =====
-- The resources of bridges of different names.
use dra_driver_ovsdpdk_upstr.Base.{
  ℤ, String, ◌≡◌, refl, ◌∙◌, inl, inr, Option, none, some, List, [], ◌∷◌, ok, Bool-cases, All,
  if◌then◌else◌, ◌==◌, eq_iff, true, false, subst,
}
use dra_driver_ovsdpdk_upstr.Base.Map
use dra_driver_ovsdpdk_upstr.Base.Map.{Map, get-put}
use dra_driver_ovsdpdk_upstr.Api.{BridgeSpec}
use dra_driver_ovsdpdk_upstr.DevicePlugin.{
  ServerApi, Manager, resource_of, Groups, add_bridge, group_bridges, update_resources, reconcile,
}
use dra_driver_ovsdpdk_upstr.DevicePlugin.Grouping.{fresh_groups}
use dra_driver_ovsdpdk_upstr.DeviceState.Policy.Laws.{AreDistinct, find_bridge, absent}

-- The resource that a bridge has in the topology.
abbrev pub topology_of : Option BridgeSpec → Option String
topology_of none = none
topology_of (some b) = if b.topology_resource == "" then none else some (resource_of b)

abbrev pub or_else : Option String → Option String → Option String
or_else (some r) before = some r
or_else none before = before

abbrev pub Grouped : List BridgeSpec → Groups → Groups → Type 0
Grouped bs g g' =
    (name : String)
    → Map.get g'.0 name ≡ or_else (topology_of (find_bridge name bs)) (Map.get g.0 name)

abbrev New : Map String → List BridgeSpec → Type 0
New topology bs = All (λ b. Map.get topology b.name ≡ none) bs

still-New :
    (b : BridgeSpec) (topology : Map String) (bs : List BridgeSpec)
    → All (λ c. (b.name == c.name) ≡ false) bs
    → New topology bs
    → New (Map.put topology b.name (resource_of b)) bs
still-New b topology [] ne new = tt
still-New b topology (c ∷ cs) ne new = (
  rw (get-put topology b.name (resource_of b) c.name, ne.0) new.0,
  still-New b topology cs ne.1 new.1,
)

same_absent :
    (b : BridgeSpec) (bs : List BridgeSpec) (name : String)
    → (b.name == name) ≡ true
    → All (λ c. (b.name == c.name) ≡ false) bs
    → find_bridge name bs ≡ none
same_absent b bs name same ne =
    absent name bs
      (subst (λ n. All (λ c. (n == c.name) ≡ false) bs) ((eq_iff b.name name).0 same) ne)

blank_resource :
    (b : BridgeSpec) (bs : List BridgeSpec) (topology : Map String) (name : String)
    → (b.topology_resource == "") ≡ true
    → All (λ c. (b.name == c.name) ≡ false) bs
    → or_else (topology_of (find_bridge name bs)) (Map.get topology name)
      ≡ or_else (topology_of (find_bridge name (b ∷ bs))) (Map.get topology name)
unfolding find_bridge
blank_resource b bs topology name blank ne = elim (Bool-cases (b.name == name)) [
  | inl same ↦ rw (same, same_absent b bs name same ne, blank) refl
  | inr other ↦ rw other refl
]

own_resource :
    (b : BridgeSpec) (bs : List BridgeSpec) (topology : Map String) (name : String)
    → (b.topology_resource == "") ≡ false
    → All (λ c. (b.name == c.name) ≡ false) bs
    → Map.get topology b.name ≡ none
    → or_else
        (topology_of (find_bridge name bs))
        (Map.get (Map.put topology b.name (resource_of b)) name)
      ≡ or_else (topology_of (find_bridge name (b ∷ bs))) (Map.get topology name)
unfolding find_bridge
own_resource b bs topology name asks ne new = elim (Bool-cases (b.name == name)) [
  | inl same ↦
      rw (get-put topology b.name (resource_of b) name, same, same_absent b bs name same ne, asks)
        refl
  | inr other ↦ rw (get-put topology b.name (resource_of b) name, other) refl
]

-- Bridges of different names that are not in the topology can be grouped.
pub group_distinct :
    (bs : List BridgeSpec) (g : Groups)
    → AreDistinct bs
    → New g.0 bs
    → (g' : Groups) × (group_bridges bs g ≡ ok g') × Grouped bs g g'
unfolding group_bridges add_bridge find_bridge
group_distinct [] g d new = (g, refl, λ name. refl)
group_distinct (b ∷ bs) g d new = elim (Bool-cases (b.topology_resource == "")) [
  | inl blank ↦
      let (g', e, same) = group_distinct bs g d.1 new.1 in
      (g', rw (blank, group_bridges) e, λ name. same name ∙ blank_resource b bs g.0 name blank d.0)
  | inr asks ↦
      let (g', e, same) = group_distinct bs (fresh_groups b g) d.1 (still-New b g.0 bs d.0 new.1) in
      (
        g',
        rw (asks, group_bridges, new.0, add_bridge) e,
        λ name. same name ∙ own_resource b bs g.0 name asks d.0 new.0,
      )
]

or_else-none : (o : Option String) → or_else o none ≡ o
or_else-none none = refl
or_else-none (some r) = refl

all_New : (bs : List BridgeSpec) → New [] bs
unfolding Map.get
all_New [] = tt
all_New (b ∷ bs) = (refl, all_New bs)

-- Bridges of different names are not rejected: afterwards the topology has for each name the resource
-- that the bridge of that name asks for.
pub update_resources-topology :
    {W : Type 0} (api : ServerApi W) (nodes : String → List ℤ) (bs : List BridgeSpec) (m : Manager)
    (w : W)
    → AreDistinct bs
    → (name : String)
    → Map.get (update_resources api nodes bs m w).1.0.topology name
      ≡ topology_of (find_bridge name bs)
unfolding update_resources reconcile Map.get
update_resources-topology api nodes bs m w d name =
    let (g, e, same) = group_distinct bs ([], []) d (all_New bs) in
    rw (e, update_resources) (same name ∙ or_else-none (topology_of (find_bridge name bs)))
