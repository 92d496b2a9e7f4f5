-- ===== src/DevicePlugin/Grouping.antt =====
-- The topology and the groups that `UpdateResources` makes of the bridges.
use dra_driver_ovsdpdk_upstr.Base.{
  String, ◌≡◌, refl, sym, ap, subst, ◌∙◌, ◌≢◌, ◌↔◌, inl, inr, some, List, [], ◌∷◌, ◌++◌, ok, panic,
  Bool-cases, Option-cases, All, if◌then◌else◌, ◌==◌, eq_iff, arith,
}
use dra_driver_ovsdpdk_upstr.Base.Map
use dra_driver_ovsdpdk_upstr.Base.Map.{Map, Keyed, Keyed-put, get-put}
use dra_driver_ovsdpdk_upstr.Base.Bind.{>>=-eq-ok}
use dra_driver_ovsdpdk_upstr.Api.{BridgeSpec}
use dra_driver_ovsdpdk_upstr.DevicePlugin.{resource_of, or_nil, Groups, add_bridge, group_bridges}

-- The names of the bridges that ask for a resource.
abbrev pub askers : List BridgeSpec → String → List String
askers [] resource = []
askers (b ∷ bs) resource =
    let rest = askers bs resource in
    if b.topology_resource == ""
    then rest
    else if resource_of b == resource
    then b.name ∷ rest
    else rest

abbrev pub group_of : Groups → String → List String
group_of g resource = or_nil (Map.get g.1 resource)

All-snoc :
    (P : String → Type 0) (xs : List String) (x : String) → All P (xs ++ x ∷ []) ↔ (All P xs × P x)
All-snoc P [] x = (λ h. (tt, h.0), λ h. (h.1, tt))
All-snoc P (y ∷ xs) x =
    let ih = All-snoc P xs x in
    (λ h. let r = ih.0 h.1 in ((h.0, r.0), r.1), λ h. (h.0.0, ih.1 (h.0.1, h.1)))

-- Both maps have each key once, and a bridge of the topology is in the group of its resource.
pub record AreGroups (g : Groups) : Type 1 where
  pub topology : Keyed g.0
  pub groups : Keyed g.1
  pub member :
      (b r : String) (P : String → Type 0) → Map.get g.0 b ≡ some r → All P (group_of g r) → P b

module _ (b : BridgeSpec) (g : Groups) where
  -- What adding a bridge does to the groups: the bridge is in the group of its resource.
  abbrev Added : Groups → Type 1
  Added g' =
      (P : String → Type 0) (r : String)
      → All P (group_of g' r) ↔ (All P (group_of g r) × (resource_of b ≡ r → P b.name))

  abbrev pub fresh_groups : Groups
  fresh_groups = (
    Map.put g.0 b.name (resource_of b),
    Map.put g.1 (resource_of b) (group_of g (resource_of b) ++ b.name ∷ []),
  )

  fresh-Added : Added fresh_groups
  fresh-Added P r = elim (Bool-cases (resource_of b == r)) [
    | inl same ↦
        let here : resource_of b ≡ r = (eq_iff (resource_of b) r).0 same in
        let eq : group_of fresh_groups r ≡ group_of g r ++ b.name ∷ [] =
          rw (get-put g.1 (resource_of b) (group_of g (resource_of b) ++ b.name ∷ []) r, same)
            (ap (λ x. group_of g x ++ b.name ∷ []) here) in
        let snoc = All-snoc P (group_of g r) b.name in
        (
          λ h. let (all, p) = snoc.0 (subst (All P) eq h) in (all, λ x. p),
          λ h. subst (All P) (sym eq) (snoc.1 (h.0, h.1 here)),
        )
    | inr other ↦
        let eq : group_of fresh_groups r ≡ group_of g r =
          rw (get-put g.1 (resource_of b) (group_of g (resource_of b) ++ b.name ∷ []) r, other)
            refl in
        (
          λ h. (
            subst (All P) eq h,
            λ x. absurd (ground (arith, other, (eq_iff (resource_of b) r).1 x)),
          ),
          λ h. subst (All P) (sym eq) h.0,
        )
  ]

  fresh-AreGroups : AreGroups g → AreGroups fresh_groups
  fresh-AreGroups are = record {
    topology = Keyed-put g.0 b.name (resource_of b) are.topology;
    groups = Keyed-put g.1 (resource_of b) (group_of g (resource_of b) ++ b.name ∷ []) are.groups;
    member = member;
  }
    where
      member :
          (c r : String) (P : String → Type 0)
          → Map.get fresh_groups.0 c ≡ some r
          → All P (group_of fresh_groups r)
          → P c
      member c r P h all =
          let (before, new) = (fresh-Added P r).0 all in
          elim (Bool-cases (b.name == c)) [
            | inl same ↦
                subst P ((eq_iff b.name c).0 same)
                  (new (ground (arith, same, h, get-put g.0 b.name (resource_of b) c)))
            | inr other ↦
                are.member c r P (ground (arith, other, h, get-put g.0 b.name (resource_of b) c))
                  before
          ]

  again-Added : AreGroups g → Map.get g.0 b.name ≡ some (resource_of b) → Added g
  again-Added are e P r = (λ all. (all, λ x. are.member b.name r P (cc (e, x)) all), λ h. h.0)

  add-Added : (g' : Groups) → AreGroups g → add_bridge b g ≡ ok g' → AreGroups g' × Added g'
  unfolding add_bridge
  add-Added g' are h = elim (Option-cases (Map.get g.0 b.name)) [
    | inl e ↦
        let it : fresh_groups ≡ g' = cc (rw (e, add_bridge) at h) in
        subst (λ x. AreGroups x × Added x) it (fresh-AreGroups are, fresh-Added)
    | inr (existing, e) ↦ elim (Bool-cases (existing == resource_of b)) [
      | inl same ↦
          let it : g ≡ g' = cc (rw (e, same, add_bridge) at h) in
          let there : Map.get g.0 b.name ≡ some (resource_of b) =
            e ∙ ap some ((eq_iff existing (resource_of b)).0 same) in
          subst (λ x. AreGroups x × Added x) it (are, again-Added are there)
      | inr other ↦ absurd (cc (rw (e, other, add_bridge) at h))
    ]
  ]

-- The groups hold, resource by resource, the bridges that ask for it, each at least once.
pub group_bridges_lem :
    (bs : List BridgeSpec) (g g' : Groups)
    → AreGroups g
    → group_bridges bs g ≡ ok g'
    → AreGroups g'
      × ((P : String → Type 0) (r : String)
          → All P (group_of g' r) ↔ (All P (group_of g r) × All P (askers bs r)))
unfolding group_bridges
group_bridges_lem [] g g' are h =
    subst
      (λ x.
        AreGroups x
        × ((P : String → Type 0) (r : String)
            → All P (group_of x r) ↔ (All P (group_of g r) × Unit)))
      {x = g} {y = g'} (cc h) (are, λ P r. (λ a. (a, tt), λ a. a.0))
group_bridges_lem (b ∷ bs) g g' are h = elim (Bool-cases (b.topology_resource == "")) [
  | inl blank ↦
      let (are', all) = group_bridges_lem bs g g' are (rw (blank, group_bridges) at h) in
      (are', λ P r. rw blank (all P r))
  | inr asks ↦
      let (mid, added, rest) = >>=-eq-ok (add_bridge b g) _ (rw (asks, group_bridges) at h) in
      let (are', one) = add-Added b g mid are added in
      let (are'', all) = group_bridges_lem bs mid g' are' rest in
      (are'', λ P r. rw asks (both P r (all P r) (one P r)))
]
  where
    both :
        (P : String → Type 0) (r : String) {X Y Z : Type 0}
        → X ↔ (Y × All P (askers bs r))
        → Y ↔ (Z × (resource_of b ≡ r → P b.name))
        → X ↔ (Z × All P (if resource_of b == r then b.name ∷ askers bs r else askers bs r))
    both P r f g = elim (Bool-cases (resource_of b == r)) [
      | inl same ↦ rw same (
        λ x.
            let (y, a) = f.0 x in
            let (z, k) = g.0 y in (z, (k ((eq_iff (resource_of b) r).0 same), a)),
        λ (z, (p, a)). f.1 (g.1 (z, λ e. p), a),
      )
      | inr other ↦ rw other (
        λ x. let (y, a) = f.0 x in let (z, k) = g.0 y in (z, a),
        λ (z, a).
            f.1 (g.1 (z, λ e. absurd (ground (arith, other, (eq_iff (resource_of b) r).1 e))), a),
      )
    ]

pub group_bridges-ne-panic : (bs : List BridgeSpec) (g : Groups) → group_bridges bs g ≢ panic
unfolding group_bridges add_bridge
group_bridges-ne-panic [] g h = cc h
group_bridges-ne-panic (b ∷ bs) g h = elim (Bool-cases (b.topology_resource == "")) [
  | inl blank ↦ group_bridges-ne-panic bs g (rw (blank, group_bridges) at h)
  | inr asks ↦ elim (Option-cases (Map.get g.0 b.name)) [
    | inl e ↦
        group_bridges-ne-panic bs (fresh_groups b g) (rw (asks, e, group_bridges, add_bridge) at h)
    | inr (existing, e) ↦ elim (Bool-cases (existing == resource_of b)) [
      | inl same ↦ group_bridges-ne-panic bs g (rw (asks, e, same, group_bridges, add_bridge) at h)
      | inr other ↦ absurd (cc (rw (asks, e, other, group_bridges, add_bridge) at h))
    ]
  ]
]
