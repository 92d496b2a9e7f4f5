-- ===== src/DevicePlugin/Conflicts.antt =====
-- Which bridges `UpdateResources` of pkg/deviceplugin/manager.go can group by resource.
use dra_driver_ovsdpdk_upstr.Base.{
  String, ◌≡◌, refl, sym, ap, ◌∙◌, ◌↔◌, inl, inr, false, none, some, List, [], ◌∷◌, ok, Bool-cases,
  Option-cases, All, ◌==◌, eq_iff, arith,
}
use dra_driver_ovsdpdk_upstr.Base.Map
use dra_driver_ovsdpdk_upstr.Base.Map.{get-put}
use dra_driver_ovsdpdk_upstr.Api.{BridgeSpec}
use dra_driver_ovsdpdk_upstr.DevicePlugin.{resource_of, Groups, add_bridge, group_bridges}
use dra_driver_ovsdpdk_upstr.DevicePlugin.Grouping.{fresh_groups}

abbrev Asks : BridgeSpec → Type 0
Asks b = (b.topology_resource == "") ≡ false

-- Two bridges that are one, and ask for resources, ask for the same one.
abbrev Compatible : BridgeSpec → BridgeSpec → Type 0
Compatible b c = Asks b → Asks c → b.name ≡ c.name → resource_of b ≡ resource_of c

-- Any two of the bridges are compatible.
abbrev pub AreCompatible : List BridgeSpec → Type 0
AreCompatible [] = Unit
AreCompatible (b ∷ bs) = All (Compatible b) bs × AreCompatible bs

-- A bridge asks for no other resource than the topology gives it.
abbrev Fits : Groups → BridgeSpec → Type 0
Fits g c = Asks c → (r : String) → Map.get g.0 c.name ≡ some r → r ≡ resource_of c

All-map :
    {P Q : BridgeSpec → Type 0}
    → ((c : BridgeSpec) → P c → Q c)
    → (bs : List BridgeSpec) → All P bs
    → All Q bs
All-map f [] all = tt
All-map f (b ∷ bs) all = (f b all.0, All-map f bs all.1)

All-of : {P : BridgeSpec → Type 0} → ((c : BridgeSpec) → P c) → (bs : List BridgeSpec) → All P bs
All-of f [] = tt
All-of f (b ∷ bs) = (f b, All-of f bs)

All-zip :
    (P Q : BridgeSpec → Type 0) (bs : List BridgeSpec)
    → All P bs
    → All Q bs
    → All (λ c. P c × Q c) bs
All-zip P Q [] p q = tt
All-zip P Q (b ∷ bs) p q = ((p.0, q.0), All-zip P Q bs p.1 q.1)

module _ (b : BridgeSpec) (g : Groups) (asks : Asks b) where
  fresh-Fits :
      Map.get g.0 b.name ≡ none
      → (c : BridgeSpec) → Fits (fresh_groups b g) c ↔ (Fits g c × Compatible b c)
  fresh-Fits new c = elim (Bool-cases (b.name == c.name)) [
    | inl same ↦
        let one : b.name ≡ c.name = (eq_iff b.name c.name).0 same in
        let here : Map.get (fresh_groups b g).0 c.name ≡ some (resource_of b) =
          ground (arith, same, get-put g.0 b.name (resource_of b) c.name) in
        let before : Map.get g.0 c.name ≡ none = ap (Map.get g.0) (sym one) ∙ new in
        (
          λ f. (λ a r h. absurd (cc (before, h)), λ _ a n. f a (resource_of b) here),
          λ (_, k) a r h. let it : r ≡ resource_of b = cc (here, h) in it ∙ k asks a one,
        )
    | inr other ↦
        let there : Map.get (fresh_groups b g).0 c.name ≡ Map.get g.0 c.name =
          ground (arith, other, get-put g.0 b.name (resource_of b) c.name) in
        (
          λ f. (
            λ a r h. f a r (there ∙ h),
            λ _ a n. absurd (ground (arith, other, (eq_iff b.name c.name).1 n)),
          ),
          λ (f, _) a r h. f a r (sym there ∙ h),
        )
  ]

  known-Compatible :
      (r : String)
      → Map.get g.0 b.name ≡ some r
      → r ≡ resource_of b
      → (c : BridgeSpec) → Fits g c
      → Compatible b c
  known-Compatible r e same c f _ a n = sym same ∙ f a r (ap (Map.get g.0) (sym n) ∙ e)

accepted-AreCompatible :
    (bs : List BridgeSpec) (g g' : Groups)
    → group_bridges bs g ≡ ok g'
    → All (Fits g) bs × AreCompatible bs
unfolding group_bridges add_bridge
accepted-AreCompatible [] g g' h = (tt, tt)
accepted-AreCompatible (b ∷ bs) g g' h = elim (Bool-cases (b.topology_resource == "")) [
  | inl blank ↦
      let (fits, are) = accepted-AreCompatible bs g g' (rw (blank, group_bridges) at h) in
      (
        (λ asks. absurd (cc (blank, asks)), fits),
        (All-of (λ c asks. absurd (cc (blank, asks))) bs, are),
      )
  | inr asks ↦ elim (Option-cases (Map.get g.0 b.name)) [
    | inl e ↦
        let (fits, are) =
          accepted-AreCompatible bs (fresh_groups b g) g'
            (rw (asks, e, group_bridges, add_bridge) at h) in
        (
          (λ a r k. absurd (cc (e, k)), All-map (λ c f. ((fresh-Fits b g asks e c).0 f).0) bs fits),
          (All-map (λ c f. ((fresh-Fits b g asks e c).0 f).1) bs fits, are),
        )
    | inr (existing, e) ↦ elim (Bool-cases (existing == resource_of b)) [
      | inl same ↦
          let one = (eq_iff existing (resource_of b)).0 same in
          let (fits, are) =
            accepted-AreCompatible bs g g' (rw (asks, e, same, group_bridges, add_bridge) at h) in
          (
            (λ a r k. let it : r ≡ existing = cc (e, k) in it ∙ one, fits),
            (All-map (known-Compatible b g asks existing e one) bs fits, are),
          )
      | inr other ↦ absurd (cc (rw (asks, e, other, group_bridges, add_bridge) at h))
    ]
  ]
]

compatible-accepted :
    (bs : List BridgeSpec) (g : Groups)
    → All (Fits g) bs
    → AreCompatible bs
    → (g' : Groups) × (group_bridges bs g ≡ ok g')
unfolding group_bridges add_bridge
compatible-accepted [] g fits are = (g, refl)
compatible-accepted (b ∷ bs) g fits are = elim (Bool-cases (b.topology_resource == "")) [
  | inl blank ↦ rw (blank, group_bridges) (compatible-accepted bs g fits.1 are.1)
  | inr asks ↦ elim (Option-cases (Map.get g.0 b.name)) [
    | inl e ↦
        rw (asks, e, group_bridges, add_bridge)
          (compatible-accepted bs (fresh_groups b g)
            (All-map (λ c. (fresh-Fits b g asks e c).1) bs
              (All-zip (Fits g) (Compatible b) bs fits.1 are.0))
            are.1)
    | inr (existing, e) ↦
        rw
          (
            asks,
            e,
            (eq_iff existing (resource_of b)).1 (fits.0 asks existing e),
            group_bridges,
            add_bridge,
          )
          (compatible-accepted bs g fits.1 are.1)
  ]
]

-- `UpdateResources` can group the bridges by resource exactly if bridges of one name that ask for
-- resources ask for the same one.
pub group_bridges_iff :
    (bs : List BridgeSpec) → ((g : Groups) × (group_bridges bs ([], []) ≡ ok g)) ↔ AreCompatible bs
unfolding Map.get
group_bridges_iff bs = (
  λ (g, h). (accepted-AreCompatible bs ([], []) g h).1,
  compatible-accepted bs ([], []) (All-of (λ c a r h. cc h) bs),
)
