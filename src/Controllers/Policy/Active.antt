-- ===== src/Controllers/Policy/Active.antt =====
-- Which bridges a reconciliation hands on.
use dra_driver_ovsdpdk_upstr.Base.{
  String, ◌≡◌, ◌∙◌, ◌↔◌, ◌⊎◌, refl, inl, inr, Bool, true, false, Option, none, some, Option-cases,
  List, [], ◌∷◌, ◌++◌, ℤ, ok, Exec, Bool-cases, select, if◌then◌else◌,
}
use dra_driver_ovsdpdk_upstr.Api.{BridgeSpec}
use dra_driver_ovsdpdk_upstr.Controllers.Policy.{
  Cluster, NodeSelector, OvsDpdkResourcePolicy, System, selected, matches_node_selector,
  present_bridges, active_bridges, hand_over, with_node, reconcile_on, reconcile,
}
use dra_driver_ovsdpdk_upstr.DevicePlugin.{ServerApi}
use dra_driver_ovsdpdk_upstr.DeviceState.Policy.{RepublishCallback}

module _ {W Term NodeMeta Selector : Type 0} (cluster : Cluster W Term NodeMeta Selector)
    (node : NodeMeta) where
  -- There is no selector, or it has no terms, or it can be parsed and matches the node.
  abbrev pub Matches : Option (NodeSelector Term) → Type 0
  Matches none = Unit
  Matches (some ns) =
      (ns.node_selector_terms ≡ [])
      ⊎ ((selector : Selector) × (cluster.new_node_selector ns ≡ some selector)
          × (cluster.match_node selector node ≡ true))

  -- A test for the policies whose selector matches.
  abbrev pub Chooses : (OvsDpdkResourcePolicy Term → Bool) → Type 0
  Chooses chosen = (p : OvsDpdkResourcePolicy Term) → (chosen p ≡ true) ↔ Matches p.node_selector

  matches_node_selector_iff :
      (o : Option (NodeSelector Term)) → (matches_node_selector cluster node o ≡ true) ↔ Matches o
  unfolding matches_node_selector
  matches_node_selector_iff none = (λ h. tt, λ h. refl)
  matches_node_selector_iff (some ns) = terms ns.node_selector_terms
    where
      terms :
          (ts : List Term)
          → ((elim ts [ [] ↦ true | _ ∷ _ ↦ selected cluster node (cluster.new_node_selector ns) ])
              ≡ true)
            ↔ ((ts ≡ [])
                ⊎ ((selector : Selector) × (cluster.new_node_selector ns ≡ some selector)
                    × (cluster.match_node selector node ≡ true)))
      terms [] = (λ h. inl refl, λ h. refl)
      terms (t ∷ ts) = elim (Option-cases (cluster.new_node_selector ns)) [
        | inl e ↦ rw e (λ h. cc h, λ h. elim h [ inl f ↦ cc f | inr (x, f, g) ↦ cc f ])
        | inr (selector, e) ↦
            rw e
              (λ h. inr (selector, refl, h), λ h. elim h [ inl f ↦ cc f | inr (x, f, g) ↦ rw f g ])
      ]

  same_test :
      (test : Bool) (o : Option (NodeSelector Term))
      → (test ≡ true) ↔ Matches o
      → matches_node_selector cluster node o ≡ test
  same_test true o iff = (matches_node_selector_iff o).1 (iff.0 refl)
  same_test false o iff = elim (Bool-cases (matches_node_selector cluster node o)) [
    | inl e ↦ absurd (cc (iff.1 ((matches_node_selector_iff o).0 e)))
    | inr e ↦ e
  ]

module _ {W Term NodeMeta Selector : Type 0} (cluster : Cluster W Term NodeMeta Selector)
    (bridge_exists : String → Exec W Bool) (present : String → Bool) where
  -- Looking a bridge up changes nothing and does not fail.
  abbrev pub OnlyLooks : Type 0
  OnlyLooks = (b : String) (w : W) → bridge_exists b w ≡ (ok (present b), w)

  -- The bridges that are present, of the chosen policies, in the policies' order.
  abbrev pub wanted_bridges :
      (OvsDpdkResourcePolicy Term → Bool) → List (OvsDpdkResourcePolicy Term) → List BridgeSpec
  wanted_bridges chosen [] = []
  wanted_bridges chosen (p ∷ ps) =
      let rest = wanted_bridges chosen ps in
      if chosen p then select (λ b. present b.name) p.bridges ++ rest else rest

  present_bridges_lem :
      OnlyLooks
      → (bs : List BridgeSpec) (w : W)
      → present_bridges cluster bridge_exists bs w ≡ (ok (select (λ b. present b.name) bs), w)
  unfolding present_bridges select
  present_bridges_lem looks [] w = refl
  present_bridges_lem looks (b ∷ bs) w =
      rw (looks b.name w, present_bridges_lem looks bs w, present_bridges) refl

  active_bridges_lem :
      OnlyLooks
      → (node : NodeMeta) (chosen : OvsDpdkResourcePolicy Term → Bool) → Chooses cluster node chosen
      → (ps : List (OvsDpdkResourcePolicy Term)) (w : W)
      → active_bridges cluster bridge_exists node ps w ≡ (ok (wanted_bridges chosen ps), w)
  unfolding active_bridges
  active_bridges_lem looks node chosen chooses [] w = refl
  active_bridges_lem looks node chosen chooses (p ∷ ps) w =
      let agrees = same_test cluster node (chosen p) p.node_selector (chooses p) in
      elim (Bool-cases (chosen p)) [
        | inl e ↦
            rw
              (
                agrees ∙ e,
                e,
                active_bridges,
                present_bridges_lem looks p.bridges w,
                active_bridges_lem looks node chosen chooses ps w,
              )
              refl
        | inr e ↦
            rw (agrees ∙ e, e, active_bridges) (active_bridges_lem looks node chosen chooses ps w)
      ]

  module _ (api : ServerApi W) (nodes : W → String → List ℤ)
      (callback : Option (RepublishCallback W)) where
    -- If the node and the policies can be read, and looking a bridge up in OVS changes nothing and does
    -- not fail, a reconciliation hands the device state and the device plugin manager exactly the bridges
    -- that are present in OVS, of the policies of the namespace that have no node selector, or one without
    -- terms, or one that can be parsed and matches the node, in the order of the policies.
    pub reconcile_hands_over :
        (node_name namespace : String) (s : System W) (node : NodeMeta)
        (ps : List (OvsDpdkResourcePolicy Term)) (w₁ w₂ : W)
        (chosen : OvsDpdkResourcePolicy Term → Bool)
        → OnlyLooks
        → Chooses cluster node chosen
        → cluster.get_node node_name s.world ≡ (ok node, w₁)
        → cluster.list_policies namespace w₁ ≡ (ok ps, w₂)
        → reconcile cluster bridge_exists api nodes callback node_name namespace s
          ≡ hand_over cluster bridge_exists api nodes callback
              (wanted_bridges chosen ps)
              (record s { world = w₂ })
    unfolding reconcile with_node reconcile_on
    reconcile_hands_over node_name namespace s node ps w₁ w₂ chosen looks chooses found listed =
        rw (found, reconcile, with_node, listed, active_bridges_lem looks node chosen chooses ps w₂)
          refl
