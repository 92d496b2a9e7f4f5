-- ===== src/DevicePlugin/Sync.antt =====
-- Which servers run after `UpdateResources`.
use dra_driver_ovsdpdk_upstr.Base.{
  ℕ, String, ◌≡◌, refl, sym, ◌∙◌, ◌≢◌, ◌↔◌, ◌⊎◌, inl, inr, Option, none, some, List, [], ◌∷◌, ℤ,
  Error, Result, Result-cases, Option-cases, ok, err, join_errors, of_error, All, arith,
}
use dra_driver_ovsdpdk_upstr.Base.Map
use dra_driver_ovsdpdk_upstr.Base.Map.{Map, Keyed}
use dra_driver_ovsdpdk_upstr.Api.{BridgeSpec}
use dra_driver_ovsdpdk_upstr.DevicePlugin.{
  Server, ServerApi, Manager, Groups, new_server, get_consistent_numa, stop_unwanted, group_bridges,
  reconcile, update_resources,
}
use dra_driver_ovsdpdk_upstr.DevicePlugin.Numa.{AgreeOn, get_consistent_numa_iff, numa-cases}
use dra_driver_ovsdpdk_upstr.DevicePlugin.Ensure.{
  wanted_server, AreMade, stop_unwanted_keeps, stop_unwanted_stops,
}
use dra_driver_ovsdpdk_upstr.DevicePlugin.Reconcile.{ensure_all-AllEnsured}
use dra_driver_ovsdpdk_upstr.DevicePlugin.Grouping.{
  askers, group_of, AreGroups, group_bridges_lem, group_bridges-ne-panic,
}

-- The server that a resource has is the one on the node that its bridges agree on; there is none if
-- they agree on none.
abbrev pub Serves : (String → List ℤ) → List String → String → Option Server → Type 0
Serves nodes bridges resource server =
    ((n : ℕ) × AgreeOn nodes bridges n × (server ≡ some (new_server resource n)))
    ⊎ (((n : ℕ) → ¬ AgreeOn nodes bridges n) × (server ≡ none))

pub wanted-Serves :
    (nodes : String → List ℤ) (bridges : List String) (resource : String)
    → Serves nodes bridges resource (wanted_server resource (get_consistent_numa nodes bridges))
wanted-Serves nodes bridges resource = elim (numa-cases (get_consistent_numa nodes bridges)) [
  | inl (n, e) ↦ rw e (inl (n, (get_consistent_numa_iff nodes bridges n).0 e, refl))
  | inr (n, e) ↦
      rw e (inr (λ k a. ground (arith, e, (get_consistent_numa_iff nodes bridges k).1 a), refl))
]

-- Two lists with the same elements serve alike.
empty_iff :
    (xs ys : List String) → ((P : String → Type 0) → All P xs ↔ All P ys) → xs ≡ [] → ys ≡ []
empty_iff xs [] same e = refl
empty_iff xs (y ∷ ys) same e = absurd (((same (λ z. ⊥)).0 (rw e tt)).0)

pub AgreeOn-iff :
    (nodes : String → List ℤ) (xs ys : List String) (n : ℕ)
    → ((P : String → Type 0) → All P xs ↔ All P ys)
    → AgreeOn nodes xs n
    → AgreeOn nodes ys n
AgreeOn-iff nodes xs ys n same (ne, all) =
    (λ e. ne (empty_iff ys xs (λ P. ((same P).1, (same P).0)) e), (same _).0 all)

pub Serves-iff :
    (nodes : String → List ℤ) (xs ys : List String) (r : String) (s : Option Server)
    → ((P : String → Type 0) → All P xs ↔ All P ys)
    → Serves nodes xs r s
    → Serves nodes ys r s
Serves-iff nodes xs ys r s same (inl (n, a, e)) = inl (n, AgreeOn-iff nodes xs ys n same a, e)
Serves-iff nodes xs ys r s same (inr (never, e)) =
    inr (λ n a. never n (AgreeOn-iff nodes ys xs n (λ P. ((same P).1, (same P).0)) a), e)

no_groups : AreGroups ([], [])
unfolding Map.get
no_groups = record { topology = tt; groups = tt; member = λ b r P h. absurd (cc h) }

module _ {W : Type 0} (api : ServerApi W) (nodes : String → List ℤ) (m : Manager) (w : W)
    (made : AreMade m.servers) where
  -- Each resource has the server that its group asks for, or perhaps none if there were errors.
  abbrev Follows : Groups → Option Error → Map Server → Type 0
  Follows g failed servers =
      (r : String)
      → Serves nodes (group_of g r) r (Map.get servers r)
        ⊎ ((Map.get servers r ≡ none) × (failed ≢ none))

  there : (r : String) → (Map.get m.servers r ≡ none) ⊎ (Map.get m.servers r ≢ none)
  there r = elim (Option-cases (Map.get m.servers r)) [
    | inl e ↦ inl e
    | inr (s, e) ↦ inr (λ h. cc (e, h))
  ]

  kept-AreMade : (g : Groups) → AreMade (stop_unwanted api m.servers g.1 m.servers w).0
  kept-AreMade g r s h = elim (Option-cases (Map.get g.1 r)) [
    | inl e ↦
        absurd (cc (sym (stop_unwanted_stops api m.servers g.1 m.servers w r e (there r)) ∙ h))
    | inr (names, e) ↦
        made r s (sym (stop_unwanted_keeps api m.servers g.1 m.servers w r names e) ∙ h)
  ]

  join-ne : (errs : List Error) → errs ≢ [] → join_errors errs ≢ none
  unfolding join_errors
  join-ne [] ne h = ne refl
  join-ne (e ∷ es) ne h = cc h

  reconcile-Follows :
      (g : Groups) → AreGroups g → let r = reconcile api nodes g m w in Follows g r.0 r.1.0.servers
  unfolding reconcile
  reconcile-Follows g are r =
      let kept = stop_unwanted api m.servers g.1 m.servers w in
      let all = ensure_all-AllEnsured api nodes g.1 kept.0 kept.1 are.groups (kept-AreMade g) in
      elim (Option-cases (Map.get g.1 r)) [
        | inl e ↦ inl (
            rw e (
              inr (
                λ n a. a.0 refl,
                all.others r e ∙ stop_unwanted_stops api m.servers g.1 m.servers w r e (there r),
              )))
        | inr (names, e) ↦ elim (all.wanted r names e) [
          | inl is ↦ inl (rw (e, is) (wanted-Serves nodes names r))
          | inr (is, ne) ↦ inr (is, join-ne _ ne)
        ]
      ]

  abbrev pub Reconciled : List BridgeSpec → Result (Unit {0}) → Manager → Type 0
  Reconciled bs result m' =
      (r : String)
      → Serves nodes (askers bs r) r (Map.get m'.servers r)
        ⊎ ((Map.get m'.servers r ≡ none) × (result ≢ ok tt))

  abbrev pub Rejected : List BridgeSpec → Result (Unit {0}) → Manager → W → Type 0
  Rejected bs result m' w' =
      (e : Error) × (group_bridges bs ([], []) ≡ err e) × (result ≡ err e) × (m' ≡ m) × (w' ≡ w)

  -- `UpdateResources` either rejects bridges that cannot be grouped by resource and changes nothing, or
  -- leaves each resource with the one server on the NUMA node that all bridges asking for it have as
  -- their only node, and no server where there is no such node; where it returns an error, a resource
  -- may lack its server, and none has a server on another node.
  pub update_resources_lem :
      (bs : List BridgeSpec)
      → let r = update_resources api nodes bs m w in
        Reconciled bs r.0 r.1.0 ⊎ Rejected bs r.0 r.1.0 r.1.1
  unfolding update_resources Map.get
  update_resources_lem bs = elim (Result-cases (group_bridges bs ([], []))) [
    | inl (g, e) ↦
        let (are, same) = group_bridges_lem bs ([], []) g no_groups e in
        rw (e, update_resources)
          (inl (λ r.
            followed bs g (reconcile api nodes g m w).0 r (λ P. same P r)
              (reconcile-Follows g are r)))
    | inr (inl (x, e)) ↦ rw (e, update_resources) (inr (x, refl, refl, refl, refl))
    | inr (inr e) ↦ absurd (group_bridges-ne-panic bs ([], []) e)
  ]
    where
      failed-ne : (failed : Option Error) → failed ≢ none → of_error failed ≢ ok tt
      failed-ne none ne h = ne refl
      failed-ne (some e) ne h = cc h

      followed :
          (bs : List BridgeSpec) (g : Groups) (failed : Option Error) (r : String)
          → ((P : String → Type 0)
              → All P (group_of g r) ↔ (All P (group_of ([], []) r) × All P (askers bs r)))
          → {s : Option Server} → Serves nodes (group_of g r) r s ⊎ ((s ≡ none) × (failed ≢ none))
          → Serves nodes (askers bs r) r s ⊎ ((s ≡ none) × (of_error failed ≢ ok tt))
      followed bs g failed r same {s} (inl serves) = inl (
          Serves-iff nodes (group_of g r) (askers bs r) r s
            (λ P. (λ a. ((same P).0 a).1, λ a. (same P).1 (tt, a))) serves)
      followed bs g failed r same (inr (is, ne)) = inr (is, failed-ne failed ne)
