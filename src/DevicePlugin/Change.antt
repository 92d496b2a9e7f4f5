-- ===== src/DevicePlugin/Change.antt =====
-- Which servers run after `OnInterfaceChange`.
use dra_driver_ovsdpdk_upstr.Base.{
  ℕ, String, ◌≡◌, refl, sym, ap, subst, ◌∙◌, ◌≢◌, ◌↔◌, ◌⊎◌, inl, inr, true, Option, none, some,
  List, [], ◌∷◌, ℤ, pos, negsuc, eq_ℤ, Error, Bool-cases, Option-cases, All, ◌==◌, eq_iff, eq_refl,
  arith,
}
use dra_driver_ovsdpdk_upstr.Base.Map
use dra_driver_ovsdpdk_upstr.Base.Map.{Map, Fresh, Keyed, get-Fresh}
use dra_driver_ovsdpdk_upstr.DevicePlugin.{
  Server, ServerApi, Manager, new_server, get_consistent_numa, start_server, start_if_valid,
  ensure_at, ensure_server, bridges_of, on_interface_change,
}
use dra_driver_ovsdpdk_upstr.DevicePlugin.Numa.{AgreeOn, get_consistent_numa_iff}
use dra_driver_ovsdpdk_upstr.DevicePlugin.Ensure.{AreMade, ensure_server-Ensured}
use dra_driver_ovsdpdk_upstr.DevicePlugin.Sync.{Serves, wanted-Serves}

bridges_of-All :
    (P : String → Type 0) (topology : Map String) (r b : String)
    → All P (bridges_of topology r)
    → Map.get topology b ≡ some r
    → P b
unfolding bridges_of Map.get
bridges_of-All P [] r b a h = absurd (cc h)
bridges_of-All P ((c, q) ∷ rest) r b a h = elim (Bool-cases (c == b)) [
  | inl same ↦
      let it : (q == r) ≡ true = (eq_iff q r).1 (ground (arith, same, h)) in
      subst P ((eq_iff c b).0 same) ((rw it at a).0)
  | inr other ↦ elim (Bool-cases (q == r)) [
    | inl it ↦ bridges_of-All P rest r b (rw it at a).1 (rw other at h)
    | inr it ↦ bridges_of-All P rest r b (rw it at a) (rw other at h)
  ]
]

-- A predicate that holds for all bridges that the topology maps to a resource holds for its list.
All-bridges_of :
    (P : String → Type 0) (topology : Map String) (r : String)
    → Keyed topology
    → ((b : String) → Map.get topology b ≡ some r → P b)
    → All P (bridges_of topology r)
unfolding bridges_of Map.get
All-bridges_of P [] r keyed f = tt
All-bridges_of P ((c, q) ∷ rest) r keyed f =
    let later : All P (bridges_of rest r) =
      All-bridges_of P rest r keyed.1
        (λ b h. f b (ground (arith, h, get-Fresh rest c keyed.0, eq_iff c b))) in
    elim (Bool-cases (q == r)) [
      | inl it ↦ rw it (f c (rw (eq_refl c) ((ap some ((eq_iff q r).0 it)))), later)
      | inr it ↦ rw it later
    ]

-- Answers that differ at one bridge only are the same for the bridges of every other resource.
module _ (nodes nodes' : String → List ℤ) (bridge : String)
    (same : (c : String) → c ≢ bridge → nodes' c ≡ nodes c) where
  others-AgreeOn :
      (topology : Map String) (r : String) (n : ℕ)
      → Keyed topology
      → Map.get topology bridge ≢ some r
      → AgreeOn nodes (bridges_of topology r) n ↔ AgreeOn nodes' (bridges_of topology r) n
  others-AgreeOn topology r n keyed ne = (
    λ a. (
      a.0,
      All-bridges_of _ topology r keyed
          (λ b h. same b (λ e. ne (cc (e, h))) ∙ bridges_of-All _ topology r b a.1 h),
    ),
    λ a. (
      a.0,
      All-bridges_of _ topology r keyed
          (λ b h. sym (same b (λ e. ne (cc (e, h)))) ∙ bridges_of-All _ topology r b a.1 h),
    ),
  )

  others-Serves :
      (topology : Map String) (r : String) (s : Option Server)
      → Keyed topology
      → Map.get topology bridge ≢ some r
      → Serves nodes (bridges_of topology r) r s
      → Serves nodes' (bridges_of topology r) r s
  others-Serves topology r s keyed ne (inl (n, a, e)) =
      inl (n, (others-AgreeOn topology r n keyed ne).0 a, e)
  others-Serves topology r s keyed ne (inr (never, e)) =
      inr (λ n a. never n ((others-AgreeOn topology r n keyed ne).1 a), e)

-- Every resource has the server that its bridges ask for.
abbrev pub InSync : (String → List ℤ) → Manager → Type 0
InSync nodes m = (r : String) → Serves nodes (bridges_of m.topology r) r (Map.get m.servers r)

InSync-AreMade : (nodes : String → List ℤ) (m : Manager) → InSync nodes m → AreMade m.servers
InSync-AreMade nodes m sync r s h = elim (sync r) [
  | inl (n, a, e) ↦ (n, cc (e, h))
  | inr (never, e) ↦ absurd (cc (e, h))
]

module _ {W : Type 0} (api : ServerApi W) where
  -- From the world `w` to `w'`: the server of the resource, if it had one, was stopped, and starting one
  -- on the node that the bridges agree on was the last call, and failed.
  abbrev pub StartFailed : (String → List ℤ) → List String → String → Option Server → W → W → Type 0
  StartFailed nodes bridges r old w w' =
      (n : ℕ) × AgreeOn nodes bridges n
      × (u : W) × ((old ≡ none) × (u ≡ w)
          ⊎ ((srv : Server) × (old ≡ some srv) × (u ≡ api.stop srv w)))
      × (e : Error) × ((api.start (new_server r n) u).0 ≡ some e)
      × ((api.start (new_server r n) u).1 ≡ w')

  start_failed :
      (r : String) (numa : ℤ) (servers : Map Server) (u : W) (e : Error)
      → (start_if_valid api r numa servers u).0 ≡ some e
      → (n : ℕ) × (numa ≡ pos n)
        × ((api.start (new_server r n) u).0 ≡ some e)
        × ((api.start (new_server r n) u).1 ≡ (start_if_valid api r numa servers u).1.1)
  unfolding start_if_valid start_server
  start_failed r (negsuc k) servers u e h = absurd (cc h)
  start_failed r (pos n) servers u e h = elim (Option-cases (api.start (new_server r n) u).0) [
    | inl fine ↦ absurd (cc (rw (fine, start_if_valid, start_server) at h))
    | inr (x, failed) ↦
        let same : some x ≡ some e = rw (failed, start_if_valid, start_server) at h in
        (n, refl, failed ∙ same, rw (failed, start_if_valid, start_server) refl)
  ]

  ensure_failed :
      (nodes : String → List ℤ) (r : String) (bridges : List String) (servers : Map Server) (w : W)
      (e : Error)
      → (ensure_server api nodes r bridges servers w).0 ≡ some e
      → StartFailed nodes bridges r
          (Map.get servers r)
          w
          (ensure_server api nodes r bridges servers w).1.1
  unfolding ensure_server ensure_at
  ensure_failed nodes r bridges servers w e h =
      let agreed : (n : ℕ) → get_consistent_numa nodes bridges ≡ pos n → AgreeOn nodes bridges n =
        λ n is. (get_consistent_numa_iff nodes bridges n).0 is in
      elim (Option-cases (Map.get servers r)) [
        | inl free ↦
            let (n, is, failed, last) =
              start_failed r _ servers w e (rw (free, ensure_at, ensure_server) at h) in
            rw (free, ensure_at, ensure_server)
              (n, agreed n is, w, inl (refl, refl), e, failed, last)
        | inr (srv, has) ↦
            elim (Bool-cases (eq_ℤ srv.numa_node (get_consistent_numa nodes bridges))) [
              | inl same ↦ absurd (cc (rw (has, same, ensure_at, ensure_server) at h))
              | inr other ↦
                  let (n, is, failed, last) =
                    start_failed r _ (Map.delete servers r) (api.stop srv w) e
                      (rw (has, other, ensure_at, ensure_server) at h) in
                  rw (has, other, ensure_at, ensure_server)
                    (n, agreed n is, api.stop srv w, inr (srv, refl, refl), e, failed, last)
            ]
      ]

  -- If the servers fit the answers for all bridges, and the answers then change for one bridge,
  -- `OnInterfaceChange` of that bridge makes the servers fit the new answers: each resource has the one
  -- server on the node that its bridges agree on, or none. Only the resource of that bridge may lack
  -- its server, and only if the last call that was made was a start of its server on that node that
  -- failed, after the old server, if there was one, was stopped.
  pub on_interface_change_lem :
      (nodes nodes' : String → List ℤ) (bridge : String) (m : Manager) (w : W)
      → ((c : String) → c ≢ bridge → nodes' c ≡ nodes c)
      → Keyed m.topology
      → InSync nodes m
      → let (m', w') = on_interface_change api nodes' bridge m w in
        (m'.topology ≡ m.topology)
        × ((r : String)
            → Serves nodes' (bridges_of m.topology r) r (Map.get m'.servers r)
              ⊎ ((Map.get m.topology bridge ≡ some r)
                  × (Map.get m'.servers r ≡ none)
                  × StartFailed nodes' (bridges_of m.topology r) r (Map.get m.servers r) w w'))
  unfolding on_interface_change
  on_interface_change_lem nodes nodes' bridge m w same keyed sync =
      elim (Option-cases (Map.get m.topology bridge)) [
        | inl e ↦
            rw (e, on_interface_change)
              (
                refl,
                λ r. inl (
                    others-Serves nodes nodes' bridge same m.topology r _ keyed (λ h. cc (e, h))
                      (sync r)),
              )
        | inr (resource, e) ↦ rw (e, on_interface_change) (refl, λ r. changed resource e r)
      ]
    where
      changed :
          (resource : String)
          → Map.get m.topology bridge ≡ some resource
          → (r : String)
          → let s =
              ensure_server api nodes' resource (bridges_of m.topology resource) m.servers w in
            Serves nodes' (bridges_of m.topology r) r (Map.get s.1.0 r)
            ⊎ ((some resource ≡ some r)
                × (Map.get s.1.0 r ≡ none)
                × StartFailed nodes' (bridges_of m.topology r) r (Map.get m.servers r) w s.1.1)
      changed resource e r =
          let bridges = bridges_of m.topology resource in
          let ensured =
            ensure_server-Ensured api nodes' resource bridges m.servers w
              (InSync-AreMade nodes m sync) in
          elim (Bool-cases (resource == r)) [
            | inr other ↦ inl (
                rw (ensured.others r other) (
                  others-Serves nodes nodes' bridge same m.topology r _ keyed
                    (λ h. ground (arith, other, e, h, eq_iff resource r)) (sync r)))
            | inl it ↦
                subst
                  (λ x.
                    Serves nodes' (bridges_of m.topology x) x
                      (Map.get (ensure_server api nodes' resource bridges m.servers w).1.0 x)
                    ⊎ ((some resource ≡ some x)
                        × (Map.get (ensure_server api nodes' resource bridges m.servers w).1.0 x
                            ≡ none)
                        × StartFailed nodes' (bridges_of m.topology x) x (Map.get m.servers x) w
                            (ensure_server api nodes' resource bridges m.servers w).1.1))
                  ((eq_iff resource r).0 it)
                  (elim (Option-cases (ensure_server api nodes' resource bridges m.servers w).0) [
                    | inl fine ↦
                        inl (rw (ensured.done fine) (wanted-Serves nodes' bridges resource))
                    | inr (x, failed) ↦ inr (
                      refl,
                      ensured.not_done x failed,
                      ensure_failed nodes' resource bridges m.servers w x failed,
                    )
                  ])
          ]
