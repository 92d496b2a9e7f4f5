-- ===== src/DevicePlugin/Reconcile.antt =====
-- What the loop over the resources of `UpdateResources` leaves.
use dra_driver_ovsdpdk_upstr.Base.{
  String, ◌≡◌, refl, ◌∙◌, ◌≢◌, ◌⊎◌, inl, inr, Option, none, some, List, [], ◌∷◌, ◌++◌, ℤ, Error,
  Bool-cases, Option-cases, ◌==◌, eq_iff, arith,
}
use dra_driver_ovsdpdk_upstr.Base.Map
use dra_driver_ovsdpdk_upstr.Base.Map.{Map, Keyed, get-Fresh}
use dra_driver_ovsdpdk_upstr.DevicePlugin.{
  Server, ServerApi, get_consistent_numa, ensure_server, wrapped, ensure_all,
}
use dra_driver_ovsdpdk_upstr.DevicePlugin.Ensure.{
  wanted_server, AreMade, Ensured, ensure_server-Ensured, Ensured-AreMade,
}

-- Resources that are not in `groups` have what they had; the others have the server that their bridges
-- ask for, or, where there were errors, perhaps none.
pub record AllEnsured (nodes : String → List ℤ) (groups : Map (List String)) (errs : List Error)
    (servers servers' : Map Server) : Type 0 where
  pub made : AreMade servers'
  pub others : (q : String) → Map.get groups q ≡ none → Map.get servers' q ≡ Map.get servers q
  pub wanted :
      (q : String) (names : List String)
      → Map.get groups q ≡ some names
      → (Map.get servers' q ≡ wanted_server q (get_consistent_numa nodes names))
        ⊎ ((Map.get servers' q ≡ none) × (errs ≢ []))

wrapped-ne :
    (failed : Option Error) (e : Error) (errs : List Error)
    → failed ≡ some e
    → wrapped failed ++ errs ≢ []
unfolding wrapped
wrapped-ne failed e errs h x = ground (arith, h, x)

more_errors : (failed : Option Error) (errs : List Error) → errs ≢ [] → wrapped failed ++ errs ≢ []
unfolding wrapped
more_errors none errs ne = ne
more_errors (some e) errs ne = λ h. cc h

module _ (nodes : String → List ℤ) (resource : String) (bridges : List String)
    (rest : Map (List String)) where
  -- One resource, and then the rest.
  cons-AllEnsured :
      (failed : Option Error) (errs : List Error) (servers mid servers' : Map Server)
      → Keyed ((resource, bridges) ∷ rest)
      → Ensured resource (get_consistent_numa nodes bridges) failed servers mid
      → AllEnsured nodes rest errs mid servers'
      → AllEnsured nodes ((resource, bridges) ∷ rest) (wrapped failed ++ errs) servers servers'
  unfolding Map.get
  cons-AllEnsured failed errs servers mid servers' keyed ensured later = record {
    made = later.made;
    others = others;
    wanted = wanted;
  }
    where
      others :
          (q : String)
          → Map.get ((resource, bridges) ∷ rest) q ≡ none
          → Map.get servers' q ≡ Map.get servers q
      others q h = elim (Bool-cases (resource == q)) [
        | inl same ↦ absurd (ground (arith, same, h))
        | inr other ↦ later.others q (ground (arith, other, h)) ∙ ensured.others q other
      ]

      wanted :
          (q : String) (names : List String)
          → Map.get ((resource, bridges) ∷ rest) q ≡ some names
          → (Map.get servers' q ≡ wanted_server q (get_consistent_numa nodes names))
            ⊎ ((Map.get servers' q ≡ none) × (wrapped failed ++ errs ≢ []))
      wanted q names h = elim (Bool-cases (resource == q)) [
        | inl same ↦
            let here : resource ≡ q = (eq_iff resource q).0 same in
            let it : bridges ≡ names = ground (arith, same, h) in
            let kept : Map.get servers' resource ≡ Map.get mid resource =
              later.others resource (get-Fresh rest resource keyed.0) in
            elim (Option-cases failed) [
              | inl e ↦ let d = ensured.done e in inl (cc (here, it, kept, d))
              | inr (x, e) ↦
                  let d = ensured.not_done x e in
                  inr (cc (here, kept, d), wrapped-ne failed x errs e)
            ]
        | inr other ↦ elim (later.wanted q names (ground (arith, other, h))) [
          | inl e ↦ inl e
          | inr (e, ne) ↦ inr (e, more_errors failed errs ne)
        ]
      ]

module _ {W : Type 0} (api : ServerApi W) (nodes : String → List ℤ) where
  pub ensure_all-AllEnsured :
      (groups : Map (List String)) (servers : Map Server) (w : W)
      → Keyed groups
      → AreMade servers
      → let r = ensure_all api nodes groups servers w in AllEnsured nodes groups r.0 servers r.1.0
  unfolding ensure_all Map.get
  ensure_all-AllEnsured [] servers w keyed made = record {
    made = made;
    others = λ q h. refl;
    wanted = λ q names h. absurd (cc h);
  }
  ensure_all-AllEnsured ((resource, bridges) ∷ rest) servers w keyed made =
      let first = ensure_server api nodes resource bridges servers w in
      let ensured = ensure_server-Ensured api nodes resource bridges servers w made in
      let later =
        ensure_all-AllEnsured rest first.1.0 first.1.1 keyed.1
          (Ensured-AreMade resource _ first.0 servers first.1.0 ensured made) in
      cons-AllEnsured nodes resource bridges rest first.0 _ servers first.1.0 _ keyed ensured later
