-- ===== src/DevicePlugin/Ensure.antt =====
-- What ensuring the servers of resources leaves.
use dra_driver_ovsdpdk_upstr.Base.{
  ℕ, String, ◌≡◌, refl, sym, ap, ◌∙◌, subst, ◌≢◌, ◌⊎◌, inl, inr, false, Option, none, some, List,
  [], ◌∷◌, ℤ, pos, negsuc, eq_ℤ, eq_ℤ_iff, Error, Bool-cases, Option-cases, ◌==◌, eq_iff, arith,
}
use dra_driver_ovsdpdk_upstr.Base.Map
use dra_driver_ovsdpdk_upstr.Base.Map.{Map, get-put, get-delete, get-put_self, get-delete_self}
use dra_driver_ovsdpdk_upstr.DevicePlugin.{
  Server, ServerApi, new_server, get_consistent_numa, start_server, start_if_valid, ensure_at,
  ensure_server, stop_unwanted,
}

-- The server that a resource has whose bridges agree on `numa`; none for -1.
abbrev pub wanted_server : String → ℤ → Option Server
wanted_server resource (pos numa) = some (new_server resource numa)
wanted_server resource (negsuc _) = none

-- Each server is one that was made for its resource, on a node.
abbrev pub AreMade : Map Server → Type 0
AreMade servers =
    (r : String) (s : Server) → Map.get servers r ≡ some s → (n : ℕ) × (s ≡ new_server r n)

-- After a call that returned `failed`, `servers'` has the wanted server of the resource, or none if the
-- call failed, and for others what `servers` has.
pub record Ensured (resource : String) (numa : ℤ) (failed : Option Error)
    (servers servers' : Map Server) : Type 0 where
  pub others : (q : String) → (resource == q) ≡ false → Map.get servers' q ≡ Map.get servers q
  pub done : failed ≡ none → Map.get servers' resource ≡ wanted_server resource numa
  pub not_done : (e : Error) → failed ≡ some e → Map.get servers' resource ≡ none

module _ {W : Type 0} (api : ServerApi W) where
  start-Ensured :
      (resource : String) (numa : ℤ) (servers : Map Server) (w : W)
      → Map.get servers resource ≡ none
      → let r = start_if_valid api resource numa servers w in
        Ensured resource numa r.0 servers r.1.0
  unfolding start_if_valid start_server
  start-Ensured resource (negsuc k) servers w free = record {
    others = λ q ne. refl;
    done = λ h. free;
    not_done = λ e h. free;
  }
  start-Ensured resource (pos numa) servers w free =
      elim (Option-cases (api.start (new_server resource numa) w).0) [
        | inl e ↦
            rw (e, start_if_valid, start_server)
              (record {
                others = λ q ne. rw (get-put servers resource (new_server resource numa) q, ne);
                done = λ h. get-put_self servers resource (new_server resource numa);
                not_done = λ x h. cc h;
              })
        | inr (x, e) ↦
            rw (e, start_if_valid, start_server)
              (record { others = λ q ne. refl; done = λ h. cc h; not_done = λ y h. free })
      ]

  ensure_at-Ensured :
      (resource : String) (numa : ℤ) (servers : Map Server) (w : W)
      → AreMade servers
      → let r = ensure_at api resource numa servers w in Ensured resource numa r.0 servers r.1.0
  unfolding ensure_at
  ensure_at-Ensured resource numa servers w made = elim (Option-cases (Map.get servers resource)) [
    | inl e ↦ rw (e, ensure_at) (start-Ensured resource numa servers w e)
    | inr (srv, e) ↦ elim (Bool-cases (eq_ℤ srv.numa_node numa)) [
      | inl same ↦
          rw (e, same, ensure_at)
            (record {
              others = λ q ne. refl;
              done = λ h. kept srv e ((eq_ℤ_iff srv.numa_node numa).0 same);
              not_done = λ x h. cc h;
            })
      | inr other ↦ rw (e, other, ensure_at) (after_delete srv)
    ]
  ]
    where
      kept :
          (srv : Server)
          → Map.get servers resource ≡ some srv
          → srv.numa_node ≡ numa
          → Map.get servers resource ≡ wanted_server resource numa
      kept srv e same =
          let (n, it) = made resource srv e in
          subst (λ z. Map.get servers resource ≡ wanted_server resource z)
            (sym (ap (λ s. s.numa_node) it) ∙ same) (e ∙ ap some it)

      after_delete :
          (srv : Server)
          → let r =
              start_if_valid api resource numa (Map.delete servers resource) (api.stop srv w) in
            Ensured resource numa r.0 servers r.1.0
      after_delete srv =
          let started =
            start-Ensured resource numa (Map.delete servers resource) (api.stop srv w)
              (get-delete_self servers resource) in
          record {
            others = λ q ne. started.others q ne ∙ rw (get-delete servers resource q, ne);
            done = started.done;
            not_done = started.not_done;
          }

  pub ensure_server-Ensured :
      (nodes : String → List ℤ) (resource : String) (bridges : List String) (servers : Map Server)
      (w : W)
      → AreMade servers
      → let r = ensure_server api nodes resource bridges servers w in
        Ensured resource (get_consistent_numa nodes bridges) r.0 servers r.1.0
  unfolding ensure_server
  ensure_server-Ensured nodes resource bridges servers w made =
      ensure_at-Ensured resource (get_consistent_numa nodes bridges) servers w made

wanted-IsMade :
    (r : String) (numa : ℤ) (s : Server)
    → wanted_server r numa ≡ some s
    → (n : ℕ) × (s ≡ new_server r n)
wanted-IsMade r (pos n) s h = (n, cc h)
wanted-IsMade r (negsuc n) s h = absurd (cc h)

pub Ensured-AreMade :
    (r : String) (numa : ℤ) (failed : Option Error) (servers servers' : Map Server)
    → Ensured r numa failed servers servers'
    → AreMade servers
    → AreMade servers'
Ensured-AreMade r numa failed servers servers' ensured made q s h = elim (Bool-cases (r == q)) [
  | inr other ↦ made q s (sym (ensured.others q other) ∙ h)
  | inl same ↦
      let there : Map.get servers' r ≡ some s =
        subst (λ x. Map.get servers' x ≡ some s) (sym ((eq_iff r q).0 same)) h in
      let it : (n : ℕ) × (s ≡ new_server r n) = elim (Option-cases failed) [
        | inl e ↦ wanted-IsMade r numa s (sym (ensured.done e) ∙ there)
        | inr (x, e) ↦ absurd (cc (ensured.not_done x e, there))
      ] in
      (it.0, it.1 ∙ ap (λ x. new_server x it.0) ((eq_iff r q).0 same))
]

module _ {W : Type 0} (api : ServerApi W) where
  -- Of the servers that are among the entries, those of no resource are stopped.
  pub stop_unwanted_keeps :
      (entries : Map Server) (groups : Map (List String)) (servers : Map Server) (w : W)
      (q : String) (names : List String)
      → Map.get groups q ≡ some names
      → Map.get (stop_unwanted api entries groups servers w).0 q ≡ Map.get servers q
  unfolding stop_unwanted
  stop_unwanted_keeps [] groups servers w q names h = refl
  stop_unwanted_keeps ((r, srv) ∷ rest) groups servers w q names h =
      elim (Option-cases (Map.get groups r)) [
        | inr (ns, e) ↦ rw (e, stop_unwanted) (stop_unwanted_keeps rest groups servers w q names h)
        | inl e ↦
            rw (e, stop_unwanted)
              (stop_unwanted_keeps rest groups (Map.delete servers r) (api.stop srv w) q names h
                ∙ ground (arith, e, h, get-delete servers r q, eq_iff r q))
      ]

  pub stop_unwanted_stops :
      (entries : Map Server) (groups : Map (List String)) (servers : Map Server) (w : W)
      (q : String)
      → Map.get groups q ≡ none
      → (Map.get servers q ≡ none) ⊎ (Map.get entries q ≢ none)
      → Map.get (stop_unwanted api entries groups servers w).0 q ≡ none
  unfolding stop_unwanted Map.get
  stop_unwanted_stops [] groups servers w q h c = ground (arith, c)
  stop_unwanted_stops ((r, srv) ∷ rest) groups servers w q h c =
      elim (Option-cases (Map.get groups r)) [
        | inr (ns, e) ↦
            rw (e, stop_unwanted)
              (stop_unwanted_stops rest groups servers w q h (ground (arith, c, e, h, eq_iff r q)))
        | inl e ↦
            rw (e, stop_unwanted)
              (stop_unwanted_stops rest groups (Map.delete servers r) (api.stop srv w) q h
                (ground (arith, c, get-delete servers r q)))
      ]
